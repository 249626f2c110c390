-- ===== src/Breaker.antt =====
-- The circuit breaker of src/flowmesh/patterns/circuit_breaker.py.
-- Clock readings and the recovery timeout are numbers of ticks. A call of the breaker is two atomic
-- sections, each under its lock: `admit` before the guarded function runs, and one of
-- `record_failure` and `record_success` after it. Sections of different calls interleave.
pub mod States
pub mod Probes
pub mod Tripping
use fuzzy_octo_train.Prelude.{ℕ, ◌+◌, Bool, List, [], ◌∷◌, leb, if◌then◌else◌}

-- CLOSED, OPEN and HALF_OPEN
pub data CircuitState : Type 0 where
  closed opened half_open : CircuitState

pub record CircuitBreakerConfig : Type 0 where
  pub failure_threshold : ℕ
  pub recovery_timeout : ℕ
  pub half_open_max_calls : ℕ

pub record CircuitBreaker : Type 0 where
  pub config : CircuitBreakerConfig
  pub state : CircuitState
  pub failure_count : ℕ
  pub success_count : ℕ
  pub last_failure_time : ℕ
  pub half_open_calls : ℕ

abbrev pub init : CircuitBreakerConfig → CircuitBreaker
init config = record {
  config = config;
  state = closed;
  failure_count = 0;
  success_count = 0;
  last_failure_time = 0;
  half_open_calls = 0;
}

-- `elapsed >= recovery_timeout_seconds`, with the subtraction moved to the other side
abbrev recovered : CircuitBreaker → ℕ → Bool
recovered b now = leb (b.last_failure_time + b.config.recovery_timeout) now

transition_from : CircuitState → CircuitBreaker → ℕ → CircuitBreaker
transition_from opened b now =
    if recovered b now then record b { state = half_open; half_open_calls = 0 } else b
transition_from _ b now = b

unfoldable pub maybe_transition : CircuitBreaker → ℕ → CircuitBreaker
unfolding transition_from
maybe_transition b now = transition_from b.state b now

-- Whether a call goes through, or which CircuitOpenError it raises.
pub data Admission : Type 0 where
  admitted circuit_is_open call_limit_reached : Admission

admit_in : CircuitState → CircuitBreaker → Admission × CircuitBreaker
admit_in closed b = (admitted, b)
admit_in opened b = (circuit_is_open, b)
admit_in half_open b =
    if leb b.config.half_open_max_calls b.half_open_calls
    then (call_limit_reached, b)
    else (admitted, record b { half_open_calls = b.half_open_calls + 1 })

-- The first section of `call`.
unfoldable pub admit : CircuitBreaker → ℕ → Admission × CircuitBreaker
unfolding maybe_transition admit_in
admit b now = let b' = maybe_transition b now in admit_in b'.state b'

unfoldable pub record_failure : CircuitBreaker → ℕ → CircuitBreaker
record_failure b now = record b {
  failure_count = b.failure_count + 1;
  success_count = 0;
  last_failure_time = now;
  state = if leb b.config.failure_threshold (b.failure_count + 1) then opened else b.state;
}

succeed_in : CircuitState → CircuitBreaker → CircuitBreaker
succeed_in half_open b = record b { state = closed; failure_count = 0; half_open_calls = 0 }
succeed_in _ b = b

unfoldable pub record_success : CircuitBreaker → CircuitBreaker
unfolding succeed_in
record_success b = succeed_in b.state (record b { success_count = b.success_count + 1 })

-- How the guarded function ends. A cancellation is a BaseException, which `except Exception` does
-- not catch.
pub data Ending : Type 0 where
  returns raises cancelled : Ending

-- The last section of `call`.
unfoldable pub settle : CircuitBreaker → Ending → ℕ → CircuitBreaker
unfolding record_success record_failure
settle b returns now = record_success b
settle b raises now = record_failure b now
settle b cancelled now = b

finish : Admission × CircuitBreaker → Ending → ℕ → Admission × CircuitBreaker
finish (admitted, b) ending later = (admitted, settle b ending later)
finish (refused, b) ending later = (refused, b)

-- A whole `call` that no other call interrupts, from its start to its end.
unfoldable pub call : CircuitBreaker → ℕ → Ending → ℕ → Admission × CircuitBreaker
unfolding admit settle finish
call b now ending later = finish (admit b now) ending later

-- What the calls of a breaker do to it, in some order.
pub data Section : Type 0 where
  enter : (now : ℕ) → Section
  leave : (ending : Ending) (now : ℕ) → Section

unfoldable pub step : CircuitBreaker → Section → CircuitBreaker
unfolding admit settle
step b (enter now) = (admit b now).1
step b (leave ending now) = settle b ending now

unfoldable pub run : CircuitBreaker → List Section → CircuitBreaker
unfolding step
run b [] = b
run b (s ∷ rest) = run (step b s) rest

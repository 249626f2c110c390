-- ===== src/Breaker/Probes.antt =====
-- The half-open state of the circuit breaker and its probes.
use fuzzy_octo_train.Prelude.{
  ℕ, ◌+◌, ◌-◌, ◌≤◌, ◌<◌, min, List, [], ◌∷◌, ◌≡◌, ap, ◌∙◌, All, arith, refl, length,
}
use fuzzy_octo_train.Breaker.{
  CircuitBreaker, opened, half_open, Admission, admitted, circuit_is_open, call_limit_reached,
  admit, call, returns, raises, cancelled, Section, enter, leave, step, run,
}

abbrev is_admitted : Admission → ℕ
is_admitted admitted = 1
is_admitted _ = 0

-- How many of the calls that start at these times are let through, if none of them ends meanwhile.
pub admissions : CircuitBreaker → List ℕ → ℕ
admissions b [] = 0
admissions b (now ∷ later) =
    let (answer, b') = admit b now in is_admitted answer + admissions b' later

admit-half_open :
    (b : CircuitBreaker) (now : ℕ)
    → b.state ≡ half_open
    → ((admit b now).1.state ≡ half_open)
      × ((admit b now).1.config ≡ b.config)
      × ((admit b now).1.half_open_calls ≡ b.half_open_calls + is_admitted (admit b now).0)
      × (is_admitted (admit b now).0 ≡ min 1 (b.config.half_open_max_calls - b.half_open_calls))
unfolding admit
admit-half_open b now e = ground arith

-- Of the calls that reach a half-open breaker before one of them ends, exactly as many are let through
-- as the limit leaves room for.
pub admissions-half_open :
    (b : CircuitBreaker) (times : List ℕ)
    → b.state ≡ half_open
    → admissions b times ≡ min (length times) (b.config.half_open_max_calls - b.half_open_calls)
unfolding admissions
admissions-half_open b [] e = omega arith
admissions-half_open b (now ∷ later) e =
    let (still, same, counted, answer) = admit-half_open b now e in
    omega (
      arith,
      admissions-half_open (admit b now).1 later still,
      ap (λ c. c.half_open_max_calls) same,
    )

-- Until the recovery timeout is over an open circuit refuses every call and does not change.
pub admit-opened :
    (b : CircuitBreaker) (now : ℕ)
    → b.state ≡ opened
    → now < b.last_failure_time + b.config.recovery_timeout
    → admit b now ≡ (circuit_is_open, b)
unfolding admit
admit-opened b now e early = ground arith

-- Once it is over, a call is let through as a probe if the limit allows any.
pub admit-recovered :
    (b : CircuitBreaker) (now : ℕ)
    → b.state ≡ opened
    → b.last_failure_time + b.config.recovery_timeout ≤ now
    → 0 < b.config.half_open_max_calls
    → admit b now ≡ (admitted, record b { state = half_open; half_open_calls = 1 })
unfolding admit
admit-recovered b now e late room = ground arith

-- Neither a failure nor a success.
abbrev pub IsSilent : Section → Type 0
IsSilent (enter now) = Unit
IsSilent (leave returns now) = ⊥
IsSilent (leave raises now) = ⊥
IsSilent (leave cancelled now) = Unit

module _ (b : CircuitBreaker) (e : b.state ≡ half_open)
    (full : b.config.half_open_max_calls ≤ b.half_open_calls) where
  step_full : (s : Section) → IsSilent s → step b s ≡ b
  unfolding step
  step_full (enter now) h = ground arith
  step_full (leave returns now) h = absurd h
  step_full (leave raises now) h = absurd h
  step_full (leave cancelled now) h = refl

  run_full : (sections : List Section) → All IsSilent sections → run b sections ≡ b
  unfolding run
  run_full [] h = refl
  run_full (s ∷ rest) h = ap (λ c. run c rest) (step_full s h.0) ∙ run_full rest h.1

  admit_full : (now : ℕ) → admit b now ≡ (call_limit_reached, b)
  unfolding admit
  admit_full now = ground arith

after_probe :
    (b : CircuitBreaker) (now later : ℕ)
    → b.state ≡ opened
    → b.last_failure_time + b.config.recovery_timeout ≤ now
    → b.config.half_open_max_calls ≡ 1
    → call b now cancelled later ≡ (admitted, record b { state = half_open; half_open_calls = 1 })
unfolding call
after_probe b now later e late one = ground arith

-- With one probe allowed, a probe that is cancelled leaves the breaker half-open for good: whatever
-- calls start or are cancelled afterwards, every call at any time is refused, and nothing changes.
pub cancelled_probe_blocks :
    (b : CircuitBreaker) (now later : ℕ) (sections : List Section) (time : ℕ)
    → b.state ≡ opened
    → b.last_failure_time + b.config.recovery_timeout ≤ now
    → b.config.half_open_max_calls ≡ 1
    → All IsSilent sections
    → admit (run (call b now cancelled later).1 sections) time
      ≡ (call_limit_reached, (call b now cancelled later).1)
cancelled_probe_blocks b now later sections time e late one silent =
    rw (after_probe b now later e late one, run_full stuck refl (omega arith) sections silent)
      (admit_full stuck refl (omega arith) time)
  where
    stuck : CircuitBreaker
    stuck = record b { state = half_open; half_open_calls = 1 }

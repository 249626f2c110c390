-- ===== src/Breaker/States.antt =====
-- Which states a circuit breaker can be in.
use fuzzy_octo_train.Prelude.{
  ℕ, ◌+◌, ◌≤◌, ◌<◌, List, [], ◌∷◌, ◌≡◌, ◌≢◌, ◌⊎◌, inl, inr, ◌∙◌, arith, refl,
}
use fuzzy_octo_train.Breaker.{
  CircuitBreaker, CircuitState, CircuitBreakerConfig, init, closed, opened, half_open, settle,
  Section, enter, leave, returns, raises, cancelled, step, run,
}

-- The circuit is closed while fewer failures are counted than the threshold, and not from there on;
-- in the half-open state no more calls are counted than are let through.
pub record IsValid (b : CircuitBreaker) : Type 0 where
  pub below : b.state ≡ closed → b.failure_count < b.config.failure_threshold
  pub above : b.state ≢ closed → b.config.failure_threshold ≤ b.failure_count
  pub probes : b.state ≡ half_open → b.half_open_calls ≤ b.config.half_open_max_calls

pub IsValid-init :
    (config : CircuitBreakerConfig) → 0 < config.failure_threshold → IsValid (init config)
IsValid-init config h = record { below = λ e. h; above = λ n. absurd (n refl); probes = λ e. cc }

step_keeps : (b : CircuitBreaker) (s : Section) → (step b s).config ≡ b.config
unfolding step
step_keeps b (enter now) = ground arith
step_keeps b (leave returns now) = ground arith
step_keeps b (leave raises now) = ground arith
step_keeps b (leave cancelled now) = ground arith

step-IsValid :
    (b : CircuitBreaker) (s : Section)
    → 0 < b.config.failure_threshold
    → IsValid b
    → IsValid (step b s)
unfolding step
step-IsValid b (enter now) t v = ground arith
step-IsValid b (leave returns now) t v = ground arith
step-IsValid b (leave raises now) t v = ground arith
step-IsValid b (leave cancelled now) t v = ground arith

run_keeps : (b : CircuitBreaker) (sections : List Section) → (run b sections).config ≡ b.config
unfolding run
run_keeps b [] = refl
run_keeps b (s ∷ rest) = run_keeps (step b s) rest ∙ step_keeps b s

run_from-IsValid :
    (b : CircuitBreaker) (sections : List Section)
    → 0 < b.config.failure_threshold
    → IsValid b
    → IsValid (run b sections)
unfolding run
run_from-IsValid b [] t v = v
run_from-IsValid b (s ∷ rest) t v =
    run_from-IsValid (step b s) rest (rw step_keeps t) (step-IsValid b s t v)

-- However calls interleave, with a positive threshold a breaker is closed exactly while it counts fewer
-- failures than the threshold, and a half-open one counts no more calls than it may let through.
pub run-IsValid :
    (config : CircuitBreakerConfig) (sections : List Section)
    → 0 < config.failure_threshold
    → IsValid (run (init config) sections)
run-IsValid config sections t = run_from-IsValid (init config) sections t (IsValid-init config t)

-- Which change of state a section may make: CLOSED to OPEN, OPEN to HALF_OPEN once the recovery
-- timeout is over, HALF_OPEN to CLOSED by a success, and HALF_OPEN to OPEN by a failure.
pub data MayMove (b : CircuitBreaker) (s : Section) (to : CircuitState) : Type 0 where
  stay : to ≡ b.state → MayMove b s to
  trip : (now : ℕ) → b.state ≡ closed → s ≡ leave raises now → to ≡ opened → MayMove b s to
  probe :
      (now : ℕ)
      → b.state ≡ opened
      → s ≡ enter now
      → b.last_failure_time + b.config.recovery_timeout ≤ now
      → to ≡ half_open
      → MayMove b s to
  recover : (now : ℕ) → b.state ≡ half_open → s ≡ leave returns now → to ≡ closed → MayMove b s to
  relapse : (now : ℕ) → b.state ≡ half_open → s ≡ leave raises now → to ≡ opened → MayMove b s to

entered :
    (b : CircuitBreaker) (now : ℕ)
    → ((step b (enter now)).state ≡ b.state)
      ⊎ ((b.state ≡ opened)
          × (b.last_failure_time + b.config.recovery_timeout ≤ now)
          × ((step b (enter now)).state ≡ half_open))
unfolding step
entered b now = ground arith

succeeded :
    (b : CircuitBreaker) (now : ℕ)
    → ((step b (leave returns now)).state ≡ b.state)
      ⊎ ((b.state ≡ half_open) × ((step b (leave returns now)).state ≡ closed))
unfolding step
succeeded b now = ground arith

failed :
    (b : CircuitBreaker) (now : ℕ)
    → ((step b (leave raises now)).state ≡ b.state)
      ⊎ ((b.state ≡ closed) × ((step b (leave raises now)).state ≡ opened))
      ⊎ ((b.state ≡ half_open) × ((step b (leave raises now)).state ≡ opened))
unfolding step
failed b now = ground arith

-- Every section of a call changes the state of a breaker along an edge of the three-state model, or
-- not at all.
pub step-MayMove : (b : CircuitBreaker) (s : Section) → MayMove b s (step b s).state
step-MayMove b (enter now) = elim (entered b now) [
  | inl same ↦ stay same
  | inr (was, late, is) ↦ probe now was refl late is
]
step-MayMove b (leave returns now) = elim (succeeded b now) [
  | inl same ↦ stay same
  | inr (was, is) ↦ recover now was refl is
]
step-MayMove b (leave raises now) = elim (failed b now) [
  | inl same ↦ stay same
  | inr (inl (was, is)) ↦ trip now was refl is
  | inr (inr (was, is)) ↦ relapse now was refl is
]
step-MayMove b (leave cancelled now) = stay (unfold step in refl)

-- In a valid half-open breaker a failed probe opens the circuit again, and a good one closes it and
-- forgets the failures.
pub half_open_outcomes :
    (b : CircuitBreaker) (now : ℕ)
    → IsValid b
    → b.state ≡ half_open
    → ((settle b raises now).state ≡ opened)
      × ((settle b raises now).last_failure_time ≡ now)
      × ((settle b returns now).state ≡ closed)
      × ((settle b returns now).failure_count ≡ 0)
unfolding settle
half_open_outcomes b now v e = ground (arith, v.above)

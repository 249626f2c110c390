-- ===== src/Examples/Breakers.antt =====
-- A circuit breaker at work.
use fuzzy_octo_train.Prelude.{ℕ, ◌-◌, min, List, [], ◌∷◌, ◌++◌, ◌≡◌, refl, arith, length}
use fuzzy_octo_train.Breaker.{
  CircuitBreaker, CircuitBreakerConfig, init, opened, half_open, call_limit_reached,
  circuit_is_open, admit, call, returns, raises, cancelled, Section, enter, leave, run,
}
use fuzzy_octo_train.Breaker.States.{IsValid, run-IsValid}
use fuzzy_octo_train.Breaker.Probes.{admissions, admissions-half_open, cancelled_probe_blocks}
use fuzzy_octo_train.Breaker.Tripping.{run-trips}

abbrev config : CircuitBreakerConfig
config = record { failure_threshold = 2; recovery_timeout = 30; half_open_max_calls = 1 }

-- A success between two failures, and then a probe.
abbrev history : List Section
history =
    enter 1 ∷ leave raises 2 ∷ enter 3 ∷ leave returns 4 ∷ enter 5 ∷ leave raises 6 ∷ enter 40 ∷ []

abbrev tripped : CircuitBreaker
tripped = record (init config) { state = opened; failure_count = 2; last_failure_time = 6 }

abbrev probing : CircuitBreaker
probing = record tripped { state = half_open; half_open_calls = 1 }

history_ends : (run (init config) history).state ≡ half_open
unfolding run
history_ends = refl

refused : admit tripped 20 ≡ (circuit_is_open, tripped)
unfolding admit
refused = refl

run-IsValid_example : IsValid (run (init config) history)
run-IsValid_example = run-IsValid config history (omega arith)

probing-IsValid : IsValid probing
probing-IsValid = record { below = λ e. cc; above = λ n. omega arith; probes = λ e. omega arith }

admissions-half_open_example :
    admissions (record probing { half_open_calls = 0 }) (40 ∷ 41 ∷ [])
    ≡ min (length {A = ℕ} (40 ∷ 41 ∷ [])) (1 - 0)
admissions-half_open_example =
    admissions-half_open (record probing { half_open_calls = 0 }) (40 ∷ 41 ∷ []) refl

cancelled_probe_blocks_example :
    admit (run (call tripped 36 cancelled 37).1 (enter 38 ∷ leave cancelled 39 ∷ [])) 1000
    ≡ (call_limit_reached, (call tripped 36 cancelled 37).1)
cancelled_probe_blocks_example =
    cancelled_probe_blocks tripped 36 37 (enter 38 ∷ leave cancelled 39 ∷ []) 1000 refl
      (omega arith) refl (tt, (tt, tt))

abbrev early : List Section
early = enter 1 ∷ leave raises 2 ∷ enter 3 ∷ leave returns 4 ∷ []

run-trips_example :
    ((run (init config) (early ++ leave raises 9 ∷ [])).state ≡ opened)
    × ((run (init config) (early ++ leave raises 9 ∷ [])).last_failure_time ≡ 9)
run-trips_example = run-trips config early 9 refl

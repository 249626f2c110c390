-- ===== src/Breaker/Tripping.antt =====
-- When a closed circuit opens.
use fuzzy_octo_train.Prelude.{ℕ, suc, ◌+◌, ◌≤◌, ◌<◌, List, [], ◌∷◌, ◌++◌, ◌≡◌, ◌∙◌, ap, arith, refl}
use fuzzy_octo_train.Breaker.{
  CircuitBreaker, CircuitBreakerConfig, init, closed, opened, returns, raises, cancelled, Section,
  enter, leave, step, run,
}

-- how many sections record a failure
abbrev pub failures : List Section → ℕ
failures [] = 0
failures (enter now ∷ rest) = failures rest
failures (leave returns now ∷ rest) = failures rest
failures (leave cancelled now ∷ rest) = failures rest
failures (leave raises now ∷ rest) = suc (failures rest)

failures-cons :
    (s : Section) (rest : List Section) → failures (s ∷ rest) ≡ failures (s ∷ []) + failures rest
failures-cons (enter now) rest = omega arith
failures-cons (leave returns now) rest = omega arith
failures-cons (leave raises now) rest = omega arith
failures-cons (leave cancelled now) rest = omega arith

step-closed :
    (b : CircuitBreaker) (s : Section)
    → b.state ≡ closed
    → b.failure_count + failures (s ∷ []) < b.config.failure_threshold
    → ((step b s).state ≡ closed)
      × ((step b s).config ≡ b.config)
      × ((step b s).failure_count ≡ b.failure_count + failures (s ∷ []))
unfolding step
step-closed b (enter now) e h = ground arith
step-closed b (leave returns now) e h = ground arith
step-closed b (leave raises now) e h = ground arith
step-closed b (leave cancelled now) e h = ground arith

run-closed :
    (b : CircuitBreaker) (sections : List Section)
    → b.state ≡ closed
    → b.failure_count + failures sections < b.config.failure_threshold
    → ((run b sections).state ≡ closed)
      × ((run b sections).failure_count ≡ b.failure_count + failures sections)
      × ((run b sections).config ≡ b.config)
unfolding run
run-closed b [] e h = (e, omega arith, refl)
run-closed b (s ∷ rest) e h =
    let split = failures-cons s rest in
    let (still, same, counted) = step-closed b s e (omega arith) in
    let threshold = ap (λ c. c.failure_threshold) same in
    let (state, count, config) = run-closed (step b s) rest still (omega arith) in
    (state, omega arith, config ∙ same)

-- Below the threshold a new breaker stays closed and counts every failure of the run, also when
-- successes come between the failures.
pub run-failures :
    (config : CircuitBreakerConfig) (sections : List Section)
    → failures sections < config.failure_threshold
    → ((run (init config) sections).state ≡ closed)
      × ((run (init config) sections).failure_count ≡ failures sections)
run-failures config sections h =
    let (state, count, same) = run-closed (init config) sections refl (omega arith) in
    (state, omega arith)

run-append : (b : CircuitBreaker) (xs ys : List Section) → run b (xs ++ ys) ≡ run (run b xs) ys
unfolding run
run-append b [] ys = refl
run-append b (x ∷ xs) ys = run-append (step b x) xs ys

fail_opens :
    (b : CircuitBreaker) (now : ℕ)
    → b.config.failure_threshold ≤ b.failure_count + 1
    → ((step b (leave raises now)).state ≡ opened)
      × ((step b (leave raises now)).last_failure_time ≡ now)
unfolding step
fail_opens b now h = ground arith

-- The failure that brings the total of a new breaker to the threshold opens it, at that time, however
-- many successes came before.
pub run-trips :
    (config : CircuitBreakerConfig) (sections : List Section) (now : ℕ)
    → failures sections + 1 ≡ config.failure_threshold
    → ((run (init config) (sections ++ leave raises now ∷ [])).state ≡ opened)
      × ((run (init config) (sections ++ leave raises now ∷ [])).last_failure_time ≡ now)
run-trips config sections now h =
    let (state, count, same) = run-closed (init config) sections refl (omega arith) in
    let threshold = ap (λ c. c.failure_threshold) same in
    rw run-append (unfold run in fail_opens (run (init config) sections) now (omega arith))

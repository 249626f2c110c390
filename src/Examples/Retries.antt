-- ===== src/Examples/Retries.antt =====
-- Retries and a token bucket.
use fuzzy_octo_train.Prelude.{
  ℕ, zero, suc, ◌+◌, ◌-◌, ◌*◌, ◌≤◌, ◌<◌, true, List, [], ◌∷◌, ◌≡◌, refl, arith, pos,
}
use fuzzy_octo_train.Models.{Outcome, returned, raised}
use fuzzy_octo_train.Retry.{RetryPolicy, retry_with_backoff}
use fuzzy_octo_train.Retry.Outcomes.{waits, has_raised, retry-returned}
use fuzzy_octo_train.RateLimiter
use fuzzy_octo_train.RateLimiter.{RateLimiter, RateLimiterConfig, init, acquire}
use fuzzy_octo_train.RateLimiter.Bucket.{Poll, granted, end_of, granted-le}

abbrev policy : RetryPolicy
policy = record {
  max_retries = pos 2;
  base_delay = 100;
  max_delay = 300;
  exponential_base = 2;
  jitter = true;
}

abbrev steady : ℕ → ℕ
steady i = 1000

-- Fails twice, and then returns 7.
flaky : ℕ → Outcome ℕ
flaky zero = raised "first"
flaky (suc zero) = raised "second"
flaky (suc (suc n)) = returned 7

flaky_run :
    retry_with_backoff policy flaky steady
    ≡ record { outcome = returned 7; calls = 3; sleeps = 100000 ∷ 200000 ∷ [] }
unfolding retry_with_backoff flaky
flaky_run = refl

retry-returned_example :
    retry_with_backoff policy flaky steady
    ≡ record { outcome = returned 7; calls = 3; sleeps = waits policy flaky steady 0 2 }
unfolding flaky
retry-returned_example = retry-returned policy flaky steady 2 2 7 refl (omega arith) two_fail refl
  where
    two_fail : (i : ℕ) → i < 2 → has_raised (flaky i) ≡ true
    two_fail zero h = refl
    two_fail (suc zero) h = refl
    two_fail (suc (suc i)) h = absurd (omega arith)

abbrev bucket : RateLimiter
bucket = init (record { max_tokens = 10; refill_rate = 2 }) 5

abbrev polls : List Poll
polls =
    record { wanted = 8; now = 6 }
    ∷ record { wanted = 8; now = 7 }
    ∷ record { wanted = 8; now = 10 }
    ∷ []

granted_run : granted bucket polls ≡ 16
unfolding granted RateLimiter.poll
granted_run = refl

granted-le_example : granted bucket polls ≤ 10 + (end_of 5 polls - 5) * 2
granted-le_example = granted-le bucket polls (omega arith)

abbrev drained : RateLimiter
drained = record bucket { tokens = 0 }

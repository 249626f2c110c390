-- ===== src/RateLimiter.antt =====
-- The token bucket of src/flowmesh/patterns/rate_limiter.py.
-- Clock readings are numbers of ticks and tokens are counted in units small enough that a tick adds
-- a whole number of them, so no rounding is left out. The clock is monotonic: a reading is never
-- before the last one, as the statements say where they need it.
pub mod Bucket
use fuzzy_octo_train.Prelude.{
  ℕ, ◌+◌, ◌-◌, ◌*◌, min, Option, none, some, List, [], ◌∷◌, leb, if◌then◌else◌,
}

pub record RateLimiterConfig : Type 0 where
  pub max_tokens : ℕ
  -- tokens added in a tick
  pub refill_rate : ℕ

pub record RateLimiter : Type 0 where
  pub config : RateLimiterConfig
  pub tokens : ℕ
  pub last_refill : ℕ

-- The constructor, at the time `now`.
abbrev pub init : RateLimiterConfig → ℕ → RateLimiter
init config now = record { config = config; tokens = config.max_tokens; last_refill = now }

unfoldable pub refill : RateLimiter → ℕ → RateLimiter
refill r now =
    let elapsed = now - r.last_refill in
    record r {
      tokens = min r.config.max_tokens (r.tokens + elapsed * r.config.refill_rate);
      last_refill = now;
    }

-- The property `available_tokens`, which refills the bucket too.
unfoldable pub available_tokens : RateLimiter → ℕ → ℕ × RateLimiter
unfolding refill
available_tokens r now = let r' = refill r now in (r'.tokens, r')

-- The `while True` loop of `acquire`, at the times when it holds the lock. If these run out, the
-- call is still waiting: `none`. Otherwise: the readings it has not used.
unfoldable pub acquire : RateLimiter → (tokens : ℕ) → List ℕ → Option (List ℕ) × RateLimiter
unfolding refill
acquire r tokens [] = (none, r)
acquire r tokens (now ∷ later) =
    let r' = refill r now in
    let again = acquire r' tokens later in
    if leb tokens r'.tokens then (some later, record r' { tokens = r'.tokens - tokens }) else again

-- One round of a waiting call, whoever makes it: what it took.
unfoldable pub poll : RateLimiter → (tokens now : ℕ) → ℕ × RateLimiter
unfolding refill
poll r tokens now =
    let r' = refill r now in
    if leb tokens r'.tokens then (tokens, record r' { tokens = r'.tokens - tokens }) else (0, r')

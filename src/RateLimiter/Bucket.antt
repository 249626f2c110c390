-- ===== src/RateLimiter/Bucket.antt =====
-- What the token bucket gives out, and when.
use fuzzy_octo_train.Prelude.{
  ℕ, ◌+◌, ◌-◌, ◌*◌, ◌≤◌, ◌<◌, none, some, List, [], ◌∷◌, ◌≡◌, refl, arith, leb, Bool-cases, inl,
  inr, ap, subst, length,
}
use fuzzy_octo_train.RateLimiter.{RateLimiter, RateLimiterConfig, refill, acquire, poll}

-- A request for tokens that holds the lock at a time.
pub record Poll : Type 0 where
  pub wanted : ℕ
  pub now : ℕ

-- The readings of the clock never go back.
abbrev pub IsMonotone : ℕ → List Poll → Type 0
IsMonotone last [] = Unit
IsMonotone last (p ∷ rest) = (last ≤ p.now) × IsMonotone p.now rest

-- the time of the last request, or `last`
abbrev pub end_of : ℕ → List Poll → ℕ
end_of last [] = last
end_of last (p ∷ rest) = end_of p.now rest

-- all that the requests are given, one after the other
unfoldable pub granted : RateLimiter → List Poll → ℕ
granted r [] = 0
granted r (p ∷ rest) = let (given, r') = poll r p.wanted p.now in given + granted r' rest

poll_step :
    (r : RateLimiter) (wanted now : ℕ)
    → ((poll r wanted now).1.config ≡ r.config)
      × ((poll r wanted now).1.last_refill ≡ now)
      × ((poll r wanted now).0 + (poll r wanted now).1.tokens
          ≤ r.tokens + (now - r.last_refill) * r.config.refill_rate)
      × ((poll r wanted now).1.tokens ≤ r.config.max_tokens)
unfolding poll
poll_step r wanted now = ground arith

spread : (a b c rate : ℕ) → a ≤ b → b ≤ c → (b - a) * rate + (c - b) * rate ≡ (c - a) * rate
spread a b c rate p q =
    let sum : (b - a) + (c - b) ≡ c - a = omega arith in omega (arith, ap (λ (t : ℕ). t * rate) sum)

le-end_of : (last : ℕ) (polls : List Poll) → IsMonotone last polls → last ≤ end_of last polls
le-end_of last [] mono = omega arith
le-end_of last (p ∷ rest) mono = omega (arith, le-end_of p.now rest mono.1)

-- Over any requests at times that do not go back, whoever makes them, all that a limiter gives out is
-- at most what it had and what the refill rate adds in the time that passes.
pub granted-le :
    (r : RateLimiter) (polls : List Poll)
    → IsMonotone r.last_refill polls
    → granted r polls
      ≤ r.tokens + (end_of r.last_refill polls - r.last_refill) * r.config.refill_rate
unfolding granted
granted-le r [] mono = omega arith
granted-le r (p ∷ rest) mono =
    let (config, last, given, cap) = poll_step r p.wanted p.now in
    let after : RateLimiter = (poll r p.wanted p.now).1 in
    let ih = granted-le after rest (rw last mono.1) in
    let moved : granted after rest
        ≤ after.tokens + (end_of p.now rest - p.now) * r.config.refill_rate =
      subst
        (λ (t : ℕ). granted after rest ≤ after.tokens + (end_of t rest - t) * r.config.refill_rate)
        last
        (subst
          (λ (c : RateLimiterConfig).
            granted after rest
            ≤ after.tokens + (end_of after.last_refill rest - after.last_refill) * c.refill_rate)
          config ih) in
    omega (
      arith,
      spread r.last_refill p.now (end_of p.now rest) r.config.refill_rate mono.0
          (le-end_of p.now rest mono.1),
    )

-- The bucket never holds more than its maximum, whatever is asked of it.
pub tokens-le-max_tokens :
    (r : RateLimiter) (tokens : ℕ) (readings : List ℕ)
    → r.tokens ≤ r.config.max_tokens
    → (acquire r tokens readings).1.tokens ≤ (acquire r tokens readings).1.config.max_tokens
unfolding acquire
tokens-le-max_tokens r tokens [] h = h
tokens-le-max_tokens r tokens (now ∷ later) h =
    ground (arith, tokens-le-max_tokens (refill r now) tokens later)

-- A request for more than the bucket can hold waits for ever.
pub acquire-too_many :
    (r : RateLimiter) (tokens : ℕ) (readings : List ℕ)
    → r.config.max_tokens < tokens
    → (acquire r tokens readings).0 ≡ none
unfolding acquire
acquire-too_many r tokens [] h = refl
acquire-too_many r tokens (now ∷ later) h =
    ground (arith, acquire-too_many (refill r now) tokens later)

-- Between any two readings the bucket gains at least `gain` tokens.
abbrev pub IsSpaced : (rate gain last : ℕ) → List ℕ → Type 0
IsSpaced rate gain last [] = Unit
IsSpaced rate gain last (now ∷ later) = (gain ≤ (now - last) * rate) × IsSpaced rate gain now later

-- A request that the bucket can hold is granted as soon as the waits have gained what it lacks.
pub acquire-completes :
    (r : RateLimiter) (tokens gain : ℕ) (readings : List ℕ)
    → tokens ≤ r.config.max_tokens
    → IsSpaced r.config.refill_rate gain r.last_refill readings
    → 0 < length readings
    → tokens ≤ r.tokens + gain * length readings
    → (later : List ℕ) × ((acquire r tokens readings).0 ≡ some later)
unfolding acquire
acquire-completes r tokens gain [] le spaced some' enough = absurd (omega arith)
acquire-completes r tokens gain (now ∷ []) le spaced some' enough = ([], ground arith)
acquire-completes r tokens gain (now ∷ next ∷ later) le spaced some' enough =
    elim (Bool-cases (leb tokens (refill r now).tokens)) [
      | inl filled ↦ (next ∷ later, ground arith)
      | inr short ↦
          let (rest, e) =
            acquire-completes (refill r now) tokens gain (next ∷ later) le spaced.1 (omega arith)
              (ground arith) in
          (rest, ground (arith, e))
    ]

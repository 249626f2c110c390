-- ===== src/Retry/Delays.antt =====
-- How long `retry_with_backoff` sleeps.
use fuzzy_octo_train.Prelude.{
  ℕ, zero, suc, ◌+◌, ◌*◌, ◌^◌, ◌≤◌, ◌<◌, List, arith, All, Bool-cases, inl, inr, Option, none, some,
  String,
}
use native.Mathlib.Nat.{pow-le-pow_right}
use fuzzy_octo_train.Models.{Outcome}
use fuzzy_octo_train.Retry.Outcomes.{Outcome-cases, after_success, after_failure}
use fuzzy_octo_train.Retry.{
  RetryPolicy, Run, backoff, wait, slept, attempts, retry_with_backoff, rounds, is_last,
}

-- A jitter factor is between 0.5 and 1.5.
abbrev pub IsJitter : (ℕ → ℕ) → Type 0
IsJitter factor = (i : ℕ) → (500 ≤ factor i) × (factor i ≤ 1500)

backoff-le : (policy : RetryPolicy) (attempt : ℕ) → backoff policy attempt ≤ policy.max_delay
unfolding backoff
backoff-le policy attempt = omega arith

scaled : (b f m : ℕ) → 500 ≤ f → f ≤ 1500 → b ≤ m → (500 * b ≤ b * f) × (b * f ≤ 1500 * m)
scaled b f m lo hi le = (grind arith, grind arith)

mul_mono : (a b c : ℕ) → b ≤ c → a * b ≤ a * c
mul_mono a b c h = grind arith

-- A sleep is at least half of the exponential delay and at most one and a half times the maximum.
pub wait_bounds :
    (policy : RetryPolicy) (factor : ℕ → ℕ) (attempt : ℕ)
    → IsJitter factor
    → (500 * backoff policy attempt ≤ wait policy factor attempt)
      × (wait policy factor attempt ≤ 1500 * policy.max_delay)
unfolding wait
wait_bounds policy factor attempt jitters = elim (Bool-cases policy.jitter) [
  | inl on ↦ rw on (
      scaled (backoff policy attempt) (factor attempt) policy.max_delay (jitters attempt).0
        (jitters attempt).1 (backoff-le policy attempt))
  | inr off ↦ rw off (
      scaled (backoff policy attempt) 1000 policy.max_delay (omega arith) (omega arith)
        (backoff-le policy attempt))
]

power_grows : (base i : ℕ) → 0 < base → base ^ i ≤ base ^ (i + 1)
power_grows base i h = pow-le-pow_right h (omega arith)

-- Without jitter the delay never falls from one attempt to the next, up to the maximum.
pub backoff_grows :
    (policy : RetryPolicy) (attempt : ℕ)
    → 0 < policy.exponential_base
    → backoff policy attempt ≤ backoff policy (attempt + 1)
unfolding backoff
backoff_grows policy attempt h =
    omega (arith, mul_mono policy.base_delay _ _ (power_grows policy.exponential_base attempt h))

module _ {V : Type 0} (policy : RetryPolicy) (func : ℕ → Outcome V) (factor : ℕ → ℕ)
    (jitters : IsJitter factor) where
  abbrev IsBounded : List ℕ → Type 0
  IsBounded = All (λ d. d ≤ 1500 * policy.max_delay)

  slept-sleeps :
      (attempt : ℕ) (r : Run V)
      → IsBounded r.sleeps
      → IsBounded (slept policy func factor attempt r).sleeps
  unfolding slept
  slept-sleeps attempt r h = ((wait_bounds policy factor attempt jitters).1, h)

  attempts-sleeps :
      (left attempt : ℕ) (last_exc : Option String)
      → IsBounded (attempts policy func factor left attempt last_exc).sleeps
  attempts-sleeps zero attempt last_exc = unfold attempts in tt
  attempts-sleeps (suc left) attempt last_exc = elim (Outcome-cases (func attempt)) [
    | inl (v, e) ↦ rw (after_success policy func factor left attempt last_exc v e) tt
    | inr (m, e) ↦
        let rest = attempts-sleeps left (attempt + 1) (some m) in
        rw (after_failure policy func factor left attempt last_exc m e)
          (elim (Bool-cases (is_last attempt policy.max_retries)) [
            | inl stop ↦ rw stop tt
            | inr on ↦ rw on (slept-sleeps attempt _ rest)
          ])
  ]

  -- Whatever the calls come to, with a jitter factor of at most one and a half no sleep of
  -- `retry_with_backoff` is longer than one and a half times the policy's maximum.
  pub retry-sleeps : IsBounded (retry_with_backoff policy func factor).sleeps
  unfolding retry_with_backoff
  retry-sleeps = attempts-sleeps (rounds policy.max_retries) 0 none

-- ===== src/Retry.antt =====
-- `retry_with_backoff` of src/flowmesh/patterns/retry.py.
-- Delays are numbers of ticks; what is slept is counted in thousandths of a tick, so that a jitter
-- factor between 0.5 and 1.5 is a number between 500 and 1500, and no rounding is left out.
pub mod Outcomes
pub mod Delays
use fuzzy_octo_train.Prelude.{
  ℕ, zero, suc, ◌+◌, ◌*◌, ◌^◌, min, String, Bool, false, Option, none, some, List, [], ◌∷◌, ℤ, pos,
  negsuc, nat_beq, if◌then◌else◌,
}
use fuzzy_octo_train.Models.{Outcome, returned, raised}

pub record RetryPolicy : Type 0 where
  pub max_retries : ℤ
  pub base_delay : ℕ
  pub max_delay : ℕ
  pub exponential_base : ℕ
  pub jitter : Bool

-- len(range(max_retries + 1))
abbrev pub rounds : ℤ → ℕ
rounds (pos n) = suc n
rounds (negsuc n) = 0

-- attempt == max_retries
abbrev pub is_last : ℕ → ℤ → Bool
is_last attempt (pos n) = nat_beq attempt n
is_last attempt (negsuc n) = false

-- The delay before jitter.
unfoldable pub backoff : RetryPolicy → ℕ → ℕ
backoff policy attempt =
    min (policy.base_delay * policy.exponential_base ^ attempt) policy.max_delay

-- What is slept after a failed attempt, in thousandths of a tick.
unfoldable pub wait : RetryPolicy → (factor : ℕ → ℕ) → ℕ → ℕ
unfolding backoff
wait policy factor attempt =
    backoff policy attempt * (if policy.jitter then factor attempt else 1000)

-- What a call of `retry_with_backoff` comes to, how often it called `func`, and what it slept.
pub record Run (V : Type 0) : Type 0 where
  pub outcome : Outcome V
  pub calls : ℕ
  pub sleeps : List ℕ

-- `raise last_exc`, which is a TypeError when no attempt was made
abbrev reraise : {V : Type 0} → Option String → Outcome V
reraise none = raised "exceptions must derive from BaseException"
reraise (some message) = raised message

module _ {V : Type 0} (policy : RetryPolicy) (func : ℕ → Outcome V) (factor : ℕ → ℕ) where
  unfoldable pub slept : ℕ → Run V → Run V
  slept attempt r = record r { calls = r.calls + 1; sleeps = wait policy factor attempt ∷ r.sleeps }

  -- The `for` loop, by recursion on the rounds left. `func k` is what the k-th call comes to.
  unfoldable pub attempts : (left attempt : ℕ) → (last_exc : Option String) → Run V
  unfolding slept wait
  attempts zero attempt last_exc = record { outcome = reraise last_exc; calls = 0; sleeps = [] }
  attempts (suc left) attempt last_exc = elim (func attempt) [
    | returned v ↦ record { outcome = returned v; calls = 1; sleeps = [] }
    | raised message ↦
        let rest = attempts left (attempt + 1) (some message) in
        if is_last attempt policy.max_retries
        then record { outcome = raised message; calls = 1; sleeps = [] }
        else slept attempt rest
  ]

  unfoldable pub retry_with_backoff : Run V
  unfolding attempts
  retry_with_backoff = attempts (rounds policy.max_retries) 0 none

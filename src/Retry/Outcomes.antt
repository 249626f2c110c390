-- ===== src/Retry/Outcomes.antt =====
-- What `retry_with_backoff` returns or raises, and after how many calls.
use fuzzy_octo_train.Prelude.{
  ℕ, zero, suc, ◌+◌, ◌≤◌, ◌<◌, String, Bool, true, false, Option, none, some, List, [], ◌∷◌, pos,
  ◌≡◌, refl, arith, ◌⊎◌, inl, inr, subst, ap, ◌∙◌, if◌then◌else◌,
}
use fuzzy_octo_train.Models.{Outcome, returned, raised}
use fuzzy_octo_train.Retry.{
  RetryPolicy, Run, rounds, is_last, slept, wait, attempts, retry_with_backoff,
}

abbrev pub has_raised : {V : Type 0} → Outcome V → Bool
has_raised (returned v) = false
has_raised (raised message) = true

pub Outcome-cases :
    {V : Type 0} (o : Outcome V) → ((v : V) × (o ≡ returned v)) ⊎ ((m : String) × (o ≡ raised m))
Outcome-cases (returned v) = inl (v, refl)
Outcome-cases (raised m) = inr (m, refl)

raised_of : {V : Type 0} (o : Outcome V) → has_raised o ≡ true → (m : String) × (o ≡ raised m)
raised_of (returned v) e = absurd (cc)
raised_of (raised m) e = (m, refl)

module _ {V : Type 0} (policy : RetryPolicy) (func : ℕ → Outcome V) (factor : ℕ → ℕ) where
  -- the sleeps behind `count` attempts, from the attempt `first` on
  abbrev pub waits : (first count : ℕ) → List ℕ
  waits first zero = []
  waits first (suc count) = wait policy factor first ∷ waits (first + 1) count

  abbrev pub Attempts : ℕ → ℕ → Option String → Run V
  Attempts left first last_exc = attempts policy func factor left first last_exc

  pub after_success :
      (left first : ℕ) (last_exc : Option String) (v : V)
      → func first ≡ returned v
      → Attempts (suc left) first last_exc ≡ record { outcome = returned v; calls = 1; sleeps = [] }
  unfolding attempts
  after_success left first last_exc v e = rw (e, attempts)

  pub after_failure :
      (left first : ℕ) (last_exc : Option String) (message : String)
      → func first ≡ raised message
      → Attempts (suc left) first last_exc ≡ (
          if is_last first policy.max_retries
          then record { outcome = raised message; calls = 1; sleeps = [] }
          else slept policy func factor first (Attempts left (first + 1) (some message)))
  unfolding attempts
  after_failure left first last_exc message e = rw (e, attempts)

  message_of : (k : ℕ) → has_raised (func k) ≡ true → (m : String) × (func k ≡ raised m)
  message_of k e = raised_of (func k) e

  later :
      (P : ℕ → Type 0) (first more : ℕ)
      → ((i : ℕ) → i < suc more → P (first + i))
      → (i : ℕ) → i < more
      → P (first + 1 + i)
  later P first more h i lt = subst P (omega arith) (h (suc i) (omega arith))

  attempts-returned :
      (more first left : ℕ) (last_exc : Option String) (n : ℕ) (v : V)
      → policy.max_retries ≡ pos n
      → first + left ≡ suc n
      → first + more ≤ n
      → ((i : ℕ) → i < more → has_raised (func (first + i)) ≡ true)
      → func (first + more) ≡ returned v
      → Attempts left first last_exc
        ≡ record { outcome = returned v; calls = suc more; sleeps = waits first more }
  unfolding slept
  attempts-returned more first zero last_exc n v p sum le fails good = absurd (omega arith)
  attempts-returned zero first (suc left) last_exc n v p sum le fails good =
      after_success left first last_exc v (subst (λ k. func k ≡ returned v) (omega arith) good)
  attempts-returned (suc more) first (suc left) last_exc n v p sum le fails good =
      let (m, e) =
        message_of first
          (subst (λ k. has_raised (func k) ≡ true) (omega arith) (fails 0 (omega arith))) in
      ground (
        arith,
        after_failure left first last_exc m e,
        attempts-returned more (first + 1) left (some m) n v p (omega arith) (omega arith)
            (later (λ k. has_raised (func k) ≡ true) first more fails)
            (subst (λ k. func k ≡ returned v) (omega arith) good),
      )

  attempts-raised :
      (more first left : ℕ) (last_exc : Option String) (n : ℕ) (message : String)
      → policy.max_retries ≡ pos n
      → first + left ≡ suc n
      → first + more ≡ n
      → ((i : ℕ) → i < more → has_raised (func (first + i)) ≡ true)
      → func (first + more) ≡ raised message
      → Attempts left first last_exc
        ≡ record { outcome = raised message; calls = suc more; sleeps = waits first more }
  unfolding slept
  attempts-raised more first zero last_exc n message p sum le fails bad = absurd (omega arith)
  attempts-raised zero first (suc left) last_exc n message p sum le fails bad = ground (
    arith,
    after_failure left first last_exc message
        (subst (λ k. func k ≡ raised message) (omega arith) bad),
  )
  attempts-raised (suc more) first (suc left) last_exc n message p sum le fails bad =
      let (m, e) =
        message_of first
          (subst (λ k. has_raised (func k) ≡ true) (omega arith) (fails 0 (omega arith))) in
      ground (
        arith,
        after_failure left first last_exc m e,
        attempts-raised more (first + 1) left (some m) n message p (omega arith) (omega arith)
            (later (λ k. has_raised (func k) ≡ true) first more fails)
            (subst (λ k. func k ≡ raised message) (omega arith) bad),
      )

  -- With `n` retries allowed, if the calls before the k-th all raise and the k-th, counted from 0 and at
  -- most the n-th, returns, that value is returned after k + 1 calls, with one sleep behind each failure.
  pub retry-returned :
      (n k : ℕ) (v : V)
      → policy.max_retries ≡ pos n
      → k ≤ n
      → ((i : ℕ) → i < k → has_raised (func i) ≡ true)
      → func k ≡ returned v
      → retry_with_backoff policy func factor
        ≡ record { outcome = returned v; calls = suc k; sleeps = waits 0 k }
  unfolding retry_with_backoff
  retry-returned n k v p le fails good =
      ap (λ r. attempts policy func factor (rounds r) 0 none) p
      ∙ (attempts-returned k 0 (suc n) none n v p (omega arith) (omega arith)
          (λ i lt. subst (λ j. has_raised (func j) ≡ true) (omega arith) (fails i lt))
          (subst (λ j. func j ≡ returned v) (omega arith) good))

  -- If all n + 1 calls raise, the last exception is raised again, and nothing is slept behind it.
  pub retry-raised :
      (n : ℕ) (message : String)
      → policy.max_retries ≡ pos n
      → ((i : ℕ) → i < n → has_raised (func i) ≡ true)
      → func n ≡ raised message
      → retry_with_backoff policy func factor
        ≡ record { outcome = raised message; calls = suc n; sleeps = waits 0 n }
  unfolding retry_with_backoff
  retry-raised n message p fails bad =
      ap (λ r. attempts policy func factor (rounds r) 0 none) p
      ∙ (attempts-raised n 0 (suc n) none n message p (omega arith) (omega arith)
          (λ i lt. subst (λ j. has_raised (func j) ≡ true) (omega arith) (fails i lt))
          (subst (λ j. func j ≡ raised message) (omega arith) bad))

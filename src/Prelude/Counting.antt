-- ===== src/Prelude/Counting.antt =====
-- Pigeonhole facts about lists without repetition.
use Prim.Native.Nat.{suc, ◌+◌, ◌≤◌, ◌<◌}
use mathlib.Core.Path.{◌≡◌, refl}
use mathlib.Core.Logic.{inl, inr}
use mathlib.Core.Bool.{Bool, true, false, not, ◌&&◌}
use mathlib.Core.List.{List, [], ◌∷◌, ◌++◌}
use native.Mathlib.Omega.{arith}
use fuzzy_octo_train.Prelude.Tests.{if◌then◌else◌, Bool-cases}
use fuzzy_octo_train.Prelude.Lists.{length, count}
use fuzzy_octo_train.Prelude.Keys.{
  add, Eq, ◌==◌, ==_iff, ==_refl, contains, discard, Distinct, Subset, contains-discard,
  Distinct-filter,
}

module _ {ℓ} {A : Type ℓ} where
  pub count-ext : (p q : A → Bool) (xs : List A) → ((a : A) → p a ≡ q a) → count p xs ≡ count q xs
  count-ext p q [] h = refl
  count-ext p q (x ∷ xs) h = ground (arith, h x, count-ext p q xs h)

  pub count_none : (p : A → Bool) (xs : List A) → ((a : A) → p a ≡ false) → count p xs ≡ 0
  count_none p [] h = refl
  count_none p (x ∷ xs) h = ground (arith, h x, count_none p xs h)

  count-snoc :
      (p : A → Bool) (xs : List A) (a : A)
      → count p (xs ++ a ∷ []) ≡ count p xs + (if p a then 1 else 0)
  count-snoc p [] a = omega arith
  count-snoc p (x ∷ xs) a = omega (arith, count-snoc p xs a)

module _ {ℓ} {A : Type ℓ} ⦃e : Eq A⦄ where
  pub count-add :
      (p : A → Bool) (xs : List A) (a : A)
      → count p (add xs a) ≡ count p xs + (if not (contains xs a) && p a then 1 else 0)
  count-add p xs a = ground (arith, count-snoc p xs a)

  -- A list passes as many tests `p` as it passes `p` off `x`, and one more if it holds `x` once.
  pub count-except :
      (p : A → Bool) (x : A) (xs : List A)
      → Distinct xs
      → count p xs ≡ count (λ a. p a && not (a == x)) xs + (if contains xs x && p x then 1 else 0)
  count-except p x [] d = omega arith
  count-except p x (y ∷ ys) d = ground (arith, count-except p x ys d.1, ==_iff y x)

  -- Two tests that differ at one entry of a list without repetition.
  pub count_one_more :
      (p q : A → Bool) (x : A) (xs : List A)
      → Distinct xs
      → contains xs x ≡ true
      → p x ≡ true
      → q x ≡ false
      → ((a : A) → (a == x) ≡ false → p a ≡ q a)
      → count p xs ≡ suc (count q xs)
  count_one_more p q x xs d m px qx same = ground (
    arith,
    count-except p x xs d,
    count-except q x xs d,
    count-ext (λ a. p a && not (a == x)) (λ a. q a && not (a == x)) xs
        (λ a. ground (arith, same a)),
  )

  pub count-pos :
      (p : A → Bool) (xs : List A) (a : A) → contains xs a ≡ true → p a ≡ true → 0 < count p xs
  count-pos p (x ∷ xs) a m h = ground (arith, count-pos p xs a, ==_iff x a)
  count-pos p [] a m h = cc

  pub count-zero :
      (p : A → Bool) (xs : List A) (a : A) → count p xs ≡ 0 → contains xs a ≡ true → p a ≡ false
  count-zero p xs a z m = elim (Bool-cases (p a)) [
    | inl yes' ↦ absurd (omega (arith, count-pos p xs a m yes'))
    | inr no' ↦ no'
  ]

  -- What a positive count has found.
  pub count-witness :
      (p : A → Bool) (xs : List A)
      → 0 < count p xs
      → (a : A) × (contains xs a ≡ true) × (p a ≡ true)
  count-witness p [] h = absurd (omega arith)
  count-witness p (x ∷ xs) h = elim (Bool-cases (p x)) [
    | inl here ↦ (x, ground (arith, ==_refl x), here)
    | inr skip ↦ let (a, m, pa) = count-witness p xs (ground arith) in (a, ground arith, pa)
  ]

  length-discard :
      (xs : List A) (a : A)
      → Distinct xs
      → length xs ≡ length (discard xs a) + (if contains xs a then 1 else 0)
  length-discard [] a d = omega arith
  length-discard (x ∷ xs) a d = ground (arith, length-discard xs a d.1, ==_iff x a)

  Distinct-discard : (xs : List A) (a : A) → Distinct xs → Distinct (discard xs a)
  Distinct-discard xs a d = Distinct-filter (λ x. not (x == a)) xs d

  subset-cons : (x : A) (xs ys : List A) → contains ys x ≡ true → Subset xs ys → Subset (x ∷ xs) ys
  subset-cons x xs ys h s a m = ground (arith, s a, ==_iff x a)

  -- Dropping a member of the larger list leaves room for the rest of the smaller one.
  subset-discard :
      (x : A) (xs ys : List A)
      → contains xs x ≡ false
      → Subset (x ∷ xs) ys
      → Subset xs (discard ys x)
  subset-discard x xs ys absent s a m =
      ground (arith, s a, contains-discard ys x a, ==_iff a x, ==_iff x a)

  pub length-le_of_subset :
      (xs ys : List A) → Distinct xs → Distinct ys → Subset xs ys → length xs ≤ length ys
  length-le_of_subset [] ys dx dy s = omega arith
  length-le_of_subset (x ∷ xs) ys dx dy s =
      let rest =
        length-le_of_subset xs (discard ys x) dx.1 (Distinct-discard ys x dy)
          (subset-discard x xs ys dx.0 s) in
      ground (arith, length-discard ys x dy, s x, ==_refl x)

  -- A list without repetition that fits into one of the same length holds all of it.
  pub subset_of_length :
      (xs ys : List A)
      → Distinct xs
      → Distinct ys
      → Subset xs ys
      → length ys ≤ length xs
      → Subset ys xs
  subset_of_length xs ys dx dy s le a m = elim (Bool-cases (contains xs a)) [
    | inl found ↦ found
    | inr missing ↦
        let longer = length-le_of_subset (a ∷ xs) ys (missing, dx) dy (subset-cons a xs ys m s) in
        absurd (omega arith)
  ]

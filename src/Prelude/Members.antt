-- ===== src/Prelude/Members.antt =====
-- What is in a list: after sorting, in a union, and as `all` tests it.
use Prim.Native.Nat.{◌<◌}
use mathlib.Core.Path.{◌≡◌, refl}
use mathlib.Core.Logic.{inl, inr}
use mathlib.Core.Bool.{Bool, true, false, ◌||◌}
use mathlib.Core.List.{List, [], ◌∷◌}
use native.Mathlib.Omega.{arith}
use fuzzy_octo_train.Prelude.Tests.{Bool-cases}
use fuzzy_octo_train.Prelude.Lists.{all, length}
use fuzzy_octo_train.Prelude.Integers.{ℤ, leb_ℤ}
use fuzzy_octo_train.Prelude.Keys.{
  Eq, ◌==◌, ==_iff, ==_refl, contains, union, add, Distinct, Distinct-add,
}
use fuzzy_octo_train.Prelude.Counting.{length-le_of_subset}
use fuzzy_octo_train.Prelude.Sorting.{insert_descending, sort_descending}

module _ {ℓ} {A : Type ℓ} ⦃e : Eq A⦄ where
  -- `all` against a quantifier
  pub all_sound :
      (p : A → Bool) (xs : List A) (a : A) → all p xs ≡ true → contains xs a ≡ true → p a ≡ true
  all_sound p [] a h m = cc
  all_sound p (x ∷ xs) a h m = ground (arith, ==_iff x a, all_sound p xs a)

  pub all_complete :
      (p : A → Bool) (xs : List A) → ((a : A) → contains xs a ≡ true → p a ≡ true) → all p xs ≡ true
  all_complete p [] h = refl
  all_complete p (x ∷ xs) h =
      ground (arith, h x, ==_refl x, all_complete p xs (λ a m. h a (ground arith)))

  -- What `all` has failed on.
  pub all_witness :
      (p : A → Bool) (xs : List A)
      → all p xs ≡ false
      → (a : A) × (contains xs a ≡ true) × (p a ≡ false)
  all_witness p [] h = absurd (cc)
  all_witness p (x ∷ xs) h = elim (Bool-cases (p x)) [
    | inl good ↦ let (a, m, e) = all_witness p xs (ground arith) in (a, ground arith, e)
    | inr bad ↦ (x, ground (arith, ==_refl x), bad)
  ]

  -- A list without repetition that is longer than another holds what that does not.
  pub longer_witness :
      (xs ys : List A)
      → Distinct xs
      → Distinct ys
      → length xs < length ys
      → (a : A) × (contains ys a ≡ true) × (contains xs a ≡ false)
  longer_witness xs ys dx dy lt = elim (Bool-cases (all (contains xs) ys)) [
    | inl inside ↦ absurd (
        omega
          (arith, length-le_of_subset ys xs dy dx (λ a m. all_sound (contains xs) ys a inside m)))
    | inr out ↦ all_witness (contains xs) ys out
  ]

  pub Distinct-union : (xs ys : List A) → Distinct xs → Distinct (union xs ys)
  Distinct-union xs [] d = d
  Distinct-union xs (y ∷ ys) d = Distinct-union (add xs y) ys (Distinct-add xs y d)

  module _ (key : A → ℤ) where
    contains-insert :
        (x : A) (ys : List A) (a : A)
        → contains (insert_descending key x ys) a ≡ (x == a || contains ys a)
    unfolding insert_descending
    contains-insert x [] a = refl
    contains-insert x (y ∷ ys) a = ground (arith, contains-insert x ys a)

    pub contains-sort : (xs : List A) (a : A) → contains (sort_descending key xs) a ≡ contains xs a
    unfolding sort_descending
    contains-sort [] a = refl
    contains-sort (x ∷ xs) a =
        ground (arith, contains-insert x (sort_descending key xs) a, contains-sort xs a)

    Distinct-insert :
        (x : A) (ys : List A)
        → contains ys x ≡ false
        → Distinct ys
        → Distinct (insert_descending key x ys)
    unfolding insert_descending
    Distinct-insert x [] n d = (refl, tt)
    Distinct-insert x (y ∷ ys) n d = elim (Bool-cases (leb_ℤ (key y) (key x))) [
      | inl before ↦ rw before (n, d)
      | inr after ↦ rw after (
        ground (arith, contains-insert x ys y, ==_iff x y, ==_iff y x),
        Distinct-insert x ys (ground arith) d.1,
      )
    ]

    pub Distinct-sort : (xs : List A) → Distinct xs → Distinct (sort_descending key xs)
    unfolding sort_descending
    Distinct-sort [] d = tt
    Distinct-sort (x ∷ xs) d =
        Distinct-insert x (sort_descending key xs) (ground (arith, contains-sort xs x))
          (Distinct-sort xs d.1)

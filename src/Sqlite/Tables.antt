-- ===== src/Sqlite/Tables.antt =====
-- Counting the rows of the tables of src/flowmesh/storage/sqlite.py.
use fuzzy_octo_train.Prelude.{
  ◌+◌, ◌≤◌, Bool, true, ◌&&◌, List, [], ◌∷◌, ◌++◌, map, ◌≡◌, refl, arith, count, filter, any, ltb,
  All, Bool-cases, inl, inr,
}

module _ {ℓ} {A : Type ℓ} where
  pub count-append : (p : A → Bool) (xs ys : List A) → count p (xs ++ ys) ≡ count p xs + count p ys
  count-append p [] ys = omega arith
  count-append p (x ∷ xs) ys = omega (arith, count-append p xs ys)

  pub count_of_filter :
      (p q : A → Bool) (xs : List A) → count p (filter q xs) ≡ count (λ x. q x && p x) xs
  count_of_filter p q [] = refl
  count_of_filter p q (x ∷ xs) = ground (arith, count_of_filter p q xs)

  pub any-eq-count : (p : A → Bool) (xs : List A) → any p xs ≡ ltb 0 (count p xs)
  any-eq-count p [] = refl
  any-eq-count p (x ∷ xs) = ground (arith, any-eq-count p xs)

  -- A stronger test passes fewer entries.
  pub count-le :
      (p q : A → Bool) (xs : List A) → ((x : A) → p x ≡ true → q x ≡ true) → count p xs ≤ count q xs
  count-le p q [] h = omega arith
  count-le p q (x ∷ xs) h = ground (arith, h x, count-le p q xs h)

  pub All-filter {κ} :
      (P : A → Type κ) (q : A → Bool) (xs : List A) → All P xs → All P (filter q xs)
  All-filter P q [] h = tt
  All-filter P q (x ∷ xs) h = elim (Bool-cases (q x)) [
    | inl keep ↦ rw keep (h.0, All-filter P q xs h.1)
    | inr drop ↦ rw drop (All-filter P q xs h.1)
  ]

  pub All-map {κ} :
      (P : A → Type κ) (f : A → A) (xs : List A)
      → ((x : A) → P x → P (f x))
      → All P xs
      → All P (map f xs)
  All-map P f [] h a = tt
  All-map P f (x ∷ xs) h a = (h x a.0, All-map P f xs h a.1)

  pub count_of_map :
      (p : A → Bool) (f : A → A) (xs : List A)
      → ((x : A) → p (f x) ≡ p x)
      → count p (map f xs) ≡ count p xs
  count_of_map p f [] h = refl
  count_of_map p f (x ∷ xs) h = ground (arith, h x, count_of_map p f xs h)

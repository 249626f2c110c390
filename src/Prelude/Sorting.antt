-- ===== src/Prelude/Sorting.antt =====
-- Python's `list.sort(key=…, reverse=True)`: descending, and equal entries keep their order.
use Prim.Native.Nat.{◌+◌}
use mathlib.Core.Path.{◌≡◌, refl, ap, ◌∙◌}
use mathlib.Core.Bool.{Bool, true}
use mathlib.Core.List.{List, [], ◌∷◌, map}
use native.Mathlib.Omega.{arith}
use fuzzy_octo_train.Prelude.Tests.{if◌then◌else◌, Bool-cases}
use fuzzy_octo_train.Prelude.Lists.{All, count, filter}
use fuzzy_octo_train.Prelude.Integers.{ℤ, leb_ℤ}
use mathlib.Core.Logic.{inl, inr}

module _ {ℓ} {A : Type ℓ} (key : A → ℤ) where
  unfoldable pub insert_descending : A → List A → List A
  insert_descending x [] = x ∷ []
  insert_descending x (y ∷ ys) =
      let later = insert_descending x ys in if leb_ℤ (key y) (key x) then x ∷ y ∷ ys else y ∷ later

  unfoldable pub sort_descending : List A → List A
  unfolding insert_descending
  sort_descending [] = []
  sort_descending (x ∷ xs) = insert_descending x (sort_descending xs)

  abbrev pub IsDescending : List A → Type 0
  IsDescending [] = Unit
  IsDescending (x ∷ xs) = All (λ y. leb_ℤ (key y) (key x) ≡ true) xs × IsDescending xs

  insert-count :
      (p : A → Bool) (x : A) (ys : List A)
      → count p (insert_descending x ys) ≡ (if p x then 1 else 0) + count p ys
  unfolding insert_descending
  insert-count p x [] = refl
  insert-count p x (y ∷ ys) = ground (arith, insert-count p x ys)

  -- Sorting keeps each entry as often as it was there.
  pub sort-count : (p : A → Bool) (xs : List A) → count p (sort_descending xs) ≡ count p xs
  unfolding sort_descending
  sort-count p [] = refl
  sort-count p (x ∷ xs) = ground (arith, insert-count p x (sort_descending xs), sort-count p xs)

  All-insert :
      (P : A → Type 0) (x : A) (ys : List A) → P x → All P ys → All P (insert_descending x ys)
  unfolding insert_descending
  All-insert P x [] px h = (px, tt)
  All-insert P x (y ∷ ys) px h = elim (Bool-cases (leb_ℤ (key y) (key x))) [
    | inl before ↦ rw before (px, h)
    | inr after ↦ rw after (h.0, All-insert P x ys px h.1)
  ]

  leb_trans : (i j k : ℤ) → leb_ℤ i j ≡ true → leb_ℤ j k ≡ true → leb_ℤ i k ≡ true
  leb_trans i j k p q = ground arith

  All-below :
      (x y : A) (ys : List A)
      → leb_ℤ (key y) (key x) ≡ true
      → All (λ z. leb_ℤ (key z) (key y) ≡ true) ys
      → All (λ z. leb_ℤ (key z) (key x) ≡ true) ys
  All-below x y [] le h = tt
  All-below x y (z ∷ ys) le h = (leb_trans (key z) (key y) (key x) h.0 le, All-below x y ys le h.1)

  insert-IsDescending :
      (x : A) (ys : List A) → IsDescending ys → IsDescending (insert_descending x ys)
  unfolding insert_descending
  insert-IsDescending x [] h = (tt, tt)
  insert-IsDescending x (y ∷ ys) h = elim (Bool-cases (leb_ℤ (key y) (key x))) [
    | inl before ↦ rw before ((before, All-below x y ys before h.0), h)
    | inr after ↦ rw after (
      All-insert (λ z. leb_ℤ (key z) (key y) ≡ true) x ys (ground arith) h.0,
      insert-IsDescending x ys h.1,
    )
  ]

  pub sort-IsDescending : (xs : List A) → IsDescending (sort_descending xs)
  unfolding sort_descending
  sort-IsDescending [] = tt
  sort-IsDescending (x ∷ xs) = insert-IsDescending x (sort_descending xs) (sort-IsDescending xs)

  -- Among entries with one key the order stays.
  insert-stable :
      (p : A → Bool) (x : A) (ys : List A)
      → ((y : A) → p x ≡ true → p y ≡ true → leb_ℤ (key y) (key x) ≡ true)
      → filter p (insert_descending x ys) ≡ (if p x then x ∷ filter p ys else filter p ys)
  unfolding insert_descending
  insert-stable p x [] same = refl
  insert-stable p x (y ∷ ys) same = ground (arith, same y, insert-stable p x ys same)

  -- Entries with one key keep their order.
  pub sort-stable :
      (p : A → Bool) (xs : List A)
      → ((x y : A) → p x ≡ true → p y ≡ true → leb_ℤ (key y) (key x) ≡ true)
      → filter p (sort_descending xs) ≡ filter p xs
  unfolding sort_descending
  sort-stable p [] same = refl
  sort-stable p (x ∷ xs) same =
      ground (arith, insert-stable p x (sort_descending xs) (same x), sort-stable p xs same)

  pub All-sort : (P : A → Type 0) (xs : List A) → All P xs → All P (sort_descending xs)
  unfolding sort_descending
  All-sort P [] h = tt
  All-sort P (x ∷ xs) h = All-insert P x (sort_descending xs) h.0 (All-sort P xs h.1)

  insert-map :
      (f : A → A) (x : A) (ys : List A)
      → ((y : A) → key (f y) ≡ key y)
      → insert_descending (f x) (map f ys) ≡ map f (insert_descending x ys)
  unfolding insert_descending
  insert-map f x [] h = refl
  insert-map f x (y ∷ ys) h = elim (Bool-cases (leb_ℤ (key y) (key x))) [
    | inl before ↦ rw (insert_descending, h x, h y, before) refl
    | inr after ↦ rw (insert_descending, h x, h y, after, insert-map f x ys h) refl
  ]

  -- A change that keeps the keys keeps the order.
  pub sort-map :
      (f : A → A) (xs : List A)
      → ((y : A) → key (f y) ≡ key y)
      → sort_descending (map f xs) ≡ map f (sort_descending xs)
  unfolding sort_descending
  sort-map f [] h = refl
  sort-map f (x ∷ xs) h =
      ap (insert_descending (f x)) (sort-map f xs h) ∙ insert-map f x (sort_descending xs) h

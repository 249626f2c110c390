-- ===== src/Prelude/Keys.antt =====
-- Equality tests as an interface, and Python's `set` as a list without repetition.
-- A set's iteration order is no part of its meaning: code that iterates over a set goes through
-- a `SetOrder`, an arbitrary rearrangement.
use Prim.Native.Nat.{ℕ}
use Prim.Native.String.{String}
use mathlib.Core.Path.{◌≡◌, refl}
use mathlib.Core.Logic.{◌↔◌, inl, inr}
use mathlib.Core.Bool.{Bool, true, false, not, ◌&&◌, ◌||◌}
use mathlib.Core.List.{List, [], ◌∷◌, ◌++◌}
use native.Mathlib.Omega.{arith}
use text.Mathlib.Text.{◌==◌ as str_eq}
use text.Mathlib.TextEquality.{eq_iff}
use fuzzy_octo_train.Prelude.Tests.{nat_beq, nat_beq_iff, if◌then◌else◌, Bool-cases}
use fuzzy_octo_train.Prelude.Lists.{filter}

-- `beq` decides equality.
pub record Eq {ℓ} (Key : Type ℓ) : Type ℓ where
  pub beq : Key → Key → Bool
  pub beq_iff : (x y : Key) → (beq x y ≡ true) ↔ (x ≡ y)

instance abbrev pub string_eq : Eq String
string_eq = record { beq_iff = eq_iff; beq = str_eq }

infix 50 ◌==◌
abbrev pub ◌==◌ {ℓ} : {Key : Type ℓ} ⦃keys : Eq Key⦄ → Key → Key → Bool
◌==◌ ⦃keys⦄ x y = keys.beq x y

instance abbrev pub nat_eq : Eq ℕ
nat_eq = record { beq_iff = nat_beq_iff; beq = nat_beq }

module _ {ℓ} {A : Type ℓ} ⦃e : Eq A⦄ where
  pub ==_iff : (a b : A) → ((a == b) ≡ true) ↔ (a ≡ b)
  ==_iff = e.beq_iff

  pub ==_refl : (a : A) → (a == a) ≡ true
  ==_refl a = (e.beq_iff a a).1 refl

  -- `a in xs`
  abbrev pub contains : List A → A → Bool
  contains [] a = false
  contains (x ∷ xs) a = x == a || contains xs a

  -- `xs.add(a)`
  abbrev pub add : List A → A → List A
  add xs a = if contains xs a then xs else xs ++ a ∷ []

  -- `xs.discard(a)`
  abbrev pub discard : List A → A → List A
  discard xs a = filter (λ x. not (x == a)) xs

  -- `xs | ys`
  abbrev pub union : List A → List A → List A
  union xs [] = xs
  union xs (y ∷ ys) = union (add xs y) ys

  -- No entry stands twice.
  abbrev pub Distinct : List A → Type 0
  Distinct [] = Unit
  Distinct (x ∷ xs) = (contains xs x ≡ false) × Distinct xs

  abbrev pub Subset : List A → List A → Type ℓ
  Subset xs ys = (a : A) → contains xs a ≡ true → contains ys a ≡ true

  pub contains-append :
      (xs ys : List A) (a : A) → contains (xs ++ ys) a ≡ (contains xs a || contains ys a)
  contains-append [] ys a = refl
  contains-append (x ∷ xs) ys a = ground (arith, contains-append xs ys a)

  pub contains-snoc :
      (xs : List A) (b a : A) → contains (xs ++ b ∷ []) a ≡ (contains xs a || b == a)
  contains-snoc xs b a = ground (arith, contains-append xs (b ∷ []) a)

  pub contains-add : (xs : List A) (b a : A) → contains (add xs b) a ≡ (contains xs a || b == a)
  contains-add xs b a = ground (arith, contains-snoc xs b a, ==_iff b a)

  pub contains-filter :
      (p : A → Bool) (xs : List A) (a : A) → contains (filter p xs) a ≡ (contains xs a && p a)
  contains-filter p [] a = refl
  contains-filter p (x ∷ xs) a = ground (arith, contains-filter p xs a, ==_iff x a)

  pub contains-discard :
      (xs : List A) (b a : A) → contains (discard xs b) a ≡ (contains xs a && not (a == b))
  contains-discard xs b a = contains-filter (λ x. not (x == b)) xs a

  pub contains-union :
      (xs ys : List A) (a : A) → contains (union xs ys) a ≡ (contains xs a || contains ys a)
  contains-union xs [] a = ground arith
  contains-union xs (y ∷ ys) a = ground (arith, contains-union (add xs y) ys a, contains-add xs y a)

  pub Distinct-append :
      (xs ys : List A)
      → Distinct xs
      → Distinct ys
      → ((a : A) → contains xs a ≡ true → contains ys a ≡ false)
      → Distinct (xs ++ ys)
  Distinct-append [] ys dx dy h = dy
  Distinct-append (x ∷ xs) ys dx dy h = (
    ground (arith, contains-append xs ys x, h x, ==_refl x),
    Distinct-append xs ys dx.1 dy (λ a m. ground (arith, h a)),
  )

  pub Distinct-snoc :
      (xs : List A) (a : A) → Distinct xs → contains xs a ≡ false → Distinct (xs ++ a ∷ [])
  Distinct-snoc [] a d n = (refl, tt)
  Distinct-snoc (x ∷ xs) a d n = (
    ground (arith, contains-snoc xs a x, ==_iff a x, ==_iff x a),
    Distinct-snoc xs a d.1 (ground arith),
  )

  pub Distinct-add : (xs : List A) (a : A) → Distinct xs → Distinct (add xs a)
  Distinct-add xs a d = elim (Bool-cases (contains xs a)) [
    | inl old ↦ rw old d
    | inr new ↦ rw new (Distinct-snoc xs a d new)
  ]

  pub Distinct-filter : (p : A → Bool) (xs : List A) → Distinct xs → Distinct (filter p xs)
  Distinct-filter p [] d = tt
  Distinct-filter p (x ∷ xs) d = elim (Bool-cases (p x)) [
    | inl keep ↦ rw keep (ground (arith, contains-filter p xs x), Distinct-filter p xs d.1)
    | inr drop ↦ rw drop (Distinct-filter p xs d.1)
  ]

-- Some order in which a set may be iterated over: each member once.
pub record SetOrder : Type 0 where
  pub iterate : List String → List String
  pub contains-iterate : (xs : List String) (a : String) → contains (iterate xs) a ≡ contains xs a
  pub Distinct-iterate : (xs : List String) → Distinct xs → Distinct (iterate xs)

-- Insertion order is such an order.
abbrev pub insertion_order : SetOrder
insertion_order = record {
  iterate = λ xs. xs;
  contains-iterate = λ xs a. refl;
  Distinct-iterate = λ xs d. d;
}

module _ {ℓ} {A : Type ℓ} ⦃e : Eq A⦄ where
  -- Tests that agree on the entries of a list keep the same entries.
  pub filter-ext :
      (p q : A → Bool) (xs : List A)
      → ((a : A) → contains xs a ≡ true → p a ≡ q a)
      → filter p xs ≡ filter q xs
  filter-ext p q [] h = refl
  filter-ext p q (x ∷ xs) h =
      ground (arith, h x, ==_refl x, filter-ext p q xs (λ a m. h a (ground arith)))

  -- In a list without repetition the two halves share nothing.
  pub Distinct-disjoint :
      (xs ys : List A) (a : A) → Distinct (xs ++ ys) → contains ys a ≡ true → contains xs a ≡ false
  Distinct-disjoint [] ys a d m = refl
  Distinct-disjoint (x ∷ xs) ys a d m =
      ground (arith, Distinct-disjoint xs ys a d.1 m, contains-append xs ys x, ==_iff x a)

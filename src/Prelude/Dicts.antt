-- ===== src/Prelude/Dicts.antt =====
-- Python's `dict`: an association list in insertion order.
use mathlib.Core.Path.{◌≡◌, refl, ap}
use mathlib.Core.Logic.{inl, inr}
use mathlib.Core.Bool.{Bool, true, false, not, ◌&&◌, ◌||◌}
use mathlib.Core.Option.{Option, none, some}
use mathlib.Core.List.{List, [], ◌∷◌, ◌++◌}
use native.Mathlib.Omega.{arith}
use fuzzy_octo_train.Prelude.Tests.{if◌then◌else◌, Bool-cases}
use fuzzy_octo_train.Prelude.Keys.{
  Eq, ◌==◌, ==_iff, contains, add, Distinct, Distinct-add, contains-add,
}

abbrev pub Dict {ℓ κ} : Type ℓ → Type κ → Type (ℓ ⊔ κ)
Dict K V = List (K × V)

module _ {ℓ κ} {K : Type ℓ} {V : Type κ} where
  abbrev pub keys : Dict K V → List K
  keys [] = []
  keys ((k, v) ∷ d) = k ∷ keys d

  abbrev pub values : Dict K V → List V
  values [] = []
  values ((k, v) ∷ d) = v ∷ values d

module _ {ℓ κ} {K : Type ℓ} {V : Type κ} ⦃e : Eq K⦄ where
  -- `d.get(k)`
  abbrev pub get : Dict K V → K → Option V
  get [] k = none
  get ((j, v) ∷ d) k = if j == k then some v else get d k

  -- `k in d`
  abbrev pub has : Dict K V → K → Bool
  has d k = contains (keys d) k

  -- `d.get(k, default)`
  abbrev pub get_or : Dict K V → K → V → V
  get_or d k v = elim (get d k) [ some w ↦ w | none ↦ v ]

  -- `d[k] = v`: a key that is there keeps its place
  abbrev pub put : Dict K V → K → V → Dict K V
  put [] k v = (k, v) ∷ []
  put ((j, w) ∷ d) k v = let rest = put d k v in if j == k then (j, v) ∷ d else (j, w) ∷ rest

  -- `d.setdefault(k, v)`
  abbrev pub setdefault : Dict K V → K → V → Dict K V
  setdefault d k v = if has d k then d else d ++ (k, v) ∷ []

  -- `d.pop(k, None)`
  abbrev pub pop : Dict K V → K → Dict K V
  pop [] k = []
  pop ((j, w) ∷ d) k = let rest = pop d k in if j == k then rest else (j, w) ∷ rest

  pub has-get : (d : Dict K V) (k : K) → has d k ≡ true → (v : V) × (get d k ≡ some v)
  has-get [] k h = cc
  has-get ((j, w) ∷ d) k h = elim (Bool-cases (j == k)) [
    | inl here ↦ (w, rw here)
    | inr skip ↦ rw skip (has-get d k (ground arith))
  ]

  pub get-none : (d : Dict K V) (k : K) → has d k ≡ false → get d k ≡ none
  get-none [] k h = refl
  get-none ((j, w) ∷ d) k h = ground (arith, get-none d k)

  pub get-put :
      (d : Dict K V) (k j : K) (v : V) → get (put d k v) j ≡ (if k == j then some v else get d j)
  get-put [] k j v = refl
  get-put ((i, w) ∷ d) k j v = ground (arith, ==_iff k j, ==_iff i k, ==_iff i j, get-put d k j v)

  get-snoc :
      (d : Dict K V) (k j : K) (v : V)
      → has d k ≡ false
      → get (d ++ (k, v) ∷ []) j ≡ (if k == j then some v else get d j)
  get-snoc [] k j v h = refl
  get-snoc ((i, w) ∷ d) k j v h =
      ground (arith, ==_iff k j, ==_iff i k, ==_iff i j, get-snoc d k j v)

  pub get-setdefault :
      (d : Dict K V) (k j : K) (v : V)
      → get (setdefault d k v) j ≡ (if k == j && not (has d k) then some v else get d j)
  get-setdefault d k j v = elim (Bool-cases (has d k)) [
    | inl old ↦ ground arith
    | inr new ↦ ground (arith, get-snoc d k j v new)
  ]

  pub get-pop : (d : Dict K V) (k j : K) → get (pop d k) j ≡ (if k == j then none else get d j)
  get-pop [] k j = ground arith
  get-pop ((i, w) ∷ d) k j = ground (arith, ==_iff k j, ==_iff i k, ==_iff i j, get-pop d k j)

  pub keys-put : (d : Dict K V) (k : K) (v : V) → keys (put d k v) ≡ add (keys d) k
  keys-put [] k v = refl
  keys-put ((i, w) ∷ d) k v = ground (arith, keys-put d k v)

  pub keys-put_same : (d : Dict K V) (k : K) (v : V) → has d k ≡ true → keys (put d k v) ≡ keys d
  keys-put_same d k v h = rw (keys-put d k v, h)

  keys-append : (c d : Dict K V) → keys (c ++ d) ≡ keys c ++ keys d
  keys-append [] d = refl
  keys-append ((k, v) ∷ c) d = ap (◌∷◌ k) (keys-append c d)

  pub keys-setdefault : (d : Dict K V) (k : K) (v : V) → keys (setdefault d k v) ≡ add (keys d) k
  keys-setdefault d k v = ground (arith, keys-append d ((k, v) ∷ []))

  pub has-put : (d : Dict K V) (k j : K) (v : V) → has (put d k v) j ≡ (has d j || k == j)
  has-put d k j v = rw (keys-put d k v) (contains-add (keys d) k j)

  pub has-pop : (d : Dict K V) (k j : K) → has (pop d k) j ≡ (has d j && not (k == j))
  has-pop [] k j = refl
  has-pop ((i, w) ∷ d) k j = ground (arith, has-pop d k j, ==_iff k j, ==_iff i k, ==_iff i j)

  pub get-has : (d : Dict K V) (k : K) (v : V) → get d k ≡ some v → has d k ≡ true
  get-has [] k v h = cc
  get-has ((j, w) ∷ d) k v h = ground (arith, get-has d k v)

  pub Distinct-keys-put :
      (d : Dict K V) (k : K) (v : V) → Distinct (keys d) → Distinct (keys (put d k v))
  Distinct-keys-put d k v h = rw (keys-put d k v) (Distinct-add (keys d) k h)

  pub Distinct-keys-setdefault :
      (d : Dict K V) (k : K) (v : V) → Distinct (keys d) → Distinct (keys (setdefault d k v))
  Distinct-keys-setdefault d k v h = rw (keys-setdefault d k v) (Distinct-add (keys d) k h)

-- ===== src/DryRun/Extend.antt =====
-- One pass of `ExecutionEngine.dry_run` over the neighbours of a node.
use fuzzy_octo_train.Prelude.{
  string_eq, ℕ, ◌+◌, ◌≤◌, String, true, false, ◌&&◌, Option, none, some, List, [], ◌∷◌, get, has,
  contains, ◌≡◌, ◌==◌, refl, ◌∙◌, ap, ◌⊎◌, arith, Bool-cases, inl, inr, if◌then◌else◌, get-put,
  has-put, has-get, ==_iff, ==_refl, ltb, ok,
}
use fuzzy_octo_train.DryRun.{Distances, improve, extend}

-- The length that is kept for a node.
abbrev pub len : Distances → String → ℕ
len dist n = elim (get dist n) [ none ↦ 0 | some entry ↦ entry.0 ]

-- What a pass over a node's neighbours leaves.
abbrev pub improved : Distances → String → List String → String → Option (ℕ × Option String)
improved dist u neighbours n =
    if contains neighbours n && ltb (len dist n) (len dist u + 1)
    then some (len dist u + 1, some u)
    else get dist n

get-improve :
    (dist : Distances) (u v n : String) (a b : ℕ)
    → get (improve dist u v a b) n ≡ (if v == n && ltb b a then some (a, some u) else get dist n)
get-improve dist u v n a b = elim (Bool-cases (ltb b a)) [
  | inl more ↦ rw more (ground (arith, get-put dist v n (a, some u)))
  | inr same ↦ rw same (ground arith)
]

has-improve :
    (dist : Distances) (u v n : String) (a b : ℕ)
    → has dist v ≡ true
    → has (improve dist u v a b) n ≡ has dist n
has-improve dist u v n a b there = elim (Bool-cases (ltb b a)) [
  | inl more ↦ rw more (ground (arith, has-put dist v n (a, some u), ==_iff v n))
  | inr same ↦ rw same refl
]

pub len-get :
    (dist : Distances) (n : String) (entry : ℕ × Option String)
    → get dist n ≡ some entry
    → len dist n ≡ entry.0
len-get dist n entry e = rw (len, e) refl

improved-improve :
    (dist dist₁ : Distances) (u v : String) (vs : List String) (n : String)
    → contains (v ∷ vs) u ≡ false
    → ((m : String)
        → get dist₁ m ≡ (
            if v == m && ltb (len dist v) (len dist u + 1)
            then some (len dist u + 1, some u)
            else get dist m))
    → improved dist₁ u vs n ≡ improved dist u (v ∷ vs) n
improved-improve dist dist₁ u v vs n out h = elim (Bool-cases (v == n)) [
  | inl here ↦ ground (arith, h u, h n, ==_iff v n, ==_iff v u)
  | inr other ↦ ground (arith, h u, h n)
]

pub extend_lem :
    (u : String) (neighbours : List String) (dist : Distances)
    → has dist u ≡ true
    → contains neighbours u ≡ false
    → ((n : String) → contains neighbours n ≡ true → has dist n ≡ true)
    → (dist' : Distances) × (extend u neighbours dist ≡ ok dist')
      × ((n : String) → get dist' n ≡ improved dist u neighbours n)
unfolding extend
extend_lem u [] dist there out all = (dist, refl, λ n. refl)
extend_lem u (v ∷ vs) dist there out all =
    let (here, e) = has-get dist u there in
    let v_there : has dist v ≡ true = all v (ground (arith, ==_refl v)) in
    let (old, f) = has-get dist v v_there in
    let dist₁ : Distances = improve dist u v (here.0 + 1) old.0 in
    let same : (n : String) → has dist₁ n ≡ has dist n =
      λ n. has-improve dist u v n (here.0 + 1) old.0 v_there in
    let (dist', computed, each) =
      extend_lem u vs dist₁ (same u ∙ there) (ground arith)
        (λ n h. same n ∙ all n (ground arith)) in
    (
      dist',
      rw (e, f) computed,
      λ n.
          each n
          ∙ improved-improve dist dist₁ u v vs n out (λ m.
            rw (len-get dist u here e, len-get dist v old f)
              (get-improve dist u v m (here.0 + 1) old.0)),
    )

pub improved-cases :
    (dist : Distances) (u : String) (neighbours : List String) (n : String)
    {entry : Option (ℕ × Option String)}
    → entry ≡ improved dist u neighbours n
    → ((contains neighbours n ≡ true)
        × (len dist n ≤ len dist u)
        × (entry ≡ some (len dist u + 1, some u)))
      ⊎ ((contains neighbours n ≡ true → len dist u + 1 ≤ len dist n) × (entry ≡ get dist n))
improved-cases dist u neighbours n e =
    elim (Bool-cases (contains neighbours n && ltb (len dist n) (len dist u + 1))) [
      | inl h ↦ inl (ground arith, ground arith, ground arith)
      | inr h ↦ inr (λ there. ground arith, ground arith)
    ]

pub entry-inj :
    {k l : ℕ} {p q : String}
    → ◌≡◌ {A = Option (ℕ × Option String)} (some (k, some p)) (some (l, some q))
    → (k ≡ l) × (p ≡ q)
entry-inj e = (cc, cc)

pub len-same :
    (dist dist' : Distances) (n : String) → get dist' n ≡ get dist n → len dist' n ≡ len dist n
len-same dist dist' n e = ap (λ o. elim o as (λ _. ℕ) [ none ↦ 0 | some entry ↦ entry.0 ]) e

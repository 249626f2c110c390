-- ===== src/Redis/Pages.antt =====
-- The pages of `list_all` of src/flowmesh/storage/redis.py.
use fuzzy_octo_train.Prelude.{
  string_eq, nat_eq, ℕ, zero, suc, ◌+◌, ◌-◌, String, true, Option, List, [], ◌∷◌, map, take, drop,
  length, Dict, has, has-get, ◌≡◌, ◌==◌, refl, sym, ◌∙◌, ap, subst, arith, if◌then◌else◌, inl, inr,
  All, All-take, All-drop, pos, ◌+ℤ◌, decrement, ok,
}
use fuzzy_octo_train.Models.{Workflow}
use fuzzy_octo_train.Sqlite.Reloaded.{read_back}
use fuzzy_octo_train.Redis.{Redis, zrevrange, read_ids, list_all, end_of}
use fuzzy_octo_train.Redis.Consistency.{IsConsistent, find-cases}

-- A page without a limit of its own is empty, unless it is the first: that one is the whole list.
abbrev pub page : {A : Type 0} → List A → (limit offset : ℕ) → List A
page members zero zero = members
page members limit offset = take limit (drop offset members)

take-whole : {A : Type 0} (xs : List A) → take (length xs) xs ≡ xs
take-whole [] = refl
take-whole (x ∷ xs) = ap (◌∷◌ x) (take-whole xs)

+ℤ-pos : (a b : ℕ) → pos a +ℤ pos b ≡ pos (a + b)
+ℤ-pos a b = ground arith

-- One past the last index that `list_all` asks for.
end_of-decrement : (n t : ℕ) → end_of n (decrement (pos t)) ≡ (if t == 0 then n else t)
end_of-decrement n zero = omega arith
end_of-decrement n (suc t) = ground arith

page-take :
    {A : Type 0} (members : List A) (limit offset : ℕ)
    → take
        ((if offset + limit == 0 then length members else offset + limit) - offset)
        (drop offset members)
      ≡ page members limit offset
page-take members zero zero = ap (λ n. take n members) (omega arith) ∙ take-whole members
page-take members zero (suc offset) =
    ap (λ n. take n (drop (suc offset) members)) {y = 0} (ground arith)
page-take members (suc limit) offset =
    ap (λ n. take n (drop offset members)) {y = suc limit} (ground arith)

zrevrange-page :
    {A : Type 0} (members : List A) (limit offset : ℕ)
    → zrevrange members (pos offset) (decrement (pos offset +ℤ pos limit))
      ≡ page members limit offset
zrevrange-page members limit offset =
    ap (λ n. take (n - offset) (drop offset members))
      (ap (λ t. end_of (length members) (decrement t)) (+ℤ-pos offset limit)
        ∙ end_of-decrement (length members) (offset + limit))
    ∙ page-take members limit offset

module _ {A : Type 0} (P : A → Type 0) where
  All-page : (xs : List A) (limit offset : ℕ) → All P xs → All P (page xs limit offset)
  All-page xs zero zero h = h
  All-page xs zero (suc offset) h = tt
  All-page xs (suc limit) offset h =
      All-take P (suc limit) (drop offset xs) (All-drop P offset xs h)

module _ {V : Type 0} (now : ℕ → ℕ) (nothing : V) (fresh : ℕ → String) {s : Redis V} where
  read_ids-ok :
      {json : V → Option V} (i : ℕ) (workflow_ids : List String)
      → IsConsistent json s
      → All (λ k. has s.scores k ≡ true) workflow_ids
      → (workflows : List (Workflow V)) × (read_ids now nothing fresh s i workflow_ids
          ≡ ok workflows)
        × (map (λ (w : Workflow V). w.id) workflows ≡ workflow_ids)
  unfolding read_ids
  read_ids-ok i [] c h = ([], refl, refl)
  read_ids-ok i (k ∷ ks) c h =
      let (rest, read, same) = read_ids-ok (suc i) ks c h.1 in
      elim (find-cases (now i) nothing fresh c k) [
        | inl (e, missing) ↦ absurd (ground (arith, c.listed k, has-get s.workflows k))
        | inr (row, status, e, own, r, p, found) ↦ (
          read_back (now i) nothing fresh row status ∷ rest,
          rw (read_ids, found, read) refl,
          ap (◌∷◌ row.id) same ∙ ap (λ j. j ∷ ks) own,
        )
      ]

-- On consistent keys, when Redis lists members of the sorted set only, `list_all` with a limit and an
-- offset that are not negative returns the workflows of `limit` ids from the offset on, in the
-- order in which Redis lists them, and skips none; but at limit and offset 0 it returns all of them.
pub list_all-page :
    {V : Type 0} {json : V → Option V} (order : Dict String ℕ → List String) (now : ℕ → ℕ)
    (nothing : V) (fresh : ℕ → String) {s : Redis V} (limit offset : ℕ)
    → IsConsistent json s
    → All (λ k. has s.scores k ≡ true) (order s.scores)
    → (workflows : List (Workflow V)) × (list_all order now nothing fresh s (pos limit) (pos offset)
        ≡ ok workflows)
      × (map (λ (w : Workflow V). w.id) workflows ≡ page (order s.scores) limit offset)
unfolding list_all
list_all-page {V} {json} order now nothing fresh {s} limit offset c h =
    subst
      (λ ks.
        (workflows : List (Workflow V)) × (read_ids now nothing fresh s 0 ks ≡ ok workflows)
        × (map (λ (w : Workflow V). w.id) workflows ≡ page (order s.scores) limit offset))
      (sym (zrevrange-page (order s.scores) limit offset))
      (read_ids-ok now nothing fresh 0 (page (order s.scores) limit offset) c
        (All-page (λ k. has s.scores k ≡ true) (order s.scores) limit offset h))

-- ===== src/Dag/Position.antt =====
-- The place of a node in an order of the nodes.
use mathlib.Core.List.{append_assoc}
use fuzzy_octo_train.Prelude.{
  string_eq, ℕ, suc, String, true, false, List, [], ◌∷◌, ◌++◌, ◌<◌, contains, ◌≡◌, ◌==◌, arith,
  Distinct, if◌then◌else◌, Bool-cases, inl, inr, ==_iff, ==_refl, length, Distinct-disjoint, subst,
}
use fuzzy_octo_train.Dag.Edges.{Adjacency, edge, IsOrderedFrom}

pub position : List String → String → ℕ
position [] a = 0
position (x ∷ xs) a = if x == a then 0 else suc (position xs a)

pub position-lt :
    (xs ys : List String) (a : String) → contains xs a ≡ true → position (xs ++ ys) a < length xs
unfolding position
position-lt [] ys a m = cc
position-lt (x ∷ xs) ys a m = ground (arith, position-lt xs ys a)

position-skip :
    (xs ys : List String) (a : String)
    → contains xs a ≡ false
    → position (xs ++ a ∷ ys) a ≡ length xs
unfolding position
position-skip [] ys a m = ground (arith, ==_refl a)
position-skip (x ∷ xs) ys a m = ground (arith, position-skip xs ys a)

pub position-lt-position :
    (adjacency : Adjacency) (seen order : List String) (from to : String)
    → IsOrderedFrom adjacency seen order
    → Distinct (seen ++ order)
    → contains order to ≡ true
    → edge adjacency from to ≡ true
    → position (seen ++ order) from < position (seen ++ order) to
position-lt-position adjacency seen [] from to h d m e = cc
position-lt-position adjacency seen (x ∷ order) from to h d m e = elim (Bool-cases (x == to)) [
  | inl here ↦ ground (
    arith,
    h.0 from (ground (arith, ==_iff x to)),
    position-lt seen (x ∷ order) from,
    position-skip seen order x (Distinct-disjoint seen (x ∷ order) x d (ground (arith, ==_refl x))),
    ==_iff x to,
  )
  | inr later ↦
      subst (λ l. position l from < position l to) (append_assoc seen (x ∷ []) order)
        (position-lt-position adjacency (seen ++ x ∷ []) order from to h.1 (rw append_assoc d)
          (ground arith) e)
]

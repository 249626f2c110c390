-- ===== src/Dag/Edges.antt =====
-- The edges of a `DAG`, read off its adjacency dictionary, and what is said of orders of its nodes.
use mathlib.Core.List.{append_assoc}
use fuzzy_octo_train.Prelude.{
  string_eq, ℕ, String, Bool, true, false, not, ◌&&◌, List, [], ◌∷◌, ◌++◌, Dict, keys, get_or, has,
  contains, count, ◌≡◌, ◌==◌, ◌+◌, ◌<◌, arith, Distinct, if◌then◌else◌, get-none, Bool-cases, inl,
  inr, contains-snoc, count-except, count-ext, ==_iff, count-zero, contains-append,
}

abbrev pub Adjacency : Type 0
Adjacency = Dict String (List String)

module _ (adjacency : Adjacency) where
  abbrev pub targets : String → List String
  targets from = get_or adjacency from []

  abbrev pub edge : String → String → Bool
  edge from to = contains (targets from) to

  -- how many of a node's sources are not in the order yet
  abbrev pub pending : List String → String → ℕ
  pending order to = count (λ from. edge from to && not (contains order from)) (keys adjacency)

  -- Each node of a list comes behind `seen` and its own sources.
  abbrev pub IsOrderedFrom : List String → List String → Type 0
  IsOrderedFrom seen [] = Unit
  IsOrderedFrom seen (node ∷ rest) =
      ((from : String) → edge from node ≡ true → contains seen from ≡ true)
      × IsOrderedFrom (seen ++ node ∷ []) rest

  -- A number for each node that grows along every edge: there is one only if no cycle is there.
  abbrev pub IsRank : (String → ℕ) → Type 0
  IsRank rank = (from to : String) → edge from to ≡ true → rank from < rank to

  pub edge-known : (from to : String) → edge from to ≡ true → has adjacency from ≡ true
  edge-known from to h = elim (Bool-cases (has adjacency from)) [
    | inl there ↦ there
    | inr missing ↦ ground (arith, get-none adjacency from missing)
  ]

  pub IsOrderedFrom-snoc :
      (seen order : List String) (node : String)
      → IsOrderedFrom seen order
      → ((from : String) → edge from node ≡ true → contains (seen ++ order) from ≡ true)
      → IsOrderedFrom seen (order ++ node ∷ [])
  IsOrderedFrom-snoc seen [] node h k =
      (λ from e. ground (arith, k from, contains-append seen [] from), tt)
  IsOrderedFrom-snoc seen (x ∷ order) node h k = (
    h.0,
    IsOrderedFrom-snoc (seen ++ x ∷ []) order node h.1 (λ from e. rw append_assoc (k from e)),
  )

  pub pending-snoc :
      (order : List String) (node to : String)
      → Distinct (keys adjacency)
      → contains order node ≡ false
      → pending order to ≡ pending (order ++ node ∷ []) to + (if edge node to then 1 else 0)
  pending-snoc order node to d fresh = ground (
    arith,
    count-except (λ from. edge from to && not (contains order from)) node (keys adjacency) d,
    count-ext (λ from. (edge from to && not (contains order from)) && not (from == node))
        (λ from. edge from to && not (contains (order ++ node ∷ []) from)) (keys adjacency)
        (λ from. ground (arith, contains-snoc order node from, ==_iff node from, ==_iff from node)),
    edge-known node to,
  )

  pub pending-zero :
      (order : List String) (from to : String)
      → pending order to ≡ 0
      → edge from to ≡ true
      → contains order from ≡ true
  pending-zero order from to z e = ground (
    arith,
    count-zero (λ u. edge u to && not (contains order u)) (keys adjacency) from z
        (edge-known from to e),
  )

-- ===== src/Dag/Ready.antt =====
-- The nodes that `DAG.get_ready_nodes` returns.
use fuzzy_octo_train.Prelude.{
  string_eq, ℕ, zero, suc, String, true, false, not, ◌&&◌, List, [], ◌∷◌, keys, has, contains, ◌≡◌,
  ◌<◌, refl, arith, Distinct, Bool-cases, inl, inr, ◌↔◌, all, get-none, ==_iff, contains-filter,
  Distinct-filter, all_sound, all_complete, all_witness,
}
use fuzzy_octo_train.Dag.{Dag, sources, get_ready_nodes}
use fuzzy_octo_train.Dag.Edges.{edge, edge-known, IsRank, Adjacency}
use fuzzy_octo_train.Dag.Invariant.{IsWellFormed}

contains-sources :
    (adjacency : Adjacency) (from to : String)
    → Distinct (keys adjacency)
    → contains (sources adjacency to) from ≡ edge adjacency from to
unfolding sources
contains-sources [] from to d = refl
contains-sources ((source, targets) ∷ rest) from to d =
    ground (arith, contains-sources rest from to d.1, ==_iff source from, get-none rest source)

-- The node is not completed, and all of its sources are.
abbrev pub IsReady : Dag → List String → String → Type 0
IsReady g completed node =
    (has g.adjacency node ≡ true)
    × (contains completed node ≡ false)
    × ((from : String) → edge g.adjacency from node ≡ true → contains completed from ≡ true)

module _ {g : Dag} (w : IsWellFormed g) (completed : List String) where
  ready_test :
      (node : String)
      → contains (get_ready_nodes g completed) node ≡ (
          has g.adjacency node
          && (not (contains completed node) && all (contains completed) (sources g.adjacency node)))
  unfolding get_ready_nodes
  ready_test node =
      contains-filter
        (λ v. not (contains completed v) && all (contains completed) (sources g.adjacency v))
        (keys g.adjacency) node

  -- On a well-formed graph the nodes that `get_ready_nodes` returns are exactly the nodes that are not
  -- completed and whose sources all are.
  pub get_ready_nodes_iff :
      (node : String)
      → (contains (get_ready_nodes g completed) node ≡ true) ↔ IsReady g completed node
  get_ready_nodes_iff node = (
    λ m. (
      ground (arith, ready_test node),
      ground (arith, ready_test node),
      λ from out.
          all_sound (contains completed) (sources g.adjacency node) from
            (ground (arith, ready_test node))
            (rw (contains-sources g.adjacency from node w.distinct) out),
    ),
    λ (known, fresh, below). ground (
      arith,
      ready_test node,
      all_complete (contains completed) (sources g.adjacency node)
          (λ from m. below from (rw (contains-sources g.adjacency from node w.distinct) at m)),
    ),
  )

  pub get_ready_nodes-Distinct : Distinct (get_ready_nodes g completed)
  unfolding get_ready_nodes
  get_ready_nodes-Distinct = Distinct-filter _ (keys g.adjacency) w.distinct

  ready_below :
      (rank : String → ℕ)
      → IsRank g.adjacency rank
      → (bound : ℕ) (node : String) → rank node < bound
      → has g.adjacency node ≡ true
      → contains completed node ≡ false
      → (ready : String) × (contains (get_ready_nodes g completed) ready ≡ true)
  ready_below rank up zero node lt known fresh = absurd (omega arith)
  ready_below rank up (suc bound) node lt known fresh =
      elim (Bool-cases (all (contains completed) (sources g.adjacency node))) [
        | inl free ↦ (node, ground (arith, ready_test node))
        | inr waits ↦
            let (from, m, missing) =
              all_witness (contains completed) (sources g.adjacency node) waits in
            let out : edge g.adjacency from node ≡ true =
              rw (contains-sources g.adjacency from node w.distinct) at m in
            let lower : rank from < rank node = up from node out in
            ready_below rank up bound from (omega arith) (edge-known g.adjacency from node out)
              missing
      ]

  -- While some node is not completed, in a well-formed graph whose nodes some numbering numbers upwards
  -- along the edges, `get_ready_nodes` returns a node.
  pub get_ready_nodes-progress :
      (rank : String → ℕ) (node : String)
      → IsRank g.adjacency rank
      → has g.adjacency node ≡ true
      → contains completed node ≡ false
      → (ready : String) × (contains (get_ready_nodes g completed) ready ≡ true)
  get_ready_nodes-progress rank node up known fresh =
      ready_below rank up (suc (rank node)) node (omega arith) known fresh

-- ===== src/Dag/Topological.antt =====
-- What `DAG.topological_sort` comes to.
use mathlib.Core.List.{append-nil}
use fuzzy_octo_train.Prelude.{
  string_eq, ℕ, zero, suc, String, true, not, ◌&&◌, List, [], ◌∷◌, Dict, keys, has, contains, ◌≡◌,
  ◌<◌, refl, ap, arith, Distinct, Subset, Bool-cases, inl, inr, ◌⊎◌, ok, err, SetOrder, length,
  nat_beq, subset_of_length, length-le_of_subset, Bool-ext, count-witness, cycle_detected_error, ℤ,
  ◌↔◌, subst,
}
use fuzzy_octo_train.Dag.{Dag, drain, roots, topological_sort}
use fuzzy_octo_train.Dag.Edges.{edge, pending, IsOrderedFrom, IsRank, Adjacency}
use fuzzy_octo_train.Dag.Invariant.{IsWellFormed}
use fuzzy_octo_train.Dag.Drain.{IsDraining, drain_lem}
use fuzzy_octo_train.Dag.Start.{IsDraining-start}
use fuzzy_octo_train.Dag.Position.{position, position-lt-position}

-- The order holds every node of the graph once, and each node behind all sources of its edges.
pub record IsTopological (g : Dag) (order : List String) : Type 0 where
  pub distinct : Distinct order
  pub nodes : (v : String) → contains order v ≡ has g.adjacency v
  pub ordered : IsOrderedFrom g.adjacency [] order

length-keys : (d : Adjacency) → length (keys d) ≡ length d
length-keys [] = refl
length-keys ((k, v) ∷ d) = ap suc (length-keys d)

-- What the loop leaves when its queue is empty.
record IsDrained (g : Dag) (final : List String) : Type 0 where
  distinct : Distinct final
  known : Subset final (keys g.adjacency)
  released :
      (v : String)
      → has g.adjacency v ≡ true
      → contains final v ≡ nat_beq (pending g.adjacency final v) 0
  ordered : IsOrderedFrom g.adjacency [] final

IsDrained_of :
    {g : Dag} {degrees : Dict String ℤ} {final : List String}
    → IsDraining g degrees [] final
    → IsDrained g final
IsDrained_of inv = record {
  distinct = rw append-nil at inv.distinct;
  known = rw append-nil at inv.known;
  released = rw append-nil at inv.released;
  ordered = inv.ordered;
}

module _ {g : Dag} (w : IsWellFormed g) {final : List String} (done : IsDrained g final) where
  -- Without a cycle nothing is left over: the least node that was would be free.
  drained_below :
      (rank : String → ℕ)
      → IsRank g.adjacency rank
      → (bound : ℕ) (v : String) → rank v < bound
      → has g.adjacency v ≡ true
      → contains final v ≡ true
  drained_below rank up zero v lt h = absurd (omega arith)
  drained_below rank up (suc bound) v lt h = elim (Bool-cases (contains final v)) [
    | inl there ↦ there
    | inr missing ↦
        let (u, u_known, waits) =
          count-witness (λ u. edge g.adjacency u v && not (contains final u)) (keys g.adjacency)
            (ground (arith, done.released v h)) in
        let below : rank u < rank v = up u v (ground arith) in
        ground (arith, drained_below rank up bound u (omega arith) u_known)
  ]

  IsTopological-of : length final ≡ length g.adjacency → IsTopological g final
  IsTopological-of e = record {
    distinct = done.distinct;
    nodes = λ v. Bool-ext _ _ (done.known v) (
        subset_of_length final (keys g.adjacency) done.distinct w.distinct done.known
          (omega (arith, length-keys g.adjacency)) v);
    ordered = done.ordered;
  }

  length_of_rank : (rank : String → ℕ) → IsRank g.adjacency rank → length final ≡ length g.adjacency
  length_of_rank rank up = omega (
    arith,
    length-keys g.adjacency,
    length-le_of_subset final (keys g.adjacency) done.distinct w.distinct done.known,
    length-le_of_subset (keys g.adjacency) final w.distinct done.distinct
        (λ v h. drained_below rank up (suc (rank v)) v (omega arith) h),
  )

  position-IsRank : length final ≡ length g.adjacency → IsRank g.adjacency (position final)
  position-IsRank e from to out =
      position-lt-position g.adjacency [] final from to done.ordered done.distinct
        (ground (arith, (IsTopological-of e).nodes to, w.known from to)) out

module _ (σ : SetOrder) {g : Dag} (w : IsWellFormed g) where
  drained :
      (final : List String) × (drain σ
          (length g.adjacency)
          g.adjacency
          g.in_degree
          (roots g.in_degree)
          []
        ≡ ok final)
      × IsDrained g final
  drained =
      let (final, computed, degrees, inv) =
        drain_lem σ w (length g.adjacency) g.in_degree (roots g.in_degree) []
          (omega (arith, length-keys g.adjacency)) (IsDraining-start w) in
      (final, computed, IsDrained_of inv)

  -- On a well-formed graph `topological_sort` either returns an order that holds every node once,
  -- each behind the sources of its edges, and then the places in it number the nodes upwards along
  -- the edges; or it raises CycleDetectedError, and then no numbering of the nodes goes up along
  -- every edge.
  pub topological_sort_lem :
      ((order : List String) × (topological_sort σ g ≡ ok order)
        × IsTopological g order
        × IsRank g.adjacency (position order))
      ⊎ ((topological_sort σ g ≡ err cycle_detected_error)
          × ((rank : String → ℕ) → ¬ IsRank g.adjacency rank))
  unfolding topological_sort
  topological_sort_lem =
      let (final, computed, done) = drained in
      elim (Bool-cases (nat_beq (length final) (length g.adjacency))) [
        | inl all' ↦ inl (
          final,
          ground (arith, computed),
          IsTopological-of w done (ground arith),
          position-IsRank w done (ground arith),
        )
        | inr some' ↦
            inr (ground (arith, computed), λ rank up. ground (arith, length_of_rank w done rank up))
      ]

  -- On a well-formed graph `topological_sort` returns an order exactly when some numbering of the nodes
  -- goes up along every edge.
  pub topological_sort-ok_iff :
      ((order : List String) × (topological_sort σ g ≡ ok order))
      ↔ ((rank : String → ℕ) × IsRank g.adjacency rank)
  topological_sort-ok_iff = (
    λ (order, e). elim topological_sort_lem [
      | inl (order', e', top, up) ↦ (position order', up)
      | inr (e', none') ↦ absurd (cc)
    ],
    λ (rank, up). elim topological_sort_lem [
      | inl (order', e', top, up') ↦ (order', e')
      | inr (e', none') ↦ absurd (none' rank up)
    ],
  )

  pub topological_sort-IsTopological :
      (order : List String) → topological_sort σ g ≡ ok order → IsTopological g order
  topological_sort-IsTopological order e = elim topological_sort_lem [
    | inl (order', e', top, up) ↦ subst (IsTopological g) (cc) top
    | inr (e', none') ↦ absurd (cc)
  ]

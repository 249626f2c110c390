-- ===== src/Dag/Drain.antt =====
-- The `while queue` loop of `topological_sort` on a well-formed graph.
use mathlib.Core.List.{append_assoc}
use fuzzy_octo_train.Prelude.{
  string_eq, ℕ, zero, suc, String, true, false, ◌&&◌, ◌||◌, some, List, [], ◌∷◌, ◌++◌, Dict, keys,
  get, has, contains, ◌≡◌, ◌+◌, ◌≤◌, refl, ◌∙◌, arith, Distinct, Subset, filter, if◌then◌else◌,
  Bool-cases, inl, inr, ==_refl, ok, ℤ, pos, SetOrder, length, nat_beq, contains-append,
  contains-filter, Distinct-append, Distinct-filter, length-le_of_subset, length-append,
  Distinct-disjoint,
}
use fuzzy_octo_train.Dag.{Dag, relax, drain}
use fuzzy_octo_train.Dag.Edges.{
  Adjacency, targets, edge, pending, pending-snoc, pending-zero, IsOrderedFrom, IsOrderedFrom-snoc,
}
use fuzzy_octo_train.Dag.Invariant.{IsWellFormed}
use fuzzy_octo_train.Dag.Relax.{releases, IsRelaxed, relax_lem}

-- The loop invariant: a node is in the order or in the queue exactly when all of its sources are
-- in the order, and the degree kept for it counts the sources that are not.
pub record IsDraining (g : Dag) (degrees : Dict String ℤ) (queue order : List String) : Type 0 where
  pub degree :
      (v : String)
      → has g.adjacency v ≡ true
      → get degrees v ≡ some (pos (pending g.adjacency order v))
  pub distinct : Distinct (order ++ queue)
  pub known : Subset (order ++ queue) (keys g.adjacency)
  pub released :
      (v : String)
      → has g.adjacency v ≡ true
      → contains (order ++ queue) v ≡ nat_beq (pending g.adjacency order v) 0
  pub ordered : IsOrderedFrom g.adjacency [] order

module _ {g : Dag} (w : IsWellFormed g) {degrees : Dict String ℤ} {node : String}
    {queue order : List String} (inv : IsDraining g degrees (node ∷ queue) order) where
  node_known : has g.adjacency node ≡ true
  node_known =
      inv.known node (ground (arith, contains-append order (node ∷ queue) node, ==_refl node))

  node_free : pending g.adjacency order node ≡ 0
  node_free =
      ground (
        arith,
        inv.released node node_known,
        contains-append order (node ∷ queue) node,
        ==_refl node,
      )

  fresh : contains order node ≡ false
  fresh = Distinct-disjoint order (node ∷ queue) node inv.distinct (ground (arith, ==_refl node))

  -- Taking the node out lowers the count of its targets by one.
  pending_step :
      (v : String)
      → pending g.adjacency order v
        ≡ pending g.adjacency (order ++ node ∷ []) v + (if edge g.adjacency node v then 1 else 0)
  pending_step v = pending-snoc g.adjacency order node v w.distinct fresh

  module _ (neighbours : List String) (distinct : Distinct neighbours)
      (same : (v : String) → contains neighbours v ≡ edge g.adjacency node v) where
    abbrev freed : List String
    freed = filter (releases degrees) neighbours

    regroup : (order ++ node ∷ []) ++ (queue ++ freed) ≡ (order ++ node ∷ queue) ++ freed
    regroup = simp append_assoc

    -- A freed node was waiting for this one alone.
    freed_lem :
        (v : String)
        → contains freed v ≡ (edge g.adjacency node v && nat_beq (pending g.adjacency order v) 1)
    freed_lem v = elim (Bool-cases (edge g.adjacency node v)) [
      | inl out ↦ ground (
        arith,
        contains-filter (releases degrees) neighbours v,
        same v,
        inv.degree v (w.known node v out),
        pending_step v,
      )
      | inr off ↦ ground (arith, contains-filter (releases degrees) neighbours v, same v)
    ]

    member :
        (v : String)
        → contains ((order ++ node ∷ []) ++ (queue ++ freed)) v
          ≡ (contains (order ++ node ∷ queue) v || contains freed v)
    member v = rw regroup (contains-append (order ++ node ∷ queue) freed v)

    freed_new : (v : String) → contains (order ++ node ∷ queue) v ≡ true → contains freed v ≡ false
    freed_new v m = ground (arith, freed_lem v, inv.released v (inv.known v m))

    IsDraining-step :
        (degrees' : Dict String ℤ)
        → IsRelaxed neighbours degrees queue degrees'
        → IsDraining g degrees' (queue ++ filter (releases degrees) neighbours) (order ++ node ∷ [])
    IsDraining-step degrees' relaxed = record {
      degree = λ v h. ground (arith, relaxed.at_node v, inv.degree v h, pending_step v, same v);
      distinct = rw regroup (
          Distinct-append (order ++ node ∷ queue) freed inv.distinct
            (Distinct-filter (releases degrees) neighbours distinct) freed_new);
      known = λ v m. ground (arith, member v, inv.known v, freed_lem v, w.known node v);
      released = λ v h. ground (arith, member v, inv.released v h, freed_lem v, pending_step v);
      ordered =
          IsOrderedFrom-snoc g.adjacency [] order node inv.ordered
            (λ from e. pending-zero g.adjacency order from node node_free e);
    }

-- One round of the loop.
drain_step :
    (σ : SetOrder) (fuel : ℕ) (adjacency : Adjacency) (degrees : Dict String ℤ) (node : String)
    (queue order : List String) {degrees' : Dict String ℤ} {queue' : List String}
    → relax (σ.iterate (targets adjacency node)) degrees queue ≡ ok (degrees', queue')
    → drain σ (suc fuel) adjacency degrees (node ∷ queue) order
      ≡ drain σ fuel adjacency degrees' queue' (order ++ node ∷ [])
unfolding drain
drain_step σ fuel adjacency degrees node queue order e = rw (e, drain)

module _ (σ : SetOrder) {g : Dag} (w : IsWellFormed g) where
  open σ use {iterate, contains-iterate, Distinct-iterate}

  room :
      {degrees : Dict String ℤ} (queue order : List String)
      → IsDraining g degrees queue order
      → length order + length queue ≤ length (keys g.adjacency)
  room queue order inv =
      rw (← length-append order queue)
        (length-le_of_subset (order ++ queue) (keys g.adjacency) inv.distinct w.distinct inv.known)

  known_degree :
      (degrees : Dict String ℤ) (queue order : List String)
      → IsDraining g degrees queue order
      → (v : String) → has g.adjacency v ≡ true
      → (d : ℤ) × (get degrees v ≡ some d)
  known_degree degrees queue order inv v h = (pos (pending g.adjacency order v), inv.degree v h)

  -- With the invariant and enough fuel the loop ends, and keeps the invariant.
  pub drain_lem :
      (fuel : ℕ) (degrees : Dict String ℤ) (queue order : List String)
      → length (keys g.adjacency) ≤ length order + fuel
      → IsDraining g degrees queue order
      → (final : List String) × (drain σ fuel g.adjacency degrees queue order ≡ ok final)
        × (degrees' : Dict String ℤ) × IsDraining g degrees' [] final
  unfolding drain
  drain_lem fuel degrees [] order enough inv = (order, refl, degrees, inv)
  drain_lem zero degrees (node ∷ queue) order enough inv = absurd (omega (arith, room _ order inv))
  drain_lem (suc fuel) degrees (node ∷ queue) order enough inv =
      let neighbours = iterate (targets g.adjacency node) in
      let distinct : Distinct neighbours =
        Distinct-iterate (targets g.adjacency node) (w.distinct_targets node) in
      let (degrees', relaxed) = relax_lem neighbours degrees queue distinct (λ v m.
        known_degree degrees _ order inv v (w.known node v (rw (← contains-iterate _ v) m))) in
      let (final, ends, last, done) =
        drain_lem fuel degrees' _ (order ++ node ∷ [])
          (omega (arith, length-append order (node ∷ [])))
          (IsDraining-step w inv neighbours distinct (contains-iterate _) degrees' relaxed) in
      (
        final,
        drain_step σ fuel g.adjacency degrees node queue order relaxed.computed ∙ ends,
        last,
        done,
      )

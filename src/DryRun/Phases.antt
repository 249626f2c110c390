-- ===== src/DryRun/Phases.antt =====
-- The phases of `ExecutionEngine.dry_run`.
use fuzzy_octo_train.Prelude.{
  string_eq, ℕ, zero, suc, ◌+◌, ◌<◌, ◌≤◌, String, true, false, not, List, [], ◌∷◌, Dict, keys, has,
  ◌≡◌, ◌≢◌, refl, sym, ◌∙◌, subst, arith, Distinct, Subset, Bool-cases, inl, inr, ◌⊎◌, ◌↔◌,
  contains, union, length, ltb, ok, IsDescending, sort_descending, sort-IsDescending, contains-sort,
  Distinct-sort, Distinct-union, Distinct-filter, contains-filter, contains-union, all_complete,
  longer_witness, length-le_of_subset, subset_of_length, Bool-ext, ==_refl, ==_iff,
}
use fuzzy_octo_train.Models.{Task}
use fuzzy_octo_train.Dag.{Dag, get_ready_nodes}
use fuzzy_octo_train.Dag.Edges.{IsRank}
use fuzzy_octo_train.Dag.Invariant.{IsWellFormed}
use fuzzy_octo_train.Dag.Ready.{
  IsReady, get_ready_nodes_iff, get_ready_nodes-Distinct, get_ready_nodes-progress,
}
use fuzzy_octo_train.DryRun.{next_layer, priority_of, sort_layer, build_phases}

pub List-cases : {A : Type 0} (xs : List A) → (xs ≡ []) ⊎ ((y : A) × (ys : List A) × (xs ≡ y ∷ ys))
List-cases [] = inl refl
List-cases (x ∷ xs) = inr (x, xs, refl)

module _ {V : Type 0} (g : Dag) (task_map : Dict String (Task V)) where
  -- No phase is empty, and each holds exactly the nodes that are ready when the phases before it are completed, without
  -- repetition and by descending priority, and all nodes are completed in the end.
  abbrev pub IsPhased : List String → List (List String) → Type 0
  IsPhased completed [] = (n : String) → contains completed n ≡ has g.adjacency n
  IsPhased completed (layer ∷ rest) =
      ((n : String) → (contains layer n ≡ true) ↔ IsReady g completed n)
      × ((n : String) × (contains layer n ≡ true))
      × Distinct layer
      × IsDescending (priority_of task_map) layer
      × IsPhased (union completed layer) rest

  pub record IsMatching : Type 0 where
    pub well_formed : IsWellFormed g
    pub mapped : (n : String) → has task_map n ≡ has g.adjacency n
    pub sized : length task_map ≡ length (keys g.adjacency)

module _ {V : Type 0} {g : Dag} {task_map : Dict String (Task V)} (m : IsMatching g task_map) where
  contains-next_layer :
      (completed : List String) (n : String)
      → (contains (next_layer g completed) n ≡ true) ↔ IsReady g completed n
  contains-next_layer completed n = (
    λ h. (get_ready_nodes_iff m.well_formed completed n).0 (
        ground (
          arith,
          contains-filter (λ v. not (contains completed v)) (get_ready_nodes g completed) n,
        )),
    λ r. ground (
      arith,
      r.1,
      contains-filter (λ v. not (contains completed v)) (get_ready_nodes g completed) n,
      (get_ready_nodes_iff m.well_formed completed n).1 r,
    ),
  )

  sort_layer_lem :
      (completed : List String) (layer : List String)
      → next_layer g completed ≡ layer
      → sort_layer task_map layer ≡ ok (sort_descending (priority_of task_map) layer)
  unfolding sort_layer
  sort_layer_lem completed layer e = rw (
      all_complete (has task_map) layer (λ n h.
        m.mapped n
        ∙ ((contains-next_layer completed n).0 (subst (λ l. contains l n ≡ true) (sym e) h)).0))

  build_phases-step :
      (fuel : ℕ) (completed : List String) (n : String) (ns : List String)
      → ltb (length completed) (length task_map) ≡ true
      → next_layer g completed ≡ n ∷ ns
      → sort_layer task_map (n ∷ ns) ≡ ok (sort_descending (priority_of task_map) (n ∷ ns))
      → (rest : List (List String))
      → build_phases fuel g task_map
          (union completed (sort_descending (priority_of task_map) (n ∷ ns)))
        ≡ ok rest
      → build_phases (suc fuel) g task_map completed
        ≡ ok (sort_descending (priority_of task_map) (n ∷ ns) ∷ rest)
  unfolding build_phases
  build_phases-step fuel completed n ns lt e s rest r = rw (lt, e, s, r)

  build_phases-stop :
      (fuel : ℕ) (completed : List String)
      → ltb (length completed) (length task_map) ≡ false
      → build_phases fuel g task_map completed ≡ ok []
  unfolding build_phases
  build_phases-stop zero completed stop = rw stop
  build_phases-stop (suc fuel) completed stop = rw stop

  all_nodes :
      (completed : List String)
      → Distinct completed
      → Subset completed (keys g.adjacency)
      → ltb (length completed) (length task_map) ≡ false
      → IsPhased g task_map completed []
  all_nodes completed d s stop n = Bool-ext _ _ (s n) (
      subset_of_length completed (keys g.adjacency) d m.well_formed.distinct s
        (ground (arith, m.sized)) n)

  layer_iff :
      (completed layer : List String)
      → next_layer g completed ≡ layer
      → (n : String)
      → (contains (sort_descending (priority_of task_map) layer) n ≡ true) ↔ IsReady g completed n
  layer_iff completed layer e n =
      rw (contains-sort (priority_of task_map) layer n, sym e) (contains-next_layer completed n)

  Distinct-layer :
      (completed layer : List String)
      → next_layer g completed ≡ layer
      → Distinct (sort_descending (priority_of task_map) layer)
  Distinct-layer completed layer e = Distinct-sort (priority_of task_map) layer (
      subst Distinct e (
        Distinct-filter (λ v. not (contains completed v)) (get_ready_nodes g completed)
          (get_ready_nodes-Distinct m.well_formed completed)))

  layer_head :
      (n : String) (ns : List String)
      → contains (sort_descending (priority_of task_map) (n ∷ ns)) n ≡ true
  layer_head n ns = ground (arith, contains-sort (priority_of task_map) (n ∷ ns) n, ==_refl n)

  length-union_layer :
      (completed layer : List String) (n : String)
      → Distinct completed
      → contains layer n ≡ true
      → contains completed n ≡ false
      → suc (length completed) ≤ length (union completed layer)
  length-union_layer completed layer n d there new =
      length-le_of_subset (n ∷ completed) (union completed layer) (new, d)
        (Distinct-union completed layer d)
        (λ a h. ground (arith, contains-union completed layer a, ==_iff n a))

  not_empty :
      (completed : List String) (n : String)
      → contains (get_ready_nodes g completed) n ≡ true
      → next_layer g completed ≢ []
  not_empty completed n ready e =
      let there =
        (contains-next_layer completed n).1
          ((get_ready_nodes_iff m.well_formed completed n).0 ready) in
      ground arith

  module _ (rank : String → ℕ) (up : IsRank g.adjacency rank) where
    -- While nodes are missing, the next layer is not empty.
    next_layer-progress :
        (completed : List String)
        → Distinct completed
        → length completed < length task_map
        → (n : String) × (ns : List String) × (next_layer g completed ≡ n ∷ ns)
    next_layer-progress completed d lt =
        let (a, known, missing) =
          longer_witness completed (keys g.adjacency) d m.well_formed.distinct
            (omega (arith, m.sized)) in
        let (n, ready) = get_ready_nodes-progress m.well_formed completed rank a up known missing in
        elim (List-cases (next_layer g completed)) [
          | inl none' ↦ absurd (not_empty completed n ready none')
          | inr found ↦ found
        ]

    build_phases-rec :
        (fuel : ℕ) (completed : List String)
        → length task_map ≤ fuel + length completed
        → Distinct completed
        → Subset completed (keys g.adjacency)
        → (phases : List (List String)) × (build_phases fuel g task_map completed ≡ ok phases)
          × IsPhased g task_map completed phases
    build_phases-rec zero completed le d s = (
      [],
      build_phases-stop zero completed (ground arith),
      all_nodes completed d s (ground arith),
    )
    build_phases-rec (suc fuel) completed le d s =
        elim (Bool-cases (ltb (length completed) (length task_map))) [
          | inr stop ↦
              ([], build_phases-stop (suc fuel) completed stop, all_nodes completed d s stop)
          | inl more ↦
              let (n, ns, e) = next_layer-progress completed d (ground arith) in
              let layer : List String = sort_descending (priority_of task_map) (n ∷ ns) in
              let holds : (a : String) → (contains layer a ≡ true) ↔ IsReady g completed a =
                layer_iff completed (n ∷ ns) e in
              let (rest, computed, phased) =
                build_phases-rec fuel (union completed layer)
                  (omega (
                    arith,
                    length-union_layer completed layer n d (layer_head n ns)
                        ((holds n).0 (layer_head n ns)).1,
                  ))
                  (Distinct-union completed layer d)
                  (λ a h. elim (Bool-cases (contains completed a)) [
                    | inl old ↦ s a old
                    | inr new ↦ ((holds a).0 (ground (arith, contains-union completed layer a))).0
                  ]) in
              (
                layer ∷ rest,
                build_phases-step fuel completed n ns more e (sort_layer_lem completed (n ∷ ns) e)
                    rest computed,
                (
                  holds,
                  (n, layer_head n ns),
                  Distinct-layer completed (n ∷ ns) e,
                  sort-IsDescending (priority_of task_map) (n ∷ ns),
                  phased,
                ),
              )
        ]

    -- `dry_run`'s loop over the phases ends with the number of tasks as fuel.
    pub build_phases_lem :
        (phases : List (List String)) × (build_phases (length task_map) g task_map [] ≡ ok phases)
        × IsPhased g task_map [] phases
    build_phases_lem = build_phases-rec (length task_map) [] (omega arith) tt (λ a h. cc)

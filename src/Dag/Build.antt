-- ===== src/Dag/Build.antt =====
-- The graph that `Workflow.build_dag` makes of the `depends_on` lists of the tasks.
use fuzzy_octo_train.Prelude.{
  string_eq, ℕ, String, true, false, none, some, List, has, contains, ◌≡◌, refl, arith,
  Option-cases, inl, inr, ◌⊎◌, ok, err, ◌<◌, unknown_dependency, cycle_detected_error, SetOrder,
  ◌∙◌, sym, subst, ◌≢◌,
}
use fuzzy_octo_train.Models.{Task}
use fuzzy_octo_train.Dag.{Dag, empty, add_tasks, names, build_dag}
use fuzzy_octo_train.Dag.Edges.{edge}
use fuzzy_octo_train.Dag.Invariant.{IsWellFormed, IsWellFormed-empty}
use fuzzy_octo_train.Dag.Position.{position}
use fuzzy_octo_train.Dag.Topological.{topological_sort_lem}
use fuzzy_octo_train.Dag.Dependencies.{
  first_unknown, depends, add_tasks_unknown, add_tasks_lem, mentions-eq-names,
}

-- What `build_dag` returns: the nodes are the tasks, and the edges are their dependencies.
pub record IsBuilt {V : Type 0} (tasks : List (Task V)) (g : Dag) : Type 0 where
  pub well_formed : IsWellFormed g
  pub nodes : (a : String) → has g.adjacency a ≡ contains (names tasks) a
  pub edges : (u v : String) → edge g.adjacency u v ≡ depends tasks u v

-- A number for each name that grows along every dependency: there is one only if no task depends
-- on itself through others.
abbrev pub IsDependencyRank : {V : Type 0} → List (Task V) → (String → ℕ) → Type 0
IsDependencyRank tasks rank =
    (from to : String) → depends tasks from to ≡ true → rank from < rank to

module _ {V : Type 0} (σ : SetOrder) (tasks : List (Task V)) where
  -- `build_dag` raises ValueError for the first dependency, task by task, that names no task of the
  -- workflow, whether or not the other dependencies form a cycle.
  pub build_dag-unknown :
      {task dep : String}
      → first_unknown (names tasks) tasks ≡ some (task, dep)
      → build_dag σ tasks ≡ err (unknown_dependency task dep)
  unfolding build_dag
  build_dag-unknown {task} {dep} e = ground (
    arith,
    add_tasks_unknown (names tasks) tasks empty {task = task} {dep = dep} IsWellFormed-empty e,
  )

  built :
      first_unknown (names tasks) tasks ≡ none
      → (g : Dag) × (add_tasks (names tasks) tasks empty ≡ ok g) × IsBuilt tasks g
  built e =
      let (g, computed, shape) =
        add_tasks_lem (names tasks) tasks empty (λ _. false) (λ _ _. false)
          (record { well_formed = IsWellFormed-empty; nodes = λ a. refl; edges = λ u v. refl }) e in
      (
        g,
        computed,
        record {
          well_formed = shape.well_formed;
          nodes = λ a. shape.nodes a ∙ mentions-eq-names tasks a e;
          edges = shape.edges;
        },
      )

  -- When every dependency names a task, `build_dag` returns a graph whose nodes are the tasks' names
  -- and whose edges are the dependencies, and the dependencies have no cycle; or they have one, and it
  -- raises CycleDetectedError.
  pub build_dag_lem :
      first_unknown (names tasks) tasks ≡ none
      → ((g : Dag) × (build_dag σ tasks ≡ ok g)
          × IsBuilt tasks g
          × (rank : String → ℕ) × IsDependencyRank tasks rank)
        ⊎ ((build_dag σ tasks ≡ err cycle_detected_error)
            × ((rank : String → ℕ) → ¬ IsDependencyRank tasks rank))
  unfolding build_dag
  build_dag_lem e =
      let (g, computed, shape) = built e in
      elim (topological_sort_lem σ shape.well_formed) [
        | inl (order, sorted, top, up) ↦ inl (
          g,
          ground (arith, computed, sorted),
          shape,
          position order,
          λ u v d. up u v (shape.edges u v ∙ d),
        )
        | inr (failed, none') ↦ inr (
          ground (arith, computed, failed),
          λ rank up. none' rank (λ u v d. up u v (sym (shape.edges u v) ∙ d)),
        )
      ]

  ok-inj : {g h : Dag} → (ok g) ≡ (ok h) → g ≡ h
  ok-inj e = cc

  build_dag-not_ok :
      {g : Dag} {task dep : String}
      → build_dag σ tasks ≡ err (unknown_dependency task dep)
      → build_dag σ tasks ≢ ok g
  build_dag-not_ok bad good = cc

  -- What a graph that `build_dag` has returned says of the tasks.
  pub build_dag-ok :
      {g : Dag}
      → build_dag σ tasks ≡ ok g
      → IsBuilt tasks g × ((rank : String → ℕ) × IsDependencyRank tasks rank)
  build_dag-ok {g} e = elim (Option-cases (first_unknown (names tasks) tasks)) [
    | inl good ↦ elim (build_dag_lem good) [
      | inl (h, computed, shape, rank, up) ↦
          (subst (IsBuilt tasks) (ok-inj (sym computed ∙ e)) shape, (rank, up))
      | inr (failed, none') ↦ absurd (cc)
    ]
    | inr ((task, dep), bad) ↦ absurd (build_dag-not_ok (build_dag-unknown bad) e)
  ]

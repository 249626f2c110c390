-- ===== src/DryRun/Plans.antt =====
-- What `ExecutionEngine.dry_run` returns or raises.
use fuzzy_octo_train.Prelude.{
  string_eq, String, true, List, [], ◌∷◌, Dict, keys, has, ◌≡◌, ◌≢◌, ◌≤◌, put, ==_refl, refl, ◌∙◌,
  sym, arith, Distinct, Option-cases, inl, inr, ◌⊎◌, contains, length, SetOrder, ok, err,
  value_error, Error, unknown_dependency, cycle_detected_error, length-le_of_subset,
  Distinct-keys-put,
}
use fuzzy_octo_train.Models.{Task, Workflow}
use fuzzy_octo_train.Dag.{Dag, names, build_dag, add_tasks, topological_sort, drain}
use fuzzy_octo_train.Dag.Edges.{IsRank}
use fuzzy_octo_train.Dag.Invariant.{IsWellFormed}
use fuzzy_octo_train.Dag.Dependencies.{first_unknown}
use fuzzy_octo_train.Dag.Build.{IsBuilt, build_dag_lem, build_dag-ok, build_dag-unknown}
use fuzzy_octo_train.Engine.Runs.{task_map_from}
use fuzzy_octo_train.Engine.Start.{has-task_map_from}
use fuzzy_octo_train.DryRun.{ExecutionPlan, dry_run, build_phases, critical_path_of, end_node}
use fuzzy_octo_train.DryRun.Phases.{List-cases, IsMatching, IsPhased, build_phases_lem}
use fuzzy_octo_train.DryRun.Critical.{IsChain, head-known, critical_path_lem}
use fuzzy_octo_train.DryRun.Depth.{length-chain_le, IsChain-of_phases}

-- A longest chain takes one node of each phase.
phases_lem :
    {V : Type 0} {g : Dag} (w : IsWellFormed g) (task_map : Dict String (Task V))
    (phases : List (List String)) (path : List String) (n : String)
    → has g.adjacency n ≡ true
    → IsPhased g task_map [] phases
    → IsChain g.adjacency path
    → ((m : String) (rest : List String)
        → IsChain g.adjacency (m ∷ rest)
        → length (m ∷ rest) ≤ length path)
    → length phases ≡ length path
phases_lem w task_map [] path n known phased chain longest = absurd (ground (arith, phased n))
phases_lem w task_map (layer ∷ phases) [] n known phased chain longest =
    absurd (omega (arith, longest n [] known))
phases_lem w task_map (layer ∷ phases) (p ∷ path) n known phased chain longest =
    let (m, rest, there, other, size) = IsChain-of_phases w task_map layer phases [] phased in
    omega (
      arith,
      size,
      longest m rest other,
      length-chain_le w task_map (layer ∷ phases) [] p path phased (λ a b e h. cc) refl
          (head-known _ p path chain) chain,
    )

module _ {V : Type 0} where
  Distinct-task_map_from :
      (tasks : List (Task V)) (d : Dict String (Task V))
      → Distinct (keys d)
      → Distinct (keys (task_map_from tasks d))
  Distinct-task_map_from [] d h = h
  Distinct-task_map_from (task ∷ tasks) d h =
      Distinct-task_map_from tasks (put d task.name task) (Distinct-keys-put d task.name task h)

  length-keys : (d : Dict String (Task V)) → length (keys d) ≡ length d
  length-keys [] = refl
  length-keys (entry ∷ d) = omega (arith, length-keys d)

  -- The tasks of a workflow match its graph.
  IsMatching-built :
      (tasks : List (Task V)) {g : Dag} → IsBuilt tasks g → IsMatching g (task_map_from tasks [])
  IsMatching-built tasks {g} built =
      let task_map = task_map_from tasks [] in
      let mapped : (n : String) → has task_map n ≡ has g.adjacency n =
        λ n. has-task_map_from tasks [] n ∙ sym (built.nodes n) in
      let once : Distinct (keys task_map) = Distinct-task_map_from tasks [] tt in
      record {
        well_formed = built.well_formed;
        mapped = mapped;
        sized = omega (
          arith,
          length-keys task_map,
          length-le_of_subset (keys task_map) (keys g.adjacency) once built.well_formed.distinct
              (λ n h. sym (mapped n) ∙ h),
          length-le_of_subset (keys g.adjacency) (keys task_map) built.well_formed.distinct once
              (λ n h. mapped n ∙ h),
        );
      }

  first_node :
      (tasks : List (Task V)) → tasks ≢ [] → (n : String) × (contains (names tasks) n ≡ true)
  first_node [] h = absurd (h refl)
  first_node (task ∷ tasks) h = (task.name, ground (arith, ==_refl task.name))

  -- What a plan says of the graph it was made for.
  pub record IsPlan (g : Dag) (tasks : List (Task V)) (plan : ExecutionPlan) : Type 0 where
    pub phased : IsPhased g (task_map_from tasks []) [] plan.phases
    pub chain : IsChain g.adjacency plan.critical_path
    pub longest :
        (n : String) (rest : List String)
        → IsChain g.adjacency (n ∷ rest)
        → length (n ∷ rest) ≤ plan.critical_path_length
    pub measured : plan.critical_path_length ≡ length plan.critical_path
    -- there is a chain with one node of each phase, and no longer one
    pub levelled : length plan.phases ≡ plan.critical_path_length
    pub counted : plan.total_tasks ≡ length (keys g.adjacency)

not_nil : {A : Type 0} {xs : List A} {y : A} {ys : List A} → xs ≡ y ∷ ys → xs ≢ []
not_nil e f = cc

module _ {V : Type 0} (σ : SetOrder) (workflow : Workflow V) where
  dry_run-empty :
      workflow.tasks ≡ []
      → dry_run σ workflow ≡ err (value_error "max() iterable argument is empty")
  unfolding dry_run build_dag add_tasks topological_sort drain critical_path_of build_phases
      end_node
  dry_run-empty e = rw e refl

  dry_run-refused :
      {exception : Error}
      → build_dag σ workflow.tasks ≡ err exception
      → dry_run σ workflow ≡ err exception
  unfolding dry_run
  dry_run-refused e = rw e refl

  -- When `build_dag` accepts the tasks of a workflow and there is a task, `dry_run` returns a plan. No
  -- phase of it is empty, and each holds, once and by descending priority, exactly the nodes that are
  -- ready when the phases before are completed; in the end all nodes are. Its critical path is a chain
  -- of edges of the length that it tells, no chain is longer, there are as many phases as nodes on it,
  -- and the total is the number of nodes.
  pub dry_run-IsPlan :
      {g : Dag}
      → build_dag σ workflow.tasks ≡ ok g
      → workflow.tasks ≢ []
      → (plan : ExecutionPlan) × (dry_run σ workflow ≡ ok plan) × IsPlan g workflow.tasks plan
  unfolding dry_run
  dry_run-IsPlan {g} e some' =
      let (built, (rank, up)) = build_dag-ok σ workflow.tasks e in
      let up_edges : IsRank g.adjacency rank = λ p n out. up p n (sym (built.edges p n) ∙ out) in
      let (phases, computed, phased) =
        build_phases_lem (IsMatching-built workflow.tasks built) rank up_edges in
      let (n, known) = first_node workflow.tasks some' in
      let (path, walked, chain, longest) =
        critical_path_lem σ built.well_formed rank up_edges n (built.nodes n ∙ known) in
      (
        record {
          phases = phases;
          total_tasks = length (task_map_from workflow.tasks []);
          critical_path = path;
          critical_path_length = length path;
        },
        rw (e, computed, walked) refl,
        record {
          phased = phased;
          chain = chain;
          longest = longest;
          measured = refl;
          levelled =
              phases_lem built.well_formed (task_map_from workflow.tasks []) phases path n
                (built.nodes n ∙ known) phased chain longest;
          counted = (IsMatching-built workflow.tasks built).sized;
        },
      )

  -- `dry_run` ends, whatever the workflow: without tasks it raises ValueError; when `build_dag` accepts
  -- the tasks it returns a plan; and otherwise it raises what `build_dag` raises, the ValueError about an
  -- unknown dependency or CycleDetectedError.
  pub dry_run_outcomes :
      ((workflow.tasks ≡ [])
        × ((message : String) × (dry_run σ workflow ≡ err (value_error message))))
      ⊎ (((g : Dag) × (build_dag σ workflow.tasks ≡ ok g)
            × ((plan : ExecutionPlan) × (dry_run σ workflow ≡ ok plan)))
          ⊎ ((exception : Error) × (build_dag σ workflow.tasks ≡ err exception)
              × (dry_run σ workflow ≡ err exception)
              × ((exception ≡ cycle_detected_error)
                  ⊎ ((task : String) × (dep : String) × (exception
                        ≡ unknown_dependency task dep)))))
  dry_run_outcomes = elim (List-cases workflow.tasks) [
    | inl none' ↦ inl (none', ("max() iterable argument is empty", dry_run-empty none'))
    | inr (task, tasks, e) ↦
        inr (elim (Option-cases (first_unknown (names workflow.tasks) workflow.tasks)) [
          | inr ((name, dep), bad) ↦
              let refused = build_dag-unknown σ workflow.tasks bad in
              inr (
                unknown_dependency name dep,
                refused,
                dry_run-refused refused,
                inr (name, dep, refl),
              )
          | inl good ↦ elim (build_dag_lem σ workflow.tasks good) [
            | inl (g, accepted, built, rank, up) ↦
                let (plan, computed, is_plan) = dry_run-IsPlan accepted (not_nil e) in
                inl (g, accepted, (plan, computed))
            | inr (refused, none') ↦
                inr (cycle_detected_error, refused, dry_run-refused refused, inl refl)
          ]
        ])
  ]

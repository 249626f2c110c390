-- ===== src/Engine/Completion.antt =====
-- What an execution has done when its `_run_loop` ends.
use fuzzy_octo_train.Prelude.{
  string_eq, ℕ, ℤ, String, true, false, Option, List, [], ◌∷◌, Dict, has, contains, ◌≡◌, ◌≢◌, refl,
  arith, ◌∙◌, sym, SetOrder, ok, inl, inr, Bool-cases, length, nat_beq, ltb, ==_refl,
  contains-union,
}
use fuzzy_octo_train.Models.{Task, Workflow, WorkflowStatus}
use fuzzy_octo_train.Dag.{Dag, build_dag, names, get_ready_nodes}
use fuzzy_octo_train.Dag.Edges.{IsRank}
use fuzzy_octo_train.Dag.Invariant.{IsWellFormed}
use fuzzy_octo_train.Dag.Ready.{get_ready_nodes_iff, get_ready_nodes-progress}
use fuzzy_octo_train.Dag.Build.{build_dag-ok}
use fuzzy_octo_train.Scheduler.{done, get_ready_tasks, is_complete, has_failures}
use fuzzy_octo_train.Scheduler.Ready.{is_listed, get_ready_tasks_iff}
use fuzzy_octo_train.Checkpoint.{CheckpointStore}
use fuzzy_octo_train.Engine.{Engine}
use fuzzy_octo_train.Engine.Steps.{Move, run_moves, spawn, dispatch, stops, is_empty}
use fuzzy_octo_train.Engine.Runs.{start, conclude}
use fuzzy_octo_train.Engine.Invariant.{IsConsistent}
use fuzzy_octo_train.Engine.Dispatch.{futures-spawn, running-spawn}
use fuzzy_octo_train.Engine.Start.{all_pending, run-IsConsistent}

is_empty-has : {A : Type 0} (d : Dict String A) (n : String) → is_empty d ≡ true → has d n ≡ false
is_empty-has [] n e = refl
is_empty-has (entry ∷ d) n e = cc

length-zero : (xs : List String) (n : String) → nat_beq (length xs) 0 ≡ true → contains xs n ≡ false
length-zero [] n e = refl
length-zero (x ∷ xs) n e = absurd (ground arith)

not_positive : (xs : List String) (n : String) → ltb 0 (length xs) ≡ false → contains xs n ≡ false
not_positive [] n e = refl
not_positive (x ∷ xs) n e = absurd (ground arith)

module _ {V : Type 0} where
  -- Nothing runs, and nothing is ready.
  record IsAtRest (dag : Dag) (s : Engine V) : Type 0 where
    idle_tasks : (n : String) → contains s.scheduler.running n ≡ false
    none_ready : (n : String) → is_listed (get_ready_tasks s.scheduler dag s.task_map) n ≡ false

  stops-IsAtRest : (dag : Dag) (s : Engine V) → stops dag s ≡ true → IsAtRest dag s
  unfolding stops dispatch is_complete
  stops-IsAtRest dag s h =
      let ready = get_ready_tasks s.scheduler dag s.task_map in
      record {
        idle_tasks = λ n.
            ground
              (arith, running-spawn s ready n, length-zero (spawn s ready).scheduler.running n);
        none_ready = λ n.
            ground (arith, futures-spawn s ready n, is_empty-has (spawn s ready).pending_futures n);
      }

  pub nothing_listed :
      (s : Engine V) (ready : List (Task V))
      → ((n : String) → is_listed ready n ≡ false)
      → spawn s ready ≡ s
  unfolding spawn
  nothing_listed s [] h = refl
  nothing_listed s (task ∷ rest) h = absurd (ground (arith, h task.name, ==_refl task.name))

  rest-dispatch : (dag : Dag) (s : Engine V) → IsAtRest dag s → dispatch dag s ≡ s
  unfolding dispatch
  rest-dispatch dag s r = nothing_listed s (get_ready_tasks s.scheduler dag s.task_map) r.none_ready

  no_failure :
      (s : Engine V) (n : String)
      → has_failures s.scheduler ≡ false
      → contains s.scheduler.failed n ≡ false
  unfolding has_failures
  no_failure s n h = not_positive s.scheduler.failed n h

  -- A node that is ready would be dispatched.
  rest-ready :
      {dag : Dag} (s : Engine V) (n : String)
      → IsWellFormed dag
      → IsConsistent dag s
      → IsAtRest dag s
      → has_failures s.scheduler ≡ false
      → contains (get_ready_nodes dag (done s.scheduler)) n ≢ true
  rest-ready {dag} s n w c r f m =
      let (node, fresh, sources) = (get_ready_nodes_iff w (done s.scheduler) n).0 m in
      let listed = (get_ready_tasks_iff s.scheduler s.task_map c.named w n).1 (
        (node, fresh, sources),
        ground (
          arith,
          r.idle_tasks n,
          no_failure s n f,
          c.tracked n,
          c.mapped n,
          contains-union s.scheduler.completed s.scheduler.skipped n,
        ),
      ) in
      absurd (ground (arith, r.none_ready n))

  rest-done :
      {dag : Dag} (s : Engine V) (rank : String → ℕ) (n : String)
      → IsWellFormed dag
      → IsRank dag.adjacency rank
      → IsConsistent dag s
      → IsAtRest dag s
      → has_failures s.scheduler ≡ false
      → has dag.adjacency n ≡ true
      → contains (done s.scheduler) n ≡ true
  rest-done s rank n w up c r f known = elim (Bool-cases (contains (done s.scheduler) n)) [
    | inl over ↦ over
    | inr open' ↦
        let (ready, m) = get_ready_nodes-progress w (done s.scheduler) rank n up known open' in
        absurd (rest-ready s ready w c r f m)
  ]

  success-has_failures :
      (s : Engine V) (now : ℕ)
      → (conclude s now).status ≡ WorkflowStatus.success
      → has_failures s.scheduler ≡ false
  unfolding conclude
  success-has_failures s now e = elim (Bool-cases (has_failures s.scheduler)) [
    | inl bad ↦ absurd (ground (arith, bad))
    | inr good ↦ good
  ]

module _ {V : Type 0} (σ : SetOrder) (default_retries : ℤ) (store : Option (CheckpointStore V))
    (workflow : Workflow V) (now : ℕ) {dag : Dag} (built : build_dag σ workflow.tasks ≡ ok dag)
    (fresh : all_pending workflow.tasks ≡ true) (moves : List Move) where
  abbrev reached : Engine V
  reached = run_moves dag (start default_retries store workflow now) moves

  -- When the loop of an execution of a workflow whose tasks are all pending ends, its last iteration has
  -- dispatched nothing, and if the workflow is then reported as a success, every one of its tasks is
  -- completed or skipped.
  pub execute-success :
      (task : String) (finished : ℕ)
      → stops dag reached ≡ true
      → (conclude reached finished).status ≡ WorkflowStatus.success
      → contains (names workflow.tasks) task ≡ true
      → (dispatch dag reached ≡ reached) × (contains (done reached.scheduler) task ≡ true)
  execute-success task finished h e m =
      let (shape, (rank, up)) = build_dag-ok σ workflow.tasks built in
      let rest = stops-IsAtRest dag reached h in
      let c = run-IsConsistent default_retries store workflow now moves shape fresh in
      (
        rest-dispatch dag reached rest,
        rest-done reached rank task shape.well_formed (λ u v d. up u v (sym (shape.edges u v) ∙ d))
            c rest (success-has_failures reached finished e) (shape.nodes task ∙ m),
      )

-- ===== src/Engine/Arguments.antt =====
-- The arguments that the function of a task is called with.
use fuzzy_octo_train.Prelude.{
  string_eq, ℕ, ℤ, String, true, false, ◌==◌, if◌then◌else◌, Option, none, some, List, [], ◌∷◌,
  Dict, keys, get, Distinct, ◌≡◌, refl, ap, arith, ◌∙◌, SetOrder, ok, inl, inr, Bool-cases, ==_iff,
  ==_refl, get-put, has-get, get-has, get-none,
}
use fuzzy_octo_train.Models.{Task, TaskResult, Workflow}
use fuzzy_octo_train.Dag.{Dag, build_dag}
use fuzzy_octo_train.Dag.Dependencies.{depends}
use fuzzy_octo_train.Checkpoint.{CheckpointStore}
use fuzzy_octo_train.Engine.{Engine, hooking, invoking, build_kwargs, bind_argument}
use fuzzy_octo_train.Engine.Steps.{
  Move, before_hooks, step, run_moves, at_task, step_hooks, hooks_done,
}
use fuzzy_octo_train.Engine.Runs.{start}
use fuzzy_octo_train.Engine.Start.{all_pending}
use fuzzy_octo_train.Engine.Results.{run_moves-HasResults, start-HasResults}
use fuzzy_octo_train.Engine.Invariant.{IsConsistent}
use fuzzy_octo_train.Engine.Safety.{execute-dependencies, reached-IsConsistent}

module _ {V : Type 0} where
  -- A parameter's argument: the output of the result of the task it is mapped to, if there is one.
  abbrev pub argument :
      Dict String (TaskResult V) → Option String → Option (Option V) → Option (Option V)
  argument results none before = before
  argument results (some upstream) before = elim (get results upstream) [
    | none ↦ before
    | some result ↦ some result.output
  ]

  get-bind_argument :
      (found : Option (TaskResult V)) (q p : String) (kwargs : Dict String (Option V))
      → get (bind_argument found q kwargs) p ≡ (
          if q == p
          then elim found [ none ↦ get kwargs p | some result ↦ some result.output ]
          else get kwargs p)
  unfolding bind_argument
  get-bind_argument none q p kwargs = ground arith
  get-bind_argument (some result) q p kwargs = get-put kwargs q p result.output

  get-build_kwargs :
      (results : Dict String (TaskResult V)) (input_map : Dict String String)
      (kwargs : Dict String (Option V)) (p : String)
      → Distinct (keys input_map)
      → get (build_kwargs results input_map kwargs) p
        ≡ argument results (get input_map p) (get kwargs p)
  unfolding build_kwargs
  get-build_kwargs results [] kwargs p d = refl
  get-build_kwargs results ((q, upstream) ∷ rest) kwargs p d =
      get-build_kwargs results rest (bind_argument (get results upstream) q kwargs) p d.1
      ∙ (elim (Bool-cases (q == p)) [
        | inl here ↦
            rw
              (
                get-none rest p (ground (arith, ==_iff q p, d.0)),
                get-bind_argument (get results upstream) q p kwargs,
                here,
              )
              refl
        | inr other ↦ rw (get-bind_argument (get results upstream) q p kwargs, other) refl
      ])

  argument-kept :
      (results : Dict String (TaskResult V)) (upstream : String) (before : Option (Option V))
      (result : TaskResult V)
      → get results upstream ≡ some result
      → argument results (some upstream) before ≡ some result.output
  argument-kept results upstream before result e = rw (argument, e) refl

  hooks_pass :
      (dag : Dag) (s : Engine V) (name : String) (started : ℕ) (task : Task V)
      → get s.pending_futures name ≡ some (hooking started)
      → get s.task_map name ≡ some task
      → task.name ≡ name
      → get (step dag s (before_hooks name false)).pending_futures name
        ≡ some (invoking started (build_kwargs s.results task.input_map []))
  unfolding step step_hooks hooks_done
  hooks_pass dag s name started task f t own =
      rw (at_task, f, t)
        (get-put s.pending_futures task.name name
            (invoking started (build_kwargs s.results task.input_map []))
          ∙ rw (own, ==_refl name) refl)

module _ {V : Type 0} (σ : SetOrder) (default_retries : ℤ) (store : Option (CheckpointStore V))
    (workflow : Workflow V) (now : ℕ) {dag : Dag} (built : build_dag σ workflow.tasks ≡ ok dag)
    (fresh : all_pending workflow.tasks ≡ true) (moves : List Move) where
  -- The execution after the moves.
  abbrev reached : Engine V
  reached = run_moves dag (start default_retries store workflow now) moves

  -- In an execution of a workflow whose tasks are all pending, however its futures interleave, when the
  -- `before_task` hooks of a task have run without raising, its function is called with every parameter
  -- that the task maps to one of its dependencies: the argument is the output of the result that is
  -- kept of this dependency, and there is one.
  pub execute-arguments :
      (name : String) (started : ℕ) (task : Task V) (param upstream : String)
      → get reached.pending_futures name ≡ some (hooking started)
      → get reached.task_map name ≡ some task
      → Distinct (keys task.input_map)
      → get task.input_map param ≡ some upstream
      → depends workflow.tasks upstream name ≡ true
      → (kwargs : Dict String (Option V)) × (result : TaskResult V) × (get
            (step dag reached (before_hooks name false)).pending_futures
            name
          ≡ some (invoking started kwargs))
        × (get reached.results upstream ≡ some result)
        × (get kwargs param ≡ some result.output)
  execute-arguments name started task param upstream f t distinct mapped d =
      let c : IsConsistent dag reached =
        reached-IsConsistent σ default_retries store workflow now built fresh moves in
      let over =
        execute-dependencies σ default_retries store workflow now built fresh moves name upstream d
          (c.dispatched name (get-has reached.pending_futures name (hooking started) f)) in
      let (result, kept) = has-get reached.results upstream (
        run_moves-HasResults dag (start default_retries store workflow now) moves
          (start-HasResults default_retries store workflow now) upstream over) in
      (
        build_kwargs reached.results task.input_map [],
        result,
        hooks_pass dag reached name started task f t (c.named name task t),
        kept,
        get-build_kwargs reached.results task.input_map [] param distinct
            ∙ ap (λ m. argument reached.results m none) mapped
            ∙ argument-kept reached.results upstream none result kept,
      )

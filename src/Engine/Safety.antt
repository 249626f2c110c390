-- ===== src/Engine/Safety.antt =====
-- The order of the tasks in an execution, and a loop that does not end.
use fuzzy_octo_train.Prelude.{
  string_eq, ℕ, ℤ, String, true, false, Option, some, List, [], ◌∷◌, get, has, contains, ◌≡◌, refl,
  arith, ◌∙◌, sym, subst, SetOrder, ok, inl, inr, length, nat_beq, has-pop, has-get, ==_refl,
}
use fuzzy_octo_train.Models.{Task, Workflow}
use fuzzy_octo_train.Dag.{Dag, build_dag}
use fuzzy_octo_train.Dag.Invariant.{IsWellFormed}
use fuzzy_octo_train.Dag.Build.{build_dag-ok}
use fuzzy_octo_train.Dag.Dependencies.{depends}
use fuzzy_octo_train.Scheduler.{done, get_ready_tasks, is_complete}
use fuzzy_octo_train.Scheduler.Ready.{is_listed}
use fuzzy_octo_train.Checkpoint.{CheckpointStore}
use fuzzy_octo_train.Engine.{Engine, hooking, end_future}
use fuzzy_octo_train.Engine.Steps.{
  Move, before_hooks, step, run_moves, dispatch, stops, at_task, step_hooks, hooks_done,
}
use fuzzy_octo_train.Engine.Runs.{start}
use fuzzy_octo_train.Engine.Invariant.{touched, IsConsistent}
use fuzzy_octo_train.Engine.Dispatch.{futures-spawn, running-spawn, ready-touched, dispatch-touched}
use fuzzy_octo_train.Engine.Moves.{step-cases, step-IsConsistent}
use fuzzy_octo_train.Engine.Start.{all_pending, run-IsConsistent, start-IsConsistent}
use fuzzy_octo_train.Engine.Active.{IsActive}
use fuzzy_octo_train.Engine.Running.{run_moves-IsActive}

some_running :
    (xs : List String) (n : String) → contains xs n ≡ true → nat_beq (length xs) 0 ≡ false
some_running [] n m = cc
some_running (x ∷ xs) n m = ground arith

module _ {V : Type 0} {dag : Dag} (w : IsWellFormed dag) where
  step-touched :
      (s : Engine V) (move : Move) (n : String)
      → IsConsistent dag s
      → touched s.scheduler n ≡ true
      → touched (step dag s move).scheduler n ≡ true
  step-touched s move n c t = elim (step-cases s move c) [
    | inl a ↦ a.touches n ∙ t
    | inr e ↦ subst (λ s'. touched s'.scheduler n ≡ true) (sym e) (dispatch-touched dag s n t)
  ]

  never_ready_again :
      (s : Engine V) (moves : List Move) (n : String)
      → IsConsistent dag s
      → touched s.scheduler n ≡ true
      → let s' = run_moves dag s moves in
        is_listed (get_ready_tasks s'.scheduler dag s'.task_map) n ≡ false
  unfolding run_moves
  never_ready_again s [] n c t = ready-touched s n w c t
  never_ready_again s (move ∷ moves) n c t =
      never_ready_again (step dag s move) moves n (step-IsConsistent s move w c)
        (step-touched s move n c t)

  -- Among the running tasks, but its future is gone.
  record IsLost (s : Engine V) (n : String) : Type 0 where
    running : contains s.scheduler.running n ≡ true
    gone : has s.pending_futures n ≡ false

  dispatch-IsLost :
      (s : Engine V) (n : String) → IsConsistent dag s → IsLost s n → IsLost (dispatch dag s) n
  unfolding dispatch
  dispatch-IsLost s n c l =
      let ready = get_ready_tasks s.scheduler dag s.task_map in
      let old = ready-touched s n w c (ground (arith, l.running)) in
      record {
        running = ground (arith, running-spawn s ready n, l.running);
        gone = ground (arith, futures-spawn s ready n, l.gone);
      }

  step-IsLost :
      (s : Engine V) (move : Move) (n : String)
      → IsConsistent dag s
      → IsLost s n
      → IsLost (step dag s move) n
  step-IsLost s move n c l = elim (step-cases s move c) [
    | inl a ↦ record {
      running = a.runs n l.gone ∙ l.running;
      gone = ground (arith, a.futures n, l.gone);
    }
    | inr e ↦ subst (λ s'. IsLost s' n) (sym e) (dispatch-IsLost s n c l)
  ]

  IsLost-stops : (s : Engine V) (n : String) → IsConsistent dag s → IsLost s n → stops dag s ≡ false
  unfolding stops is_complete
  IsLost-stops s n c l =
      ground
        (arith, some_running (dispatch dag s).scheduler.running n (dispatch-IsLost s n c l).running)

  hangs :
      (s : Engine V) (moves : List Move) (n : String)
      → IsConsistent dag s
      → IsLost s n
      → stops dag (run_moves dag s moves) ≡ false
  unfolding run_moves
  hangs s [] n c l = IsLost-stops s n c l
  hangs s (move ∷ moves) n c l =
      hangs (step dag s move) moves n (step-IsConsistent s move w c) (step-IsLost s move n c l)

  hooks_raise :
      (s : Engine V) (n : String) {started : ℕ} (task : Task V)
      → get s.pending_futures n ≡ some (hooking started)
      → get s.task_map n ≡ some task
      → step dag s (before_hooks n true) ≡ end_future s task
  unfolding step step_hooks hooks_done
  hooks_raise s n task f t = rw (at_task, f, t) refl

  hooks_raise-IsLost :
      (s : Engine V) (n : String) {started : ℕ}
      → IsConsistent dag s
      → get s.pending_futures n ≡ some (hooking started)
      → contains s.scheduler.running n ≡ true
      → IsLost (step dag s (before_hooks n true)) n
  hooks_raise-IsLost s n {started} c f r =
      let (task, t) = has-get s.task_map n (c.known n (ground arith)) in
      let e = c.named n task t in
      subst (λ s'. IsLost s' n) (sym (hooks_raise s n {started = started} task f t))
        (record {
          running = r;
          gone = ground (arith, has-pop s.pending_futures task.name n, ==_refl n, e);
        })

start-IsActive :
    {V : Type 0} (default_retries : ℤ) (store : Option (CheckpointStore V)) (workflow : Workflow V)
    (now : ℕ)
    → IsActive (start default_retries store workflow now)
unfolding start
start-IsActive default_retries store workflow now n e = cc

module _ {V : Type 0} (σ : SetOrder) (default_retries : ℤ) (store : Option (CheckpointStore V))
    (workflow : Workflow V) (now : ℕ) {dag : Dag} (built : build_dag σ workflow.tasks ≡ ok dag)
    (fresh : all_pending workflow.tasks ≡ true) (moves : List Move) where
  -- The execution after the moves.
  abbrev reached : Engine V
  reached = run_moves dag (start default_retries store workflow now) moves

  pub reached-IsConsistent : IsConsistent dag reached
  reached-IsConsistent =
      let (shape, rank) = build_dag-ok σ workflow.tasks built in
      run-IsConsistent default_retries store workflow now moves shape fresh

  -- In an execution of a workflow whose tasks are all pending, however its futures interleave, a task
  -- that has been dispatched has all its dependencies among the completed and the skipped tasks.
  pub execute-dependencies :
      (task dep : String)
      → depends workflow.tasks dep task ≡ true
      → touched reached.scheduler task ≡ true
      → contains (done reached.scheduler) dep ≡ true
  execute-dependencies task dep d t =
      let (shape, rank) = build_dag-ok σ workflow.tasks built in
      reached-IsConsistent.satisfied task dep t (shape.edges dep task ∙ d)

  -- In an execution of a workflow whose tasks are all pending, once a task has been dispatched no later
  -- iteration of the loop, after whatever further moves, dispatches it again.
  pub execute-once :
      (more : List Move) (task : String)
      → touched reached.scheduler task ≡ true
      → let s = run_moves dag reached more in
        is_listed (get_ready_tasks s.scheduler dag s.task_map) task ≡ false
  execute-once more task t =
      let (shape, rank) = build_dag-ok σ workflow.tasks built in
      never_ready_again shape.well_formed reached more task reached-IsConsistent t

  -- In an execution of a workflow whose tasks are all pending, if a `before_task` hook of a task raises,
  -- then `_run_loop` never ends, whatever happens afterwards.
  pub raising_hook_hangs :
      (task : String) {started : ℕ} (more : List Move)
      → get reached.pending_futures task ≡ some (hooking started)
      → stops dag (run_moves dag (step dag reached (before_hooks task true)) more) ≡ false
  raising_hook_hangs task {started} more f =
      let (shape, rank) = build_dag-ok σ workflow.tasks built in
      let w = shape.well_formed in
      let begun = start default_retries store workflow now in
      let running =
        run_moves-IsActive begun moves w
          (start-IsConsistent default_retries store workflow now shape fresh)
          (start-IsActive default_retries store workflow now) task (ground (arith, f)) in
      hangs w (step dag reached (before_hooks task true)) more task
        (step-IsConsistent reached (before_hooks task true) w reached-IsConsistent)
        (hooks_raise-IsLost w reached task {started = started} reached-IsConsistent f running)

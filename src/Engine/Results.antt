-- ===== src/Engine/Results.antt =====
-- The results that an execution keeps of the tasks that are done.
use fuzzy_octo_train.Prelude.{
  string_eq, ℕ, ℤ, String, Bool, true, false, ◌||◌, ◌==◌, Option, none, some, List, [], ◌∷◌, get,
  has, contains, ◌≡◌, arith, inl, inr, Option-cases, has-put, contains-add, contains-union,
}
use fuzzy_octo_train.Models.{Task, TaskResult, Workflow, Outcome, returned, raised}
use fuzzy_octo_train.Dag.{Dag}
use fuzzy_octo_train.Scheduler.{
  Scheduler, done, mark_completed, mark_failed, mark_skipped, mark_running, get_ready_tasks,
}
use fuzzy_octo_train.Checkpoint.{CheckpointStore}
use fuzzy_octo_train.Engine.{
  Engine, Phase, spawned, hooking, invoking, saving, skipping, closing, Attempt, settle_task,
  invoke, skipped_result, success_result, failed_result,
}
use fuzzy_octo_train.Engine.Steps.{
  Move, poll, enter, before_hooks, finish, save, close, step, run_moves, dispatch, spawn, spawn_one,
  at_task, step_enter, step_hooks, step_finish, step_save, step_close, enter_task, evaluate,
  hooks_done, invoked, saved, skip_saved, fail_task,
}
use fuzzy_octo_train.Engine.Runs.{start}

-- A skipping or a success is recorded with its result, a failure adds no task that is done.
skipped-done :
    (s : Scheduler) (name n : String)
    → contains (done (mark_skipped s name)) n ≡ true
    → (contains (done s) n || name == n) ≡ true
unfolding mark_skipped
skipped-done s name n d = ground (
  arith,
  contains-union s.completed s.skipped n,
  contains-union s.completed (mark_skipped s name).skipped n,
  contains-add s.skipped name n,
)

completed-done :
    (s : Scheduler) (name n : String)
    → contains (done (mark_completed s name)) n ≡ true
    → (contains (done s) n || name == n) ≡ true
unfolding mark_completed
completed-done s name n d = ground (
  arith,
  contains-union s.completed s.skipped n,
  contains-union (mark_completed s name).completed s.skipped n,
  contains-add s.completed name n,
)

failed-done :
    (s : Scheduler) (name n : String)
    → contains (done (mark_failed s name)) n ≡ true
    → (contains (done s) n || name == n) ≡ true
unfolding mark_failed
failed-done s name n d = ground arith

module _ {V : Type 0} where
  -- Every task that is completed or skipped has a result.
  abbrev pub HasResults : Engine V → Type 0
  HasResults s = (n : String) → contains (done s.scheduler) n ≡ true → has s.results n ≡ true

  HasResults-settle :
      (s : Engine V) (task : Task V) (result : TaskResult V) (scheduler : Scheduler)
      → ((n : String)
          → contains (done scheduler) n ≡ true
          → (contains (done s.scheduler) n || task.name == n) ≡ true)
      → HasResults s
      → HasResults (settle_task s task result scheduler)
  HasResults-settle s task result scheduler m h n d =
      ground (arith, has-put s.results task.name n result, m n d, h n)

  spawn-HasResults :
      (s : Engine V) (ready : List (Task V)) → HasResults s → HasResults (spawn s ready)
  unfolding spawn spawn_one mark_running
  spawn-HasResults s [] h = h
  spawn-HasResults s (task ∷ rest) h = spawn-HasResults (spawn_one s task) rest h

  module _ (s : Engine V) (task : Task V) (h : HasResults s) where
    fail_task-HasResults :
        (started : ℕ) (error : String) (now : ℕ) → HasResults (fail_task s task started error now)
    unfolding fail_task
    fail_task-HasResults started error now =
        HasResults-settle s task (failed_result task error started now)
          (mark_failed s.scheduler task.name) (failed-done s.scheduler task.name) h

    enter_task-HasResults :
        (answer : Option Bool) (now : ℕ) → HasResults (enter_task s task answer now)
    unfolding enter_task
    enter_task-HasResults none now = h
    enter_task-HasResults (some true) now = h
    enter_task-HasResults (some false) now =
        HasResults-settle s task (skipped_result task now now) (mark_skipped s.scheduler task.name)
          (skipped-done s.scheduler task.name) h

    invoked-HasResults :
        (started : ℕ) (outcome : Outcome V) (now : ℕ)
        → HasResults (invoked s task started outcome now)
    unfolding invoked
    invoked-HasResults started (raised error) now = fail_task-HasResults started error now
    invoked-HasResults started (returned output) now =
        HasResults-settle s task (success_result task output started now)
          (mark_completed s.scheduler task.name) (completed-done s.scheduler task.name) h

    step_enter-HasResults : (phase : Phase V) (now : ℕ) → HasResults (step_enter phase s task now)
    unfolding step_enter
    step_enter-HasResults spawned now = enter_task-HasResults (evaluate s task) now
    step_enter-HasResults _ now = h

    step_hooks-HasResults :
        (phase : Phase V) (raises : Bool) → HasResults (step_hooks phase s task raises)
    unfolding step_hooks hooks_done
    step_hooks-HasResults (hooking started) true = h
    step_hooks-HasResults (hooking started) false = h
    step_hooks-HasResults _ raises = h

    step_finish-HasResults :
        (phase : Phase V) (attempt : ℕ → Attempt) (factor : ℕ → ℕ) (now : ℕ)
        → HasResults (step_finish phase s task attempt factor now)
    unfolding step_finish
    step_finish-HasResults (invoking started kwargs) attempt factor now =
        invoked-HasResults started (invoke s task kwargs attempt factor) now
    step_finish-HasResults _ attempt factor now = h

    step_save-HasResults :
        (phase : Phase V) (error : Option String) (now : ℕ)
        → HasResults (step_save phase s task error now)
    unfolding step_save saved skip_saved
    step_save-HasResults (saving started result) (some error) now =
        fail_task-HasResults started error now
    step_save-HasResults (saving started result) none now = h
    step_save-HasResults (skipping result) (some error) now = h
    step_save-HasResults (skipping result) none now = h
    step_save-HasResults _ error now = h

    step_close-HasResults : (phase : Phase V) → HasResults (step_close phase s task)
    unfolding step_close
    step_close-HasResults closing = h
    step_close-HasResults _ = h

  at_task-HasResults :
      (s : Engine V) (name : String) (continue : Phase V → Task V → Engine V)
      → HasResults s
      → ((phase : Phase V) (task : Task V) → HasResults (continue phase task))
      → HasResults (at_task s name continue)
  at_task-HasResults s name continue h k = elim (Option-cases (get s.pending_futures name)) [
    | inl missing ↦ rw (at_task, missing) h
    | inr (phase, f) ↦ elim (Option-cases (get s.task_map name)) [
      | inl missing ↦ rw (at_task, f, missing) h
      | inr (task, t) ↦ rw (at_task, f, t) (k phase task)
    ]
  ]

  step-HasResults :
      (dag : Dag) (s : Engine V) (move : Move) → HasResults s → HasResults (step dag s move)
  unfolding step dispatch
  step-HasResults dag s poll h = spawn-HasResults s (get_ready_tasks s.scheduler dag s.task_map) h
  step-HasResults dag s (enter name now) h =
      at_task-HasResults s name (λ phase task. step_enter phase s task now) h
        (λ phase task. step_enter-HasResults s task h phase now)
  step-HasResults dag s (before_hooks name raises) h =
      at_task-HasResults s name (λ phase task. step_hooks phase s task raises) h
        (λ phase task. step_hooks-HasResults s task h phase raises)
  step-HasResults dag s (finish name attempt factor now) h =
      at_task-HasResults s name (λ phase task. step_finish phase s task attempt factor now) h
        (λ phase task. step_finish-HasResults s task h phase attempt factor now)
  step-HasResults dag s (save name error now) h =
      at_task-HasResults s name (λ phase task. step_save phase s task error now) h
        (λ phase task. step_save-HasResults s task h phase error now)
  step-HasResults dag s (close name) h =
      at_task-HasResults s name (λ phase task. step_close phase s task) h
        (λ phase task. step_close-HasResults s task h phase)

  pub run_moves-HasResults :
      (dag : Dag) (s : Engine V) (moves : List Move)
      → HasResults s
      → HasResults (run_moves dag s moves)
  unfolding run_moves
  run_moves-HasResults dag s [] h = h
  run_moves-HasResults dag s (move ∷ moves) h =
      run_moves-HasResults dag (step dag s move) moves (step-HasResults dag s move h)

  pub start-HasResults :
      (default_retries : ℤ) (store : Option (CheckpointStore V)) (workflow : Workflow V) (now : ℕ)
      → HasResults (start default_retries store workflow now)
  unfolding start
  start-HasResults default_retries store workflow now n d = cc

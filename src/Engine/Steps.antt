-- ===== src/Engine/Steps.antt =====
-- The moves of an execution: an iteration of `_run_loop`, and the stretches of `_execute_task`.
use fuzzy_octo_train.Prelude.{
  string_eq, ℕ, String, Bool, true, false, ◌&&◌, Option, none, some, List, [], ◌∷◌, get, put,
}
use fuzzy_octo_train.Models.{TaskStatus, TaskResult, duration, Outcome, returned, raised, Task}
use fuzzy_octo_train.Dag.{Dag}
use fuzzy_octo_train.Scheduler.{
  mark_completed, mark_failed, mark_running, mark_skipped, get_ready_tasks, is_complete,
}
use fuzzy_octo_train.Checkpoint.{CheckpointStore, save_task_result}
use fuzzy_octo_train.Events.{
  text, duration_ms, task_started, task_completed, task_failed, task_skipped,
}
use fuzzy_octo_train.Engine.{
  Phase, spawned, hooking, invoking, saving, skipping, closing, Engine, Attempt, invoke,
  build_kwargs, upstream_results, publish_event, settle_task, goto, end_future, skipped_result,
  success_result, failed_result,
}

abbrev pub is_empty {ℓ} : {A : Type ℓ} → List A → Bool
is_empty [] = true
is_empty (x ∷ xs) = false

module _ {V : Type 0} where
  unfoldable pub spawn_one : Engine V → Task V → Engine V
  spawn_one s task = record s {
    scheduler = mark_running s.scheduler task.name;
    task_map = put s.task_map task.name (record task { status = TaskStatus.running });
    pending_futures = put s.pending_futures task.name spawned;
  }

  -- The `for task in ready` loop of `_run_loop`.
  unfoldable pub spawn : Engine V → List (Task V) → Engine V
  unfolding spawn_one
  spawn s [] = s
  spawn s (task ∷ rest) = spawn (spawn_one s task) rest

  -- The part of an iteration of `_run_loop` before its test.
  unfoldable pub dispatch : Dag → Engine V → Engine V
  unfolding spawn
  dispatch dag s = spawn s (get_ready_tasks s.scheduler dag s.task_map)

  -- Whether an iteration of `_run_loop` breaks the loop.
  unfoldable pub stops : Dag → Engine V → Bool
  unfolding dispatch
  stops dag s = let s' = dispatch dag s in is_empty s'.pending_futures && is_complete s'.scheduler

  -- What the condition of a task answers; a task without one runs.
  unfoldable pub evaluate : Engine V → Task V → Option Bool
  evaluate s task = elim task.condition [
    | none ↦ some true
    | some condition ↦ condition (upstream_results s.results task.depends_on [])
  ]

  -- The start of `_execute_task`, up to the hooks or the checkpoint. An exception of the condition
  -- ends the future.
  unfoldable pub enter_task : Engine V → Task V → Option Bool → ℕ → Engine V
  enter_task s task none now = end_future s task
  enter_task s task (some false) now =
      let result = skipped_result task now now in
      goto
        (publish_event (settle_task s task result (mark_skipped s.scheduler task.name)) task_skipped
          (("task_name", text task.name) ∷ []) now)
        task (skipping result)
  enter_task s task (some true) now =
      goto
        (publish_event s task_started
          (("task_id", text task.id) ∷ ("task_name", text task.name) ∷ []) now)
        task (hooking now)

  -- The `before_task` hooks have run; an exception of one ends the future.
  unfoldable pub hooks_done : Engine V → Task V → ℕ → Bool → Engine V
  hooks_done s task started true = end_future s task
  hooks_done s task started false =
      goto s task (invoking started (build_kwargs s.results task.input_map []))

  -- The `except` block of `_execute_task`.
  unfoldable pub fail_task : Engine V → Task V → ℕ → String → ℕ → Engine V
  fail_task s task started error now =
      let result = failed_result task error started now in
      goto
        (publish_event (settle_task s task result (mark_failed s.scheduler task.name)) task_failed
          (("task_name", text task.name) ∷ ("error", text error) ∷ []) now)
        task closing

  -- `_invoke` has ended.
  unfoldable pub invoked : Engine V → Task V → ℕ → Outcome V → ℕ → Engine V
  unfolding fail_task
  invoked s task started (raised error) now = fail_task s task started error now
  invoked s task started (returned output) now =
      let result = success_result task output started now in
      goto
        (publish_event (settle_task s task result (mark_completed s.scheduler task.name))
          task_completed
          (("task_name", text task.name) ∷ ("duration_ms", duration_ms (duration result)) ∷ []) now)
        task (saving started result)

  unfoldable pub save_checkpoint :
      Option (CheckpointStore V) → String → String → TaskResult V → Option (CheckpointStore V)
  save_checkpoint none workflow_id name result = none
  save_checkpoint (some store) workflow_id name result =
      some (save_task_result store workflow_id name result)

  abbrev pub with_checkpoint : Engine V → Task V → TaskResult V → Engine V
  with_checkpoint s task result = record s {
    checkpoint_store = save_checkpoint s.checkpoint_store s.workflow_id task.name result;
  }

  -- The checkpoint of a success is saved, or saving it raises inside the `try` block.
  unfoldable pub saved : Engine V → Task V → ℕ → TaskResult V → Option String → ℕ → Engine V
  unfolding fail_task save_checkpoint
  saved s task started result (some error) now = fail_task s task started error now
  saved s task started result none now = goto (with_checkpoint s task result) task closing

  -- The checkpoint of a skipped task is saved, or saving it raises; either ends the future.
  unfoldable pub skip_saved : Engine V → Task V → TaskResult V → Option String → Engine V
  unfolding save_checkpoint
  skip_saved s task result (some error) = end_future s task
  skip_saved s task result none = end_future (with_checkpoint s task result) task

-- The environment decides what the user's code does: whether a hook raises, what the attempts of the
-- call come to, and whether the checkpoint store raises.
pub data Move : Type 0 where
  poll : Move
  enter : (name : String) (now : ℕ) → Move
  before_hooks : (name : String) (raises : Bool) → Move
  finish : (name : String) (attempt : ℕ → Attempt) (factor : ℕ → ℕ) (now : ℕ) → Move
  save : (name : String) (error : Option String) (now : ℕ) → Move
  close : (name : String) → Move

module _ {V : Type 0} where
  unfoldable pub step_enter : Phase V → Engine V → Task V → ℕ → Engine V
  unfolding enter_task evaluate
  step_enter spawned s task now = enter_task s task (evaluate s task) now
  step_enter _ s task now = s

  unfoldable pub step_hooks : Phase V → Engine V → Task V → Bool → Engine V
  unfolding hooks_done
  step_hooks (hooking started) s task raises = hooks_done s task started raises
  step_hooks _ s task raises = s

  unfoldable pub step_finish : Phase V → Engine V → Task V → (ℕ → Attempt) → (ℕ → ℕ) → ℕ → Engine V
  unfolding invoked invoke
  step_finish (invoking started kwargs) s task attempt factor now =
      invoked s task started (invoke s task kwargs attempt factor) now
  step_finish _ s task attempt factor now = s

  unfoldable pub step_save : Phase V → Engine V → Task V → Option String → ℕ → Engine V
  unfolding saved skip_saved
  step_save (saving started result) s task error now = saved s task started result error now
  step_save (skipping result) s task error now = skip_saved s task result error
  step_save _ s task error now = s

  unfoldable pub step_close : Phase V → Engine V → Task V → Engine V
  step_close closing s task = end_future s task
  step_close _ s task = s

  abbrev pub at_task : Engine V → String → (Phase V → Task V → Engine V) → Engine V
  at_task s name continue = elim (get s.pending_futures name) [
    | none ↦ s
    | some phase ↦ elim (get s.task_map name) [ none ↦ s | some task ↦ continue phase task ]
  ]

  unfoldable pub step : Dag → Engine V → Move → Engine V
  unfolding step_enter step_hooks step_finish step_save step_close
  step dag s poll = dispatch dag s
  step dag s (enter name now) = at_task s name (λ phase task. step_enter phase s task now)
  step dag s (before_hooks name raises) =
      at_task s name (λ phase task. step_hooks phase s task raises)
  step dag s (finish name attempt factor now) =
      at_task s name (λ phase task. step_finish phase s task attempt factor now)
  step dag s (save name error now) = at_task s name (λ phase task. step_save phase s task error now)
  step dag s (close name) = at_task s name (λ phase task. step_close phase s task)

  unfoldable pub run_moves : Dag → Engine V → List Move → Engine V
  run_moves dag s [] = s
  run_moves dag s (move ∷ moves) = run_moves dag (step dag s move) moves

-- ===== src/Engine.antt =====
-- The execution of src/flowmesh/core/engine.py. What runs without giving up control is one move: an
-- iteration of the `while True` loop of `_run_loop`, or a stretch of one `_execute_task` from one
-- `await` to the next. A list of moves is any interleaving of the loop and the tasks' futures. A move
-- for a task that is not where the move starts changes nothing.
-- Times are milliseconds.
pub mod Steps
pub mod Runs
pub mod Invariant
pub mod Dispatch
pub mod Moves
pub mod Active
pub mod Running
pub mod Start
pub mod Safety
pub mod Completion
pub mod Resume
pub mod Restored
pub mod Results
pub mod Arguments
use fuzzy_octo_train.Prelude.{
  string_eq, ℕ, String, Bool, true, false, ◌&&◌, Option, none, some, List, [], ◌∷◌, ◌++◌, Dict, get,
  put, pop, ℤ, pos, is_zero, if◌then◌else◌, length, SetOrder, Result, ok, ◌>>=◌,
}
use fuzzy_octo_train.Models.{
  TaskStatus, WorkflowStatus, TaskResult, duration, Outcome, returned, raised, Task, Workflow,
}
use fuzzy_octo_train.Dag.{Dag, build_dag}
use fuzzy_octo_train.Scheduler.{
  Scheduler, idle, mark_completed, mark_failed, mark_running, mark_skipped, get_ready_tasks,
  is_complete, has_failures,
}
use fuzzy_octo_train.Retry.{RetryPolicy, retry_with_backoff}
use fuzzy_octo_train.Checkpoint.{CheckpointStore, save_task_result}
use fuzzy_octo_train.Events.{
  Event, EventType, PayloadValue, text, number, workflow_started, workflow_completed,
  workflow_failed, task_started, task_completed, task_failed, task_skipped,
}

-- Where a future of `_execute_task` stands.
pub data Phase (V : Type 0) : Type 0 where
  -- created, and not run yet
  spawned : Phase V
  -- TASK_STARTED is published, and the `before_task` hooks run
  hooking : (started : ℕ) → Phase V
  -- in `_invoke`, with the keyword arguments it has built
  invoking : (started : ℕ) (kwargs : Dict String (Option V)) → Phase V
  -- the success is published, and is now saved as a checkpoint
  saving : (started : ℕ) (result : TaskResult V) → Phase V
  -- the skipping is published, and is now saved as a checkpoint
  skipping : (result : TaskResult V) → Phase V
  -- the `after_task` hooks run
  closing : Phase V

-- The engine in the middle of `execute`, with the workflow it executes.
pub record Engine (V : Type 0) : Type 0 where
  pub workflow_id : String
  pub status : WorkflowStatus
  pub scheduler : Scheduler
  -- the retries of `_default_retry`
  pub default_retries : ℤ
  pub checkpoint_store : Option (CheckpointStore V)
  pub task_map : Dict String (Task V)
  pub results : Dict String (TaskResult V)
  pub pending_futures : Dict String (Phase V)
  -- what `_event_bus.publish` was called with
  pub published : List Event

-- What one run of `_call` comes to before `task.func` decides it.
pub data Attempt : Type 0 where
  runs : (at : ℕ) → Attempt
  -- a TimeoutError, whose text is empty
  times_out : Attempt
  -- a CircuitOpenError
  refused : (message : String) → Attempt

-- `RetryPolicy(max_retries=retries)`
abbrev pub retry_policy : ℤ → RetryPolicy
retry_policy max_retries = record {
  max_retries = max_retries;
  base_delay = 100;
  max_delay = 30000;
  exponential_base = 2;
  jitter = true;
}

module _ {V : Type 0} where
  unfoldable pub call_outcome : Task V → Dict String (Option V) → Attempt → Outcome V
  call_outcome task kwargs (runs at) = task.func kwargs at
  call_outcome task kwargs times_out = raised ""
  call_outcome task kwargs (refused message) = raised message

  -- `task.retry_count or self._default_retry.max_retries`
  abbrev pub retries : Engine V → Task V → ℤ
  retries s task = if is_zero task.retry_count then s.default_retries else task.retry_count

  -- `_invoke` behind its arguments, for what the attempts and the jitter come to.
  unfoldable pub invoke :
      Engine V → Task V → Dict String (Option V) → (ℕ → Attempt) → (ℕ → ℕ) → Outcome V
  unfolding call_outcome
  invoke s task kwargs attempt factor =
      (retry_with_backoff (retry_policy (retries s task))
        (λ k. call_outcome task kwargs (attempt k)) factor).outcome

  bind_argument : Option (TaskResult V) → String → Dict String (Option V) → Dict String (Option V)
  bind_argument none param_name kwargs = kwargs
  bind_argument (some upstream) param_name kwargs = put kwargs param_name upstream.output

  -- The loop of `_invoke` over `input_map`, from the arguments there are.
  unfoldable pub build_kwargs :
      Dict String (TaskResult V)
      → Dict String String
      → Dict String (Option V)
      → Dict String (Option V)
  unfolding bind_argument
  build_kwargs results [] kwargs = kwargs
  build_kwargs results ((param_name, upstream) ∷ rest) kwargs =
      build_kwargs results rest (bind_argument (get results upstream) param_name kwargs)

  keep_result :
      Option (TaskResult V) → String → Dict String (TaskResult V) → Dict String (TaskResult V)
  keep_result none dep found = found
  keep_result (some result) dep found = put found dep result

  -- `{dep: results[dep] for dep in task.depends_on if dep in results}`, from what there is.
  unfoldable pub upstream_results :
      Dict String (TaskResult V)
      → List String
      → Dict String (TaskResult V)
      → Dict String (TaskResult V)
  unfolding keep_result
  upstream_results results [] found = found
  upstream_results results (dep ∷ deps) found =
      upstream_results results deps (keep_result (get results dep) dep found)

  -- `self._event_bus.publish(Event(event_type, payload))`, where the payload begins with the workflow.
  abbrev pub publish_event : Engine V → EventType → Dict String PayloadValue → ℕ → Engine V
  publish_event s event_type more now =
      let event : Event = record {
        event_type = event_type;
        payload = ("workflow_id", text s.workflow_id) ∷ more;
        timestamp = now;
      } in
      record s { published = s.published ++ event ∷ [] }

  -- `task.status`, `task.result` and `results[task.name]` are set, and the scheduler is told.
  abbrev pub settle_task : Engine V → Task V → TaskResult V → Scheduler → Engine V
  settle_task s task result scheduler = record s {
    task_map =
        put s.task_map task.name (record task { status = result.status; result = some result });
    results = put s.results task.name result;
    scheduler = scheduler;
  }

  abbrev pub goto : Engine V → Task V → Phase V → Engine V
  goto s task phase = record s { pending_futures = put s.pending_futures task.name phase }

  -- The future is done, and its callback takes it out of `pending_futures`.
  abbrev pub end_future : Engine V → Task V → Engine V
  end_future s task = record s { pending_futures = pop s.pending_futures task.name }

  abbrev pub skipped_result : Task V → (started finished : ℕ) → TaskResult V
  skipped_result task started finished = record {
    task_id = task.id;
    status = TaskStatus.skipped;
    output = none;
    error = none;
    started_at = some started;
    finished_at = some finished;
  }

  abbrev pub success_result : Task V → V → (started finished : ℕ) → TaskResult V
  success_result task output started finished = record {
    task_id = task.id;
    status = TaskStatus.success;
    output = some output;
    error = none;
    started_at = some started;
    finished_at = some finished;
  }

  abbrev pub failed_result : Task V → String → (started finished : ℕ) → TaskResult V
  failed_result task error started finished = record {
    task_id = task.id;
    status = TaskStatus.failed;
    output = none;
    error = some error;
    started_at = some started;
    finished_at = some finished;
  }

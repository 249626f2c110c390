-- ===== src/Routes.antt =====
-- The handlers of src/flowmesh/api/routes.py, over any workflow store. A handler, and the background
-- task of an execution, runs as stretches between its `await`s, and each is one definition here. The
-- methods of the store do not give up control, like those of the in-memory and SQLite stores; what
-- `engine.execute` comes to is given to the stretch behind it.
pub mod Responses
pub mod Requests
pub mod Tracking
pub mod Executions
pub mod Restarts
use fuzzy_octo_train.Prelude.{
  string_eq, nat_eq, ℕ, ◌+◌, String, Bool, true, false, Option, none, some, List, [], ◌∷◌, map,
  Dict, get, put, pop, values, has, all, ◌==◌, ℤ, pos, if◌then◌else◌, length, count, SetOrder,
  Result, ok, err, Error,
}
use fuzzy_octo_train.Models.{
  Task, TaskStatus, TaskResult, Workflow, WorkflowStatus, workflow_status_value, task_status_value,
  duration,
}
use fuzzy_octo_train.Dag.{build_dag}
use fuzzy_octo_train.Dsl.{noop}
use fuzzy_octo_train.Store.Contract.{WorkflowStore}
use fuzzy_octo_train.Routes.Responses.{
  Answer, equals_text, new_task, new_tasks, submitted, to_response, to_result_response,
  to_result_responses, or_no_results, has_status, stats_of, final_status, answered, http_exception,
  unprocessable, invalid_body,
}
use fuzzy_octo_train.Schemas.{
  TaskDefinition, WorkflowCreate, is_valid, TaskResultResponse, WorkflowResponse,
  WorkflowDetailResponse, EngineStatsResponse, ControlResponse,
}

-- Where the asyncio task of `_execute_workflow_background` stands.
pub data Stage (V : Type 0) : Type 0 where
  -- created, and not run yet
  created : Stage V
  -- in `engine.execute`
  executing : (workflow : Workflow V) → Stage V
  -- `cancel` has been called; it was in `engine.execute` then, or not run yet
  cancelling : (entered : Bool) → Stage V
  finished : Stage V

-- The globals of the module once `configure` has run. An asyncio task is a number; the tasks of the event loop are here too, each
-- with its workflow.
pub record Router {V : Type 0} (o : WorkflowStore V) : Type 0 where
  pub store : o.State
  pub running_workflows : Dict String ℕ
  pub tasks : Dict ℕ (String × Stage V)

module _ {V : Type 0} where
  -- What `task.cancel()` makes of a task.
  abbrev pub cancel_stage : Stage V → Stage V
  cancel_stage created = cancelling false
  cancel_stage (executing wf) = cancelling true
  cancel_stage stage = stage

  abbrev pub is_finished : Option (String × Stage V) → Bool
  is_finished task = elim task [
    | none ↦ false
    | some task' ↦ elim task'.1 [ finished ↦ true | _ ↦ false ]
  ]

-- `run_background` is what the event loop does, and `finish_cancel` runs when the task that its
-- handler awaits has finished.
pub data Move (V : Type 0) : Type 0 where
  create : (body : WorkflowCreate V) (id : String) (now : ℕ) → Move V
  execute : (workflow_id : String) → Move V
  background : (handle : ℕ) (outcome : Option (Dict String (TaskResult V))) → Move V
  request : (workflow_id : String) → Move V
  finish : (workflow_id : String) (handle : ℕ) → Move V

module _ {V : Type 0} (o : WorkflowStore V) where
  -- `create_workflow`, behind FastAPI's validation of the body.
  unfoldable pub create_workflow :
      SetOrder
      → (nothing : V) → (fresh : ℕ → String) → Router o
      → WorkflowCreate V
      → (id : String) → (now : ℕ) → Answer (WorkflowResponse V) × Router o
  create_workflow σ nothing fresh s body id now =
      if is_valid body
      then (let wf = submitted nothing fresh body id now in
          elim (build_dag σ wf.tasks) [
            | err exception ↦ (unprocessable exception, s)
            | ok dag ↦ (answered (to_response wf), record s { store = o.save s.store wf })
          ])
      else (invalid_body, s)

  unfoldable pub list_workflows : Router o → (limit offset : ℤ) → Answer (List (WorkflowResponse V))
  list_workflows s limit offset = answered (map to_response (o.list_all s.store limit offset))

  unfoldable pub stats : Router o → Answer EngineStatsResponse
  unfolding stats_of
  stats s = answered (stats_of (o.list_all s.store (pos 10000) (pos 0)))

  unfoldable pub get_workflow :
      (text : V → String) → Router o → String → Answer (WorkflowDetailResponse V)
  get_workflow text s workflow_id = elim (o.find s.store workflow_id) [
    | none ↦ http_exception 404 "Workflow not found"
    | some wf ↦ answered (record {
      workflow = to_response wf;
      results = to_result_responses text (or_no_results (o.get_results s.store workflow_id));
    })
  ]

  -- A new asyncio task for a workflow, and its entry.
  abbrev pub register : Router o → String → Router o
  register s workflow_id = record s {
    running_workflows = put s.running_workflows workflow_id (length s.tasks);
    tasks = put s.tasks (length s.tasks) (workflow_id, created);
  }

  abbrev pub execution_response : String → String → ControlResponse
  execution_response workflow_id message = record {
    workflow_id = workflow_id;
    status = workflow_status_value WorkflowStatus.running;
    message = message;
  }

  unfoldable pub execute_workflow : Router o → String → Answer ControlResponse × Router o
  execute_workflow s workflow_id = elim (o.find s.store workflow_id) [
    | none ↦ (http_exception 404 "Workflow not found", s)
    | some wf ↦
        if has s.running_workflows workflow_id
        then (answered (execution_response workflow_id "Workflow is already executing"), s)
        else (
          answered (execution_response workflow_id "Workflow execution started"),
          register s workflow_id,
        )
  ]

  -- The `finally` of `_execute_workflow_background`, where it ends.
  abbrev pub end_background : Router o → ℕ → String → Router o
  end_background s handle workflow_id = record s {
    running_workflows = pop s.running_workflows workflow_id;
    tasks = put s.tasks handle (workflow_id, finished);
  }

  abbrev pub set_workflow_status : Router o → String → WorkflowStatus → Router o
  set_workflow_status s workflow_id status = record s {
    store = o.update_status s.store workflow_id status;
  }

  -- `_execute_workflow_background` up to `engine.execute`.
  unfoldable pub enter_background : Router o → ℕ → String → Router o
  enter_background s handle workflow_id = elim (o.find s.store workflow_id) [
    | none ↦ end_background s handle workflow_id
    | some wf ↦ record (set_workflow_status s workflow_id WorkflowStatus.running) {
      tasks = put s.tasks handle (workflow_id, executing wf);
    }
  ]

  -- `_execute_workflow_background` behind `engine.execute`, which returned results or raised.
  unfoldable pub leave_background :
      Router o → ℕ → String → Option (Dict String (TaskResult V)) → Router o
  unfolding final_status
  leave_background s handle workflow_id outcome = elim outcome [
    | none ↦
        end_background (set_workflow_status s workflow_id WorkflowStatus.failed) handle workflow_id
    | some results ↦
        end_background
          (set_workflow_status (record s { store = o.save_results s.store workflow_id results })
            workflow_id (final_status results))
          handle workflow_id
  ]

  -- `cancel_workflow` up to `await task`: the task that it awaits.
  unfoldable pub request_cancel : Router o → String → Answer ℕ × Router o
  request_cancel s workflow_id = elim (get s.running_workflows workflow_id) [
    | none ↦ (http_exception 404 "Workflow not running or not found", s)
    | some handle ↦ elim (get s.tasks handle) [
      | none ↦ (answered handle, s)
      | some task ↦
          (answered handle, record s { tasks = put s.tasks handle (task.0, cancel_stage task.1) })
    ]
  ]

  -- `cancel_workflow` behind `await task`.
  unfoldable pub finish_cancel : Router o → String → ControlResponse × Router o
  finish_cancel s workflow_id = (
    record {
      workflow_id = workflow_id;
      status = workflow_status_value WorkflowStatus.cancelled;
      message = "Workflow cancelled successfully";
    },
    record (set_workflow_status s workflow_id WorkflowStatus.cancelled) {
      running_workflows = pop s.running_workflows workflow_id;
    },
  )

  -- The event loop runs a background task: `outcome` is what `engine.execute` comes to. A task that is
  -- cancelled before it has run does not run its `finally`.
  unfoldable pub run_background :
      Router o → ℕ → (outcome : Option (Dict String (TaskResult V))) → Router o
  unfolding enter_background leave_background
  run_background s handle outcome = elim (get s.tasks handle) [
    | none ↦ s
    | some task ↦ elim task.1 [
      | created ↦ enter_background s handle task.0
      | executing wf ↦ leave_background s handle task.0 outcome
      | cancelling entered ↦
          if entered
          then end_background s handle task.0
          else record s { tasks = put s.tasks handle (task.0, finished) }
      | finished ↦ s
    ]
  ]

  unfoldable pub step : SetOrder → V → (fresh : ℕ → String) → Router o → Move V → Router o
  step σ nothing fresh s (create body id now) = (create_workflow σ nothing fresh s body id now).1
  step σ nothing fresh s (execute workflow_id) = (execute_workflow s workflow_id).1
  step σ nothing fresh s (background handle outcome) = run_background s handle outcome
  step σ nothing fresh s (request workflow_id) = (request_cancel s workflow_id).1
  step σ nothing fresh s (finish workflow_id handle) =
      if is_finished (get s.tasks handle) then (finish_cancel s workflow_id).1 else s

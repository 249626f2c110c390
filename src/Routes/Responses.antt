-- ===== src/Routes/Responses.antt =====
-- What the handlers of src/flowmesh/api/routes.py answer, and the workflows they make.
use fuzzy_octo_train.Prelude.{
  string_eq, nat_eq, ℕ, ◌+◌, String, Bool, false, Option, none, some, List, [], ◌∷◌, Dict, values,
  all, ◌==◌, pos, if◌then◌else◌, length, count, Error,
}
use fuzzy_octo_train.Models.{
  Task, TaskStatus, TaskResult, Workflow, WorkflowStatus, workflow_status_value, task_status_value,
  duration,
}
use fuzzy_octo_train.Dsl.{noop}
use fuzzy_octo_train.Schemas.{
  TaskDefinition, WorkflowCreate, TaskResultResponse, WorkflowResponse, EngineStatsResponse,
}

-- What a handler comes to: a response, an HTTPException with a text or with an exception's text, or
-- FastAPI's own answer to a body that its schema refuses.
pub data Answer (A : Type 0) : Type 0 where
  answered : A → Answer A
  http_exception : (status_code : ℕ) (detail : String) → Answer A
  unprocessable : (exception : Error) → Answer A
  invalid_body : Answer A

-- `r.status == "success"`: a member of the enumeration `TaskStatus`,
-- which is no string, equals no string.
unfoldable pub equals_text : TaskStatus → String → Bool
equals_text status text = false

module _ {V : Type 0} where
  -- One task of the list that `create_workflow` makes.
  abbrev pub new_task : (nothing : V) → TaskDefinition V → (id : String) → Task V
  new_task nothing t id = record {
    name = t.name;
    func = noop nothing;
    depends_on = t.depends_on;
    timeout_seconds = t.timeout_seconds;
    retry_count = t.retry_count;
    priority = pos 0;
    metadata = t.metadata;
    id = id;
    status = TaskStatus.pending;
    result = none;
    input_map = [];
    condition = none;
  }

  -- The ids are drawn one after the other, here by a counter.
  abbrev pub new_tasks :
      (nothing : V) → (fresh : ℕ → String) → ℕ → List (TaskDefinition V) → List (Task V)
  new_tasks nothing fresh i [] = []
  new_tasks nothing fresh i (t ∷ ts) =
      new_task nothing t (fresh i) ∷ new_tasks nothing fresh (i + 1) ts

  abbrev pub submitted :
      (nothing : V)
      → (fresh : ℕ → String) → WorkflowCreate V
      → (id : String) → (now : ℕ) → Workflow V
  submitted nothing fresh body id now = record {
    name = body.name;
    tasks = new_tasks nothing fresh 0 body.tasks;
    id = id;
    status = WorkflowStatus.pending;
    created_at = now;
    metadata = body.metadata;
  }

  abbrev pub to_response : Workflow V → WorkflowResponse V
  to_response wf = record {
    id = wf.id;
    name = wf.name;
    status = workflow_status_value wf.status;
    created_at = wf.created_at;
    task_count = length wf.tasks;
    metadata = wf.metadata;
  }

  -- `text` is Python's `str`.
  abbrev pub to_result_response : (text : V → String) → TaskResult V → TaskResultResponse
  to_result_response text r = record {
    task_id = r.task_id;
    status = task_status_value r.status;
    output = elim r.output [ none ↦ none | some output ↦ some (text output) ];
    error = r.error;
    started_at = r.started_at;
    finished_at = r.finished_at;
    duration_ms = duration r;
  }

  abbrev pub to_result_responses :
      (text : V → String) → Dict String (TaskResult V) → Dict String TaskResultResponse
  to_result_responses text [] = []
  to_result_responses text ((name, r) ∷ results) =
      (name, to_result_response text r) ∷ to_result_responses text results

  -- `store.get_results(workflow_id) or {}`
  abbrev pub or_no_results : Option (Dict String (TaskResult V)) → Dict String (TaskResult V)
  or_no_results results = elim results [ none ↦ [] | some raw_results ↦ raw_results ]

  abbrev pub has_status : WorkflowStatus → Workflow V → Bool
  has_status status w = workflow_status_value w.status == workflow_status_value status

  unfoldable pub stats_of : List (Workflow V) → EngineStatsResponse
  stats_of workflows = record {
    total_workflows = length workflows;
    pending = count (has_status WorkflowStatus.pending) workflows;
    running = count (has_status WorkflowStatus.running) workflows;
    succeeded = count (has_status WorkflowStatus.success) workflows;
    failed = count (has_status WorkflowStatus.failed) workflows;
  }

  -- The test of `_execute_workflow_background` on all results.
  unfoldable pub final_status : Dict String (TaskResult V) → WorkflowStatus
  unfolding equals_text
  final_status results =
      if all (λ (r : TaskResult V). equals_text r.status "success") (values results)
      then WorkflowStatus.success
      else WorkflowStatus.failed

-- ===== src/Models.antt =====
-- The value objects of src/flowmesh/core/models.py: statuses, results, tasks and workflows.
-- Times are numbers of clock ticks, and `V` is the type of the values that tasks pass on.
use fuzzy_octo_train.Prelude.{
  string_eq, ℕ, ◌-◌, String, Bool, Option, none, some, List, [], ◌∷◌, Dict, ℤ, pos, negsuc, leb,
  if◌then◌else◌, ◌==◌,
}

pub data TaskStatus : Type 0 where
  pending running success failed skipped cancelled : TaskStatus

pub data WorkflowStatus : Type 0 where
  pending running success failed cancelled : WorkflowStatus

-- The `value` of a member of either enumeration.
unfoldable pub task_status_value : TaskStatus → String
task_status_value TaskStatus.pending = "pending"
task_status_value TaskStatus.running = "running"
task_status_value TaskStatus.success = "success"
task_status_value TaskStatus.failed = "failed"
task_status_value TaskStatus.skipped = "skipped"
task_status_value TaskStatus.cancelled = "cancelled"

unfoldable pub workflow_status_value : WorkflowStatus → String
workflow_status_value WorkflowStatus.pending = "pending"
workflow_status_value WorkflowStatus.running = "running"
workflow_status_value WorkflowStatus.success = "success"
workflow_status_value WorkflowStatus.failed = "failed"
workflow_status_value WorkflowStatus.cancelled = "cancelled"

pub record TaskResult (V : Type 0) : Type 0 where
  pub task_id : String
  pub status : TaskStatus
  pub output : Option V
  pub error : Option String
  pub started_at : Option ℕ
  pub finished_at : Option ℕ

-- The difference of two times, which can be negative.
elapsed : ℕ → ℕ → ℤ
elapsed started finished =
    if leb started finished then pos (finished - started) else negsuc (started - finished - 1)

-- `TaskResult.duration_ms`, in ticks. A datetime is never falsy.
unfoldable pub duration : {V : Type 0} → TaskResult V → Option ℤ
unfolding elapsed
duration r = elim r.started_at [
  | none ↦ none
  | some started ↦ elim r.finished_at [
    | none ↦ none
    | some finished ↦ some (elapsed started finished)
  ]
]

-- What one call of an async task function comes to.
pub data Outcome (V : Type 0) : Type 0 where
  returned : V → Outcome V
  raised : (message : String) → Outcome V

-- A task's `func`: given keyword arguments, which may be None, and the time of the call, an outcome.
abbrev pub TaskCallable : Type 0 → Type 0
TaskCallable V = Dict String (Option V) → ℕ → Outcome V

pub record Task (V : Type 0) : Type 0 where
  pub name : String
  pub func : TaskCallable V
  pub depends_on : List String
  pub timeout_seconds : ℕ
  pub retry_count : ℤ
  pub priority : ℤ
  pub metadata : Dict String V
  pub id : String
  pub status : TaskStatus
  pub result : Option (TaskResult V)
  pub input_map : Dict String String
  -- a condition is none where it raises
  pub condition : Option (Dict String (TaskResult V) → Option Bool)

pub record Workflow (V : Type 0) : Type 0 where
  pub name : String
  pub tasks : List (Task V)
  pub id : String
  pub status : WorkflowStatus
  pub created_at : ℕ
  pub metadata : Dict String V

-- `Workflow.get_task_by_name`, on the workflow's task list
unfoldable pub get_task_by_name : {V : Type 0} → List (Task V) → String → Option (Task V)
get_task_by_name [] name = none
get_task_by_name (task ∷ tasks) name =
    if task.name == name then some task else get_task_by_name tasks name

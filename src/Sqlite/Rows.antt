-- ===== src/Sqlite/Rows.antt =====
-- The rows of the tables of src/flowmesh/storage/sqlite.py, and what they are written from and read to.
use fuzzy_octo_train.Prelude.{
  string_eq, ℕ, suc, String, Bool, ◌&&◌, Option, none, some, List, [], ◌∷◌, Dict, ◌==◌, ℤ,
  if◌then◌else◌, Result, ok, err, ◌>>=◌, unwrap, value_error, type_error,
}
use fuzzy_octo_train.Models.{
  Task, TaskStatus, TaskResult, Workflow, WorkflowStatus, task_status_value, workflow_status_value,
}
use fuzzy_octo_train.Dsl.{noop}

-- What `task_defs` keeps of a task. Here and in a row a text in JSON is what is read from it.
pub record TaskDef (V : Type 0) : Type 0 where
  pub name : String
  pub depends_on : List String
  pub timeout_seconds : ℕ
  pub retry_count : ℤ
  pub priority : ℤ
  pub metadata : Dict String V

pub record WorkflowRow (V : Type 0) : Type 0 where
  pub id : String
  pub name : String
  pub status : String
  pub created_at : ℕ
  pub metadata : Dict String V
  pub task_defs : List (TaskDef V)

pub record ResultRow (V : Type 0) : Type 0 where
  pub workflow_id : String
  pub task_name : String
  pub task_id : String
  pub status : String
  pub output : Option V
  pub error : Option String
  pub started_at : Option ℕ
  pub finished_at : Option ℕ

pub record Database (V : Type 0) : Type 0 where
  pub workflows : List (WorkflowRow V)
  pub task_results : List (ResultRow V)

-- `WorkflowStatus(status)` and `TaskStatus(status)`
unfoldable pub parse_workflow_status : String → Option WorkflowStatus
parse_workflow_status status =
    if status == "pending"
    then some WorkflowStatus.pending
    else if status == "running"
    then some WorkflowStatus.running
    else if status == "success"
    then some WorkflowStatus.success
    else if status == "failed"
    then some WorkflowStatus.failed
    else if status == "cancelled"
    then some WorkflowStatus.cancelled
    else none

unfoldable pub parse_task_status : String → Option TaskStatus
parse_task_status status =
    if status == "pending"
    then some TaskStatus.pending
    else if status == "running"
    then some TaskStatus.running
    else if status == "success"
    then some TaskStatus.success
    else if status == "failed"
    then some TaskStatus.failed
    else if status == "skipped"
    then some TaskStatus.skipped
    else if status == "cancelled"
    then some TaskStatus.cancelled
    else none

module _ {V : Type 0} where
  abbrev pub is_workflow : String → WorkflowRow V → Bool
  is_workflow workflow_id row = row.id == workflow_id

  abbrev pub is_result_of : String → ResultRow V → Bool
  is_result_of workflow_id row = row.workflow_id == workflow_id

  abbrev pub is_result : String → String → ResultRow V → Bool
  is_result workflow_id task_name row = row.workflow_id == workflow_id && row.task_name == task_name

  -- `json` tells what a value is read back as from the text that `json.dumps` writes of it: none where that
  -- raises.
  module _ (json : V → Option V) where
    abbrev pub json_entry : String → Option V → Result (Dict String V) → Result (Dict String V)
    json_entry key none rest = err type_error
    json_entry key (some value) rest = do entries ← rest; ok ((key, value) ∷ entries)

    -- A dictionary's text, as what is read from it: its keys are texts.
    unfoldable pub json_dict : Dict String V → Result (Dict String V)
    json_dict [] = ok []
    json_dict ((key, value) ∷ d) = json_entry key (json value) (json_dict d)

    unfoldable pub to_def : Task V → Result (TaskDef V)
    unfolding json_dict
    to_def t = do
      metadata ← json_dict t.metadata
      ok (record {
        name = t.name;
        depends_on = t.depends_on;
        timeout_seconds = t.timeout_seconds;
        retry_count = t.retry_count;
        priority = t.priority;
        metadata = metadata;
      })

    unfoldable pub to_defs : List (Task V) → Result (List (TaskDef V))
    unfolding to_def
    to_defs [] = ok []
    to_defs (t ∷ tasks) = do td ← to_def t; task_defs ← to_defs tasks; ok (td ∷ task_defs)

    unfoldable pub to_row : Workflow V → Result (WorkflowRow V)
    unfolding to_defs json_dict
    to_row workflow = do
      task_defs ← to_defs workflow.tasks
      metadata ← json_dict workflow.metadata
      ok (record {
        id = workflow.id;
        name = workflow.name;
        status = workflow_status_value workflow.status;
        created_at = workflow.created_at;
        metadata = metadata;
        task_defs = task_defs;
      })

    -- `json.dumps(r.output) if r.output is not None else None`
    abbrev pub json_output : Option V → Result (Option V)
    json_output none = ok none
    json_output (some output) = elim (json output) [
      | none ↦ err type_error
      | some value ↦ ok (some value)
    ]

    unfoldable pub to_result_row : String → String → TaskResult V → Result (ResultRow V)
    to_result_row workflow_id task_name r = do
      output ← json_output r.output
      ok (record {
        workflow_id = workflow_id;
        task_name = task_name;
        task_id = r.task_id;
        status = task_status_value r.status;
        output = output;
        error = r.error;
        started_at = r.started_at;
        finished_at = r.finished_at;
      })

  -- Tasks that are read get new ids: the ids are drawn one after the other, here by a counter.
  abbrev pub to_task : (nothing : V) → TaskDef V → (id : String) → Task V
  to_task nothing td id = record {
    name = td.name;
    func = noop nothing;
    depends_on = td.depends_on;
    timeout_seconds = td.timeout_seconds;
    retry_count = td.retry_count;
    priority = td.priority;
    metadata = td.metadata;
    id = id;
    status = TaskStatus.pending;
    result = none;
    input_map = [];
    condition = none;
  }

  abbrev pub to_tasks : (nothing : V) → (fresh : ℕ → String) → ℕ → List (TaskDef V) → List (Task V)
  to_tasks nothing fresh i [] = []
  to_tasks nothing fresh i (td ∷ tds) =
      to_task nothing td (fresh i) ∷ to_tasks nothing fresh (suc i) tds

  unfoldable pub row_to_workflow :
      (nothing : V) → (fresh : ℕ → String) → WorkflowRow V → Result (Workflow V)
  unfolding parse_workflow_status
  row_to_workflow nothing fresh row = do
    status ← unwrap (value_error row.status) (parse_workflow_status row.status)
    ok (record {
      name = row.name;
      tasks = to_tasks nothing fresh 0 row.task_defs;
      id = row.id;
      status = status;
      created_at = row.created_at;
      metadata = row.metadata;
    })

  unfoldable pub read_result : ResultRow V → Result (TaskResult V)
  unfolding parse_task_status
  read_result row = do
    status ← unwrap (value_error row.status) (parse_task_status row.status)
    ok (record {
      task_id = row.task_id;
      status = status;
      output = row.output;
      error = row.error;
      started_at = row.started_at;
      finished_at = row.finished_at;
    })

-- ===== src/Dsl.antt =====
-- `WorkflowParser` of src/flowmesh/dsl/__init__.py, on documents that the YAML or JSON library has
-- read. A document's fields have the types that a task or a workflow takes; `tasks` and its entries,
-- whose types the parser looks at, may also be numbers. `fresh` numbers the random ids.
pub mod Validation
pub mod Files
use fuzzy_octo_train.Prelude.{
  string_eq, ℕ, ◌+◌, String, Bool, true, false, Option, none, some, List, [], ◌∷◌, ◌++◌, Dict, get,
  put, ℤ, pos, ◌==◌, if◌then◌else◌, contains, add, Result, ok, err, ◌>>=◌, value_error, type_error,
}
use fuzzy_octo_train.Models.{
  Task, TaskStatus, TaskResult, TaskCallable, Workflow, WorkflowStatus, returned,
}

-- A task definition: its keys, where they are there.
pub record TaskData (V : Type 0) : Type 0 where
  pub name : Option String
  pub depends_on : Option (List String)
  pub timeout : Option ℕ
  pub retry_count : Option ℤ
  pub priority : Option ℤ
  pub metadata : Option (Dict String V)
  pub input_map : Option (Dict String String)
  pub condition : Option (Dict String (TaskResult V) → Option Bool)

pub data Entry (V : Type 0) : Type 0 where
  scalar : Entry V
  table : TaskData V → Entry V

pub data Tasks (V : Type 0) : Type 0 where
  -- a number, and whether it is other than zero
  no_list : (truthy : Bool) → Tasks V
  entries : List (Entry V) → Tasks V

pub record Document (V : Type 0) : Type 0 where
  pub name : Option String
  pub tasks : Option (Tasks V)
  pub metadata : Option (Dict String V)

-- The messages of `validate`.
pub data Complaint : Type 0 where
  missing_name missing_tasks tasks_no_list no_tasks : Complaint
  no_dictionary nameless_task : (index : ℕ) → Complaint
  duplicate_name self_dependency : (name : String) → Complaint

-- `d.get(key, default)` on a key of a definition
abbrev pub or_default {ℓ} : {A : Type ℓ} → Option A → A → A
or_default none default_value = default_value
or_default (some a) default_value = a

-- `_task_registry`
abbrev pub Registry : Type 0 → Type 0
Registry V = Dict String (TaskCallable V)

-- The loop of `validate` over a task's dependencies.
unfoldable pub self_dependencies : String → List String → List Complaint
self_dependencies task_name [] = []
self_dependencies task_name (dep ∷ deps) =
    let rest = self_dependencies task_name deps in
    if dep == task_name then self_dependency task_name ∷ rest else rest

module _ {V : Type 0} where
  unfoldable pub register_task : Registry V → String → TaskCallable V → Registry V
  register_task registry name func = put registry name func

  -- `_noop`, whose result is `nothing`, Python's None
  abbrev pub noop : (nothing : V) → TaskCallable V
  noop nothing = λ kwargs time. returned nothing

  -- `_parse_task`, behind its test for the name.
  abbrev pub named_task : Registry V → V → TaskData V → String → (id : String) → Task V
  named_task registry nothing task_data name id = record {
    name = name;
    func = or_default (get registry name) (noop nothing);
    depends_on = or_default task_data.depends_on [];
    timeout_seconds = or_default task_data.timeout 300;
    retry_count = or_default task_data.retry_count (pos 0);
    priority = or_default task_data.priority (pos 0);
    metadata = or_default task_data.metadata [];
    id = id;
    status = TaskStatus.pending;
    result = none;
    input_map = or_default task_data.input_map [];
    condition = task_data.condition;
  }

  unfoldable pub parse_task : Registry V → V → Entry V → (id : String) → Result (Task V)
  parse_task registry nothing scalar id = err type_error
  parse_task registry nothing (table task_data) id = elim task_data.name [
    | none ↦ err (value_error "Task 'name' is required")
    | some name ↦ ok (named_task registry nothing task_data name id)
  ]

  -- The loop of `_parse_dict`, from the i-th task on.
  unfoldable pub parse_tasks :
      Registry V → V → List (Entry V) → (fresh : ℕ → String) → ℕ → Result (List (Task V))
  unfolding parse_task
  parse_tasks registry nothing [] fresh i = ok []
  parse_tasks registry nothing (entry ∷ rest) fresh i =
      parse_task registry nothing entry (fresh i) >>= λ task.
      parse_tasks registry nothing rest fresh (i + 1) >>= λ tasks. ok (task ∷ tasks)

  abbrev pub parsed_workflow :
      Document V → String → List (Task V) → (id : String) → (now : ℕ) → Workflow V
  parsed_workflow document name tasks id now = record {
    name = name;
    tasks = tasks;
    id = id;
    status = WorkflowStatus.pending;
    created_at = now;
    metadata = or_default document.metadata [];
  }

  -- What `_parse_dict` does with the value of `tasks`.
  unfoldable pub parse_task_list :
      Registry V → V → Option (Tasks V) → (fresh : ℕ → String) → Result (List (Task V))
  unfolding parse_tasks
  parse_task_list registry nothing none fresh =
      err (value_error "Workflow must have at least one task")
  parse_task_list registry nothing (some (no_list false)) fresh =
      err (value_error "Workflow must have at least one task")
  parse_task_list registry nothing (some (no_list true)) fresh = err type_error
  parse_task_list registry nothing (some (entries [])) fresh =
      err (value_error "Workflow must have at least one task")
  parse_task_list registry nothing (some (entries (entry ∷ rest))) fresh =
      parse_tasks registry nothing (entry ∷ rest) fresh 0

  unfoldable pub parse_dict :
      Registry V
      → V
      → Document V
      → (fresh : ℕ → String) → (id : String) → (now : ℕ) → Result (Workflow V)
  unfolding parse_task_list
  parse_dict registry nothing document fresh id now = elim document.name [
    | none ↦ err (value_error "Workflow 'name' is required")
    | some name ↦ parse_task_list registry nothing document.tasks fresh >>= λ tasks.
        ok (parsed_workflow document name tasks id now)
  ]

  -- The loop of `validate` over the tasks, from the i-th on, behind those of these names.
  unfoldable pub validate_tasks : List (Entry V) → ℕ → List String → List Complaint
  unfolding self_dependencies
  validate_tasks [] i task_names = []
  validate_tasks (scalar ∷ rest) i task_names =
      no_dictionary i ∷ validate_tasks rest (i + 1) task_names
  validate_tasks (table task ∷ rest) i task_names = elim task.name [
    | none ↦ nameless_task i ∷ validate_tasks rest (i + 1) task_names
    | some name ↦
        (if contains task_names name then duplicate_name name ∷ [] else [])
        ++ self_dependencies name (or_default task.depends_on [])
        ++ validate_tasks rest (i + 1) (add task_names name)
  ]

  -- The part of `validate` that looks at `tasks`.
  unfoldable pub validate_task_list : Option (Tasks V) → List Complaint
  unfolding validate_tasks
  validate_task_list none = missing_tasks ∷ []
  validate_task_list (some (no_list truthy)) = tasks_no_list ∷ []
  validate_task_list (some (entries [])) = no_tasks ∷ []
  validate_task_list (some (entries (entry ∷ rest))) = validate_tasks (entry ∷ rest) 0 []

  unfoldable pub validate : Document V → List Complaint
  unfolding validate_task_list
  validate document = elim document.name [
    | none ↦ missing_name ∷ validate_task_list document.tasks
    | some name ↦ validate_task_list document.tasks
  ]

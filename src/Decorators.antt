-- ===== src/Decorators.antt =====
-- The builders of src/flowmesh/decorators/__init__.py. Ids of tasks and workflows, which the source
-- draws at random, are given: `fresh` numbers them.
pub mod Agreement
use fuzzy_octo_train.Prelude.{
  string_eq, ℕ, suc, ◌+◌, String, Bool, true, false, Option, none, some, List, [], ◌∷◌, ◌++◌, Dict,
  ℤ, ◌==◌, if◌then◌else◌,
}
use fuzzy_octo_train.Models.{Task, TaskStatus, TaskResult, TaskCallable, Workflow, WorkflowStatus}

-- A function object: its `__name__`, and what it does.
pub record Function (V : Type 0) : Type 0 where
  pub name : String
  pub body : TaskCallable V

-- The keyword arguments that all the builders share, with None where it is the default.
pub record Settings (V : Type 0) : Type 0 where
  pub depends_on : Option (List String)
  pub timeout : ℕ
  pub retry_count : ℤ
  pub priority : ℤ
  pub metadata : Option (Dict String V)
  pub input_map : Option (Dict String String)
  pub condition : Option (Dict String (TaskResult V) → Option Bool)

pub record TaskBuilder (V : Type 0) : Type 0 where
  pub func : Function V
  pub name : String
  pub depends_on : List String
  pub timeout : ℕ
  pub retry_count : ℤ
  pub priority : ℤ
  pub metadata : Dict String V
  pub input_map : Dict String String
  pub condition : Option (Dict String (TaskResult V) → Option Bool)

pub record WorkflowBuilder (V : Type 0) : Type 0 where
  pub name : String
  pub metadata : Dict String V
  pub tasks : List (Task V)

-- `xs or []` and `d or {}`
abbrev pub or_empty {ℓ} : {A : Type ℓ} → Option (List A) → List A
or_empty none = []
or_empty (some xs) = xs

-- `name or func.__name__`
abbrev pub name_or : Option String → String → String
name_or none default_name = default_name
name_or (some name) default_name = if name == "" then default_name else name

module _ {V : Type 0} where
  -- The decorator `task`, applied to a function: `TaskBuilder.__init__`.
  unfoldable pub decorate : Settings V → Function V → TaskBuilder V
  decorate settings func = record {
    func = func;
    name = func.name;
    depends_on = or_empty settings.depends_on;
    timeout = settings.timeout;
    retry_count = settings.retry_count;
    priority = settings.priority;
    metadata = or_empty settings.metadata;
    input_map = or_empty settings.input_map;
    condition = settings.condition;
  }

  -- `TaskBuilder.build`
  unfoldable pub build_task : TaskBuilder V → (id : String) → Task V
  build_task b id = record {
    name = b.name;
    func = b.func.body;
    depends_on = b.depends_on;
    timeout_seconds = b.timeout;
    retry_count = b.retry_count;
    priority = b.priority;
    metadata = b.metadata;
    id = id;
    status = TaskStatus.pending;
    result = none;
    input_map = b.input_map;
    condition = b.condition;
  }

  -- `WorkflowBuilder.__init__`
  abbrev pub workflow_builder : String → Option (Dict String V) → WorkflowBuilder V
  workflow_builder name metadata = record { name = name; metadata = or_empty metadata; tasks = [] }

  -- `WorkflowBuilder.add_task`
  unfoldable pub add_task :
      WorkflowBuilder V
      → Function V
      → Option String
      → Settings V
      → (id : String) → WorkflowBuilder V
  add_task b func name settings id =
      let task : Task V = record {
        name = name_or name func.name;
        func = func.body;
        depends_on = or_empty settings.depends_on;
        timeout_seconds = settings.timeout;
        retry_count = settings.retry_count;
        priority = settings.priority;
        metadata = or_empty settings.metadata;
        id = id;
        status = TaskStatus.pending;
        result = none;
        input_map = or_empty settings.input_map;
        condition = settings.condition;
      } in
      record b { tasks = b.tasks ++ task ∷ [] }

  new_workflow : String → List (Task V) → Dict String V → (id : String) → (now : ℕ) → Workflow V
  new_workflow name tasks metadata id now = record {
    name = name;
    tasks = tasks;
    id = id;
    status = WorkflowStatus.pending;
    created_at = now;
    metadata = metadata;
  }

  -- `WorkflowBuilder.build`
  unfoldable pub build_workflow : WorkflowBuilder V → (id : String) → (now : ℕ) → Workflow V
  unfolding new_workflow
  build_workflow b id now = new_workflow b.name b.tasks b.metadata id now

  -- The loop of `create_workflow`.
  unfoldable pub add_all :
      WorkflowBuilder V
      → List (Function V × Option String × Settings V)
      → (fresh : ℕ → String) → ℕ
      → WorkflowBuilder V
  unfolding add_task
  add_all b [] fresh i = b
  add_all b ((func, name, settings) ∷ tasks) fresh i =
      add_all (add_task b func name settings (fresh i)) tasks fresh (i + 1)

  unfoldable pub create_workflow :
      String
      → List (Function V × Option String × Settings V)
      → Option (Dict String V)
      → (fresh : ℕ → String) → (id : String) → (now : ℕ) → Workflow V
  unfolding add_all build_workflow
  create_workflow name tasks metadata fresh id now =
      build_workflow (add_all (workflow_builder name metadata) tasks fresh 0) id now

  -- `[tb.build() for tb in task_builders]`
  unfoldable pub build_all : List (TaskBuilder V) → (fresh : ℕ → String) → ℕ → List (Task V)
  unfolding build_task
  build_all [] fresh i = []
  build_all (b ∷ builders) fresh i = build_task b (fresh i) ∷ build_all builders fresh (i + 1)

  -- The decorator `workflow`, applied to a function that returns these builders.
  unfoldable pub decorated_workflow :
      String
      → Option (Dict String V)
      → List (TaskBuilder V)
      → (fresh : ℕ → String) → (id : String) → (now : ℕ) → Workflow V
  unfolding build_all new_workflow
  decorated_workflow name metadata builders fresh id now =
      new_workflow name (build_all builders fresh 0) (or_empty metadata) id now

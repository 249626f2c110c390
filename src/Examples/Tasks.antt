-- ===== src/Examples/Tasks.antt =====
-- Tasks for the examples.
use fuzzy_octo_train.Prelude.{ℕ, String, none, some, List, [], ◌∷◌, pos}
use fuzzy_octo_train.Models.{Task, TaskStatus, TaskResult, Workflow, WorkflowStatus, returned}

abbrev pub job : String → List String → ℕ → Task ℕ
job name depends_on priority = record {
  name = name;
  func = λ kwargs time. returned time;
  depends_on = depends_on;
  timeout_seconds = 300;
  retry_count = pos 0;
  priority = pos priority;
  metadata = [];
  id = name;
  status = TaskStatus.pending;
  result = none;
  input_map = [];
  condition = none;
}

-- `b` and `c` depend on `a`, and `d` on both.
abbrev pub diamond : List (Task ℕ)
diamond =
    job "d" ("b" ∷ "c" ∷ []) 0 ∷ job "b" ("a" ∷ []) 1 ∷ job "c" ("a" ∷ []) 2 ∷ job "a" [] 0 ∷ []

abbrev pub looping : List (Task ℕ)
looping = job "a" ("b" ∷ []) 0 ∷ job "b" ("a" ∷ []) 0 ∷ []

abbrev pub dangling : List (Task ℕ)
dangling = job "a" ("x" ∷ []) 0 ∷ []

abbrev pub a_result : TaskResult ℕ
a_result = record {
  task_id = "a";
  status = TaskStatus.success;
  output = some 3;
  error = none;
  started_at = some 1;
  finished_at = some 4;
}

abbrev pub workflow : Workflow ℕ
workflow = record {
  name = "etl";
  tasks = diamond;
  id = "w1";
  status = WorkflowStatus.pending;
  created_at = 0;
  metadata = [];
}

-- ===== src/Scheduler.antt =====
-- src/flowmesh/core/scheduler.py. Its four sets are lists without repetition. The semaphore of the
-- source is created and never acquired, so it is no part of the state.
pub mod Ready
use fuzzy_octo_train.Prelude.{
  string_eq, String, Bool, true, false, not, ◌&&◌, ◌||◌, Option, none, some, List, [], ◌∷◌, Dict,
  get, contains, add, discard, union, sort_descending, if◌then◌else◌, nat_beq, length, ltb, ℕ,
}
use fuzzy_octo_train.Models.{Task, TaskStatus}
use fuzzy_octo_train.Dag.{Dag, get_ready_nodes}

pub record Scheduler : Type 0 where
  pub completed : List String
  pub failed : List String
  pub running : List String
  pub skipped : List String

-- Also what `reset` leaves.
abbrev pub idle : Scheduler
idle = record { completed = []; failed = []; running = []; skipped = [] }

unfoldable pub reset : Scheduler → Scheduler
reset s = idle

unfoldable pub mark_completed : Scheduler → String → Scheduler
mark_completed s task_name = record s {
  completed = add s.completed task_name;
  running = discard s.running task_name;
}

unfoldable pub mark_failed : Scheduler → String → Scheduler
mark_failed s task_name = record s {
  failed = add s.failed task_name;
  running = discard s.running task_name;
}

unfoldable pub mark_running : Scheduler → String → Scheduler
mark_running s task_name = record s { running = add s.running task_name }

unfoldable pub mark_skipped : Scheduler → String → Scheduler
mark_skipped s task_name = record s {
  skipped = add s.skipped task_name;
  running = discard s.running task_name;
}

abbrev pub is_pending : TaskStatus → Bool
is_pending TaskStatus.pending = true
is_pending _ = false

-- What satisfies the dependencies on a task.
abbrev pub done : Scheduler → List String
done s = union s.completed s.skipped

module _ {V : Type 0} where
  unfoldable pub select_pending : Option (Task V) → List (Task V) → List (Task V)
  select_pending none rest = rest
  select_pending (some task) rest = if is_pending task.status then task ∷ rest else rest

  -- The `for` loop of `get_ready_tasks`.
  unfoldable pub collect : Scheduler → Dict String (Task V) → List String → List (Task V)
  unfolding select_pending
  collect s tasks [] = []
  collect s tasks (name ∷ names) =
      let rest = collect s tasks names in
      if contains s.running name || contains s.failed name
      then rest
      else select_pending (get tasks name) rest

  unfoldable pub get_ready_tasks : Scheduler → Dag → Dict String (Task V) → List (Task V)
  unfolding collect
  get_ready_tasks s dag tasks =
      sort_descending (λ task. task.priority) (collect s tasks (get_ready_nodes dag (done s)))

unfoldable pub is_complete : Scheduler → Bool
is_complete s = nat_beq (length s.running) 0

unfoldable pub has_failures : Scheduler → Bool
has_failures s = ltb 0 (length s.failed)

unfoldable pub completed_count : Scheduler → ℕ
completed_count s = length s.completed

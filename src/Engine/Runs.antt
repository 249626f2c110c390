-- ===== src/Engine/Runs.antt =====
-- A whole `execute`: what happens before and after its `_run_loop`.
use fuzzy_octo_train.Prelude.{
  string_eq, ℕ, String, Option, List, [], ◌∷◌, Dict, put, length, ℤ, if◌then◌else◌, SetOrder,
  Result, ok, ◌>>=◌,
}
use fuzzy_octo_train.Models.{WorkflowStatus, Task, Workflow}
use fuzzy_octo_train.Dag.{build_dag}
use fuzzy_octo_train.Scheduler.{idle, has_failures}
use fuzzy_octo_train.Checkpoint.{CheckpointStore}
use fuzzy_octo_train.Events.{text, number, workflow_started, workflow_completed, workflow_failed}
use fuzzy_octo_train.Engine.{Engine, publish_event}
use fuzzy_octo_train.Engine.Steps.{Move, run_moves}

module _ {V : Type 0} where
  -- `{t.name: t for t in workflow.tasks}`, from what there is.
  abbrev pub task_map_from : List (Task V) → Dict String (Task V) → Dict String (Task V)
  task_map_from [] d = d
  task_map_from (task ∷ tasks) d = task_map_from tasks (put d task.name task)

  -- `execute` up to `_run_loop`.
  unfoldable pub start :
      (default_retries : ℤ) → Option (CheckpointStore V) → Workflow V → ℕ → Engine V
  start default_retries store workflow now =
      publish_event
        (record {
          workflow_id = workflow.id;
          status = WorkflowStatus.running;
          scheduler = idle;
          default_retries = default_retries;
          checkpoint_store = store;
          task_map = task_map_from workflow.tasks [];
          results = [];
          pending_futures = [];
          published = [];
        })
        workflow_started (("name", text workflow.name) ∷ []) now

  -- `execute` behind `_run_loop`.
  unfoldable pub conclude : Engine V → ℕ → Engine V
  conclude s now =
      if has_failures s.scheduler
      then publish_event (record s { status = WorkflowStatus.failed }) workflow_failed [] now
      else publish_event (record s { status = WorkflowStatus.success }) workflow_completed
          (("task_count", number (length s.results)) ∷ []) now

-- `execute`, if its `_run_loop` makes these moves.
unfoldable pub execute :
    {V : Type 0}
    → SetOrder
    → (default_retries : ℤ) → Option (CheckpointStore V)
    → Workflow V
    → (started : ℕ) → List Move
    → (finished : ℕ) → Result (Engine V)
unfolding start conclude
execute σ default_retries store workflow started moves finished = do
  dag ← build_dag σ workflow.tasks
  ok (conclude (run_moves dag (start default_retries store workflow started) moves) finished)

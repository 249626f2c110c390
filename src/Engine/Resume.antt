-- ===== src/Engine/Resume.antt =====
-- `resume` of src/flowmesh/core/engine.py.
use fuzzy_octo_train.Prelude.{
  string_eq, ℕ, ℤ, String, Option, none, some, List, [], ◌∷◌, Dict, get, put, if◌then◌else◌,
  SetOrder, Result, ok, ◌>>=◌, runtime_error, err,
}
use fuzzy_octo_train.Models.{Task, TaskStatus, TaskResult, Workflow}
use fuzzy_octo_train.Dag.{build_dag}
use fuzzy_octo_train.Scheduler.{Scheduler, mark_completed, mark_skipped, has_failures}
use fuzzy_octo_train.Checkpoint.{CheckpointStore, load_checkpoint, clear}
use fuzzy_octo_train.Engine.{Engine}
use fuzzy_octo_train.Engine.Steps.{Move, run_moves}
use fuzzy_octo_train.Engine.Runs.{start, conclude}

module _ {V : Type 0} where
  unfoldable pub set_restored :
      Option (Task V) → Dict String (Task V) → String → TaskResult V → Dict String (Task V)
  set_restored none task_map name result = task_map
  set_restored (some task) task_map name result =
      put task_map name (record task { status = result.status; result = some result })

  abbrev pub restored_with : Engine V → String → TaskResult V → Scheduler → Engine V
  restored_with s name result scheduler = record s {
    results = put s.results name result;
    task_map = set_restored (get s.task_map name) s.task_map name result;
    scheduler = scheduler;
  }

  unfoldable pub restore_one : TaskStatus → Engine V → String → TaskResult V → Engine V
  unfolding set_restored mark_completed mark_skipped
  restore_one TaskStatus.success s name result =
      restored_with s name result (mark_completed s.scheduler name)
  restore_one TaskStatus.skipped s name result =
      restored_with s name result (mark_skipped s.scheduler name)
  restore_one _ s name result = s

  -- The loop of `resume` over the checkpoint.
  unfoldable pub restore : Engine V → Dict String (TaskResult V) → Engine V
  unfolding restore_one
  restore s [] = s
  restore s ((name, result) ∷ rest) = restore (restore_one result.status s name result) rest

  abbrev pub checkpoint_of : Option (Dict String (TaskResult V)) → Dict String (TaskResult V)
  checkpoint_of none = []
  checkpoint_of (some checkpoint) = checkpoint

  -- `resume` up to `_run_loop`. Restoring and announcing do not touch the same fields, so their order
  -- does not matter.
  unfoldable pub start_resume :
      (default_retries : ℤ) → CheckpointStore V → Workflow V → ℕ → Engine V
  unfolding restore start
  start_resume default_retries store workflow now =
      restore (start default_retries (some store) workflow now)
        (checkpoint_of (load_checkpoint store workflow.id))

  -- `resume` behind `_run_loop`: as `execute`, but a success clears the checkpoint.
  unfoldable pub conclude_resume : Engine V → ℕ → Engine V
  unfolding conclude
  conclude_resume s now =
      if has_failures s.scheduler then conclude s now else record (conclude s now) {
        checkpoint_store = elim s.checkpoint_store [
          | none ↦ none
          | some store ↦ some (clear store s.workflow_id)
        ];
      }

-- `resume`, if its `_run_loop` makes these moves.
unfoldable pub resume :
    {V : Type 0}
    → SetOrder
    → (default_retries : ℤ) → Option (CheckpointStore V)
    → Workflow V
    → (started : ℕ) → List Move
    → (finished : ℕ) → Result (Engine V)
unfolding start_resume conclude_resume
resume σ default_retries none workflow started moves finished = err runtime_error
resume σ default_retries (some store) workflow started moves finished = do
  dag ← build_dag σ workflow.tasks
  ok (
      conclude_resume (run_moves dag (start_resume default_retries store workflow started) moves)
        finished)

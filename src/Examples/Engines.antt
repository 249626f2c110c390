-- ===== src/Examples/Engines.antt =====
-- Executions of two tasks, the second of which waits for the first.
use fuzzy_octo_train.Prelude.{
  string_eq, ℕ, String, Option, Dict, true, false, none, some, List, [], ◌∷◌, get, contains, ◌≡◌,
  refl, ok, insertion_order, pos, all, sort_descending,
}
use fuzzy_octo_train.Models.{Task, TaskResult, TaskStatus, Workflow, WorkflowStatus, duration}
use fuzzy_octo_train.Dag.{
  build_dag, add_tasks, add_dependencies, add_edge, add_node, link, topological_sort, drain, relax,
  get_ready_nodes, sources,
}
use fuzzy_octo_train.Scheduler.{
  done, get_ready_tasks, collect, mark_running, mark_completed, mark_failed, mark_skipped,
  is_complete, has_failures,
}
use fuzzy_octo_train.Scheduler.Ready.{is_listed}
use fuzzy_octo_train.Retry.{retry_with_backoff}
use fuzzy_octo_train.Checkpoint.{CheckpointStore, save_task_result, load_checkpoint}
use fuzzy_octo_train.Engine.{Engine, runs, hooking, invoking, invoke, build_kwargs}
use fuzzy_octo_train.Engine.Steps.{
  Move, poll, enter, before_hooks, finish, save, close, step, run_moves, dispatch, stops,
  enter_task, hooks_done, invoked, saved,
}
use fuzzy_octo_train.Engine.Runs.{start, conclude}
use fuzzy_octo_train.Engine.Invariant.{touched}
use fuzzy_octo_train.Engine.Safety.{execute-dependencies, execute-once, raising_hook_hangs}
use fuzzy_octo_train.Engine.Arguments.{execute-arguments}
use fuzzy_octo_train.Engine.Completion.{execute-success}
use fuzzy_octo_train.Engine.Resume.{checkpoint_of, start_resume, conclude_resume}
use fuzzy_octo_train.Engine.Restored.{is_held_back, resume_forgets_failures}
use fuzzy_octo_train.Examples.Tasks.{job}
use fuzzy_octo_train.Examples.Graphs.{arrow}

program : Unit {0}
unfolding build_dag add_tasks add_dependencies add_edge add_node link topological_sort drain relax
    get_ready_nodes sources get_ready_tasks collect mark_running mark_completed mark_failed
    is_complete has_failures retry_with_backoff save_task_result invoke build_kwargs step run_moves
    dispatch stops enter_task hooks_done invoked saved start conclude duration mark_skipped
    sort_descending
program = tt

abbrev pair : Workflow ℕ
pair = record {
  name = "pair";
  tasks = job "a" [] 0 ∷ job "b" ("a" ∷ []) 5 ∷ [];
  id = "w1";
  status = WorkflowStatus.pending;
  created_at = 0;
  metadata = [];
}

pair_built : build_dag insertion_order pair.tasks ≡ ok arrow
unfolding program
pair_built = refl

-- Both tasks run; the second is dispatched while the first's checkpoint is saved.
abbrev both : List Move
both =
    poll
    ∷ enter "a" 1
    ∷ before_hooks "a" false
    ∷ finish "a" (λ k. runs 7) (λ k. 1000) 9
    ∷ poll
    ∷ save "a" none 9
    ∷ close "a"
    ∷ enter "b" 10
    ∷ before_hooks "b" false
    ∷ finish "b" (λ k. runs 8) (λ k. 1000) 11
    ∷ save "b" none 12
    ∷ close "b"
    ∷ []

abbrev begun : Engine ℕ
begun = start (pos 0) none pair 0

both_completed : (run_moves arrow begun both).scheduler.completed ≡ "a" ∷ "b" ∷ []
unfolding program
both_completed = refl

both_over : stops arrow (run_moves arrow begun both) ≡ true
unfolding program
both_over = refl

both_success : (conclude (run_moves arrow begun both) 20).status ≡ WorkflowStatus.success
unfolding program
both_success = refl

b_touched : touched (run_moves arrow begun both).scheduler "b" ≡ true
unfolding program
b_touched = refl

execute-dependencies_example : contains (done (run_moves arrow begun both).scheduler) "a" ≡ true
execute-dependencies_example =
    execute-dependencies insertion_order (pos 0) none pair 0 pair_built refl both "b" "a" refl
      b_touched

execute-once_example :
    is_listed
      (get_ready_tasks
        (run_moves arrow (run_moves arrow begun both) (poll ∷ [])).scheduler
        arrow
        (run_moves arrow (run_moves arrow begun both) (poll ∷ [])).task_map)
      "b"
    ≡ false
execute-once_example =
    execute-once insertion_order (pos 0) none pair 0 pair_built refl both (poll ∷ []) "b" b_touched

execute-success_example :
    (dispatch arrow (run_moves arrow begun both) ≡ run_moves arrow begun both)
    × (contains (done (run_moves arrow begun both).scheduler) "b" ≡ true)
execute-success_example =
    execute-success insertion_order (pos 0) none pair 0 pair_built refl both "b" 20 both_over
      both_success refl

-- The first task's hooks run.
abbrev entered : List Move
entered = poll ∷ enter "a" 1 ∷ []

a_hooking : get (run_moves arrow begun entered).pending_futures "a" ≡ some (hooking 1)
unfolding program
a_hooking = refl

raising_hook_hangs_example :
    stops arrow (
      run_moves arrow
        (step arrow (run_moves arrow begun entered) (before_hooks "a" true))
        (poll ∷ poll ∷ []))
    ≡ false
raising_hook_hangs_example =
    raising_hook_hangs insertion_order (pos 0) none pair 0 pair_built refl entered "a"
      (poll ∷ poll ∷ []) a_hooking

-- The first task has failed in an execution before, and the second waits for it still.
abbrev tried : Workflow ℕ
tried = record pair {
  tasks = record (job "a" [] 0) { status = TaskStatus.failed } ∷ job "b" ("a" ∷ []) 5 ∷ [];
}

tried_built : build_dag insertion_order tried.tasks ≡ ok arrow
unfolding program
tried_built = refl

abbrev none_saved : CheckpointStore ℕ
none_saved = []

tried_held : all (is_held_back (checkpoint_of (load_checkpoint none_saved "w1"))) tried.tasks ≡ true
unfolding load_checkpoint
tried_held = refl

resume_forgets_failures_example :
    (dispatch arrow (start_resume (pos 0) none_saved tried 0)
      ≡ start_resume (pos 0) none_saved tried 0)
    × (stops arrow (start_resume (pos 0) none_saved tried 0) ≡ true)
    × ((conclude_resume (start_resume (pos 0) none_saved tried 0) 9).status
        ≡ WorkflowStatus.success)
resume_forgets_failures_example =
    resume_forgets_failures insertion_order (pos 0) none_saved tried tried_built 0 tried_held 9

-- The second task takes the output of the first as its argument `x`.
abbrev piped : Workflow ℕ
piped = record pair {
  tasks = job "a" [] 0 ∷ record (job "b" ("a" ∷ []) 5) { input_map = ("x", "a") ∷ [] } ∷ [];
}

piped_built : build_dag insertion_order piped.tasks ≡ ok arrow
unfolding program
piped_built = refl

-- Up to the hooks of the second task.
abbrev b_entered : List Move
b_entered =
    poll
    ∷ enter "a" 1
    ∷ before_hooks "a" false
    ∷ finish "a" (λ k. runs 7) (λ k. 1000) 9
    ∷ poll
    ∷ enter "b" 10
    ∷ []

abbrev b_ready : Engine ℕ
b_ready = run_moves arrow (start (pos 0) none piped 0) b_entered

b_hooking : get b_ready.pending_futures "b" ≡ some (hooking 10)
unfolding program
b_hooking = refl

abbrev b_task : Task ℕ
b_task = record (job "b" ("a" ∷ []) 5) { status = TaskStatus.running; input_map = ("x", "a") ∷ [] }

b_mapped : get b_ready.task_map "b" ≡ some b_task
unfolding program
b_mapped = refl

execute-arguments_example :
    (kwargs : Dict String (Option ℕ)) × (result : TaskResult ℕ) × (get
        (step arrow b_ready (before_hooks "b" false)).pending_futures
        "b"
      ≡ some (invoking 10 kwargs))
    × (get b_ready.results "a" ≡ some result)
    × (get kwargs "x" ≡ some result.output)
execute-arguments_example =
    execute-arguments insertion_order (pos 0) none piped 0 piped_built refl b_entered "b" 10 b_task
      "x" "a" b_hooking b_mapped (refl, tt) refl refl

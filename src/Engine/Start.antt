-- ===== src/Engine/Start.antt =====
-- The beginning of an execution of a workflow whose tasks are pending.
use fuzzy_octo_train.Prelude.{
  string_eq, ℕ, ℤ, String, Bool, true, ◌||◌, Option, List, [], ◌∷◌, Dict, get, put, has, contains,
  ◌≡◌, refl, arith, ==_iff, ◌∙◌, sym, has-put, get-put, all,
}
use fuzzy_octo_train.Models.{Task, Workflow}
use fuzzy_octo_train.Dag.{Dag, names}
use fuzzy_octo_train.Dag.Build.{IsBuilt}
use fuzzy_octo_train.Scheduler.{is_pending}
use fuzzy_octo_train.Scheduler.Ready.{IsNamed, pending_at}
use fuzzy_octo_train.Checkpoint.{CheckpointStore}
use fuzzy_octo_train.Engine.Steps.{Move, run_moves}
use fuzzy_octo_train.Engine.Runs.{start, task_map_from}
use fuzzy_octo_train.Engine.Invariant.{IsConsistent, IsNamed-put}
use fuzzy_octo_train.Engine.Moves.{run_moves-IsConsistent}

module _ {V : Type 0} where
  abbrev pub all_pending : List (Task V) → Bool
  all_pending = all (λ task. is_pending task.status)

  record IsFresh (d : Dict String (Task V)) : Type 0 where
    named : IsNamed d
    waiting : (n : String) → pending_at (get d n) ≡ has d n

  task_map_from-IsFresh :
      (tasks : List (Task V)) (d : Dict String (Task V))
      → all_pending tasks ≡ true
      → IsFresh d
      → IsFresh (task_map_from tasks d)
  task_map_from-IsFresh [] d p f = f
  task_map_from-IsFresh (task ∷ tasks) d p f =
      task_map_from-IsFresh tasks (put d task.name task) (ground arith) (record {
        named = IsNamed-put d task.name task f.named refl;
        waiting = λ n. ground (
          arith,
          get-put d task.name n task,
          has-put d task.name n task,
          f.waiting n,
          ==_iff task.name n,
        );
      })

  pub has-task_map_from :
      (tasks : List (Task V)) (d : Dict String (Task V)) (n : String)
      → has (task_map_from tasks d) n ≡ (has d n || contains (names tasks) n)
  has-task_map_from [] d n = ground arith
  has-task_map_from (task ∷ tasks) d n =
      ground (arith, has-task_map_from tasks (put d task.name task) n, has-put d task.name n task)

module _ {V : Type 0} (default_retries : ℤ) (store : Option (CheckpointStore V)) where
  pub start-IsConsistent :
      (workflow : Workflow V) (now : ℕ) {dag : Dag}
      → IsBuilt workflow.tasks dag
      → all_pending workflow.tasks ≡ true
      → IsConsistent dag (start default_retries store workflow now)
  unfolding start
  start-IsConsistent workflow now built p =
      let fresh =
        task_map_from-IsFresh workflow.tasks [] p
          (record { named = λ k task e. cc; waiting = λ n. refl }) in
      record {
        named = fresh.named;
        tracked = λ n. ground (arith, fresh.waiting n);
        known = λ n t. cc;
        mapped = λ n. has-task_map_from workflow.tasks [] n ∙ sym (built.nodes n);
        satisfied = λ n u t e. cc;
        dispatched = λ n f. cc;
      }

  pub run-IsConsistent :
      (workflow : Workflow V) (now : ℕ) (moves : List Move) {dag : Dag}
      → IsBuilt workflow.tasks dag
      → all_pending workflow.tasks ≡ true
      → IsConsistent dag (run_moves dag (start default_retries store workflow now) moves)
  run-IsConsistent workflow now moves built p =
      run_moves-IsConsistent (start default_retries store workflow now) moves built.well_formed
        (start-IsConsistent workflow now built p)

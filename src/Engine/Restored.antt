-- ===== src/Engine/Restored.antt =====
-- What `resume` restores, and which tasks it leaves out.
use fuzzy_octo_train.Prelude.{
  string_eq, ℕ, ℤ, String, Bool, true, false, ◌&&◌, ◌||◌, Option, some, List, [], ◌∷◌, Dict, get,
  put, contains, ◌≡◌, ◌==◌, refl, arith, Option-cases, inl, inr, all, get-put, not, any,
  contains-union, contains-add, add, ◌∙◌, Bool-cases, ==_refl, SetOrder, ok,
}
use fuzzy_octo_train.Models.{Task, TaskStatus, TaskResult, Workflow, WorkflowStatus}
use fuzzy_octo_train.Dag.{Dag, build_dag}
use fuzzy_octo_train.Scheduler.{
  done, is_pending, get_ready_tasks, mark_completed, mark_skipped, is_complete, has_failures,
}
use fuzzy_octo_train.Scheduler.Ready.{IsNamed, pending_at, is_listed, get_ready_tasks_iff}
use fuzzy_octo_train.Dag.Build.{build_dag-ok}
use fuzzy_octo_train.Dag.Dependencies.{depends}
use fuzzy_octo_train.Engine.Invariant.{IsNamed-put}
use fuzzy_octo_train.Engine.Completion.{nothing_listed}
use fuzzy_octo_train.Checkpoint.{CheckpointStore, load_checkpoint}
use fuzzy_octo_train.Engine.{Engine}
use fuzzy_octo_train.Engine.Steps.{dispatch, stops}
use fuzzy_octo_train.Engine.Runs.{start, conclude, task_map_from}
use fuzzy_octo_train.Engine.Resume.{
  set_restored, restore_one, restore, checkpoint_of, start_resume, conclude_resume,
}

abbrev pub is_restored : TaskStatus → Bool
is_restored TaskStatus.success = true
is_restored TaskStatus.skipped = true
is_restored _ = false

any_witness :
    (p : String → Bool) (xs : List String)
    → any p xs ≡ true
    → (a : String) × (contains xs a ≡ true) × (p a ≡ true)
any_witness p [] h = absurd (cc)
any_witness p (x ∷ xs) h = elim (Bool-cases (p x)) [
  | inl good ↦ (x, ground (arith, ==_refl x), good)
  | inr bad ↦ let (a, m, e) = any_witness p xs (ground arith) in (a, ground arith, e)
]

-- Some task of this name is pending.
abbrev pub is_waiting : {V : Type 0} → List (Task V) → String → Bool
is_waiting tasks n = any (λ task. task.name == n && is_pending task.status) tasks

module _ {V : Type 0} where
  -- Restoring makes no task pending, fails none, and starts none.
  record IsQuiet (tasks : List (Task V)) (s : Engine V) : Type 0 where
    named : IsNamed s.task_map
    waiting : (n : String) → pending_at (get s.task_map n) ≡ true → is_waiting tasks n ≡ true
    not_running : s.scheduler.running ≡ []
    not_failed : s.scheduler.failed ≡ []
    no_futures : s.pending_futures ≡ []

  set_restored-named :
      (task_map : Dict String (Task V)) (name : String) (result : TaskResult V)
      → IsNamed task_map
      → IsNamed (set_restored (get task_map name) task_map name result)
  unfolding set_restored
  set_restored-named task_map name result h = elim (Option-cases (get task_map name)) [
    | inl missing ↦ rw missing h
    | inr (task, e) ↦ rw e (
        IsNamed-put task_map name (record task { status = result.status; result = some result }) h
          (h name task e))
  ]

  set_restored-waiting :
      (task_map : Dict String (Task V)) (name : String) (result : TaskResult V) (n : String)
      → is_pending result.status ≡ false
      → pending_at (get (set_restored (get task_map name) task_map name result) n) ≡ true
      → pending_at (get task_map n) ≡ true
  unfolding set_restored
  set_restored-waiting task_map name result n p = elim (Option-cases (get task_map name)) [
    | inl missing ↦ rw missing (λ h. h)
    | inr (task, e) ↦ λ h. ground (
      arith,
      e,
      h,
      get-put task_map name n (record task { status = result.status; result = some result }),
    )
  ]

  module _ (tasks : List (Task V)) where
    restore_one-IsQuiet :
        (s : Engine V) (name : String) (result : TaskResult V) (status : TaskStatus)
        → result.status ≡ status
        → IsQuiet tasks s
        → IsQuiet tasks (restore_one status s name result)
    unfolding restore_one mark_completed mark_skipped
    restore_one-IsQuiet s name result TaskStatus.success e q = record {
      named = set_restored-named s.task_map name result q.named;
      waiting =
          λ n h. q.waiting n (set_restored-waiting s.task_map name result n (ground (arith, e)) h);
      not_running = rw q.not_running refl;
      not_failed = q.not_failed;
      no_futures = q.no_futures;
    }
    restore_one-IsQuiet s name result TaskStatus.skipped e q = record {
      named = set_restored-named s.task_map name result q.named;
      waiting =
          λ n h. q.waiting n (set_restored-waiting s.task_map name result n (ground (arith, e)) h);
      not_running = rw q.not_running refl;
      not_failed = q.not_failed;
      no_futures = q.no_futures;
    }
    restore_one-IsQuiet s name result _ e q = q

    restore-IsQuiet :
        (s : Engine V) (checkpoint : Dict String (TaskResult V))
        → IsQuiet tasks s
        → IsQuiet tasks (restore s checkpoint)
    unfolding restore
    restore-IsQuiet s [] q = q
    restore-IsQuiet s ((name, result) ∷ rest) q =
        restore-IsQuiet (restore_one result.status s name result) rest
          (restore_one-IsQuiet s name result result.status refl q)

  task_map_from-waiting :
      (tasks : List (Task V)) (d : Dict String (Task V)) (n : String)
      → pending_at (get (task_map_from tasks d) n) ≡ true
      → (pending_at (get d n) || is_waiting tasks n) ≡ true
  task_map_from-waiting [] d n h = ground arith
  task_map_from-waiting (task ∷ tasks) d n h =
      ground
        (arith, task_map_from-waiting tasks (put d task.name task) n h, get-put d task.name n task)

  task_map_from-named :
      (tasks : List (Task V)) (d : Dict String (Task V))
      → IsNamed d
      → IsNamed (task_map_from tasks d)
  task_map_from-named [] d h = h
  task_map_from-named (task ∷ tasks) d h =
      task_map_from-named tasks (put d task.name task) (IsNamed-put d task.name task h refl)

  start-IsQuiet :
      (default_retries : ℤ) (store : Option (CheckpointStore V)) (workflow : Workflow V) (now : ℕ)
      → IsQuiet workflow.tasks (start default_retries store workflow now)
  unfolding start
  start-IsQuiet default_retries store workflow now = record {
    named = task_map_from-named workflow.tasks [] (λ k task e. absurd (cc));
    waiting = λ n h. task_map_from-waiting workflow.tasks [] n h;
    not_running = refl;
    not_failed = refl;
    no_futures = refl;
  }

  IsQuiet-status :
      (tasks : List (Task V)) (s : Engine V) (now : ℕ)
      → IsQuiet tasks s
      → (conclude_resume s now).status ≡ WorkflowStatus.success
  unfolding conclude_resume conclude has_failures
  IsQuiet-status tasks s now q = rw q.not_failed refl

  -- Is there a success or a skipping of this task in the checkpoint?
  abbrev pub restores : Dict String (TaskResult V) → String → Bool
  restores checkpoint n = any (λ (name, result). is_restored result.status && name == n) checkpoint

  done-restore_one :
      (s : Engine V) (name : String) (result : TaskResult V) (status : TaskStatus) (n : String)
      → contains (done (restore_one status s name result).scheduler) n
        ≡ (contains (done s.scheduler) n || is_restored status && name == n)
  unfolding restore_one mark_completed mark_skipped
  done-restore_one s name result TaskStatus.success n = ground (
    arith,
    contains-union s.scheduler.completed s.scheduler.skipped n,
    contains-union (add s.scheduler.completed name) s.scheduler.skipped n,
    contains-add s.scheduler.completed name n,
  )
  done-restore_one s name result TaskStatus.skipped n = ground (
    arith,
    contains-union s.scheduler.completed s.scheduler.skipped n,
    contains-union s.scheduler.completed (add s.scheduler.skipped name) n,
    contains-add s.scheduler.skipped name n,
  )
  done-restore_one s name result _ n = ground arith

  done-restore :
      (s : Engine V) (checkpoint : Dict String (TaskResult V)) (n : String)
      → contains (done (restore s checkpoint).scheduler) n
        ≡ (contains (done s.scheduler) n || restores checkpoint n)
  unfolding restore
  done-restore s [] n = ground arith
  done-restore s ((name, result) ∷ rest) n = ground (
    arith,
    done-restore (restore_one result.status s name result) rest n,
    done-restore_one s name result result.status n,
  )

  -- When the loop of `resume` begins, the tasks that count as completed or skipped are exactly those
  -- with a success or a skipping in the checkpoint of the workflow.
  pub start_resume-done :
      (default_retries : ℤ) (store : CheckpointStore V) (workflow : Workflow V) (now : ℕ)
      (n : String)
      → contains (done (start_resume default_retries store workflow now).scheduler) n
        ≡ restores (checkpoint_of (load_checkpoint store workflow.id)) n
  unfolding start_resume start
  start_resume-done default_retries store workflow now n =
      done-restore (start default_retries (some store) workflow now)
        (checkpoint_of (load_checkpoint store workflow.id)) n

  -- A pending task has a dependency that the checkpoint does not restore.
  abbrev pub is_held_back : Dict String (TaskResult V) → Task V → Bool
  is_held_back checkpoint task =
      not (is_pending task.status) || any (λ dep. not (restores checkpoint dep)) task.depends_on

  held_back :
      (checkpoint : Dict String (TaskResult V)) (tasks : List (Task V)) (n : String)
      → all (is_held_back checkpoint) tasks ≡ true
      → is_waiting tasks n ≡ true
      → (dep : String) × (depends tasks dep n ≡ true) × (restores checkpoint dep ≡ false)
  held_back checkpoint [] n a h = absurd (cc)
  held_back checkpoint (task ∷ tasks) n a h =
      elim (Bool-cases (task.name == n && is_pending task.status)) [
        | inl here ↦
            let (dep, m, e) =
              any_witness (λ dep. not (restores checkpoint dep)) task.depends_on (ground arith) in
            (dep, ground arith, ground arith)
        | inr other ↦
            let (dep, d, e) = held_back checkpoint tasks n (ground arith) (ground arith) in
            (dep, ground arith, e)
      ]

  module _ (σ : SetOrder) (default_retries : ℤ) (store : CheckpointStore V) (workflow : Workflow V)
      {dag : Dag} (built : build_dag σ workflow.tasks ≡ ok dag) (now : ℕ)
      (held : all (is_held_back (checkpoint_of (load_checkpoint store workflow.id))) workflow.tasks
        ≡ true) where
    abbrev resumed : Engine V
    resumed = start_resume default_retries store workflow now

    resumed-IsQuiet : IsQuiet workflow.tasks resumed
    unfolding start_resume
    resumed-IsQuiet =
        restore-IsQuiet workflow.tasks (start default_retries (some store) workflow now)
          (checkpoint_of (load_checkpoint store workflow.id))
          (start-IsQuiet default_retries (some store) workflow now)

    none_listed :
        (n : String) → is_listed (get_ready_tasks resumed.scheduler dag resumed.task_map) n ≡ false
    none_listed n =
        elim (Bool-cases (is_listed (get_ready_tasks resumed.scheduler dag resumed.task_map) n)) [
          | inr out ↦ out
          | inl listed ↦
              let (shape, rank) = build_dag-ok σ workflow.tasks built in
              let ((known, fresh, below), free) =
                (get_ready_tasks_iff resumed.scheduler resumed.task_map resumed-IsQuiet.named
                    shape.well_formed n).0
                  listed in
              let (dep, d, lost) =
                held_back (checkpoint_of (load_checkpoint store workflow.id)) workflow.tasks n held
                  (resumed-IsQuiet.waiting n (ground arith)) in
              let over = below dep (shape.edges dep n ∙ d) in
              absurd (ground (arith, start_resume-done default_retries store workflow now dep))
        ]

    idle-stops : dispatch dag resumed ≡ resumed → stops dag resumed ≡ true
    unfolding stops is_complete
    idle-stops e = rw (e, resumed-IsQuiet.no_futures, resumed-IsQuiet.not_running) refl

    -- If every task of the workflow object that is pending has a dependency without a success or a
    -- skipping in the checkpoint, as the dependents of a task that has failed have, the loop of `resume`
    -- starts no task and ends, and the workflow is reported as a success.
    pub resume_forgets_failures :
        (finished : ℕ)
        → (dispatch dag (start_resume default_retries store workflow now)
            ≡ start_resume default_retries store workflow now)
          × (stops dag (start_resume default_retries store workflow now) ≡ true)
          × ((conclude_resume (start_resume default_retries store workflow now) finished).status
              ≡ WorkflowStatus.success)
    unfolding dispatch
    resume_forgets_failures finished =
        let idle =
          nothing_listed resumed (get_ready_tasks resumed.scheduler dag resumed.task_map)
            none_listed in
        (idle, idle-stops idle, IsQuiet-status workflow.tasks resumed finished resumed-IsQuiet)

-- ===== src/Engine/Active.antt =====
-- The tasks whose futures have not come to a result, in each stretch of `_execute_task`.
use fuzzy_octo_train.Prelude.{
  string_eq, ℕ, String, Bool, true, false, Option, none, some, List, Dict, get, put, pop, contains,
  ◌≡◌, refl, arith, ==_iff, contains-discard, get-put, get-pop, discard,
}
use fuzzy_octo_train.Models.{Task, TaskResult, Outcome, returned, raised}
use fuzzy_octo_train.Scheduler.{mark_completed, mark_failed, mark_skipped}
use fuzzy_octo_train.Engine.{Engine, Phase, spawned, hooking, invoking, closing}
use fuzzy_octo_train.Engine.Steps.{enter_task, hooks_done, fail_task, invoked, saved, skip_saved}

module _ {V : Type 0} where
  -- Before the task's result.
  abbrev pub is_active : Option (Phase V) → Bool
  is_active (some spawned) = true
  is_active (some (hooking started)) = true
  is_active (some (invoking started kwargs)) = true
  is_active _ = false

  -- No task that has no result is lost.
  abbrev pub IsActive : Engine V → Type 0
  IsActive s =
      (n : String)
      → is_active (get s.pending_futures n) ≡ true
      → contains s.scheduler.running n ≡ true

  -- The next phase of a task that goes on, or that has its result.
  goes_on :
      (futures : Dict String (Phase V)) (running : List String) (name : String) (phase : Phase V)
      → ((n : String) → is_active (get futures n) ≡ true → contains running n ≡ true)
      → is_active (get futures name) ≡ true
      → (n : String) → is_active (get (put futures name phase) n) ≡ true
      → contains running n ≡ true
  goes_on futures running name phase h a n e =
      ground (arith, get-put futures name n phase, h n, ==_iff name n)

  has_result :
      (futures : Dict String (Phase V)) (running : List String) (name : String) (phase : Phase V)
      → ((n : String) → is_active (get futures n) ≡ true → contains running n ≡ true)
      → is_active (some phase) ≡ false
      → (n : String) → is_active (get (put futures name phase) n) ≡ true
      → contains (discard running name) n ≡ true
  has_result futures running name phase h a n e = ground (
    arith,
    get-put futures name n phase,
    h n,
    ==_iff name n,
    ==_iff n name,
    contains-discard running name n,
  )

  closes :
      (futures : Dict String (Phase V)) (running : List String) (name : String) (phase : Phase V)
      → ((n : String) → is_active (get futures n) ≡ true → contains running n ≡ true)
      → is_active (some phase) ≡ false
      → (n : String) → is_active (get (put futures name phase) n) ≡ true
      → contains running n ≡ true
  closes futures running name phase h a n e =
      ground (arith, get-put futures name n phase, h n, ==_iff name n)

  pub ends :
      (futures : Dict String (Phase V)) (running : List String) (name : String)
      → ((n : String) → is_active (get futures n) ≡ true → contains running n ≡ true)
      → (n : String) → is_active (get (pop futures name) n) ≡ true
      → contains running n ≡ true
  ends futures running name h n e = ground (arith, get-pop futures name n, h n, ==_iff name n)

  module _ (s : Engine V) (task : Task V) (h : IsActive s) where
    fail_task-IsActive :
        (started : ℕ) (error : String) (now : ℕ) → IsActive (fail_task s task started error now)
    unfolding fail_task mark_failed
    fail_task-IsActive started error now =
        has_result s.pending_futures s.scheduler.running task.name closing h refl

    pub enter_task-IsActive :
        (answer : Option Bool) (now : ℕ)
        → is_active (get s.pending_futures task.name) ≡ true
        → IsActive (enter_task s task answer now)
    unfolding enter_task mark_skipped
    enter_task-IsActive none now a = ends s.pending_futures s.scheduler.running task.name h
    enter_task-IsActive (some false) now a =
        has_result s.pending_futures s.scheduler.running task.name _ h refl
    enter_task-IsActive (some true) now a =
        goes_on s.pending_futures s.scheduler.running task.name (hooking now) h a

    pub hooks_done-IsActive :
        (started : ℕ) (raises : Bool)
        → is_active (get s.pending_futures task.name) ≡ true
        → IsActive (hooks_done s task started raises)
    unfolding hooks_done
    hooks_done-IsActive started true a = ends s.pending_futures s.scheduler.running task.name h
    hooks_done-IsActive started false a =
        goes_on s.pending_futures s.scheduler.running task.name _ h a

    pub invoked-IsActive :
        (started : ℕ) (outcome : Outcome V) (now : ℕ)
        → IsActive (invoked s task started outcome now)
    unfolding invoked mark_completed
    invoked-IsActive started (raised error) now = fail_task-IsActive started error now
    invoked-IsActive started (returned output) now =
        has_result s.pending_futures s.scheduler.running task.name _ h refl

    pub saved-IsActive :
        (started : ℕ) (result : TaskResult V) (error : Option String) (now : ℕ)
        → IsActive (saved s task started result error now)
    unfolding saved
    saved-IsActive started result (some error) now = fail_task-IsActive started error now
    saved-IsActive started result none now =
        closes s.pending_futures s.scheduler.running task.name closing h refl

    pub skip_saved-IsActive :
        (result : TaskResult V) (error : Option String) → IsActive (skip_saved s task result error)
    unfolding skip_saved
    skip_saved-IsActive result (some error) = ends s.pending_futures s.scheduler.running task.name h
    skip_saved-IsActive result none = ends s.pending_futures s.scheduler.running task.name h

-- ===== src/Engine/Moves.antt =====
-- The moves of a task, and what they keep.
use fuzzy_octo_train.Prelude.{
  string_eq, ℕ, String, Bool, true, false, Option, none, some, List, [], ◌∷◌, Dict, get, has, ◌≡◌,
  refl, arith, Option-cases, ◌⊎◌, inl, inr, sym, get-has, subst,
}
use fuzzy_octo_train.Models.{Task, TaskResult, Outcome, returned, raised, duration}
use fuzzy_octo_train.Dag.{Dag}
use fuzzy_octo_train.Dag.Invariant.{IsWellFormed}
use fuzzy_octo_train.Scheduler.{Scheduler, is_pending, mark_completed, mark_failed, mark_skipped}
use fuzzy_octo_train.Scheduler.Ready.{pending_at}
use fuzzy_octo_train.Events.{
  EventType, PayloadValue, text, duration_ms, task_started, task_completed, task_failed,
  task_skipped,
}
use fuzzy_octo_train.Engine.{
  Engine, Phase, spawned, hooking, invoking, saving, skipping, closing, Attempt, publish_event,
  settle_task, goto, skipped_result, success_result, failed_result, invoke, build_kwargs,
}
use fuzzy_octo_train.Engine.Steps.{
  enter_task, hooks_done, fail_task, invoked, saved, skip_saved, with_checkpoint, evaluate,
  step_enter, step_hooks, step_finish, step_save, step_close, Move, poll, enter, before_hooks,
  finish, save, close, at_task, step, dispatch, run_moves,
}
use fuzzy_octo_train.Engine.Invariant.{
  touched, IsConsistent, Advances, Advances-refl, Advances-trans, Advances-IsConsistent,
  goto-Advances, end_future-Advances, settle-Advances, Marks, mark_completed-Marks,
  mark_failed-Marks, mark_skipped-Marks,
}
use fuzzy_octo_train.Engine.Dispatch.{dispatch-IsConsistent}

-- The task has been dispatched, and its future is not done.
record IsActive {V : Type 0} (s : Engine V) (task : Task V) : Type 0 where
  future : has s.pending_futures task.name ≡ true
  known : has s.task_map task.name ≡ true
  fixed : pending_at (get s.task_map task.name) ≡ false
  touch : touched s.scheduler task.name ≡ true

module _ {V : Type 0} where
  active :
      {dag : Dag} {s : Engine V}
      → IsConsistent dag s
      → (name : String) (phase : Phase V) (task : Task V) → get s.pending_futures name ≡ some phase
      → get s.task_map name ≡ some task
      → IsActive s task
  active {s = s} c name phase task f t =
      let e = c.named name task t in
      let future = get-has s.pending_futures name phase f in
      let known = get-has s.task_map name task t in
      let touch = c.dispatched name future in
      record {
        future = subst (λ n. has s.pending_futures n ≡ true) (sym e) future;
        known = subst (λ n. has s.task_map n ≡ true) (sym e) known;
        fixed =
            subst (λ n. pending_at (get s.task_map n) ≡ false) (sym e)
              (ground (arith, c.tracked name));
        touch = subst (λ n. touched s.scheduler n ≡ true) (sym e) touch;
      }

  -- The bus and the checkpoint store are no part of what a move has to keep.
  publish-Advances :
      (s : Engine V) (event_type : EventType) (more : Dict String PayloadValue) (now : ℕ)
      → Advances s (publish_event s event_type more now)
  publish-Advances s event_type more now = record {
    names = λ h. h;
    touches = λ n. refl;
    tasks = λ n. refl;
    pendings = λ n. refl;
    dones = λ n h. h;
    futures = λ n h. h;
    runs = λ n h. refl;
  }

  checkpoint-Advances :
      (s : Engine V) (task : Task V) (result : TaskResult V)
      → Advances s (with_checkpoint s task result)
  checkpoint-Advances s task result = record {
    names = λ h. h;
    touches = λ n. refl;
    tasks = λ n. refl;
    pendings = λ n. refl;
    dones = λ n h. h;
    futures = λ n h. h;
    runs = λ n h. refl;
  }

  module _ (s : Engine V) (task : Task V) (a : IsActive s task) where
    -- A result, its event, and the next phase.
    settled-Advances :
        (result : TaskResult V) (scheduler : Scheduler) (event_type : EventType)
        (more : Dict String PayloadValue) (now : ℕ) (phase : Phase V)
        → Marks s.scheduler scheduler task.name
        → is_pending result.status ≡ false
        → Advances s (
            goto
              (publish_event (settle_task s task result scheduler) event_type more now)
              task
              phase)
    settled-Advances result scheduler event_type more now phase m p =
        let settled = settle_task s task result scheduler in
        Advances-trans
          (settle-Advances s task result scheduler m a.known a.fixed a.touch p a.future)
          (Advances-trans (publish-Advances settled event_type more now)
            (goto-Advances (publish_event settled event_type more now) task phase a.future))

    fail_task-Advances :
        (started : ℕ) (error : String) (now : ℕ) → Advances s (fail_task s task started error now)
    unfolding fail_task
    fail_task-Advances started error now =
        settled-Advances (failed_result task error started now) (mark_failed s.scheduler task.name)
          task_failed (("task_name", text task.name) ∷ ("error", text error) ∷ []) now closing
          (mark_failed-Marks s.scheduler task.name) refl

    enter_task-Advances :
        (answer : Option Bool) (now : ℕ) → Advances s (enter_task s task answer now)
    unfolding enter_task
    enter_task-Advances none now = end_future-Advances s task
    enter_task-Advances (some false) now =
        settled-Advances (skipped_result task now now) (mark_skipped s.scheduler task.name)
          task_skipped (("task_name", text task.name) ∷ []) now
          (skipping (skipped_result task now now)) (mark_skipped-Marks s.scheduler task.name) refl
    enter_task-Advances (some true) now =
        let more : Dict String PayloadValue =
          ("task_id", text task.id) ∷ ("task_name", text task.name) ∷ [] in
        Advances-trans (publish-Advances s task_started more now)
          (goto-Advances (publish_event s task_started more now) task (hooking now) a.future)

    hooks_done-Advances :
        (started : ℕ) (raises : Bool) → Advances s (hooks_done s task started raises)
    unfolding hooks_done
    hooks_done-Advances started true = end_future-Advances s task
    hooks_done-Advances started false =
        goto-Advances s task (invoking started (build_kwargs s.results task.input_map [])) a.future

    invoked-Advances :
        (started : ℕ) (outcome : Outcome V) (now : ℕ)
        → Advances s (invoked s task started outcome now)
    unfolding invoked
    invoked-Advances started (raised error) now = fail_task-Advances started error now
    invoked-Advances started (returned output) now =
        let result = success_result task output started now in
        settled-Advances result (mark_completed s.scheduler task.name) task_completed
          (("task_name", text task.name) ∷ ("duration_ms", duration_ms (duration result)) ∷ []) now
          (saving started result) (mark_completed-Marks s.scheduler task.name) refl

    saved-Advances :
        (started : ℕ) (result : TaskResult V) (error : Option String) (now : ℕ)
        → Advances s (saved s task started result error now)
    unfolding saved
    saved-Advances started result (some error) now = fail_task-Advances started error now
    saved-Advances started result none now =
        Advances-trans (checkpoint-Advances s task result)
          (goto-Advances (with_checkpoint s task result) task closing a.future)

    skip_saved-Advances :
        (result : TaskResult V) (error : Option String)
        → Advances s (skip_saved s task result error)
    unfolding skip_saved
    skip_saved-Advances result (some error) = end_future-Advances s task
    skip_saved-Advances result none =
        Advances-trans (checkpoint-Advances s task result)
          (end_future-Advances (with_checkpoint s task result) task)

  at_task-Advances :
      {dag : Dag} (s : Engine V) (name : String) (continue : Phase V → Task V → Engine V)
      → IsConsistent dag s
      → ((phase : Phase V) (task : Task V) → IsActive s task → Advances s (continue phase task))
      → Advances s (at_task s name continue)
  at_task-Advances s name continue c h = elim (Option-cases (get s.pending_futures name)) [
    | inl missing ↦ rw (at_task, missing) (Advances-refl s)
    | inr (phase, f) ↦ elim (Option-cases (get s.task_map name)) [
      | inl missing ↦ rw (at_task, f, missing) (Advances-refl s)
      | inr (task, t) ↦ rw (at_task, f, t) (h phase task (active c name phase task f t))
    ]
  ]

  module _ (s : Engine V) (task : Task V) (a : IsActive s task) where
    step_enter-Advances : (phase : Phase V) (now : ℕ) → Advances s (step_enter phase s task now)
    unfolding step_enter
    step_enter-Advances spawned now = enter_task-Advances s task a (evaluate s task) now
    step_enter-Advances _ now = Advances-refl s

    step_hooks-Advances :
        (phase : Phase V) (raises : Bool) → Advances s (step_hooks phase s task raises)
    unfolding step_hooks
    step_hooks-Advances (hooking started) raises = hooks_done-Advances s task a started raises
    step_hooks-Advances _ raises = Advances-refl s

    step_finish-Advances :
        (phase : Phase V) (attempt : ℕ → Attempt) (factor : ℕ → ℕ) (now : ℕ)
        → Advances s (step_finish phase s task attempt factor now)
    unfolding step_finish
    step_finish-Advances (invoking started kwargs) attempt factor now =
        invoked-Advances s task a started (invoke s task kwargs attempt factor) now
    step_finish-Advances _ attempt factor now = Advances-refl s

    step_save-Advances :
        (phase : Phase V) (error : Option String) (now : ℕ)
        → Advances s (step_save phase s task error now)
    unfolding step_save
    step_save-Advances (saving started result) error now =
        saved-Advances s task a started result error now
    step_save-Advances (skipping result) error now = skip_saved-Advances s task a result error
    step_save-Advances _ error now = Advances-refl s

    step_close-Advances : (phase : Phase V) → Advances s (step_close phase s task)
    unfolding step_close
    step_close-Advances closing = end_future-Advances s task
    step_close-Advances _ = Advances-refl s

  -- A move is an iteration of the loop, or it advances one task.
  pub step-cases :
      {dag : Dag} (s : Engine V) (move : Move)
      → IsConsistent dag s
      → Advances s (step dag s move) ⊎ (step dag s move ≡ dispatch dag s)
  unfolding step
  step-cases s poll c = inr refl
  step-cases s (enter name now) c =
      inl (at_task-Advances s name _ c (λ phase task a. step_enter-Advances s task a phase now))
  step-cases s (before_hooks name raises) c =
      inl (at_task-Advances s name _ c (λ phase task a. step_hooks-Advances s task a phase raises))
  step-cases s (finish name attempt factor now) c = inl (
      at_task-Advances s name _ c
        (λ phase task a. step_finish-Advances s task a phase attempt factor now))
  step-cases s (save name error now) c =
      inl
        (at_task-Advances s name _ c (λ phase task a. step_save-Advances s task a phase error now))
  step-cases s (close name) c =
      inl (at_task-Advances s name _ c (λ phase task a. step_close-Advances s task a phase))

  pub step-IsConsistent :
      {dag : Dag} (s : Engine V) (move : Move)
      → IsWellFormed dag
      → IsConsistent dag s
      → IsConsistent dag (step dag s move)
  step-IsConsistent {dag} s move w c = elim (step-cases s move c) [
    | inl a ↦ Advances-IsConsistent a c
    | inr e ↦ subst (IsConsistent dag) (sym e) (dispatch-IsConsistent s w c)
  ]

  pub run_moves-IsConsistent :
      {dag : Dag} (s : Engine V) (moves : List Move)
      → IsWellFormed dag
      → IsConsistent dag s
      → IsConsistent dag (run_moves dag s moves)
  unfolding run_moves
  run_moves-IsConsistent s [] w c = c
  run_moves-IsConsistent {dag} s (move ∷ moves) w c =
      run_moves-IsConsistent (step dag s move) moves w (step-IsConsistent s move w c)

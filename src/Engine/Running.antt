-- ===== src/Engine/Running.antt =====
-- The tasks whose futures have not come to a result, over the moves of an execution.
use fuzzy_octo_train.Prelude.{
  string_eq, ℕ, String, Bool, Option, some, List, [], ◌∷◌, get, ◌≡◌, arith, ==_iff, Option-cases,
  inl, inr, sym, contains-add, get-put, subst,
}
use fuzzy_octo_train.Models.{Task}
use fuzzy_octo_train.Dag.{Dag}
use fuzzy_octo_train.Scheduler.{mark_running, get_ready_tasks}
use fuzzy_octo_train.Engine.{
  Engine, Phase, spawned, hooking, invoking, saving, skipping, closing, Attempt, invoke,
}
use fuzzy_octo_train.Engine.Steps.{
  evaluate, step_enter, step_hooks, step_finish, step_save, step_close, Move, poll, enter,
  before_hooks, finish, save, close, at_task, step, dispatch, run_moves, spawn, spawn_one,
}
use fuzzy_octo_train.Dag.Invariant.{IsWellFormed}
use fuzzy_octo_train.Engine.Invariant.{IsConsistent}
use fuzzy_octo_train.Engine.Moves.{step-IsConsistent}
use fuzzy_octo_train.Engine.Active.{
  IsActive, ends, enter_task-IsActive, hooks_done-IsActive, invoked-IsActive, saved-IsActive,
  skip_saved-IsActive,
}

module _ {V : Type 0} where
  spawn_one-IsActive : (s : Engine V) (task : Task V) → IsActive s → IsActive (spawn_one s task)
  unfolding spawn_one mark_running
  spawn_one-IsActive s task h n e =
      let here : Phase V = spawned in
      ground (
        arith,
        get-put s.pending_futures task.name n here,
        h n,
        ==_iff task.name n,
        contains-add s.scheduler.running task.name n,
      )

  spawn-IsActive : (s : Engine V) (ready : List (Task V)) → IsActive s → IsActive (spawn s ready)
  unfolding spawn
  spawn-IsActive s [] h = h
  spawn-IsActive s (task ∷ rest) h =
      spawn-IsActive (spawn_one s task) rest (spawn_one-IsActive s task h)

  at_task-IsActive :
      {dag : Dag} (s : Engine V) (name : String) (continue : Phase V → Task V → Engine V)
      → IsConsistent dag s
      → IsActive s
      → ((phase : Phase V) (task : Task V)
          → get s.pending_futures task.name ≡ some phase
          → IsActive (continue phase task))
      → IsActive (at_task s name continue)
  at_task-IsActive s name continue c h k = elim (Option-cases (get s.pending_futures name)) [
    | inl missing ↦ rw (at_task, missing) h
    | inr (phase, f) ↦ elim (Option-cases (get s.task_map name)) [
      | inl missing ↦ rw (at_task, f, missing) h
      | inr (task, t) ↦
          rw (at_task, f, t)
            (k phase task
              (subst (λ n. get s.pending_futures n ≡ some phase) (sym (c.named name task t)) f))
    ]
  ]

  module _ (s : Engine V) (task : Task V) (h : IsActive s) where
    step_enter-IsActive :
        (phase : Phase V) (now : ℕ)
        → get s.pending_futures task.name ≡ some phase
        → IsActive (step_enter phase s task now)
    unfolding step_enter
    step_enter-IsActive spawned now f =
        enter_task-IsActive s task h (evaluate s task) now (ground (arith, f))
    step_enter-IsActive _ now f = h

    step_hooks-IsActive :
        (phase : Phase V) (raises : Bool)
        → get s.pending_futures task.name ≡ some phase
        → IsActive (step_hooks phase s task raises)
    unfolding step_hooks
    step_hooks-IsActive (hooking started) raises f =
        hooks_done-IsActive s task h started raises (ground (arith, f))
    step_hooks-IsActive _ raises f = h

    step_finish-IsActive :
        (phase : Phase V) (attempt : ℕ → Attempt) (factor : ℕ → ℕ) (now : ℕ)
        → IsActive (step_finish phase s task attempt factor now)
    unfolding step_finish
    step_finish-IsActive (invoking started kwargs) attempt factor now =
        invoked-IsActive s task h started (invoke s task kwargs attempt factor) now
    step_finish-IsActive _ attempt factor now = h

    step_save-IsActive :
        (phase : Phase V) (error : Option String) (now : ℕ)
        → IsActive (step_save phase s task error now)
    unfolding step_save
    step_save-IsActive (saving started result) error now =
        saved-IsActive s task h started result error now
    step_save-IsActive (skipping result) error now = skip_saved-IsActive s task h result error
    step_save-IsActive _ error now = h

    step_close-IsActive : (phase : Phase V) → IsActive (step_close phase s task)
    unfolding step_close
    step_close-IsActive closing = ends s.pending_futures s.scheduler.running task.name h
    step_close-IsActive _ = h

  step-IsActive :
      {dag : Dag} (s : Engine V) (move : Move)
      → IsConsistent dag s
      → IsActive s
      → IsActive (step dag s move)
  unfolding step dispatch
  step-IsActive {dag} s poll c h = spawn-IsActive s (get_ready_tasks s.scheduler dag s.task_map) h
  step-IsActive s (enter name now) c h =
      at_task-IsActive s name _ c h (λ phase task f. step_enter-IsActive s task h phase now f)
  step-IsActive s (before_hooks name raises) c h =
      at_task-IsActive s name _ c h (λ phase task f. step_hooks-IsActive s task h phase raises f)
  step-IsActive s (finish name attempt factor now) c h =
      at_task-IsActive s name _ c h
        (λ phase task f. step_finish-IsActive s task h phase attempt factor now)
  step-IsActive s (save name error now) c h =
      at_task-IsActive s name _ c h (λ phase task f. step_save-IsActive s task h phase error now)
  step-IsActive s (close name) c h =
      at_task-IsActive s name _ c h (λ phase task f. step_close-IsActive s task h phase)

  pub run_moves-IsActive :
      {dag : Dag} (s : Engine V) (moves : List Move)
      → IsWellFormed dag
      → IsConsistent dag s
      → IsActive s
      → IsActive (run_moves dag s moves)
  unfolding run_moves
  run_moves-IsActive s [] w c h = h
  run_moves-IsActive {dag} s (move ∷ moves) w c h =
      run_moves-IsActive (step dag s move) moves w (step-IsConsistent s move w c)
        (step-IsActive s move c h)

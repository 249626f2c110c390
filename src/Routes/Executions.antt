-- ===== src/Routes/Executions.antt =====
-- The background tasks of src/flowmesh/api/routes.py over time.
use fuzzy_octo_train.Prelude.{
  string_eq, nat_eq, ℕ, String, true, false, Option, none, some, List, [], ◌∷◌, Dict, get, put, pop,
  has, ◌≡◌, ◌==◌, refl, ==_iff, get-put, arith, Bool-cases, Option-cases, inl, inr, SetOrder,
  Result-cases,
}
use fuzzy_octo_train.Models.{TaskResult, Workflow}
use fuzzy_octo_train.Dag.{build_dag}
use fuzzy_octo_train.Store.Contract.{WorkflowStore}
use fuzzy_octo_train.Schemas.{WorkflowCreate, is_valid}
use fuzzy_octo_train.Routes.{
  Router, Stage, created, executing, cancelling, finished, Move, create, execute, background,
  request, finish, step, create_workflow, execute_workflow, run_background, request_cancel,
  finish_cancel, is_finished, enter_background, leave_background, cancel_stage,
}
use fuzzy_octo_train.Routes.Responses.{submitted}
use fuzzy_octo_train.Routes.Tracking.{
  IsTracked, is_live, IsTracked-register, IsTracked-stage, IsTracked-pop,
}

module _ {V : Type 0} where
  finished-dead :
      (id : String) (stage : Stage V)
      → is_finished (some (id, stage)) ≡ true
      → is_live stage ≡ false
  finished-dead id created e = cc
  finished-dead id (executing wf) e = cc
  finished-dead id (cancelling entered) e = cc
  finished-dead id finished e = refl

  -- Two tasks with one entry are the same.
  over_lem :
      {entry : Option ℕ} {h k : ℕ} (stage : Stage V)
      → entry ≡ some h
      → (is_live stage ≡ true → entry ≡ some k)
      → (h == k) ≡ false
      → is_live stage ≡ false
  over_lem {h = h} {k = k} stage e f other = elim (Bool-cases (is_live stage)) [
    | inr dead ↦ dead
    | inl live ↦ ground (arith, f live, ==_iff h k)
  ]

  live-cancel_stage : (stage : Stage V) → is_live (cancel_stage stage) ≡ true → is_live stage ≡ true
  live-cancel_stage created e = refl
  live-cancel_stage (executing wf) e = refl
  live-cancel_stage (cancelling entered) e = refl
  live-cancel_stage finished e = e

module _ {V : Type 0} {o : WorkflowStore V} where
  abbrev pub IsSound : Router o → Type 0
  IsSound s = IsTracked s.running_workflows s.tasks

  module _ (s : Router o) (t : IsSound s) where
    -- The end of a task that had not finished takes away its own entry.
    IsSound-end :
        (h : ℕ) (id : String) (stage : Stage V)
        → get s.tasks h ≡ some (id, stage)
        → is_live stage ≡ true
        → IsTracked (pop s.running_workflows id) (put s.tasks h (id, finished))
    IsSound-end h id stage e live =
        IsTracked-pop (IsTracked-stage t h id stage finished e (λ f. live)) id (λ k st f.
          elim (Bool-cases (h == k)) [
            | inl here ↦ ground (arith, get-put s.tasks h k (id, finished), ==_iff h k)
            | inr other ↦
                over_lem st (t.tracked id h stage e live)
                  (t.tracked id k st (ground (arith, get-put s.tasks h k (id, finished)))) other
          ])

    IsSound-create :
        (σ : SetOrder) (nothing : V) (fresh : ℕ → String) (body : WorkflowCreate V) (id : String)
        (now : ℕ)
        → IsSound (create_workflow o σ nothing fresh s body id now).1
    unfolding create_workflow
    IsSound-create σ nothing fresh body id now = elim (Bool-cases (is_valid body)) [
      | inr bad ↦ rw bad t
      | inl good ↦ elim (Result-cases (build_dag σ (submitted nothing fresh body id now).tasks)) [
        | inl (g, accepted) ↦ rw (good, accepted) t
        | inr (exception, refused) ↦ rw (good, refused) t
      ]
    ]

    IsSound-execute : (id : String) → IsSound (execute_workflow o s id).1
    unfolding execute_workflow
    IsSound-execute id = elim (Option-cases (o.find s.store id)) [
      | inl missing ↦ rw (execute_workflow, missing) t
      | inr (wf, there) ↦ elim (Bool-cases (has s.running_workflows id)) [
        | inl running ↦ rw (execute_workflow, there, running) t
        | inr waiting ↦ rw (execute_workflow, there, waiting) (IsTracked-register t id waiting)
      ]
    ]

    IsSound-enter :
        (h : ℕ) (id : String)
        → get s.tasks h ≡ some (id, created)
        → IsSound (enter_background o s h id)
    unfolding enter_background
    IsSound-enter h id e = elim (Option-cases (o.find s.store id)) [
      | inl missing ↦ rw (enter_background, missing) (IsSound-end h id created e refl)
      | inr (wf, there) ↦
          rw (enter_background, there) (IsTracked-stage t h id created (executing wf) e (λ f. refl))
    ]

    IsSound-leave :
        (h : ℕ) (id : String) (wf : Workflow V) (outcome : Option (Dict String (TaskResult V)))
        → get s.tasks h ≡ some (id, executing wf)
        → IsSound (leave_background o s h id outcome)
    unfolding leave_background
    IsSound-leave h id wf none e = IsSound-end h id (executing wf) e refl
    IsSound-leave h id wf (some results) e = IsSound-end h id (executing wf) e refl

    IsSound-staged :
        (h : ℕ) (id : String) (stage : Stage V) (outcome : Option (Dict String (TaskResult V)))
        → get s.tasks h ≡ some (id, stage)
        → IsSound (run_background o s h outcome)
    unfolding run_background
    IsSound-staged h id created outcome e = rw (run_background, e) (IsSound-enter h id e)
    IsSound-staged h id (executing wf) outcome e =
        rw (run_background, e) (IsSound-leave h id wf outcome e)
    IsSound-staged h id (cancelling true) outcome e =
        rw (run_background, e) (IsSound-end h id (cancelling true) e refl)
    IsSound-staged h id (cancelling false) outcome e =
        rw (run_background, e) (IsTracked-stage t h id (cancelling false) finished e (λ f. refl))
    IsSound-staged h id finished outcome e = rw (run_background, e) t

    IsSound-background :
        (h : ℕ) (outcome : Option (Dict String (TaskResult V)))
        → IsSound (run_background o s h outcome)
    unfolding run_background
    IsSound-background h outcome = elim (Option-cases (get s.tasks h)) [
      | inl missing ↦ rw (run_background, missing) t
      | inr ((id, stage), e) ↦ IsSound-staged h id stage outcome e
    ]

    IsSound-request : (id : String) → IsSound (request_cancel o s id).1
    unfolding request_cancel
    IsSound-request id = elim (Option-cases (get s.running_workflows id)) [
      | inl missing ↦ rw (request_cancel, missing) t
      | inr (h, there) ↦
          let (stage, e) = t.registered id h there in
          rw (request_cancel, there, e)
            (IsTracked-stage t h id stage (cancel_stage stage) e (live-cancel_stage stage))
    ]

    IsSound-finish :
        (id : String) (h : ℕ)
        → is_finished (get s.tasks h) ≡ true
        → ((k : ℕ) → get s.running_workflows id ≡ some k → k ≡ h)
        → IsSound (finish_cancel o s id).1
    unfolding finish_cancel
    IsSound-finish id h over same = IsTracked-pop t id (λ k stage e.
        elim (Bool-cases (is_live stage)) [
          | inr dead ↦ dead
          | inl live ↦ ground (arith, t.tracked id k stage e live, same k, finished-dead id stage)
        ])

  -- A `finish_cancel` whose workflow has no entry, or still that of the task that was cancelled.
  abbrev pub IsAllowed : Router o → Move V → Type 0
  IsAllowed s (finish id h) = (k : ℕ) → get s.running_workflows id ≡ some k → k ≡ h
  IsAllowed s move = Unit

  step-IsSound :
      (σ : SetOrder) (nothing : V) (fresh : ℕ → String) (s : Router o) (move : Move V)
      → IsAllowed s move
      → IsSound s
      → IsSound (step o σ nothing fresh s move)
  unfolding step
  step-IsSound σ nothing fresh s (create body id now) allowed t =
      IsSound-create s t σ nothing fresh body id now
  step-IsSound σ nothing fresh s (execute id) allowed t = IsSound-execute s t id
  step-IsSound σ nothing fresh s (background h outcome) allowed t = IsSound-background s t h outcome
  step-IsSound σ nothing fresh s (request id) allowed t = IsSound-request s t id
  step-IsSound σ nothing fresh s (finish id h) allowed t =
      elim (Bool-cases (is_finished (get s.tasks h))) [
        | inl over ↦ rw (step, over) (IsSound-finish s t id h over allowed)
        | inr running ↦ rw (step, running) t
      ]

  abbrev pub run : SetOrder → V → (fresh : ℕ → String) → Router o → List (Move V) → Router o
  run σ nothing fresh s [] = s
  run σ nothing fresh s (move ∷ moves) = run σ nothing fresh (step o σ nothing fresh s move) moves

  abbrev pub IsAllowedRun : SetOrder → V → (fresh : ℕ → String) → Router o → List (Move V) → Type 0
  IsAllowedRun σ nothing fresh s [] = Unit
  IsAllowedRun σ nothing fresh s (move ∷ moves) =
      IsAllowed s move × IsAllowedRun σ nothing fresh (step o σ nothing fresh s move) moves

  run-IsSound :
      (σ : SetOrder) (nothing : V) (fresh : ℕ → String) (s : Router o) (moves : List (Move V))
      → IsAllowedRun σ nothing fresh s moves
      → IsSound s
      → IsSound (run σ nothing fresh s moves)
  run-IsSound σ nothing fresh s [] allowed t = t
  run-IsSound σ nothing fresh s (move ∷ moves) allowed t =
      run-IsSound σ nothing fresh (step o σ nothing fresh s move) moves allowed.1
        (step-IsSound σ nothing fresh s move allowed.0 t)

-- A router without background tasks.
abbrev pub quiet_router : {V : Type 0} {o : WorkflowStore V} → o.State → Router o
quiet_router store = record { store = store; running_workflows = []; tasks = [] }

-- After any moves from a router without background tasks, in which no cancellation is finished while
-- its workflow has been started again, every background task that has not finished is the one that
-- is kept for its workflow, so no workflow has two of them.
pub run-tracked :
    {V : Type 0} (o : WorkflowStore V) (σ : SetOrder) (nothing : V) (fresh : ℕ → String)
    (store : o.State) (moves : List (Move V))
    → IsAllowedRun σ nothing fresh (quiet_router {o = o} store) moves
    → (id : String) (h : ℕ) (stage : Stage V)
    → get (run σ nothing fresh (quiet_router {o = o} store) moves).tasks h ≡ some (id, stage)
    → is_live stage ≡ true
    → get (run σ nothing fresh (quiet_router {o = o} store) moves).running_workflows id ≡ some h
run-tracked o σ nothing fresh store moves allowed =
    (run-IsSound σ nothing fresh (quiet_router {o = o} store) moves allowed (record {
      numbered = λ h e. cc;
      registered = λ id h e. cc;
      tracked = λ id h stage e live. cc;
    })).tracked

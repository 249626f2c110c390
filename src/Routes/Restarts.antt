-- ===== src/Routes/Restarts.antt =====
-- A workflow of src/flowmesh/api/routes.py that is started again while its cancellation ends.
use fuzzy_octo_train.Prelude.{
  string_eq, nat_eq, ℕ, String, true, false, none, some, [], ◌∷◌, get, put, pop, has, ◌≡◌, refl,
  sym, ==_iff, ==_refl, has-put, get-has, has-pop, get-pop, get-put, subst, arith, length, SetOrder,
}
use fuzzy_octo_train.Models.{Workflow, WorkflowStatus}
use fuzzy_octo_train.Store.Contract.{WorkflowStore}
use fuzzy_octo_train.Routes.{
  Router, created, executing, cancelling, finished, execute, background, request, finish, step,
  execute_workflow, run_background, request_cancel, finish_cancel, is_finished, register,
}
use fuzzy_octo_train.Routes.Tracking.{length-put}
use fuzzy_octo_train.Routes.Executions.{IsSound, run}

module _ {V : Type 0} {o : WorkflowStore V} (s : Router o) {id : String} {h : ℕ}
    {wf kept : Workflow V} (t : IsSound s) (there : get s.running_workflows id ≡ some h)
    (runs : get s.tasks h ≡ some (id, executing wf)) (stored : o.find s.store id ≡ some kept) where
  cancelled : Router o
  cancelled = record s {
    running_workflows = pop s.running_workflows id;
    tasks = put (put s.tasks h (id, cancelling true)) h (id, finished);
  }

  request-executing :
      (request_cancel o s id).1 ≡ record s { tasks = put s.tasks h (id, cancelling true) }
  unfolding request_cancel
  request-executing = rw (request_cancel, there, runs) refl

  background-cancelled :
      run_background o (record s { tasks = put s.tasks h (id, cancelling true) }) h none ≡ cancelled
  unfolding run_background cancelled
  background-cancelled =
      rw (run_background, get-put s.tasks h h (id, cancelling true), ==_refl h) refl

  execute-cancelled : (execute_workflow o cancelled id).1 ≡ register o cancelled id
  unfolding execute_workflow cancelled
  execute-cancelled =
      let gone : has (pop s.running_workflows id) id ≡ false =
        ground (arith, has-pop s.running_workflows id id, ==_refl id) in
      rw (execute_workflow, stored, gone) refl

  abbrev restarted : Router o
  restarted = register o cancelled id

  length-cancelled : length cancelled.tasks ≡ length s.tasks
  unfolding cancelled
  length-cancelled = ground (
    arith,
    length-put (put s.tasks h (id, cancelling true)) h (id, finished),
    length-put s.tasks h (id, cancelling true),
    has-put s.tasks h h (id, cancelling true),
    get-has s.tasks h (id, executing wf) runs,
  )

  has_ended : is_finished (get restarted.tasks h) ≡ true
  unfolding cancelled
  has_ended = ground (
    arith,
    get-put cancelled.tasks (length cancelled.tasks) h (id, created),
    get-put (put s.tasks h (id, cancelling true)) h h (id, finished),
    length-cancelled,
    t.numbered h (get-has s.tasks h (id, executing wf) runs),
    ==_iff (length s.tasks) h,
    ==_refl h,
  )

  run-restarted :
      (σ : SetOrder) (nothing : V) (fresh : ℕ → String)
      → run σ nothing fresh s (request id ∷ background h none ∷ execute id ∷ finish id h ∷ [])
        ≡ (finish_cancel o restarted id).1
  unfolding step
  run-restarted σ nothing fresh =
      rw (request-executing, background-cancelled, execute-cancelled, has_ended) refl

  forgotten :
      (get (finish_cancel o restarted id).1.running_workflows id ≡ none)
      × (get (finish_cancel o restarted id).1.tasks (length s.tasks) ≡ some (id, created))
      × (o.find (finish_cancel o restarted id).1.store id
          ≡ o.find (o.update_status s.store id WorkflowStatus.cancelled) id)
  unfolding finish_cancel cancelled
  forgotten = (
    ground (arith, get-pop restarted.running_workflows id id, ==_refl id),
    ground (
      arith,
      get-put cancelled.tasks (length cancelled.tasks) (length s.tasks) (id, created),
      length-cancelled,
      ==_refl (length s.tasks),
    ),
    refl,
  )

  -- `cancel_workflow` takes the entry of the workflow away, whosesoever it is: when an execution is
  -- cancelled, and the workflow is executed again before the handler resumes, the new background task
  -- has no entry any more and goes on, so the workflow can be executed once more beside it.
  pub cancel_forgets :
      (σ : SetOrder) (nothing : V) (fresh : ℕ → String)
      → let s' : Router o =
          run σ nothing fresh s (request id ∷ background h none ∷ execute id ∷ finish id h ∷ []) in
        (get s'.running_workflows id ≡ none)
        × (get s'.tasks (length s.tasks) ≡ some (id, created))
        × (o.find s'.store id ≡ o.find (o.update_status s.store id WorkflowStatus.cancelled) id)
  cancel_forgets σ nothing fresh =
      subst
        (λ (r : Router o).
          (get r.running_workflows id ≡ none)
          × (get r.tasks (length s.tasks) ≡ some (id, created))
          × (o.find r.store id ≡ o.find (o.update_status s.store id WorkflowStatus.cancelled) id))
        (sym (run-restarted σ nothing fresh)) forgotten

-- ===== src/Routes/Requests.antt =====
-- What the handlers of src/flowmesh/api/routes.py do to a store that keeps its contract.
use fuzzy_octo_train.Prelude.{
  string_eq, nat_eq, ℕ, String, false, Option, none, some, [], ◌∷◌, Dict, get, ◌≡◌, ◌==◌, refl, sym,
  ap, subst, ◌∙◌, Bool-cases, Result-cases, inl, inr, ◌⊎◌, ==_refl, if◌then◌else◌, SetOrder, Error,
  err, get-pop,
}
use fuzzy_octo_train.Models.{TaskResult, Workflow, WorkflowStatus}
use fuzzy_octo_train.Dag.{build_dag}
use fuzzy_octo_train.Store.{non_empty, with_status}
use fuzzy_octo_train.Store.Contract.{WorkflowStore, IsStore}
use fuzzy_octo_train.Schemas.{WorkflowCreate, is_valid, WorkflowDetailResponse}
use fuzzy_octo_train.Routes.{
  Router, create_workflow, get_workflow, executing, run_background, leave_background,
}
use fuzzy_octo_train.Routes.Responses.{
  Answer, answered, http_exception, unprocessable, invalid_body, submitted, to_response,
  to_result_responses, or_no_results, final_status, equals_text,
}

module _ {V : Type 0} where
  final_status_lem :
      (results : Dict String (TaskResult V))
      → final_status results ≡ (elim results as (λ _. WorkflowStatus) [
        | [] ↦ WorkflowStatus.success
        | r ∷ rest ↦ WorkflowStatus.failed
      ])
  unfolding final_status equals_text
  final_status_lem [] = refl
  final_status_lem (r ∷ rest) = refl

module _ {V : Type 0} {o : WorkflowStore V} (law : IsStore o) (text : V → String) where
  detail :
      String
      → Option (Workflow V)
      → Option (Dict String (TaskResult V))
      → Answer (WorkflowDetailResponse V)
  detail workflow_id found results = elim found [
    | none ↦ http_exception 404 "Workflow not found"
    | some wf ↦ answered (record {
      workflow = to_response wf;
      results = to_result_responses text (or_no_results results);
    })
  ]

  get_workflow-detail :
      (s : Router o) (k : String)
      → get_workflow o text s k ≡ detail k (o.find s.store k) (o.get_results s.store k)
  unfolding get_workflow detail
  get_workflow-detail s k = refl

  get_workflow-save :
      (s : Router o) (wf : Workflow V) (k : String)
      → get_workflow o text (record s { store = o.save s.store wf }) k ≡ (
          if wf.id == k
          then answered (record {
            workflow = to_response wf;
            results = to_result_responses text (or_no_results (o.get_results s.store k));
          })
          else get_workflow o text s k)
  unfolding detail
  get_workflow-save s wf k =
      get_workflow-detail (record s { store = o.save s.store wf }) k
      ∙ (elim (Bool-cases (wf.id == k)) [
        | inl here ↦ rw (law.find-save s.store wf k, law.get_results-save s.store wf k, here) refl
        | inr other ↦
            rw (law.find-save s.store wf k, law.get_results-save s.store wf k, other)
              (sym (get_workflow-detail s k))
      ])

  -- Over any store that keeps the contract, `create_workflow` refuses a body that breaks the schema or
  -- whose tasks `build_dag` refuses, and changes nothing; any other workflow it answers for and saves:
  -- `get_workflow` under its id then shows it, with the results kept under that id, and under any other
  -- id answers as before.
  pub create_workflow_lem :
      (σ : SetOrder) (nothing : V) (fresh : ℕ → String) (s : Router o) (body : WorkflowCreate V)
      (id : String) (now : ℕ)
      → ((is_valid body ≡ false)
          × (create_workflow o σ nothing fresh s body id now ≡ (invalid_body, s)))
        ⊎ (((exception : Error) × (build_dag σ (submitted nothing fresh body id now).tasks
                ≡ err exception)
              × (create_workflow o σ nothing fresh s body id now ≡ (unprocessable exception, s)))
            ⊎ ((s' : Router o) × (create_workflow o σ nothing fresh s body id now
                  ≡ (answered (to_response (submitted nothing fresh body id now)), s'))
                × ((k : String)
                    → get_workflow o text s' k ≡ (
                        if id == k
                        then answered (record {
                          workflow = to_response (submitted nothing fresh body id now);
                          results =
                              to_result_responses text (or_no_results (o.get_results s.store k));
                        })
                        else get_workflow o text s k))))
  unfolding create_workflow get_workflow
  create_workflow_lem σ nothing fresh s body id now = elim (Bool-cases (is_valid body)) [
    | inr bad ↦ inl (bad, rw bad refl)
    | inl good ↦
        inr (elim (Result-cases (build_dag σ (submitted nothing fresh body id now).tasks)) [
          | inr (exception, refused) ↦ inl (exception, refused, rw (good, refused) refl)
          | inl (g, accepted) ↦ inr (
            record s { store = o.save s.store (submitted nothing fresh body id now) },
            rw (good, accepted) refl,
            λ k. get_workflow-save s (submitted nothing fresh body id now) k,
          )
        ])
  ]

  -- The workflow has a final status, FAILED if there is any result, its results are saved, and it is
  -- no longer among the running ones.
  abbrev pub IsSettled : String → Workflow V → Dict String (TaskResult V) → Router o → Type 0
  IsSettled id wf results s =
      (o.find s.store id
        ≡ some (
            with_status
              (elim results as (λ _. WorkflowStatus) [
                | [] ↦ WorkflowStatus.success
                | r ∷ rest ↦ WorkflowStatus.failed
              ])
              wf))
      × (o.get_results s.store id ≡ non_empty (some results))
      × (get s.running_workflows id ≡ none)

  run_background-executing :
      (s : Router o) (handle : ℕ) (id : String) (entered : Workflow V)
      (outcome : Option (Dict String (TaskResult V)))
      → get s.tasks handle ≡ some (id, executing entered)
      → run_background o s handle outcome ≡ leave_background o s handle id outcome
  unfolding run_background
  run_background-executing s handle id entered outcome e = rw (run_background, e) refl

  leave_background-IsSettled :
      (s : Router o) (handle : ℕ) (id : String) (wf : Workflow V)
      (results : Dict String (TaskResult V))
      → o.find s.store id ≡ some wf
      → IsSettled id wf results (leave_background o s handle id (some results))
  unfolding leave_background
  leave_background-IsSettled s handle id wf results there =
      let saved : o.State = o.save_results s.store id results in
      let status : WorkflowStatus = final_status results in
      (
        law.find-update_status saved id id status
            ∙ rw (==_refl id, law.find-save_results s.store id id results, there)
                (ap (λ st. some (with_status st wf)) (final_status_lem results)),
        law.get_results-update_status saved id id status
            ∙ law.get_results-save_results s.store id id results
            ∙ rw (==_refl id) refl,
        get-pop s.running_workflows id id ∙ rw (==_refl id) refl,
      )

  -- When `engine.execute` has returned results for a workflow that the store keeps, the background task
  -- saves them, the workflow's status is SUCCESS if there are no results and FAILED if there is any,
  -- whatever the results are, and the workflow is no longer among the running ones.
  pub run_background_lem :
      (s : Router o) (handle : ℕ) (id : String) (entered wf : Workflow V)
      (results : Dict String (TaskResult V))
      → get s.tasks handle ≡ some (id, executing entered)
      → o.find s.store id ≡ some wf
      → IsSettled id wf results (run_background o s handle (some results))
  run_background_lem s handle id entered wf results e there =
      subst (IsSettled id wf results)
        (sym (run_background-executing s handle id entered (some results) e))
        (leave_background-IsSettled s handle id wf results there)

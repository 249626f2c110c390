-- ===== src/Store/Contract.antt =====
-- The contract of a workflow store, and the in-memory store as one.
use fuzzy_octo_train.Prelude.{
  string_eq, String, Bool, true, false, Option, none, some, List, ℤ, Dict, get, has, ◌≡◌, ◌==◌,
  refl, arith, get-put, get-pop, if◌then◌else◌, ==_iff, get-none, has-get, Bool-cases, Option-cases,
  inl, inr,
}
use fuzzy_octo_train.Models.{Workflow, WorkflowStatus, TaskResult}
use fuzzy_octo_train.Store
use fuzzy_octo_train.Store.{InMemoryStore, non_empty, with_status}

abbrev pub set_status : {V : Type 0} → WorkflowStatus → Option (Workflow V) → Option (Workflow V)
set_status status none = none
set_status status (some workflow) = some (record workflow { status = status })

abbrev pub is_found : {A : Type 0} → Option A → Bool
is_found none = false
is_found (some a) = true

-- The operations of `WorkflowStore`, over some state.
pub record WorkflowStore (V : Type 0) : Type 1 where
  pub State : Type 0
  pub save : State → Workflow V → State
  pub find : State → String → Option (Workflow V)
  pub list_all : State → (limit offset : ℤ) → List (Workflow V)
  pub update_status : State → String → WorkflowStatus → State
  pub save_results : State → String → Dict String (TaskResult V) → State
  pub get_results : State → String → Option (Dict String (TaskResult V))
  pub delete : State → String → Bool × State

-- How the operations show in one another's results: a store is a map from ids to workflows, and one
-- to their results.
pub record IsStore {V : Type 0} (o : WorkflowStore V) : Type 0 where
  pub find-save :
      (s : o.State) (w : Workflow V) (k : String)
      → o.find (o.save s w) k ≡ (if w.id == k then some w else o.find s k)
  pub find-update_status :
      (s : o.State) (j k : String) (status : WorkflowStatus)
      → o.find (o.update_status s j status) k
        ≡ (if j == k then set_status status (o.find s k) else o.find s k)
  pub find-save_results :
      (s : o.State) (j k : String) (results : Dict String (TaskResult V))
      → o.find (o.save_results s j results) k ≡ o.find s k
  pub get_results-save_results :
      (s : o.State) (j k : String) (results : Dict String (TaskResult V))
      → o.get_results (o.save_results s j results) k
        ≡ (if j == k then non_empty (some results) else o.get_results s k)
  pub get_results-update_status :
      (s : o.State) (j k : String) (status : WorkflowStatus)
      → o.get_results (o.update_status s j status) k ≡ o.get_results s k
  pub delete-found : (s : o.State) (k : String) → (o.delete s k).0 ≡ is_found (o.find s k)
  pub find-delete :
      (s : o.State) (j k : String)
      → o.find (o.delete s j).1 k ≡ (if j == k then none else o.find s k)
  pub get_results-delete :
      (s : o.State) (j k : String)
      → o.get_results (o.delete s j).1 k ≡ (if j == k then none else o.get_results s k)
  pub get_results-save :
      (s : o.State) (w : Workflow V) (k : String) → o.get_results (o.save s w) k ≡ o.get_results s k

module _ {V : Type 0} where
  find-save_lem :
      (s : InMemoryStore V) (w : Workflow V) (k : String)
      → Store.find (Store.save s w) k ≡ (if w.id == k then some w else Store.find s k)
  unfolding Store.find Store.save
  find-save_lem s w k = get-put s.workflows w.id k w

  find-update_status_lem :
      (s : InMemoryStore V) (j k : String) (status : WorkflowStatus)
      → Store.find (Store.update_status s j status) k
        ≡ (if j == k then set_status status (Store.find s k) else Store.find s k)
  unfolding Store.find Store.update_status
  find-update_status_lem s j k status = elim (Option-cases (get s.workflows j)) [
    | inl missing ↦ ground (arith, missing, ==_iff j k)
    | inr (w, e) ↦ ground (arith, e, get-put s.workflows j k (with_status status w), ==_iff j k)
  ]

  get_results-save_results_lem :
      (s : InMemoryStore V) (j k : String) (results : Dict String (TaskResult V))
      → Store.get_results (Store.save_results s j results) k
        ≡ (if j == k then non_empty (some results) else Store.get_results s k)
  unfolding Store.get_results Store.save_results
  get_results-save_results_lem s j k results = elim (Bool-cases (j == k)) [
    | inl here ↦ rw (get-put, here)
    | inr other ↦ rw (get-put, other)
  ]

  delete-found_lem :
      (s : InMemoryStore V) (k : String) → (Store.delete s k).0 ≡ is_found (Store.find s k)
  unfolding Store.delete Store.find
  delete-found_lem s k = elim (Bool-cases (has s.workflows k)) [
    | inl there ↦ ground (arith, has-get s.workflows k there)
    | inr missing ↦ ground (arith, get-none s.workflows k missing)
  ]

  find-delete_lem :
      (s : InMemoryStore V) (j k : String)
      → Store.find (Store.delete s j).1 k ≡ (if j == k then none else Store.find s k)
  unfolding Store.delete Store.find
  find-delete_lem s j k = get-pop s.workflows j k

  get_results-delete_lem :
      (s : InMemoryStore V) (j k : String)
      → Store.get_results (Store.delete s j).1 k ≡ (if j == k then none else Store.get_results s k)
  unfolding Store.delete Store.get_results
  get_results-delete_lem s j k = elim (Bool-cases (j == k)) [
    | inl here ↦ rw (get-pop, here)
    | inr other ↦ rw (get-pop, other)
  ]

  get_results-update_status_lem :
      (s : InMemoryStore V) (j k : String) (status : WorkflowStatus)
      → Store.get_results (Store.update_status s j status) k ≡ Store.get_results s k
  unfolding Store.get_results Store.update_status
  get_results-update_status_lem s j k status = ground arith

abbrev pub in_memory_store : (V : Type 0) → WorkflowStore V
in_memory_store V = record {
  State = InMemoryStore V;
  save = Store.save;
  find = Store.find;
  list_all = Store.list_all;
  update_status = Store.update_status;
  save_results = Store.save_results;
  get_results = Store.get_results;
  delete = Store.delete;
}

-- The in-memory store keeps the contract of a workflow store: each operation changes what it is for
-- and no other entry, `delete` tells whether the workflow was there, and deletes its results too.
pub in_memory_store-IsStore : (V : Type 0) → IsStore (in_memory_store V)
unfolding Store.find Store.save Store.save_results Store.get_results
in_memory_store-IsStore V = record {
  find-save = find-save_lem;
  find-update_status = find-update_status_lem;
  find-save_results = λ s j k results. refl;
  get_results-save_results = get_results-save_results_lem;
  get_results-update_status = get_results-update_status_lem;
  delete-found = delete-found_lem;
  find-delete = find-delete_lem;
  get_results-delete = get_results-delete_lem;
  get_results-save = λ s w k. refl;
}

-- ===== src/Redis/Updates.antt =====
-- What `update_status` of src/flowmesh/storage/redis.py leaves behind.
use fuzzy_octo_train.Prelude.{
  string_eq, ℕ, String, true, ◌&&◌, Option, none, some, get, ◌≡◌, ◌==◌, refl, sym, ◌∙◌, ap, subst,
  arith, get-put, if◌then◌else◌, ==_iff, Bool-cases, inl, inr, Result, ok, err, ◌>>=◌,
}
use fuzzy_octo_train.Models.{Workflow, WorkflowStatus, workflow_status_value}
use fuzzy_octo_train.Sqlite.Rows.{WorkflowRow}
use fuzzy_octo_train.Store.Contract.{set_status, is_found}
use fuzzy_octo_train.Documents.{read_workflow, read_workflow-ok, to_row-read_back}
use fuzzy_octo_train.Sqlite.Reloaded.{read_back}
use fuzzy_octo_train.Redis.{Redis, set_row, save, save_status, find, update_status}
use fuzzy_octo_train.Redis.Consistency.{
  IsConsistent, IsConsistent-set_row, find-cases, find-some, find-none,
}

same_key : (j k : String) → (j == k) ≡ true → j ≡ k
same_key j k here = ground (arith, ==_iff j k)

-- What `update_status` writes, of a row.
abbrev updated : {V : Type 0} (now : ℕ) → WorkflowRow V → WorkflowStatus → WorkflowRow V
updated now row status = record row { status = workflow_status_value status; created_at = now }

-- A workflow that `get` finds has a new status.
abbrev pub set_found :
    {V : Type 0} → WorkflowStatus → Result (Option (Workflow V)) → Result (Option (Workflow V))
set_found status (ok found) = ok (set_status status found)
set_found status (err exception) = err exception

module _ {V : Type 0} (later now : ℕ) (nothing : V) (fresh : ℕ → String) where
  -- A workflow that is there is found with the new status, and its time is that of the update.
  pub record IsUpdated (s s' : Redis V) (id : String) (status : WorkflowStatus) : Type 0 where
    pub found :
        (k : String)
        → find later nothing fresh s' k ≡ (
            if id == k
            then set_found status (find later nothing fresh s k)
            else find later nothing fresh s k)
    pub dated :
        (k : String)
        → get s'.scores k
          ≡ (if id == k && is_found (get s.workflows k) then some now else get s.scores k)
    pub kept_results : s'.results ≡ s.results

  find-row : Option (WorkflowRow V) → Result (Option (Workflow V))
  find-row found = elim found [
    | none ↦ ok none
    | some row ↦ do workflow ← read_workflow later nothing fresh row; ok (some workflow)
  ]

  IsUpdated-missing :
      {s : Redis V} (id : String) (status : WorkflowStatus)
      → get s.workflows id ≡ none
      → find later nothing fresh s id ≡ ok none
      → IsUpdated s s id status
  IsUpdated-missing {s} id status e missing = record {
    found = λ k. elim (Bool-cases (id == k)) [
      | inl here ↦
          let gone =
            subst (λ j. find later nothing fresh s j ≡ ok none) (same_key id k here) missing in
          rw (here, gone) refl
      | inr other ↦ rw other refl
    ];
    dated = λ k. ground (arith, e, ==_iff id k);
    kept_results = refl;
  }

  module _ (s : Redis V) (id : String) (status old : WorkflowStatus) (row : WorkflowRow V)
      (e : get s.workflows id ≡ some row) (own : row.id ≡ id)
      (r : row.status ≡ workflow_status_value old) where
    get-updated :
        (k : String)
        → get (set_row s (updated now row status)).workflows k
          ≡ (if id == k then some (updated now row status) else get s.workflows k)
    unfolding set_row
    get-updated k =
        get-put s.workflows row.id k (updated now row status)
        ∙ ap (λ j. if j == k then some (updated now row status) else get s.workflows k) own

    find-there :
        (k : String)
        → (id == k) ≡ true
        → find later nothing fresh (set_row s (updated now row status)) k
          ≡ ok (some (record (read_back later nothing fresh row old) { status = status }))
    unfolding find find-row
    find-there k here =
        ap find-row {y = some (updated now row status)} (get-updated k ∙ rw here refl)
        ∙ rw (read_workflow-ok later nothing fresh (updated now row status) status refl) refl

    find-updated :
        (k : String)
        → find later nothing fresh (set_row s (updated now row status)) k ≡ (
            if id == k
            then set_found status (find later nothing fresh s k)
            else find later nothing fresh s k)
    unfolding find find-row
    find-updated k = elim (Bool-cases (id == k)) [
      | inl here ↦
          let there = subst (λ j. get s.workflows j ≡ some row) (same_key id k here) e in
          rw here (
            find-there k here
            ∙ sym (ap (set_found status) (find-some later nothing fresh s k row old there r)))
      | inr other ↦ rw other (ap find-row {y = get s.workflows k} (get-updated k ∙ rw other refl))
    ]

    dated-updated :
        (k : String)
        → get (set_row s (updated now row status)).scores k
          ≡ (if id == k && is_found (get s.workflows k) then some now else get s.scores k)
    unfolding set_row
    dated-updated k = elim (Bool-cases (id == k)) [
      | inl here ↦
          let there = subst (λ j. get s.workflows j ≡ some row) (same_key id k here) e in
          rw (get-put s.scores row.id k now, own, here, there) refl
      | inr other ↦ rw (get-put s.scores row.id k now, own, other) refl
    ]

    IsUpdated-there : IsUpdated s (set_row s (updated now row status)) id status
    unfolding set_row
    IsUpdated-there = record { found = find-updated; dated = dated-updated; kept_results = refl }

-- On consistent keys `update_status` returns. It leaves them consistent and keeps the results, and a later
-- `get` finds what it would have found before, but for the new status of the workflow. If there is such
-- a workflow, its score in the list, so far the time of its creation, becomes the time of the update.
pub update_status_lem :
    {V : Type 0} (json : V → Option V) (later now : ℕ) (nothing : V) (fresh : ℕ → String)
    {s : Redis V}
    → IsConsistent json s
    → (id : String) (status : WorkflowStatus)
    → (s' : Redis V) × (update_status json now nothing fresh s id status ≡ ok s')
      × IsConsistent json s'
      × IsUpdated later now nothing fresh s s' id status
unfolding update_status save_status save
update_status_lem json later now nothing fresh {s} c id status =
    elim (find-cases now nothing fresh c id) [
      | inl (e, missing) ↦ (
        s,
        rw (update_status, missing) refl,
        c,
        IsUpdated-missing later now nothing fresh id status e
            (find-none later nothing fresh s id e),
      )
      | inr (row, old, e, own, r, p, found) ↦ (
        set_row s (updated now row status),
        rw
            (
              update_status,
              found,
              save_status,
              save,
              to_row-read_back json now nothing fresh row old status p,
            )
            refl,
        IsConsistent-set_row json c (updated now row status) (status, refl)
            (record { metadata = p.metadata; task_defs = p.task_defs }),
        IsUpdated-there later now nothing fresh s id status old row e own r,
      )
    ]

-- ===== src/Postgres/Pages.antt =====
-- The pages of `list_all` of src/flowmesh/storage/postgres.py before and after `update_status`.
use fuzzy_octo_train.Prelude.{
  string_eq, ℕ, suc, String, List, [], ◌∷◌, map, ◌≡◌, ◌==◌, refl, ◌∙◌, ap, if◌then◌else◌,
  Bool-cases, inl, inr, All, All-take, All-drop, take, drop, take-map, drop-map, All-sort, sort-map,
  sort_descending, ℤ, pos, ok,
}
use fuzzy_octo_train.Models.{Workflow, WorkflowStatus, workflow_status_value}
use fuzzy_octo_train.Sqlite.Rows.{WorkflowRow, is_workflow}
use fuzzy_octo_train.Sqlite.Consistency.{IsReadable}
use fuzzy_octo_train.Sqlite.Tables.{All-map}
use fuzzy_octo_train.Sqlite.Reloaded.{read_back}
use fuzzy_octo_train.Documents.{read_workflow, read_workflow-ok}
use fuzzy_octo_train.Postgres.{Postgres, read_rows, list_all, update_status, with_status}

module _ {V : Type 0} where
  -- The workflow of an id has a new status.
  abbrev pub given : String → WorkflowStatus → Workflow V → Workflow V
  given id status w = if w.id == id then record w { status = status } else w

  abbrev created : WorkflowRow V → ℤ
  created row = pos row.created_at

  created-with_status :
      (id : String) (status : WorkflowStatus) (row : WorkflowRow V)
      → created (with_status id status row) ≡ created row
  created-with_status id status row = elim (Bool-cases (is_workflow id row)) [
    | inl here ↦ rw here refl
    | inr other ↦ rw other refl
  ]

  -- Statuses that can be read stay so under `update_status`.
  IsReadable-update_status :
      (rows : List (WorkflowRow V)) (id : String) (status : WorkflowStatus)
      → All IsReadable rows
      → All IsReadable (map (with_status id status) rows)
  IsReadable-update_status rows id status h =
      All-map IsReadable (with_status id status) rows
        (λ row r. elim (Bool-cases (is_workflow id row)) [
          | inl here ↦ rw here (status, refl)
          | inr other ↦ rw other r
        ])
        h

  module _ (nothing : V) (fresh : ℕ → String) (id : String) (status : WorkflowStatus) where
    read_workflow-with_status :
        (now : ℕ) (row : WorkflowRow V) (old : WorkflowStatus)
        → row.status ≡ workflow_status_value old
        → read_workflow now nothing fresh (with_status id status row)
          ≡ ok (given id status (read_back now nothing fresh row old))
    read_workflow-with_status now row old e = elim (Bool-cases (is_workflow id row)) [
      | inl here ↦ rw here (
          read_workflow-ok now nothing fresh (record row { status = workflow_status_value status })
            status refl)
      | inr other ↦ rw other (read_workflow-ok now nothing fresh row old e)
    ]

    read_rows-with_status :
        (now : ℕ → ℕ) (i : ℕ) (rows : List (WorkflowRow V))
        → All IsReadable rows
        → (workflows : List (Workflow V)) × (read_rows now nothing fresh i rows ≡ ok workflows)
          × (read_rows now nothing fresh i (map (with_status id status) rows)
              ≡ ok (map (given id status) workflows))
    unfolding read_rows
    read_rows-with_status now i [] h = ([], refl, refl)
    read_rows-with_status now i (row ∷ rows) ((old, e), h) =
        let (workflows, before, after) = read_rows-with_status now (suc i) rows h in
        (
          read_back (now i) nothing fresh row old ∷ workflows,
          rw (read_rows, read_workflow-ok (now i) nothing fresh row old e, before) refl,
          rw (read_rows, read_workflow-with_status (now i) row old e, after) refl,
        )

    page-with_status :
        (limit offset : ℕ) (rows : List (WorkflowRow V))
        → take limit (drop offset (sort_descending created (map (with_status id status) rows)))
          ≡ map (with_status id status) (take limit (drop offset (sort_descending created rows)))
    page-with_status limit offset rows =
        ap (λ sorted. take limit (drop offset sorted))
          (sort-map created (with_status id status) rows (created-with_status id status))
        ∙ ap (take limit) (drop-map (with_status id status) offset (sort_descending created rows))
        ∙ take-map (with_status id status) limit (drop offset (sort_descending created rows))

-- When the status of each row can be read, so can every page of a limit and an offset that are not
-- negative, and `update_status` changes nothing else in it than the status of the workflow: each page
-- shows the same workflows in the same order, if rows of equal times keep theirs. The status of each row
-- can still be read.
pub list_all-update_status :
    {V : Type 0} (now : ℕ → ℕ) (nothing : V) (fresh : ℕ → String) (s : Postgres V) (id : String)
    (status : WorkflowStatus) (limit offset : ℕ)
    → All IsReadable s.workflows
    → (workflows : List (Workflow V)) × (list_all now nothing fresh s (pos limit) (pos offset)
        ≡ ok workflows)
      × (list_all now nothing fresh (update_status s id status) (pos limit) (pos offset)
          ≡ ok (map (given id status) workflows))
      × All IsReadable (update_status s id status).workflows
unfolding list_all update_status
list_all-update_status {V} now nothing fresh s id status limit offset h =
    let (workflows, before, after) =
      read_rows-with_status nothing fresh id status now 0
        (take limit (drop offset (sort_descending created s.workflows)))
        (All-take IsReadable limit (drop offset (sort_descending created s.workflows)) (
          All-drop IsReadable offset (sort_descending created s.workflows)
            (All-sort created IsReadable s.workflows h))) in
    (
      workflows,
      before,
      ap (read_rows now nothing fresh 0)
            (page-with_status nothing fresh id status limit offset s.workflows)
          ∙ after,
      IsReadable-update_status s.workflows id status h,
    )

-- ===== src/Postgres.antt =====
-- The store of src/flowmesh/storage/postgres.py: its SQL statements as operations on the rows of
-- `workflows` and, by their primary key, of `workflow_results`.
pub mod Saves
pub mod Pages
use fuzzy_octo_train.Prelude.{
  string_eq, ℕ, suc, String, Bool, true, false, Option, none, some, List, [], ◌∷◌, map, Dict, get,
  put, ◌==◌, any, take, drop, ℤ, pos, negsuc, if◌then◌else◌, sort_descending, Result, ok, err,
  ◌>>=◌, integrity_error, query_error,
}
use fuzzy_octo_train.Models.{Task, TaskResult, Workflow, WorkflowStatus, workflow_status_value}
use fuzzy_octo_train.Sqlite.{select_workflow}
use fuzzy_octo_train.Sqlite.Rows.{WorkflowRow, is_workflow, to_row}
use fuzzy_octo_train.Documents.{ResultDocument, read_workflow, to_documents, read_documents}

pub record Postgres (V : Type 0) : Type 0 where
  pub workflows : List (WorkflowRow V)
  pub workflow_results : Dict String (Dict String (ResultDocument V))

-- `LIMIT $1 OFFSET $2`: a negative one is refused.
abbrev pub limit_offset : {A : Type 0} → ℤ → ℤ → List A → Result (List A)
limit_offset (pos limit) (pos offset) rows = ok (take limit (drop offset rows))
limit_offset (pos limit) (negsuc offset) rows = err query_error
limit_offset (negsuc limit) offset rows = err query_error

abbrev pub ok_unless : {A : Type 0} → Bool → A → Result A
ok_unless true a = err query_error
ok_unless false a = ok a

module _ {V : Type 0} where
  -- `INSERT … ON CONFLICT (id) DO UPDATE`: the row that is there keeps its place and `created_at`.
  unfoldable pub upsert : List (WorkflowRow V) → WorkflowRow V → List (WorkflowRow V)
  upsert [] row = row ∷ []
  upsert (old ∷ rows) row =
      let rest = upsert rows row in
      if is_workflow row.id old
      then record row { created_at = old.created_at } ∷ rows
      else old ∷ rest

  -- The column `created_at` is a TIMESTAMP, for which asyncpg refuses a time with a time zone, as the
  -- default of `Workflow.created_at` has: `is_aware` tells whether a time is one.
  unfoldable pub save :
      (json : V → Option V) (is_aware : ℕ → Bool) → Postgres V → Workflow V → Result (Postgres V)
  unfolding to_row upsert
  save json is_aware s workflow = do
    row ← to_row json workflow
    ok_unless (is_aware row.created_at) (record s { workflows = upsert s.workflows row })

  -- named `get` in the source
  unfoldable pub find :
      (now : ℕ) (nothing : V) (fresh : ℕ → String)
      → Postgres V
      → String
      → Result (Option (Workflow V))
  unfolding read_workflow select_workflow
  find now nothing fresh s workflow_id = elim (select_workflow s.workflows workflow_id) [
    | none ↦ ok none
    | some row ↦ do workflow ← read_workflow now nothing fresh row; ok (some workflow)
  ]

  -- The loop of `list_all`: the i-th row is read at the time `now i`.
  unfoldable pub read_rows :
      (now : ℕ → ℕ) (nothing : V) (fresh : ℕ → String)
      → ℕ
      → List (WorkflowRow V)
      → Result (List (Workflow V))
  unfolding read_workflow
  read_rows now nothing fresh i [] = ok []
  read_rows now nothing fresh i (row ∷ rows) = do
    workflow ← read_workflow (now i) nothing fresh row
    workflows ← read_rows now nothing fresh (suc i) rows
    ok (workflow ∷ workflows)

  -- `ORDER BY created_at DESC`, with the rows of equal times in the order of the table
  unfoldable pub list_all :
      (now : ℕ → ℕ) (nothing : V) (fresh : ℕ → String)
      → Postgres V
      → (limit offset : ℤ) → Result (List (Workflow V))
  unfolding read_rows
  list_all now nothing fresh s limit offset = do
    rows ←
        limit_offset limit offset
          (sort_descending (λ (row : WorkflowRow V). pos row.created_at) s.workflows)
    read_rows now nothing fresh 0 rows

  abbrev pub with_status : String → WorkflowStatus → WorkflowRow V → WorkflowRow V
  with_status workflow_id status row =
      if is_workflow workflow_id row
      then record row { status = workflow_status_value status }
      else row

  unfoldable pub update_status : Postgres V → String → WorkflowStatus → Postgres V
  update_status s workflow_id status = record s {
    workflows = map (with_status workflow_id status) s.workflows;
  }

  -- Without the workflow's row the foreign key fails.
  unfoldable pub save_results :
      (text : V → V) → Postgres V → String → Dict String (TaskResult V) → Result (Postgres V)
  save_results text s workflow_id results =
      if any (is_workflow workflow_id) s.workflows
      then ok (record s {
        workflow_results = put s.workflow_results workflow_id (to_documents text results);
      })
      else err integrity_error

  unfoldable pub get_results : Postgres V → String → Result (Option (Dict String (TaskResult V)))
  unfolding read_documents
  get_results s workflow_id = elim (get s.workflow_results workflow_id) [
    | none ↦ ok none
    | some results_dict ↦ do results ← read_documents results_dict; ok (some results)
  ]

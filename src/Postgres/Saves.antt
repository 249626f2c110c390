-- ===== src/Postgres/Saves.antt =====
-- What `save` of src/flowmesh/storage/postgres.py leaves behind.
use fuzzy_octo_train.Prelude.{
  string_eq, ℕ, String, Option, none, some, List, [], ◌∷◌, All, ◌≡◌, ◌==◌, if◌then◌else◌,
  Bool-cases, inl, inr, Result, ok, ◌>>=◌,
}
use fuzzy_octo_train.Models.{Workflow}
use fuzzy_octo_train.Sqlite.{select_workflow}
use fuzzy_octo_train.Sqlite.Rows.{WorkflowRow, is_workflow}
use fuzzy_octo_train.Sqlite.Consistency.{IsReadable}
use fuzzy_octo_train.Sqlite.Reloaded.{IsReloaded}
use fuzzy_octo_train.Documents.{read_workflow}
use fuzzy_octo_train.Postgres.{Postgres, upsert, find, get_results}

module _ {V : Type 0} where
  -- A row, with the time of the one that was there.
  abbrev pub dated_as : Option (WorkflowRow V) → WorkflowRow V → WorkflowRow V
  dated_as none row = row
  dated_as (some old) row = record row { created_at = old.created_at }

  -- Statuses that can be read stay so under `save`.
  IsReadable-upsert :
      (rows : List (WorkflowRow V)) (row : WorkflowRow V)
      → IsReadable row
      → All IsReadable rows
      → All IsReadable (upsert rows row)
  unfolding upsert
  IsReadable-upsert [] row r h = (r, tt)
  IsReadable-upsert (old ∷ rows) row r h = elim (Bool-cases (is_workflow row.id old)) [
    | inl here ↦ rw here (r, h.1)
    | inr other ↦ rw other (h.0, IsReadable-upsert rows row r h.1)
  ]

  -- The time in the row of a workflow that is written at `at`.
  abbrev pub time_of : Option (WorkflowRow V) → ℕ → ℕ
  time_of none at = at
  time_of (some old) at = old.created_at

  abbrev written : Postgres V → WorkflowRow V → Postgres V
  written s row = record s { workflows = upsert s.workflows row }

  module _ (json : V → Option V) (now : ℕ) (nothing : V) (fresh : ℕ → String) where
    find-row : Option (WorkflowRow V) → Result (Option (Workflow V))
    find-row found = elim found [
      | none ↦ ok none
      | some row ↦ do workflow ← read_workflow now nothing fresh row; ok (some workflow)
    ]

-- What `save` leaves behind when it returns: the workflow is found with its id, name and status, with the
-- time of the reading, and with metadata and tasks as they come back; nothing else that is read changes.
-- Its row has the time of the row that was there before, or its own time.
pub record IsSaved {V : Type 0} (json : V → Option V) (now : ℕ) (nothing : V) (fresh : ℕ → String)
    (s : Postgres V) (w : Workflow V) (k : String) (saved : Postgres V) : Type 0 where
  pub back : Workflow V
  pub row : WorkflowRow V
  pub reloaded : IsReloaded json now w back
  pub found :
      find now nothing fresh saved k
      ≡ (if w.id == k then ok (some back) else find now nothing fresh s k)
  pub stored : select_workflow saved.workflows w.id ≡ some row
  pub time : row.created_at ≡ time_of (select_workflow s.workflows w.id) w.created_at
  pub results : get_results saved k ≡ get_results s k

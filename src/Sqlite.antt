-- ===== src/Sqlite.antt =====
-- The SQLite store of src/flowmesh/storage/sqlite.py: its SQL statements as operations on tables. A
-- table is a list of rows; `INSERT OR REPLACE` deletes the rows with the new row's key, and the deletion
-- of a workflow's row deletes its results (`ON DELETE CASCADE`, with foreign keys on). A JSON text is what is
-- read from it, and an ISO time the time.
pub mod Rows
pub mod Reloaded
pub mod Tables
pub mod Consistency
pub mod Operations
pub mod Reads
use fuzzy_octo_train.Prelude.{
  string_eq, ℕ, suc, ◌+◌, ◌-◌, String, Bool, true, false, not, ◌&&◌, Option, none, some, List, [],
  ◌∷◌, ◌++◌, map, Dict, get_or, put, ◌==◌, filter, any, take, drop, length, ℤ, pos, negsuc, ltb,
  if◌then◌else◌, sort_descending, Result, ok, err, ◌>>=◌, unwrap, value_error, integrity_error,
  Error,
}
use fuzzy_octo_train.Models.{
  Task, TaskStatus, TaskResult, Workflow, WorkflowStatus, task_status_value, workflow_status_value,
}
use fuzzy_octo_train.Sqlite.Rows.{
  TaskDef, WorkflowRow, ResultRow, Database, parse_workflow_status, parse_task_status, is_workflow,
  is_result_of, is_result, to_def, to_row, to_task, to_tasks, row_to_workflow, to_result_row,
  read_result,
}
use fuzzy_octo_train.Dsl.{noop}

-- `LIMIT ? OFFSET ?`: a negative limit is none, and a negative offset is zero.
abbrev pub limit_offset : {A : Type 0} → ℤ → ℤ → List A → List A
limit_offset (pos limit) (pos offset) rows = take limit (drop offset rows)
limit_offset (pos limit) (negsuc offset) rows = take limit rows
limit_offset (negsuc limit) (pos offset) rows = drop offset rows
limit_offset (negsuc limit) (negsuc offset) rows = rows

module _ {V : Type 0} where
  -- `DELETE FROM workflows WHERE id = ?`
  unfoldable pub delete_workflow : Database V → String → Database V
  delete_workflow db workflow_id = record {
    workflows = filter (λ row. not (is_workflow workflow_id row)) db.workflows;
    task_results =
        if any (is_workflow workflow_id) db.workflows
        then filter (λ row. not (is_result_of workflow_id row)) db.task_results
        else db.task_results;
  }

  unfoldable pub insert_row : Database V → WorkflowRow V → Database V
  unfolding delete_workflow
  insert_row db row =
      let replaced = delete_workflow db row.id in
      record replaced { workflows = replaced.workflows ++ row ∷ [] }

  unfoldable pub save : (json : V → Option V) → Database V → Workflow V → Result (Database V)
  unfolding to_row insert_row
  save json db workflow = do row ← to_row json workflow; ok (insert_row db row)

  -- `fetchone`, on the rows of a workflow
  unfoldable pub select_workflow : List (WorkflowRow V) → String → Option (WorkflowRow V)
  select_workflow [] workflow_id = none
  select_workflow (row ∷ rows) workflow_id =
      if is_workflow workflow_id row then some row else select_workflow rows workflow_id

  -- named `get` in the source
  unfoldable pub find :
      (nothing : V) → (fresh : ℕ → String) → Database V → String → Result (Option (Workflow V))
  unfolding row_to_workflow select_workflow
  find nothing fresh db workflow_id = elim (select_workflow db.workflows workflow_id) [
    | none ↦ ok none
    | some row ↦ do workflow ← row_to_workflow nothing fresh row; ok (some workflow)
  ]

  unfoldable pub read_rows :
      (nothing : V) → (fresh : ℕ → String) → List (WorkflowRow V) → Result (List (Workflow V))
  unfolding row_to_workflow
  read_rows nothing fresh [] = ok []
  read_rows nothing fresh (row ∷ rows) = do
    workflow ← row_to_workflow nothing fresh row
    rest ← read_rows nothing fresh rows
    ok (workflow ∷ rest)

  unfoldable pub list_all :
      (nothing : V)
      → (fresh : ℕ → String) → Database V
      → (limit offset : ℤ) → Result (List (Workflow V))
  unfolding read_rows
  list_all nothing fresh db limit offset = read_rows nothing fresh (
      limit_offset limit offset
        (sort_descending (λ (row : WorkflowRow V). pos row.created_at) db.workflows))

  unfoldable pub update_status : Database V → String → WorkflowStatus → Database V
  update_status db workflow_id status = record db {
    workflows =
        map
          (λ (row : WorkflowRow V).
            if is_workflow workflow_id row
            then record row { status = workflow_status_value status }
            else row)
          db.workflows;
  }

  -- One `INSERT OR REPLACE INTO task_results`; without the workflow's row its foreign key fails.
  unfoldable pub insert_result : Database V → ResultRow V → Result (Database V)
  insert_result db row =
      if any (is_workflow row.workflow_id) db.workflows
      then ok (record db {
        task_results =
            filter (λ old. not (is_result row.workflow_id row.task_name old)) db.task_results
            ++ row ∷ [];
      })
      else err integrity_error

  -- What it raises, if anything, and the database: what was inserted before stays, in the transaction that
  -- the next commit of the connection ends.
  unfoldable pub save_results :
      (json : V → Option V)
      → Database V
      → String
      → Dict String (TaskResult V)
      → Option Error × Database V
  unfolding insert_result to_result_row
  save_results json db workflow_id [] = (none, db)
  save_results json db workflow_id ((task_name, r) ∷ results) =
      elim (to_result_row json workflow_id task_name r >>= λ row. insert_result db row) [
        | err exception ↦ (some exception, db)
        | ok inserted ↦ save_results json inserted workflow_id results
      ]

  -- The loop over the rows, from the results read so far.
  unfoldable pub read_results :
      List (ResultRow V) → Dict String (TaskResult V) → Result (Dict String (TaskResult V))
  unfolding read_result
  read_results [] results = ok results
  read_results (row ∷ rows) results = do
    r ← read_result row
    read_results rows (put results row.task_name r)

  unfoldable pub get_results : Database V → String → Result (Option (Dict String (TaskResult V)))
  unfolding read_results
  get_results db workflow_id = elim (filter (is_result_of workflow_id) db.task_results) [
    | [] ↦ ok none
    | row ∷ rows ↦ do results ← read_results (row ∷ rows) []; ok (some results)
  ]

  -- `cursor.rowcount > 0`
  unfoldable pub delete : Database V → String → Bool × Database V
  unfolding delete_workflow
  delete db workflow_id = (
    ltb 0 (length (filter (is_workflow workflow_id) db.workflows)),
    delete_workflow db workflow_id,
  )

  -- `SELECT status, COUNT(*) FROM workflows GROUP BY status`, from the counts so far
  unfoldable pub count_rows : List (WorkflowRow V) → Dict String ℕ → Dict String ℕ
  count_rows [] counts = counts
  count_rows (row ∷ rows) counts =
      count_rows rows (put counts row.status (get_or counts row.status 0 + 1))

  unfoldable pub count_by_status : Database V → Dict String ℕ
  unfolding count_rows
  count_by_status db = count_rows db.workflows []

-- The operations that change the database.
pub data Operation (V : Type 0) : Type 0 where
  save_op : (workflow : Workflow V) → Operation V
  update_status_op : (workflow_id : String) (status : WorkflowStatus) → Operation V
  save_results_op : (workflow_id : String) (results : Dict String (TaskResult V)) → Operation V
  delete_op : (workflow_id : String) → Operation V

module _ {V : Type 0} where
  abbrev pub or_unchanged : Database V → Result (Database V) → Database V
  or_unchanged db (ok db') = db'
  or_unchanged db (err exception) = db

  unfoldable pub apply : (json : V → Option V) → Database V → Operation V → Database V
  apply json db (save_op workflow) = or_unchanged db (save json db workflow)
  apply json db (update_status_op workflow_id status) = update_status db workflow_id status
  apply json db (save_results_op workflow_id results) = (save_results json db workflow_id results).1
  apply json db (delete_op workflow_id) = (delete db workflow_id).1

  abbrev pub apply_all : (json : V → Option V) → Database V → List (Operation V) → Database V
  apply_all json db [] = db
  apply_all json db (operation ∷ operations) = apply_all json (apply json db operation) operations

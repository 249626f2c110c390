-- ===== src/Sqlite/Consistency.antt =====
-- What the operations of src/flowmesh/storage/sqlite.py keep of the two tables.
use fuzzy_octo_train.Prelude.{
  string_eq, ◌≤◌, String, not, ◌&&◌, some, List, ◌≡◌, ◌==◌, refl, ◌∙◌, arith, if◌then◌else◌, count,
  filter, any, All, Bool-cases, inl, inr, ==_iff, count-ext, count_none,
}
use fuzzy_octo_train.Models.{TaskStatus, WorkflowStatus, workflow_status_value, task_status_value}
use fuzzy_octo_train.Sqlite.{delete_workflow}
use fuzzy_octo_train.Sqlite.Rows.{
  Database, WorkflowRow, ResultRow, parse_workflow_status, parse_task_status, is_workflow,
  is_result_of, is_result,
}
use fuzzy_octo_train.Sqlite.Tables.{count_of_filter, any-eq-count, count-le, All-filter}

pub parse_workflow_status-value :
    (status : WorkflowStatus) → parse_workflow_status (workflow_status_value status) ≡ some status
unfolding parse_workflow_status workflow_status_value
parse_workflow_status-value WorkflowStatus.pending = refl
parse_workflow_status-value WorkflowStatus.running = refl
parse_workflow_status-value WorkflowStatus.success = refl
parse_workflow_status-value WorkflowStatus.failed = refl
parse_workflow_status-value WorkflowStatus.cancelled = refl

pub parse_task_status-value :
    (status : TaskStatus) → parse_task_status (task_status_value status) ≡ some status
unfolding parse_task_status task_status_value
parse_task_status-value TaskStatus.pending = refl
parse_task_status-value TaskStatus.running = refl
parse_task_status-value TaskStatus.success = refl
parse_task_status-value TaskStatus.failed = refl
parse_task_status-value TaskStatus.skipped = refl
parse_task_status-value TaskStatus.cancelled = refl

module _ {V : Type 0} where
  abbrev pub IsReadable : WorkflowRow V → Type 0
  IsReadable row = (status : WorkflowStatus) × (row.status ≡ workflow_status_value status)

  abbrev pub IsReadableResult : ResultRow V → Type 0
  IsReadableResult row = (status : TaskStatus) × (row.status ≡ task_status_value status)

  -- The primary keys are unique, each result belongs to a workflow that is there, and each status is
  -- the text of one.
  pub record IsConsistent (db : Database V) : Type 0 where
    pub unique : (k : String) → count (is_workflow k) db.workflows ≤ 1
    pub unique_results : (k t : String) → count (is_result k t) db.task_results ≤ 1
    pub owned :
        (k : String)
        → count (is_workflow k) db.workflows ≡ 0
        → count (is_result_of k) db.task_results ≡ 0
    pub readable : All IsReadable db.workflows
    pub readable_results : All IsReadableResult db.task_results

  module _ {db : Database V} (c : IsConsistent db) where
    pub count-deleted :
        (id k : String)
        → count (is_workflow k) (delete_workflow db id).workflows
          ≡ (if id == k then 0 else count (is_workflow k) db.workflows)
    unfolding delete_workflow
    count-deleted id k =
        count_of_filter (is_workflow k) (λ row. not (is_workflow id row)) db.workflows
        ∙ (elim (Bool-cases (id == k)) [
          | inl here ↦ rw here (
              count_none (λ row. not (is_workflow id row) && is_workflow k row) db.workflows
                (λ row. ground (arith, ==_iff id k)))
          | inr other ↦ rw other (
              count-ext (λ row. not (is_workflow id row) && is_workflow k row) (is_workflow k)
                db.workflows
                (λ row. ground (arith, ==_iff row.id id, ==_iff row.id k, ==_iff id k)))
        ])

    count-kept :
        (id k : String)
        → count (is_result_of k) (filter (λ row. not (is_result_of id row)) db.task_results)
          ≡ (if id == k then 0 else count (is_result_of k) db.task_results)
    count-kept id k =
        count_of_filter (is_result_of k) (λ row. not (is_result_of id row)) db.task_results
        ∙ (elim (Bool-cases (id == k)) [
          | inl here ↦ rw here (
              count_none (λ row. not (is_result_of id row) && is_result_of k row) db.task_results
                (λ row. ground (arith, ==_iff id k)))
          | inr other ↦ rw other (
              count-ext (λ row. not (is_result_of id row) && is_result_of k row) (is_result_of k)
                db.task_results
                (λ row.
                  ground (arith, ==_iff row.workflow_id id, ==_iff row.workflow_id k, ==_iff id k)))
        ])

    -- No result of a workflow is left when it is deleted.
    pub count-deleted_results :
        (id k : String)
        → count (is_result_of k) (delete_workflow db id).task_results
          ≡ (if id == k then 0 else count (is_result_of k) db.task_results)
    unfolding delete_workflow
    count-deleted_results id k = elim (Bool-cases (any (is_workflow id) db.workflows)) [
      | inl there ↦ rw (delete_workflow, there) (count-kept id k)
      | inr missing ↦
          rw (delete_workflow, missing)
            (ground (arith, any-eq-count (is_workflow id) db.workflows, c.owned id, ==_iff id k))
    ]

    results_deleted :
        (P : List (ResultRow V) → Type 0) (id : String)
        → P db.task_results
        → P (filter (λ row. not (is_result_of id row)) db.task_results)
        → P (delete_workflow db id).task_results
    unfolding delete_workflow
    results_deleted P id same less = elim (Bool-cases (any (is_workflow id) db.workflows)) [
      | inl there ↦ rw (delete_workflow, there) less
      | inr missing ↦ rw (delete_workflow, missing) same
    ]

    IsReadable-deleted : (id : String) → All IsReadable (delete_workflow db id).workflows
    unfolding delete_workflow
    IsReadable-deleted id = All-filter IsReadable _ db.workflows c.readable

    pub IsConsistent-delete : (id : String) → IsConsistent (delete_workflow db id)
    IsConsistent-delete id = record {
      unique = λ k. ground (arith, count-deleted id k, c.unique k);
      unique_results = λ k t.
          results_deleted (λ rows. count (is_result k t) rows ≤ 1) id (c.unique_results k t)
            (omega (
              arith,
              c.unique_results k t,
              count_of_filter (is_result k t) (λ row. not (is_result_of id row)) db.task_results,
              count-le (λ row. not (is_result_of id row) && is_result k t row) (is_result k t)
                  db.task_results (λ row h. ground arith),
            ));
      owned = λ k none'. ground (arith, count-deleted id k, count-deleted_results id k, c.owned k);
      readable = IsReadable-deleted id;
      readable_results =
          results_deleted (All IsReadableResult) id c.readable_results
            (All-filter IsReadableResult _ db.task_results c.readable_results);
    }

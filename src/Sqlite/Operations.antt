-- ===== src/Sqlite/Operations.antt =====
-- The tables of src/flowmesh/storage/sqlite.py after any operations.
use fuzzy_octo_train.Prelude.{
  string_eq, ◌+◌, String, Bool, true, not, ◌&&◌, List, [], ◌∷◌, ◌++◌, map, Dict, ◌≡◌, ◌==◌, refl,
  ◌∙◌, sym, subst, arith, if◌then◌else◌, count, filter, any, All-append, Bool-cases, inl, inr,
  ==_iff, count_none, ok, ◌>>=◌, Option, Result-cases, >>=-eq-ok,
}
use fuzzy_octo_train.Models.{TaskResult, Workflow, WorkflowStatus, workflow_status_value}
use fuzzy_octo_train.Sqlite
use fuzzy_octo_train.Sqlite.{
  Operation, save_op, update_status_op, save_results_op, delete_op, apply, apply_all,
  delete_workflow, insert_result, or_unchanged,
}
use fuzzy_octo_train.Sqlite.Rows.{
  Database, WorkflowRow, ResultRow, is_workflow, is_result_of, is_result, to_row, to_result_row,
  to_defs, json_dict, json_output,
}
use fuzzy_octo_train.Sqlite.Tables.{
  count-append, count_of_filter, any-eq-count, count-le, All-filter, All-map, count_of_map,
}
use fuzzy_octo_train.Sqlite.Consistency.{
  IsReadable, IsReadableResult, IsConsistent, IsConsistent-delete, count-deleted,
}

ok-inj : {A : Type 0} {a b : A} → (ok a) ≡ (ok b) → a ≡ b
ok-inj e = cc

module _ {V : Type 0} where
  module _ {db : Database V} (c : IsConsistent db) where
    IsConsistent-insert_row :
        (row : WorkflowRow V) → IsReadable row → IsConsistent (Sqlite.insert_row db row)
    unfolding Sqlite.insert_row
    IsConsistent-insert_row row r =
        let d = IsConsistent-delete c row.id in
        let rows = (delete_workflow db row.id).workflows in
        record {
          unique = λ k. ground (
            arith,
            count-append (is_workflow k) rows (row ∷ []),
            count-deleted c row.id k,
            c.unique k,
          );
          unique_results = d.unique_results;
          owned =
              λ k none'. d.owned k (ground (arith, count-append (is_workflow k) rows (row ∷ [])));
          readable = All-append IsReadable rows (row ∷ []) d.readable (r, tt);
          readable_results = d.readable_results;
        }

    IsConsistent-update :
        (id : String) (status : WorkflowStatus) → IsConsistent (Sqlite.update_status db id status)
    unfolding Sqlite.update_status
    IsConsistent-update id status =
        let change : WorkflowRow V → WorkflowRow V = λ row.
          if is_workflow id row
          then record row { status = workflow_status_value status }
          else row in
        let same : (k : String)
            → count (is_workflow k) (map change db.workflows) ≡ count (is_workflow k) db.workflows =
          λ k. count_of_map (is_workflow k) change db.workflows (λ row.
            elim (Bool-cases (is_workflow id row)) [
              | inl hit ↦ rw hit refl
              | inr miss ↦ rw miss refl
            ]) in
        record {
          unique = λ k. rw (same k) (c.unique k);
          unique_results = c.unique_results;
          owned = λ k none'. c.owned k (sym (same k) ∙ none');
          readable =
              All-map IsReadable change db.workflows
                (λ row r. elim (Bool-cases (is_workflow id row)) [
                  | inl hit ↦ rw hit (status, refl)
                  | inr miss ↦ rw miss r
                ])
                c.readable;
          readable_results = c.readable_results;
        }

    -- The table of results with the new row.
    with_result : ResultRow V → Database V
    with_result new = record db {
      task_results =
          filter (λ row. not (is_result new.workflow_id new.task_name row)) db.task_results
          ++ new ∷ [];
    }

    count-with_result :
        (new : ResultRow V) (p : ResultRow V → Bool)
        → count p (with_result new).task_results
          ≡ count
              (λ row. not (is_result new.workflow_id new.task_name row) && p row)
              db.task_results
            + (if p new then 1 else 0)
    unfolding with_result
    count-with_result new p = ground (
      arith,
      count-append p
          (filter (λ row. not (is_result new.workflow_id new.task_name row)) db.task_results)
          (new ∷ []),
      count_of_filter p (λ row. not (is_result new.workflow_id new.task_name row)) db.task_results,
    )

    IsConsistent-with_result :
        (new : ResultRow V)
        → any (is_workflow new.workflow_id) db.workflows ≡ true
        → IsReadableResult new
        → IsConsistent (with_result new)
    unfolding with_result
    IsConsistent-with_result new there r = record {
      unique = c.unique;
      unique_results = λ k t. elim (Bool-cases (new.workflow_id == k && new.task_name == t)) [
        | inl here ↦ ground (
          arith,
          count-with_result new (is_result k t),
          count_none (λ row. not (is_result new.workflow_id new.task_name row) && is_result k t row)
              db.task_results
              (λ row. ground (arith, ==_iff new.workflow_id k, ==_iff new.task_name t)),
        )
        | inr other ↦ ground (
          arith,
          count-with_result new (is_result k t),
          count-le (λ row. not (is_result new.workflow_id new.task_name row) && is_result k t row)
              (is_result k t) db.task_results (λ row h. ground arith),
          c.unique_results k t,
        )
      ];
      owned = λ k none'. ground (
        arith,
        count-with_result new (is_result_of k),
        count-le (λ row. not (is_result new.workflow_id new.task_name row) && is_result_of k row)
            (is_result_of k) db.task_results (λ row h. ground arith),
        c.owned k none',
        any-eq-count (is_workflow new.workflow_id) db.workflows,
        ==_iff new.workflow_id k,
      );
      readable = c.readable;
      readable_results =
          All-append IsReadableResult
            (filter (λ row. not (is_result new.workflow_id new.task_name row)) db.task_results)
            (new ∷ []) (All-filter IsReadableResult _ db.task_results c.readable_results) (r, tt);
    }

    IsConsistent-insert :
        (new : ResultRow V) (db' : Database V)
        → IsReadableResult new
        → insert_result db new ≡ ok db'
        → IsConsistent db'
    unfolding insert_result with_result
    IsConsistent-insert new db' r e =
        elim (Bool-cases (any (is_workflow new.workflow_id) db.workflows)) [
          | inl there ↦
              subst IsConsistent (ok-inj (sym (rw (insert_result, there) refl) ∙ e))
                (IsConsistent-with_result new there r)
          | inr missing ↦ absurd (ground arith)
        ]

  -- The text of a status can be read.
  to_row-IsReadable :
      (json : V → Option V) (w : Workflow V) (row : WorkflowRow V)
      → to_row json w ≡ ok row
      → IsReadable row
  unfolding to_row
  to_row-IsReadable json w row e =
      let (defs, first, rest) = >>=-eq-ok (to_defs json w.tasks) _ e in
      let (metadata, second, last) = >>=-eq-ok (json_dict json w.metadata) _ rest in
      subst IsReadable (ok-inj last) (w.status, refl)

  to_result_row-IsReadable :
      (json : V → Option V) (id t : String) (r : TaskResult V) (row : ResultRow V)
      → to_result_row json id t r ≡ ok row
      → IsReadableResult row
  unfolding to_result_row
  to_result_row-IsReadable json id t r row e =
      let (output, first, last) = >>=-eq-ok (json_output json r.output) _ e in
      subst IsReadableResult (ok-inj last) (r.status, refl)

  IsConsistent-save_results :
      (json : V → Option V) (id : String) (results : Dict String (TaskResult V)) (db : Database V)
      → IsConsistent db
      → IsConsistent (Sqlite.save_results json db id results).1
  unfolding Sqlite.save_results
  IsConsistent-save_results json id [] db c = c
  IsConsistent-save_results json id ((t, r) ∷ results) db c =
      elim (Result-cases (to_result_row json id t r >>= λ row. insert_result db row)) [
        | inl (inserted, e) ↦
            let (row, first, rest) = >>=-eq-ok (to_result_row json id t r) (insert_result db) e in
            rw (Sqlite.save_results, e)
              (IsConsistent-save_results json id results inserted (
                IsConsistent-insert c row inserted (to_result_row-IsReadable json id t r row first)
                  rest))
        | inr (exception, failed) ↦ rw (Sqlite.save_results, failed) c
      ]

  apply-IsConsistent :
      (json : V → Option V) (db : Database V) (operation : Operation V)
      → IsConsistent db
      → IsConsistent (apply json db operation)
  unfolding apply Sqlite.delete Sqlite.save
  apply-IsConsistent json db (save_op w) c = elim (Result-cases (to_row json w)) [
    | inl (row, e) ↦ rw (apply, e) (IsConsistent-insert_row c row (to_row-IsReadable json w row e))
    | inr (exception, failed) ↦ rw (apply, failed) c
  ]
  apply-IsConsistent json db (update_status_op id status) c = IsConsistent-update c id status
  apply-IsConsistent json db (save_results_op id results) c =
      IsConsistent-save_results json id results db c
  apply-IsConsistent json db (delete_op id) c = IsConsistent-delete c id

  -- Whatever operations have run on a consistent database, such as an empty one, no id of a workflow and
  -- no task of a workflow's results stands twice, each result belongs to a workflow that is there, and
  -- each status is the text of one. This holds also when some of the operations have raised.
  pub apply_all-IsConsistent :
      (json : V → Option V) (db : Database V) (operations : List (Operation V))
      → IsConsistent db
      → IsConsistent (apply_all json db operations)
  apply_all-IsConsistent json db [] c = c
  apply_all-IsConsistent json db (operation ∷ operations) c =
      apply_all-IsConsistent json (apply json db operation) operations
        (apply-IsConsistent json db operation c)

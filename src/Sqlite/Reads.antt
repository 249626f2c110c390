-- ===== src/Sqlite/Reads.antt =====
-- What the SQLite store of src/flowmesh/storage/sqlite.py reads back.
use fuzzy_octo_train.Prelude.{
  string_eq, ℕ, String, Bool, true, false, not, Option, none, some, List, [], ◌∷◌, ◌++◌, Dict, put,
  ◌≡◌, ◌==◌, refl, ◌∙◌, sym, arith, if◌then◌else◌, count, filter, any, All, Bool-cases,
  Option-cases, inl, inr, ==_iff, Result, ok, err, type_error, ◌⊎◌, ◌>>=◌, ap, subst,
}
use fuzzy_octo_train.Models.{TaskResult, Workflow}
use fuzzy_octo_train.Sqlite.{
  delete_workflow, insert_row, select_workflow, find, save, get_results, read_results,
}
use fuzzy_octo_train.Sqlite.Rows.{
  Database, WorkflowRow, ResultRow, is_workflow, is_result_of, to_tasks, row_to_workflow,
  read_result,
}
use fuzzy_octo_train.Sqlite.Reloaded.{read_back, is_storable, IsReloaded, IsRowOf, to_row-cases}
use fuzzy_octo_train.Sqlite.Tables.{any-eq-count, All-filter}
use fuzzy_octo_train.Sqlite.Consistency.{
  IsReadable, IsReadableResult, IsConsistent, parse_workflow_status-value, parse_task_status-value,
}

pub some-inj : {A : Type 0} {a b : A} → (some a) ≡ (some b) → a ≡ b
some-inj e = cc

module _ {ℓ} {A : Type ℓ} where
  filter_within :
      (p q : A → Bool) (xs : List A)
      → ((x : A) → p x ≡ true → q x ≡ true)
      → filter p (filter q xs) ≡ filter p xs
  filter_within p q [] h = refl
  filter_within p q (x ∷ xs) h = ground (arith, h x, filter_within p q xs h)

  filter_apart :
      (p q : A → Bool) (xs : List A)
      → ((x : A) → p x ≡ true → q x ≡ false)
      → filter p (filter q xs) ≡ []
  filter_apart p q [] h = refl
  filter_apart p q (x ∷ xs) h = ground (arith, h x, filter_apart p q xs h)

  filter_none : (p : A → Bool) (xs : List A) → count p xs ≡ 0 → filter p xs ≡ []
  filter_none p [] h = refl
  filter_none p (x ∷ xs) h = ground (arith, filter_none p xs)

module _ {V : Type 0} (nothing : V) (fresh : ℕ → String) where
  row_to_workflow-IsRowOf :
      (json : V → Option V) (w : Workflow V) (row : WorkflowRow V)
      → IsRowOf json w row
      → row_to_workflow nothing fresh row ≡ ok (read_back row.created_at nothing fresh row w.status)
  unfolding row_to_workflow
  row_to_workflow-IsRowOf json w row r =
      rw (row_to_workflow, r.status, parse_workflow_status-value w.status) refl

  find-row : Option (WorkflowRow V) → Result (Option (Workflow V))
  find-row found = elim found [
    | none ↦ ok none
    | some row ↦ do workflow ← row_to_workflow nothing fresh row; ok (some workflow)
  ]

  select_workflow-replaced :
      (rows : List (WorkflowRow V)) (row : WorkflowRow V) (k : String)
      → select_workflow (filter (λ r. not (is_workflow row.id r)) rows ++ row ∷ []) k
        ≡ (if row.id == k then some row else select_workflow rows k)
  unfolding select_workflow
  select_workflow-replaced [] row k = refl
  select_workflow-replaced (r ∷ rows) row k = ground (
    arith,
    select_workflow-replaced rows row k,
    ==_iff r.id row.id,
    ==_iff r.id k,
    ==_iff row.id k,
  )

  find-insert_row :
      (json : V → Option V) (db : Database V) (w : Workflow V) (row : WorkflowRow V) (k : String)
      → IsRowOf json w row
      → find nothing fresh (insert_row db row) k ≡ (
          if row.id == k
          then ok (some (read_back row.created_at nothing fresh row w.status))
          else find nothing fresh db k)
  unfolding find insert_row delete_workflow find-row
  find-insert_row json db w row k r =
      ap find-row (select_workflow-replaced db.workflows row k) ∙ (elim (Bool-cases (row.id == k)) [
        | inl here ↦ rw (here, row_to_workflow-IsRowOf json w row r) refl
        | inr other ↦ rw other refl
      ])

module _ {V : Type 0} where
  results-row : List (ResultRow V) → Result (Option (Dict String (TaskResult V)))
  results-row rows = elim rows [
    | [] ↦ ok none
    | row ∷ rest ↦ do results ← read_results (row ∷ rest) []; ok (some results)
  ]

module _ {V : Type 0} {db : Database V} (c : IsConsistent db) where
  results-deleted :
      (id k : String)
      → filter (is_result_of k) (delete_workflow db id).task_results
        ≡ (if id == k then [] else filter (is_result_of k) db.task_results)
  unfolding delete_workflow
  results-deleted id k = elim (Bool-cases (any (is_workflow id) db.workflows)) [
    | inr missing ↦
        rw (delete_workflow, missing)
          (elim (Bool-cases (id == k)) [
            | inl here ↦ rw here (
                filter_none (is_result_of k) db.task_results (
                  c.owned k
                    (ground (arith, any-eq-count (is_workflow id) db.workflows, ==_iff id k))))
            | inr other ↦ rw other refl
          ])
    | inl there ↦
        rw (delete_workflow, there)
          (elim (Bool-cases (id == k)) [
            | inl here ↦ rw here (
                filter_apart (is_result_of k) (λ row. not (is_result_of id row)) db.task_results
                  (λ row h. ground (arith, ==_iff id k)))
            | inr other ↦ rw other (
                filter_within (is_result_of k) (λ row. not (is_result_of id row)) db.task_results
                  (λ row h.
                    ground
                      (arith, ==_iff row.workflow_id id, ==_iff row.workflow_id k, ==_iff id k)))
          ])
  ]

  get_results-insert_row :
      (row : WorkflowRow V) (k : String)
      → get_results (insert_row db row) k ≡ (if row.id == k then ok none else get_results db k)
  unfolding get_results insert_row results-row
  get_results-insert_row row k =
      ap results-row (results-deleted row.id k)
      ∙ (elim (Bool-cases (row.id == k)) [ inl here ↦ rw here refl | inr other ↦ rw other refl ])

-- On a consistent database `save` raises, when `json.dumps` does for a value in the metadata of the workflow
-- or of a task, or it writes. Then the workflow is found, with its id, name, status, time and metadata, and
-- with tasks of the same names, dependencies, timeouts, retries, priorities and metadata, in the same order,
-- that have not run and have no condition and no arguments; values come back as JSON gives them. It has
-- no results: those that were saved for it before are gone. What is read under any other id stays.
pub save_lem :
    {V : Type 0} (json : V → Option V) (nothing : V) (fresh : ℕ → String) {db : Database V}
    → IsConsistent db
    → (w : Workflow V) (k : String)
    → ((save json db w ≡ err type_error) × (is_storable json w ≡ false))
      ⊎ ((saved : Database V) × (back : Workflow V) × (save json db w ≡ ok saved)
          × (is_storable json w ≡ true)
          × IsReloaded json w.created_at w back
          × (find nothing fresh saved k
              ≡ (if w.id == k then ok (some back) else find nothing fresh db k))
          × (get_results saved k ≡ (if w.id == k then ok none else get_results db k)))
unfolding save
save_lem json nothing fresh {db} c w k = elim (to_row-cases json w) [
  | inr (failed, bad) ↦ inl (rw (save, failed) refl, bad)
  | inl (row, written, r, good) ↦
      let back = read_back row.created_at nothing fresh row w.status in
      inr (
        insert_row db row,
        back,
        rw (save, written) refl,
        good,
        subst (λ at. IsReloaded json at w back) r.created_at
            (r.reload row.created_at nothing fresh),
        subst
            (λ id.
              find nothing fresh (insert_row db row) k
              ≡ (if id == k then ok (some back) else find nothing fresh db k))
            r.id (find-insert_row nothing fresh json db w row k r),
        subst
            (λ id.
              get_results (insert_row db row) k ≡ (if id == k then ok none else get_results db k))
            r.id (get_results-insert_row c row k),
      )
]

module _ {V : Type 0} where
  select-here :
      (row : WorkflowRow V) (rows : List (WorkflowRow V)) (k : String)
      → is_workflow k row ≡ true
      → select_workflow (row ∷ rows) k ≡ some row
  unfolding select_workflow
  select-here row rows k h = rw (select_workflow, h) refl

  select-other :
      (row : WorkflowRow V) (rows : List (WorkflowRow V)) (k : String)
      → is_workflow k row ≡ false
      → select_workflow (row ∷ rows) k ≡ select_workflow rows k
  unfolding select_workflow
  select-other row rows k h = rw (select_workflow, h) refl

  row_to_workflow-ok :
      (nothing : V) (fresh : ℕ → String) (row : WorkflowRow V)
      → IsReadable row
      → (w : Workflow V) × (row_to_workflow nothing fresh row ≡ ok w)
  unfolding row_to_workflow
  row_to_workflow-ok nothing fresh row (status, e) = (
    record {
      name = row.name;
      tasks = to_tasks nothing fresh 0 row.task_defs;
      id = row.id;
      status = status;
      created_at = row.created_at;
      metadata = row.metadata;
    },
    rw (row_to_workflow, e, parse_workflow_status-value status) refl,
  )

  select_workflow-IsReadable :
      (rows : List (WorkflowRow V)) (k : String) (row : WorkflowRow V)
      → All IsReadable rows
      → select_workflow rows k ≡ some row
      → IsReadable row
  unfolding select_workflow
  select_workflow-IsReadable [] k row r e = absurd (cc)
  select_workflow-IsReadable (first ∷ rows) k row r e = elim (Bool-cases (is_workflow k first)) [
    | inl here ↦ subst IsReadable (some-inj (sym (select-here first rows k here) ∙ e)) r.0
    | inr other ↦
        select_workflow-IsReadable rows k row r.1 (sym (select-other first rows k other) ∙ e)
  ]

  read_results-ok :
      (rows : List (ResultRow V)) (acc : Dict String (TaskResult V))
      → All IsReadableResult rows
      → (results : Dict String (TaskResult V)) × (read_results rows acc ≡ ok results)
  unfolding read_results read_result
  read_results-ok [] acc r = (acc, refl)
  read_results-ok (row ∷ rows) acc ((status, e), r) =
      let (results, read) =
        read_results-ok rows
          (put acc row.task_name (record {
            task_id = row.task_id;
            status = status;
            output = row.output;
            error = row.error;
            started_at = row.started_at;
            finished_at = row.finished_at;
          }))
          r in
      (results, rw (read_results, read_result, e, parse_task_status-value status) read)

  results-row-ok :
      (rows : List (ResultRow V))
      → All IsReadableResult rows
      → (results : Option (Dict String (TaskResult V))) × (results-row rows ≡ ok results)
  unfolding results-row
  results-row-ok [] r = (none, refl)
  results-row-ok (row ∷ rows) r =
      let (results, read) = read_results-ok (row ∷ rows) [] r in
      (some results, rw (results-row, read) refl)

  -- On a consistent database reading never raises: `get` and `get_results` return, for every id.
  pub reads-ok :
      (nothing : V) (fresh : ℕ → String) {db : Database V}
      → IsConsistent db
      → (k : String)
      → ((found : Option (Workflow V)) × (find nothing fresh db k ≡ ok found))
        × ((results : Option (Dict String (TaskResult V))) × (get_results db k ≡ ok results))
  unfolding find get_results results-row
  reads-ok nothing fresh {db} c k = (
    elim (Option-cases (select_workflow db.workflows k)) [
      | inl missing ↦ (none, rw (find, missing) refl)
      | inr (row, there) ↦
          let (w, read) =
            row_to_workflow-ok nothing fresh row
              (select_workflow-IsReadable db.workflows k row c.readable there) in
          (some w, rw (find, there, read) refl)
    ],
    results-row-ok (filter (is_result_of k) db.task_results)
        (All-filter IsReadableResult (is_result_of k) db.task_results c.readable_results),
  )

-- ===== src/Documents.antt =====
-- The JSON texts that src/flowmesh/storage/redis.py and src/flowmesh/storage/postgres.py keep, as what
-- is read from them. A workflow's has what a row of the SQLite store has.
use fuzzy_octo_train.Prelude.{
  string_eq, ℕ, String, Option, none, some, List, [], ◌∷◌, Dict, ◌≡◌, refl, sym, subst, ◌∙◌, arith,
  All, Option-cases, inl, inr, Result, ok, ◌>>=◌, >>=-eq-ok, unwrap, value_error, suc,
}
use fuzzy_octo_train.Models.{
  Task, TaskResult, Workflow, WorkflowStatus, task_status_value, workflow_status_value,
}
use fuzzy_octo_train.Sqlite.Rows.{
  TaskDef, WorkflowRow, row_to_workflow, to_row, to_tasks, to_def, to_defs, json_dict,
  parse_task_status,
}
use fuzzy_octo_train.Sqlite.Reloaded.{read_back}
use fuzzy_octo_train.Sqlite.Consistency.{parse_workflow_status-value}

pub record ResultDocument (V : Type 0) : Type 0 where
  pub task_id : String
  pub status : String
  pub output : Option V
  pub error : Option String
  pub started_at : Option ℕ
  pub finished_at : Option ℕ

module _ {V : Type 0} where
  -- Nothing sets `created_at`, so it is the time at which the workflow is read.
  unfoldable pub read_workflow :
      (now : ℕ) (nothing : V) (fresh : ℕ → String) → WorkflowRow V → Result (Workflow V)
  unfolding row_to_workflow
  read_workflow now nothing fresh row =
      row_to_workflow nothing fresh (record row { created_at = now })

  -- `str(r.output)`, as the value that the text is read back as
  abbrev pub text_of : (text : V → V) → Option V → Option V
  text_of text none = none
  text_of text (some output) = some (text output)

  abbrev pub to_document : (text : V → V) → TaskResult V → ResultDocument V
  to_document text r = record {
    task_id = r.task_id;
    status = task_status_value r.status;
    output = text_of text r.output;
    error = r.error;
    started_at = r.started_at;
    finished_at = r.finished_at;
  }

  abbrev pub to_documents :
      (text : V → V) → Dict String (TaskResult V) → Dict String (ResultDocument V)
  to_documents text [] = []
  to_documents text ((name, r) ∷ results) = (name, to_document text r) ∷ to_documents text results

  unfoldable pub read_document : ResultDocument V → Result (TaskResult V)
  unfolding parse_task_status
  read_document r = do
    status ← unwrap (value_error r.status) (parse_task_status r.status)
    ok (record {
      task_id = r.task_id;
      status = status;
      output = r.output;
      error = r.error;
      started_at = r.started_at;
      finished_at = r.finished_at;
    })

  -- The names of a JSON object differ.
  unfoldable pub read_documents :
      Dict String (ResultDocument V) → Result (Dict String (TaskResult V))
  unfolding read_document
  read_documents [] = ok []
  read_documents ((name, r) ∷ results_dict) = do
    result ← read_document r
    results ← read_documents results_dict
    ok ((name, result) ∷ results)

  pub read_workflow-ok :
      (now : ℕ) (nothing : V) (fresh : ℕ → String) (row : WorkflowRow V) (status : WorkflowStatus)
      → row.status ≡ workflow_status_value status
      → read_workflow now nothing fresh row ≡ ok (read_back now nothing fresh row status)
  unfolding read_workflow row_to_workflow
  read_workflow-ok now nothing fresh row status e =
      rw (read_workflow, row_to_workflow, e, parse_workflow_status-value status) refl

  -- Every text in JSON reads as what it is written from.
  pub record IsPlain (json : V → Option V) (row : WorkflowRow V) : Type 0 where
    pub metadata : json_dict json row.metadata ≡ ok row.metadata
    pub task_defs :
        All (λ (td : TaskDef V). json_dict json td.metadata ≡ ok td.metadata) row.task_defs

  to_defs-to_tasks :
      (json : V → Option V) (nothing : V) (fresh : ℕ → String) (i : ℕ) (defs : List (TaskDef V))
      → All (λ (td : TaskDef V). json_dict json td.metadata ≡ ok td.metadata) defs
      → to_defs json (to_tasks nothing fresh i defs) ≡ ok defs
  unfolding to_defs to_def
  to_defs-to_tasks json nothing fresh i [] h = refl
  to_defs-to_tasks json nothing fresh i (td ∷ tds) (e, h) =
      rw (to_defs, to_def, e, to_defs-to_tasks json nothing fresh (suc i) tds h) refl

  -- A workflow that was read is written as it was, but for its status and its time.
  pub to_row-read_back :
      (json : V → Option V) (now : ℕ) (nothing : V) (fresh : ℕ → String) (row : WorkflowRow V)
      (status status' : WorkflowStatus)
      → IsPlain json row
      → to_row json (record (read_back now nothing fresh row status) { status = status' })
        ≡ ok (record row { status = workflow_status_value status'; created_at = now })
  unfolding to_row
  to_row-read_back json now nothing fresh row status status' p =
      rw (to_row, to_defs-to_tasks json nothing fresh 0 row.task_defs p.task_defs, p.metadata) refl

ok-inj : {A : Type 0} {a b : A} → ok a ≡ ok b → a ≡ b
ok-inj e = cc

-- What JSON gives for a value, it gives for that too.
abbrev pub IsStable : {V : Type 0} → (json : V → Option V) → Type 0
IsStable {V} json = (v v' : V) → json v ≡ some v' → json v' ≡ some v'

module _ {V : Type 0} (json : V → Option V) (stable : IsStable json) where
  json_dict-plain : (d d' : Dict String V) → json_dict json d ≡ ok d' → json_dict json d' ≡ ok d'
  unfolding json_dict
  json_dict-plain [] d' e = subst (λ x. json_dict json x ≡ ok x) (ok-inj e) refl
  json_dict-plain ((key, value) ∷ d) d' e = elim (Option-cases (json value)) [
    | inl bad ↦ absurd (ground (arith, bad))
    | inr (value', v) ↦
        let (rest, first, last) =
          >>=-eq-ok (json_dict json d) (λ entries. ok ((key, value') ∷ entries))
            (sym (rw (json_dict, v) refl) ∙ e) in
        subst (λ x. json_dict json x ≡ ok x) (ok-inj last)
          (rw (json_dict, stable value value' v, json_dict-plain d rest first) refl)
  ]

  to_defs-plain :
      (tasks : List (Task V)) (defs : List (TaskDef V))
      → to_defs json tasks ≡ ok defs
      → All (λ (td : TaskDef V). json_dict json td.metadata ≡ ok td.metadata) defs
  unfolding to_defs to_def
  to_defs-plain [] defs e =
      subst (All (λ (td : TaskDef V). json_dict json td.metadata ≡ ok td.metadata)) (ok-inj e) tt
  to_defs-plain (t ∷ tasks) defs e =
      let (td, made, e') = >>=-eq-ok (to_def json t) _ e in
      let (tds, rest, last) = >>=-eq-ok (to_defs json tasks) _ e' in
      let (metadata, written, same) = >>=-eq-ok (json_dict json t.metadata) _ made in
      subst (All (λ (td : TaskDef V). json_dict json td.metadata ≡ ok td.metadata)) (ok-inj last) (
        subst (λ (td : TaskDef V). json_dict json td.metadata ≡ ok td.metadata) (ok-inj same)
            (json_dict-plain t.metadata metadata written),
        to_defs-plain tasks tds rest,
      )

  pub to_row-IsPlain :
      (w : Workflow V) (row : WorkflowRow V) → to_row json w ≡ ok row → IsPlain json row
  unfolding to_row
  to_row-IsPlain w row e =
      let (defs, made, e') = >>=-eq-ok (to_defs json w.tasks) _ e in
      let (metadata, written, last) = >>=-eq-ok (json_dict json w.metadata) _ e' in
      subst (IsPlain json) (ok-inj last) (record {
        metadata = json_dict-plain w.metadata metadata written;
        task_defs = to_defs-plain w.tasks defs made;
      })

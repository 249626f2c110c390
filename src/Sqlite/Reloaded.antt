-- ===== src/Sqlite/Reloaded.antt =====
-- What a workflow is when it has been written by `save` of src/flowmesh/storage/sqlite.py, or by that of a
-- store like it, and read again.
use fuzzy_octo_train.Prelude.{
  string_eq, ℕ, suc, String, Bool, true, false, ◌&&◌, Option, none, some, List, [], ◌∷◌, map, Dict,
  ◌≡◌, refl, ap, ◌∙◌, ℤ, all, All, ◌⊎◌, inl, inr, Option-cases, Result, ok, err, type_error,
}
use fuzzy_octo_train.Models.{Task, TaskStatus, Workflow, WorkflowStatus, workflow_status_value}
use fuzzy_octo_train.Sqlite.Rows.{
  TaskDef, WorkflowRow, json_dict, to_def, to_defs, to_row, to_task, to_tasks,
}

module _ {V : Type 0} where
  -- The values of a dictionary, and what a text in JSON makes of them.
  abbrev pub plain : Dict String V → Dict String (Option V)
  plain [] = []
  plain ((key, value) ∷ d) = (key, some value) ∷ plain d

  abbrev pub encoded : (json : V → Option V) → Dict String V → Dict String (Option V)
  encoded json [] = []
  encoded json ((key, value) ∷ d) = (key, json value) ∷ encoded json d

  abbrev pub is_some : Option V → Bool
  is_some none = false
  is_some (some value) = true

  -- `json.dumps` does not raise.
  abbrev pub is_json : (json : V → Option V) → Dict String V → Bool
  is_json json [] = true
  is_json json ((key, value) ∷ d) = is_some (json value) && is_json json d

  abbrev pub is_storable : (json : V → Option V) → Workflow V → Bool
  is_storable json w =
      all (λ (t : Task V). is_json json t.metadata) w.tasks && is_json json w.metadata

-- What a store keeps of a task.
pub record Outline (V : Type 0) : Type 0 where
  pub name : String
  pub depends_on : List String
  pub timeout_seconds : ℕ
  pub retry_count : ℤ
  pub priority : ℤ
  pub metadata : Dict String (Option V)

module _ {V : Type 0} where
  abbrev pub outline : (Dict String V → Dict String (Option V)) → Task V → Outline V
  outline values t = record {
    name = t.name;
    depends_on = t.depends_on;
    timeout_seconds = t.timeout_seconds;
    retry_count = t.retry_count;
    priority = t.priority;
    metadata = values t.metadata;
  }

  -- A task as it is made: it has not run, and has neither a condition nor arguments.
  pub record IsBare (t : Task V) : Type 0 where
    pub status : t.status ≡ TaskStatus.pending
    pub result : t.result ≡ none
    pub input_map : t.input_map ≡ []
    pub condition : t.condition ≡ none

  -- The workflow that is read, with this time.
  pub record IsReloaded (json : V → Option V) (at : ℕ) (w back : Workflow V) : Type 0 where
    pub id : back.id ≡ w.id
    pub name : back.name ≡ w.name
    pub status : back.status ≡ w.status
    pub created_at : back.created_at ≡ at
    pub metadata : plain back.metadata ≡ encoded json w.metadata
    pub tasks : map (outline plain) back.tasks ≡ map (outline (encoded json)) w.tasks
    pub bare : All IsBare back.tasks

  -- What is read from a row that tells a status.
  abbrev pub read_back :
      (now : ℕ) (nothing : V) (fresh : ℕ → String) → WorkflowRow V → WorkflowStatus → Workflow V
  read_back now nothing fresh row status = record {
    name = row.name;
    tasks = to_tasks nothing fresh 0 row.task_defs;
    id = row.id;
    status = status;
    created_at = now;
    metadata = row.metadata;
  }

  module _ (json : V → Option V) where
    -- Writing a dictionary gives the texts of its values, or raises.
    IsWritten : Dict String V → Result (Dict String V) → Type 0
    IsWritten d written =
        ((d' : Dict String V) × (written ≡ ok d')
          × (plain d' ≡ encoded json d)
          × (is_json json d ≡ true))
        ⊎ ((written ≡ err type_error) × (is_json json d ≡ false))

    json_dict-cases : (d : Dict String V) → IsWritten d (json_dict json d)
    unfolding json_dict IsWritten
    json_dict-cases [] = inl ([], refl, refl, refl)
    json_dict-cases ((key, value) ∷ d) = elim (Option-cases (json value)) [
      | inl bad ↦ inr (rw (json_dict, bad) refl, rw bad refl)
      | inr (value', e) ↦ elim (json_dict-cases d) [
        | inl (d', written, same, good) ↦ inl (
          (key, value') ∷ d',
          rw (json_dict, e, written) refl,
          rw e (ap (◌∷◌ (key, some value')) same),
          rw e good,
        )
        | inr (failed, bad) ↦ inr (rw (json_dict, e, failed) refl, rw e bad)
      ]
    ]

    AreReloaded : List (Task V) → List (TaskDef V) → Type 0
    AreReloaded tasks defs =
        (nothing : V) (fresh : ℕ → String) (i : ℕ)
        → map (outline plain) (to_tasks nothing fresh i defs) ≡ map (outline (encoded json)) tasks

    AreWritten : List (Task V) → Result (List (TaskDef V)) → Type 0
    AreWritten tasks written =
        ((defs : List (TaskDef V)) × (written ≡ ok defs)
          × AreReloaded tasks defs
          × (all (λ (t : Task V). is_json json t.metadata) tasks ≡ true))
        ⊎ ((written ≡ err type_error)
            × (all (λ (t : Task V). is_json json t.metadata) tasks ≡ false))

    -- The outline of a task that is read, from what was written of the metadata.
    reloaded_outline :
        (t : Task V) (metadata : Dict String V) (nothing : V) (id : String)
        → plain metadata ≡ encoded json t.metadata
        → outline plain (
            to_task nothing
              (record {
                name = t.name;
                depends_on = t.depends_on;
                timeout_seconds = t.timeout_seconds;
                retry_count = t.retry_count;
                priority = t.priority;
                metadata = metadata;
              })
              id)
          ≡ outline (encoded json) t
    reloaded_outline t metadata nothing id same =
        ap
          (λ values. record {
            name = t.name;
            depends_on = t.depends_on;
            timeout_seconds = t.timeout_seconds;
            retry_count = t.retry_count;
            priority = t.priority;
            metadata = values;
          })
          same

    to_defs-cases : (tasks : List (Task V)) → AreWritten tasks (to_defs json tasks)
    unfolding to_defs to_def AreWritten AreReloaded IsWritten
    to_defs-cases [] = inl ([], refl, λ nothing fresh i. refl, refl)
    to_defs-cases (t ∷ tasks) = elim (json_dict-cases t.metadata) [
      | inr (failed, bad) ↦ inr (rw (to_defs, to_def, failed) refl, rw bad refl)
      | inl (metadata, written, same, good) ↦ elim (to_defs-cases tasks) [
        | inr (failed, bad) ↦ inr (rw (to_defs, to_def, written, failed) refl, rw good bad)
        | inl (defs, written', back, good') ↦ inl (
          record {
            name = t.name;
            depends_on = t.depends_on;
            timeout_seconds = t.timeout_seconds;
            retry_count = t.retry_count;
            priority = t.priority;
            metadata = metadata;
          }
              ∷ defs,
          rw (to_defs, to_def, written, written') refl,
          λ nothing fresh i.
              ap (λ first. first ∷ map (outline plain) (to_tasks nothing fresh (suc i) defs))
                (reloaded_outline t metadata nothing (fresh i) same)
              ∙ ap (◌∷◌ (outline (encoded json) t)) (back nothing fresh (suc i)),
          rw good good',
        )
      ]
    ]

    to_tasks-IsBare :
        (nothing : V) (fresh : ℕ → String) (i : ℕ) (defs : List (TaskDef V))
        → All IsBare (to_tasks nothing fresh i defs)
    to_tasks-IsBare nothing fresh i [] = tt
    to_tasks-IsBare nothing fresh i (td ∷ defs) = (
      record { status = refl; result = refl; input_map = refl; condition = refl },
      to_tasks-IsBare nothing fresh (suc i) defs,
    )

    -- What `save` writes of a workflow reads as that workflow, or `save` raises.
    pub record IsRowOf (w : Workflow V) (row : WorkflowRow V) : Type 0 where
      pub id : row.id ≡ w.id
      pub status : row.status ≡ workflow_status_value w.status
      pub created_at : row.created_at ≡ w.created_at
      pub reload :
          (at : ℕ) (nothing : V) (fresh : ℕ → String)
          → IsReloaded json at w (read_back at nothing fresh row w.status)

    pub to_row-cases :
        (w : Workflow V)
        → ((row : WorkflowRow V) × (to_row json w ≡ ok row)
            × IsRowOf w row
            × (is_storable json w ≡ true))
          ⊎ ((to_row json w ≡ err type_error) × (is_storable json w ≡ false))
    unfolding to_row AreWritten AreReloaded IsWritten
    to_row-cases w = elim (to_defs-cases w.tasks) [
      | inr (failed, bad) ↦ inr (rw (to_row, failed) refl, rw bad refl)
      | inl (defs, written, back, good) ↦ elim (json_dict-cases w.metadata) [
        | inr (failed, bad) ↦ inr (rw (to_row, written, failed) refl, rw good bad)
        | inl (metadata, written', same, good') ↦ inl (
          record {
            id = w.id;
            name = w.name;
            status = workflow_status_value w.status;
            created_at = w.created_at;
            metadata = metadata;
            task_defs = defs;
          },
          rw (to_row, written, written') refl,
          record {
            id = refl;
            status = refl;
            created_at = refl;
            reload = λ at nothing fresh. record {
              id = refl;
              name = refl;
              status = refl;
              created_at = refl;
              metadata = same;
              tasks = back nothing fresh 0;
              bare = to_tasks-IsBare nothing fresh 0 defs;
            };
          },
          rw good good',
        )
      ]
    ]

-- ===== src/Redis.antt =====
-- The store of src/flowmesh/storage/redis.py. The keys `workflow:{id}`, those that end in `:results` and
-- the members of `workflows:list` are three dictionaries: the ids are taken not to end in `:results`.
pub mod Consistency
pub mod Updates
pub mod Pages
use fuzzy_octo_train.Prelude.{
  string_eq, ℕ, suc, ◌-◌, String, Option, none, some, List, [], ◌∷◌, Dict, get, put, take, drop,
  length, ℤ, pos, negsuc, ◌+ℤ◌, decrement, Result, ok, ◌>>=◌,
}
use fuzzy_octo_train.Models.{Task, TaskResult, Workflow, WorkflowStatus}
use fuzzy_octo_train.Sqlite.Rows.{WorkflowRow, to_row}
use fuzzy_octo_train.Documents.{ResultDocument, read_workflow, to_documents, read_documents}

pub record Redis (V : Type 0) : Type 0 where
  pub workflows : Dict String (WorkflowRow V)
  pub results : Dict String (Dict String (ResultDocument V))
  -- the members of `workflows:list` with their scores
  pub scores : Dict String ℕ

-- `zrevrange`, on the members from the highest score: both bounds are included, and a negative one counts
-- from the end.
abbrev pub first_of : ℕ → ℤ → ℕ
first_of n (pos i) = i
first_of n (negsuc i) = n - suc i

abbrev pub end_of : ℕ → ℤ → ℕ
end_of n (pos i) = suc i
end_of n (negsuc i) = n - i

abbrev pub zrevrange : {A : Type 0} → List A → ℤ → ℤ → List A
zrevrange members start stop =
    take (end_of (length members) stop - first_of (length members) start)
      (drop (first_of (length members) start) members)

module _ {V : Type 0} where
  unfoldable pub set_row : Redis V → WorkflowRow V → Redis V
  set_row s row = record s {
    workflows = put s.workflows row.id row;
    scores = put s.scores row.id row.created_at;
  }

  unfoldable pub save : (json : V → Option V) → Redis V → Workflow V → Result (Redis V)
  unfolding to_row set_row
  save json s workflow = do row ← to_row json workflow; ok (set_row s row)

  -- named `get` in the source
  unfoldable pub find :
      (now : ℕ) (nothing : V) (fresh : ℕ → String) → Redis V → String → Result (Option (Workflow V))
  unfolding read_workflow
  find now nothing fresh s workflow_id = elim (get s.workflows workflow_id) [
    | none ↦ ok none
    | some row ↦ do workflow ← read_workflow now nothing fresh row; ok (some workflow)
  ]

  abbrev pub append_found : Option (Workflow V) → List (Workflow V) → List (Workflow V)
  append_found none workflows = workflows
  append_found (some workflow) workflows = workflow ∷ workflows

  -- The loop of `list_all`: the i-th workflow is read at the time `now i`.
  unfoldable pub read_ids :
      (now : ℕ → ℕ) (nothing : V) (fresh : ℕ → String)
      → Redis V
      → ℕ
      → List String
      → Result (List (Workflow V))
  unfolding find
  read_ids now nothing fresh s i [] = ok []
  read_ids now nothing fresh s i (wf_id ∷ workflow_ids) = do
    wf ← find (now i) nothing fresh s wf_id
    workflows ← read_ids now nothing fresh s (suc i) workflow_ids
    ok (append_found wf workflows)

  -- `order` lists the members of a sorted set, as Redis does, from the highest score.
  unfoldable pub list_all :
      (order : Dict String ℕ → List String) (now : ℕ → ℕ) (nothing : V) (fresh : ℕ → String)
      → Redis V
      → (limit offset : ℤ) → Result (List (Workflow V))
  unfolding read_ids
  list_all order now nothing fresh s limit offset =
      read_ids now nothing fresh s 0
        (zrevrange (order s.scores) offset (decrement (offset +ℤ limit)))

  unfoldable pub save_status :
      (json : V → Option V) → Redis V → WorkflowStatus → Option (Workflow V) → Result (Redis V)
  unfolding save
  save_status json s status none = ok s
  save_status json s status (some wf) = save json s (record wf { status = status })

  unfoldable pub update_status :
      (json : V → Option V) (now : ℕ) (nothing : V) (fresh : ℕ → String)
      → Redis V
      → String
      → WorkflowStatus
      → Result (Redis V)
  unfolding find save_status
  update_status json now nothing fresh s workflow_id status = do
    wf ← find now nothing fresh s workflow_id
    save_status json s status wf

  unfoldable pub save_results :
      (text : V → V) → Redis V → String → Dict String (TaskResult V) → Redis V
  save_results text s workflow_id results = record s {
    results = put s.results workflow_id (to_documents text results);
  }

  unfoldable pub get_results : Redis V → String → Result (Option (Dict String (TaskResult V)))
  unfolding read_documents
  get_results s workflow_id = elim (get s.results workflow_id) [
    | none ↦ ok none
    | some results_dict ↦ do results ← read_documents results_dict; ok (some results)
  ]

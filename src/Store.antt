-- ===== src/Store.antt =====
-- The workflow stores: the port of src/flowmesh/storage/base.py and the dictionary-backed store of
-- src/flowmesh/storage/memory.py. The store copies what it keeps and what it hands out, so values
-- stand for objects here.
pub mod Contract
pub mod Listing
use fuzzy_octo_train.Prelude.{
  string_eq, ℕ, ◌+◌, ◌-◌, min, String, Bool, Option, none, some, List, [], ◌∷◌, Dict, values, get,
  put, pop, has, ℤ, pos, negsuc, ◌+ℤ◌, length, take, drop,
}
use fuzzy_octo_train.Models.{Workflow, WorkflowStatus, TaskResult}

pub record InMemoryStore (V : Type 0) : Type 0 where
  pub workflows : Dict String (Workflow V)
  pub results : Dict String (Dict String (TaskResult V))

-- `res if res else None`: no results at all are None too
abbrev pub non_empty : {A : Type 0} → Option (Dict String A) → Option (Dict String A)
non_empty none = none
non_empty (some []) = none
non_empty (some (entry ∷ rest)) = some (entry ∷ rest)

module _ {V : Type 0} where
  abbrev pub empty : InMemoryStore V
  empty = record { workflows = []; results = [] }

  unfoldable pub save : InMemoryStore V → Workflow V → InMemoryStore V
  save s workflow = record s { workflows = put s.workflows workflow.id workflow }

  -- named `get` in the source
  unfoldable pub find : InMemoryStore V → String → Option (Workflow V)
  find s workflow_id = get s.workflows workflow_id

  abbrev pub with_status : WorkflowStatus → Workflow V → Workflow V
  with_status status workflow = record workflow { status = status }

  unfoldable pub update_status : InMemoryStore V → String → WorkflowStatus → InMemoryStore V
  update_status s workflow_id status = elim (get s.workflows workflow_id) [
    | none ↦ s
    | some workflow ↦ record s {
      workflows = put s.workflows workflow_id (with_status status workflow);
    }
  ]

  unfoldable pub save_results :
      InMemoryStore V → String → Dict String (TaskResult V) → InMemoryStore V
  save_results s workflow_id results = record s { results = put s.results workflow_id results }

  unfoldable pub get_results : InMemoryStore V → String → Option (Dict String (TaskResult V))
  get_results s workflow_id = non_empty (get s.results workflow_id)

  unfoldable pub delete : InMemoryStore V → String → Bool × InMemoryStore V
  delete s workflow_id = (
    has s.workflows workflow_id,
    record { workflows = pop s.workflows workflow_id; results = pop s.results workflow_id },
  )

-- A bound of a slice: from the front, or, if negative, from the end.
unfoldable pub slice_bound : ℕ → ℤ → ℕ
slice_bound len (pos i) = min i len
slice_bound len (negsuc i) = len - (i + 1)

-- `xs[start:stop]`
unfoldable pub slice {ℓ} : {A : Type ℓ} → List A → ℤ → ℤ → List A
unfolding slice_bound
slice xs start stop =
    let first = slice_bound (length xs) start in
    take (slice_bound (length xs) stop - first) (drop first xs)

unfoldable pub list_all : {V : Type 0} → InMemoryStore V → (limit offset : ℤ) → List (Workflow V)
unfolding slice
list_all s limit offset = slice (values s.workflows) offset (offset +ℤ limit)

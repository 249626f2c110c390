-- ===== src/Checkpoint.antt =====
-- The checkpoint store of src/flowmesh/core/checkpoint.py, in memory. It copies what it keeps and
-- what it hands out, so values stand for objects here.
use fuzzy_octo_train.Prelude.{
  string_eq, String, ◌&&◌, Option, none, some, [], Dict, get, get_or, put, pop, setdefault, ◌≡◌,
  ◌==◌, arith, get-put, get-pop, get-setdefault, get-none, if◌then◌else◌, ==_iff, ==_refl,
  Bool-cases, inl, inr,
}
use fuzzy_octo_train.Models.{TaskResult}
use fuzzy_octo_train.Store.{non_empty}

abbrev pub CheckpointStore : Type 0 → Type 0
CheckpointStore V = Dict String (Dict String (TaskResult V))

module _ {V : Type 0} where
  unfoldable pub save_task_result :
      CheckpointStore V → (workflow_id task_name : String) → TaskResult V → CheckpointStore V
  save_task_result saved workflow_id task_name result =
      let opened = setdefault saved workflow_id [] in
      put opened workflow_id (put (get_or opened workflow_id []) task_name result)

  unfoldable pub load_checkpoint : CheckpointStore V → String → Option (Dict String (TaskResult V))
  load_checkpoint saved workflow_id = non_empty (get saved workflow_id)

  unfoldable pub clear : CheckpointStore V → String → CheckpointStore V
  clear saved workflow_id = pop saved workflow_id

  -- The result of a task in a loaded checkpoint.
  abbrev pub result_in : Option (Dict String (TaskResult V)) → String → Option (TaskResult V)
  result_in none task_name = none
  result_in (some checkpoint) task_name = get checkpoint task_name

  result_in-load :
      (saved : CheckpointStore V) (workflow_id task_name : String)
      → result_in (load_checkpoint saved workflow_id) task_name
        ≡ get (get_or saved workflow_id []) task_name
  unfolding load_checkpoint
  result_in-load saved workflow_id task_name = ground arith

  -- A checkpoint that is loaded after a task's result was saved holds that result for that task of that
  -- workflow, and what it held before for every other.
  pub load_checkpoint-save :
      (saved : CheckpointStore V) (workflow_id task_name : String) (result : TaskResult V)
      (w n : String)
      → result_in (load_checkpoint (save_task_result saved workflow_id task_name result) w) n ≡ (
          if workflow_id == w && task_name == n
          then some result
          else result_in (load_checkpoint saved w) n)
  unfolding save_task_result
  load_checkpoint-save saved workflow_id task_name result w n =
      let opened = setdefault saved workflow_id [] in
      ground (
        arith,
        result_in-load (save_task_result saved workflow_id task_name result) w n,
        result_in-load saved w n,
        get-put opened workflow_id w (put (get_or opened workflow_id []) task_name result),
        get-put (get_or opened workflow_id []) task_name n result,
        get-setdefault saved workflow_id w [],
        get-setdefault saved workflow_id workflow_id [],
        get-none saved workflow_id,
        ==_iff workflow_id w,
        ==_refl workflow_id,
      )

  -- Clearing a workflow's checkpoint leaves nothing to load for it, and the others as they were.
  pub load_checkpoint-clear :
      (saved : CheckpointStore V) (workflow_id w : String)
      → load_checkpoint (clear saved workflow_id) w
        ≡ (if workflow_id == w then none else load_checkpoint saved w)
  unfolding load_checkpoint clear
  load_checkpoint-clear saved workflow_id w = elim (Bool-cases (workflow_id == w)) [
    | inl here ↦ rw (get-pop, here)
    | inr other ↦ rw (get-pop, other)
  ]

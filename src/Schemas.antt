-- ===== src/Schemas.antt =====
-- The request and response schemas of src/flowmesh/api/schemas.py. A default of a field is that of the
-- function that reads the request's JSON; its constraints are tested by `is_valid`.
use Prim.Native.String.{count}
use fuzzy_octo_train.Prelude.{
  ℕ, String, Bool, ◌&&◌, Option, List, Dict, ℤ, pos, leb_ℤ, leb, ltb, all, length,
}

-- `V` is the type of metadata.
pub record TaskDefinition (V : Type 0) : Type 0 where
  pub name : String
  pub depends_on : List String
  pub timeout_seconds : ℕ
  pub retry_count : ℤ
  pub metadata : Dict String V

pub record WorkflowCreate (V : Type 0) : Type 0 where
  pub name : String
  pub tasks : List (TaskDefinition V)
  pub metadata : Dict String V

pub record TaskResultResponse : Type 0 where
  pub task_id : String
  pub status : String
  pub output : Option String
  pub error : Option String
  pub started_at : Option ℕ
  pub finished_at : Option ℕ
  pub duration_ms : Option ℤ

pub record WorkflowResponse (V : Type 0) : Type 0 where
  pub id : String
  pub name : String
  pub status : String
  pub created_at : ℕ
  pub task_count : ℕ
  pub metadata : Dict String V

-- A `WorkflowResponse` with results.
pub record WorkflowDetailResponse (V : Type 0) : Type 0 where
  pub workflow : WorkflowResponse V
  pub results : Dict String TaskResultResponse

pub record EngineStatsResponse : Type 0 where
  pub total_workflows : ℕ
  pub pending : ℕ
  pub running : ℕ
  pub succeeded : ℕ
  pub failed : ℕ

-- `WorkflowExecutionResponse` and `WorkflowCancelResponse`
pub record ControlResponse : Type 0 where
  pub workflow_id : String
  pub status : String
  pub message : String

-- `Field(..., min_length=1, max_length=limit)`: Python counts characters
abbrev pub has_length : (limit : ℕ) → String → Bool
has_length limit s = leb 1 (count s) && leb (count s) limit

unfoldable pub is_valid_task : {V : Type 0} → TaskDefinition V → Bool
is_valid_task task =
    has_length 128 task.name
    && (ltb 0 task.timeout_seconds
        && (leb_ℤ (pos 0) task.retry_count && leb_ℤ task.retry_count (pos 10)))

unfoldable pub is_valid : {V : Type 0} → WorkflowCreate V → Bool
unfolding is_valid_task
is_valid body =
    has_length 256 body.name && (leb 1 (length body.tasks) && all is_valid_task body.tasks)

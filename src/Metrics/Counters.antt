-- ===== src/Metrics/Counters.antt =====
-- The counters of `PrometheusMetrics` against its observations.
use fuzzy_octo_train.Prelude.{
  string_eq, ℕ, ◌+◌, ◌≤◌, String, Bool, Option, none, some, List, [], ◌∷◌, ◌++◌, Dict, get_or,
  arith, length, length-append, get-put, ==_iff, sub_ℕ, ℤ,
}
use fuzzy_octo_train.Models.{Task, TaskResult, Workflow}
use fuzzy_octo_train.Metrics.{
  PrometheusMetrics, no_metrics, count_one, observe_since, record_workflow_started,
  record_workflow_completed, record_task_started, record_task_completed, before_task, after_task,
}

-- What is recorded, each with the time.
pub data Recording (V : Type 0) : Type 0 where
  workflow_started : (workflow : Workflow V) (now : ℕ) → Recording V
  workflow_completed : (workflow : Workflow V) (success : Bool) (now : ℕ) → Recording V
  task_started : (task : Task V) (workflow : Workflow V) (now : ℕ) → Recording V
  task_completed :
      (task : Task V) (result : TaskResult V) (workflow : Workflow V) (now : ℕ) → Recording V

module _ {V : Type 0} where
  abbrev pub add_recording : PrometheusMetrics → Recording V → PrometheusMetrics
  add_recording m (workflow_started workflow now) = record_workflow_started m workflow now
  add_recording m (workflow_completed workflow success now) =
      record_workflow_completed m workflow success now
  add_recording m (task_started task workflow now) = before_task m task workflow now
  add_recording m (task_completed task result workflow now) = after_task m task result workflow now

  abbrev pub add_recordings : PrometheusMetrics → List (Recording V) → PrometheusMetrics
  add_recordings m [] = m
  add_recordings m (recording ∷ recordings) = add_recordings (add_recording m recording) recordings

-- No status has more observations than completions.
abbrev pub IsCounted : Dict String ℕ → Dict String (List ℤ) → Type 0
IsCounted total durations =
    (status : String) → length (get_or durations status []) ≤ get_or total status 0

IsCounted-observe :
    (total : Dict String ℕ) (durations : Dict String (List ℤ)) (status : String)
    (started : Option ℕ) (now : ℕ)
    → IsCounted total durations
    → IsCounted (count_one total status) (observe_since durations status started now)
IsCounted-observe total durations status none now c k =
    ground (arith, c k, get-put total status k (get_or total status 0 + 1), ==_iff status k)
IsCounted-observe total durations status (some start) now c k = ground (
  arith,
  c k,
  get-put total status k (get_or total status 0 + 1),
  get-put durations status k (get_or durations status [] ++ sub_ℕ now start ∷ []),
  length-append (get_or durations status []) (sub_ℕ now start ∷ []),
  ==_iff status k,
)

module _ {V : Type 0} where
  add_recording-IsCounted :
      (m : PrometheusMetrics) (recording : Recording V)
      → IsCounted m.workflow_total m.workflow_durations × IsCounted m.task_total m.task_durations
      → let m' : PrometheusMetrics = add_recording m recording in
        IsCounted m'.workflow_total m'.workflow_durations
        × IsCounted m'.task_total m'.task_durations
  unfolding record_workflow_started record_workflow_completed record_task_started
      record_task_completed
  add_recording-IsCounted m (workflow_started workflow now) c = c
  add_recording-IsCounted m (workflow_completed workflow success now) c =
      (IsCounted-observe m.workflow_total m.workflow_durations _ _ now c.0, c.1)
  add_recording-IsCounted m (task_started task workflow now) c = c
  add_recording-IsCounted m (task_completed task result workflow now) c =
      (c.0, IsCounted-observe m.task_total m.task_durations _ _ now c.1)

  recordings-IsCounted :
      (recordings : List (Recording V)) (m : PrometheusMetrics)
      → IsCounted m.workflow_total m.workflow_durations × IsCounted m.task_total m.task_durations
      → let m' : PrometheusMetrics = add_recordings m recordings in
        IsCounted m'.workflow_total m'.workflow_durations
        × IsCounted m'.task_total m'.task_durations
  recordings-IsCounted [] m c = c
  recordings-IsCounted (recording ∷ recordings) m c =
      recordings-IsCounted recordings (add_recording m recording)
        (add_recording-IsCounted m recording c)

  -- Whatever is recorded from new metrics on, no status of workflows or tasks has more observed
  -- durations than its counter tells.
  pub add_recordings-IsCounted :
      (recordings : List (Recording V))
      → let m : PrometheusMetrics = add_recordings no_metrics recordings in
        IsCounted m.workflow_total m.workflow_durations × IsCounted m.task_total m.task_durations
  add_recordings-IsCounted recordings =
      recordings-IsCounted recordings no_metrics (λ status. omega arith, λ status. omega arith)

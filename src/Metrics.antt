-- ===== src/Metrics.antt =====
-- The Prometheus metrics of src/flowmesh/observability/__init__.py. Times and durations are milliseconds. A
-- line of the export is a structure here: writing it as text is left out.
pub mod Buckets
pub mod Counters
use fuzzy_octo_train.Prelude.{
  string_eq, nat_eq, ℕ, suc, ◌+◌, ◌-◌, String, Bool, true, false, Option, none, some, List, [], ◌∷◌,
  ◌++◌, Dict, get, get_or, put, pop, map, ◌==◌, length, ltb, leb_ℤ, ℤ, pos, sub_ℕ, ◌+ℤ◌,
  if◌then◌else◌,
}
use Prim.Native.String.{◌++◌ as concat}
use fuzzy_octo_train.Models.{Task, TaskResult, Workflow, task_status_value}

pub record PrometheusMetrics : Type 0 where
  pub workflow_total : Dict String ℕ
  pub task_total : Dict String ℕ
  pub workflow_durations : Dict String (List ℤ)
  pub task_durations : Dict String (List ℤ)
  pub active_workflows : ℕ
  pub circuit_breaker_state : Dict String ℕ
  pub workflow_start_times : Dict String ℕ
  pub task_start_times : Dict String ℕ

abbrev pub workflow_duration_buckets : List ℕ
workflow_duration_buckets = 100 ∷ 500 ∷ 1000 ∷ 5000 ∷ 10000 ∷ 30000 ∷ 60000 ∷ 300000 ∷ []

abbrev pub task_duration_buckets : List ℕ
task_duration_buckets = 10 ∷ 50 ∷ 100 ∷ 500 ∷ 1000 ∷ 5000 ∷ 10000 ∷ 30000 ∷ []

abbrev pub no_metrics : PrometheusMetrics
no_metrics = record {
  workflow_total = [];
  task_total = [];
  workflow_durations = [];
  task_durations = [];
  active_workflows = 0;
  circuit_breaker_state = [];
  workflow_start_times = [];
  task_start_times = [];
}

-- `counts[status] += 1` and `observations[status].append(duration)`, on a `defaultdict`
abbrev pub count_one : Dict String ℕ → String → Dict String ℕ
count_one counts status = put counts status (get_or counts status 0 + 1)

abbrev pub observe : Dict String (List ℤ) → String → ℤ → Dict String (List ℤ)
observe observations status duration =
    put observations status (get_or observations status [] ++ duration ∷ [])

-- The observation of a duration, if the start is known.
abbrev pub observe_since :
    Dict String (List ℤ) → String → Option ℕ → (now : ℕ) → Dict String (List ℤ)
observe_since observations status started now = elim started [
  | none ↦ observations
  | some start ↦ observe observations status (sub_ℕ now start)
]

module _ {V : Type 0} where
  unfoldable pub record_workflow_started :
      PrometheusMetrics → Workflow V → (now : ℕ) → PrometheusMetrics
  record_workflow_started m workflow now = record m {
    active_workflows = m.active_workflows + 1;
    workflow_start_times = put m.workflow_start_times workflow.id now;
  }

  unfoldable pub record_workflow_completed :
      PrometheusMetrics → Workflow V → (success : Bool) → (now : ℕ) → PrometheusMetrics
  record_workflow_completed m workflow success now =
      let status = if success then "success" else "failed" in
      record m {
        active_workflows = m.active_workflows - 1;
        workflow_total = count_one m.workflow_total status;
        workflow_durations =
            observe_since m.workflow_durations status (get m.workflow_start_times workflow.id) now;
        workflow_start_times = pop m.workflow_start_times workflow.id;
      }

  -- `f"{workflow.id}:{task.name}"`
  abbrev pub task_key : Task V → Workflow V → String
  task_key task workflow = concat workflow.id (concat ":" task.name)

  unfoldable pub record_task_started :
      PrometheusMetrics → Task V → Workflow V → (now : ℕ) → PrometheusMetrics
  record_task_started m task workflow now = record m {
    task_start_times = put m.task_start_times (task_key task workflow) now;
  }

  unfoldable pub record_task_completed :
      PrometheusMetrics → Task V → TaskResult V → Workflow V → (now : ℕ) → PrometheusMetrics
  record_task_completed m task result workflow now =
      let status = task_status_value result.status in
      record m {
        task_total = count_one m.task_total status;
        task_durations =
            observe_since m.task_durations status (get m.task_start_times (task_key task workflow))
              now;
        task_start_times = pop m.task_start_times (task_key task workflow);
      }

  -- `PrometheusMetricsHook`
  abbrev pub before_task : PrometheusMetrics → Task V → Workflow V → (now : ℕ) → PrometheusMetrics
  before_task m task workflow now = record_task_started m task workflow now

  abbrev pub after_task :
      PrometheusMetrics → Task V → TaskResult V → Workflow V → (now : ℕ) → PrometheusMetrics
  after_task m task result workflow now = record_task_completed m task result workflow now

abbrev pub state_map : Dict String ℕ
state_map = ("closed", 0) ∷ ("open", 1) ∷ ("half_open", 2) ∷ []

unfoldable pub update_circuit_breaker_state :
    PrometheusMetrics → (name state : String) → PrometheusMetrics
update_circuit_breaker_state m name state = record m {
  circuit_breaker_state = put m.circuit_breaker_state name (get_or state_map state 0);
}

-- What the text after a metric's name tells.
pub data Label : Type 0 where
  status_label : String → Label
  name_label : String → Label
  bucket_label : (status : String) (le : ℕ) → Label
  infinity_label : (status : String) → Label

pub data Line : Type 0 where
  text : String → Line
  sample : (metric : String) (label : Label) (value : ℤ) → Line
  unlabelled : (metric : String) (value : ℤ) → Line

-- `{bucket: 0 for bucket in buckets}`
abbrev pub zero_counts : List ℕ → Dict ℕ ℕ → Dict ℕ ℕ
zero_counts [] counts = counts
zero_counts (bucket ∷ buckets) counts = zero_counts buckets (put counts bucket 0)

-- The loop over the buckets, for one observation.
unfoldable pub count_observation : List ℕ → ℤ → Dict ℕ ℕ → Dict ℕ ℕ
count_observation [] obs counts = counts
count_observation (bucket ∷ buckets) obs counts =
    count_observation buckets obs
      (if leb_ℤ obs (pos bucket) then put counts bucket (get_or counts bucket 0 + 1) else counts)

unfoldable pub count_observations : List ℕ → List ℤ → Dict ℕ ℕ → Dict ℕ ℕ
unfolding count_observation
count_observations buckets [] counts = counts
count_observations buckets (obs ∷ observations) counts =
    count_observations buckets observations (count_observation buckets obs counts)

-- The loop over the sorted buckets: each bucket with the number that is exported for it.
unfoldable pub cumulate : List ℕ → Dict ℕ ℕ → (cumulative : ℕ) → List (ℕ × ℕ)
cumulate [] counts cumulative = []
cumulate (bucket ∷ buckets) counts cumulative =
    let total = cumulative + get_or counts bucket 0 in
    (bucket, total) ∷ cumulate buckets counts total

-- The buckets of one histogram. They are in order, so that sorting them changes nothing.
unfoldable pub exported_buckets : List ℕ → List ℤ → List (ℕ × ℕ)
unfolding cumulate count_observations
exported_buckets buckets observations =
    cumulate buckets (count_observations buckets observations (zero_counts buckets [])) 0

abbrev pub sum : List ℤ → ℤ
sum [] = pos 0
sum (i ∷ is) = i +ℤ sum is

abbrev pub bucket_lines : String → String → List (ℕ × ℕ) → List Line
bucket_lines metric status [] = []
bucket_lines metric status ((bucket, total) ∷ rest) =
    sample metric (bucket_label status bucket) (pos total) ∷ bucket_lines metric status rest

-- The names of a histogram's metrics: of its buckets, its sum and its count.
pub record Histogram : Type 0 where
  pub buckets : List ℕ
  pub bucket_metric : String
  pub sum_metric : String
  pub count_metric : String

unfoldable pub histogram_lines : Histogram → Dict String (List ℤ) → List Line
unfolding exported_buckets
histogram_lines h [] = []
histogram_lines h ((status, []) ∷ rest) = histogram_lines h rest
histogram_lines h ((status, obs ∷ more) ∷ rest) =
    bucket_lines h.bucket_metric status (exported_buckets h.buckets (obs ∷ more))
    ++ sample h.bucket_metric (infinity_label status) (pos (length (obs ∷ more)))
      ∷ sample h.sum_metric (status_label status) (sum (obs ∷ more))
      ∷ sample h.count_metric (status_label status) (pos (length (obs ∷ more)))
      ∷ histogram_lines h rest

abbrev pub counter_lines : String → Dict String ℕ → List Line
counter_lines metric [] = []
counter_lines metric ((status, count) ∷ rest) =
    sample metric (status_label status) (pos count) ∷ counter_lines metric rest

abbrev pub breaker_lines : Dict String ℕ → List Line
breaker_lines [] = []
breaker_lines ((name, state) ∷ rest) =
    sample "flowmesh_circuit_breaker_state" (name_label name) (pos state) ∷ breaker_lines rest

abbrev pub breaker_section : Dict String ℕ → List Line
breaker_section [] = []
breaker_section (state ∷ states) =
    text ""
    ∷ text
        "# HELP flowmesh_circuit_breaker_state Circuit breaker state (0=closed, 1=open, 2=half_open)"
    ∷ text "# TYPE flowmesh_circuit_breaker_state gauge"
    ∷ breaker_lines (state ∷ states)

abbrev pub workflow_histogram : Histogram
workflow_histogram = record {
  buckets = workflow_duration_buckets;
  bucket_metric = "flowmesh_workflow_duration_seconds_bucket";
  sum_metric = "flowmesh_workflow_duration_seconds_sum";
  count_metric = "flowmesh_workflow_duration_seconds_count";
}

abbrev pub task_histogram : Histogram
task_histogram = record {
  buckets = task_duration_buckets;
  bucket_metric = "flowmesh_task_duration_seconds_bucket";
  sum_metric = "flowmesh_task_duration_seconds_sum";
  count_metric = "flowmesh_task_duration_seconds_count";
}

unfoldable pub export : PrometheusMetrics → List Line
unfolding histogram_lines
export m =
    (text "# HELP flowmesh_workflows_total Total number of workflow executions by status"
      ∷ text "# TYPE flowmesh_workflows_total counter"
      ∷ counter_lines "flowmesh_workflows_total" m.workflow_total)
    ++ (text ""
        ∷ text "# HELP flowmesh_tasks_total Total number of task executions by status"
        ∷ text "# TYPE flowmesh_tasks_total counter"
        ∷ counter_lines "flowmesh_tasks_total" m.task_total)
    ++ (text ""
        ∷ text "# HELP flowmesh_active_workflows Number of currently executing workflows"
        ∷ text "# TYPE flowmesh_active_workflows gauge"
        ∷ unlabelled "flowmesh_active_workflows" (pos m.active_workflows)
        ∷ text ""
        ∷ text "# HELP flowmesh_workflow_duration_seconds Workflow execution duration in seconds"
        ∷ text "# TYPE flowmesh_workflow_duration_seconds histogram"
        ∷ histogram_lines workflow_histogram m.workflow_durations)
    ++ (text ""
        ∷ text "# HELP flowmesh_task_duration_seconds Task execution duration in seconds"
        ∷ text "# TYPE flowmesh_task_duration_seconds histogram"
        ∷ histogram_lines task_histogram m.task_durations)
    ++ breaker_section m.circuit_breaker_state

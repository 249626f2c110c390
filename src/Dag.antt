-- ===== src/Dag.antt =====
-- The class `DAG` and `Workflow.build_dag` of src/flowmesh/core/models.py.
pub mod Edges
pub mod Invariant
mod Relax
mod Drain
mod Start
pub mod Position
pub mod Topological
pub mod Ready
pub mod Dependencies
pub mod Build
use fuzzy_octo_train.Prelude.{
  string_eq, ℕ, zero, suc, String, Bool, true, false, not, ◌&&◌, Option, none, some, List, [], ◌∷◌,
  ◌++◌, map, Dict, keys, get, put, setdefault, get_or, ℤ, pos, increment, decrement, is_zero,
  if◌then◌else◌, filter, all, contains, add, length, ◌==◌, SetOrder, Result, ok, err, ◌>>=◌, unwrap,
  Error, key_error, unknown_dependency, cycle_detected_error, out_of_fuel, nat_beq,
}
use fuzzy_octo_train.Models.{Task}

pub record Dag : Type 0 where
  pub adjacency : Dict String (List String)
  pub in_degree : Dict String ℤ

abbrev pub empty : Dag
empty = record { adjacency = []; in_degree = [] }

unfoldable pub add_node : Dag → String → Dag
add_node g node = record {
  adjacency = setdefault g.adjacency node [];
  in_degree = setdefault g.in_degree node (pos 0);
}

-- `add_edge` behind its two calls of `add_node`, where its subscripts find their keys.
unfoldable pub link : Dag → String → String → Result Dag
link g from to = do
  targets ← unwrap key_error (get g.adjacency from)
  if contains targets to then ok g else do
    degree ← unwrap key_error (get g.in_degree to)
    ok (record {
      adjacency = put g.adjacency from (add targets to);
      in_degree = put g.in_degree to (increment degree);
    })

unfoldable pub add_edge : Dag → String → String → Result Dag
unfolding link
add_edge g from to = link (add_node (add_node g from) to) from to

-- The `for neighbour` loop of `topological_sort`: the new degrees and queue.
unfoldable pub relax :
    List String → Dict String ℤ → List String → Result (Dict String ℤ × List String)
relax [] degrees queue = ok (degrees, queue)
relax (neighbour ∷ rest) degrees queue = elim (get degrees neighbour) [
  | none ↦ err key_error
  | some degree ↦
      relax rest (put degrees neighbour (decrement degree))
        (if is_zero (decrement degree) then queue ++ neighbour ∷ [] else queue)
]

-- The nodes that start in the queue.
abbrev pub roots : Dict String ℤ → List String
roots [] = []
roots ((node, degree) ∷ rest) =
    let others = roots rest in if is_zero degree then node ∷ others else others

module _ (σ : SetOrder) where
  open σ use {iterate}

  -- The `while queue` loop of `topological_sort`; the order so far is the last argument.
  unfoldable pub drain :
      ℕ
      → Dict String (List String)
      → Dict String ℤ
      → List String
      → List String
      → Result (List String)
  drain fuel adjacency degrees [] order = ok order
  drain zero adjacency degrees (node ∷ queue) order = err out_of_fuel
  drain (suc fuel) adjacency degrees (node ∷ queue) order =
      elim (relax (iterate (get_or adjacency node [])) degrees queue) [
        | err e ↦ err e
        | ok (degrees', queue') ↦ drain fuel adjacency degrees' queue' (order ++ node ∷ [])
      ]

  -- A node enters the queue at most once, so the number of nodes is fuel enough.
  unfoldable pub topological_sort : Dag → Result (List String)
  topological_sort g = do
    order ← drain (length g.adjacency) g.adjacency g.in_degree (roots g.in_degree) []
    if nat_beq (length order) (length g.adjacency) then ok order else err cycle_detected_error

-- The sources of the edges into a node.
unfoldable pub sources : Dict String (List String) → String → List String
sources [] node = []
sources ((source, targets) ∷ rest) node =
    let others = sources rest node in if contains targets node then source ∷ others else others

unfoldable pub get_ready_nodes : Dag → List String → List String
unfolding sources
get_ready_nodes g completed =
    filter
      (λ node. not (contains completed node) && all (contains completed) (sources g.adjacency node))
      (keys g.adjacency)

-- The inner loop of `build_dag`, over one task's dependencies.
unfoldable pub add_dependencies : List String → String → List String → Dag → Result Dag
add_dependencies task_names task [] g = ok g
add_dependencies task_names task (dep ∷ deps) g = elim (contains task_names dep) [
  | false ↦ err (unknown_dependency task dep)
  | true ↦ add_edge g dep task >>= add_dependencies task_names task deps
]

module _ {V : Type 0} where
  -- The outer loop of `build_dag`.
  unfoldable pub add_tasks : List String → List (Task V) → Dag → Result Dag
  add_tasks task_names [] g = ok g
  add_tasks task_names (task ∷ tasks) g =
      add_dependencies task_names task.name task.depends_on (add_node g task.name)
      >>= add_tasks task_names tasks

  abbrev pub names : List (Task V) → List String
  names = map (λ task. task.name)

unfoldable pub build_dag : {V : Type 0} → SetOrder → List (Task V) → Result Dag
build_dag σ tasks = do g ← add_tasks (names tasks) tasks empty; _ ← topological_sort σ g; ok g

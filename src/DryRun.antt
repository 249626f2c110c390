-- ===== src/DryRun.antt =====
-- `ExecutionEngine.dry_run` of src/flowmesh/core/engine.py: the phases in which a workflow's tasks could
-- run, and a longest chain of dependencies. Both `while` loops run on fuel.
pub mod Phases
mod Extend
pub mod Longest
pub mod Critical
pub mod Depth
pub mod Plans
use fuzzy_octo_train.Prelude.{
  string_eq, ℕ, zero, suc, ◌+◌, String, Bool, not, Option, none, some, List, [], ◌∷◌, Dict, get,
  put, get_or, has, ℤ, pos, if◌then◌else◌, filter, all, contains, union, length, ltb, SetOrder,
  Result, ok, err, ◌>>=◌, unwrap, key_error, value_error, out_of_fuel, sort_descending,
}
use fuzzy_octo_train.Models.{Task, Workflow}
use fuzzy_octo_train.Dag.{Dag, get_ready_nodes, topological_sort, build_dag}
use fuzzy_octo_train.Engine.Runs.{task_map_from}

pub record ExecutionPlan : Type 0 where
  pub phases : List (List String)
  pub total_tasks : ℕ
  pub critical_path : List String
  pub critical_path_length : ℕ

-- For each node the length of a path that ends there, and the node before it on that path.
abbrev pub Distances : Type 0
Distances = Dict String (ℕ × Option String)

abbrev pub next_layer : Dag → List String → List String
next_layer g completed = filter (λ n. not (contains completed n)) (get_ready_nodes g completed)

module _ {V : Type 0} where
  abbrev pub priority_of : Dict String (Task V) → String → ℤ
  priority_of task_map n = elim (get task_map n) [ none ↦ pos 0 | some task ↦ task.priority ]

  -- `layer.sort(key=lambda n: task_map[n].priority, reverse=True)`
  unfoldable pub sort_layer : Dict String (Task V) → List String → Result (List String)
  sort_layer task_map layer =
      if all (has task_map) layer
      then ok (sort_descending (priority_of task_map) layer)
      else err key_error

  -- The loop `while len(completed) < len(task_map)`: the phases that are still to come.
  unfoldable pub build_phases :
      ℕ → Dag → Dict String (Task V) → List String → Result (List (List String))
  build_phases zero g task_map completed =
      if ltb (length completed) (length task_map) then err out_of_fuel else ok []
  build_phases (suc fuel) g task_map completed =
      if ltb (length completed) (length task_map)
      then (elim (next_layer g completed) [
        | [] ↦ ok []
        | n ∷ ns ↦ do
          layer ← sort_layer task_map (n ∷ ns)
          rest ← build_phases fuel g task_map (union completed layer)
          ok (layer ∷ rest)
      ])
      else ok []

-- `{n: (1, None) for n in topo}`, from what there is.
abbrev pub distances_from : List String → Distances → Distances
distances_from [] dist = dist
distances_from (n ∷ ns) dist = distances_from ns (put dist n (1, none))

abbrev pub improve : Distances → String → String → ℕ → ℕ → Distances
improve dist node neighbour new_len old_len =
    if ltb old_len new_len then put dist neighbour (new_len, some node) else dist

-- The loop over the neighbours of a node.
unfoldable pub extend : String → List String → Distances → Result Distances
extend node [] dist = ok dist
extend node (neighbour ∷ rest) dist = do
  here ← unwrap key_error (get dist node)
  there ← unwrap key_error (get dist neighbour)
  extend node rest (improve dist node neighbour (here.0 + 1) there.0)

-- The loop over the topological order.
unfoldable pub longest_paths :
    SetOrder → Dict String (List String) → List String → Distances → Result Distances
longest_paths σ adjacency [] dist = ok dist
longest_paths σ adjacency (node ∷ topo) dist =
    extend node (σ.iterate (get_or adjacency node [])) dist >>= longest_paths σ adjacency topo

-- The rest of `max(topo, key=lambda n: dist[n][0])`, behind the first of the largest so far.
unfoldable pub max_from : Distances → String → ℕ → List String → Result String
max_from dist best len [] = ok best
max_from dist best len (n ∷ ns) = do
  entry ← unwrap key_error (get dist n)
  let better = ltb len entry.0
  max_from dist (if better then n else best) (if better then entry.0 else len) ns

unfoldable pub end_node : Distances → List String → Result String
unfolding max_from
end_node dist [] = err (value_error "max() iterable argument is empty")
end_node dist (n ∷ ns) = do entry ← unwrap key_error (get dist n); max_from dist n entry.0 ns

-- The loop `while cur is not None`. The path is reversed behind it, so each node goes to the front.
unfoldable pub walk_back : ℕ → Distances → Option String → List String → Result (List String)
walk_back fuel dist none path = ok path
walk_back zero dist (some cur) path = err out_of_fuel
walk_back (suc fuel) dist (some cur) path = do
  entry ← unwrap key_error (get dist cur)
  walk_back fuel dist entry.1 (cur ∷ path)

-- Everything behind `# --- Compute critical path`.
unfoldable pub critical_path_of : SetOrder → Dag → Result (List String)
unfolding longest_paths end_node walk_back
critical_path_of σ g = do
  topo ← topological_sort σ g
  dist ← longest_paths σ g.adjacency topo (distances_from topo [])
  last ← end_node dist topo
  walk_back (length topo) dist (some last) []

-- A phase completes a task and a path does not come back to a node, so the number of nodes is fuel
-- enough for both loops.
unfoldable pub dry_run : {V : Type 0} → SetOrder → Workflow V → Result ExecutionPlan
unfolding build_phases critical_path_of
dry_run σ workflow = do
  dag ← build_dag σ workflow.tasks
  let task_map = task_map_from workflow.tasks []
  phases ← build_phases (length task_map) dag task_map []
  path ← critical_path_of σ dag
  ok (record {
    phases = phases;
    total_tasks = length task_map;
    critical_path = path;
    critical_path_length = length path;
  })

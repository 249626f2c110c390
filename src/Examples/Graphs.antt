-- ===== src/Examples/Graphs.antt =====
-- Graphs, sorted and refused.
use fuzzy_octo_train.Prelude.{
  string_eq, ℕ, String, none, some, List, [], ◌∷◌, ◌≡◌, refl, arith, ok, err, ◌>>=◌, ==_iff,
  insertion_order, pos, cycle_detected_error, contains, ◌↔◌, true, ◌⊎◌, if◌then◌else◌, ◌==◌,
}
use fuzzy_octo_train.Dag.Ready.{IsReady, get_ready_nodes_iff}
use fuzzy_octo_train.Dag.{
  Dag, empty, add_node, add_edge, link, topological_sort, drain, relax, get_ready_nodes, sources,
  build_dag, names, add_tasks, add_dependencies,
}
use fuzzy_octo_train.Dag.Edges.{IsRank}
use fuzzy_octo_train.Dag.Position.{position}
use fuzzy_octo_train.Dag.Invariant.{IsWellFormed, IsWellFormed-empty, add_edge-IsWellFormed}
use fuzzy_octo_train.Dag.Topological.{IsTopological, topological_sort_lem}
use fuzzy_octo_train.Dag.Dependencies.{first_unknown}
use fuzzy_octo_train.Dag.Build.{IsBuilt, IsDependencyRank, build_dag_lem}
use fuzzy_octo_train.Examples.Tasks.{diamond, looping, dangling}

program : Unit {0}
unfolding build_dag add_tasks add_dependencies add_edge add_node link topological_sort drain relax
    get_ready_nodes sources first_unknown
program = tt

-- a → b
abbrev pub arrow : Dag
arrow = record {
  adjacency = ("a", "b" ∷ []) ∷ ("b", []) ∷ [];
  in_degree = ("a", pos 0) ∷ ("b", pos 1) ∷ [];
}

-- a → b → a
abbrev circle : Dag
circle = record {
  adjacency = ("a", "b" ∷ []) ∷ ("b", "a" ∷ []) ∷ [];
  in_degree = ("a", pos 1) ∷ ("b", pos 1) ∷ [];
}

arrow_added : add_edge empty "a" "b" ≡ ok arrow
unfolding program
arrow_added = refl

circle_added : add_edge arrow "b" "a" ≡ ok circle
unfolding program
circle_added = refl

pub arrow-IsWellFormed : IsWellFormed arrow
arrow-IsWellFormed = add_edge-IsWellFormed "a" "b" IsWellFormed-empty arrow_added

circle_sorted : topological_sort insertion_order circle ≡ err cycle_detected_error
unfolding program
circle_sorted = refl

diamond_ready :
    (build_dag insertion_order diamond >>= λ g. ok (get_ready_nodes g ("a" ∷ [])))
    ≡ ok ("b" ∷ "c" ∷ [])
unfolding program
diamond_ready = refl

looping_refused : build_dag insertion_order looping ≡ err cycle_detected_error
unfolding program
looping_refused = refl

all_known : first_unknown (names diamond) diamond ≡ none
unfolding program
all_known = refl

one_unknown : first_unknown (names dangling) dangling ≡ some ("a", "x")
unfolding program
one_unknown = refl

-- The sort of a → b, in either outcome.
topological_sort_lem_example :
    ((order : List String) × (topological_sort insertion_order arrow ≡ ok order)
      × IsTopological arrow order
      × IsRank arrow.adjacency (position order))
    ⊎ ((topological_sort insertion_order arrow ≡ err cycle_detected_error)
        × ((rank : String → ℕ) → ¬ IsRank arrow.adjacency rank))
topological_sort_lem_example = topological_sort_lem insertion_order arrow-IsWellFormed

abbrev arrow_rank : String → ℕ
arrow_rank a = if a == "b" then 1 else 0

arrow_rank_up : IsRank arrow.adjacency arrow_rank
arrow_rank_up from to e = ground (
  arith,
  ==_iff {A = String} "a" from,
  ==_iff {A = String} "b" from,
  ==_iff {A = String} from "b",
  ==_iff {A = String} "b" to,
  ==_iff {A = String} to "b",
  ==_iff {A = String} "a" "b",
)

build_dag_lem_example :
    ((g : Dag) × (build_dag insertion_order diamond ≡ ok g)
      × IsBuilt diamond g
      × (rank : String → ℕ) × IsDependencyRank diamond rank)
    ⊎ ((build_dag insertion_order diamond ≡ err cycle_detected_error)
        × ((rank : String → ℕ) → ¬ IsDependencyRank diamond rank))
build_dag_lem_example = build_dag_lem insertion_order diamond all_known

get_ready_nodes_iff_example :
    (contains (get_ready_nodes arrow ("a" ∷ [])) "b" ≡ true) ↔ IsReady arrow ("a" ∷ []) "b"
get_ready_nodes_iff_example = get_ready_nodes_iff arrow-IsWellFormed ("a" ∷ []) "b"

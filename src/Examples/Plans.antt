-- ===== src/Examples/Plans.antt =====
-- Dry runs.
use fuzzy_octo_train.Prelude.{
  string_eq, ℕ, String, pos, [], ◌∷◌, ◌≡◌, ◌≢◌, ◌⊎◌, refl, ok, err, Error, value_error,
  unknown_dependency, cycle_detected_error, insertion_order, sort_descending,
}
use fuzzy_octo_train.Models.{Workflow}
use fuzzy_octo_train.Dag.{
  Dag, add_node, add_edge, link, topological_sort, drain, relax, get_ready_nodes, sources,
  build_dag, add_tasks, add_dependencies,
}
use fuzzy_octo_train.DryRun.{
  ExecutionPlan, dry_run, build_phases, sort_layer, critical_path_of, longest_paths, extend,
  end_node, max_from, walk_back,
}
use fuzzy_octo_train.DryRun.Plans.{IsPlan, dry_run-IsPlan, dry_run_outcomes}
use fuzzy_octo_train.Examples.Tasks.{diamond, looping, workflow}

program : Unit {0}
unfolding build_dag add_tasks add_dependencies add_edge add_node link topological_sort drain relax
    get_ready_nodes sources dry_run build_phases sort_layer sort_descending critical_path_of
    longest_paths extend end_node max_from walk_back
program = tt

diamond_plan :
    dry_run insertion_order workflow
    ≡ ok (record {
      phases = ("a" ∷ []) ∷ ("c" ∷ "b" ∷ []) ∷ ("d" ∷ []) ∷ [];
      total_tasks = 4;
      critical_path = "a" ∷ "b" ∷ "d" ∷ [];
      critical_path_length = 3;
    })
unfolding program
diamond_plan = refl

empty_refused :
    dry_run insertion_order (record workflow { tasks = [] })
    ≡ err (value_error "max() iterable argument is empty")
unfolding program
empty_refused = refl

abbrev diamond_dag : Dag
diamond_dag = record {
  adjacency = ("d", []) ∷ ("b", "d" ∷ []) ∷ ("c", "d" ∷ []) ∷ ("a", "b" ∷ "c" ∷ []) ∷ [];
  in_degree = ("d", pos 2) ∷ ("b", pos 1) ∷ ("c", pos 1) ∷ ("a", pos 0) ∷ [];
}

diamond_built : build_dag insertion_order diamond ≡ ok diamond_dag
unfolding program
diamond_built = refl

not_empty : diamond ≢ []
not_empty e = cc

dry_run-IsPlan_example :
    (plan : ExecutionPlan) × (dry_run insertion_order workflow ≡ ok plan)
    × IsPlan diamond_dag diamond plan
dry_run-IsPlan_example = dry_run-IsPlan insertion_order workflow diamond_built not_empty

abbrev circular : Workflow ℕ
circular = record workflow { tasks = looping }

circular_refused : dry_run insertion_order circular ≡ err cycle_detected_error
unfolding program
circular_refused = refl

dry_run_outcomes_example :
    ((looping ≡ [])
      × ((message : String) × (dry_run insertion_order circular ≡ err (value_error message))))
    ⊎ (((g : Dag) × (build_dag insertion_order looping ≡ ok g)
          × ((plan : ExecutionPlan) × (dry_run insertion_order circular ≡ ok plan)))
        ⊎ ((exception : Error) × (build_dag insertion_order looping ≡ err exception)
            × (dry_run insertion_order circular ≡ err exception)
            × ((exception ≡ cycle_detected_error)
                ⊎ ((task : String) × (dep : String) × (exception ≡ unknown_dependency task dep)))))
dry_run_outcomes_example = dry_run_outcomes insertion_order circular

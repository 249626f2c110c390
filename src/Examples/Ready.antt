-- ===== src/Examples/Ready.antt =====
-- What the scheduler finds ready.
use fuzzy_octo_train.Prelude.{
  string_eq, ℕ, String, Bool, true, [], ◌∷◌, Dict, ◌≡◌, ◌↔◌, refl, arith, filter, leb_ℤ, pos, ◌&&◌,
  IsDescending, ==_iff, map, sort_descending,
}
use fuzzy_octo_train.Models.{Task}
use fuzzy_octo_train.Dag.{Dag, get_ready_nodes, sources}
use fuzzy_octo_train.Dag.Ready.{IsReady}
use fuzzy_octo_train.Scheduler.{Scheduler, idle, done, get_ready_tasks, collect}
use fuzzy_octo_train.Scheduler.Ready.{
  IsNamed, is_listed, is_free, get_ready_tasks_iff, get_ready_tasks_order,
}
use fuzzy_octo_train.Examples.Tasks.{job}
use fuzzy_octo_train.Examples.Graphs.{arrow, arrow-IsWellFormed}

abbrev tasks : Dict String (Task ℕ)
tasks = ("a", job "a" [] 0) ∷ ("b", job "b" ("a" ∷ []) 5) ∷ []

abbrev after_a : Scheduler
after_a = record { completed = "a" ∷ []; failed = []; running = []; skipped = [] }

tasks-IsNamed : IsNamed tasks
tasks-IsNamed k task e = ground (arith, ==_iff {A = String} "a" k, ==_iff {A = String} "b" k)

only_b : map (λ (t : Task ℕ). t.name) (get_ready_tasks after_a arrow tasks) ≡ "b" ∷ []
unfolding get_ready_tasks get_ready_nodes sources sort_descending
only_b = refl

get_ready_tasks_iff_example :
    (is_listed (get_ready_tasks after_a arrow tasks) "b" ≡ true)
    ↔ (IsReady arrow (done after_a) "b" × (is_free after_a tasks "b" ≡ true))
get_ready_tasks_iff_example = get_ready_tasks_iff after_a tasks tasks-IsNamed arrow-IsWellFormed "b"

-- One priority, which two of the tasks have.
abbrev is_five : Task ℕ → Bool
is_five t = leb_ℤ t.priority (pos 5) && leb_ℤ (pos 5) t.priority

abbrev three : Dict String (Task ℕ)
three = ("a", job "a" [] 5) ∷ ("b", job "b" [] 7) ∷ ("c", job "c" [] 5) ∷ []

abbrev unrelated : Dag
unrelated = record {
  adjacency = ("a", []) ∷ ("b", []) ∷ ("c", []) ∷ [];
  in_degree = ("a", pos 0) ∷ ("b", pos 0) ∷ ("c", pos 0) ∷ [];
}

b_first : map (λ (t : Task ℕ). t.name) (get_ready_tasks idle unrelated three) ≡ "b" ∷ "a" ∷ "c" ∷ []
unfolding get_ready_tasks get_ready_nodes sources sort_descending
b_first = refl

five_five :
    (t u : Task ℕ) → is_five t ≡ true → is_five u ≡ true → leb_ℤ u.priority t.priority ≡ true
five_five t u e f = ground arith

get_ready_tasks_order_example :
    IsDescending (λ (t : Task ℕ). t.priority) (get_ready_tasks idle unrelated three)
    × (filter is_five (get_ready_tasks idle unrelated three)
        ≡ filter is_five (collect idle three (get_ready_nodes unrelated (done idle))))
get_ready_tasks_order_example = get_ready_tasks_order idle unrelated three is_five five_five

-- ===== src/Scheduler/Ready.antt =====
-- Which tasks `Scheduler.get_ready_tasks` returns, and in which order.
use fuzzy_octo_train.Prelude.{
  string_eq, String, Bool, true, false, not, ◌&&◌, ◌||◌, Option, none, some, List, [], ◌∷◌, Dict,
  get, contains, any, count, ltb, ◌≡◌, ◌==◌, ◌↔◌, refl, arith, if◌then◌else◌, ==_iff, Option-cases,
  ◌∙◌, ◌≤◌, inl, inr, IsDescending, sort-count, sort-IsDescending, sort-stable, filter, leb_ℤ,
  Distinct,
}
use fuzzy_octo_train.Models.{Task}
use fuzzy_octo_train.Dag.{Dag, get_ready_nodes}
use fuzzy_octo_train.Dag.Invariant.{IsWellFormed}
use fuzzy_octo_train.Dag.Ready.{IsReady, get_ready_nodes_iff, get_ready_nodes-Distinct}
use fuzzy_octo_train.Scheduler.{Scheduler, done, is_pending, collect, get_ready_tasks}

any-eq-count {ℓ} : {A : Type ℓ} (p : A → Bool) (xs : List A) → any p xs ≡ ltb 0 (count p xs)
any-eq-count p [] = refl
any-eq-count p (x ∷ xs) = ground (arith, any-eq-count p xs)

contains-eq-count : (xs : List String) (a : String) → contains xs a ≡ ltb 0 (count (λ x. x == a) xs)
contains-eq-count [] a = refl
contains-eq-count (x ∷ xs) a = ground (arith, contains-eq-count xs a)

count-Distinct : (xs : List String) (a : String) → Distinct xs → count (λ x. x == a) xs ≤ 1
count-Distinct [] a d = omega arith
count-Distinct (x ∷ xs) a d =
    ground (arith, count-Distinct xs a d.1, contains-eq-count xs a, ==_iff x a)

module _ {V : Type 0} where
  -- Each task stands under its own name, as in the task map that the engine builds.
  abbrev pub IsNamed : Dict String (Task V) → Type 0
  IsNamed tasks = (k : String) (task : Task V) → get tasks k ≡ some task → task.name ≡ k

  abbrev pub pending_at : Option (Task V) → Bool
  pending_at none = false
  pending_at (some task) = is_pending task.status

  -- Is a task of this name in the list?
  abbrev pub is_listed : List (Task V) → String → Bool
  is_listed tasks name = any (λ task. task.name == name) tasks

  -- Not running, not failed, and still pending.
  abbrev pub is_free : Scheduler → Dict String (Task V) → String → Bool
  is_free s tasks name =
      not (contains s.running name || contains s.failed name) && pending_at (get tasks name)

  module _ (s : Scheduler) (tasks : Dict String (Task V)) (named : IsNamed tasks) where
    count-collect :
        (names : List String) (n : String)
        → count (λ (t : Task V). t.name == n) (collect s tasks names)
          ≡ (if is_free s tasks n then count (λ a. a == n) names else 0)
    unfolding collect
    count-collect [] n = ground arith
    count-collect (a ∷ names) n = elim (Option-cases (get tasks a)) [
      | inl missing ↦ ground (arith, count-collect names n, missing, ==_iff a n)
      | inr (task, e) ↦ ground (arith, count-collect names n, e, named a task e, ==_iff a n)
    ]

    module _ {dag : Dag} (w : IsWellFormed dag) where
      ready_count :
          (n : String)
          → count (λ (t : Task V). t.name == n) (get_ready_tasks s dag tasks)
            ≡ (if is_free s tasks n then count (λ a. a == n) (get_ready_nodes dag (done s)) else 0)
      unfolding get_ready_tasks
      ready_count n =
          sort-count (λ task. task.priority) (λ (t : Task V). t.name == n)
            (collect s tasks (get_ready_nodes dag (done s)))
          ∙ count-collect (get_ready_nodes dag (done s)) n

      -- On a well-formed graph, and with each task under its own name in the task map, `get_ready_tasks`
      -- returns a task of a name exactly when its dependencies are all completed or skipped, it is
      -- neither of these itself, nor running, nor failed, and its status is still pending.
      pub get_ready_tasks_iff :
          (n : String)
          → (is_listed (get_ready_tasks s dag tasks) n ≡ true)
            ↔ (IsReady dag (done s) n × (is_free s tasks n ≡ true))
      get_ready_tasks_iff n = (
        λ listed. (
          (get_ready_nodes_iff w (done s) n).0 (
              ground (
                arith,
                any-eq-count (λ (t : Task V). t.name == n) (get_ready_tasks s dag tasks),
                ready_count n,
                contains-eq-count (get_ready_nodes dag (done s)) n,
              )),
          ground (
            arith,
            any-eq-count (λ (t : Task V). t.name == n) (get_ready_tasks s dag tasks),
            ready_count n,
          ),
        ),
        λ (ready, free). ground (
          arith,
          any-eq-count (λ (t : Task V). t.name == n) (get_ready_tasks s dag tasks),
          ready_count n,
          contains-eq-count (get_ready_nodes dag (done s)) n,
          (get_ready_nodes_iff w (done s) n).1 ready,
        ),
      )

      -- On a well-formed graph, and with each task under its own name, no task is returned twice.
      pub get_ready_tasks-once :
          (n : String) → count (λ (t : Task V). t.name == n) (get_ready_tasks s dag tasks) ≤ 1
      get_ready_tasks-once n = ground (
        arith,
        ready_count n,
        count-Distinct (get_ready_nodes dag (done s)) n (get_ready_nodes-Distinct w (done s)),
      )

  -- `get_ready_tasks` returns the tasks by descending priority, and those tasks that satisfy a test
  -- which only tasks of one priority satisfy, in the order in which the scan over the nodes finds them.
  pub get_ready_tasks_order :
      (s : Scheduler) (dag : Dag) (tasks : Dict String (Task V)) (p : Task V → Bool)
      → ((t u : Task V) → p t ≡ true → p u ≡ true → leb_ℤ u.priority t.priority ≡ true)
      → IsDescending (λ (t : Task V). t.priority) (get_ready_tasks s dag tasks)
        × (filter p (get_ready_tasks s dag tasks)
            ≡ filter p (collect s tasks (get_ready_nodes dag (done s))))
  unfolding get_ready_tasks
  get_ready_tasks_order s dag tasks p same = (
    sort-IsDescending (λ (t : Task V). t.priority) (collect s tasks (get_ready_nodes dag (done s))),
    sort-stable (λ (t : Task V). t.priority) p (collect s tasks (get_ready_nodes dag (done s)))
        same,
  )

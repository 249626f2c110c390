-- ===== src/Dag/Start.antt =====
-- The queue that `topological_sort` starts with.
use fuzzy_octo_train.Prelude.{
  string_eq, String, Bool, true, false, not, ◌&&◌, Option, none, some, [], ◌∷◌, Dict, keys, get,
  has, contains, count, ◌≡◌, refl, arith, Distinct, Bool-cases, inl, inr, ==_iff, ℤ, is_zero,
  get-none, count-ext,
}
use fuzzy_octo_train.Dag.{Dag, roots}
use fuzzy_octo_train.Dag.Edges.{edge, pending}
use fuzzy_octo_train.Dag.Invariant.{IsWellFormed}
use fuzzy_octo_train.Dag.Drain.{IsDraining}

abbrev zero_at : Option ℤ → Bool
zero_at none = false
zero_at (some d) = is_zero d

contains-roots :
    (degrees : Dict String ℤ) (v : String)
    → Distinct (keys degrees)
    → contains (roots degrees) v ≡ zero_at (get degrees v)
contains-roots [] v d = refl
contains-roots ((node, degree) ∷ rest) v d =
    ground (arith, contains-roots rest v d.1, get-none rest node, ==_iff node v)

roots-Distinct : (degrees : Dict String ℤ) → Distinct (keys degrees) → Distinct (roots degrees)
roots-Distinct [] d = tt
roots-Distinct ((node, degree) ∷ rest) d =
    ground (arith, contains-roots rest node d.1, get-none rest node, roots-Distinct rest d.1)

pub IsDraining-start : {g : Dag} → IsWellFormed g → IsDraining g g.in_degree (roots g.in_degree) []
IsDraining-start {g} w = record {
  degree = λ v h. ground (arith, w.counted v h, no_order v);
  distinct = roots-Distinct g.in_degree distinct_degrees;
  known = λ v m. rw w.same_keys (has_of_root v m);
  released = λ v h.
      ground (arith, contains-roots g.in_degree v distinct_degrees, w.counted v h, no_order v);
  ordered = tt;
}
  where
    distinct_degrees : Distinct (keys g.in_degree)
    distinct_degrees = rw (← w.same_keys) w.distinct

    has_of_root : (v : String) → contains (roots g.in_degree) v ≡ true → has g.in_degree v ≡ true
    has_of_root v m = elim (Bool-cases (has g.in_degree v)) [
      | inl there ↦ there
      | inr missing ↦
          ground
            (arith, contains-roots g.in_degree v distinct_degrees, get-none g.in_degree v missing)
    ]

    no_order :
        (v : String)
        → pending g.adjacency [] v ≡ count (λ from. edge g.adjacency from v) (keys g.adjacency)
    no_order v =
        count-ext (λ from. edge g.adjacency from v && not (contains [] from))
          (λ from. edge g.adjacency from v) (keys g.adjacency) (λ from. ground arith)

-- ===== src/Dag/Relax.antt =====
-- What the `for neighbour` loop of `topological_sort` does to the degrees and the queue.
use mathlib.Core.List.{append-nil, append_assoc}
use fuzzy_octo_train.Prelude.{
  string_eq, String, Bool, true, false, Option, none, some, List, [], ◌∷◌, ◌++◌, Dict, get, put,
  contains, ◌≡◌, refl, arith, Distinct, filter, if◌then◌else◌, ==_iff, ==_refl, ok, get-put, ℤ,
  decrement, is_zero, filter-ext,
}
use fuzzy_octo_train.Dag.{relax}

-- Does taking one off a node's degree release it?
abbrev pub releases : Dict String ℤ → String → Bool
releases degrees node = elim (get degrees node) [ some d ↦ is_zero (decrement d) | none ↦ false ]

abbrev decremented : Option ℤ → Option ℤ
decremented none = none
decremented (some d) = some (decrement d)

-- The loop has taken one off each neighbour, and queued those that it brought to zero.
pub record IsRelaxed (neighbours : List String) (degrees : Dict String ℤ) (queue : List String)
    (degrees' : Dict String ℤ) : Type 0 where
  pub computed :
      relax neighbours degrees queue ≡ ok (degrees', queue ++ filter (releases degrees) neighbours)
  pub at_node :
      (v : String)
      → get degrees' v
        ≡ (if contains neighbours v then decremented (get degrees v) else get degrees v)

module _ (n : String) (ns : List String) (degrees : Dict String ℤ) (queue : List String) (d : ℤ)
    (at_n : get degrees n ≡ some d) where
  abbrev lowered : Dict String ℤ
  lowered = put degrees n (decrement d)

  abbrev queued : List String
  queued = if is_zero (decrement d) then queue ++ n ∷ [] else queue

  module _ (absent : contains ns n ≡ false) where
    lowered_known :
        (v : String)
        → contains ns v ≡ true
        → (x : ℤ) × (get degrees v ≡ some x)
        → (x : ℤ) × (get lowered v ≡ some x)
    lowered_known v m (x, e) = (x, ground (arith, get-put degrees n v (decrement d), ==_iff n v))

    same_releases : filter (releases lowered) ns ≡ filter (releases degrees) ns
    same_releases =
        filter-ext (releases lowered) (releases degrees) ns
          (λ v m. ground (arith, get-put degrees n v (decrement d), ==_iff n v))

    IsRelaxed-cons :
        (degrees' : Dict String ℤ)
        → IsRelaxed ns lowered queued degrees'
        → IsRelaxed (n ∷ ns) degrees queue degrees'
    unfolding relax
    IsRelaxed-cons degrees' rest = record {
      computed = ground (
        arith,
        rest.computed,
        at_n,
        same_releases,
        append_assoc queue (n ∷ []) (filter (releases degrees) ns),
      );
      at_node =
          λ v. ground (arith, rest.at_node v, get-put degrees n v (decrement d), ==_iff n v, at_n);
    }

pub relax_lem :
    (neighbours : List String) (degrees : Dict String ℤ) (queue : List String)
    → Distinct neighbours
    → ((v : String) → contains neighbours v ≡ true → (d : ℤ) × (get degrees v ≡ some d))
    → (degrees' : Dict String ℤ) × IsRelaxed neighbours degrees queue degrees'
unfolding relax
relax_lem [] degrees queue distinct known =
    (degrees, record { computed = rw append-nil; at_node = λ v. refl })
relax_lem (n ∷ ns) degrees queue distinct known =
    let (d, at_n) = known n (ground (arith, ==_refl n)) in
    let (degrees', rest) =
      relax_lem ns (lowered n ns degrees queue d at_n) (queued n ns degrees queue d at_n) distinct.1
        (λ v m. lowered_known n ns degrees queue d at_n distinct.0 v m (known v (ground arith))) in
    (degrees', IsRelaxed-cons n ns degrees queue d at_n distinct.0 degrees' rest)

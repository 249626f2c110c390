-- ===== src/DryRun/Depth.antt =====
-- The phases of `ExecutionEngine.dry_run` against the chains of dependencies.
use fuzzy_octo_train.Prelude.{
  string_eq, ◌≤◌, String, Bool, true, false, not, ◌||◌, List, [], ◌∷◌, Dict, keys, has, ◌≡◌, refl,
  arith, Bool-cases, inl, inr, ◌↔◌, contains, union, length, all, all_sound, all_witness,
  contains-union,
}
use fuzzy_octo_train.Models.{Task}
use fuzzy_octo_train.Dag.{Dag}
use fuzzy_octo_train.Dag.Edges.{edge, edge-known}
use fuzzy_octo_train.Dag.Invariant.{IsWellFormed}
use fuzzy_octo_train.Dag.Ready.{IsReady}
use fuzzy_octo_train.DryRun.Phases.{IsPhased}
use fuzzy_octo_train.DryRun.Critical.{IsChain}

-- With a node its sources are completed.
abbrev IsClosed : Dag → List String → Type 0
IsClosed g completed =
    (p n : String)
    → edge g.adjacency p n ≡ true
    → contains completed n ≡ true
    → contains completed p ≡ true

module _ (g : Dag) where
  IsClosed-union :
      (completed layer : List String)
      → IsClosed g completed
      → ((n : String) → (contains layer n ≡ true) ↔ IsReady g completed n)
      → IsClosed g (union completed layer)
  IsClosed-union completed layer closed holds p n e h = elim (Bool-cases (contains completed n)) [
    | inl old ↦ ground (arith, contains-union completed layer p, closed p n e old)
    | inr new ↦
        let ready = (holds n).0 (ground (arith, contains-union completed layer n)) in
        ground (arith, contains-union completed layer p, ready.2 p e)
  ]

module _ {V : Type 0} {g : Dag} (w : IsWellFormed g) (task_map : Dict String (Task V)) where
  -- A chain of nodes that are not completed has no two nodes in one phase.
  pub length-chain_le :
      (phases : List (List String)) (completed : List String) (n : String) (rest : List String)
      → IsPhased g task_map completed phases
      → IsClosed g completed
      → contains completed n ≡ false
      → has g.adjacency n ≡ true
      → IsChain g.adjacency (n ∷ rest)
      → length (n ∷ rest) ≤ length phases
  length-chain_le [] completed n rest phased closed new known chain =
      absurd (ground (arith, phased n))
  length-chain_le (layer ∷ phases) completed n [] phased closed new known chain = omega arith
  length-chain_le (layer ∷ phases) completed n (m ∷ rest) (holds, filled, once, sorted, phased)
        closed new known (out, chain) =
      let later : contains (union completed layer) m ≡ false =
        elim (Bool-cases (contains layer m)) [
          | inl there ↦ absurd (ground (arith, ((holds m).0 there).2 n out))
          | inr missing ↦ ground (arith, contains-union completed layer m, closed n m out)
        ] in
      omega (
        arith,
        length-chain_le phases (union completed layer) m rest phased
            (IsClosed-union g completed layer closed holds) later (w.known n m out) chain,
      )

  -- A node that is ready only after a phase has a source in it.
  source_in :
      (completed layer : List String) (n : String)
      → ((m : String) → (contains layer m ≡ true) ↔ IsReady g completed m)
      → IsReady g (union completed layer) n
      → (from : String) × (contains layer from ≡ true) × (edge g.adjacency from n ≡ true)
  source_in completed layer n holds (known, new, below) =
      let test : String → Bool = λ from. not (edge g.adjacency from n) || contains completed from in
      elim (Bool-cases (all test (keys g.adjacency))) [
        | inl free ↦ absurd (
            ground (
              arith,
              contains-union completed layer n,
              (holds n).1 (
                known,
                ground (arith, contains-union completed layer n),
                λ from out. ground (
                  arith,
                  all_sound test (keys g.adjacency) from free (edge-known g.adjacency from n out),
                ),
              ),
            ))
        | inr waits ↦
            let (from, there, bad) = all_witness test (keys g.adjacency) waits in
            let out : edge g.adjacency from n ≡ true = ground arith in
            (from, ground (arith, contains-union completed layer from, below from out), out)
      ]

  -- There is a chain with one node of each phase.
  pub IsChain-of_phases :
      (layer : List String) (phases : List (List String)) (completed : List String)
      → IsPhased g task_map completed (layer ∷ phases)
      → (n : String) × (rest : List String) × (contains layer n ≡ true)
        × IsChain g.adjacency (n ∷ rest)
        × (length (n ∷ rest) ≡ length (layer ∷ phases))
  IsChain-of_phases layer [] completed (holds, (n, there), once, sorted, phased) =
      (n, [], there, ((holds n).0 there).0, refl)
  IsChain-of_phases layer (next ∷ phases) completed (holds, filled, once, sorted, phased) =
      let (m, rest, there, chain, size) =
        IsChain-of_phases next phases (union completed layer) phased in
      let (from, found, out) = source_in completed layer m holds ((phased.0 m).0 there) in
      (from, m ∷ rest, found, (out, chain), omega (arith, size))

-- ===== src/DryRun/Critical.antt =====
-- The critical path of `ExecutionEngine.dry_run`.
use mathlib.Core.List.{append-nil}
use fuzzy_octo_train.Prelude.{
  string_eq, ℕ, zero, suc, ◌+◌, ◌≤◌, ◌<◌, String, true, some, List, [], ◌∷◌, has, contains, ◌≡◌,
  refl, ◌∙◌, sym, ap, subst, arith, Bool-cases, Option-cases, inl, inr, has-get, ==_iff, ==_refl,
  length, ltb, SetOrder, ok,
}
use fuzzy_octo_train.Dag.{Dag}
use fuzzy_octo_train.Dag.Edges.{Adjacency, edge, edge-known, IsRank}
use fuzzy_octo_train.Dag.Invariant.{IsWellFormed}
use fuzzy_octo_train.Dag.Position.{position, position-lt}
use fuzzy_octo_train.Dag.Topological.{topological_sort_lem}
use fuzzy_octo_train.DryRun.{Distances, max_from, end_node, walk_back, critical_path_of}
use fuzzy_octo_train.DryRun.Extend.{len, len-get}
use fuzzy_octo_train.DryRun.Longest.{IsLongest, longest_paths_lem}

-- Nodes of the graph, each with an edge to the next.
abbrev pub IsChain : Adjacency → List String → Type 0
IsChain adjacency [] = Unit
IsChain adjacency (n ∷ []) = has adjacency n ≡ true
IsChain adjacency (m ∷ n ∷ rest) = (edge adjacency m n ≡ true) × IsChain adjacency (n ∷ rest)

pub head-known :
    (adjacency : Adjacency) (n : String) (rest : List String)
    → IsChain adjacency (n ∷ rest)
    → has adjacency n ≡ true
head-known adjacency n [] h = h
head-known adjacency n (m ∷ rest) h = edge-known adjacency n m h.0

-- What `max` looks for.
record IsMax (dist : Distances) (ns : List String) (last : String) : Type 0 where
  member : contains ns last ≡ true
  above : (n : String) → contains ns n ≡ true → len dist n ≤ len dist last

max_from_lem :
    (dist : Distances) (best : String) (l : ℕ) (ns : List String)
    → l ≡ len dist best
    → ((n : String) → contains ns n ≡ true → has dist n ≡ true)
    → (last : String) × (max_from dist best l ns ≡ ok last) × IsMax dist (best ∷ ns) last
unfolding max_from
max_from_lem dist best l [] e known = (
  best,
  refl,
  record { member = ground (arith, ==_refl best); above = λ n h. ground (arith, ==_iff best n) },
)
max_from_lem dist best l (n ∷ ns) e known =
    let (entry, f) = has-get dist n (known n (ground (arith, ==_refl n))) in
    let size : len dist n ≡ entry.0 = len-get dist n entry f in
    elim (Bool-cases (ltb l entry.0)) [
      | inl better ↦
          let (last, computed, top) =
            max_from_lem dist n entry.0 ns (sym size) (λ m h. known m (ground arith)) in
          (
            last,
            rw (f, better) computed,
            record {
              member = ground (arith, top.member);
              above = λ m h. ground (arith, top.above m, top.above n, ==_refl n, ==_iff best m);
            },
          )
      | inr worse ↦
          let (last, computed, top) =
            max_from_lem dist best l ns e (λ m h. known m (ground arith)) in
          (
            last,
            rw (f, worse) computed,
            record {
              member = ground (arith, top.member);
              above = λ m h. ground (arith, top.above m, top.above best, ==_refl best, ==_iff n m);
            },
          )
    ]

end_node_lem :
    (dist : Distances) (n : String) (ns : List String)
    → ((m : String) → contains (n ∷ ns) m ≡ true → has dist m ≡ true)
    → (last : String) × (end_node dist (n ∷ ns) ≡ ok last) × IsMax dist (n ∷ ns) last
unfolding end_node
end_node_lem dist n ns known =
    let (entry, f) = has-get dist n (known n (ground (arith, ==_refl n))) in
    let (last, computed, top) =
      max_from_lem dist n entry.0 ns (sym (len-get dist n entry f))
        (λ m h. known m (ground arith)) in
    (last, rw f computed, top)

end_node_of :
    (dist : Distances) (topo : List String) (n : String)
    → contains topo n ≡ true
    → ((m : String) → contains topo m ≡ true → has dist m ≡ true)
    → (last : String) × (end_node dist topo ≡ ok last) × IsMax dist topo last
end_node_of dist [] n h known = absurd (cc)
end_node_of dist (m ∷ topo) n h known = end_node_lem dist m topo known

position-lt-length :
    (xs : List String) (a : String) → contains xs a ≡ true → position xs a < length xs
position-lt-length xs a h =
    subst (λ l. position l a < length xs) (append-nil xs) (position-lt xs [] a h)

module _ {adjacency : Adjacency} {topo : List String} {dist : Distances}
    (l : IsLongest adjacency topo topo dist)
    (nodes : (n : String) → contains topo n ≡ has adjacency n) where
  -- Along an edge the distance grows.
  len-chain :
      (n : String) (rest : List String)
      → IsChain adjacency (n ∷ rest)
      → (last : String) × (contains topo last ≡ true) × (length rest + len dist n ≤ len dist last)
  len-chain n [] h = (n, ground (arith, nodes n), omega arith)
  len-chain n (m ∷ rest) h =
      let (last, there, le) = len-chain m rest h.1 in
      (last, there, ground (arith, l.above n m h.0, nodes n, edge-known adjacency n m h.0))

  len-pos : (n : String) → contains topo n ≡ true → 1 ≤ len dist n
  len-pos n h =
      let (entry, f) = has-get dist n (l.known n h) in
      elim (Option-cases entry.1) [
        | inl end' ↦ ground (
          arith,
          l.first n entry.0 (f ∙ ap (λ o. some (entry.0, o)) end'),
          len-get dist n entry f,
        )
        | inr (p, more) ↦ ground (
          arith,
          l.behind n entry.0 p (f ∙ ap (λ o. some (entry.0, o)) more),
          len-get dist n entry f,
        )
      ]

  walk_back_lem :
      (rank : String → ℕ)
      → IsRank adjacency rank
      → (fuel : ℕ) (cur : String) (path : List String) → rank cur < fuel
      → contains topo cur ≡ true
      → IsChain adjacency (cur ∷ path)
      → (walked : List String) × (walk_back fuel dist (some cur) path ≡ ok walked)
        × IsChain adjacency walked
        × (length walked ≡ len dist cur + length path)
  unfolding walk_back
  walk_back_lem rank up zero cur path lt there h = absurd (omega arith)
  walk_back_lem rank up (suc fuel) cur path lt there h =
      let (entry, f) = has-get dist cur (l.known cur there) in
      elim (Option-cases entry.1) [
        | inl start ↦
            let one = l.first cur entry.0 (f ∙ ap (λ o. some (entry.0, o)) start) in
            (
              cur ∷ path,
              rw (f ∙ ap (λ o. some (entry.0, o)) start) refl,
              h,
              ground (arith, one, len-get dist cur entry f),
            )
        | inr (p, more) ↦
            let (out, done, longer) =
              l.behind cur entry.0 p (f ∙ ap (λ o. some (entry.0, o)) more) in
            let (walked, computed, chain, size) =
              walk_back_lem rank up fuel p (cur ∷ path) (omega (arith, up p cur out)) done
                (out, h) in
            (
              walked,
              rw (f ∙ ap (λ o. some (entry.0, o)) more) computed,
              chain,
              ground (arith, size, longer, len-get dist cur entry f),
            )
      ]

-- A graph whose nodes some numbering numbers upwards has a critical path: a chain of edges, and no
-- other chain is longer.
module _ (σ : SetOrder) {g : Dag} (w : IsWellFormed g) where
  pub critical_path_lem :
      (rank : String → ℕ)
      → IsRank g.adjacency rank
      → (n : String) → has g.adjacency n ≡ true
      → (path : List String) × (critical_path_of σ g ≡ ok path)
        × IsChain g.adjacency path
        × ((m : String) (chain : List String)
            → IsChain g.adjacency (m ∷ chain)
            → length (m ∷ chain) ≤ length path)
  unfolding critical_path_of
  critical_path_lem rank up n known = elim (topological_sort_lem σ w) [
    | inr (failed, none') ↦ absurd (none' rank up)
    | inl (topo, sorted, top, upward) ↦
        let (dist, computed, l) =
          longest_paths_lem g.adjacency topo σ top.ordered top.distinct
            (λ p m e. top.nodes m ∙ w.known p m e) in
        let (last, found, is_max) =
          end_node_of dist topo n (top.nodes n ∙ known) (λ m h. l.known m h) in
        let (path, walked, chain, size) =
          walk_back_lem l top.nodes (position topo) upward (length topo) last []
            (position-lt-length topo last is_max.member) is_max.member
            (sym (top.nodes last) ∙ is_max.member) in
        (
          path,
          rw (sorted, computed, found) walked,
          chain,
          λ m more h.
              let (other, there, le) = len-chain l top.nodes m more h in
              let pos' : 1 ≤ len dist m =
                len-pos l top.nodes m (top.nodes m ∙ head-known g.adjacency m more h) in
              omega (arith, is_max.above other there, size),
        )
  ]

-- ===== src/DryRun/Longest.antt =====
-- The distances that `ExecutionEngine.dry_run` computes along a topological order.
use mathlib.Core.List.{append_assoc, append-nil}
use fuzzy_octo_train.Prelude.{
  string_eq, ℕ, ◌+◌, ◌≤◌, String, true, false, none, some, List, [], ◌∷◌, ◌++◌, get, put, get_or,
  has, contains, ◌≡◌, refl, ◌∙◌, sym, subst, ◌⊎◌, arith, Distinct, inl, inr, if◌then◌else◌, get-put,
  has-get, get-has, ==_iff, ==_refl, contains-snoc, Distinct-disjoint, SetOrder, ok,
}
use fuzzy_octo_train.Dag.Edges.{Adjacency, edge, IsOrderedFrom}
use fuzzy_octo_train.DryRun.Extend.{
  len, len-get, improved, extend_lem, improved-cases, len-same, entry-inj,
}
use fuzzy_octo_train.DryRun.{Distances, distances_from, longest_paths}

-- What is true of the distances when the nodes of `done` have been passed.
pub record IsLongest (adjacency : Adjacency) (topo done : List String) (dist : Distances)
    : Type 0 where
  pub known : (n : String) → contains topo n ≡ true → has dist n ≡ true
  -- a path ends where there is no predecessor
  pub first : (n : String) (l : ℕ) → get dist n ≡ some (l, none) → l ≡ 1
  -- a predecessor has been passed, and its path is one node shorter
  pub behind :
      (n : String) (l : ℕ) (p : String)
      → get dist n ≡ some (l, some p)
      → (edge adjacency p n ≡ true) × (contains done p ≡ true) × (l ≡ len dist p + 1)
  pub above :
      (p n : String)
      → edge adjacency p n ≡ true
      → contains done p ≡ true
      → len dist p + 1 ≤ len dist n
  pub closed :
      (p n : String) → edge adjacency p n ≡ true → contains done n ≡ true → contains done p ≡ true

module _ (adjacency : Adjacency) (topo : List String) where
  module _ (done : List String) (u : String) (dist dist' : Distances) (neighbours : List String)
      (l : IsLongest adjacency topo done dist) (new : contains done u ≡ false)
      (below : (p : String) → edge adjacency p u ≡ true → contains done p ≡ true)
      (same : (n : String) → contains neighbours n ≡ edge adjacency u n)
      (each : (n : String) → get dist' n ≡ improved dist u neighbours n) where
    Moved : String → Type 0
    Moved n =
        ((edge adjacency u n ≡ true)
          × (len dist n ≤ len dist u)
          × (get dist' n ≡ some (len dist u + 1, some u)))
        ⊎ ((edge adjacency u n ≡ true → len dist u + 1 ≤ len dist n) × (get dist' n ≡ get dist n))

    moved : (n : String) → Moved n
    unfolding Moved
    moved n = rw (same n) at (improved-cases dist u neighbours n (each n))

    kept : (p : String) → contains (done ++ u ∷ []) p ≡ true → get dist' p ≡ get dist p
    unfolding Moved
    kept p h = elim (moved p) [
      | inl (out, le, e) ↦
          absurd (ground (arith, l.closed u p out, below p, contains-snoc done u p, ==_iff u p))
      | inr (le, e) ↦ e
    ]

    -- Passing the next node keeps the invariant.
    IsLongest-step : IsLongest adjacency topo (done ++ u ∷ []) dist'
    unfolding Moved
    IsLongest-step = record {
      known = λ n h. elim (moved n) [
        | inl (out, le, e) ↦ get-has dist' n _ e
        | inr (le, e) ↦
            let (entry, f) = has-get dist n (l.known n h) in get-has dist' n entry (e ∙ f)
      ];
      first = λ n k e'. elim (moved n) [
        | inl (out, le, e) ↦ absurd (cc)
        | inr (le, e) ↦ l.first n k (sym e ∙ e')
      ];
      behind = λ n k p e'. elim (moved n) [
        | inl (out, le, e) ↦
            subst
              (λ q.
                (edge adjacency q n ≡ true)
                × (contains (done ++ u ∷ []) q ≡ true)
                × (k ≡ len dist' q + 1))
              (entry-inj (sym e ∙ e')).1
              (
                out,
                ground (arith, contains-snoc done u u, ==_refl u),
                ground (
                  arith,
                  (entry-inj (sym e ∙ e')).0,
                  len-same dist dist' u
                      (kept u (ground (arith, contains-snoc done u u, ==_refl u))),
                ),
              )
        | inr (le, e) ↦
            let (out, h, f) = l.behind n k p (sym e ∙ e') in
            (
              out,
              ground (arith, contains-snoc done u p),
              ground
                  (arith, len-same dist dist' p (kept p (ground (arith, contains-snoc done u p)))),
            )
      ];
      above = λ p n out h. elim (moved n) [
        | inl (from_u, le, e) ↦ ground (
          arith,
          len-same dist dist' p (kept p h),
          len-get dist' n _ e,
          l.above p n out,
          contains-snoc done u p,
          ==_iff u p,
        )
        | inr (le, e) ↦ ground (
          arith,
          len-same dist dist' p (kept p h),
          len-same dist dist' n e,
          l.above p n out,
          contains-snoc done u p,
          ==_iff u p,
        )
      ];
      closed = λ p n e h. ground (
        arith,
        contains-snoc done u p,
        contains-snoc done u n,
        l.closed p n e,
        below p,
        ==_iff u n,
      );
    }

  -- The start of the dictionary of distances.
  get-distances_from :
      (ns : List String) (dist : Distances) (n : String)
      → get (distances_from ns dist) n ≡ (if contains ns n then some (1, none) else get dist n)
  get-distances_from [] dist n = refl
  get-distances_from (m ∷ ns) dist n =
      ground (arith, get-distances_from ns (put dist m (1, none)) n, get-put dist m n (1, none))

  IsLongest-start : IsLongest adjacency topo [] (distances_from topo [])
  IsLongest-start = record {
    known = λ n h.
        get-has (distances_from topo []) n (1, none) (ground (arith, get-distances_from topo [] n));
    first = λ n k e. ground (arith, get-distances_from topo [] n);
    behind = λ n k p e. absurd (ground (arith, get-distances_from topo [] n));
    above = λ p n e h. cc;
    closed = λ p n e h. cc;
  }

  module _ (σ : SetOrder) where
    longest_paths-rec :
        (done rest : List String) (dist : Distances)
        → IsLongest adjacency topo done dist
        → IsOrderedFrom adjacency done rest
        → Distinct (done ++ rest)
        → ((n : String) → contains rest n ≡ true → contains topo n ≡ true)
        → ((p n : String) → edge adjacency p n ≡ true → contains topo n ≡ true)
        → (dist' : Distances) × (longest_paths σ adjacency rest dist ≡ ok dist')
          × IsLongest adjacency topo (done ++ rest) dist'
    unfolding longest_paths
    longest_paths-rec done [] dist l o d inside targets = (dist, refl, rw append-nil l)
    longest_paths-rec done (u ∷ rest) dist l o d inside targets =
        let new : contains done u ≡ false =
          Distinct-disjoint done (u ∷ rest) u d (ground (arith, ==_refl u)) in
        let neighbours : List String = σ.iterate (get_or adjacency u []) in
        let same : (n : String) → contains neighbours n ≡ edge adjacency u n =
          σ.contains-iterate (get_or adjacency u []) in
        let (dist₁, computed, each) =
          extend_lem u neighbours dist (l.known u (inside u (ground (arith, ==_refl u))))
            (ground (arith, same u, o.0 u)) (λ n h. l.known n (targets u n (sym (same n) ∙ h))) in
        let (dist', computed', l') =
          longest_paths-rec (done ++ u ∷ []) rest dist₁
            (IsLongest-step done u dist dist₁ neighbours l new o.0 same each) o.1
            (rw append_assoc d) (λ n h. inside n (ground arith)) targets in
        (dist', rw computed computed', rw append_assoc at l')

    -- `dry_run`'s loop along a topological order ends with the longest distances.
    pub longest_paths_lem :
        IsOrderedFrom adjacency [] topo
        → Distinct topo
        → ((p n : String) → edge adjacency p n ≡ true → contains topo n ≡ true)
        → (dist : Distances) × (longest_paths σ adjacency topo (distances_from topo []) ≡ ok dist)
          × IsLongest adjacency topo topo dist
    longest_paths_lem o d targets =
        longest_paths-rec [] topo (distances_from topo []) IsLongest-start o d (λ n h. h) targets

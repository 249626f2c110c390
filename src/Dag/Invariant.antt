-- ===== src/Dag/Invariant.antt =====
-- The invariant of a `DAG`, and that its two operations keep it.
use fuzzy_octo_train.Prelude.{
  string_eq, subst, String, true, false, not, ◌&&◌, ◌||◌, some, [], keys, get, put, has, contains,
  count, ◌≡◌, ◌==◌, refl, arith, Distinct, add, if◌then◌else◌, get-none, Bool-cases, inl, inr,
  count-ext, ==_iff, ==_refl, pos, ok, get-put, get-setdefault, keys-setdefault, has-get,
  contains-add, Distinct-add, Distinct-keys-setdefault, count-add, keys-put_same, count_none, ap,
  sym, ◌∙◌, suc, Distinct-keys-put, count_one_more,
}
use fuzzy_octo_train.Dag.{Dag, empty, add_node, add_edge, link}
use fuzzy_octo_train.Dag.Edges.{targets, edge}

pub record IsWellFormed (g : Dag) : Type 0 where
  -- both dictionaries have the same nodes, in the same order
  pub same_keys : keys g.adjacency ≡ keys g.in_degree
  pub distinct : Distinct (keys g.adjacency)
  pub distinct_targets : (from : String) → Distinct (targets g.adjacency from)
  pub known : (from to : String) → edge g.adjacency from to ≡ true → has g.adjacency to ≡ true
  -- the number kept for a node is that of the edges into it
  pub counted :
      (to : String)
      → has g.adjacency to ≡ true
      → get g.in_degree to
        ≡ some (pos (count (λ from. edge g.adjacency from to) (keys g.adjacency)))

pub IsWellFormed-empty : IsWellFormed empty
IsWellFormed-empty = record {
  same_keys = refl;
  distinct = tt;
  distinct_targets = λ from. tt;
  known = λ from to h. cc;
  counted = λ to h. cc;
}

-- A new node changes no edge.
pub edge-add_node :
    (g : Dag) (node from to : String)
    → edge (add_node g node).adjacency from to ≡ edge g.adjacency from to
unfolding add_node
edge-add_node g node from to =
    ground
      (arith, get-setdefault g.adjacency node from [], get-none g.adjacency node, ==_iff node from)

pub has-add_node :
    (g : Dag) (node a : String)
    → has (add_node g node).adjacency a ≡ (has g.adjacency a || node == a)
unfolding add_node
has-add_node g node a =
    rw (keys-setdefault g.adjacency node []) (contains-add (keys g.adjacency) node a)

module _ {g : Dag} (w : IsWellFormed g) (node : String) where
  counted-add_node :
      (to : String)
      → has (add_node g node).adjacency to ≡ true
      → get (add_node g node).in_degree to
        ≡ some (
            pos (
              count
                (λ from. edge (add_node g node).adjacency from to)
                (keys (add_node g node).adjacency)))
  unfolding add_node
  counted-add_node to h = elim (Bool-cases (has g.adjacency to)) [
    | inl old ↦ ground (arith, same, grown, w.counted to old, stored, ==_iff node to, same_has)
    | inr new ↦ ground (
      arith,
      same,
      grown,
      stored,
      ==_iff node to,
      same_has,
      has-add_node g node to,
      count_none (λ from. edge g.adjacency from to) (keys g.adjacency)
          (λ from. ground (arith, w.known from to)),
    )
  ]
    where
      same_has : has g.in_degree node ≡ has g.adjacency node
      same_has = ap (λ l. contains l node) (sym w.same_keys)

      stored :
          get (add_node g node).in_degree to
          ≡ (if node == to && not (has g.in_degree node) then some (pos 0) else get g.in_degree to)
      stored = get-setdefault g.in_degree node to (pos 0)

      same :
          count
            (λ from. edge (add_node g node).adjacency from to)
            (keys (add_node g node).adjacency)
          ≡ count (λ from. edge g.adjacency from to) (add (keys g.adjacency) node)
      same =
          count-ext (λ from. edge (add_node g node).adjacency from to)
            (λ from. edge g.adjacency from to) (keys (add_node g node).adjacency)
            (λ from. edge-add_node g node from to)
          ∙ ap (count (λ from. edge g.adjacency from to)) (keys-setdefault g.adjacency node [])

      grown :
          count (λ from. edge g.adjacency from to) (add (keys g.adjacency) node)
          ≡ count (λ from. edge g.adjacency from to) (keys g.adjacency)
      grown = ground (
        arith,
        count-add (λ from. edge g.adjacency from to) (keys g.adjacency) node,
        get-none g.adjacency node,
      )

  pub add_node-IsWellFormed : IsWellFormed (add_node g node)
  unfolding add_node
  add_node-IsWellFormed = record {
    same_keys = rw (
      keys-setdefault g.adjacency node [],
      keys-setdefault g.in_degree node (pos 0),
      w.same_keys,
    );
    distinct = Distinct-keys-setdefault g.adjacency node [] w.distinct;
    distinct_targets = λ from. ground (
      arith,
      get-setdefault g.adjacency node from [],
      get-none g.adjacency node,
      w.distinct_targets from,
    );
    known = λ from to h.
        ground (arith, edge-add_node g node from to, w.known from to, has-add_node g node to);
    counted = counted-add_node;
  }

-- What `link` makes of a graph that has both ends of the edge.
pub record IsLinked (g : Dag) (from to : String) (h : Dag) : Type 0 where
  pub well_formed : IsWellFormed h
  pub same_nodes : keys h.adjacency ≡ keys g.adjacency
  pub edges : (u v : String) → edge h.adjacency u v ≡ (edge g.adjacency u v || from == u && to == v)

module _ {g : Dag} (w : IsWellFormed g) (from to : String) where
  IsLinked-old : edge g.adjacency from to ≡ true → IsLinked g from to g
  IsLinked-old e = record {
    well_formed = w;
    same_nodes = refl;
    edges = λ u v. ground (arith, ==_iff from u, ==_iff to v);
  }

  module _ (has_from : has g.adjacency from ≡ true) (has_to : has g.adjacency to ≡ true)
      (new : edge g.adjacency from to ≡ false) where
    abbrev linked : Dag
    linked = record {
      adjacency = put g.adjacency from (add (targets g.adjacency from) to);
      in_degree =
          put g.in_degree to (pos (suc (count (λ u. edge g.adjacency u to) (keys g.adjacency))));
    }

    edges_new :
        (u v : String) → edge linked.adjacency u v ≡ (edge g.adjacency u v || from == u && to == v)
    edges_new u v = ground (
      arith,
      get-put g.adjacency from u (add (targets g.adjacency from) to),
      contains-add (targets g.adjacency from) to v,
      ==_iff from u,
    )

    counted_new :
        (v : String)
        → has g.adjacency v ≡ true
        → get linked.in_degree v
          ≡ some (pos (count (λ u. edge linked.adjacency u v) (keys g.adjacency)))
    counted_new v h = elim (Bool-cases (to == v)) [
      | inl here ↦ ground (
        arith,
        get-put g.in_degree to v
            (pos (suc (count (λ u. edge g.adjacency u to) (keys g.adjacency)))),
        ==_iff to v,
        count_one_more (λ u. edge linked.adjacency u to) (λ u. edge g.adjacency u to) from
            (keys g.adjacency) w.distinct has_from
            (ground (arith, edges_new from to, ==_refl from, ==_refl to)) new
            (λ u other. ground (arith, edges_new u to, ==_iff from u, ==_iff u from)),
      )
      | inr other ↦ ground (
        arith,
        get-put g.in_degree to v
            (pos (suc (count (λ u. edge g.adjacency u to) (keys g.adjacency)))),
        w.counted v h,
        count-ext (λ u. edge linked.adjacency u v) (λ u. edge g.adjacency u v) (keys g.adjacency)
            (λ u. ground (arith, edges_new u v)),
      )
    ]

    same_nodes_new : keys linked.adjacency ≡ keys g.adjacency
    same_nodes_new = keys-put_same g.adjacency from _ has_from

    IsLinked-new : IsLinked g from to linked
    IsLinked-new = record {
      well_formed = record {
        same_keys =
            same_nodes_new
            ∙ w.same_keys
            ∙ sym (keys-put_same g.in_degree to _ (rw (← w.same_keys) has_to));
        distinct = Distinct-keys-put g.adjacency from _ w.distinct;
        distinct_targets = λ u. ground (
          arith,
          get-put g.adjacency from u (add (targets g.adjacency from) to),
          w.distinct_targets u,
          Distinct-add (targets g.adjacency from) to (w.distinct_targets from),
        );
        known =
            λ u v e. rw same_nodes_new (ground (arith, edges_new u v, w.known u v, ==_iff to v));
        counted = λ v h. rw same_nodes_new (counted_new v (rw same_nodes_new at h));
      };
      same_nodes = same_nodes_new;
      edges = edges_new;
    }

  pub link_lem :
      has g.adjacency from ≡ true
      → has g.adjacency to ≡ true
      → (h : Dag) × (link g from to ≡ ok h) × IsLinked g from to h
  unfolding link
  link_lem has_from has_to = elim (Bool-cases (edge g.adjacency from to)) [
    | inl old ↦ (g, ground (arith, has-get g.adjacency from has_from), IsLinked-old old)
    | inr new ↦ (
      linked has_from has_to new,
      ground (arith, has-get g.adjacency from has_from, w.counted to has_to),
      IsLinked-new has_from has_to new,
    )
  ]

-- What `add_edge` makes of a graph.
pub record IsEdgeAdded (g : Dag) (from to : String) (h : Dag) : Type 0 where
  pub well_formed : IsWellFormed h
  pub nodes : (a : String) → has h.adjacency a ≡ (has g.adjacency a || from == a || to == a)
  pub edges : (u v : String) → edge h.adjacency u v ≡ (edge g.adjacency u v || from == u && to == v)

-- On a well-formed graph `add_edge` succeeds, and its result is well-formed and has the nodes and the
-- edges of the graph, the two nodes, and the edge between them, and no others.
pub add_edge_lem :
    {g : Dag} (w : IsWellFormed g) (from to : String)
    → (h : Dag) × (add_edge g from to ≡ ok h) × IsEdgeAdded g from to h
unfolding add_edge
add_edge_lem {g} w from to =
    let ends = add_node (add_node g from) to in
    let (h, computed, linked) =
      link_lem (add_node-IsWellFormed (add_node-IsWellFormed w from) to) from to
        (ground (arith, ends_nodes from, ==_refl from))
        (ground (arith, ends_nodes to, ==_refl to)) in
    (
      h,
      computed,
      record {
        well_formed = linked.well_formed;
        nodes = λ a. rw linked.same_nodes (ends_nodes a);
        edges = λ u v. ground (
          arith,
          linked.edges u v,
          edge-add_node (add_node g from) to u v,
          edge-add_node g from u v,
        );
      },
    )
  where
    ends_nodes :
        (a : String)
        → has (add_node (add_node g from) to).adjacency a
          ≡ (has g.adjacency a || from == a || to == a)
    ends_nodes a = ground (arith, has-add_node (add_node g from) to a, has-add_node g from a)

pub add_edge-IsWellFormed :
    {g h : Dag} (from to : String) → IsWellFormed g → add_edge g from to ≡ ok h → IsWellFormed h
add_edge-IsWellFormed {g} {h} from to w e =
    let (h', e', added) = add_edge_lem w from to in subst IsWellFormed (cc) added.well_formed

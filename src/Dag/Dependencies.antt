-- ===== src/Dag/Dependencies.antt =====
-- The loops of `Workflow.build_dag` over the tasks and their dependencies.
use fuzzy_octo_train.Prelude.{
  string_eq, String, Bool, true, false, ◌&&◌, ◌||◌, Option, none, some, List, [], ◌∷◌, has,
  contains, ◌≡◌, ◌==◌, refl, arith, if◌then◌else◌, Bool-cases, Option-cases, inl, inr, any, ok, err,
  Bool-ext, unknown_dependency, ==_iff, ==_refl, ◌∙◌,
}
use fuzzy_octo_train.Models.{Task}
use fuzzy_octo_train.Dag.{Dag, add_node, add_edge, add_dependencies, add_tasks, names}
use fuzzy_octo_train.Dag.Edges.{edge}
use fuzzy_octo_train.Dag.Invariant.{
  IsWellFormed, add_node-IsWellFormed, edge-add_node, has-add_node, add_edge_lem,
}

-- The first name in a list that is not known.
abbrev pub first_missing : List String → List String → Option String
first_missing known [] = none
first_missing known (dep ∷ deps) = if contains known dep then first_missing known deps else some dep

first_missing-none :
    (known deps : List String) (a : String)
    → first_missing known deps ≡ none
    → contains deps a ≡ true
    → contains known a ≡ true
first_missing-none known [] a e m = cc
first_missing-none known (d ∷ deps) a e m =
    ground (arith, first_missing-none known deps a, ==_iff d a)

-- The graph has these nodes and these edges.
pub record HasShape (g : Dag) (node : String → Bool) (joins : String → String → Bool) : Type 0 where
  pub well_formed : IsWellFormed g
  pub nodes : (a : String) → has g.adjacency a ≡ node a
  pub edges : (u v : String) → edge g.adjacency u v ≡ joins u v

HasShape-self : {g : Dag} → IsWellFormed g → HasShape g (has g.adjacency) (edge g.adjacency)
HasShape-self w = record { well_formed = w; nodes = λ a. refl; edges = λ u v. refl }

module _ (known : List String) (task : String) where
  add_dependencies_missing :
      (deps : List String) (dep : String) (g : Dag)
      → IsWellFormed g
      → first_missing known deps ≡ some dep
      → add_dependencies known task deps g ≡ err (unknown_dependency task dep)
  unfolding add_dependencies
  add_dependencies_missing [] dep g w e = cc
  add_dependencies_missing (d ∷ deps) dep g w e =
      let (h, added, shape) = add_edge_lem w d task in
      elim (Bool-cases (contains known d)) [
        | inl there ↦ ground (arith, added, add_dependencies_missing deps dep h shape.well_formed)
        | inr missing ↦ ground arith
      ]

  add_dependencies_step :
      (d : String) (deps : List String) (g h : Dag)
      → contains known d ≡ true
      → add_edge g d task ≡ ok h
      → add_dependencies known task (d ∷ deps) g ≡ add_dependencies known task deps h
  unfolding add_dependencies
  add_dependencies_step d deps g h there added = ground arith

  add_dependencies_lem :
      (deps : List String) (g : Dag) (node : String → Bool) (joins : String → String → Bool)
      → HasShape g node joins
      → node task ≡ true
      → first_missing known deps ≡ none
      → (h : Dag) × (add_dependencies known task deps g ≡ ok h)
        × HasShape h
            (λ a. node a || contains deps a)
            (λ u v. joins u v || contains deps u && task == v)
  unfolding add_dependencies
  add_dependencies_lem [] g node joins s t e = (
    g,
    refl,
    record {
      well_formed = s.well_formed;
      nodes = λ a. ground (arith, s.nodes a);
      edges = λ u v. ground (arith, s.edges u v);
    },
  )
  add_dependencies_lem (d ∷ deps) g node joins s t e =
      let (g', added, shape) = add_edge_lem s.well_formed d task in
      let (h, computed, final) =
        add_dependencies_lem deps g' (λ a. node a || d == a)
          (λ u v. joins u v || d == u && task == v)
          (record {
            well_formed = shape.well_formed;
            nodes = λ a. ground (arith, shape.nodes a, s.nodes a, ==_iff task a);
            edges = λ u v. ground (arith, shape.edges u v, s.edges u v);
          })
          (ground arith) (ground arith) in
      (
        h,
        ground (arith, add_dependencies_step d deps g g' (ground arith) added, computed),
        record {
          well_formed = final.well_formed;
          nodes = λ a. ground (arith, final.nodes a);
          edges = λ u v. ground (arith, final.edges u v);
        },
      )

-- The first dependency, task by task, that no task is named after: the task's name, and the name
-- that it depends on.
unfoldable pub first_unknown : {V : Type 0} → List String → List (Task V) → Option (String × String)
first_unknown known [] = none
first_unknown known (task ∷ tasks) = elim (first_missing known task.depends_on) [
  | some dep ↦ some (task.name, dep)
  | none ↦ first_unknown known tasks
]

-- Does a task of this name depend on `from`?
abbrev pub depends : {V : Type 0} → List (Task V) → String → String → Bool
depends tasks from to = any (λ task. contains task.depends_on from && task.name == to) tasks

abbrev pub mentions : {V : Type 0} → List (Task V) → String → Bool
mentions tasks a = any (λ task. task.name == a || contains task.depends_on a) tasks

HasShape-add_node :
    {g : Dag} {node : String → Bool} {joins : String → String → Bool} (name : String)
    → HasShape g node joins
    → HasShape (add_node g name) (λ a. node a || name == a) joins
HasShape-add_node {g} name s = record {
  well_formed = add_node-IsWellFormed s.well_formed name;
  nodes = λ a. ground (arith, has-add_node g name a, s.nodes a);
  edges = λ u v. edge-add_node g name u v ∙ s.edges u v;
}

module _ {V : Type 0} (known : List String) where
  pub add_tasks_unknown :
      (tasks : List (Task V)) (g : Dag) {task dep : String}
      → IsWellFormed g
      → first_unknown known tasks ≡ some (task, dep)
      → add_tasks known tasks g ≡ err (unknown_dependency task dep)
  unfolding first_unknown add_tasks
  add_tasks_unknown [] g w e = absurd (cc)
  add_tasks_unknown (t ∷ tasks) g {task} {dep} w e =
      elim (Option-cases (first_missing known t.depends_on)) [
        | inr (d, found) ↦ ground (
          arith,
          add_dependencies_missing known t.name t.depends_on d (add_node g t.name)
              (add_node-IsWellFormed w t.name) found,
        )
        | inl all' ↦
            let (h, computed, shape) =
              add_dependencies_lem known t.name t.depends_on (add_node g t.name) _ _
                (HasShape-add_node t.name (HasShape-self w)) (ground (arith, ==_refl t.name))
                all' in
            ground (
              arith,
              computed,
              add_tasks_unknown tasks h {task = task} {dep = dep} shape.well_formed,
            )
      ]

  pub add_tasks_lem :
      (tasks : List (Task V)) (g : Dag) (node : String → Bool) (joins : String → String → Bool)
      → HasShape g node joins
      → first_unknown known tasks ≡ none
      → (h : Dag) × (add_tasks known tasks g ≡ ok h)
        × HasShape h (λ a. node a || mentions tasks a) (λ u v. joins u v || depends tasks u v)
  unfolding first_unknown add_tasks
  add_tasks_lem [] g node joins s e = (
    g,
    refl,
    record {
      well_formed = s.well_formed;
      nodes = λ a. ground (arith, s.nodes a);
      edges = λ u v. ground (arith, s.edges u v);
    },
  )
  add_tasks_lem (t ∷ tasks) g node joins s e =
      let all' : first_missing known t.depends_on ≡ none = ground arith in
      let (h, computed, shape) =
        add_dependencies_lem known t.name t.depends_on (add_node g t.name) _ _
          (HasShape-add_node t.name s) (ground (arith, ==_refl t.name)) all' in
      let (final, rest, full) = add_tasks_lem tasks h _ _ shape (ground arith) in
      (
        final,
        ground (arith, computed, rest),
        record {
          well_formed = full.well_formed;
          nodes = λ a. ground (arith, full.nodes a);
          edges = λ u v. ground (arith, full.edges u v);
        },
      )

-- A name that a task mentions, as its own or a dependency's, is a task's name.
mentions-names :
    {V : Type 0} (known : List String) (tasks : List (Task V)) (a : String)
    → first_unknown known tasks ≡ none
    → mentions tasks a ≡ true
    → contains known a ≡ false
    → contains (names tasks) a ≡ true
unfolding first_unknown
mentions-names known [] a e m n = cc
mentions-names known (t ∷ tasks) a e m n =
    ground (arith, mentions-names known tasks a, first_missing-none known t.depends_on a)

names-mentions :
    {V : Type 0} (tasks : List (Task V)) (a : String)
    → contains (names tasks) a ≡ true
    → mentions tasks a ≡ true
names-mentions [] a m = cc
names-mentions (t ∷ tasks) a m = ground (arith, names-mentions tasks a)

pub mentions-eq-names :
    {V : Type 0} (tasks : List (Task V)) (a : String)
    → first_unknown (names tasks) tasks ≡ none
    → mentions tasks a ≡ contains (names tasks) a
mentions-eq-names tasks a e =
    Bool-ext _ _
      (λ m. elim (Bool-cases (contains (names tasks) a)) [
        | inl there ↦ there
        | inr missing ↦ mentions-names (names tasks) tasks a e m missing
      ])
      (names-mentions tasks a)

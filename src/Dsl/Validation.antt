-- ===== src/Dsl/Validation.antt =====
-- What it means that `WorkflowParser.validate` finds nothing wrong.
use fuzzy_octo_train.Prelude.{
  string_eq, ℕ, ◌+◌, String, Bool, true, false, not, Option, none, some, List, [], ◌∷◌, ◌++◌, ◌≡◌,
  ◌==◌, refl, sym, ◌∙◌, arith, if◌then◌else◌, contains, add, ok, Distinct, inl, inr, Bool-cases,
  Option-cases, ==_iff, ==_refl, contains-add, all,
}
use fuzzy_octo_train.Models.{Task, Workflow}
use fuzzy_octo_train.Dag.{names}
use fuzzy_octo_train.Dsl.{
  Registry, Entry, scalar, table, TaskData, Tasks, no_list, entries, Document, duplicate_name,
  or_default, named_task, parse_task, parse_tasks, parse_task_list, parse_dict, parsed_workflow,
  self_dependencies, validate_tasks, validate_task_list, validate,
}

append_nil_left : {A : Type 0} (xs ys : List A) → xs ++ ys ≡ [] → xs ≡ []
append_nil_left [] ys e = refl
append_nil_left (x ∷ xs) ys e = cc

append_nil_right : {A : Type 0} (xs ys : List A) → xs ++ ys ≡ [] → ys ≡ []
append_nil_right [] ys e = e
append_nil_right (x ∷ xs) ys e = cc

self_dependencies-nil :
    (name : String) (deps : List String)
    → self_dependencies name deps ≡ []
    → contains deps name ≡ false
unfolding self_dependencies
self_dependencies-nil name [] e = refl
self_dependencies-nil name (dep ∷ deps) e = elim (Bool-cases (dep == name)) [
  | inl same ↦ absurd (ground (arith, same))
  | inr other ↦ ground (arith, other, self_dependencies-nil name deps)
]

module _ {V : Type 0} where
  -- No task names itself as a dependency.
  abbrev pub no_self : List (Task V) → Bool
  no_self = all (λ task. not (contains task.depends_on task.name))

  -- What the parser makes of entries that have no complaint, behind those of these names.
  record IsParsed (seen : List String) (tasks : List (Task V)) : Type 0 where
    distinct : Distinct (names tasks)
    unseen : (n : String) → contains (names tasks) n ≡ true → contains seen n ≡ false
    acyclic : no_self tasks ≡ true

  module _ (registry : Registry V) (nothing : V) (fresh : ℕ → String) where
    one_more :
        (seen : List String) (task : Task V) (tasks : List (Task V))
        → contains seen task.name ≡ false
        → contains task.depends_on task.name ≡ false
        → IsParsed (add seen task.name) tasks
        → IsParsed seen (task ∷ tasks)
    one_more seen task tasks new free p = record {
      distinct = (
        ground
            (arith, p.unseen task.name, contains-add seen task.name task.name, ==_refl task.name),
        p.distinct,
      );
      unseen = λ n m. ground (arith, p.unseen n, contains-add seen task.name n, ==_iff task.name n);
      acyclic = ground (arith, p.acyclic, free);
    }

    -- What both loops do with a task that has a name.
    validate-named :
        (task_data : TaskData V) (rest : List (Entry V)) (j : ℕ) (seen : List String)
        (name : String)
        → task_data.name ≡ some name
        → validate_tasks (table task_data ∷ rest) j seen
          ≡ (if contains seen name then duplicate_name name ∷ [] else [])
            ++ self_dependencies name (or_default task_data.depends_on [])
            ++ validate_tasks rest (j + 1) (add seen name)
    unfolding validate_tasks
    validate-named task_data rest j seen name is = rw is refl

    parse-named :
        (task_data : TaskData V) (rest : List (Entry V)) (i : ℕ) (name : String)
        (tasks : List (Task V))
        → task_data.name ≡ some name
        → parse_tasks registry nothing rest fresh (i + 1) ≡ ok tasks
        → parse_tasks registry nothing (table task_data ∷ rest) fresh i
          ≡ ok (named_task registry nothing task_data name (fresh i) ∷ tasks)
    unfolding parse_tasks parse_task
    parse-named task_data rest i name tasks is later = rw (is, later) refl

    no_duplicate :
        (seen : List String) (name : String)
        → (if contains seen name then duplicate_name name ∷ [] else []) ≡ []
        → contains seen name ≡ false
    no_duplicate seen name e = elim (Bool-cases (contains seen name)) [
      | inl old ↦ absurd (ground (arith, old))
      | inr new ↦ new
    ]

    parse_tasks-ok :
        (es : List (Entry V)) (i j : ℕ) (seen : List String)
        → validate_tasks es j seen ≡ []
        → (tasks : List (Task V)) × (parse_tasks registry nothing es fresh i ≡ ok tasks)
          × IsParsed seen tasks
    parse_tasks-ok [] i j seen e = (
      [],
      unfold parse_tasks in refl,
      record { distinct = tt; unseen = λ n m. cc; acyclic = refl },
    )
    parse_tasks-ok (scalar ∷ rest) i j seen e = absurd (unfold validate_tasks in cc)
    parse_tasks-ok (table task_data ∷ rest) i j seen e = elim (Option-cases task_data.name) [
      | inl missing ↦ absurd (unfold validate_tasks in ground (arith, missing))
      | inr (name, is) ↦
          let clean = sym (validate-named task_data rest j seen name is) ∙ e in
          let self = self_dependencies name (or_default task_data.depends_on []) in
          let heads = append_nil_left _ (validate_tasks rest (j + 1) (add seen name)) clean in
          let (tasks, parsed, good) =
            parse_tasks-ok rest (i + 1) (j + 1) (add seen name) (append_nil_right _ _ clean) in
          (
            named_task registry nothing task_data name (fresh i) ∷ tasks,
            parse-named task_data rest i name tasks is parsed,
            one_more seen (named_task registry nothing task_data name (fresh i)) tasks
                (no_duplicate seen name (append_nil_left _ self heads))
                (self_dependencies-nil name (or_default task_data.depends_on [])
                  (append_nil_right _ self heads))
                good,
          )
    ]

    parse_task_list-ok :
        (tasks : Option (Tasks V))
        → validate_task_list tasks ≡ []
        → (parsed : List (Task V)) × (parse_task_list registry nothing tasks fresh ≡ ok parsed)
          × IsParsed [] parsed
    unfolding parse_task_list validate_task_list
    parse_task_list-ok none e = absurd (cc)
    parse_task_list-ok (some (no_list truthy)) e = absurd (cc)
    parse_task_list-ok (some (entries [])) e = absurd (cc)
    parse_task_list-ok (some (entries (entry ∷ rest))) e = parse_tasks-ok (entry ∷ rest) 0 0 [] e

    -- A document in which `validate` finds nothing wrong is parsed without an exception, and its tasks
    -- have different names, and none of them depends on itself directly.
    pub parse_dict-valid :
        (document : Document V) (id : String) (now : ℕ)
        → validate document ≡ []
        → (workflow : Workflow V) × (parse_dict registry nothing document fresh id now
            ≡ ok workflow)
          × Distinct (names workflow.tasks)
          × (no_self workflow.tasks ≡ true)
    unfolding parse_dict validate
    parse_dict-valid document id now e = elim (Option-cases document.name) [
      | inl missing ↦ absurd (ground (arith, missing))
      | inr (name, is) ↦
          let (tasks, parsed, good) = parse_task_list-ok document.tasks (ground (arith, is)) in
          (
            parsed_workflow document name tasks id now,
            rw (is, parsed) refl,
            good.distinct,
            good.acyclic,
          )
    ]

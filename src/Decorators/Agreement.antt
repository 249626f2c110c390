-- ===== src/Decorators/Agreement.antt =====
-- The ways to define a workflow, compared.
use mathlib.Core.List.{append_assoc, append-nil}
use fuzzy_octo_train.Prelude.{
  ℕ, ◌+◌, String, Option, none, List, [], ◌∷◌, ◌++◌, Dict, ◌≡◌, sym, ◌∙◌, ap, map,
}
use fuzzy_octo_train.Decorators.{
  Function, Settings, WorkflowBuilder, workflow_builder, decorate, build_task, add_task, add_all,
  build_workflow, create_workflow, build_all, decorated_workflow,
}

module _ {V : Type 0} where
  -- The decorated functions, as the list that `create_workflow` takes.
  abbrev pub unnamed :
      List (Function V × Settings V) → List (Function V × Option String × Settings V)
  unnamed = map (λ (func, settings). (func, none, settings))

  add_all-decorated :
      (b : WorkflowBuilder V) (tasks : List (Function V × Settings V)) (fresh : ℕ → String) (i : ℕ)
      → add_all b (unnamed tasks) fresh i ≡ record b {
        tasks =
            b.tasks ++ build_all (map (λ (func, settings). decorate settings func) tasks) fresh i;
      }
  unfolding add_all build_all decorate build_task
  add_all-decorated b [] fresh i = ap (λ ts. record b { tasks = ts }) (sym (append-nil b.tasks))
  add_all-decorated b ((func, settings) ∷ tasks) fresh i =
      add_all-decorated (add_task b func none settings (fresh i)) tasks fresh (i + 1)
      ∙ ap (λ ts. record b { tasks = ts }) (append_assoc b.tasks _ _)

  -- `create_workflow`, given functions without names of their own, and the decorators `task` and
  -- `workflow` on the same functions and settings define the same workflow, tasks in the same order.
  pub create_workflow-decorated :
      (name : String) (tasks : List (Function V × Settings V)) (metadata : Option (Dict String V))
      (fresh : ℕ → String) (id : String) (now : ℕ)
      → create_workflow name (unnamed tasks) metadata fresh id now
        ≡ decorated_workflow name metadata
            (map (λ (func, settings). decorate settings func) tasks)
            fresh
            id
            now
  unfolding create_workflow decorated_workflow build_workflow
  create_workflow-decorated name tasks metadata fresh id now =
      ap (λ b. build_workflow b id now)
        (add_all-decorated (workflow_builder name metadata) tasks fresh 0)

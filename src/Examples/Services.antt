-- ===== src/Examples/Services.antt =====
-- Workflow definitions, access and request limits.
use fuzzy_octo_train.Prelude.{
  string_eq, ℕ, String, true, Option, none, some, List, [], ◌∷◌, ◌≡◌, refl, ok, arith, pos,
  Distinct,
}
use fuzzy_octo_train.Models.{Workflow, returned}
use fuzzy_octo_train.Dag.{names}
use fuzzy_octo_train.Decorators.{Function, Settings, create_workflow, decorated_workflow, decorate}
use fuzzy_octo_train.Decorators.Agreement.{unnamed, create_workflow-decorated}
use fuzzy_octo_train.Dsl.{
  Entry, table, scalar, Document, entries, validate, parse_dict, duplicate_name, self_dependency,
  no_dictionary,
}
use fuzzy_octo_train.Dsl.Validation.{no_self, parse_dict-valid}
use fuzzy_octo_train.Auth.{
  UserInfo, Request, forwarded, ApiKeys, guarded, require_role, no_requests, dispatch_limited,
}
use fuzzy_octo_train.Auth.Access.{HasRole, guarded-HasRole}
use fuzzy_octo_train.Auth.Effects.{Visit, let_through}
use fuzzy_octo_train.Auth.Window.{IsLimited, let_through-IsLimited}

abbrev extract : Function ℕ
extract = record { name = "extract"; body = λ kwargs time. returned 1 }

abbrev load : Function ℕ
load = record { name = "load"; body = λ kwargs time. returned 2 }

abbrev after : List String → Settings ℕ
after depends_on = record {
  depends_on = some depends_on;
  timeout = 300;
  retry_count = pos 0;
  priority = pos 0;
  metadata = none;
  input_map = none;
  condition = none;
}

abbrev fresh : ℕ → String
fresh i = "0123"

create_workflow-decorated_example :
    create_workflow "etl"
      (unnamed ((extract, after []) ∷ (load, after ("extract" ∷ [])) ∷ []))
      none
      fresh
      "w1"
      0
    ≡ decorated_workflow "etl" none
        (decorate (after []) extract ∷ decorate (after ("extract" ∷ [])) load ∷ [])
        fresh
        "w1"
        0
create_workflow-decorated_example =
    create_workflow-decorated "etl" ((extract, after []) ∷ (load, after ("extract" ∷ [])) ∷ []) none
      fresh "w1" 0

abbrev defined : String → List String → Entry ℕ
defined name depends_on = table (record {
  name = some name;
  depends_on = some depends_on;
  timeout = none;
  retry_count = none;
  priority = none;
  metadata = none;
  input_map = none;
  condition = none;
})

abbrev document : List (Entry ℕ) → Document ℕ
document tasks = record { name = some "etl"; tasks = some (entries tasks); metadata = none }

abbrev good : Document ℕ
good = document (defined "extract" [] ∷ defined "load" ("extract" ∷ []) ∷ [])

good_validated : validate good ≡ []
unfolding validate
good_validated = refl

bad_validated :
    validate (document (scalar ∷ defined "a" ("a" ∷ []) ∷ defined "a" [] ∷ []))
    ≡ no_dictionary 0 ∷ self_dependency "a" ∷ duplicate_name "a" ∷ []
unfolding validate
bad_validated = refl

-- A dependency on a task that is not there passes.
dangling_validated : validate (document (defined "load" ("extract" ∷ []) ∷ [])) ≡ []
unfolding validate
dangling_validated = refl

parse_dict-valid_example :
    (workflow : Workflow ℕ) × (parse_dict [] 0 good fresh "w1" 0 ≡ ok workflow)
    × Distinct (names workflow.tasks)
    × (no_self workflow.tasks ≡ true)
parse_dict-valid_example = parse_dict-valid [] 0 fresh good "w1" 0 good_validated

abbrev admin : UserInfo
admin = record { roles = some ("admin" ∷ []); others = ("user", "ann") ∷ [] }

abbrev keys : ApiKeys
keys = ("k1", admin) ∷ []

abbrev request : Option UserInfo → Request
request user = record {
  path = "/workflows";
  headers = ("X-API-Key", "k1") ∷ [];
  client = some "10.0.0.1";
  user = user;
}

passes : guarded keys "admin" (request none) ≡ forwarded (request (some admin))
unfolding guarded require_role
passes = refl

guarded-HasRole_example : HasRole keys "admin" (request none) (request (some admin))
guarded-HasRole_example =
    guarded-HasRole keys "admin" (request none) (request (some admin)) refl passes

abbrev visits : List Visit
visits =
    record { request = request none; time = 10 }
    ∷ record { request = request none; time = 20 }
    ∷ record { request = request none; time = 30 }
    ∷ record { request = request none; time = 60010 }
    ∷ []

two_a_minute : let_through (no_requests 2) visits "10.0.0.1" ≡ 10 ∷ 20 ∷ 60010 ∷ []
unfolding let_through dispatch_limited
two_a_minute = refl

let_through-IsLimited_example : IsLimited 2 (let_through (no_requests 2) visits "10.0.0.1")
let_through-IsLimited_example = let_through-IsLimited 2 visits "10.0.0.1" (omega arith)

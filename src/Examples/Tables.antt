-- ===== src/Examples/Tables.antt =====
-- The SQLite tables, metrics, keys, tokens and logs.
use fuzzy_octo_train.Prelude.{
  string_eq, nat_eq, ℕ, String, true, false, Option, none, some, List, [], ◌∷◌, Dict, get, contains,
  pos, ◌≡◌, ◌==◌, ◌⊎◌, ◌↔◌, refl, arith, ok, err, type_error, if◌then◌else◌,
}
use fuzzy_octo_train.Models.{Workflow, WorkflowStatus}
use fuzzy_octo_train.Auth.{Request, forwarded, call_endpoint, require_role, roles_of}
use fuzzy_octo_train.Auth.Tokens.{
  Payload, dispatch_token, check_payload, token_of, validate_token, user_of, HasToken,
  token_guarded-HasToken,
}
use fuzzy_octo_train.ApiAuth.{
  HttpRequest, kept_key, is_public, provided_key, dispatch_key_request, passed, dispatch-passed_iff,
}
use fuzzy_octo_train.Sqlite.{
  Operation, save_op, update_status_op, save_results_op, apply_all, find, save, get_results,
}
use fuzzy_octo_train.Sqlite.Rows.{Database, json_dict, to_def, to_defs, to_row}
use fuzzy_octo_train.Sqlite.Reloaded.{is_storable, IsReloaded}
use fuzzy_octo_train.Sqlite.Consistency.{IsConsistent}
use fuzzy_octo_train.Sqlite.Operations.{apply_all-IsConsistent}
use fuzzy_octo_train.Sqlite.Reads.{save_lem}
use fuzzy_octo_train.Metrics.{exported_buckets, cumulate, count_observations, count_observation}
use fuzzy_octo_train.Metrics.Buckets.{summed, exported_buckets_lem}
use fuzzy_octo_train.Logging.{LogState, format, enter, exit}
use fuzzy_octo_train.Logging.Contexts.{filtered, context_lem}
use fuzzy_octo_train.Examples.Tasks.{a_result, workflow}

abbrev fresh : ℕ → String
fresh i = "0123"

abbrev vacant : Database ℕ
vacant = record { workflows = []; task_results = [] }

vacant-IsConsistent : IsConsistent vacant
vacant-IsConsistent = record {
  unique = λ k. omega arith;
  unique_results = λ k t. omega arith;
  owned = λ k e. refl;
  readable = tt;
  readable_results = tt;
}

-- JSON gives every number back but 9, which it refuses.
abbrev kept : ℕ → Option ℕ
kept n = if n == 9 then none else some n

abbrev operations : List (Operation ℕ)
operations =
    save_op workflow
    ∷ save_results_op "w1" (("a", a_result) ∷ [])
    ∷ update_status_op "w1" WorkflowStatus.success
    ∷ []

apply_all-IsConsistent_example : IsConsistent (apply_all kept vacant operations)
apply_all-IsConsistent_example = apply_all-IsConsistent kept vacant operations vacant-IsConsistent

abbrev full : Database ℕ
full = apply_all kept vacant operations

full-IsConsistent : IsConsistent full
full-IsConsistent = apply_all-IsConsistent kept vacant operations vacant-IsConsistent

save_lem_example :
    ((save kept full workflow ≡ err type_error) × (is_storable kept workflow ≡ false))
    ⊎ ((saved : Database ℕ) × (back : Workflow ℕ) × (save kept full workflow ≡ ok saved)
        × (is_storable kept workflow ≡ true)
        × IsReloaded kept workflow.created_at workflow back
        × (find 0 fresh saved "w1"
            ≡ (if workflow.id == "w1" then ok (some back) else find 0 fresh full "w1"))
        × (get_results saved "w1"
            ≡ (if workflow.id == "w1" then ok none else get_results full "w1")))
save_lem_example = save_lem kept 0 fresh full-IsConsistent workflow "w1"

-- A value that JSON cannot write.
unwritten :
    save kept vacant (record workflow { metadata = ("a", 1) ∷ ("b", 9) ∷ [] }) ≡ err type_error
unfolding save to_row to_defs to_def json_dict
unwritten = refl

-- Two observations below every bound.
twice_counted :
    exported_buckets (10 ∷ 50 ∷ 100 ∷ []) (pos 3 ∷ pos 7 ∷ []) ≡ (10, 2) ∷ (50, 4) ∷ (100, 6) ∷ []
unfolding exported_buckets cumulate count_observations count_observation
twice_counted = refl

exported_buckets_lem_example :
    exported_buckets (10 ∷ 50 ∷ 100 ∷ []) (pos 3 ∷ pos 70 ∷ [])
    ≡ summed (pos 3 ∷ pos 70 ∷ []) (10 ∷ 50 ∷ 100 ∷ []) 0
exported_buckets_lem_example =
    exported_buckets_lem (10 ∷ 50 ∷ 100 ∷ []) (pos 3 ∷ pos 70 ∷ []) (refl, (refl, (refl, tt)))

abbrev payload : Payload
payload = record { user_id = some "ann"; roles = some ("admin" ∷ []); others = [] }

abbrev decode : String → Option Payload
decode token = if token == "t1" then some payload else none

abbrev call : Request
call = record {
  path = "/workflows";
  headers = ("Authorization", "Bearer t1 x") ∷ [];
  client = none;
  user = none;
}

abbrev seen : Request
seen = record call { user = some (user_of payload) }

gets_through : call_endpoint "admin" (dispatch_token decode call) ≡ forwarded seen
unfolding call_endpoint dispatch_token check_payload token_of validate_token require_role
gets_through = refl

token_guarded-HasToken_example :
    (t : HasToken decode call seen) × (contains (roles_of (user_of t.payload)) "admin" ≡ true)
token_guarded-HasToken_example = token_guarded-HasToken decode "admin" call seen refl gets_through

abbrev http : HttpRequest
http = record {
  path = "/workflows";
  headers = ("X-API-Key", "") ∷ [];
  query_params = ("api_key", "secret") ∷ [];
}

secret_kept : kept_key (some "secret") none ≡ some "secret"
unfolding kept_key
secret_kept = refl

dispatch-passed_iff_example :
    (dispatch_key_request (kept_key (some "secret") none) http ≡ passed)
    ↔ ((is_public "/workflows" ≡ true) ⊎ (provided_key http ≡ some "secret"))
dispatch-passed_iff_example =
    dispatch-passed_iff (some "secret") none "secret" http secret_kept refl

abbrev attributes : Dict String String
attributes = ("name", "flowmesh.core") ∷ ("levelname", "INFO") ∷ ("args", "()") ∷ []

-- The context of a workflow within that of a tenant.
abbrev outer : LogState String
outer = record { contexts = (0, ("tenant", "acme") ∷ []) ∷ []; root_filters = 0 ∷ [] }

context_lem_example :
    let inner : LogState String = enter outer 1 (("workflow_id", "w1") ∷ []) in
    ((log_data : Dict String String) × (format "t" "m" none (filtered inner attributes)
        ≡ some log_data)
      × (get log_data "workflow_id" ≡ some "w1"))
    × (filtered (exit inner 1) attributes ≡ filtered outer attributes)
context_lem_example =
    context_lem outer 1 (("workflow_id", "w1") ∷ []) attributes refl refl "t" "m" none "workflow_id"
      (refl, tt) (refl, (refl, (refl, tt))) refl refl refl refl

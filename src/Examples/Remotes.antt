-- ===== src/Examples/Remotes.antt =====
-- The Redis and PostgreSQL stores.
use fuzzy_octo_train.Prelude.{
  string_eq, nat_eq, ℕ, String, Bool, true, Option, none, some, List, [], ◌∷◌, map, Dict, keys, has,
  pos, ◌≡◌, ◌==◌, refl, ok, err, query_error, if◌then◌else◌, sort_descending, All,
}
use fuzzy_octo_train.Models.{Workflow, WorkflowStatus, workflow_status_value}
use fuzzy_octo_train.Sqlite.Rows.{WorkflowRow, json_dict, to_def, to_defs, to_row}
use fuzzy_octo_train.Sqlite.Consistency.{IsReadable}
use fuzzy_octo_train.Documents.{IsPlain}
use fuzzy_octo_train.Redis
use fuzzy_octo_train.Redis.{Redis}
use fuzzy_octo_train.Redis.Consistency.{IsConsistent, IsConsistent-set_row}
use fuzzy_octo_train.Redis.Updates.{IsUpdated, update_status_lem}
use fuzzy_octo_train.Redis.Pages.{page, list_all-page}
use fuzzy_octo_train.Postgres
use fuzzy_octo_train.Postgres.{Postgres}
use fuzzy_octo_train.Postgres.Pages.{given, list_all-update_status}
use fuzzy_octo_train.Examples.Tasks.{workflow}

abbrev fresh : ℕ → String
fresh i = "0123"

abbrev clock : ℕ → ℕ
clock i = 7

-- JSON gives every number back but 9, which it refuses.
abbrev kept : ℕ → Option ℕ
kept n = if n == 9 then none else some n

abbrev no_keys : Redis ℕ
no_keys = record { workflows = []; results = []; scores = [] }

no_keys-IsConsistent : IsConsistent kept no_keys
no_keys-IsConsistent = record { entries = λ k row e. absurd (cc); listed = λ k. refl }

-- The time 107 has a time zone.
abbrev is_aware : ℕ → Bool
is_aware at = at == 107

abbrev older_row : WorkflowRow ℕ
older_row = record {
  id = "w1";
  name = "etl";
  status = "pending";
  created_at = 0;
  metadata = ("team", 3) ∷ [];
  task_defs = [];
}

abbrev newer_row : WorkflowRow ℕ
newer_row = record older_row { id = "w2"; created_at = 5 }

older_row-IsPlain : IsPlain kept older_row
unfolding json_dict
older_row-IsPlain = record { metadata = refl; task_defs = tt }

newer_row-IsPlain : IsPlain kept newer_row
unfolding json_dict
newer_row-IsPlain = record { metadata = refl; task_defs = tt }

older_row-IsReadable : IsReadable older_row
unfolding workflow_status_value
older_row-IsReadable = (WorkflowStatus.pending, refl)

newer_row-IsReadable : IsReadable newer_row
unfolding workflow_status_value
newer_row-IsReadable = (WorkflowStatus.pending, refl)

abbrev two_keys : Redis ℕ
two_keys = Redis.set_row (Redis.set_row no_keys older_row) newer_row

two_keys-IsConsistent : IsConsistent kept two_keys
two_keys-IsConsistent =
    IsConsistent-set_row kept
      (IsConsistent-set_row kept no_keys-IsConsistent older_row older_row-IsReadable
        older_row-IsPlain)
      newer_row newer_row-IsReadable newer_row-IsPlain

abbrev newest_first : Dict String ℕ → List String
newest_first scores = keys (sort_descending (λ (entry : String × ℕ). pos entry.1) scores)

newest_before : newest_first two_keys.scores ≡ "w2" ∷ "w1" ∷ []
unfolding Redis.set_row sort_descending
newest_before = refl

update_status_lem_example :
    (s' : Redis ℕ) × (Redis.update_status kept 7 0 fresh two_keys "w1" WorkflowStatus.success
      ≡ ok s')
    × IsConsistent kept s'
    × IsUpdated 9 7 0 fresh two_keys s' "w1" WorkflowStatus.success
update_status_lem_example =
    update_status_lem kept 9 7 0 fresh two_keys-IsConsistent "w1" WorkflowStatus.success

two_keys_scored : All (λ k. has two_keys.scores k ≡ true) (newest_first two_keys.scores)
unfolding Redis.set_row sort_descending
two_keys_scored = (refl, (refl, tt))

list_all-page_example :
    (workflows : List (Workflow ℕ)) × (Redis.list_all newest_first clock 0 fresh two_keys
        (pos 1)
        (pos 1)
      ≡ ok workflows)
    × (map (λ (w : Workflow ℕ). w.id) workflows ≡ page (newest_first two_keys.scores) 1 1)
list_all-page_example =
    list_all-page newest_first clock 0 fresh 1 1 two_keys-IsConsistent two_keys_scored

abbrev two_rows : Postgres ℕ
two_rows = record { workflows = older_row ∷ newer_row ∷ []; workflow_results = [] }

list_all-update_status_example :
    (workflows : List (Workflow ℕ)) × (Postgres.list_all clock 0 fresh two_rows (pos 2) (pos 0)
      ≡ ok workflows)
    × (Postgres.list_all clock 0 fresh
          (Postgres.update_status two_rows "w1" WorkflowStatus.failed)
          (pos 2)
          (pos 0)
        ≡ ok (map (given "w1" WorkflowStatus.failed) workflows))
    × All IsReadable (Postgres.update_status two_rows "w1" WorkflowStatus.failed).workflows
list_all-update_status_example =
    list_all-update_status clock 0 fresh two_rows "w1" WorkflowStatus.failed 2 0
      (older_row-IsReadable, (newer_row-IsReadable, tt))

abbrev late : Workflow ℕ
late = record workflow { created_at = 107 }

-- A time with a time zone is refused.
refused : Postgres.save kept is_aware two_rows late ≡ err query_error
unfolding Postgres.save to_row to_defs to_def json_dict
refused = refl

-- ===== src/Examples/Stores.antt =====
-- Stores, checkpoints and events.
use fuzzy_octo_train.Prelude.{
  string_eq, nat_eq, ℕ, Bool, true, List, all, refl, none, some, [], ◌∷◌, ◌≡◌, ◌==◌, if◌then◌else◌,
}
use fuzzy_octo_train.Models.{Workflow}
use fuzzy_octo_train.Store.{InMemoryStore}
use fuzzy_octo_train.Store.Contract.{in_memory_store, IsStore, in_memory_store-IsStore}
use fuzzy_octo_train.Checkpoint.{CheckpointStore}
use fuzzy_octo_train.Events.{
  event_type_eq, task_started, Event, EventBus, handlers, Response, ends, fails, Change,
  unsubscribes, Published, index_error, respond_all, first_refusal, publish, publish_to, gather,
  change_all, unsubscribe, remove, log_all,
}
use fuzzy_octo_train.Events.Delivery.{is_none, failures, entries, is_loggable, publish_lem}
use fuzzy_octo_train.Examples.Tasks.{a_result, workflow}

abbrev other : Workflow ℕ
other = record workflow { id = "w2" }

abbrev two : InMemoryStore ℕ
two = record { workflows = ("w1", workflow) ∷ ("w2", other) ∷ []; results = [] }

in_memory_store-IsStore_example : IsStore (in_memory_store ℕ)
in_memory_store-IsStore_example = in_memory_store-IsStore ℕ

abbrev saved : CheckpointStore ℕ
saved = ("w1", ("b", a_result) ∷ []) ∷ []

abbrev bus : EventBus
bus = (task_started, 1 ∷ 2 ∷ 1 ∷ []) ∷ []

abbrev started : Event
started = record { event_type = task_started; payload = []; timestamp = 9 }

-- The second and the third call raise, and meanwhile handler 1 has unsubscribed once.
abbrev respond : ℕ → Response
respond idx = if idx == 0 then ends else fails "boom"

abbrev meanwhile : List Change
meanwhile = unsubscribes task_started 1 ∷ []

abbrev has_qualname : ℕ → Bool
has_qualname handler = true

abbrev published : Published
published = publish has_qualname bus respond meanwhile started

-- Handler 1 is logged for what handler 2 has raised, and then the index is out of range.
wrong_handler : published ≡ record {
  run = 1 ∷ 2 ∷ 1 ∷ [];
  logged = (1, "boom") ∷ [];
  raised = some index_error;
  bus = (task_started, 2 ∷ 1 ∷ []) ∷ [];
}
unfolding publish publish_to gather first_refusal change_all unsubscribe remove log_all
wrong_handler = refl

none_refuses : first_refusal (respond_all respond 0 (1 ∷ 2 ∷ 1 ∷ [])) ≡ none
unfolding first_refusal
none_refuses = refl

publish_lem_example :
    let live = handlers published.bus task_started in
    let failed = failures 0 (respond_all respond 0 (1 ∷ 2 ∷ 1 ∷ [])) in
    (published.run ≡ 1 ∷ 2 ∷ 1 ∷ [])
    × (published.logged ≡ entries has_qualname live failed)
    × (is_none published.raised ≡ all (is_loggable has_qualname live) failed)
publish_lem_example = publish_lem has_qualname bus respond meanwhile started none_refuses

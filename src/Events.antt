-- ===== src/Events.antt =====
-- The event bus of src/flowmesh/core/events.py. A subscriber is a number, its identity; what
-- comes of each call of one is the environment's, as is whether it has a `__qualname__`.
pub mod Delivery
use fuzzy_octo_train.Prelude.{
  ℕ, zero, suc, String, Bool, true, false, ◌&&◌, ◌||◌, Option, none, some, List, [], ◌∷◌, ◌++◌,
  Dict, get, get_or, put, ◌≡◌, ◌==◌, ◌↔◌, arith, nat_beq, nat_eq, Eq, ℤ, if◌then◌else◌,
}

pub data EventType : Type 0 where
  workflow_started workflow_completed workflow_failed task_started task_completed task_failed
        task_retrying task_skipped :
      EventType

abbrev pub index : EventType → ℕ
index workflow_started = 0
index workflow_completed = 1
index workflow_failed = 2
index task_started = 3
index task_completed = 4
index task_failed = 5
index task_retrying = 6
index task_skipped = 7

pub event_type_beq_iff : (a b : EventType) → (nat_beq (index a) (index b) ≡ true) ↔ (a ≡ b)
event_type_beq_iff a b = ground arith

instance abbrev pub event_type_eq : Eq EventType
event_type_eq = record { beq = λ a b. nat_beq (index a) (index b); beq_iff = event_type_beq_iff }

-- What the engine puts into a payload.
pub data PayloadValue : Type 0 where
  text : String → PayloadValue
  number : ℕ → PayloadValue
  duration_ms : Option ℤ → PayloadValue

pub record Event : Type 0 where
  pub event_type : EventType
  pub payload : Dict String PayloadValue
  pub timestamp : ℕ

abbrev pub EventBus : Type 0
EventBus = Dict EventType (List ℕ)

abbrev pub handlers : EventBus → EventType → List ℕ
handlers bus event_type = get_or bus event_type []

unfoldable pub subscribe : EventBus → EventType → ℕ → EventBus
subscribe bus event_type handler = put bus event_type (handlers bus event_type ++ handler ∷ [])

-- `list.remove`, whose ValueError is suppressed
unfoldable pub remove : List ℕ → ℕ → List ℕ
remove [] handler = []
remove (h ∷ rest) handler =
    let others = remove rest handler in if h == handler then rest else h ∷ others

-- Also the missing list of an event type is created, as a `defaultdict` does.
unfoldable pub unsubscribe : EventBus → EventType → ℕ → EventBus
unfolding remove
unsubscribe bus event_type handler = put bus event_type (remove (handlers bus event_type) handler)

-- What comes of one call of a handler: its coroutine ends, or raises, or the call raises before there is
-- a coroutine.
pub data Response : Type 0 where
  ends : Response
  fails : (error : String) → Response
  refuses : (error : String) → Response

-- What other coroutines, and the handlers, do to the bus while `gather` waits.
pub data Change : Type 0 where
  subscribes : (event_type : EventType) (handler : ℕ) → Change
  unsubscribes : (event_type : EventType) (handler : ℕ) → Change

unfoldable pub change_all : EventBus → List Change → EventBus
unfolding subscribe unsubscribe
change_all bus [] = bus
change_all bus (subscribes event_type handler ∷ changes) =
    change_all (subscribe bus event_type handler) changes
change_all bus (unsubscribes event_type handler ∷ changes) =
    change_all (unsubscribe bus event_type handler) changes

-- What `publish` raises: what a call of a handler raised, or the IndexError or the AttributeError of
-- `handlers[idx].__qualname__`.
pub data PublishError : Type 0 where
  of_handler : (error : String) → PublishError
  index_error : PublishError
  attribute_error : PublishError

-- The handlers whose coroutines run, what is logged, what is raised, and the bus behind.
pub record Published : Type 0 where
  pub run : List ℕ
  pub logged : List (ℕ × String)
  pub raised : Option PublishError
  pub bus : EventBus

-- `handlers[idx]`
abbrev pub get_elem? : {A : Type 0} → List A → ℕ → Option A
get_elem? [] idx = none
get_elem? (x ∷ xs) zero = some x
get_elem? (x ∷ xs) (suc idx) = get_elem? xs idx

-- The responses of the calls, from the idx-th on: a handler that is subscribed twice is called twice.
abbrev pub respond_all : (respond : ℕ → Response) → ℕ → List ℕ → List Response
respond_all respond idx [] = []
respond_all respond idx (handler ∷ rest) = respond idx ∷ respond_all respond (suc idx) rest

-- The first call that raises.
unfoldable pub first_refusal : List Response → Option String
first_refusal [] = none
first_refusal (ends ∷ rest) = first_refusal rest
first_refusal (fails error ∷ rest) = first_refusal rest
first_refusal (refuses error ∷ rest) = some error

-- The turn of the logging loop for a result that is an exception, before the rest of it.
abbrev pub log_failure :
    (has_qualname : ℕ → Bool)
    → Option ℕ
    → String
    → List (ℕ × String) × Option PublishError
    → List (ℕ × String) × Option PublishError
log_failure has_qualname none error rest = ([], some index_error)
log_failure has_qualname (some handler) error rest =
    if has_qualname handler then ((handler, error) ∷ rest.0, rest.1) else ([], some attribute_error)

-- The loop over the results, from the idx-th on, with the list of handlers as it is then.
unfoldable pub log_all :
    (has_qualname : ℕ → Bool) → List ℕ → ℕ → List Response → List (ℕ × String) × Option PublishError
log_all has_qualname live idx [] = ([], none)
log_all has_qualname live idx (fails error ∷ rest) =
    log_failure has_qualname (get_elem? live idx) error (log_all has_qualname live (suc idx) rest)
log_all has_qualname live idx (_ ∷ rest) = log_all has_qualname live (suc idx) rest

-- `publish` behind its first test: `gather`, during which the bus changes, and the loop.
unfoldable pub gather :
    (has_qualname : ℕ → Bool)
    → EventBus
    → List Change
    → EventType
    → List ℕ
    → List Response
    → Published
unfolding first_refusal change_all log_all
gather has_qualname bus during event_type called responses = elim (first_refusal responses) [
  | some error ↦ record { run = []; logged = []; raised = some (of_handler error); bus = bus }
  | none ↦
      let bus' = change_all bus during in
      let (logged, raised) = log_all has_qualname (handlers bus' event_type) 0 responses in
      record { run = called; logged = logged; raised = raised; bus = bus' }
]

-- `publish` for these handlers.
unfoldable pub publish_to :
    (has_qualname : ℕ → Bool)
    → EventBus
    → (respond : ℕ → Response) → (during : List Change) → EventType
    → List ℕ
    → Published
unfolding gather
publish_to has_qualname bus respond during event_type [] = record {
  run = [];
  logged = [];
  raised = none;
  bus = bus;
}
publish_to has_qualname bus respond during event_type (handler ∷ rest) =
    gather has_qualname bus during event_type (handler ∷ rest)
      (respond_all respond 0 (handler ∷ rest))

-- A callable object may have no `__qualname__`: `functools.partial` gives one without.
unfoldable pub publish :
    (has_qualname : ℕ → Bool)
    → EventBus
    → (respond : ℕ → Response) → (during : List Change) → Event
    → Published
unfolding publish_to
publish has_qualname bus respond during event =
    publish_to has_qualname bus respond during event.event_type (handlers bus event.event_type)

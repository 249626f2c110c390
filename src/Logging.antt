-- ===== src/Logging.antt =====
-- The formatter, the context filter and the workflow context of src/flowmesh/observability/logging.py. `V` is
-- the type of the values that a record's attributes and the JSON object have. A filter is a number, its
-- identity. Which filters see a record is the logging library's: those of the logger that it is logged on,
-- one after the other, so that those of the root logger do not see what other loggers log.
pub mod Contexts
use fuzzy_octo_train.Prelude.{
  string_eq, nat_eq, ℕ, String, Bool, not, Option, none, some, List, [], ◌∷◌, Dict, get, get_or,
  put, has, ◌==◌, contains, add, discard, if◌then◌else◌,
}

abbrev pub standard_attributes : List String
standard_attributes =
    "name" ∷ "msg" ∷ "args" ∷ "created" ∷ "filename" ∷ "funcName" ∷ "levelname" ∷ "levelno"
    ∷ "lineno" ∷ "module" ∷ "msecs" ∷ "message" ∷ "pathname" ∷ "process" ∷ "processName"
    ∷ "relativeCreated" ∷ "thread" ∷ "threadName" ∷ "exc_info" ∷ "exc_text" ∷ "stack_info"
    ∷ "workflow_id" ∷ "task_name" ∷ []

module _ {V : Type 0} where
  -- `if hasattr(record, key): log_data[key] = record.key`
  abbrev pub copy_attribute : String → Dict String V → Dict String V → Dict String V
  copy_attribute key attributes log_data = elim (get attributes key) [
    | none ↦ log_data
    | some value ↦ put log_data key value
  ]

  abbrev pub add_exception : Option V → Dict String V → Dict String V
  add_exception exception log_data = elim exception [
    | none ↦ log_data
    | some text ↦ put log_data "exception" text
  ]

  -- The loop over `record.__dict__`.
  unfoldable pub add_extras : Dict String V → Dict String V → Dict String V
  add_extras [] log_data = log_data
  add_extras ((key, value) ∷ attributes) log_data =
      add_extras attributes
        (if contains standard_attributes key then log_data else put log_data key value)

  -- What stands in the object before the loop over the attributes.
  abbrev pub base_log_data :
      (timestamp message level name : V) → (exception : Option V) → Dict String V → Dict String V
  base_log_data timestamp message level name exception attributes = add_exception exception (
      copy_attribute "task_name" attributes (
        copy_attribute "workflow_id" attributes (
          ("timestamp", timestamp)
          ∷ ("level", level)
          ∷ ("logger", name)
          ∷ ("message", message)
          ∷ [])))

  -- What `JSONFormatter.format` writes as JSON, for the record with these attributes: the time, the
  -- message and the text of the exception, if there is one, are the library's. None where the record
  -- has no level or no name.
  unfoldable pub format :
      (timestamp message : V) → (exception : Option V) → Dict String V → Option (Dict String V)
  unfolding add_extras
  format timestamp message exception attributes = elim (get attributes "levelname") [
    | none ↦ none
    | some level ↦ elim (get attributes "name") [
      | none ↦ none
      | some name ↦
          some (
            add_extras attributes (base_log_data timestamp message level name exception attributes))
    ]
  ]

  -- `dict.update`, and `setattr` for each entry
  unfoldable pub update : Dict String V → Dict String V → Dict String V
  update d [] = d
  update d ((key, value) ∷ entries) = update (put d key value) entries

-- The context of each filter, and the filters of the root logger.
pub record LogState (V : Type 0) : Type 0 where
  pub contexts : Dict ℕ (Dict String V)
  pub root_filters : List ℕ

module _ {V : Type 0} where
  unfoldable pub set_context : LogState V → ℕ → Dict String V → LogState V
  unfolding update
  set_context s filter context = record s {
    contexts = put s.contexts filter (update (get_or s.contexts filter []) context);
  }

  unfoldable pub clear_context : LogState V → ℕ → LogState V
  clear_context s filter = record s { contexts = put s.contexts filter [] }

  -- `WorkflowLogContext.__enter__`
  unfoldable pub enter : LogState V → ℕ → Dict String V → LogState V
  unfolding set_context
  enter s filter context =
      let set = set_context s filter context in
      record set { root_filters = add set.root_filters filter }

  -- `WorkflowLogContext.__exit__`
  unfoldable pub exit : LogState V → ℕ → LogState V
  unfolding clear_context
  exit s filter = clear_context (record s { root_filters = discard s.root_filters filter }) filter

  -- What these filters make of a record's attributes, one after the other.
  unfoldable pub filter_record : Dict ℕ (Dict String V) → List ℕ → Dict String V → Dict String V
  unfolding update
  filter_record contexts [] attributes = attributes
  filter_record contexts (filter ∷ filters) attributes =
      filter_record contexts filters (update attributes (get_or contexts filter []))

-- ===== src/Logging/Contexts.antt =====
-- What a workflow's log context adds to the records.
use fuzzy_octo_train.Prelude.{
  string_eq, nat_eq, ℕ, String, true, false, Option, none, some, List, [], ◌∷◌, Dict, keys, get,
  get_or, put, ◌==◌, ◌≡◌, ◌≢◌, refl, sym, subst, if◌then◌else◌, Distinct-keys-put, ◌++◌, ◌||◌, not,
  Bool, discard, ◌∙◌, ap, contains, arith, get-put, get-none, ==_iff, ==_refl, Distinct, Bool-cases,
  Option-cases, inl, inr,
}
use fuzzy_octo_train.Logging.{
  standard_attributes, add_extras, copy_attribute, add_exception, format, update, set_context,
  enter, filter_record, exit, LogState, clear_context,
}

-- What tells two entries apart is that a list has one and not the other.
absent : (xs : List String) (a b : String) → a ≡ b → contains xs a ≡ true → contains xs b ≢ false
absent xs a b e in' out = cc

apart :
    (xs : List String) (a b : String)
    → contains xs a ≡ true
    → contains xs b ≡ false
    → (a == b) ≡ false
apart xs a b in' out = elim (Bool-cases (a == b)) [
  | inr other ↦ other
  | inl same ↦ absurd (absent xs a b ((==_iff a b).0 same) in' out)
]

-- The same the other way round.
apart' :
    (a b : String)
    → contains standard_attributes a ≡ false
    → contains standard_attributes b ≡ true
    → (a == b) ≡ false
apart' a b out in' = elim (Bool-cases (a == b)) [
  | inr other ↦ other
  | inl same ↦ absurd (absent standard_attributes b a (sym ((==_iff a b).0 same)) in' out)
]

-- The formatter shows an entry of this name as it is.
abbrev pub is_shown : String → Bool
is_shown k = k == "workflow_id" || k == "task_name" || not (contains standard_attributes k)

discard-last :
    (filters : List ℕ) (f : ℕ)
    → contains filters f ≡ false
    → discard (filters ++ f ∷ []) f ≡ filters
discard-last [] f out = ground (arith, ==_refl f)
discard-last (g ∷ filters) f out = ground (arith, discard-last filters f, ==_iff g f)

middle : (a b c : Bool) → (a || b || not c) ≡ true → a ≡ false → c ≡ true → b ≡ true
middle a b c h first last = ground arith

module _ {V : Type 0} where
  abbrev pub or_else : Option V → Option V → Option V
  or_else none b = b
  or_else (some a) b = some a

  or_else-none : (a b : Option V) → or_else (or_else a none) b ≡ or_else a b
  or_else-none none b = refl
  or_else-none (some a) b = refl

  get-update :
      (d entries : Dict String V) (k : String)
      → Distinct (keys entries)
      → get (update d entries) k ≡ or_else (get entries k) (get d k)
  unfolding update
  get-update d [] k h = refl
  get-update d ((key, value) ∷ entries) k h = ground (
    arith,
    get-update (put d key value) entries k h.1,
    get-put d key k value,
    get-none entries key h.0,
    ==_iff key k,
  )

  get-add_extras :
      (attributes log_data : Dict String V) (k : String)
      → Distinct (keys attributes)
      → contains standard_attributes k ≡ false
      → get (add_extras attributes log_data) k ≡ or_else (get attributes k) (get log_data k)
  unfolding add_extras
  get-add_extras [] log_data k h new = refl
  get-add_extras ((key, value) ∷ attributes) log_data k h new =
      elim (Bool-cases (contains standard_attributes key)) [
        | inl standard ↦ rw standard (
            get-add_extras attributes log_data k h.1 new
            ∙ rw (apart standard_attributes key k standard new) refl)
        | inr extra ↦ rw extra (
            get-add_extras attributes (put log_data key value) k h.1 new
            ∙ ground
                (arith, get-put log_data key k value, get-none attributes key h.0, ==_iff key k))
      ]

  Distinct-update :
      (d entries : Dict String V) → Distinct (keys d) → Distinct (keys (update d entries))
  unfolding update
  Distinct-update d [] h = h
  Distinct-update d ((key, value) ∷ entries) h =
      Distinct-update (put d key value) entries (Distinct-keys-put d key value h)

  get-add_extras_standard :
      (attributes log_data : Dict String V) (k : String)
      → contains standard_attributes k ≡ true
      → get (add_extras attributes log_data) k ≡ get log_data k
  unfolding add_extras
  get-add_extras_standard [] log_data k old = refl
  get-add_extras_standard ((key, value) ∷ attributes) log_data k old =
      elim (Bool-cases (contains standard_attributes key)) [
        | inl standard ↦ rw standard (get-add_extras_standard attributes log_data k old)
        | inr extra ↦ rw extra (
            get-add_extras_standard attributes (put log_data key value) k old
            ∙ rw (get-put log_data key k value, apart' key k extra old) refl)
      ]

  get-copy_attribute :
      (key : String) (attributes log_data : Dict String V) (k : String)
      → get (copy_attribute key attributes log_data) k
        ≡ (if key == k then or_else (get attributes key) (get log_data k) else get log_data k)
  get-copy_attribute key attributes log_data k = elim (Option-cases (get attributes key)) [
    | inl missing ↦ ground (arith, missing)
    | inr (value, e) ↦ ground (arith, e, get-put log_data key k value)
  ]

  get-add_exception :
      (exception : Option V) (log_data : Dict String V) (k : String)
      → ("exception" == k) ≡ false
      → get (add_exception exception log_data) k ≡ get log_data k
  get-add_exception none log_data k other = refl
  get-add_exception (some text) log_data k other =
      get-put log_data "exception" k text ∙ rw other refl

  module _ (exception : Option V) (attributes log_data : Dict String V) where
    -- The object before the loop.
    abbrev base : Dict String V
    base =
        add_exception exception
          (copy_attribute "task_name" attributes (copy_attribute "workflow_id" attributes log_data))

    get-task_name :
        {value : V} → get attributes "task_name" ≡ some value → get base "task_name" ≡ some value
    get-task_name e =
        get-add_exception exception _ "task_name" refl
        ∙ get-copy_attribute "task_name" attributes
            (copy_attribute "workflow_id" attributes log_data) "task_name"
        ∙ rw e refl

    get-workflow_id :
        {value : V}
        → get attributes "workflow_id" ≡ some value
        → get base "workflow_id" ≡ some value
    get-workflow_id e =
        get-add_exception exception _ "workflow_id" refl
        ∙ get-copy_attribute "task_name" attributes
            (copy_attribute "workflow_id" attributes log_data) "workflow_id"
        ∙ get-copy_attribute "workflow_id" attributes log_data "workflow_id"
        ∙ rw e refl

  -- An entry that was there has a value still.
  get-update_kept :
      (d entries : Dict String V) (k : String) {value : V}
      → get d k ≡ some value
      → (found : V) × (get (update d entries) k ≡ some found)
  unfolding update
  get-update_kept d [] k {value} e = (value, e)
  get-update_kept d ((key, value') ∷ entries) k {value} e = elim (Bool-cases (key == k)) [
    | inl here ↦
        get-update_kept (put d key value') entries k {value = value'}
          (get-put d key k value' ∙ rw here refl)
    | inr other ↦
        get-update_kept (put d key value') entries k {value = value}
          (get-put d key k value' ∙ rw other e)
  ]

  filter_record-kept :
      (contexts : Dict ℕ (Dict String V)) (filters : List ℕ) (attributes : Dict String V)
      (k : String) {value : V}
      → get attributes k ≡ some value
      → (found : V) × (get (filter_record contexts filters attributes) k ≡ some found)
  unfolding filter_record
  filter_record-kept contexts [] attributes k {value} e = (value, e)
  filter_record-kept contexts (f ∷ filters) attributes k e =
      let (found, e') = get-update_kept attributes (get_or contexts f []) k e in
      filter_record-kept contexts filters (update attributes (get_or contexts f [])) k e'

  filter_record-Distinct :
      (contexts : Dict ℕ (Dict String V)) (filters : List ℕ) (attributes : Dict String V)
      → Distinct (keys attributes)
      → Distinct (keys (filter_record contexts filters attributes))
  unfolding filter_record
  filter_record-Distinct contexts [] attributes d = d
  filter_record-Distinct contexts (f ∷ filters) attributes d =
      filter_record-Distinct contexts filters (update attributes (get_or contexts f []))
        (Distinct-update attributes (get_or contexts f []) d)

  -- The context of a filter that is not among these does not matter.
  filter_record-put :
      (contexts : Dict ℕ (Dict String V)) (filters : List ℕ) (f : ℕ)
      (context attributes : Dict String V)
      → contains filters f ≡ false
      → filter_record (put contexts f context) filters attributes
        ≡ filter_record contexts filters attributes
  unfolding filter_record
  filter_record-put contexts [] f context attributes out = refl
  filter_record-put contexts (g ∷ filters) f context attributes out =
      let other : (f == g) ≡ false = ground (arith, ==_iff f g, ==_iff g f) in
      filter_record-put contexts filters f context
        (update attributes (get_or (put contexts f context) g [])) (ground arith)
      ∙ ap
          (λ (found : Option (Dict String V)).
            filter_record contexts filters
              (update attributes (elim found [ some w ↦ w | none ↦ [] ])))
          {y = get contexts g} (get-put contexts f g context ∙ rw other refl)

  filter_record-last :
      (contexts : Dict ℕ (Dict String V)) (filters : List ℕ) (f : ℕ) (attributes : Dict String V)
      → filter_record contexts (filters ++ f ∷ []) attributes
        ≡ update (filter_record contexts filters attributes) (get_or contexts f [])
  unfolding filter_record
  filter_record-last contexts [] f attributes = refl
  filter_record-last contexts (g ∷ filters) f attributes =
      filter_record-last contexts filters f (update attributes (get_or contexts g []))

  get-logged :
      (exception : Option V) (attributes log_data : Dict String V) (k : String) {value : V}
      → Distinct (keys attributes)
      → is_shown k ≡ true
      → get attributes k ≡ some value
      → get (add_extras attributes (base exception attributes log_data)) k ≡ some value
  get-logged exception attributes log_data k {value} d shown e =
      let logged = base exception attributes log_data in
      elim (Bool-cases (contains standard_attributes k)) [
        | inr extra ↦ get-add_extras attributes logged k d extra ∙ rw e refl
        | inl standard ↦
            get-add_extras_standard attributes logged k standard
            ∙ (elim (Bool-cases (k == "workflow_id")) [
              | inl here ↦
                  subst (λ j. get attributes j ≡ some value → get logged j ≡ some value)
                    (sym ((==_iff k "workflow_id").0 here))
                    (get-workflow_id exception attributes log_data) e
              | inr other ↦
                  subst (λ j. get attributes j ≡ some value → get logged j ≡ some value)
                    (sym (
                      (==_iff k "task_name").0 (
                        middle (k == "workflow_id") (k == "task_name")
                          (contains standard_attributes k) shown other standard)))
                    (get-task_name exception attributes log_data) e
            ])
      ]

  get-format :
      (timestamp message : V) (exception : Option V) (attributes : Dict String V) (k : String)
      {level name value : V}
      → Distinct (keys attributes)
      → get attributes "levelname" ≡ some level
      → get attributes "name" ≡ some name
      → is_shown k ≡ true
      → get attributes k ≡ some value
      → (log_data : Dict String V) × (format timestamp message exception attributes ≡ some log_data)
        × (get log_data k ≡ some value)
  unfolding format
  get-format timestamp message exception attributes k {level} {name} d l n shown e =
      let first : Dict String V =
        ("timestamp", timestamp)
        ∷ ("level", level)
        ∷ ("logger", name)
        ∷ ("message", message)
        ∷ [] in
      (
        add_extras attributes (base exception attributes first),
        rw (format, l, n) refl,
        get-logged exception attributes first k d shown e,
      )

  -- What the filters of the root logger make of a record's attributes.
  abbrev pub filtered : LogState V → Dict String V → Dict String V
  filtered s attributes = filter_record s.contexts s.root_filters attributes

  module _ (s : LogState V) (f : ℕ) (context attributes : Dict String V)
      (new : get s.contexts f ≡ none) (out : contains s.root_filters f ≡ false) where
    filtered-enter :
        filtered (enter s f context) attributes ≡ update (filtered s attributes) (update [] context)
    unfolding enter set_context
    filtered-enter =
        let whole = update (get_or s.contexts f []) context in
        rw (enter, out)
          (filter_record-last (put s.contexts f whole) s.root_filters f attributes
            ∙ ap (λ d. update d (get_or (put s.contexts f whole) f []))
                (filter_record-put s.contexts s.root_filters f whole attributes out)
            ∙ ap (update (filtered s attributes)) {x = get_or (put s.contexts f whole) f []}
                {y = update [] context}
                (ground (arith, get-put s.contexts f f whole, ==_refl f, new)))

    filtered-exit : filtered (exit (enter s f context) f) attributes ≡ filtered s attributes
    unfolding exit enter set_context clear_context
    filtered-exit =
        let whole = update (get_or s.contexts f []) context in
        rw (exit, enter, out, discard-last s.root_filters f out)
          (filter_record-put (put s.contexts f whole) s.root_filters f [] attributes out
            ∙ filter_record-put s.contexts s.root_filters f whole attributes out)

    -- A workflow's log context is entered whose filter is new. Within it the JSON object of a record, with
    -- a level and a logger's name, that the filters of the root logger see has each entry of the context
    -- that the formatter shows: workflow_id, task_name, and every one whose name is no standard attribute,
    -- whatever contexts there are around it. After it these filters make of the record what they made of
    -- it before.
    pub context_lem :
        (timestamp message : V) (exception : Option V) (k : String) {level name value : V}
        → Distinct (keys context)
        → Distinct (keys attributes)
        → get attributes "levelname" ≡ some level
        → get attributes "name" ≡ some name
        → is_shown k ≡ true
        → get context k ≡ some value
        → ((log_data : Dict String V) × (format timestamp message exception
                (filtered (enter s f context) attributes)
              ≡ some log_data)
            × (get log_data k ≡ some value))
          × (filtered (exit (enter s f context) f) attributes ≡ filtered s attributes)
    context_lem timestamp message exception k dc da l n shown e =
        let inner = enter s f context in
        let (level', l') =
          filter_record-kept inner.contexts inner.root_filters attributes "levelname" l in
        let (name', n') =
          filter_record-kept inner.contexts inner.root_filters attributes "name" n in
        (
          get-format timestamp message exception (filtered inner attributes) k
              (filter_record-Distinct inner.contexts inner.root_filters attributes da) l' n' shown
              (ap (λ d. get d k) filtered-enter
                ∙ get-update (filtered s attributes) (update [] context) k
                    (Distinct-update [] context tt)
                ∙ rw (get-update [] context k dc, e) refl),
          filtered-exit,
        )

-- ===== src/Events/Delivery.antt =====
-- Who gets an event.
use fuzzy_octo_train.Prelude.{
  ℕ, suc, ◌-◌, String, Bool, true, false, Option, none, some, List, [], ◌∷◌, ◌++◌, put, ◌≡◌, ◌==◌,
  refl, ap, arith, nat_eq, get-put, if◌then◌else◌, ==_iff, ==_refl, contains, count, ◌&&◌, all,
  Bool-cases, inl, inr,
}
use fuzzy_octo_train.Events.{
  EventType, event_type_eq, Event, EventBus, handlers, subscribe, remove, unsubscribe, Response,
  ends, fails, refuses, Change, change_all, Published, get_elem?, respond_all, first_refusal,
  log_failure, PublishError, publish_to, log_all, gather, publish,
}

abbrev pub is_none : {A : Type 0} → Option A → Bool
is_none none = true
is_none (some a) = false

handlers-put :
    (bus : EventBus) (t u : EventType) (hs : List ℕ)
    → handlers (put bus t hs) u ≡ (if t == u then hs else handlers bus u)
handlers-put bus t u hs = ground (arith, get-put bus t u hs)

-- The positions, from idx on, whose coroutines raise, each with what it raises.
abbrev pub failures : ℕ → List Response → List (ℕ × String)
failures idx [] = []
failures idx (fails error ∷ rest) = (idx, error) ∷ failures (suc idx) rest
failures idx (_ ∷ rest) = failures (suc idx) rest

module _ (has_qualname : ℕ → Bool) (live : List ℕ) where
  abbrev pub is_named : Option ℕ → Bool
  is_named none = false
  is_named (some handler) = has_qualname handler

  -- At this position stands a handler with a name.
  abbrev pub is_loggable : ℕ × String → Bool
  is_loggable (idx, error) = is_named (get_elem? live idx)

  abbrev pub entry : Option ℕ → String → List (ℕ × String) → List (ℕ × String)
  entry none error more = []
  entry (some handler) error more = if has_qualname handler then (handler, error) ∷ more else []

  -- The entries of the log for positions up to the first without such a handler.
  abbrev pub entries : List (ℕ × String) → List (ℕ × String)
  entries [] = []
  entries ((idx, error) ∷ rest) = entry (get_elem? live idx) error (entries rest)

  log_turn :
      (found : Option ℕ) (error : String) (rest : List (ℕ × String) × Option PublishError)
      {more : List (ℕ × String)} {returns : Bool}
      → rest.0 ≡ more
      → is_none rest.1 ≡ returns
      → ((log_failure has_qualname found error rest).0 ≡ entry found error more)
        × (is_none (log_failure has_qualname found error rest).1 ≡ (is_named found && returns))
  log_turn none error rest l r = (refl, refl)
  log_turn (some handler) error rest l r = elim (Bool-cases (has_qualname handler)) [
    | inl named ↦ rw named (ap (◌∷◌ (handler, error)) l, r)
    | inr unnamed ↦ rw unnamed (refl, refl)
  ]

  log_all_lem :
      (idx : ℕ) (responses : List Response)
      → ((log_all has_qualname live idx responses).0 ≡ entries (failures idx responses))
        × (is_none (log_all has_qualname live idx responses).1
            ≡ all is_loggable (failures idx responses))
  unfolding log_all
  log_all_lem idx [] = (refl, refl)
  log_all_lem idx (ends ∷ rest) = log_all_lem (suc idx) rest
  log_all_lem idx (refuses error ∷ rest) = log_all_lem (suc idx) rest
  log_all_lem idx (fails error ∷ rest) =
      let (logged, returned) = log_all_lem (suc idx) rest in
      log_turn (get_elem? live idx) error (log_all has_qualname live (suc idx) rest) logged returned

module _ (has_qualname : ℕ → Bool) (bus : EventBus) (respond : ℕ → Response) (during : List Change)
    (t : EventType) where
  -- What `publish` is to make of these handlers.
  abbrev pub IsDelivered : List ℕ → Published → Type 0
  IsDelivered called p =
      let live = handlers p.bus t in
      let failed = failures 0 (respond_all respond 0 called) in
      (p.run ≡ called)
      × (p.logged ≡ entries has_qualname live failed)
      × (is_none p.raised ≡ all (is_loggable has_qualname live) failed)

  delivered :
      (called : List ℕ)
      → first_refusal (respond_all respond 0 called) ≡ none
      → IsDelivered called (publish_to has_qualname bus respond during t called)
  unfolding publish_to gather
  delivered [] e = (refl, refl, refl)
  delivered (handler ∷ rest) e =
      let (logged, returned) =
        log_all_lem has_qualname (handlers (change_all bus during) t) 0
          (respond_all respond 0 (handler ∷ rest)) in
      rw (publish_to, gather, e) (refl, logged, returned)

-- A failing subscriber keeps no other from running: when each call of a handler of the event's type
-- makes a coroutine, all of them run, whatever any raises. Then the exceptions are logged, in the order of
-- the calls, up to the first at whose position the list of handlers, as it is by then, has no handler, or
-- one without `__qualname__`; and `publish` returns exactly when there is none such.
pub publish_lem :
    (has_qualname : ℕ → Bool) (bus : EventBus) (respond : ℕ → Response) (during : List Change)
    (event : Event)
    → first_refusal (respond_all respond 0 (handlers bus event.event_type)) ≡ none
    → let p = publish has_qualname bus respond during event in
      let live = handlers p.bus event.event_type in
      let failed = failures 0 (respond_all respond 0 (handlers bus event.event_type)) in
      (p.run ≡ handlers bus event.event_type)
      × (p.logged ≡ entries has_qualname live failed)
      × (is_none p.raised ≡ all (is_loggable has_qualname live) failed)
unfolding publish
publish_lem has_qualname bus respond during event e =
    delivered has_qualname bus respond during event.event_type (handlers bus event.event_type) e

-- A subscription adds the handler behind those of its event type, and changes no other type's.
pub handlers-subscribe :
    (bus : EventBus) (t u : EventType) (h : ℕ)
    → handlers (subscribe bus t h) u ≡ (if t == u then handlers bus u ++ h ∷ [] else handlers bus u)
unfolding subscribe
handlers-subscribe bus t u h =
    ground (arith, handlers-put bus t u (handlers bus t ++ h ∷ []), ==_iff t u)

remove-snoc : (hs : List ℕ) (h : ℕ) → contains hs h ≡ false → remove (hs ++ h ∷ []) h ≡ hs
unfolding remove
remove-snoc [] h new = ground (arith, ==_refl h)
remove-snoc (x ∷ hs) h new = ground (arith, remove-snoc hs h)

pub remove-count :
    (hs : List ℕ) (h a : ℕ)
    → count (λ x. x == a) (remove hs h) ≡ count (λ x. x == a) hs - (if h == a then 1 else 0)
unfolding remove
remove-count [] h a = ground arith
remove-count (x ∷ hs) h a = ground (arith, remove-count hs h a)

-- Unsubscribing a handler takes away one of its subscriptions to the type, if it has one, and none of
-- any other handler or type.
pub count-unsubscribe :
    (bus : EventBus) (t u : EventType) (h a : ℕ)
    → count (λ x. x == a) (handlers (unsubscribe bus t h) u)
      ≡ count (λ x. x == a) (handlers bus u) - (if t == u && h == a then 1 else 0)
unfolding unsubscribe
count-unsubscribe bus t u h a = ground (
  arith,
  handlers-put bus t u (remove (handlers bus t) h),
  remove-count (handlers bus t) h a,
  ==_iff t u,
)

-- A handler that was not subscribed to a type is called as before once it has been subscribed and
-- unsubscribed again.
pub unsubscribe-subscribe :
    (bus : EventBus) (t u : EventType) (h : ℕ)
    → contains (handlers bus t) h ≡ false
    → handlers (unsubscribe (subscribe bus t h) t h) u ≡ handlers bus u
unfolding unsubscribe
unsubscribe-subscribe bus t u h new = ground (
  arith,
  handlers-put (subscribe bus t h) t u (remove (handlers (subscribe bus t h) t) h),
  handlers-subscribe bus t t h,
  handlers-subscribe bus t u h,
  remove-snoc (handlers bus t) h new,
  ==_iff t u,
  ==_refl t,
)

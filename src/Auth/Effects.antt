-- ===== src/Auth/Effects.antt =====
-- What a request does to the times that `RateLimitMiddleware` keeps.
use fuzzy_octo_train.Prelude.{
  string_eq, ℕ, ◌≤◌, max, not, ◌&&◌, ◌<◌, String, Bool, true, false, List, [], ◌∷◌, ◌++◌, Dict, get,
  get_or, ◌==◌, ◌≡◌, contains, filter, length, arith, if◌then◌else◌, Option-cases, Bool-cases, inl,
  inr, get-put, ==_iff, ==_refl,
}
use fuzzy_octo_train.Auth.{
  RateLimit, is_recent, unlimited_paths, client_ip, clean, is_exceeded, record_request,
  dispatch_limited, Request, Reply, forwarded,
}

-- The times kept for a client.
abbrev pub kept : Dict String (List ℕ) → String → List ℕ
kept requests ip = get_or requests ip []

kept-clean :
    (requests : Dict String (List ℕ)) (ip a : String) (now : ℕ)
    → kept (clean requests ip now) a
      ≡ (if ip == a then filter (is_recent now) (kept requests a) else kept requests a)
unfolding clean
kept-clean requests ip a now = elim (Option-cases (get requests ip)) [
  | inl missing ↦ ground (arith, missing, ==_iff ip a)
  | inr (times, e) ↦
      ground (arith, e, ==_iff ip a, get-put requests ip a (filter (is_recent now) times))
]

is_exceeded-kept :
    (requests : Dict String (List ℕ)) (ip : String) (limit : ℕ)
    → is_exceeded requests ip limit ≡ false
    → length (kept requests ip) < max limit 1
unfolding is_exceeded
is_exceeded-kept requests ip limit e = elim (Option-cases (get requests ip)) [
  | inl missing ↦ ground (arith, missing)
  | inr (times, is) ↦ ground (arith, is)
]

kept-record_request :
    (requests : Dict String (List ℕ)) (ip a : String) (now : ℕ)
    → kept (record_request requests ip now) a
      ≡ (if ip == a then kept requests a ++ now ∷ [] else kept requests a)
unfolding record_request
kept-record_request requests ip a now =
    ground (arith, ==_iff ip a, get-put requests ip a (get_or requests ip [] ++ now ∷ []))

abbrev is_forwarded : Reply → Bool
is_forwarded (forwarded request) = true
is_forwarded _ = false

-- A request of this client that is limited, and goes through.
abbrev pub is_counted : String → Request → Reply → Bool
is_counted ip request reply =
    client_ip request == ip && not (contains unlimited_paths request.path) && is_forwarded reply

pub record Visit : Type 0 where
  pub request : Request
  pub time : ℕ

-- The times at which limited requests of a client go through.
unfoldable pub let_through : RateLimit → List Visit → String → List ℕ
let_through r [] ip = []
let_through r (v ∷ visits) ip =
    let (reply, r') = dispatch_limited r v.request v.time in
    let later = let_through r' visits ip in
    if is_counted ip v.request reply then v.time ∷ later else later

-- The clock does not go back.
abbrev pub IsMonotone : ℕ → List Visit → Type 0
IsMonotone last [] = Unit
IsMonotone last (v ∷ visits) = (last ≤ v.time) × IsMonotone v.time visits

module _ (r : RateLimit) (v : Visit) (ip : String) where
  abbrev pub after : Reply × RateLimit
  after = dispatch_limited r v.request v.time

  abbrev pub recent_ones : List ℕ
  recent_ones = filter (is_recent v.time) (kept r.requests ip)

  -- The times kept for a client after a request of anyone.
  pub data Effect : Type 0 where
    same :
        is_counted ip v.request after.0 ≡ false
        → kept after.1.requests ip ≡ kept r.requests ip
        → Effect
    cleaned :
        is_counted ip v.request after.0 ≡ false → kept after.1.requests ip ≡ recent_ones → Effect
    counted :
        is_counted ip v.request after.0 ≡ true
        → kept after.1.requests ip ≡ recent_ones ++ v.time ∷ []
        → length recent_ones < max r.requests_per_minute 1
        → Effect

  pub same_limit : after.1.requests_per_minute ≡ r.requests_per_minute
  unfolding dispatch_limited
  same_limit = ground arith

  abbrev host : String
  host = client_ip v.request

  abbrev now_kept : Dict String (List ℕ)
  now_kept = clean r.requests host v.time

  refused :
      contains unlimited_paths v.request.path ≡ false
      → is_exceeded now_kept host r.requests_per_minute ≡ true
      → Effect
  unfolding dispatch_limited
  refused limited full = elim (Bool-cases (host == ip)) [
    | inl here ↦
        cleaned (ground (arith, limited, full))
          (ground (arith, limited, full, kept-clean r.requests host ip v.time))
    | inr there ↦
        same (ground (arith, limited, full))
          (ground (arith, limited, full, kept-clean r.requests host ip v.time))
  ]

  admitted :
      contains unlimited_paths v.request.path ≡ false
      → is_exceeded now_kept host r.requests_per_minute ≡ false
      → Effect
  unfolding dispatch_limited
  admitted limited room = elim (Bool-cases (host == ip)) [
    | inl here ↦
        counted (ground (arith, limited, room))
          (ground (
            arith,
            limited,
            room,
            kept-record_request now_kept host ip v.time,
            kept-clean r.requests host ip v.time,
          ))
          (ground (
            arith,
            is_exceeded-kept now_kept host r.requests_per_minute room,
            kept-clean r.requests host host v.time,
            ==_refl host,
            ==_iff host ip,
          ))
    | inr there ↦ same (ground (arith, limited, room)) (
        ground (
          arith,
          limited,
          room,
          kept-record_request now_kept host ip v.time,
          kept-clean r.requests host ip v.time,
        ))
  ]

  pub effect : Effect
  unfolding dispatch_limited
  effect = elim (Bool-cases (contains unlimited_paths v.request.path)) [
    | inl free ↦ same (ground (arith, free)) (ground (arith, free))
    | inr limited ↦
        elim (Bool-cases (
          is_exceeded (clean r.requests (client_ip v.request) v.time) (client_ip v.request)
            r.requests_per_minute)) [
              | inl full ↦ refused limited full
              | inr room ↦ admitted limited room
            ]
  ]

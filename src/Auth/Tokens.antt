-- ===== src/Auth/Tokens.antt =====
-- The JWT middleware of src/flowmesh/auth/__init__.py. The decoding of a token is a library's: a parameter,
-- none where it raises.
use Prim.Native.String.{len, slice, find}
use text.Mathlib.Text.{starts_with}
use fuzzy_octo_train.Prelude.{
  string_eq, min, String, Bool, true, false, not, ◌||◌, Option, none, some, List, [], ◌∷◌, Dict,
  get, contains, ◌==◌, ◌≡◌, ◌≢◌, if◌then◌else◌, refl, sym, ◌∙◌, arith, Bool-cases, Option-cases,
  inl, inr, ap,
}
use fuzzy_octo_train.Auth.{
  UserInfo, Request, Reply, forwarded, returned_exception, attribute_error, call_endpoint, roles_of,
}
use fuzzy_octo_train.Auth.Access.{forwarded-inj, require_role-forwarded, call_endpoint-forwarded}

-- The payload of a token: the entries that the middleware reads, and the rest.
pub record Payload : Type 0 where
  pub user_id : Option String
  pub roles : Option (List String)
  pub others : Dict String String

-- An empty dictionary is false.
abbrev pub is_filled : Payload → Bool
is_filled payload = elim payload.user_id [
  | some user_id ↦ true
  | none ↦ elim payload.roles [
    | some roles ↦ true
    | none ↦ elim payload.others [ [] ↦ false | entry ∷ entries ↦ true ]
  ]
]

-- `JWTAuth.validate`, whose `except` clauses turn an exception into None
unfoldable pub validate_token : (decode : String → Option Payload) → String → Option Payload
validate_token decode token = decode token

abbrev pub token_free_paths : List String
token_free_paths = "/health" ∷ "/docs" ∷ "/redoc" ∷ "/openapi.json" ∷ "/auth/login" ∷ []

-- `auth_header.split(" ")[1]`, of a header that starts with "Bearer "
unfoldable pub token_of : String → String
token_of auth_header =
    let rest = slice auth_header 7 (len auth_header) in
    slice rest 0 (min (find rest " ") (len rest))

-- The dictionary that becomes `request.state.user`.
abbrev pub user_of : Payload → UserInfo
user_of payload = record {
  roles = some (elim payload.roles [ none ↦ [] | some roles ↦ roles ]);
  others = elim payload.user_id [ none ↦ [] | some user_id ↦ ("user_id", user_id) ∷ [] ];
}

abbrev pub refuse_token : Request → Reply
refuse_token request = elim request.client [
  | none ↦ attribute_error
  | some host ↦ returned_exception 401 "Invalid or expired token"
]

unfoldable pub check_payload : Request → Option Payload → Reply
check_payload request none = refuse_token request
check_payload request (some payload) =
    if is_filled payload
    then forwarded (record request { user = some (user_of payload) })
    else refuse_token request

-- `JWTAuthMiddleware.dispatch`
unfoldable pub dispatch_token : (decode : String → Option Payload) → Request → Reply
unfolding validate_token token_of check_payload
dispatch_token decode request =
    if contains token_free_paths request.path
    then forwarded request
    else (elim (get request.headers "Authorization") [
      | none ↦ returned_exception 401 "Missing or invalid authorization header"
      | some auth_header ↦
          if auth_header == "" || not (starts_with auth_header "Bearer ")
          then returned_exception 401 "Missing or invalid authorization header"
          else check_payload request (validate_token decode (token_of auth_header))
    ])

-- The request carries a token that decodes to a payload, and the endpoint sees its user.
pub record HasToken (decode : String → Option Payload) (request seen : Request) : Type 0 where
  pub auth_header : String
  pub payload : Payload
  pub sent : get request.headers "Authorization" ≡ some auth_header
  pub bearer : starts_with auth_header "Bearer " ≡ true
  pub decoded : decode (token_of auth_header) ≡ some payload
  pub seen_user : seen.user ≡ some (user_of payload)

not_forwarded : (request seen : Request) → refuse_token request ≢ forwarded seen
not_forwarded request seen e = elim (Option-cases request.client) [
  | inl missing ↦ absurd (ground (arith, missing))
  | inr (host, is) ↦ absurd (ground (arith, is))
]

check_payload-filled :
    (request : Request) (payload : Payload)
    → is_filled payload ≡ true
    → check_payload request (some payload)
      ≡ forwarded (record request { user = some (user_of payload) })
unfolding check_payload
check_payload-filled request payload full = rw (check_payload, full) refl

check_payload-vacant :
    (request : Request) (payload : Payload)
    → is_filled payload ≡ false
    → check_payload request (some payload) ≡ refuse_token request
unfolding check_payload
check_payload-vacant request payload vacant = rw (check_payload, vacant) refl

check_payload-forwarded :
    (request seen : Request) (found : Option Payload)
    → check_payload request found ≡ forwarded seen
    → (payload : Payload) × (found ≡ some payload) × (seen.user ≡ some (user_of payload))
unfolding check_payload
check_payload-forwarded request seen none e = absurd (not_forwarded request seen e)
check_payload-forwarded request seen (some payload) e = elim (Bool-cases (is_filled payload)) [
  | inl full ↦ (
    payload,
    refl,
    ap (λ r. r.user) (sym (forwarded-inj (sym (check_payload-filled request payload full) ∙ e))),
  )
  | inr vacant ↦
      absurd (not_forwarded request seen (sym (check_payload-vacant request payload vacant) ∙ e))
]

dispatch_token-checked :
    (decode : String → Option Payload) (request : Request) (auth_header : String)
    → contains token_free_paths request.path ≡ false
    → get request.headers "Authorization" ≡ some auth_header
    → (auth_header == "" || not (starts_with auth_header "Bearer ")) ≡ false
    → dispatch_token decode request ≡ check_payload request (decode (token_of auth_header))
unfolding dispatch_token validate_token
dispatch_token-checked decode request auth_header closed sent filled =
    rw (dispatch_token, closed, sent, filled) refl

dispatch_token-HasToken :
    (decode : String → Option Payload) (request seen : Request)
    → contains token_free_paths request.path ≡ false
    → dispatch_token decode request ≡ forwarded seen
    → HasToken decode request seen
dispatch_token-HasToken decode request seen closed e =
    elim (Option-cases (get request.headers "Authorization")) [
      | inl missing ↦ absurd (unfold dispatch_token in ground (arith, missing, closed))
      | inr (auth_header, sent) ↦
          elim (Bool-cases (auth_header == "" || not (starts_with auth_header "Bearer "))) [
            | inl bad ↦ absurd (unfold dispatch_token in ground (arith, sent, bad, closed))
            | inr good ↦
                let (payload, decoded, seen_user) =
                  check_payload-forwarded request seen (decode (token_of auth_header)) (
                    sym (dispatch_token-checked decode request auth_header closed sent good) ∙ e) in
                record {
                  auth_header = auth_header;
                  payload = payload;
                  sent = sent;
                  bearer = ground arith;
                  decoded = decoded;
                  seen_user = seen_user;
                }
          ]
    ]

-- On a path that needs a token, a request gets through the token check and `require_role` only if its
-- Authorization header is a bearer token that decodes to a payload whose roles include the required
-- one; the endpoint then sees the user of that payload.
pub token_guarded-HasToken :
    (decode : String → Option Payload) (role : String) (request seen : Request)
    → contains token_free_paths request.path ≡ false
    → call_endpoint role (dispatch_token decode request) ≡ forwarded seen
    → (t : HasToken decode request seen) × (contains (roles_of (user_of t.payload)) role ≡ true)
token_guarded-HasToken decode role request seen closed e =
    let (passed, forwarded_on, allowed) =
      call_endpoint-forwarded role (dispatch_token decode request) seen e in
    let (same, granted) = require_role-forwarded role passed seen allowed in
    let t : HasToken decode request seen =
      dispatch_token-HasToken decode request seen closed (forwarded_on ∙ ap forwarded same) in
    (t, granted (user_of t.payload) (ap (λ r. r.user) same ∙ t.seen_user))

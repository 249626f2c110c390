-- ===== src/Auth.antt =====
-- src/flowmesh/auth/__init__.py: API keys, roles and the limit on requests. Times are milliseconds;
-- reading the clock, the request and the next handler are the server's.
pub mod Access
pub mod Effects
pub mod Window
pub mod Tokens
use fuzzy_octo_train.Prelude.{
  string_eq, ℕ, ◌+◌, String, Bool, true, false, ◌&&◌, not, Option, none, some, List, [], ◌∷◌, ◌++◌,
  Dict, get, get_or, put, has, ◌==◌, contains, filter, length, leb, ltb, if◌then◌else◌,
}

-- What is known of a user: the roles, and whatever else.
pub record UserInfo : Type 0 where
  pub roles : Option (List String)
  pub others : Dict String String

-- An empty dictionary is false.
abbrev pub is_truthy : UserInfo → Bool
is_truthy info = elim info.roles [
  | some roles ↦ true
  | none ↦ elim info.others [ [] ↦ false | other ∷ others ↦ true ]
]

pub record Request : Type 0 where
  pub path : String
  pub headers : Dict String String
  -- the client's address, if it is known
  pub client : Option String
  -- `request.state.user`, if it is set
  pub user : Option UserInfo

-- What becomes of a request: it goes on, it is answered by an HTTPException that is returned, or one
-- that is raised, or the handling fails on an attribute of None.
pub data Reply : Type 0 where
  forwarded : Request → Reply
  returned_exception : (status_code : ℕ) (detail : String) → Reply
  raised_exception : (status_code : ℕ) (detail : String) → Reply
  attribute_error : Reply

-- `APIKeyAuth`: its dictionary of keys.
abbrev pub ApiKeys : Type 0
ApiKeys = Dict String UserInfo

unfoldable pub validate_key : ApiKeys → String → Option UserInfo
validate_key api_keys api_key = get api_keys api_key

abbrev pub open_paths : List String
open_paths = "/health" ∷ "/docs" ∷ "/redoc" ∷ "/openapi.json" ∷ []

abbrev pub refuse_key : Request → Reply
refuse_key request = elim request.client [
  | none ↦ attribute_error
  | some host ↦ returned_exception 401 "Invalid API key"
]

unfoldable pub check_user : Request → Option UserInfo → Reply
check_user request none = refuse_key request
check_user request (some info) =
    if is_truthy info then forwarded (record request { user = some info }) else refuse_key request

-- `APIKeyAuthMiddleware.dispatch`
unfoldable pub dispatch_key : ApiKeys → Request → Reply
unfolding check_user validate_key
dispatch_key api_keys request =
    if contains open_paths request.path
    then forwarded request
    else (elim (get request.headers "X-API-Key") [
      | none ↦ returned_exception 401 "Missing API key"
      | some api_key ↦
          if api_key == ""
          then returned_exception 401 "Missing API key"
          else check_user request (validate_key api_keys api_key)
    ])

abbrev pub roles_of : UserInfo → List String
roles_of info = elim info.roles [ none ↦ [] | some roles ↦ roles ]

-- The wrapper that `require_role` puts around an endpoint.
unfoldable pub require_role : String → Request → Reply
require_role required_role request = elim request.user [
  | none ↦ raised_exception 401 "Authentication required"
  | some info ↦
      if is_truthy info
      then (if contains (roles_of info) required_role
          then forwarded request
          else raised_exception 403 required_role)
      else raised_exception 401 "Authentication required"
]

-- `call_next`, where the endpoint is behind `require_role`.
unfoldable pub call_endpoint : String → Reply → Reply
call_endpoint required_role (forwarded request) = require_role required_role request
call_endpoint required_role reply = reply

-- An endpoint behind the middleware and `require_role`.
unfoldable pub guarded : ApiKeys → String → Request → Reply
unfolding call_endpoint dispatch_key
guarded api_keys required_role request = call_endpoint required_role (dispatch_key api_keys request)

-- `RateLimitMiddleware`: its limit, and the times of each client's requests.
pub record RateLimit : Type 0 where
  pub requests_per_minute : ℕ
  pub requests : Dict String (List ℕ)

abbrev pub no_requests : ℕ → RateLimit
no_requests requests_per_minute = record {
  requests_per_minute = requests_per_minute;
  requests = [];
}

-- `current_time - t < 60`
abbrev pub is_recent : (current_time t : ℕ) → Bool
is_recent current_time t = ltb current_time (t + 60000)

abbrev pub unlimited_paths : List String
unlimited_paths = "/health" ∷ "/metrics" ∷ []

abbrev pub client_ip : Request → String
client_ip request = elim request.client [ none ↦ "unknown" | some host ↦ host ]

unfoldable pub clean : Dict String (List ℕ) → String → ℕ → Dict String (List ℕ)
clean requests ip current_time = elim (get requests ip) [
  | none ↦ requests
  | some times ↦ put requests ip (filter (is_recent current_time) times)
]

unfoldable pub is_exceeded : Dict String (List ℕ) → String → ℕ → Bool
is_exceeded requests ip limit = elim (get requests ip) [
  | none ↦ false
  | some times ↦ leb limit (length times)
]

unfoldable pub record_request : Dict String (List ℕ) → String → ℕ → Dict String (List ℕ)
record_request requests ip current_time =
    put requests ip (get_or requests ip [] ++ current_time ∷ [])

-- `RateLimitMiddleware.dispatch`
unfoldable pub dispatch_limited : RateLimit → Request → ℕ → Reply × RateLimit
unfolding clean is_exceeded record_request
dispatch_limited r request current_time =
    if contains unlimited_paths request.path
    then (forwarded request, r)
    else let ip = client_ip request in
      let cleaned = clean r.requests ip current_time in
      if is_exceeded cleaned ip r.requests_per_minute
      then (raised_exception 429 "Rate limit exceeded", record r { requests = cleaned })
      else (forwarded request, record r { requests = record_request cleaned ip current_time })

-- ===== src/Auth/Access.antt =====
-- Who gets through to an endpoint.
use fuzzy_octo_train.Prelude.{
  string_eq, String, true, false, Option, none, some, get, ◌==◌, ◌≡◌, ◌≢◌, contains, arith,
  Option-cases, Bool-cases, inl, inr, refl, sym, ◌∙◌, ap, subst,
}
use fuzzy_octo_train.Auth.{
  UserInfo, is_truthy, Request, Reply, forwarded, returned_exception, raised_exception,
  attribute_error, ApiKeys, validate_key, open_paths, check_user, dispatch_key, roles_of,
  require_role, guarded, refuse_key, call_endpoint,
}

-- The request carries a key whose user has the role, and the endpoint sees that user.
pub record HasRole (api_keys : ApiKeys) (role : String) (request seen : Request) : Type 0 where
  pub key : String
  pub info : UserInfo
  pub sent : get request.headers "X-API-Key" ≡ some key
  pub filled : (key == "") ≡ false
  pub known : get api_keys key ≡ some info
  pub seen_user : seen.user ≡ some info
  pub has_role : contains (roles_of info) role ≡ true

some-inj : {i j : UserInfo} → some i ≡ some j → i ≡ j
some-inj e = cc

-- What the key check lets through.
record IsKnown (api_keys : ApiKeys) (request seen : Request) : Type 0 where
  key : String
  info : UserInfo
  sent : get request.headers "X-API-Key" ≡ some key
  filled : (key == "") ≡ false
  known : get api_keys key ≡ some info
  seen_user : seen.user ≡ some info

pub forwarded-inj : {r s : Request} → forwarded r ≡ forwarded s → r ≡ s
forwarded-inj e = cc

refused : (request seen : Request) → refuse_key request ≢ forwarded seen
refused request seen e = elim (Option-cases request.client) [
  | inl missing ↦ absurd (ground (arith, missing))
  | inr (host, is) ↦ absurd (ground (arith, is))
]

check_user-full :
    (request : Request) (info : UserInfo)
    → is_truthy info ≡ true
    → check_user request (some info) ≡ forwarded (record request { user = some info })
unfolding check_user
check_user-full request info e = rw e refl

check_user-vacant :
    (request : Request) (info : UserInfo)
    → is_truthy info ≡ false
    → check_user request (some info) ≡ refuse_key request
unfolding check_user
check_user-vacant request info e = rw e refl

check_user-none : (request : Request) → check_user request none ≡ refuse_key request
unfolding check_user
check_user-none request = refl

check_user-forwarded :
    (request seen : Request) (found : Option UserInfo)
    → check_user request found ≡ forwarded seen
    → (info : UserInfo) × (found ≡ some info) × (seen.user ≡ some info)
check_user-forwarded request seen none e =
    absurd (refused request seen (sym (check_user-none request) ∙ e))
check_user-forwarded request seen (some info) e = elim (Bool-cases (is_truthy info)) [
  | inl full ↦
      let passed : forwarded (record request { user = some info }) ≡ forwarded seen =
        sym (check_user-full request info full) ∙ e in
      (info, refl, ap (λ r. r.user) (sym (forwarded-inj passed)))
  | inr vacant ↦ absurd (refused request seen (sym (check_user-vacant request info vacant) ∙ e))
]

dispatch_key-checked :
    (api_keys : ApiKeys) (request : Request) (key : String)
    → contains open_paths request.path ≡ false
    → get request.headers "X-API-Key" ≡ some key
    → (key == "") ≡ false
    → dispatch_key api_keys request ≡ check_user request (get api_keys key)
unfolding dispatch_key validate_key
dispatch_key-checked api_keys request key closed sent filled = rw (closed, sent, filled) refl

dispatch_key-IsKnown :
    (api_keys : ApiKeys) (request seen : Request)
    → contains open_paths request.path ≡ false
    → dispatch_key api_keys request ≡ forwarded seen
    → IsKnown api_keys request seen
dispatch_key-IsKnown api_keys request seen closed e =
    elim (Option-cases (get request.headers "X-API-Key")) [
      | inl missing ↦ absurd (unfold dispatch_key in ground (arith, missing, closed))
      | inr (key, sent) ↦ elim (Bool-cases (key == "")) [
        | inl blank ↦ absurd (unfold dispatch_key in ground (arith, sent, blank, closed))
        | inr filled ↦
            let checked = sym (dispatch_key-checked api_keys request key closed sent filled) ∙ e in
            let (info, known, seen_user) =
              check_user-forwarded request seen (get api_keys key) checked in
            record {
              key = key;
              info = info;
              sent = sent;
              filled = filled;
              known = known;
              seen_user = seen_user;
            }
      ]
    ]

pub require_role-forwarded :
    (role : String) (request seen : Request)
    → require_role role request ≡ forwarded seen
    → (request ≡ seen)
      × ((info : UserInfo) → request.user ≡ some info → contains (roles_of info) role ≡ true)
unfolding require_role
require_role-forwarded role request seen e = elim (Option-cases request.user) [
  | inl missing ↦ absurd (ground (arith, missing))
  | inr (info, is) ↦ elim (Bool-cases (is_truthy info)) [
    | inr vacant ↦ absurd (ground (arith, is, vacant))
    | inl full ↦ elim (Bool-cases (contains (roles_of info) role)) [
      | inr lacking ↦ absurd (ground (arith, is, full, lacking))
      | inl granted ↦ (
        forwarded-inj (sym (rw (is, full, granted) refl) ∙ e),
        λ other is_other.
            subst (λ i. contains (roles_of i) role ≡ true) (some-inj (sym is ∙ is_other)) granted,
      )
    ]
  ]
]

pub call_endpoint-forwarded :
    (role : String) (reply : Reply) (seen : Request)
    → call_endpoint role reply ≡ forwarded seen
    → (passed : Request) × (reply ≡ forwarded passed) × (require_role role passed ≡ forwarded seen)
unfolding call_endpoint
call_endpoint-forwarded role (forwarded passed) seen e = (passed, refl, e)
call_endpoint-forwarded role (returned_exception status_code detail) seen e = absurd (cc)
call_endpoint-forwarded role (raised_exception status_code detail) seen e = absurd (cc)
call_endpoint-forwarded role attribute_error seen e = absurd (cc)

-- On a path that needs a key, a request gets through the key check and `require_role` only if it carries
-- a known key whose user has the role, and then the endpoint sees that user.
pub guarded-HasRole :
    (api_keys : ApiKeys) (role : String) (request seen : Request)
    → contains open_paths request.path ≡ false
    → guarded api_keys role request ≡ forwarded seen
    → HasRole api_keys role request seen
unfolding guarded
guarded-HasRole api_keys role request seen closed e =
    let (passed, checked, allowed) =
      call_endpoint-forwarded role (dispatch_key api_keys request) seen e in
    let known = dispatch_key-IsKnown api_keys request passed closed checked in
    let (same, has) = require_role-forwarded role passed seen allowed in
    record {
      key = known.key;
      info = known.info;
      sent = known.sent;
      filled = known.filled;
      known = known.known;
      seen_user = subst (λ r. r.user ≡ some known.info) same known.seen_user;
      has_role = has known.info known.seen_user;
    }

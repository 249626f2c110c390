-- ===== src/ApiAuth.antt =====
-- The API key middleware of src/flowmesh/api/auth.py.
use Prim.Native.String.{count, len}
use text.Mathlib.Text.{starts_with}
use fuzzy_octo_train.Prelude.{
  string_eq, String, Bool, true, false, ◌&&◌, Option, none, some, List, [], ◌∷◌, Dict, get,
  contains, ◌==◌, ◌≡◌, ◌↔◌, if◌then◌else◌, refl, sym, ◌∙◌, arith, Bool-cases, inl, inr, nat_beq,
  ==_iff, ==_refl, ◌⊎◌,
}

pub record HttpRequest : Type 0 where
  pub path : String
  pub headers : Dict String String
  pub query_params : Dict String String

-- The request goes on, it is answered with 401, or `compare_digest` raises TypeError.
pub data Verdict : Type 0 where
  passed : Verdict
  unauthorized : Verdict
  comparison_error : Verdict

abbrev pub public_paths : List String
public_paths = "/health" ∷ "/docs" ∷ "/redoc" ∷ "/openapi.json" ∷ []

unfoldable pub is_public : String → Bool
is_public path = if contains public_paths path then true else starts_with path "/dashboard"

-- `a or b`, where an empty text counts as none
abbrev pub or_else : Option String → Option String → Option String
or_else none b = b
or_else (some a) b = if a == "" then b else some a

-- The key that `__init__` keeps: `api_key or os.environ.get("FLOWMESH_API_KEY") or None`
unfoldable pub kept_key : (api_key environ : Option String) → Option String
kept_key api_key environ = or_else api_key (or_else environ none)

abbrev pub enabled : Option String → Bool
enabled key = elim key [ none ↦ false | some k ↦ true ]

-- As many bytes as characters.
abbrev pub is_ascii : String → Bool
is_ascii s = nat_beq (count s) (len s)

-- `secrets.compare_digest` of two texts raises TypeError unless both are ASCII.
unfoldable pub compare_keys : (provided expected : String) → Verdict
compare_keys provided expected =
    if is_ascii provided && is_ascii expected
    then (if provided == expected then passed else unauthorized)
    else comparison_error

abbrev pub provided_key : HttpRequest → Option String
provided_key request =
    or_else (get request.headers "X-API-Key") (get request.query_params "api_key")

-- `APIKeyMiddleware.dispatch`
unfoldable pub dispatch_key_request : (kept : Option String) → HttpRequest → Verdict
unfolding compare_keys is_public
dispatch_key_request none request = passed
dispatch_key_request (some expected) request =
    if is_public request.path then passed else (elim (provided_key request) [
      | none ↦ unauthorized
      | some provided ↦ if provided == "" then unauthorized else compare_keys provided expected
    ])

kept_key-filled :
    (api_key environ : Option String) (expected : String)
    → kept_key api_key environ ≡ some expected
    → (expected == "") ≡ false
unfolding kept_key
kept_key-filled none none expected e = absurd (cc)
kept_key-filled none (some b) expected e = ground arith
kept_key-filled (some a) none expected e = ground arith
kept_key-filled (some a) (some b) expected e = ground arith

-- The verdict on a path that is not public.
judged : Option String → String → Verdict
judged provided expected = elim provided [
  | none ↦ unauthorized
  | some p ↦ if p == "" then unauthorized else compare_keys p expected
]

judged-passed :
    (provided : Option String) (expected : String)
    → judged provided expected ≡ passed
    → provided ≡ some expected
unfolding judged compare_keys
judged-passed none expected e = absurd (cc)
judged-passed (some p) expected e = ground (arith, ==_iff p expected)

judged-own :
    (expected : String)
    → (expected == "") ≡ false
    → is_ascii expected ≡ true
    → judged (some expected) expected ≡ passed
unfolding judged compare_keys
judged-own expected filled ascii = ground (arith, ==_refl expected)

dispatch-private :
    (expected : String) (request : HttpRequest)
    → is_public request.path ≡ false
    → dispatch_key_request (some expected) request ≡ judged (provided_key request) expected
unfolding dispatch_key_request judged
dispatch-private expected request hidden = rw (dispatch_key_request, hidden) refl

dispatch-public :
    (expected : String) (request : HttpRequest)
    → is_public request.path ≡ true
    → dispatch_key_request (some expected) request ≡ passed
unfolding dispatch_key_request
dispatch-public expected request open' = rw (dispatch_key_request, open') refl

-- With a key that `__init__` keeps and that is ASCII, a request gets through exactly when its path is
-- public, or the key that it provides, in the header or, where the header is missing or empty, in the
-- query, is the kept one.
pub dispatch-passed_iff :
    (api_key environ : Option String) (expected : String) (request : HttpRequest)
    → kept_key api_key environ ≡ some expected
    → is_ascii expected ≡ true
    → (dispatch_key_request (kept_key api_key environ) request ≡ passed)
      ↔ ((is_public request.path ≡ true) ⊎ (provided_key request ≡ some expected))
dispatch-passed_iff api_key environ expected request e ascii = rw e (
  λ through. elim (Bool-cases (is_public request.path)) [
    | inl open' ↦ inl open'
    | inr hidden ↦ inr (
        judged-passed (provided_key request) expected
          (sym (dispatch-private expected request hidden) ∙ through))
  ],
  λ why. elim (Bool-cases (is_public request.path)) [
    | inl open' ↦ dispatch-public expected request open'
    | inr hidden ↦ elim why [
      | inl open' ↦ absurd (ground arith)
      | inr own ↦
          dispatch-private expected request hidden
          ∙ rw own (judged-own expected (kept_key-filled api_key environ expected e) ascii)
    ]
  ],
)

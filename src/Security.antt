-- ===== src/Security.antt =====
-- python/src/cubiczan_resilience/fastapi_helpers.py: the dependency that `require_auth` builds, and
-- `cors_allowlist`. The value of the environment variable and the credentials that FastAPI's
-- `HTTPBearer` found are arguments.
pub mod Access
mod Tests
use cubiczan_resilience.Base.{
  Bool, true, ◌&&◌, Option, none, some, List, [], ◌∷◌, any, ltb, if◌then◌else◌,
}
use cubiczan_resilience.Text.{Text, codes, text_eq, lower}

pub record Credentials : Type 0 where
  pub scheme : Text
  pub token : Text

-- The answer to a request: the token, an `HTTPException` with its status, or the `TypeError` of
-- `hmac.compare_digest` on a text that is not ASCII.
pub data Answer : Type 0 where
  admitted : Text → Answer
  unavailable : Answer
  unauthorized : Answer
  type_error : Answer

abbrev pub is_ascii : Text → Bool
is_ascii [] = true
is_ascii (c ∷ s) = ltb c 128 && is_ascii s

-- `os.environ.get(env_var) or ""`.
abbrev pub or_empty : Option Text → Text
or_empty none = []
or_empty (some s) = s

-- The comparison of the token with the secret.
abbrev pub compared : Text → Text → Answer
compared token expected =
    if is_ascii token && is_ascii expected
    then (if text_eq token expected then admitted token else unauthorized)
    else type_error

abbrev pub checked : Option Credentials → Text → Answer
checked none expected = unauthorized
checked (some c) expected =
    if text_eq (lower c.scheme) (codes "bearer") then compared c.token expected else unauthorized

abbrev pub answered : Option Credentials → Text → Answer
answered c [] = unavailable
answered c (d ∷ expected) = checked c (d ∷ expected)

-- The function `dependency`.
unfoldable pub dependency : Option Text → Option Credentials → Answer
dependency secret c = answered c (or_empty secret)

-- The settings of `CORSMiddleware`.
pub record Cors : Type 0 where
  pub allow_origins : List Text
  pub allow_credentials : Bool
  pub allow_methods : List Text
  pub allow_headers : List Text

abbrev pub or_any : Option (List Text) → List Text
or_any none = codes "*" ∷ []
or_any (some names) = names

-- `none` is the `ValueError`.
unfoldable pub cors_allowlist :
    List Text → Bool → Option (List Text) → Option (List Text) → Option Cors
cors_allowlist origins allow_credentials methods headers =
    if allow_credentials && any (text_eq (codes "*")) origins
    then none
    else some (record {
      allow_origins = origins;
      allow_credentials = allow_credentials;
      allow_methods = or_any methods;
      allow_headers = or_any headers;
    })

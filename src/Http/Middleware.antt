-- ===== src/Http/Middleware.antt =====
-- src/middleware/required-headers.middleware.ts, and the check of the media type in src/main.ts.
pub mod Laws
use text.Mathlib.Text.{starts_with}
use run_bot_backend.Prelude.{
  ℕ, String, Option, none, some, Bool, true, false, not, ◌&&◌, ◌||◌, truthy, ltb, ◌==◌,
  if◌then◌else◌,
}

-- `content_length` is what `Number(req.headers['content-length'] || 0)` gives, and `is_json` what
-- `req.is('application/json')` answers.
pub record Request : Type 0 where
  pub method : String
  pub url : String
  pub request_id : Option String
  pub csrf_token : Option String
  pub xsrf_cookie : Option String
  pub content_length : ℕ
  pub is_json : Bool

-- What becomes of the request: the next handler gets it, or it is answered with a status.
pub data Outcome : Type 0 where
  next : Request → Outcome
  answer : ℕ → String → Outcome

unfoldable pub skips : Request → Bool
skips req =
    req.method == "OPTIONS"
    || req.url == "/health"
    || starts_with req.url "/_next"
    || starts_with req.url "/static"
    || starts_with req.url "/favicon.ico"

abbrev pub is_mutating : String → Bool
is_mutating method = method == "POST" || method == "PUT" || method == "PATCH" || method == "DELETE"

abbrev with_request_id : String → Request → Request
with_request_id fresh req =
    if truthy req.request_id then req else record req { request_id = some fresh }

-- `use`: `fresh` is what `crypto.randomUUID()` returns.
unfoldable pub require_headers : String → Request → Outcome
require_headers fresh req =
    if skips req
    then next req
    else if is_mutating req.method && truthy req.xsrf_cookie && not (truthy req.csrf_token)
    then answer 400 "Missing X-CSRF-Token"
    else next (with_request_id fresh req)

abbrev pub has_body : Request → Bool
has_body req = ltb 0 req.content_length

unfoldable pub check_media_type : Request → Outcome
check_media_type req =
    if (req.method == "POST"
        || req.method == "PUT"
        || req.method == "PATCH"
        || req.method == "DELETE" && has_body req)
      && has_body req
      && not req.is_json
    then answer 415 "Unsupported Media Type"
    else next req

-- The two in the order of `bootstrap`.
abbrev and_then : Outcome → (Request → Outcome) → Outcome
and_then (next req) f = f req
and_then (answer status message) f = answer status message

unfoldable pub admit : String → Request → Outcome
unfolding check_media_type require_headers
admit fresh req = and_then (check_media_type req) (require_headers fresh)

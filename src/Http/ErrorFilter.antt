-- ===== src/Http/ErrorFilter.antt =====
-- src/common/http/http-error.filter.ts: the answer that an `HttpException` becomes. The log lines stand
-- in Logs.
pub mod Laws
pub mod Logs
use Prim.Native.String.{◌++◌}
use run_bot_backend.Prelude.{
  ℕ, String, Option, none, some, Bool, true, false, not, ◌&&◌, ◌||◌, or_else, eqb, leb, ◌==◌,
  if◌then◌else◌,
}
use run_bot_backend.Json.{
  Json, null, bool, num, str, arr, obj, Items, nil, cons, truthy_json, member,
}
use run_bot_backend.Text.{trim}

-- `getStatus()`, `getResponse()`, `name` and `message` of an exception.
pub record HttpException : Type 0 where
  pub status : ℕ
  pub body : Json
  pub name : String
  pub message : String

-- The answer's body.
pub record ErrorResponse : Type 0 where
  pub status_code : ℕ
  pub code : Json
  pub message : Json
  pub error : Json
  pub details : Option Json
  pub path : String

unfoldable pub default_code : ℕ → String
default_code status =
    if eqb status 400
    then "BAD_REQUEST"
    else if eqb status 401
    then "AUTH_UNAUTHORIZED"
    else if eqb status 403
    then "FORBIDDEN"
    else if eqb status 404
    then "NOT_FOUND"
    else if eqb status 409
    then "CONFLICT"
    else if eqb status 422
    then "UNPROCESSABLE_ENTITY"
    else if eqb status 429
    then "RATE_LIMITED"
    else if leb 500 status
    then "INTERNAL_ERROR"
    else "HTTP_ERROR"

-- `value ?? fallback`
abbrev pub json_or : Option Json → Json → Json
json_or none fallback = fallback
json_or (some null) fallback = fallback
json_or (some v) fallback = v

-- `value || fallback`
abbrev pub json_or_falsy : Option Json → Json → Json
json_or_falsy none fallback = fallback
json_or_falsy (some v) fallback = if truthy_json (some v) then v else fallback

-- `typeof rawMsg === 'string' && rawMsg.trim().length > 0`, with what is shown otherwise.
unfoldable pub custom_message : Option Json → Json
custom_message (some (str s)) = if trim s == "" then str "Invalid email or password." else str s
custom_message _ = str "Invalid email or password."

unfoldable pub production_message : ℕ → Option Json → Json
unfolding custom_message
production_message status raw =
    if eqb status 401
    then custom_message raw
    else if eqb status 404
    then str "Resource not found"
    else if eqb status 403
    then str "Forbidden"
    else if eqb status 400 || eqb status 422
    then custom_message raw
    else if leb 500 status
    then str "Unexpected error"
    else str "Request failed"

abbrev is_array : Option Json → Bool
is_array (some (arr xs)) = true
is_array _ = false

module _ (to_text : Json → String) where
  -- `rawMsg.join('; ')`
  join_items : Items → String
  join_items nil = ""
  join_items (cons x nil) = to_text x
  join_items (cons x (cons y rest)) = to_text x ++ "; " ++ join_items (cons y rest)

  development_message : Option Json → String → Json
  unfolding join_items
  development_message (some (arr xs)) message = str (join_items xs)
  development_message raw message =
      json_or_falsy raw (if message == "" then str "Error" else str message)

  message_of : Bool → HttpException → Json
  unfolding production_message development_message
  message_of is_prod e =
      if eqb e.status 429
      then str "Too many requests. Try again later."
      else if is_prod
      then production_message e.status (member "message" e.body)
      else development_message (member "message" e.body) e.message

  details_of : Bool → HttpException → Option Json
  details_of is_prod e =
      if eqb e.status 429 || is_prod
      then none
      else if is_array (member "message" e.body)
      then member "message" e.body
      else none

  error_field : Bool → HttpException → Json
  error_field is_prod e =
      if eqb e.status 429
      then str "TooManyRequests"
      else if is_prod && leb 500 e.status
      then str "InternalError"
      else json_or_falsy (member "error" e.body) (str e.name)

  -- `catch`: `path` is `req.originalUrl || req.url`.
  unfoldable pub error_response : Bool → String → HttpException → ErrorResponse
  unfolding message_of details_of error_field default_code
  error_response is_prod path e = record {
    status_code = e.status;
    code = json_or (member "code" e.body) (str (default_code e.status));
    message = message_of is_prod e;
    error = error_field is_prod e;
    details = details_of is_prod e;
    path = path;
  }

-- ===== src/Http/ErrorFilter/Logs.antt =====
-- What `catch` of src/common/http/http-error.filter.ts logs: a line for a rate limit, or diagnostics.
use run_bot_backend.Prelude.{
  ℕ, zero, suc, pos, String, ◌≡◌, refl, Option, none, some, List, [], ◌∷◌, truthy, eqb, ◌==◌,
  if◌then◌else◌,
}
use run_bot_backend.Json.{Json, num, str, arr, obj, Items, nil, cons, member, keys}
use run_bot_backend.Text.{utf16_length}
use run_bot_backend.Http.Throttle.{subnet24}
use run_bot_backend.Http.ErrorFilter.{HttpException, json_or}

-- `req.__risk`
pub record Risk : Type 0 where
  pub ip : Option String
  pub device_id_hash : Option String
  pub email_hash : Option String
  pub ua_hash : Option String
  pub domain : Option String
  pub reason : Option String

abbrev pub no_risk : Risk
no_risk = record {
  ip = none;
  device_id_hash = none;
  email_hash = none;
  ua_hash = none;
  domain = none;
  reason = none;
}

-- The request that failed, with the headers that a client may send.
pub record FailedRequest : Type 0 where
  pub method : String
  pub original_url : Option String
  pub url : String
  pub body : Option Json
  pub content_type : Option String
  pub origin : Option String
  pub device_id : Option String
  pub authorization : Option String
  pub cookie : Option String
  pub risk : Option Risk

pub data LogLine : Type 0 where
  -- path, ip, its subnet, the hashes of device, email and user agent, domain, reason, time
  rate_limit :
      String
      → Option String
      → Option String
      → Option String
      → Option String
      → Option String
      → Option String
      → String
      → ℕ
      → LogLine
  -- process, method, url, status, keys of the body, the exception's name, its error, message, status
  -- code and code, and the headers content-type, origin and x-device-id
  diagnostics :
      ℕ
      → String
      → String
      → ℕ
      → List String
      → String
      → Option Json
      → Option Json
      → Json
      → Option Json
      → Option String
      → Option String
      → Option String
      → LogLine

-- `value || null`
abbrev or_null : Option String → Option String
or_null o = if truthy o then o else none

-- `value || fallback`
abbrev or_text : Option String → String → String
or_text none fallback = fallback
or_text (some s) fallback = if s == "" then fallback else s

risk_of : Option Risk → Risk
risk_of none = no_risk
risk_of (some r) = r

subnet_of : Option String → Option String
unfolding subnet24
subnet_of none = none
subnet_of (some ip) = if ip == "" then none else some (subnet24 ip)

-- `decimal` writes a number.
module _ (decimal : ℕ → String) where
  -- The indices from the second argument on, as many as the first.
  indices : ℕ → ℕ → List String
  indices zero from = []
  indices (suc n) from = decimal from ∷ indices n (suc from)

  item_keys : Items → ℕ → List String
  item_keys nil from = []
  item_keys (cons x xs) from = decimal from ∷ item_keys xs (suc from)

  -- `Object.keys(req.body || {})`
  unfoldable pub body_keys : Option Json → List String
  unfolding indices item_keys
  body_keys (some (obj fields)) = keys fields
  body_keys (some (arr xs)) = item_keys xs 0
  body_keys (some (str s)) = indices (utf16_length s) 0
  body_keys _ = []

  rate_limit_line : ℕ → FailedRequest → Risk → LogLine
  unfolding subnet_of
  rate_limit_line now req r =
      rate_limit (or_text req.original_url req.url) (or_null r.ip) (subnet_of r.ip)
        (or_null r.device_id_hash) (or_null r.email_hash) (or_null r.ua_hash) (or_null r.domain)
        (or_text r.reason "throttle") now

  unfoldable pub log_line : ℕ → ℕ → FailedRequest → HttpException → LogLine
  unfolding rate_limit_line risk_of
  log_line pid now req e =
      if eqb e.status 429
      then rate_limit_line now req (risk_of req.risk)
      else diagnostics pid req.method (or_text req.original_url req.url) e.status
          (body_keys req.body) e.name (member "error" e.body) (member "message" e.body)
          (json_or (member "statusCode" e.body) (num (pos e.status))) (member "code" e.body)
          req.content_type req.origin req.device_id

  -- Beside what the exception says, no log line shows the authorization header, a cookie or a value of
  -- the request's body: two requests
  -- that differ in these alone are logged by the same line. Of the body only the
  -- keys count.
  log_line-same :
      (pid now : ℕ) (req : FailedRequest) (authorization cookie : Option String)
      (body : Option Json) (e : HttpException)
      → body_keys body ≡ body_keys req.body
      → log_line pid now
          (record req { authorization = authorization; cookie = cookie; body = body })
          e
        ≡ log_line pid now req e
  unfolding log_line
  log_line-same pid now req authorization cookie body e same = rw same refl

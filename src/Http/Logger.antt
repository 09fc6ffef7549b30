-- ===== src/Http/Logger.antt =====
-- The options of the request logger in src/app.module.ts.
use text.Mathlib.Text.{starts_with}
use run_bot_backend.Prelude.{
  String, ◌≡◌, ◌≢◌, Option, none, some, Bool, true, false, not, ◌||◌, ◌==◌, truthy, or_else, ap,
  is_text, if◌then◌else◌, arith,
}
use run_bot_backend.Http.Middleware.{Request, next, skips, admit}
use run_bot_backend.Http.Middleware.Laws.{admit-IsAdmitted}

-- `pino-pretty`: singleLine, translateTime and messageKey
pub record Transport : Type 0 where
  pub target : String
  pub single_line : Bool
  pub translate_time : String
  pub message_key : String

-- `cfg.get('NODE_ENV') !== 'production'`
unfoldable pub is_dev : Option String → Bool
is_dev node_env = not (is_text node_env "production")

-- `cfg.get('LOG_LEVEL') ?? (isDev ? 'debug' : 'info')`
unfoldable pub level : Option String → Option String → Option String
unfolding is_dev
level log_level node_env = or_else log_level (some (if is_dev node_env then "debug" else "info"))

unfoldable pub transport : Option String → Option Transport
unfolding is_dev
transport node_env =
    if is_dev node_env
    then some (record {
      target = "pino-pretty";
      single_line = true;
      translate_time = "SYS:standard";
      message_key = "msg";
    })
    else none

-- `header || fresh`
header_or : String → Option String → String
header_or fresh none = fresh
header_or fresh (some id) = if id == "" then fresh else id

-- `fresh` is what `crypto.randomUUID()` returns.
unfoldable pub gen_req_id : String → Request → String
unfolding header_or
gen_req_id fresh req = header_or fresh req.request_id

-- `autoLogging.ignore`
unfoldable pub ignore : Request → Bool
ignore req = req.url == "/health" || starts_with req.url "/_next" || req.method == "OPTIONS"

header_or-truthy :
    (fresh : String) (o : Option String) → truthy o ≡ true → o ≡ some (header_or fresh o)
unfolding header_or
header_or-truthy fresh none h = ground arith
header_or-truthy fresh (some id) h = ground arith

ignored-skips :
    (req out : Request)
    → out.url ≡ req.url
    → out.method ≡ req.method
    → skips req ≡ false
    → ignore out ≡ false
unfolding ignore skips
ignored-skips req out u m h = rw (u, m) (ground arith)

-- A request that reaches the handlers and is not exempt from the required headers is logged, and under
-- the id that it carries in its header, never under one of the logger's own.
pub logged_id :
    (fresh other : String) (req out : Request)
    → fresh ≢ ""
    → skips req ≡ false
    → admit fresh req ≡ next out
    → (out.request_id ≡ some (gen_req_id other out)) × (ignore out ≡ false)
unfolding gen_req_id
logged_id fresh other req out real checked h =
    let admitted = admit-IsAdmitted fresh req out real h in
    (
      header_or-truthy other out.request_id (ground (arith, admitted.identified)),
      ignored-skips req out (ap (λ r. r.url) admitted.same) (ap (λ r. r.method) admitted.same)
          checked,
    )

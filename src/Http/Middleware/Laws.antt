-- ===== src/Http/Middleware/Laws.antt =====
-- Which requests reach the handlers.
use run_bot_backend.Prelude.{String, ◌≡◌, ◌≢◌, true, not, ◌&&◌, ◌||◌, truthy, ne_test, arith}
use run_bot_backend.Http.Middleware.{Request, next, skips, is_mutating, has_body, admit}

-- A request that reaches the handlers is the one that came, but for a request id; unless its path is
-- exempt it carries a request id, and, if it is a mutating one with the cookie, a CSRF token; and if
-- it is a mutating one with a body, the body is JSON.
pub record IsAdmitted (req out : Request) : Type 0 where
  pub same : record out { request_id = req.request_id } ≡ req
  pub identified : (skips req || truthy out.request_id) ≡ true
  pub guarded :
      (skips req || not (is_mutating req.method && truthy req.xsrf_cookie) || truthy req.csrf_token)
      ≡ true
  pub json : (not (is_mutating req.method && has_body req) || req.is_json) ≡ true

-- Every request that passes the media type check and the required headers, where a fresh request id
-- is no empty text, is admitted in that sense.
pub admit-IsAdmitted :
    (fresh : String) (req out : Request)
    → fresh ≢ ""
    → admit fresh req ≡ next out
    → IsAdmitted req out
unfolding admit
admit-IsAdmitted fresh req out ne h = record {
  same = ground arith;
  identified = ground (arith, ne_test fresh "" ne);
  guarded = ground arith;
  json = ground arith;
}

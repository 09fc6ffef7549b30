-- ===== src/Http/Throttle.antt =====
-- src/common/guards/console-throttler.guard.ts, src/common/auth/client-ip.ts,
-- src/common/risk/risk.utils.ts: whose requests share a budget.
pub mod Laws
use Prim.Native.Char.{Char}
use Prim.Native.String.{◌++◌}
use run_bot_backend.Prelude.{
  ℕ, zero, suc, String, Option, none, some, Bool, true, false, ◌&&◌, List, [], ◌∷◌, truthy, or_else,
  leb, ◌==◌, if◌then◌else◌,
}
use run_bot_backend.Text.{cons, split, trim, first, utf16_length}
use run_bot_backend.Token.{extract_bearer_token}

-- What a request shows of its sender.
pub record Request : Type 0 where
  pub authorization : Option String
  pub agent_param : Option String
  pub forwarded_for : Option String
  pub connecting_ip : Option String
  pub ip : Option String
  pub remote_address : Option String
  pub device_header : Option String
  pub device_cookie : Option String

-- The first of the values that is truthy.
unfoldable pub first_truthy : List (Option String) → String → String
first_truthy [] fallback = fallback
first_truthy (none ∷ rest) fallback = first_truthy rest fallback
first_truthy (some s ∷ rest) fallback =
    let later = first_truthy rest fallback in if s == "" then later else s

-- `xff?.split(',')[0]?.trim()`
unfoldable pub forwarded : Option String → Option String
forwarded none = none
forwarded (some list) = trimmed (first (split b',' list))
  where
    trimmed : Option String → Option String
    trimmed none = none
    trimmed (some s) = some (trim s)

-- `text.slice(0, n)` on a text of ASCII.
unfoldable pub prefix : ℕ → String → String
prefix zero s = ""
prefix (suc n) String.[] = ""
prefix (suc n) (String.◌∷◌ c s) = cons c (prefix n s)

abbrev default_text : Option String → String → String
default_text none fallback = fallback
default_text (some s) fallback = s

module _ (sha256_hex : String → String) where
  device_hash : String → String
  unfolding utf16_length
  device_hash raw =
      if leb 8 (utf16_length raw) && leb (utf16_length raw) 128 then sha256_hex raw else "no-dev"

  anonymous_tracker : Request → String
  unfolding device_hash forwarded first_truthy
  anonymous_tracker req =
      first_truthy
        (forwarded req.forwarded_for ∷ req.connecting_ip ∷ req.ip ∷ req.remote_address ∷ [])
        "unknown"
      ++ ("|" ++ device_hash (default_text (or_else req.device_header req.device_cookie) ""))

  tracker_for : Option String → Request → String
  unfolding anonymous_tracker prefix
  tracker_for none req = anonymous_tracker req
  tracker_for (some bearer) req =
      if bearer == ""
      then anonymous_tracker req
      else "tok:"
        ++ (prefix 16 (sha256_hex bearer) ++ ("|" ++ default_text req.agent_param "global"))

  unfoldable pub get_tracker : Request → String
  unfolding tracker_for
  get_tracker req = tracker_for (extract_bearer_token req.authorization) req

-- `getClientIp`: `req.ip ?? req.socket?.remoteAddress ?? null` behind the first forwarded address.
unfoldable pub get_client_ip : Request → Option String
unfolding forwarded
get_client_ip req =
    if truthy (forwarded req.forwarded_for)
    then forwarded req.forwarded_for
    else or_else req.ip req.remote_address

unfoldable pub subnet24 : String → String
subnet24 ip = of_parts (split b'.' ip)
  where
    of_parts : List String → String
    of_parts (a ∷ b ∷ c ∷ d ∷ []) = a ++ ("." ++ (b ++ ("." ++ (c ++ ".0/24"))))
    of_parts parts = ip

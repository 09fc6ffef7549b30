-- ===== src/Http/Origin.antt =====
-- src/common/security/origin.ts, and the allowlist of src/common/ws/socketio.adapter.ts.
pub mod Laws
use Prim.Native.String.{◌++◌}
use run_bot_backend.Prelude.{
  String, Option, none, some, Bool, true, false, List, [], ◌∷◌, any, ◌==◌, if◌then◌else◌,
}

pub record Url : Type 0 where
  pub protocol : String
  pub hostname : String
  pub port : String

abbrev keep_text : Option String → List String → List String
keep_text none later = later
keep_text (some s) later = if s == "" then later else s ∷ later

-- The texts that are not in `seen`, each once: `Array.from(new Set(texts))` for an empty `seen`.
unfoldable pub distinct_from : List String → List String → List String
distinct_from seen [] = []
distinct_from seen (s ∷ rest) =
    let again = distinct_from seen rest in
    let anew = s ∷ distinct_from (s ∷ seen) rest in if any (λ x. x == s) seen then again else anew

-- `new URL(text)`, or `none` where it throws, and `toLowerCase`.
module _ (parse_url : String → Option Url) (to_lower : String → String) where
  origin_text : Url → String
  origin_text u =
      to_lower
        (u.protocol ++ ("//" ++ (u.hostname ++ (if u.port == "" then "" else ":" ++ u.port))))

  parsed_origin : Option Url → Option String
  unfolding origin_text
  parsed_origin none = none
  parsed_origin (some u) = some (origin_text u)

  unfoldable pub normalize_origin : Option String → Option String
  unfolding parsed_origin
  normalize_origin none = none
  normalize_origin (some o) = if o == "" then none else parsed_origin (parse_url o)

  -- `list.map(normalizeOrigin).filter(Boolean)`
  normalized : List (Option String) → List String
  normalized [] = []
  normalized (o ∷ rest) = keep_text (normalize_origin o) (normalized rest)

  unfoldable pub build_allowed_origins : List (Option String) → List String
  unfolding normalized
  build_allowed_origins list = distinct_from [] (normalized list)

-- `allowRequest`: a client that sends no Origin is let in.
unfoldable pub allow_request : List String → Option String → Bool
allow_request allowed none = true
allow_request allowed (some origin) = if origin == "" then true else any (λ x. x == origin) allowed

-- ===== src/Token.antt =====
-- src/common/auth/safetyscore-token.ts and src/common/guards/safetyscore-token.guard.ts.
pub mod Bearer
pub mod Frame
pub mod Keeps
pub mod Stuck
pub mod Laws
use text.Mathlib.Text.{starts_with}
use run_bot_backend.Prelude.{
  ℕ, ◌/◌, suc, String, ◌≡◌, Option, none, some, Bool, true, false, not, ◌&&◌, ◌||◌, List, [], ◌∷◌,
  ◌==◌, if◌then◌else◌, truthy,
}
use run_bot_backend.Text.{split, trim, lower_codes, same_codes, first, second}
use run_bot_backend.Platform.{Platform, Claims}
use run_bot_backend.Platform.Exec.{
  World, Exec, Result, ok, err, failure, unauthorized, pure, raise, gets, modify, ◌>>=◌, ◌>>◌,
  try_catch,
}

pub record SafetyScoreUser : Type 0 where
  pub user_id : String
  pub agent_id : Option String
  pub license_key : Option String
  pub account_login : Option String
  pub symbol : Option String
  pub expires_at : Option ℕ

abbrev pub token_audience : String
token_audience = "ea-console"

is_bearer : Option String → Bool
unfolding lower_codes
is_bearer none = false
is_bearer (some scheme) = same_codes (lower_codes scheme) (lower_codes "bearer")

bearer_value : Option String → Option String → Option String
unfolding is_bearer trim
bearer_value scheme none = none
bearer_value scheme (some value) =
    if not (is_bearer scheme) || value == "" then none else some (trim value)

unfoldable pub extract_bearer_token : Option String → Option String
unfolding bearer_value split
extract_bearer_token none = none
extract_bearer_token (some header) =
    if header == ""
    then none
    else bearer_value (first (split b' ' header)) (second (split b' ' header))

module _ {P : Platform} where
  abbrev missing_env : Exec P String
  missing_env = raise (failure "Missing env SAFETYSCORE_TOKEN_PUBLIC_KEY")

  decoded_pem : String → Exec P String
  decoded_pem decoded =
      if starts_with decoded "-----BEGIN"
      then pure decoded
      else raise (failure "SAFETYSCORE_TOKEN_PUBLIC_KEY is not a PEM nor a base64-encoded PEM")

  trimmed_pem : String → Exec P String
  unfolding decoded_pem trim
  trimmed_pem trimmed =
      if trimmed == ""
      then missing_env
      else if starts_with trimmed "-----BEGIN"
      then pure trimmed
      else decoded_pem (trim (P.of_base64 trimmed))

  unfoldable pub read_public_key_pem : Option String → Exec P String
  unfolding trimmed_pem
  read_public_key_pem none = missing_env
  read_public_key_pem (some raw) = trimmed_pem (trim raw)

  -- `await` on the cached promise.
  await_key : Option P.VerifyKey → Exec P P.VerifyKey
  await_key none = raise (failure "importSPKI")
  await_key (some key) = pure key

  abbrev cache_key : Option P.VerifyKey → World P → World P
  cache_key promise w = record w { cached_key = some promise }

  public_key : Option (Option P.VerifyKey) → Exec P P.VerifyKey
  unfolding read_public_key_pem await_key
  public_key (some promise) = await_key promise
  public_key none = do
    pem ← read_public_key_pem P.public_key_env
    modify (cache_key (P.import_spki pem))
    await_key (P.import_spki pem)

  unfoldable pub get_public_key : Exec P P.VerifyKey
  unfolding public_key
  get_public_key = do cached ← gets (λ w. w.cached_key); public_key cached

  unfoldable pub reset_key_cache : Exec P (Unit {0})
  reset_key_cache = modify (λ w. record w { cached_key = none })

  user_of_claims : Option String → Claims → Exec P SafetyScoreUser
  user_of_claims none claims = raise (failure "SafetyScore token missing user_id claim")
  user_of_claims (some user_id) claims =
      if user_id == ""
      then raise (failure "SafetyScore token missing user_id claim")
      else pure (record {
        user_id = user_id;
        agent_id = claims.agent_id;
        license_key = claims.license_key;
        account_login = claims.account_login;
        symbol = claims.symbol;
        expires_at = claims.exp;
      })

  verified_claims : Option Claims → Exec P SafetyScoreUser
  unfolding user_of_claims
  verified_claims none = raise (failure "jwtVerify")
  verified_claims (some claims) = user_of_claims claims.user_id claims

  -- `now` is in milliseconds.
  unfoldable pub verify_safety_score_token : ℕ → String → Exec P SafetyScoreUser
  unfolding get_public_key verified_claims
  verify_safety_score_token now token = do
    key ← get_public_key
    verified_claims (P.jwt_verify (now / 1000) token key token_audience)

  checked_token : ℕ → Option String → Exec P SafetyScoreUser
  checked_token now none =
      raise (unauthorized "AUTH_REQUIRED" "You must provide a SafetyScore token.")
  checked_token now (some token) =
      if token == ""
      then raise (unauthorized "AUTH_REQUIRED" "You must provide a SafetyScore token.")
      else try_catch (verify_safety_score_token now token)
          (raise (unauthorized "AUTH_TOKEN_INVALID" "Invalid or expired token."))

  -- The guard's `canActivate` on the header `authorization`: the user that it attaches.
  unfoldable pub can_activate : ℕ → Option String → Exec P SafetyScoreUser
  unfolding checked_token
  can_activate now header = checked_token now (extract_bearer_token header)

-- ===== src/Token/Stuck.antt =====
-- A key that could not be imported is kept: `cachedKey` holds the rejected promise.
use run_bot_backend.Prelude.{
  ℕ, String, ◌≡◌, refl, inl, inr, Option, none, some, List, [], ◌∷◌, ◌==◌, All, Bool-cases, arith,
}
use run_bot_backend.Platform.{Platform}
use run_bot_backend.Platform.Exec.{World, Result, Exception, ok, err, failure, unauthorized}
use run_bot_backend.Token.{
  SafetyScoreUser, extract_bearer_token, read_public_key_pem, await_key, public_key, get_public_key,
  verify_safety_score_token, checked_token, can_activate,
}

abbrev pub IsRefused : Result SafetyScoreUser → Type 0
IsRefused r = (e : Exception) × (r ≡ err e)

module _ {P : Platform} where
  -- The guard's answers to a list of requests, one after the other.
  abbrev pub answers : List (ℕ × Option String) → World P → List (Result SafetyScoreUser)
  answers [] w = []
  answers ((now, header) ∷ rest) w =
      (can_activate now header w).0 ∷ answers rest (can_activate now header w).1

  verify_stuck :
      (now : ℕ) (token : String) (w : World P)
      → w.cached_key ≡ some none
      → verify_safety_score_token now token w ≡ (err (failure "importSPKI"), w)
  unfolding verify_safety_score_token get_public_key public_key await_key
  verify_stuck now token w h = rw h refl

  checked_stuck :
      (now : ℕ) (token : Option String) (w : World P)
      → w.cached_key ≡ some none
      → ((e : Exception) × (checked_token now token w ≡ (err e, w)))
  unfolding checked_token
  checked_stuck now none w h = (_, refl)
  checked_stuck now (some token) w h = elim (Bool-cases (token == "")) [
    | inl empty ↦
        (unauthorized "AUTH_REQUIRED" "You must provide a SafetyScore token.", rw empty refl)
    | inr full ↦ (
      unauthorized "AUTH_TOKEN_INVALID" "Invalid or expired token.",
      rw (full, verify_stuck now token w h) refl,
    )
  ]

  stays_stuck :
      (requests : List (ℕ × Option String)) (w : World P)
      → w.cached_key ≡ some none
      → All IsRefused (answers requests w)
  unfolding can_activate
  stays_stuck [] w h = tt
  stays_stuck ((now, header) ∷ rest) w h =
      let (e, r) = checked_stuck now (extract_bearer_token header) w h in
      rw r ((e, refl), stays_stuck rest w h)

  first_stuck :
      (now : ℕ) (token pem : String) (w : World P)
      → w.cached_key ≡ none
      → (read_public_key_pem P.public_key_env w ≡ (ok pem, w))
      → P.import_spki pem ≡ none
      → ((e : Exception) × ((verify_safety_score_token now token w).0 ≡ err e))
        × ((verify_safety_score_token now token w).1.cached_key ≡ some none)
  unfolding verify_safety_score_token get_public_key public_key await_key
  first_stuck now token pem w h read bad = ((failure "importSPKI", ground arith), ground arith)

-- The same platform, with what the environment and the import of a key give later.
abbrev pub later : (P : Platform) → Option String → (String → Option P.VerifyKey) → Platform
later P env import = record P { public_key_env = env; import_spki = import }

abbrev pub carried :
    {P : Platform} (env : Option String) (import : String → Option P.VerifyKey)
    → World P
    → World (later P env import)
carried env import w = record {
  db = w.db;
  telemetry_cache = w.telemetry_cache;
  bridge_sockets = w.bridge_sockets;
  uuids = w.uuids;
  cached_key = w.cached_key;
  trace = w.trace;
}

-- Where the configured text is a PEM whose import as a key fails once, the first verification keeps the
-- failure: from then on every request is refused, whatever its token and however late, also where the
-- environment names another text since, and where imports succeed since.
pub stuck_key :
    {P : Platform} (now : ℕ) (token pem : String) (requests : List (ℕ × Option String))
    (w : World P) (env : Option String) (import : String → Option P.VerifyKey)
    → w.cached_key ≡ none
    → read_public_key_pem P.public_key_env w ≡ (ok pem, w)
    → P.import_spki pem ≡ none
    → All IsRefused (
        answers {P = later P env import} requests
          (carried env import (verify_safety_score_token now token w).1))
stuck_key now token pem requests w env import h read bad =
    stays_stuck requests (carried env import (verify_safety_score_token now token w).1)
      (first_stuck now token pem w h read bad).1

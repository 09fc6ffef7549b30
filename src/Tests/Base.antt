-- ===== src/Tests/Base.antt =====
-- The cache, the token and the scheduler at concrete inputs.
use run_bot_backend.Prelude.{ℕ, String, ◌≡◌, ◌≢◌, ◌⊎◌, refl, none, some, List, [], ◌∷◌, All}
use run_bot_backend.Cache.History.{Op, set_for, look_up, evict, run, promise_run, run-promise_run}
use run_bot_backend.Platform.Exec.{World, Exception, ok, err, unauthorized}
use run_bot_backend.Platform.Memory.{memory, start}
use run_bot_backend.Token.{
  SafetyScoreUser, extract_bearer_token, verify_safety_score_token, can_activate,
  read_public_key_pem,
}
use run_bot_backend.Platform.{Platform}
use run_bot_backend.Token.Stuck.{later, carried, answers, IsRefused, stuck_key}
use run_bot_backend.Token.Laws.{IsVerified, can_activate_cases}
use run_bot_backend.Text.{trim, is_space}

abbrev history : List (ℕ × Op)
history = (0, set_for "a" 1 "x") ∷ (500, look_up "a") ∷ (500, look_up "a") ∷ (1, evict) ∷ []

run-promise_run_example : run 7 history [] ≡ promise_run 7 history (λ k. none)
run-promise_run_example = run-promise_run 7 history

can_activate_cases_example :
    ((can_activate 9 (some "Bearer good") start
        ≡ (err (unauthorized "AUTH_REQUIRED" "You must provide a SafetyScore token."), start))
      × ((extract_bearer_token (some "Bearer good") ≡ none)
          ⊎ (extract_bearer_token (some "Bearer good") ≡ some "")))
    ⊎ ((token : String) × (extract_bearer_token (some "Bearer good") ≡ some token)
        × (token ≢ "")
        × (((e : Exception) × ((verify_safety_score_token 9 token start).0 ≡ err e)
              × ((can_activate 9 (some "Bearer good") start).0
                  ≡ err (unauthorized "AUTH_TOKEN_INVALID" "Invalid or expired token.")))
            ⊎ ((u : SafetyScoreUser) × ((can_activate 9 (some "Bearer good") start).0 ≡ ok u)
                × IsVerified memory 9 token u)))
can_activate_cases_example = can_activate_cases 9 (some "Bearer good") start

-- A platform whose key cannot be imported.
abbrev keyless : Platform
keyless = record memory { import_spki = λ pem. none }

abbrev fresh : World keyless
fresh = record {
  db = start.db;
  telemetry_cache = [];
  bridge_sockets = [];
  uuids = 0;
  cached_key = none;
  trace = [];
}

-- The environment and the import are mended, and the requests are still refused.
stuck_key_example : All IsRefused (
    answers {P = later keyless (some "-----BEGIN PUBLIC KEY-----") (λ pem. some tt)}
      ((5, some "Bearer good") ∷ (6, none) ∷ [])
      (carried
        (some "-----BEGIN PUBLIC KEY-----")
        (λ pem. some tt)
        (verify_safety_score_token 4 "good" fresh).1))
unfolding read_public_key_pem trim is_space
stuck_key_example =
    stuck_key 4 "good" "-----BEGIN PUBLIC KEY-----" ((5, some "Bearer good") ∷ (6, none) ∷ []) fresh
      (some "-----BEGIN PUBLIC KEY-----") (λ pem. some tt) refl refl refl

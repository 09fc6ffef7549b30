-- ===== src/Token/Frame.antt =====
-- What a verification leaves alone: all but the cached key.
use run_bot_backend.Prelude.{
  ℕ, ◌/◌, String, ◌≡◌, refl, ap, Option, none, some, ◌==◌, Bool-cases, inl, inr, subst, sym, arith,
}
use run_bot_backend.Platform.{Platform, Claims}
use run_bot_backend.Platform.Exec.{World, Result, Exception, ok, err, continue, recover, raise}
use run_bot_backend.Token.{
  SafetyScoreUser, token_audience, extract_bearer_token, read_public_key_pem, await_key, public_key,
  get_public_key, verified_claims, verify_safety_score_token, checked_token, can_activate,
}

-- Two states of the program that differ at most in the cached key.
pub record Same {P : Platform} (w w' : World P) : Type 0 where
  pub db : w'.db ≡ w.db
  pub cache : w'.telemetry_cache ≡ w.telemetry_cache
  pub bridges : w'.bridge_sockets ≡ w.bridge_sockets
  pub ids : w'.uuids ≡ w.uuids
  pub sent : w'.trace ≡ w.trace

module _ {P : Platform} where
  pem_world : (raw : Option String) (w : World P) → (read_public_key_pem raw w).1 ≡ w
  unfolding read_public_key_pem
  pem_world none w = refl
  pem_world (some raw) w = ground arith

  key_world : (promise : Option P.VerifyKey) (w : World P) → (await_key promise w).1 ≡ w
  unfolding await_key
  key_world none w = refl
  key_world (some k) w = refl

  public_key-Same :
      (cached : Option (Option P.VerifyKey)) (w : World P) → Same w (public_key cached w).1
  unfolding public_key
  public_key-Same (some promise) w = record {
    db = ap (λ x. x.db) (key_world promise w);
    cache = ap (λ x. x.telemetry_cache) (key_world promise w);
    bridges = ap (λ x. x.bridge_sockets) (key_world promise w);
    ids = ap (λ x. x.uuids) (key_world promise w);
    sent = ap (λ x. x.trace) (key_world promise w);
  }
  public_key-Same none w = record {
    db = ground (arith, pem_world P.public_key_env w);
    cache = ground (arith, pem_world P.public_key_env w);
    bridges = ground (arith, pem_world P.public_key_env w);
    ids = ground (arith, pem_world P.public_key_env w);
    sent = ground (arith, pem_world P.public_key_env w);
  }

  pub Same-at : {w w' w'' : World P} → Same w w' → w'' ≡ w' → Same w w''
  Same-at {w} s e = subst (Same w) (sym e) s

  claims_world : (claims : Option Claims) (w : World P) → (verified_claims claims w).1 ≡ w
  unfolding verified_claims
  claims_world none w = refl
  claims_world (some claims) w = ground arith

  with_key_world :
      (r : Result P.VerifyKey) (f : P.VerifyKey → Option Claims) (w : World P)
      → (continue r (λ k. verified_claims (f k)) w).1 ≡ w
  with_key_world (ok k) f w = claims_world (f k) w
  with_key_world (err e) f w = refl

  get_key-Same : (w : World P) → Same w (get_public_key w).1
  unfolding get_public_key
  get_key-Same w = public_key-Same w.cached_key w

  pub verify-Same :
      (now : ℕ) (token : String) (w : World P) → Same w (verify_safety_score_token now token w).1
  unfolding verify_safety_score_token
  verify-Same now token w = Same-at (get_key-Same w) (
      with_key_world (get_public_key w).0 (λ k. P.jwt_verify (now / 1000) token k token_audience)
        (get_public_key w).1)

  recover_world :
      (r : Result SafetyScoreUser) (e : Exception) (w : World P) → (recover r (raise e) w).1 ≡ w
  recover_world (ok u) e w = refl
  recover_world (err x) e w = refl

  Same-refl : (w : World P) → Same w w
  Same-refl w = record { db = refl; cache = refl; bridges = refl; ids = refl; sent = refl }

  checked-Same :
      (now : ℕ) (token : Option String) (w : World P) → Same w (checked_token now token w).1
  unfolding checked_token
  checked-Same now none w = Same-refl w
  checked-Same now (some token) w = elim (Bool-cases (token == "")) [
    | inl empty ↦ rw empty (Same-refl w)
    | inr full ↦ rw full (
        Same-at (verify-Same now token w) (
          recover_world (verify_safety_score_token now token w).0 _
            (verify_safety_score_token now token w).1))
  ]

  -- Whatever the guard decides, it changes nothing but the cached key.
  pub can_activate-Same :
      (now : ℕ) (header : Option String) (w : World P) → Same w (can_activate now header w).1
  unfolding can_activate
  can_activate-Same now header w = checked-Same now (extract_bearer_token header) w

-- ===== src/Token/Laws.antt =====
-- Whom the guard lets through, and what it answers to the others.
use run_bot_backend.Prelude.{
  ℕ, ◌/◌, String, ◌≡◌, ◌≢◌, refl, ◌∙◌, ap, ◌⊎◌, inl, inr, Option, none, some, false, ◌==◌, eq_iff,
  Option-cases, Bool-cases, arith,
}
use run_bot_backend.Platform.{Platform, Claims}
use run_bot_backend.Platform.Exec.{
  World, Exec, Result, Exception, ok, err, unauthorized, continue, recover, raise,
}
use run_bot_backend.Token.{
  SafetyScoreUser, token_audience, extract_bearer_token, get_public_key, verified_claims,
  user_of_claims, verify_safety_score_token, checked_token, can_activate,
}

-- A token that the signing authority vouches for, and the user that its claims name.
pub record IsVerified (P : Platform) (now : ℕ) (token : String) (u : SafetyScoreUser) : Type 0 where
  pub key : P.VerifyKey
  pub claims : Claims
  pub signed : P.jwt_verify (now / 1000) token key "ea-console" ≡ some claims
  pub named : claims.user_id ≡ some u.user_id
  pub nonempty : u.user_id ≢ ""
  pub agent : u.agent_id ≡ claims.agent_id
  pub license : u.license_key ≡ claims.license_key
  pub account : u.account_login ≡ claims.account_login
  pub symbol_claim : u.symbol ≡ claims.symbol
  pub expiry : u.expires_at ≡ claims.exp

module _ {P : Platform} where
  user_of_claims_ok :
      (now : ℕ) (token : String) (key : P.VerifyKey) (claims : Claims) (named : Option String)
      (w : World P) (u : SafetyScoreUser)
      → claims.user_id ≡ named
      → P.jwt_verify (now / 1000) token key "ea-console" ≡ some claims
      → (user_of_claims named claims w).0 ≡ ok u
      → IsVerified P now token u
  unfolding user_of_claims
  user_of_claims_ok now token key claims none w u e s h = absurd (cc)
  user_of_claims_ok now token key claims (some id) w u e s h = elim (Bool-cases (id == "")) [
    | inl empty ↦ absurd (ground arith)
    | inr full ↦ record {
      key = key;
      claims = claims;
      signed = s;
      named = ground arith;
      nonempty = λ p. absurd (ground (arith, eq_iff id ""));
      agent = ground arith;
      license = ground arith;
      account = ground arith;
      symbol_claim = ground arith;
      expiry = ground arith;
    }
  ]

  with_key :
      (now : ℕ) (token : String) (key : Result P.VerifyKey) (w : World P) (u : SafetyScoreUser)
      → (continue key (λ k. verified_claims (P.jwt_verify (now / 1000) token k token_audience)) w).0
        ≡ ok u
      → IsVerified P now token u
  unfolding verified_claims
  with_key now token (err e) w u h = absurd (cc)
  with_key now token (ok key) w u h =
      elim (Option-cases (P.jwt_verify (now / 1000) token key "ea-console")) [
        | inl bad ↦ absurd (ground arith)
        | inr (claims, s) ↦
            user_of_claims_ok now token key claims claims.user_id w u refl s
              (rw (s, verified_claims) at h)
      ]

  pub verify_ok :
      (now : ℕ) (token : String) (w : World P) (u : SafetyScoreUser)
      → (verify_safety_score_token now token w).0 ≡ ok u
      → IsVerified P now token u
  unfolding verify_safety_score_token
  verify_ok now token w u h = with_key now token (get_public_key w).0 (get_public_key w).1 u h

  recovered :
      (r : Result SafetyScoreUser) (h : Exec P SafetyScoreUser) (w : World P)
      → ((u : SafetyScoreUser) × (r ≡ ok u) × ((recover r h w).0 ≡ ok u))
        ⊎ ((e : Exception) × (r ≡ err e) × (recover r h w ≡ h w))
  recovered (ok u) h w = inl (u, refl, refl)
  recovered (err e) h w = inr (e, refl, refl)

  checked_lem :
      (now : ℕ) (token : String) (w : World P)
      → (token == "") ≡ false
      → checked_token now (some token) w
        ≡ recover
            (verify_safety_score_token now token w).0
            (raise (unauthorized "AUTH_TOKEN_INVALID" "Invalid or expired token."))
            (verify_safety_score_token now token w).1
  unfolding checked_token
  checked_lem now token w full = rw full refl

  -- The guard, on every request: it answers AUTH_REQUIRED where the header carries no bearer token,
  -- AUTH_TOKEN_INVALID where it carries one that is not verified for any reason, and else lets the
  -- user through that the token's signed claims name, for the audience of the console.
  pub can_activate_cases :
      (now : ℕ) (header : Option String) (w : World P)
      → ((can_activate now header w
            ≡ (err (unauthorized "AUTH_REQUIRED" "You must provide a SafetyScore token."), w))
          × ((extract_bearer_token header ≡ none) ⊎ (extract_bearer_token header ≡ some "")))
        ⊎ ((token : String) × (extract_bearer_token header ≡ some token)
            × (token ≢ "")
            × (((e : Exception) × ((verify_safety_score_token now token w).0 ≡ err e)
                  × ((can_activate now header w).0
                      ≡ err (unauthorized "AUTH_TOKEN_INVALID" "Invalid or expired token.")))
                ⊎ ((u : SafetyScoreUser) × ((can_activate now header w).0 ≡ ok u)
                    × IsVerified P now token u)))
  unfolding can_activate
  can_activate_cases now header w = elim (Option-cases (extract_bearer_token header)) [
    | inl missing ↦ inl (ground arith, inl missing)
    | inr (token, there) ↦ elim (Bool-cases (token == "")) [
      | inl empty ↦ inl (ground arith, inr (there ∙ ap some ((eq_iff token "").0 empty)))
      | inr full ↦
          inr (
            token,
            there,
            (λ e. absurd (ground (arith, eq_iff token ""))),
            verdict token there full,
          )
    ]
  ]
    where
      verdict :
          (token : String)
          → extract_bearer_token header ≡ some token
          → (token == "") ≡ false
          → ((e : Exception) × ((verify_safety_score_token now token w).0 ≡ err e)
              × ((checked_token now (extract_bearer_token header) w).0
                  ≡ err (unauthorized "AUTH_TOKEN_INVALID" "Invalid or expired token.")))
            ⊎ ((u : SafetyScoreUser) × ((checked_token now (extract_bearer_token header) w).0
                  ≡ ok u)
                × IsVerified P now token u)
      verdict token there full =
          let run = ap (λ h. checked_token now h w) there ∙ checked_lem now token w full in
          elim (recovered (verify_safety_score_token now token w).0
            (raise (unauthorized "AUTH_TOKEN_INVALID" "Invalid or expired token."))
            (verify_safety_score_token now token w).1) [
              | inl (u, e, r) ↦ inr (u, ap (λ x. x.0) run ∙ r, verify_ok now token w u e)
              | inr (e, e', r) ↦ inl (e, e', ap (λ x. x.0) (run ∙ r))
            ]

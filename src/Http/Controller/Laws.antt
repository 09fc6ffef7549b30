-- ===== src/Http/Controller/Laws.antt =====
-- What a request can do without a token, and what it needs to do more.
use run_bot_backend.Prelude.{
  ℕ, String, ◌≡◌, refl, ◌∙◌, ap, sym, subst, ◌⊎◌, inl, inr, Option, some, false,
}
use run_bot_backend.Platform.{Platform}
use run_bot_backend.Platform.Exec.{
  World, Result, Exception, ok, err, unauthorized, bad_request, continue,
}
use run_bot_backend.Token.{SafetyScoreUser, extract_bearer_token, can_activate}
use run_bot_backend.Token.Laws.{IsVerified, can_activate_cases}
use run_bot_backend.Token.Frame.{Same, Same-at, can_activate-Same}
use run_bot_backend.Http.Controller.{Route, kill_switch, kill_everything, handle, request}

ok_injective : {u u' : SafetyScoreUser} → Result.ok u ≡ ok u' → u ≡ u'
ok_injective h = cc

err_injective : {e e' : Exception} → ◌≡◌ {A = Result SafetyScoreUser} (err e) (err e') → e ≡ e'
err_injective h = cc

module _ {P : Platform} where
  after_guard :
      (now : ℕ) (route : Route) (r : Result SafetyScoreUser) (w : World P)
      → ((e : Exception) × (r ≡ err e)
          × (continue r (λ user. handle now route user.user_id) w ≡ (err e, w)))
        ⊎ ((u : SafetyScoreUser) × (r ≡ ok u)
            × (continue r (λ user. handle now route user.user_id) w ≡ handle now route u.user_id w))
  after_guard now route (ok u) w = inr (u, refl, refl)
  after_guard now route (err e) w = inl (e, refl, refl)

  -- Every request to the console, by any route, is either refused by the guard with 401 and changes
  -- nothing but the cached key (nothing is sent, stored or audited); or its header carries a token
  -- that is verified, and the route runs as the user that the token's claims name.
  pub request_cases :
      (now : ℕ) (header : Option String) (route : Route) (w : World P)
      → ((code message : String) × ((request now header route w).0
            ≡ err (unauthorized code message))
          × Same w (request now header route w).1)
        ⊎ ((token : String) × (u : SafetyScoreUser) × (extract_bearer_token header ≡ some token)
            × IsVerified P now token u
            × Same w (can_activate now header w).1
            × (request now header route w
                ≡ handle now route u.user_id (can_activate now header w).1))
  unfolding request
  request_cases now header route w =
      let act = can_activate now header w in
      elim (after_guard now route act.0 act.1) [
        | inl (e, failed, r) ↦ elim (can_activate_cases now header w) [
          | inl (required, _) ↦ inl (
            _,
            _,
            ap (λ x. x.0) r ∙ ap err (err_injective (sym failed ∙ ap (λ x. x.0) required)),
            Same-at (can_activate-Same now header w) (ap (λ x. x.1) r),
          )
          | inr (token, there, ne, inl (e', _, invalid)) ↦ inl (
            _,
            _,
            ap (λ x. x.0) r ∙ ap err (err_injective (sym failed ∙ invalid)),
            Same-at (can_activate-Same now header w) (ap (λ x. x.1) r),
          )
          | inr (token, there, ne, inr (u, good, verified)) ↦ absurd (cc (sym failed ∙ good))
        ]
        | inr (u, good, r) ↦ elim (can_activate_cases now header w) [
          | inl (required, _) ↦ absurd (cc (sym good ∙ ap (λ x. x.0) required))
          | inr (token, there, ne, inl (e', _, invalid)) ↦ absurd (cc (sym good ∙ invalid))
          | inr (token, there, ne, inr (u', good', verified)) ↦
              let same : u' ≡ u = ok_injective (sym good' ∙ good) in
              inr (
                token,
                u,
                there,
                subst (IsVerified P now token) same verified,
                can_activate-Same now header w,
                r,
              )
        ]
      ]

  -- A kill switch or a kill of all that is not confirmed is refused before anything is looked up.
  pub unconfirmed :
      (now : ℕ) (agent_id user_id : String) (w : World P)
      → (handle now (kill_switch agent_id false) user_id w
          ≡ (err (bad_request "confirm must be true to execute kill switch"), w))
        × (handle now (kill_everything false) user_id w
            ≡ (err (bad_request "confirm must be true to execute kill-all"), w))
  unfolding handle
  unconfirmed now agent_id user_id w = (refl, refl)

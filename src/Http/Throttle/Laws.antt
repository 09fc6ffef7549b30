-- ===== src/Http/Throttle/Laws.antt =====
-- When two requests share a tracker.
use Prim.Native.String.{◌++◌}
use text.Mathlib.TextLemmas.{append_cancel_left, append_cancel_right}
use run_bot_backend.Prelude.{String, ◌≡◌, ◌≢◌, ◌↔◌, refl, Option, or_else, none, some, ne_test}
use run_bot_backend.Text.Laws.{Lacks, IsSolid, split-Lacks, trim_solid}
use run_bot_backend.Token.{extract_bearer_token}
use run_bot_backend.Http.Throttle.{
  Request, forwarded, tracker_for, anonymous_tracker, get_tracker, device_hash, default_text,
}

module _ (sha256_hex : String → String) where
  -- Of two requests with one bearer token that name agents, the trackers are the same exactly when
  -- the agents are: no two EAs share a budget, and neither addresses nor devices play a part.
  pub tracker_agents :
      (req req' : Request) (token a b : String)
      → extract_bearer_token req.authorization ≡ some token
      → extract_bearer_token req'.authorization ≡ some token
      → token ≢ ""
      → req.agent_param ≡ some a
      → req'.agent_param ≡ some b
      → (get_tracker sha256_hex req ≡ get_tracker sha256_hex req') ↔ (a ≡ b)
  unfolding get_tracker
  tracker_agents req req' token a b e e' ne p p' =
      rw (e, e', tracker_for, ne_test token "" ne, p, p')
        (
          (λ h. append_cancel_left _ a b (append_cancel_left _ _ _ (append_cancel_left _ _ _ h))),
          (λ h. rw h refl),
        )

-- An address that a header may hold alone: some characters, no white space and no comma.
pub record IsAddress (a : String) : Type 0 where
  pub nonempty : a ≢ ""
  pub single : Lacks b',' a
  pub solid : IsSolid a

forwarded_address : (a : String) → IsAddress a → forwarded (some a) ≡ some a
unfolding forwarded
forwarded_address a h = rw (split-Lacks b',' a h.single, trim_solid a h.solid) refl

module _ (sha256_hex : String → String) where
  anonymous_address :
      (req : Request) (a : String) (device : Option String)
      → IsAddress a
      → req.forwarded_for ≡ some a
      → or_else req.device_header req.device_cookie ≡ device
      → anonymous_tracker sha256_hex req
        ≡ a ++ ("|" ++ device_hash sha256_hex (default_text device ""))
  unfolding anonymous_tracker
  anonymous_address req a device h f d =
      rw (f, forwarded_address a h, ne_test a "" h.nonempty, d) refl

  -- Of two requests without a bearer token and of one device, the trackers are the same exactly when
  -- the addresses that the requests themselves state in the header X-Forwarded-For are: whatever the
  -- connections' own addresses, a sender that states a new address gets a new budget.
  pub tracker_forwarded :
      (req req' : Request) (a b : String) (device : Option String)
      → extract_bearer_token req.authorization ≡ none
      → extract_bearer_token req'.authorization ≡ none
      → IsAddress a
      → IsAddress b
      → req.forwarded_for ≡ some a
      → req'.forwarded_for ≡ some b
      → or_else req.device_header req.device_cookie ≡ device
      → or_else req'.device_header req'.device_cookie ≡ device
      → (get_tracker sha256_hex req ≡ get_tracker sha256_hex req') ↔ (a ≡ b)
  unfolding get_tracker
  tracker_forwarded req req' a b device e e' ha hb f f' d d' =
      rw
        (
          e,
          e',
          tracker_for,
          anonymous_address req a device ha f d,
          anonymous_address req' b device hb f' d',
        )
        ((λ h. append_cancel_right a b _ h), (λ h. rw h refl))

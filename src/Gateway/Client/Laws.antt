-- ===== src/Gateway/Client/Laws.antt =====
-- Who may subscribe to an agent, and what subscribing does to a bridge.
use run_bot_backend.Prelude.{
  ℕ, ◌+◌, String, ◌≡◌, ◌≢◌, refl, ◌∙◌, ap, ◌⊎◌, inl, inr, Option, none, some, true, ◌∷◌, eq_iff,
  eq_refl, Option-cases, Bool-cases, arith, if◌then◌else◌, leb,
}
use run_bot_backend.Json.{Json, null, member, str}
use run_bot_backend.Data.{EaInstance, emit_client, disconnect, error, SocketData, Socket}
use run_bot_backend.Platform.{Platform}
use run_bot_backend.Platform.Exec.{World, ok, err, rejected}
use run_bot_backend.Gateway.{by_agent, bound_agent, get_cached_state}
use run_bot_backend.Gateway.Bridge.{on_bridge_telemetry}
use run_bot_backend.Gateway.Bridge.Telemetry.{
  get_cached_state-on_bridge_telemetry, telemetry_mismatch,
}
use run_bot_backend.Gateway.Client.{is_owner, same_user, subscribe_owned, on_client_subscribe}

same_user-eq :
    (owner caller : Option String)
    → same_user owner caller ≡ true
    → (u : String) × (owner ≡ some u) × (caller ≡ some u)
unfolding same_user
same_user-eq (some owner) (some caller) h = (caller, ap some ((eq_iff owner caller).0 h), refl)
same_user-eq none caller h = cc
same_user-eq (some owner) none h = cc

is_owner-eq :
    (found : Option EaInstance) (caller : Option String)
    → is_owner found caller ≡ true
    → (i : EaInstance) × (u : String) × (found ≡ some i) × (i.user_id ≡ some u) × (caller ≡ some u)
unfolding is_owner
is_owner-eq none caller h = cc
is_owner-eq (some i) caller h =
    let (u, o, c) = same_user-eq i.user_id caller h in (i, u, refl, o, c)

-- The socket after it has subscribed.
abbrev pub subscribed : Socket → String → Socket
subscribed client agent_id = record client {
  state = record client.state { agent_id = some agent_id };
}

bridge_of_bound :
    (d : SocketData) (a b : String)
    → bound_agent d ≡ some a
    → bound_agent (record d { agent_id = some b }) ≡ some b
bridge_of_bound d a b h = ground arith

module _ {P : Platform} where
  subscribe_owned_ok :
      (now : ℕ) (client : Socket) (agent_id : String) (w : World P)
      → (subscribe_owned now client agent_id w).0 ≡ ok (subscribed client agent_id)
  unfolding subscribe_owned
  subscribe_owned_ok now client agent_id w = ground arith

  -- A subscription, on every path: the database is down and nothing happens; or the client is told
  -- "forbidden" and disconnected and nothing else changes; or the database shows that the agent's EA
  -- belongs to the user of the client's token, and the client is subscribed.
  pub subscribe-authorized :
      (now : ℕ) (client : Socket) (agent_id : String) (w : World P)
      → (on_client_subscribe now client agent_id w ≡ (err rejected, w))
        ⊎ (on_client_subscribe now client agent_id w ≡ (
          ok client,
          record w {
            trace = disconnect client.id ∷ emit_client client.id (error "forbidden") ∷ w.trace;
          },
        ))
        ⊎ ((i : EaInstance) × (u : String) × (P.find_one (by_agent agent_id) w.db ≡ some (some i))
            × (i.user_id ≡ some u)
            × (client.state.user_id ≡ some u)
            × ((on_client_subscribe now client agent_id w).0 ≡ ok (subscribed client agent_id)))
  unfolding on_client_subscribe
  subscribe-authorized now client agent_id w =
      elim (Option-cases (P.find_one (by_agent agent_id) w.db)) [
        | inl down ↦ inl (ground arith)
        | inr (found, f) ↦ elim (Bool-cases (is_owner found client.state.user_id)) [
          | inl mine ↦
              let (i, u, is_i, o, c) = is_owner-eq found client.state.user_id mine in
              inr (
                inr (
                  i,
                  u,
                  f ∙ ap some is_i,
                  o,
                  c,
                  ground (arith, subscribe_owned_ok now client agent_id w),
                ))
          | inr other ↦ inr (inl (ground arith))
        ]
      ]

  owned-subscribe :
      (now : ℕ) (client : Socket) (agent_id u : String) (i : EaInstance) (w : World P)
      → P.find_one (by_agent agent_id) w.db ≡ some (some i)
      → i.user_id ≡ some u
      → client.state.user_id ≡ some u
      → (on_client_subscribe now client agent_id w).0 ≡ ok (subscribed client agent_id)
  unfolding on_client_subscribe
  owned-subscribe now client agent_id u i w f o c =
      ground (arith, subscribe_owned_ok now client agent_id w, eq_refl u)

  -- The binding of a bridge to the agent of its token does not survive a subscription. A bridge whose
  -- token names one agent has its frames for another agent dropped, until it subscribes to that other
  -- agent, which it may if the two belong to the same user: from then on the same frame is taken as
  -- the other agent's, and stands in that agent's cached state for a minute.
  pub subscribe_rebinds :
      (now later t : ℕ) (client : Socket) (a b u : String) (i : EaInstance) (frame : Json)
      (w : World P)
      → bound_agent client.state ≡ some a
      → a ≢ b
      → b ≢ ""
      → P.find_one (by_agent b) w.db ≡ some (some i)
      → i.user_id ≡ some u
      → client.state.user_id ≡ some u
      → frame ≢ null
      → member "agentId" frame ≡ some (str b)
      → (on_bridge_telemetry later client frame w ≡ (ok tt, w))
        × ((on_client_subscribe now client b w).0 ≡ ok (subscribed client b))
        × ((get_cached_state t b
              (on_bridge_telemetry later
                (subscribed client b)
                frame
                (on_client_subscribe now client b w).1).1).0
            ≡ ok (if leb (later + 60_000) t then none else some (P.stringify frame)))
  subscribe_rebinds now later t client a b u i frame w bound differs named f o c ne m = (
    telemetry_mismatch later client a frame w bound ne (ground (arith, eq_iff b ""))
        (ground (arith, eq_iff a b, eq_iff b a)),
    owned-subscribe now client b u i w f o c,
    get_cached_state-on_bridge_telemetry later t (subscribed client b) b b frame
          (on_client_subscribe now client b w).1
          (record {
            bound = bridge_of_bound client.state a b bound;
            named = named;
            not_null = ne;
            agrees = inr (ground (arith, eq_refl b));
          })
        ∙ rw (eq_refl b) refl,
  )

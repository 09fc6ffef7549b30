-- ===== src/Gateway/Connection/Laws.antt =====
-- What a connection is let in as, and what the disconnect of an agent's current socket does.
use mathlib.Core.Option
use run_bot_backend.Prelude.{
  ℕ, String, ◌≡◌, ◌≢◌, refl, ◌∙◌, ap, ◌⊎◌, inl, inr, Option, none, some, false, ◌==◌, eq_refl,
  eq_iff, ◌∷◌, Bool-cases, arith, if◌then◌else◌, truthy, lookup, erase, lookup-erase,
}
use run_bot_backend.Data.{EaInstance, disconnect, emit_room, status, Socket}
use run_bot_backend.Platform.{Platform, Laws}
use run_bot_backend.Platform.Documents.{document, document-update_one}
use run_bot_backend.Platform.Exec.{World, Result, ok, err, continue, recover, pure}
use run_bot_backend.Token.{SafetyScoreUser, verify_safety_score_token}
use run_bot_backend.Token.Laws.{IsVerified, verify_ok}
use run_bot_backend.Token.Frame.{verify-Same}
use run_bot_backend.Gateway.{agent_room, by_agent, bound_agent}
use run_bot_backend.Gateway.Connection.{
  socket_data, set_offline, drop_client, handle_connection, handle_disconnect,
}

module _ {P : Platform} where
  -- The socket after its token was verified, or the disconnect after it was not.
  settled :
      (client : Socket) (r : Result SafetyScoreUser) (w : World P)
      → ((u : SafetyScoreUser) × (r ≡ ok u)
          × (recover
                (continue r (λ v. pure (record client { state = socket_data client.state v })) w).0
                (drop_client client)
                (continue r (λ v. pure (record client { state = socket_data client.state v })) w).1
              ≡ (ok (record client { state = socket_data client.state u }), w)))
        ⊎ (recover
              (continue r (λ v. pure (record client { state = socket_data client.state v })) w).0
              (drop_client client)
              (continue r (λ v. pure (record client { state = socket_data client.state v })) w).1
            ≡ (ok client, record w { trace = disconnect client.id ∷ w.trace }))
  unfolding drop_client
  settled client (ok u) w = inl (u, refl, refl)
  settled client (err e) w = inr refl

  -- A connection is either disconnected, with its data as it was, or its token is verified, and then
  -- nothing is sent and its data are the claims': it is a bridge exactly if they name an agent.
  pub handle_connection_cases :
      (now : ℕ) (client : Socket) (token : Option String) (w : World P)
      → (((handle_connection now client token w).0 ≡ ok client)
          × ((handle_connection now client token w).1.trace ≡ disconnect client.id ∷ w.trace))
        ⊎ ((t : String) × (u : SafetyScoreUser) × (token ≡ some t)
            × IsVerified P now t u
            × ((handle_connection now client token w).0
                ≡ ok (record client {
                  state = record client.state {
                    user_id = some u.user_id;
                    is_bridge = truthy u.agent_id;
                    agent_id = u.agent_id;
                    license_key = u.license_key;
                    account_login = u.account_login;
                    symbol = u.symbol;
                    token_expires_at = u.expires_at;
                  };
                }))
            × ((handle_connection now client token w).1.trace ≡ w.trace))
  unfolding handle_connection
  handle_connection_cases now client none w = inl (refl, refl)
  handle_connection_cases now client (some t) w = elim (Bool-cases (t == "")) [
    | inl empty ↦ inl (ground arith, ground arith)
    | inr full ↦
        let sent = (verify-Same now t w).sent in
        elim (settled client (verify_safety_score_token now t w).0
          (verify_safety_score_token now t w).1) [
            | inl (u, good, r) ↦ inr (
              t,
              u,
              refl,
              verify_ok now t w u good,
              rw full (ap (λ x. x.0) r),
              rw full (ap (λ x. x.1.trace) r ∙ sent),
            )
            | inr r ↦ inl (
              rw full (ap (λ x. x.0) r),
              rw full (ap (λ x. x.1.trace) r ∙ ap (◌∷◌ (disconnect client.id)) sent),
            )
          ]
  ]

module _ {P : Platform} (laws : Laws P) where
  -- The disconnect of the current socket of an agent, where the database accepts the update: the
  -- agent has no current socket any more and the other agents keep theirs; the agent's instance is
  -- offline and no other instance has changed; and the agent's room is told.
  pub handle_disconnect_current :
      (now : ℕ) (client : Socket) (agent_id : String) (w : World P) (db : P.Db)
      → bound_agent client.state ≡ some agent_id
      → agent_id ≢ ""
      → lookup agent_id w.bridge_sockets ≡ some client.id
      → P.update_one (by_agent agent_id) set_offline w.db ≡ some db
      → let w' = (handle_disconnect now client w).1 in
        ((handle_disconnect now client w).0 ≡ ok tt)
        × ((b : String)
            → lookup b w'.bridge_sockets
              ≡ (if agent_id == b then none else lookup b w.bridge_sockets))
        × ((b : String)
            → document P b w'.db ≡ (
                if agent_id == b
                then Option.map {A = EaInstance}
                    (λ i. record i { online = false })
                    (document P b w.db)
                else document P b w.db))
        × (w'.trace ≡ emit_room (agent_room agent_id) (status agent_id false (some now)) ∷ w.trace)
  unfolding handle_disconnect
  handle_disconnect_current now client agent_id w db bound named current e =
      let gone = went now client agent_id w db bound named current e in
      rw gone (
        refl,
        (λ b. lookup-erase agent_id b w.bridge_sockets),
        (λ b. document-update_one laws agent_id b set_offline w.db db (λ i. refl) e),
        refl,
      )
    where
      went :
          (now : ℕ) (client : Socket) (agent_id : String) (w : World P) (db : P.Db)
          → bound_agent client.state ≡ some agent_id
          → agent_id ≢ ""
          → lookup agent_id w.bridge_sockets ≡ some client.id
          → P.update_one (by_agent agent_id) set_offline w.db ≡ some db
          → handle_disconnect now client w ≡ (
            ok tt,
            record w {
              db = db;
              bridge_sockets = erase agent_id w.bridge_sockets;
              trace = emit_room (agent_room agent_id) (status agent_id false (some now)) ∷ w.trace;
            },
          )
      went now client agent_id w db bound named current e =
          ground (arith, eq_iff agent_id "", eq_refl client.id)

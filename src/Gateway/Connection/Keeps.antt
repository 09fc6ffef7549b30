-- ===== src/Gateway/Connection/Keeps.antt =====
-- Connecting and disconnecting keep what is stable.
use run_bot_backend.Prelude.{
  ℕ, String, refl, Option, none, some, ◌≡◌, inl, inr, lookup, erase, false, is_text,
  is_text-eq_some, Bool-cases, ◌==◌,
}
use run_bot_backend.Platform.{Platform}
use run_bot_backend.Platform.Exec.{change, World, effect, ◌>>◌}
use run_bot_backend.Platform.Keeps.{
  Facts, Holds, Keeps, IsStable, keeps_rules, Keeps-update, Keeps-if, Keeps-pure,
}
use run_bot_backend.Data.{Socket, emit_room, status}
use run_bot_backend.Gateway.{agent_room, by_agent}
use run_bot_backend.Token.Keeps.{verify-Keeps}
use run_bot_backend.Gateway.Connection.{
  set_offline, drop_client, connect_with, handle_connection, take_offline, disconnect_agent,
  handle_disconnect,
}

module _ {P : Platform} {J : Facts P} {T : ℕ} (stable : IsStable P T J) where
  drop_client-Keeps : (client : Socket) → Keeps P J (drop_client client)
  unfolding drop_client
  drop_client-Keeps client = search keeps_rules

  connect_with-Keeps :
      (now : ℕ) (client : Socket) (token : Option String)
      → Keeps P J (connect_with now client token)
  unfolding connect_with
  connect_with-Keeps now client none = drop_client-Keeps client
  connect_with-Keeps now client (some token) =
      search (keeps_rules, drop_client-Keeps, verify-Keeps) depth 12

  pub handle_connection-Keeps :
      (now : ℕ) (client : Socket) (token : Option String)
      → Keeps P J (handle_connection now client token)
  unfolding handle_connection
  handle_connection-Keeps now client token = connect_with-Keeps now client token

  pub offline-Keeps : (a : String) → Keeps P J (change (P.update_one (by_agent a) set_offline))
  offline-Keeps a = Keeps-update stable (by_agent a) set_offline (λ i. (refl, refl))

-- It stays true where this socket, being an agent's current one, is struck off.
abbrev pub KeptByErase : (P : Platform) → Facts P → String → Type 0
KeptByErase P K id =
    (a : String) (w : World P)
    → lookup a w.bridge_sockets ≡ some id
    → Holds {P = P} K w
    → K w.db (erase a w.bridge_sockets) w.trace w.telemetry_cache

module _ {P : Platform} {J : Facts P} {T : ℕ} (stable : IsStable P T J) where
  told-Keeps :
      (now : ℕ) (a : String)
      → Keeps P J (
          change (P.update_one (by_agent a) set_offline)
          >> effect (emit_room (agent_room a) (status a false (some now))))
  told-Keeps now a = search (keeps_rules, offline-Keeps stable) depth 12

  disconnect_agent-Keeps :
      (now : ℕ) (id : String) (a : Option String)
      → KeptByErase P J id
      → Keeps P J (disconnect_agent now id a)
  unfolding disconnect_agent take_offline
  disconnect_agent-Keeps now id none k = search keeps_rules
  disconnect_agent-Keeps now id (some a) k = record { at = go }
    where
      go :
          (w : World P) → Holds {P = P} J w → Holds {P = P} J (disconnect_agent now id (some a) w).1
      go w h = elim (Bool-cases (a == "")) [
        | inl empty ↦ rw empty h
        | inr full ↦ elim (Bool-cases (is_text (lookup a w.bridge_sockets) id)) [
          | inl current ↦
              rw (full, current)
                ((told-Keeps now a).at (record w { bridge_sockets = erase a w.bridge_sockets })
                  (k a w (is_text-eq_some (lookup a w.bridge_sockets) id current) h))
          | inr stale ↦ rw (full, stale) h
        ]
      ]

  pub handle_disconnect-Keeps :
      (now : ℕ) (client : Socket)
      → KeptByErase P J client.id
      → Keeps P J (handle_disconnect now client)
  unfolding handle_disconnect
  handle_disconnect-Keeps now client k =
      Keeps-if client.state.is_bridge _ _
        (disconnect_agent-Keeps now client.id client.state.agent_id k) (Keeps-pure tt)

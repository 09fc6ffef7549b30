-- ===== src/Gateway/Connection.antt =====
-- `handleConnection` and `handleDisconnect`. A handler gives back the socket with its data; `now` is
-- the time in milliseconds that its calls of `Date.now()` return.
pub mod Keeps
pub mod Laws
use run_bot_backend.Prelude.{
  ℕ, String, Option, none, some, false, truthy, is_text, if◌then◌else◌, lookup, erase,
}
use run_bot_backend.Data.{EaInstance, status, emit_room, disconnect, SocketData, Socket}
use run_bot_backend.Token.{SafetyScoreUser, verify_safety_score_token}
use run_bot_backend.Platform.{Platform}
use run_bot_backend.Platform.Exec.{
  Exec, pure, gets, change, modify, skip, effect, ◌>>=◌, ◌>>◌, try_catch,
}
use run_bot_backend.Gateway.{agent_room, by_agent}

abbrev pub socket_data : SocketData → SafetyScoreUser → SocketData
socket_data d verified = record d {
  user_id = some verified.user_id;
  is_bridge = truthy verified.agent_id;
  agent_id = verified.agent_id;
  license_key = verified.license_key;
  account_login = verified.account_login;
  symbol = verified.symbol;
  token_expires_at = verified.expires_at;
}

abbrev pub set_offline : EaInstance → EaInstance
set_offline i = record i { online = false }

module _ {P : Platform} where
  drop_client : Socket → Exec P Socket
  drop_client client = do effect (disconnect client.id); pure client

  connect_with : ℕ → Socket → Option String → Exec P Socket
  unfolding verify_safety_score_token drop_client
  connect_with now client none = drop_client client
  connect_with now client (some token) =
      if truthy (some token)
      then try_catch
          (do
            verified ← verify_safety_score_token now token
            pure (record client { state = socket_data client.state verified }))
          (drop_client client)
      else drop_client client

  unfoldable pub handle_connection : ℕ → Socket → Option String → Exec P Socket
  unfolding connect_with
  handle_connection now client token = connect_with now client token

  -- The update that the handler awaits, and what follows it.
  unfoldable pub report_offline : ℕ → String → Exec P Unit
  unfolding agent_room
  report_offline now agent_id = do
    change (P.update_one (by_agent agent_id) set_offline)
    effect (emit_room (agent_room agent_id) (status agent_id false (some now)))

  -- The current socket of the agent is gone.
  take_offline : ℕ → String → Exec P Unit
  unfolding report_offline
  take_offline now agent_id = do
    modify (λ w. record w { bridge_sockets = erase agent_id w.bridge_sockets })
    report_offline now agent_id

  disconnect_agent : ℕ → String → Option String → Exec P Unit
  unfolding take_offline
  disconnect_agent now id none = skip
  disconnect_agent now id (some agent_id) =
      if truthy (some agent_id)
      then (do
        current ← gets (λ w. lookup agent_id w.bridge_sockets)
        if is_text current id then take_offline now agent_id else skip)
      else skip

  unfoldable pub handle_disconnect : ℕ → Socket → Exec P Unit
  unfolding disconnect_agent
  handle_disconnect now client =
      if client.state.is_bridge then disconnect_agent now client.id client.state.agent_id else skip

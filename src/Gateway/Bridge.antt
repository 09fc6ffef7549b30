-- ===== src/Gateway/Bridge.antt =====
-- The events of a bridge: `bridge:register`, `console:telemetry`, `console:ack`, `console:status` and
-- `console:offline`. A payload is taken as the handler's parameter types it.
pub mod Keeps
pub mod Ownership
pub mod Race
pub mod Refused
pub mod Register
pub mod Takeover
pub mod Users
pub mod Telemetry
pub mod Frames
use run_bot_backend.Prelude.{
  ℕ, String, Option, none, some, Bool, true, false, not, ◌&&◌, ◌||◌, ◌==◌, truthy, or_else, is_text,
  if◌then◌else◌, lookup, insert,
}
use run_bot_backend.Text.{split, first, second}
use run_bot_backend.Json.{Json, truthy_json, json_is_text}
use run_bot_backend.Cache.{setex}
use run_bot_backend.Data.{
  EaInstance, new_instance, status, telemetry, ack, error, emit_room, disconnect, join, SocketData,
  Socket,
}
use run_bot_backend.Platform.{Platform}
use run_bot_backend.Platform.Exec.{
  World, Exec, pure, gets, query, change, modify, skip, effect, ◌>>=◌, ◌>>◌,
}
use run_bot_backend.Gateway.{
  telemetry_ttl_seconds, state_key, agent_room, bridge_room, by_agent, bound_agent, read_member,
  reject,
}
use run_bot_backend.Gateway.Connection.{set_offline}

-- The fields of an instance that a registration writes.
pub record Registration : Type 0 where
  pub account_login : String
  pub license_key : String
  pub symbol : String
  pub user_id : String

abbrev pub register_instance : ℕ → Registration → EaInstance → EaInstance
register_instance now r i = record i {
  account_login = r.account_login;
  license_key = r.license_key;
  symbol = r.symbol;
  user_id = some r.user_id;
  online = true;
  last_seen_at = some now;
  hidden_at = none;
}

-- `if (!accountLogin || !licenseKey || !symbol || !callerId)`
complete : Option String → Option String → Option String → Option String → Option Registration
complete (some account_login) (some license_key) (some symbol) (some user_id) =
    if account_login == "" || license_key == "" || symbol == "" || user_id == ""
    then none
    else some (record {
      account_login = account_login;
      license_key = license_key;
      symbol = symbol;
      user_id = user_id;
    })
complete _ _ _ _ = none

-- The fields from the token's claims, or else from the parts of the agent's id.
unfoldable pub registration : String → SocketData → Option Registration
unfolding complete
registration agent_id d =
    complete (or_else d.account_login (first (split b'-' agent_id))) d.license_key
      (or_else d.symbol (second (split b'-' agent_id))) d.user_id

-- `existing?.userId && callerId && existing.userId !== callerId`
foreign_owner : Option String → Option String → Bool
foreign_owner (some owner) (some caller) =
    not (owner == "") && not (caller == "") && not (owner == caller)
foreign_owner _ _ = false

unfoldable pub owned_by_another : Option EaInstance → Option String → Bool
unfolding foreign_owner
owned_by_another none caller = false
owned_by_another (some i) caller = foreign_owner i.user_id caller

abbrev pub see_telemetry : ℕ → Json → EaInstance → EaInstance
see_telemetry now frame i = record i {
  online = true;
  last_telemetry = some frame;
  last_seen_at = some now;
  hidden_at = none;
}

abbrev pub see_status : ℕ → Bool → EaInstance → EaInstance
see_status now online i = record i {
  online = online;
  last_seen_at = some now;
  hidden_at = if online then none else i.hidden_at;
}

module _ {P : Platform} where
  -- The stale socket of the agent, if another one stands there, is kicked.
  kick_stale : Socket → Option String → Exec P Unit
  kick_stale client none = skip
  kick_stale client (some stale) =
      if truthy (some stale) && not (stale == client.id) then effect (disconnect stale) else skip

  -- The write that the handler awaits, and what follows it.
  unfoldable pub persist : ℕ → Socket → String → Registration → Exec P Socket
  unfolding agent_room
  persist now client agent_id r = do
    change (P.upsert_one (by_agent agent_id) (new_instance agent_id) (register_instance now r))
    effect (emit_room (agent_room agent_id) (status agent_id true none))
    pure client

  -- What follows the kick.
  unfoldable pub seat : ℕ → Socket → String → Registration → Exec P Socket
  unfolding bridge_room persist
  seat now client agent_id r = do
    modify (λ w. record w { bridge_sockets = insert agent_id client.id w.bridge_sockets })
    effect (join client.id (bridge_room agent_id))
    persist now client agent_id r

  unfoldable pub take_over : ℕ → Socket → String → Registration → Exec P Socket
  unfolding kick_stale seat
  take_over now client agent_id r = do
    stale ← gets (λ w. lookup agent_id w.bridge_sockets)
    kick_stale client stale
    seat now client agent_id r

  -- With fields missing, the upsert is skipped.
  register_fields : ℕ → Socket → String → Option Registration → Exec P Socket
  unfolding take_over
  register_fields now client agent_id none = pure client
  register_fields now client agent_id (some r) = take_over now client agent_id r

  pub register_owned : ℕ → Socket → String → Option EaInstance → Exec P Socket
  unfolding register_fields registration owned_by_another
  register_owned now client agent_id existing =
      if owned_by_another existing client.state.user_id
      then reject client (error "forbidden: agentId owned by another user")
      else register_fields now
          (record client {
            state = record client.state { agent_id = some agent_id; is_bridge = true };
          })
          agent_id (registration agent_id client.state)

  register_agent : ℕ → Socket → Option String → Option String → Exec P Socket
  unfolding register_owned
  register_agent now client claimed none = pure client
  register_agent now client claimed (some agent_id) =
      if agent_id == ""
      then pure client
      else if truthy claimed && not (is_text claimed agent_id)
      then reject client (error "forbidden: agentId does not match token")
      else (do
        existing ← query (P.find_one (by_agent agent_id))
        register_owned now client agent_id existing)

  -- `claimed` is the payload's `agentId`.
  unfoldable pub on_bridge_register : ℕ → Socket → Option String → Exec P Socket
  unfolding register_agent
  on_bridge_register now client claimed =
      if client.state.is_bridge
      then register_agent now client claimed client.state.agent_id
      else pure client

  pub accept_telemetry : ℕ → String → Json → Exec P Unit
  unfolding state_key agent_room setex
  accept_telemetry now agent_id frame = do
    modify (λ w. record w {
      telemetry_cache =
          setex now (state_key agent_id) telemetry_ttl_seconds (P.stringify frame)
            w.telemetry_cache;
    })
    effect (emit_room (agent_room agent_id) (telemetry frame))
    change (P.update_one (by_agent agent_id) (see_telemetry now frame))
    effect (emit_room (agent_room agent_id) (status agent_id true (some now)))

  -- A frame that names another agent is dropped.
  checked_telemetry : ℕ → String → Json → Option Json → Exec P Unit
  unfolding accept_telemetry
  checked_telemetry now agent_id frame claimed =
      if truthy_json claimed && not (json_is_text claimed agent_id)
      then skip
      else accept_telemetry now agent_id frame

  telemetry_of : ℕ → Option String → Json → Exec P Unit
  unfolding checked_telemetry read_member
  telemetry_of now none frame = skip
  telemetry_of now (some agent_id) frame =
      if agent_id == ""
      then skip
      else (do claimed ← read_member "agentId" frame; checked_telemetry now agent_id frame claimed)

  unfoldable pub on_bridge_telemetry : ℕ → Socket → Json → Exec P Unit
  unfolding telemetry_of
  on_bridge_telemetry now client frame = telemetry_of now (bound_agent client.state) frame

  -- A bridge's event about its agent, if it has one.
  for_agent : (String → Exec P Unit) → Option String → Exec P Unit
  for_agent act none = skip
  for_agent act (some agent_id) = if agent_id == "" then skip else act agent_id

  unfoldable pub on_bridge_ack : Socket → String → Exec P Unit
  unfolding for_agent agent_room
  on_bridge_ack client uuid =
      for_agent (λ agent_id. effect (emit_room (agent_room agent_id) (ack uuid)))
        (bound_agent client.state)

  unfoldable pub on_bridge_status : ℕ → Socket → Bool → Option ℕ → Exec P Unit
  unfolding for_agent agent_room
  on_bridge_status now client online last_seen_ts =
      for_agent
        (λ agent_id. do
          change (P.update_one (by_agent agent_id) (see_status now online))
          effect (
              emit_room (agent_room agent_id)
                (status agent_id online (or_else last_seen_ts (some now)))))
        (bound_agent client.state)

  unfoldable pub on_bridge_offline : ℕ → Socket → Exec P Unit
  unfolding for_agent agent_room
  on_bridge_offline now client =
      for_agent
        (λ agent_id. do
          change (P.update_one (by_agent agent_id) set_offline)
          effect (emit_room (agent_room agent_id) (status agent_id false (some now))))
        (bound_agent client.state)

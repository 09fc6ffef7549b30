-- ===== src/Gateway.antt =====
-- src/console/console.gateway.ts: the parts that every handler shares. Connections, the events of a
-- bridge, those of a browser and the sweep of expired sockets stand in child modules.
pub mod Connection
pub mod Bridge
pub mod Client
pub mod Sweep
pub mod Keeps
pub mod Orders
pub mod Rooms
use run_bot_backend.Prelude.{ℕ, String, Option, none, some, Bool, true, false, truthy, ◌==◌, List}
use Prim.Native.String.{◌++◌}
use run_bot_backend.Json.{Json, null, member}
use run_bot_backend.Cache.{Cache, get}
use run_bot_backend.Data.{
  EaInstance, Event, bridge_command, Effect, emit_room, emit_client, disconnect, SocketData, Socket,
}
pub use run_bot_backend.Platform.Documents.{by_agent}
use run_bot_backend.Platform.{Platform}
use run_bot_backend.Platform.Exec.{World, Exec, ok, type_error, pure, raise, effect, ◌>>=◌, ◌>>◌}

abbrev pub telemetry_ttl_seconds : ℕ
telemetry_ttl_seconds = 60

unfoldable pub state_key : String → String
state_key agent_id = "ea:state:" ++ agent_id

unfoldable pub agent_room : String → String
agent_room agent_id = "agent:" ++ agent_id

unfoldable pub bridge_room : String → String
bridge_room agent_id = "bridge:" ++ agent_id

-- The agent of a bridge: `client.data.agentId` where the handlers' guards let it through.
abbrev pub bound_agent : SocketData → Option String
bound_agent d = elim d.is_bridge [ true ↦ d.agent_id | false ↦ none ]

module _ {P : Platform} where
  -- The cached state, and the lazy eviction of the read.
  unfoldable pub get_cached_state : ℕ → String → Exec P (Option String)
  get_cached_state now agent_id w =
      let (found, cache) = get now (state_key agent_id) w.telemetry_cache in
      (ok found, record w { telemetry_cache = cache })

  unfoldable pub send_command_to_bridge : String → String → String → Option String → Exec P Unit
  send_command_to_bridge agent_id command_id verb value =
      effect (emit_room (bridge_room agent_id) (bridge_command command_id verb value))

  unfoldable pub emit_to_room : String → Event → Exec P Unit
  emit_to_room room event = effect (emit_room room event)

  -- `value.key`, which throws where the value is `null`.
  unfoldable pub read_member : String → Json → Exec P (Option Json)
  read_member key null = raise type_error
  read_member key value = pure (member key value)

  -- The client is told why, and disconnected.
  abbrev pub reject : Socket → Event → Exec P Socket
  reject client event = do
    effect (emit_client client.id event)
    effect (disconnect client.id)
    pure client

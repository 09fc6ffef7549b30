-- ===== src/System.antt =====
-- The program as a whole: everything that can happen to it, one handler at a time. A socket comes
-- with whatever data it has; what follows holds for all of them.
pub mod Keeps
pub mod Ownership
pub mod Audit
pub mod Server
pub mod Rooms
pub mod Bridges
pub mod Offline
pub mod Kick
pub mod Telemetry
use run_bot_backend.Prelude.{ℕ, String, Option, Bool, List, [], ◌∷◌}
use run_bot_backend.Json.{Json}
use run_bot_backend.Cache.{sweep}
use run_bot_backend.Data.{Socket}
use run_bot_backend.Platform.{Platform}
use run_bot_backend.Platform.Exec.{World}
use run_bot_backend.Gateway.Connection.{handle_connection, handle_disconnect}
use run_bot_backend.Gateway.Bridge.{
  on_bridge_register, on_bridge_telemetry, on_bridge_ack, on_bridge_status, on_bridge_offline,
}
use run_bot_backend.Gateway.Client.{on_client_subscribe, on_client_unsubscribe}
use run_bot_backend.Http.Controller.{Route, request}
use run_bot_backend.Scheduler.{check_heartbeat, record_pnl_snapshots}

pub data Occurrence : Type 0 where
  connection : Socket → Option String → Occurrence
  disconnection : Socket → Occurrence
  bridge_register : Socket → Option String → Occurrence
  bridge_telemetry : Socket → Json → Occurrence
  bridge_ack : Socket → String → Occurrence
  bridge_status : Socket → Bool → Option ℕ → Occurrence
  bridge_offline : Socket → Occurrence
  client_subscribe client_unsubscribe : Socket → String → Occurrence
  http_request : Option String → Route → Occurrence
  heartbeat snapshots cache_sweep : Occurrence

module _ {P : Platform} where
  -- The state after an occurrence at a time, whether its handler returns or throws.
  unfoldable pub step : ℕ → Occurrence → World P → World P
  step now (connection client token) w = (handle_connection now client token w).1
  step now (disconnection client) w = (handle_disconnect now client w).1
  step now (bridge_register client claimed) w = (on_bridge_register now client claimed w).1
  step now (bridge_telemetry client frame) w = (on_bridge_telemetry now client frame w).1
  step now (bridge_ack client uuid) w = (on_bridge_ack client uuid w).1
  step now (bridge_status client online seen) w = (on_bridge_status now client online seen w).1
  step now (bridge_offline client) w = (on_bridge_offline now client w).1
  step now (client_subscribe client agent_id) w = (on_client_subscribe now client agent_id w).1
  step now (client_unsubscribe client agent_id) w = (on_client_unsubscribe client agent_id w).1
  step now (http_request header route) w = (request now header route w).1
  step now heartbeat w = (check_heartbeat now w).1
  step now snapshots w = (record_pnl_snapshots now w).1
  step now cache_sweep w = record w { telemetry_cache = sweep now w.telemetry_cache }

  unfoldable pub run : List (ℕ × Occurrence) → World P → World P
  unfolding step
  run [] w = w
  run ((now, o) ∷ rest) w = run rest (step now o w)

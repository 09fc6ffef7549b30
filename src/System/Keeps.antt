-- ===== src/System/Keeps.antt =====
-- What an occurrence of the program keeps.
use run_bot_backend.Prelude.{ℕ}
use run_bot_backend.Platform.{Platform}
use run_bot_backend.Platform.Exec.{World}
use run_bot_backend.Platform.Keeps.{Facts, Holds, Keeps, KeptByJoin, IsStable}
use run_bot_backend.Gateway.{agent_room}
use run_bot_backend.Gateway.Bridge.{on_bridge_register}
use run_bot_backend.Gateway.Connection.Keeps.{
  KeptByErase, handle_connection-Keeps, handle_disconnect-Keeps,
}
use run_bot_backend.Gateway.Bridge.Keeps.{
  KeptByFrame, on_bridge_telemetry-Keeps, on_bridge_ack-Keeps, on_bridge_status-Keeps,
  on_bridge_offline-Keeps,
}
use run_bot_backend.Gateway.Client.Keeps.{on_client_subscribe-Keeps, on_client_unsubscribe-Keeps}
use run_bot_backend.Http.Controller.Keeps.{request-Keeps}
use run_bot_backend.Scheduler.Keeps.{check_heartbeat-Keeps, record_pnl_snapshots-Keeps}
use run_bot_backend.System.{
  Occurrence, connection, disconnection, bridge_register, bridge_telemetry, bridge_ack,
  bridge_status, bridge_offline, client_subscribe, client_unsubscribe, http_request, heartbeat,
  snapshots, cache_sweep, step,
}

-- What is to be shown beside the stability, for the occurrences that do more than stability covers.
abbrev pub Kept : (P : Platform) → Facts P → ℕ → Occurrence → Type 0
Kept P K now (disconnection client) = KeptByErase P K client.id
Kept P K now (bridge_register client claimed) = Keeps P K (on_bridge_register now client claimed)
Kept P K now (bridge_telemetry client frame) = KeptByFrame P K now
Kept P K now (client_subscribe client a) = KeptByJoin P K client.id (agent_room a)
Kept P K now _ = Unit

module _ {P : Platform} {J : Facts P} (now : ℕ) (stable : IsStable P now J) where
  pub step-Keeps :
      (o : Occurrence)
      → Kept P J now o
      → (w : World P) → Holds {P = P} J w
      → Holds {P = P} J (step now o w)
  unfolding step
  step-Keeps (connection client token) k w = (handle_connection-Keeps stable now client token).at w
  step-Keeps (disconnection client) k w = (handle_disconnect-Keeps stable now client k).at w
  step-Keeps (bridge_register client claimed) k w = k.at w
  step-Keeps (bridge_telemetry client frame) k w =
      (on_bridge_telemetry-Keeps stable now client frame k).at w
  step-Keeps (bridge_ack client uuid) k w = (on_bridge_ack-Keeps stable client uuid).at w
  step-Keeps (bridge_status client online seen) k w =
      (on_bridge_status-Keeps stable now client online seen).at w
  step-Keeps (bridge_offline client) k w = (on_bridge_offline-Keeps stable now client).at w
  step-Keeps (client_subscribe client b) k w = (on_client_subscribe-Keeps stable client b k).at w
  step-Keeps (client_unsubscribe client b) k w = (on_client_unsubscribe-Keeps stable client b).at w
  step-Keeps (http_request header route) k w = (request-Keeps stable header route).at w
  step-Keeps heartbeat k w = (check_heartbeat-Keeps stable).at w
  step-Keeps snapshots k w = (record_pnl_snapshots-Keeps stable).at w
  step-Keeps cache_sweep k w = stable.swept w.db w.bridge_sockets w.trace w.telemetry_cache

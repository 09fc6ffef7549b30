-- ===== src/Scheduler.antt =====
-- src/console/console.scheduler.ts.
pub mod Heartbeat
pub mod Keeps
pub mod Late
pub mod Laws
pub mod Samples
pub mod Snapshots
use run_bot_backend.Prelude.{
  ℕ, ℤ, minus, thousand, below, String, Option, none, some, Bool, true, false, List, [], ◌∷◌, ◌==◌,
  if◌then◌else◌,
}
use run_bot_backend.Json.{
  Json, null, Coerced, throws, not_a_number, infinity, minus_infinity, finite, number_or_zero,
  member,
}
use run_bot_backend.Data.{EaInstance, AuditEvent, AuditPayload, status}
use run_bot_backend.Platform.{Platform}
use run_bot_backend.Platform.Exec.{World, Exec, pure, query, change, skip, ◌>>=◌, ◌>>◌, try_catch}
use run_bot_backend.Gateway.{agent_room, by_agent, get_cached_state, emit_to_room}
use run_bot_backend.Gateway.Connection.{set_offline}
use run_bot_backend.Service.{log_event}
use run_bot_backend.Service.History.{record_pnl_point}

abbrev pub offline_threshold_ms : ℕ
offline_threshold_ms = 300_000

-- `Date.now() - ts * 1000 > OFFLINE_THRESHOLD_MS`; a comparison with NaN is false, an infinite
-- time gives an infinite age of the other sign, and the handler of an exception makes it true.
unfoldable pub is_old : ℕ → Coerced → Bool
is_old now throws = true
is_old now not_a_number = false
is_old now infinity = false
is_old now minus_infinity = true
is_old now (finite ts) = below offline_threshold_ms (minus now (thousand ts))

-- `telemetry.ts` of `null` throws, too.
frame_is_stale : (String → Coerced) → ℕ → Option Json → Bool
unfolding is_old
frame_is_stale read now none = true
frame_is_stale read now (some null) = true
frame_is_stale read now (some frame) = is_old now (number_or_zero read (member "ts" frame))

-- `{ online: true }`
abbrev pub is_online_instance : EaInstance → Bool
is_online_instance i = i.online

module _ (P : Platform) where
  unfoldable pub is_stale : ℕ → Option String → Bool
  unfolding frame_is_stale
  is_stale now none = true
  is_stale now (some cached) =
      if cached == "" then true else frame_is_stale P.number_of_text now (P.parse cached)

module _ {P : Platform} where
  mark_offline : ℕ → String → Exec P Unit
  unfolding emit_to_room log_event agent_room
  mark_offline now agent_id = do
    change (P.update_one (by_agent agent_id) set_offline)
    emit_to_room (agent_room agent_id) (status agent_id false (some now))
    log_event agent_id AuditEvent.bridge_disconnect (AuditPayload.reason "heartbeat_timeout") none

  unfoldable pub check_instance : ℕ → String → Exec P Unit
  unfolding mark_offline
  check_instance now agent_id = do
    cached ← get_cached_state now agent_id
    if is_stale P now cached then mark_offline now agent_id else skip

  unfoldable pub check_instances : ℕ → List EaInstance → Exec P Unit
  check_instances now [] = skip
  check_instances now (i ∷ rest) = do check_instance now i.agent_id; check_instances now rest

  unfoldable pub check_heartbeat : ℕ → Exec P Unit
  unfolding check_instances
  check_heartbeat now = do online ← query (P.find is_online_instance); check_instances now online

  -- A failed snapshot is logged and passed over.
  snapshot_one : ℕ → String → Exec P Bool
  snapshot_one now agent_id = try_catch (record_pnl_point now agent_id) (pure false)

  snapshots : ℕ → List EaInstance → Exec P Unit
  snapshots now [] = skip
  snapshots now (i ∷ rest) = do _done ← snapshot_one now i.agent_id; snapshots now rest

  pub record_pnl_snapshots : ℕ → Exec P Unit
  record_pnl_snapshots now = do online ← query (P.find is_online_instance); snapshots now online

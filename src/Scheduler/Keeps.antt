-- ===== src/Scheduler/Keeps.antt =====
-- The heartbeat and the snapshot job keep what is stable.
use run_bot_backend.Prelude.{ℕ, String, refl, List, [], ◌∷◌}
use run_bot_backend.Platform.{Platform}
use run_bot_backend.Platform.Exec.{change}
use run_bot_backend.Platform.Keeps.{Facts, Keeps, IsStable, keeps_rules, Keeps-bind, Keeps-update}
use run_bot_backend.Gateway.Keeps.{get_cached_state-Keeps}
use run_bot_backend.Service.Keeps.{service_rules, log_reason-Keeps}
use run_bot_backend.Data.{EaInstance}
use run_bot_backend.Gateway.{by_agent}
use run_bot_backend.Gateway.Connection.{set_offline}
use run_bot_backend.Service.History.Keeps.{record_pnl_point-Keeps}
use run_bot_backend.Scheduler.{
  mark_offline, check_instance, check_instances, check_heartbeat, snapshot_one, snapshots,
  record_pnl_snapshots,
}

module _ {P : Platform} {J : Facts P} {T : ℕ} (stable : IsStable P T J) where
  offline-Keeps : (a : String) → Keeps P J (change (P.update_one (by_agent a) set_offline))
  offline-Keeps a = Keeps-update stable (by_agent a) set_offline (λ i. (refl, refl))

  mark_offline-Keeps : (now : ℕ) (a : String) → Keeps P J (mark_offline now a)
  unfolding mark_offline
  mark_offline-Keeps now a = search (service_rules, offline-Keeps, log_reason-Keeps stable) depth 12

  check_instance-Keeps : (a : String) → Keeps P J (check_instance T a)
  unfolding check_instance
  check_instance-Keeps a =
      search (service_rules, get_cached_state-Keeps stable, mark_offline-Keeps) depth 12

  check_instances-Keeps : (xs : List EaInstance) → Keeps P J (check_instances T xs)
  unfolding check_instances
  check_instances-Keeps [] = search keeps_rules
  check_instances-Keeps (i ∷ rest) =
      Keeps-bind (check_instance-Keeps i.agent_id) (λ _. check_instances-Keeps rest)

  pub check_heartbeat-Keeps : Keeps P J (check_heartbeat T)
  unfolding check_heartbeat
  check_heartbeat-Keeps = search (keeps_rules, check_instances-Keeps)

  snapshot_one-Keeps : (a : String) → Keeps P J (snapshot_one T a)
  unfolding snapshot_one
  snapshot_one-Keeps a = search (keeps_rules, record_pnl_point-Keeps stable)

  snapshots-Keeps : (xs : List EaInstance) → Keeps P J (snapshots T xs)
  unfolding snapshots
  snapshots-Keeps [] = search keeps_rules
  snapshots-Keeps (i ∷ rest) =
      Keeps-bind (snapshot_one-Keeps i.agent_id) (λ _. snapshots-Keeps rest)

  pub record_pnl_snapshots-Keeps : Keeps P J (record_pnl_snapshots T)
  unfolding record_pnl_snapshots
  record_pnl_snapshots-Keeps = search (keeps_rules, snapshots-Keeps)

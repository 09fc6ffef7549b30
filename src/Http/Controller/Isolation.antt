-- ===== src/Http/Controller/Isolation.antt =====
-- A request leaves the EAs of other users alone.
use run_bot_backend.Prelude.{ℕ, String, ◌≡◌, refl, Option, false, List, any, select}
use run_bot_backend.Data.{EaInstance, EaAuditLog, Effect}
use run_bot_backend.Platform.{Platform, Laws}
use run_bot_backend.Platform.Exec.{World, Result, ok, err, continue}
use run_bot_backend.Platform.Keeps.{
  Facts, Keeps, keeps_rules, Keeps-raise, Keeps-bind, Keeps-pure, Keeps-if,
}
use run_bot_backend.Gateway.{by_agent}
use run_bot_backend.Token.{SafetyScoreUser, can_activate}
use run_bot_backend.Token.Keeps.{can_activate-Keeps}
use run_bot_backend.Service.Bulk.{by_user}
use run_bot_backend.Service.Isolation.{entry_about, in_rooms_of, Spared}
use run_bot_backend.Service.Commands.Isolation.{
  send_kill_switch-Spared, send_kill_reset-Spared, send_master_enable-Spared, send_close_buy-Spared,
  send_close_sell-Spared,
}
use run_bot_backend.Service.Bulk.Isolation.{stop_account-Spared, kill_all-Spared}
use run_bot_backend.Service.Settings.Isolation.{push_settings-Spared}
use run_bot_backend.Service.Settings.Keeps.{get_current_settings-Keeps}
use run_bot_backend.Service.Instances.Isolation.{get_latest_state-Spared, hide_instance-Spared}
use run_bot_backend.Service.Instances.Keeps.{get_all_instances-Keeps}
use run_bot_backend.Service.Daily.Keeps.{get_pnl_daily_summary-Keeps}
use run_bot_backend.Service.History.Keeps.{get_audit_log-Keeps, get_pnl_history-Keeps}
use run_bot_backend.Http.Controller.Keeps.{state_reply-Keeps}
use run_bot_backend.Http.Controller.{
  Route, list_instances, get_state, audit, pnl, pnl_daily, kill_switch, kill_reset, master_enable,
  close_buy, close_sell, settings, current_settings, remove_instance, stop_all, kill_everything,
  bulk, handle, request,
}

module _ {P : Platform} (laws : Laws P) (a : String) (docs : List EaInstance)
    (logs : List EaAuditLog) (told : List Effect) (now : ℕ) where
  abbrev J : Facts P
  J = Spared P a docs logs told

  handle-Spared :
      (v : String) → any (by_user v) docs ≡ false → (route : Route) → Keeps P J (handle now route v)
  unfolding handle
  handle-Spared v others list_instances = search (keeps_rules, get_all_instances-Keeps)
  handle-Spared v others (get_state b) =
      search
        (keeps_rules, get_latest_state-Spared laws a v docs logs told others, state_reply-Keeps)
  handle-Spared v others (audit b limit) = search (keeps_rules, get_audit_log-Keeps)
  handle-Spared v others (pnl b limit) = search (keeps_rules, get_pnl_history-Keeps)
  handle-Spared v others (pnl_daily b start end) = search (keeps_rules, get_pnl_daily_summary-Keeps)
  handle-Spared v others (kill_switch b confirm) =
      search (keeps_rules, send_kill_switch-Spared laws a v docs logs told others) depth 9
  handle-Spared v others (kill_reset b) =
      search (keeps_rules, send_kill_reset-Spared laws a v docs logs told others)
  handle-Spared v others (master_enable b enabled) =
      search (keeps_rules, send_master_enable-Spared laws a v docs logs told others)
  handle-Spared v others (close_buy b) =
      search (keeps_rules, send_close_buy-Spared laws a v docs logs told others)
  handle-Spared v others (close_sell b) =
      search (keeps_rules, send_close_sell-Spared laws a v docs logs told others)
  handle-Spared v others (settings b changes) =
      search (keeps_rules, push_settings-Spared laws a v docs logs told others)
  handle-Spared v others (current_settings b) = search (keeps_rules, get_current_settings-Keeps)
  handle-Spared v others (remove_instance b) =
      search (keeps_rules, hide_instance-Spared laws a v docs logs told others)
  handle-Spared v others (stop_all account) =
      search (keeps_rules, stop_account-Spared laws a v docs logs told others)
  handle-Spared v others (kill_everything confirm) =
      Keeps-if confirm _ _
        (Keeps-bind (kill_all-Spared laws a v docs logs told others)
          (λ summary. Keeps-pure (bulk summary)))
        (Keeps-raise _)

  -- Behind the guard.
  guarded-Spared :
      (r : Result SafetyScoreUser) (route : Route)
      → ((user : SafetyScoreUser) → r ≡ ok user → any (by_user user.user_id) docs ≡ false)
      → Keeps P J (continue r (λ user. handle now route user.user_id))
  guarded-Spared (ok user) route others = handle-Spared user.user_id (others user refl) route
  guarded-Spared (err e) route others = Keeps-raise e

-- Whatever a request does, by any route, of an agent none of whose instances belongs to the user whose
-- token it carries, if it carries one, it changes no instance and adds no audit entry, and it sends
-- nothing to the rooms of the agent's bridge and of its listeners.
pub request-isolated :
    {P : Platform} (laws : Laws P) (now : ℕ) (header : Option String) (route : Route) (a : String)
    (w : World P)
    → ((user : SafetyScoreUser)
        → (can_activate now header w).0 ≡ ok user
        → any (by_user user.user_id) (select (by_agent a) (P.instances w.db)) ≡ false)
    → (select (by_agent a) (P.instances (request now header route w).1.db)
        ≡ select (by_agent a) (P.instances w.db))
      × (select (entry_about a) (P.audit_logs (request now header route w).1.db)
          ≡ select (entry_about a) (P.audit_logs w.db))
      × (select (in_rooms_of a) (request now header route w).1.trace
          ≡ select (in_rooms_of a) w.trace)
unfolding request
request-isolated {P} laws now header route a w others =
    let docs = select (by_agent a) (P.instances w.db) in
    let logs = select (entry_about a) (P.audit_logs w.db) in
    let told = select (in_rooms_of a) w.trace in
    let act = can_activate now header w in
    let J : Facts P = Spared P a docs logs told in
    (guarded-Spared laws a docs logs told now act.0 route others).at act.1
      ((can_activate-Keeps {J = J} now header).at w (refl, refl, refl))

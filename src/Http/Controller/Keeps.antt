-- ===== src/Http/Controller/Keeps.antt =====
-- Every route keeps what is stable.
use run_bot_backend.Prelude.{ℕ, String, Option, none, some}
use run_bot_backend.Platform.{Platform}
use run_bot_backend.Platform.Keeps.{Facts, Keeps, IsStable, keeps_rules}
use run_bot_backend.Json.{Json}
use run_bot_backend.Token.Keeps.{can_activate-Keeps}
use run_bot_backend.Service.Commands.Keeps.{
  send_kill_switch-Keeps, send_kill_reset-Keeps, send_master_enable-Keeps, send_close_buy-Keeps,
  send_close_sell-Keeps,
}
use run_bot_backend.Service.Bulk.Keeps.{stop_account-Keeps, kill_all-Keeps}
use run_bot_backend.Service.Settings.Keeps.{push_settings-Keeps, get_current_settings-Keeps}
use run_bot_backend.Service.Instances.Keeps.{
  get_latest_state-Keeps, get_all_instances-Keeps, hide_instance-Keeps,
}
use run_bot_backend.Service.Daily.Keeps.{get_pnl_daily_summary-Keeps}
use run_bot_backend.Service.History.Keeps.{get_audit_log-Keeps, get_pnl_history-Keeps}
use run_bot_backend.Http.Controller.{
  Route, list_instances, get_state, audit, pnl, pnl_daily, kill_switch, kill_reset, master_enable,
  close_buy, close_sell, settings, current_settings, remove_instance, stop_all, kill_everything,
  state_reply, handle, request,
}

module _ {P : Platform} {J : Facts P} where
  pub state_reply-Keeps : (a : String) (o : Option Json) → Keeps P J (state_reply {P = P} a o)
  unfolding state_reply
  state_reply-Keeps a none = search keeps_rules
  state_reply-Keeps a (some v) = search keeps_rules

module _ {P : Platform} {J : Facts P} {T : ℕ} (stable : IsStable P T J) where
  pub handle-Keeps : (route : Route) (user : String) → Keeps P J (handle T route user)
  unfolding handle
  handle-Keeps list_instances u = search (keeps_rules, get_all_instances-Keeps)
  handle-Keeps (get_state a) u =
      search (keeps_rules, get_latest_state-Keeps stable, state_reply-Keeps)
  handle-Keeps (audit a limit) u = search (keeps_rules, get_audit_log-Keeps)
  handle-Keeps (pnl a limit) u = search (keeps_rules, get_pnl_history-Keeps)
  handle-Keeps (pnl_daily a start end) u = search (keeps_rules, get_pnl_daily_summary-Keeps)
  handle-Keeps (kill_switch a confirm) u =
      search (keeps_rules, send_kill_switch-Keeps stable) depth 9
  handle-Keeps (kill_reset a) u = search (keeps_rules, send_kill_reset-Keeps stable)
  handle-Keeps (master_enable a enabled) u = search (keeps_rules, send_master_enable-Keeps stable)
  handle-Keeps (close_buy a) u = search (keeps_rules, send_close_buy-Keeps stable)
  handle-Keeps (close_sell a) u = search (keeps_rules, send_close_sell-Keeps stable)
  handle-Keeps (settings a changes) u = search (keeps_rules, push_settings-Keeps stable)
  handle-Keeps (current_settings a) u = search (keeps_rules, get_current_settings-Keeps)
  handle-Keeps (remove_instance a) u = search (keeps_rules, hide_instance-Keeps stable)
  handle-Keeps (stop_all account) u = search (keeps_rules, stop_account-Keeps stable)
  handle-Keeps (kill_everything confirm) u = search (keeps_rules, kill_all-Keeps stable) depth 9

  pub request-Keeps : (header : Option String) (route : Route) → Keeps P J (request T header route)
  unfolding request
  request-Keeps header route = search (keeps_rules, can_activate-Keeps, handle-Keeps)

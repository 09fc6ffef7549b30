-- ===== src/Http/Controller.antt =====
-- src/console/console.controller.ts behind its guard: each route, with the header that authenticates
-- it. The parameters' pipes and the throttler stand before these.
pub mod Isolation
pub mod Keeps
pub mod Laws
use Prim.Native.String.{◌++◌}
use run_bot_backend.Prelude.{
  ℕ, ℤ, pos, String, Option, none, some, Bool, true, false, List, if◌then◌else◌,
}
use run_bot_backend.Json.{Json, Fields, truthy_json}
use run_bot_backend.Data.{EaAuditLog, EaPnlPoint, DailySummary}
use run_bot_backend.Platform.{Platform}
use run_bot_backend.Platform.Exec.{World, Exec, bad_request, pure, raise, ◌>>=◌}
use run_bot_backend.Token.{SafetyScoreUser, can_activate}
use run_bot_backend.Service.Commands.{
  send_kill_switch, send_kill_reset, send_master_enable, send_close_buy, send_close_sell,
}
use run_bot_backend.Service.Bulk.{BulkCommandSummary, stop_account, kill_all}
use run_bot_backend.Service.Settings.{push_settings, get_current_settings}
use run_bot_backend.Service.Instances.{
  InstanceListItem, get_all_instances, get_latest_state, hide_instance,
}
use run_bot_backend.Service.Daily.{get_pnl_daily_summary}
use run_bot_backend.Service.History.{get_audit_log, get_pnl_history}

-- A request, by route, with its parameters and its body.
pub data Route : Type 0 where
  list_instances : Route
  get_state kill_reset close_buy close_sell current_settings remove_instance : String → Route
  audit pnl : String → Option ℤ → Route
  pnl_daily : String → Option String → Option String → Route
  kill_switch master_enable : String → Bool → Route
  settings : String → Fields → Route
  stop_all : String → Route
  kill_everything : Bool → Route

-- The body of an answer.
pub data Reply : Type 0 where
  instances : List InstanceListItem → Reply
  state : Json → Reply
  entries : List EaAuditLog → Reply
  points : List EaPnlPoint → Reply
  daily : List DailySummary → Reply
  command_id : String → Reply
  settings_of : Option Fields → Reply
  hidden : String → Reply
  bulk : BulkCommandSummary → Reply

-- `DefaultValuePipe`
abbrev or_default : Option ℤ → ℕ → ℤ
or_default none n = pos n
or_default (some z) n = z

module _ {P : Platform} where
  pub state_reply : String → Option Json → Exec P Reply
  state_reply agent_id none = raise (bad_request ("No telemetry cached for " ++ agent_id))
  state_reply agent_id (some v) =
      if truthy_json (some v)
      then pure (state v)
      else raise (bad_request ("No telemetry cached for " ++ agent_id))

  -- The controller's methods, for the user that the guard attached.
  pub handle : ℕ → Route → String → Exec P Reply
  unfolding state_reply
  handle now list_instances user_id = do items ← get_all_instances user_id; pure (instances items)
  handle now (get_state agent_id) user_id = do
    found ← get_latest_state now agent_id user_id
    state_reply agent_id found
  handle now (audit agent_id limit) user_id = do
    logs ← get_audit_log agent_id user_id (or_default limit 50)
    pure (entries logs)
  handle now (pnl agent_id limit) user_id = do
    rows ← get_pnl_history agent_id user_id (or_default limit 500)
    pure (points rows)
  handle now (pnl_daily agent_id start end) user_id = do
    rows ← get_pnl_daily_summary agent_id user_id start end
    pure (daily rows)
  handle now (kill_switch agent_id confirm) user_id =
      if confirm
      then (do id ← send_kill_switch agent_id user_id; pure (command_id id))
      else raise (bad_request "confirm must be true to execute kill switch")
  handle now (kill_reset agent_id) user_id = do
    id ← send_kill_reset agent_id user_id
    pure (command_id id)
  handle now (master_enable agent_id enabled) user_id = do
    id ← send_master_enable agent_id enabled user_id
    pure (command_id id)
  handle now (close_buy agent_id) user_id = do
    id ← send_close_buy agent_id user_id
    pure (command_id id)
  handle now (close_sell agent_id) user_id = do
    id ← send_close_sell agent_id user_id
    pure (command_id id)
  handle now (settings agent_id changes) user_id = do
    id ← push_settings agent_id changes user_id
    pure (command_id id)
  handle now (current_settings agent_id) user_id = do
    found ← get_current_settings agent_id user_id
    pure (settings_of found)
  handle now (remove_instance agent_id) user_id = do
    id ← hide_instance now agent_id user_id
    pure (hidden id)
  handle now (stop_all account_login) user_id = do
    summary ← stop_account account_login user_id
    pure (bulk summary)
  handle now (kill_everything confirm) user_id =
      if confirm
      then (do summary ← kill_all user_id; pure (bulk summary))
      else raise (bad_request "confirm must be true to execute kill-all")

  unfoldable pub request : ℕ → Option String → Route → Exec P Reply
  request now header route = do user ← can_activate now header; handle now route user.user_id

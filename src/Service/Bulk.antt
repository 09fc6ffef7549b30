-- ===== src/Service/Bulk.antt =====
-- The bulk commands: one verb to every EA of a list, with a result for each.
pub mod Isolation
pub mod Keeps
pub mod Laws
use run_bot_backend.Prelude.{
  ℕ, String, Option, none, some, Bool, true, false, ◌&&◌, List, [], ◌∷◌, ◌==◌, is_text,
  if◌then◌else◌, length, select,
}
use run_bot_backend.Data.{EaInstance, AuditEvent, AuditPayload}
use run_bot_backend.Platform.{Platform}
use run_bot_backend.Platform.Exec.{World, Exec, pure, skip, query, ◌>>=◌, ◌>>◌, try_catch}
use run_bot_backend.Gateway.{send_command_to_bridge}
use run_bot_backend.Service.{uuid_v4, log_event}

pub record BulkCommandResult : Type 0 where
  pub agent_id : String
  pub ok : Bool
  pub command_id : Option String
  pub error : Option String

pub record BulkCommandSummary : Type 0 where
  pub total : ℕ
  pub sent : ℕ
  pub results : List BulkCommandResult

-- The fields of an instance that a fan-out reads: its agent and whether it is online.
abbrev pub offline_result : String → BulkCommandResult
offline_result agent_id = record {
  agent_id = agent_id;
  ok = false;
  command_id = none;
  error = some "offline";
}

abbrev pub sent_result : String → String → BulkCommandResult
sent_result agent_id command_id = record {
  agent_id = agent_id;
  ok = true;
  command_id = some command_id;
  error = none;
}

abbrev pub summary : List EaInstance → List BulkCommandResult → BulkCommandSummary
summary instances results = record {
  total = length instances;
  sent = length (select (λ r. r.ok) results);
  results = results;
}

-- `{ userId, accountLogin }`
abbrev pub by_account : String → String → EaInstance → Bool
by_account account_login user_id i = is_text i.user_id user_id && i.account_login == account_login

-- `{ userId }`
abbrev pub by_user : String → EaInstance → Bool
by_user user_id i = is_text i.user_id user_id

module _ {P : Platform} where
  -- A failed audit write is logged and passed over: the command is out already.
  dispatch_one :
      EaInstance → String → Option String → AuditEvent → String → Exec P BulkCommandResult
  unfolding uuid_v4 send_command_to_bridge log_event
  dispatch_one inst verb value event user_id = do
    command_id ← uuid_v4
    send_command_to_bridge inst.agent_id command_id verb value
    try_catch (log_event inst.agent_id event (AuditPayload.bulk command_id) (some user_id)) skip
    pure (sent_result inst.agent_id command_id)

  fan_out_one : EaInstance → String → Option String → AuditEvent → String → Exec P BulkCommandResult
  unfolding dispatch_one
  fan_out_one inst verb value event user_id =
      if inst.online
      then dispatch_one inst verb value event user_id
      else pure (offline_result inst.agent_id)

  -- The loop of `fanOutCommand`.
  pub fan_out_results :
      List EaInstance
      → String
      → Option String
      → AuditEvent
      → String
      → Exec P (List BulkCommandResult)
  fan_out_results [] verb value event user_id = pure []
  fan_out_results (inst ∷ rest) verb value event user_id = do
    result ← fan_out_one inst verb value event user_id
    results ← fan_out_results rest verb value event user_id
    pure (result ∷ results)

  pub fan_out_command :
      List EaInstance → String → Option String → AuditEvent → String → Exec P BulkCommandSummary
  fan_out_command instances verb value event user_id = do
    results ← fan_out_results instances verb value event user_id
    pure (summary instances results)

  pub stop_account : String → String → Exec P BulkCommandSummary
  stop_account account_login user_id = do
    instances ← query (P.find (by_account account_login user_id))
    fan_out_command instances "MASTER_ENABLE" (some "0") AuditEvent.master_enable user_id

  pub kill_all : String → Exec P BulkCommandSummary
  kill_all user_id = do
    instances ← query (P.find (by_user user_id))
    fan_out_command instances "KILL_SWITCH" none AuditEvent.kill_switch user_id

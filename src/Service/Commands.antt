-- ===== src/Service/Commands.antt =====
-- The commands to one EA. Each gives back the command's id.
pub mod Isolation
pub mod Keeps
pub mod Laws
pub mod Online
use run_bot_backend.Prelude.{String, none, some, Bool, if◌then◌else◌}
use run_bot_backend.Data.{AuditEvent, AuditPayload}
use run_bot_backend.Platform.{Platform}
use run_bot_backend.Platform.Exec.{World, Exec, pure, ◌>>=◌, ◌>>◌}
use run_bot_backend.Gateway.{send_command_to_bridge}
use run_bot_backend.Service.{uuid_v4, require_ownership, require_online, log_event}

module _ {P : Platform} where
  unfoldable pub send_kill_switch : String → String → Exec P String
  unfolding require_ownership require_online uuid_v4 send_command_to_bridge log_event
  send_kill_switch agent_id user_id = do
    require_ownership agent_id user_id
    require_online agent_id
    command_id ← uuid_v4
    send_command_to_bridge agent_id command_id "KILL_SWITCH" none
    log_event agent_id AuditEvent.kill_switch (AuditPayload.command command_id) (some user_id)
    pure command_id

  unfoldable pub send_kill_reset : String → String → Exec P String
  unfolding require_ownership require_online uuid_v4 send_command_to_bridge log_event
  send_kill_reset agent_id user_id = do
    require_ownership agent_id user_id
    require_online agent_id
    command_id ← uuid_v4
    send_command_to_bridge agent_id command_id "KILL_RESET" none
    log_event agent_id AuditEvent.kill_reset (AuditPayload.command command_id) (some user_id)
    pure command_id

  unfoldable pub send_master_enable : String → Bool → String → Exec P String
  unfolding require_ownership require_online uuid_v4 send_command_to_bridge log_event
  send_master_enable agent_id enabled user_id = do
    require_ownership agent_id user_id
    require_online agent_id
    command_id ← uuid_v4
    send_command_to_bridge agent_id command_id "MASTER_ENABLE" (some (if enabled then "1" else "0"))
    log_event agent_id AuditEvent.master_enable (AuditPayload.enabling command_id enabled)
        (some user_id)
    pure command_id

  unfoldable pub send_close_buy : String → String → Exec P String
  unfolding require_ownership require_online uuid_v4 send_command_to_bridge log_event
  send_close_buy agent_id user_id = do
    require_ownership agent_id user_id
    require_online agent_id
    command_id ← uuid_v4
    send_command_to_bridge agent_id command_id "CLOSE_BUY" none
    log_event agent_id AuditEvent.close_buy (AuditPayload.command command_id) (some user_id)
    pure command_id

  unfoldable pub send_close_sell : String → String → Exec P String
  unfolding require_ownership require_online uuid_v4 send_command_to_bridge log_event
  send_close_sell agent_id user_id = do
    require_ownership agent_id user_id
    require_online agent_id
    command_id ← uuid_v4
    send_command_to_bridge agent_id command_id "CLOSE_SELL" none
    log_event agent_id AuditEvent.close_sell (AuditPayload.command command_id) (some user_id)
    pure command_id

-- ===== src/Service.antt =====
-- src/console/console.service.ts: the checks that its methods share, and the audit write. Commands,
-- the bulk commands, settings and the histories stand in child modules.
pub mod Access
pub mod Keeps
pub mod Isolation
pub mod Commands
pub mod Bulk
pub mod Settings
pub mod Instances
pub mod History
pub mod Daily
use Prim.Native.String.{◌++◌}
use run_bot_backend.Prelude.{
  ℕ, suc, String, Option, none, some, Bool, true, false, is_text, if◌then◌else◌,
}
use run_bot_backend.Data.{EaInstance, EaAuditLog, AuditEvent, AuditPayload}
use run_bot_backend.Platform.{Platform}
use run_bot_backend.Platform.Exec.{
  World, Exec, ok, not_found, forbidden, raise, query, change, skip, ◌>>=◌, ◌>>◌,
}
use run_bot_backend.Gateway.{by_agent}

abbrev pub no_instance : String → String
no_instance agent_id = "EA instance " ++ agent_id ++ " not found"

abbrev pub instance_offline : String → String
instance_offline agent_id = "EA instance " ++ agent_id ++ " is offline"

abbrev pub access_denied : String → String
access_denied agent_id = "Access denied to instance " ++ agent_id

module _ {P : Platform} where
  -- The next `uuidv4()`.
  unfoldable pub uuid_v4 : Exec P String
  uuid_v4 w = (ok (P.uuid w.uuids), record w { uuids = suc w.uuids })

  check_owner : String → String → Option EaInstance → Exec P Unit
  check_owner agent_id user_id none = raise (not_found (no_instance agent_id))
  check_owner agent_id user_id (some i) =
      if is_text i.user_id user_id then skip else raise (forbidden (access_denied agent_id))

  unfoldable pub require_ownership : String → String → Exec P Unit
  unfolding check_owner
  require_ownership agent_id user_id = do
    found ← query (P.find_one (by_agent agent_id))
    check_owner agent_id user_id found

  check_online : String → Option EaInstance → Exec P Unit
  check_online agent_id none = raise (not_found (no_instance agent_id))
  check_online agent_id (some i) =
      if i.online then skip else raise (not_found (instance_offline agent_id))

  unfoldable pub require_online : String → Exec P Unit
  unfolding check_online
  require_online agent_id = do
    found ← query (P.find_one (by_agent agent_id))
    check_online agent_id found

  unfoldable pub log_event : String → AuditEvent → AuditPayload → Option String → Exec P Unit
  log_event agent_id event payload user_id = change (
      P.create_audit_log
        (record { agent_id = agent_id; event = event; payload = payload; user_id = user_id }))

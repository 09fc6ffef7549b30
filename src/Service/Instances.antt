-- ===== src/Service/Instances.antt =====
-- The instances as a user sees them: the list, the state, and hiding.
pub mod Isolation
pub mod Keeps
pub mod Laws
pub mod Race
use run_bot_backend.Prelude.{
  ℕ, String, Option, none, some, Bool, true, false, not, ◌&&◌, List, [], ◌∷◌, map, ◌==◌, is_text,
  if◌then◌else◌,
}
use run_bot_backend.Json.{Json}
use run_bot_backend.Data.{EaInstance, AuditEvent, AuditPayload}
use run_bot_backend.Platform.{Platform}
use run_bot_backend.Platform.Exec.{
  World, Exec, not_found, conflict, pure, raise, query, change, skip, ◌>>=◌, ◌>>◌,
}
use run_bot_backend.Gateway.{by_agent, get_cached_state}
use run_bot_backend.Service.{no_instance, require_ownership, log_event}

pub record InstanceListItem : Type 0 where
  pub agent_id : String
  pub account_login : String
  pub symbol : String
  pub online : Bool
  pub last_seen_at : Option ℕ
  pub last_seen_ts : Option ℕ

abbrev pub list_item : EaInstance → InstanceListItem
list_item i = record {
  agent_id = i.agent_id;
  account_login = i.account_login;
  symbol = i.symbol;
  online = i.online;
  last_seen_at = i.last_seen_at;
  last_seen_ts = i.last_seen_at;
}

abbrev pub is_null {ℓ} : {A : Type ℓ} → Option A → Bool
is_null none = true
is_null (some a) = false

-- `{ userId, hiddenAt: null }`
abbrev pub visible_to : String → EaInstance → Bool
visible_to user_id i = is_text i.user_id user_id && is_null i.hidden_at

-- `{ agentId, userId, online: false }`
abbrev pub idle_of : String → String → EaInstance → Bool
idle_of agent_id user_id i = i.agent_id == agent_id && is_text i.user_id user_id && not i.online

abbrev pub hide : ℕ → EaInstance → EaInstance
hide now i = record i { hidden_at = some now }

abbrev pub is_online : Option EaInstance → Bool
is_online none = false
is_online (some i) = i.online

pub record InstanceStatus : Type 0 where
  pub online : Bool
  pub last_seen_at : Option ℕ

module _ (P : Platform) where
  parsed_state : Option String → Option Json
  parsed_state none = none
  parsed_state (some raw) = if raw == "" then none else P.parse raw

module _ {P : Platform} where
  unfoldable pub get_latest_state : ℕ → String → String → Exec P (Option Json)
  unfolding require_ownership get_cached_state parsed_state
  get_latest_state now agent_id user_id = do
    require_ownership agent_id user_id
    raw ← get_cached_state now agent_id
    pure (parsed_state P raw)

  unfoldable pub get_all_instances : String → Exec P (List InstanceListItem)
  get_all_instances user_id = do
    instances ← query (P.find (visible_to user_id))
    pure (map list_item instances)

  pub hide_offline : ℕ → String → String → Option EaInstance → Exec P Unit
  unfolding log_event
  hide_offline now agent_id user_id found =
      if is_online found
      then raise (conflict "EA instance is online; stop it before removing")
      else (do
        change (P.update_one (idle_of agent_id user_id) (hide now))
        log_event agent_id AuditEvent.instance_hidden AuditPayload.nothing (some user_id))

  -- The answer, `{ agentId, hidden: true }`, is the agent's id.
  unfoldable pub hide_instance : ℕ → String → String → Exec P String
  unfolding require_ownership hide_offline
  hide_instance now agent_id user_id = do
    require_ownership agent_id user_id
    found ← query (P.find_one (by_agent agent_id))
    hide_offline now agent_id user_id found
    pure agent_id

  status_of : String → Option EaInstance → Exec P InstanceStatus
  status_of agent_id none = raise (not_found (no_instance agent_id))
  status_of agent_id (some i) = pure (record { online = i.online; last_seen_at = i.last_seen_at })

  unfoldable pub get_instance_status : String → Exec P InstanceStatus
  unfolding status_of
  get_instance_status agent_id = do
    found ← query (P.find_one (by_agent agent_id))
    status_of agent_id found

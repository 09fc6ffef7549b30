-- ===== src/Data.antt =====
-- The documents of src/console/schemas, the data of src/console/dto, and what the program sends.
-- Dates and `Date.now()` are milliseconds; `null` is `none`.
use run_bot_backend.Prelude.{ℕ, ℤ, String, Option, none, some, Bool, true, false, not, ◌&&◌, List}
use run_bot_backend.Json.{Json, null, num, Fields, Coerced, throws, not_a_number, finite}

pub record EaInstance : Type 0 where
  pub agent_id : String
  pub license_key : String
  pub account_login : String
  pub symbol : String
  pub online : Bool
  pub last_seen_at : Option ℕ
  pub last_telemetry : Option Json
  pub current_settings : Option Fields
  pub user_id : Option String
  pub hidden_at : Option ℕ

-- The schema's defaults, for a document that an upsert creates; a required text has none, and every
-- upsert of the program sets it.
abbrev pub new_instance : String → EaInstance
new_instance agent_id = record {
  agent_id = agent_id;
  license_key = "";
  account_login = "";
  symbol = "";
  online = false;
  last_seen_at = none;
  last_telemetry = none;
  current_settings = none;
  user_id = none;
  hidden_at = none;
}

pub data AuditEvent : Type 0 where
  kill_switch kill_reset master_enable close_buy close_sell settings_change : AuditEvent
  bridge_connect bridge_disconnect alert_sent instance_hidden : AuditEvent

-- The payloads that the program writes with an audit event.
pub data AuditPayload : Type 0 where
  nothing : AuditPayload
  command : String → AuditPayload
  enabling : String → Bool → AuditPayload
  bulk : String → AuditPayload
  settings_keys : String → List String → AuditPayload
  reason : String → AuditPayload

pub record EaAuditLog : Type 0 where
  pub agent_id : String
  pub event : AuditEvent
  pub payload : AuditPayload
  pub user_id : Option String

-- Prices are JSON values, which the program copies, and the time is what the product gave.
pub record EaPnlPoint : Type 0 where
  pub agent_id : String
  pub ts : Coerced
  pub equity : Option Json
  pub balance : Option Json
  pub total_pnl : Json
  pub daily_pnl : Json

abbrev pub is_missing : Option Json → Bool
is_missing none = true
is_missing (some null) = true
is_missing (some v) = false

abbrev pub is_finite : Coerced → Bool
is_finite (finite n) = true
is_finite _ = false

-- mongoose takes the infinities for numbers, and refuses NaN.
abbrev pub is_timed : Coerced → Bool
is_timed throws = false
is_timed not_a_number = false
is_timed _ = true

abbrev pub is_plain : Option Json → Bool
is_plain (some (num n)) = true
is_plain _ = false

-- Every field is a number: nothing is left to convert.
abbrev pub is_complete : EaPnlPoint → Bool
is_complete e =
    is_finite e.ts
    && is_plain e.equity
    && is_plain e.balance
    && is_plain (some e.total_pnl)
    && is_plain (some e.daily_pnl)

-- The fields that the schema requires are there, and the time is a number.
abbrev pub has_required : EaPnlPoint → Bool
has_required e =
    is_timed e.ts
    && not (is_missing e.equity)
    && not (is_missing e.balance)
    && not (is_missing (some e.total_pnl))
    && not (is_missing (some e.daily_pnl))

-- A row of the daily summary.
pub record DailySummary : Type 0 where
  pub date : String
  pub daily_pnl : Json
  pub balance : Option Json
  pub equity : Option Json

-- The stages of an aggregation over the points. The times of a match are `{}` where both bounds are
-- missing and the condition is there.
pub data Stage : Type 0 where
  match_points : String → Option (Option ℤ × Option ℤ) → Stage
  sort_ascending : String → Stage
  -- by `{ $dateToString: { format, date: { $toDate: field } } }`, with `$last` of each of the fields
  group_by_date : String → String → List String → Stage
  -- `_id` under another name, and the fields
  project : String → List String → Stage

-- An event that a room or a client receives, with its payload.
pub data Event : Type 0 where
  status : String → Bool → Option ℕ → Event
  telemetry : Json → Event
  ack : String → Event
  bridge_command : String → String → Option String → Event
  hydrate : Json → Event
  error : String → Event
  auth_expired : Event

-- What the program asks of socket.io.
pub data Effect : Type 0 where
  emit_room : String → Event → Effect
  emit_client : String → Event → Effect
  disconnect : String → Effect
  join : String → String → Effect
  leave : String → String → Effect

-- `client.data`: `{}` until the token is verified.
pub record SocketData : Type 0 where
  pub user_id : Option String
  pub is_bridge : Bool
  pub agent_id : Option String
  pub license_key : Option String
  pub account_login : Option String
  pub symbol : Option String
  pub token_expires_at : Option ℕ
  pub expiry_notified : Bool

pub record Socket : Type 0 where
  pub id : String
  pub state : SocketData

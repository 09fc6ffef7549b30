-- ===== src/Service/History.antt =====
-- The audit log and the PnL points: what is recorded, and what a user reads back.
pub mod Keeps
pub mod Laws
pub mod Points
use run_bot_backend.Prelude.{
  ℕ, ℤ, pos, thousand, min_ℤ, String, Option, none, some, Bool, true, false, List, reverse, ◌==◌,
  if◌then◌else◌,
}
use run_bot_backend.Json.{
  Json, null, num, Coerced, throws, not_a_number, infinity, minus_infinity, finite, truthy_json,
  number_or_zero, member,
}
use run_bot_backend.Data.{EaAuditLog, EaPnlPoint}
use run_bot_backend.Platform.{Platform}
use run_bot_backend.Platform.Exec.{World, Exec, type_error, raise, pure, query, change, ◌>>=◌, ◌>>◌}
use run_bot_backend.Gateway.{read_member, get_cached_state}
use run_bot_backend.Service.{require_ownership}

-- `typeof value === 'number'`
abbrev pub is_number : Option Json → Bool
is_number (some (num n)) = true
is_number _ = false

-- `value ?? 0`
unfoldable pub value_or_zero : Option Json → Json
value_or_zero none = num (pos 0)
value_or_zero (some null) = num (pos 0)
value_or_zero (some v) = v

-- `value?.key`
abbrev pub optional_member : String → Option Json → Option Json
optional_member key none = none
optional_member key (some v) = member key v

-- `number * 1000`
abbrev pub millis : Coerced → Coerced
millis (finite n) = finite (thousand n)
millis c = c

unfoldable pub pnl_point : (String → Coerced) → String → Json → Json → EaPnlPoint
unfolding value_or_zero
pnl_point read agent_id frame account = record {
  agent_id = agent_id;
  ts = millis (number_or_zero read (member "ts" frame));
  equity = member "equity" account;
  balance = member "balance" account;
  total_pnl = value_or_zero (optional_member "totalPnl" (member "positions" frame));
  daily_pnl = value_or_zero (member "dailyPnl" account);
}

module _ {P : Platform} where
  -- The point is built before the database is asked.
  create_timed : Coerced → EaPnlPoint → Exec P Bool
  create_timed throws point = raise type_error
  create_timed _ point = do change (P.create_pnl_point point); pure true

  create_point : String → Json → Json → Exec P Bool
  unfolding pnl_point create_timed
  create_point agent_id frame account =
      create_timed (number_or_zero P.number_of_text (member "ts" frame))
        (pnl_point P.number_of_text agent_id frame account)

  record_account : String → Json → Option Json → Exec P Bool
  unfolding create_point
  record_account agent_id frame none = pure false
  record_account agent_id frame (some account) =
      if truthy_json (some account)
      then (if is_number (member "equity" account)
          then create_point agent_id frame account
          else pure false)
      else pure false

  record_parsed : String → Option Json → Exec P Bool
  unfolding record_account read_member
  record_parsed agent_id none = pure false
  record_parsed agent_id (some frame) = do
    account ← read_member "account" frame
    record_account agent_id frame account

  record_cached : String → Option String → Exec P Bool
  unfolding record_parsed
  record_cached agent_id none = pure false
  record_cached agent_id (some raw) =
      if raw == "" then pure false else record_parsed agent_id (P.parse raw)

  unfoldable pub record_pnl_point : ℕ → String → Exec P Bool
  unfolding record_cached get_cached_state
  record_pnl_point now agent_id = do raw ← get_cached_state now agent_id; record_cached agent_id raw

  unfoldable pub get_audit_log : String → String → ℤ → Exec P (List EaAuditLog)
  get_audit_log agent_id user_id limit = do
    require_ownership agent_id user_id
    query (P.recent_audit_logs agent_id (min_ℤ limit 200))

  unfoldable pub get_pnl_history : String → String → ℤ → Exec P (List EaPnlPoint)
  get_pnl_history agent_id user_id limit = do
    require_ownership agent_id user_id
    points ← query (P.recent_pnl_points agent_id (min_ℤ limit 100_000))
    pure (reverse points)

-- ===== src/Service/History/Keeps.antt =====
-- Reading the history and recording points keep what is stable.
use run_bot_backend.Prelude.{ℕ, ℤ, String, Option, none, some}
use run_bot_backend.Platform.{Platform}
use run_bot_backend.Platform.Keeps.{Facts, Keeps, IsStable, keeps_rules, Keeps-record}
use run_bot_backend.Gateway.Keeps.{get_cached_state-Keeps}
use run_bot_backend.Service.Keeps.{service_rules}
use run_bot_backend.Json.{Json, Coerced, throws}
use run_bot_backend.Data.{EaPnlPoint}
use run_bot_backend.Service.History.{
  create_timed, create_point, record_account, record_parsed, record_cached, record_pnl_point,
  get_audit_log, get_pnl_history,
}

module _ {P : Platform} {J : Facts P} where
  pub get_audit_log-Keeps : (a u : String) (limit : ℤ) → Keeps P J (get_audit_log a u limit)
  unfolding get_audit_log
  get_audit_log-Keeps a u limit = search service_rules

  pub get_pnl_history-Keeps : (a u : String) (limit : ℤ) → Keeps P J (get_pnl_history a u limit)
  unfolding get_pnl_history
  get_pnl_history-Keeps a u limit = search service_rules

module _ {P : Platform} {J : Facts P} {T : ℕ} (stable : IsStable P T J) where
  create_timed-Keeps : (c : Coerced) (point : EaPnlPoint) → Keeps P J (create_timed {P = P} c point)
  unfolding create_timed
  create_timed-Keeps throws point = search keeps_rules
  create_timed-Keeps _ point = search (keeps_rules, Keeps-record stable)

  create_point-Keeps :
      (a : String) (frame account : Json) → Keeps P J (create_point a frame account)
  unfolding create_point
  create_point-Keeps a frame account = create_timed-Keeps _ _

  record_account-Keeps :
      (a : String) (frame : Json) (o : Option Json) → Keeps P J (record_account a frame o)
  unfolding record_account
  record_account-Keeps a frame none = search keeps_rules
  record_account-Keeps a frame (some account) = search (keeps_rules, create_point-Keeps)

  record_parsed-Keeps : (a : String) (o : Option Json) → Keeps P J (record_parsed a o)
  unfolding record_parsed
  record_parsed-Keeps a none = search keeps_rules
  record_parsed-Keeps a (some frame) = search (service_rules, record_account-Keeps)

  record_cached-Keeps : (a : String) (o : Option String) → Keeps P J (record_cached a o)
  unfolding record_cached
  record_cached-Keeps a none = search keeps_rules
  record_cached-Keeps a (some raw) = search (keeps_rules, record_parsed-Keeps)

  pub record_pnl_point-Keeps : (a : String) → Keeps P J (record_pnl_point T a)
  unfolding record_pnl_point
  record_pnl_point-Keeps a =
      search (service_rules, get_cached_state-Keeps stable, record_cached-Keeps)

-- ===== src/Service/Daily/Keeps.antt =====
-- The daily summary keeps whatever is true of the database.
use run_bot_backend.Prelude.{String, Option}
use run_bot_backend.Platform.{Platform}
use run_bot_backend.Platform.Keeps.{Facts, Keeps}
use run_bot_backend.Service.Keeps.{service_rules}
use run_bot_backend.Service.Daily.{get_pnl_daily_summary}

module _ {P : Platform} {J : Facts P} where
  pub get_pnl_daily_summary-Keeps :
      (a u : String) (start end : Option String) → Keeps P J (get_pnl_daily_summary a u start end)
  unfolding get_pnl_daily_summary
  get_pnl_daily_summary-Keeps a u start end = search service_rules

-- ===== src/Service/Daily.antt =====
-- `getPnlDailySummary`: the last point of each day, as an aggregation that the database runs.
pub mod Keeps
pub mod Laws
use Prim.Native.String.{◌++◌}
use run_bot_backend.Prelude.{
  ℤ, String, Option, none, some, Bool, true, false, ◌||◌, List, [], ◌∷◌, ◌==◌, truthy,
  if◌then◌else◌,
}
use run_bot_backend.Data.{DailySummary, Stage, match_points, sort_ascending, group_by_date, project}
use run_bot_backend.Platform.{Platform}
use run_bot_backend.Platform.Exec.{Exec, query, ◌>>=◌, ◌>>◌}
use run_bot_backend.Service.{require_ownership}

abbrev pub daily_pipeline : String → Option (Option ℤ × Option ℤ) → List Stage
daily_pipeline agent_id ts =
    match_points agent_id ts
    ∷ sort_ascending "ts"
    ∷ group_by_date "%Y-%m-%d" "ts" ("dailyPnl" ∷ "balance" ∷ "equity" ∷ [])
    ∷ sort_ascending "_id"
    ∷ project "date" ("dailyPnl" ∷ "balance" ∷ "equity" ∷ [])
    ∷ []

module _ (P : Platform) where
  -- A bound that is not given, or cannot be parsed, is left out.
  unfoldable pub time_bound : Option String → String → Option ℤ
  time_bound none time = none
  time_bound (some date) time = if date == "" then none else P.date_parse (date ++ time)

  unfoldable pub time_filter : Option String → Option String → Option (Option ℤ × Option ℤ)
  unfolding time_bound
  time_filter start end =
      if truthy start || truthy end
      then some (time_bound start "T00:00:00.000Z", time_bound end "T23:59:59.999Z")
      else none

module _ {P : Platform} where
  unfoldable pub get_pnl_daily_summary :
      String → String → Option String → Option String → Exec P (List DailySummary)
  unfolding time_filter
  get_pnl_daily_summary agent_id user_id start end = do
    require_ownership agent_id user_id
    query (P.aggregate_pnl_points (daily_pipeline agent_id (time_filter P start end)))

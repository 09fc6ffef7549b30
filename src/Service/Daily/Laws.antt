-- ===== src/Service/Daily/Laws.antt =====
-- What the daily summary asks of the database, and for whom.
use Prim.Native.String.{◌++◌}
use run_bot_backend.Prelude.{
  ℤ, le_ℤ, String, ◌≡◌, ◌≢◌, refl, sym, ◌∙◌, ap, Option, none, some, Bool, true, false, ◌&&◌, List,
  [], ◌∷◌, ne_test,
}
use run_bot_backend.Json.{Coerced, finite}
use run_bot_backend.Data.{
  EaPnlPoint, DailySummary, match_points, sort_ascending, group_by_date, project,
}
use run_bot_backend.Platform.{Platform, Laws, admits, of_time, points_at}
use run_bot_backend.Platform.Exec.{World, Exec, ok, query}
use run_bot_backend.Service.Access.{looked_at}
use run_bot_backend.Service.History.Laws.{Owns, Gate-Owns, answered}
use run_bot_backend.Service.Daily.{daily_pipeline, time_filter, get_pnl_daily_summary}

module _ {P : Platform} where
  summary_rows :
      (agent_id user_id : String) (start end : Option String) (w : World P)
      (rows : List DailySummary)
      → (get_pnl_daily_summary agent_id user_id start end w).0 ≡ ok rows
      → Owns P agent_id user_id w
        × (P.aggregate_pnl_points (daily_pipeline agent_id (time_filter P start end)) w.db
            ≡ some rows)
  unfolding get_pnl_daily_summary
  summary_rows agent_id user_id start end w rows h =
      let asked = P.aggregate_pnl_points (daily_pipeline agent_id (time_filter P start end)) in
      let rest : Exec P (List DailySummary) = query asked in
      let (owns, e) =
        Gate-Owns agent_id user_id rest w (get_pnl_daily_summary agent_id user_id start end w) rows
          (looked_at agent_id user_id rest w) h in
      (owns, answered asked w rows e)

-- A time between two bounds; where there are none, no time is.
abbrev pub is_between : Option ℤ → Option ℤ → ℤ → Bool
is_between none none t = false
is_between (some low) none t = le_ℤ low t
is_between none (some high) t = le_ℤ t high
is_between (some low) (some high) t = le_ℤ low t && le_ℤ t high

module _ (P : Platform) where
  -- The times that a first and a last day stand for.
  abbrev pub times_of : Option String → Option String → ℤ → Bool
  times_of none none t = true
  times_of (some first) none t = is_between (P.date_parse (first ++ "T00:00:00.000Z")) none t
  times_of none (some last) t = is_between none (P.date_parse (last ++ "T23:59:59.999Z")) t
  times_of (some first) (some last) t =
      is_between (P.date_parse (first ++ "T00:00:00.000Z"))
        (P.date_parse (last ++ "T23:59:59.999Z")) t

admits-is_between :
    (low high : Option ℤ) (t : ℤ) → admits (some (low, high)) t ≡ is_between low high t
admits-is_between none none t = refl
admits-is_between none (some b) t = refl
admits-is_between (some a) none t = refl
admits-is_between (some a) (some b) t = refl

filtered :
    (P : Platform) (start end : Option String)
    → start ≢ some ""
    → end ≢ some ""
    → (t : ℤ) → admits (time_filter P start end) t ≡ times_of P start end t
unfolding time_filter
filtered P none none s e t = refl
filtered P (some first) none s e t =
    rw (ne_test first "" (λ h. s (ap some h))) (admits-is_between _ none t)
filtered P none (some last) s e t =
    rw (ne_test last "" (λ h. e (ap some h))) (admits-is_between none _ t)
filtered P (some first) (some last) s e t =
    rw (ne_test first "" (λ h. s (ap some h)), ne_test last "" (λ h. e (ap some h)))
      (admits-is_between _ _ t)

of_time-eq : (f g : ℤ → Bool) → ((t : ℤ) → f t ≡ g t) → (o : Coerced) → of_time f o ≡ of_time g o
of_time-eq f g same (finite t) = same t
of_time-eq f g same _ = refl

points_at-eq :
    (a : String) (f g : ℤ → Bool)
    → ((t : ℤ) → f t ≡ g t)
    → (points : List EaPnlPoint) → points_at a f points ≡ points_at a g points
points_at-eq a f g same [] = refl
points_at-eq a f g same (p ∷ rest) =
    rw (of_time-eq f g same p.ts, points_at-eq a f g same rest) refl

module _ {P : Platform} (laws : Laws P) where
  -- A daily summary that is answered, for a first and a last day that are given or not. It is of an EA of
  -- the caller. The database was asked to match the agent's points by their times, to sort them by time,
  -- to group them by day with the last point of each, to sort the days, and to name the fields. And the
  -- points of the agent at the times that the days stand for, and at no finite time, decide the answer: all times where no day is
  -- given, no time where none of the given days is a date, and else the times from the start of the first
  -- to the end of the last, a day that is no date being no bound.
  pub get_pnl_daily_summary_lem :
      (agent_id user_id : String) (start end : Option String) (w w' : World P)
      (rows rows' : List DailySummary)
      → start ≢ some ""
      → end ≢ some ""
      → (get_pnl_daily_summary agent_id user_id start end w).0 ≡ ok rows
      → (get_pnl_daily_summary agent_id user_id start end w').0 ≡ ok rows'
      → points_at agent_id (times_of P start end) (P.pnl_points w.db)
        ≡ points_at agent_id (times_of P start end) (P.pnl_points w'.db)
      → Owns P agent_id user_id w
        × ((times : Option (Option ℤ × Option ℤ)) × (P.aggregate_pnl_points
                (match_points agent_id times
                  ∷ sort_ascending "ts"
                  ∷ group_by_date "%Y-%m-%d" "ts" ("dailyPnl" ∷ "balance" ∷ "equity" ∷ [])
                  ∷ sort_ascending "_id"
                  ∷ project "date" ("dailyPnl" ∷ "balance" ∷ "equity" ∷ [])
                  ∷ [])
                w.db
              ≡ some rows)
            × ((t : ℤ) → admits times t ≡ times_of P start end t))
        × (rows ≡ rows')
  get_pnl_daily_summary_lem agent_id user_id start end w w' rows rows' s e h h' same =
      let times = time_filter P start end in
      let alike = filtered P start end s e in
      let (owns, asked) = summary_rows agent_id user_id start end w rows h in
      let (_, asked') = summary_rows agent_id user_id start end w' rows' h' in
      (
        owns,
        (times, asked, alike),
        laws.aggregate_pnl_points-match_points agent_id times _ w.db w'.db rows rows'
            (points_at-eq agent_id (admits times) (times_of P start end) alike (P.pnl_points w.db)
              ∙ same
              ∙ sym (
                  points_at-eq agent_id (admits times) (times_of P start end) alike
                    (P.pnl_points w'.db)))
            asked asked',
      )

-- ===== src/Tests/Jobs.antt =====
-- The theorems on connections and on the heartbeat at concrete inputs.
use run_bot_backend.Prelude.{
  String, ◌≡◌, ◌⊎◌, inl, refl, ap, sym, Option, none, some, Bool, false, [], ◌∷◌, lookup, truthy,
  ◌++◌, length,
}
use run_bot_backend.Data.{EaPnlPoint, is_complete, disconnect}
use run_bot_backend.Platform.Documents.{document}
use run_bot_backend.Platform.Exec.{World, ok, err, rejected}
use run_bot_backend.Platform.Memory.{memory, memory-Laws, start, sample, bridge, stored}
use run_bot_backend.Token.{SafetyScoreUser}
use run_bot_backend.Token.Laws.{IsVerified}
use run_bot_backend.Gateway.{state_key}
use run_bot_backend.Gateway.Connection.{handle_connection}
use run_bot_backend.Gateway.Connection.Laws.{handle_connection_cases}
use run_bot_backend.Scheduler.{check_heartbeat, record_pnl_snapshots}
use run_bot_backend.Scheduler.Heartbeat.{
  AcceptsWrites, told_offline, gives_up, offline_if, check_heartbeat_lem,
}
use run_bot_backend.Cache.{get}
use run_bot_backend.Json.{member}
use run_bot_backend.Scheduler.Snapshots.{AcceptsPoints, record_pnl_snapshots_lem}
use run_bot_backend.Scheduler.Samples.{IsRegular, complete-has_required, points_of}

handle_connection_cases_example :
    (((handle_connection 9 (bridge "b") (some "good") start).0 ≡ ok (bridge "b"))
      × ((handle_connection 9 (bridge "b") (some "good") start).1.trace ≡ disconnect "b" ∷ []))
    ⊎ ((t : String) × (u : SafetyScoreUser) × (some "good" ≡ some t)
        × IsVerified memory 9 t u
        × ((handle_connection 9 (bridge "b") (some "good") start).0
            ≡ ok (record (bridge "b") {
              state = record (bridge "b").state {
                user_id = some u.user_id;
                is_bridge = truthy u.agent_id;
                agent_id = u.agent_id;
                license_key = u.license_key;
                account_login = u.account_login;
                symbol = u.symbol;
                token_expires_at = u.expires_at;
              };
            }))
        × ((handle_connection 9 (bridge "b") (some "good") start).1.trace ≡ []))
handle_connection_cases_example = handle_connection_cases 9 (bridge "b") (some "good") start

memory-AcceptsWrites : AcceptsWrites memory
memory-AcceptsWrites = record { updates = λ p f db. (_, refl); audits = λ e db. (_, refl) }

check_heartbeat_lem_example :
    (check_heartbeat 9 start ≡ (err rejected, start))
    ⊎ (((check_heartbeat 9 start).0 ≡ ok tt)
        × ((check_heartbeat 9 start).1.trace ≡ told_offline memory 9 [] (sample ∷ []) [])
        × ((b : String)
            → document memory b (check_heartbeat 9 start).1.db
              ≡ offline_if (gives_up memory 9 [] b (sample ∷ [])) (document memory b start.db)))
check_heartbeat_lem_example = check_heartbeat_lem memory-Laws memory-AcceptsWrites 9 start

memory-AcceptsPoints : AcceptsPoints memory
memory-AcceptsPoints p db complete = (_, ap (λ b. stored p b db) (complete-has_required p complete))

-- An EA with a cached frame, which has an account.
abbrev heard : World memory
heard = record start {
  telemetry_cache = (state_key "acc-EU", record { value = "frame"; expires_at = 60_001 }) ∷ [];
}

abbrev whole : Option EaPnlPoint → Bool
whole none = false
whole (some p) = is_complete p

heard-IsRegular : IsRegular memory 9 heard.telemetry_cache sample
unfolding get lookup state_key member
heard-IsRegular p e = inl (sym (ap whole e))

record_pnl_snapshots_lem_example :
    (record_pnl_snapshots 9 heard ≡ (err rejected, heard))
    ⊎ (((record_pnl_snapshots 9 heard).0 ≡ ok tt)
        × (memory.pnl_points (record_pnl_snapshots 9 heard).1.db
            ≡ memory.pnl_points heard.db ++ points_of memory 9 heard.telemetry_cache (sample ∷ []))
        × (memory.instances (record_pnl_snapshots 9 heard).1.db ≡ memory.instances heard.db)
        × ((record_pnl_snapshots 9 heard).1.trace ≡ heard.trace))
record_pnl_snapshots_lem_example =
    record_pnl_snapshots_lem memory-Laws memory-AcceptsPoints 9 heard (heard-IsRegular, tt)

one_point : length (points_of memory 9 heard.telemetry_cache (sample ∷ [])) ≡ 1
unfolding get lookup state_key member
one_point = refl

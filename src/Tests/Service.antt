-- ===== src/Tests/Service.antt =====
-- The service's theorems at concrete inputs.
use run_bot_backend.Prelude.{
  ℤ, ℕ, map, ◌++◌, String, Option, ◌≡◌, ◌≢◌, ◌⊎◌, ◌↔◌, refl, differs, none, some, true, false, List,
  [], ◌∷◌, All, pos,
}
use run_bot_backend.Json.{bool, Fields, end, field, keys}
use mathlib.Core.List.{Perm}
use run_bot_backend.Platform.{admits, dated_of, IsNewestFirst}
use run_bot_backend.Data.{
  DailySummary, match_points, sort_ascending, group_by_date, project, EaInstance, EaAuditLog,
  AuditEvent, AuditPayload, emit_room, bridge_command,
}
use run_bot_backend.Platform.Exec.{World, ok, err, rejected}
use run_bot_backend.Platform.Memory.{Memory, memory, memory-Laws, start, with_instances, sample}
use run_bot_backend.Gateway.{bridge_room, send_command_to_bridge}
use run_bot_backend.Service.{require_ownership, require_online, uuid_v4, log_event}
use run_bot_backend.Service.Commands.Laws.{
  Command, send, order, entry, send-authorized, send_granted,
}
use run_bot_backend.Service.Bulk.{fan_out_command, kill_all}
use run_bot_backend.Service.Bulk.Laws.{
  promised_results, promised_trace, Reaches, fan_out_command_lem, kill_all_lem,
}
use run_bot_backend.Service.Settings.{
  has, validate_settings_keys, push_settings, get_current_settings,
}
use run_bot_backend.Service.Settings.Laws.{IsLive, validate_settings_keys_iff}
use run_bot_backend.Service.Settings.Push.{
  IsPushed, push_settings-IsPushed, get_current_settings-push_settings,
}
use run_bot_backend.Service.Instances.{list_item, get_all_instances, hide_instance}
use run_bot_backend.Service.Instances.Laws.{get_all_instances-hide_instance}
use run_bot_backend.Service.Daily.{get_pnl_daily_summary}
use run_bot_backend.Service.Daily.Laws.{times_of, get_pnl_daily_summary_lem}
use run_bot_backend.Service.History.{get_audit_log}
use run_bot_backend.Service.History.Laws.{Owns, Shows, get_audit_log_lem}

send-authorized_example :
    ((send Command.kill_switch "acc-EU" "ann" start).1.trace ≡ [])
    ⊎ ((i : EaInstance) × (some (some sample) ≡ some (some i))
        × (i.user_id ≡ some "ann")
        × (i.online ≡ true)
        × ((send Command.kill_switch "acc-EU" "ann" start).1.trace
            ≡ emit_room (bridge_room "acc-EU") (bridge_command "" "KILL_SWITCH" none) ∷ []))
send-authorized_example = send-authorized {P = memory} Command.kill_switch "acc-EU" "ann" start

abbrev idle : EaInstance
idle = record sample { agent_id = "acc-US"; online = false }

abbrev mixed : World memory
mixed = with_instances (sample ∷ idle ∷ [])

send_granted_example :
    ((db : Memory) × (memory.create_audit_log
          (entry (Command.master_enable true) "acc-EU" "ann" start)
          start.db
        ≡ some db)
      × (send (Command.master_enable true) "acc-EU" "ann" start ≡ (
        ok "",
        record start {
          db = db;
          uuids = 1;
          trace = order (Command.master_enable true) "acc-EU" "ann" start ∷ [];
        },
      )))
    ⊎ ((memory.create_audit_log (entry (Command.master_enable true) "acc-EU" "ann" start) start.db
          ≡ none)
        × (send (Command.master_enable true) "acc-EU" "ann" start ≡ (
          err rejected,
          record start {
            uuids = 1;
            trace = order (Command.master_enable true) "acc-EU" "ann" start ∷ [];
          },
        )))
send_granted_example =
    send_granted {P = memory} (Command.master_enable true) "acc-EU" "ann" start (some sample) refl
      refl

abbrev eas : List EaInstance
eas = sample ∷ idle ∷ sample ∷ []

fan_out_command_lem_example :
    ((fan_out_command eas "CLOSE_BUY" none AuditEvent.close_buy "ann" start).0
      ≡ ok (record { total = 3; sent = 2; results = promised_results memory 0 eas }))
    × ((fan_out_command eas "CLOSE_BUY" none AuditEvent.close_buy "ann" start).1.uuids ≡ 2)
    × ((fan_out_command eas "CLOSE_BUY" none AuditEvent.close_buy "ann" start).1.trace
        ≡ promised_trace memory "CLOSE_BUY" none 0 eas [])
fan_out_command_lem_example =
    fan_out_command_lem {P = memory} "CLOSE_BUY" none AuditEvent.close_buy "ann" eas start

kill_all_lem_example :
    Reaches memory "KILL_SWITCH" none (sample ∷ idle ∷ []) mixed (kill_all "ann" mixed)
kill_all_lem_example = kill_all_lem memory-Laws "ann" mixed

abbrev changes : Fields
changes = field "EnableBuy" (bool true) end

validate_settings_keys_iff_example :
    ((validate_settings_keys changes start).0 ≡ ok tt) ↔ All IsLive (keys changes)
validate_settings_keys_iff_example = validate_settings_keys_iff {P = memory} changes start

push_settings-IsPushed_example :
    IsPushed "acc-EU" changes "ann" start "" (push_settings "acc-EU" changes "ann" start).1
unfolding push_settings require_ownership require_online validate_settings_keys uuid_v4
    send_command_to_bridge log_event keys has
push_settings-IsPushed_example =
    push_settings-IsPushed {P = memory} "acc-EU" changes "ann" start "" refl

get_current_settings-push_settings_example :
    get_current_settings "acc-EU" "ann" (push_settings "acc-EU" changes "ann" start).1
    ≡ (ok (some changes), (push_settings "acc-EU" changes "ann" start).1)
unfolding push_settings require_ownership require_online validate_settings_keys uuid_v4
    send_command_to_bridge log_event keys has
get_current_settings-push_settings_example =
    get_current_settings-push_settings memory-Laws "acc-EU" changes "ann" start
      (push_settings "acc-EU" changes "ann" start).1 ""
      (some (record sample { current_settings = some changes })) refl refl

get_all_instances-hide_instance_example :
    All (λ item. item.agent_id ≢ "acc-US") (list_item sample ∷ [])
unfolding hide_instance get_all_instances require_ownership log_event
get_all_instances-hide_instance_example =
    get_all_instances-hide_instance memory-Laws 9 "acc-US" "ann" "ann" "acc-US" mixed
      (hide_instance 9 "acc-US" "ann" mixed).1 _ (refl, (refl, tt)) refl refl

abbrev audited : World memory
audited = record start {
  db = record start.db {
    audit_logs =
        record {
          agent_id = "acc-EU";
          event = AuditEvent.close_buy;
          payload = AuditPayload.command "i";
          user_id = some "ann";
        }
        ∷ record {
          agent_id = "acc-EU";
          event = AuditEvent.kill_switch;
          payload = AuditPayload.command "ii";
          user_id = some "ann";
        }
        ∷ [];
  };
}

get_audit_log_lem_example :
    Owns memory "acc-EU" "ann" audited
    × ((got rest : List (ℕ × EaAuditLog)) × (audited.db.audit_logs ≡ map (λ e. e.1) got)
        × Perm (got ++ rest) (dated_of "acc-EU" (memory.dated_audit_logs audited.db))
        × IsNewestFirst (got ++ rest)
        × Shows (pos 5) got rest)
unfolding get_audit_log require_ownership
get_audit_log_lem_example =
    get_audit_log_lem memory-Laws "acc-EU" "ann" (pos 5) audited audited.db.audit_logs refl

some_injective : {a b : String} → some a ≡ some b → a ≡ b
some_injective h = cc

get_pnl_daily_summary_lem_example :
    Owns memory "acc-EU" "ann" start
    × ((times : Option (Option ℤ × Option ℤ)) × (memory.aggregate_pnl_points
            (match_points "acc-EU" times
              ∷ sort_ascending "ts"
              ∷ group_by_date "%Y-%m-%d" "ts" ("dailyPnl" ∷ "balance" ∷ "equity" ∷ [])
              ∷ sort_ascending "_id"
              ∷ project "date" ("dailyPnl" ∷ "balance" ∷ "equity" ∷ [])
              ∷ [])
            start.db
          ≡ some [])
        × ((t : ℤ) → admits times t ≡ times_of memory (some "2026-01-02") (some "2026-01-03") t))
    × (◌≡◌ {A = List DailySummary} [] [])
unfolding get_pnl_daily_summary require_ownership
get_pnl_daily_summary_lem_example =
    get_pnl_daily_summary_lem memory-Laws "acc-EU" "ann" (some "2026-01-02") (some "2026-01-03")
      start start [] [] (λ e. differs "2026-01-02" "" refl (some_injective e))
      (λ e. differs "2026-01-03" "" refl (some_injective e)) refl refl refl

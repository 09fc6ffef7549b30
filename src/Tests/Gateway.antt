-- ===== src/Tests/Gateway.antt =====
-- The gateway's and the scheduler's theorems at concrete inputs.
use run_bot_backend.Prelude.{
  String, ◌≡◌, ◌≢◌, ◌⊎◌, refl, inl, inr, none, some, any, true, false, List, [], ◌∷◌, arith,
  differs, lookup,
}
use run_bot_backend.Text.{split}
use run_bot_backend.Json.{Json, str, obj, end, field, null, member}
use run_bot_backend.Data.{EaInstance, Socket, emit_client, emit_room, disconnect, error, status}
use run_bot_backend.Platform.Documents.{document}
use run_bot_backend.Platform.Exec.{World, ok, err, rejected}
use run_bot_backend.Platform.Memory.{
  Memory, memory, memory-Laws, start, with_instances, sample, sample_frame, bridge,
}
use run_bot_backend.Gateway.{agent_room, get_cached_state}
use run_bot_backend.Gateway.Connection.{set_offline, handle_disconnect}
use run_bot_backend.Gateway.Bridge.{
  Registration, register_instance, registration, owned_by_another, see_telemetry,
  on_bridge_register, on_bridge_telemetry,
}
use run_bot_backend.Gateway.Bridge.Register.{Accepts, register-disconnect, register_document}
use run_bot_backend.Gateway.Bridge.Telemetry.{Fits}
use run_bot_backend.Gateway.Client.{on_client_subscribe}
use run_bot_backend.Gateway.Client.Laws.{subscribed, subscribe-authorized, subscribe_rebinds}
use run_bot_backend.Gateway.Sweep.{sweep_expired_sockets}
use run_bot_backend.Gateway.Sweep.Laws.{expired_at, sweep-sweep}
use run_bot_backend.Scheduler.{check_instance}
use run_bot_backend.Scheduler.Laws.{IsTimed, timeout_entry, heartbeat_drops}
use run_bot_backend.Service.Commands.Laws.{Command, send, order}
use run_bot_backend.Service.Commands.Online.{send-on_bridge_telemetry}

abbrev fields : Registration
fields = record { account_login = "acc"; license_key = "lic"; symbol = "EU"; user_id = "ann" }

abbrev registered : Memory
registered = record {
  instances = register_instance 1000 fields sample ∷ [];
  audit_logs = [];
  pnl_points = [];
}

sample-Accepts : Accepts {P = memory} (bridge "new") "acc-EU" none fields start
unfolding registration owned_by_another split
sample-Accepts = record {
  bound = refl;
  named = differs "acc-EU" "" refl;
  agrees = inl refl;
  existing = some sample;
  found = refl;
  free = refl;
  complete = refl;
}

register-disconnect_example :
    let w' = (on_bridge_register 1000 (bridge "new") none start).1 in
    (lookup "acc-EU" w'.bridge_sockets ≡ some "new")
    × ((other : String)
        → "acc-EU" ≢ other
        → lookup other w'.bridge_sockets ≡ lookup other start.bridge_sockets)
    × (handle_disconnect 2000 (bridge "old") w' ≡ (ok tt, w'))
register-disconnect_example =
    register-disconnect 1000 2000 (bridge "new") (bridge "old") "acc-EU" none fields start
      registered sample-Accepts refl refl (differs "new" "old" refl)

register_document_example :
    let w' = (on_bridge_register 1000 (bridge "new") none start).1 in
    ((i : EaInstance) × (document memory "acc-EU" w'.db ≡ some i)
      × (i.online ≡ true)
      × (i.last_seen_at ≡ some 1000)
      × (i.hidden_at ≡ none)
      × (i.user_id ≡ some "ann")
      × (i.account_login ≡ "acc")
      × (i.license_key ≡ "lic")
      × (i.symbol ≡ "EU"))
    × ((other : String)
        → "acc-EU" ≢ other
        → document memory other w'.db ≡ document memory other start.db)
register_document_example =
    register_document memory-Laws 1000 (bridge "new") "acc-EU" none fields start registered
      sample-Accepts refl

frame_there : sample_frame ≢ null
frame_there e = cc

sample-Fits : Fits (bridge "new") "acc-EU" sample_frame
unfolding member
sample-Fits = record {
  bound = refl;
  named = differs "acc-EU" "" refl;
  not_null = frame_there;
  agrees = inr refl;
}

abbrev us_frame : Json
us_frame = obj (field "agentId" (str "acc-US") end)

us_frame_there : us_frame ≢ null
us_frame_there e = cc

abbrev seen : Memory
seen = record {
  instances = see_telemetry 1000 sample_frame sample ∷ [];
  audit_logs = [];
  pnl_points = [];
}

-- The owner's command to an EA that was offline before the frame.
abbrev dozing : EaInstance
dozing = record sample { online = false }

abbrev roused : Memory
roused = record seen { instances = see_telemetry 1000 sample_frame dozing ∷ [] }

send-on_bridge_telemetry_example :
    let w' =
      (on_bridge_telemetry 1000 (bridge "new") sample_frame (with_instances (dozing ∷ []))).1 in
    (send Command.kill_switch "acc-EU" "ann" w').1.trace
    ≡ order Command.kill_switch "acc-EU" "ann" w' ∷ w'.trace
unfolding on_bridge_telemetry member
send-on_bridge_telemetry_example =
    send-on_bridge_telemetry memory-Laws 1000 (bridge "new") "acc-EU" "ann" sample_frame
      Command.kill_switch dozing (some (see_telemetry 1000 sample_frame dozing))
      (with_instances (dozing ∷ [])) roused sample-Fits refl refl refl refl

subscribe-authorized_example :
    (on_client_subscribe 9 (bridge "b") "acc-EU" start ≡ (err rejected, start))
    ⊎ (on_client_subscribe 9 (bridge "b") "acc-EU" start ≡ (
      ok (bridge "b"),
      record start { trace = disconnect "b" ∷ emit_client "b" (error "forbidden") ∷ [] },
    ))
    ⊎ ((i : EaInstance) × (u : String) × (some (some sample) ≡ some (some i))
        × (i.user_id ≡ some u)
        × (some "ann" ≡ some u)
        × ((on_client_subscribe 9 (bridge "b") "acc-EU" start).0
            ≡ ok (subscribed (bridge "b") "acc-EU")))
subscribe-authorized_example = subscribe-authorized 9 (bridge "b") "acc-EU" start

abbrev us_sample : EaInstance
us_sample = record sample { agent_id = "acc-US" }

abbrev two : World memory
two = with_instances (sample ∷ us_sample ∷ [])

subscribe_rebinds_example :
    (on_bridge_telemetry 20 (bridge "b") us_frame two ≡ (ok tt, two))
    × ((on_client_subscribe 9 (bridge "b") "acc-US" two).0 ≡ ok (subscribed (bridge "b") "acc-US"))
    × ((get_cached_state 30 "acc-US"
          (on_bridge_telemetry 20
            (subscribed (bridge "b") "acc-US")
            us_frame
            (on_client_subscribe 9 (bridge "b") "acc-US" two).1).1).0
        ≡ ok (some "frame"))
unfolding member
subscribe_rebinds_example =
    subscribe_rebinds 9 20 30 (bridge "b") "acc-EU" "acc-US" "ann" us_sample us_frame two refl
      (differs "acc-EU" "acc-US" refl) (differs "acc-US" "" refl) refl refl refl us_frame_there refl

abbrev sockets : List Socket
sockets =
    bridge "a"
    ∷ record (bridge "b") { state = record (bridge "b").state { expiry_notified = true } }
    ∷ []

sweep-sweep_example :
    any
      (expired_at 5000)
      (sweep_expired_sockets 5_060_000 (sweep_expired_sockets 5_000_000 sockets).sockets).sockets
    ≡ false
sweep-sweep_example = sweep-sweep 5_000_000 5_060_000 sockets (omega arith)

sample-IsTimed : IsTimed memory sample_frame 100
unfolding member
sample-IsTimed = record {
  not_null = frame_there;
  time = refl;
  text = differs "frame" "" refl;
  parsed = refl;
}

abbrev given_up : Memory
given_up = record {
  instances = set_offline (see_telemetry 101_000 sample_frame sample) ∷ [];
  audit_logs = [];
  pnl_points = [];
}

heartbeat_drops_example :
    let w' = (on_bridge_telemetry 101_000 (bridge "new") sample_frame start).1 in
    ((check_instance 161_000 "acc-EU" w').0 ≡ ok tt)
    × ((check_instance 161_000 "acc-EU" w').1.db
        ≡ record given_up { audit_logs = timeout_entry "acc-EU" ∷ [] })
    × ((check_instance 161_000 "acc-EU" w').1.trace
        ≡ emit_room (agent_room "acc-EU") (status "acc-EU" false (some 161_000)) ∷ w'.trace)
unfolding on_bridge_telemetry member
heartbeat_drops_example =
    heartbeat_drops 101_000 161_000 (bridge "new") "acc-EU" sample_frame start given_up
      (record given_up { audit_logs = timeout_entry "acc-EU" ∷ [] }) sample-Fits (omega arith) refl
      refl

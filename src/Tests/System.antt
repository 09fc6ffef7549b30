-- ===== src/Tests/System.antt =====
-- The theorems on whole histories at a concrete one.
use run_bot_backend.Prelude.{
  ℕ, String, lookup, ◌≡◌, refl, none, some, List, [], ◌∷◌, differs, length, arith, ap, insert, ◌≢◌,
  false, ◌++◌, true,
}
use run_bot_backend.Data.{Socket, SocketData}
use run_bot_backend.Text.{split}
use run_bot_backend.Gateway.Bridge.{on_bridge_register}
use run_bot_backend.Platform.Memory.{memory, memory-Laws, start, sample_frame, bridge}
use run_bot_backend.Platform.Owners.{OwnedBy}
use run_bot_backend.Service.Commands.Laws.{Command, send, entry}
use run_bot_backend.System.{
  Occurrence, bridge_register, bridge_telemetry, disconnection, client_subscribe, heartbeat,
  cache_sweep, http_request, run,
}
use run_bot_backend.System.Ownership.{run-owner, send-run}
use run_bot_backend.Cache.{get}
use run_bot_backend.Service.{require_ownership, require_online, log_event}
use run_bot_backend.Service.Commands.{send_kill_switch}
use run_bot_backend.Gateway.Connection.{handle_connection}
use run_bot_backend.Gateway.Client.{on_client_subscribe}
use run_bot_backend.System.Server.{
  Server, blank, socket, settled, Reach, here, next, comes, connects, registers, subscribes,
}
use run_bot_backend.System.Rooms.{joined-owner}
use run_bot_backend.System.Bridges.{present-current, send-reaches}
use mathlib.Core.List.{IsPrefix}
use run_bot_backend.System.Audit.{Grown, run-Grown, run-send}
use run_bot_backend.Http.Controller.{kill_everything, master_enable}
use run_bot_backend.Platform.Exec.{ok}
use run_bot_backend.Gateway.{get_cached_state}
use run_bot_backend.System.Telemetry.{fresh, last_frame, get_cached_state-run}

-- Bob's bridge with a token for ann's agent.
abbrev bobs : Socket
bobs = record (bridge "b") { state = record (bridge "b").state { user_id = some "bob" } }

abbrev history : List (ℕ × Occurrence)
history =
    (1, bridge_register (bridge "a") none)
    ∷ (2, bridge_telemetry (bridge "a") sample_frame)
    ∷ (3, bridge_register bobs none)
    ∷ (4, client_subscribe bobs "acc-EU")
    ∷ (5, disconnection (bridge "a"))
    ∷ (70_000, cache_sweep)
    ∷ (90_000, heartbeat)
    ∷ []

-- The frame of ann's bridge and that of bob's, for the same agent.
abbrev morning : List (ℕ × Occurrence)
morning =
    (1, bridge_register (bridge "a") none)
    ∷ (2, bridge_telemetry (bridge "a") sample_frame)
    ∷ (3, bridge_telemetry bobs sample_frame)
    ∷ (5, disconnection (bridge "a"))
    ∷ (40_000, heartbeat)
    ∷ (50_000, cache_sweep)
    ∷ []

get_cached_state-run_example :
    (get_cached_state 60_002 "acc-EU" (run morning start)).0
    ≡ ok (fresh memory 60_002 (last_frame "acc-EU" morning none))
get_cached_state-run_example = get_cached_state-run "acc-EU" morning 60_002 start refl (omega arith)

run-owner_example : OwnedBy memory "acc-EU" "ann" (run history start).db
run-owner_example = run-owner memory-Laws "acc-EU" "ann" (differs "ann" "" refl) history start refl

send-run_example :
    (send Command.kill_switch "acc-EU" "bob" (run history start)).1.trace
    ≡ (run history start).trace
send-run_example =
    send-run memory-Laws "acc-EU" "ann" (differs "ann" "" refl) history start Command.kill_switch
      "bob" refl (differs "bob" "ann" refl)

run-send_example :
    let w = (send Command.kill_switch "acc-EU" "ann" start).1 in
    ("" ≡ memory.uuid 0)
    × IsPrefix
        ([] ++ entry Command.kill_switch "acc-EU" "ann" start ∷ [])
        (memory.audit_logs (run history w).db)
unfolding send_kill_switch require_ownership require_online log_event
run-send_example =
    run-send memory-Laws Command.kill_switch "acc-EU" "ann" "" start
      (send Command.kill_switch "acc-EU" "ann" start).1 history refl

-- A bridge of ann's registers, and she stops all her EAs and disables that one.
abbrev orders : List (ℕ × Occurrence)
orders =
    (1, bridge_register (bridge "a") none)
    ∷ (2, http_request (some "Bearer good") (kill_everything true))
    ∷ (3, http_request (some "Bearer good") (master_enable "acc-EU" false))
    ∷ []

run-Grown_example :
    Grown
      (memory.audit_logs start.db)
      (memory.audit_logs (run orders start).db)
      (run orders start).trace
run-Grown_example = run-Grown memory-Laws orders start

-- A bridge of ann's comes, connects, registers and subscribes to its agent.
abbrev nobody : Server memory
nobody = record { world = start; sockets = [] }

abbrev come : Server memory
come = record nobody { sockets = insert "x" blank [] }

abbrev welcome : Server memory
welcome = settled come "x" (handle_connection 0 (socket "x" blank) (some "good") come.world)

abbrev anns : SocketData
anns = record (bridge "x").state { expiry_notified = false }

abbrev registered : Server memory
registered = settled welcome "x" (on_bridge_register 1 (socket "x" anns) none welcome.world)

abbrev watching : Server memory
watching =
    settled registered "x" (on_client_subscribe 2 (socket "x" anns) "acc-EU" registered.world)

visited : Reach nobody watching
unfolding handle_connection on_bridge_register on_client_subscribe insert lookup split
visited =
    next
      (next
        (next (next here (comes "x" (differs "x" "" refl) refl (λ room. refl)))
          (connects 0 "x" (some "good") refl))
        (registers 1 "x" anns none refl))
      (subscribes 2 "x" anns "acc-EU" refl)

joined-owner_example :
    (u : String) × (anns.user_id ≡ some u) × OwnedBy memory "acc-EU" u watching.world.db
unfolding handle_connection on_bridge_register on_client_subscribe insert lookup split get
joined-owner_example = joined-owner memory-Laws start watching "x" anns "acc-EU" visited refl refl

present-current_example :
    (lookup "acc-EU" watching.world.bridge_sockets ≡ some "x")
    × ((v : String) → v ≢ "" → OwnedBy memory "acc-EU" v watching.world.db → anns.user_id ≡ some v)
unfolding handle_connection on_bridge_register on_client_subscribe insert lookup split get
present-current_example =
    present-current memory-Laws start watching "x" anns "acc-EU" visited refl refl

kill_sent : (send Command.kill_switch "acc-EU" "ann" watching.world).1.trace ≢ watching.world.trace
unfolding handle_connection on_bridge_register on_client_subscribe insert lookup split get
    send_kill_switch require_ownership require_online
kill_sent e = let longer : ◌≡◌ {A = ℕ} 4 3 = ap length e in absurd (omega (arith, longer))

send-reaches_example :
    (anns.user_id ≡ some "ann") × (lookup "acc-EU" watching.world.bridge_sockets ≡ some "x")
unfolding handle_connection on_bridge_register on_client_subscribe insert lookup split get
send-reaches_example =
    send-reaches memory-Laws start watching "x" anns Command.kill_switch "acc-EU" "ann" visited refl
      refl (differs "ann" "" refl) kill_sent

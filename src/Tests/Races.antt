-- ===== src/Tests/Races.antt =====
-- The theorems on handlers that interleave at concrete ones.
use run_bot_backend.Prelude.{
  ℕ, String, lookup, ◌≡◌, refl, none, some, [], ◌∷◌, differs, false, ◌++◌, inl, true,
}
use run_bot_backend.Data.{EaInstance, new_instance, Socket, emit_room, status}
use run_bot_backend.Text.{split}
use run_bot_backend.Platform.Documents.{document}
use run_bot_backend.Gateway.Bridge.{
  Registration, register_instance, registration, register_owned, on_bridge_register,
  owned_by_another,
}
use run_bot_backend.Gateway.Bridge.Race.{register_race}
use run_bot_backend.Platform.Exec.{World, ok, err, not_found}
use run_bot_backend.Platform.Memory.{
  Memory, memory, with_instances, memory-Laws, start, bridge, sample,
}
use run_bot_backend.Platform.Owners.{owner}
use run_bot_backend.Service.Commands.Laws.{Command, send}
use run_bot_backend.Gateway.Bridge.Register.{Accepts}
use run_bot_backend.Service.Instances.{hide_offline}
use run_bot_backend.Service.Instances.Laws.{hidden_entry}
use run_bot_backend.Service.Instances.Race.{hide_during_register}
use run_bot_backend.Gateway.Connection.{handle_disconnect, report_offline}
use run_bot_backend.Gateway.{agent_room}
use run_bot_backend.Service.{instance_offline}
use run_bot_backend.System.Offline.{left, offline_during_register}

-- Bob's bridge with a token for ann's agent.
abbrev bobs : Socket
bobs = record (bridge "b") { state = record (bridge "b").state { user_id = some "bob" } }

abbrev empty : World memory
empty = with_instances []

abbrev of_user : String → Registration
of_user user = record { account_login = "acc"; license_key = "lic"; symbol = "EU"; user_id = user }

abbrev after_upsert : ℕ → Registration → EaInstance → Memory
after_upsert now r i = record {
  instances = register_instance now r i ∷ [];
  audit_logs = [];
  pnl_points = [];
}

register_race_example :
    let w' = (on_bridge_register 1 (bridge "a") none empty).1 in
    let w'' = (register_owned 2 bobs "acc-EU" none w').1 in
    (owner (document memory "acc-EU" w'.db) ≡ some "ann")
    × (lookup "acc-EU" w'.bridge_sockets ≡ some "a")
    × (owner (document memory "acc-EU" w''.db) ≡ some "bob")
    × (lookup "acc-EU" w''.bridge_sockets ≡ some "b")
unfolding registration split
register_race_example =
    register_race memory-Laws 1 2 (bridge "a") bobs "acc-EU" (of_user "ann") (of_user "bob") empty
      (after_upsert 1 (of_user "ann") (new_instance "acc-EU"))
      (after_upsert 2 (of_user "bob") (register_instance 1 (of_user "ann") (new_instance "acc-EU")))
      refl (differs "acc-EU" "" refl) refl refl refl refl refl

-- Ann hides her offline EA while its bridge registers.
abbrev asleep : EaInstance
asleep = record sample { online = false }

abbrev idle : World memory
idle = with_instances (asleep ∷ [])

idle-Accepts : Accepts {P = memory} (bridge "new") "acc-EU" none (of_user "ann") idle
unfolding registration owned_by_another split
idle-Accepts = record {
  bound = refl;
  named = differs "acc-EU" "" refl;
  agrees = inl refl;
  existing = some asleep;
  found = refl;
  free = refl;
  complete = refl;
}

abbrev awake : Memory
awake = after_upsert 1 (of_user "ann") asleep

hide_during_register_example :
    let w' = (on_bridge_register 1 (bridge "new") none idle).1 in
    ((hide_offline 2 "acc-EU" "ann" (some asleep) w').0 ≡ ok tt)
    × (memory.audit_logs (hide_offline 2 "acc-EU" "ann" (some asleep) w').1.db
        ≡ memory.audit_logs w'.db ++ hidden_entry "acc-EU" "ann" ∷ [])
    × ((b : String)
        → document memory b (hide_offline 2 "acc-EU" "ann" (some asleep) w').1.db
          ≡ document memory b w'.db)
    × ((i : EaInstance) × (document memory "acc-EU" w'.db ≡ some i)
        × (i.online ≡ true)
        × (i.hidden_at ≡ none))
unfolding on_bridge_register split lookup
hide_during_register_example =
    hide_during_register memory-Laws 1 2 (bridge "new") "acc-EU" "ann" none (of_user "ann")
      (some asleep) idle awake awake
      (record awake { audit_logs = hidden_entry "acc-EU" "ann" ∷ [] }) refl idle-Accepts refl refl
      refl

-- Ann's bridge comes back while the database writes that its old socket has gone.
abbrev current : World memory
current = record start { bridge_sockets = ("acc-EU", "old") ∷ [] }

current-Accepts : Accepts {P = memory} (bridge "new") "acc-EU" none (of_user "ann") current
unfolding registration owned_by_another split
current-Accepts = record {
  bound = refl;
  named = differs "acc-EU" "" refl;
  agrees = inl refl;
  existing = some sample;
  found = refl;
  free = refl;
  complete = refl;
}

abbrev back : Memory
back = after_upsert 5 (of_user "ann") sample

abbrev late : EaInstance
late = record (register_instance 5 (of_user "ann") sample) { online = false }

offline_during_register_example :
    let w' = (on_bridge_register 5 (bridge "new") none (left "acc-EU" current)).1 in
    let w'' = (report_offline 6 "acc-EU" w').1 in
    (handle_disconnect 6 (bridge "old") current ≡ report_offline 6 "acc-EU" (left "acc-EU" current))
    × (lookup "acc-EU" w''.bridge_sockets ≡ some "new")
    × (w''.trace ≡ emit_room (agent_room "acc-EU") (status "acc-EU" false (some 6)) ∷ w'.trace)
    × (send Command.kill_switch "acc-EU" "ann" w''
        ≡ (err (not_found (instance_offline "acc-EU")), w''))
unfolding on_bridge_register split lookup
offline_during_register_example =
    offline_during_register memory-Laws 5 6 (bridge "old") (bridge "new") "acc-EU" none
      (of_user "ann") Command.kill_switch (some late) current back
      (record back { instances = late ∷ [] }) refl refl current-Accepts refl refl refl

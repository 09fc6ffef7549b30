-- ===== src/Gateway/Bridge/Keeps.antt =====
-- The events of a bridge but its registration keep what is stable.
use run_bot_backend.Prelude.{ℕ, String, refl, Option, none, some, Bool, ◌==◌}
use run_bot_backend.Platform.{Platform}
use run_bot_backend.Platform.Exec.{World, Exec, change, skip, modify}
use run_bot_backend.Platform.Keeps.{
  Facts, Holds, Keeps, IsStable, keeps_rules, Keeps-pure, Keeps-if, Keeps-effect, Keeps-bind,
  Keeps-update,
}
use run_bot_backend.Data.{Socket}
use run_bot_backend.Json.{Json}
use run_bot_backend.Gateway.{by_agent, bound_agent, state_key, telemetry_ttl_seconds}
use run_bot_backend.Cache.{setex}
use run_bot_backend.Gateway.Keeps.{read_member-Keeps}
use run_bot_backend.Gateway.Connection.Keeps.{offline-Keeps}
use run_bot_backend.Gateway.Bridge.{
  see_telemetry, see_status, accept_telemetry, checked_telemetry, telemetry_of, on_bridge_telemetry,
  for_agent, on_bridge_ack, on_bridge_status, on_bridge_offline,
}

-- It stays true where a frame of an agent is cached.
abbrev pub KeptByFrame : (P : Platform) → Facts P → ℕ → Type 0
KeptByFrame P K now =
    (a : String) (frame : Json) (w : World P)
    → Holds {P = P} K w
    → K w.db w.bridge_sockets w.trace
        (setex now (state_key a) telemetry_ttl_seconds (P.stringify frame) w.telemetry_cache)

module _ {P : Platform} {J : Facts P} {T : ℕ} (stable : IsStable P T J) where
  cached-Keeps :
      (now : ℕ) (a : String) (frame : Json)
      → KeptByFrame P J now
      → Keeps P J (
          modify (λ w. record w {
            telemetry_cache =
                setex now (state_key a) telemetry_ttl_seconds (P.stringify frame) w.telemetry_cache;
          }))
  cached-Keeps now a frame k = record { at = k a frame }

  seen-Keeps :
      (now : ℕ) (a : String) (frame : Json)
      → Keeps P J (change (P.update_one (by_agent a) (see_telemetry now frame)))
  seen-Keeps now a frame =
      Keeps-update stable (by_agent a) (see_telemetry now frame) (λ i. (refl, refl))

  accept_telemetry-Keeps :
      (now : ℕ) (a : String) (frame : Json)
      → KeptByFrame P J now
      → Keeps P J (accept_telemetry now a frame)
  unfolding accept_telemetry
  accept_telemetry-Keeps now a frame k = search (keeps_rules, cached-Keeps, seen-Keeps) depth 12

  checked_telemetry-Keeps :
      (now : ℕ) (a : String) (frame : Json) (claimed : Option Json)
      → KeptByFrame P J now
      → Keeps P J (checked_telemetry now a frame claimed)
  unfolding checked_telemetry
  checked_telemetry-Keeps now a frame claimed k = search (keeps_rules, accept_telemetry-Keeps)

  telemetry_of-Keeps :
      (now : ℕ) (a : Option String) (frame : Json)
      → KeptByFrame P J now
      → Keeps P J (telemetry_of now a frame)
  unfolding telemetry_of
  telemetry_of-Keeps now none frame k = search keeps_rules
  telemetry_of-Keeps now (some a) frame k =
      search (keeps_rules, read_member-Keeps, checked_telemetry-Keeps) depth 12

  pub on_bridge_telemetry-Keeps :
      (now : ℕ) (client : Socket) (frame : Json)
      → KeptByFrame P J now
      → Keeps P J (on_bridge_telemetry now client frame)
  unfolding on_bridge_telemetry
  on_bridge_telemetry-Keeps now client frame k =
      telemetry_of-Keeps now (bound_agent client.state) frame k

  for_agent-Keeps :
      (act : String → Exec P (Unit {0})) (a : Option String)
      → ((b : String) → Keeps P J (act b))
      → Keeps P J (for_agent act a)
  unfolding for_agent
  for_agent-Keeps act none k = search keeps_rules
  for_agent-Keeps act (some a) k = Keeps-if (a == "") skip (act a) (Keeps-pure tt) (k a)

  pub on_bridge_ack-Keeps :
      (client : Socket) (uuid : String) → Keeps P J (on_bridge_ack client uuid)
  unfolding on_bridge_ack
  on_bridge_ack-Keeps client uuid =
      for_agent-Keeps _ (bound_agent client.state) (λ a. Keeps-effect stable _ tt)

  status-Keeps :
      (now : ℕ) (a : String) (online : Bool)
      → Keeps P J (change (P.update_one (by_agent a) (see_status now online)))
  status-Keeps now a online =
      Keeps-update stable (by_agent a) (see_status now online) (λ i. (refl, refl))

  pub on_bridge_status-Keeps :
      (now : ℕ) (client : Socket) (online : Bool) (seen : Option ℕ)
      → Keeps P J (on_bridge_status now client online seen)
  unfolding on_bridge_status
  on_bridge_status-Keeps now client online seen =
      for_agent-Keeps _ (bound_agent client.state)
        (λ a. Keeps-bind (status-Keeps now a online) (λ _. Keeps-effect stable _ tt))

  pub on_bridge_offline-Keeps :
      (now : ℕ) (client : Socket) → Keeps P J (on_bridge_offline now client)
  unfolding on_bridge_offline
  on_bridge_offline-Keeps now client =
      for_agent-Keeps _ (bound_agent client.state)
        (λ a. Keeps-bind (offline-Keeps stable a) (λ _. Keeps-effect stable _ tt))

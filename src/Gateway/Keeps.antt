-- ===== src/Gateway/Keeps.antt =====
-- What the helpers of the gateway keep.
use run_bot_backend.Prelude.{ℕ, String}
use run_bot_backend.Platform.{Platform}
use run_bot_backend.Platform.Keeps.{Facts, IsStable, Keeps, Keeps-pure, Keeps-raise, Keeps-effect}
use run_bot_backend.Json.{Json, null}
use run_bot_backend.Data.{Event}
use run_bot_backend.Gateway.{state_key, get_cached_state, emit_to_room, read_member}

module _ {P : Platform} {J : Facts P} {T : ℕ} (stable : IsStable P T J) where
  pub get_cached_state-Keeps : (a : String) → Keeps P J (get_cached_state T a)
  unfolding get_cached_state
  get_cached_state-Keeps a = record {
    at = λ w. stable.looked_up (state_key a) w.db w.bridge_sockets w.trace w.telemetry_cache;
  }

  pub emit_to_room-Keeps : (room : String) (event : Event) → Keeps P J (emit_to_room room event)
  unfolding emit_to_room
  emit_to_room-Keeps room event = Keeps-effect stable _ tt

  pub read_member-Keeps : (key : String) (value : Json) → Keeps P J (read_member key value)
  unfolding read_member
  read_member-Keeps key null = Keeps-raise _
  read_member-Keeps key _ = Keeps-pure _

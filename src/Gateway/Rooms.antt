-- ===== src/Gateway/Rooms.antt =====
-- The rooms of the agents are all different.
use Prim.Native.Char.{code}
use text.Mathlib.TextLemmas.{append_cancel_left, cons-append}
use run_bot_backend.Prelude.{ℕ, String, ◌≡◌, ◌≢◌, sym, ◌∙◌, ap, arith}
use run_bot_backend.Gateway.{agent_room, bridge_room}

pub agent_room_injective : (a b : String) → agent_room a ≡ agent_room b → a ≡ b
unfolding agent_room
agent_room_injective a b h = append_cancel_left "agent:" a b h

pub bridge_room_injective : (a b : String) → bridge_room a ≡ bridge_room b → a ≡ b
unfolding bridge_room
bridge_room_injective a b h = append_cancel_left "bridge:" a b h

abbrev first_code : String → ℕ
first_code String.[] = 0
first_code (String.◌∷◌ c s) = code c

pub bridge_room-ne-agent_room : (a b : String) → bridge_room b ≢ agent_room a
unfolding bridge_room agent_room
bridge_room-ne-agent_room a b h =
    let same : ◌≡◌ {A = ℕ} b'b' b'a' =
      sym (ap first_code (cons-append "b" "ridge:" b))
      ∙ ap first_code h
      ∙ ap first_code (cons-append "a" "gent:" a) in
    absurd (omega arith)

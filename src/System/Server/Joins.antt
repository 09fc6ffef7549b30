-- ===== src/System/Server/Joins.antt =====
-- Who has been put into the room of an agent's listeners.
use run_bot_backend.Prelude.{
  ℕ, String, ◌≡◌, inl, inr, Option, true, false, List, ◌∷◌, lookup, Bool-cases, ne_test, arith,
}
use run_bot_backend.Data.{Effect, emit_room, emit_client, disconnect, join, leave, Socket}
use run_bot_backend.Platform.{Platform}
use run_bot_backend.Platform.Keeps.{Facts, Keeps, IsQuiet, IsStable}
use run_bot_backend.Gateway.{agent_room, bridge_room}
use run_bot_backend.Gateway.Rooms.{bridge_room-ne-agent_room}
use run_bot_backend.Gateway.Bridge.{on_bridge_register}
use run_bot_backend.Gateway.Bridge.Register.{kicked}
use run_bot_backend.Gateway.Bridge.Takeover.{
  confirmed, on_bridge_register-Keeps, take_over-at, kicked_keeps,
}
use run_bot_backend.System.Server.{joined}

-- The socket has not been put into the room.
abbrev pub NotIn : (P : Platform) → String → String → Facts P
NotIn P id room db b t c = joined id room t ≡ false

joined_quiet :
    (id room : String) (e : Effect) (t : List Effect)
    → IsQuiet e
    → joined id room t ≡ false
    → joined id room (e ∷ t) ≡ false
joined_quiet id room (emit_room r event) t q h = h
joined_quiet id room (emit_client i event) t q h = h
joined_quiet id room (disconnect i) t q h = h
joined_quiet id room (leave i r) t q h = h
joined_quiet id room (join i r) t q h = elim q [ ]

pub NotIn-IsStable : {P : Platform} (id room : String) {T : ℕ} → IsStable P T (NotIn P id room)
NotIn-IsStable id room = record {
  updated = λ p f k db db' e b t c h. h;
  audited = λ e db db' written b t c told h. h;
  recorded = λ e db db' written b t c h. h;
  sent = λ e quiet db b t c h. joined_quiet id room e t quiet h;
  looked_up = λ key db b t c h. h;
  swept = λ db b t c h. h;
}

-- What joins no room of agents leaves nobody there who was not.
pub was_there :
    (id room : String) (t t' : List Effect)
    → (joined id room t ≡ false → joined id room t' ≡ false)
    → joined id room t' ≡ true
    → joined id room t ≡ true
was_there id room t t' k h = elim (Bool-cases (joined id room t)) [
  | inl before ↦ before
  | inr never ↦ let now_never = k never in absurd (ground arith)
]

-- A socket that joins a bridge's room joins no room of an agent's listeners.
other_room :
    (id i a b : String) (t : List Effect)
    → joined id (agent_room a) t ≡ false
    → joined id (agent_room a) (join i (bridge_room b) ∷ t) ≡ false
other_room id i a b t h =
    let apart = ne_test (bridge_room b) (agent_room a) (bridge_room-ne-agent_room a b) in
    ground (arith, apart)

module _ {P : Platform} where
  pub register-NotIn :
      (id a : String) (now : ℕ) (client : Socket) (claimed : Option String)
      → Keeps P (NotIn P id (agent_room a)) (on_bridge_register now client claimed)
  register-NotIn id a now client claimed =
      on_bridge_register-Keeps {T = now} (NotIn-IsStable id (agent_room a)) now client claimed
        λ b r existing w bound f free e h.
          let out =
            other_room id client.id a b
              (kicked (confirmed client b) (lookup b w.bridge_sockets) w.trace)
              (kicked_keeps {T = now} (NotIn-IsStable id (agent_room a)) (confirmed client b)
                (lookup b w.bridge_sockets) w h) in
          take_over-at (NotIn P id (agent_room a)) now (confirmed client b) b r w out (λ db up. out)

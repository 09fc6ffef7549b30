-- ===== src/Gateway/Bridge/Takeover.antt =====
-- A registration, up to its takeover: it is refused or skipped, or it takes the agent over.
use run_bot_backend.Prelude.{
  ℕ, String, ◌≡◌, refl, Option, none, some, true, false, not, ◌&&◌, ◌==◌, inl, inr, truthy, is_text,
  Bool-cases, Option-cases,
}
use run_bot_backend.Data.{EaInstance, new_instance, error, disconnect, Socket}
use run_bot_backend.Platform.{Platform}
use run_bot_backend.Platform.Exec.{World}
use run_bot_backend.Platform.Keeps.{
  Facts, Holds, Keeps, IsStable, keeps_rules, Keeps-if, Keeps-pure,
}
use run_bot_backend.Gateway.{by_agent, reject}
use run_bot_backend.Gateway.Bridge.{
  Registration, register_instance, registration, owned_by_another, take_over, register_fields,
  register_owned, register_agent, on_bridge_register,
}
use run_bot_backend.Gateway.Bridge.Register.{kicked, taken, fallen, take_over_lem, take_over_down}

-- The socket with the data that a registration confirms.
abbrev pub confirmed : Socket → String → Socket
confirmed client a = record client {
  state = record client.state { agent_id = some a; is_bridge = true };
}

-- It stays true where the client takes over an agent that its data name and that is no other user's.
abbrev pub KeptByTakeOver : (P : Platform) → Facts P → ℕ → Socket → Type 0
KeptByTakeOver P K now client =
    (a : String) (r : Registration) (existing : Option EaInstance) (w : World P)
    → client.state.agent_id ≡ some a
    → P.find_one (by_agent a) w.db ≡ some existing
    → owned_by_another existing client.state.user_id ≡ false
    → registration a client.state ≡ some r
    → Holds {P = P} K w
    → Holds {P = P} K (take_over now (confirmed client a) a r w).1

module _ {P : Platform} {J : Facts P} {T : ℕ} (stable : IsStable P T J) where
  reject-Keeps : (client : Socket) (why : String) → Keeps P J (reject client (error why))
  reject-Keeps client why = search keeps_rules depth 12

  register_owned-at :
      (now : ℕ) (client : Socket) (a : String) (existing : Option EaInstance) (w : World P)
      → KeptByTakeOver P J now client
      → client.state.agent_id ≡ some a
      → P.find_one (by_agent a) w.db ≡ some existing
      → Holds {P = P} J w
      → Holds {P = P} J (register_owned now client a existing w).1
  unfolding register_owned register_fields
  register_owned-at now client a existing w k b f h =
      elim (Bool-cases (owned_by_another existing client.state.user_id)) [
        | inl foreign ↦ rw foreign ((reject-Keeps client _).at w h)
        | inr free ↦ elim (Option-cases (registration a client.state)) [
          | inl missing ↦ rw (free, missing, register_fields) h
          | inr (r, e) ↦ rw (free, e, register_fields) (k a r existing w b f free e h)
        ]
      ]

  register_agent-at :
      (now : ℕ) (client : Socket) (claimed b : Option String) (w : World P)
      → KeptByTakeOver P J now client
      → client.state.agent_id ≡ b
      → Holds {P = P} J w
      → Holds {P = P} J (register_agent now client claimed b w).1
  unfolding register_agent
  register_agent-at now client claimed none w k e h = h
  register_agent-at now client claimed (some b) w k e h = elim (Bool-cases (b == "")) [
    | inl empty ↦ rw empty h
    | inr full ↦ elim (Bool-cases (truthy claimed && not (is_text claimed b))) [
      | inl other ↦ rw (full, other) ((reject-Keeps client _).at w h)
      | inr agrees ↦ elim (Option-cases (P.find_one (by_agent b) w.db)) [
        | inl down ↦ rw (full, agrees, down) h
        | inr (existing, f) ↦
            rw (full, agrees, f) (register_owned-at now client b existing w k e f h)
      ]
    ]
  ]

  pub on_bridge_register-Keeps :
      (now : ℕ) (client : Socket) (claimed : Option String)
      → KeptByTakeOver P J now client
      → Keeps P J (on_bridge_register now client claimed)
  unfolding on_bridge_register
  on_bridge_register-Keeps now client claimed k =
      Keeps-if client.state.is_bridge _ _
        (record { at = λ w. register_agent-at now client claimed client.state.agent_id w k refl })
        (Keeps-pure client)

  pub kicked_keeps :
      (client : Socket) (stale : Option String) (w : World P)
      → Holds {P = P} J w
      → J w.db w.bridge_sockets (kicked client stale w.trace) w.telemetry_cache
  kicked_keeps client none w h = h
  kicked_keeps client (some old) w h =
      elim (Bool-cases (truthy (some old) && not (old == client.id))) [
        | inl other ↦
            rw other
              (stable.sent (disconnect old) tt w.db w.bridge_sockets w.trace w.telemetry_cache h)
        | inr same ↦ rw same h
      ]

-- A takeover ends in one of two states.
pub take_over-at :
    {P : Platform} (K : Facts P) (now : ℕ) (client : Socket) (a : String) (r : Registration)
    (w : World P)
    → Holds {P = P} K (fallen client a w)
    → ((db : P.Db)
        → P.upsert_one (by_agent a) (new_instance a) (register_instance now r) w.db ≡ some db
        → Holds {P = P} K (taken now client a db w))
    → Holds {P = P} K (take_over now client a r w).1
take_over-at {P} K now client a r w down up =
    elim (Option-cases
      (P.upsert_one (by_agent a) (new_instance a) (register_instance now r) w.db)) [
        | inl none_written ↦ rw (take_over_down now client a r w none_written) down
        | inr (db, e) ↦ rw (take_over_lem now client a r w db e) (up db e)
      ]

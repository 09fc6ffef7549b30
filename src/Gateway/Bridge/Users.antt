-- ===== src/Gateway/Bridge/Users.antt =====
-- A registration leaves the user of its socket alone.
use run_bot_backend.Prelude.{
  ℕ, String, ◌≡◌, Option, none, some, false, not, ◌&&◌, ◌==◌, inl, inr, truthy, is_text, Bool-cases,
  Option-cases, arith, true, Bool, if◌then◌else◌,
}
use run_bot_backend.Data.{EaInstance, new_instance, Socket}
use run_bot_backend.Platform.{Platform}
use run_bot_backend.Platform.Exec.{World, Result, ok, pure}
use run_bot_backend.Gateway.{by_agent}
use run_bot_backend.Gateway.Bridge.{
  Registration, register_instance, registration, owned_by_another, take_over, register_fields,
  register_owned, register_agent, on_bridge_register,
}
use run_bot_backend.Gateway.Bridge.Register.{take_over_lem, take_over_down}

-- The socket that is given back, if one is, has the same user.
abbrev KeepsUser : Socket → Result Socket → Type 0
KeepsUser client r = (c : Socket) → r ≡ ok c → c.state.user_id ≡ client.state.user_id

module _ {P : Platform} where
  take_over-user :
      (now : ℕ) (client : Socket) (a : String) (r : Registration) (w : World P)
      → KeepsUser client (take_over now client a r w).0
  take_over-user now client a r w c h =
      elim (Option-cases
        (P.upsert_one (by_agent a) (new_instance a) (register_instance now r) w.db)) [
          | inl down ↦ ground (arith, take_over_down now client a r w down)
          | inr (db, e) ↦ ground (arith, take_over_lem now client a r w db e)
        ]

  register_owned-user :
      (now : ℕ) (client : Socket) (a : String) (existing : Option EaInstance) (w : World P)
      → KeepsUser client (register_owned now client a existing w).0
  unfolding register_owned register_fields
  register_owned-user now client a existing w c h =
      elim (Bool-cases (owned_by_another existing client.state.user_id)) [
        | inl foreign ↦ ground arith
        | inr free ↦ elim (Option-cases (registration a client.state)) [
          | inl missing ↦ ground arith
          | inr (r, e) ↦ take_over-user now _ a r w c (rw (free, e, register_fields) at h)
        ]
      ]

  register_agent-user :
      (now : ℕ) (client : Socket) (claimed b : Option String) (w : World P)
      → KeepsUser client (register_agent now client claimed b w).0
  unfolding register_agent
  register_agent-user now client claimed none w c h = ground arith
  register_agent-user now client claimed (some b) w c h = elim (Bool-cases (b == "")) [
    | inl empty ↦ ground arith
    | inr full ↦ elim (Bool-cases (truthy claimed && not (is_text claimed b))) [
      | inl other ↦ ground arith
      | inr agrees ↦ elim (Option-cases (P.find_one (by_agent b) w.db)) [
        | inl down ↦ ground arith
        | inr (existing, f) ↦
            register_owned-user now client b existing w c (rw (full, agrees, f) at h)
      ]
    ]
  ]

  pub on_bridge_register-user :
      (now : ℕ) (client : Socket) (claimed : Option String) (w : World P) (c : Socket)
      → (on_bridge_register now client claimed w).0 ≡ ok c
      → c.state.user_id ≡ client.state.user_id
  unfolding on_bridge_register
  on_bridge_register-user now client claimed w c h = go client.state.is_bridge h
    where
      go :
          (b : Bool)
          → ((if b then register_agent now client claimed client.state.agent_id else pure client)
              w).0
            ≡ ok c
          → c.state.user_id ≡ client.state.user_id
      go true e = register_agent-user now client claimed client.state.agent_id w c e
      go false e = ground arith

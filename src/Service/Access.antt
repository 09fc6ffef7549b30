-- ===== src/Service/Access.antt =====
-- Who may act on an EA: `requireOwnership` and `requireOnline` together, against one description.
use run_bot_backend.Prelude.{
  String, ◌≡◌, ◌⊎◌, inl, inr, Option-cases, Bool-cases, refl, Option, none, some, true, is_text,
  is_text-eq_some, if◌then◌else◌, arith,
}
use run_bot_backend.Data.{EaInstance}
use run_bot_backend.Platform.{Platform}
use run_bot_backend.Platform.Exec.{
  World, Exec, Result, err, Exception, not_found, forbidden, rejected, ◌>>◌,
}
use run_bot_backend.Gateway.{by_agent}
use run_bot_backend.Service.{
  no_instance, instance_offline, access_denied, require_ownership, require_online,
}

-- Why a user may not command an agent whose document is `found`, if so.
abbrev pub refusal : String → String → Option EaInstance → Option Exception
refusal agent_id user_id none = some (not_found (no_instance agent_id))
refusal agent_id user_id (some i) =
    if is_text i.user_id user_id
    then (if i.online then none else some (not_found (instance_offline agent_id)))
    else some (forbidden (access_denied agent_id))

-- Why a user may not look at an agent.
abbrev pub stranger : String → String → Option EaInstance → Option Exception
stranger agent_id user_id none = some (not_found (no_instance agent_id))
stranger agent_id user_id (some i) =
    if is_text i.user_id user_id then none else some (forbidden (access_denied agent_id))

-- The database is down, or `why` gives an exception: both leave the state alone. Or the rest runs.
abbrev pub Gate :
    {P : Platform} {A : Type 0}
    → String
    → (Option EaInstance → Option Exception)
    → Exec P A
    → World P
    → Result A × World P
    → Type 0
Gate {P} agent_id why rest w r =
    ((P.find_one (by_agent agent_id) w.db ≡ none) × (r ≡ (err rejected, w)))
    ⊎ ((found : Option EaInstance) × (P.find_one (by_agent agent_id) w.db ≡ some found)
        × (((e : Exception) × (why found ≡ some e) × (r ≡ (err e, w)))
            ⊎ ((why found ≡ none) × (r ≡ rest w))))

module _ {P : Platform} {A : Type 0} (agent_id user_id : String) (rest : Exec P A)
    (w : World P) where
  pub commanded :
      Gate agent_id
        (refusal agent_id user_id)
        rest
        w
        ((require_ownership agent_id user_id >> (require_online agent_id >> rest)) w)
  unfolding require_ownership require_online
  commanded = elim (Option-cases (P.find_one (by_agent agent_id) w.db)) [
    | inl down ↦ inl (down, ground arith)
    | inr (none, found) ↦
        inr (none, found, inl (not_found (no_instance agent_id), refl, ground arith))
    | inr (some i, found) ↦ inr (
      some i,
      found,
      elim (Bool-cases (is_text i.user_id user_id)) [
        | inl mine ↦ elim (Bool-cases i.online) [
          | inl on ↦ inr (ground arith, ground arith)
          | inr off ↦ inl (not_found (instance_offline agent_id), ground arith, ground arith)
        ]
        | inr other ↦ inl (forbidden (access_denied agent_id), ground arith, ground arith)
      ],
    )
  ]

  pub looked_at :
      Gate agent_id
        (stranger agent_id user_id)
        rest
        w
        ((require_ownership agent_id user_id >> rest) w)
  unfolding require_ownership
  looked_at = elim (Option-cases (P.find_one (by_agent agent_id) w.db)) [
    | inl down ↦ inl (down, ground arith)
    | inr (none, found) ↦
        inr (none, found, inl (not_found (no_instance agent_id), refl, ground arith))
    | inr (some i, found) ↦ inr (
      some i,
      found,
      elim (Bool-cases (is_text i.user_id user_id)) [
        | inl mine ↦ inr (ground arith, ground arith)
        | inr other ↦ inl (forbidden (access_denied agent_id), ground arith, ground arith)
      ],
    )
  ]

-- Only the owner of an EA that is online gets past.
pub refusal-eq-none :
    (agent_id user_id : String) (found : Option EaInstance)
    → refusal agent_id user_id found ≡ none
    → (i : EaInstance) × (found ≡ some i) × (i.user_id ≡ some user_id) × (i.online ≡ true)
refusal-eq-none agent_id user_id none h = cc
refusal-eq-none agent_id user_id (some i) h =
    (i, refl, is_text-eq_some i.user_id user_id (ground arith), ground arith)

pub stranger-eq-none :
    (agent_id user_id : String) (found : Option EaInstance)
    → stranger agent_id user_id found ≡ none
    → (i : EaInstance) × (found ≡ some i) × (i.user_id ≡ some user_id)
stranger-eq-none agent_id user_id none h = cc
stranger-eq-none agent_id user_id (some i) h =
    (i, refl, is_text-eq_some i.user_id user_id (ground arith))

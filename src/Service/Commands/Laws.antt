-- ===== src/Service/Commands/Laws.antt =====
-- What a command does, for every verb: who may send it, what goes out, what is audited.
use run_bot_backend.Prelude.{
  suc, String, ◌≡◌, ap, ◌∙◌, ◌⊎◌, inl, inr, Option, none, some, Bool, true, false, ◌∷◌,
  Option-cases, arith,
}
use run_bot_backend.Data.{
  EaInstance, EaAuditLog, AuditEvent, AuditPayload, Effect, emit_room, bridge_command,
}
use run_bot_backend.Platform.{Platform}
use run_bot_backend.Platform.Exec.{World, Exec, Result, Exception, ok, err, rejected, ◌>>◌}
use run_bot_backend.Gateway.{bridge_room, by_agent}
use run_bot_backend.Service.{require_ownership, require_online}
use run_bot_backend.Service.Access.{refusal, refusal-eq-none, commanded, Gate}
use run_bot_backend.Service.Commands.{
  send_kill_switch, send_kill_reset, send_master_enable, send_close_buy, send_close_sell,
}

pub data Command : Type 0 where
  kill_switch kill_reset close_buy close_sell : Command
  master_enable : Bool → Command

module _ {P : Platform} where
  abbrev pub send : Command → String → String → Exec P String
  send kill_switch = send_kill_switch
  send kill_reset = send_kill_reset
  send close_buy = send_close_buy
  send close_sell = send_close_sell
  send (master_enable enabled) = λ agent_id. send_master_enable agent_id enabled

abbrev pub verb : Command → String
verb kill_switch = "KILL_SWITCH"
verb kill_reset = "KILL_RESET"
verb close_buy = "CLOSE_BUY"
verb close_sell = "CLOSE_SELL"
verb (master_enable enabled) = "MASTER_ENABLE"

abbrev pub value : Command → Option String
value (master_enable true) = some "1"
value (master_enable false) = some "0"
value _ = none

abbrev pub audit : Command → String → String → String → EaAuditLog
audit kill_switch a u id = record {
  agent_id = a;
  event = AuditEvent.kill_switch;
  payload = AuditPayload.command id;
  user_id = some u;
}
audit kill_reset a u id = record {
  agent_id = a;
  event = AuditEvent.kill_reset;
  payload = AuditPayload.command id;
  user_id = some u;
}
audit close_buy a u id = record {
  agent_id = a;
  event = AuditEvent.close_buy;
  payload = AuditPayload.command id;
  user_id = some u;
}
audit close_sell a u id = record {
  agent_id = a;
  event = AuditEvent.close_sell;
  payload = AuditPayload.command id;
  user_id = some u;
}
audit (master_enable enabled) a u id = record {
  agent_id = a;
  event = AuditEvent.master_enable;
  payload = AuditPayload.enabling id enabled;
  user_id = some u;
}

module _ {P : Platform} (c : Command) (agent_id user_id : String) (w : World P) where
  -- The one effect of a command.
  abbrev pub order : Effect
  order = emit_room (bridge_room agent_id) (bridge_command (P.uuid w.uuids) (verb c) (value c))

  -- The state after the dispatch, before the audit write.
  abbrev pub dispatched : World P
  dispatched = record w { uuids = suc w.uuids; trace = order ∷ w.trace }

  abbrev pub entry : EaAuditLog
  entry = audit c agent_id user_id (P.uuid w.uuids)

  abbrev finish : Option P.Db → Result String × World P
  finish none = (err rejected, dispatched)
  finish (some db) = (ok (P.uuid w.uuids), record dispatched { db = db })

module _ {P : Platform} where
  pub tail : Command → String → String → Exec P String
  tail c agent_id user_id w =
      finish c agent_id user_id w (P.create_audit_log (entry c agent_id user_id w) w.db)

  send-tail :
      (c : Command) (agent_id user_id : String) (w : World P)
      → send c agent_id user_id w
        ≡ (require_ownership agent_id user_id
              >> (require_online agent_id >> tail c agent_id user_id))
            w
  unfolding send_kill_switch send_kill_reset send_master_enable send_close_buy send_close_sell tail
  send-tail kill_switch agent_id user_id w = ground arith
  send-tail kill_reset agent_id user_id w = ground arith
  send-tail close_buy agent_id user_id w = ground arith
  send-tail close_sell agent_id user_id w = ground arith
  send-tail (master_enable true) agent_id user_id w = ground arith
  send-tail (master_enable false) agent_id user_id w = ground arith

  pub send-Gate :
      (c : Command) (agent_id user_id : String) (w : World P)
      → Gate agent_id
          (refusal agent_id user_id)
          (tail c agent_id user_id)
          w
          (send c agent_id user_id w)
  send-Gate c agent_id user_id w =
      rw (send-tail c agent_id user_id w) (commanded agent_id user_id (tail c agent_id user_id) w)

  tail_trace :
      (c : Command) (agent_id user_id : String) (w : World P)
      → (tail c agent_id user_id w).1.trace ≡ order c agent_id user_id w ∷ w.trace
  unfolding tail
  tail_trace c agent_id user_id w = ground arith

  -- A command, of any verb, either sends nothing at all, or the database has shown that the agent's
  -- EA is online and belongs to the caller, and exactly one event goes out: that verb, under the
  -- next command id, to the bridge room of that agent.
  pub send-authorized :
      (c : Command) (agent_id user_id : String) (w : World P)
      → ((send c agent_id user_id w).1.trace ≡ w.trace)
        ⊎ ((i : EaInstance) × (P.find_one (by_agent agent_id) w.db ≡ some (some i))
            × (i.user_id ≡ some user_id)
            × (i.online ≡ true)
            × ((send c agent_id user_id w).1.trace ≡ order c agent_id user_id w ∷ w.trace))
  unfolding tail
  send-authorized c agent_id user_id w = elim (send-Gate c agent_id user_id w) [
    | inl (down, r) ↦ inl (ap (λ x. x.1.trace) r)
    | inr (found, e, inl (why, refused, r)) ↦ inl (ap (λ x. x.1.trace) r)
    | inr (found, e, inr (allowed, r)) ↦
        let (i, is_i, mine, on) = refusal-eq-none agent_id user_id found allowed in
        inr (i, e ∙ ap some is_i, mine, on, ap (λ x. x.1.trace) r ∙ tail_trace c agent_id user_id w)
  ]

  -- Where the agent is unknown, belongs to another user or is offline, a command of any verb throws
  -- the exception of that case and changes nothing: nothing is sent, no id is drawn, nothing is audited.
  pub send_refused :
      (c : Command) (agent_id user_id : String) (w : World P) (found : Option EaInstance)
      (e : Exception)
      → P.find_one (by_agent agent_id) w.db ≡ some found
      → refusal agent_id user_id found ≡ some e
      → send c agent_id user_id w ≡ (err e, w)
  send_refused c agent_id user_id w found e f h = elim (send-Gate c agent_id user_id w) [
    | inl (down, r) ↦ cc
    | inr (found', f', inl (e', refused, r)) ↦ cc
    | inr (found', f', inr (allowed, r)) ↦ cc
  ]

  -- Where the caller owns the agent's EA and it is online, the command goes out before it is audited:
  -- with the audit entry written the caller gets the command's id, and with the write rejected the
  -- caller gets the rejection although the command is out.
  pub send_granted :
      (c : Command) (agent_id user_id : String) (w : World P) (found : Option EaInstance)
      → P.find_one (by_agent agent_id) w.db ≡ some found
      → refusal agent_id user_id found ≡ none
      → ((db : P.Db) × (P.create_audit_log (entry c agent_id user_id w) w.db ≡ some db)
          × (send c agent_id user_id w ≡ (
            ok (P.uuid w.uuids),
            record w { db = db; uuids = suc w.uuids; trace = order c agent_id user_id w ∷ w.trace },
          )))
        ⊎ ((P.create_audit_log (entry c agent_id user_id w) w.db ≡ none)
            × (send c agent_id user_id w ≡ (
              err rejected,
              record w { uuids = suc w.uuids; trace = order c agent_id user_id w ∷ w.trace },
            )))
  unfolding tail
  send_granted c agent_id user_id w found f h = elim (send-Gate c agent_id user_id w) [
    | inl (down, r) ↦ cc
    | inr (found', f', inl (e', refused, r)) ↦ cc
    | inr (found', f', inr (allowed, r)) ↦
        elim (Option-cases (P.create_audit_log (entry c agent_id user_id w) w.db)) [
          | inl lost ↦ inr (lost, r ∙ ap (finish c agent_id user_id w) lost)
          | inr (db, written) ↦ inl (db, written, r ∙ ap (finish c agent_id user_id w) written)
        ]
  ]

-- ===== src/System/Offline.antt =====
-- A bridge that comes back while the database still writes that it has gone: `handleDisconnect` of
-- the agent's old socket awaits its update, which lands after `onBridgeRegister` of the new one.
use run_bot_backend.Prelude.{
  ℕ, String, ◌≡◌, ◌≢◌, refl, ◌∙◌, Option, some, false, ◌∷◌, eq_iff, eq_refl, arith, lookup, erase,
  lookup-insert,
}
use run_bot_backend.Data.{EaInstance, new_instance, status, emit_room, Socket}
use run_bot_backend.Platform.{Platform, Laws}
use run_bot_backend.Platform.Documents.{
  document, base_of, found-document, document-update_one, document-upsert_one,
}
use run_bot_backend.Platform.Exec.{World, ok, err, not_found}
use run_bot_backend.Gateway.{agent_room, by_agent, bound_agent}
use run_bot_backend.Gateway.Connection.{set_offline, report_offline, handle_disconnect}
use run_bot_backend.Gateway.Bridge.{Registration, register_instance, on_bridge_register}
use run_bot_backend.Gateway.Bridge.Register.{Accepts, taken, register_accepted}
use run_bot_backend.Service.{instance_offline}
use run_bot_backend.Service.Commands.Laws.{Command, send, send_refused}

module _ {P : Platform} where
  -- The state in which the old socket's handler awaits its update.
  abbrev pub left : String → World P → World P
  left a w = record w { bridge_sockets = erase a w.bridge_sockets }

  -- The handler is what came before its update and what comes from there on.
  pub split_at_await :
      (later : ℕ) (old : Socket) (a : String) (w : World P)
      → bound_agent old.state ≡ some a
      → a ≢ ""
      → lookup a w.bridge_sockets ≡ some old.id
      → handle_disconnect later old w ≡ report_offline later a (left a w)
  unfolding handle_disconnect
  split_at_await later old a w bound named current = ground (arith, eq_iff a "", eq_refl old.id)

  pub reported :
      (later : ℕ) (a : String) (w : World P) (db : P.Db)
      → P.update_one (by_agent a) set_offline w.db ≡ some db
      → report_offline later a w ≡ (
        ok tt,
        record w {
          db = db;
          trace = emit_room (agent_room a) (status a false (some later)) ∷ w.trace;
        },
      )
  unfolding report_offline
  reported later a w db e = ground arith

  Accepts-left :
      (client : Socket) (a : String) (claimed : Option String) (r : Registration) (w : World P)
      → Accepts client a claimed r w
      → Accepts client a claimed r (left a w)
  Accepts-left client a claimed r w x = record {
    bound = x.bound;
    named = x.named;
    agrees = x.agrees;
    existing = x.existing;
    found = x.found;
    free = x.free;
    complete = x.complete;
  }

module _ {P : Platform} (laws : Laws P) where
  -- What the database holds of the agent after both writes.
  both_written :
      (now : ℕ) (a : String) (r : Registration) (db db' db'' : P.Db)
      → P.upsert_one (by_agent a) (new_instance a) (register_instance now r) db ≡ some db'
      → P.update_one (by_agent a) set_offline db' ≡ some db''
      → document P a db''
        ≡ some (set_offline (register_instance now r (base_of (new_instance a) (document P a db))))
  both_written now a r db db' db'' up off =
      rw
        (
          document-update_one laws a a set_offline db' db'' (λ i. refl) off,
          document-upsert_one laws a a (new_instance a) (register_instance now r) db db' (λ i. refl)
              refl up,
          eq_refl a,
        )
        refl

  -- The current socket of an agent goes, and while its handler awaits the update, the agent's bridge
  -- registers with another socket and is accepted. Where the update lands after the registration's
  -- write and the database answers, the new socket is the agent's current one, but the last that the
  -- agent's room is told is that it is offline, and every command of its owner is refused because the
  -- instance is offline, without a change of the state.
  pub offline_during_register :
      (now later : ℕ) (old client : Socket) (a : String) (claimed : Option String)
      (r : Registration) (c : Command) (found : Option EaInstance) (w : World P) (db db' : P.Db)
      → bound_agent old.state ≡ some a
      → lookup a w.bridge_sockets ≡ some old.id
      → Accepts client a claimed r w
      → P.upsert_one (by_agent a) (new_instance a) (register_instance now r) w.db ≡ some db
      → P.update_one (by_agent a) set_offline db ≡ some db'
      → P.find_one (by_agent a) db' ≡ some found
      → let w' = (on_bridge_register now client claimed (left a w)).1 in
        let w'' = (report_offline later a w').1 in
        (handle_disconnect later old w ≡ report_offline later a (left a w))
        × (lookup a w''.bridge_sockets ≡ some client.id)
        × (w''.trace ≡ emit_room (agent_room a) (status a false (some later)) ∷ w'.trace)
        × (send c a r.user_id w'' ≡ (err (not_found (instance_offline a)), w''))
  offline_during_register now later old client a claimed r c found w db db' bound current accepts up
        off answers =
      let back =
        register_accepted now client a claimed r (left a w) db
          (Accepts-left client a claimed r w accepts) up in
      let gone = reported later a (taken now client a db (left a w)) db' off in
      let is : found
          ≡ some (
              set_offline
                (register_instance now r (base_of (new_instance a) (document P a w.db)))) =
        found-document laws a db' found answers ∙ both_written now a r w.db db db' up off in
      rw (back, gone)
        (
          split_at_await later old a w bound accepts.named current,
          lookup-insert a a client.id (erase a w.bridge_sockets) ∙ rw (eq_refl a) refl,
          refl,
          send_refused c a r.user_id _ found (not_found (instance_offline a)) answers
              (rw (is, eq_refl r.user_id) refl),
        )

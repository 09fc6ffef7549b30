-- ===== src/Gateway/Bridge/Race.antt =====
-- Two registrations of one agent that both read the database before either writes to it. The part of
-- `onBridgeRegister` after its first `await` is `register_owned`, with what the read gave.
use run_bot_backend.Prelude.{
  ℕ, String, ◌≡◌, ◌≢◌, refl, ◌∙◌, ap, none, some, true, eq_refl, eq_iff, arith, lookup,
  lookup-insert,
}
use run_bot_backend.Data.{new_instance, Socket}
use run_bot_backend.Platform.{Platform, Laws}
use run_bot_backend.Platform.Documents.{document, document-upsert_one}
use run_bot_backend.Platform.Exec.{World}
use run_bot_backend.Platform.Owners.{owner}
use run_bot_backend.Gateway.{by_agent, bound_agent}
use run_bot_backend.Gateway.Bridge.{
  Registration, register_instance, registration, owned_by_another, register_fields, register_owned,
  register_agent, on_bridge_register,
}
use run_bot_backend.Gateway.Bridge.Register.{take_over_lem}

module _ {P : Platform} (laws : Laws P) where
  -- A registration that read that there is no instance, in whatever state it goes on.
  went_on :
      (now : ℕ) (client : Socket) (a : String) (r : Registration) (w : World P) (db : P.Db)
      → registration a client.state ≡ some r
      → P.upsert_one (by_agent a) (new_instance a) (register_instance now r) w.db ≡ some db
      → ((register_owned now client a none w).1.db ≡ db)
        × (lookup a (register_owned now client a none w).1.bridge_sockets ≡ some client.id)
  unfolding register_owned register_fields owned_by_another
  went_on now client a r w db complete e =
      rw
        (
          complete,
          register_fields,
          take_over_lem now
              (record client {
                state = record client.state { agent_id = some a; is_bridge = true };
              })
              a r w db e,
        )
        (refl, lookup-insert a a client.id w.bridge_sockets ∙ rw (eq_refl a) refl)

  owner_written :
      (now : ℕ) (a : String) (r : Registration) (db db' : P.Db)
      → P.upsert_one (by_agent a) (new_instance a) (register_instance now r) db ≡ some db'
      → owner (document P a db') ≡ some r.user_id
  owner_written now a r db db' e =
      rw
        (
          document-upsert_one laws a a (new_instance a) (register_instance now r) db db' (λ i. refl)
              refl e,
          eq_refl a,
        )
        refl

  handled :
      (now : ℕ) (client : Socket) (a : String) (w : World P)
      → bound_agent client.state ≡ some a
      → a ≢ ""
      → P.find_one (by_agent a) w.db ≡ some none
      → on_bridge_register now client none w ≡ register_owned now client a none w
  unfolding on_bridge_register register_agent
  handled now client a w bound named free = ground (arith, eq_iff a "")

  -- The ownership lock holds for handlers that run one after the other, and not across the read and
  -- the write of one registration. Where two bridges with complete registrations of one agent, of
  -- whatever users, both read that nobody has it, the first to write owns it, and the second then
  -- writes over it: the agent belongs to the second user and its current socket is the second.
  pub register_race :
      (now later : ℕ) (first second : Socket) (a : String) (r s : Registration) (w : World P)
      (db db' : P.Db)
      → bound_agent first.state ≡ some a
      → a ≢ ""
      → P.find_one (by_agent a) w.db ≡ some none
      → registration a first.state ≡ some r
      → registration a second.state ≡ some s
      → P.upsert_one (by_agent a) (new_instance a) (register_instance now r) w.db ≡ some db
      → P.upsert_one (by_agent a) (new_instance a) (register_instance later s) db ≡ some db'
      → let w' = (on_bridge_register now first none w).1 in
        let w'' = (register_owned later second a none w').1 in
        (owner (document P a w'.db) ≡ some r.user_id)
        × (lookup a w'.bridge_sockets ≡ some first.id)
        × (owner (document P a w''.db) ≡ some s.user_id)
        × (lookup a w''.bridge_sockets ≡ some second.id)
  register_race now later first second a r s w db db' bound named free complete complete' e e' =
      let (kept, current) = went_on now first a r w db complete e in
      let handler = handled now first a w bound named free in
      rw handler (
        ap (λ d. owner (document P a d)) kept ∙ owner_written now a r w.db db e,
        current,
        ap (λ d. owner (document P a d)) (went_on later second a s _ db' complete' (rw kept e')).0
            ∙ owner_written later a s db db' e',
        (went_on later second a s _ db' complete' (rw kept e')).1,
      )

-- ===== src/Gateway/Bridge/Register.antt =====
-- What `bridge:register` does, and who is current afterwards.
use run_bot_backend.Prelude.{
  ℕ, String, ◌≡◌, ◌≢◌, refl, ◌∙◌, ◌⊎◌, inl, inr, Option, none, some, true, false, not, ◌&&◌, List,
  ◌∷◌, ◌==◌, eq_iff, eq_refl, Option-cases, arith, if◌then◌else◌, truthy, ne_test, lookup, insert,
  lookup-insert,
}
use run_bot_backend.Data.{
  EaInstance, new_instance, Effect, emit_room, disconnect, join, status, Socket,
}
use run_bot_backend.Platform.{Platform, Laws}
use run_bot_backend.Platform.Documents.{document, KeepsAgent, base_of, document-upsert_one}
use run_bot_backend.Platform.Exec.{World, ok, err, rejected}
use run_bot_backend.Gateway.{agent_room, bridge_room, by_agent, bound_agent}
use run_bot_backend.Gateway.Connection.{handle_disconnect}
use run_bot_backend.Gateway.Bridge.{
  Registration, registration, register_instance, owned_by_another, take_over, on_bridge_register,
}

-- What a stale socket of the agent gets.
abbrev pub kicked : Socket → Option String → List Effect → List Effect
kicked client none trace = trace
kicked client (some stale) trace =
    if truthy (some stale) && not (stale == client.id) then disconnect stale ∷ trace else trace

module _ {P : Platform} where
  -- The state after a takeover whose upsert gave `db`.
  abbrev pub taken : ℕ → Socket → String → P.Db → World P → World P
  taken now client agent_id db w = record w {
    db = db;
    bridge_sockets = insert agent_id client.id w.bridge_sockets;
    trace =
        emit_room (agent_room agent_id) (status agent_id true none)
        ∷ join client.id (bridge_room agent_id)
        ∷ kicked client (lookup agent_id w.bridge_sockets) w.trace;
  }

  -- The state after one whose upsert was rejected.
  abbrev pub fallen : Socket → String → World P → World P
  fallen client agent_id w = record w {
    bridge_sockets = insert agent_id client.id w.bridge_sockets;
    trace =
        join client.id (bridge_room agent_id)
        ∷ kicked client (lookup agent_id w.bridge_sockets) w.trace;
  }

  pub take_over_down :
      (now : ℕ) (client : Socket) (agent_id : String) (r : Registration) (w : World P)
      → P.upsert_one (by_agent agent_id) (new_instance agent_id) (register_instance now r) w.db
        ≡ none
      → take_over now client agent_id r w ≡ (err rejected, fallen client agent_id w)
  unfolding take_over
  take_over_down now client agent_id r w e =
      elim (Option-cases (lookup agent_id w.bridge_sockets)) [
        | inl none_yet ↦ ground arith
        | inr (stale, there) ↦ ground arith
      ]

  pub take_over_lem :
      (now : ℕ) (client : Socket) (agent_id : String) (r : Registration) (w : World P) (db : P.Db)
      → P.upsert_one (by_agent agent_id) (new_instance agent_id) (register_instance now r) w.db
        ≡ some db
      → take_over now client agent_id r w ≡ (ok client, taken now client agent_id db w)
  unfolding take_over
  take_over_lem now client agent_id r w db e =
      elim (Option-cases (lookup agent_id w.bridge_sockets)) [
        | inl none_yet ↦ ground arith
        | inr (stale, there) ↦ ground arith
      ]

  -- What the database and the payload must show for a registration to go through.
  pub record Accepts (client : Socket) (agent_id : String) (claimed : Option String)
      (r : Registration) (w : World P) : Type 0 where
    pub bound : bound_agent client.state ≡ some agent_id
    pub named : agent_id ≢ ""
    pub agrees : (truthy claimed ≡ false) ⊎ (claimed ≡ some agent_id)
    pub existing : Option EaInstance
    pub found : P.find_one (by_agent agent_id) w.db ≡ some existing
    pub free : owned_by_another existing client.state.user_id ≡ false
    pub complete : registration agent_id client.state ≡ some r

  pub register_accepted :
      (now : ℕ) (client : Socket) (agent_id : String) (claimed : Option String) (r : Registration)
      (w : World P) (db : P.Db)
      → Accepts client agent_id claimed r w
      → P.upsert_one (by_agent agent_id) (new_instance agent_id) (register_instance now r) w.db
        ≡ some db
      → on_bridge_register now client claimed w ≡ (ok client, taken now client agent_id db w)
  unfolding on_bridge_register
  register_accepted now client agent_id claimed r w db a e = ground (
    arith,
    a.bound,
    a.named,
    a.agrees,
    a.found,
    a.free,
    a.complete,
    eq_iff agent_id "",
    eq_iff agent_id agent_id,
    take_over_lem now client agent_id r w db e,
  )

  -- The late disconnect of a socket that is not the agent's current one changes nothing.
  disconnect_stale :
      (later : ℕ) (old : Socket) (agent_id current : String) (w : World P)
      → bound_agent old.state ≡ some agent_id
      → lookup agent_id w.bridge_sockets ≡ some current
      → current ≢ old.id
      → handle_disconnect later old w ≡ (ok tt, w)
  unfolding handle_disconnect
  disconnect_stale later old agent_id current w b l ne = ground (arith, eq_iff current old.id)

  -- Once a registration has gone through, the agent's current socket is the one that registered, no
  -- other agent's current socket has changed, and the disconnect of any other socket of that agent,
  -- however late, changes nothing: it cannot mark the agent offline.
  pub register-disconnect :
      (now later : ℕ) (client old : Socket) (agent_id : String) (claimed : Option String)
      (r : Registration) (w : World P) (db : P.Db)
      → Accepts client agent_id claimed r w
      → P.upsert_one (by_agent agent_id) (new_instance agent_id) (register_instance now r) w.db
        ≡ some db
      → bound_agent old.state ≡ some agent_id
      → client.id ≢ old.id
      → let w' = (on_bridge_register now client claimed w).1 in
        (lookup agent_id w'.bridge_sockets ≡ some client.id)
        × ((other : String)
            → agent_id ≢ other
            → lookup other w'.bridge_sockets ≡ lookup other w.bridge_sockets)
        × (handle_disconnect later old w' ≡ (ok tt, w'))
  register-disconnect now later client old agent_id claimed r w db a e b ne =
      let done = register_accepted now client agent_id claimed r w db a e in
      let current : lookup agent_id (taken now client agent_id db w).bridge_sockets
          ≡ some client.id =
        ground
          (arith, lookup-insert agent_id agent_id client.id w.bridge_sockets, eq_refl agent_id) in
      rw done (
        current,
        (λ other differs. ground (
          arith,
          lookup-insert agent_id other client.id w.bridge_sockets,
          eq_iff agent_id other,
          differs,
        )),
        disconnect_stale later old agent_id client.id _ b current ne,
      )

module _ {P : Platform} (laws : Laws P) where
  registered-KeepsAgent : (now : ℕ) (r : Registration) → KeepsAgent (register_instance now r)
  registered-KeepsAgent now r i = refl

  -- A registration that goes through leaves the agent's instance online, seen now, visible again and
  -- owned by the caller, with the fields of the registration, and every other agent's instance as it
  -- was.
  pub register_document :
      (now : ℕ) (client : Socket) (agent_id : String) (claimed : Option String) (r : Registration)
      (w : World P) (db : P.Db)
      → Accepts client agent_id claimed r w
      → P.upsert_one (by_agent agent_id) (new_instance agent_id) (register_instance now r) w.db
        ≡ some db
      → let w' = (on_bridge_register now client claimed w).1 in
        ((i : EaInstance) × (document P agent_id w'.db ≡ some i)
          × (i.online ≡ true)
          × (i.last_seen_at ≡ some now)
          × (i.hidden_at ≡ none)
          × (i.user_id ≡ some r.user_id)
          × (i.account_login ≡ r.account_login)
          × (i.license_key ≡ r.license_key)
          × (i.symbol ≡ r.symbol))
        × ((other : String) → agent_id ≢ other → document P other w'.db ≡ document P other w.db)
  register_document now client agent_id claimed r w db a e =
      let done = register_accepted now client agent_id claimed r w db a e in
      let written = λ (b : String).
        document-upsert_one laws agent_id b (new_instance agent_id) (register_instance now r) w.db
          db (registered-KeepsAgent now r) refl e in
      rw done (
        (
          register_instance now r (base_of (new_instance agent_id) (document P agent_id w.db)),
          written agent_id ∙ rw (eq_refl agent_id) refl,
          refl,
          refl,
          refl,
          refl,
          refl,
          refl,
          refl,
        ),
        λ other differs. written other ∙ rw (ne_test agent_id other differs) refl,
      )

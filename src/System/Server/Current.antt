-- ===== src/System/Server/Current.antt =====
-- Who is in a bridge's room, by the requests that socket.io got.
use run_bot_backend.Prelude.{
  ℕ, String, ◌≡◌, ◌≢◌, sym, ◌∙◌, ap, inl, inr, Option, none, some, Bool, true, false, ◌&&◌, List,
  [], ◌∷◌, ◌==◌, eq_iff, lookup, insert, erase, lookup-insert, lookup-erase, if◌then◌else◌,
  Bool-cases, ne_test, differs, arith,
}
use run_bot_backend.Data.{Effect, emit_room, emit_client, disconnect, join, leave, Socket}
use run_bot_backend.Cache.{Cache}
use run_bot_backend.Platform.{Platform, Laws}
use run_bot_backend.Platform.Exec.{World}
use run_bot_backend.Platform.Keeps.{Facts, Holds, IsQuiet, IsStable}
use run_bot_backend.Platform.Owners.{
  OwnedBy, owner-update_one, owner-create_audit_log, owner-create_pnl_point,
}
use run_bot_backend.Gateway.{agent_room, bridge_room}
use run_bot_backend.Gateway.Bridge.Register.{kicked}
use run_bot_backend.Gateway.Rooms.{bridge_room_injective, bridge_room-ne-agent_room}

-- The socket is in the room: it was put there, and was not taken out or disconnected since.
abbrev pub present : String → String → List Effect → Bool
present id room [] = false
present id room (join i r ∷ t) = if i == id && r == room then true else present id room t
present id room (leave i r ∷ t) = if i == id && r == room then false else present id room t
present id room (disconnect i ∷ t) = if i == id then false else present id room t
present id room (emit_room r event ∷ t) = present id room t
present id room (emit_client i event ∷ t) = present id room t

present_quiet :
    (id room : String) (e : Effect) (t : List Effect)
    → IsQuiet e
    → present id room (e ∷ t) ≡ true
    → present id room t ≡ true
present_quiet id room (emit_room r event) t q h = h
present_quiet id room (emit_client i event) t q h = h
present_quiet id room (disconnect i) t q h = ground arith
present_quiet id room (leave i r) t q h = ground arith
present_quiet id room (join i r) t q h = elim q [ ]

-- A socket in the room of an agent's bridge is the agent's current one, has a verified user, and
-- whoever owns the agent is that user.
abbrev pub Current : (P : Platform) → String → String → Option String → Facts P
Current P id a user db b t c =
    present id (bridge_room a) t ≡ true
    → (lookup a b ≡ some id)
      × ((u : String) × (user ≡ some u))
      × ((v : String) → v ≢ "" → OwnedBy P a v db → user ≡ some v)

module _ {P : Platform} (laws : Laws P) (id a : String) (user : Option String) where
  same_owners :
      (db db' : P.Db) (b : List (String × String)) (t : List Effect) (c : Cache)
      → ((v : String) → OwnedBy P a v db' → OwnedBy P a v db)
      → Current P id a user db b t c
      → Current P id a user db' b t c
  same_owners db db' b t c k h p =
      let (l, named, own) = h p in (l, named, λ v real o. own v real (k v o))

  pub Current-IsStable : {T : ℕ} → IsStable P T (Current P id a user)
  Current-IsStable = record {
    updated = λ p f k db db' e b t c.
        same_owners db db' b t c (λ v o. sym (owner-update_one laws a p f k db db' e) ∙ o);
    audited = λ e db db' written b t c told.
        same_owners db db' b t c (λ v o. sym (owner-create_audit_log laws a e db db' written) ∙ o);
    recorded = λ e db db' written b t c.
        same_owners db db' b t c (λ v o. sym (owner-create_pnl_point laws a e db db' written) ∙ o);
    sent = λ e quiet db b t c h p. h (present_quiet id (bridge_room a) e t quiet p);
    looked_up = λ key db b t c h. h;
    swept = λ db b t c h. h;
  }

-- It is struck off with no other socket.
pub erase-Current :
    {P : Platform} (id a other : String) (user : Option String) (b : String) (w : World P)
    → other ≢ id
    → lookup b w.bridge_sockets ≡ some other
    → Holds {P = P} (Current P id a user) w
    → Current P id a user w.db (erase b w.bridge_sockets) w.trace w.telemetry_cache
erase-Current id a other user b w apart l h p =
    let (current, named, own) = h p in
    (ground (arith, lookup-erase b a w.bridge_sockets, eq_iff b a, apart), named, own)

-- A browser's subscription is to another room.
pub subscribe-Current :
    {P : Platform} (id a other b : String) (user : Option String) (w : World P)
    → Holds {P = P} (Current P id a user) w
    → Current P id a user w.db w.bridge_sockets
        (join other (agent_room b) ∷ w.trace)
        w.telemetry_cache
subscribe-Current id a other b user w h p = h (
    ground
      (arith, ne_test (agent_room b) (bridge_room a) (λ e. bridge_room-ne-agent_room b a (sym e))))

-- After a kick the socket is in the room only if it was there and was not the one that was kicked.
kicked_present :
    (id room : String) (client : Socket) (stale : Option String) (t : List Effect)
    → id ≢ ""
    → client.id ≢ id
    → present id room (kicked client stale t) ≡ true
    → (present id room t ≡ true) × (stale ≢ some id)
kicked_present id room client none t real other p = (p, λ e. cc)
kicked_present id room client (some old) t real other p =
    (ground arith, λ e. absurd (ground (arith, eq_iff old id, eq_iff old "", eq_iff old client.id)))

kicked_there :
    (id room : String) (client : Socket) (stale : Option String) (t : List Effect)
    → present id room (kicked client stale t) ≡ true
    → present id room t ≡ true
kicked_there id room client none t p = p
kicked_there id room client (some old) t p = ground arith

-- A takeover, whatever it writes: `db'` is the database afterwards.
pub take_over-Current :
    (P : Platform) (id a b u : String) (user : Option String) (client : Socket) (db db' : P.Db)
    (bs : List (String × String)) (t : List Effect) (c : Cache)
    → id ≢ ""
    → (client.id ≡ id → user ≡ some u)
    → ((v : String) → v ≢ "" → OwnedBy P a v db' → b ≡ a → v ≡ u)
    → ((v : String) → OwnedBy P a v db' → b ≢ a → OwnedBy P a v db)
    → Current P id a user db bs t c
    → Current P id a user db'
        (insert b client.id bs)
        (join client.id (bridge_room b) ∷ kicked client (lookup b bs) t)
        c
take_over-Current P id a b u user client db db' bs t c real mine here there h p =
    elim (Bool-cases (b == a)) [
      | inl same ↦
          let e : b ≡ a = (eq_iff b a).0 same in
          elim (Bool-cases (client.id == id)) [
            | inl self ↦
                let is : user ≡ some u = mine ((eq_iff client.id id).0 self) in
                (
                  lookup-insert b a client.id bs ∙ rw same (ap some ((eq_iff client.id id).0 self)),
                  (u, is),
                  λ v nv own. is ∙ ap some (sym (here v nv own e)),
                )
            | inr other ↦
                let (was, stays) =
                  kicked_present id (bridge_room a) client (lookup b bs) t real
                    (differs client.id id other) (ground arith) in
                absurd (stays (ap (λ x. lookup x bs) e ∙ (h was).0))
          ]
      | inr apart ↦
          let ne : b ≢ a = differs b a apart in
          let rooms =
            ne_test (bridge_room b) (bridge_room a) (λ q. ne (bridge_room_injective b a q)) in
          let was =
            kicked_there id (bridge_room a) client (lookup b bs) t (ground (arith, rooms)) in
          let (l, named, own) = h was in
          (lookup-insert b a client.id bs ∙ rw apart l, named, λ v nv o. own v nv (there v o ne))
    ]

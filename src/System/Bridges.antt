-- ===== src/System/Bridges.antt =====
-- Who gets the commands for an agent: the sockets in the room `bridge:{agentId}`.
use run_bot_backend.Prelude.{
  String, ◌≡◌, ◌≢◌, refl, sym, ◌∙◌, ap, inl, inr, some, true, List, [], ◌==◌, eq_iff, lookup, erase,
  lookup-insert, lookup-erase, Bool-cases, subst, arith, Distinct,
}
use run_bot_backend.Data.{SocketData}
use run_bot_backend.Platform.{Platform, Laws}
use run_bot_backend.Platform.Exec.{World}
use run_bot_backend.Platform.Keeps.{Holds}
use run_bot_backend.Platform.Owners.{owner, OwnedBy}
use run_bot_backend.Gateway.{bridge_room}
use run_bot_backend.System.{connection, disconnection, client_subscribe, step}
use run_bot_backend.System.Keeps.{step-Keeps}
use run_bot_backend.Gateway.Connection.{handle_connection}
use run_bot_backend.Gateway.Bridge.{on_bridge_register}
use run_bot_backend.Gateway.Bridge.Users.{on_bridge_register-user}
use run_bot_backend.Gateway.Client.{on_client_subscribe}
use run_bot_backend.Platform.Documents.{found-document}
use run_bot_backend.System.Server.{
  Server, blank, socket, joined, Step, comes, connects, registers, subscribes, plain, sweeps, goes,
  Reach, here, next,
}
use run_bot_backend.System.Server.Keeps.{plain-Kept, swept-Holds}
use run_bot_backend.System.Server.Table.{
  SameUser, settled_user, same_data, swept_user, Step-Distinct,
}
use run_bot_backend.System.Server.Users.{connection-user, subscribe-user}
use run_bot_backend.System.Server.Current.{
  present, Current, Current-IsStable, erase-Current, subscribe-Current,
}
use run_bot_backend.Service.Commands.Laws.{Command, send, send-authorized}
use run_bot_backend.System.Server.Takeovers.{present-joined, Current-SameUser, register-Current}

module _ {P : Platform} where
  record IsGuarded (s : Server P) : Type 0 where
    distinct : Distinct s.sockets
    nonempty : (id : String) (d : SocketData) → lookup id s.sockets ≡ some d → id ≢ ""
    held :
        (id : String) (d : SocketData) (a : String)
        → lookup id s.sockets ≡ some d
        → Holds {P = P} (Current P id a d.user_id) s.world

  -- What a step must do to a socket to keep it.
  Guards : Server P → Server P → String → SocketData → Type 0
  Guards s s' id d' =
      (id ≢ "") × ((a : String) → Holds {P = P} (Current P id a d'.user_id) s'.world)

  abbrev Onward : Server P → World P → String → SocketData → Type 0
  Onward s w' id d =
      (a : String)
      → Holds {P = P} (Current P id a d.user_id) s.world
      → Holds {P = P} (Current P id a d.user_id) w'

  Onward-Guards :
      (s s' : Server P) (id : String) (d d' : SocketData)
      → IsGuarded s
      → lookup id s.sockets ≡ some d
      → SameUser d d'
      → Onward s s'.world id d
      → Guards s s' id d'
  unfolding Guards
  Onward-Guards s s' id d d' inv was same k = (
    inv.nonempty id d was,
    λ a. Current-SameUser P id a d d' s'.world same (k a (inv.held id d a was)),
  )

module _ {P : Platform} (laws : Laws P) where
  Step-Guards :
      {s s' : Server P} (st : Step s s') (inv : IsGuarded s) (id : String) (d' : SocketData)
      → lookup id s'.sockets ≡ some d'
      → Guards s s' id d'
  unfolding step Guards
  Step-Guards {s} (comes new named fresh unused) inv id d' l = elim (Bool-cases (new == id)) [
    | inl this ↦
        let e : new ≡ id = (eq_iff new id).0 this in
        (
          subst (λ x. x ≢ "") e named,
          λ a p.
              let never = unused (bridge_room a) in
              let ever = present-joined id (bridge_room a) s.world.trace p in
              let same : joined new (bridge_room a) s.world.trace ≡ true =
                subst (λ x. joined x (bridge_room a) s.world.trace ≡ true) (sym e) ever in
              absurd (ground arith),
        )
    | inr other ↦
        let was : lookup id s.sockets ≡ some d' =
          ground (arith, lookup-insert new id blank s.sockets) in
        (inv.nonempty id d' was, λ a. inv.held id d' a was)
  ]
  Step-Guards {s} {s'} (connects now id0 token was) inv id d' l =
      let (d, there, same) =
        settled_user id0 id blank d' (handle_connection now (socket id0 blank) token s.world).0
          s.sockets was (connection-user now id0 token s.world) l in
      Onward-Guards s s' id d d' inv there same (λ a.
        step-Keeps now (Current-IsStable laws id a d.user_id) (connection (socket id0 blank) token)
          tt s.world)
  Step-Guards {s} {s'} (registers now id0 d0 claimed was) inv id d' l =
      let (d, there, same) =
        settled_user id0 id d0 d' (on_bridge_register now (socket id0 d0) claimed s.world).0
          s.sockets was
          (λ c e. inl (on_bridge_register-user now (socket id0 d0) claimed s.world c e)) l in
      Onward-Guards s s' id d d' inv there same (λ a.
        (register-Current laws id a d.user_id (inv.nonempty id d there) now (socket id0 d0) claimed
            (λ e. ap (λ x. x.user_id) (same_data id0 id s.sockets d0 d e was there))).at
          s.world)
  Step-Guards {s} {s'} (subscribes now id0 d0 b was) inv id d' l =
      let (d, there, same) =
        settled_user id0 id d0 d' (on_client_subscribe now (socket id0 d0) b s.world).0 s.sockets
          was (λ c e. inl (subscribe-user now (socket id0 d0) b s.world c e)) l in
      Onward-Guards s s' id d d' inv there same (λ a.
        step-Keeps now (Current-IsStable laws id a d.user_id) (client_subscribe (socket id0 d0) b)
          (subscribe-Current id a id0 b d.user_id) s.world)
  Step-Guards {s} {s'} (plain now o may) inv id d' l =
      Onward-Guards s s' id d' d' inv l (inl refl) (λ a.
        step-Keeps now (Current-IsStable laws id a d'.user_id) o
          (plain-Kept (Current P id a d'.user_id) s now o (λ b f v h. h) may) s.world)
  Step-Guards {s} {s'} (sweeps now) inv id d' l =
      let (d, there, same) = swept_user now s id d' inv.distinct l in
      Onward-Guards s s' id d d' inv there same
        (λ a. swept-Holds (Current P id a d.user_id) now (Current-IsStable laws id a d.user_id) s)
  Step-Guards {s} {s'} (goes now id0 d0 was) inv id d' l =
      let (there, other) = stays id0 id s.sockets d' l in
      Onward-Guards s s' id d' d' inv there (inl refl) (λ a.
        step-Keeps now (Current-IsStable laws id a d'.user_id) (disconnection (socket id0 d0))
          (λ b w current h. erase-Current id a id0 d'.user_id b w other current h) s.world)
    where
      stays :
          (x y : String) (sockets : List (String × SocketData)) (e : SocketData)
          → lookup y (erase x sockets) ≡ some e
          → (lookup y sockets ≡ some e) × (x ≢ y)
      stays x y sockets e l = (
        ground (arith, lookup-erase x y sockets),
        λ p. absurd (ground (arith, lookup-erase x y sockets, eq_iff x y)),
      )

  Step-IsGuarded : {s s' : Server P} → Step s s' → IsGuarded s → IsGuarded s'
  unfolding Guards
  Step-IsGuarded st inv = record {
    distinct = Step-Distinct st inv.distinct;
    nonempty = λ id d l. (Step-Guards st inv id d l).0;
    held = λ id d a l. (Step-Guards st inv id d l).1 a;
  }

  Reach-IsGuarded : {s t : Server P} → IsGuarded s → Reach s t → IsGuarded t
  Reach-IsGuarded inv here = inv
  Reach-IsGuarded inv (next r st) = Step-IsGuarded st (Reach-IsGuarded inv r)

  empty-IsGuarded : (w : World P) → IsGuarded (record { world = w; sockets = [] })
  unfolding lookup
  empty-IsGuarded w = record {
    distinct = tt;
    nonempty = λ id d l. absurd (ground arith);
    held = λ id d a l. absurd (ground arith);
  }

  -- From no sockets and any database, whatever clients send to handlers that run one after the other: a
  -- connected socket that was put into the room of an agent's bridge, and was neither taken out nor told
  -- to disconnect since, is the agent's current socket; and if the agent has an owner in the database
  -- whose id is no empty text, then the socket's user is that owner.
  pub present-current :
      (w : World P) (s : Server P) (id : String) (d : SocketData) (a : String)
      → Reach (record { world = w; sockets = [] }) s
      → lookup id s.sockets ≡ some d
      → present id (bridge_room a) s.world.trace ≡ true
      → (lookup a s.world.bridge_sockets ≡ some id)
        × ((v : String) → v ≢ "" → OwnedBy P a v s.world.db → d.user_id ≡ some v)
  present-current w s id d a r l p =
      let (current, named, own) = (Reach-IsGuarded (empty-IsGuarded w) r).held id d a l p in
      (current, own)

  -- After any such history, a command of any verb that a user with an id gives and that sends
  -- something reaches one socket at most, and that user's: a connected socket that is in the room of the
  -- agent's bridge is that user's, and is the agent's current one.
  pub send-reaches :
      (w : World P) (s : Server P) (id : String) (d : SocketData) (c : Command) (a v : String)
      → Reach (record { world = w; sockets = [] }) s
      → lookup id s.sockets ≡ some d
      → present id (bridge_room a) s.world.trace ≡ true
      → v ≢ ""
      → (send c a v s.world).1.trace ≢ s.world.trace
      → (d.user_id ≡ some v) × (lookup a s.world.bridge_sockets ≡ some id)
  send-reaches w s id d c a v r l p real sent =
      let (current, own) = present-current w s id d a r l p in
      elim (send-authorized c a v s.world) [
        | inl silent ↦ absurd (sent silent)
        | inr (i, found, mine, on, out) ↦ (
          own v real (sym (ap owner (found-document laws a s.world.db (some i) found)) ∙ mine),
          current,
        )
      ]

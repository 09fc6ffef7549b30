-- ===== src/System/Rooms.antt =====
-- Who listens to an agent: the sockets in the room `agent:{agentId}`, which gets the agent's telemetry.
use mathlib.Core.Bool.{◌&&◌}
use run_bot_backend.Prelude.{
  ℕ, String, ◌≡◌, refl, sym, ◌∙◌, ap, ◌⊎◌, inl, inr, some, true, false, List, [], ◌==◌, eq_iff,
  lookup, insert, erase, lookup-insert, lookup-erase, Bool-cases, subst, arith, Distinct,
}
use run_bot_backend.Data.{SocketData}
use run_bot_backend.Platform.{Platform, Laws}
use run_bot_backend.Platform.Exec.{World}
use run_bot_backend.Platform.Owners.{owner, OwnedBy}
use run_bot_backend.Gateway.{agent_room}
use run_bot_backend.System.{
  Occurrence, connection, disconnection, bridge_register, client_subscribe, step,
}
use run_bot_backend.System.Keeps.{Kept, step-Keeps}
use run_bot_backend.System.Ownership.{step-owner}
use run_bot_backend.Gateway.Connection.{handle_connection}
use run_bot_backend.Gateway.Bridge.{on_bridge_register}
use run_bot_backend.Gateway.Bridge.Users.{on_bridge_register-user}
use run_bot_backend.Gateway.Client.{on_client_subscribe}
use run_bot_backend.Gateway.Client.Laws.{subscribe-authorized}
use run_bot_backend.Gateway.Client.Keeps.{on_client_subscribe-Keeps}
use run_bot_backend.Platform.Documents.{found-document}
use run_bot_backend.System.Server.{
  Server, blank, socket, joined, Step, comes, connects, registers, subscribes, plain, sweeps, goes,
  swept, Reach, here, next,
}
use run_bot_backend.Gateway.Rooms.{agent_room_injective}
use run_bot_backend.System.Server.Joins.{NotIn, NotIn-IsStable, was_there, register-NotIn}
use run_bot_backend.System.Server.Users.{connection-user, subscribe-user}
use run_bot_backend.System.Server.Keeps.{plain-Kept, swept-Holds}
use run_bot_backend.System.Server.Table.{
  SameUser, settled_user, same_data, swept_user, Step-Distinct,
}
use run_bot_backend.System.Server.Sound.{OwnerAt, IsSound, Advances, Advances-IsSound}

module _ {P : Platform} where
  step_joins :
      (s : Server P) (now : ℕ) (o : Occurrence) (id : String) (d : SocketData) (a : String)
      → Kept P (NotIn P id (agent_room a)) now o
      → joined id (agent_room a) (step now o s.world).trace ≡ true
      → (joined id (agent_room a) s.world.trace ≡ true) ⊎ OwnerAt s d a
  step_joins s now o id d a k j = inl (
      was_there id (agent_room a) s.world.trace (step now o s.world).trace
        (step-Keeps now (NotIn-IsStable id (agent_room a)) o k s.world) j)

module _ {P : Platform} (laws : Laws P) where
  subscribe_joins :
      (s : Server P) (now : ℕ) (id0 : String) (d0 : SocketData) (b : String)
      → lookup id0 s.sockets ≡ some d0
      → (id : String) (d : SocketData) (a : String) → lookup id s.sockets ≡ some d
      → joined id (agent_room a) (on_client_subscribe now (socket id0 d0) b s.world).1.trace ≡ true
      → (joined id (agent_room a) s.world.trace ≡ true) ⊎ OwnerAt s d a
  subscribe_joins s now id0 d0 b was id d a l j =
      elim (subscribe-authorized now (socket id0 d0) b s.world) [
        | inl down ↦ inl (ground arith)
        | inr (inl refused) ↦ inl (ground arith)
        | inr (inr (i, u, found, owned, mine, set)) ↦
            elim (Bool-cases (id0 == id && agent_room b == agent_room a)) [
              | inl match ↦
                  let same_id : id0 ≡ id = ground (arith, eq_iff id0 id) in
                  let same_room : agent_room b ≡ agent_room a =
                    ground (arith, eq_iff (agent_room b) (agent_room a)) in
                  let same : b ≡ a = agent_room_injective b a same_room in
                  let doc = found-document laws b s.world.db (some i) found in
                  let data_is : d ≡ d0 = same_data id0 id s.sockets d0 d same_id was l in
                  inr (
                    u,
                    ap (λ x. x.user_id) data_is ∙ mine,
                    subst (λ x. OwnedBy P x u s.world.db) same (sym (ap owner doc) ∙ owned),
                  )
              | inr there ↦ inl (
                  was_there id (agent_room a) s.world.trace
                    (on_client_subscribe now (socket id0 d0) b s.world).1.trace
                    ((on_client_subscribe-Keeps (NotIn-IsStable id (agent_room a)) (socket id0 d0) b
                        (λ w h. rw (there, h) refl)).at
                      s.world)
                    j)
            ]
      ]

  Step-Advances : {s s' : Server P} → Distinct s.sockets → Step s s' → Advances s s'
  unfolding step
  Step-Advances {s} distinct (comes id named fresh unused) = record {
    owners = λ a u real own. own;
    sockets = λ i d' l. came i d' l;
    joins = λ i d a l j. inl j;
  }
    where
      came :
          (i : String) (d' : SocketData)
          → lookup i (insert id blank s.sockets) ≡ some d'
          → ((d' ≡ blank) × ((a : String) → joined i (agent_room a) s.world.trace ≡ false))
            ⊎ ((d : SocketData) × (lookup i s.sockets ≡ some d) × SameUser d d')
      came i d' l = elim (Bool-cases (id == i)) [
        | inl same ↦
            let e : id ≡ i = (eq_iff id i).0 same in
            inl (
              ground (arith, lookup-insert id i blank s.sockets),
              λ a.
                  subst (λ x. joined x (agent_room a) s.world.trace ≡ false) e
                    (unused (agent_room a)),
            )
        | inr other ↦ inr (d', ground (arith, lookup-insert id i blank s.sockets), inl refl)
      ]
  Step-Advances {s} distinct (connects now id token was) = record {
    owners = λ a u real own.
        step-owner laws a u real now (connection (socket id blank) token) s.world own;
    sockets = λ i d' l. inr (
        settled_user id i blank d' (handle_connection now (socket id blank) token s.world).0
          s.sockets was (connection-user now id token s.world) l);
    joins = λ i d a l j. step_joins s now (connection (socket id blank) token) i d a tt j;
  }
  Step-Advances {s} distinct (registers now id d0 claimed was) = record {
    owners = λ a u real own.
        step-owner laws a u real now (bridge_register (socket id d0) claimed) s.world own;
    sockets = λ i d' l. inr (
        settled_user id i d0 d' (on_bridge_register now (socket id d0) claimed s.world).0 s.sockets
          was (λ c e. inl (on_bridge_register-user now (socket id d0) claimed s.world c e)) l);
    joins = λ i d a l j.
        step_joins s now (bridge_register (socket id d0) claimed) i d a
          (register-NotIn i a now (socket id d0) claimed) j;
  }
  Step-Advances {s} distinct (subscribes now id d0 b was) = record {
    owners = λ a u real own.
        step-owner laws a u real now (client_subscribe (socket id d0) b) s.world own;
    sockets = λ i d' l. inr (
        settled_user id i d0 d' (on_client_subscribe now (socket id d0) b s.world).0 s.sockets was
          (λ c e. inl (subscribe-user now (socket id d0) b s.world c e)) l);
    joins = subscribe_joins s now id d0 b was;
  }
  Step-Advances {s} distinct (plain now o may) = record {
    owners = λ a u real own. step-owner laws a u real now o s.world own;
    sockets = λ i d' l. inr (d', l, inl refl);
    joins = λ i d a l j.
        step_joins s now o i d a (plain-Kept (NotIn P i (agent_room a)) s now o (λ b f v h. h) may)
          j;
  }
  Step-Advances {s} distinct (sweeps now) = record {
    owners = λ a u real own. own;
    sockets = λ i d' l. inr (swept_user now s i d' distinct l);
    joins = λ i d a l j. inl (
        was_there i (agent_room a) s.world.trace (swept now s).world.trace
          (swept-Holds (NotIn P i (agent_room a)) now (NotIn-IsStable i (agent_room a)) s) j);
  }
  Step-Advances {s} distinct (goes now id d0 was) = record {
    owners =
        λ a u real own. step-owner laws a u real now (disconnection (socket id d0)) s.world own;
    sockets = λ i d' l. inr (d', left id i s.sockets d' l, inl refl);
    joins = λ i d a l j. step_joins s now (disconnection (socket id d0)) i d a (λ b v e h. h) j;
  }
    where
      left :
          (x y : String) (sockets : List (String × SocketData)) (e : SocketData)
          → lookup y (erase x sockets) ≡ some e
          → lookup y sockets ≡ some e
      left x y sockets e l = ground (arith, lookup-erase x y sockets)

  Reach-IsSound : {s t : Server P} → IsSound s → Reach s t → IsSound t
  Reach-IsSound inv here = inv
  Reach-IsSound inv (next {t = t} {u = u} r st) =
      let before = Reach-IsSound inv r in
      Advances-IsSound t u (Step-Advances before.distinct st) (Step-Distinct st before.distinct)
        before

  empty-IsSound : (w : World P) → IsSound (record { world = w; sockets = [] })
  unfolding lookup
  empty-IsSound w = record {
    distinct = tt;
    named = λ id d u l h. absurd (ground arith);
    rooms = λ id d a l j. absurd (ground arith);
  }

  -- From no sockets and any database, whatever clients send to handlers that run one after the other: a
  -- connected socket that was ever put into the room of an agent's listeners has a user, and that user
  -- owns the agent in the database.
  pub joined-owner :
      (w : World P) (s : Server P) (id : String) (d : SocketData) (a : String)
      → Reach (record { world = w; sockets = [] }) s
      → lookup id s.sockets ≡ some d
      → joined id (agent_room a) s.world.trace ≡ true
      → (u : String) × (d.user_id ≡ some u) × OwnedBy P a u s.world.db
  joined-owner w s id d a r l j = (Reach-IsSound (empty-IsSound w) r).rooms id d a l j

-- ===== src/System/Server/Sound.antt =====
-- The invariant on who listens to an agent, and what keeps it.
use run_bot_backend.Prelude.{
  String, ◌≡◌, ◌≢◌, ◌∙◌, ◌⊎◌, inl, inr, some, true, false, lookup, arith, Distinct,
}
use run_bot_backend.Data.{SocketData}
use run_bot_backend.Platform.{Platform}
use run_bot_backend.Platform.Owners.{owner, OwnedBy}
use run_bot_backend.Gateway.{agent_room}
use run_bot_backend.System.Server.{Server, blank, joined}
use run_bot_backend.System.Server.Table.{SameUser, named_kept}

module _ {P : Platform} where
  -- The socket's user is the agent's owner.
  abbrev pub OwnerAt : Server P → SocketData → String → Type 0
  OwnerAt s d a = (u : String) × (d.user_id ≡ some u) × OwnedBy P a u s.world.db

  pub record IsSound (s : Server P) : Type 0 where
    pub distinct : Distinct s.sockets
    pub named :
        (id : String) (d : SocketData) (u : String)
        → lookup id s.sockets ≡ some d
        → d.user_id ≡ some u
        → u ≢ ""
    pub rooms :
        (id : String) (d : SocketData) (a : String)
        → lookup id s.sockets ≡ some d
        → joined id (agent_room a) s.world.trace ≡ true
        → OwnerAt s d a

  -- What a step must do to keep it.
  pub record Advances (s s' : Server P) : Type 0 where
    pub owners : (a u : String) → u ≢ "" → OwnedBy P a u s.world.db → OwnedBy P a u s'.world.db
    pub sockets :
        (id : String) (d' : SocketData)
        → lookup id s'.sockets ≡ some d'
        → ((d' ≡ blank) × ((a : String) → joined id (agent_room a) s'.world.trace ≡ false))
          ⊎ ((d : SocketData) × (lookup id s.sockets ≡ some d) × SameUser d d')
    pub joins :
        (id : String) (d : SocketData) (a : String)
        → lookup id s.sockets ≡ some d
        → joined id (agent_room a) s'.world.trace ≡ true
        → (joined id (agent_room a) s.world.trace ≡ true) ⊎ OwnerAt s d a

  owner_kept :
      (s s' : Server P) (d d' : SocketData) (a : String)
      → ((u : String) → d.user_id ≡ some u → u ≢ "")
      → ((u : String) → u ≢ "" → OwnedBy P a u s.world.db → OwnedBy P a u s'.world.db)
      → SameUser d d'
      → OwnerAt s d a
      → OwnerAt s' d' a
  owner_kept s s' d d' a n k (inl same) (u, mine, own) = (u, same ∙ mine, k u (n u mine) own)
  owner_kept s s' d d' a n k (inr (nobody, v, set, real)) (u, mine, own) = absurd (ground arith)

  pub Advances-IsSound :
      (s s' : Server P) → Advances s s' → Distinct s'.sockets → IsSound s → IsSound s'
  Advances-IsSound s s' adv distinct inv = record {
    distinct = distinct;
    named = named;
    rooms = rooms;
  }
    where
      named :
          (id : String) (d' : SocketData) (u : String)
          → lookup id s'.sockets ≡ some d'
          → d'.user_id ≡ some u
          → u ≢ ""
      named id d' u l h = elim (adv.sockets id d' l) [
        | inl (new, out) ↦ absurd (ground arith)
        | inr (d, was, same) ↦ named_kept d d' u (λ v. inv.named id d v was) same h
      ]

      kept :
          (id : String) (d d' : SocketData) (a : String)
          → lookup id s.sockets ≡ some d
          → SameUser d d'
          → OwnerAt s d a
          → OwnerAt s' d' a
      kept id d d' a was same own =
          owner_kept s s' d d' a (λ v. inv.named id d v was) (λ u. adv.owners a u) same own

      rooms :
          (id : String) (d' : SocketData) (a : String)
          → lookup id s'.sockets ≡ some d'
          → joined id (agent_room a) s'.world.trace ≡ true
          → OwnerAt s' d' a
      rooms id d' a l j = elim (adv.sockets id d' l) [
        | inl (new, out) ↦ let never = out a in absurd (ground arith)
        | inr (d, was, same) ↦ elim (adv.joins id d a was j) [
          | inl before ↦ kept id d d' a was same (inv.rooms id d a was before)
          | inr owner ↦ kept id d d' a was same owner
        ]
      ]

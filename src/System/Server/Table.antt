-- ===== src/System/Server/Table.antt =====
-- What becomes of the data of the connected sockets.
use run_bot_backend.Prelude.{
  ℕ, String, ◌≡◌, ◌≢◌, refl, sym, ◌∙◌, ap, ◌⊎◌, inl, inr, none, some, List, [], ◌∷◌, ◌==◌, eq_iff,
  lookup, lookup-insert, Bool-cases, arith, Distinct, insert-Distinct, erase-Distinct, All, eq_refl,
  ◌/◌,
}
use run_bot_backend.Data.{SocketData, Socket}
use run_bot_backend.Platform.{Platform}
use run_bot_backend.Platform.Exec.{Result, ok, err}
use run_bot_backend.Gateway.Sweep.{is_expired, sweep_sockets, sweep_expired_sockets}
use run_bot_backend.System.Server.{
  Server, blank, with_data, Step, comes, connects, registers, subscribes, plain, sweeps, goes,
  connected, marked, swept,
}

-- The user of a socket is set once, when its token is verified.
abbrev pub SameUser : SocketData → SocketData → Type 0
SameUser d d' =
    (d'.user_id ≡ d.user_id)
    ⊎ ((d.user_id ≡ none) × (u : String) × (d'.user_id ≡ some u) × (u ≢ ""))

pub named_kept :
    (d d' : SocketData) (u : String)
    → ((v : String) → d.user_id ≡ some v → v ≢ "")
    → SameUser d d'
    → d'.user_id ≡ some u
    → u ≢ ""
named_kept d d' u n (inl same) h = n u (sym same ∙ h)
named_kept d d' u n (inr (nobody, v, set, real)) h = λ e. real (ground arith)

pub settled_user :
    (id0 id : String) (d0 d' : SocketData) (r : Result Socket)
    (sockets : List (String × SocketData))
    → lookup id0 sockets ≡ some d0
    → ((c : Socket) → r ≡ ok c → SameUser d0 c.state)
    → lookup id (with_data id0 r sockets) ≡ some d'
    → (d : SocketData) × (lookup id sockets ≡ some d) × SameUser d d'
settled_user id0 id d0 d' (err e) sockets was k l = (d', l, inl refl)
settled_user id0 id d0 d' (ok c) sockets was k l = elim (Bool-cases (id0 == id)) [
  | inl same ↦ (
    d0,
    ground (arith, eq_iff id0 id),
    let e : d' ≡ c.state = ground (arith, lookup-insert id0 id c.state sockets) in rw e (k c refl),
  )
  | inr other ↦ (d', ground (arith, lookup-insert id0 id c.state sockets), inl refl)
]

pub same_data :
    (x y : String) (sockets : List (String × SocketData)) (e f : SocketData)
    → x ≡ y
    → lookup x sockets ≡ some e
    → lookup y sockets ≡ some f
    → f ≡ e
same_data x y sockets e f p q r = cc

-- The socket's data come from the table, as far as the user is concerned.
abbrev FromTable : List (String × SocketData) → Socket → Type 0
FromTable table c = (d : SocketData) × (lookup c.id table ≡ some d) × (c.state.user_id ≡ d.user_id)

from_longer :
    (id : String) (d : SocketData) (table : List (String × SocketData)) (cs : List Socket)
    → lookup id table ≡ none
    → All (FromTable table) cs
    → All (FromTable ((id, d) ∷ table)) cs
unfolding lookup
from_longer id d table [] new h = tt
from_longer id d table (c ∷ cs) new ((e, l, same), rest) =
    ((e, ground (arith, eq_iff id c.id), same), from_longer id d table cs new rest)

connected_from :
    (table : List (String × SocketData)) → Distinct table → All (FromTable table) (connected table)
unfolding lookup
connected_from [] h = tt
connected_from ((id, d) ∷ table) h = (
  (d, ground (arith, eq_refl id), refl),
  from_longer id d table (connected table) h.0 (connected_from table h.1),
)

sweep_from :
    (table : List (String × SocketData)) (t : ℕ) (cs : List Socket)
    → All (FromTable table) cs
    → All (FromTable table) (sweep_sockets t cs).sockets
unfolding sweep_sockets
sweep_from table t [] h = tt
sweep_from table t (c ∷ cs) (one, rest) =
    let ih = sweep_from table t cs rest in
    elim (Bool-cases (is_expired t c.state.token_expires_at)) [
      | inl late ↦ elim (Bool-cases c.state.expiry_notified) [
        | inl told ↦ rw (late, told) ih
        | inr untold ↦ rw (late, untold) (one, ih)
      ]
      | inr live ↦ rw live (one, ih)
    ]

marked_user :
    (table : List (String × SocketData)) (cs : List Socket)
    → All (FromTable table) cs
    → (id : String) (d' : SocketData) → lookup id (marked cs table) ≡ some d'
    → (d : SocketData) × (lookup id table ≡ some d) × SameUser d d'
marked_user table [] h id d' l = (d', l, inl refl)
marked_user table (c ∷ cs) ((e, was, same), rest) id d' l = elim (Bool-cases (c.id == id)) [
  | inl this ↦ (
    e,
    ground (arith, eq_iff c.id id),
    let is : d' ≡ c.state = ground (arith, lookup-insert c.id id c.state (marked cs table)) in
        inl (ap (λ x. x.user_id) is ∙ same),
  )
  | inr other ↦
      marked_user table cs rest id d'
        (ground (arith, lookup-insert c.id id c.state (marked cs table)))
]

-- A sweep changes no socket's user.
pub swept_user :
    {P : Platform} (now : ℕ) (s : Server P) (id : String) (d' : SocketData)
    → Distinct s.sockets
    → lookup id (swept now s).sockets ≡ some d'
    → (d : SocketData) × (lookup id s.sockets ≡ some d) × SameUser d d'
unfolding sweep_expired_sockets
swept_user now s id d' distinct l =
    marked_user s.sockets _
      (sweep_from s.sockets (now / 1000) (connected s.sockets) (connected_from s.sockets distinct))
      id d' l

marked-Distinct :
    (cs : List Socket) (table : List (String × SocketData))
    → Distinct table
    → Distinct (marked cs table)
marked-Distinct [] table h = h
marked-Distinct (c ∷ cs) table h = insert-Distinct c.id c.state _ (marked-Distinct cs table h)

with_data-Distinct :
    (id : String) (r : Result Socket) (table : List (String × SocketData))
    → Distinct table
    → Distinct (with_data id r table)
with_data-Distinct id (ok c) table h = insert-Distinct id c.state table h
with_data-Distinct id (err e) table h = h

-- No socket stands twice.
pub Step-Distinct :
    {P : Platform} {s s' : Server P} → Step s s' → Distinct s.sockets → Distinct s'.sockets
Step-Distinct {s = s} (comes id named fresh unused) h = insert-Distinct id blank s.sockets h
Step-Distinct {s = s} (connects now id token was) h = with_data-Distinct id _ s.sockets h
Step-Distinct {s = s} (registers now id d claimed was) h = with_data-Distinct id _ s.sockets h
Step-Distinct {s = s} (subscribes now id d a was) h = with_data-Distinct id _ s.sockets h
Step-Distinct (plain now o may) h = h
Step-Distinct {s = s} (sweeps now) h = marked-Distinct _ s.sockets h
Step-Distinct {s = s} (goes now id d was) h = erase-Distinct id s.sockets h

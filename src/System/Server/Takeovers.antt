-- ===== src/System/Server/Takeovers.antt =====
-- What a registration and a verification do to who is in the rooms of bridges.
use run_bot_backend.Prelude.{
  ℕ, String, ◌≡◌, ◌≢◌, refl, ◌∙◌, inl, inr, Option, some, true, List, [], ◌∷◌, eq_iff, arith,
}
use run_bot_backend.Data.{
  Effect, emit_room, emit_client, disconnect, join, leave, SocketData, Socket, new_instance,
}
use run_bot_backend.Platform.{Platform, Laws}
use run_bot_backend.Platform.Exec.{World}
use run_bot_backend.Platform.Keeps.{Holds, Keeps}
use run_bot_backend.Platform.Owners.{OwnedBy, found-owner}
use run_bot_backend.Gateway.Bridge.{on_bridge_register, Registration, register_instance}
use run_bot_backend.Gateway.Bridge.Takeover.{confirmed, on_bridge_register-Keeps, take_over-at}
use run_bot_backend.System.Server.{joined}
use run_bot_backend.System.Server.Table.{SameUser}
use run_bot_backend.System.Server.Current.{present, Current, Current-IsStable, take_over-Current}
use run_bot_backend.Gateway.Bridge.Ownership.{registration-user, same_owner}
use run_bot_backend.Gateway.{by_agent}
use run_bot_backend.Platform.Documents.{document-upsert_one}

pub present-joined :
    (id room : String) (t : List Effect) → present id room t ≡ true → joined id room t ≡ true
present-joined id room [] h = cc
present-joined id room (join i r ∷ t) h = ground (arith, present-joined id room t)
present-joined id room (leave i r ∷ t) h = present-joined id room t (ground arith)
present-joined id room (disconnect i ∷ t) h = present-joined id room t (ground arith)
present-joined id room (emit_room r event ∷ t) h = present-joined id room t h
present-joined id room (emit_client i event ∷ t) h = present-joined id room t h

-- Who was in no bridge's room may get a user.
pub Current-SameUser :
    (P : Platform) (id a : String) (d d' : SocketData) (w : World P)
    → SameUser d d'
    → Holds {P = P} (Current P id a d.user_id) w
    → Holds {P = P} (Current P id a d'.user_id) w
Current-SameUser P id a d d' w (inl same) h p =
    let (l, (u, is), own) = h p in (l, (u, same ∙ is), λ v nv o. same ∙ own v nv o)
Current-SameUser P id a d d' w (inr (nobody, v, set, real)) h p =
    let (l, (u, is), own) = h p in absurd (ground arith)

module _ {P : Platform} (laws : Laws P) (id a : String) (user : Option String)
    (real : id ≢ "") where
  pub register-Current :
      (now : ℕ) (client : Socket) (claimed : Option String)
      → (client.id ≡ id → user ≡ client.state.user_id)
      → Keeps P (Current P id a user) (on_bridge_register now client claimed)
  register-Current now client claimed mine =
      on_bridge_register-Keeps {T = now} (Current-IsStable laws id a user) now client claimed
        λ b r existing w bound f free e h.
          let (caller, named) = registration-user b client.state r e in
          take_over-at (Current P id a user) now (confirmed client b) b r w
            (take_over-Current P id a b r.user_id user (confirmed client b) w.db w.db
              w.bridge_sockets w.trace w.telemetry_cache real (λ s. mine s ∙ caller)
              (λ v nv own s.
                same_owner existing v r.user_id (found-owner laws a b v w.db existing f s own) nv
                  named (rw caller at free))
              (λ v own s. own) h)
            (λ db up.
              take_over-Current P id a b r.user_id user (confirmed client b) w.db db
                w.bridge_sockets w.trace w.telemetry_cache real (λ s. mine s ∙ caller)
                (λ v nv own s. (upserted now b r w db up v own).0 s)
                (λ v own s. (upserted now b r w db up v own).1 s) h)
    where
      upserted :
          (now : ℕ) (b : String) (r : Registration) (w : World P) (db : P.Db)
          → P.upsert_one (by_agent b) (new_instance b) (register_instance now r) w.db ≡ some db
          → (v : String) → OwnedBy P a v db
          → (b ≡ a → v ≡ r.user_id) × (b ≢ a → OwnedBy P a v w.db)
      upserted now b r w db up v own =
          let written =
            document-upsert_one laws b a (new_instance b) (register_instance now r) w.db db
              (λ i. refl) refl up in
          (
            (λ same. ground (arith, written, eq_iff b a)),
            (λ apart. ground (arith, written, eq_iff b a)),
          )

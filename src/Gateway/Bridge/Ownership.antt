-- ===== src/Gateway/Bridge/Ownership.antt =====
-- A registration takes no agent away from its owner.
use run_bot_backend.Prelude.{
  ℕ, String, ◌≡◌, refl, Option, none, some, false, ◌≢◌, inl, inr, ◌==◌, eq_iff, sym, ap, arith,
  or_else, Bool-cases,
}
use run_bot_backend.Platform.{Platform, Laws}
use run_bot_backend.Platform.Exec.{World}
use run_bot_backend.Platform.Keeps.{Keeps}
use run_bot_backend.Data.{EaInstance, new_instance, SocketData, Socket}
use run_bot_backend.Text.{split, first, second}
use run_bot_backend.Platform.Documents.{document-upsert_one}
use run_bot_backend.Platform.Owners.{owner, OwnedBy, Owned, OwnedBy-IsStable, found-owner}
use run_bot_backend.Gateway.{by_agent}
use run_bot_backend.Gateway.Bridge.{
  Registration, register_instance, complete, registration, foreign_owner, owned_by_another,
  on_bridge_register,
}
use run_bot_backend.Gateway.Bridge.Takeover.{confirmed, take_over-at, on_bridge_register-Keeps}

-- A registration is of a user that the token names.
complete-user :
    (account license symbol user : Option String) (r : Registration)
    → complete account license symbol user ≡ some r
    → (user ≡ some r.user_id) × (r.user_id ≢ "")
unfolding complete
complete-user (some a) (some l) (some s) (some u) r h =
    (ground arith, λ e. absurd (ground (arith, eq_iff u "")))
complete-user (some a) (some l) (some s) none r h = cc
complete-user (some a) (some l) none u r h = cc
complete-user (some a) none s u r h = cc
complete-user none l s u r h = cc

pub registration-user :
    (a : String) (d : SocketData) (r : Registration)
    → registration a d ≡ some r
    → (d.user_id ≡ some r.user_id) × (r.user_id ≢ "")
unfolding registration
registration-user a d r h =
    complete-user (or_else d.account_login (first (split b'-' a))) d.license_key
      (or_else d.symbol (second (split b'-' a))) d.user_id r h

-- Who owns an agent already and is not refused is the caller.
pub same_owner :
    (existing : Option EaInstance) (u v : String)
    → owner existing ≡ some u
    → u ≢ ""
    → v ≢ ""
    → owned_by_another existing (some v) ≡ false
    → u ≡ v
unfolding owned_by_another foreign_owner
same_owner none u v own nu nv free = cc
same_owner (some i) u v own nu nv free = ground (arith, eq_iff u "", eq_iff v "", eq_iff u v)

module _ {P : Platform} (laws : Laws P) (a u : String) (real : u ≢ "") where
  -- However a bridge registers, an agent that belongs to a user still belongs to that user.
  pub on_bridge_register-owner :
      (now : ℕ) (client : Socket) (claimed : Option String)
      → Keeps P (Owned P a u) (on_bridge_register now client claimed)
  on_bridge_register-owner now client claimed =
      on_bridge_register-Keeps {T = now} (OwnedBy-IsStable laws a u) now client claimed
        λ b r existing w bound f free e h.
          let (caller, named) = registration-user b client.state r e in
          take_over-at (Owned P a u) now (confirmed client b) b r w h
            (λ db up. upserted now b r existing w db f (rw caller at free) named up h)
    where
      upserted :
          (now : ℕ) (b : String) (r : Registration) (existing : Option EaInstance) (w : World P)
          (db : P.Db)
          → P.find_one (by_agent b) w.db ≡ some existing
          → owned_by_another existing (some r.user_id) ≡ false
          → r.user_id ≢ ""
          → P.upsert_one (by_agent b) (new_instance b) (register_instance now r) w.db ≡ some db
          → OwnedBy P a u w.db
          → OwnedBy P a u db
      upserted now b r existing w db f free named up h =
          let written =
            document-upsert_one laws b a (new_instance b) (register_instance now r) w.db db
              (λ i. refl) refl up in
          rw written (elim (Bool-cases (b == a)) [
            | inl here ↦
                let own = found-owner laws a b u w.db existing f ((eq_iff b a).0 here) h in
                rw here (ap some (sym (same_owner existing u r.user_id own real named free)))
            | inr there ↦ rw there h
          ])

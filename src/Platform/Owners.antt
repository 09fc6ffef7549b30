-- ===== src/Platform/Owners.antt =====
-- Who owns an agent's instance, which every write but an upsert leaves alone.
use run_bot_backend.Prelude.{
  ℕ, String, ◌≡◌, refl, ◌∙◌, ap, Option, none, some, Bool, List, [], ◌∷◌, arith, head?, select,
}
use run_bot_backend.Data.{EaInstance, EaAuditLog, EaPnlPoint}
use run_bot_backend.Platform.{Platform, Laws, update_first}
use run_bot_backend.Platform.Documents.{by_agent, document, found-document}
use run_bot_backend.Platform.Keeps.{Facts, KeepsIdentity, IsStable}

abbrev pub owner : Option EaInstance → Option String
owner none = none
owner (some i) = i.user_id

-- The agent's instance is there and belongs to the user.
abbrev pub OwnedBy : (P : Platform) → String → String → P.Db → Type 0
OwnedBy P a u db = owner (document P a db) ≡ some u

abbrev pub Owned : (P : Platform) → String → String → Facts P
Owned P a u db b t c = OwnedBy P a u db

owner-update_first :
    (a : String) (p : EaInstance → Bool) (f : EaInstance → EaInstance) (xs : List EaInstance)
    → KeepsIdentity f
    → owner (head? (select (by_agent a) (update_first p f xs)))
      ≡ owner (head? (select (by_agent a) xs))
owner-update_first a p f [] k = refl
owner-update_first a p f (x ∷ xs) k = ground (arith, owner-update_first a p f xs k, k x)

-- No such write changes who owns an agent.
module _ {P : Platform} (laws : Laws P) (a : String) where
  pub owner-update_one :
      (p : EaInstance → Bool) (f : EaInstance → EaInstance)
      → KeepsIdentity f
      → (db db' : P.Db) → P.update_one p f db ≡ some db'
      → owner (document P a db') ≡ owner (document P a db)
  owner-update_one p f k db db' e =
      ap (λ xs. owner (head? (select (by_agent a) xs))) (laws.instances-update_one p f db db' e)
      ∙ owner-update_first a p f (P.instances db) k

  pub owner-create_audit_log :
      (e : EaAuditLog) (db db' : P.Db)
      → P.create_audit_log e db ≡ some db'
      → owner (document P a db') ≡ owner (document P a db)
  owner-create_audit_log e db db' written =
      ap (λ xs. owner (head? (select (by_agent a) xs)))
        (laws.instances-create_audit_log e db db' written)

  pub owner-create_pnl_point :
      (e : EaPnlPoint) (db db' : P.Db)
      → P.create_pnl_point e db ≡ some db'
      → owner (document P a db') ≡ owner (document P a db)
  owner-create_pnl_point e db db' written =
      ap (λ xs. owner (head? (select (by_agent a) xs)))
        (laws.instances-create_pnl_point e db db' written)

  -- Who a query of the agent shows.
  pub found-owner :
      (b v : String) (db : P.Db) (found : Option EaInstance)
      → P.find_one (by_agent b) db ≡ some found
      → b ≡ a
      → OwnedBy P a v db
      → owner found ≡ some v
  found-owner b v db found f same own =
      ap owner (found-document laws b db found f) ∙ ap (λ x. owner (document P x db)) same ∙ own

pub OwnedBy-IsStable : {P : Platform} → Laws P → (a u : String) {T : ℕ} → IsStable P T (Owned P a u)
OwnedBy-IsStable {P} laws a u = record {
  updated = λ p f k db db' e b t c h. owner-update_one laws a p f k db db' e ∙ h;
  audited = λ e db db' written b t c told h. owner-create_audit_log laws a e db db' written ∙ h;
  recorded = λ e db db' written b t c h. owner-create_pnl_point laws a e db db' written ∙ h;
  sent = λ e quiet db b t c h. h;
  looked_up = λ key db b t c h. h;
  swept = λ db b t c h. h;
}

-- ===== src/Service/Instances/Race.antt =====
-- Hiding an EA that registers while the request awaits the database.
use run_bot_backend.Prelude.{
  ℕ, String, ◌≡◌, refl, ◌∙◌, ap, inl, inr, Option, none, some, Bool, true, false, List, [], ◌∷◌,
  ◌++◌, ◌==◌, eq_iff, Bool-cases, arith, select, head?,
}
use run_bot_backend.Data.{EaInstance, new_instance, Socket}
use run_bot_backend.Platform.{Platform, Laws, update_first}
use run_bot_backend.Platform.Documents.{document, KeepsAgent, document-create_audit_log}
use run_bot_backend.Platform.Exec.{World, ok}
use run_bot_backend.Gateway.{by_agent}
use run_bot_backend.Gateway.Bridge.{Registration, register_instance, on_bridge_register}
use run_bot_backend.Gateway.Bridge.Register.{Accepts, register_document}
use run_bot_backend.Service.Instances.{idle_of, hide, is_online, hide_offline}
use run_bot_backend.Service.Instances.Laws.{hidden_entry}

-- An update whose filter the agent's document does not match leaves that document alone.
unmatched :
    (b : String) (p : EaInstance → Bool) (f : EaInstance → EaInstance) (xs : List EaInstance)
    → KeepsAgent f
    → ((x : EaInstance) → head? (select (by_agent b) xs) ≡ some x → p x ≡ false)
    → head? (select (by_agent b) (update_first p f xs)) ≡ head? (select (by_agent b) xs)
unmatched b p f [] k h = refl
unmatched b p f (x ∷ xs) k h = elim (Bool-cases (x.agent_id == b)) [
  | inl here ↦ let busy : p x ≡ false = h x (ground arith) in ground arith
  | inr there ↦
      let ih : head? (select (by_agent b) (update_first p f xs)) ≡ head? (select (by_agent b) xs) =
        unmatched b p f xs k (λ y e. h y (ground arith)) in
      ground (arith, ih, k x)
]

named :
    (b : String) (xs : List EaInstance) (i : EaInstance)
    → head? (select (by_agent b) xs) ≡ some i
    → i.agent_id ≡ b
named b [] i h = ground arith
named b (x ∷ xs) i h = elim (Bool-cases (x.agent_id == b)) [
  | inl here ↦ ground (arith, eq_iff x.agent_id b)
  | inr there ↦ named b xs i (rw there at h)
]

module _ {P : Platform} (laws : Laws P) where
  -- No other agent's document matches, and the agent's own does not while it is online.
  kept :
      (now : ℕ) (a u b : String) (i : EaInstance) (db db' : P.Db)
      → document P a db ≡ some i
      → i.online ≡ true
      → P.update_one (idle_of a u) (hide now) db ≡ some db'
      → document P b db' ≡ document P b db
  kept now a u b i db db' d on e =
      ap (λ xs. head? (select (by_agent b) xs))
        (laws.instances-update_one (idle_of a u) (hide now) db db' e)
      ∙ unmatched b (idle_of a u) (hide now) (P.instances db) (λ x. refl)
          (λ x f. busy x (named b (P.instances db) x f) f)
    where
      busy :
          (x : EaInstance)
          → x.agent_id ≡ b
          → head? (select (by_agent b) (P.instances db)) ≡ some x
          → idle_of a u x ≡ false
      busy x n f = elim (Bool-cases (x.agent_id == a)) [
        | inl here ↦
            let same : b ≡ a = ground (arith, eq_iff x.agent_id a) in
            let shown : document P b db ≡ document P a db = ap (λ y. document P y db) same in
            let is : x ≡ i = ground (arith, shown) in ground (arith, is)
        | inr there ↦ rw there refl
      ]

  -- A user hides an EA that the request found offline, and before the request's update the EA registers.
  -- Where the database accepts the writes, the request answers that the EA is hidden and the audit log
  -- says so too; but the EA's instance stays online and visible, and no instance has changed.
  pub hide_during_register :
      (t now : ℕ) (client : Socket) (a u : String) (claimed : Option String) (r : Registration)
      (found : Option EaInstance) (w : World P) (db db' db'' : P.Db)
      → is_online found ≡ false
      → Accepts client a claimed r w
      → P.upsert_one (by_agent a) (new_instance a) (register_instance t r) w.db ≡ some db
      → P.update_one (idle_of a u) (hide now) (on_bridge_register t client claimed w).1.db
        ≡ some db'
      → P.create_audit_log (hidden_entry a u) db' ≡ some db''
      → let w' = (on_bridge_register t client claimed w).1 in
        ((hide_offline now a u found w').0 ≡ ok tt)
        × (P.audit_logs (hide_offline now a u found w').1.db
            ≡ P.audit_logs w'.db ++ hidden_entry a u ∷ [])
        × ((b : String) → document P b (hide_offline now a u found w').1.db ≡ document P b w'.db)
        × ((i : EaInstance) × (document P a w'.db ≡ some i)
            × (i.online ≡ true)
            × (i.hidden_at ≡ none))
  unfolding hide_offline
  hide_during_register t now client a u claimed r found w db db' db'' off accepts up write audit =
      let (shown, others) = register_document laws t client a claimed r w db accepts up in
      let i = shown.0 in
      let d : document P a (on_bridge_register t client claimed w).1.db ≡ some i = shown.1 in
      let on : i.online ≡ true = shown.2 in
      let clear : i.hidden_at ≡ none = shown.4 in
      rw (hidden now a u found (on_bridge_register t client claimed w).1 db' db'' off write audit) (
        refl,
        laws.audit_logs-create_audit_log (hidden_entry a u) db' db'' audit
            ∙ ap (λ xs. xs ++ hidden_entry a u ∷ [])
                (laws.audit_logs-update_one (idle_of a u) (hide now) _ db' write),
        (λ b.
            document-create_audit_log laws b (hidden_entry a u) db' db'' audit
            ∙ kept now a u b i (on_bridge_register t client claimed w).1.db db' d on write),
        (i, d, on, clear),
      )
    where
      hidden :
          (now : ℕ) (a u : String) (found : Option EaInstance) (w : World P) (db db' : P.Db)
          → is_online found ≡ false
          → P.update_one (idle_of a u) (hide now) w.db ≡ some db
          → P.create_audit_log (hidden_entry a u) db ≡ some db'
          → hide_offline now a u found w ≡ (ok tt, record w { db = db' })
      hidden now a u found w db db' off write audit = ground arith

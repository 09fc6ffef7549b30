-- ===== src/Service/Instances/Isolation.antt =====
-- Reading a state and hiding an instance leave the EAs of others alone.
use run_bot_backend.Prelude.{
  ℕ, String, ◌≡◌, ◌≢◌, refl, Option, some, false, List, any, ◌==◌, Bool-cases, inl, inr, eq_iff,
  arith,
}
use run_bot_backend.Data.{EaInstance, EaAuditLog, AuditEvent, AuditPayload, Effect}
use run_bot_backend.Platform.{Platform, Laws}
use run_bot_backend.Service.Bulk.{by_user}
use run_bot_backend.Platform.Keeps.{
  Facts, Keeps, Keeps-bind, Keeps-pure, Keeps-query, Keeps-if, Keeps-raise, keeps_rules,
}
use run_bot_backend.Gateway.{by_agent, get_cached_state}
use run_bot_backend.Service.Isolation.{
  Spared, IsAbout, owned-Spared, log_event-Spared, update-Spared,
}
use run_bot_backend.Service.Instances.{
  idle_of, hide, is_online, get_latest_state, hide_offline, hide_instance,
}

idle_of-IsAbout : (b v : String) → IsAbout b (idle_of b v)
idle_of-IsAbout b v i h = elim (Bool-cases (i.agent_id == b)) [
  | inl same ↦ (eq_iff i.agent_id b).0 same
  | inr other ↦ absurd (ground arith)
]

module _ {P : Platform} (laws : Laws P) (a v : String) (docs : List EaInstance)
    (logs : List EaAuditLog) (told : List Effect) (others : any (by_user v) docs ≡ false) where
  abbrev J : Facts P
  J = Spared P a docs logs told

  get_cached_state-Spared : (now : ℕ) (b : String) → Keeps P J (get_cached_state now b)
  unfolding get_cached_state
  get_cached_state-Spared now b = record { at = λ w h. h }

  pub get_latest_state-Spared : (now : ℕ) (b : String) → Keeps P J (get_latest_state now b v)
  unfolding get_latest_state
  get_latest_state-Spared now b =
      owned-Spared laws a v docs logs told others b _
        λ apart. search (keeps_rules, get_cached_state-Spared)

  hide_offline-Spared :
      (now : ℕ) (b : String) (o : Option EaInstance) → b ≢ a → Keeps P J (hide_offline now b v o)
  unfolding hide_offline
  hide_offline-Spared now b o apart = Keeps-if (is_online o) _ _ (Keeps-raise _) (
      Keeps-bind
        (update-Spared laws a docs logs told b (idle_of b v) (hide now) (idle_of-IsAbout b v)
          (λ i. refl) apart)
        (λ _.
          log_event-Spared laws a docs logs told b AuditEvent.instance_hidden AuditPayload.nothing
            (some v) apart))

  pub hide_instance-Spared : (now : ℕ) (b : String) → Keeps P J (hide_instance now b v)
  unfolding hide_instance
  hide_instance-Spared now b = owned-Spared laws a v docs logs told others b _ λ apart.
      Keeps-bind (Keeps-query (P.find_one (by_agent b)))
        λ found. Keeps-bind (hide_offline-Spared now b found apart) (λ _. Keeps-pure b)

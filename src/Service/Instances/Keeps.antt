-- ===== src/Service/Instances/Keeps.antt =====
-- Reading and hiding instances keep what is stable.
use run_bot_backend.Prelude.{ℕ, String, refl, Option}
use run_bot_backend.Platform.{Platform}
use run_bot_backend.Platform.Exec.{change}
use run_bot_backend.Platform.Keeps.{Facts, Keeps, IsStable, Keeps-update}
use run_bot_backend.Gateway.Keeps.{get_cached_state-Keeps}
use run_bot_backend.Service.Keeps.{service_rules, log_event-Keeps}
use run_bot_backend.Data.{EaInstance}
use run_bot_backend.Service.Instances.{
  idle_of, hide, get_latest_state, get_all_instances, hide_offline, hide_instance,
}

module _ {P : Platform} {J : Facts P} where
  pub get_all_instances-Keeps : (u : String) → Keeps P J (get_all_instances u)
  unfolding get_all_instances
  get_all_instances-Keeps u = search service_rules

module _ {P : Platform} {J : Facts P} {T : ℕ} (stable : IsStable P T J) where
  pub get_latest_state-Keeps : (a u : String) → Keeps P J (get_latest_state T a u)
  unfolding get_latest_state
  get_latest_state-Keeps a u = search (service_rules, get_cached_state-Keeps stable)

  hidden-Keeps :
      (now : ℕ) (a u : String) → Keeps P J (change (P.update_one (idle_of a u) (hide now)))
  hidden-Keeps now a u = Keeps-update stable (idle_of a u) (hide now) (λ i. (refl, refl))

  hide_offline-Keeps :
      (now : ℕ) (a u : String) (o : Option EaInstance) → Keeps P J (hide_offline now a u o)
  unfolding hide_offline
  hide_offline-Keeps now a u o =
      search (service_rules, hidden-Keeps, log_event-Keeps stable) depth 12

  pub hide_instance-Keeps : (now : ℕ) (a u : String) → Keeps P J (hide_instance now a u)
  unfolding hide_instance
  hide_instance-Keeps now a u = search (service_rules, hide_offline-Keeps) depth 12

-- ===== src/Service/Settings/Keeps.antt =====
-- Pushing and reading settings keep what is stable.
use run_bot_backend.Prelude.{ℕ, String, refl, Option, none, some, List, [], ◌∷◌}
use run_bot_backend.Platform.{Platform}
use run_bot_backend.Platform.Exec.{change, pure, ◌>>◌}
use run_bot_backend.Platform.Keeps.{
  Facts, Keeps, IsStable, keeps_rules, Keeps-update, Keeps-bind, Keeps-pure,
}
use run_bot_backend.Service.Keeps.{
  service_rules, require_ownership-Keeps, require_online-Keeps, uuid_v4-Keeps, Ordered,
  Ordered-IsStable, entry_of, order-Keeps, log_order-Keeps,
}
use run_bot_backend.Service.{log_event}
use run_bot_backend.Json.{Fields, keys, obj}
use run_bot_backend.Data.{EaInstance, AuditEvent, AuditPayload}
use run_bot_backend.Gateway.{by_agent}
use run_bot_backend.Service.Settings.{
  reject_unknown, reject_restart, validate_settings_keys, set_settings, push_settings, settings_of,
  get_current_settings,
}

module _ {P : Platform} {J : Facts P} where
  reject_unknown-Keeps : (ks : List String) → Keeps P J (reject_unknown ks)
  unfolding reject_unknown
  reject_unknown-Keeps [] = search keeps_rules
  reject_unknown-Keeps (k ∷ ks) = search keeps_rules

  reject_restart-Keeps : (all ks : List String) → Keeps P J (reject_restart all ks)
  unfolding reject_restart
  reject_restart-Keeps all [] = reject_unknown-Keeps _
  reject_restart-Keeps all (k ∷ ks) = search keeps_rules

  pub validate_settings_keys-Keeps :
      (settings : Fields) → Keeps P J (validate_settings_keys settings)
  unfolding validate_settings_keys
  validate_settings_keys-Keeps settings = search reject_restart-Keeps

  settings_of-Keeps : (a : String) (o : Option EaInstance) → Keeps P J (settings_of a o)
  unfolding settings_of
  settings_of-Keeps a none = search keeps_rules
  settings_of-Keeps a (some i) = search keeps_rules

  pub get_current_settings-Keeps : (a u : String) → Keeps P J (get_current_settings a u)
  unfolding get_current_settings
  get_current_settings-Keeps a u = search (service_rules, settings_of-Keeps)

module _ {P : Platform} {J : Facts P} {T : ℕ} (stable : IsStable P T J) where
  pub push_settings-Keeps : (a : String) (s : Fields) (u : String) → Keeps P J (push_settings a s u)
  unfolding push_settings
  push_settings-Keeps a s u = Keeps-bind (require_ownership-Keeps a u) λ _.
      Keeps-bind (require_online-Keeps a) λ _. Keeps-bind (validate_settings_keys-Keeps s) λ _.
        Keeps-bind uuid_v4-Keeps λ id.
          let payload = AuditPayload.settings_keys id (keys s) in
          order-Keeps stable a id "SETTINGS" (some (P.to_base64 (P.stringify (obj s))))
            AuditEvent.settings_change payload u _ refl refl refl
            (stored_and_logged a s u payload id)
    where
      stored_and_logged :
          (a : String) (s : Fields) (u : String) (payload : AuditPayload) (id : String)
          → Keeps P (Ordered P J (entry_of a AuditEvent.settings_change payload u)) (
              change (P.update_one (by_agent a) (set_settings s))
              >> (log_event a AuditEvent.settings_change payload (some u) >> pure id))
      stored_and_logged a s u payload id =
          Keeps-bind
            (Keeps-update
              (Ordered-IsStable stable (entry_of a AuditEvent.settings_change payload u))
              (by_agent a) (set_settings s) (λ i. (refl, refl)))
            (λ _.
              Keeps-bind (log_order-Keeps stable a AuditEvent.settings_change payload u)
                (λ _. Keeps-pure id))

-- ===== src/Service/Settings/Isolation.antt =====
-- A push of settings leaves the EAs of others alone.
use run_bot_backend.Prelude.{String, ◌≡◌, refl, some, false, List, any}
use run_bot_backend.Data.{EaInstance, EaAuditLog, AuditEvent, AuditPayload, Effect}
use run_bot_backend.Platform.{Platform, Laws}
use run_bot_backend.Service.Bulk.{by_user}
use run_bot_backend.Json.{Fields, keys, obj}
use run_bot_backend.Platform.Keeps.{Facts, Keeps, Keeps-bind, Keeps-pure}
use run_bot_backend.Gateway.{by_agent}
use run_bot_backend.Service.Keeps.{require_online-Keeps, uuid_v4-Keeps}
use run_bot_backend.Service.Isolation.{
  Spared, owned-Spared, send-Spared, log_event-Spared, update-Spared, by_agent-IsAbout,
}
use run_bot_backend.Service.Settings.Keeps.{validate_settings_keys-Keeps}
use run_bot_backend.Service.Settings.{set_settings, push_settings}

module _ {P : Platform} (laws : Laws P) (a v : String) (docs : List EaInstance)
    (logs : List EaAuditLog) (told : List Effect) (others : any (by_user v) docs ≡ false) where
  abbrev J : Facts P
  J = Spared P a docs logs told

  pub push_settings-Spared : (b : String) (s : Fields) → Keeps P J (push_settings b s v)
  unfolding push_settings
  push_settings-Spared b s = owned-Spared laws a v docs logs told others b _ λ apart.
      Keeps-bind (require_online-Keeps b) λ _. Keeps-bind (validate_settings_keys-Keeps s) λ _.
        Keeps-bind uuid_v4-Keeps λ id.
          Keeps-bind
            (send-Spared laws a docs logs told b id "SETTINGS"
              (some (P.to_base64 (P.stringify (obj s)))) apart)
            λ _.
              Keeps-bind
                (update-Spared laws a docs logs told b (by_agent b) (set_settings s)
                  (by_agent-IsAbout b) (λ i. refl) apart)
                λ _.
                  Keeps-bind
                    (log_event-Spared laws a docs logs told b AuditEvent.settings_change
                      (AuditPayload.settings_keys id (keys s)) (some v) apart)
                    (λ _. Keeps-pure id)

-- ===== src/Service/Commands/Keeps.antt =====
-- The single commands keep what is stable.
use run_bot_backend.Prelude.{ℕ, String, ◌≡◌, refl, Option, none, some, Bool, true, false}
use run_bot_backend.Data.{AuditEvent, AuditPayload}
use run_bot_backend.Platform.{Platform}
use run_bot_backend.Platform.Exec.{pure, ◌>>=◌, ◌>>◌}
use run_bot_backend.Platform.Keeps.{Facts, Keeps, IsStable, Keeps-bind, Keeps-pure}
use run_bot_backend.Gateway.{send_command_to_bridge}
use run_bot_backend.Gateway.Orders.{named_command, verb_of, fits}
use run_bot_backend.Service.{require_ownership, require_online, uuid_v4, log_event}
use run_bot_backend.Service.Keeps.{commanded-Keeps, order-Keeps, log_order-Keeps}
use run_bot_backend.Service.Commands.{
  send_kill_switch, send_kill_reset, send_master_enable, send_close_buy, send_close_sell,
}

module _ {P : Platform} {J : Facts P} {T : ℕ} (stable : IsStable P T J) where
  -- A command that is sent, audited and answered with its id.
  sent_and_logged :
      (a u verb : String) (value : Option String) (event : AuditEvent)
      (payload : String → AuditPayload)
      → ((id : String)
          → (named_command (payload id) ≡ some id)
            × (verb_of event ≡ some verb)
            × (fits (payload id) value ≡ true))
      → Keeps P J (
          require_ownership a u
          >> (require_online a
              >> (uuid_v4 >>= λ id.
                  send_command_to_bridge a id verb value
                  >> (log_event a event (payload id) (some u) >> pure id))))
  sent_and_logged a u verb value event payload says = commanded-Keeps a u _ λ id.
      let (named, stands, fit) = says id in
      order-Keeps stable a id verb value event (payload id) u _ named stands fit
        (Keeps-bind (log_order-Keeps stable a event (payload id) u) (λ _. Keeps-pure id))

  pub send_kill_switch-Keeps : (a u : String) → Keeps P J (send_kill_switch a u)
  unfolding send_kill_switch
  send_kill_switch-Keeps a u =
      sent_and_logged a u "KILL_SWITCH" none AuditEvent.kill_switch AuditPayload.command
        (λ id. (refl, refl, refl))

  pub send_kill_reset-Keeps : (a u : String) → Keeps P J (send_kill_reset a u)
  unfolding send_kill_reset
  send_kill_reset-Keeps a u =
      sent_and_logged a u "KILL_RESET" none AuditEvent.kill_reset AuditPayload.command
        (λ id. (refl, refl, refl))

  pub send_close_buy-Keeps : (a u : String) → Keeps P J (send_close_buy a u)
  unfolding send_close_buy
  send_close_buy-Keeps a u =
      sent_and_logged a u "CLOSE_BUY" none AuditEvent.close_buy AuditPayload.command
        (λ id. (refl, refl, refl))

  pub send_close_sell-Keeps : (a u : String) → Keeps P J (send_close_sell a u)
  unfolding send_close_sell
  send_close_sell-Keeps a u =
      sent_and_logged a u "CLOSE_SELL" none AuditEvent.close_sell AuditPayload.command
        (λ id. (refl, refl, refl))

  pub send_master_enable-Keeps :
      (a : String) (enabled : Bool) (u : String) → Keeps P J (send_master_enable a enabled u)
  unfolding send_master_enable
  send_master_enable-Keeps a true u =
      sent_and_logged a u "MASTER_ENABLE" (some "1") AuditEvent.master_enable
        (λ id. AuditPayload.enabling id true) (λ id. (refl, refl, refl))
  send_master_enable-Keeps a false u =
      sent_and_logged a u "MASTER_ENABLE" (some "0") AuditEvent.master_enable
        (λ id. AuditPayload.enabling id false) (λ id. (refl, refl, refl))

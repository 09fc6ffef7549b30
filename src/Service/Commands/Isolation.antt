-- ===== src/Service/Commands/Isolation.antt =====
-- The single commands leave the EAs of others alone.
use run_bot_backend.Prelude.{String, ◌≡◌, Option, none, some, Bool, false, List, any}
use run_bot_backend.Data.{EaInstance, EaAuditLog, AuditEvent, AuditPayload, Effect}
use run_bot_backend.Platform.{Platform, Laws}
use run_bot_backend.Service.Bulk.{by_user}
use run_bot_backend.Platform.Keeps.{Facts, Keeps, Keeps-bind, Keeps-pure}
use run_bot_backend.Platform.Exec.{pure, ◌>>=◌, ◌>>◌}
use run_bot_backend.Gateway.{send_command_to_bridge}
use run_bot_backend.Service.{require_ownership, require_online, uuid_v4, log_event}
use run_bot_backend.Service.Keeps.{require_online-Keeps, uuid_v4-Keeps}
use run_bot_backend.Service.Isolation.{Spared, owned-Spared, send-Spared, log_event-Spared}
use run_bot_backend.Service.Commands.{
  send_kill_switch, send_kill_reset, send_master_enable, send_close_buy, send_close_sell,
}

module _ {P : Platform} (laws : Laws P) (a v : String) (docs : List EaInstance)
    (logs : List EaAuditLog) (told : List Effect) (others : any (by_user v) docs ≡ false) where
  abbrev J : Facts P
  J = Spared P a docs logs told

  -- Where the caller owns the EA, another one is commanded and audited.
  commanded-Spared :
      (b verb : String) (value : Option String) (event : AuditEvent)
      (payload : String → AuditPayload)
      → Keeps P J (
          require_ownership b v
          >> (require_online b
              >> (uuid_v4 >>= λ id.
                  send_command_to_bridge b id verb value
                  >> (log_event b event (payload id) (some v) >> pure id))))
  commanded-Spared b verb value event payload =
      owned-Spared laws a v docs logs told others b _ λ apart.
        Keeps-bind (require_online-Keeps b) λ _. Keeps-bind uuid_v4-Keeps λ id.
          Keeps-bind (send-Spared laws a docs logs told b id verb value apart) λ _.
            Keeps-bind (log_event-Spared laws a docs logs told b event (payload id) (some v) apart)
              (λ _. Keeps-pure id)

  pub send_kill_switch-Spared : (b : String) → Keeps P J (send_kill_switch b v)
  unfolding send_kill_switch
  send_kill_switch-Spared b =
      commanded-Spared b "KILL_SWITCH" none AuditEvent.kill_switch AuditPayload.command

  pub send_kill_reset-Spared : (b : String) → Keeps P J (send_kill_reset b v)
  unfolding send_kill_reset
  send_kill_reset-Spared b =
      commanded-Spared b "KILL_RESET" none AuditEvent.kill_reset AuditPayload.command

  pub send_close_buy-Spared : (b : String) → Keeps P J (send_close_buy b v)
  unfolding send_close_buy
  send_close_buy-Spared b =
      commanded-Spared b "CLOSE_BUY" none AuditEvent.close_buy AuditPayload.command

  pub send_close_sell-Spared : (b : String) → Keeps P J (send_close_sell b v)
  unfolding send_close_sell
  send_close_sell-Spared b =
      commanded-Spared b "CLOSE_SELL" none AuditEvent.close_sell AuditPayload.command

  pub send_master_enable-Spared :
      (b : String) (enabled : Bool) → Keeps P J (send_master_enable b enabled v)
  unfolding send_master_enable
  send_master_enable-Spared b enabled =
      commanded-Spared b "MASTER_ENABLE" _ AuditEvent.master_enable
        (λ id. AuditPayload.enabling id enabled)

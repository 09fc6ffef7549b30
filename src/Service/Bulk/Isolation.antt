-- ===== src/Service/Bulk/Isolation.antt =====
-- The bulk commands leave the EAs of others alone.
use run_bot_backend.Prelude.{
  String, ◌≡◌, ◌≢◌, Option, none, some, false, List, [], ◌∷◌, any, All, is_text, Bool-cases, inl,
  inr, arith,
}
use run_bot_backend.Data.{EaInstance, EaAuditLog, AuditEvent, AuditPayload, Effect}
use run_bot_backend.Platform.{Platform, Laws}
use run_bot_backend.Service.Bulk.{
  by_user, by_account, sent_result, offline_result, dispatch_one, fan_out_one, fan_out_results,
  fan_out_command, stop_account, kill_all,
}
use run_bot_backend.Platform.Keeps.{Facts, Keeps, Keeps-bind, Keeps-pure, Keeps-try_catch, Keeps-if}
use run_bot_backend.Platform.Exec.{pure, skip}
use run_bot_backend.Service.{log_event}
use run_bot_backend.Service.Keeps.{uuid_v4-Keeps}
use run_bot_backend.Service.Isolation.{Spared, queried-Spared, send-Spared, log_event-Spared}

module _ {P : Platform} (laws : Laws P) (a v : String) (docs : List EaInstance)
    (logs : List EaAuditLog) (told : List Effect) (others : any (by_user v) docs ≡ false) where
  abbrev J : Facts P
  J = Spared P a docs logs told

  module _ (verb : String) (value : Option String) (event : AuditEvent) where
    dispatch_one-Spared :
        (i : EaInstance) → i.agent_id ≢ a → Keeps P J (dispatch_one i verb value event v)
    unfolding dispatch_one
    dispatch_one-Spared i apart = Keeps-bind uuid_v4-Keeps λ id.
        Keeps-bind (send-Spared laws a docs logs told i.agent_id id verb value apart) λ _.
          Keeps-bind
            (Keeps-try_catch (log_event i.agent_id event (AuditPayload.bulk id) (some v)) skip
              (log_event-Spared laws a docs logs told i.agent_id event (AuditPayload.bulk id)
                (some v) apart)
              (Keeps-pure tt))
            (λ _. Keeps-pure (sent_result i.agent_id id))

    fan_out_one-Spared :
        (i : EaInstance) → i.agent_id ≢ a → Keeps P J (fan_out_one i verb value event v)
    unfolding fan_out_one
    fan_out_one-Spared i apart =
        Keeps-if i.online (dispatch_one i verb value event v) (pure (offline_result i.agent_id))
          (dispatch_one-Spared i apart) (Keeps-pure (offline_result i.agent_id))

    fan_out_results-Spared :
        (xs : List EaInstance)
        → All (λ i. i.agent_id ≢ a) xs
        → Keeps P J (fan_out_results xs verb value event v)
    unfolding fan_out_results
    fan_out_results-Spared [] apart = Keeps-pure _
    fan_out_results-Spared (i ∷ rest) (here, there) =
        Keeps-bind (fan_out_one-Spared i here)
          λ result. Keeps-bind (fan_out_results-Spared rest there) λ results. Keeps-pure _

    fan_out_command-Spared :
        (xs : List EaInstance)
        → All (λ i. i.agent_id ≢ a) xs
        → Keeps P J (fan_out_command xs verb value event v)
    unfolding fan_out_command
    fan_out_command-Spared xs apart =
        Keeps-bind (fan_out_results-Spared xs apart) (λ results. Keeps-pure _)

  pub stop_account-Spared : (account : String) → Keeps P J (stop_account account v)
  unfolding stop_account
  stop_account-Spared account =
      queried-Spared laws a v docs logs told others (by_account account v) _
        (λ i h. elim (Bool-cases (is_text i.user_id v)) [ inl e ↦ e | inr e ↦ ground arith ])
        (fan_out_command-Spared "MASTER_ENABLE" (some "0") AuditEvent.master_enable)

  pub kill_all-Spared : Keeps P J (kill_all v)
  unfolding kill_all
  kill_all-Spared =
      queried-Spared laws a v docs logs told others (by_user v) _ (λ i h. h)
        (fan_out_command-Spared "KILL_SWITCH" none AuditEvent.kill_switch)

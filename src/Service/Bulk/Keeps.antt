-- ===== src/Service/Bulk/Keeps.antt =====
-- The bulk commands keep what is stable.
use run_bot_backend.Prelude.{ℕ, String, Option, List, [], ◌∷◌, ◌≡◌, refl, some}
use run_bot_backend.Platform.{Platform}
use run_bot_backend.Platform.Keeps.{
  Facts, Keeps, IsStable, keeps_rules, Keeps-pure, Keeps-bind, Keeps-try_catch,
}
use run_bot_backend.Service.Keeps.{uuid_v4-Keeps, Ordered, entry_of, order-Keeps, log_order-Keeps}
use run_bot_backend.Service.{log_event}
use run_bot_backend.Platform.Exec.{pure, skip, try_catch, ◌>>◌}
use run_bot_backend.Gateway.Orders.{verb_of}
use run_bot_backend.Data.{EaInstance, AuditEvent, AuditPayload}
use run_bot_backend.Service.Bulk.{
  BulkCommandResult, sent_result, dispatch_one, fan_out_one, fan_out_results, fan_out_command,
  stop_account, kill_all,
}

module _ {P : Platform} {J : Facts P} {T : ℕ} (stable : IsStable P T J) where
  -- The audit write, whose failure is passed over.
  logged-Keeps :
      (a : String) (event : AuditEvent) (payload : AuditPayload) (u : String)
      (result : BulkCommandResult)
      → Keeps P
          (Ordered P J (entry_of a event payload u))
          (try_catch (log_event a event payload (some u)) skip >> pure result)
  logged-Keeps a event payload u result =
      Keeps-bind
        (Keeps-try_catch (log_event a event payload (some u)) skip
          (log_order-Keeps stable a event payload u) (Keeps-pure tt))
        (λ _. Keeps-pure result)

  dispatch_one-Keeps :
      (i : EaInstance) (verb : String) (value : Option String) (event : AuditEvent) (u : String)
      → verb_of event ≡ some verb
      → Keeps P J (dispatch_one i verb value event u)
  unfolding dispatch_one
  dispatch_one-Keeps i verb value event u stands = Keeps-bind uuid_v4-Keeps λ id.
      order-Keeps stable i.agent_id id verb value event (AuditPayload.bulk id) u
        (try_catch (log_event i.agent_id event (AuditPayload.bulk id) (some u)) skip
          >> pure (sent_result i.agent_id id))
        refl stands refl
        (logged-Keeps i.agent_id event (AuditPayload.bulk id) u (sent_result i.agent_id id))

  fan_out_one-Keeps :
      (i : EaInstance) (verb : String) (value : Option String) (event : AuditEvent) (u : String)
      → verb_of event ≡ some verb
      → Keeps P J (fan_out_one i verb value event u)
  unfolding fan_out_one
  fan_out_one-Keeps i verb value event u stands = search (keeps_rules, dispatch_one-Keeps)

  fan_out_results-Keeps :
      (xs : List EaInstance) (verb : String) (value : Option String) (event : AuditEvent)
      (u : String)
      → verb_of event ≡ some verb
      → Keeps P J (fan_out_results xs verb value event u)
  unfolding fan_out_results
  fan_out_results-Keeps [] verb value event u stands = Keeps-pure _
  fan_out_results-Keeps (i ∷ rest) verb value event u stands =
      search (keeps_rules, fan_out_one-Keeps, fan_out_results-Keeps rest)

  fan_out_command-Keeps :
      (xs : List EaInstance) (verb : String) (value : Option String) (event : AuditEvent)
      (u : String)
      → verb_of event ≡ some verb
      → Keeps P J (fan_out_command xs verb value event u)
  unfolding fan_out_command
  fan_out_command-Keeps xs verb value event u stands = search (keeps_rules, fan_out_results-Keeps)

  pub stop_account-Keeps : (account u : String) → Keeps P J (stop_account account u)
  unfolding stop_account
  stop_account-Keeps account u = search (keeps_rules, fan_out_command-Keeps)

  pub kill_all-Keeps : (u : String) → Keeps P J (kill_all u)
  unfolding kill_all
  kill_all-Keeps u = search (keeps_rules, fan_out_command-Keeps)

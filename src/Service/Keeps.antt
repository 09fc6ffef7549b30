-- ===== src/Service/Keeps.antt =====
-- What the checks, the ids and the audit of the service keep.
use run_bot_backend.Prelude.{ℕ, String, Option, none, some, ◌≡◌, refl, true, ◌∷◌}
use run_bot_backend.Platform.{Platform}
use run_bot_backend.Platform.Keeps.{
  Facts, Keeps, IsStable, keeps_rules, Keeps-pure, Keeps-raise, Keeps-query, Keeps-if, Keeps-effect,
  Keeps-bind, Keeps-try_catch, Keeps-update, Keeps-audit, Keeps-record, Keeps-change,
}
use run_bot_backend.Data.{
  EaInstance, EaAuditLog, AuditEvent, AuditPayload, emit_room, bridge_command,
}
use run_bot_backend.Platform.Exec.{Exec, ◌>>=◌, ◌>>◌}
use run_bot_backend.Gateway.{bridge_room, send_command_to_bridge}
use run_bot_backend.Gateway.Orders.{
  named_command, verb_of, fits, is_true, is_true-later, order-is_true,
}
use run_bot_backend.Gateway.Keeps.{get_cached_state-Keeps, emit_to_room-Keeps, read_member-Keeps}
use run_bot_backend.Service.{
  check_owner, check_online, require_ownership, require_online, uuid_v4, log_event,
}

module _ {P : Platform} {J : Facts P} where
  check_owner-Keeps : (a u : String) (o : Option EaInstance) → Keeps P J (check_owner a u o)
  unfolding check_owner
  check_owner-Keeps a u none = search keeps_rules
  check_owner-Keeps a u (some i) = search keeps_rules

  check_online-Keeps : (a : String) (o : Option EaInstance) → Keeps P J (check_online a o)
  unfolding check_online
  check_online-Keeps a none = search keeps_rules
  check_online-Keeps a (some i) = search keeps_rules

  pub require_ownership-Keeps : (a u : String) → Keeps P J (require_ownership a u)
  unfolding require_ownership
  require_ownership-Keeps a u = search (keeps_rules, check_owner-Keeps)

  pub require_online-Keeps : (a : String) → Keeps P J (require_online a)
  unfolding require_online
  require_online-Keeps a = search (keeps_rules, check_online-Keeps)

  pub uuid_v4-Keeps : Keeps P J uuid_v4
  unfolding uuid_v4
  uuid_v4-Keeps = record { at = λ w h. h }

module _ {P : Platform} {J : Facts P} {T : ℕ} (stable : IsStable P T J) where
  -- An event of the audit log that is no command.
  pub log_event-Keeps :
      (a : String) (event : AuditEvent) (u : Option String)
      → Keeps P J (log_event a event AuditPayload.nothing u)
  unfolding log_event
  log_event-Keeps a event u = Keeps-audit stable _ (λ t. refl)

  pub log_reason-Keeps :
      (a : String) (event : AuditEvent) (why : String) (u : Option String)
      → Keeps P J (log_event a event (AuditPayload.reason why) u)
  unfolding log_event
  log_reason-Keeps a event why u = Keeps-audit stable _ (λ t. refl)

-- It is true, and so is what the entry says.
abbrev pub Ordered : (P : Platform) → Facts P → EaAuditLog → Facts P
Ordered P K e db b t c = K db b t c × (is_true e t ≡ true)

pub Ordered-IsStable :
    {P : Platform} {J : Facts P} {T : ℕ}
    → IsStable P T J
    → (e : EaAuditLog) → IsStable P T (Ordered P J e)
Ordered-IsStable stable e = record {
  updated = λ p f k db db' w b t c h. (stable.updated p f k db db' w b t c h.0, h.1);
  audited = λ x db db' w b t c told h. (stable.audited x db db' w b t c told h.0, h.1);
  recorded = λ x db db' w b t c h. (stable.recorded x db db' w b t c h.0, h.1);
  sent = λ x quiet db b t c h. (stable.sent x quiet db b t c h.0, is_true-later e x t h.1);
  looked_up = λ key db b t c h. (stable.looked_up key db b t c h.0, h.1);
  swept = λ db b t c h. (stable.swept db b t c h.0, h.1);
}

-- The entry of a command, where it was sent.
abbrev pub entry_of : String → AuditEvent → AuditPayload → String → EaAuditLog
entry_of a event payload u = record {
  agent_id = a;
  event = event;
  payload = payload;
  user_id = some u;
}

module _ {P : Platform} {J : Facts P} {T : ℕ} (stable : IsStable P T J) where
  pub log_order-Keeps :
      (a : String) (event : AuditEvent) (payload : AuditPayload) (u : String)
      → Keeps P (Ordered P J (entry_of a event payload u)) (log_event a event payload (some u))
  unfolding log_event
  log_order-Keeps a event payload u =
      Keeps-change (P.create_audit_log (entry_of a event payload u)) (λ db db' written b t c h.
        (stable.audited (entry_of a event payload u) db db' written b t c h.1 h.0, h.1))

  -- A command goes out, and what follows may rely on it.
  pub order-Keeps :
      {A : Type 0} (a id verb : String) (value : Option String) (event : AuditEvent)
      (payload : AuditPayload) (u : String) (rest : Exec P A)
      → named_command payload ≡ some id
      → verb_of event ≡ some verb
      → fits payload value ≡ true
      → Keeps P (Ordered P J (entry_of a event payload u)) rest
      → Keeps P J (send_command_to_bridge a id verb value >> rest)
  unfolding send_command_to_bridge
  order-Keeps a id verb value event payload u rest named stands fit k = record {
    at = λ w h.
        (k.at
          (record w { trace = emit_room (bridge_room a) (bridge_command id verb value) ∷ w.trace })
          (
            stable.sent _ tt w.db w.bridge_sockets w.trace w.telemetry_cache h,
            order-is_true (entry_of a event payload u) id verb value w.trace named stands fit,
          )).0;
  }

module _ {P : Platform} {J : Facts P} {A : Type 0} where
  -- Who asks may, and the command has an id.
  pub commanded-Keeps :
      (a u : String) (rest : String → Exec P A)
      → ((id : String) → Keeps P J (rest id))
      → Keeps P J (require_ownership a u >> (require_online a >> (uuid_v4 >>= rest)))
  commanded-Keeps a u rest k =
      Keeps-bind (require_ownership-Keeps a u)
        (λ _. Keeps-bind (require_online-Keeps a) (λ _. Keeps-bind uuid_v4-Keeps k))

pub ruleset service_rules = (
  keeps_rules, require_ownership-Keeps, require_online-Keeps, uuid_v4-Keeps, emit_to_room-Keeps,
  read_member-Keeps,
)

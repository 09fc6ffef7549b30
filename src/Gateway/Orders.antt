-- ===== src/Gateway/Orders.antt =====
-- The command that an entry of the audit log names, among what was sent.
use run_bot_backend.Prelude.{
  String, ◌≡◌, refl, Option, none, some, Bool, true, false, ◌&&◌, ◌||◌, List, ◌∷◌, ◌==◌, eq_refl,
  any, is_text,
}
use run_bot_backend.Data.{
  AuditEvent, AuditPayload, EaAuditLog, Event, bridge_command, Effect, emit_room,
}
use run_bot_backend.Gateway.{bridge_room}

-- The verb that an audit event stands for.
abbrev pub verb_of : AuditEvent → Option String
verb_of AuditEvent.kill_switch = some "KILL_SWITCH"
verb_of AuditEvent.kill_reset = some "KILL_RESET"
verb_of AuditEvent.master_enable = some "MASTER_ENABLE"
verb_of AuditEvent.close_buy = some "CLOSE_BUY"
verb_of AuditEvent.close_sell = some "CLOSE_SELL"
verb_of AuditEvent.settings_change = some "SETTINGS"
verb_of _ = none

abbrev pub named_command : AuditPayload → Option String
named_command AuditPayload.nothing = none
named_command (AuditPayload.command id) = some id
named_command (AuditPayload.enabling id enabled) = some id
named_command (AuditPayload.bulk id) = some id
named_command (AuditPayload.settings_keys id keys) = some id
named_command (AuditPayload.reason text) = none

-- The value of the command, where the payload says what it is.
abbrev pub fits : AuditPayload → Option String → Bool
fits (AuditPayload.enabling id true) value = is_text value "1"
fits (AuditPayload.enabling id false) value = is_text value "0"
fits _ value = true

abbrev pub is_command : EaAuditLog → String → Event → Bool
is_command e id (bridge_command i verb value) =
    i == id && is_text (verb_of e.event) verb && fits e.payload value
is_command e id _ = false

-- The command of that id, to the bridge of the entry's agent.
abbrev pub is_order : EaAuditLog → String → Effect → Bool
is_order e id (emit_room room event) = room == bridge_room e.agent_id && is_command e id event
is_order e id _ = false

abbrev pub sent_as : EaAuditLog → Option String → List Effect → Bool
sent_as e none t = true
sent_as e (some id) t = any (is_order e id) t

-- The entry names no command, or one that was sent: with its id and verb, to its agent's bridge.
abbrev pub is_true : EaAuditLog → List Effect → Bool
is_true e t = sent_as e (named_command e.payload) t

pub is_true-later :
    (e : EaAuditLog) (x : Effect) (t : List Effect) → is_true e t ≡ true → is_true e (x ∷ t) ≡ true
is_true-later e x t h = later (named_command e.payload) h
  where
    or_true : (b : Bool) {c : Bool} → c ≡ true → (b || c) ≡ true
    or_true true h = refl
    or_true false h = h

    later : (id : Option String) → sent_as e id t ≡ true → sent_as e id (x ∷ t) ≡ true
    later none h = refl
    later (some id) h = or_true (is_order e id x) h

pub order-is_true :
    (e : EaAuditLog) (id verb : String) (value : Option String) (t : List Effect)
    → named_command e.payload ≡ some id
    → verb_of e.event ≡ some verb
    → fits e.payload value ≡ true
    → is_true e (emit_room (bridge_room e.agent_id) (bridge_command id verb value) ∷ t) ≡ true
order-is_true e id verb value t named event fit =
    rw (named, event, fit, eq_refl (bridge_room e.agent_id), eq_refl id, eq_refl verb) refl

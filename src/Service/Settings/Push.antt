-- ===== src/Service/Settings/Push.antt =====
-- Pushing settings: what a push that is accepted has checked and done, and reading them back.
use run_bot_backend.Prelude.{
  String, ◌≡◌, sym, refl, ◌∙◌, ap, inl, inr, Option, some, true, List, ◌∷◌, eq_refl, subst,
  some-is_text, Option-cases, select, arith, All,
}
use run_bot_backend.Json.{obj, Fields, keys}
use run_bot_backend.Data.{
  EaInstance, EaAuditLog, AuditEvent, AuditPayload, Effect, emit_room, bridge_command,
}
use run_bot_backend.Platform.{Platform, Laws}
use run_bot_backend.Platform.Documents.{
  document, KeepsAgent, found-document, document-update_one, document-create_audit_log,
}
use run_bot_backend.Platform.Exec.{World, Exec, ok, pure, change, ◌>>=◌, ◌>>◌}
use run_bot_backend.Gateway.{bridge_room, by_agent, send_command_to_bridge}
use run_bot_backend.Service.{uuid_v4, log_event}
use run_bot_backend.Service.Access.{refusal, refusal-eq-none, commanded, Gate}
use run_bot_backend.Service.Settings.{
  has, restart_required_keys, validate_settings_keys, reject_restart, set_settings, push_settings,
  get_current_settings,
}
use run_bot_backend.Service.Settings.Laws.{IsLive, validate_settings_keys_iff}

module _ {P : Platform} where
  -- `pushSettings` behind its two checks.
  push_checked : String → Fields → String → Exec P String
  unfolding uuid_v4 send_command_to_bridge log_event
  push_checked agent_id settings user_id = do
    validate_settings_keys settings
    command_id ← uuid_v4
    send_command_to_bridge agent_id command_id "SETTINGS"
        (some (P.to_base64 (P.stringify (obj settings))))
    change (P.update_one (by_agent agent_id) (set_settings settings))
    log_event agent_id AuditEvent.settings_change
        (AuditPayload.settings_keys command_id (keys settings)) (some user_id)
    pure command_id

  reject_world : (all ks : List String) (w : World P) → (reject_restart all ks w).1 ≡ w
  unfolding reject_restart
  reject_world all ks w = ground arith

  validate_world : (settings : Fields) (w : World P) → (validate_settings_keys settings w).1 ≡ w
  unfolding validate_settings_keys
  validate_world settings w =
      reject_world (keys settings) (select (has restart_required_keys) (keys settings)) w

  module _ (agent_id : String) (settings : Fields) (user_id : String) (w : World P) where
    abbrev pub settings_entry : EaAuditLog
    settings_entry = record {
      agent_id = agent_id;
      event = AuditEvent.settings_change;
      payload = AuditPayload.settings_keys (P.uuid w.uuids) (keys settings);
      user_id = some user_id;
    }

    abbrev pub settings_order : Effect
    settings_order = emit_room (bridge_room agent_id) (
        bridge_command (P.uuid w.uuids) "SETTINGS"
          (some (P.to_base64 (P.stringify (obj settings)))))

    -- What an accepted push has checked and done.
    pub record IsPushed (id : String) (w' : World P) : Type 0 where
      pub instance_of : EaInstance
      pub found : P.find_one (by_agent agent_id) w.db ≡ some (some instance_of)
      pub owned : instance_of.user_id ≡ some user_id
      pub online : instance_of.online ≡ true
      pub live : All IsLive (keys settings)
      pub fresh : id ≡ P.uuid w.uuids
      pub sent : w'.trace ≡ settings_order ∷ w.trace
      pub stored : P.Db
      pub updated : P.update_one (by_agent agent_id) (set_settings settings) w.db ≡ some stored
      pub audited : P.create_audit_log settings_entry stored ≡ some w'.db

  push_checked_ok :
      (agent_id : String) (settings : Fields) (user_id : String) (w : World P) (id : String)
      → (push_checked agent_id settings user_id w).0 ≡ ok id
      → ((validate_settings_keys settings w).0 ≡ ok tt)
        × (id ≡ P.uuid w.uuids)
        × ((push_checked agent_id settings user_id w).1.trace
            ≡ settings_order agent_id settings user_id w ∷ w.trace)
        × ((stored : P.Db) × (P.update_one (by_agent agent_id) (set_settings settings) w.db
              ≡ some stored)
            × (P.create_audit_log (settings_entry agent_id settings user_id w) stored
                ≡ some (push_checked agent_id settings user_id w).1.db))
  unfolding push_checked
  push_checked_ok agent_id settings user_id w id h =
      elim (Option-cases (P.update_one (by_agent agent_id) (set_settings settings) w.db)) [
        | inl down ↦ ground (arith, validate_world settings w)
        | inr (stored, e) ↦ (
          ground (arith, validate_world settings w),
          ground (arith, validate_world settings w),
          ground (arith, validate_world settings w),
          (stored, e, ground (arith, validate_world settings w)),
        )
      ]

  push-Gate :
      (agent_id : String) (settings : Fields) (user_id : String) (w : World P)
      → Gate agent_id
          (refusal agent_id user_id)
          (push_checked agent_id settings user_id)
          w
          (push_settings agent_id settings user_id w)
  unfolding push_settings push_checked
  push-Gate agent_id settings user_id w =
      commanded agent_id user_id (push_checked agent_id settings user_id) w

  -- A push that is accepted: the caller owns the agent's EA, which is online; every key may change
  -- live; exactly one SETTINGS command went to that agent's bridge, with the encoded settings; and
  -- the settings were stored and the keys audited under the command's id.
  pub push_settings-IsPushed :
      (agent_id : String) (settings : Fields) (user_id : String) (w : World P) (id : String)
      → (push_settings agent_id settings user_id w).0 ≡ ok id
      → IsPushed agent_id settings user_id w id (push_settings agent_id settings user_id w).1
  push_settings-IsPushed agent_id settings user_id w id h =
      elim (push-Gate agent_id settings user_id w) [
        | inl (down, r) ↦ absurd (cc (ap (λ x. x.0) r))
        | inr (found, f, inl (why, refused, r)) ↦ absurd (cc (ap (λ x. x.0) r))
        | inr (found, f, inr (allowed, r)) ↦
            let (i, is_i, mine, on) = refusal-eq-none agent_id user_id found allowed in
            let (valid, fresh, sent, (stored, updated, audited)) =
              push_checked_ok agent_id settings user_id w id (sym (ap (λ x. x.0) r) ∙ h) in
            record {
              instance_of = i;
              found = f ∙ ap some is_i;
              owned = mine;
              online = on;
              live = (validate_settings_keys_iff settings w).0 valid;
              fresh = fresh;
              sent = ap (λ x. x.1.trace) r ∙ sent;
              stored = stored;
              updated = updated;
              audited = audited ∙ ap (λ x. some x.1.db) (sym r);
            }
      ]

  get_owned :
      (agent_id user_id : String) (w : World P) (i : EaInstance)
      → P.find_one (by_agent agent_id) w.db ≡ some (some i)
      → i.user_id ≡ some user_id
      → get_current_settings agent_id user_id w ≡ (ok i.current_settings, w)
  unfolding get_current_settings
  get_owned agent_id user_id w i f mine = ground (arith, some-is_text i.user_id user_id mine)

module _ {P : Platform} (laws : Laws P) where
  set_settings-KeepsAgent : (settings : Fields) → KeepsAgent (set_settings settings)
  set_settings-KeepsAgent settings i = refl

  pushed_document :
      (agent_id : String) (settings : Fields) (user_id : String) (w : World P) (id : String)
      (w' : World P) (p : IsPushed agent_id settings user_id w id w')
      → document P agent_id w'.db ≡ some (set_settings settings p.instance_of)
  pushed_document agent_id settings user_id w id w' p =
      document-create_audit_log laws agent_id _ p.stored w'.db p.audited
      ∙ (document-update_one laws agent_id agent_id (set_settings settings) w.db p.stored
            (set_settings-KeepsAgent settings) p.updated
          ∙ rw (eq_refl agent_id, ← found-document laws agent_id w.db (some p.instance_of) p.found)
              refl)

  -- After a push that is accepted, a read of the settings by the same user that the database answers
  -- gives back exactly what was pushed.
  pub get_current_settings-push_settings :
      (agent_id : String) (settings : Fields) (user_id : String) (w w' : World P) (id : String)
      (o : Option EaInstance)
      → push_settings agent_id settings user_id w ≡ (ok id, w')
      → P.find_one (by_agent agent_id) w'.db ≡ some o
      → get_current_settings agent_id user_id w' ≡ (ok (some settings), w')
  get_current_settings-push_settings agent_id settings user_id w w' id o h f =
      let pushed = push_settings-IsPushed agent_id settings user_id w id (ap (λ x. x.0) h) in
      let p = subst (IsPushed agent_id settings user_id w id) (ap (λ x. x.1) h) pushed in
      let now =
        found-document laws agent_id w'.db o f
        ∙ pushed_document agent_id settings user_id w id w' p in
      get_owned agent_id user_id w' (set_settings settings p.instance_of) (f ∙ ap some now) p.owned

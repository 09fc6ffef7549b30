-- ===== src/System/Audit.antt =====
-- The audit log over the histories of the program, and the entries of its commands.
use run_bot_backend.Prelude.{
  ℕ, String, Option, ◌≡◌, sym, ◌∙◌, ap, List, [], ◌∷◌, ◌++◌, inl, inr, true, lookup, none,
}
use mathlib.Core.List.{IsPrefix, append-nil, append_assoc}
use run_bot_backend.Data.{EaAuditLog, Socket, new_instance, Effect, emit_room, join, status}
use run_bot_backend.Platform.{Platform, Laws}
use run_bot_backend.Platform.Exec.{World, Result, Exception, ok, err}
use run_bot_backend.Service.Commands.Laws.{Command, send, entry, send-Gate, send_granted}
use run_bot_backend.Platform.Keeps.{Facts, Keeps, IsStable}
use run_bot_backend.Gateway.{by_agent, agent_room, bridge_room}
use run_bot_backend.Gateway.Orders.{is_true, is_true-later}
use run_bot_backend.Gateway.Bridge.{register_instance, on_bridge_register}
use run_bot_backend.Gateway.Bridge.Takeover.{
  confirmed, take_over-at, on_bridge_register-Keeps, kicked_keeps,
}
use run_bot_backend.System.Keeps.{Kept, step-Keeps}
use run_bot_backend.System.{
  Occurrence, disconnection, bridge_register, bridge_telemetry, client_subscribe, step, run,
}

-- Every entry names no command, or one that was sent.
abbrev pub AllTrue : List EaAuditLog → List Effect → Type 0
AllTrue [] t = Unit {0}
AllTrue (e ∷ es) t = (is_true e t ≡ true) × AllTrue es t

-- The audit log is `old`, with further entries after it that are true.
abbrev pub Grown : List EaAuditLog → List EaAuditLog → List Effect → Type 0
Grown old log t = (more : List EaAuditLog) × (old ++ more ≡ log) × AllTrue more t

abbrev pub Recorded : (P : Platform) → List EaAuditLog → Facts P
Recorded P old db b t c = Grown old (P.audit_logs db) t

AllTrue-later :
    (es : List EaAuditLog) (x : Effect) (t : List Effect) → AllTrue es t → AllTrue es (x ∷ t)
AllTrue-later [] x t h = tt
AllTrue-later (e ∷ es) x t (here, rest) = (is_true-later e x t here, AllTrue-later es x t rest)

AllTrue-append :
    (es : List EaAuditLog) (e : EaAuditLog) (t : List Effect)
    → AllTrue es t
    → is_true e t ≡ true
    → AllTrue (es ++ e ∷ []) t
AllTrue-append [] e t h last = (last, tt)
AllTrue-append (x ∷ es) e t (here, rest) last = (here, AllTrue-append es e t rest last)

module _ (old : List EaAuditLog) where
  same_log :
      (log log' : List EaAuditLog) (t : List Effect)
      → log' ≡ log
      → Grown old log t
      → Grown old log' t
  same_log log log' t e (more, h, told) = (more, h ∙ sym e, told)

  added :
      (log log' : List EaAuditLog) (e : EaAuditLog) (t : List Effect)
      → log' ≡ log ++ e ∷ []
      → is_true e t ≡ true
      → Grown old log t
      → Grown old log' t
  added log log' e t written last (more, h, told) = (
    more ++ e ∷ [],
    sym (append_assoc old more (e ∷ [])) ∙ ap (λ l. l ++ e ∷ []) h ∙ sym written,
    AllTrue-append more e t told last,
  )

  later :
      (log : List EaAuditLog) (x : Effect) (t : List Effect)
      → Grown old log t
      → Grown old log (x ∷ t)
  later log x t (more, h, told) = (more, h, AllTrue-later more x t told)

module _ {P : Platform} (laws : Laws P) (old : List EaAuditLog) where
  Recorded-IsStable : {T : ℕ} → IsStable P T (Recorded P old)
  Recorded-IsStable = record {
    updated =
        λ p f k db db' e b t c h. same_log old _ _ t (laws.audit_logs-update_one p f db db' e) h;
    audited = λ e db db' written b t c told h.
        added old _ _ e t (laws.audit_logs-create_audit_log e db db' written) told h;
    recorded = λ e db db' written b t c h.
        same_log old _ _ t (laws.audit_logs-create_pnl_point e db db' written) h;
    sent = λ e quiet db b t c h. later old _ e t h;
    looked_up = λ key db b t c h. h;
    swept = λ db b t c h. h;
  }

  on_bridge_register-Recorded :
      (now : ℕ) (client : Socket) (claimed : Option String)
      → Keeps P (Recorded P old) (on_bridge_register now client claimed)
  on_bridge_register-Recorded now client claimed =
      on_bridge_register-Keeps {T = now} Recorded-IsStable now client claimed
        λ a r existing w bound f free e h.
          let stale = lookup a w.bridge_sockets in
          let kick = kicked_keeps {T = now} Recorded-IsStable (confirmed client a) stale w h in
          let there = later old _ (join client.id (bridge_room a)) _ kick in
          take_over-at (Recorded P old) now (confirmed client a) a r w there (λ db up.
            later old _ (emit_room (agent_room a) (status a true none)) _ (
              same_log old _ _ _
                (laws.audit_logs-upsert_one (by_agent a) (new_instance a) (register_instance now r)
                  w.db db up)
                there))

  Kept-Recorded : (now : ℕ) (o : Occurrence) → Kept P (Recorded P old) now o
  Kept-Recorded now (bridge_register client claimed) =
      on_bridge_register-Recorded now client claimed
  Kept-Recorded now (disconnection client) = λ b w l h. h
  Kept-Recorded now (bridge_telemetry client frame) = λ a f w h. h
  Kept-Recorded now (client_subscribe client b) = λ w h. later old _ _ w.trace h
  Kept-Recorded now _ = tt

  run-Recorded :
      (history : List (ℕ × Occurrence)) (w : World P)
      → Grown old (P.audit_logs w.db) w.trace
      → Grown old (P.audit_logs (run history w).db) (run history w).trace
  unfolding run
  run-Recorded [] w h = h
  run-Recorded ((now, o) ∷ rest) w h =
      run-Recorded rest (step now o w)
        (step-Keeps now Recorded-IsStable o (Kept-Recorded now o) w h)

module _ {P : Platform} (laws : Laws P) where
  -- The audit log is append-only and tells of no command that was not sent: after every history of
  -- connections, events of bridges and browsers, requests and jobs whose handlers run one after the
  -- other, whatever the sockets and the database's failures, it is the log from before with further
  -- entries after it, and for each of these that names a command, that command went out to the bridge
  -- of the entry's agent, with the entry's id, the verb of its event, and the value that it gives.
  pub run-Grown :
      (history : List (ℕ × Occurrence)) (w : World P)
      → Grown (P.audit_logs w.db) (P.audit_logs (run history w).db) (run history w).trace
  run-Grown history w =
      run-Recorded laws (P.audit_logs w.db) history w ([], append-nil (P.audit_logs w.db), tt)

  -- What a command that gives back an id has done to the audit log.
  send_audited :
      (c : Command) (a user id : String) (w w' : World P)
      → send c a user w ≡ (ok id, w')
      → (id ≡ P.uuid w.uuids) × (P.audit_logs w'.db ≡ P.audit_logs w.db ++ entry c a user w ∷ [])
  send_audited c a user id w w' h = elim (send-Gate c a user w) [
    | inl (down, r) ↦ absurd (not_ok (sym h ∙ r))
    | inr (found, f, inl (e, refused, r)) ↦ absurd (not_ok (sym h ∙ r))
    | inr (found, f, inr (allowed, r)) ↦ elim (send_granted c a user w found f allowed) [
      | inr (lost, rejects) ↦ absurd (not_ok (sym h ∙ rejects))
      | inl (db, written, answers) ↦ (
        same_answer (ap (λ x. x.0) (sym h ∙ answers)),
        ap (λ x. P.audit_logs x.1.db) (sym h ∙ answers)
            ∙ laws.audit_logs-create_audit_log (entry c a user w) w.db db written,
      )
    ]
  ]
    where
      not_ok :
          {e : Exception} {v v' : World P}
          → ◌≡◌ {A = Result String × World P} (ok id, v) (err e, v')
          → ⊥
      not_ok e = cc

      same_answer : {x y : String} → ok x ≡ ok y → x ≡ y
      same_answer e = cc

  -- A command that gave the caller an id is in the audit log for good: the id is the one that it drew,
  -- and after every later history of handlers that run one after the other, whatever the sockets and
  -- the database's failures, the log begins with what it held before the command and the command's
  -- entry.
  pub run-send :
      (c : Command) (a user id : String) (w w' : World P) (history : List (ℕ × Occurrence))
      → send c a user w ≡ (ok id, w')
      → (id ≡ P.uuid w.uuids)
        × IsPrefix (P.audit_logs w.db ++ entry c a user w ∷ []) (P.audit_logs (run history w').db)
  run-send c a user id w w' history h =
      let (drawn, audited) = send_audited c a user id w w' h in
      let (more, is, told) = run-Grown history w' in
      (drawn, (more, ap (λ l. l ++ more) (sym audited) ∙ is))

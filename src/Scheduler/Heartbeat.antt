-- ===== src/Scheduler/Heartbeat.antt =====
-- The heartbeat over all online instances.
use mathlib.Core.Option
use run_bot_backend.Prelude.{
  ℕ, subst, String, ◌≡◌, refl, ◌∙◌, ap, ◌⊎◌, inl, inr, Option, none, some, Bool, true, false, ◌&&◌,
  ◌||◌, List, [], ◌∷◌, ◌==◌, Option-cases, Bool-cases, arith, if◌then◌else◌, select, any,
}
use run_bot_backend.Cache.{Cache, get}
use run_bot_backend.Cache.Laws.{read, read-get}
use run_bot_backend.Data.{EaInstance, EaAuditLog, Effect, emit_room, status}
use run_bot_backend.Platform.{Platform, Laws}
use run_bot_backend.Platform.Documents.{document, document-update_one, document-create_audit_log}
use run_bot_backend.Platform.Exec.{World, ok, err, rejected}
use run_bot_backend.Gateway.{state_key, agent_room, by_agent, get_cached_state}
use run_bot_backend.Gateway.Connection.{set_offline}
use run_bot_backend.Scheduler.{
  is_stale, mark_offline, check_instance, check_instances, check_heartbeat, is_online_instance,
}
use run_bot_backend.Scheduler.Laws.{timeout_entry}
use run_bot_backend.Scheduler.Late.{is_late_text, is_stale-is_late}

-- A database that accepts every change of an instance and every audit entry.
pub record AcceptsWrites (P : Platform) : Type 0 where
  pub updates :
      (p : EaInstance → Bool) (f : EaInstance → EaInstance) (db : P.Db)
      → (db' : P.Db) × (P.update_one p f db ≡ some db')
  pub audits : (e : EaAuditLog) (db : P.Db) → (db' : P.Db) × (P.create_audit_log e db ≡ some db')

module _ (P : Platform) (now : ℕ) where
  -- What the cache holds of the agent is late, or there is nothing.
  abbrev pub is_silent : Cache → EaInstance → Bool
  is_silent cache i = is_late_text P now (read now (state_key i.agent_id) cache)

  -- What the rooms are told, newest first: of each silent instance that it is offline.
  abbrev pub told_offline : Cache → List EaInstance → List Effect → List Effect
  told_offline cache [] trace = trace
  told_offline cache (i ∷ rest) trace = told_offline cache rest (
      if is_silent cache i
      then emit_room (agent_room i.agent_id) (status i.agent_id false (some now)) ∷ trace
      else trace)

  told_alike :
      (c c' : Cache) (xs : List EaInstance) (trace : List Effect)
      → ((key : String) → read now key c' ≡ read now key c)
      → told_offline c' xs trace ≡ told_offline c xs trace
  told_alike c c' [] trace same = refl
  told_alike c c' (i ∷ rest) trace same =
      rw (same (state_key i.agent_id)) (told_alike c c' rest _ same)

  -- Whether the agent is one of a list's silent instances.
  abbrev pub gives_up : Cache → String → List EaInstance → Bool
  gives_up cache b xs = any (λ i. is_silent cache i && i.agent_id == b) xs

  gives_up_alike :
      (c c' : Cache) (b : String) (xs : List EaInstance)
      → ((key : String) → read now key c' ≡ read now key c)
      → gives_up c' b xs ≡ gives_up c b xs
  gives_up_alike c c' b [] same = refl
  gives_up_alike c c' b (i ∷ rest) same =
      rw (same (state_key i.agent_id), gives_up_alike c c' b rest same) refl

abbrev pub offline_if : Bool → Option EaInstance → Option EaInstance
offline_if b o = if b then Option.map set_offline o else o

offline_twice :
    (b c : Bool) (o : Option EaInstance) → offline_if c (offline_if b o) ≡ offline_if (b || c) o
offline_twice true true none = refl
offline_twice true true (some i) = refl
offline_twice true false o = refl
offline_twice false c o = refl

module _ {P : Platform} (laws : Laws P) (writes : AcceptsWrites P) (now : ℕ) where
  -- What one check does, in terms of the cache before it.
  record Checks (a : String) (w w' : World P) (silent : Bool) : Type 0 where
    cache : (key : String) → read now key w'.telemetry_cache ≡ read now key w.telemetry_cache
    trace : w'.trace ≡ (
        if silent then emit_room (agent_room a) (status a false (some now)) ∷ w.trace else w.trace)
    documents :
        (b : String) → document P b w'.db ≡ offline_if (silent && a == b) (document P b w.db)

  marked :
      (a : String) (w : World P)
      → ((mark_offline now a w).0 ≡ ok tt) × Checks a w (mark_offline now a w).1 true
  unfolding mark_offline
  marked a w =
      let (db, e) = writes.updates (by_agent a) set_offline w.db in
      let (db', e') = writes.audits (timeout_entry a) db in
      (
        rw (e, e') refl,
        record {
          cache = λ key. rw (e, e') refl;
          trace = rw (e, e') refl;
          documents = λ b.
              rw (e, e')
                (document-create_audit_log laws b (timeout_entry a) db db' e'
                  ∙ document-update_one laws a b set_offline w.db db (λ i. refl) e);
        },
      )

  checked_as_stale :
      (a : String) (w : World P)
      → ((check_instance now a w).0 ≡ ok tt)
        × Checks a w
            (check_instance now a w).1
            (is_stale P now (read now (state_key a) w.telemetry_cache))
  unfolding check_instance get_cached_state
  checked_as_stale a w =
      let cache = (get now (state_key a) w.telemetry_cache).1 in
      let seen : World P = record w { telemetry_cache = cache } in
      let kept =
        λ (key : String). read-get now now (state_key a) key w.telemetry_cache (omega arith) in
      elim (Bool-cases (is_stale P now (read now (state_key a) w.telemetry_cache))) [
        | inl silent ↦
            let (done, c) = marked a seen in
            rw silent (
              done,
              record {
                cache = λ key. c.cache key ∙ kept key;
                trace = c.trace;
                documents = c.documents;
              },
            )
        | inr heard ↦ rw heard (refl, record { cache = kept; trace = refl; documents = λ b. refl })
      ]

  checked :
      (a : String) (w : World P)
      → ((check_instance now a w).0 ≡ ok tt)
        × Checks a w
            (check_instance now a w).1
            (is_late_text P now (read now (state_key a) w.telemetry_cache))
  checked a w =
      let (done, c) = checked_as_stale a w in
      (
        done,
        subst (Checks a w (check_instance now a w).1)
            (is_stale-is_late P now (read now (state_key a) w.telemetry_cache)) c,
      )

  all_checked :
      (xs : List EaInstance) (w : World P)
      → ((check_instances now xs w).0 ≡ ok tt)
        × ((check_instances now xs w).1.trace ≡ told_offline P now w.telemetry_cache xs w.trace)
        × ((b : String)
            → document P b (check_instances now xs w).1.db
              ≡ offline_if (gives_up P now w.telemetry_cache b xs) (document P b w.db))
  unfolding check_instances
  all_checked [] w = (refl, refl, λ b. refl)
  all_checked (i ∷ rest) w =
      let (done, c) = checked i.agent_id w in
      let w' = (check_instance now i.agent_id w).1 in
      let (all_done, traced, written) = all_checked rest w' in
      rw done (
        all_done,
        traced
            ∙ told_alike P now w.telemetry_cache w'.telemetry_cache rest w'.trace c.cache
            ∙ ap (told_offline P now w.telemetry_cache rest) c.trace,
        λ b.
            written b
            ∙ ap (λ x. offline_if x (document P b w'.db))
                (gives_up_alike P now w.telemetry_cache w'.telemetry_cache b rest c.cache)
            ∙ ap (offline_if (gives_up P now w.telemetry_cache b rest)) (c.documents b)
            ∙ offline_twice (is_silent P now w.telemetry_cache i && i.agent_id == b)
                (gives_up P now w.telemetry_cache b rest) (document P b w.db),
      )

  -- A heartbeat over a database that accepts every write either finds the query rejected and does
  -- nothing, or finishes: the rooms of exactly the online instances whose cached state is missing, cannot
  -- be read, or states a time in seconds that is more than five minutes past are told, in order, that
  -- they are offline, and exactly their documents become offline.
  pub check_heartbeat_lem :
      (w : World P)
      → (check_heartbeat now w ≡ (err rejected, w))
        ⊎ (let xs = select (λ i. i.online) (P.instances w.db) in
            ((check_heartbeat now w).0 ≡ ok tt)
            × ((check_heartbeat now w).1.trace ≡ told_offline P now w.telemetry_cache xs w.trace)
            × ((b : String)
                → document P b (check_heartbeat now w).1.db
                  ≡ offline_if (gives_up P now w.telemetry_cache b xs) (document P b w.db)))
  unfolding check_heartbeat
  check_heartbeat_lem w = elim (Option-cases (P.find is_online_instance w.db)) [
    | inl down ↦ inl (rw down refl)
    | inr (xs, found) ↦
        let same = laws.find_lem is_online_instance w.db xs found in
        inr (rw (found, ← same) (all_checked xs w))
  ]

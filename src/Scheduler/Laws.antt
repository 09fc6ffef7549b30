-- ===== src/Scheduler/Laws.antt =====
-- Whom the heartbeat marks offline.
use run_bot_backend.Prelude.{
  ℕ, pos, ◌+◌, ◌*◌, ◌≤◌, ◌<◌, String, ◌≡◌, ◌≢◌, refl, ◌∙◌, ◌⊎◌, inl, inr, Option, none, some, Bool,
  true, false, List, [], ◌∷◌, eq_iff, eq_refl, Option-cases, arith, leb, ltb,
}
use run_bot_backend.Json.{Json, Coerced, null, member, num}
use run_bot_backend.Cache.{get}
use run_bot_backend.Data.{
  EaInstance, EaAuditLog, AuditEvent, AuditPayload, emit_room, status, Socket,
}
use run_bot_backend.Platform.{Platform}
use run_bot_backend.Platform.Exec.{World, Result, ok, err, rejected, pure, recover}
use run_bot_backend.Gateway.{agent_room, by_agent, get_cached_state}
use run_bot_backend.Gateway.Connection.{set_offline}
use run_bot_backend.Gateway.Bridge.{on_bridge_telemetry}
use run_bot_backend.Gateway.Bridge.Telemetry.{Fits, get_cached_state-on_bridge_telemetry}
use run_bot_backend.Service.History.{record_pnl_point}
use run_bot_backend.Scheduler.{
  frame_is_stale, is_stale, check_instance, snapshot_one, snapshots, record_pnl_snapshots,
  is_online_instance,
}

abbrev pub timeout_entry : String → EaAuditLog
timeout_entry agent_id = record {
  agent_id = agent_id;
  event = AuditEvent.bridge_disconnect;
  payload = AuditPayload.reason "heartbeat_timeout";
  user_id = none;
}

stale_frame :
    (read : String → Coerced) (t s : ℕ) (frame : Json)
    → frame ≢ null
    → member "ts" frame ≡ some (num (pos s))
    → frame_is_stale read t (some frame) ≡ ltb (s * 1000 + 300_000) t
unfolding frame_is_stale
stale_frame read t s null ne m = absurd (ne refl)
stale_frame read t s _ ne m = ground arith

module _ (P : Platform) where
  -- A frame with a time `s` in seconds whose JSON text can be read back.
  pub record IsTimed (frame : Json) (s : ℕ) : Type 0 where
    pub not_null : frame ≢ null
    pub time : member "ts" frame ≡ some (num (pos s))
    pub text : P.stringify frame ≢ ""
    pub parsed : P.parse (P.stringify frame) ≡ some frame

  is_stale_text :
      (t s : ℕ) (frame : Json)
      → IsTimed frame s
      → is_stale P t (some (P.stringify frame)) ≡ ltb (s * 1000 + 300_000) t
  unfolding is_stale
  is_stale_text t s frame f = ground (
    arith,
    eq_iff (P.stringify frame) "",
    f.text,
    f.parsed,
    stale_frame P.number_of_text t s frame f.not_null f.time,
  )

module _ {P : Platform} where
  -- A cached state that is still there is read without a change of the state.
  get_live :
      (t : ℕ) (agent_id v : String) (w : World P)
      → (get_cached_state t agent_id w).0 ≡ ok (some v)
      → get_cached_state t agent_id w ≡ (ok (some v), w)
  unfolding get_cached_state get
  get_live t agent_id v w h = ground arith

  check_fresh :
      (t : ℕ) (agent_id v : String) (w : World P)
      → (get_cached_state t agent_id w).0 ≡ ok (some v)
      → is_stale P t (some v) ≡ false
      → check_instance t agent_id w ≡ (ok tt, w)
  unfolding check_instance
  check_fresh t agent_id v w h fresh = rw (get_live t agent_id v w h, fresh) refl

  get_db :
      (t : ℕ) (agent_id : String) (w : World P)
      → ((get_cached_state t agent_id w).1.db ≡ w.db)
        × ((get_cached_state t agent_id w).1.trace ≡ w.trace)
  unfolding get_cached_state
  get_db t agent_id w = (refl, refl)

  check_stale :
      (t : ℕ) (agent_id : String) (cached : Option String) (w : World P) (db db' : P.Db)
      → (get_cached_state t agent_id w).0 ≡ ok cached
      → is_stale P t cached ≡ true
      → P.update_one (by_agent agent_id) set_offline w.db ≡ some db
      → P.create_audit_log (timeout_entry agent_id) db ≡ some db'
      → ((check_instance t agent_id w).0 ≡ ok tt)
        × ((check_instance t agent_id w).1.db ≡ db')
        × ((check_instance t agent_id w).1.trace
            ≡ emit_room (agent_room agent_id) (status agent_id false (some t)) ∷ w.trace)
  unfolding check_instance
  check_stale t agent_id cached w db db' h stale e e' = ground (arith, get_db t agent_id w)

  -- After a frame of the agent is taken, a heartbeat that comes less than sixty seconds after the
  -- frame was received and at most five minutes after the time that the frame states changes nothing.
  pub heartbeat_keeps :
      (received s t : ℕ) (client : Socket) (agent_id : String) (frame : Json) (w : World P)
      → Fits client agent_id frame
      → IsTimed P frame s
      → t < received + 60_000
      → t ≤ s * 1000 + 300_000
      → let w' = (on_bridge_telemetry received client frame w).1 in
        check_instance t agent_id w' ≡ (ok tt, w')
  heartbeat_keeps received s t client agent_id frame w f timed soon recent =
      let w' = (on_bridge_telemetry received client frame w).1 in
      let there : leb (received + 60_000) t ≡ false = ground arith in
      check_fresh t agent_id (P.stringify frame) w'
        (get_cached_state-on_bridge_telemetry received t client agent_id agent_id frame w f
          ∙ rw (eq_refl agent_id, there) refl)
        (is_stale_text P t s frame timed ∙ ground arith)

  -- A heartbeat sixty seconds after the last frame was received, or later, gives the EA up however
  -- recent the time that the frame states: with the writes accepted, the room is told that the EA is
  -- offline. The five minutes of the scheduler's threshold play no part.
  pub heartbeat_drops :
      (received t : ℕ) (client : Socket) (agent_id : String) (frame : Json) (w : World P)
      (db db' : P.Db)
      → Fits client agent_id frame
      → received + 60_000 ≤ t
      → P.update_one
          (by_agent agent_id)
          set_offline
          (on_bridge_telemetry received client frame w).1.db
        ≡ some db
      → P.create_audit_log (timeout_entry agent_id) db ≡ some db'
      → let w' = (on_bridge_telemetry received client frame w).1 in
        ((check_instance t agent_id w').0 ≡ ok tt)
        × ((check_instance t agent_id w').1.db ≡ db')
        × ((check_instance t agent_id w').1.trace
            ≡ emit_room (agent_room agent_id) (status agent_id false (some t)) ∷ w'.trace)
  unfolding is_stale
  heartbeat_drops received t client agent_id frame w db db' f late e e' =
      let w' = (on_bridge_telemetry received client frame w).1 in
      let gone : leb (received + 60_000) t ≡ true = ground arith in
      check_stale t agent_id none w' db db'
        (get_cached_state-on_bridge_telemetry received t client agent_id agent_id frame w f
          ∙ rw (eq_refl agent_id, gone) refl)
        refl e e'

  recover_total :
      (r : Result Bool) (w : World P) → (b : Bool) × ((recover r (pure false) w).0 ≡ ok b)
  recover_total (ok b) w = (b, refl)
  recover_total (err e) w = (false, refl)

  snapshot_one_ok :
      (now : ℕ) (agent_id : String) (w : World P)
      → (b : Bool) × ((snapshot_one now agent_id w).0 ≡ ok b)
  unfolding snapshot_one
  snapshot_one_ok now agent_id w =
      recover_total (record_pnl_point now agent_id w).0 (record_pnl_point now agent_id w).1

  snapshots_ok : (now : ℕ) (xs : List EaInstance) (w : World P) → (snapshots now xs w).0 ≡ ok tt
  unfolding snapshots
  snapshots_ok now [] w = refl
  snapshots_ok now (i ∷ rest) w =
      let (b, e) = snapshot_one_ok now i.agent_id w in
      rw e (snapshots_ok now rest (snapshot_one now i.agent_id w).1)

  -- The snapshot job finishes for every list of online EAs, whatever their cached states hold and
  -- whichever writes are rejected: it fails only where the query for the online EAs is rejected.
  pub record_pnl_snapshots_ok :
      (now : ℕ) (w : World P)
      → ((P.find is_online_instance w.db ≡ none) × (record_pnl_snapshots now w ≡ (err rejected, w)))
        ⊎ ((record_pnl_snapshots now w).0 ≡ ok tt)
  unfolding record_pnl_snapshots
  record_pnl_snapshots_ok now w = elim (Option-cases (P.find is_online_instance w.db)) [
    | inl down ↦ inl (down, ground arith)
    | inr (xs, found) ↦ inr (ground (arith, snapshots_ok now xs w))
  ]

-- ===== src/Gateway/Bridge/Telemetry.antt =====
-- What `console:telemetry` leaves in the cache and in the database.
use mathlib.Core.Option
use text.Mathlib.TextLemmas.{append_cancel_left}
use run_bot_backend.Prelude.{
  ℕ, ◌+◌, String, ◌≡◌, ◌≢◌, refl, ◌⊎◌, inl, inr, none, some, true, false, ◌==◌, eq_iff, Bool-cases,
  arith, if◌then◌else◌, leb,
}
use run_bot_backend.Json.{Json, null, member, truthy_json, json_is_text}
use run_bot_backend.Cache.{setex}
use run_bot_backend.Cache.Laws.{read, read-setex}
use run_bot_backend.Data.{EaInstance, Socket}
use run_bot_backend.Platform.{Platform, Laws}
use run_bot_backend.Platform.Documents.{document, KeepsAgent, document-update_one}
use run_bot_backend.Platform.Exec.{World, ok}
use run_bot_backend.Gateway.{
  state_key, by_agent, bound_agent, get_cached_state, read_member, telemetry_ttl_seconds,
}
use run_bot_backend.Gateway.Bridge.{see_telemetry, accept_telemetry, on_bridge_telemetry}

pub state_key_injective : (a b : String) → state_key a ≡ state_key b → a ≡ b
unfolding state_key
state_key_injective a b h = append_cancel_left "ea:state:" a b h

pub same_key : (a b : String) → (state_key a == state_key b) ≡ (a == b)
same_key a b =
    ground (arith, eq_iff a b, eq_iff (state_key a) (state_key b), state_key_injective a b)

-- A frame that a bridge bound to the agent may send: it is no `null`, and names the agent or none.
pub record Fits (client : Socket) (agent_id : String) (frame : Json) : Type 0 where
  pub bound : bound_agent client.state ≡ some agent_id
  pub named : agent_id ≢ ""
  pub not_null : frame ≢ null
  pub agrees :
      (truthy_json (member "agentId" frame) ≡ false)
      ⊎ (json_is_text (member "agentId" frame) agent_id ≡ true)

module _ {P : Platform} where
  pub read_member_lem :
      (key : String) (frame : Json) (w : World P)
      → frame ≢ null
      → read_member key frame w ≡ (ok (member key frame), w)
  unfolding read_member
  read_member_lem key null w ne = absurd (ne refl)
  read_member_lem key _ w ne = refl

  fitting :
      (now : ℕ) (client : Socket) (agent_id : String) (frame : Json) (w : World P)
      → Fits client agent_id frame
      → on_bridge_telemetry now client frame w ≡ accept_telemetry now agent_id frame w
  unfolding on_bridge_telemetry
  fitting now client agent_id frame w f = ground (
    arith,
    f.bound,
    f.named,
    f.agrees,
    eq_iff agent_id "",
    read_member_lem "agentId" frame w f.not_null,
  )

  pub cached_lem :
      (t : ℕ) (agent_id : String) (w : World P)
      → (get_cached_state t agent_id w).0 ≡ ok (read t (state_key agent_id) w.telemetry_cache)
  unfolding get_cached_state
  cached_lem t agent_id w = refl

  pub accepted_cache :
      (now : ℕ) (agent_id : String) (frame : Json) (w : World P)
      → (accept_telemetry now agent_id frame w).1.telemetry_cache
        ≡ setex now (state_key agent_id) telemetry_ttl_seconds (P.stringify frame) w.telemetry_cache
  unfolding accept_telemetry
  accepted_cache now agent_id frame w = ground arith

  -- After a frame of the agent is taken at a time, the cached state of that agent is that frame, as a
  -- text, for sixty seconds and nothing from then on, and no other agent's cached state has changed.
  -- This holds also where the database rejects the update that follows.
  pub get_cached_state-on_bridge_telemetry :
      (now t : ℕ) (client : Socket) (agent_id b : String) (frame : Json) (w : World P)
      → Fits client agent_id frame
      → (get_cached_state t b (on_bridge_telemetry now client frame w).1).0 ≡ (
          if agent_id == b
          then ok (if leb (now + 60_000) t then none else some (P.stringify frame))
          else (get_cached_state t b w).0)
  get_cached_state-on_bridge_telemetry now t client agent_id b frame w f =
      rw
        (
          fitting now client agent_id frame w f,
          cached_lem t b (accept_telemetry now agent_id frame w).1,
          accepted_cache now agent_id frame w,
          read-setex now t telemetry_ttl_seconds (state_key agent_id) (state_key b)
              (P.stringify frame) w.telemetry_cache,
          same_key agent_id b,
          cached_lem t b w,
        )
        (elim (Bool-cases (agent_id == b)) [ inl e ↦ rw e refl | inr e ↦ rw e refl ])

  -- A frame that names another agent than the one that its socket is bound to changes nothing at all.
  pub telemetry_mismatch :
      (now : ℕ) (client : Socket) (agent_id : String) (frame : Json) (w : World P)
      → bound_agent client.state ≡ some agent_id
      → frame ≢ null
      → truthy_json (member "agentId" frame) ≡ true
      → json_is_text (member "agentId" frame) agent_id ≡ false
      → on_bridge_telemetry now client frame w ≡ (ok tt, w)
  unfolding on_bridge_telemetry
  telemetry_mismatch now client agent_id frame w b ne named other =
      ground (arith, read_member_lem "agentId" frame w ne)

  accepted_db :
      (now : ℕ) (agent_id : String) (frame : Json) (w : World P) (db : P.Db)
      → P.update_one (by_agent agent_id) (see_telemetry now frame) w.db ≡ some db
      → (accept_telemetry now agent_id frame w).1.db ≡ db
  unfolding accept_telemetry
  accepted_db now agent_id frame w db e = ground arith

module _ {P : Platform} (laws : Laws P) where
  seen-KeepsAgent : (now : ℕ) (frame : Json) → KeepsAgent (see_telemetry now frame)
  seen-KeepsAgent now frame i = refl

  -- A frame that is taken, and whose update the database accepts, leaves the agent's instance, if
  -- there is one, online, seen now, visible and with that frame, and no other instance changed. It
  -- makes no instance.
  pub telemetry_document :
      (now : ℕ) (client : Socket) (agent_id b : String) (frame : Json) (w : World P) (db : P.Db)
      → Fits client agent_id frame
      → P.update_one (by_agent agent_id) (see_telemetry now frame) w.db ≡ some db
      → document P b (on_bridge_telemetry now client frame w).1.db ≡ (
          if agent_id == b
          then Option.map {A = EaInstance}
              (λ i. record i {
                online = true;
                last_telemetry = some frame;
                last_seen_at = some now;
                hidden_at = none;
              })
              (document P b w.db)
          else document P b w.db)
  telemetry_document now client agent_id b frame w db f e =
      rw (fitting now client agent_id frame w f, accepted_db now agent_id frame w db e)
        (document-update_one laws agent_id b (see_telemetry now frame) w.db db
          (seen-KeepsAgent now frame) e)

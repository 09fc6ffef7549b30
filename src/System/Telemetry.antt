-- ===== src/System/Telemetry.antt =====
-- What the console reads of an agent's state, over the histories of the program.
use run_bot_backend.Prelude.{
  ℕ, ◌+◌, ◌≤◌, String, ◌≡◌, refl, ◌∙◌, ap, Option, none, some, List, [], ◌∷◌, ◌==◌, is_text,
  if◌then◌else◌, leb, Distinct, Bool-cases, inl, inr, arith, lookup,
}
use run_bot_backend.Json.{Json}
use run_bot_backend.Cache.{Cache}
use run_bot_backend.Cache.Laws.{
  read, read_lem, read-setex, read-get, read-sweep, setex-Distinct, get-Distinct, sweep-Distinct,
}
use run_bot_backend.Data.{Socket}
use run_bot_backend.Platform.{Platform}
use run_bot_backend.Platform.Exec.{World, ok}
use run_bot_backend.Platform.Keeps.{Facts, Holds, Keeps, IsStable}
use run_bot_backend.Gateway.{state_key, bound_agent, get_cached_state, telemetry_ttl_seconds}
use run_bot_backend.Gateway.Bridge.{on_bridge_register}
use run_bot_backend.Gateway.Bridge.Telemetry.{same_key}
use run_bot_backend.Gateway.Bridge.Frames.{frame_agent, cached_for, on_bridge_telemetry_cache}
use run_bot_backend.Gateway.Bridge.Takeover.{confirmed, take_over-at, on_bridge_register-Keeps}
use run_bot_backend.System.Keeps.{step-Keeps}
use run_bot_backend.System.{
  Occurrence, disconnection, bridge_register, bridge_telemetry, client_subscribe, step, run,
}

-- The last frame of an agent in a history, with the time at which it came.
abbrev pub frame_at : String → ℕ → Occurrence → Option (ℕ × Json) → Option (ℕ × Json)
frame_at a now (bridge_telemetry client frame) last =
    if is_text (frame_agent (bound_agent client.state) frame) a then some (now, frame) else last
frame_at a now _ last = last

abbrev pub last_frame : String → List (ℕ × Occurrence) → Option (ℕ × Json) → Option (ℕ × Json)
last_frame a [] last = last
last_frame a ((now, o) ∷ rest) last = last_frame a rest (frame_at a now o last)

-- The times of a history do not fall, from one time to another.
abbrev pub InOrder : ℕ → List (ℕ × Occurrence) → ℕ → Type 0
InOrder before [] after = before ≤ after
InOrder before ((now, o) ∷ rest) after = (before ≤ now) × InOrder now rest after

module _ (P : Platform) where
  -- The frame as a text, for sixty seconds from when it came.
  abbrev pub fresh : ℕ → Option (ℕ × Json) → Option String
  fresh t none = none
  fresh t (some (came, frame)) = if leb (came + 60_000) t then none else some (P.stringify frame)

  -- From a time on, the cache shows the frame.
  abbrev pub Shows : String → ℕ → Option (ℕ × Json) → Facts P
  Shows a now last db b t c =
      ((later : ℕ) → now ≤ later → read later (state_key a) c ≡ fresh later last) × Distinct c

cached-Shows :
    (P : Platform) (a : String) (last : Option (ℕ × Json)) (now : ℕ) (of : Option String)
    (frame : Json) (c : Cache)
    → ((later : ℕ) → now ≤ later → read later (state_key a) c ≡ fresh P later last) × Distinct c
    → ((later : ℕ)
        → now ≤ later
        → read later (state_key a) (cached_for now of (P.stringify frame) c)
          ≡ fresh P later (if is_text of a then some (now, frame) else last))
      × Distinct (cached_for now of (P.stringify frame) c)
cached-Shows P a last now none frame c h = h
cached-Shows P a last now (some b) frame c h = (
  (λ later le.
      read-setex now later telemetry_ttl_seconds (state_key b) (state_key a) (P.stringify frame) c
      ∙ rw (same_key b a) (elim (Bool-cases (b == a)) [
        | inl same ↦ rw same refl
        | inr other ↦ rw other (h.0 later le)
      ])),
  setex-Distinct now telemetry_ttl_seconds (state_key b) (P.stringify frame) c h.1,
)

module _ {P : Platform} (a : String) (last : Option (ℕ × Json)) where
  Shows-IsStable : (now : ℕ) → IsStable P now (Shows P a now last)
  Shows-IsStable now = record {
    updated = λ p f k db db' e b t c h. h;
    audited = λ e db db' written b t c told h. h;
    recorded = λ e db db' written b t c h. h;
    sent = λ e quiet db b t c h. h;
    looked_up = λ key db b t c h. (
      (λ later le. read-get now later key (state_key a) c le ∙ h.0 later le),
      get-Distinct now key c h.1,
    );
    swept = λ db b t c h. (
      (λ later le. read-sweep now later (state_key a) c h.1 le ∙ h.0 later le),
      sweep-Distinct now c h.1,
    );
  }

  on_bridge_register-Shows :
      (now : ℕ) (client : Socket) (claimed : Option String)
      → Keeps P (Shows P a now last) (on_bridge_register now client claimed)
  on_bridge_register-Shows now client claimed =
      on_bridge_register-Keeps (Shows-IsStable now) now client claimed
        λ b r existing w bound f free e h.
          take_over-at (Shows P a now last) now (confirmed client b) b r w h (λ db up. h)

  later-Shows :
      (before now : ℕ) (w : World P)
      → before ≤ now
      → Holds {P = P} (Shows P a before last) w
      → Holds {P = P} (Shows P a now last) w
  later-Shows before now w le h = ((λ later le'. h.0 later (omega (arith, le, le'))), h.1)

  step-Shows :
      (now : ℕ) (o : Occurrence) (w : World P)
      → Holds {P = P} (Shows P a now last) w
      → Holds {P = P} (Shows P a now (frame_at a now o last)) (step now o w)
  step-Shows now (bridge_telemetry client frame) w h =
      unfold step in
      rw (on_bridge_telemetry_cache now client frame w) (
        cached-Shows P a last now (frame_agent (bound_agent client.state) frame) frame
          w.telemetry_cache h)
  step-Shows now (bridge_register client claimed) w h =
      step-Keeps now (Shows-IsStable now) (bridge_register client claimed)
        (on_bridge_register-Shows now client claimed) w h
  step-Shows now (disconnection client) w h =
      step-Keeps now (Shows-IsStable now) (disconnection client) (λ b v l k. k) w h
  step-Shows now (client_subscribe client b) w h =
      step-Keeps now (Shows-IsStable now) (client_subscribe client b) (λ v k. k) w h
  step-Shows now o w h = step-Keeps now (Shows-IsStable now) o tt w h

module _ {P : Platform} (a : String) where
  run-Shows :
      (before after : ℕ) (history : List (ℕ × Occurrence)) (last : Option (ℕ × Json)) (w : World P)
      → InOrder before history after
      → Holds {P = P} (Shows P a before last) w
      → Holds {P = P} (Shows P a after (last_frame a history last)) (run history w)
  unfolding run
  run-Shows before after [] last w le h = later-Shows a last before after w le h
  run-Shows before after ((now, o) ∷ rest) last w (le, order) h =
      run-Shows now after rest (frame_at a now o last) (step now o w) order
        (step-Shows a last now o w (later-Shows a last before now w le h))

  -- A frame counts for an agent where it is no `null`, comes from a bridge bound to the agent, and names
  -- no other agent. After every history that starts with an empty cache and whose times do not fall, of
  -- connections, events of bridges and browsers, requests, jobs and sweeps of the cache whose handlers
  -- run one after the other, whatever the sockets and the database's failures: the cached state that is
  -- read of an agent is the text of the last frame that counted for it, if that came less than sixty
  -- seconds before, and nothing otherwise.
  pub get_cached_state-run :
      (history : List (ℕ × Occurrence)) (t : ℕ) (w : World P)
      → w.telemetry_cache ≡ []
      → InOrder 0 history t
      → (get_cached_state t a (run history w)).0 ≡ ok (fresh P t (last_frame a history none))
  unfolding get_cached_state lookup
  get_cached_state-run history t w empty order = ap ok (
      (run-Shows 0 t history none w order
          (rw empty ((λ later le. read_lem later (state_key a) []), tt))).0
        t (omega arith))

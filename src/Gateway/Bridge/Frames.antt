-- ===== src/Gateway/Bridge/Frames.antt =====
-- Which frames of `console:telemetry` count, and for which agent.
use run_bot_backend.Prelude.{
  ℕ, String, ◌≡◌, refl, Option, none, some, Bool, false, not, ◌&&◌, ◌==◌, Option-cases, Bool-cases,
  inl, inr, if◌then◌else◌,
}
use run_bot_backend.Json.{Json, null, member, truthy_json, json_is_text}
use run_bot_backend.Cache.{Cache, setex}
use run_bot_backend.Data.{Socket}
use run_bot_backend.Platform.{Platform}
use run_bot_backend.Platform.Exec.{World}
use run_bot_backend.Gateway.{state_key, bound_agent, telemetry_ttl_seconds}
use run_bot_backend.Gateway.Bridge.{checked_telemetry, telemetry_of, on_bridge_telemetry}
use run_bot_backend.Gateway.Bridge.Telemetry.{accepted_cache}

-- It names the agent, or no agent at all.
abbrev pub is_of : String → Json → Bool
is_of a null = false
is_of a frame =
    not (truthy_json (member "agentId" frame) && not (json_is_text (member "agentId" frame) a))

-- A frame counts for the agent that the bridge's token names, if the frame names no other.
abbrev pub frame_agent : Option String → Json → Option String
frame_agent none frame = none
frame_agent (some a) frame = if not (a == "") && is_of a frame then some a else none

-- The cache with the frame of an agent, if it is one's.
abbrev pub cached_for : ℕ → Option String → String → Cache → Cache
cached_for now none text c = c
cached_for now (some a) text c = setex now (state_key a) telemetry_ttl_seconds text c

module _ {P : Platform} where
  accepted :
      (now : ℕ) (a : String) (frame : Json) (claimed : Option Json) (w : World P)
      → (checked_telemetry now a frame claimed w).1.telemetry_cache
        ≡ cached_for now
            (if not (truthy_json claimed && not (json_is_text claimed a)) then some a else none)
            (P.stringify frame)
            w.telemetry_cache
  unfolding checked_telemetry
  accepted now a frame claimed w =
      elim (Bool-cases (truthy_json claimed && not (json_is_text claimed a))) [
        | inl other ↦ rw other refl
        | inr own ↦ rw own (accepted_cache now a frame w)
      ]

  of_agent :
      (now : ℕ) (a : String) (frame : Json) (w : World P)
      → (telemetry_of now (some a) frame w).1.telemetry_cache
        ≡ cached_for now (frame_agent (some a) frame) (P.stringify frame) w.telemetry_cache
  unfolding telemetry_of
  of_agent now a null w = elim (Bool-cases (a == "")) [
    | inl empty ↦ rw empty refl
    | inr named ↦ rw named refl
  ]
  of_agent now a frame w = elim (Bool-cases (a == "")) [
    | inl empty ↦ rw empty refl
    | inr named ↦ rw named (accepted now a frame (member "agentId" frame) w)
  ]

  pub on_bridge_telemetry_cache :
      (now : ℕ) (client : Socket) (frame : Json) (w : World P)
      → (on_bridge_telemetry now client frame w).1.telemetry_cache
        ≡ cached_for now
            (frame_agent (bound_agent client.state) frame)
            (P.stringify frame)
            w.telemetry_cache
  unfolding on_bridge_telemetry
  on_bridge_telemetry_cache now client frame w = elim (Option-cases (bound_agent client.state)) [
    | inl nobody ↦ rw (nobody, telemetry_of) refl
    | inr (a, bound) ↦ rw bound (of_agent now a frame w)
  ]

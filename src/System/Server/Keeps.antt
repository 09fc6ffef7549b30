-- ===== src/System/Server/Keeps.antt =====
-- What the occurrences of the server keep: those that leave the sockets alone, and a sweep.
use run_bot_backend.Prelude.{ℕ, String, List, [], ◌∷◌, All, Bool-cases, inl, inr, ◌/◌}
use run_bot_backend.Data.{Effect, Socket}
use run_bot_backend.Platform.{Platform}
use run_bot_backend.Platform.Keeps.{Facts, Holds, IsQuiet, IsStable}
use run_bot_backend.Gateway.Sweep.{is_expired, sweep_sockets, sweep_expired_sockets}
use run_bot_backend.System.{
  Occurrence, connection, disconnection, bridge_register, bridge_telemetry, client_subscribe,
}
use run_bot_backend.Cache.{Cache}
use run_bot_backend.Gateway.Bridge.Keeps.{KeptByFrame}
use run_bot_backend.System.Keeps.{Kept}
use run_bot_backend.System.Server.{Server, IsPlain, performed, connected, swept}

module _ {P : Platform} where
  pub plain-Kept :
      (K : Facts P) (s : Server P) (now : ℕ) (o : Occurrence)
      → KeptByFrame P K now
      → IsPlain s o
      → Kept P K now o
  plain-Kept K s now (connection c t) k h = elim h [ ]
  plain-Kept K s now (disconnection c) k h = elim h [ ]
  plain-Kept K s now (bridge_register c t) k h = elim h [ ]
  plain-Kept K s now (client_subscribe c t) k h = elim h [ ]
  plain-Kept K s now (bridge_telemetry c frame) k h = k
  plain-Kept K s now _ k h = tt

sweep-IsQuiet : (t : ℕ) (ss : List Socket) → All IsQuiet (sweep_sockets t ss).sent
unfolding sweep_sockets
sweep-IsQuiet t [] = tt
sweep-IsQuiet t (s ∷ ss) = elim (Bool-cases (is_expired t s.state.token_expires_at)) [
  | inl late ↦ elim (Bool-cases s.state.expiry_notified) [
    | inl told ↦ rw (late, told) (tt, sweep-IsQuiet t ss)
    | inr untold ↦ rw (late, untold) (tt, sweep-IsQuiet t ss)
  ]
  | inr live ↦ rw live (sweep-IsQuiet t ss)
]

performed-Holds :
    {P : Platform} (K : Facts P)
    → (T : ℕ) → IsStable P T K
    → (db : P.Db) (b : List (String × String)) (es t : List Effect) (c : Cache) → All IsQuiet es
    → K db b t c
    → K db b (performed es t) c
performed-Holds K T stable db b [] t c q h = h
performed-Holds K T stable db b (e ∷ es) t c q h =
    performed-Holds K T stable db b es (e ∷ t) c q.1 (stable.sent e q.0 db b t c h)

-- A sweep only tells and disconnects.
pub swept-Holds :
    {P : Platform} (K : Facts P)
    → (now : ℕ) → IsStable P now K
    → (s : Server P) → Holds {P = P} K s.world
    → Holds {P = P} K (swept now s).world
unfolding sweep_expired_sockets
swept-Holds K now stable s h =
    performed-Holds K now stable s.world.db s.world.bridge_sockets _ s.world.trace
      s.world.telemetry_cache (sweep-IsQuiet (now / 1000) (connected s.sockets)) h

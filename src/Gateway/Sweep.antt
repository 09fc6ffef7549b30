-- ===== src/Gateway/Sweep.antt =====
-- `sweepExpiredSockets`: the sockets with an expired token are told first, and kicked by the next sweep.
pub mod Laws
use run_bot_backend.Prelude.{
  ℕ, suc, ◌+◌, ◌/◌, String, Option, none, some, Bool, true, false, ◌||◌, List, [], ◌∷◌, ltb, eqb,
  if◌then◌else◌,
}
use run_bot_backend.Data.{auth_expired, emit_client, disconnect, SocketData, Socket, Effect}

-- `!d?.tokenExpiresAt || d.tokenExpiresAt > now`, negated. `now` is in seconds.
unfoldable pub is_expired : ℕ → Option ℕ → Bool
is_expired now none = false
is_expired now (some at) = if eqb at 0 || ltb now at then false else true

-- The sockets after a sweep, what they were sent, and the counts that the sweep returns.
pub record Swept : Type 0 where
  pub sockets : List Socket
  pub sent : List Effect
  pub notified : ℕ
  pub kicked : ℕ

notify : Socket → Swept → Swept
notify s rest = record {
  sockets = record s { state = record s.state { expiry_notified = true } } ∷ rest.sockets;
  sent = emit_client s.id auth_expired ∷ rest.sent;
  notified = suc rest.notified;
  kicked = rest.kicked;
}

-- A socket that is disconnected is no longer among the sockets of the server.
kick : Socket → Swept → Swept
kick s rest = record {
  sockets = rest.sockets;
  sent = disconnect s.id ∷ rest.sent;
  notified = rest.notified;
  kicked = suc rest.kicked;
}

keep : Socket → Swept → Swept
keep s rest = record rest { sockets = s ∷ rest.sockets }

unfoldable pub sweep_sockets : ℕ → List Socket → Swept
unfolding notify kick keep is_expired
sweep_sockets now [] = record { sockets = []; sent = []; notified = 0; kicked = 0 }
sweep_sockets now (s ∷ rest) =
    let swept = sweep_sockets now rest in
    if is_expired now s.state.token_expires_at
    then (if s.state.expiry_notified then kick s swept else notify s swept)
    else keep s swept

-- `now` is in milliseconds.
unfoldable pub sweep_expired_sockets : ℕ → List Socket → Swept
unfolding sweep_sockets
sweep_expired_sockets now sockets = sweep_sockets (now / 1000) sockets

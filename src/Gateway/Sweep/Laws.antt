-- ===== src/Gateway/Sweep/Laws.antt =====
-- What a sweep does to each socket, and two sweeps in a row.
use run_bot_backend.Prelude.{
  ℕ, ◌≤◌, ◌/◌, ◌≡◌, refl, Option, none, some, Bool, true, false, not, ◌&&◌, List, [], ◌∷◌, map,
  if◌then◌else◌, eqb, leb, length, any, select, arith,
}
use run_bot_backend.Data.{Effect, auth_expired, emit_client, disconnect, Socket}
use run_bot_backend.Gateway.Sweep.{is_expired, sweep_sockets, sweep_expired_sockets}

-- A token has run out from the second of its expiry on; without an expiry, or with 0, it never does.
abbrev pub has_run_out : ℕ → Option ℕ → Bool
has_run_out now none = false
has_run_out now (some at) = not (eqb at 0) && leb at now

abbrev pub expired_at : ℕ → Socket → Bool
expired_at now s = has_run_out now s.state.token_expires_at

is_expired_lem : (now : ℕ) (o : Option ℕ) → is_expired now o ≡ has_run_out now o
unfolding is_expired
is_expired_lem now none = refl
is_expired_lem now (some at) = ground arith

-- What a socket with an expired token gets.
abbrev pub notice : Socket → Effect
notice s = if s.state.expiry_notified then disconnect s.id else emit_client s.id auth_expired

abbrev pub first_notice : ℕ → Socket → Bool
first_notice now s = expired_at now s && not s.state.expiry_notified

abbrev pub last_notice : ℕ → Socket → Bool
last_notice now s = expired_at now s && s.state.expiry_notified

-- Exactly the sockets with an expired token get something, in order: those that were told before are
-- disconnected, the others are told. The counts are those of the two kinds.
pub sweep_notices :
    (now : ℕ) (sockets : List Socket)
    → ((sweep_expired_sockets now sockets).sent
        ≡ map notice (select (expired_at (now / 1000)) sockets))
      × ((sweep_expired_sockets now sockets).notified
          ≡ length (select (first_notice (now / 1000)) sockets))
      × ((sweep_expired_sockets now sockets).kicked
          ≡ length (select (last_notice (now / 1000)) sockets))
unfolding sweep_expired_sockets
sweep_notices now sockets = go (now / 1000) sockets
  where
    go :
        (t : ℕ) (ss : List Socket)
        → ((sweep_sockets t ss).sent ≡ map notice (select (expired_at t) ss))
          × ((sweep_sockets t ss).notified ≡ length (select (first_notice t) ss))
          × ((sweep_sockets t ss).kicked ≡ length (select (last_notice t) ss))
    go t [] = (refl, refl, refl)
    go t (s ∷ ss) =
        let ih = go t ss in ground (arith, ih, is_expired_lem t s.state.token_expires_at)

is_expired_later :
    (t t' : ℕ) (o : Option ℕ) → t ≤ t' → has_run_out t o ≡ true → has_run_out t' o ≡ true
is_expired_later t t' none h e = ground arith
is_expired_later t t' (some at) h e = ground arith

-- Who is due to be disconnected by the second of two sweeps: who was told by the first, and who had
-- been told before and was not expired at the first.
abbrev pub due : ℕ → ℕ → Socket → Bool
due t t' s = if expired_at t s then not s.state.expiry_notified else last_notice t' s

-- Two sweeps in a row, the second no earlier: the second disconnects exactly as many sockets as are
-- due, which are those that the first told and those told before whose token ran out in between.
pub kicked-sweep-sweep :
    (now later : ℕ) (sockets : List Socket)
    → now ≤ later
    → (sweep_expired_sockets later (sweep_expired_sockets now sockets).sockets).kicked
      ≡ length (select (due (now / 1000) (later / 1000)) sockets)
unfolding sweep_expired_sockets
kicked-sweep-sweep now later sockets h = go sockets
  where
    go :
        (ss : List Socket)
        → (sweep_sockets (later / 1000) (sweep_sockets (now / 1000) ss).sockets).kicked
          ≡ length (select (due (now / 1000) (later / 1000)) ss)
    go [] = refl
    go (s ∷ ss) = ground (
      arith,
      go ss,
      is_expired_later (now / 1000) (later / 1000) s.state.token_expires_at (omega (arith, h)),
    )

-- After two sweeps in a row, the second no earlier, no socket is left whose token was expired at the
-- first.
pub sweep-sweep :
    (now later : ℕ) (sockets : List Socket)
    → now ≤ later
    → any
        (expired_at (now / 1000))
        (sweep_expired_sockets later (sweep_expired_sockets now sockets).sockets).sockets
      ≡ false
unfolding sweep_expired_sockets
sweep-sweep now later sockets h = go sockets
  where
    go :
        (ss : List Socket)
        → any
            (expired_at (now / 1000))
            (sweep_sockets (later / 1000) (sweep_sockets (now / 1000) ss).sockets).sockets
          ≡ false
    go [] = refl
    go (s ∷ ss) = ground (
      arith,
      go ss,
      is_expired_later (now / 1000) (later / 1000) s.state.token_expires_at (omega (arith, h)),
    )

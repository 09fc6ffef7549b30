-- ===== src/Scheduler/Samples.antt =====
-- Which points the cached states of the instances give.
use run_bot_backend.Prelude.{
  ℕ, String, ◌≡◌, refl, sym, ◌∙◌, ap, ◌⊎◌, Option, none, some, true, false, List, [], ◌∷◌, arith,
  All, if◌then◌else◌,
}
use run_bot_backend.Cache.{Cache}
use run_bot_backend.Cache.Laws.{read}
use run_bot_backend.Json.{Coerced, finite, Json, null}
use run_bot_backend.Data.{
  is_finite, is_timed, EaInstance, EaPnlPoint, is_plain, is_missing, is_complete, has_required,
}
use run_bot_backend.Platform.{Platform}
use run_bot_backend.Gateway.{state_key}
use run_bot_backend.Service.History.Points.{point_of}

abbrev pub and_point : Option EaPnlPoint → List EaPnlPoint → List EaPnlPoint
and_point none points = points
and_point (some p) points = p ∷ points

-- A point all of whose fields are numbers.
abbrev pub complete_only : Option EaPnlPoint → Option EaPnlPoint
complete_only none = none
complete_only (some p) = if is_complete p then some p else none

plain-there : (o : Option Json) → is_plain o ≡ true → is_missing o ≡ false
plain-there none h = absurd (cc h)
plain-there (some null) h = absurd (cc h)
plain-there (some _) h = refl

is_finite-is_timed : (c : Coerced) → is_finite c ≡ true → is_timed c ≡ true
is_finite-is_timed (finite n) h = refl
is_finite-is_timed _ h = absurd (cc h)

pub complete-has_required : (p : EaPnlPoint) → is_complete p ≡ true → has_required p ≡ true
complete-has_required p h = ground (
  arith,
  h,
  is_finite-is_timed p.ts,
  plain-there p.equity,
  plain-there p.balance,
  plain-there (some p.total_pnl),
  plain-there (some p.daily_pnl),
)

module _ (P : Platform) (now : ℕ) where
  -- The point of an instance's cached frame has numbers in all of its fields, or lacks a required one:
  -- there is no text that the database would have to convert.
  abbrev pub IsRegular : Cache → EaInstance → Type 0
  IsRegular cache i =
      (p : EaPnlPoint)
      → point_of P i.agent_id (read now (state_key i.agent_id) cache) ≡ some p
      → (is_complete p ≡ true) ⊎ (has_required p ≡ false)

  pub IsRegular-alike :
      (c c' : Cache) (xs : List EaInstance)
      → ((key : String) → read now key c' ≡ read now key c)
      → All (IsRegular c) xs
      → All (IsRegular c') xs
  IsRegular-alike c c' [] same h = tt
  IsRegular-alike c c' (i ∷ rest) same (here, there) = (
    λ p e. here p (ap (point_of P i.agent_id) (sym (same (state_key i.agent_id))) ∙ e),
    IsRegular-alike c c' rest same there,
  )

  -- The complete points of the instances whose cached frame has one, in order.
  abbrev pub points_of : Cache → List EaInstance → List EaPnlPoint
  points_of cache [] = []
  points_of cache (i ∷ rest) =
      and_point (complete_only (point_of P i.agent_id (read now (state_key i.agent_id) cache)))
        (points_of cache rest)

  pub points_alike :
      (c c' : Cache) (xs : List EaInstance)
      → ((key : String) → read now key c' ≡ read now key c)
      → points_of c' xs ≡ points_of c xs
  points_alike c c' [] same = refl
  points_alike c c' (i ∷ rest) same =
      rw (same (state_key i.agent_id), points_alike c c' rest same) refl

-- ===== src/Scheduler/Late.antt =====
-- When a heartbeat gives a cached state up, in terms of the time that its frame states.
use run_bot_backend.Prelude.{
  ℕ, pos, negsuc, suc, ◌+◌, ◌*◌, ltb, String, ◌≡◌, refl, ap, Option, none, some, Bool, true, false,
  ◌||◌, ◌==◌, arith,
}
use run_bot_backend.Json.{
  Json, null, member, Coerced, throws, not_a_number, infinity, minus_infinity, finite,
  number_or_zero,
}
use run_bot_backend.Platform.{Platform}
use run_bot_backend.Scheduler.{is_old, frame_is_stale, is_stale}

-- More than five minutes have passed since the time, given in seconds, that a frame states; one whose
-- time cannot be read is late, and so is an infinite one in the past; NaN and an infinite one to come are
-- not.
abbrev pub is_late : ℕ → Coerced → Bool
is_late now throws = true
is_late now not_a_number = false
is_late now infinity = false
is_late now minus_infinity = true
is_late now (finite (pos s)) = ltb (s * 1000 + 300_000) now
is_late now (finite (negsuc s)) = ltb 300_000 (now + (s + 1) * 1000)

is_old-is_late : (now : ℕ) (c : Coerced) → is_old now c ≡ is_late now c
unfolding is_old
is_old-is_late now throws = refl
is_old-is_late now not_a_number = refl
is_old-is_late now infinity = refl
is_old-is_late now minus_infinity = refl
is_old-is_late now (finite (pos s)) = ground arith
is_old-is_late now (finite (negsuc s)) =
    let same : now + suc (s * 1000 + 999) ≡ now + (s + 1) * 1000 = omega arith in
    ap (ltb 300_000) same

module _ (P : Platform) (now : ℕ) where
  -- A text that cannot be parsed, or that is `null`, is late; a frame without a time states 0.
  abbrev pub is_late_frame : Option Json → Bool
  is_late_frame none = true
  is_late_frame (some null) = true
  is_late_frame (some frame) = is_late now (number_or_zero P.number_of_text (member "ts" frame))

  abbrev pub is_late_text : Option String → Bool
  is_late_text none = true
  is_late_text (some raw) = raw == "" || is_late_frame (P.parse raw)

  frame_late :
      (frame : Option Json) → frame_is_stale P.number_of_text now frame ≡ is_late_frame frame
  unfolding frame_is_stale
  frame_late none = refl
  frame_late (some null) = refl
  frame_late (some frame) = is_old-is_late now (number_or_zero P.number_of_text (member "ts" frame))

  pub is_stale-is_late : (cached : Option String) → is_stale P now cached ≡ is_late_text cached
  unfolding is_stale
  is_stale-is_late none = refl
  is_stale-is_late (some raw) = ground (arith, frame_late (P.parse raw))

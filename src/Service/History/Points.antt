-- ===== src/Service/History/Points.antt =====
-- `recordPnlPoint`: which point a cached frame gives, if any.
use run_bot_backend.Prelude.{
  ℕ, ℤ, pos, ◌*◌, ◌+◌, ◌-◌, String, ◌≡◌, refl, sym, ◌∙◌, ap, subst, ◌⊎◌, inl, inr, Option, none,
  some, Bool, true, false, List, [], ◌∷◌, ◌==◌, Bool-cases, if◌then◌else◌, arith,
}
use run_bot_backend.Json.{
  Json, null, num, obj, member, truthy_json, Coerced, throws, finite, number_or_zero,
}
use run_bot_backend.Cache.{get}
use run_bot_backend.Cache.Laws.{read}
use run_bot_backend.Data.{EaPnlPoint, is_plain, has_required}
use run_bot_backend.Platform.{Platform}
use run_bot_backend.Platform.Exec.{World, Result, pure, change, ◌>>◌}
use run_bot_backend.Gateway.{state_key}
use run_bot_backend.Service.History.{
  is_number, millis, value_or_zero, optional_member, pnl_point, create_timed, create_point,
  record_account, record_parsed, record_cached, record_pnl_point,
}

-- The value of a frame at a path of keys.
abbrev pub at : List String → Option Json → Option Json
at [] o = o
at (k ∷ path) none = none
at (k ∷ path) (some v) = at path (member k v)

-- A number of a frame, for which 0 stands where there is none.
abbrev pub or_zero : Option Json → Json
or_zero none = num (pos 0)
or_zero (some null) = num (pos 0)
or_zero (some v) = v

-- The time that a frame states in seconds, in milliseconds.
abbrev pub stated_time : Coerced → Coerced
stated_time (finite (pos s)) = finite (pos (1000 * s))
stated_time (finite (ℤ.negsuc s)) = finite (ℤ.negsuc (1000 * (s + 1) - 1))
stated_time c = c

-- What a frame states, wherever it states a number at account.equity.
abbrev pub stated_point : (String → Coerced) → String → Option Json → EaPnlPoint
stated_point read a frame = record {
  agent_id = a;
  ts = stated_time (number_or_zero read (at ("ts" ∷ []) frame));
  equity = at ("account" ∷ "equity" ∷ []) frame;
  balance = at ("account" ∷ "balance" ∷ []) frame;
  total_pnl = or_zero (at ("positions" ∷ "totalPnl" ∷ []) frame);
  daily_pnl = or_zero (at ("account" ∷ "dailyPnl" ∷ []) frame);
}

abbrev pub frame_point : (String → Coerced) → String → Option Json → Option EaPnlPoint
frame_point read a frame =
    if is_plain (at ("account" ∷ "equity" ∷ []) frame)
    then some (stated_point read a frame)
    else none

millis-stated_time : (c : Coerced) → millis c ≡ stated_time c
millis-stated_time (finite (pos s)) = ap (λ n. finite (pos n)) (omega arith)
millis-stated_time (finite (ℤ.negsuc s)) = ap (λ n. finite (ℤ.negsuc n)) (omega arith)
millis-stated_time _ = refl

value_or_zero-or_zero : (o : Option Json) → value_or_zero o ≡ or_zero o
unfolding value_or_zero
value_or_zero-or_zero none = refl
value_or_zero-or_zero (some null) = refl
value_or_zero-or_zero (some _) = refl

optional_member-at : (k : String) (o : Option Json) → optional_member k o ≡ at (k ∷ []) o
optional_member-at k none = refl
optional_member-at k (some v) = refl

-- A value that is falsy has no members.
falsy-member : (k : String) (v : Json) → truthy_json (some v) ≡ false → member k v ≡ none
unfolding member
falsy-member k (obj fields) h = absurd (cc h)
falsy-member k _ h = refl

is_number-is_plain : (o : Option Json) → is_number o ≡ is_plain o
is_number-is_plain none = refl
is_number-is_plain (some (num n)) = refl
is_number-is_plain (some _) = refl

-- What stands two keys down.
second_member :
    (j : String) (frame v : Json)
    → member "account" frame ≡ some v
    → at ("account" ∷ j ∷ []) (some frame) ≡ member j v
second_member j frame v e = ap (at (j ∷ [])) e

pnl_point-stated :
    (text : String → Coerced) (a : String) (frame account : Json)
    → member "account" frame ≡ some account
    → pnl_point text a frame account ≡ stated_point text a (some frame)
unfolding pnl_point
pnl_point-stated text a frame account e =
    rw
      (
        millis-stated_time (number_or_zero text (member "ts" frame)),
        optional_member-at "totalPnl" (member "positions" frame),
        value_or_zero-or_zero (at ("totalPnl" ∷ []) (member "positions" frame)),
        value_or_zero-or_zero (member "dailyPnl" account),
        second_member "equity" frame account e,
        second_member "balance" frame account e,
        second_member "dailyPnl" frame account e,
      )
      refl

module _ (P : Platform) where
  -- The point of the text that the cache holds of an agent.
  abbrev pub point_of : String → Option String → Option EaPnlPoint
  point_of a none = none
  point_of a (some raw) = if raw == "" then none else frame_point P.number_of_text a (P.parse raw)

module _ {P : Platform} where
  abbrev pub write_point : EaPnlPoint → World P → Result Bool × World P
  write_point p = change (P.create_pnl_point p) >> pure true

  -- There is no point and nothing is written, or there is one that lacks what is required and nothing
  -- is written, or the point is written.
  abbrev pub Writes : Option EaPnlPoint → World P → Result Bool × World P → Type 0
  Writes o w r =
      ((o ≡ none) × (r.1 ≡ w))
      ⊎ ((p : EaPnlPoint) × (o ≡ some p)
          × (((has_required p ≡ false) × (r.1 ≡ w)) ⊎ (r ≡ write_point p w)))

  timed-Writes :
      (c : Coerced) (p : EaPnlPoint) (w : World P)
      → p.ts ≡ stated_time c
      → Writes (some p) w (create_timed {P = P} c p w)
  unfolding create_timed
  timed-Writes throws p w e = inr (p, refl, inl (rw e refl, refl))
  timed-Writes _ p w e = inr (p, refl, inr refl)

  account-Writes :
      (a : String) (frame : Json) (account : Option Json) (w : World P)
      → member "account" frame ≡ account
      → Writes (frame_point P.number_of_text a (some frame)) w (record_account a frame account w)
  unfolding record_account create_point
  account-Writes a frame none w e =
      let gone : at ("account" ∷ "equity" ∷ []) (some frame) ≡ none = ap (at ("equity" ∷ [])) e in
      inl (rw gone refl, refl)
  account-Writes a frame (some account) w e = elim (Bool-cases (truthy_json (some account))) [
    | inl there ↦ elim (Bool-cases (is_plain (member "equity" account))) [
      | inl number ↦
          rw (there, is_number-is_plain (member "equity" account), number)
            (subst
              (λ o. Writes o w (
                create_timed (number_or_zero P.number_of_text (member "ts" frame))
                  (pnl_point P.number_of_text a frame account) w))
              (ap some (pnl_point-stated P.number_of_text a frame account e)
                ∙ sym (pointed a frame account e number))
              (timed-Writes (number_or_zero P.number_of_text (member "ts" frame))
                (pnl_point P.number_of_text a frame account) w
                (ap (λ p. p.ts) (pnl_point-stated P.number_of_text a frame account e))))
      | inr other ↦
          rw (there, is_number-is_plain (member "equity" account), other)
            (inl (unpointed a frame account e other, refl))
    ]
    | inr falsy ↦ rw falsy (
        inl (unpointed a frame account e (ap is_plain (falsy-member "equity" account falsy)), refl))
  ]
    where
      pointed :
          (a : String) (frame account : Json)
          → member "account" frame ≡ some account
          → is_plain (member "equity" account) ≡ true
          → frame_point P.number_of_text a (some frame)
            ≡ some (stated_point P.number_of_text a (some frame))
      pointed a frame account e number = rw (second_member "equity" frame account e, number) refl

      unpointed :
          (a : String) (frame account : Json)
          → member "account" frame ≡ some account
          → is_plain (member "equity" account) ≡ false
          → frame_point P.number_of_text a (some frame) ≡ none
      unpointed a frame account e other = rw (second_member "equity" frame account e, other) refl

  frame_point-Writes :
      (a : String) (frame : Option Json) (w : World P)
      → Writes (frame_point P.number_of_text a frame) w (record_parsed a frame w)
  unfolding record_parsed member
  frame_point-Writes a none w = inl (refl, refl)
  frame_point-Writes a (some null) w = inl (refl, refl)
  frame_point-Writes a (some frame) w = account-Writes a frame (member "account" frame) w refl

  point_of-Writes :
      (a : String) (raw : Option String) (w : World P)
      → Writes (point_of P a raw) w (record_cached a raw w)
  unfolding record_cached
  point_of-Writes a none w = inl (refl, refl)
  point_of-Writes a (some raw) w = elim (Bool-cases (raw == "")) [
    | inl empty ↦ rw empty (inl (refl, refl))
    | inr full ↦ rw full (frame_point-Writes a (P.parse raw) w)
  ]

  -- The state after the read of the cache, with its eviction.
  abbrev pub evicted : ℕ → String → World P → World P
  evicted now a w = record w { telemetry_cache = (get now (state_key a) w.telemetry_cache).1 }

  pub record_pnl_point-Writes :
      (now : ℕ) (a : String) (w : World P)
      → Writes
          (point_of P a (read now (state_key a) w.telemetry_cache))
          (evicted now a w)
          (record_pnl_point now a w)
  unfolding record_pnl_point
  record_pnl_point-Writes now a w =
      point_of-Writes a (read now (state_key a) w.telemetry_cache) (evicted now a w)

-- ===== src/Scheduler/Snapshots.antt =====
-- The snapshot job over all online instances.
use mathlib.Core.List.{append-nil, append_assoc}
use run_bot_backend.Prelude.{
  ℕ, String, ◌≡◌, refl, sym, ◌∙◌, ap, ◌⊎◌, inl, inr, Option, none, some, Bool, true, false, List,
  [], ◌∷◌, ◌++◌, Option-cases, Bool-cases, arith, select, subst, All,
}
use run_bot_backend.Cache.Laws.{read, read-get}
use run_bot_backend.Data.{EaInstance, EaPnlPoint, is_complete, has_required}
use run_bot_backend.Platform.{Platform, Laws}
use run_bot_backend.Platform.Exec.{World, Result, ok, err, rejected, pure, recover}
use run_bot_backend.Gateway.{state_key}
use run_bot_backend.Service.History.{record_pnl_point}
use run_bot_backend.Service.History.Points.{point_of, evicted, Writes, record_pnl_point-Writes}
use run_bot_backend.Scheduler.{is_online_instance, snapshot_one, snapshots, record_pnl_snapshots}
use run_bot_backend.Scheduler.Samples.{
  and_point, complete_only, complete-has_required, IsRegular, IsRegular-alike, points_of,
  points_alike,
}

-- A database that accepts every point whose fields are numbers.
abbrev pub AcceptsPoints : Platform → Type 0
AcceptsPoints P =
    (p : EaPnlPoint) (db : P.Db)
    → is_complete p ≡ true
    → (db' : P.Db) × (P.create_pnl_point p db ≡ some db')

module _ {P : Platform} (laws : Laws P) (writes : AcceptsPoints P) (now : ℕ) where
  -- What one snapshot, or several, leave: the cache as it is read, the rooms, the instances, and points.
  record Adds (points : List EaPnlPoint) (w w' : World P) : Type 0 where
    cache : (key : String) → read now key w'.telemetry_cache ≡ read now key w.telemetry_cache
    trace : w'.trace ≡ w.trace
    instances : P.instances w'.db ≡ P.instances w.db
    points_of_all : P.pnl_points w'.db ≡ P.pnl_points w.db ++ points

  recovered :
      (r : Result Bool) (w : World P) → (b : Bool) × (recover r (pure {P = P} false) w ≡ (ok b, w))
  recovered (ok b) w = (b, refl)
  recovered (err e) w = (false, refl)

  -- Nothing but the cache is touched.
  untouched : (a : String) (w : World P) → Adds [] w (evicted now a w)
  untouched a w = record {
    cache = λ key. read-get now now (state_key a) key w.telemetry_cache (omega arith);
    trace = refl;
    instances = refl;
    points_of_all = sym (append-nil (P.pnl_points w.db));
  }

  refused :
      (a : String) (p : EaPnlPoint) (w : World P)
      → has_required p ≡ false
      → Adds (and_point (complete_only (some p)) []) w (evicted now a w)
  refused a p w lacking = elim (Bool-cases (is_complete p)) [
    | inl whole ↦ absurd (cc (sym (complete-has_required p whole) ∙ lacking))
    | inr part ↦ rw part (untouched a w)
  ]

  written :
      (a : String) (o : Option EaPnlPoint) (w : World P) (r : Result Bool × World P)
      → ((p : EaPnlPoint) → o ≡ some p → (is_complete p ≡ true) ⊎ (has_required p ≡ false))
      → Writes o (evicted now a w) r
      → Adds (and_point (complete_only o) []) w r.1
  written a o w r regular (inl (nothing, same)) = rw (nothing, same) (untouched a w)
  written a o w r regular (inr (p, is, inl (lacking, same))) = rw (is, same) (refused a p w lacking)
  written a o w r regular (inr (p, is, inr same)) = elim (regular p is) [
    | inl whole ↦
        let (db, e) = writes p w.db whole in
        rw (is, whole, same, e)
          (record {
            cache = λ key. read-get now now (state_key a) key w.telemetry_cache (omega arith);
            trace = refl;
            instances = laws.instances-create_pnl_point p w.db db e;
            points_of_all = laws.pnl_points-create_pnl_point p w.db db whole e;
          })
    | inr lacking ↦
        rw (is, same, laws.create_pnl_point-has_required p w.db lacking) (refused a p w lacking)
  ]

  one_written :
      (a : String) (w : World P)
      → ((p : EaPnlPoint)
          → point_of P a (read now (state_key a) w.telemetry_cache) ≡ some p
          → (is_complete p ≡ true) ⊎ (has_required p ≡ false))
      → ((b : Bool) × ((snapshot_one now a w).0 ≡ ok b))
        × Adds
            (and_point (complete_only (point_of P a (read now (state_key a) w.telemetry_cache))) [])
            w
            (snapshot_one now a w).1
  unfolding snapshot_one
  one_written a w regular =
      let (b, e) = recovered (record_pnl_point now a w).0 (record_pnl_point now a w).1 in
      (
        (b, ap (λ x. x.0) e),
        rw (ap (λ x. x.1) e) (
            written a (point_of P a (read now (state_key a) w.telemetry_cache)) w
              (record_pnl_point now a w) regular (record_pnl_point-Writes now a w)),
      )

  and_point-append :
      (o : Option EaPnlPoint) (points : List EaPnlPoint)
      → and_point o [] ++ points ≡ and_point o points
  and_point-append none points = refl
  and_point-append (some p) points = refl

  all_written :
      (xs : List EaInstance) (w : World P)
      → All (IsRegular P now w.telemetry_cache) xs
      → ((snapshots now xs w).0 ≡ ok tt)
        × Adds (points_of P now w.telemetry_cache xs) w (snapshots now xs w).1
  unfolding snapshots
  all_written [] w regular = (
    refl,
    record {
      cache = λ key. refl;
      trace = refl;
      instances = refl;
      points_of_all = sym (append-nil (P.pnl_points w.db));
    },
  )
  all_written (i ∷ rest) w (here, there) =
      let ((b, done), first) = one_written i.agent_id w here in
      let w' = (snapshot_one now i.agent_id w).1 in
      let (all_done, others) =
        all_written rest w'
          (IsRegular-alike P now w.telemetry_cache w'.telemetry_cache rest first.cache there) in
      let o =
        complete_only (point_of P i.agent_id (read now (state_key i.agent_id) w.telemetry_cache)) in
      rw done (
        all_done,
        record {
          cache = λ key. others.cache key ∙ first.cache key;
          trace = others.trace ∙ first.trace;
          instances = others.instances ∙ first.instances;
          points_of_all =
              others.points_of_all
              ∙ ap (λ l. P.pnl_points w'.db ++ l)
                  (points_alike P now w.telemetry_cache w'.telemetry_cache rest first.cache)
              ∙ ap (λ l. l ++ points_of P now w.telemetry_cache rest) first.points_of_all
              ∙ append_assoc (P.pnl_points w.db) (and_point o [])
                  (points_of P now w.telemetry_cache rest)
              ∙ ap (λ l. P.pnl_points w.db ++ l)
                  (and_point-append o (points_of P now w.telemetry_cache rest));
        },
      )

  -- A snapshot job over a database that accepts every point whose fields are numbers. The points of the
  -- cached states of the online instances have numbers in all of their fields or lack a required one.
  -- The job either finds the query rejected and does nothing, or finishes: the complete points of
  -- exactly the online instances whose cached frame states a number at account.equity are added, in
  -- order, with the fields that the frame states, the time in milliseconds, and 0 for a profit that it
  -- does not state; no instance has changed and no room is told anything.
  pub record_pnl_snapshots_lem :
      (w : World P)
      → All (IsRegular P now w.telemetry_cache) (select (λ i. i.online) (P.instances w.db))
      → (record_pnl_snapshots now w ≡ (err rejected, w))
        ⊎ (let xs = select (λ i. i.online) (P.instances w.db) in
            let w' = (record_pnl_snapshots now w).1 in
            ((record_pnl_snapshots now w).0 ≡ ok tt)
            × (P.pnl_points w'.db ≡ P.pnl_points w.db ++ points_of P now w.telemetry_cache xs)
            × (P.instances w'.db ≡ P.instances w.db)
            × (w'.trace ≡ w.trace))
  unfolding record_pnl_snapshots
  record_pnl_snapshots_lem w regular = elim (Option-cases (P.find is_online_instance w.db)) [
    | inl down ↦ inl (rw down refl)
    | inr (xs, found) ↦
        let same = laws.find_lem is_online_instance w.db xs found in
        let (done, adds) =
          all_written xs w (subst (All (IsRegular P now w.telemetry_cache)) (sym same) regular) in
        inr (rw (found, ← same) (done, adds.points_of_all, adds.instances, adds.trace))
  ]

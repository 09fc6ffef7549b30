-- ===== src/Service/History/Laws.antt =====
-- How much of an agent's history a user can read at once.
use run_bot_backend.Prelude.{
  negsuc, zero, ◌≤◌, map, length, ◌++◌, [], if◌then◌else◌, subst, ℕ, ℤ, pos, suc, min, min_ℤ, leb,
  String, ◌≡◌, ◌∙◌, ap, sym, inl, inr, Option, some, List, reverse, true, take, Option-cases,
  Bool-cases, arith,
}
use mathlib.Core.List.{Perm}
use run_bot_backend.Data.{EaInstance, EaAuditLog, EaPnlPoint}
use run_bot_backend.Platform.{Platform, Laws, limited, IsPage, IsNewestFirst, dated_of}
use run_bot_backend.Platform.Exec.{World, Exec, Result, ok, query, pure, ◌>>=◌}
use run_bot_backend.Gateway.{by_agent}
use run_bot_backend.Service.Access.{stranger, stranger-eq-none, looked_at, Gate}
use run_bot_backend.Service.History.{get_audit_log, get_pnl_history}

-- The document shows that the agent's EA belongs to the user.
pub record Owns (P : Platform) (agent_id user_id : String) (w : World P) : Type 0 where
  pub instance_of : EaInstance
  pub found : P.find_one (by_agent agent_id) w.db ≡ some (some instance_of)
  pub owned : instance_of.user_id ≡ some user_id

module _ {P : Platform} where
  -- What a read that is answered has shown.
  pub Gate-Owns :
      {A : Type 0} (agent_id user_id : String) (rest : Exec P A) (w : World P)
      (r : Result A × World P) (a : A)
      → Gate agent_id (stranger agent_id user_id) rest w r
      → r.0 ≡ ok a
      → Owns P agent_id user_id w × ((rest w).0 ≡ ok a)
  Gate-Owns agent_id user_id rest w r a (inl (down, e)) h = absurd (cc (ap (λ x. x.0) e))
  Gate-Owns agent_id user_id rest w r a (inr (found, f, inl (why, refused, e))) h =
      absurd (cc (ap (λ x. x.0) e))
  Gate-Owns agent_id user_id rest w r a (inr (found, f, inr (allowed, e))) h =
      let (i, is_i, mine) = stranger-eq-none agent_id user_id found allowed in
      (
        record { instance_of = i; found = f ∙ ap some is_i; owned = mine },
        ap (λ x. x.0) (sym e) ∙ h,
      )

  pub answered :
      {A : Type 0} (f : P.Db → Option A) (w : World P) (a : A)
      → (query f w).0 ≡ ok a
      → f w.db ≡ some a
  answered f w a h = ground arith

  audit_rows :
      (agent_id user_id : String) (limit : ℤ) (w : World P) (l : List EaAuditLog)
      → (get_audit_log agent_id user_id limit w).0 ≡ ok l
      → Owns P agent_id user_id w × (P.recent_audit_logs agent_id (min_ℤ limit 200) w.db ≡ some l)
  unfolding get_audit_log
  audit_rows agent_id user_id limit w l h =
      let rest : Exec P (List EaAuditLog) =
        query (P.recent_audit_logs agent_id (min_ℤ limit 200)) in
      let (owns, e) =
        Gate-Owns agent_id user_id rest w (get_audit_log agent_id user_id limit w) l
          (looked_at agent_id user_id rest w) h in
      (owns, answered (P.recent_audit_logs agent_id (min_ℤ limit 200)) w l e)

  pnl_rows :
      (agent_id user_id : String) (limit : ℤ) (w : World P) (l : List EaPnlPoint)
      → (get_pnl_history agent_id user_id limit w).0 ≡ ok l
      → Owns P agent_id user_id w
        × ((points : List EaPnlPoint) × (P.recent_pnl_points agent_id (min_ℤ limit 100_000) w.db
              ≡ some points)
            × (l ≡ reverse points))
  unfolding get_pnl_history
  pnl_rows agent_id user_id limit w l h =
      let rest : Exec P (List EaPnlPoint) = (do
        points ← query (P.recent_pnl_points agent_id (min_ℤ limit 100_000))
        pure (reverse points)) in
      let (owns, e) =
        Gate-Owns agent_id user_id rest w (get_pnl_history agent_id user_id limit w) l
          (looked_at agent_id user_id rest w) h in
      elim (Option-cases (P.recent_pnl_points agent_id (min_ℤ limit 100_000) w.db)) [
        | inl down ↦ absurd (ground arith)
        | inr (points, found) ↦ (owns, (points, found, ground arith))
      ]

-- What a reader gets of the entries of an agent, by the limit: all of them for 0, as many as there are
-- up to the limit and to two hundred for a positive one, and at most -limit for a negative one.
abbrev pub Shows : {A : Type 0} → ℤ → List A → List A → Type 0
Shows (pos zero) got rest = rest ≡ []
Shows (pos (suc n)) got rest = length got ≡ min (min (suc n) 200) (length (got ++ rest))
Shows (negsuc n) got rest = length got ≤ suc n

IsPage-Shows :
    {A : Type 0} (limit : ℤ) (got rest : List A)
    → IsPage (min_ℤ limit 200) got rest
    → Shows limit got rest
IsPage-Shows (pos zero) got rest h = h
IsPage-Shows (pos (suc n)) got rest h = elim (Bool-cases (leb (suc n) 200)) [
  | inl fits ↦
      let e : min (suc n) 200 ≡ suc n = ground arith in
      let page : IsPage (pos (suc n)) got rest =
        subst (λ b. IsPage (if b then pos (suc n) else pos 200) got rest) fits h in
      rw e page
  | inr over ↦
      let e : min (suc n) 200 ≡ 200 = ground arith in
      let page : IsPage (pos 200) got rest =
        subst (λ b. IsPage (if b then pos (suc n) else pos 200) got rest) over h in
      rw e page
]
IsPage-Shows (negsuc n) got rest h = h

-- The limit of a read of points: 0 is none, and another is capped.
abbrev pub shown {ℓ} : {A : Type ℓ} → ℕ → ℕ → List A → List A
shown bound zero xs = xs
shown bound (suc n) xs = take (min (suc n) bound) xs

limited-shown :
    {A : Type 0} (limit : ℕ) (f : ℤ → Option (List A)) (xs l : List A)
    → ((n : ℕ) → (found : List A) → f (pos n) ≡ some found → found ≡ limited n xs)
    → f (min_ℤ (pos limit) 100_000) ≡ some l
    → l ≡ shown 100_000 limit xs
limited-shown zero f xs l law h =
    let e : leb 0 100_000 ≡ true = ground arith in
    law 0 l (subst (λ b. f (if b then pos 0 else pos 100_000) ≡ some l) e h)
limited-shown (suc n) f xs l law h = elim (Bool-cases (leb (suc n) 100_000)) [
  | inl fits ↦
      let e : min (suc n) 100_000 ≡ suc n = ground arith in
      rw e (law (suc n) l (subst (λ b. f (if b then pos (suc n) else pos 100_000) ≡ some l) fits h))
  | inr over ↦
      let e : min (suc n) 100_000 ≡ 100_000 = ground arith in
      rw e (law 100_000 l (subst (λ b. f (if b then pos (suc n) else pos 100_000) ≡ some l) over h))
]

module _ {P : Platform} (laws : Laws P) where
  -- A read of the audit log that is answered, for any integer as limit: the caller owns the agent's EA,
  -- and the entries read are the first of an order of all entries about the agent in which no entry
  -- stands after an older one. With the limit 0 they are all of them; with a positive limit as many as
  -- there are, up to the limit and to two hundred; with a negative limit at most as many as it is below
  -- 0, which the bound of two hundred does not lower.
  pub get_audit_log_lem :
      (agent_id user_id : String) (limit : ℤ) (w : World P) (l : List EaAuditLog)
      → (get_audit_log agent_id user_id limit w).0 ≡ ok l
      → Owns P agent_id user_id w
        × ((got rest : List (ℕ × EaAuditLog)) × (l ≡ map (λ e. e.1) got)
            × Perm (got ++ rest) (dated_of agent_id (P.dated_audit_logs w.db))
            × IsNewestFirst (got ++ rest)
            × Shows limit got rest)
  get_audit_log_lem agent_id user_id limit w l h =
      let (owns, e) = audit_rows agent_id user_id limit w l h in
      let (got, rest, is, all, newest, page) =
        laws.recent_audit_logs_lem agent_id (min_ℤ limit 200) w.db l e in
      (owns, (got, rest, is, all, newest, IsPage-Shows limit got rest page))

  -- A read of the PnL history that is answered, for a natural as limit: the most recent points, at most
  -- a hundred thousand where the limit is not 0, oldest first.
  pub get_pnl_history_lem :
      (agent_id user_id : String) (limit : ℕ) (w : World P) (l : List EaPnlPoint)
      → (get_pnl_history agent_id user_id (pos limit) w).0 ≡ ok l
      → Owns P agent_id user_id w
        × (l ≡ reverse (shown 100_000 limit (P.newest_pnl_points agent_id w.db)))
  get_pnl_history_lem agent_id user_id limit w l h =
      let (owns, (points, e, r)) = pnl_rows agent_id user_id (pos limit) w l h in
      (
        owns,
        r
            ∙ ap reverse (
                limited-shown limit (λ z. P.recent_pnl_points agent_id z w.db)
                  (P.newest_pnl_points agent_id w.db) points
                  (λ n found is. laws.recent_pnl_points_lem agent_id n w.db found is) e),
      )

-- ===== src/Platform.antt =====
-- What the program uses and does not implement, as one record of operations: MongoDB through
-- mongoose, jose, uuid, and JSON and base64 as texts. A database operation answers `none` where its
-- promise is rejected. A query is the predicate that its filter denotes, `$set` the change it makes.
pub mod Documents
pub mod Exec
pub mod Keeps
pub mod Memory
pub mod Owners
use run_bot_backend.Prelude.{
  ℕ, ℤ, pos, negsuc, zero, suc, le_ℤ, String, ◌==◌, ◌&&◌, ◌≡◌, Option, none, some, Bool, true,
  false, List, [], ◌∷◌, ◌++◌, if◌then◌else◌, any, select, head?, take, map, length, min, ◌≤◌, All,
}
use mathlib.Core.List.{Perm}
use run_bot_backend.Json.{Json, Coerced, finite}
use run_bot_backend.Data.{
  EaInstance, EaAuditLog, EaPnlPoint, DailySummary, Stage, has_required, is_complete, match_points,
}

-- The claims of a token's payload.
pub record Claims : Type 0 where
  pub user_id : Option String
  pub agent_id : Option String
  pub license_key : Option String
  pub account_login : Option String
  pub symbol : Option String
  pub exp : Option ℕ

pub record Platform : Type 1 where
  pub Db : Type 0
  -- the collections' contents, in natural order, which the program does not see
  pub instances : Db → List EaInstance
  pub audit_logs : Db → List EaAuditLog
  pub pnl_points : Db → List EaPnlPoint
  -- the audit log with each entry's `createdAt`
  pub dated_audit_logs : Db → List (ℕ × EaAuditLog)
  -- an agent's points, newest first
  pub newest_pnl_points : String → Db → List EaPnlPoint
  pub find_one : (EaInstance → Bool) → Db → Option (Option EaInstance)
  pub find : (EaInstance → Bool) → Db → Option (List EaInstance)
  pub update_one : (EaInstance → Bool) → (EaInstance → EaInstance) → Db → Option Db
  -- the second argument is the document that an insertion starts from
  pub upsert_one : (EaInstance → Bool) → EaInstance → (EaInstance → EaInstance) → Db → Option Db
  pub create_audit_log : EaAuditLog → Db → Option Db
  pub create_pnl_point : EaPnlPoint → Db → Option Db
  -- `.find({ agentId }).sort(newest first).limit(n)`
  pub recent_audit_logs : String → ℤ → Db → Option (List EaAuditLog)
  pub recent_pnl_points : String → ℤ → Db → Option (List EaPnlPoint)
  pub aggregate_pnl_points : List Stage → Db → Option (List DailySummary)
  -- `Number(text)`, whose numbers are integers here
  pub number_of_text : String → Coerced
  -- `Date.parse`, where it is no NaN
  pub date_parse : String → Option ℤ
  -- the n-th call of `uuidv4`
  pub uuid : ℕ → String
  pub stringify : Json → String
  pub parse : String → Option Json
  pub to_base64 : String → String
  pub of_base64 : String → String
  pub VerifyKey : Type 0
  -- `importSPKI(pem, 'ES256')`
  pub import_spki : String → Option VerifyKey
  -- `jwtVerify(token, key, { algorithms: ['ES256'], audience })` at a time in seconds
  pub jwt_verify : ℕ → String → VerifyKey → String → Option Claims
  pub public_key_env : Option String

-- The first document that matches is changed.
abbrev pub update_first :
    (EaInstance → Bool) → (EaInstance → EaInstance) → List EaInstance → List EaInstance
update_first p f [] = []
update_first p f (x ∷ xs) = let rest = update_first p f xs in if p x then f x ∷ xs else x ∷ rest

-- A cursor's `limit`, for a natural: 0 is no limit.
abbrev pub limited {ℓ} : {A : Type ℓ} → ℕ → List A → List A
limited zero xs = xs
limited (suc n) xs = take (suc n) xs

-- What a cursor with a limit gives of what it would give in all: with the limit 0 everything, and with
-- -n a single batch of n at most.
abbrev pub IsPage : {A : Type 0} → ℤ → List A → List A → Type 0
IsPage (pos zero) page rest = rest ≡ []
IsPage (pos (suc n)) page rest = length page ≡ min (suc n) (length (page ++ rest))
IsPage (negsuc n) page rest = length page ≤ suc n

-- No entry stands after an older one.
abbrev pub IsNewestFirst : List (ℕ × EaAuditLog) → Type 0
IsNewestFirst [] = Unit
IsNewestFirst (x ∷ xs) = All (λ y. y.0 ≤ x.0) xs × IsNewestFirst xs

-- The entries about an agent.
abbrev pub dated_of : String → List (ℕ × EaAuditLog) → List (ℕ × EaAuditLog)
dated_of agent_id log = select (λ e. e.1.agent_id == agent_id) log

-- The condition of a match on the times: none, or an object of bounds. An object without bounds is
-- compared with the time itself, and no number equals it.
abbrev pub admits : Option (Option ℤ × Option ℤ) → ℤ → Bool
admits none t = true
admits (some (none, none)) t = false
admits (some (some low, none)) t = le_ℤ low t
admits (some (none, some high)) t = le_ℤ t high
admits (some (some low, some high)) t = le_ℤ low t && le_ℤ t high

abbrev pub of_time : (ℤ → Bool) → Coerced → Bool
of_time test (finite t) = test t
of_time test _ = true

-- The points of an agent at some times, and those at no finite time.
abbrev pub points_at : String → (ℤ → Bool) → List EaPnlPoint → List EaPnlPoint
points_at agent_id test points = select (λ p. p.agent_id == agent_id && of_time test p.ts) points

-- The documented behaviour of the collections, where the database answers.
pub record Laws (P : Platform) : Type 0 where
  pub find_one_lem :
      (p : EaInstance → Bool) (db : P.Db) (o : Option EaInstance)
      → P.find_one p db ≡ some o
      → o ≡ head? (select p (P.instances db))
  pub find_lem :
      (p : EaInstance → Bool) (db : P.Db) (l : List EaInstance)
      → P.find p db ≡ some l
      → l ≡ select p (P.instances db)
  pub instances-update_one :
      (p : EaInstance → Bool) (f : EaInstance → EaInstance) (db db' : P.Db)
      → P.update_one p f db ≡ some db'
      → P.instances db' ≡ update_first p f (P.instances db)
  pub instances-upsert_one :
      (p : EaInstance → Bool) (x : EaInstance) (f : EaInstance → EaInstance) (db db' : P.Db)
      → P.upsert_one p x f db ≡ some db'
      → P.instances db' ≡ (
          if any p (P.instances db)
          then update_first p f (P.instances db)
          else P.instances db ++ f x ∷ [])
  pub instances-create_audit_log :
      (e : EaAuditLog) (db db' : P.Db)
      → P.create_audit_log e db ≡ some db'
      → P.instances db' ≡ P.instances db
  pub audit_logs-create_audit_log :
      (e : EaAuditLog) (db db' : P.Db)
      → P.create_audit_log e db ≡ some db'
      → P.audit_logs db' ≡ P.audit_logs db ++ e ∷ []
  pub audit_logs-update_one :
      (p : EaInstance → Bool) (f : EaInstance → EaInstance) (db db' : P.Db)
      → P.update_one p f db ≡ some db'
      → P.audit_logs db' ≡ P.audit_logs db
  pub audit_logs-upsert_one :
      (p : EaInstance → Bool) (x : EaInstance) (f : EaInstance → EaInstance) (db db' : P.Db)
      → P.upsert_one p x f db ≡ some db'
      → P.audit_logs db' ≡ P.audit_logs db
  pub audit_logs-create_pnl_point :
      (e : EaPnlPoint) (db db' : P.Db)
      → P.create_pnl_point e db ≡ some db'
      → P.audit_logs db' ≡ P.audit_logs db
  pub instances-create_pnl_point :
      (e : EaPnlPoint) (db db' : P.Db)
      → P.create_pnl_point e db ≡ some db'
      → P.instances db' ≡ P.instances db
  pub pnl_points-create_pnl_point :
      (e : EaPnlPoint) (db db' : P.Db)
      → is_complete e ≡ true
      → P.create_pnl_point e db ≡ some db'
      → P.pnl_points db' ≡ P.pnl_points db ++ e ∷ []
  -- what the schema requires and is not there is refused
  pub create_pnl_point-has_required :
      (e : EaPnlPoint) (db : P.Db) → has_required e ≡ false → P.create_pnl_point e db ≡ none
  -- an aggregation that starts with a match sees what is matched alone
  pub aggregate_pnl_points-match_points :
      (agent_id : String) (times : Option (Option ℤ × Option ℤ)) (rest : List Stage) (db db' : P.Db)
      (rows rows' : List DailySummary)
      → points_at agent_id (admits times) (P.pnl_points db)
        ≡ points_at agent_id (admits times) (P.pnl_points db')
      → P.aggregate_pnl_points (match_points agent_id times ∷ rest) db ≡ some rows
      → P.aggregate_pnl_points (match_points agent_id times ∷ rest) db' ≡ some rows'
      → rows ≡ rows'
  pub dated_audit_logs_lem : (db : P.Db) → map (λ e. e.1) (P.dated_audit_logs db) ≡ P.audit_logs db
  pub recent_audit_logs_lem :
      (agent_id : String) (n : ℤ) (db : P.Db) (l : List EaAuditLog)
      → P.recent_audit_logs agent_id n db ≡ some l
      → (page rest : List (ℕ × EaAuditLog)) × (l ≡ map (λ e. e.1) page)
        × Perm (page ++ rest) (dated_of agent_id (P.dated_audit_logs db))
        × IsNewestFirst (page ++ rest)
        × IsPage n page rest
  pub recent_pnl_points_lem :
      (agent_id : String) (n : ℕ) (db : P.Db) (l : List EaPnlPoint)
      → P.recent_pnl_points agent_id (pos n) db ≡ some l
      → l ≡ limited n (P.newest_pnl_points agent_id db)

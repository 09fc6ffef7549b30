-- ===== src/Platform/Memory.antt =====
-- A platform that the laws hold of, for examples: a database of three lists that never fails, and
-- fixed answers for the rest, with one frame, one token and one key.
use run_bot_backend.Prelude.{
  ℕ, ℤ, pos, negsuc, zero, suc, ◌≤◌, ◌∙◌, sym, subst, map, take, drop, take-drop, length-take,
  length-take-le, All, Bool-cases, inl, inr, arith, String, ◌≡◌, refl, ap, Option, Bool, none, some,
  true, false, List, [], ◌∷◌, ◌++◌, reverse, select, head?, any, ◌==◌, if◌then◌else◌,
}
use mathlib.Core.List.{Perm, append-nil}
use mathlib.Core.List.Perm
use text.Mathlib.TextLemmas.{tail-eq_of_cons-eq, nil≢cons, cons≢nil}
use run_bot_backend.Json.{Json, finite, not_a_number, num, str, obj, end, field}
use run_bot_backend.Data.{EaInstance, EaAuditLog, EaPnlPoint, Socket, has_required}
use run_bot_backend.Platform.{
  Platform, Claims, Laws, update_first, limited, IsPage, IsNewestFirst, dated_of,
}
use run_bot_backend.Platform.Exec.{World}

pub record Memory : Type 0 where
  pub instances : List EaInstance
  pub audit_logs : List EaAuditLog
  pub pnl_points : List EaPnlPoint

abbrev marks : ℕ → String
marks zero = ""
marks (suc n) = String.◌∷◌ "i" (marks n)

marks_injective : (m n : ℕ) → marks m ≡ marks n → m ≡ n
marks_injective zero zero h = refl
marks_injective zero (suc n) h = absurd (nil≢cons h)
marks_injective (suc m) zero h = absurd (cons≢nil h)
marks_injective (suc m) (suc n) h = ap suc (marks_injective m n (tail-eq_of_cons-eq h))

abbrev pub sample_frame : Json
sample_frame = obj (
    field "agentId" (str "acc-EU") (
      field "ts" (num (pos 100)) (
        field "account" (obj (field "equity" (num (pos 7)) (field "balance" (num (pos 9)) end)))
          end)))

abbrev pub sample_claims : Claims
sample_claims = record {
  user_id = some "ann";
  agent_id = some "acc-EU";
  license_key = some "lic";
  account_login = none;
  symbol = none;
  exp = some 5000;
}

-- All that is asked for, of a list.
abbrev pub first_page : {A : Type 0} → ℤ → List A → List A
first_page (pos zero) xs = xs
first_page (pos (suc n)) xs = take (suc n) xs
first_page (negsuc n) xs = take (suc n) xs

first_page-limited : {A : Type 0} (n : ℕ) (xs : List A) → first_page (pos n) xs ≡ limited n xs
first_page-limited zero xs = refl
first_page-limited (suc n) xs = refl

first_page-IsPage :
    {A : Type 0} (n : ℤ) (xs : List A)
    → (rest : List A) × (first_page n xs ++ rest ≡ xs) × IsPage n (first_page n xs) rest
first_page-IsPage (pos zero) xs = ([], append-nil xs, refl)
first_page-IsPage (pos (suc n)) xs =
    (drop (suc n) xs, take-drop (suc n) xs, rw (take-drop (suc n) xs) (length-take (suc n) xs))
first_page-IsPage (negsuc n) xs = (drop (suc n) xs, take-drop (suc n) xs, length-take-le (suc n) xs)

dated_lem : (xs : List EaAuditLog) → map (λ (e : ℕ × EaAuditLog). e.1) (map (λ e. (0, e)) xs) ≡ xs
dated_lem [] = refl
dated_lem (x ∷ xs) = ap (λ l. x ∷ l) (dated_lem xs)

abbrev at_zero : String → List EaAuditLog → List (ℕ × EaAuditLog)
at_zero a xs = dated_of a (map (λ e. (0, e)) xs)

all_zero : (a : String) (xs : List EaAuditLog) → All (λ y. y.0 ≤ 0) (at_zero a xs)
all_zero a [] = tt
all_zero a (x ∷ xs) = elim (Bool-cases (x.agent_id == a)) [
  | inl here ↦ rw here (omega arith, all_zero a xs)
  | inr other ↦ rw other (all_zero a xs)
]

same_time : (a : String) (xs : List EaAuditLog) → IsNewestFirst (at_zero a xs)
same_time a [] = tt
same_time a (x ∷ xs) = elim (Bool-cases (x.agent_id == a)) [
  | inl here ↦ rw here (all_zero a xs, same_time a xs)
  | inr other ↦ rw other (same_time a xs)
]

abbrev pub stored : EaPnlPoint → Bool → Memory → Option Memory
stored e true db = some (record db { pnl_points = db.pnl_points ++ e ∷ [] })
stored e false db = none

abbrev pub memory : Platform
memory = record {
  Db = Memory;
  instances = λ db. db.instances;
  audit_logs = λ db. db.audit_logs;
  pnl_points = λ db. db.pnl_points;
  dated_audit_logs = λ db. map (λ e. (0, e)) db.audit_logs;
  newest_pnl_points = λ a db. reverse (select (λ e. e.agent_id == a) db.pnl_points);
  find_one = λ p db. some (head? (select p db.instances));
  find = λ p db. some (select p db.instances);
  update_one = λ p f db. some (record db { instances = update_first p f db.instances });
  upsert_one = λ p x f db. some (record db {
    instances =
        if any p db.instances then update_first p f db.instances else db.instances ++ f x ∷ [];
  });
  create_audit_log = λ e db. some (record db { audit_logs = db.audit_logs ++ e ∷ [] });
  create_pnl_point = λ e db. stored e (has_required e) db;
  recent_audit_logs =
      λ a n db. some (map (λ e. e.1) (first_page n (dated_of a (map (λ e. (0, e)) db.audit_logs))));
  recent_pnl_points =
      λ a n db. some (first_page n (reverse (select (λ e. e.agent_id == a) db.pnl_points)));
  aggregate_pnl_points = λ stages db. some [];
  number_of_text = λ text. if text == "100" then finite (pos 100) else not_a_number;
  date_parse =
      λ text. if text == "2026-01-02T00:00:00.000Z" then some (pos 1767312000000) else none;
  uuid = marks;
  stringify = λ v. "frame";
  parse = λ text. some sample_frame;
  to_base64 = λ text. text;
  of_base64 = λ text. text;
  VerifyKey = Unit;
  import_spki = λ pem. some tt;
  jwt_verify = λ now token key audience. if token == "good" then some sample_claims else none;
  public_key_env = some "-----BEGIN PUBLIC KEY-----";
}

pub memory-uuid_injective : (m n : ℕ) → memory.uuid m ≡ memory.uuid n → m ≡ n
memory-uuid_injective = marks_injective

answer_injective {ℓ} : {A : Type ℓ} {a b : A} → some a ≡ some b → b ≡ a
answer_injective h = cc

written : {db db' : Memory} → some db ≡ some db' → db' ≡ db
written h = answer_injective h

stored_lem :
    (e : EaPnlPoint) (b : Bool) (db db' : Memory)
    → stored e b db ≡ some db'
    → (db'.audit_logs ≡ db.audit_logs)
      × (db'.instances ≡ db.instances)
      × (db'.pnl_points ≡ db.pnl_points ++ e ∷ [])
stored_lem e true db db' h =
    let same : db' ≡ record db { pnl_points = db.pnl_points ++ e ∷ [] } = written h in
    (ap (λ d. d.audit_logs) same, ap (λ d. d.instances) same, ap (λ d. d.pnl_points) same)
stored_lem e false db db' h = absurd (cc h)

pub memory-Laws : Laws memory
memory-Laws = record {
  find_one_lem = λ p db o h. answer_injective h;
  find_lem = λ p db l h. answer_injective h;
  instances-update_one = λ p f db db' h. ap (λ d. d.instances) (written h);
  instances-upsert_one = λ p x f db db' h. ap (λ d. d.instances) (written h);
  instances-create_audit_log = λ e db db' h. ap (λ d. d.instances) (written h);
  audit_logs-create_audit_log = λ e db db' h. ap (λ d. d.audit_logs) (written h);
  audit_logs-update_one = λ p f db db' h. ap (λ d. d.audit_logs) (written h);
  audit_logs-upsert_one = λ p x f db db' h. ap (λ d. d.audit_logs) (written h);
  audit_logs-create_pnl_point = λ e db db' h. (stored_lem e (has_required e) db db' h).0;
  instances-create_pnl_point = λ e db db' h. (stored_lem e (has_required e) db db' h).1;
  pnl_points-create_pnl_point = λ e db db' plain h. (stored_lem e (has_required e) db db' h).2;
  create_pnl_point-has_required = λ e db h. ap (λ x. stored e x db) h;
  aggregate_pnl_points-match_points = λ a times rest db db' rows rows' same h h'. cc;
  dated_audit_logs_lem = λ db. dated_lem db.audit_logs;
  recent_audit_logs_lem = λ a n db l h.
      let all = dated_of a (map (λ e. (0, e)) db.audit_logs) in
      let (rest, whole, page) = first_page-IsPage n all in
      (
        first_page n all,
        rest,
        answer_injective h,
        subst (λ x. Perm x all) (sym whole) (Perm.refl all),
        subst IsNewestFirst (sym whole) (same_time a db.audit_logs),
        page,
      );
  recent_pnl_points_lem = λ a n db l h. answer_injective h ∙ first_page-limited n _;
}

-- One EA of ann's, online and visible, and the state of the program around it.
abbrev pub sample : EaInstance
sample = record {
  agent_id = "acc-EU";
  license_key = "lic";
  account_login = "acc";
  symbol = "EU";
  online = true;
  last_seen_at = some 7;
  last_telemetry = none;
  current_settings = none;
  user_id = some "ann";
  hidden_at = none;
}

abbrev pub with_instances : List EaInstance → World memory
with_instances xs = record {
  db = record { instances = xs; audit_logs = []; pnl_points = [] };
  telemetry_cache = [];
  bridge_sockets = [];
  uuids = 0;
  cached_key = none;
  trace = [];
}

abbrev pub start : World memory
start = with_instances (sample ∷ [])

-- A bridge's socket whose token names the sample's agent.
abbrev pub bridge : String → Socket
bridge id = record {
  id = id;
  state = record {
    user_id = some "ann";
    is_bridge = true;
    agent_id = some "acc-EU";
    license_key = some "lic";
    account_login = none;
    symbol = none;
    token_expires_at = some 5000;
    expiry_notified = false;
  };
}

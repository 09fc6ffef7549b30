-- ===== src/Platform/Keeps.antt =====
-- What an action keeps true of the database, of the current bridge sockets, of what was sent and of the
-- cache, with one rule for each way to build an action.
use run_bot_backend.Prelude.{
  ℕ, String, ◌≡◌, refl, Option, none, some, Bool, true, false, List, ◌∷◌, if◌then◌else◌,
}
use run_bot_backend.Data.{
  EaInstance, EaAuditLog, EaPnlPoint, Effect, emit_room, emit_client, disconnect, join, leave,
}
use run_bot_backend.Platform.{Platform}
use run_bot_backend.Cache.{Cache, get, sweep}
use run_bot_backend.Gateway.Orders.{is_true}
use run_bot_backend.Platform.Exec.{
  World, Exec, Result, Exception, ok, err, pure, raise, gets, answer, query, committed, change,
  effect, continue, ◌>>=◌, recover, try_catch,
}

-- What may be true of the database, the current bridge sockets, what was sent and the cache.
abbrev pub Facts : Platform → Type 1
Facts P = P.Db → List (String × String) → List Effect → Cache → Type 0

abbrev pub Holds : {P : Platform} → Facts P → World P → Type 0
Holds J w = J w.db w.bridge_sockets w.trace w.telemetry_cache

-- Whether the action returns or throws, what was true before is true after it.
pub record Keeps (P : Platform) {A : Type 0} (J : Facts P) (m : Exec P A) : Type 0 where
  pub at : (w : World P) → Holds {P = P} J w → Holds {P = P} J (m w).1

module _ {P : Platform} {J : Facts P} {A : Type 0} where
  pub Keeps-pure : (a : A) → Keeps P J (pure a)
  Keeps-pure a = record { at = λ w h. h }

  pub Keeps-raise : (e : Exception) → Keeps P J (raise {A = A} e)
  Keeps-raise e = record { at = λ w h. h }

  pub Keeps-gets : (f : World P → A) → Keeps P J (gets f)
  Keeps-gets f = record { at = λ w h. h }

  pub Keeps-answer : (o : Option A) → Keeps P J (answer o)
  Keeps-answer none = record { at = λ w h. h }
  Keeps-answer (some a) = record { at = λ w h. h }

  pub Keeps-query : (f : P.Db → Option A) → Keeps P J (query f)
  Keeps-query f = record { at = λ w h. (Keeps-answer (f w.db)).at w h }

  pub Keeps-if :
      (b : Bool) (m n : Exec P A) → Keeps P J m → Keeps P J n → Keeps P J (if b then m else n)
  Keeps-if true m n km kn = km
  Keeps-if false m n km kn = kn

  Keeps-recover : (r : Result A) (h : Exec P A) → Keeps P J h → Keeps P J (recover r h)
  Keeps-recover (ok a) h kh = record { at = λ w j. j }
  Keeps-recover (err e) h kh = kh

  pub Keeps-try_catch : (m h : Exec P A) → Keeps P J m → Keeps P J h → Keeps P J (try_catch m h)
  Keeps-try_catch m h km kh = record {
    at = λ w j. (Keeps-recover (m w).0 h kh).at (m w).1 (km.at w j);
  }

module _ {P : Platform} (J : Facts P) where
  committed-Keeps :
      (o : Option P.Db) (w : World P)
      → ((db : P.Db) → o ≡ some db → J db w.bridge_sockets w.trace w.telemetry_cache)
      → Holds {P = P} J w
      → Holds {P = P} J (committed o w).1
  committed-Keeps none w k h = h
  committed-Keeps (some db) w k h = k db refl

module _ {P : Platform} {J : Facts P} where
  pub Keeps-change :
      (f : P.Db → Option P.Db)
      → ((db db' : P.Db)
          → f db ≡ some db'
          → (b : List (String × String)) (t : List Effect) (c : Cache) → J db b t c
          → J db' b t c)
      → Keeps P J (change f)
  Keeps-change f k = record {
    at = λ w h.
        committed-Keeps J (f w.db) w
          (λ db e. k w.db db e w.bridge_sockets w.trace w.telemetry_cache h) h;
  }

module _ {P : Platform} {J : Facts P} {A B : Type 0} where
  Keeps-continue :
      (r : Result A) (f : A → Exec P B) → ((a : A) → Keeps P J (f a)) → Keeps P J (continue r f)
  Keeps-continue (ok a) f kf = kf a
  Keeps-continue (err e) f kf = record { at = λ w h. h }

  pub Keeps-bind :
      {m : Exec P A} {f : A → Exec P B}
      → Keeps P J m
      → ((a : A) → Keeps P J (f a))
      → Keeps P J (m >>= f)
  Keeps-bind {m} {f} km kf = record {
    at = λ w h. (Keeps-continue (m w).0 f kf).at (m w).1 (km.at w h);
  }

-- A change that leaves the agent and the owner alone.
abbrev pub KeepsIdentity : (EaInstance → EaInstance) → Type 0
KeepsIdentity f = (i : EaInstance) → ((f i).agent_id ≡ i.agent_id) × ((f i).user_id ≡ i.user_id)

-- It puts no socket into a room.
abbrev pub IsQuiet : Effect → Type 0
IsQuiet (emit_room room event) = Unit
IsQuiet (emit_client id event) = Unit
IsQuiet (disconnect id) = Unit
IsQuiet (join id room) = ⊥
IsQuiet (leave id room) = Unit

-- Every write but the upsert of a registration, everything that is sent but a join, a sweep of the cache
-- and a read of it at the time leaves it true; an entry of the audit log that names a command is written
-- where that command was sent.
pub record IsStable (P : Platform) (now : ℕ) (J : Facts P) : Type 0 where
  pub updated :
      (p : EaInstance → Bool) (f : EaInstance → EaInstance)
      → KeepsIdentity f
      → (db db' : P.Db) → P.update_one p f db ≡ some db'
      → (b : List (String × String)) (t : List Effect) (c : Cache) → J db b t c
      → J db' b t c
  pub audited :
      (e : EaAuditLog) (db db' : P.Db)
      → P.create_audit_log e db ≡ some db'
      → (b : List (String × String)) (t : List Effect) (c : Cache) → is_true e t ≡ true
      → J db b t c
      → J db' b t c
  pub recorded :
      (e : EaPnlPoint) (db db' : P.Db)
      → P.create_pnl_point e db ≡ some db'
      → (b : List (String × String)) (t : List Effect) (c : Cache) → J db b t c
      → J db' b t c
  pub sent :
      (e : Effect)
      → IsQuiet e
      → (db : P.Db) (b : List (String × String)) (t : List Effect) (c : Cache) → J db b t c
      → J db b (e ∷ t) c
  pub looked_up :
      (key : String) (db : P.Db) (b : List (String × String)) (t : List Effect) (c : Cache)
      → J db b t c
      → J db b t (get now key c).1
  pub swept :
      (db : P.Db) (b : List (String × String)) (t : List Effect) (c : Cache)
      → J db b t c
      → J db b t (sweep now c)

-- It stays true where the socket joins the room.
abbrev pub KeptByJoin : (P : Platform) → Facts P → String → String → Type 0
KeptByJoin P K id room =
    (w : World P)
    → Holds {P = P} K w
    → K w.db w.bridge_sockets (join id room ∷ w.trace) w.telemetry_cache

module _ {P : Platform} {J : Facts P} {T : ℕ} (stable : IsStable P T J) where
  pub Keeps-effect : (e : Effect) → IsQuiet e → Keeps P J (effect {P = P} e)
  Keeps-effect e quiet = record {
    at = λ w h. stable.sent e quiet w.db w.bridge_sockets w.trace w.telemetry_cache h;
  }

  pub Keeps-update :
      (p : EaInstance → Bool) (f : EaInstance → EaInstance)
      → KeepsIdentity f
      → Keeps P J (change (P.update_one p f))
  Keeps-update p f k = Keeps-change (P.update_one p f) (stable.updated p f k)

  pub Keeps-audit :
      (e : EaAuditLog)
      → ((t : List Effect) → is_true e t ≡ true)
      → Keeps P J (change (P.create_audit_log e))
  Keeps-audit e told =
      Keeps-change (P.create_audit_log e)
        (λ db db' written b t c. stable.audited e db db' written b t c (told t))

  pub Keeps-record : (e : EaPnlPoint) → Keeps P J (change (P.create_pnl_point e))
  Keeps-record e = Keeps-change (P.create_pnl_point e) (stable.recorded e)

pub ruleset keeps_rules = (
  Keeps-pure, Keeps-raise, Keeps-gets, Keeps-query, Keeps-if, Keeps-try_catch, Keeps-effect,
  Keeps-bind,
)

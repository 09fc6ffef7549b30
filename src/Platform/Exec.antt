-- ===== src/Platform/Exec.antt =====
-- The state of the running program, and handlers as actions on it: what was written or sent before
-- an exception stays, so the state comes back beside the exception too.
use run_bot_backend.Prelude.{ℕ, String, Option, none, some, List, ◌∷◌}
use run_bot_backend.Data.{Effect}
use run_bot_backend.Cache.{Cache}
use run_bot_backend.Platform.{Platform}

pub data Exception : Type 0 where
  not_found forbidden bad_request conflict : String → Exception
  unauthorized : String → String → Exception
  -- `new Error(message)`
  failure : String → Exception
  -- the database's promise is rejected
  rejected : Exception
  -- a member of `null` is read
  type_error : Exception

pub data Result {ℓ} (A : Type ℓ) : Type ℓ where
  ok : A → Result A
  err : Exception → Result A

-- `trace` is what socket.io was asked, newest first; `uuids` counts the calls of `uuidv4`;
-- `cached_key` is the promise of the token's key, with `none` inside for a rejected one.
pub record World (P : Platform) : Type 0 where
  pub db : P.Db
  pub telemetry_cache : Cache
  pub bridge_sockets : List (String × String)
  pub uuids : ℕ
  pub cached_key : Option (Option P.VerifyKey)
  pub trace : List Effect

abbrev pub Exec : Platform → Type 0 → Type 0
Exec P A = World P → Result A × World P

module _ {P : Platform} {A : Type 0} where
  abbrev pub pure : A → Exec P A
  pure a w = (ok a, w)

  abbrev pub raise : Exception → Exec P A
  raise e w = (err e, w)

  abbrev pub gets : (World P → A) → Exec P A
  gets f w = (ok (f w), w)

  -- An answer of the database, or its rejection.
  abbrev pub answer : Option A → World P → Result A × World P
  answer none w = (err rejected, w)
  answer (some a) w = (ok a, w)

  abbrev pub query : (P.Db → Option A) → Exec P A
  query f w = answer (f w.db) w

module _ {P : Platform} where
  abbrev pub committed : Option P.Db → World P → Result (Unit {0}) × World P
  committed none w = (err rejected, w)
  committed (some db) w = (ok tt, record w { db = db })

  abbrev pub change : (P.Db → Option P.Db) → Exec P (Unit {0})
  change f w = committed (f w.db) w

  abbrev pub modify : (World P → World P) → Exec P (Unit {0})
  modify f w = (ok tt, f w)

  abbrev pub skip : Exec P (Unit {0})
  skip w = (ok tt, w)

  abbrev pub effect : Effect → Exec P (Unit {0})
  effect e w = (ok tt, record w { trace = e ∷ w.trace })

module _ {P : Platform} {A B : Type 0} where
  abbrev pub continue : Result A → (A → Exec P B) → Exec P B
  continue (ok a) f w = f a w
  continue (err e) f w = (err e, w)

  infixl 5 ◌>>=◌ ◌>>◌
  abbrev pub ◌>>=◌ : Exec P A → (A → Exec P B) → Exec P B
  ◌>>=◌ m f w = let (r, w') = m w in continue r f w'

  abbrev pub ◌>>◌ : Exec P A → Exec P B → Exec P B
  m >> n = m >>= λ _. n

-- `try { m } catch { handler }`
module _ {P : Platform} {A : Type 0} where
  abbrev pub recover : Result A → Exec P A → Exec P A
  recover (ok a) h w = (ok a, w)
  recover (err e) h w = h w

  abbrev pub try_catch : Exec P A → Exec P A → Exec P A
  try_catch m h w = let (r, w') = m w in recover r h w'

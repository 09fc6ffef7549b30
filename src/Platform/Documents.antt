-- ===== src/Platform/Documents.antt =====
-- The document of an agent, which a query by agent finds, after each kind of write.
use mathlib.Core.Option
use run_bot_backend.Prelude.{
  String, ◌≡◌, refl, ◌∙◌, ap, Option, none, some, Bool, true, false, List, [], ◌∷◌, ◌++◌, ◌==◌,
  eq_iff, if◌then◌else◌, any, select, head?, arith, Bool-cases, inl, inr,
}
use run_bot_backend.Data.{EaInstance, EaAuditLog}
use run_bot_backend.Platform.{Platform, Laws, update_first}

-- `{ agentId }` as a query.
abbrev pub by_agent : String → EaInstance → Bool
by_agent agent_id i = i.agent_id == agent_id

abbrev first_of_agent : String → List EaInstance → Option EaInstance
first_of_agent a xs = head? (select (by_agent a) xs)

abbrev pub document : (P : Platform) → String → P.Db → Option EaInstance
document P a db = first_of_agent a (P.instances db)

-- A change that leaves the agent's id alone.
abbrev pub KeepsAgent : (EaInstance → EaInstance) → Type 0
KeepsAgent f = (i : EaInstance) → (f i).agent_id ≡ i.agent_id

first-update_first :
    (a b : String) (f : EaInstance → EaInstance) (xs : List EaInstance)
    → KeepsAgent f
    → first_of_agent b (update_first (by_agent a) f xs)
      ≡ (if a == b then Option.map f (first_of_agent b xs) else first_of_agent b xs)
first-update_first a b f [] k = ground arith
first-update_first a b f (x ∷ xs) k = ground (
  arith,
  first-update_first a b f xs k,
  k x,
  eq_iff a b,
  eq_iff x.agent_id a,
  eq_iff x.agent_id b,
  eq_iff (f x).agent_id b,
)

first-append :
    (a b : String) (y : EaInstance) (xs : List EaInstance)
    → any (by_agent a) xs ≡ false
    → y.agent_id ≡ a
    → first_of_agent b (xs ++ y ∷ []) ≡ (if a == b then some y else first_of_agent b xs)
first-append a b y [] h e = ground (arith, eq_iff a b, eq_iff y.agent_id b)
first-append a b y (x ∷ xs) h e =
    ground (arith, first-append a b y xs, eq_iff a b, eq_iff x.agent_id a, eq_iff x.agent_id b)

any-first :
    (a : String) (xs : List EaInstance) → any (by_agent a) xs ≡ false → first_of_agent a xs ≡ none
any-first a [] h = refl
any-first a (x ∷ xs) h = ground (arith, any-first a xs)

any-some :
    (a : String) (xs : List EaInstance)
    → any (by_agent a) xs ≡ true
    → (i : EaInstance) × (first_of_agent a xs ≡ some i)
any-some a [] h = cc
any-some a (x ∷ xs) h = elim (Bool-cases (by_agent a x)) [
  | inl here ↦ (x, rw here refl)
  | inr there ↦ rw there (any-some a xs (ground arith))
]

-- An upsert changes the agent's document, or the one that it starts from.
abbrev pub base_of : EaInstance → Option EaInstance → EaInstance
base_of fresh none = fresh
base_of fresh (some i) = i

abbrev pub upserted : (EaInstance → EaInstance) → EaInstance → Option EaInstance → EaInstance
upserted f fresh o = f (base_of fresh o)

first-upsert :
    (a b : String) (fresh : EaInstance) (f : EaInstance → EaInstance) (xs : List EaInstance)
    → KeepsAgent f
    → fresh.agent_id ≡ a
    → first_of_agent b
        (if any (by_agent a) xs then update_first (by_agent a) f xs else xs ++ f fresh ∷ [])
      ≡ (if a == b then some (upserted f fresh (first_of_agent a xs)) else first_of_agent b xs)
first-upsert a b fresh f xs k same = elim (Bool-cases (any (by_agent a) xs)) [
  | inl there ↦
      let (i, first) = any-some a xs there in
      rw there (first-update_first a b f xs k ∙ updated i first)
  | inr missing ↦
      rw (missing, any-first a xs missing) (first-append a b (f fresh) xs missing (k fresh ∙ same))
]
  where
    updated :
        (i : EaInstance)
        → first_of_agent a xs ≡ some i
        → (if a == b then Option.map f (first_of_agent b xs) else first_of_agent b xs)
          ≡ (if a == b then some (upserted f fresh (first_of_agent a xs)) else first_of_agent b xs)
    updated i first = elim (Bool-cases (a == b)) [
      | inl e ↦ rw (e, ← (eq_iff a b).0 e, first) refl
      | inr e ↦ rw e refl
    ]

module _ {P : Platform} (laws : Laws P) where
  pub found-document :
      (a : String) (db : P.Db) (o : Option EaInstance)
      → P.find_one (by_agent a) db ≡ some o
      → o ≡ document P a db
  found-document a db o e = laws.find_one_lem (by_agent a) db o e

  pub document-update_one :
      (a b : String) (f : EaInstance → EaInstance) (db db' : P.Db)
      → KeepsAgent f
      → P.update_one (by_agent a) f db ≡ some db'
      → document P b db' ≡ (if a == b then Option.map f (document P b db) else document P b db)
  document-update_one a b f db db' k e =
      ap (first_of_agent b) (laws.instances-update_one (by_agent a) f db db' e)
      ∙ first-update_first a b f (P.instances db) k

  pub document-create_audit_log :
      (b : String) (e : EaAuditLog) (db db' : P.Db)
      → P.create_audit_log e db ≡ some db'
      → document P b db' ≡ document P b db
  document-create_audit_log b e db db' h =
      ap (first_of_agent b) (laws.instances-create_audit_log e db db' h)

  pub document-upsert_one :
      (a b : String) (fresh : EaInstance) (f : EaInstance → EaInstance) (db db' : P.Db)
      → KeepsAgent f
      → fresh.agent_id ≡ a
      → P.upsert_one (by_agent a) fresh f db ≡ some db'
      → document P b db'
        ≡ (if a == b then some (upserted f fresh (document P a db)) else document P b db)
  document-upsert_one a b fresh f db db' k same e =
      ap (first_of_agent b) (laws.instances-upsert_one (by_agent a) fresh f db db' e)
      ∙ first-upsert a b fresh f (P.instances db) k same

-- ===== src/Cache/Laws.antt =====
-- What a reader of the cache sees after each operation.
use run_bot_backend.Prelude.{
  ◌⊎◌, ℕ, ◌+◌, ◌*◌, ◌≤◌, ◌<◌, String, ◌≡◌, refl, Bool, false, ◌&&◌, ◌||◌, Option, none, some, List,
  [], ◌∷◌, leb, if◌then◌else◌, lookup, erase, lookup-insert, lookup-erase, Distinct,
  insert-Distinct, erase-Distinct, ◌==◌, eq_iff, arith,
}
use run_bot_backend.Cache.{Entry, Cache, setex, get, del, sweep_from, sweep}

-- What is left of an entry at a time.
abbrev pub live : ℕ → Option Entry → Option String
live t none = none
live t (some e) = if leb e.expires_at t then none else some e.value

abbrev pub read : ℕ → String → Cache → Option String
read t key store = (get t key store).0

pub read_lem : (t : ℕ) (key : String) (store : Cache) → read t key store ≡ live t (lookup key store)
unfolding get
read_lem t key store = ground arith

lookup-get :
    (now : ℕ) (k j : String) (store : Cache)
    → (lookup j (get now k store).1 ≡ lookup j store)
      ⊎ ((lookup j (get now k store).1 ≡ none) × (live now (lookup j store) ≡ none))
unfolding get
lookup-get now k j store = ground (arith, lookup-erase k j store, eq_iff k j)

live_later : (now t : ℕ) (o : Option Entry) → now ≤ t → live now o ≡ none → live t o ≡ none
live_later now t none h e = refl
live_later now t (some x) h e = ground arith

-- A stored value is read back, under its own key only, up to its expiry and not from then on.
pub read-setex :
    (now t ttl : ℕ) (k j v : String) (store : Cache)
    → read t j (setex now k ttl v store)
      ≡ (if k == j then (if leb (now + ttl * 1000) t then none else some v) else read t j store)
unfolding setex
read-setex now t ttl k j v store = ground (
  arith,
  read_lem t j (setex now k ttl v store),
  read_lem t j store,
  lookup-insert k j (record { value = v; expires_at = now + ttl * 1000 }) store,
)

pub read-del :
    (t : ℕ) (k j : String) (store : Cache)
    → read t j (del k store) ≡ (if k == j then none else read t j store)
unfolding del
read-del t k j store =
    ground (arith, read_lem t j (del k store), read_lem t j store, lookup-erase k j store)

-- The eviction that a read makes is seen by no later read.
pub read-get :
    (now t : ℕ) (k j : String) (store : Cache)
    → now ≤ t
    → read t j (get now k store).1 ≡ read t j store
read-get now t k j store h = ground (
  arith,
  read_lem t j (get now k store).1,
  read_lem t j store,
  lookup-get now k j store,
  live_later now t (lookup j store) h,
)

-- Some entry under this key has run out.
abbrev doomed : ℕ → String → List (String × Entry) → Bool
doomed now j [] = false
doomed now j ((k, e) ∷ rest) = k == j && leb e.expires_at now || doomed now j rest

lookup-sweep_from :
    (now : ℕ) (j : String) (entries : List (String × Entry)) (store : Cache)
    → lookup j (sweep_from now entries store)
      ≡ (if doomed now j entries then none else lookup j store)
unfolding sweep_from
lookup-sweep_from now j [] store = refl
lookup-sweep_from now j ((k, e) ∷ rest) store = ground (
  arith,
  lookup-sweep_from now j rest (erase k store),
  lookup-sweep_from now j rest store,
  lookup-erase k j store,
)

abbrev has_expired : ℕ → Option Entry → Bool
has_expired now none = false
has_expired now (some e) = leb e.expires_at now

doomed-Distinct :
    (now : ℕ) (j : String) (store : Cache)
    → Distinct store
    → doomed now j store ≡ has_expired now (lookup j store)
unfolding lookup
doomed-Distinct now j [] h = refl
doomed-Distinct now j ((k, e) ∷ rest) h = ground (arith, doomed-Distinct now j rest h.1, eq_iff k j)

lookup-sweep :
    (now : ℕ) (j : String) (store : Cache)
    → Distinct store
    → lookup j (sweep now store)
      ≡ (if has_expired now (lookup j store) then none else lookup j store)
unfolding sweep
lookup-sweep now j store h =
    ground (arith, lookup-sweep_from now j store store, doomed-Distinct now j store h)

-- A sweep is seen by no later read.
pub read-sweep :
    (now t : ℕ) (j : String) (store : Cache)
    → Distinct store
    → now ≤ t
    → read t j (sweep now store) ≡ read t j store
read-sweep now t j store d h =
    ground (arith, read_lem t j (sweep now store), read_lem t j store, lookup-sweep now j store d)

-- A sweep leaves no entry that has run out.
pub sweep_live :
    (now : ℕ) (j : String) (store : Cache) (e : Entry)
    → Distinct store
    → lookup j (sweep now store) ≡ some e
    → now < e.expires_at
sweep_live now j store e d h = ground (arith, lookup-sweep now j store d)

sweep_from-Distinct :
    (now : ℕ) (entries : List (String × Entry)) (store : Cache)
    → Distinct store
    → Distinct (sweep_from now entries store)
unfolding sweep_from
sweep_from-Distinct now [] store d = d
sweep_from-Distinct now ((k, e) ∷ rest) store d = ground (
  arith,
  sweep_from-Distinct now rest (erase k store) (erase-Distinct k store d),
  sweep_from-Distinct now rest store d,
)

pub sweep-Distinct : (now : ℕ) (store : Cache) → Distinct store → Distinct (sweep now store)
unfolding sweep
sweep-Distinct now store d = sweep_from-Distinct now store store d

pub setex-Distinct :
    (now ttl : ℕ) (k v : String) (store : Cache)
    → Distinct store
    → Distinct (setex now k ttl v store)
unfolding setex
setex-Distinct now ttl k v store d = insert-Distinct k _ store d

pub get-Distinct :
    (now : ℕ) (k : String) (store : Cache) → Distinct store → Distinct (get now k store).1
unfolding get
get-Distinct now k store d = ground (arith, erase-Distinct k store d)

pub del-Distinct : (k : String) (store : Cache) → Distinct store → Distinct (del k store)
unfolding del
del-Distinct k store d = erase-Distinct k store d

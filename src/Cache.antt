-- ===== src/Cache.antt =====
-- src/common/cache/ttl-cache.ts. Times are milliseconds: `now` is what `Date.now()` returns. The
-- timer that calls `sweep` is the environment's choice of when a sweep happens.
pub mod Laws
pub mod History
use run_bot_backend.Prelude.{
  ℕ, ◌+◌, ◌*◌, String, Option, none, some, List, [], ◌∷◌, leb, if◌then◌else◌, lookup, insert, erase,
}

pub record Entry : Type 0 where
  pub value : String
  pub expires_at : ℕ

abbrev pub Cache : Type 0
Cache = List (String × Entry)

unfoldable pub setex : ℕ → String → ℕ → String → Cache → Cache
setex now key ttl_seconds value store =
    insert key (record { value = value; expires_at = now + ttl_seconds * 1000 }) store

-- The value, and the store after the lazy eviction.
get_entry : ℕ → String → Option Entry → Cache → Option String × Cache
get_entry now key none store = (none, store)
get_entry now key (some entry) store =
    if leb entry.expires_at now then (none, erase key store) else (some entry.value, store)

unfoldable pub get : ℕ → String → Cache → Option String × Cache
unfolding get_entry
get now key store = get_entry now key (lookup key store) store

unfoldable pub del : String → Cache → Cache
del key store = erase key store

-- The loop of `sweep` over the map's entries, which deletes from the map that it walks.
sweep_from : ℕ → List (String × Entry) → Cache → Cache
sweep_from now [] store = store
sweep_from now ((key, entry) ∷ rest) store =
    sweep_from now rest (if leb entry.expires_at now then erase key store else store)

unfoldable pub sweep : ℕ → Cache → Cache
unfolding sweep_from
sweep now store = sweep_from now store store

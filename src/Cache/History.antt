-- ===== src/Cache/History.antt =====
-- The cache against what it promises: a finite map with expiry times and no eviction at all.
use run_bot_backend.Prelude.{
  ℕ, ◌+◌, ◌*◌, ◌≤◌, String, ◌≡◌, refl, ◌∙◌, ap₂, Option, none, some, List, [], ◌∷◌, if◌then◌else◌,
  Distinct, ◌==◌, arith, lookup,
}
use run_bot_backend.Cache.{Entry, Cache, setex, get, del, sweep}
use run_bot_backend.Cache.Laws.{
  live, read, read_lem, read-setex, read-del, read-get, read-sweep, sweep-Distinct, setex-Distinct,
  get-Distinct, del-Distinct,
}

pub data Op : Type 0 where
  set_for : String → ℕ → String → Op
  look_up remove : String → Op
  evict : Op

-- One operation at a time `now`: its answer and the store after it.
pub step : ℕ → Op → Cache → Option String × Cache
step now (set_for k ttl v) store = (none, setex now k ttl v store)
step now (look_up k) store = get now k store
step now (remove k) store = (none, del k store)
step now evict store = (none, sweep now store)

-- A history gives with each operation the time since the one before.
pub run : ℕ → List (ℕ × Op) → Cache → List (Option String)
run now [] store = []
run now ((wait, op) ∷ rest) store =
    (step (now + wait) op store).0 ∷ run (now + wait) rest (step (now + wait) op store).1

abbrev pub Promise : Type 0
Promise = String → Option Entry

pub promise_step : ℕ → Op → Promise → Option String × Promise
promise_step now (set_for k ttl v) p =
    (none, λ j. if k == j then some (record { value = v; expires_at = now + ttl * 1000 }) else p j)
promise_step now (look_up k) p = (live now (p k), p)
promise_step now (remove k) p = (none, λ j. if k == j then none else p j)
promise_step now evict p = (none, p)

pub promise_run : ℕ → List (ℕ × Op) → Promise → List (Option String)
promise_run now [] p = []
promise_run now ((wait, op) ∷ rest) p =
    (promise_step (now + wait) op p).0
    ∷ promise_run (now + wait) rest (promise_step (now + wait) op p).1

-- From a time on, every reader sees the same in both.
record Agrees (now : ℕ) (store : Cache) (p : Promise) : Type 0 where
  same : (t : ℕ) (j : String) → now ≤ t → read t j store ≡ live t (p j)
  distinct : Distinct store

step-Agrees :
    (now : ℕ) (op : Op) (store : Cache) (p : Promise)
    → Agrees now store p
    → Agrees now (step now op store).1 (promise_step now op p).1
unfolding step promise_step
step-Agrees now (set_for k ttl v) store p a = record {
  same = λ t j h. ground (arith, read-setex now t ttl k j v store, a.same t j h);
  distinct = setex-Distinct now ttl k v store a.distinct;
}
step-Agrees now (look_up k) store p a = record {
  same = λ t j h. read-get now t k j store h ∙ a.same t j h;
  distinct = get-Distinct now k store a.distinct;
}
step-Agrees now (remove k) store p a = record {
  same = λ t j h. ground (arith, read-del t k j store, a.same t j h);
  distinct = del-Distinct k store a.distinct;
}
step-Agrees now evict store p a = record {
  same = λ t j h. read-sweep now t j store a.distinct h ∙ a.same t j h;
  distinct = sweep-Distinct now store a.distinct;
}

step_answer :
    (now : ℕ) (op : Op) (store : Cache) (p : Promise)
    → Agrees now store p
    → (step now op store).0 ≡ (promise_step now op p).0
unfolding step promise_step
step_answer now (set_for k ttl v) store p a = refl
step_answer now (look_up k) store p a = a.same now k (omega arith)
step_answer now (remove k) store p a = refl
step_answer now evict store p a = refl

later-Agrees :
    (now wait : ℕ) (store : Cache) (p : Promise) → Agrees now store p → Agrees (now + wait) store p
later-Agrees now wait store p a = record {
  same = λ t j h. a.same t j (omega arith);
  distinct = a.distinct;
}

run-Agrees :
    (now : ℕ) (history : List (ℕ × Op)) (store : Cache) (p : Promise)
    → Agrees now store p
    → run now history store ≡ promise_run now history p
unfolding run promise_run
run-Agrees now [] store p a = refl
run-Agrees now ((wait, op) ∷ rest) store p a =
    let later = later-Agrees now wait store p a in
    ap₂ ◌∷◌ (step_answer (now + wait) op store p later)
      (run-Agrees (now + wait) rest _ _ (step-Agrees (now + wait) op store p later))

-- Whatever the history of writes, reads, removals and sweeps, at times that never fall, every
-- read of a cache that starts empty answers what a map with expiry times and no eviction answers.
pub run-promise_run :
    (now : ℕ) (history : List (ℕ × Op)) → run now history [] ≡ promise_run now history (λ k. none)
unfolding lookup
run-promise_run now history =
    run-Agrees now history [] (λ k. none)
      (record { same = λ t j h. read_lem t j []; distinct = tt })

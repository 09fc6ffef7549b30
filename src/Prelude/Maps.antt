-- ===== src/Prelude/Maps.antt =====
-- JavaScript's `Map` with text keys: an association list in insertion order. `insert` on a key that
-- is there keeps its place; `erase` is `delete`.
use Prim.Native.String.{String}
use mathlib.Core.Path.{◌≡◌, refl}
use mathlib.Core.Option.{Option, none, some}
use mathlib.Core.List.{List, [], ◌∷◌}
use native.Mathlib.Omega.{arith}
use text.Mathlib.Text.{◌==◌}
use text.Mathlib.TextEquality.{eq_iff}
use run_bot_backend.Prelude.Tests.{if◌then◌else◌}

module _ {ℓ} {V : Type ℓ} where
  unfoldable pub erase : String → List (String × V) → List (String × V)
  erase key [] = []
  erase key ((name, value) ∷ entries) =
      let rest = erase key entries in if name == key then rest else (name, value) ∷ rest

  unfoldable pub lookup : String → List (String × V) → Option V
  lookup key [] = none
  lookup key ((name, value) ∷ entries) = if name == key then some value else lookup key entries

  unfoldable pub insert : String → V → List (String × V) → List (String × V)
  insert key new [] = (key, new) ∷ []
  insert key new ((name, value) ∷ entries) =
      let rest = insert key new entries in
      if name == key then (name, new) ∷ entries else (name, value) ∷ rest

  pub lookup-erase :
      (key asked : String) (entries : List (String × V))
      → lookup asked (erase key entries) ≡ (if key == asked then none else lookup asked entries)
  unfolding erase lookup
  lookup-erase key asked [] = ground arith
  lookup-erase key asked ((name, value) ∷ entries) =
      ground (
        arith,
        lookup-erase key asked entries,
        eq_iff key asked,
        eq_iff name key,
        eq_iff name asked,
      )

  pub lookup-insert :
      (key asked : String) (new : V) (entries : List (String × V))
      → lookup asked (insert key new entries)
        ≡ (if key == asked then some new else lookup asked entries)
  unfolding insert lookup
  lookup-insert key asked new [] = refl
  lookup-insert key asked new ((name, value) ∷ entries) = ground (
    arith,
    lookup-insert key asked new entries,
    eq_iff key asked,
    eq_iff name key,
    eq_iff name asked,
  )

  -- No key stands twice.
  abbrev pub Distinct : List (String × V) → Type ℓ
  Distinct [] = Unit
  Distinct ((name, value) ∷ entries) = (lookup name entries ≡ none) × Distinct entries

  pub erase-Distinct :
      (key : String) (entries : List (String × V)) → Distinct entries → Distinct (erase key entries)
  unfolding erase
  erase-Distinct key [] h = tt
  erase-Distinct key ((name, value) ∷ entries) h = ground (
    arith,
    erase-Distinct key entries h.1,
    lookup-erase key name entries,
    eq_iff key name,
    eq_iff name key,
  )

  pub insert-Distinct :
      (key : String) (new : V) (entries : List (String × V))
      → Distinct entries
      → Distinct (insert key new entries)
  unfolding insert lookup
  insert-Distinct key new [] h = (refl, tt)
  insert-Distinct key new ((name, value) ∷ entries) h = ground (
    arith,
    insert-Distinct key new entries h.1,
    lookup-insert key name new entries,
    eq_iff key name,
    eq_iff name key,
  )

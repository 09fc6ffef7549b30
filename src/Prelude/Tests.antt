-- ===== src/Prelude/Tests.antt =====
-- Boolean tests, the conditional, and JavaScript's truth of an optional text.
use Prim.Native.Nat.{ℕ, compare, Ordering}
use Prim.Native.String.{String}
use mathlib.Core.Path.{◌≡◌, refl}
use mathlib.Core.Logic.{◌≢◌, ◌⊎◌, inl, inr}
use mathlib.Core.Bool.{Bool, true, false, not}
use mathlib.Core.Option.{Option, none, some}
use native.Mathlib.Omega.{arith}
use text.Mathlib.Text.{◌==◌}
use text.Mathlib.TextEquality.{eq_iff}

abbrev pub ltb : ℕ → ℕ → Bool
ltb a b = elim (compare a b) [ Ordering.lt ↦ true | _ ↦ false ]

abbrev pub leb : ℕ → ℕ → Bool
leb a b = elim (compare a b) [ Ordering.gt ↦ false | _ ↦ true ]

abbrev pub eqb : ℕ → ℕ → Bool
eqb a b = elim (compare a b) [ Ordering.eq ↦ true | _ ↦ false ]

infix 1 if◌then◌else◌
abbrev pub if◌then◌else◌ {ℓ} : {A : Type ℓ} → Bool → A → A → A
if true then x else y = x
if false then x else y = y

-- To split on a computed value and keep the equation.
pub Bool-cases : (b : Bool) → (b ≡ true) ⊎ (b ≡ false)
Bool-cases true = inl refl
Bool-cases false = inr refl

pub Option-cases {ℓ} : {A : Type ℓ} (o : Option A) → (o ≡ none) ⊎ ((a : A) × (o ≡ some a))
Option-cases none = inl refl
Option-cases (some a) = inr (a, refl)

-- A value that may be absent is falsy when it is `null`, `undefined` or the empty text.
abbrev pub truthy : Option String → Bool
truthy none = false
truthy (some s) = not (s == "")

-- `a ?? b`
abbrev pub or_else {ℓ} : {A : Type ℓ} → Option A → Option A → Option A
or_else none b = b
or_else (some a) b = some a

-- `a === b`, where `a` may be `null`.
abbrev pub is_text : Option String → String → Bool
is_text none b = false
is_text (some a) b = a == b

pub is_text-eq_some : (o : Option String) (s : String) → is_text o s ≡ true → o ≡ some s
is_text-eq_some none s h = ground arith
is_text-eq_some (some a) s h = ground (arith, eq_iff a s)

pub some-is_text : (o : Option String) (s : String) → o ≡ some s → is_text o s ≡ true
some-is_text none s h = ground arith
some-is_text (some a) s h = ground (arith, eq_iff a s)

pub ne_test : (a b : String) → a ≢ b → (a == b) ≡ false
ne_test a b h = ground (arith, eq_iff a b)

pub differs : (a b : String) → (a == b) ≡ false → a ≢ b
differs a b h e = absurd (ground (arith, eq_iff a b))

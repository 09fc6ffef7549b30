-- ===== src/Prelude/Int.antt =====
-- Integers, as far as the program computes with them. `negsuc n` is -(n + 1).
use Prim.Native.Nat.{ℕ, suc, ◌+◌, ◌-◌, ◌*◌}
use mathlib.Core.Bool.{Bool, true, false}
use run_bot_backend.Prelude.Tests.{ltb, leb, if◌then◌else◌}

pub data ℤ : Type 0 where
  pos : ℕ → ℤ
  negsuc : ℕ → ℤ

-- a - b, as an integer.
abbrev pub sub_ℕ : ℕ → ℕ → ℤ
sub_ℕ a b = if leb b a then pos (a - b) else negsuc (b - a - 1)

-- a - b, for a natural a.
abbrev pub minus : ℕ → ℤ → ℤ
minus a (pos b) = sub_ℕ a b
minus a (negsuc b) = pos (a + suc b)

-- z * 1000: seconds in milliseconds.
abbrev pub thousand : ℤ → ℤ
thousand (pos n) = pos (n * 1000)
thousand (negsuc n) = negsuc (n * 1000 + 999)

-- n < z
abbrev pub below : ℕ → ℤ → Bool
below n (pos m) = ltb n m
below n (negsuc m) = false

-- a ≤ b
abbrev pub le_ℤ : ℤ → ℤ → Bool
le_ℤ (pos a) (pos b) = leb a b
le_ℤ (pos a) (negsuc b) = false
le_ℤ (negsuc a) (pos b) = true
le_ℤ (negsuc a) (negsuc b) = leb b a

-- `Math.min(z, n)`
abbrev pub min_ℤ : ℤ → ℕ → ℤ
min_ℤ (pos m) n = if leb m n then pos m else pos n
min_ℤ (negsuc m) n = negsuc m

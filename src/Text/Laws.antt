-- ===== src/Text/Laws.antt =====
-- Splitting and trimming texts that hold no separator and no white space.
use Prim.Native.Char.{Char, code}
use Prim.Native.String.{◌++◌}
use text.Mathlib.TextLemmas.{nil-append, cons-append}
use run_bot_backend.Prelude.{ℕ, String, ◌≡◌, refl, true, false, [], ◌∷◌, eqb, arith}
use run_bot_backend.Text.{cons, split, is_space, trim_start, trim_end, trim}

-- No character of the text has this code.
abbrev pub Lacks : ℕ → String → Type 0
Lacks separator String.[] = Unit
Lacks separator (String.◌∷◌ c s) = (eqb (code c) separator ≡ false) × Lacks separator s

abbrev pub IsSolid : String → Type 0
IsSolid String.[] = Unit
IsSolid (String.◌∷◌ c s) = (is_space (code c) ≡ false) × IsSolid s

pub split-Lacks : (separator : ℕ) (s : String) → Lacks separator s → split separator s ≡ s ∷ []
unfolding split
split-Lacks separator String.[] h = refl
split-Lacks separator (String.◌∷◌ c s) h = rw (h.0, split-Lacks separator s h.1) refl

pub split-append :
    (separator : ℕ) (s : String) (c : Char) (t : String)
    → Lacks separator s
    → eqb (code c) separator ≡ true
    → split separator (s ++ cons c t) ≡ s ∷ split separator t
unfolding split
split-append separator String.[] c t h e = rw (nil-append, split, e) refl
split-append separator (String.◌∷◌ d s) c t h e =
    rw (cons-append, split, h.0, split-append separator s c t h.1 e) refl

trim_start_solid : (s : String) → IsSolid s → trim_start s ≡ s
unfolding trim_start
trim_start_solid String.[] h = refl
trim_start_solid (String.◌∷◌ c s) h = rw h.0 refl

trim_end_solid : (s : String) → IsSolid s → trim_end s ≡ s
unfolding trim_end
trim_end_solid String.[] h = refl
trim_end_solid (String.◌∷◌ c s) h = rw (h.0, trim_end_solid s h.1) refl

pub trim_solid : (s : String) → IsSolid s → trim s ≡ s
unfolding trim
trim_solid s h = rw (trim_start_solid s h) (trim_end_solid s h)

pub Lacks-space : (s : String) → IsSolid s → Lacks b' ' s
unfolding is_space
Lacks-space String.[] h = tt
Lacks-space (String.◌∷◌ c s) h = (ground arith, Lacks-space s h.1)

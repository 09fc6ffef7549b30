-- ===== src/Text.antt =====
-- What the program uses of JavaScript's texts, over code points.
pub mod Laws
use Prim.Native.Char.{Char, code}
use run_bot_backend.Prelude.{
  ℕ, suc, ◌+◌, String, ◌≡◌, Option, none, some, Bool, true, false, ◌&&◌, ◌||◌, List, [], ◌∷◌, ◌==◌,
  ltb, leb, eqb, if◌then◌else◌,
}

abbrev pub cons : Char → String → String
cons c s = String.◌∷◌ c s

abbrev push_front : Char → List String → List String
push_front c [] = cons c "" ∷ []
push_front c (part ∷ parts) = cons c part ∷ parts

-- `text.split(separator)`, for a separator of one character.
unfoldable pub split : ℕ → String → List String
split separator String.[] = "" ∷ []
split separator (String.◌∷◌ c s) =
    let rest = split separator s in if eqb (code c) separator then "" ∷ rest else push_front c rest

-- White space and line ends, which `trim` removes.
unfoldable pub is_space : ℕ → Bool
is_space c =
    leb 9 c && leb c 13
    || eqb c 32
    || eqb c 0xa0
    || eqb c 0x1680
    || leb 0x2000 c && leb c 0x200a
    || eqb c 0x2028
    || eqb c 0x2029
    || eqb c 0x202f
    || eqb c 0x205f
    || eqb c 0x3000
    || eqb c 0xfeff

unfoldable pub trim_start : String → String
unfolding is_space
trim_start String.[] = ""
trim_start (String.◌∷◌ c s) =
    let rest = trim_start s in if is_space (code c) then rest else cons c s

unfoldable pub trim_end : String → String
unfolding is_space
trim_end String.[] = ""
trim_end (String.◌∷◌ c s) =
    let rest = trim_end s in if is_space (code c) && rest == "" then "" else cons c rest

unfoldable pub trim : String → String
unfolding trim_start trim_end
trim s = trim_end (trim_start s)

-- `toLowerCase` on the letters of ASCII. No other character becomes a letter of "bearer".
abbrev lower : ℕ → ℕ
lower c = if leb b'A' c && leb c b'Z' then c + 32 else c

unfoldable pub lower_codes : String → List ℕ
lower_codes String.[] = []
lower_codes (String.◌∷◌ c s) = lower (code c) ∷ lower_codes s

abbrev pub same_codes : List ℕ → List ℕ → Bool
same_codes [] [] = true
same_codes (a ∷ as') (b ∷ bs) = eqb a b && same_codes as' bs
same_codes _ _ = false

-- `text.length`: UTF-16 units.
unfoldable pub utf16_length : String → ℕ
utf16_length String.[] = 0
utf16_length (String.◌∷◌ c s) = (if ltb (code c) 0x10000 then 1 else 2) + utf16_length s

abbrev pub first : List String → Option String
first [] = none
first (x ∷ xs) = some x

abbrev pub second : List String → Option String
second [] = none
second (x ∷ []) = none
second (x ∷ y ∷ xs) = some y

abbrev pub third : List String → Option String
third (x ∷ y ∷ z ∷ xs) = some z
third _ = none

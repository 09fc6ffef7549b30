-- ===== src/Json.antt =====
-- JSON values, as the frames of a bridge and the settings of an EA hold them. Numbers are integers:
-- the program copies prices and balances and computes only with times.
use run_bot_backend.Prelude.{
  ℤ, pos, String, Option, none, some, Bool, true, false, not, ◌||◌, List, [], ◌∷◌, ◌==◌,
  if◌then◌else◌, eqb,
}

mutual
  pub data Json : Type 0 where
    null : Json
    bool : Bool → Json
    num : ℤ → Json
    str : String → Json
    arr : Items → Json
    obj : Fields → Json

  pub data Items : Type 0 where
    nil : Items
    cons : Json → Items → Items

  pub data Fields : Type 0 where
    end : Fields
    field : String → Json → Fields → Fields

-- `undefined` is `none`.
unfoldable pub find_field : String → Fields → Option Json
find_field k end = none
find_field k (field j v rest) = if j == k then some v else find_field k rest

-- `value.key`; a value with no such key has `undefined` there. `null.key` throws: see `Exec`.
unfoldable pub member : String → Json → Option Json
unfolding find_field
member k (obj fields) = find_field k fields
member k _ = none

-- `if (value)`
abbrev pub truthy_json : Option Json → Bool
truthy_json none = false
truthy_json (some null) = false
truthy_json (some (bool b)) = b
truthy_json (some (num (pos n))) = not (eqb n 0)
truthy_json (some (num (ℤ.negsuc n))) = true
truthy_json (some (str s)) = not (s == "")
truthy_json (some (arr xs)) = true
truthy_json (some (obj fields)) = true

-- `value === text`
abbrev pub json_is_text : Option Json → String → Bool
json_is_text (some (str s)) t = s == t
json_is_text _ t = false

-- What a value that is used as a number gives: an exception, NaN, an infinity, or a number.
pub data Coerced : Type 0 where
  throws not_a_number infinity minus_infinity : Coerced
  finite : ℤ → Coerced

abbrev pub has_key : String → Fields → Bool
has_key k end = false
has_key k (field j v rest) = j == k || has_key k rest

-- Whether a value has no text: an object with a `toString` of its own, which is no function, has none.
mutual
  pub textless : Json → Bool
  textless (obj fields) = has_key "toString" fields
  textless (arr xs) = any_textless xs
  textless _ = false

  pub any_textless : Items → Bool
  any_textless nil = false
  any_textless (cons x xs) = textless x || any_textless xs

-- The number of an array's text, the texts of its items with commas between, where `read` gives the
-- number of a text; a text with a comma is no number.
mutual
  pub items_number : (String → Coerced) → Items → Coerced
  items_number read nil = finite (pos 0)
  items_number read (cons x nil) = item_number read x
  items_number read (cons x (cons y ys)) = not_a_number

  pub item_number : (String → Coerced) → Json → Coerced
  item_number read null = finite (pos 0)
  item_number read (bool b) = not_a_number
  item_number read (num n) = finite n
  item_number read (str s) = read s
  item_number read (arr xs) = items_number read xs
  item_number read (obj fields) = not_a_number

-- A value as an operand of `*`.
abbrev pub to_number : (String → Coerced) → Json → Coerced
to_number read null = finite (pos 0)
to_number read (bool b) = finite (if b then pos 1 else pos 0)
to_number read (num n) = finite n
to_number read (str s) = read s
to_number read (arr xs) = if any_textless xs then throws else items_number read xs
to_number read (obj fields) = if has_key "toString" fields then throws else not_a_number

-- `value ?? 0` as an operand of `*`.
abbrev pub number_or_zero : (String → Coerced) → Option Json → Coerced
number_or_zero read none = finite (pos 0)
number_or_zero read (some v) = to_number read v

-- `Object.keys`
unfoldable pub keys : Fields → List String
keys end = []
keys (field k v rest) = k ∷ keys rest

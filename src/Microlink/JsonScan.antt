-- ===== src/Microlink/JsonScan.antt =====
-- components/microlink/src/ml_json_scan.c: the scanner of JSON slices. A position in the slice is
-- the list of the bytes from there on, so `[]` stands for `pos >= len`, and a scan that succeeds gives
-- the bytes behind what it has passed. `fault` is a loop that has used up its fuel.
pub mod Bounds
pub mod Lookup
pub mod Objects
pub mod Printed
mod Tests
use esp32_remote_boot.Prelude.{
  ℕ, zero, suc, ◌+◌, ◌-◌, Bool, true, false, not, ◌&&◌, ◌||◌, Option, none, some, [], ◌∷◌, ltb, leb,
  ◌==◌, length, take, drop, same, Bytes, Access, fault, value, ◌>>=◌, if◌then◌else◌,
}

abbrev pub is_space : ℕ → Bool
is_space b = b == 32 || b == 9 || b == 13 || b == 10

-- `skip_space`
unfoldable pub skip_space : Bytes → Bytes
skip_space [] = []
skip_space (b ∷ p) = let rest = skip_space p in if is_space b then rest else b ∷ p

abbrev pub is_hex : ℕ → Bool
is_hex b = leb b'0' b && leb b b'9' || leb b'a' b && leb b b'f' || leb b'A' b && leb b b'F'

-- `strchr("\"\\/bfnrt", escape)`, which also finds the NUL at the end
abbrev pub is_escape : ℕ → Bool
is_escape b =
    b == 34
    || b == 92
    || b == b'/'
    || b == b'b'
    || b == b'f'
    || b == b'n'
    || b == b'r'
    || b == b't'
    || b == 0

-- where the loop of `skip_string` stands: at a character, behind a backslash, or with digits to come
pub data Mode : Type 0 where
  plain escaped : Mode
  digits : ℕ → Mode

-- the loop of `skip_string`, byte by byte
unfoldable pub string_from : Mode → Bytes → Option Bytes
string_from mode [] = none
string_from plain (b ∷ p) =
    let behind = string_from escaped p in
    let next = string_from plain p in
    if ltb b 32 then none else if b == 92 then behind else if b == 34 then some p else next
string_from escaped (b ∷ p) =
    let four = string_from (digits 3) p in
    let next = string_from plain p in if b == b'u' then four else if is_escape b then next else none
string_from (digits zero) (b ∷ p) =
    let next = string_from plain p in if is_hex b then next else none
string_from (digits (suc n)) (b ∷ p) =
    let more = string_from (digits n) p in if is_hex b then more else none

-- `skip_string`
unfoldable pub skip_string : Bytes → Option Bytes
skip_string [] = none
skip_string (b ∷ p) = if b == 34 then string_from plain p else none

abbrev pub is_digit : ℕ → Bool
is_digit b = leb b'0' b && leb b b'9'

-- `while (pos < len && is a digit) pos++`
unfoldable pub skip_digits : Bytes → Bytes
skip_digits [] = []
skip_digits (b ∷ p) = let rest = skip_digits p in if is_digit b then rest else b ∷ p

-- one digit at least
pub some_digits : Bytes → Option Bytes
some_digits [] = none
some_digits (b ∷ p) = if is_digit b then some (skip_digits p) else none

-- the sign of the exponent
pub skip_sign : Bytes → Bytes
skip_sign [] = []
skip_sign (b ∷ p) = if b == b'+' || b == b'-' then p else b ∷ p

-- the exponent, if there is one
pub exponent : Bytes → Option Bytes
exponent [] = some []
exponent (b ∷ p) = if b == b'e' || b == b'E' then some_digits (skip_sign p) else some (b ∷ p)

-- the fraction, if there is one, and what may follow
pub fraction : Bytes → Option Bytes
unfolding exponent
fraction [] = some []
fraction (b ∷ p) =
    if b == b'.'
    then elim (some_digits p) [ none ↦ none | some q ↦ exponent q ]
    else exponent (b ∷ p)

-- the digits before the fraction
pub whole_number : Bytes → Option Bytes
unfolding fraction
whole_number [] = none
whole_number (b ∷ p) =
    if b == b'0'
    then fraction p
    else if leb b'1' b && leb b b'9'
    then fraction (skip_digits p)
    else none

-- `skip_number`
unfoldable pub skip_number : Bytes → Option Bytes
unfolding whole_number
skip_number [] = none
skip_number (b ∷ p) = if b == b'-' then whole_number p else whole_number (b ∷ p)

-- behind a comma: the space, where something other than the closing bracket must follow
unfoldable pub next_item : ℕ → Bytes → Option Bytes
next_item close p = elim (skip_space p) [
  | [] ↦ none
  | (b ∷ q) ↦ if b == close then none else some (b ∷ q)
]

-- what stands behind an item: the closing bracket, with the bytes behind it, or a next item
pub data After : Type 0 where
  closed next : Bytes → After
  bad : After

unfoldable pub after_item : ℕ → Bytes → After
unfolding next_item
after_item close p = elim (skip_space p) [
  | [] ↦ bad
  | (b ∷ q) ↦
      if b == close
      then closed q
      else if b == b','
      then elim (next_item close q) [ none ↦ bad | some r ↦ next r ]
      else bad
]

-- The loop that `skip_array` and `skip_object` have alike, over one item of theirs
unfoldable pub items : ℕ → (Bytes → Access (Option Bytes)) → ℕ → Bytes → Access (Option Bytes)
items close scan zero p = fault
items close scan (suc fuel) p = do
  item ← scan p
  elim item [
    | none ↦ value none
    | some q ↦ elim (after_item close q) [
      | bad ↦ value none
      | closed r ↦ value (some r)
      | next r ↦ items close scan fuel r
    ]
  ]

-- behind the opening bracket
unfoldable pub brackets : ℕ → (Bytes → Access (Option Bytes)) → Bytes → Access (Option Bytes)
brackets close scan p = elim (skip_space p) [
  | [] ↦ items close scan 1 []
  | (b ∷ q) ↦ if b == close then value (some q) else items close scan (suc (suc (length q))) (b ∷ q)
]

-- a member of an object: the key, the colon and the value
unfoldable pub member : (Bytes → Access (Option Bytes)) → Bytes → Access (Option Bytes)
member scan p = elim (skip_string p) [
  | none ↦ value none
  | some q ↦ elim (skip_space q) [
    | [] ↦ value none
    | (b ∷ r) ↦ if b == b':' then scan r else value none
  ]
]

-- `skip_array`, behind the bracket; `scan` is `skip_value_depth` one level down
unfoldable pub skip_array : (Bytes → Access (Option Bytes)) → Bytes → Access (Option Bytes)
skip_array scan p = brackets b']' scan p

-- `skip_object`, behind the bracket
unfoldable pub skip_object : (Bytes → Access (Option Bytes)) → Bytes → Access (Option Bytes)
skip_object scan p = brackets b'}' (member scan) p

-- a comparison with a literal; the bytes behind it
unfoldable pub literal : Bytes → Bytes → Option Bytes
literal [] p = some p
literal (c ∷ cs) [] = none
literal (c ∷ cs) (b ∷ p) = let rest = literal cs p in if b == c then rest else none

abbrev pub or_else : Option Bytes → Option Bytes → Option Bytes
or_else none o = o
or_else (some p) o = some p

-- the value that is no string, object or array
unfoldable pub skip_scalar : Bytes → Option Bytes
skip_scalar p = or_else (literal (b't' ∷ b'r' ∷ b'u' ∷ b'e' ∷ []) p) (
    or_else (literal (b'f' ∷ b'a' ∷ b'l' ∷ b's' ∷ b'e' ∷ []) p)
      (or_else (literal (b'n' ∷ b'u' ∷ b'l' ∷ b'l' ∷ []) p) (skip_number p)))

-- `skip_value_depth` at the depth `33 - left`
unfoldable pub skip_value_depth : ℕ → Bytes → Access (Option Bytes)
skip_value_depth zero p = value none
skip_value_depth (suc left) p =
    let deeper = skip_value_depth left in
    elim (skip_space p) [
      | [] ↦ value none
      | (b ∷ q) ↦
          if b == 34
          then value (skip_string (b ∷ q))
          else if b == b'{'
          then skip_object deeper q
          else if b == b'['
          then skip_array deeper q
          else value (skip_scalar (b ∷ q))
    ]

-- `skip_value`
unfoldable pub skip_value : Bytes → Access (Option Bytes)
skip_value p = skip_value_depth 33 p

-- `ml_json_object_valid`
unfoldable pub object_valid : Bytes → Access Bool
object_valid p = elim (skip_space p) [
  | [] ↦ value false
  | (b ∷ q) ↦
      if b == b'{'
      then (do
        end ← skip_value (b ∷ q)
        value (elim end [
          | none ↦ false
          | some r ↦ elim (skip_space r) [ [] ↦ true | (_ ∷ _) ↦ false ]
        ]))
      else value false
]

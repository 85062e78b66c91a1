-- ===== src/Firmware/Names.antt =====
-- Texts that the firmware compares and checks: `parseId` and `tokenEqual` of
-- firmware/include/boot_state.hpp, `validCredential` and `credentialsDistinct` of credential_policy.hpp, and
-- `validOpaqueId` of multi_pc_policy.hpp. A C string is the list of its bytes up to the NUL, and none
-- for a null pointer.
pub mod Hex
use Prim.Native.Nat.{bit_xor}
use esp32_remote_boot.Prelude.{
  ℕ, zero, suc, ◌+◌, ◌-◌, ◌*◌, ◌%◌, ◌^◌, ◌≤◌, ◌<◌, ◌≡◌, ◌↔◌, Bool, true, false, not, ◌&&◌, ◌||◌,
  Option, none, some, List, [], ◌∷◌, ltb, leb, ◌==◌, if◌then◌else◌, length, arith,
}
use esp32_remote_boot.Firmware.Power.{same}

-- one digit of `parseId`, and `sinricHex`
unfoldable pub hex_value_of : ℕ → Option ℕ
hex_value_of c =
    if leb b'0' c && leb c b'9'
    then some (c - b'0')
    else if leb b'a' c && leb c b'f'
    then some (c - b'a' + 10)
    else if leb b'A' c && leb c b'F'
    then some (c - b'A' + 10)
    else none

-- the loop of `parseId`
unfoldable pub parse_digits : ℕ → List ℕ → Option ℕ
parse_digits id [] = some id
parse_digits id (c ∷ cs) = elim (hex_value_of c) [
  | none ↦ none
  | some n ↦ parse_digits (id * 16 + n) cs
]

-- `parseId`
unfoldable pub parse_id : Option (List ℕ) → Option ℕ
parse_id none = none
parse_id (some s) = if length s == 4 then parse_digits 0 s else none

-- Whether `diff` stays 0 in the loop of `tokenEqual`: `a` is read up to its end, and 0 behind it.
unfoldable pub no_difference : List ℕ → List ℕ → Bool
no_difference xs [] = true
no_difference [] (b ∷ bs) = let rest = no_difference [] bs in bit_xor 0 b == 0 && rest
no_difference (a ∷ xs) (b ∷ bs) = let rest = no_difference xs bs in bit_xor a b == 0 && rest

-- `tokenEqual`; the sizes are 32-bit, and `diff` is 0 at the end when every part of it is
unfoldable pub token_equal : Option (List ℕ) → Option (List ℕ) → Bool
token_equal none b = false
token_equal (some xs) none = false
token_equal (some xs) (some []) = false
token_equal (some xs) (some (b ∷ bs)) =
    bit_xor (length xs) (length (b ∷ bs)) == 0 && no_difference xs (b ∷ bs)

-- the loop of `validCredential`
unfoldable pub printable : List ℕ → Bool
printable [] = true
printable (c ∷ cs) = not (ltb c 32) && not (c == 127) && printable cs

-- `validCredential`
unfoldable pub valid_credential : Option (List ℕ) → Bool
valid_credential none = false
valid_credential (some s) = not (ltb (length s) 8) && not (ltb 128 (length s)) && printable s

-- `credentialsDistinct`
unfoldable pub credentials_distinct : Option (List ℕ) → Option (List ℕ) → Bool
credentials_distinct (some a) (some b) = not (same a b)
credentials_distinct _ _ = false

-- the loop of `validOpaqueId`
unfoldable pub lower_hex : List ℕ → Bool
lower_hex [] = true
lower_hex (c ∷ cs) = ((leb b'0' c && leb c b'9') || (leb b'a' c && leb c b'f')) && lower_hex cs

-- `validOpaqueId`
unfoldable pub valid_opaque_id : Option (List ℕ) → Bool
valid_opaque_id none = false
valid_opaque_id (some s) = length s == 32 && lower_hex s

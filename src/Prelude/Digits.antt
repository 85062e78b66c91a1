-- ===== src/Prelude/Digits.antt =====
-- Hexadecimal digits and numbers of four of them, by a table: what the readers of such texts must find.
use Prim.Native.Nat.{ℕ, ◌+◌, ◌*◌}
use mathlib.Core.Option.{Option, none, some}
use mathlib.Core.List.{List, [], ◌∷◌}
use esp32_remote_boot.Prelude.Tests.{◌==◌, if◌then◌else◌}

abbrev pub digit_table : List (ℕ × ℕ)
digit_table =
    (b'0', 0)
    ∷ (b'1', 1)
    ∷ (b'2', 2)
    ∷ (b'3', 3)
    ∷ (b'4', 4)
    ∷ (b'5', 5)
    ∷ (b'6', 6)
    ∷ (b'7', 7)
    ∷ (b'8', 8)
    ∷ (b'9', 9)
    ∷ (b'a', 10)
    ∷ (b'b', 11)
    ∷ (b'c', 12)
    ∷ (b'd', 13)
    ∷ (b'e', 14)
    ∷ (b'f', 15)
    ∷ (b'A', 10)
    ∷ (b'B', 11)
    ∷ (b'C', 12)
    ∷ (b'D', 13)
    ∷ (b'E', 14)
    ∷ (b'F', 15)
    ∷ []

abbrev pub find_digit : ℕ → List (ℕ × ℕ) → Option ℕ
find_digit c [] = none
find_digit c ((x, d) ∷ table) = if c == x then some d else find_digit c table

-- the value of a digit, of either case
unfoldable pub digit_value : ℕ → Option ℕ
digit_value c = find_digit c digit_table

-- the number that exactly four digits say, the highest first
unfoldable pub four_digits : List ℕ → Option ℕ
four_digits (a ∷ b ∷ c ∷ d ∷ []) = elim (digit_value a) [
  | none ↦ none
  | some i ↦ elim (digit_value b) [
    | none ↦ none
    | some j ↦ elim (digit_value c) [
      | none ↦ none
      | some k ↦ elim (digit_value d) [
        | none ↦ none
        | some l ↦ some (i * 4096 + j * 256 + k * 16 + l)
      ]
    ]
  ]
]
four_digits _ = none

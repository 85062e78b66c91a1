-- ===== src/Rbdiscover/Encoding/Hex.antt =====
-- `rbdiscover_hex`: it reads back what is written in hexadecimal, and accepts nothing else.
use esp32_remote_boot.Prelude.{
  ℕ, zero, suc, ◌+◌, ◌*◌, ◌/◌, ◌%◌, ◌<◌, ◌≡◌, refl, Bool, true, false, ◌&&◌, none, some, [], ◌∷◌,
  inl, inr, Option-cases, Bool-cases, ap, ◌≤◌, if◌then◌else◌, ltb, ◌==◌, length, Bytes, AllBytes,
  arith, map,
}
use esp32_remote_boot.Rbdiscover.Dns.{hex_pairs, hex_char, lower}
use esp32_remote_boot.Rbdiscover.Encoding.{hex_nibble, hex_bytes, hex}

-- a test of `count` numbers from `start` on
holds_from : ℕ → ℕ → (ℕ → Bool) → Bool
holds_from start zero test = true
holds_from start (suc count) test =
    let rest = holds_from (start + 1) count test in if test start then rest else false

holds_from-at :
    (start count : ℕ) (test : ℕ → Bool) (v : ℕ)
    → start ≤ v
    → v < start + count
    → holds_from start count test ≡ true
    → test v ≡ true
unfolding holds_from
holds_from-at start zero test v low high h = absurd (omega arith)
holds_from-at start (suc count) test v low high h = elim (Bool-cases (ltb start v)) [
  | inl above ↦ holds_from-at (start + 1) count test v (ground arith) (omega arith) (ground arith)
  | inr here ↦ let same_number : start ≡ v = ground arith in ground (arith, ap test same_number)
]

-- a digit that is read stands for itself, capitals taken as small letters
good_nibble : ℕ → Bool
good_nibble c = elim (hex_nibble c) [ none ↦ true | some d ↦ ltb d 16 && hex_char d == lower c ]

nibble_table : holds_from 0 256 good_nibble ≡ true
unfolding holds_from good_nibble hex_nibble hex_char lower
nibble_table = refl

hex_nibble-hex_char :
    (c d : ℕ) → c < 256 → hex_nibble c ≡ some d → (d < 16) × (hex_char d ≡ lower c)
unfolding good_nibble
hex_nibble-hex_char c d h e =
    ground (arith, holds_from-at 0 256 good_nibble c (omega arith) h nibble_table)

digit_table :
    holds_from 0 16 (λ d. elim (hex_nibble (hex_char d)) [ none ↦ false | some x ↦ x == d ]) ≡ true
unfolding holds_from hex_nibble hex_char
digit_table = refl

hex_nibble_of : (d : ℕ) → d < 16 → hex_nibble (hex_char d) ≡ some d
hex_nibble_of d h = ground (
  arith,
  holds_from-at 0 16 (λ d. elim (hex_nibble (hex_char d)) [ none ↦ false | some x ↦ x == d ]) d
      (omega arith) h digit_table,
)

-- what has been read from a text: bytes whose hexadecimal digits are the text in small letters
record Read (text bytes : Bytes) : Type 0 where
  digits : hex_pairs bytes ≡ map lower text
  in_range : AllBytes bytes
  halves : length text ≡ length bytes * 2

hex_bytes-Read :
    (text bytes : Bytes) → AllBytes text → hex_bytes text ≡ some bytes → Read text bytes
unfolding hex_bytes hex_pairs
hex_bytes-Read [] bytes h e =
    let z : [] ≡ bytes = ground arith in
    rw (← z) (record { digits = refl; in_range = tt; halves = refl })
hex_bytes-Read (a ∷ []) bytes h e = absurd (cc e)
hex_bytes-Read (a ∷ b ∷ text) bytes h e = elim (Option-cases (hex_nibble a)) [
  | inl bad ↦ absurd (ground arith)
  | inr (high, e1) ↦ elim (Option-cases (hex_nibble b)) [
    | inl bad ↦ absurd (ground arith)
    | inr (low, e2) ↦ elim (Option-cases (hex_bytes text)) [
      | inl bad ↦ absurd (ground arith)
      | inr (rest, e3) ↦
          let r = hex_bytes-Read text rest h.1.1 e3 in
          let d = r.digits in
          let l = r.halves in
          let (hl, hd) = hex_nibble-hex_char a high h.0 e1 in
          let (ll, ld) = hex_nibble-hex_char b low h.1.0 e2 in
          let z : (high * 16 + low) ∷ rest ≡ bytes = ground arith in
          rw (← z) (record {
            digits = ground arith;
            in_range = (omega arith, r.in_range);
            halves = omega arith;
          })
    ]
  ]
]

hex_bytes-hex_pairs : (bytes : Bytes) → AllBytes bytes → hex_bytes (hex_pairs bytes) ≡ some bytes
unfolding hex_bytes hex_pairs
hex_bytes-hex_pairs [] h = refl
hex_bytes-hex_pairs (b ∷ bs) h =
    ground (arith, hex_nibble_of (b / 16), hex_nibble_of (b % 16), hex_bytes-hex_pairs bs h.1)

length-hex_pairs : (bytes : Bytes) → length (hex_pairs bytes) ≡ length bytes * 2
unfolding hex_pairs
length-hex_pairs [] = refl
length-hex_pairs (b ∷ bs) = omega (arith, length-hex_pairs bs)

-- Bytes written in small hexadecimal digits are read back.
pub hex-hex_pairs :
    (bytes : Bytes) → AllBytes bytes → hex (hex_pairs bytes) (length bytes) ≡ some bytes
unfolding hex
hex-hex_pairs bytes h = ground (arith, hex_bytes-hex_pairs bytes h, length-hex_pairs bytes)

-- What is read from a text of bytes has the size that was asked for, and the text is its
-- hexadecimal digits, in capitals or small letters.
pub hex_sound :
    (text : Bytes) (len : ℕ) (bytes : Bytes)
    → AllBytes text
    → hex text len ≡ some bytes
    → (hex_pairs bytes ≡ map lower text) × AllBytes bytes × (length bytes ≡ len)
unfolding hex
hex_sound text len bytes h e =
    let r = hex_bytes-Read text bytes h (ground arith) in
    let l = r.halves in (r.digits, r.in_range, ground arith)

-- ===== src/Rbdiscover/Encoding.antt =====
-- ipxe/rbdiscover/rbdiscover.c: `rbdiscover_hex` and `rbdiscover_signature_der`. A C string is the
-- list of its bytes before the NUL.
pub mod Der
pub mod Hex
use Prim.Native.Nat.{bit_or}
use esp32_remote_boot.Prelude.{
  ℕ, ◌+◌, ◌-◌, ◌*◌, ◌%◌, Bool, ◌&&◌, Option, none, some, List, [], ◌∷◌, ◌++◌, leb, ◌==◌, length,
  Bytes, Access, value, ◌>>=◌, slice, if◌then◌else◌,
}

-- one digit of `rbdiscover_hex`; -1 is `none`
hex_nibble : ℕ → Option ℕ
hex_nibble c =
    let small = bit_or c 0x20 in
    if leb b'0' c && leb c b'9'
    then some (c - b'0')
    else if leb b'a' small && leb small b'f'
    then some (small - b'a' + 10)
    else none

-- the loop of `rbdiscover_hex`
hex_bytes : Bytes → Option Bytes
hex_bytes [] = some []
hex_bytes (_ ∷ []) = none
hex_bytes (a ∷ b ∷ text) =
    let rest = hex_bytes text in
    elim (hex_nibble a) [
      | none ↦ none
      | some high ↦ elim (hex_nibble b) [
        | none ↦ none
        | some low ↦ elim rest [ none ↦ none | some bytes ↦ some ((high * 16 + low) ∷ bytes) ]
      ]
    ]

-- `rbdiscover_hex`; -EINVAL is `none`
unfoldable pub hex : Bytes → ℕ → Option Bytes
unfolding hex_bytes hex_nibble
hex text len = if length text == len * 2 then hex_bytes text else none

-- `while ((rlen > 1) && (r[0] == 0)) { r++; rlen--; }`
unfoldable pub strip : Bytes → Bytes
strip [] = []
strip (b ∷ []) = b ∷ []
strip (b ∷ c ∷ bs) = if b == 0 then strip (c ∷ bs) else b ∷ c ∷ bs

-- the padding of an integer whose first bit is set
unfoldable pub pad : Bytes → Bytes
pad [] = []
pad (b ∷ bs) = if leb 128 b then 0 ∷ b ∷ bs else b ∷ bs

-- `rbdiscover_signature_der`; the bytes of `der` up to the length returned. A length is stored in
-- a byte.
unfoldable pub signature_der : Bytes → Access Bytes
unfolding strip pad
signature_der sig = do
  r ← slice sig 0 32
  s ← slice sig 32 32
  let r' = pad (strip r)
  let s' = pad (strip s)
  let len = 2 + length r' + 2 + length s'
  value (0x30 ∷ len % 256 ∷ 0x02 ∷ length r' % 256 ∷ (r' ++ (0x02 ∷ length s' % 256 ∷ s')))

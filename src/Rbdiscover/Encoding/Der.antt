-- ===== src/Rbdiscover/Encoding/Der.antt =====
-- The DER form of a signature: two integers in their shortest form, with the values unchanged.
use esp32_remote_boot.Prelude.{
  ℕ, ◌+◌, ◌*◌, ◌≤◌, ◌<◌, ◌≡◌, refl, ◌∙◌, [], ◌∷◌, ◌++◌, inl, inr, Bool-cases, leb, ◌==◌, length,
  take, drop, Bytes, value, arith, length-take, length-drop, take_all,
}
use esp32_remote_boot.Rbdiscover.Encoding.{strip, pad, signature_der}

-- the number that bytes stand for, the highest byte first
unfoldable pub big_endian : ℕ → Bytes → ℕ
big_endian acc [] = acc
big_endian acc (b ∷ bs) = big_endian (acc * 256 + b) bs

-- The shortest two's complement form of a number that is not negative.
pub data IsShortest : Bytes → Type 0 where
  single : {b : ℕ} → b < 128 → IsShortest (b ∷ [])
  plain : {b c : ℕ} {bs : Bytes} → 0 < b → b < 128 → IsShortest (b ∷ c ∷ bs)
  padded : {b : ℕ} {bs : Bytes} → 128 ≤ b → IsShortest (0 ∷ b ∷ bs)

pub record IsInteger (x bytes : Bytes) : Type 0 where
  pub shortest : IsShortest x
  pub same_value : big_endian 0 x ≡ big_endian 0 bytes
  pub room : length x ≤ length bytes + 1

strip-big_endian : (bs : Bytes) → big_endian 0 (strip bs) ≡ big_endian 0 bs
unfolding strip big_endian
strip-big_endian [] = refl
strip-big_endian (b ∷ []) = refl
strip-big_endian (b ∷ c ∷ bs) = ground (arith, strip-big_endian (c ∷ bs))

pad-big_endian : (bs : Bytes) → big_endian 0 (pad bs) ≡ big_endian 0 bs
unfolding pad big_endian
pad-big_endian [] = refl
pad-big_endian (b ∷ bs) = ground arith

length-strip : (bs : Bytes) → length (strip bs) ≤ length bs
unfolding strip
length-strip [] = omega arith
length-strip (b ∷ []) = omega arith
length-strip (b ∷ c ∷ bs) = ground (arith, length-strip (c ∷ bs))

length-pad : (bs : Bytes) → length (pad bs) ≤ length bs + 1
unfolding pad
length-pad [] = omega arith
length-pad (b ∷ bs) = ground arith

IsShortest-pad : (b c : ℕ) (bs : Bytes) → 0 < b → IsShortest (pad (b ∷ c ∷ bs))
unfolding pad
IsShortest-pad b c bs h = elim (Bool-cases (leb 128 b)) [
  | inl big ↦ rw big (padded (ground arith))
  | inr small ↦ rw small (plain h (ground arith))
]

IsShortest-pad-strip : (b : ℕ) (bs : Bytes) → IsShortest (pad (strip (b ∷ bs)))
unfolding strip
IsShortest-pad-strip b [] = elim (Bool-cases (leb 128 b)) [
  | inl big ↦ unfold pad in rw big (padded (ground arith))
  | inr small ↦ unfold pad in rw small (single (ground arith))
]
IsShortest-pad-strip b (c ∷ bs) = elim (Bool-cases (b == 0)) [
  | inl z ↦ rw z (IsShortest-pad-strip c bs)
  | inr nz ↦ rw nz (IsShortest-pad b c bs (ground arith))
]

pad-strip-IsInteger : (bs : Bytes) → 0 < length bs → IsInteger (pad (strip bs)) bs
pad-strip-IsInteger [] h = elim h [ ]
pad-strip-IsInteger (b ∷ bs) h = record {
  shortest = IsShortest-pad-strip b bs;
  same_value = pad-big_endian (strip (b ∷ bs)) ∙ strip-big_endian (b ∷ bs);
  room = omega (arith, length-pad (strip (b ∷ bs)), length-strip (b ∷ bs));
}

-- A signature of 64 bytes becomes a DER sequence of two integers: the halves' values, big-endian,
-- each in its shortest form. The length bytes are exact, and the whole has at most 72 bytes, the
-- size of the caller's buffer.
pub signature_der-IsInteger :
    (sig : Bytes)
    → length sig ≡ 64
    → (x : Bytes) × (y : Bytes) × (signature_der sig
        ≡ value (0x30 ∷ (4 + length x + length y) ∷ 0x02 ∷ length x ∷ (x ++ (0x02 ∷ length y ∷ y))))
      × IsInteger x (take 32 sig)
      × IsInteger y (drop 32 sig)
      × (6 + length x + length y ≤ 72)
unfolding signature_der
signature_der-IsInteger sig h =
    let s = drop 32 sig in
    let x = pad (strip (take 32 sig)) in
    let y = pad (strip s) in
    let rs : length (take 32 sig) ≡ 32 = omega (arith, length-take 32 sig) in
    let ss : length s ≡ 32 = omega (arith, length-drop 32 sig) in
    let ix = pad-strip-IsInteger (take 32 sig) (omega arith) in
    let iy = pad-strip-IsInteger s (omega arith) in
    let rx = ix.room in
    let ry = iy.room in (x, y, ground (arith, take_all 32 s), ix, iy, omega arith)

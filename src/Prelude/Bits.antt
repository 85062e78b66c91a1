-- ===== src/Prelude/Bits.antt =====
-- Exclusive or at every width: one binary digit at a time, and a key taken away again.
use Prim.Native.Nat.{
  ℕ, zero, suc, ◌+◌, ◌-◌, ◌*◌, ◌/◌, ◌%◌, ◌≤◌, ◌<◌, ◌^◌, bit_xor, digits, differ, bit_xor-bitwise,
}
use mathlib.Core.Path.{◌≡◌, refl, sym, ap, ◌∙◌}
use native.Mathlib.Nat.{pow-suc}
use native.Mathlib.Omega.{arith}

abbrev xor_digits : ℕ → ℕ → ℕ → ℕ
xor_digits n a b = digits (λ y. y) differ n a b

-- more digits to go than the number has do not matter
xor_digits_spare : (a n spare b : ℕ) → a ≤ n → xor_digits (n + spare) a b ≡ xor_digits n a b
xor_digits_spare a zero zero b h = refl
xor_digits_spare zero zero (suc spare) b h =
    let e : 0 + suc spare ≡ suc spare = omega arith in ap (λ m. xor_digits m 0 b) e
xor_digits_spare (suc a) zero (suc spare) b h = absurd (omega arith)
xor_digits_spare zero (suc n) spare b h =
    let e : suc n + spare ≡ suc (n + spare) = omega arith in ap (λ m. xor_digits m 0 b) e
xor_digits_spare (suc a) (suc n) spare b h =
    let m : suc n + spare ≡ suc (n + spare) = omega arith in
    ap (λ k. xor_digits k (suc a) b) m
    ∙ ap (λ t. t * 2 + differ (suc a % 2) (b % 2))
        (xor_digits_spare (suc a / 2) n spare (b / 2) (omega arith))

pub bit_xor_digit : (a b : ℕ) → bit_xor a b ≡ bit_xor (a / 2) (b / 2) * 2 + differ (a % 2) (b % 2)
bit_xor_digit zero b = simp bit_xor-bitwise (omega arith)
bit_xor_digit (suc a) b =
    let spare : suc a / 2 + (a - suc a / 2) ≡ a = omega arith in
    let lean = xor_digits_spare (suc a / 2) (suc a / 2) (a - suc a / 2) (b / 2) (omega arith) in
    simp bit_xor-bitwise (
      ap (λ t. t * 2 + differ (suc a % 2) (b % 2))
        (ap (λ k. xor_digits k (suc a / 2) (b / 2)) (sym spare) ∙ lean))

differ_twice : (a b : ℕ) → a < 2 → b < 2 → differ (differ a b) b ≡ a
differ_twice zero zero h k = refl
differ_twice zero (suc zero) h k = refl
differ_twice (suc zero) zero h k = refl
differ_twice (suc zero) (suc zero) h k = refl
differ_twice (suc (suc a)) b h k = absurd (omega arith)
differ_twice a (suc (suc b)) h k = absurd (omega arith)

differ_bit : (a b : ℕ) → a < 2 → b < 2 → differ a b < 2
differ_bit zero b h k = k
differ_bit (suc zero) zero h k = omega arith
differ_bit (suc zero) (suc zero) h k = omega arith
differ_bit (suc (suc a)) b h k = absurd (omega arith)
differ_bit a (suc (suc b)) h k = absurd (omega arith)

xor_twice_within : (n a b : ℕ) → a ≤ n → b ≤ n → bit_xor (bit_xor a b) b ≡ a
xor_twice_within zero zero zero h k = refl
xor_twice_within zero zero (suc b) h k = absurd (omega arith)
xor_twice_within zero (suc a) b h k = absurd (omega arith)
xor_twice_within (suc n) a b h k =
    let low : differ (a % 2) (b % 2) < 2 = differ_bit (a % 2) (b % 2) (omega arith) (omega arith) in
    let outer = bit_xor_digit (bit_xor a b) b in
    let inner = bit_xor_digit a b in
    let high : bit_xor a b / 2 ≡ bit_xor (a / 2) (b / 2) = omega (arith, inner, low) in
    let digit : bit_xor a b % 2 ≡ differ (a % 2) (b % 2) = omega (arith, inner, low) in
    let rest = xor_twice_within n (a / 2) (b / 2) (omega arith) (omega arith) in
    outer
    ∙ ap (λ x. bit_xor x (b / 2) * 2 + differ (bit_xor a b % 2) (b % 2)) high
    ∙ ap (λ d. bit_xor (bit_xor (a / 2) (b / 2)) (b / 2) * 2 + differ d (b % 2)) digit
    ∙ omega (arith, rest, differ_twice (a % 2) (b % 2) (omega arith) (omega arith))

-- A number taken with a key, and with it again, is the number.
pub bit_xor_twice : (a b : ℕ) → bit_xor (bit_xor a b) b ≡ a
bit_xor_twice a b = xor_twice_within (a + b) a b (omega arith) (omega arith)

-- Exclusive or stays in the width of its arguments.
pub bit_xor_bound : (k a b : ℕ) → a < 2 ^ k → b < 2 ^ k → bit_xor a b < 2 ^ k
bit_xor_bound zero a b h l =
    let e : a ≡ 0 = omega arith in let e' : b ≡ 0 = omega arith in rw (e, e') (omega arith)
bit_xor_bound (suc k) a b h l =
    let p : 2 ^ suc k ≡ 2 * 2 ^ k = omega (arith, pow-suc 2 k) in
    omega (
      arith,
      p,
      bit_xor_digit a b,
      differ_bit (a % 2) (b % 2) (omega arith) (omega arith),
      bit_xor_bound k (a / 2) (b / 2) (omega (arith, p)) (omega (arith, p)),
    )

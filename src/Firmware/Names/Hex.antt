-- ===== src/Firmware/Names/Hex.antt =====
-- What the texts must be: equal tokens, and ids of four hexadecimal digits.
use Prim.Native.Nat.{bit_xor, differ, ◌/◌}
use esp32_remote_boot.Prelude.Digits.{digit_value, four_digits}
use esp32_remote_boot.Prelude.{
  ℕ, zero, suc, ◌%◌, ◌≤◌, ◌<◌, ◌≡◌, ◌≢◌, ◌↔◌, refl, sym, ap, ap₂, ◌∙◌, true, false, none, some,
  List, [], ◌∷◌, length, bit_xor_digit, bit_xor_twice, arith,
}
use esp32_remote_boot.Firmware.Names.{
  hex_value_of, parse_digits, parse_id, no_difference, token_equal,
}

differ_self : (d : ℕ) → d < 2 → differ d d ≡ 0
differ_self zero h = refl
differ_self (suc zero) h = refl
differ_self (suc (suc d)) h = absurd (omega arith)

xor_self_within : (n a : ℕ) → a ≤ n → bit_xor a a ≡ 0
xor_self_within zero zero h = refl
xor_self_within zero (suc a) h = absurd (omega arith)
xor_self_within (suc n) a h =
    bit_xor_digit a a
    ∙ omega (arith, xor_self_within n (a / 2) (omega arith), differ_self (a % 2) (omega arith))

xor_zero : (a b : ℕ) → bit_xor a b ≡ 0 → a ≡ b
xor_zero a b h =
    sym (bit_xor_twice a b)
    ∙ ap (λ x. bit_xor x b) (h ∙ sym (xor_self_within b b (omega arith)))
    ∙ bit_xor_twice b b

no_difference_sound :
    (xs ys : List ℕ) → length xs ≡ length ys → no_difference xs ys ≡ true → xs ≡ ys
unfolding no_difference
no_difference_sound [] [] l h = refl
no_difference_sound [] (y ∷ ys) l h = absurd (omega arith)
no_difference_sound (x ∷ xs) [] l h = absurd (omega arith)
no_difference_sound (x ∷ xs) (y ∷ ys) l h =
    ap₂ ◌∷◌ (xor_zero x y (ground arith)) (no_difference_sound xs ys (omega arith) (ground arith))

no_difference_refl : (xs : List ℕ) → no_difference xs xs ≡ true
unfolding no_difference
no_difference_refl [] = refl
no_difference_refl (x ∷ xs) =
    ground (arith, no_difference_refl xs, xor_self_within x x (omega arith))

-- Two texts are equal tokens exactly when they are the same text and it is not empty; with a null
-- pointer they never are.
pub token_equal_iff :
    (xs ys : List ℕ)
    → ((token_equal (some xs) (some ys) ≡ true) ↔ ((xs ≡ ys) × (ys ≢ [])))
      × (token_equal (some xs) none ≡ false)
      × (token_equal none (some ys) ≡ false)
      × (token_equal none none ≡ false)
unfolding token_equal
token_equal_iff xs ys = (whole xs ys, refl, refl, refl)
  where
    whole : (xs ys : List ℕ) → (token_equal (some xs) (some ys) ≡ true) ↔ ((xs ≡ ys) × (ys ≢ []))
    whole xs [] = ((λ h. absurd (ground arith)), (λ h. absurd (h.1 refl)))
    whole xs (y ∷ ys) = (
      (λ h.
          let l = xor_zero (length xs) (length (y ∷ ys)) (ground arith) in
          (no_difference_sound xs (y ∷ ys) l (ground arith), λ e. cc)),
      (λ h. rw h.0 (
          ground (
            arith,
            no_difference_refl (y ∷ ys),
            xor_self_within (length (y ∷ ys)) (length (y ∷ ys)) (omega arith),
          ))),
    )

nibble_value : (c : ℕ) → hex_value_of c ≡ digit_value c
unfolding hex_value_of digit_value
nibble_value c = ground arith

-- A boot id is read exactly as the number that four hexadecimal digits of either case say; any other text is
-- refused, and so is a null pointer.
pub parse_id-four_digits :
    (s : List ℕ) → (parse_id (some s) ≡ four_digits s) × (parse_id none ≡ none)
unfolding parse_id parse_digits four_digits
parse_id-four_digits (a ∷ b ∷ c ∷ d ∷ []) =
    (ground (arith, nibble_value a, nibble_value b, nibble_value c, nibble_value d), refl)
parse_id-four_digits [] = (refl, refl)
parse_id-four_digits (a ∷ []) = (refl, refl)
parse_id-four_digits (a ∷ b ∷ []) = (refl, refl)
parse_id-four_digits (a ∷ b ∷ c ∷ []) = (refl, refl)
parse_id-four_digits (a ∷ b ∷ c ∷ d ∷ e ∷ s) = (ground arith, refl)

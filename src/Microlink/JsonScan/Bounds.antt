-- ===== src/Microlink/JsonScan/Bounds.antt =====
-- What the scanner passes: it ends, and a scan that succeeds has passed a byte at least.
use esp32_remote_boot.Prelude.{
  ℕ, zero, suc, ◌+◌, ◌≤◌, ◌<◌, ◌≡◌, ◌⊎◌, inl, inr, refl, ap, true, Option, none, some, Option-cases,
  [], ◌∷◌, length, Bytes, Access, Access-cases, value, returns, arith,
}
use esp32_remote_boot.Microlink.JsonScan.{
  skip_space, Mode, plain, escaped, digits, string_from, skip_string, skip_digits, some_digits,
  skip_sign, exponent, fraction, whole_number, skip_number, next_item, After, closed, next, bad,
  after_item, items, brackets, member, skip_array, skip_object, literal, skip_scalar,
  skip_value_depth, skip_value, object_valid,
}

pub skip_space-le : (p : Bytes) → length (skip_space p) ≤ length p
unfolding skip_space
skip_space-le [] = omega arith
skip_space-le (b ∷ p) = ground (arith, skip_space-le p)

string_from-lt : (m : Mode) (p q : Bytes) → string_from m p ≡ some q → length q < length p
unfolding string_from
string_from-lt m [] q h = ground arith
string_from-lt plain (b ∷ p) q h =
    ground (arith, string_from-lt escaped p q, string_from-lt plain p q)
string_from-lt escaped (b ∷ p) q h =
    ground (arith, string_from-lt (digits 3) p q, string_from-lt plain p q)
string_from-lt (digits zero) (b ∷ p) q h = ground (arith, string_from-lt plain p q)
string_from-lt (digits (suc n)) (b ∷ p) q h = ground (arith, string_from-lt (digits n) p q)

pub skip_string-lt : (p q : Bytes) → skip_string p ≡ some q → length q < length p
unfolding skip_string
skip_string-lt [] q h = ground arith
skip_string-lt (b ∷ p) q h = ground (arith, string_from-lt plain p q)

skip_digits-le : (p : Bytes) → length (skip_digits p) ≤ length p
unfolding skip_digits
skip_digits-le [] = omega arith
skip_digits-le (b ∷ p) = ground (arith, skip_digits-le p)

some_digits-lt : (p q : Bytes) → some_digits p ≡ some q → length q < length p
unfolding some_digits
some_digits-lt [] q h = ground arith
some_digits-lt (b ∷ p) q h = ground (arith, skip_digits-le p)

skip_sign-le : (p : Bytes) → length (skip_sign p) ≤ length p
unfolding skip_sign
skip_sign-le [] = omega arith
skip_sign-le (b ∷ p) = ground arith

exponent-le : (p q : Bytes) → exponent p ≡ some q → length q ≤ length p
unfolding exponent
exponent-le [] q h = ground arith
exponent-le (b ∷ p) q h = ground (arith, some_digits-lt (skip_sign p) q, skip_sign-le p)

fraction-le : (p q : Bytes) → fraction p ≡ some q → length q ≤ length p
unfolding fraction
fraction-le [] q h = ground arith
fraction-le (b ∷ p) q h = elim (Option-cases (some_digits p)) [
  | inl e ↦ ground (arith, exponent-le (b ∷ p) q)
  | inr (r, e) ↦ ground (arith, exponent-le (b ∷ p) q, exponent-le r q, some_digits-lt p r e)
]

whole_number-lt : (p q : Bytes) → whole_number p ≡ some q → length q < length p
unfolding whole_number
whole_number-lt [] q h = ground arith
whole_number-lt (b ∷ p) q h =
    ground (arith, fraction-le p q, fraction-le (skip_digits p) q, skip_digits-le p)

skip_number-lt : (p q : Bytes) → skip_number p ≡ some q → length q < length p
unfolding skip_number
skip_number-lt [] q h = ground arith
skip_number-lt (b ∷ p) q h = ground (arith, whole_number-lt p q, whole_number-lt (b ∷ p) q)

literal-le : (cs p q : Bytes) → literal cs p ≡ some q → length q + length cs ≡ length p
unfolding literal
literal-le [] p q h = ground arith
literal-le (c ∷ cs) [] q h = ground arith
literal-le (c ∷ cs) (b ∷ p) q h = ground (arith, literal-le cs p q)

skip_scalar-lt : (p q : Bytes) → skip_scalar p ≡ some q → length q < length p
unfolding skip_scalar
skip_scalar-lt p q h = ground (
  arith,
  literal-le (b't' ∷ b'r' ∷ b'u' ∷ b'e' ∷ []) p q,
  literal-le (b'f' ∷ b'a' ∷ b'l' ∷ b's' ∷ b'e' ∷ []) p q,
  literal-le (b'n' ∷ b'u' ∷ b'l' ∷ b'l' ∷ []) p q,
  skip_number-lt p q,
)

next_item-le : (close : ℕ) (p r : Bytes) → next_item close p ≡ some r → length r ≤ length p
unfolding next_item
next_item-le close p r h = ground (arith, skip_space-le p)

pub Bytes-cases : (p : Bytes) → (p ≡ []) ⊎ ((b : ℕ) × (q : Bytes) × (p ≡ b ∷ q))
Bytes-cases [] = inl refl
Bytes-cases (b ∷ q) = inr (b, q, refl)

After-cases :
    (a : After) → (a ≡ bad) ⊎ (((r : Bytes) × (a ≡ closed r)) ⊎ ((r : Bytes) × (a ≡ next r)))
After-cases bad = inl refl
After-cases (closed r) = inr (inl (r, refl))
After-cases (next r) = inr (inr (r, refl))

after_item-lt :
    (close : ℕ) (p r : Bytes)
    → (after_item close p ≡ closed r) ⊎ (after_item close p ≡ next r)
    → length r < length p
unfolding after_item
after_item-lt close p r h = elim (Bytes-cases (skip_space p)) [
  | inl e ↦ ground (arith, e)
  | inr (b, q, e) ↦
      let size : length q < length p = omega (arith, skip_space-le p, ap length e) in
      elim (Option-cases (next_item close q)) [
        | inl e' ↦ ground arith
        | inr (t, e') ↦ ground (arith, next_item-le close q t e')
      ]
]

-- a scan that ends, and passes a byte at least where it succeeds
pub record Passes (scan : Bytes → Access (Option Bytes)) : Type 0 where
  pub ends : (p : Bytes) → returns (scan p) ≡ true
  pub ahead : (p q : Bytes) → scan p ≡ value (some q) → length q < length p

module _ (scan : Bytes → Access (Option Bytes)) (s : Passes scan) where
  member-Passes : Passes (member scan)
  unfolding member
  member-Passes = record {
    ends = λ p. elim (Option-cases (skip_string p)) [
      | inl e ↦ ground arith
      | inr (r, e) ↦ elim (Bytes-cases (skip_space r)) [
        | inl e' ↦ ground arith
        | inr (b, t, e') ↦ ground (arith, s.ends t)
      ]
    ];
    ahead = λ p q h. elim (Option-cases (skip_string p)) [
      | inl e ↦ absurd (ground arith)
      | inr (r, e) ↦ elim (Bytes-cases (skip_space r)) [
        | inl e' ↦ absurd (ground arith)
        | inr (b, t, e') ↦
            ground (arith, skip_string-lt p r e, skip_space-le r, ap length e', s.ahead t q)
      ]
    ];
  }

  items-returns :
      (close fuel : ℕ) (p : Bytes) → length p < fuel → returns (items close scan fuel p) ≡ true
  unfolding items
  items-returns close zero p l = absurd (omega arith)
  items-returns close (suc fuel) p l = elim (Access-cases (scan p)) [
    | inl e ↦ ground (arith, s.ends p)
    | inr (none, e) ↦ ground arith
    | inr (some q, e) ↦ elim (After-cases (after_item close q)) [
      | inl e' ↦ ground arith
      | inr (inl (r, e')) ↦ ground arith
      | inr (inr (r, e')) ↦
          let less : length r < fuel =
            omega (arith, s.ahead p q e, after_item-lt close q r (inr e')) in
          ground (arith, items-returns close fuel r less)
    ]
  ]

  items-lt :
      (close fuel : ℕ) (p t : Bytes)
      → items close scan fuel p ≡ value (some t)
      → length t < length p
  unfolding items
  items-lt close zero p t h = absurd (cc h)
  items-lt close (suc fuel) p t h = elim (Access-cases (scan p)) [
    | inl e ↦ absurd (ground arith)
    | inr (none, e) ↦ absurd (ground arith)
    | inr (some q, e) ↦ elim (After-cases (after_item close q)) [
      | inl e' ↦ absurd (ground arith)
      | inr (inl (r, e')) ↦ ground (arith, s.ahead p q e, after_item-lt close q r (inl e'))
      | inr (inr (r, e')) ↦
          ground (arith, s.ahead p q e, after_item-lt close q r (inr e'), items-lt close fuel r t)
    ]
  ]

  brackets-Passes : (close : ℕ) → Passes (brackets close scan)
  unfolding brackets
  brackets-Passes close = record {
    ends = λ p. elim (Bytes-cases (skip_space p)) [
      | inl e ↦ ground (arith, items-returns close 1 [] (omega arith))
      | inr (b, q, e) ↦
          ground (arith, items-returns close (suc (suc (length q))) (b ∷ q) (omega arith))
    ];
    ahead = λ p t h. elim (Bytes-cases (skip_space p)) [
      | inl e ↦ absurd (ground (arith, items-lt close 1 [] t))
      | inr (b, q, e) ↦
          ground
            (arith, skip_space-le p, ap length e, items-lt close (suc (suc (length q))) (b ∷ q) t)
    ];
  }

skip_array-Passes : (scan : Bytes → Access (Option Bytes)) → Passes scan → Passes (skip_array scan)
unfolding skip_array
skip_array-Passes scan s =
    let b = brackets-Passes scan s b']' in record { ends = b.ends; ahead = b.ahead }

skip_object-Passes :
    (scan : Bytes → Access (Option Bytes)) → Passes scan → Passes (skip_object scan)
unfolding skip_object
skip_object-Passes scan s =
    let b = brackets-Passes (member scan) (member-Passes scan s) b'}' in
    record { ends = b.ends; ahead = b.ahead }

skip_value_depth-Passes : (left : ℕ) → Passes (skip_value_depth left)
unfolding skip_value_depth
skip_value_depth-Passes zero = record { ends = λ p. refl; ahead = λ p q h. absurd (cc h) }
skip_value_depth-Passes (suc left) =
    let s = skip_value_depth-Passes left in
    let a = skip_array-Passes (skip_value_depth left) s in
    let o = skip_object-Passes (skip_value_depth left) s in
    record {
      ends = λ p. elim (Bytes-cases (skip_space p)) [
        | inl e ↦ ground arith
        | inr (b, q, e) ↦ ground (arith, a.ends q, o.ends q)
      ];
      ahead = λ p t h. elim (Bytes-cases (skip_space p)) [
        | inl e ↦ absurd (ground arith)
        | inr (b, q, e) ↦ ground (
          arith,
          skip_space-le p,
          ap length e,
          a.ahead q t,
          o.ahead q t,
          skip_string-lt (b ∷ q) t,
          skip_scalar-lt (b ∷ q) t,
        )
      ];
    }

-- On any slice, however deep it is nested, the scan of a value ends, and when it passes a value it has
-- passed at least one byte.
pub skip_value-Passes :
    (p : Bytes)
    → (returns (skip_value p) ≡ true)
      × ((q : Bytes) → skip_value p ≡ value (some q) → length q < length p)
unfolding skip_value
skip_value-Passes p = let s = skip_value_depth-Passes 33 in (s.ends p, λ q h. s.ahead p q h)

-- `ml_json_object_valid` ends on any slice.
pub object_valid-returns : (p : Bytes) → returns (object_valid p) ≡ true
unfolding object_valid
object_valid-returns p = elim (Bytes-cases (skip_space p)) [
  | inl e ↦ ground arith
  | inr (b, q, e) ↦ ground (arith, (skip_value-Passes (b ∷ q)).0)
]

-- ===== src/Uefi/RemoteBoot/Arguments.antt =====
-- `parse_hex` and `argument`: reading the two numbers from the load options.
use esp32_remote_boot.Prelude.{
  ℕ, zero, suc, ◌+◌, ◌-◌, ◌*◌, ◌/◌, ◌%◌, ◌≤◌, ◌<◌, ◌≡◌, ◌≢◌, refl, ap, ◌∙◌, true, none, some, List,
  [], ◌∷◌, ◌++◌, inl, inr, Option-cases, ltb, if◌then◌else◌, length, length-append, drop, value,
  returns, arith,
}
use esp32_remote_boot.Prelude.Digits.{digit_value, four_digits}
use esp32_remote_boot.Uefi.RemoteBoot.{
  Argument, missing, invalid, found, parse_hex, hex_value, hex_digit, in_token, skip_blanks, token,
  is_prefix, after_token, argument_from, argument,
}

hex_char : ℕ → ℕ
hex_char d = if ltb d 10 then b'0' + d else b'A' + d - 10

-- four digits, capitals, the highest first
pub hex4 : ℕ → List ℕ
unfolding hex_char
hex4 v =
    hex_char (v / 4096) ∷ hex_char (v / 256 % 16) ∷ hex_char (v / 16 % 16) ∷ hex_char (v % 16) ∷ []

hex_digit-hex_char : (d : ℕ) → d < 16 → hex_digit (hex_char d) ≡ some d
unfolding hex_digit hex_char
hex_digit-hex_char d h = ground arith

hex_digit-lt : (c d : ℕ) → hex_digit c ≡ some d → d < 16
unfolding hex_digit
hex_digit-lt c d h = ground arith

hex_value-cons :
    (acc c v : ℕ) (cs : List ℕ)
    → hex_value acc (c ∷ cs) ≡ some v
    → (d : ℕ) × (d < 16) × (hex_value (acc * 16 + d) cs ≡ some v)
unfolding hex_value
hex_value-cons acc c v cs h = elim (Option-cases (hex_digit c)) [
  | inl bad ↦ absurd (ground arith)
  | inr (d, e) ↦ (d, hex_digit-lt c d e, ground arith)
]

-- Every number of sixteen bits, written as four hexadecimal digits, is read back.
pub parse_hex-hex4 : (v : ℕ) → v < 65536 → parse_hex (hex4 v) ≡ some v
unfolding parse_hex hex4
parse_hex-hex4 v h = ground (
  arith,
  hex_digit-hex_char (v / 4096),
  hex_digit-hex_char (v / 256 % 16),
  hex_digit-hex_char (v / 16 % 16),
  hex_digit-hex_char (v % 16),
)

-- Whatever is read has sixteen bits at most.
pub parse_hex-lt : (p : List ℕ) (v : ℕ) → parse_hex p ≡ some v → v < 65536
unfolding parse_hex
parse_hex-lt (a ∷ b ∷ c ∷ d ∷ []) v h =
    let (i, hi, e) = hex_value-cons 0 a v (b ∷ c ∷ d ∷ []) h in
    let (j, hj, e') = hex_value-cons (0 * 16 + i) b v (c ∷ d ∷ []) e in
    let (k, hk, e'') = hex_value-cons ((0 * 16 + i) * 16 + j) c v (d ∷ []) e' in
    let (l, hl, last) = hex_value-cons (((0 * 16 + i) * 16 + j) * 16 + k) d v [] e'' in
    let r : (((0 * 16 + i) * 16 + j) * 16 + k) * 16 + l ≡ v = unfold hex_value in ground arith in
    omega arith
parse_hex-lt _ v h = ground arith

hex_digit_value : (c : ℕ) → hex_digit c ≡ digit_value c
unfolding hex_digit digit_value
hex_digit_value c = ground arith

-- `parse_hex` reads exactly the numbers of four digits.
parse_hex-four_digits : (p : List ℕ) → parse_hex p ≡ four_digits p
unfolding parse_hex hex_value four_digits
parse_hex-four_digits (a ∷ b ∷ c ∷ d ∷ []) =
    ground (arith, hex_digit_value a, hex_digit_value b, hex_digit_value c, hex_digit_value d)
parse_hex-four_digits [] = ground arith
parse_hex-four_digits (a ∷ []) = ground arith
parse_hex-four_digits (a ∷ b ∷ []) = ground arith
parse_hex-four_digits (a ∷ b ∷ c ∷ []) = ground arith
parse_hex-four_digits (a ∷ b ∷ c ∷ d ∷ e ∷ s) = ground arith

-- a token that the loop finds: no blank in it, no NUL, and at least one unit
pub data IsToken : List ℕ → Type 0 where
  last : {c : ℕ} → in_token c ≡ true → IsToken (c ∷ [])
  more : {c : ℕ} {cs : List ℕ} → in_token c ≡ true → IsToken cs → IsToken (c ∷ cs)

abbrev pub AllTokens : List (List ℕ) → Type 0
AllTokens [] = Unit {0}
AllTokens (t ∷ ts) = IsToken t × AllTokens ts

-- the tokens with one space behind each
pub spaced : List (List ℕ) → List ℕ
spaced [] = []
spaced (t ∷ ts) = t ++ (b' ' ∷ spaced ts)

-- the tokens that begin with the key
unfoldable pub select : List ℕ → List (List ℕ) → List (List ℕ)
unfolding is_prefix
select key [] = []
select key (t ∷ ts) = if is_prefix key t then t ∷ select key ts else select key ts

-- what the selected tokens say: exactly one of them, with four hexadecimal digits behind the key
unfoldable pub chosen : List ℕ → List (List ℕ) → Argument
chosen key [] = missing
chosen key (t ∷ []) = elim (four_digits (drop (length key) t)) [ none ↦ invalid | some v ↦ found v ]
chosen key (t ∷ _ ∷ _) = invalid

skip_blanks-le : (p : List ℕ) → length (skip_blanks p) ≤ length p
unfolding skip_blanks
skip_blanks-le [] = omega arith
skip_blanks-le (c ∷ cs) = ground (arith, skip_blanks-le cs)

token_size : (p : List ℕ) → length (token p).0 + length (token p).1 ≡ length p
unfolding token
token_size [] = refl
token_size (c ∷ cs) = ground (arith, token_size cs)

argument_from-returns :
    (f : ℕ) (p key : List ℕ) (r : Argument)
    → length p < f
    → returns (argument_from f p key r) ≡ true
unfolding argument_from
argument_from-returns zero p key r h = elim h [ ]
argument_from-returns (suc f) p key r h =
    let (t, rest) = token (skip_blanks p) in
    ground (
      arith,
      argument_from-returns f rest key (after_token key t r),
      token_size (skip_blanks p),
      skip_blanks-le p,
    )

-- Whatever the load options are, the reading of an argument ends.
pub argument-returns : (p key : List ℕ) → returns (argument p key) ≡ true
unfolding argument
argument-returns p key = argument_from-returns (suc (length p)) p key missing (omega arith)

token-IsToken : (t rest : List ℕ) → IsToken t → token (t ++ (b' ' ∷ rest)) ≡ (t, b' ' ∷ rest)
unfolding token
token-IsToken _ rest (last h) = ground arith
token-IsToken _ rest (more {cs = cs} h t) = ground (arith, token-IsToken cs rest t)

-- The loop meets the next of the spaced tokens.
next_token :
    (t rest : List ℕ) → IsToken t → token (skip_blanks (t ++ (b' ' ∷ rest))) ≡ (t, b' ' ∷ rest)
unfolding skip_blanks
next_token _ rest (last {c} h) = ground (arith, token-IsToken (c ∷ []) rest (last h))
next_token _ rest (more {c} {cs} h t) = ground (arith, token-IsToken (c ∷ cs) rest (more h t))

-- what is known after some tokens, and then those that the key selects
abbrev combine : List ℕ → Argument → List (List ℕ) → Argument
combine key missing ts = chosen key ts
combine key (found v) [] = found v
combine key (found v) (_ ∷ _) = invalid
combine key invalid ts = invalid

combine_nil : (key : List ℕ) (r : Argument) → combine key r [] ≡ r
unfolding chosen
combine_nil key missing = refl
combine_nil key invalid = refl
combine_nil key (found v) = refl

combine_step :
    (key t : List ℕ) (r : Argument) (sel : List (List ℕ))
    → r ≢ invalid
    → combine key r (if is_prefix key t then t ∷ sel else sel)
      ≡ combine key (after_token key t r) sel
unfolding chosen after_token
combine_step key t missing [] n = ground (arith, parse_hex-four_digits (drop (length key) t))
combine_step key t missing (x ∷ sel) n = ground (arith, parse_hex-four_digits (drop (length key) t))
combine_step key t invalid sel n = absurd (n refl)
combine_step key t (found v) [] n = ground arith
combine_step key t (found v) (x ∷ sel) n = ground arith

IsToken-ne_nil : (t : List ℕ) → IsToken t → t ≢ []
IsToken-ne_nil _ (last h) = cc
IsToken-ne_nil _ (more h t) = cc

argument_from-spaced :
    (ts : List (List ℕ)) (f : ℕ) (p key : List ℕ) (r : Argument)
    → skip_blanks p ≡ skip_blanks (spaced ts)
    → AllTokens ts
    → length ts < f
    → r ≢ invalid
    → argument_from f p key r ≡ value (combine key r (select key ts))
unfolding argument_from spaced select skip_blanks token
argument_from-spaced ts zero p key r e h l n = elim l [ ]
argument_from-spaced [] (suc f) p key r e h l n = ground (arith, combine_nil key r)
argument_from-spaced (t ∷ ts) (suc f) p key r e h l n =
    let p' = b' ' ∷ spaced ts in
    let r' = after_token key t r in
    let step = combine_step key t r (select key ts) n in
    let first = ap token e ∙ next_token t (spaced ts) h.0 in
    ground (arith, step, first, IsToken-ne_nil t h.0, argument_from-spaced ts f p' key r' refl h.1)

length-spaced : (ts : List (List ℕ)) → length ts ≤ length (spaced ts)
unfolding spaced
length-spaced [] = omega arith
length-spaced (t ∷ ts) = omega (arith, length-append t (b' ' ∷ spaced ts), length-spaced ts)

-- On tokens with a space behind each, `argument` gives the number of the only token that begins
-- with the key: the number that exactly four hexadecimal digits behind the key say. It is missing where
-- no token does, and invalid where several do, or where anything else stands behind the key.
pub argument-spaced :
    (ts : List (List ℕ)) (key : List ℕ)
    → AllTokens ts
    → argument (spaced ts) key ≡ value (chosen key (select key ts))
unfolding argument
argument-spaced ts key h =
    argument_from-spaced ts (suc (length (spaced ts))) (spaced ts) key missing refl h
      (omega (arith, length-spaced ts)) (λ e. cc)

-- ===== src/Uefi/LoadOption/Format.antt =====
-- The value of a Boot#### variable: what `rb_parse_option` accepts, and what it returns.
use esp32_remote_boot.Prelude.{
  ℕ, zero, suc, ◌+◌, ◌-◌, ◌*◌, ◌/◌, ◌%◌, ◌^◌, ◌≤◌, ◌<◌, ◌≡◌, ◌≢◌, ◌↔◌, refl, ap, ◌∙◌, true, [], ◌∷◌,
  ◌++◌, inl, inr, ◌==◌, Bool-cases, length, take, drop, Option, some, none, length-drop,
  length-take, length-append, drop-length_append, take-length_append, AllBytes, AllBytes-append,
  split_three, take_prefix, take_all, Bytes, value, returns, read_at, length_at, drop_at,
  Access-cases, arith,
}
use esp32_remote_boot.Uefi.LoadOption.{
  RbOption, u16, u32, path_valid, path_valid_from, description_end, parse_option,
}
use esp32_remote_boot.Uefi.LoadOption.Path.{u16-returns, path_valid-returns}

description_end-returns :
    (f : ℕ) (p : Bytes) (end : ℕ) → length p - end < f → returns (description_end f p end) ≡ true
unfolding description_end
description_end-returns zero p end h = elim h [ ]
description_end-returns (suc f) p end h =
    ground (arith, u16-returns p end, description_end-returns f p (end + 2))

description_end-le : (f : ℕ) (p : Bytes) (end e : ℕ) → description_end f p end ≡ value e → end ≤ e
unfolding description_end
description_end-le zero p end e h = cc
description_end-le (suc f) p end e h = ground (arith, description_end-le f p (end + 2) e)

-- UTF-16 text whose only NUL is its last unit
pub data IsDescription : Bytes → Type 0 where
  nul : IsDescription (0 ∷ 0 ∷ [])
  unit :
      {bs : Bytes} (low high : ℕ)
      → low + 256 * high ≢ 0
      → IsDescription bs
      → IsDescription (low ∷ high ∷ bs)

-- Where the bytes from `end` on begin with a description, `e` is the place of its NUL.
record Described (q : Bytes) (end e : ℕ) : Type 0 where
  text : Bytes
  rest : Bytes
  described : IsDescription text
  splits : q ≡ text ++ rest
  ends : e + 2 ≡ end + length text

description_end-Described :
    (f : ℕ) (p : Bytes) (end : ℕ) (q : Bytes) {e : ℕ}
    → drop end p ≡ q
    → description_end f p end ≡ value e
    → e + 2 ≤ length p
    → Described q end e
unfolding description_end u16
description_end-Described zero p end q d h l = cc
description_end-Described (suc f) p end [] d h l = absurd (ground (arith, length_at p end d))
description_end-Described (suc f) p end (a ∷ []) d h l = absurd (ground (arith, length_at p end d))
description_end-Described (suc f) p end (a ∷ b ∷ r) {e} d h l =
    elim (Bool-cases (a + 256 * b == 0)) [
      | inl last ↦ record {
        text = a ∷ b ∷ [];
        rest = r;
        described =
            let za : a ≡ 0 = ground arith in let zb : b ≡ 0 = ground arith in rw (za, zb) nul;
        splits = refl;
        ends =
            ground (arith, length_at p end d, read_at p end 0 end d, read_at p end 1 (end + 1) d);
      }
      | inr more ↦
          let later =
            description_end-Described f p (end + 2) r (drop_at p end 2 (end + 2) d refl)
              (ground
                (arith, length_at p end d, read_at p end 0 end d, read_at p end 1 (end + 1) d))
              l in
          record {
            text = a ∷ b ∷ later.text;
            rest = later.rest;
            described = unit a b (ground arith) later.described;
            splits = ap (λ s. a ∷ b ∷ s) later.splits;
            ends = omega (arith, later.ends);
          }
    ]

description_end-finds :
    (f : ℕ) (p : Bytes) (end : ℕ) (d rest : Bytes)
    → drop end p ≡ d ++ rest
    → IsDescription d
    → length d < f
    → description_end f p end ≡ value (end + length d - 2)
unfolding description_end u16
description_end-finds zero p end d rest e h l = elim l [ ]
description_end-finds (suc f) p end _ rest e nul l =
    ground (arith, length_at p end e, read_at p end 0 end e, read_at p end 1 (end + 1) e)
description_end-finds (suc f) p end _ rest e (unit {bs} low high ne t) l = ground (
  arith,
  length_at p end e,
  read_at p end 0 end e,
  read_at p end 1 (end + 1) e,
  description_end-finds f p (end + 2) bs rest (drop_at p end 2 (end + 2) e refl) t,
)

-- The layout of a load option: attributes, size of the path, description, path, optional data.
pub encode_option : RbOption → Bytes
encode_option o =
    o.attributes % 256
    ∷ o.attributes / 256 % 256
    ∷ o.attributes / 65536 % 256
    ∷ o.attributes / 16777216
    ∷ length o.path % 256
    ∷ length o.path / 256
    ∷ (o.description ++ (o.path ++ o.optional))

pub record IsOption (o : RbOption) : Type 0 where
  pub attributes_in : o.attributes < 2 ^ 32
  pub description_ends : IsDescription o.description
  pub path_sized : length o.path < 65536
  pub path_valid_is : path_valid o.path ≡ value true

IsDescription-size : {d : Bytes} → IsDescription d → 2 ≤ length d
IsDescription-size nul = omega arith
IsDescription-size (unit low high ne t) = omega (arith, IsDescription-size t)

-- a valid path has room for its end node
path_size : (p : Bytes) → path_valid p ≡ value true → 4 ≤ length p
unfolding path_valid path_valid_from
path_size p h = ground arith

-- The check of a load option reads only inside its bytes, and ends, on every input.
pub parse_option-returns : (p : Option Bytes) → returns (parse_option p) ≡ true
unfolding parse_option u32
parse_option-returns none = refl
parse_option-returns (some p) = elim (Access-cases (description_end (suc (length p)) p 6)) [
  | inl bad ↦ ground (arith, description_end-returns (suc (length p)) p 6)
  | inr (end, found) ↦ elim (Access-cases (u16 p 4)) [
    | inl bad ↦ ground (arith, u16-returns p 4)
    | inr (len, path_at) ↦ ground (
      arith,
      description_end-le (suc (length p)) p 6 end found,
      path_valid-returns (take len (drop (end + 2) p)),
      u16-returns p 0,
      u16-returns p (0 + 2),
    )
  ]
]

-- what the steps of a successful parse have found
record Parsed (p : Bytes) (o : RbOption) : Type 0 where
  end : ℕ
  path_len : ℕ
  size : length p ≤ 65536
  found : description_end (suc (length p)) p 6 ≡ value end
  ends : end + 2 ≤ length p
  path_size_at : u16 p 4 ≡ value path_len
  path_in : end + 2 + path_len ≤ length p
  attributes_is : u32 p 0 ≡ value o.attributes
  description_is : o.description ≡ take (end + 2 - 6) (drop 6 p)
  path_is : o.path ≡ take path_len (drop (end + 2) p)
  optional_is : o.optional ≡ take (length p - (end + 2) - path_len) (drop (end + 2 + path_len) p)
  valid : path_valid o.path ≡ value true

parse_option-Parsed :
    (p : Bytes) (o : RbOption) → parse_option (some p) ≡ value (some o) → Parsed p o
unfolding parse_option
parse_option-Parsed p o h = elim (Access-cases (description_end (suc (length p)) p 6)) [
  | inl bad ↦ absurd (ground arith)
  | inr (end, found) ↦ elim (Access-cases (u16 p 4)) [
    | inl bad ↦ absurd (ground arith)
    | inr (len, path_at) ↦ elim (Access-cases (u32 p 0)) [
      | inl bad ↦ absurd (ground arith)
      | inr (att, att_at) ↦ record {
        end = end;
        path_len = len;
        size = ground arith;
        found = found;
        ends = ground arith;
        path_size_at = path_at;
        path_in = ground arith;
        attributes_is = ground arith;
        description_is = ground arith;
        path_is = ground arith;
        optional_is = ground arith;
        valid = ground arith;
      }
    ]
  ]
]

-- The parts of a parsed option stand one behind the other after the header of six bytes.
split_option :
    (a b c d x y : ℕ) (r : Bytes) (o : RbOption)
    → Parsed (a ∷ b ∷ c ∷ d ∷ x ∷ y ∷ r) o
    → o.description ++ (o.path ++ o.optional) ≡ r
unfolding u16
split_option a b c d x y r o f =
    let p = a ∷ b ∷ c ∷ d ∷ x ∷ y ∷ r in
    let n = f.end + 2 - 6 in
    let behind =
      drop_at p 6 n (f.end + 2) {q = r} refl
        (omega (arith, description_end-le _ p 6 f.end f.found)) in
    let rest = drop_at p (f.end + 2) f.path_len (f.end + 2 + f.path_len) behind refl in
    ground (
      arith,
      behind,
      rest,
      description_end-le (suc (length p)) p 6 f.end f.found,
      split_three n f.path_len (length p - (f.end + 2) - f.path_len) r,
    )

Parsed-IsDescription :
    (a b c d x y : ℕ) (r : Bytes) (o : RbOption)
    → Parsed (a ∷ b ∷ c ∷ d ∷ x ∷ y ∷ r) o
    → IsDescription o.description
Parsed-IsDescription a b c d x y r o f =
    let s = description_end-Described _ (a ∷ b ∷ c ∷ d ∷ x ∷ y ∷ r) 6 r refl f.found f.ends in
    let e : o.description ≡ s.text =
      f.description_is
      ∙ ap (take (f.end + 2 - 6)) s.splits
      ∙ take_prefix (f.end + 2 - 6) s.text s.rest (omega (arith, s.ends)) in
    rw e s.described

Parsed-layout :
    (a b c d x y : ℕ) (r : Bytes) (o : RbOption)
    → AllBytes (a ∷ b ∷ c ∷ d ∷ x ∷ y ∷ r)
    → Parsed (a ∷ b ∷ c ∷ d ∷ x ∷ y ∷ r) o
    → IsOption o × (a ∷ b ∷ c ∷ d ∷ x ∷ y ∷ r ≡ encode_option o)
unfolding u16 u32 encode_option
Parsed-layout a b c d x y r o bs f =
    let size : length o.path ≡ x + 256 * y = ground (
      arith,
      length-take f.path_len (drop (f.end + 2) (a ∷ b ∷ c ∷ d ∷ x ∷ y ∷ r)),
      length-drop (f.end + 2) (a ∷ b ∷ c ∷ d ∷ x ∷ y ∷ r),
    ) in
    let att : o.attributes ≡ a + 256 * b + 65536 * (c + 256 * d) = ground arith in
    (
      record {
        attributes_in = omega arith;
        description_ends = Parsed-IsDescription a b c d x y r o f;
        path_sized = omega arith;
        path_valid_is = f.valid;
      },
      ground (arith, split_option a b c d x y r o f),
    )

pub parse_option_sound :
    (p : Bytes) (o : RbOption)
    → AllBytes p
    → parse_option (some p) ≡ value (some o)
    → IsOption o × (p ≡ encode_option o)
parse_option_sound (a ∷ b ∷ c ∷ d ∷ x ∷ y ∷ r) o bs h =
    Parsed-layout a b c d x y r o bs (parse_option-Parsed _ o h)
parse_option_sound [] o bs h = unfold parse_option in cc
parse_option_sound _ o bs h = unfold parse_option in cc

parse_option-encode :
    (o : RbOption)
    → IsOption o
    → length (encode_option o) ≤ 65536
    → parse_option (some (encode_option o)) ≡ value (some o)
unfolding parse_option u16 u32 encode_option
parse_option-encode o h l =
    let r = o.description ++ (o.path ++ o.optional) in
    let p = encode_option o in
    let end = 6 + length o.description - 2 in
    let size = IsDescription-size h.description_ends in
    let total : length r ≡ length o.description + length o.path + length o.optional = omega (
      arith,
      length-append o.description (o.path ++ o.optional),
      length-append o.path o.optional,
    ) in
    let path_at : drop (end + 2) p ≡ o.path ++ o.optional =
      drop_at p 6 (length o.description) (end + 2) {q = r} refl (omega arith)
      ∙ drop-length_append o.description (o.path ++ o.optional) in
    let optional_at : drop (end + 2 + length o.path) p ≡ o.optional =
      drop_at p (end + 2) (length o.path) (end + 2 + length o.path) path_at refl
      ∙ drop-length_append o.path o.optional in
    ground (
      arith,
      size,
      path_at,
      optional_at,
      path_size o.path h.path_valid_is,
      description_end-finds (suc (length p)) p 6 o.description (o.path ++ o.optional) refl
          h.description_ends (omega arith),
      take-length_append o.path o.optional,
      take_prefix (end + 2 - 6) o.description (o.path ++ o.optional),
      take_all (length p - (end + 2) - length o.path) o.optional,
    )

-- Of at most 65536 bytes, the parse returns an option exactly when the bytes are its encoding and
-- the option is well-formed: a description that ends at its only NUL, a path that
-- `rb_path_valid` accepts, and attributes and a path size that fit their fields.
pub parse_option_iff :
    (p : Bytes) (o : RbOption)
    → AllBytes p
    → length p ≤ 65536
    → (parse_option (some p) ≡ value (some o)) ↔ (IsOption o × (p ≡ encode_option o))
parse_option_iff p o b l = (
  parse_option_sound p o b,
  λ (h, e). rw e (parse_option-encode o h (omega (arith, ap length e))),
)

pub parse_option-AllBytes :
    (p : Bytes) (o : RbOption) → AllBytes p → p ≡ encode_option o → AllBytes o.path
unfolding encode_option
parse_option-AllBytes p o b e =
    let b' : AllBytes (encode_option o) = rw e at b in
    (AllBytes-append o.path o.optional
      (AllBytes-append o.description (o.path ++ o.optional) b'.1.1.1.1.1.1).1).0

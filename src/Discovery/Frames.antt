-- ===== src/Discovery/Frames.antt =====
-- The frames that the validators accept: exactly the encodings of well-formed queries and replies.
use esp32_remote_boot.Prelude.{
  ℕ, zero, suc, ◌/◌, ◌%◌, ◌≤◌, ◌≡◌, ◌↔◌, ◌⊎◌, refl, sym, ap, ◌∙◌, true, [], ◌∷◌, ◌++◌, inl, inr,
  Bool-cases, length, length-append, take_all, drop, replicate, Bytes, AllBytes, Access-cases,
  value, slice, equal_at, same_iff, slice_of, drop_behind, both_sound, slice-value, drop_all, arith,
  append-nil,
}
use esp32_remote_boot.Discovery.{magic, u16, zero_bytes, header, valid_query}

-- a frame of the protocol: the magic, its type, version 0, its size, and its body
abbrev pub frame : ℕ → ℕ → Bytes → Bytes
frame type size body = magic ++ (type ∷ 0 ∷ size / 256 ∷ size % 256 ∷ body)

-- The header check accepts a frame of this type and size, and nothing else.
pub header_sound :
    (p : Bytes) (type size : ℕ)
    → AllBytes p
    → 8 ≤ size
    → header p type size ≡ value true
    → (p ≡ frame type size (drop 8 p)) × (length p ≡ size)
unfolding header u16
header_sound (a ∷ b ∷ c ∷ d ∷ t ∷ v ∷ hi ∷ lo ∷ body) type size bs l h =
    ground (arith, same_iff (a ∷ b ∷ c ∷ d ∷ []) magic)
header_sound _ type size bs l h = absurd (ground arith)

pub header-frame :
    (type size : ℕ) (body : Bytes)
    → length (frame type size body) ≡ size
    → header (frame type size body) type size ≡ value true
unfolding header u16
header-frame type size body h = ground (arith, same_iff magic magic)

pub zero_bytes_iff :
    (bs : Bytes) (n : ℕ) → length bs ≡ n → (zero_bytes bs ≡ true) ↔ (bs ≡ replicate n 0)
unfolding zero_bytes
zero_bytes_iff [] zero e = ground arith
zero_bytes_iff [] (suc n) e = absurd (omega arith)
zero_bytes_iff (b ∷ bs) zero e = absurd (omega arith)
zero_bytes_iff (b ∷ bs) (suc n) e = ground (arith, zero_bytes_iff bs n)

-- a query for `id`, or for any device
pub record IsQuery (p id : Bytes) : Type 0 where
  pub nonce : Bytes
  pub asked : Bytes
  pub nonce_size : length nonce ≡ 16
  pub asked_size : length asked ≡ 16
  pub framed : p ≡ frame 1 40 (nonce ++ asked)
  pub addressed : (asked ≡ replicate 16 0) ⊎ (asked ≡ id)

-- `memcmp` against a value of the compared size
pub equal_at_sound :
    (p : Bytes) (off n : ℕ) (q : Bytes)
    → length q ≡ n
    → equal_at p off q n ≡ value true
    → slice p off n ≡ value q
equal_at_sound p off n q l h = elim (Access-cases (slice p off n)) [
  | inl bad ↦ absurd (ground arith)
  | inr (x, found) ↦ found ∙ ap value ((same_iff x q).0 (ground (arith, take_all n q)))
]

pub equal_at_of :
    (p : Bytes) (off n : ℕ) (q : Bytes)
    → length q ≡ n
    → slice p off n ≡ value q
    → equal_at p off q n ≡ value true
equal_at_of p off n q l h = ground (arith, take_all n q, same_iff q q)

valid_query_sound :
    (p id : Bytes) → AllBytes p → length id ≡ 16 → valid_query p id ≡ value true → IsQuery p id
unfolding valid_query
valid_query_sound p id bs l h =
    let (head, asks) = both_sound (header p 1 40) _ h in
    let (framed, size) = header_sound p 1 40 bs (omega arith) head in
    let (nonce, _, nonce_size, first) = slice-value p 8 16 24 (omega arith) refl in
    let (asked, found, asked_size, second) = slice-value p 24 16 40 (omega arith) refl in
    record {
      nonce = nonce;
      asked = asked;
      nonce_size = nonce_size;
      asked_size = asked_size;
      framed =
          framed
          ∙ ap (frame 1 40) (
              first
              ∙ ap (◌++◌ nonce)
                  (second ∙ ap (◌++◌ asked) (drop_all 40 p (omega arith)) ∙ append-nil asked));
      addressed = elim (Bool-cases (zero_bytes asked)) [
        | inl any ↦ inl ((zero_bytes_iff asked 16 asked_size).0 any)
        | inr other ↦ inr (ground (arith, equal_at_sound p 24 16 id l))
      ];
    }

pub valid_query_of : (p id : Bytes) → length id ≡ 16 → IsQuery p id → valid_query p id ≡ value true
unfolding valid_query
valid_query_of p id l q =
    let body = q.nonce ++ q.asked in
    let size : length (frame 1 40 body) ≡ 40 =
      omega (arith, q.nonce_size, q.asked_size, length-append q.nonce q.asked) in
    let head : header p 1 40 ≡ value true = rw q.framed (header-frame 1 40 body size) in
    let at : drop 24 p ≡ q.asked ++ [] =
      drop_behind p 8 16 24 q.nonce q.asked (ap (drop 8) q.framed) (sym q.nonce_size) refl
      ∙ sym (append-nil q.asked) in
    let asks =
      slice_of p 24 16 q.asked [] at (sym q.asked_size) (omega (arith, ap length q.framed, size)) in
    elim q.addressed [
      | inl any ↦ ground (arith, head, asks, zero_bytes_iff q.asked 16 q.asked_size, any)
      | inr mine ↦ ground (arith, head, asks, mine, equal_at_of p 24 16 id l)
    ]

-- With an identifier of 16 bytes, a datagram of bytes is a valid query exactly when it is a frame
-- of type 1 and size 40 that holds a nonce of 16 bytes and an identifier that is all zero or ours.
pub valid_query_iff :
    (p id : Bytes) → AllBytes p → length id ≡ 16 → (valid_query p id ≡ value true) ↔ IsQuery p id
valid_query_iff p id bs l = (valid_query_sound p id bs l, valid_query_of p id l)

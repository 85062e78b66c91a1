-- ===== src/Microlink/Stream/Fragments.antt =====
-- `ml_frame_feed_buffer`: the bytes may come in any fragments.
use esp32_remote_boot.Prelude.{
  ℕ, zero, suc, ◌+◌, ◌-◌, ◌≤◌, ◌<◌, ◌≡◌, ◌≢◌, refl, sym, ap, ◌∙◌, Bool, true, false, Option, none,
  some, [], ◌∷◌, ◌++◌, ltb, ◌==◌, length, take, drop, Bytes, Access-cases, Bool-cases, Option-cases,
  inl, inr, value, min, if◌then◌else◌, arith, append_assoc, length-append, take_all, drop_all,
}
use esp32_remote_boot.Microlink.Stream.{
  FrameKind, FrameReader, Progress, complete, incomplete, header_size, fill, open_payload, copy,
  feed_payload, feed,
}

-- a header that is not full has taken all of the input, and goes on where it stands
fill_part :
    (size : ℕ) (h xs ys h' rest : Bytes)
    → fill size h xs ≡ (h', rest)
    → length h' < size
    → (rest ≡ []) × (fill size h (xs ++ ys) ≡ fill size h' ys)
unfolding fill
fill_part size h [] ys h' rest e l = ground arith
fill_part size h (b ∷ xs) ys h' rest e l = elim (Bool-cases (ltb (length h) size)) [
  | inl room ↦ ground (arith, fill_part size (h ++ (b ∷ [])) xs ys h' rest)
  | inr full ↦ absurd (ground arith)
]

pub fill_full :
    (size : ℕ) (h xs ys h' rest : Bytes)
    → fill size h xs ≡ (h', rest)
    → size ≤ length h'
    → fill size h (xs ++ ys) ≡ (h', rest ++ ys)
unfolding fill
fill_full size h [] [] h' rest e l = ground arith
fill_full size h [] (y ∷ ys) h' rest e l = ground arith
fill_full size h (b ∷ xs) ys h' rest e l = elim (Bool-cases (ltb (length h) size)) [
  | inl room ↦ ground (arith, fill_full size (h ++ (b ∷ [])) xs ys h' rest)
  | inr full ↦ ground arith
]

-- a full header takes nothing
fill_none : (size : ℕ) (h ys : Bytes) → size ≤ length h → fill size h ys ≡ (h, ys)
unfolding fill
fill_none size h [] l = refl
fill_none size h (y ∷ ys) l = ground arith

take-append :
    (n : ℕ) (xs ys : Bytes) → length xs ≤ n → take n (xs ++ ys) ≡ xs ++ take (n - length xs) ys
take-append n [] ys l = ap (λ k. take k ys) (omega arith)
take-append zero (x ∷ xs) ys l = absurd (omega arith)
take-append (suc n) (x ∷ xs) ys l =
    ap (λ t. x ∷ t) (take-append n xs ys (omega arith) ∙ ap (λ k. xs ++ take k ys) (omega arith))

drop-append : (n : ℕ) (xs ys : Bytes) → length xs ≤ n → drop n (xs ++ ys) ≡ drop (n - length xs) ys
drop-append n [] ys l = ap (λ k. drop k ys) (omega arith)
drop-append zero (x ∷ xs) ys l = absurd (omega arith)
drop-append (suc n) (x ∷ xs) ys l =
    drop-append n xs ys (omega arith) ∙ ap (λ k. drop k ys) (omega arith)

-- the reader after `n` more bytes of the payload
abbrev pub grown : FrameReader → Bytes → ℕ → FrameReader
grown r p n = record r { payload = some p; used = r.used + n }

pub copy_part :
    (r : FrameReader) (p xs : Bytes) (r1 : FrameReader) (rest : Bytes)
    → r.used ≤ r.size
    → copy r p xs ≡ (r1, (rest, incomplete))
    → (rest ≡ []) × (r1 ≡ grown r (p ++ xs) (length xs)) × (r.used + length xs < r.size)
unfolding copy
copy_part r p xs r1 rest l h =
    let short : r.used + min (r.size - r.used) (length xs) ≢ r.size = λ e. ground (arith, e) in
    let all : min (r.size - r.used) (length xs) ≡ length xs = omega arith in
    let taken : take (min (r.size - r.used) (length xs)) xs ≡ xs =
      ap (λ k. take k xs) all ∙ take_all (length xs) xs (omega arith) in
    let none_left : drop (min (r.size - r.used) (length xs)) xs ≡ [] =
      drop_all _ xs (omega arith) in
    (ground (arith, none_left), ground (arith, all, taken), omega arith)

copy_more :
    (r : FrameReader) (p xs ys : Bytes)
    → r.used + length xs < r.size
    → copy r p (xs ++ ys) ≡ copy (grown r (p ++ xs) (length xs)) (p ++ xs) ys
unfolding copy
copy_more r p xs ys l =
    let n = min (r.size - r.used) (length (xs ++ ys)) in
    let k = min (r.size - (r.used + length xs)) (length ys) in
    let long : length xs ≤ n = omega (arith, length-append xs ys) in
    let left : n - length xs ≡ k = omega (arith, length-append xs ys) in
    let taken : p ++ take n (xs ++ ys) ≡ (p ++ xs) ++ take k ys =
      ap (◌++◌ p) (take-append n xs ys long ∙ ap (λ m. xs ++ take m ys) left)
      ∙ sym (append_assoc p xs (take k ys)) in
    let rest : drop n (xs ++ ys) ≡ drop k ys =
      drop-append n xs ys long ∙ ap (λ m. drop m ys) left in
    let total : r.used + n ≡ r.used + length xs + k = omega (arith, left) in
    ap (λ (q : Bytes). result (r.used + n) q (drop n (xs ++ ys))) taken
    ∙ ap (λ (d : Bytes). result (r.used + n) ((p ++ xs) ++ take k ys) d) rest
    ∙ ap (λ (u : ℕ). result u ((p ++ xs) ++ take k ys) (drop k ys)) total
  where
    result : ℕ → Bytes → Bytes → FrameReader × (Bytes × Progress)
    result u q d =
        (record r { payload = some q; used = u }, (d, if u == r.size then complete else incomplete))

pub take_within : (n : ℕ) (xs ys : Bytes) → n ≤ length xs → take n (xs ++ ys) ≡ take n xs
take_within zero xs ys l = refl
take_within (suc n) [] ys l = absurd (omega arith)
take_within (suc n) (x ∷ xs) ys l = ap (◌∷◌ x) (take_within n xs ys (omega arith))

pub drop_within : (n : ℕ) (xs ys : Bytes) → n ≤ length xs → drop n (xs ++ ys) ≡ drop n xs ++ ys
drop_within zero xs ys l = refl
drop_within (suc n) [] ys l = absurd (omega arith)
drop_within (suc n) (x ∷ xs) ys l = drop_within n xs ys (omega arith)

copy_full :
    (r : FrameReader) (p xs ys : Bytes) (r1 : FrameReader) (rest : Bytes)
    → r.used ≤ r.size
    → copy r p xs ≡ (r1, (rest, complete))
    → copy r p (xs ++ ys) ≡ (r1, (rest ++ ys, complete))
unfolding copy
copy_full r p xs ys r1 rest l h =
    let n = min (r.size - r.used) (length xs) in
    let n' = min (r.size - r.used) (length (xs ++ ys)) in
    let whole : r.used + n ≡ r.size = ground arith in
    let same_count : n' ≡ n = omega (arith, length-append xs ys) in
    let taken = take_within n xs ys (omega arith) in
    let left = drop_within n xs ys (omega arith) in
    ap (λ m. result m (take m (xs ++ ys)) (drop m (xs ++ ys))) same_count
    ∙ ap (λ (q : Bytes). result n q (drop n (xs ++ ys))) taken
    ∙ ap (λ (d : Bytes). result n (take n xs) d) left
    ∙ ground (arith, whole)
  where
    result : ℕ → Bytes → Bytes → FrameReader × (Bytes × Progress)
    result m q d = (
      record r { payload = some (p ++ q); used = r.used + m },
      (d, if r.used + m == r.size then complete else incomplete),
    )

pub value_injective : {A : Type 0} {a b : A} → value a ≡ value b → a ≡ b
value_injective h = cc

-- What holds of a reader between two calls: it has used bytes only of a payload, and at most as
-- many as the payload has.
pub record IsReader (r : FrameReader) : Type 0 where
  pub unopened : r.payload ≡ none → r.used ≡ 0
  pub in_range : (p : Bytes) → r.payload ≡ some p → r.used ≤ r.size

module _ (kind : FrameKind) (maximum : ℕ) (storage : Option ℕ) (allocates : ℕ → Bool) where
  -- a reader that has its payload, or has just got it
  pub feed_open :
      (r : FrameReader) (p d : Bytes)
      → r.payload ≡ some p
      → feed_payload r kind maximum storage allocates d ≡ value (copy r p d)
  unfolding feed_payload
  feed_open r p d e = rw e

  pub feed_opening :
      (r o : FrameReader) (d : Bytes)
      → r.payload ≡ none
      → open_payload r kind maximum storage allocates ≡ value (o, true)
      → feed_payload r kind maximum storage allocates d ≡ value (copy o [] d)
  unfolding feed_payload
  feed_opening r o d e e' = ground (arith, e)

  pub opened :
      (r o : FrameReader)
      → open_payload r kind maximum storage allocates ≡ value (o, true)
      → (o.used ≡ r.used) × (o.header ≡ r.header)
  unfolding open_payload
  opened r o e = ground arith

  -- going on after `copy` has taken all of its input
  go_on :
      (r r1 : FrameReader) (p xs ys : Bytes)
      → r1 ≡ grown r (p ++ xs) (length xs)
      → r.used + length xs < r.size
      → value (copy r p (xs ++ ys)) ≡ feed_payload r1 kind maximum storage allocates ys
  go_on r r1 p xs ys e l =
      ap value (copy_more r p xs ys l ∙ ap (λ (x : FrameReader). copy x (p ++ xs) ys) (sym e))
      ∙ sym (feed_open r1 (p ++ xs) ys (ap (λ (x : FrameReader). x.payload) e))

  feed_payload_part :
      (r : FrameReader) (xs ys : Bytes) (r1 : FrameReader) (rest : Bytes)
      → IsReader r
      → feed_payload r kind maximum storage allocates xs ≡ value (r1, (rest, incomplete))
      → (rest ≡ [])
        × (r1.header ≡ r.header)
        × (feed_payload r kind maximum storage allocates (xs ++ ys)
            ≡ feed_payload r1 kind maximum storage allocates ys)
  feed_payload_part r xs ys r1 rest w h = elim (Option-cases r.payload) [
    | inr (p, e) ↦
        let (a, b, c) =
          copy_part r p xs r1 rest (w.in_range p e)
            (value_injective (sym (feed_open r p xs e) ∙ h)) in
        (
          a,
          ap (λ (x : FrameReader). x.header) b,
          feed_open r p (xs ++ ys) e ∙ go_on r r1 p xs ys b c,
        )
    | inl e ↦ elim (Access-cases (open_payload r kind maximum storage allocates)) [
      | inl bad ↦ unfold feed_payload in absurd (ground arith)
      | inr ((o, false), e') ↦ unfold feed_payload in absurd (ground arith)
      | inr ((o, true), e') ↦
          let (used, kept) = opened r o e' in
          let none_used = w.unopened e in
          let (a, b, c) =
            copy_part o [] xs r1 rest (omega arith)
              (value_injective (sym (feed_opening r o xs e e') ∙ h)) in
          (
            a,
            ap (λ (x : FrameReader). x.header) b ∙ kept,
            feed_opening r o (xs ++ ys) e e' ∙ go_on o r1 [] xs ys b c,
          )
    ]
  ]

  feed_payload_full :
      (r : FrameReader) (xs ys : Bytes) (r1 : FrameReader) (rest : Bytes)
      → IsReader r
      → feed_payload r kind maximum storage allocates xs ≡ value (r1, (rest, complete))
      → feed_payload r kind maximum storage allocates (xs ++ ys)
        ≡ value (r1, (rest ++ ys, complete))
  feed_payload_full r xs ys r1 rest w h = elim (Option-cases r.payload) [
    | inr (p, e) ↦
        feed_open r p (xs ++ ys) e
        ∙ ap value (
            copy_full r p xs ys r1 rest (w.in_range p e)
              (value_injective (sym (feed_open r p xs e) ∙ h)))
    | inl e ↦ elim (Access-cases (open_payload r kind maximum storage allocates)) [
      | inl bad ↦ unfold feed_payload in absurd (ground arith)
      | inr ((o, false), e') ↦ unfold feed_payload in absurd (ground arith)
      | inr ((o, true), e') ↦
          let (used, _) = opened r o e' in
          let none_used = w.unopened e in
          feed_opening r o (xs ++ ys) e e'
          ∙ ap value (
              copy_full o [] xs ys r1 rest (omega arith)
                (value_injective (sym (feed_opening r o xs e e') ∙ h)))
    ]
  ]

  pub feed_short :
      (r : FrameReader) (h d left : Bytes)
      → fill (header_size kind) r.header d ≡ (h, left)
      → length h < header_size kind
      → feed r kind maximum storage allocates d
        ≡ value (record r { header = h }, (left, incomplete))
  unfolding feed
  feed_short r h d left e l = ground (arith, e)

  pub feed_long :
      (r : FrameReader) (h d left : Bytes)
      → fill (header_size kind) r.header d ≡ (h, left)
      → header_size kind ≤ length h
      → feed r kind maximum storage allocates d
        ≡ feed_payload (record r { header = h }) kind maximum storage allocates left
  unfolding feed
  feed_long r h d left e l = ground (arith, e)

  -- the result of a call is that of any reader that differs in its header only, at the same fill
  feed-fill :
      (r : FrameReader) (h d d' : Bytes)
      → fill (header_size kind) r.header d ≡ fill (header_size kind) h d'
      → feed r kind maximum storage allocates d
        ≡ feed (record r { header = h }) kind maximum storage allocates d'
  unfolding feed
  feed-fill r h d d' e = rw e

  IsReader-header : (r : FrameReader) (h : Bytes) → IsReader r → IsReader (record r { header = h })
  IsReader-header r h w = record { unopened = w.unopened; in_range = w.in_range }

  -- For a reader between two calls, however the bytes of the stream are cut: when the first piece does
  -- not complete the frame, all of it is consumed, and the call on the next piece from there gives
  -- what one call on both gives. When it does, one call on both stops at the same byte, with the
  -- same reader.
  pub feed-append :
      (r : FrameReader) (xs ys : Bytes) (r1 : FrameReader) (rest : Bytes)
      → IsReader r
      → (feed r kind maximum storage allocates xs ≡ value (r1, (rest, incomplete))
          → (rest ≡ [])
            × (feed r kind maximum storage allocates (xs ++ ys)
                ≡ feed r1 kind maximum storage allocates ys))
        × (feed r kind maximum storage allocates xs ≡ value (r1, (rest, complete))
            → feed r kind maximum storage allocates (xs ++ ys) ≡ value (r1, (rest ++ ys, complete)))
  feed-append r xs ys r1 rest w = (part, full)
    where
      h : Bytes
      h = (fill (header_size kind) r.header xs).0

      left : Bytes
      left = (fill (header_size kind) r.header xs).1

      part :
          feed r kind maximum storage allocates xs ≡ value (r1, (rest, incomplete))
          → (rest ≡ [])
            × (feed r kind maximum storage allocates (xs ++ ys)
                ≡ feed r1 kind maximum storage allocates ys)
      part e = elim (Bool-cases (ltb (length h) (header_size kind))) [
        | inl short ↦
            let (a, b) = fill_part (header_size kind) r.header xs ys h left refl (ground arith) in
            let now = value_injective (sym (feed_short r h xs left refl (ground arith)) ∙ e) in
            let same_reader : record r { header = h } ≡ r1 = ap (λ t. t.0) now in
            (
              sym (ap (λ t. t.1.0) now) ∙ a,
              feed-fill r h (xs ++ ys) ys b
                  ∙ ap (λ (x : FrameReader). feed x kind maximum storage allocates ys) same_reader,
            )
        | inr long ↦
            let full_header : header_size kind ≤ length h = ground arith in
            let (a, b, c) =
              feed_payload_part (record r { header = h }) left ys r1 rest (IsReader-header r h w)
                (sym (feed_long r h xs left refl full_header) ∙ e) in
            (
              a,
              feed_long r h (xs ++ ys) (left ++ ys)
                    (fill_full (header_size kind) r.header xs ys h left refl full_header)
                    full_header
                  ∙ c
                  ∙ sym (
                      feed_long r1 r1.header ys ys
                        (fill_none (header_size kind) r1.header ys (rw b full_header))
                        (rw b full_header)),
            )
      ]

      full :
          feed r kind maximum storage allocates xs ≡ value (r1, (rest, complete))
          → feed r kind maximum storage allocates (xs ++ ys) ≡ value (r1, (rest ++ ys, complete))
      full e = elim (Bool-cases (ltb (length h) (header_size kind))) [
        | inl short ↦
            let now = value_injective (sym (feed_short r h xs left refl (ground arith)) ∙ e) in
            absurd (cc (ap (λ t. t.1.1) now))
        | inr long ↦
            let full_header : header_size kind ≤ length h = ground arith in
            feed_long r h (xs ++ ys) (left ++ ys)
              (fill_full (header_size kind) r.header xs ys h left refl full_header) full_header
            ∙ feed_payload_full (record r { header = h }) left ys r1 rest (IsReader-header r h w)
                (sym (feed_long r h xs left refl full_header) ∙ e)
      ]

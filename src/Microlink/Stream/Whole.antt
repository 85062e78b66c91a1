-- ===== src/Microlink/Stream/Whole.antt =====
-- `ml_frame_feed_buffer`: a whole frame, and what holds between two calls.
use esp32_remote_boot.Prelude.{
  ℕ, ◌+◌, ◌-◌, ◌≤◌, ◌<◌, ◌≡◌, refl, sym, ap, ◌∙◌, Bool, true, false, Option, none, some, [], ◌∷◌,
  ◌++◌, ltb, length, take, drop, Bytes, Access-cases, Bool-cases, Option-cases, inl, inr, value,
  read, min, arith, append_assoc, append-nil, length-append, take_all, drop_all, returns,
  read-returns,
}
use esp32_remote_boot.Microlink.Stream.{
  FrameKind, derp, noise, h2, map_response, FrameReader, complete, incomplete, header_size, fill,
  open_payload, copy, feed_payload, feed, reset, frame_length, refuses,
}
use esp32_remote_boot.Microlink.Stream.Fragments.{
  IsReader, feed_long, feed_short, feed_opening, feed_open, opened, value_injective, take_within,
  drop_within, copy_part, grown,
}

pub fill_header :
    (size : ℕ) (h g d : Bytes) → length h + length g ≡ size → fill size h (g ++ d) ≡ (h ++ g, d)
unfolding fill
fill_header size h [] [] l = ground (arith, append-nil h)
fill_header size h [] (x ∷ d) l = ground (arith, append-nil h)
fill_header size h (b ∷ g) d l = ground (
  arith,
  fill_header size (h ++ (b ∷ [])) g d,
  length-append h (b ∷ []),
  append_assoc h (b ∷ []) g,
)

frame_length-returns :
    (kind : FrameKind) (h : Bytes)
    → header_size kind ≤ length h
    → returns (frame_length kind h) ≡ true
unfolding frame_length
frame_length-returns derp h l =
    ground (arith, read-returns h 1, read-returns h 2, read-returns h 3, read-returns h 4)
frame_length-returns noise h l = ground (arith, read-returns h 1, read-returns h 2)
frame_length-returns h2 h l = ground (arith, read-returns h 0, read-returns h 1, read-returns h 2)
frame_length-returns map_response h l =
    ground (arith, read-returns h 0, read-returns h 1, read-returns h 2, read-returns h 3)

header_size_pos : (kind : FrameKind) → 0 < header_size kind
header_size_pos derp = omega arith
header_size_pos noise = omega arith
header_size_pos h2 = omega arith
header_size_pos map_response = omega arith

module _ (kind : FrameKind) (maximum : ℕ) (storage : Option ℕ) (allocates : ℕ → Bool) where
  open_payload-returns :
      (r : FrameReader)
      → header_size kind ≤ length r.header
      → returns (open_payload r kind maximum storage allocates) ≡ true
  unfolding open_payload
  open_payload-returns r l =
      ground
        (arith, frame_length-returns kind r.header l, read-returns r.header 0, header_size_pos kind)

  feed_payload-returns :
      (r : FrameReader) (d : Bytes)
      → header_size kind ≤ length r.header
      → returns (feed_payload r kind maximum storage allocates d) ≡ true
  unfolding feed_payload
  feed_payload-returns r d l = ground (arith, open_payload-returns r l)

  -- The reader reads only inside the header bytes that have arrived, whatever its state is.
  pub feed-returns :
      (r : FrameReader) (d : Bytes) → returns (feed r kind maximum storage allocates d) ≡ true
  feed-returns r d =
      elim (Bool-cases (ltb (length (fill (header_size kind) r.header d).0) (header_size kind))) [
        | inl short ↦
            ap returns (feed_short kind maximum storage allocates r _ d _ refl (ground arith))
        | inr long ↦
            ap returns (feed_long kind maximum storage allocates r _ d _ refl (ground arith))
            ∙ feed_payload-returns (record r { header = (fill (header_size kind) r.header d).0 }) _
                (ground arith)
      ]

  grown-IsReader :
      (r : FrameReader) (p : Bytes) (n : ℕ) → r.used + n < r.size → IsReader (grown r p n)
  grown-IsReader r p n l = record { unopened = λ e. absurd (cc e); in_range = λ q e. omega arith }

  feed_payload-IsReader :
      (r : FrameReader) (xs : Bytes) (r1 : FrameReader) (rest : Bytes)
      → IsReader r
      → feed_payload r kind maximum storage allocates xs ≡ value (r1, (rest, incomplete))
      → IsReader r1
  feed_payload-IsReader r xs r1 rest w h = elim (Option-cases r.payload) [
    | inr (p, e) ↦
        let (_, b, c) =
          copy_part r p xs r1 rest (w.in_range p e)
            (value_injective (sym (feed_open kind maximum storage allocates r p xs e) ∙ h)) in
        rw b (grown-IsReader r (p ++ xs) (length xs) c)
    | inl e ↦ elim (Access-cases (open_payload r kind maximum storage allocates)) [
      | inl bad ↦ unfold feed_payload in absurd (ground arith)
      | inr ((o, false), e') ↦ unfold feed_payload in absurd (ground arith)
      | inr ((o, true), e') ↦
          let (used, _) = opened kind maximum storage allocates r o e' in
          let none_used = w.unopened e in
          let (_, b, c) =
            copy_part o [] xs r1 rest (omega arith) (
              value_injective
                (sym (feed_opening kind maximum storage allocates r o xs e e') ∙ h)) in
          rw b (grown-IsReader o xs (length xs) c)
    ]
  ]

  -- A call that does not complete a frame leaves a reader from which the next call can go on.
  pub feed-IsReader :
      (r : FrameReader) (xs : Bytes) (r1 : FrameReader) (rest : Bytes)
      → IsReader r
      → feed r kind maximum storage allocates xs ≡ value (r1, (rest, incomplete))
      → IsReader r1
  feed-IsReader r xs r1 rest w h =
      elim (Bool-cases (ltb (length (fill (header_size kind) r.header xs).0) (header_size kind))) [
        | inl short ↦
            let now =
              value_injective (
                sym (feed_short kind maximum storage allocates r _ xs _ refl (ground arith)) ∙ h) in
            let same_reader : record r { header = (fill (header_size kind) r.header xs).0 } ≡ r1 =
              ap (λ t. t.0) now in
            let kept : IsReader (record r { header = (fill (header_size kind) r.header xs).0 }) =
              record { unopened = w.unopened; in_range = w.in_range } in
            rw same_reader at kept
        | inr long ↦
            feed_payload-IsReader (record r { header = (fill (header_size kind) r.header xs).0 }) _
              r1 rest (record { unopened = w.unopened; in_range = w.in_range })
              (sym (feed_long kind maximum storage allocates r _ xs _ refl (ground arith)) ∙ h)
      ]

-- what the reader holds behind a frame with this header and body
abbrev pub holding : Bytes → Bytes → FrameReader
holding h body = record {
  header = h;
  size = length body;
  used = length body;
  payload = some body;
  payload_borrowed = false;
  padding = 0;
}

copy_whole :
    (r : FrameReader) (body more : Bytes)
    → r.used ≡ 0
    → r.size ≡ length body
    → copy r [] (body ++ more)
      ≡ (record r { payload = some body; used = length body }, (more, complete))
unfolding copy
copy_whole r body more u s =
    let n = min (r.size - r.used) (length (body ++ more)) in
    let count : n ≡ length body = omega (arith, length-append body more) in
    let taken : take (length body) (body ++ more) ≡ body =
      take_within (length body) body more (omega arith) ∙ take_all (length body) body refl in
    let left : drop (length body) (body ++ more) ≡ more =
      drop_within (length body) body more (omega arith)
      ∙ ap (λ t. t ++ more) (drop_all (length body) body (omega arith)) in
    ground (arith, count, taken, left)

-- From a reader that has been reset, bytes that begin with a whole frame whose length is within the
-- maximum and not refused for its kind, with room to store it, give the body of that frame, and leave
-- exactly the bytes behind it.
pub feed-holding :
    (kind : FrameKind) (maximum first : ℕ) (allocates : ℕ → Bool) (h body more : Bytes)
    → length h ≡ header_size kind
    → frame_length kind h ≡ value (length body)
    → read h 0 ≡ value first
    → refuses kind first (length body) ≡ false
    → length body ≤ maximum
    → allocates (length body + 1) ≡ true
    → feed reset kind maximum none allocates (h ++ (body ++ more))
      ≡ value (holding h body, (more, complete))
feed-holding kind maximum first allocates h body more l n f fine small room =
    let start : FrameReader = record reset { header = h } in
    let o : FrameReader = record start { size = length body; payload = some [] } in
    let opens : open_payload start kind maximum none allocates ≡ value (o, true) =
      unfold open_payload in ground arith in
    feed_long kind maximum none allocates reset h (h ++ (body ++ more)) (body ++ more)
      (fill_header (header_size kind) [] h (body ++ more) (omega arith)) (omega arith)
    ∙ feed_opening kind maximum none allocates start o (body ++ more) refl opens
    ∙ ap value (copy_whole o body more refl refl)

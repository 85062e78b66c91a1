-- ===== src/Microlink/H2/Frames.antt =====
-- The frames that are built, read by the receiver of ml_stream.h.
use esp32_remote_boot.Prelude.{
  ℕ, ◌+◌, ◌/◌, ◌%◌, ◌^◌, ◌≤◌, ◌<◌, ◌≡◌, refl, sym, ap, ◌∙◌, Bool, true, Option, none, some, [], ◌∷◌,
  ◌++◌, length, length-append, Bytes, value, same, if◌then◌else◌, arith, append_assoc,
}
use esp32_remote_boot.Microlink.Stream.{h2, complete, feed, reset, frame_length, refuses}
use esp32_remote_boot.Microlink.Stream.Whole.{holding, feed-holding}
use esp32_remote_boot.Microlink.H2.{
  write_frame_header, build_data_frame, build_headers_frame, header_block, optional_header,
  hpack_literal_indexed, post_text, get_text, slash_text,
}

feed-write_frame_header :
    (maximum : ℕ) (allocates : ℕ → Bool) (type flags stream : ℕ) (body more : Bytes)
    → length body < 2 ^ 24
    → length body ≤ maximum
    → allocates (length body + 1) ≡ true
    → feed reset h2 maximum none allocates
        (write_frame_header (length body) type flags stream ++ (body ++ more))
      ≡ value (holding (write_frame_header (length body) type flags stream) body, (more, complete))
feed-write_frame_header maximum allocates type flags stream body more small least room =
    feed-holding h2 maximum (length body / 65536 % 256) allocates
      (write_frame_header (length body) type flags stream) body more
      (unfold write_frame_header in refl)
      (unfold write_frame_header frame_length in ap value (omega arith))
      (unfold write_frame_header in refl) (unfold refuses in refl) least room

-- A DATA frame of less than 2 ^ 24 bytes, when it is built, is read back by the receiver from any
-- stream that begins with it: its header, exactly its bytes, and the rest of the stream. The
-- receiver's maximum and memory are enough for it.
pub feed-build_data_frame :
    (out_size stream : ℕ) (end_stream : Bool) (maximum : ℕ) (allocates : ℕ → Bool)
    (body frame more : Bytes)
    → length body < 2 ^ 24
    → length body ≤ maximum
    → allocates (length body + 1) ≡ true
    → build_data_frame out_size body stream end_stream ≡ some frame
    → (length frame ≤ out_size)
      × (feed reset h2 maximum none allocates (frame ++ more)
          ≡ value (
            holding (write_frame_header (length body) 0 (if end_stream then 1 else 0) stream) body,
            (more, complete),
          ))
unfolding build_data_frame
feed-build_data_frame out_size stream end_stream maximum allocates body frame more small least room
      h =
    let header = write_frame_header (length body) 0 (if end_stream then 1 else 0) stream in
    let e : header ++ body ≡ frame = ground arith in
    let nine : length header ≡ 9 = unfold write_frame_header in refl in
    let room_out : 9 + length body ≤ out_size = ground arith in
    (
      omega (arith, ap length e, length-append header body, nine, room_out),
      ap (λ t. feed reset h2 maximum none allocates (t ++ more)) (sym e)
          ∙ ap (feed reset h2 maximum none allocates) (append_assoc header body more)
          ∙ feed-write_frame_header maximum allocates 0 (if end_stream then 1 else 0) stream body
              more small least room,
    )

abbrev pub text_size : Option Bytes → ℕ
text_size none = 0
text_size (some text) = length text

length-optional_header :
    (index : ℕ) (o : Option Bytes) → length (optional_header index o) ≤ 2 + text_size o
unfolding optional_header hpack_literal_indexed
length-optional_header index none = omega arith
length-optional_header index (some text) = omega arith

abbrev either_text : Bool → Bytes → Bytes → Bytes
either_text b x y = if b then x else y

-- the size of the header block, from the texts in it
length-header_block :
    (method path : Bytes) (authority content_type : Option Bytes)
    → length (header_block method path authority content_type)
      ≤ 9 + length method + length path + text_size authority + text_size content_type
unfolding header_block
length-header_block method path authority content_type =
    let m =
      either_text (same method post_text) (131 ∷ [])
        (either_text (same method get_text) (130 ∷ []) (66 ∷ length method % 256 ∷ method)) in
    let p = either_text (same path slash_text) (132 ∷ []) (68 ∷ length path % 256 ∷ path) in
    let a = optional_header 1 authority in
    let c = optional_header 31 content_type in
    let m_size : length m ≤ 2 + length method = ground arith in
    let p_size : length p ≤ 2 + length path = ground arith in
    omega (
      arith,
      m_size,
      p_size,
      length-optional_header 1 authority,
      length-optional_header 31 content_type,
      length-append m (p ++ (134 ∷ (a ++ c))),
      length-append p (134 ∷ (a ++ c)),
      length-append a c,
    )

-- Where `out` has 128 bytes and the texts have 110 together, a HEADERS frame is built without a
-- write past `hpack` or `out`, and the receiver reads from any stream that begins with it exactly
-- the header block, and leaves the rest. The receiver's maximum is 119 at least, and it has memory.
pub feed-build_headers_frame :
    (out_size stream maximum : ℕ) (end_stream : Bool) (method path : Bytes)
    (authority content_type : Option Bytes) (more : Bytes)
    → 128 ≤ out_size
    → 119 ≤ maximum
    → length method + length path + text_size authority + text_size content_type ≤ 110
    → (frame : Bytes) × (build_headers_frame out_size method path authority content_type stream
          end_stream
        ≡ value (some frame))
      × (length frame ≤ out_size)
      × (feed reset h2 maximum none (λ n. true) (frame ++ more)
          ≡ value (
            holding
                (write_frame_header
                  (length (header_block method path authority content_type))
                  1
                  (if end_stream then 5 else 4)
                  stream)
                (header_block method path authority content_type),
            (more, complete),
          ))
unfolding build_headers_frame
feed-build_headers_frame out_size stream maximum end_stream method path authority content_type more
      out most small =
    let block = header_block method path authority content_type in
    let size = length-header_block method path authority content_type in
    let header = write_frame_header (length block) 1 (if end_stream then 5 else 4) stream in
    let nine : length header ≡ 9 = unfold write_frame_header in refl in
    (
      header ++ block,
      ground (arith, size),
      omega (arith, length-append header block, nine, size),
      ap (feed reset h2 maximum none (λ n. true)) (append_assoc header block more)
          ∙ feed-write_frame_header maximum (λ n. true) 1 (if end_stream then 5 else 4) stream block
              more (omega (arith, size)) (omega (arith, size)) refl,
    )

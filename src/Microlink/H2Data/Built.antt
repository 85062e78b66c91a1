-- ===== src/Microlink/H2Data/Built.antt =====
-- A DATA frame as `ml_h2_build_data_frame` makes it, handed to the consumer.
use esp32_remote_boot.Prelude.{
  ℕ, ◌-◌, ◌/◌, ◌%◌, ◌^◌, ◌<◌, ◌≤◌, ◌≡◌, ◌≢◌, ◌⊎◌, refl, sym, ap, ◌∙◌, Bool, false, Option, some, [],
  ◌++◌, append_assoc, ltb, ◌==◌, length, length-append, take, take_prefix, drop, drop_prefix, Bytes,
  value, read, min, if◌then◌else◌, arith,
}
use esp32_remote_boot.Microlink.Stream.{
  FrameReader, complete, h2, fill, frame_length, reset, stream_closed,
}
use esp32_remote_boot.Microlink.Stream.Whole.{fill_header}
use esp32_remote_boot.Microlink.H2.{write_frame_header, build_data_frame}
use esp32_remote_boot.Microlink.H2Data.{stream_of, deliver_content, feed_data, h2_feed}

-- the reader behind a frame
abbrev pub behind : Bytes → Bytes → FrameReader
behind header body = record reset { header = header; size = length body; used = length body }

module _ {ℓ} {C : Type ℓ} (consume : ℕ → Bytes → C → Option C) where
  deliver_content-whole :
      (r : FrameReader) (stream : ℕ) (body more : Bytes) (c c' : C)
      → r.size ≡ length body
      → r.used ≡ 0
      → r.padding ≡ 0
      → 0 < length body
      → consume stream body c ≡ some c'
      → deliver_content consume r stream (body ++ more) c
        ≡ (record r { used = length body }, (more, complete), c')
  unfolding deliver_content
  deliver_content-whole r stream body more c c' s u p l taken =
      let both : Bytes = body ++ more in
      let count_is : min (r.size - r.used) (length both) ≡ length body =
        omega (arith, length-append body more) in
      let content_is : min
            (if ltb r.used (r.size - r.padding) then r.size - r.padding - r.used else 0)
            (length body)
          ≡ length body =
        ground arith in
      let taken_all : take (length body) both ≡ body = take_prefix (length body) body more refl in
      let left_all : drop (length body) both ≡ more = drop_prefix (length body) body more refl in
      ground (arith, count_is, content_is, taken_all, left_all)

  feed_data-unpadded :
      (r : FrameReader) (flags stream : ℕ) (input : Bytes) (c : C)
      → flags / 8 % 2 == 1 ≡ false
      → feed_data consume r flags stream input c ≡ deliver_content consume r stream input c
  unfolding feed_data
  feed_data-unpadded r flags stream input c h = rw h refl

  -- the reader on a whole header
  h2_feed-header :
      (header rest : Bytes) (flags size stream maximum : ℕ) (allocates : ℕ → Bool) (c : C)
      → length header ≡ 9
      → read header 3 ≡ value 0
      → read header 4 ≡ value flags
      → frame_length h2 header ≡ value size
      → stream_of header ≡ value stream
      → size ≤ maximum
      → stream_closed 0 flags stream ≡ false
      → h2_feed consume reset (header ++ rest) maximum allocates c
        ≡ value
            (feed_data consume (record reset { header = header; size = size }) flags stream rest c)
  unfolding h2_feed
  h2_feed-header header rest flags size stream maximum allocates c nine type_is flags_is size_is
        stream_is least opened =
      let filled : fill 9 [] (header ++ rest) ≡ (header, rest) =
        fill_header 9 [] header rest (omega (arith, nine)) in
      ground (arith, filled, type_is, flags_is, size_is, stream_is)

-- A DATA frame with content, as it is built for a stream that it does not close, reaches the consumer of
-- the other side whole: the consumer gets exactly the bytes, for the right stream, and the reader says
-- that the frame is complete and leaves what is behind it.
pub h2_feed-build_data_frame {ℓ} :
    {C : Type ℓ} (consume : ℕ → Bytes → C → Option C) (out_size stream maximum : ℕ)
    (end_stream : Bool) (allocates : ℕ → Bool) (body frame more : Bytes) (c c' : C)
    → 0 < length body
    → length body < 2 ^ 24
    → length body ≤ maximum
    → stream < 2 ^ 31
    → (stream ≢ 5) ⊎ (end_stream ≡ false)
    → consume stream body c ≡ some c'
    → build_data_frame out_size body stream end_stream ≡ some frame
    → h2_feed consume reset (frame ++ more) maximum allocates c
      ≡ value (
        behind (write_frame_header (length body) 0 (if end_stream then 1 else 0) stream) body,
        (more, complete),
        c',
      )
unfolding build_data_frame stream_closed
h2_feed-build_data_frame consume out_size stream maximum end_stream allocates body frame more c c'
      some_body small least s open_stream taken h =
    let flags : ℕ = if end_stream then 1 else 0 in
    let header : Bytes = write_frame_header (length body) 0 flags stream in
    let e : header ++ body ≡ frame = ground arith in
    let still_open : stream_closed 0 flags stream ≡ false = ground arith in
    let unpadded : flags / 8 % 2 == 1 ≡ false = ground arith in
    let fed =
      h2_feed-header consume header (body ++ more) flags (length body) stream maximum allocates c
        (unfold write_frame_header in refl) (unfold write_frame_header in refl)
        (unfold write_frame_header in refl)
        (unfold write_frame_header frame_length in ap value (omega arith))
        (unfold write_frame_header stream_of in ap value (omega arith)) least still_open in
    let delivered =
      deliver_content-whole consume (record reset { header = header; size = length body }) stream
        body more c c' refl refl refl some_body taken in
    ap (λ t. h2_feed consume reset (t ++ more) maximum allocates c) (sym e)
    ∙ ap (λ t. h2_feed consume reset t maximum allocates c) (append_assoc header body more)
    ∙ fed
    ∙ ap value (
        feed_data-unpadded consume (record reset { header = header; size = length body }) flags
          stream (body ++ more) c unpadded
        ∙ delivered)

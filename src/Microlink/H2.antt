-- ===== src/Microlink/H2.antt =====
-- components/microlink/src/ml_h2.c: the frames that the control connection sends. A function gives the
-- bytes that it writes to `out`, `none` for -1; text is the list of its bytes before the NUL. `|` of
-- bits that a mask keeps apart is written `+`. Log calls are left out.
pub mod Frames
use esp32_remote_boot.Prelude.{
  ℕ, ◌+◌, ◌*◌, ◌/◌, ◌%◌, Bool, true, false, Option, none, some, [], ◌∷◌, ◌++◌, ltb, ◌==◌, length,
  Bytes, Access, fault, value, same, if◌then◌else◌,
}

-- `write_frame_header`
unfoldable pub write_frame_header : ℕ → ℕ → ℕ → ℕ → Bytes
write_frame_header size type flags stream =
    size / 65536 % 256
    ∷ size / 256 % 256
    ∷ size % 256
    ∷ type
    ∷ flags
    ∷ stream / 16777216 % 128
    ∷ stream / 65536 % 256
    ∷ stream / 256 % 256
    ∷ stream % 256
    ∷ []

-- `hpack_indexed`
unfoldable pub hpack_indexed : ℕ → Bytes
hpack_indexed index = (128 + index % 128) ∷ []

-- `hpack_literal_indexed`
unfoldable pub hpack_literal_indexed : ℕ → Bytes → Bytes
hpack_literal_indexed name_index text = (64 + name_index % 64) ∷ length text % 256 ∷ text

-- `hpack_literal_new`
unfoldable pub hpack_literal_new : Bytes → Bytes → Bytes
hpack_literal_new name text = 0 ∷ length name % 256 ∷ (name ++ (length text % 256 ∷ text))

-- `H2_CONNECTION_PREFACE`
abbrev pub connection_preface : Bytes
connection_preface =
    b'P' ∷ b'R' ∷ b'I' ∷ b' ' ∷ b'*' ∷ b' ' ∷ b'H' ∷ b'T' ∷ b'T' ∷ b'P' ∷ b'/' ∷ b'2' ∷ b'.' ∷ b'0'
    ∷ 13 ∷ 10 ∷ 13 ∷ 10 ∷ b'S' ∷ b'M' ∷ 13 ∷ 10 ∷ 13 ∷ 10 ∷ []

-- `ml_h2_build_preface`; `window_size` is `ML_H2_BUFFER_SIZE`, which the build sets.
unfoldable pub build_preface : ℕ → ℕ → Option Bytes
build_preface window_size out_size =
    if ltb out_size 39
    then none
    else some (
        connection_preface
        ++ (write_frame_header 6 4 0 0
            ++ (0
                ∷ 4
                ∷ window_size / 16777216 % 256
                ∷ window_size / 65536 % 256
                ∷ window_size / 256 % 256
                ∷ window_size % 256
                ∷ [])))

-- `ml_h2_build_settings_ack`
unfoldable pub build_settings_ack : ℕ → Option Bytes
build_settings_ack out_size = if ltb out_size 9 then none else some (write_frame_header 0 4 1 0)

-- `ml_h2_build_window_update`
unfoldable pub build_window_update : ℕ → ℕ → ℕ → Option Bytes
build_window_update out_size stream increment =
    if ltb out_size 13
    then none
    else some (
        write_frame_header 4 8 0 stream
        ++ (increment / 16777216 % 128
            ∷ increment / 65536 % 256
            ∷ increment / 256 % 256
            ∷ increment % 256
            ∷ []))

-- `ml_h2_build_data_frame`
unfoldable pub build_data_frame : ℕ → Bytes → ℕ → Bool → Option Bytes
build_data_frame out_size body stream end_stream =
    if ltb out_size (9 + length body)
    then none
    else some (write_frame_header (length body) 0 (if end_stream then 1 else 0) stream ++ body)

abbrev pub post_text : Bytes
post_text = b'P' ∷ b'O' ∷ b'S' ∷ b'T' ∷ []

abbrev pub get_text : Bytes
get_text = b'G' ∷ b'E' ∷ b'T' ∷ []

abbrev pub slash_text : Bytes
slash_text = b'/' ∷ []

-- a header that is left out for a null pointer
optional_header : ℕ → Option Bytes → Bytes
optional_header index none = []
optional_header index (some text) = hpack_literal_indexed index text

-- the bytes that `ml_h2_build_headers_frame` collects in `hpack`
unfoldable pub header_block : Bytes → Bytes → Option Bytes → Option Bytes → Bytes
unfolding optional_header hpack_indexed hpack_literal_indexed
header_block method path authority content_type =
    (if same method post_text
      then hpack_indexed 3
      else if same method get_text
      then hpack_indexed 2
      else hpack_literal_indexed 2 method)
    ++ ((if same path slash_text then hpack_indexed 4 else hpack_literal_indexed 4 path)
        ++ (hpack_indexed 6 ++ (optional_header 1 authority ++ optional_header 31 content_type)))

-- `ml_h2_build_headers_frame`. `hpack` has 256 bytes, and its size is tested only behind the writes, so
-- a longer block is written past it; the frame is copied to `out` without a test of `out_size`.
unfoldable pub build_headers_frame :
    ℕ → Bytes → Bytes → Option Bytes → Option Bytes → ℕ → Bool → Access (Option Bytes)
build_headers_frame out_size method path authority content_type stream end_stream =
    let block = header_block method path authority content_type in
    if ltb out_size 128
    then value none
    else if ltb 256 (length block)
    then fault
    else if ltb out_size (9 + length block)
    then fault
    else value
        (some (write_frame_header (length block) 1 (if end_stream then 5 else 4) stream ++ block))

-- ===== src/Microlink/Stream.antt =====
-- components/microlink/src/ml_stream.h: the incremental reader of frames. The bytes that arrive are
-- a list, and what `*consumed` leaves of them is returned. `header` holds the `header_used` bytes
-- that have arrived, and `payload` the first `used` bytes behind the pointer, `none` for NULL.
pub mod Fragments
pub mod Whole
use esp32_remote_boot.Prelude.{
  ℕ, ◌+◌, ◌-◌, ◌*◌, ◌%◌, Bool, true, false, not, ◌&&◌, ◌||◌, Option, none, some, List, [], ◌∷◌,
  ◌++◌, ltb, leb, ◌==◌, length, take, drop, Bytes, Access, value, ◌>>=◌, read, min, if◌then◌else◌,
}

-- `ml_frame_kind`
pub data FrameKind : Type 0 where
  derp noise h2 map_response : FrameKind

-- `ml_frame_reader`
pub record FrameReader : Type 0 where
  pub header : Bytes
  pub size : ℕ
  pub used : ℕ
  pub payload : Option Bytes
  pub payload_borrowed : Bool
  pub padding : ℕ

-- `ml_frame_reset`, without the call of `free`
abbrev pub reset : FrameReader
reset = record {
  header = [];
  size = 0;
  used = 0;
  payload = none;
  payload_borrowed = false;
  padding = 0;
}

-- 1, 0 and -1
pub data Progress : Type 0 where
  complete incomplete invalid : Progress

abbrev pub header_size : FrameKind → ℕ
header_size derp = 5
header_size h2 = 9
header_size map_response = 4
header_size noise = 3

-- the loop that fills the header
unfoldable pub fill : ℕ → Bytes → Bytes → Bytes × Bytes
fill size h [] = (h, [])
fill size h (b ∷ input) =
    let more = fill size (h ++ (b ∷ [])) input in
    if ltb (length h) size then more else (h, b ∷ input)

-- the length that a whole header gives
unfoldable pub frame_length : FrameKind → Bytes → Access ℕ
frame_length derp h = do
  a ← read h 1
  b ← read h 2
  c ← read h 3
  d ← read h 4
  value (a * 16777216 + b * 65536 + c * 256 + d)
frame_length map_response h = do
  a ← read h 0
  b ← read h 1
  c ← read h 2
  d ← read h 3
  value (a + b * 256 + c * 65536 + d * 16777216)
frame_length h2 h = do a ← read h 0; b ← read h 1; c ← read h 2; value (a * 65536 + b * 256 + c)
frame_length noise h = do a ← read h 1; b ← read h 2; value (a * 256 + b)

-- the refusals that depend on the kind, with the first byte of the header
unfoldable pub refuses : FrameKind → ℕ → ℕ → Bool
refuses noise first size = not (first == 4) || ltb size 16
refuses map_response first size = size == 0
refuses _ first size = false

-- The storage of the payload, when there is none yet: `storage` is the capacity of the caller's, and
-- `allocates` says whether `malloc` has room. The reader keeps the length also where it refuses.
unfoldable pub open_payload :
    FrameReader → FrameKind → ℕ → Option ℕ → (ℕ → Bool) → Access (FrameReader × Bool)
unfolding frame_length refuses
open_payload r kind maximum storage allocates = do
  size ← frame_length kind r.header
  first ← read r.header 0
  let r' : FrameReader = record r { size = size }
  let opened = λ (borrowed : Bool). record r' { payload_borrowed = borrowed; payload = some [] }
  value (
      if ltb maximum size || refuses kind first size then (r', false) else elim storage [
        | some capacity ↦ if leb capacity size then (r', false) else (opened true, true)
        | none ↦
            if allocates (size + 1)
            then (opened false, true)
            else (record r' { payload_borrowed = false }, false)
      ])

-- the bytes that go to the payload
unfoldable pub copy : FrameReader → Bytes → Bytes → FrameReader × (Bytes × Progress)
copy r p input =
    let n = min (r.size - r.used) (length input) in
    (
      record r { payload = some (p ++ take n input); used = r.used + n },
      (drop n input, if r.used + n == r.size then complete else incomplete),
    )

-- `ml_frame_feed_buffer` behind the header
unfoldable pub feed_payload :
    FrameReader
    → FrameKind
    → ℕ
    → Option ℕ
    → (ℕ → Bool)
    → Bytes
    → Access (FrameReader × (Bytes × Progress))
feed_payload r kind maximum storage allocates input = elim r.payload [
  | some p ↦ value (copy r p input)
  | none ↦ (do
    opened ← open_payload r kind maximum storage allocates
    value (if opened.1 then copy opened.0 [] input else (opened.0, (input, invalid))))
]

-- `ml_frame_feed_buffer`
unfoldable pub feed :
    FrameReader
    → FrameKind
    → ℕ
    → Option ℕ
    → (ℕ → Bool)
    → Bytes
    → Access (FrameReader × (Bytes × Progress))
feed r kind maximum storage allocates input =
    let (h, rest) = fill (header_size kind) r.header input in
    let r' : FrameReader = record r { header = h } in
    if ltb (length h) (header_size kind)
    then value (r', (rest, incomplete))
    else feed_payload r' kind maximum storage allocates rest

-- the error numbers that `ml_receive_result` tells apart
pub data ReceiveError : Type 0 where
  eagain ewouldblock eintr other_error : ReceiveError

abbrev pub is_retried : ReceiveError → Bool
is_retried other_error = false
is_retried _ = true

-- `ml_receive_result`: a negative count, and a result of -1, are `none`
unfoldable pub receive_result : Option ℕ → ReceiveError → Option ℕ
receive_result (some n) error_number = if n == 0 then none else some n
receive_result none error_number = if is_retried error_number then some 0 else none

-- `ml_h2_stream_closed`
unfoldable pub stream_closed : ℕ → ℕ → ℕ → Bool
stream_closed type flags stream =
    type == 7 || (stream == 5 && (type == 3 || ((type == 0 || type == 1) && flags % 2 == 1)))

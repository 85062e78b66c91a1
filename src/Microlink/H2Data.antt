-- ===== src/Microlink/H2Data.antt =====
-- components/microlink/src/ml_h2_stream_data.h: DATA frames, handed on in fragments. The consumer is a
-- parameter that changes a state of its own, and gives `none` for a negative result.
pub mod Built
use esp32_remote_boot.Prelude.{
  ℕ, ◌+◌, ◌-◌, ◌*◌, ◌/◌, ◌%◌, Bool, true, false, not, ◌&&◌, ◌||◌, Option, none, some, [], ◌∷◌, ltb,
  leb, ◌==◌, length, take, drop, Bytes, Access, value, ◌>>=◌, read, min, if◌then◌else◌,
}
use esp32_remote_boot.Microlink.Stream.{
  FrameReader, Progress, complete, incomplete, invalid, h2, fill, frame_length, feed, stream_closed,
}

-- the stream of a whole header
unfoldable pub stream_of : Bytes → Access ℕ
stream_of h = do
  a ← read h 5
  b ← read h 6
  c ← read h 7
  d ← read h 8
  value (a % 128 * 16777216 + b * 65536 + c * 256 + d)

module _ {ℓ} {C : Type ℓ} (consume : ℕ → Bytes → C → Option C) where
  -- the bytes that are handed on, and those that are passed over as padding
  unfoldable pub deliver_content :
      FrameReader → ℕ → Bytes → C → FrameReader × (Bytes × Progress) × C
  deliver_content r stream input c =
      let count = min (r.size - r.used) (length input) in
      let end = r.size - r.padding in
      let content = min (if ltb r.used end then end - r.used else 0) count in
      let passed = record r { used = r.used + count } in
      let result : Bytes × Progress =
        (drop count input, if r.used + count == r.size then complete else incomplete) in
      if content == 0 then (passed, result, c) else elim (consume stream (take content input) c) [
        | none ↦ (r, (input, invalid), c)
        | some c' ↦ (passed, result, c')
      ]

  -- behind the header of a DATA frame: the padding, where it is due, and the content
  unfoldable pub feed_data : FrameReader → ℕ → ℕ → Bytes → C → FrameReader × (Bytes × Progress) × C
  feed_data r flags stream input c =
      if flags / 8 % 2 == 1 && r.used == 0
      then if r.size == 0 then (r, (input, invalid), c) else elim input [
        | [] ↦ (r, ([], incomplete), c)
        | b ∷ rest ↦
            let padded = record r { padding = b; used = 1 } in
            if leb r.size b
            then (padded, (rest, invalid), c)
            else deliver_content padded stream rest c
      ]
      else deliver_content r stream input c

  -- `ml_h2_feed`
  unfoldable pub h2_feed :
      FrameReader → Bytes → ℕ → (ℕ → Bool) → C → Access (FrameReader × (Bytes × Progress) × C)
  h2_feed r input maximum allocates c =
      let (h, rest) = fill 9 r.header input in
      let r' = record r { header = h } in
      if ltb (length h) 9 then value (r', (rest, incomplete), c) else do
        type ← read h 3
        flags ← read h 4
        size ← frame_length h2 h
        stream ← stream_of h
        if not (type == 0)
            then (do
              (last, result) ← feed r' h2 maximum none allocates rest
              value (last, result, c))
            else if ltb maximum size || stream_closed 0 flags stream
            then value (record r' { size = size }, (rest, invalid), c)
            else value (feed_data (record r' { size = size }) flags stream rest c)

-- ===== src/Microlink/Tests.antt =====
-- Runs of the receiver, the frames and the policies, and the theorems there.
use esp32_remote_boot.Prelude.{
  ◌≢◌, ◌>>=◌, Option, inl, ℕ, ◌≤◌, ◌<◌, ◌≡◌, refl, Bool, true, false, none, some, [], ◌∷◌, ◌++◌,
  length, Bytes, value, returns, arith, inl, if◌then◌else◌,
}
use esp32_remote_boot.Microlink.Stream.{
  stream_closed, derp, h2, FrameReader, complete, incomplete, fill, copy, feed_payload,
  open_payload, feed, reset, frame_length, refuses,
}
use esp32_remote_boot.Microlink.Stream.Fragments.{IsReader, feed-append}
use esp32_remote_boot.Microlink.Stream.Whole.{holding}
use esp32_remote_boot.Microlink.H2.{build_data_frame, write_frame_header}
use esp32_remote_boot.Microlink.H2Data.{h2_feed, feed_data, deliver_content, stream_of}
use esp32_remote_boot.Microlink.H2Data.Built.{behind, h2_feed-build_data_frame}
use esp32_remote_boot.Microlink.H2.Frames.{feed-build_data_frame}
use esp32_remote_boot.Microlink.JsonScan.{
  skip_space, string_from, skip_string, skip_digits, skip_number, after_item, items, brackets,
  member, skip_array, skip_object, literal, skip_scalar, skip_value_depth, skip_value,
}
use esp32_remote_boot.Microlink.JsonScan.Bounds.{skip_value-Passes}
use esp32_remote_boot.Microlink.Policy.{Lease}
use esp32_remote_boot.Microlink.Policy.Clock.{IsLease}

abbrev with_room : ℕ → Bool
with_room n = true

-- a DERP frame of type 4 with three bytes
abbrev demo_header : Bytes
demo_header = 4 ∷ 0 ∷ 0 ∷ 0 ∷ 3 ∷ []

abbrev demo_body : Bytes
demo_body = 10 ∷ 11 ∷ 12 ∷ []

-- the reader that has the header and one byte
abbrev part_reader : FrameReader
part_reader = record reset { header = demo_header; size = 3; used = 1; payload = some (10 ∷ []) }

reset-IsReader : IsReader reset
reset-IsReader = record { unopened = λ e. refl; in_range = λ p e. omega arith }

feed_demo :
    feed reset derp 1000 none with_room (demo_header ++ (10 ∷ []))
    ≡ value (part_reader, ([], incomplete))
unfolding feed fill feed_payload open_payload frame_length refuses copy
feed_demo = refl

feed-append_example :
    (feed reset derp 1000 none with_room (demo_header ++ (10 ∷ []))
        ≡ value (part_reader, ([], incomplete))
      → (◌≡◌ {A = Bytes} [] [])
        × (feed reset derp 1000 none with_room ((demo_header ++ (10 ∷ [])) ++ (11 ∷ 12 ∷ 13 ∷ []))
            ≡ feed part_reader derp 1000 none with_room (11 ∷ 12 ∷ 13 ∷ [])))
    × (feed reset derp 1000 none with_room (demo_header ++ (10 ∷ []))
          ≡ value (part_reader, ([], complete))
        → feed reset derp 1000 none with_room ((demo_header ++ (10 ∷ [])) ++ (11 ∷ 12 ∷ 13 ∷ []))
          ≡ value (part_reader, (11 ∷ 12 ∷ 13 ∷ [], complete)))
feed-append_example =
    feed-append derp 1000 none with_room reset (demo_header ++ (10 ∷ [])) (11 ∷ 12 ∷ 13 ∷ [])
      part_reader [] reset-IsReader

length_demo : frame_length derp demo_header ≡ value (length demo_body)
unfolding frame_length
length_demo = refl

refuses_demo : refuses derp 4 (length demo_body) ≡ false
unfolding refuses
refuses_demo = refl

data_demo :
    build_data_frame 100 demo_body 1 true ≡ some (0 ∷ 0 ∷ 3 ∷ 0 ∷ 1 ∷ 0 ∷ 0 ∷ 0 ∷ 1 ∷ demo_body)
unfolding build_data_frame write_frame_header
data_demo = refl

feed-build_data_frame_example :
    (length {A = ℕ} (0 ∷ 0 ∷ 3 ∷ 0 ∷ 1 ∷ 0 ∷ 0 ∷ 0 ∷ 1 ∷ demo_body) ≤ 100)
    × (feed reset h2 1000 none with_room
          ((0 ∷ 0 ∷ 3 ∷ 0 ∷ 1 ∷ 0 ∷ 0 ∷ 0 ∷ 1 ∷ demo_body) ++ (13 ∷ []))
        ≡ value (
          holding (write_frame_header (length demo_body) 0 (if true then 1 else 0) 1) demo_body,
          (13 ∷ [], complete),
        ))
feed-build_data_frame_example =
    feed-build_data_frame 100 1 true 1000 with_room demo_body
      (0 ∷ 0 ∷ 3 ∷ 0 ∷ 1 ∷ 0 ∷ 0 ∷ 0 ∷ 1 ∷ demo_body) (13 ∷ []) (omega arith) (omega arith) refl
      data_demo

abbrev no_lease : Lease
no_lease = record { storage = none; capacity = 0 }

no_lease-IsLease : IsLease no_lease
unfolding IsLease
no_lease-IsLease = inl (refl, refl)

-- {"a":[1]} with a byte behind it
abbrev demo_json : Bytes
demo_json = b'{' ∷ 34 ∷ b'a' ∷ 34 ∷ b':' ∷ b'[' ∷ b'1' ∷ b']' ∷ b'}' ∷ b' ' ∷ []

skip_value_demo : skip_value demo_json ≡ value (some (b' ' ∷ []))
unfolding skip_value skip_value_depth skip_space skip_object skip_array brackets items member
    skip_string string_from after_item skip_scalar literal skip_number skip_digits
skip_value_demo = refl

-- "\" with a NUL behind the backslash is passed as a string
nul_escape_demo : skip_string (34 ∷ 92 ∷ 0 ∷ 34 ∷ []) ≡ some []
unfolding skip_string string_from
nul_escape_demo = refl

skip_value-Passes_example :
    (returns (skip_value demo_json) ≡ true)
    × ((q : Bytes) → skip_value demo_json ≡ value (some q) → length q < length demo_json)
skip_value-Passes_example = skip_value-Passes demo_json

abbrev append_consumer : ℕ → Bytes → Bytes → Option Bytes
append_consumer stream fragment acc = some (acc ++ fragment)

one_differs : ◌≢◌ {A = ℕ} 1 5
one_differs e = absurd (omega (arith, e))

h2_feed-build_data_frame_example :
    h2_feed append_consumer reset
      ((0 ∷ 0 ∷ 3 ∷ 0 ∷ 1 ∷ 0 ∷ 0 ∷ 0 ∷ 1 ∷ demo_body) ++ (13 ∷ []))
      1000
      with_room
      (4 ∷ [])
    ≡ value (
      behind (write_frame_header (length demo_body) 0 (if true then 1 else 0) 1) demo_body,
      (13 ∷ [], complete),
      4 ∷ demo_body,
    )
h2_feed-build_data_frame_example =
    h2_feed-build_data_frame append_consumer 100 1 1000 true with_room demo_body
      (0 ∷ 0 ∷ 3 ∷ 0 ∷ 1 ∷ 0 ∷ 0 ∷ 0 ∷ 1 ∷ demo_body) (13 ∷ []) (4 ∷ []) (4 ∷ demo_body)
      (omega arith) (omega arith) (omega arith) (omega arith) (inl one_differs) refl data_demo

-- a padded frame in two parts: the padding is passed over
padded_demo :
    (h2_feed append_consumer reset
        (0 ∷ 0 ∷ 4 ∷ 0 ∷ 8 ∷ 0 ∷ 0 ∷ 0 ∷ 1 ∷ 2 ∷ 7 ∷ [])
        1000
        with_room
        []
      >>= λ r. h2_feed append_consumer r.0 (0 ∷ 0 ∷ []) 1000 with_room r.2 >>= λ q. value (q.2))
    ≡ value (7 ∷ [])
unfolding h2_feed feed_data deliver_content stream_of stream_closed fill frame_length
padded_demo = refl

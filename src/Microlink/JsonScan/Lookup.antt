-- ===== src/Microlink/JsonScan/Lookup.antt =====
-- components/microlink/src/ml_json_scan.c: `ml_json_object_get` and `ml_json_array_next`. A slice that
-- is found is the list of its bytes; the cursor is an offset into the array.
use esp32_remote_boot.Prelude.{
  ℕ, zero, suc, ◌+◌, ◌-◌, Bool, ◌&&◌, Option, none, some, [], ◌∷◌, ◌==◌, length, take, drop, same,
  Bytes, Access, fault, value, ◌>>=◌, if◌then◌else◌,
}
use esp32_remote_boot.Microlink.JsonScan.{skip_space, skip_string, skip_value, object_valid}

-- `string_key_equals`, for a string from `start` on that ends before `end`
unfoldable pub key_equals : Bytes → Bytes → Bytes → Bool
key_equals start end key =
    length start - length end == length key + 2 && same (take (length key) (drop 1 start)) key

-- a character that is asked for, behind space
unfoldable pub expect : ℕ → Bytes → Option Bytes
expect c p = elim (skip_space p) [ [] ↦ none | (b ∷ q) ↦ if b == c then some q else none ]

-- The loop of `ml_json_object_get`, from the start of a member on
unfoldable pub get_from : ℕ → Bytes → Bytes → Access (Option Bytes)
get_from zero key p = fault
get_from (suc fuel) key p =
    let start = skip_space p in
    elim (expect b'}' p) [
      | some _ ↦ value none
      | none ↦ elim (skip_string start) [
        | none ↦ value none
        | some key_end ↦ elim (expect b':' key_end) [
          | none ↦ value none
          | some r ↦ (do
            let value_start = skip_space r
            end ← skip_value value_start
            elim end [
              | none ↦ value none
              | some value_end ↦
                  if key_equals start key_end key
                  then value (some (take (length value_start - length value_end) value_start))
                  else elim (expect b',' value_end) [
                    | none ↦ value none
                    | some next ↦ get_from fuel key next
                  ]
            ])
        ]
      ]
    ]

-- `ml_json_object_get`, for a key and a value that are not NULL
unfoldable pub object_get : Bytes → Bytes → Access (Option Bytes)
object_get object key = elim (expect b'{' object) [
  | none ↦ value none
  | some p ↦ (do
    valid ← object_valid object
    if valid then get_from (suc (length p)) key p else value none)
]

-- the first call on an array: its check, and the bytes behind the bracket
unfoldable pub array_start : Bytes → Access (Option Bytes)
array_start array = elim (expect b'[' array) [
  | none ↦ value none
  | some p ↦ (do
    end ← skip_value (skip_space array)
    value
        (elim end [ none ↦ none | some q ↦ elim (skip_space q) [ [] ↦ some p | (_ ∷ _) ↦ none ] ]))
]

-- a later call: the bytes behind the cursor and a comma, if there is one
unfoldable pub array_continue : Bytes → ℕ → Bytes
array_continue array cursor =
    let p = skip_space (drop cursor array) in elim (expect b',' p) [ none ↦ p | some q ↦ q ]

-- `ml_json_array_next`: the element, and the cursor behind it
unfoldable pub array_next : Bytes → ℕ → Access (Option (Bytes × ℕ))
array_next array cursor = do
  from ← if cursor == 0 then array_start array else value (some (array_continue array cursor))
  elim from [
    | none ↦ value none
    | some p ↦ elim (skip_space p) [
      | [] ↦ value none
      | (b ∷ q) ↦ if b == b']' then value none else do
        end ← skip_value (b ∷ q)
        value (elim end [
          | none ↦ none
          | some r ↦ some (take (length (b ∷ q) - length r) (b ∷ q), length array - length r)
        ])
    ]
  ]

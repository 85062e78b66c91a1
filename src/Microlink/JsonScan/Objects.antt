-- ===== src/Microlink/JsonScan/Objects.antt =====
-- `ml_json_array_next` moves on, and `ml_json_object_get` ends.
use esp32_remote_boot.Prelude.{
  ℕ, zero, suc, ◌-◌, ◌≤◌, ◌<◌, ◌≡◌, inl, inr, ap, true, Bool-cases, Option, none, some,
  Option-cases, ◌∷◌, ◌==◌, length, length-drop, drop, Bytes, Access, Access-cases, value, returns,
  if◌then◌else◌, arith,
}
use esp32_remote_boot.Microlink.JsonScan.{skip_space, skip_string, skip_value}
use esp32_remote_boot.Microlink.JsonScan.Bounds.{
  Bytes-cases, skip_space-le, skip_string-lt, skip_value-Passes, object_valid-returns,
}
use esp32_remote_boot.Microlink.JsonScan.Lookup.{
  expect, get_from, object_get, array_start, array_continue, array_next, key_equals,
}

pub expect-lt : (c : ℕ) (p q : Bytes) → expect c p ≡ some q → length q < length p
unfolding expect
expect-lt c p q h = elim (Bytes-cases (skip_space p)) [
  | inl e ↦ absurd (ground arith)
  | inr (b, t, e) ↦ let l = ap length e in ground (arith, skip_space-le p, l)
]

get_from-returns :
    (fuel : ℕ) (key p : Bytes) → length p < fuel → returns (get_from fuel key p) ≡ true
unfolding get_from
get_from-returns zero key p l = absurd (omega arith)
get_from-returns (suc fuel) key p l = elim (Option-cases (expect b'}' p)) [
  | inr (_, e) ↦ ground (arith, e)
  | inl e ↦ elim (Option-cases (skip_string (skip_space p))) [
    | inl e1 ↦ ground (arith, e)
    | inr (k, e1) ↦ elim (Option-cases (expect b':' k)) [
      | inl e2 ↦ ground (arith, e, e1)
      | inr (r, e2) ↦ elim (Access-cases (skip_value (skip_space r))) [
        | inl bad ↦ absurd (ground (arith, (skip_value-Passes (skip_space r)).0))
        | inr (none, e3) ↦ ground (arith, e, e1, e2)
        | inr (some v, e3) ↦ elim (Bool-cases (key_equals (skip_space p) k key)) [
          | inl yes_key ↦ ground (arith, e, e1, e2)
          | inr other ↦ elim (Option-cases (expect b',' v)) [
            | inl e4 ↦ ground (arith, e, e1, e2)
            | inr (t, e4) ↦
                let less : length t < fuel = omega (
                  arith,
                  expect-lt b',' v t e4,
                  (skip_value-Passes (skip_space r)).1 v e3,
                  skip_space-le r,
                  expect-lt b':' k r e2,
                  skip_string-lt (skip_space p) k e1,
                  skip_space-le p,
                ) in
                ground (arith, e, e1, e2, e3, other, e4, get_from-returns fuel key t less)
          ]
        ]
      ]
    ]
  ]
]

-- The search for a key ends on any slice, and never reads past it.
pub object_get-returns : (object key : Bytes) → returns (object_get object key) ≡ true
unfolding object_get
object_get-returns object key = elim (Option-cases (expect b'{' object)) [
  | inl e ↦ ground (arith, e)
  | inr (p, e) ↦
      ground (
        arith,
        e,
        object_valid-returns object,
        get_from-returns (suc (length p)) key p (omega arith),
      )
]

array_start-lt : (array p : Bytes) → array_start array ≡ value (some p) → length p < length array
unfolding array_start
array_start-lt array p h = elim (Option-cases (expect b'[' array)) [
  | inl e ↦ absurd (ground (arith, e))
  | inr (q, e) ↦ elim (Access-cases (skip_value (skip_space array))) [
    | inl bad ↦ absurd (ground (arith, e))
    | inr (none, e1) ↦ absurd (ground (arith, e))
    | inr (some r, e1) ↦ elim (Bytes-cases (skip_space r)) [
      | inl e2 ↦ ground (arith, e, expect-lt b'[' array q e)
      | inr (b, t, e2) ↦ absurd (ground (arith, e))
    ]
  ]
]

array_continue-le :
    (array : Bytes) (cursor : ℕ) → length (array_continue array cursor) ≤ length array - cursor
unfolding array_continue
array_continue-le array cursor =
    let within = skip_space-le (drop cursor array) in
    elim (Option-cases (expect b',' (skip_space (drop cursor array)))) [
      | inl e ↦ ground (arith, length-drop cursor array)
      | inr (q, e) ↦
          ground
            (arith, length-drop cursor array, expect-lt b',' (skip_space (drop cursor array)) q e)
    ]

-- where an element is looked for
array_from : Bytes → ℕ → Access (Option Bytes)
array_from array cursor =
    if cursor == 0 then array_start array else value (some (array_continue array cursor))

array_from-le :
    (array : Bytes) (cursor : ℕ) (p : Bytes)
    → array_from array cursor ≡ value (some p)
    → length p ≤ length array - cursor
unfolding array_from
array_from-le array cursor p h = elim (Bool-cases (cursor == 0)) [
  | inl first ↦ ground (arith, array_start-lt array p)
  | inr later ↦ ground (arith, array_continue-le array cursor)
]

array_next-lt :
    (array : Bytes) (cursor : ℕ) (element : Bytes) (cursor' : ℕ)
    → array_next array cursor ≡ value (some (element, cursor'))
    → (cursor < cursor') × (cursor' ≤ length array)
unfolding array_next array_from
array_next-lt array cursor element cursor' h = elim (Access-cases (array_from array cursor)) [
  | inl bad ↦ absurd (ground arith)
  | inr (none, e) ↦ absurd (ground arith)
  | inr (some p, e) ↦ elim (Bytes-cases (skip_space p)) [
    | inl e1 ↦ absurd (ground (arith, e1))
    | inr (b, q, e1) ↦ elim (Access-cases (skip_value (b ∷ q))) [
      | inl bad ↦ absurd (ground (arith, e1))
      | inr (none, e2) ↦ absurd (ground (arith, e1))
      | inr (some r, e2) ↦
          let l = ap length e1 in
          ground (
            arith,
            e1,
            l,
            skip_space-le p,
            array_from-le array cursor p e,
            (skip_value-Passes (b ∷ q)).1 r e2,
          )
    ]
  ]
]

array_start-returns : (array : Bytes) → returns (array_start array) ≡ true
unfolding array_start
array_start-returns array = ground (arith, (skip_value-Passes (skip_space array)).0)

array_next-returns : (array : Bytes) (cursor : ℕ) → returns (array_next array cursor) ≡ true
unfolding array_next array_from
array_next-returns array cursor = elim (Access-cases (array_from array cursor)) [
  | inl bad ↦ ground (arith, array_start-returns array)
  | inr (none, e) ↦ ground arith
  | inr (some p, e) ↦ elim (Bytes-cases (skip_space p)) [
    | inl e1 ↦ ground (arith, e1)
    | inr (b, q, e1) ↦ ground (arith, e1, (skip_value-Passes (b ∷ q)).0)
  ]
]

-- On any array and cursor, the search for the next element ends and never reads past the array. Where it
-- finds one, it moves the cursor on, and not past the end: so a loop of calls ends.
pub array_next-advances :
    (array : Bytes) (cursor : ℕ)
    → (returns (array_next array cursor) ≡ true)
      × ((element : Bytes) (cursor' : ℕ)
          → array_next array cursor ≡ value (some (element, cursor'))
          → (cursor < cursor') × (cursor' ≤ length array))
array_next-advances array cursor = (array_next-returns array cursor, array_next-lt array cursor)

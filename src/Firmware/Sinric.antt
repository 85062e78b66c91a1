-- ===== src/Firmware/Sinric.antt =====
-- firmware/include/sinric_policy.hpp: the readiness of the voice service, its device ids, and the reset
-- of a device behind a dispatch. A C string is the list of its bytes, and none for a null pointer.
use esp32_remote_boot.Prelude.{
  ℕ, suc, ◌+◌, ◌-◌, ◌%◌, ◌^◌, ◌≤◌, ◌<◌, ◌≡◌, ◌≢◌, refl, Bool, true, false, not, ◌&&◌, ◌||◌, Option,
  none, some, List, [], ◌∷◌, ltb, leb, ◌==◌, if◌then◌else◌, length, arith,
}
use esp32_remote_boot.Firmware.{elapsed_ms, is_nonnegative}
use esp32_remote_boot.Firmware.Names.{hex_value_of}
use esp32_remote_boot.Firmware.Power.{same}

-- `SinricReadiness`
pub data Readiness : Type 0 where
  disabled ready missing_credentials : Readiness

abbrev pub is_short : Option (List ℕ) → Bool
is_short none = true
is_short (some s) = ltb (length s) 10

-- `sinricReadiness`
unfoldable pub readiness : Bool → Option (List ℕ) → Option (List ℕ) → Readiness
readiness enabled key secret =
    if not enabled
    then disabled
    else if is_short key || is_short secret
    then missing_credentials
    else ready

-- `"0123456789abcdef"[digit]`
unfoldable pub lower_digit : ℕ → ℕ
lower_digit d = if ltb d 10 then b'0' + d else b'a' + d - 10

-- the loop of `normalizeSinricDeviceId`
unfoldable pub normalize_from : List ℕ → Option (List ℕ)
normalize_from [] = some []
normalize_from (c ∷ cs) = elim (hex_value_of c) [
  | none ↦ none
  | some d ↦ elim (normalize_from cs) [ none ↦ none | some rest ↦ some (lower_digit d ∷ rest) ]
]

-- `normalizeSinricDeviceId`
unfoldable pub normalize : Option (List ℕ) → Option (List ℕ)
normalize none = none
normalize (some s) = if length s == 24 then normalize_from s else none

-- `sinricDeviceIdEqual`
unfoldable pub device_id_equal : Option (List ℕ) → Option (List ℕ) → Bool
device_id_equal left right = elim (normalize left) [
  | none ↦ false
  | some a ↦ elim (normalize right) [ none ↦ false | some b ↦ same a b ]
]

-- `sinricSlotForDevice`; none is -1
unfoldable pub slot_from : ℕ → List (Option (List ℕ)) → Option (List ℕ) → Option ℕ
slot_from i [] id = none
slot_from i (x ∷ xs) id =
    let rest = slot_from (suc i) xs id in if device_id_equal x id then some i else rest

unfoldable pub slot_for_device : List (Option (List ℕ)) → Option (List ℕ) → Option ℕ
slot_for_device ids id = slot_from 0 ids id

-- `acceptSinricDispatch`
unfoldable pub accept_dispatch : ℕ → ℕ → ℕ → Bool × ℕ
accept_dispatch status now reset_at =
    if not (status == 202) then (false, reset_at) else (true, (now + 1000) % 2 ^ 32)

-- `sinricResetDue`
unfoldable pub reset_due : ℕ → ℕ → Bool
reset_due due now = not (due == 0) && is_nonnegative (elapsed_ms now due)

-- `nextSinricReset`
unfoldable pub next_reset : ℕ → Bool → ℕ
next_reset now sent = if sent then 0 else (now + 1000) % 2 ^ 32

-- An accepted dispatch asks for a reset that is due after a second and not before, for more than twenty
-- days, whatever the clock shows, unless the time that is kept is the 0 that stands for no reset; a reset that could not be sent is tried again
-- a second later; and one that was sent is not due again.
pub accept_dispatch-due :
    (now t reset_at : ℕ)
    → now < 2 ^ 32
    → t < 2 ^ 31
    → ((now + 1000) % 2 ^ 32 ≢ 0
        → (reset_due (accept_dispatch 202 now reset_at).1 ((now + t) % 2 ^ 32) ≡ leb 1000 t)
          × (reset_due (next_reset now false) ((now + t) % 2 ^ 32) ≡ leb 1000 t))
      × (reset_due (next_reset now true) ((now + t) % 2 ^ 32) ≡ false)
      × ((status : ℕ) → status ≢ 202 → accept_dispatch status now reset_at ≡ (false, reset_at))
unfolding accept_dispatch reset_due next_reset
accept_dispatch-due now t reset_at w h =
    let due = (now + 1000) % 2 ^ 32 in
    let wait : ℕ = elapsed_ms ((now + t) % 2 ^ 32) ((now + 1000) % 2 ^ 32) in
    let early : t < 1000 → wait ≡ 2 ^ 32 + t - 1000 = λ l. omega (arith, l) in
    let late : 1000 ≤ t → wait ≡ t - 1000 = λ l. omega (arith, l) in
    (
      (λ n. (ground (arith, n, early, late), ground (arith, n, early, late))),
      refl,
      λ status n. ground (arith, n),
    )

-- ===== src/Firmware/Limits.antt =====
-- The rate limits: `PairingLimits` and `generationNewer` of firmware/include/multi_pc_policy.hpp,.
use esp32_remote_boot.Prelude.{
  ℕ, ◌+◌, ◌^◌, ◌≤◌, ◌<◌, ◌≡◌, Bool, true, false, not, ◌&&◌, List, [], ◌∷◌, ltb, leb, ◌==◌,
  if◌then◌else◌, arith,
}
use esp32_remote_boot.Firmware.{elapsed_ms}

-- `generationNewer`: the sign of the 32-bit difference
unfoldable pub generation_newer : ℕ → ℕ → Bool
generation_newer a b = not (elapsed_ms a b == 0) && ltb (elapsed_ms a b) (2 ^ 31)

pub record PairingLimits : Type 0 where
  pub opened : ℕ
  pub start_at : ℕ
  pub lookup_at : ℕ
  pub blocked_at : ℕ
  pub starts : ℕ
  pub lookups : ℕ
  pub enabled : Bool
  pub blocked : Bool

-- `enable`
unfoldable pub enable : PairingLimits → ℕ → PairingLimits
enable l now = record l { enabled = true; opened = now }

-- `open`
unfoldable pub is_open : PairingLimits → ℕ → Bool
is_open l now = l.enabled && ltb (elapsed_ms now l.opened) 300000

-- the first line of `startAllowed`
unfoldable pub start_window : PairingLimits → ℕ → PairingLimits
start_window l now =
    if leb 60000 (elapsed_ms now l.start_at) then record l { start_at = now; starts = 0 } else l

-- the rest of it
unfoldable pub count_start : PairingLimits → Bool × PairingLimits
count_start l = if leb 6 l.starts then (false, l) else (true, record l { starts = l.starts + 1 })

-- `startAllowed`
unfoldable pub start_allowed : PairingLimits → ℕ → Bool × PairingLimits
start_allowed l now = count_start (start_window l now)

-- the second line of `lookupAllowed`
unfoldable pub lookup_window : PairingLimits → ℕ → PairingLimits
lookup_window l now =
    if leb 60000 (elapsed_ms now l.lookup_at) then record l { lookup_at = now; lookups = 0 } else l

-- and its end
unfoldable pub count_lookup : PairingLimits → ℕ → Bool × PairingLimits
count_lookup l now =
    if leb 5 l.lookups
    then (false, record l { blocked = true; blocked_at = now })
    else (true, record l { lookups = l.lookups + 1 })

-- `lookupAllowed`
unfoldable pub lookup_allowed : PairingLimits → ℕ → Bool × PairingLimits
lookup_allowed l now =
    if l.blocked
    then (if ltb (elapsed_ms now l.blocked_at) 60000
        then (false, l)
        else count_lookup
            (lookup_window (record l { blocked = false; lookups = 0; lookup_at = now }) now) now)
    else count_lookup (lookup_window l now) now

-- one number for a Boolean
abbrev pub tally : Bool → ℕ
tally true = 1
tally false = 0

-- how many starts of a sequence are allowed
unfoldable pub starts_allowed : PairingLimits → List ℕ → ℕ
starts_allowed l [] = 0
starts_allowed l (now ∷ times) =
    tally (start_allowed l now).0 + starts_allowed (start_allowed l now).1 times

unfoldable pub lookups_allowed : PairingLimits → List ℕ → ℕ
lookups_allowed l [] = 0
lookups_allowed l (now ∷ times) =
    tally (lookup_allowed l now).0 + lookups_allowed (lookup_allowed l now).1 times

-- the times less than a minute behind one
abbrev pub AllWithin : ℕ → List ℕ → Type 0
AllWithin since [] = Unit {0}
AllWithin since (now ∷ times) = (elapsed_ms now since < 60000) × AllWithin since times

-- A step of the count, in a window that has begun.
start_step :
    (l : PairingLimits) (now : ℕ)
    → elapsed_ms now l.start_at < 60000
    → ((start_allowed l now).1.start_at ≡ l.start_at)
      × (tally (start_allowed l now).0 + l.starts ≡ (start_allowed l now).1.starts)
      × (l.starts ≤ 6 → (start_allowed l now).1.starts ≤ 6)
unfolding start_allowed start_window count_start
start_step l now h = ground arith

-- In a minute from the start of a window, with the starts that the window has had, six starts are
-- allowed at most, however many are tried.
starts_bound :
    (l : PairingLimits) (times : List ℕ)
    → l.starts ≤ 6
    → AllWithin l.start_at times
    → starts_allowed l times + l.starts ≤ 6
unfolding starts_allowed
starts_bound l [] h w = omega (arith, h)
starts_bound l (now ∷ times) h w =
    let (same, count, few) = start_step l now w.0 in
    let rest = starts_bound (start_allowed l now).1 times (few h) (rw same w.1) in
    omega (arith, count, rest)

first_start :
    (l : PairingLimits) (now : ℕ)
    → 60000 ≤ elapsed_ms now l.start_at
    → ((start_allowed l now).0 ≡ true)
      × ((start_allowed l now).1.start_at ≡ now)
      × ((start_allowed l now).1.starts ≡ 1)
unfolding start_allowed start_window count_start
first_start l now h = ground arith

-- A start more than a minute behind the window's begin is allowed and begins a window; in the
-- minute from it, five more starts are allowed at most, whatever the times are at which they are tried.
pub start_allowed-window :
    (l : PairingLimits) (now : ℕ) (times : List ℕ)
    → 60000 ≤ elapsed_ms now l.start_at
    → AllWithin now times
    → ((start_allowed l now).0 ≡ true) × (starts_allowed (start_allowed l now).1 times ≤ 5)
start_allowed-window l now times h w =
    let (yes_now, at_now, one) = first_start l now h in
    let bound = starts_bound (start_allowed l now).1 times (omega (arith, one)) (rw at_now w) in
    (yes_now, omega (arith, bound, one))

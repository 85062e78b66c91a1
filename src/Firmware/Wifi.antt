-- ===== src/Firmware/Wifi.antt =====
-- firmware/include/wifi_reconnect_policy.hpp: when the board tries to join the WiFi again.
use esp32_remote_boot.Prelude.{
  ℕ, ◌+◌, ◌-◌, ◌%◌, ◌^◌, ◌≤◌, ◌<◌, ◌≡◌, refl, Bool, true, false, not, ◌&&◌, ◌||◌, List, [], ◌∷◌,
  leb, if◌then◌else◌, arith,
}
use esp32_remote_boot.Firmware.{elapsed_ms, is_nonnegative}

pub record Reconnect : Type 0 where
  pub connected : Bool
  pub attempts : ℕ
  pub next_attempt_at : ℕ
  pub delay_ms : ℕ

-- `reset`
unfoldable pub restart : Reconnect → ℕ → Reconnect
restart p now = record { connected = false; attempts = 0; next_attempt_at = now; delay_ms = 1000 }

-- `observe`
unfoldable pub observe : Reconnect → Bool → ℕ → Reconnect
observe p true now = record p { connected = true; attempts = 0; delay_ms = 1000 }
observe p false now =
    if p.connected
    then record {
      connected = false;
      attempts = 0;
      next_attempt_at = (now + 20000) % 2 ^ 32;
      delay_ms = 1000;
    }
    else p

-- `due`
unfoldable pub due : Reconnect → ℕ → Bool
due p now = not p.connected && is_nonnegative (elapsed_ms now p.next_attempt_at)

-- `recordAttempt`
unfoldable pub record_attempt : Reconnect → ℕ → Reconnect
record_attempt p now = record p {
  attempts = (p.attempts + 1) % 2 ^ 32;
  next_attempt_at = (now + 20000) % 2 ^ 32;
}

-- `retryInMs`
unfoldable pub retry_in_ms : Reconnect → ℕ → ℕ
retry_in_ms p now =
    if p.connected || is_nonnegative (elapsed_ms now p.next_attempt_at)
    then 0
    else elapsed_ms p.next_attempt_at now

-- what the main loop does between two attempts
pub data Event : Type 0 where
  looks : Bool → ℕ → Event

unfoldable pub watch : Reconnect → List Event → Reconnect
watch p [] = p
watch p (looks up now ∷ es) = watch (observe p up now) es

-- the attempt's time is kept as long as the WiFi is down
abbrev pub AllDown : List Event → Type 0
AllDown [] = Unit {0}
AllDown (looks up now ∷ es) = (up ≡ false) × AllDown es

watch_down : (p : Reconnect) (es : List Event) → p.connected ≡ false → AllDown es → watch p es ≡ p
unfolding watch observe
watch_down p [] d h = refl
watch_down p (looks up now ∷ es) d h = ground (arith, h.0, watch_down p es d h.1)

-- Behind an attempt of a board that is not connected, and however often the WiFi is seen to be down
-- then, the next attempt is due after 20 s and not before, for more than twenty days; and the time
-- that is shown to be left is what is left of the 20 s.
pub record_attempt-due :
    (p : Reconnect) (now t : ℕ) (es : List Event)
    → p.connected ≡ false
    → now < 2 ^ 32
    → t < 2 ^ 31
    → AllDown es
    → (due (watch (record_attempt p now) es) ((now + t) % 2 ^ 32) ≡ leb 20000 t)
      × (retry_in_ms (watch (record_attempt p now) es) ((now + t) % 2 ^ 32) ≡ 20000 - t)
record_attempt-due p now t es d w h down =
    let same : watch (record_attempt p now) es ≡ record_attempt p now =
      watch_down (record_attempt p now) es (unfold record_attempt in d) down in
    let wait : ℕ = elapsed_ms ((now + t) % 2 ^ 32) ((now + 20000) % 2 ^ 32) in
    let left : ℕ = elapsed_ms ((now + 20000) % 2 ^ 32) ((now + t) % 2 ^ 32) in
    let early : t < 20000 → (wait ≡ 2 ^ 32 + t - 20000) × (left ≡ 20000 - t) =
      λ l. (omega (arith, l), omega (arith, l)) in
    let late : 20000 ≤ t → wait ≡ t - 20000 = λ l. omega (arith, l) in
    rw same (
      (unfold due record_attempt in ground (arith, early, late)),
      (unfold retry_in_ms record_attempt in ground (arith, early, late)),
    )

-- While the board is connected no attempt is due; when the connection is lost, the next attempt
-- is due 20 s later and not before.
pub observe-due :
    (p : Reconnect) (seen now t : ℕ)
    → now < 2 ^ 32
    → t < 2 ^ 31
    → (due (observe p true seen) now ≡ false)
      × (due (observe (observe p true seen) false now) ((now + t) % 2 ^ 32) ≡ leb 20000 t)
unfolding observe due
observe-due p seen now t w h =
    let wait : ℕ = elapsed_ms ((now + t) % 2 ^ 32) ((now + 20000) % 2 ^ 32) in
    let early : t < 20000 → wait ≡ 2 ^ 32 + t - 20000 = λ l. omega (arith, l) in
    let late : 20000 ≤ t → wait ≡ t - 20000 = λ l. omega (arith, l) in
    (refl, ground (arith, early, late))

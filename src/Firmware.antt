-- ===== src/Firmware.antt =====
-- firmware: the board's policies, headers of firmware/include and the VPN's life in
-- firmware/src/microlink_runtime.cpp. A clock is a 32-bit number of milliseconds that wraps around.
pub mod Boot
pub mod Power
pub mod Wifi
pub mod Limits
pub mod Budget
pub mod Vpn
pub mod Http
pub mod Sinric
pub mod Identity
pub mod Names
pub mod Discovery
mod Tests
use esp32_remote_boot.Prelude.{ℕ, ◌+◌, ◌-◌, ◌%◌, ◌^◌, ◌≡◌, ◌<◌, Bool, true, ltb, arith}

-- `uint32_t(now - since)`
abbrev pub elapsed_ms : ℕ → ℕ → ℕ
elapsed_ms now since = (now + 2 ^ 32 - since) % 2 ^ 32

-- `static_cast<int32_t>(x) >= 0`
abbrev pub is_nonnegative : ℕ → Bool
is_nonnegative x = ltb x (2 ^ 31)

pub elapsed_since :
    (since t : ℕ) → since < 2 ^ 32 → t < 2 ^ 32 → elapsed_ms ((since + t) % 2 ^ 32) since ≡ t
elapsed_since since t h k = omega arith

-- ===== src/Firmware/Http/Asset.antt =====
-- An asset that is sent is sent whole and in order.
use esp32_remote_boot.Prelude.{ℕ, ◌≡◌, List, [], ◌∷◌, ◌++◌}
use esp32_remote_boot.Firmware.Http.{Sent, complete, failed, running}

unfoldable pub joined : List (List ℕ) → List ℕ
joined [] = []
joined (x ∷ xs) = x ++ joined xs

-- What is known of an end: all of the bytes have been taken, or some of them, from the first on.
unfoldable pub IsPrefix : List ℕ → Sent → Type 0
IsPrefix bytes (complete taken) = joined taken ≡ bytes
IsPrefix bytes (failed taken) = (rest : List ℕ) × (joined taken ++ rest ≡ bytes)
IsPrefix bytes (running taken) = (rest : List ℕ) × (joined taken ++ rest ≡ bytes)

-- ===== src/Firmware/Http/Waiting.antt =====
-- Which connection is served, which ones are stopped, and how many wait.
use esp32_remote_boot.Prelude.{
  ℕ, ◌≡◌, refl, Bool, true, false, not, ◌&&◌, none, some, List, [], ◌∷◌, ◌++◌, leb, if◌then◌else◌,
  arith,
}
use esp32_remote_boot.Firmware.{elapsed_ms}
use esp32_remote_boot.Firmware.Http.{Slot, take_ready}

module _ {C : Type 0} (available connected : C → Bool) where
  -- connected, and younger than the time that an idle connection has
  is_live : ℕ → ℕ → Slot C → Bool
  is_live now idle s = connected s.client && not (leb idle (elapsed_ms now s.since))

  unfoldable pub live : ℕ → ℕ → List (Slot C) → List (Slot C)
  unfolding is_live
  live now idle [] = []
  live now idle (s ∷ ss) =
      let rest = live now idle ss in if is_live now idle s then s ∷ rest else rest

  unfoldable pub dead : ℕ → ℕ → List (Slot C) → List C
  unfolding is_live
  dead now idle [] = []
  dead now idle (s ∷ ss) =
      let rest = dead now idle ss in if is_live now idle s then rest else s.client ∷ rest

  abbrev pub AllSilent : List (Slot C) → Type 0
  AllSilent [] = Unit {0}
  AllSilent (s ∷ ss) = (available s.client ≡ false) × AllSilent ss

  -- The first connection with request bytes is served. Of those before it, the live ones stay and the
  -- others are stopped; those behind it stay. With no such connection none is served, the live
  -- ones stay and the others are stopped.
  pub take_ready-live :
      (now idle : ℕ) (before : List (Slot C)) (s : Slot C) (behind : List (Slot C))
      → AllSilent before
      → available s.client ≡ true
      → (take_ready available connected now idle (before ++ (s ∷ behind))
          ≡ (some s.client, live now idle before ++ behind, dead now idle before))
        × (take_ready available connected now idle before
            ≡ (none, live now idle before, dead now idle before))
  unfolding take_ready live dead
  take_ready-live now idle [] s behind q h = (ground arith, refl)
  take_ready-live now idle (x ∷ before) s behind q h =
      let (a, b) = take_ready-live now idle before s behind q.1 h in
      (ground (arith, q.0, a), ground (arith, q.0, b))

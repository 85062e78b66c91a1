-- ===== src/Firmware/Http.antt =====
-- firmware/include/http_asset.hpp: sending an asset within its deadlines, and the connections that
-- wait for their first bytes.
pub mod Asset
pub mod Waiting
use esp32_remote_boot.Prelude.{
  ℕ, zero, suc, ◌+◌, ◌-◌, ◌%◌, ◌^◌, Bool, true, false, not, ◌&&◌, ◌||◌, Option, none, some, List,
  [], ◌∷◌, ◌++◌, ltb, leb, ◌==◌, if◌then◌else◌, length, take, drop,
}
use esp32_remote_boot.Firmware.{elapsed_ms}

-- One turn of the loop of `sendAssetBytes`, as its callbacks answer: the time, whether the peer is
-- alive, what the write says (`none` for a negative number), and the time behind a write.
pub record Turn : Type 0 where
  pub time : ℕ
  pub alive : Bool
  pub written : Option ℕ
  pub completed : ℕ

-- what is passed to `write`
abbrev pub chunk : List ℕ → List ℕ
chunk rest = take 1024 rest

pub data Sent : Type 0 where
  complete : List (List ℕ) → Sent
  failed : List (List ℕ) → Sent
  running : List (List ℕ) → Sent

-- a deadline of the two has passed
unfoldable pub is_late : ℕ → ℕ → ℕ → ℕ → ℕ → Bool
is_late total idle started progressed time =
    leb total (elapsed_ms time started) || leb idle (elapsed_ms time progressed)

-- What a turn makes of the loop: `none` where the function returns false, else the size that the write
-- has taken.
unfoldable pub turn_result : ℕ → ℕ → ℕ → ℕ → List ℕ → Turn → Option ℕ
turn_result total idle started progressed rest t =
    if not t.alive || is_late total idle started progressed t.time then none else elim t.written [
      | none ↦ none
      | some n ↦
          if ltb (length (chunk rest)) n
          then none
          else if ltb 0 n && is_late total idle started progressed t.completed
          then none
          else some n
    ]

-- `sendAssetBytes` behind its first reading of the clock: `rest` is what is left of the bytes, and the
-- result holds what each write has taken. It is `running` when the turns end first.
unfoldable pub send_from : ℕ → ℕ → ℕ → ℕ → List ℕ → List (List ℕ) → List Turn → Sent
send_from total idle started progressed [] taken turns = complete taken
send_from total idle started progressed (b ∷ bs) taken [] = running taken
send_from total idle started progressed (b ∷ bs) taken (t ∷ turns) =
    elim (turn_result total idle started progressed (b ∷ bs) t) [
      | none ↦ failed taken
      | some zero ↦ send_from total idle started progressed (b ∷ bs) taken turns
      | some (suc n) ↦
          send_from total idle started t.completed (drop (suc n) (b ∷ bs))
            (taken ++ (take (suc n) (b ∷ bs) ∷ [])) turns
    ]

-- `sendAssetBytes`
unfoldable pub send_asset_bytes : ℕ → ℕ → ℕ → List ℕ → List Turn → Sent
send_asset_bytes total idle now bytes turns = send_from total idle now now bytes [] turns

-- `PendingConnections`, its slots up to `count_`: a client and the time at which it was admitted
pub record Slot {ℓ} (C : Type ℓ) : Type ℓ where
  pub client : C
  pub since : ℕ

-- What the server knows of its clients in one call: whether a client has request bytes, and whether it
-- is connected.
module _ {ℓ} {C : Type ℓ} (available connected : C → Bool) where
  -- the loop that looks for the victim: its place is taken out of the slots
  unfoldable pub evict : List (Slot C) → Option (C × List (Slot C))
  evict [] = none
  evict (s ∷ ss) =
      if available s.client
      then elim (evict ss) [ none ↦ none | some found ↦ some (found.0, s ∷ found.1) ]
      else some (s.client, ss)

  -- `admit`, over the clients that `accept` gives; the result has the slots, the clients that were
  -- stopped, and those that were not accepted
  unfoldable pub admit : ℕ → ℕ → List (Slot C) → List C → List (Slot C) × List C × List C
  admit size now slots [] = (slots, [], [])
  admit size now slots (c ∷ queue) =
      let new : Slot C = record { client = c; since = now } in
      if length slots == size
      then elim (evict slots) [
        | none ↦ (slots, c ∷ [], queue)
        | some found ↦
            let rest = admit size now (found.1 ++ (new ∷ [])) queue in
            (rest.0, found.0 ∷ rest.1, rest.2)
      ]
      else admit size now (slots ++ (new ∷ [])) queue

  -- `take`: the client that is moved out, the slots, and the clients that were stopped
  unfoldable pub take_ready : ℕ → ℕ → List (Slot C) → Option C × List (Slot C) × List C
  take_ready now idle [] = (none, [], [])
  take_ready now idle (s ∷ ss) =
      let rest = take_ready now idle ss in
      if available s.client
      then (some s.client, ss, [])
      else if not (connected s.client) || leb idle (elapsed_ms now s.since)
      then (rest.0, rest.1, s.client ∷ rest.2)
      else (rest.0, s ∷ rest.1, rest.2)

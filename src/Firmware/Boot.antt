-- ===== src/Firmware/Boot.antt =====
-- firmware/include/boot_state.hpp: the boot target of a PC, over `CompactEntry`. An `int` id is an
-- option here, and `None` is none. `entries` is the array up to `count`.
pub mod Target
pub mod Reconcile
use esp32_remote_boot.Prelude.{
  ℕ, zero, suc, ◌+◌, ◌*◌, ◌-◌, Bool, true, false, not, ◌&&◌, Option, none, some, List, [], ◌∷◌, ltb,
  leb, ◌==◌, if◌then◌else◌,
}
use esp32_remote_boot.Firmware.{elapsed_ms}

pub record Entry : Type 0 where
  pub id : ℕ
  pub hidden : Bool
  pub blocked : Bool

pub data Behavior : Type 0 where
  default_target last_selected exit : Behavior

pub record BootState : Type 0 where
  pub entries : List Entry
  pub default_id : Option ℕ
  pub last_id : Option ℕ
  pub pending : Option ℕ
  pub fallback : Option ℕ
  pub dispatched_target : Option ℕ
  pub created : ℕ
  pub ttl : ℕ
  pub heartbeat_at : ℕ
  pub heartbeat_expiry : ℕ
  pub dispatched_at : ℕ
  pub heartbeat_seen : Bool
  pub dispatch_seen : Bool
  pub behavior : Behavior

-- the loop of `valid`
unfoldable pub valid_in : List Entry → ℕ → Bool
valid_in [] id = false
valid_in (e ∷ es) id = if e.id == id then not e.blocked else valid_in es id

-- `valid`
unfoldable pub valid : BootState → Option ℕ → Bool
valid s none = false
valid s (some id) = valid_in s.entries id

-- `online`
unfoldable pub online : BootState → ℕ → Bool
online s now = s.heartbeat_seen && ltb (elapsed_ms now s.heartbeat_at) s.heartbeat_expiry

-- `pendingValid`
unfoldable pub pending_valid : BootState → ℕ → Bool
pending_valid s now = valid s s.pending && ltb (elapsed_ms now s.created) s.ttl

-- what the behaviour says, before it is checked
unfoldable pub preferred : BootState → Option ℕ
preferred s = elim s.behavior [
  | default_target ↦ s.default_id
  | last_selected ↦ s.last_id
  | exit ↦ none
]

-- `selected`
unfoldable pub selected : BootState → ℕ → Option ℕ
selected s now =
    if pending_valid s now then s.pending else if valid s (preferred s) then preferred s else none

-- the equality of two ids
unfoldable pub same_id : Option ℕ → Option ℕ → Bool
same_id none none = true
same_id none (some _) = false
same_id (some _) none = false
same_id (some a) (some b) = a == b

-- `dispatch`
unfoldable pub dispatch : BootState → ℕ → Option ℕ × BootState
dispatch s now = elim (selected s now) [
  | none ↦ (none, s)
  | some target ↦
      if s.dispatch_seen
        && same_id (some target) s.dispatched_target
        && ltb (elapsed_ms now s.dispatched_at) 60000
      then (none, s)
      else (
        some target,
        record s { dispatched_target = some target; dispatched_at = now; dispatch_seen = true },
      )
]

-- `request`, with the HTTP status that it gives
unfoldable pub request : BootState → Option ℕ → ℕ → Bool → ℕ × BootState
request s id now force =
    if not (valid s id)
    then (400, s)
    else if online s now && not force
    then (409, s)
    else (202, record s { pending = id; last_id = id; created = now; dispatch_seen = false })

-- `heartbeat`
unfoldable pub heartbeat : BootState → ℕ → Option ℕ → BootState
heartbeat s now id =
    let seen : BootState = record s { heartbeat_at = now; heartbeat_seen = true } in
    if pending_valid seen now && same_id id seen.pending
    then record seen { pending = none }
    else seen

-- one test of `reconcile`
unfoldable pub kept : BootState → Option ℕ → Option ℕ
kept s id = if valid s id then id else none

-- `reconcile`; `valid` reads the entries only, so the order of the tests does not matter
unfoldable pub reconcile : BootState → BootState
reconcile s = record s {
  default_id = kept s s.default_id;
  last_id = kept s s.last_id;
  pending = kept s s.pending;
  fallback = kept s s.fallback;
}

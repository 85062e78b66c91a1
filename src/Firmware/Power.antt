-- ===== src/Firmware/Power.antt =====
-- firmware/include/power_command.hpp: the one power command that waits for the agent. A string is
-- the list of its bytes.
use esp32_remote_boot.Prelude.{
  ℕ, ◌<◌, ◌≡◌, ◌≢◌, refl, ap₂, Bool, true, false, not, ◌&&◌, ◌||◌, List, [], ◌∷◌, ltb, ◌==◌,
  if◌then◌else◌, arith,
}
use esp32_remote_boot.Firmware.{elapsed_ms}

-- `==` on strings
unfoldable pub same : List ℕ → List ℕ → Bool
same [] [] = true
same [] (_ ∷ _) = false
same (_ ∷ _) [] = false
same (a ∷ xs) (b ∷ bs) = a == b && same xs bs

pub same_refl : (s : List ℕ) → same s s ≡ true
unfolding same
same_refl [] = refl
same_refl (a ∷ xs) = ground (arith, same_refl xs)

pub same_sound : (s t : List ℕ) → same s t ≡ true → s ≡ t
unfolding same
same_sound [] [] h = refl
same_sound [] (b ∷ bs) h = absurd (ground arith)
same_sound (a ∷ xs) [] h = absurd (ground arith)
same_sound (a ∷ xs) (b ∷ bs) h =
    ap₂ ◌∷◌ (unfold same in ground arith) (same_sound xs bs (ground arith))

pub record PowerCommand : Type 0 where
  pub id : List ℕ
  pub action : List ℕ
  pub target : List ℕ
  pub session : List ℕ
  pub created : ℕ

abbrev pub shutdown_text : List ℕ
shutdown_text = b's' ∷ b'h' ∷ b'u' ∷ b't' ∷ b'd' ∷ b'o' ∷ b'w' ∷ b'n' ∷ []

-- `clear`
unfoldable pub clear : PowerCommand → PowerCommand
clear p = record p { id = []; action = []; target = []; session = [] }

-- `active`
unfoldable pub active : PowerCommand → ℕ → Bool
active p now = not (same p.id []) && ltb (elapsed_ms now p.created) 30000

-- `enqueue`
unfoldable pub enqueue : PowerCommand → List ℕ → List ℕ → List ℕ → List ℕ → ℕ → Bool × PowerCommand
enqueue p id action target session now = if active p now then (false, p) else (
  true,
  record { id = id; action = action; target = target; session = session; created = now },
)

-- `heartbeat`
unfoldable pub heartbeat : PowerCommand → List ℕ → List ℕ → Bool → ℕ → Bool × PowerCommand
heartbeat p session ack shutdown_allowed now =
    if not (active p now)
      || not (same p.session session)
      || (same p.action shutdown_text && not shutdown_allowed)
    then (false, clear p)
    else if not (same p.id []) && same p.id ack
    then (true, clear p)
    else (false, p)

-- Whether the agent of this heartbeat may still have the command.
pub record IsOpen (p : PowerCommand) (session : List ℕ) (allowed : Bool) (now : ℕ) : Type 0 where
  pub present : p.id ≢ []
  pub in_time : elapsed_ms now p.created < 30000
  pub of_session : p.session ≡ session
  pub permitted : (p.action ≡ shutdown_text) → allowed ≡ true

pub data Beat (p : PowerCommand) (session ack : List ℕ) (allowed : Bool) (now : ℕ)
    : Bool → PowerCommand → Type 0 where
  acknowledged :
      IsOpen p session allowed now → p.id ≡ ack → Beat p session ack allowed now true (clear p)
  waits : IsOpen p session allowed now → p.id ≢ ack → Beat p session ack allowed now false p
  dropped : ¬ IsOpen p session allowed now → Beat p session ack allowed now false (clear p)

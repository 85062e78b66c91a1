-- ===== src/Microlink/Policy.antt =====
-- components/microlink/src: the decisions of ml_io_policy.h and ml_transport_policy.h, and the
-- workspaces of ml_register_scratch.h and ml_coord_workspace.h. A clock is a 32-bit number of
-- milliseconds. The numbers of EAGAIN, EWOULDBLOCK and EINTR are the platform's.
pub mod Clock
use esp32_remote_boot.Prelude.{
  ℕ, ◌+◌, ◌-◌, ◌*◌, ◌%◌, ◌^◌, Bool, true, false, not, ◌&&◌, ◌||◌, Option, none, some, ltb, leb,
  ◌==◌, if◌then◌else◌,
}

pub record Errno : Type 0 where
  pub again : ℕ
  pub would_block : ℕ
  pub interrupted : ℕ

-- `ml_io_errno_is_transient`
unfoldable pub is_transient : Errno → ℕ → Bool
is_transient c e = e == c.again || e == c.would_block || e == c.interrupted

-- `ml_io_send_should_retry`
unfoldable pub should_retry : Errno → ℕ → ℕ → ℕ → Bool
should_retry c e retries elapsed_ms = is_transient c e && ltb retries 25 && ltb elapsed_ms 250

-- `(uint32_t)(now - since)`
abbrev pub elapsed : ℕ → ℕ → ℕ
elapsed now since = (now + 2 ^ 32 - since) % 2 ^ 32

-- `ml_tls_after_bootstrap`
unfoldable pub tls_after_bootstrap : Bool → ℕ → ℕ → Bool
tls_after_bootstrap control_online now started = control_online || leb 20000 (elapsed now started)

-- `ml_tls_admit`
unfoldable pub tls_admit : ℕ → ℕ → ℕ → ℕ → Bool
tls_admit now previous free_heap largest =
    leb 60000 (elapsed now previous)
    || (leb 5000 (elapsed now previous) && leb 60000 free_heap && leb 24000 largest)

-- `ml_retry_delay`
unfoldable pub retry_delay : ℕ → ℕ
retry_delay attempt = if leb 4 attempt then 30000 else 2000 * 2 ^ attempt

-- `ml_tls_service_window`
unfoldable pub tls_service_window : ℕ → ℕ → Bool
tls_service_window now started = ltb (elapsed now started) 6000

-- `ml_disco_budget`
unfoldable pub disco_budget : ℕ → ℕ
disco_budget processed = if ltb processed 2 then 2 - processed else 0

-- `ml_remote_available`
unfoldable pub remote_available : Bool → Bool → ℕ → ℕ → Bool
remote_available wifi control authenticated_ms now =
    wifi && control && not (authenticated_ms == 0) && leb (elapsed now authenticated_ms) 180000

-- `ml_coord_workspace`; the storage is kept as the size that was allocated for it.
pub record Lease : Type 0 where
  pub storage : Option ℕ
  pub capacity : ℕ

-- `ml_coord_workspace_acquire`, where the two pointers are not NULL
unfoldable pub acquire : Lease → ℕ → (ℕ → Bool) → Lease × Bool
acquire lease size allocates = if size == 0 then (lease, false) else elim lease.storage [
  | some n ↦ (lease, leb size lease.capacity)
  | none ↦
      if allocates size
      then (record { storage = some size; capacity = size }, true)
      else (lease, false)
]

-- `ml_coord_workspace_release`
unfoldable pub release : Lease → Lease
release lease = record { storage = none; capacity = 0 }

-- `ml_register_workspace`, its pointers as offsets from the storage
pub record RegisterWorkspace : Type 0 where
  pub h2 : ℕ
  pub response : ℕ
  pub frame : ℕ

-- `ml_register_workspace_init`, for pointers that are not NULL: none where it returns false
unfoldable pub register_workspace : ℕ → Option RegisterWorkspace
register_workspace capacity =
    if ltb capacity 32768 then none else some (record { h2 = 0; response = 16384; frame = 24576 })

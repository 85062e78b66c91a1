-- ===== src/Microlink/Policy/Clock.antt =====
-- The decisions on clocks that wrap around, the delays, and the leases of the workspace.
use esp32_remote_boot.Prelude.{
  ℕ, zero, suc, ◌+◌, ◌%◌, ◌^◌, ◌≤◌, ◌<◌, ◌≡◌, ◌≢◌, ◌↔◌, ◌⊎◌, refl, Bool, true, none, some, leb,
  ◌==◌, if◌then◌else◌, arith,
}
use esp32_remote_boot.Microlink.Policy.{
  elapsed, tls_admit, retry_delay, Lease, acquire, release, RegisterWorkspace, register_workspace,
}

elapsed_since :
    (since t : ℕ) → since < 2 ^ 32 → t < 2 ^ 32 → elapsed ((since + t) % 2 ^ 32) since ≡ t
elapsed_since since t h k = omega arith

-- With less than 2 ^ 32 ms behind the attempt before, and the clock wrapped around or not, TLS is
-- admitted exactly when 60 s have passed, or 5 s and there is room in the heap.
pub tls_admit_iff :
    (previous t free_heap largest : ℕ)
    → previous < 2 ^ 32
    → t < 2 ^ 32
    → (tls_admit ((previous + t) % 2 ^ 32) previous free_heap largest ≡ true)
      ↔ ((60000 ≤ t) ⊎ ((5000 ≤ t) × (60000 ≤ free_heap) × (24000 ≤ largest)))
unfolding tls_admit
tls_admit_iff previous t free_heap largest h k = ground (arith, elapsed_since previous t h k)

delay_table : ℕ → ℕ
delay_table n =
    if leb 4 n
    then 30000
    else if n == 3
    then 16000
    else if n == 2
    then 8000
    else if n == 1
    then 4000
    else 2000

retry_delay_table : (n : ℕ) → retry_delay n ≡ delay_table n
unfolding retry_delay delay_table
retry_delay_table zero = refl
retry_delay_table (suc zero) = refl
retry_delay_table (suc (suc zero)) = refl
retry_delay_table (suc (suc (suc zero))) = refl
retry_delay_table (suc (suc (suc (suc n)))) = ground arith

-- The delay grows with the attempts, from 2 s up to 30 s.
pub retry_delay_bounds :
    (n m : ℕ)
    → n ≤ m
    → (2000 ≤ retry_delay n) × (retry_delay n ≤ retry_delay m) × (retry_delay m ≤ 30000)
unfolding delay_table
retry_delay_bounds n m h = ground (arith, retry_delay_table n, retry_delay_table m)

-- a lease has a capacity exactly when it has storage, and it is the storage's size
unfoldable pub IsLease : Lease → Type 0
IsLease lease =
    ((lease.storage ≡ none) × (lease.capacity ≡ 0))
    ⊎ ((lease.storage ≡ some lease.capacity) × (0 < lease.capacity))

-- An acquired workspace has storage of the size asked for, at least; storage that is there is kept; and
-- whether it is acquired or not, the lease stays one. A released lease is one without storage.
pub acquire-IsLease :
    (lease : Lease) (size : ℕ) (allocates : ℕ → Bool)
    → IsLease lease
    → IsLease (acquire lease size allocates).0
      × ((acquire lease size allocates).1 ≡ true
          → ((acquire lease size allocates).0.storage ≢ none)
            × (size ≤ (acquire lease size allocates).0.capacity))
      × (lease.storage ≢ none → (acquire lease size allocates).0 ≡ lease)
      × IsLease (release lease)
unfolding acquire release IsLease
acquire-IsLease lease size allocates h = (
  ground arith,
  (λ e. (ground (arith, e), ground (arith, e))),
  (λ e. ground (arith, e)),
  ground arith,
)

-- The three buffers of 16384, 8192 and 4096 bytes follow each other and end in the storage.
register_workspace_bounds :
    (capacity : ℕ) (w : RegisterWorkspace)
    → register_workspace capacity ≡ some w
    → (w.h2 + 16384 ≤ w.response) × (w.response + 8192 ≤ w.frame) × (w.frame + 4096 ≤ capacity)
unfolding register_workspace
register_workspace_bounds capacity w h = ground arith

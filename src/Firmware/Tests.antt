-- ===== src/Firmware/Tests.antt =====
-- Concrete runs of the board's policies, and the theorems at concrete inputs.
use esp32_remote_boot.Prelude.{
  ℕ, ◌+◌, ◌%◌, ◌^◌, ◌≡◌, ◌≢◌, ◌≤◌, ◌↔◌, refl, Bool, true, false, Option, none, some, List, [], ◌∷◌,
  ◌++◌, length, leb, take, drop, arith,
}
use esp32_remote_boot.Prelude.Digits.{four_digits}
use esp32_remote_boot.Firmware.Discovery.{Pc, text, unbound, number}
use esp32_remote_boot.Firmware.Boot.{BootState, default_target, valid, dispatch, request, reconcile}
use esp32_remote_boot.Firmware.Boot.Target.{Requested, request-Requested}
use esp32_remote_boot.Firmware.Boot.Reconcile.{reconcile-dispatch}
use esp32_remote_boot.Firmware.Power.{PowerCommand, enqueue}
use esp32_remote_boot.Firmware.Wifi.{
  Reconnect, due, record_attempt, retry_in_ms, looks, watch, record_attempt-due,
}
use esp32_remote_boot.Firmware.Limits.{
  PairingLimits, start_allowed, starts_allowed, start_allowed-window,
}
use esp32_remote_boot.Firmware.Budget.{Try, new_budget, sign_all, IsSpaced, sign_all-IsSpaced}
use esp32_remote_boot.Firmware.Vpn.{disabled, Runtime}
use esp32_remote_boot.Firmware.Vpn.Lease.{
  Event, ticks, begins, ends, run, follow, IsConsistent, run-follow,
}
use esp32_remote_boot.Firmware.Http.{Slot, Turn, take_ready}
use esp32_remote_boot.Firmware.Http.Waiting.{live, dead, take_ready-live}
use esp32_remote_boot.Firmware.Names.{parse_id, token_equal}
use esp32_remote_boot.Firmware.Names.Hex.{token_equal_iff, parse_id-four_digits}
use esp32_remote_boot.Firmware.Identity.{Services, tag, prepare_identity, prepare_identity-kept}
use esp32_remote_boot.Firmware.Sinric.{accept_dispatch, reset_due, next_reset, accept_dispatch-due}

abbrev demo_boot : BootState
demo_boot = record {
  entries =
      record { id = 1; hidden = false; blocked = false }
      ∷ record { id = 2; hidden = false; blocked = true }
      ∷ [];
  default_id = some 1;
  last_id = some 2;
  pending = none;
  fallback = none;
  dispatched_target = none;
  created = 0;
  ttl = 180000;
  heartbeat_at = 0;
  heartbeat_expiry = 45000;
  dispatched_at = 0;
  heartbeat_seen = false;
  dispatch_seen = false;
  behavior = default_target;
}

request-Requested_example :
    Requested demo_boot 1 5 false
      (request demo_boot (some 1) 5 false).0
      (request demo_boot (some 1) 5 false).1
request-Requested_example = request-Requested demo_boot 1 5 false (omega arith)

reconcile-dispatch_example :
    ((dispatch (reconcile demo_boot) 5).0 ≡ (dispatch demo_boot 5).0)
    × ((valid demo_boot demo_boot.default_id ≡ true
          → (reconcile demo_boot).default_id ≡ demo_boot.default_id)
        × (valid demo_boot demo_boot.default_id ≡ false → (reconcile demo_boot).default_id ≡ none))
    × ((valid demo_boot demo_boot.last_id ≡ true
          → (reconcile demo_boot).last_id ≡ demo_boot.last_id)
        × (valid demo_boot demo_boot.last_id ≡ false → (reconcile demo_boot).last_id ≡ none))
    × ((valid demo_boot demo_boot.pending ≡ true
          → (reconcile demo_boot).pending ≡ demo_boot.pending)
        × (valid demo_boot demo_boot.pending ≡ false → (reconcile demo_boot).pending ≡ none))
    × ((valid demo_boot demo_boot.fallback ≡ true
          → (reconcile demo_boot).fallback ≡ demo_boot.fallback)
        × (valid demo_boot demo_boot.fallback ≡ false → (reconcile demo_boot).fallback ≡ none))
reconcile-dispatch_example = reconcile-dispatch demo_boot 5

abbrev demo_command : PowerCommand
demo_command = record {
  id = b'7' ∷ [];
  action = b'r' ∷ [];
  target = [];
  session = b's' ∷ [];
  created = 100;
}

abbrev demo_enqueued : Bool × PowerCommand
demo_enqueued = enqueue demo_command (b'8' ∷ []) (b'r' ∷ []) [] (b's' ∷ []) 50000

abbrev demo_wifi : Reconnect
demo_wifi = record { connected = false; attempts = 0; next_attempt_at = 0; delay_ms = 1000 }

abbrev demo_watched : Reconnect
demo_watched = watch (record_attempt demo_wifi 4294967290) (looks false 7 ∷ [])

record_attempt-due_example :
    (due demo_watched ((4294967290 + 20000) % 2 ^ 32) ≡ leb 20000 20000)
    × (retry_in_ms demo_watched ((4294967290 + 20000) % 2 ^ 32) ≡ 0)
record_attempt-due_example =
    record_attempt-due demo_wifi 4294967290 20000 (looks false 7 ∷ []) refl (omega arith)
      (omega arith) (refl, tt)

abbrev demo_limits : PairingLimits
demo_limits = record {
  opened = 0;
  start_at = 0;
  lookup_at = 0;
  blocked_at = 0;
  starts = 0;
  lookups = 5;
  enabled = true;
  blocked = false;
}

start_allowed-window_example :
    ((start_allowed demo_limits 70000).0 ≡ true)
    × (starts_allowed (start_allowed demo_limits 70000).1 (70001 ∷ 70002 ∷ []) ≤ 5)
start_allowed-window_example =
    start_allowed-window demo_limits 70000 (70001 ∷ 70002 ∷ []) (omega arith)
      (omega arith, (omega arith, tt))

abbrev demo_tries : List Try
demo_tries =
    (1, 30000, 20000)
    ∷ (2, 30000, 20000)
    ∷ (3, 30000, 20000)
    ∷ (4, 30000, 20000)
    ∷ (5, 30000, 20000)
    ∷ (1001, 30000, 20000)
    ∷ []

sign_all-IsSpaced_example : IsSpaced (sign_all new_budget [] demo_tries).0
sign_all-IsSpaced_example = sign_all-IsSpaced demo_tries

abbrev demo_runtime : Runtime
demo_runtime = record {
  lifecycle = record { decision = disabled; attempted = false; failed = false };
  has_handle = false;
  has_key = true;
  locked = false;
  setup = false;
  wifi = false;
  bootstrap_started = 0;
  sinric_lease = false;
  sinric_service_started = 0;
  last_sinric_attempt = 0;
}

abbrev demo_events : List Event
demo_events =
    ticks true (record { init_succeeds = true; start_succeeds = true; now = 10 })
    ∷ begins false (record {
      now = 80000;
      control_online = true;
      free_heap = 90000;
      largest_block = 50000;
      gate_is_free = true;
    })
    ∷ ends false 81000 88000 88001
    ∷ ticks false (record { init_succeeds = false; start_succeeds = false; now = 11 })
    ∷ []

run-follow_example :
    (follow false false (run demo_runtime demo_events).1
      ≡ some (
        (run demo_runtime demo_events).0.has_handle,
        (run demo_runtime demo_events).0.sinric_lease,
      ))
    × IsConsistent (run demo_runtime demo_events).0
run-follow_example = run-follow demo_runtime demo_events (λ h. cc)

-- a client is a number here: with bytes from 10 on, and connected from 1 on
abbrev asks : ℕ → Bool
asks c = leb 10 c

abbrev joined : ℕ → Bool
joined c = leb 1 c

abbrev demo_slots : List (Slot ℕ)
demo_slots = record { client = 3; since = 100 } ∷ record { client = 0; since = 200 } ∷ []

abbrev ready_slot : Slot ℕ
ready_slot = record { client = 12; since = 300 }

take_ready-live_example :
    (take_ready asks joined 1000 5000 (demo_slots ++ (ready_slot ∷ [])) ≡ (
      some 12,
      live asks joined 1000 5000 demo_slots ++ [],
      dead asks joined 1000 5000 demo_slots,
    ))
    × (take_ready asks joined 1000 5000 demo_slots
        ≡ (none, live asks joined 1000 5000 demo_slots, dead asks joined 1000 5000 demo_slots))
take_ready-live_example =
    take_ready-live asks joined 1000 5000 demo_slots ready_slot [] (refl, (refl, tt)) refl

abbrev demo_turns : List Turn
demo_turns =
    record { time = 1; alive = true; written = some 2; completed = 2 }
    ∷ record { time = 3; alive = true; written = some 1; completed = 4 }
    ∷ []

token_equal_iff_example :
    ((token_equal (some (5 ∷ [])) (some (5 ∷ [])) ≡ true)
      ↔ ((◌≡◌ {A = List ℕ} (5 ∷ []) (5 ∷ [])) × (◌≢◌ {A = List ℕ} (5 ∷ []) [])))
    × (token_equal (some (5 ∷ [])) none ≡ false)
    × (token_equal none (some (5 ∷ [])) ≡ false)
    × (token_equal none none ≡ false)
token_equal_iff_example = token_equal_iff (5 ∷ []) (5 ∷ [])

parse_id-four_digits_example :
    (parse_id (some (b'0' ∷ b'0' ∷ b'1' ∷ b'F' ∷ []))
      ≡ four_digits (b'0' ∷ b'0' ∷ b'1' ∷ b'F' ∷ []))
    × (parse_id none ≡ none)
parse_id-four_digits_example = parse_id-four_digits (b'0' ∷ b'0' ∷ b'1' ∷ b'F' ∷ [])

-- a flash that holds one key, and cryptography that accepts everything
abbrev demo_services : Services (Option (List ℕ))
demo_services = record {
  load = λ s. s;
  store = λ s b. (length b, some b);
  generate = λ b. some b;
  validate = λ b. true;
  digest = λ b. some (7 ∷ []);
}

prepare_identity-kept_example :
    ((stored : List ℕ)
      → ◌≡◌ {A = Option (List ℕ)} (some (1 ∷ [])) (some stored)
      → ((prepare_identity demo_services (some (1 ∷ []))).1 ≡ some (1 ∷ []))
        × ((blob : List ℕ)
            → (prepare_identity demo_services (some (1 ∷ []))).0 ≡ some blob
            → (blob ≡ stored)
              × (length stored ≡ 149)
              × (take 4 stored ≡ tag)
              × (◌≡◌ {A = Bool} true true)
              × (◌≡◌ {A = Option (List ℕ)} (some (7 ∷ [])) (some (drop 117 stored)))))
    × (◌≡◌ {A = Option (List ℕ)} (some (1 ∷ [])) none
        → (blob : List ℕ) → (prepare_identity demo_services (some (1 ∷ []))).0 ≡ some blob
        → (prepare_identity demo_services (some (1 ∷ []))).1 ≡ some blob)
prepare_identity-kept_example = prepare_identity-kept demo_services (some (1 ∷ []))

accept_dispatch-due_example :
    ((5 + 1000) % 2 ^ 32 ≢ 0
      → (reset_due (accept_dispatch 202 5 0).1 ((5 + 999) % 2 ^ 32) ≡ leb 1000 999)
        × (reset_due (next_reset 5 false) ((5 + 999) % 2 ^ 32) ≡ leb 1000 999))
    × (reset_due (next_reset 5 true) ((5 + 999) % 2 ^ 32) ≡ false)
    × ((status : ℕ) → status ≢ 202 → accept_dispatch status 5 0 ≡ (false, 0))
accept_dispatch-due_example = accept_dispatch-due 5 999 0 (omega arith) (omega arith)

-- a PC whose mode has not been set yet
abbrev demo_pc : Pc
demo_pc = record {
  pc_id = text (b'p' ∷ []);
  blind_mode = unbound;
  mode_revision = number 4;
  boot_mode_revision = unbound;
  boot_blind_mode = unbound;
  boot_ipxe = unbound;
  boot_loader = unbound;
}

-- ===== src/Firmware/Vpn.antt =====
-- firmware/include/microlink_policy.hpp, microlink_lifecycle.hpp, and the life of the VPN client in
-- firmware/src/microlink_runtime.cpp, with REMOTE_BOOT_ENABLE_MICROLINK set: when the client starts
-- and stops, and the lease that keeps its handshakes and the voice service's apart.
pub mod Lease
use esp32_remote_boot.Prelude.{
  ℕ, zero, ◌+◌, ◌-◌, ◌%◌, ◌^◌, Bool, true, false, not, ◌&&◌, ◌||◌, List, [], ◌∷◌, ltb, leb, ◌==◌,
  if◌then◌else◌,
}
use esp32_remote_boot.Microlink.Policy.{tls_after_bootstrap, tls_admit, tls_service_window}

-- `MicrolinkDecision`
pub data Decision : Type 0 where
  disabled not_configured config_locked setup_mode wifi_offline ready : Decision

-- `microlinkDecision`
unfoldable pub decision_of : Bool → Bool → Bool → Bool → Bool → Decision
decision_of enabled configured locked setup connected =
    if not enabled
    then disabled
    else if not configured
    then not_configured
    else if locked
    then config_locked
    else if setup
    then setup_mode
    else if not connected
    then wifi_offline
    else ready

-- the texts of `microlinkDecisionName`, and the text "error" of `state`
pub data StateName : Type 0 where
  disabled_name not_configured_name config_locked_name : StateName
  setup_mode_name wifi_offline_name starting_name error_name : StateName

-- `microlinkDecisionName`
unfoldable pub decision_name : Decision → StateName
decision_name disabled = disabled_name
decision_name not_configured = not_configured_name
decision_name config_locked = config_locked_name
decision_name setup_mode = setup_mode_name
decision_name wifi_offline = wifi_offline_name
decision_name ready = starting_name

-- `MicrolinkStartContext`
pub record StartContext : Type 0 where
  pub built : Bool
  pub configured : Bool
  pub locked : Bool
  pub setup : Bool
  pub connected : Bool

-- `MicrolinkLifecycle`
pub record Lifecycle : Type 0 where
  pub decision : Decision
  pub attempted : Bool
  pub failed : Bool

abbrev pub is_ready : Decision → Bool
is_ready ready = true
is_ready _ = false

-- `shouldStart`
unfoldable pub should_start : Lifecycle → StartContext → Bool × Lifecycle
should_start l c =
    let d = decision_of c.built c.configured c.locked c.setup c.connected in
    if l.attempted
    then (false, l)
    else if not (is_ready d)
    then (false, record l { decision = d })
    else (true, record l { decision = d; attempted = true })

-- `recordStartResult`
unfoldable pub record_start_result : Lifecycle → Bool → Lifecycle
record_start_result l success = record l { failed = not success }

-- `resetAfterWiFiLoss`
unfoldable pub reset_after_wifi_loss : Lifecycle → Lifecycle
reset_after_wifi_loss l = record { decision = wifi_offline; attempted = false; failed = false }

-- `state`
unfoldable pub state_name : Lifecycle → StateName
state_name l = if l.failed then error_name else decision_name l.decision

-- `MicrolinkRuntime`; a handle is there or not, and the key is empty or not
pub record Runtime : Type 0 where
  pub lifecycle : Lifecycle
  pub has_handle : Bool
  pub has_key : Bool
  pub locked : Bool
  pub setup : Bool
  pub wifi : Bool
  pub bootstrap_started : ℕ
  pub sinric_lease : Bool
  pub sinric_service_started : ℕ
  pub last_sinric_attempt : ℕ

-- the calls of the client's library and of the aborting callback, in order; `init` with its answer
pub data Call : Type 0 where
  init : Bool → Call
  start destroy acquire release abort : Call

-- what `microlink_init` and `microlink_start` answer, and the clock behind them
pub record StartOutcome : Type 0 where
  pub init_succeeds : Bool
  pub start_succeeds : Bool
  pub now : ℕ

-- `tryStart` behind `shouldStart`
unfoldable pub attempt_start : Runtime → Lifecycle → StartOutcome → Runtime × List Call
attempt_start r l o =
    let started = o.init_succeeds && o.start_succeeds in
    let l' : Lifecycle = record_start_result l started in
    if started
    then (
      record r { lifecycle = l'; has_handle = true; bootstrap_started = o.now },
      init true ∷ start ∷ [],
    )
    else (
      record r { lifecycle = l'; has_handle = false },
      if o.init_succeeds then init true ∷ start ∷ destroy ∷ [] else init false ∷ [],
    )

-- `tryStart`
unfoldable pub try_start : Runtime → Bool → StartOutcome → Runtime × List Call
try_start r connected o =
    let c : StartContext = record {
      built = true;
      configured = r.has_key;
      locked = r.locked;
      setup = r.setup;
      connected = connected;
    } in
    let (starts, l) = should_start r.lifecycle c in
    if starts then attempt_start r l o else (record r { lifecycle = l }, [])

-- `begin`
unfoldable pub begin : Runtime → Bool → Bool → Bool → Bool → StartOutcome → Runtime × List Call
begin r locked setup wifi has_key o =
    try_start (record r { has_key = has_key; wifi = wifi; locked = locked; setup = setup }) wifi o

-- the first part of `tick`, where the WiFi is lost
unfoldable pub stop_on_loss : Runtime → Bool → Runtime × List Call
stop_on_loss r connected =
    if r.wifi && not connected
    then (
      record r { has_handle = false; lifecycle = reset_after_wifi_loss r.lifecycle },
      if r.has_handle then destroy ∷ [] else [],
    )
    else (r, [])

-- `tick`, with the calls of its two parts
unfoldable pub tick : Runtime → Bool → StartOutcome → Runtime × List Call × List Call
tick r connected o =
    let (r', stops) = stop_on_loss r connected in
    let (r'', starts) = try_start (record r' { wifi = connected }) connected o in
    (r'', stops, starts)

-- what `beginSinricHandle` reads outside
pub record Room : Type 0 where
  pub now : ℕ
  pub control_online : Bool
  pub free_heap : ℕ
  pub largest_block : ℕ
  pub gate_is_free : Bool

-- `beginSinricHandle`
unfoldable pub begin_sinric_handle : Runtime → Bool → Room → Runtime × Bool × List Call
begin_sinric_handle r connected m =
    if connected || not r.has_handle || r.sinric_lease
    then (r, true, [])
    else if not (tls_after_bootstrap m.control_online m.now r.bootstrap_started)
    then (r, false, [])
    else if not (tls_admit m.now r.last_sinric_attempt m.free_heap m.largest_block)
    then (r, false, [])
    else if not m.gate_is_free
    then (r, false, [])
    else (
      record r { sinric_lease = true; sinric_service_started = 0; last_sinric_attempt = m.now },
      true,
      acquire ∷ [],
    )

-- `endSinricHandle`; its three readings of the clock are `first`, `second` and `third`
unfoldable pub end_sinric_handle : Runtime → Bool → ℕ → ℕ → ℕ → Runtime × List Call
end_sinric_handle r connected first second third =
    let since = if r.sinric_service_started == 0 then first else r.sinric_service_started in
    if not r.sinric_lease
    then (r, [])
    else if connected || not (tls_service_window second since)
    then (
      record r {
        sinric_service_started = since;
        last_sinric_attempt = third;
        sinric_lease = false;
      },
      if connected then release ∷ [] else abort ∷ release ∷ [],
    )
    else (record r { sinric_service_started = since }, [])

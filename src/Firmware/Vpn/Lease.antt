-- ===== src/Firmware/Vpn/Lease.antt =====
-- The client's calls are bracketed: one client at most, and one lease at most, whatever happens.
use esp32_remote_boot.Prelude.{
  ℕ, ◌≡◌, refl, Bool, true, false, not, ◌&&◌, ◌||◌, Option, none, some, List, [], ◌∷◌, ◌++◌, ◌∙◌,
  inl, inr, Bool-cases, ◌==◌, if◌then◌else◌, arith,
}
use esp32_remote_boot.Microlink.Policy.{tls_after_bootstrap, tls_admit, tls_service_window}
use esp32_remote_boot.Firmware.Vpn.{
  Decision, decision_of, is_ready, StartContext, Lifecycle, should_start, record_start_result,
  reset_after_wifi_loss, Runtime, Call, init, start, destroy, acquire, release, abort, StartOutcome,
  attempt_start, try_start, stop_on_loss, tick, Room, begin_sinric_handle, end_sinric_handle,
}

pub data Event : Type 0 where
  ticks : Bool → StartOutcome → Event
  begins : Bool → Room → Event
  ends : Bool → ℕ → ℕ → ℕ → Event

unfoldable pub apply : Runtime → Event → Runtime × List Call
apply r (ticks connected o) = let (r', stops, starts) = tick r connected o in (r', stops ++ starts)
apply r (begins connected m) = let (r', _, calls) = begin_sinric_handle r connected m in (r', calls)
apply r (ends connected a b c) = end_sinric_handle r connected a b c

-- Reads calls from a state with a client or without one, and with the lease or without it. No
-- client is made beside another one, none is started or destroyed where there is none; the lease is
-- taken only when it is not held, and given back and aborted under only when it is.
unfoldable pub follow : Bool → Bool → List Call → Option (Bool × Bool)
follow client lease [] = some (client, lease)
follow client lease (init ok ∷ cs) = if client then none else follow ok lease cs
follow client lease (start ∷ cs) = if client then follow true lease cs else none
follow client lease (destroy ∷ cs) = if client then follow false lease cs else none
follow client lease (acquire ∷ cs) = if lease then none else follow client true cs
follow client lease (release ∷ cs) = if lease then follow client false cs else none
follow client lease (abort ∷ cs) = if lease then follow client true cs else none

follow-append :
    (xs ys : List Call) (client lease client' lease' : Bool)
    → follow client lease xs ≡ some (client', lease')
    → follow client lease (xs ++ ys) ≡ follow client' lease' ys
unfolding follow
follow-append [] ys client lease client' lease' h = ground arith
follow-append (init made ∷ xs) ys client lease client' lease' h =
    ground (arith, follow-append xs ys made lease client' lease')
follow-append (start ∷ xs) ys client lease client' lease' h =
    ground (arith, follow-append xs ys true lease client' lease')
follow-append (destroy ∷ xs) ys client lease client' lease' h =
    ground (arith, follow-append xs ys false lease client' lease')
follow-append (acquire ∷ xs) ys client lease client' lease' h =
    ground (arith, follow-append xs ys client true client' lease')
follow-append (release ∷ xs) ys client lease client' lease' h =
    ground (arith, follow-append xs ys client false client' lease')
follow-append (abort ∷ xs) ys client lease client' lease' h =
    ground (arith, follow-append xs ys client true client' lease')

-- A client is there only while the WiFi is, behind an attempt that has not failed, with a key, and
-- neither locked nor in the setup.
pub record IsRunning (r : Runtime) : Type 0 where
  pub attempted : r.lifecycle.attempted ≡ true
  pub succeeded : r.lifecycle.failed ≡ false
  pub online : r.wifi ≡ true
  pub keyed : r.has_key ≡ true
  pub unlocked : r.locked ≡ false
  pub outside_setup : r.setup ≡ false

abbrev pub IsConsistent : Runtime → Type 0
IsConsistent r = (r.has_handle ≡ true) → IsRunning r

decision_ready :
    (configured locked setup connected : Bool)
    → is_ready (decision_of true configured locked setup connected) ≡ true
    → (configured ≡ true) × (locked ≡ false) × (setup ≡ false) × (connected ≡ true)
unfolding decision_of
decision_ready configured locked setup connected h = ground arith

-- what a step must show: its calls fit, and the state behind it is consistent again
record IsSound (r : Runtime) (calls : List Call) (r' : Runtime) : Type 0 where
  fits : follow r.has_handle r.sinric_lease calls ≡ some (r'.has_handle, r'.sinric_lease)
  consistent : IsConsistent r'

attempt-IsSound :
    (r : Runtime) (l : Lifecycle) (o : StartOutcome)
    → r.has_handle ≡ false
    → l.attempted ≡ true
    → r.wifi ≡ true
    → r.has_key ≡ true
    → r.locked ≡ false
    → r.setup ≡ false
    → IsSound r (attempt_start r l o).1 (attempt_start r l o).0
unfolding attempt_start record_start_result follow
attempt-IsSound r l o h a w k u s = elim (Bool-cases (o.init_succeeds && o.start_succeeds)) [
  | inl ok ↦ record {
    fits = ground arith;
    consistent = λ e. record {
      attempted = ground arith;
      succeeded = ground arith;
      online = ground arith;
      keyed = ground arith;
      unlocked = ground arith;
      outside_setup = ground arith;
    };
  }
  | inr bad ↦ record { fits = ground arith; consistent = λ e. absurd (ground arith) }
]

idle-IsSound :
    (r r' : Runtime)
    → IsConsistent r'
    → r'.has_handle ≡ r.has_handle
    → r'.sinric_lease ≡ r.sinric_lease
    → IsSound r [] r'
unfolding follow
idle-IsSound r r' c h l = record { fits = ground arith; consistent = c }

context : Runtime → Bool → StartContext
context r connected = record {
  built = true;
  configured = r.has_key;
  locked = r.locked;
  setup = r.setup;
  connected = connected;
}

try_start-IsSound :
    (r : Runtime) (o : StartOutcome)
    → IsConsistent r
    → IsSound r (try_start r r.wifi o).1 (try_start r r.wifi o).0
unfolding try_start should_start
try_start-IsSound r o c = elim (Bool-cases r.lifecycle.attempted) [
  | inl tried ↦
      let e : try_start r r.wifi o ≡ (r, []) = ground arith in rw e (idle-IsSound r r c refl refl)
  | inr fresh ↦
      let d : Decision = decision_of true r.has_key r.locked r.setup r.wifi in
      let none_there : r.has_handle ≡ false = elim (Bool-cases r.has_handle) [
        | inl has ↦ absurd (ground (arith, (c has).attempted))
        | inr gone ↦ gone
      ] in
      elim (Bool-cases (is_ready d)) [
        | inl ready ↦
            let l : Lifecycle = record r.lifecycle { decision = d; attempted = true } in
            let e : try_start r r.wifi o ≡ attempt_start r l o = ground arith in
            let (k, u, s, w) = decision_ready r.has_key r.locked r.setup r.wifi ready in
            rw e (attempt-IsSound r l o none_there refl w k u s)
        | inr not_ready ↦
            let r' : Runtime = record r { lifecycle = record r.lifecycle { decision = d } } in
            let e : try_start r r.wifi o ≡ (r', []) = ground arith in
            rw e (idle-IsSound r r' (λ has. absurd (ground arith)) refl refl)
      ]
]

compose :
    (r : Runtime) (xs : List Call) (r' : Runtime) (ys : List Call) (r'' : Runtime)
    → IsSound r xs r'
    → IsSound r' ys r''
    → IsSound r (xs ++ ys) r''
compose r xs r' ys r'' a b = record {
  fits =
      follow-append xs ys r.has_handle r.sinric_lease r'.has_handle r'.sinric_lease a.fits ∙ b.fits;
  consistent = b.consistent;
}

loss-IsSound :
    (r : Runtime) (connected : Bool)
    → IsConsistent r
    → IsSound r
        (stop_on_loss r connected).1
        (record (stop_on_loss r connected).0 { wifi = connected })
loss-IsSound r connected c = elim (Bool-cases (r.wifi && not connected)) [
  | inl lost ↦
      let r' : Runtime = record r {
        has_handle = false;
        lifecycle = reset_after_wifi_loss r.lifecycle;
      } in
      let calls : List Call = if r.has_handle then destroy ∷ [] else [] in
      let e : stop_on_loss r connected ≡ (r', calls) = unfold stop_on_loss in ground arith in
      let f : follow r.has_handle r.sinric_lease calls ≡ some (false, r.sinric_lease) =
        unfold follow in ground arith in
      rw e (record { fits = f; consistent = λ has. absurd (ground arith) })
  | inr still ↦
      let e : stop_on_loss r connected ≡ (r, []) = unfold stop_on_loss in ground arith in
      rw e (
        idle-IsSound r (record r { wifi = connected })
          (λ has.
            let run = c has in
            record {
              attempted = run.attempted;
              succeeded = run.succeeded;
              online = ground (arith, run.online);
              keyed = run.keyed;
              unlocked = run.unlocked;
              outside_setup = run.outside_setup;
            })
          refl refl)
]

tick-IsSound :
    (r : Runtime) (connected : Bool) (o : StartOutcome)
    → IsConsistent r
    → IsSound r (apply r (ticks connected o)).1 (apply r (ticks connected o)).0
unfolding apply tick
tick-IsSound r connected o c =
    let lost = loss-IsSound r connected c in
    let r' : Runtime = record (stop_on_loss r connected).0 { wifi = connected } in
    compose r (stop_on_loss r connected).1 r' (try_start r' connected o).1
      (try_start r' connected o).0 lost (try_start-IsSound r' o lost.consistent)

kept-IsConsistent :
    (r : Runtime) (service : ℕ) (last : ℕ) (lease : Bool)
    → IsConsistent r
    → IsConsistent (record r {
      sinric_service_started = service;
      last_sinric_attempt = last;
      sinric_lease = lease;
    })
kept-IsConsistent r service last lease c has =
    let run = c has in
    record {
      attempted = run.attempted;
      succeeded = run.succeeded;
      online = run.online;
      keyed = run.keyed;
      unlocked = run.unlocked;
      outside_setup = run.outside_setup;
    }

begin-IsSound :
    (r : Runtime) (connected : Bool) (m : Room)
    → IsConsistent r
    → IsSound r (apply r (begins connected m)).1 (apply r (begins connected m)).0
begin-IsSound r connected m c =
    let refused : Bool =
      (connected || not r.has_handle || r.sinric_lease)
      || not (tls_after_bootstrap m.control_online m.now r.bootstrap_started)
      || not (tls_admit m.now r.last_sinric_attempt m.free_heap m.largest_block)
      || not m.gate_is_free in
    elim (Bool-cases refused) [
      | inl stays ↦
          let e : apply r (begins connected m) ≡ (r, []) =
            unfold apply begin_sinric_handle in ground arith in
          rw e (idle-IsSound r r c refl refl)
      | inr takes ↦
          let r' : Runtime = record r {
            sinric_lease = true;
            sinric_service_started = 0;
            last_sinric_attempt = m.now;
          } in
          let e : apply r (begins connected m) ≡ (r', acquire ∷ []) =
            unfold apply begin_sinric_handle in ground arith in
          rw e (record {
            fits = unfold follow in ground arith;
            consistent = kept-IsConsistent r 0 m.now true c;
          })
    ]

end-IsSound :
    (r : Runtime) (connected : Bool) (first second third : ℕ)
    → IsConsistent r
    → IsSound r
        (apply r (ends connected first second third)).1
        (apply r (ends connected first second third)).0
end-IsSound r connected first second third c =
    let since = if r.sinric_service_started == 0 then first else r.sinric_service_started in
    elim (Bool-cases r.sinric_lease) [
      | inr without ↦
          let e : apply r (ends connected first second third) ≡ (r, []) =
            unfold apply end_sinric_handle in ground arith in
          rw e (idle-IsSound r r c refl refl)
      | inl holds ↦ elim (Bool-cases (connected || not (tls_service_window second since))) [
        | inr waits ↦
            let r' : Runtime = record r {
              sinric_service_started = since;
              last_sinric_attempt = r.last_sinric_attempt;
              sinric_lease = r.sinric_lease;
            } in
            let e : apply r (ends connected first second third) ≡ (r', []) =
              unfold apply end_sinric_handle in ground arith in
            rw e (
              idle-IsSound r r' (kept-IsConsistent r since r.last_sinric_attempt r.sinric_lease c)
                refl refl)
        | inl over ↦
            let r' : Runtime = record r {
              sinric_service_started = since;
              last_sinric_attempt = third;
              sinric_lease = false;
            } in
            let calls : List Call = if connected then release ∷ [] else abort ∷ release ∷ [] in
            let e : apply r (ends connected first second third) ≡ (r', calls) =
              unfold apply end_sinric_handle in ground arith in
            rw e (record {
              fits = unfold follow in ground arith;
              consistent = kept-IsConsistent r since third false c;
            })
      ]
    ]

apply-IsSound : (r : Runtime) (e : Event) → IsConsistent r → IsSound r (apply r e).1 (apply r e).0
apply-IsSound r (ticks connected o) c = tick-IsSound r connected o c
apply-IsSound r (begins connected m) c = begin-IsSound r connected m c
apply-IsSound r (ends connected first second third) c = end-IsSound r connected first second third c

unfoldable pub run : Runtime → List Event → Runtime × List Call
run r [] = (r, [])
run r (e ∷ es) = ((run (apply r e).0 es).0, (apply r e).1 ++ (run (apply r e).0 es).1)

run-IsSound : (es : List Event) (r : Runtime) → IsConsistent r → IsSound r (run r es).1 (run r es).0
unfolding run
run-IsSound [] r c = idle-IsSound r r c refl refl
run-IsSound (e ∷ es) r c =
    let first = apply-IsSound r e c in
    compose r (apply r e).1 (apply r e).0 (run (apply r e).0 es).1 (run (apply r e).0 es).0 first
      (run-IsSound es (apply r e).0 first.consistent)

-- In any order of ticks and of calls around the voice service, the library's calls fit: a client is made
-- only where there is none, and started and destroyed only where there is one; the gate is taken
-- only when it is not held and given back only when it is; the two fields of the state say
-- what is held. And at the end a client runs only with WiFi, a key, not locked and not in the setup.
pub run-follow :
    (r : Runtime) (es : List Event)
    → IsConsistent r
    → (follow r.has_handle r.sinric_lease (run r es).1
        ≡ some ((run r es).0.has_handle, (run r es).0.sinric_lease))
      × IsConsistent (run r es).0
run-follow r es c = let sound = run-IsSound es r c in (sound.fits, sound.consistent)

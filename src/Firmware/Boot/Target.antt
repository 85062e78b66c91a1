-- ===== src/Firmware/Boot/Target.antt =====
-- What the board dispatches, when it repeats it, and what a request does.
use esp32_remote_boot.Prelude.{
  ℕ, ◌+◌, ◌%◌, ◌^◌, ◌<◌, ◌≡◌, ◌≢◌, ◌⊎◌, refl, Bool, true, false, not, ◌&&◌, Option, none, some,
  List, [], ◌∷◌, inl, inr, Bool-cases, ◌==◌, arith,
}
use esp32_remote_boot.Firmware.{elapsed_ms, elapsed_since}
use esp32_remote_boot.Firmware.Boot.{
  Entry, BootState, default_target, last_selected, valid_in, valid, online, pending_valid, selected,
  dispatch, request,
}

-- The first entry with the id is not blocked.
pub data Allowed (id : ℕ) : List Entry → Type 0 where
  here : {e : Entry} {es : List Entry} → e.id ≡ id → e.blocked ≡ false → Allowed id (e ∷ es)
  later : {e : Entry} {es : List Entry} → e.id ≢ id → Allowed id es → Allowed id (e ∷ es)

valid_in-Allowed : (es : List Entry) (id : ℕ) → valid_in es id ≡ true → Allowed id es
unfolding valid_in
valid_in-Allowed [] id h = absurd (ground arith)
valid_in-Allowed (e ∷ es) id h = elim (Bool-cases (e.id == id)) [
  | inl eq ↦ here (ground arith) (ground arith)
  | inr ne ↦ later (ground arith) (valid_in-Allowed es id (ground arith))
]

Allowed-valid_in : (id : ℕ) {es : List Entry} → Allowed id es → valid_in es id ≡ true
unfolding valid_in
Allowed-valid_in id (here h k) = ground arith
Allowed-valid_in id (later n a) = ground (arith, Allowed-valid_in id a)

-- why a target is chosen: a request that still holds, or the behaviour, when none does
pub data Chosen (s : BootState) (now id : ℕ) : Type 0 where
  by_request : s.pending ≡ some id → elapsed_ms now s.created < s.ttl → Chosen s now id
  by_default :
      pending_valid s now ≡ false
      → s.behavior ≡ default_target
      → s.default_id ≡ some id
      → Chosen s now id
  by_last :
      pending_valid s now ≡ false
      → s.behavior ≡ last_selected
      → s.last_id ≡ some id
      → Chosen s now id

-- What is known of a dispatch: nothing, and nothing has changed; or an id that an unblocked entry
-- has, that is chosen, and that is not repeated in the next 60 s whatever is chosen then.
pub data Dispatched (s : BootState) (now : ℕ) : Option ℕ → BootState → Type 0 where
  nothing : Dispatched s now none s
  target :
      {s' : BootState} (id : ℕ)
      → Allowed id s.entries
      → Chosen s now id
      → ((t : ℕ) → t < 60000 → (dispatch s' ((now + t) % 2 ^ 32)).0 ≢ some id)
      → Dispatched s now (some id) s'

request_valid : (s : BootState) (id now : ℕ) → valid s (some id) ≡ true → Allowed id s.entries
unfolding valid
request_valid s id now h = valid_in-Allowed s.entries id h

-- what a request answers, and why
pub data Requested (s : BootState) (id now : ℕ) (force : Bool) : ℕ → BootState → Type 0 where
  unknown : ¬ Allowed id s.entries → Requested s id now force 400 s
  occupied :
      Allowed id s.entries → online s now ≡ true → force ≡ false → Requested s id now force 409 s
  taken :
      {s' : BootState}
      → Allowed id s.entries
      → (online s now ≡ false) ⊎ (force ≡ true)
      → s'.entries ≡ s.entries
      → s'.pending ≡ some id
      → ((t : ℕ) → t < s.ttl → t < 2 ^ 32 → (dispatch s' ((now + t) % 2 ^ 32)).0 ≡ some id)
      → Requested s id now force 202 s'

pending_dispatch :
    (s : BootState) (id now t : ℕ)
    → valid s (some id) ≡ true
    → s.pending ≡ some id
    → s.created ≡ now
    → s.dispatch_seen ≡ false
    → now < 2 ^ 32
    → t < s.ttl
    → t < 2 ^ 32
    → (dispatch s ((now + t) % 2 ^ 32)).0 ≡ some id
unfolding dispatch selected pending_valid
pending_dispatch s id now t v p c d w h l = ground (arith, elapsed_since now t w l)

-- A request is answered 400 exactly when no entry with the id is allowed, 409 when the PC is
-- online and the request is not forced, and nothing changes then. Else it is answered 202, and the
-- next dispatch gives the id, at any time in its time to live.
pub request-Requested :
    (s : BootState) (id now : ℕ) (force : Bool)
    → now < 2 ^ 32
    → Requested s id now force (request s (some id) now force).0 (request s (some id) now force).1
request-Requested s id now force w = elim (Bool-cases (valid s (some id))) [
  | inr bad ↦
      let e : request s (some id) now force ≡ (400, s) = unfold request in ground arith in
      rw e (unknown (λ a. unfold valid in ground (arith, Allowed-valid_in id a)))
  | inl good ↦ elim (Bool-cases (online s now && not force)) [
    | inl busy ↦
        let e : request s (some id) now force ≡ (409, s) = unfold request in ground arith in
        rw e (occupied (request_valid s id now good) (ground arith) (ground arith))
    | inr free ↦
        let after : BootState = record s {
          pending = some id;
          last_id = some id;
          created = now;
          dispatch_seen = false;
        } in
        let e : request s (some id) now force ≡ (202, after) = unfold request in ground arith in
        let v : valid after (some id) ≡ true = unfold valid in ground arith in
        rw e (
          taken (request_valid s id now good) (ground arith) refl refl
            (λ t h l. pending_dispatch after id now t v refl refl refl w h l))
  ]
]

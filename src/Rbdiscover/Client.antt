-- ===== src/Rbdiscover/Client.antt =====
-- ipxe/rbdiscover/rbdiscover.c: the discovery attempt. A handler takes the attempt and what it reads
-- of its environment (the clock at each reading, the window, the routes), and returns the new attempt
-- with the calls that it makes, in order. An IPv4 address is its four bytes in network order.
pub mod Timing
pub mod Deliver
pub mod Start
mod Tests
use Prim.Native.Nat.{bit_or}
use esp32_remote_boot.Prelude.{
  ℕ, zero, suc, ◌+◌, ◌-◌, ◌*◌, ◌/◌, ◌%◌, ◌^◌, Bool, true, false, not, ◌&&◌, ◌||◌, Option, none,
  some, List, [], ◌∷◌, ◌++◌, ltb, leb, ◌==◌, length, take, drop, Bytes, Access, value, fault, ◌>>=◌,
  read, slice, same, both, equal_at, if◌then◌else◌,
}
use esp32_remote_boot.Discovery.{magic, query, query_size, reply_size, signed_size}
use esp32_remote_boot.Rbdiscover.Dns.{mdns_address, mdns_query, ipv4_unicast}
use esp32_remote_boot.Rbdiscover.Encoding.{hex, signature_der}

abbrev pub discover_port : ℕ
discover_port = 49192

abbrev pub mdns_port : ℕ
mdns_port = 5353

abbrev pub zero_address : Bytes
zero_address = 0 ∷ 0 ∷ 0 ∷ 0 ∷ []

abbrev pub broadcast_address : Bytes
broadcast_address = 255 ∷ 255 ∷ 255 ∷ 255 ∷ []

abbrev pub mdns_group : Bytes
mdns_group = 224 ∷ 0 ∷ 0 ∷ 251 ∷ []

-- a return code: 0, the codes named in this file, and those of the library
pub data Code : Type 0 where
  success timed_out io_error invalid out_of_memory unreachable : Code
  other : ℕ → Code

-- the fields of `struct rbdiscover` that are not interfaces; the hostname is kept without its NUL
pub record Attempt : Type 0 where
  pub device_id : Bytes
  pub public_key : Bytes
  pub cache : Bytes
  pub local : Bytes
  pub nonce : Bytes
  pub query : Bytes
  pub deadline : ℕ
  pub started : Bool
  pub round : ℕ
  pub candidate : Bytes
  pub candidates : ℕ
  pub hostname : Bytes
  pub dns_query : Bytes

-- an entry of `ipv4_miniroutes`
pub record Route : Type 0 where
  pub address : Bytes
  pub netmask : Bytes
  pub gateway : Bytes
  pub netdev : ℕ

-- the calls that the handlers make
pub data Action : Type 0 where
  send : Bytes → ℕ → Bytes → Option ℕ → Action
  start_timer : ℕ → Action
  close : Code → Action
  store : Option Bytes → Action

abbrev pub is_zero : Bytes → Bool
is_zero a = same a zero_address

-- `route->address.s_addr | ~route->netmask.s_addr`
pub directed : Bytes → Bytes → Bytes
directed (a ∷ rest) (m ∷ ms) = bit_or a (255 - m) ∷ directed rest ms
directed _ _ = []

-- the packets for one route of the local address
pub route_sends : Attempt → Route → List Action
unfolding directed
route_sends rb r =
    if not (same r.address rb.local) || not (is_zero r.gateway)
    then []
    else send broadcast_address discover_port rb.query (some r.netdev)
      ∷ ((if is_zero r.netmask || same r.netmask broadcast_address
            then []
            else send (directed r.address r.netmask) discover_port rb.query (some r.netdev) ∷ [])
          ++ (send mdns_group mdns_port rb.dns_query (some r.netdev) ∷ []))

-- the loop over the routes, of which at most `left` are looked at
pub routes_sends : ℕ → Attempt → List Route → List Action
unfolding route_sends
routes_sends zero rb rs = []
routes_sends (suc left) rb [] = []
routes_sends (suc left) rb (r ∷ rs) = route_sends rb r ++ routes_sends left rb rs

-- `rbdiscover_send`, which always returns 0
unfoldable pub send_round : Attempt → List Route → Attempt × List Action
unfolding routes_sends
send_round rb routes =
    let first = send rb.cache discover_port rb.query none in
    let candidate_send =
      if is_zero rb.candidate then [] else send rb.candidate discover_port rb.query none ∷ [] in
    (
      record rb { round = (rb.round + 1) % 2 ^ 32 },
      if rb.round == 0 then first ∷ [] else first ∷ (candidate_send ++ routes_sends 8 rb routes),
    )

-- `( long ) ( now - rb->deadline ) >= 0`
unfoldable pub is_due : ℕ → ℕ → Bool
is_due now deadline = ltb ((now + 2 ^ 64 - deadline) % 2 ^ 64) (2 ^ 63)

module _ (ticks_per_sec : ℕ) where
  -- `rbdiscover_retry`
  unfoldable pub retry : Attempt → ℕ → List Action
  unfolding is_due
  retry rb now =
      let remaining = (rb.deadline + 2 ^ 64 - now) % 2 ^ 64 in
      let interval = ticks_per_sec / 2 in
      if is_due now rb.deadline
      then close timed_out ∷ []
      else start_timer (if ltb remaining interval then remaining else interval) ∷ []

  -- a round of packets, and the timer for the next
  pub send_and_retry : Attempt → ℕ → List Route → Attempt × List Action
  send_and_retry rb now routes =
      let (rb', sends) = send_round rb routes in (rb', sends ++ retry rb' now)

  -- `rbdiscover_window_changed`
  unfoldable pub window_changed : Attempt → ℕ → ℕ → List Route → Attempt × List Action
  unfolding send_and_retry
  window_changed rb window now routes =
      if rb.started || window == 0
      then (rb, [])
      else send_and_retry (record rb { started = true }) now routes

  -- `rbdiscover_expired`; the clock is read at entry, and later in `rbdiscover_retry`.
  unfoldable pub expired : Attempt → Bool → ℕ → ℕ → ℕ → List Route → Attempt × List Action
  unfolding send_and_retry is_due
  expired rb over window now later routes =
      if over || is_due now rb.deadline
      then (rb, close timed_out ∷ [])
      else if not rb.started && window == 0
      then (rb, retry rb later)
      else send_and_retry (record rb { started = true }) later routes

-- the prefix of a P-256 public key in a SubjectPublicKeyInfo, up to the form byte
abbrev pub key_prefix : Bytes
key_prefix =
    0x30 ∷ 0x59 ∷ 0x30 ∷ 0x13 ∷ 0x06 ∷ 0x07 ∷ 0x2a ∷ 0x86 ∷ 0x48 ∷ 0xce ∷ 0x3d ∷ 0x02 ∷ 0x01 ∷ 0x06
    ∷ 0x08 ∷ 0x2a ∷ 0x86 ∷ 0x48 ∷ 0xce ∷ 0x3d ∷ 0x03 ∷ 0x01 ∷ 0x07 ∷ 0x03 ∷ 0x42 ∷ 0x00 ∷ 0x04 ∷ []

-- The library's cryptography: `sha256_algorithm`, and whether `pubkey_verify` returns 0 for a key,
-- a digest and a signature in DER.
pub record Crypto : Type 0 where
  pub sha256 : Bytes → Bytes
  pub verifies : Bytes → Bytes → Bytes → Bool

-- `rbdiscover_verify`
unfoldable pub verify : Crypto → Bytes → Access Bool
verify c reply = do
  point ← slice reply 49 64
  signed ← slice reply 0 signed_size
  sig ← slice reply 113 64
  der ← signature_der sig
  value (c.verifies (key_prefix ++ point) (c.sha256 signed) der)

-- `meta->src`
pub record Source : Type 0 where
  pub inet : Bool
  pub port : ℕ
  pub address : Bytes

-- a list of bytes at an offset
bytes_at : Bytes → ℕ → Bytes → Access Bool
bytes_at p i [] = value true
bytes_at p i (b ∷ bs) = both (do found ← read p i; value (found == b)) (bytes_at p (i + 1) bs)

-- the tests of `rbdiscover_deliver` from the length to the source address
unfoldable pub reply_matches : Attempt → Bytes → Option Source → Access Bool
unfolding bytes_at
reply_matches rb reply src =
    if length reply == reply_size
    then both (equal_at reply 0 magic 4) (
        both (bytes_at reply 4 (2 ∷ 0 ∷ 0 ∷ 177 ∷ [])) (
          both (equal_at reply 8 rb.nonce 16) (
            both (equal_at reply 24 rb.device_id 16) (
              both (bytes_at reply 48 (4 ∷ [])) (
                both (equal_at reply 48 rb.public_key 65) (
                  both (ipv4_unicast reply 40) (
                    both (bytes_at reply 44 (0 ∷ 80 ∷ 0 ∷ 81 ∷ [])) (elim src [
                      | none ↦ value false
                      | some s ↦
                          if s.inet && s.port == discover_port
                          then equal_at reply 40 s.address 4
                          else value false
                    ]))))))))
    else value false

abbrev pub is_mdns : Option Source → Bool
is_mdns none = false
is_mdns (some s) = s.inet && s.port == mdns_port

-- `rbdiscover_deliver` on a datagram from the mDNS port
pub deliver_candidate : Attempt → Bytes → Access (Attempt × List Action)
deliver_candidate rb reply =
    if ltb rb.candidates 4
    then (do
      found ← mdns_address reply rb.hostname
      value (elim found [
        | none ↦ (rb, [])
        | some a ↦ if same a rb.candidate then (rb, []) else (
          record rb { candidate = a; candidates = rb.candidates + 1 },
          send a discover_port rb.query none ∷ [],
        )
      ]))
    else value (rb, [])

-- `rbdiscover_deliver`. The clock is read at entry, and later behind the verification. The setting
-- is stored by the library, whose code is passed on.
module _ (c : Crypto) (stored : Option Bytes → Code) where
  unfoldable pub deliver : Attempt → Bytes → Option Source → ℕ → ℕ → Access (Attempt × List Action)
  unfolding deliver_candidate is_due
  deliver rb reply src now later =
      if is_due now rb.deadline
      then value (rb, [])
      else if is_mdns src
      then deliver_candidate rb reply
      else do
        accepted ← both (reply_matches rb reply src) (verify c reply)
        if not accepted || is_due later rb.deadline
            then value (rb, [])
            else do a ← slice reply 40 4; value (rb, store (some a) ∷ close (stored (some a)) ∷ [])

-- What `rbdiscover` takes from the library: `inet_aton`, the nonce of `get_random_nz` (`none` if it
-- fails), the codes of `store_setting` and `xfer_open_socket`, and `zalloc`.
pub record Platform : Type 0 where
  pub ticks_per_sec : ℕ
  pub allocates : Bool
  pub inet_aton : Bytes → Option Bytes
  pub random : Option Bytes
  pub stored : Option Bytes → Code
  pub opened : Code

-- the first of at most `left` routes that has a unicast address
pub local_address : ℕ → List Route → Access Bytes
local_address zero rs = value zero_address
local_address (suc left) [] = value zero_address
local_address (suc left) (r ∷ rs) =
    let next = local_address left rs in
    do usable ← ipv4_unicast r.address 0; if usable then value r.address else next

-- `timeout_ms` brought into its bounds, in ticks
unfoldable pub budget : ℕ → ℕ → ℕ
budget ticks_per_sec timeout_ms =
    let least = if ltb timeout_ms 1000 then 1000 else timeout_ms in
    let clamped = if ltb 60000 least then 60000 else least in
    clamped * ticks_per_sec % 2 ^ 64 / 1000

abbrev pub is_success : Code → Bool
is_success success = true
is_success _ = false

-- The result of `rbdiscover` before it waits for the job: an error, or the attempt with its timer.
pub data Setup : Type 0 where
  failed : Code → List Action → Setup
  running : Attempt → List Action → Setup

-- `rbdiscover` from the stored setting on, with its arguments read
pub start_attempt : Platform → ℕ → List Route → ℕ → Bytes → Bytes → Bytes → Access Setup
unfolding budget local_address
start_attempt pf now routes timeout_ms device_id public_key cache = do
  dns ← mdns_query device_id
  suffix ← slice dns 13 24
  let cleared = store none ∷ []
  local ← local_address 8 routes
  if not (is_success (pf.stored none))
      then value (failed (pf.stored none) cleared)
      else elim pf.random [
        | none ↦ value (failed io_error cleared)
        | some nonce ↦ (do
          frame ← query nonce device_id
          let rb : Attempt = record {
            device_id = device_id;
            public_key = public_key;
            cache = cache;
            local = local;
            nonce = nonce;
            query = frame;
            deadline = (now + budget pf.ticks_per_sec timeout_ms) % 2 ^ 64;
            started = false;
            round = 0;
            candidate = zero_address;
            candidates = 0;
            hostname = suffix ++ (b'.' ∷ b'l' ∷ b'o' ∷ b'c' ∷ b'a' ∷ b'l' ∷ []);
            dns_query = dns;
          }
          value (
              if is_zero local
              then failed unreachable cleared
              else if not (is_success pf.opened)
              then failed pf.opened cleared
              else running rb (store none ∷ start_timer 0 ∷ [])))
      ]

-- `rbdiscover`
unfoldable pub discover : Platform → ℕ → List Route → Bytes → Bytes → Bytes → ℕ → Access Setup
unfolding start_attempt
discover pf now routes device_id_hex public_key_hex cache_ipv4 timeout_ms =
    if not pf.allocates then value (failed out_of_memory []) else elim (hex device_id_hex 16) [
      | none ↦ value (failed invalid [])
      | some device_id ↦ elim (hex public_key_hex 65) [
        | none ↦ value (failed invalid [])
        | some public_key ↦ (do
          form ← read public_key 0
          elim (pf.inet_aton cache_ipv4) [
            | none ↦ value (failed invalid [])
            | some cache ↦ (do
              unicast ← ipv4_unicast cache 0
              if not (form == 4) || not unicast
                  then value (failed invalid [])
                  else start_attempt pf now routes timeout_ms device_id public_key cache)
          ])
      ]
    ]

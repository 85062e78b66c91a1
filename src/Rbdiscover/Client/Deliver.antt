-- ===== src/Rbdiscover/Client/Deliver.antt =====
-- `rbdiscover_deliver`: when an address is published, and what an mDNS answer can change.
use esp32_remote_boot.Prelude.{
  ℕ, ◌+◌, ◌<◌, ◌≡◌, ◌≢◌, ◌⊎◌, refl, ap, Bool, true, false, ◌&&◌, Option, none, some, List, [], ◌∷◌,
  inl, inr, Bool-cases, ltb, ◌==◌, length, Bytes, Access, Access-cases, value, slice, same,
  same_iff, both, both_sound, equal_at, if◌then◌else◌, arith,
}
use esp32_remote_boot.Discovery.{
  magic, header, zero_bytes, valid_ipv4, valid_reply, nonzero_at, port_at, byte_at,
}
use esp32_remote_boot.Discovery.Frames.{equal_at_sound}
use esp32_remote_boot.Discovery.Parts.{Parts, valid_reply_of}
use esp32_remote_boot.Rbdiscover.Dns.{mdns_address, ipv4_unicast}
use esp32_remote_boot.Rbdiscover.Dns.Answers.{Answer, mdns_address-Answer}
use esp32_remote_boot.Rbdiscover.Client.{
  Code, Attempt, Action, send, close, store, is_due, Crypto, verify, Source, bytes_at,
  reply_matches, is_mdns, deliver_candidate, deliver, discover_port,
}

-- the header of the shared protocol from the tests of the client
header_of :
    (p : Bytes)
    → length p ≡ 177
    → equal_at p 0 magic 4 ≡ value true
    → bytes_at p 4 (2 ∷ 0 ∷ 0 ∷ 177 ∷ []) ≡ value true
    → header p 2 177 ≡ value true
unfolding header bytes_at
header_of p l m b = ground arith

ports_of :
    (p : Bytes)
    → bytes_at p 44 (0 ∷ 80 ∷ 0 ∷ 81 ∷ []) ≡ value true
    → (port_at p 44 80 ≡ value true) × (port_at p 46 81 ≡ value true)
unfolding bytes_at port_at
ports_of p b = ground arith

form_of : (p : Bytes) → bytes_at p 48 (4 ∷ []) ≡ value true → byte_at p 48 4 ≡ value true
unfolding bytes_at byte_at
form_of p b = ground arith

unicast_of : (p : Bytes) → ipv4_unicast p 40 ≡ value true → valid_ipv4 p 40 ≡ value true
unfolding ipv4_unicast valid_ipv4
unicast_of p b = ground arith

known_of :
    (p id : Bytes)
    → length id ≡ 16
    → zero_bytes id ≡ false
    → equal_at p 24 id 16 ≡ value true
    → nonzero_at p 24 16 ≡ value true
unfolding nonzero_at
known_of p id l k e = rw (equal_at_sound p 24 16 id l e, k)

-- the settings that a handler stores
abbrev pub published : List Action → List (Option Bytes)
published [] = []
published (store a ∷ rest) = a ∷ published rest
published (_ ∷ rest) = published rest

-- what stands behind an address that the client publishes
pub record IsAccepted (c : Crypto) (rb : Attempt) (reply : Bytes) (src : Option Source)
    (now later : ℕ) (a : Bytes) : Type 0 where
  pub source : Source
  pub from : src ≡ some source
  pub is_inet : source.inet ≡ true
  pub from_port : source.port ≡ 49192
  pub address : (slice reply 40 4 ≡ value a) × (equal_at reply 40 source.address 4 ≡ value true)
  pub in_time : (is_due now rb.deadline ≡ false) × (is_due later rb.deadline ≡ false)
  pub signature : verify c reply ≡ value true
  pub is_valid :
      valid_reply reply
        (some rb.nonce)
        (some rb.device_id)
        (some rb.public_key)
        (some source.address)
        80
        81
      ≡ value true

-- the source that the last test asks for
source_of :
    (reply : Bytes) (src : Option Source)
    → elim src [
      | none ↦ value false
      | some s ↦
          if s.inet && s.port == discover_port then equal_at reply 40 s.address 4 else value false
    ]
      ≡ value true
    → (s : Source) × (src ≡ some s)
      × (s.inet ≡ true)
      × (s.port ≡ 49192)
      × (equal_at reply 40 s.address 4 ≡ value true)
source_of reply none h = cc
source_of reply (some s) h = (s, refl, ground arith, ground arith, ground arith)

tested : (m n : ℕ) → (m == n) ≡ true → m ≡ n
tested m n e = ground arith

-- the tests of the client are those of the shared protocol
reply_matches-Parts :
    (rb : Attempt) (reply : Bytes) (src : Option Source)
    → length rb.device_id ≡ 16
    → zero_bytes rb.device_id ≡ false
    → reply_matches rb reply src ≡ value true
    → (s : Source) × (src ≡ some s)
      × (s.inet ≡ true)
      × (s.port ≡ 49192)
      × Parts reply rb.nonce rb.device_id rb.public_key s.address 80 81
unfolding reply_matches
reply_matches-Parts rb reply src l known h = elim (Bool-cases (length reply == 177)) [
  | inr e ↦ absurd (ground arith)
  | inl e ↦
      let (h0, r0) = both_sound (equal_at reply 0 magic 4) _ (if_true (length reply == 177) e h) in
      let (h1, r1) = both_sound (bytes_at reply 4 (2 ∷ 0 ∷ 0 ∷ 177 ∷ [])) _ r0 in
      let (h2, r2) = both_sound (equal_at reply 8 rb.nonce 16) _ r1 in
      let (h3, r3) = both_sound (equal_at reply 24 rb.device_id 16) _ r2 in
      let (h4, r4) = both_sound (bytes_at reply 48 (4 ∷ [])) _ r3 in
      let (h5, r5) = both_sound (equal_at reply 48 rb.public_key 65) _ r4 in
      let (h6, r6) = both_sound (ipv4_unicast reply 40) _ r5 in
      let (h7, h8) = both_sound (bytes_at reply 44 (0 ∷ 80 ∷ 0 ∷ 81 ∷ [])) _ r6 in
      let (s, from, inet, port, address) = source_of reply src h8 in
      (
        s,
        from,
        inet,
        port,
        record {
          head = header_of reply (tested (length reply) 177 e) h0 h1;
          same_nonce = h2;
          same_id = h3;
          device_known = known_of reply rb.device_id l known h3;
          unicast = unicast_of reply h6;
          same_source = address;
          http_is = (ports_of reply h7).0;
          ws_is = (ports_of reply h7).1;
          form_is = form_of reply h4;
          same_key = h5;
        },
      )
]
  where
    if_true :
        (b : Bool) {m : Access Bool}
        → b ≡ true
        → (if b then m else value false) ≡ value true
        → m ≡ value true
    if_true true e k = k
    if_true false e k = cc

-- A packet from the mDNS port changes nothing, or it makes an address the candidate: then a record of
-- the packet answers the device's hostname with that unicast address, fewer than 4 candidates
-- came before, the address is not the candidate already, and all that is sent is the query, to
-- port 49192 of it.
pub deliver_candidate-cases :
    (rb : Attempt) (reply : Bytes) (rb' : Attempt) (actions : List Action)
    → deliver_candidate rb reply ≡ value (rb', actions)
    → ((rb' ≡ rb) × (actions ≡ []))
      ⊎ ((a : Bytes) × Answer reply rb.hostname a
          × (a ≢ rb.candidate)
          × (rb.candidates < 4)
          × (rb' ≡ record rb { candidate = a; candidates = rb.candidates + 1 })
          × (actions ≡ send a 49192 rb.query none ∷ []))
unfolding deliver_candidate
deliver_candidate-cases rb reply rb' actions h = elim (Bool-cases (ltb rb.candidates 4)) [
  | inr e ↦ inl (ground arith)
  | inl e ↦ elim (Access-cases (mdns_address reply rb.hostname)) [
    | inl bad ↦ absurd (ground arith)
    | inr (none, found) ↦ inl (ground arith)
    | inr (some a, found) ↦ elim (Bool-cases (same a rb.candidate)) [
      | inl known ↦ inl (ground arith)
      | inr fresh ↦ inr (
        a,
        (mdns_address-Answer reply rb.hostname a found).0,
        (λ k. ground (arith, (same_iff a rb.candidate).1 k)),
        ground arith,
        ground arith,
        ground arith,
      )
    ]
  ]
]

module _ (c : Crypto) (stored : Option Bytes → Code) where
  -- When a datagram arrives for an attempt with an identifier that is not all zero, the client
  -- stores nothing, or it stores one setting and ends the attempt: then the datagram is a reply that
  -- `rb_discovery_valid_reply` of the shared protocol accepts for the attempt's nonce, identifier
  -- and key, the ports 80 and 81 and the address that it came from, its source port is 49192, its
  -- signature verifies, the deadline is past neither at entry nor behind the verification, and the
  -- setting is the address in the reply.
  pub deliver-IsAccepted :
      (rb : Attempt) (reply : Bytes) (src : Option Source) (now later : ℕ) (rb' : Attempt)
      (actions : List Action)
      → length rb.device_id ≡ 16
      → zero_bytes rb.device_id ≡ false
      → deliver c stored rb reply src now later ≡ value (rb', actions)
      → (published actions ≡ [])
        ⊎ ((a : Bytes) × (actions ≡ store (some a) ∷ close (stored (some a)) ∷ [])
            × IsAccepted c rb reply src now later a)
  unfolding deliver
  deliver-IsAccepted rb reply src now later rb' actions l known h =
      elim (Bool-cases (is_due now rb.deadline)) [
        | inl late ↦ inl (ground arith)
        | inr early ↦ elim (Bool-cases (is_mdns src)) [
          | inl m ↦ elim (deliver_candidate-cases rb reply rb' actions (ground arith)) [
            | inl (_, none_sent) ↦ inl (ap published none_sent)
            | inr (a, _, _, _, _, sent) ↦ inl (ap published sent)
          ]
          | inr m ↦ elim (Access-cases (both (reply_matches rb reply src) (verify c reply))) [
            | inl bad ↦ absurd (ground arith)
            | inr (false, e) ↦ inl (ground arith)
            | inr (true, e) ↦ elim (Bool-cases (is_due later rb.deadline)) [
              | inl late ↦ inl (ground arith)
              | inr early' ↦ elim (Access-cases (slice reply 40 4)) [
                | inl bad ↦ absurd (ground arith)
                | inr (a, found) ↦ inr (
                    accepted a found (both_sound (reply_matches rb reply src) (verify c reply) e)
                      early early' (ground arith))
              ]
            ]
          ]
        ]
      ]
    where
      accepted :
          (a : Bytes)
          → slice reply 40 4 ≡ value a
          → (reply_matches rb reply src ≡ value true) × (verify c reply ≡ value true)
          → is_due now rb.deadline ≡ false
          → is_due later rb.deadline ≡ false
          → actions ≡ store (some a) ∷ close (stored (some a)) ∷ []
          → (a : Bytes) × (actions ≡ store (some a) ∷ close (stored (some a)) ∷ [])
            × IsAccepted c rb reply src now later a
      accepted a found (matches, verified) early early' e =
          let (s, from, inet, port, parts) = reply_matches-Parts rb reply src l known matches in
          (
            a,
            e,
            record {
              source = s;
              from = from;
              is_inet = inet;
              from_port = port;
              address = (found, parts.same_source);
              in_time = (early, early');
              signature = verified;
              is_valid =
                  valid_reply_of reply rb.nonce rb.device_id rb.public_key s.address 80 81
                    (ground arith, ground arith) parts;
            },
          )

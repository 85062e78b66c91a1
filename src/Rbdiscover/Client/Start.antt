-- ===== src/Rbdiscover/Client/Start.antt =====
-- `rbdiscover`: what holds of an attempt that has begun.
use esp32_remote_boot.Prelude.{
  ℕ, ◌+◌, ◌-◌, ◌*◌, ◌/◌, ◌%◌, ◌^◌, ◌≤◌, ◌<◌, ◌≡◌, ◌≢◌, refl, sym, ap, ◌∙◌, true, false, not, ◌||◌,
  none, some, Option-cases, List, [], ◌∷◌, ◌++◌, inl, inr, Bool-cases, ltb, ◌==◌, length, Bytes,
  AllBytes, take_all, slice_sound, Access-cases, value, read, slice, same_iff, if◌then◌else◌, arith,
  drop,
}
use esp32_remote_boot.Discovery.{query, valid_query}
use esp32_remote_boot.Discovery.Frames.{frame, valid_query_of}
use esp32_remote_boot.Rbdiscover.Dns.{
  mdns_query, ipv4_unicast, dns_name, hex_pairs, service_prefix, local_text,
}
use esp32_remote_boot.Rbdiscover.Dns.Query.{dns_name-mdns_query, slice-mdns_query}
use esp32_remote_boot.Rbdiscover.Encoding.{hex}
use esp32_remote_boot.Rbdiscover.Encoding.Hex.{hex_sound}
use esp32_remote_boot.Rbdiscover.Client.{
  Code, success, Attempt, Action, Route, start_timer, store, is_zero, Platform, local_address,
  budget, is_success, running, start_attempt, discover, zero_address,
}

-- the attempt that the arguments and the library's answers begin
pub record Begun (pf : Platform) (now : ℕ) (routes : List Route) (timeout_ms : ℕ)
    (device_id public_key cache : Bytes) (rb : Attempt) (actions : List Action) : Type 0 where
  pub device_is : rb.device_id ≡ device_id
  pub key_is : rb.public_key ≡ public_key
  pub cache_is : rb.cache ≡ cache
  pub nonce_is : pf.random ≡ some rb.nonce
  pub query_is : query rb.nonce rb.device_id ≡ value rb.query
  pub dns_is : mdns_query rb.device_id ≡ value rb.dns_query
  pub suffix : Bytes
  pub suffix_is : slice rb.dns_query 13 24 ≡ value suffix
  pub hostname_is : rb.hostname ≡ suffix ++ (b'.' ∷ local_text)
  pub local_is : local_address 8 routes ≡ value rb.local
  pub local_known : rb.local ≢ zero_address
  pub codes : (pf.stored none ≡ success) × (pf.opened ≡ success)
  pub deadline_is : rb.deadline ≡ (now + budget pf.ticks_per_sec timeout_ms) % 2 ^ 64
  pub fresh :
      (rb.started ≡ false) × (rb.round ≡ 0) × (rb.candidates ≡ 0) × (rb.candidate ≡ zero_address)
  pub first_actions : actions ≡ store none ∷ start_timer 0 ∷ []

is_success_sound : (c : Code) → is_success c ≡ true → c ≡ success
is_success_sound success e = refl
is_success_sound _ e = ground arith

start_attempt-Begun :
    (pf : Platform) (now : ℕ) (routes : List Route) (timeout_ms : ℕ) (id key cache : Bytes)
    (rb : Attempt) (actions : List Action)
    → start_attempt pf now routes timeout_ms id key cache ≡ value (running rb actions)
    → Begun pf now routes timeout_ms id key cache rb actions
unfolding start_attempt
start_attempt-Begun pf now routes timeout_ms id key cache rb actions h =
    elim (Access-cases (mdns_query id)) [
      | inl bad ↦ absurd (ground arith)
      | inr (dns, e1) ↦ elim (Access-cases (slice dns 13 24)) [
        | inl bad ↦ absurd (ground arith)
        | inr (suffix, e2) ↦ elim (Access-cases (local_address 8 routes)) [
          | inl bad ↦ absurd (ground arith)
          | inr (local, e3) ↦ elim (Bool-cases (is_success (pf.stored none))) [
            | inr bad ↦ absurd (ground arith)
            | inl yes_stored ↦ elim (Option-cases (pf.random)) [
              | inl bad ↦ absurd (ground arith)
              | inr (nonce, e4) ↦ elim (Access-cases (query nonce id)) [
                | inl bad ↦ absurd (ground arith)
                | inr (frame, e5) ↦ elim (Bool-cases (is_zero local)) [
                  | inl bad ↦ absurd (ground arith)
                  | inr known ↦ elim (Bool-cases (is_success pf.opened)) [
                    | inr bad ↦ absurd (ground arith)
                    | inl opened ↦ record {
                      device_is = ground arith;
                      key_is = ground arith;
                      cache_is = ground arith;
                      nonce_is = ground arith;
                      query_is = ground arith;
                      dns_is = ground arith;
                      suffix = suffix;
                      suffix_is = ground arith;
                      hostname_is = ground arith;
                      local_is = ground arith;
                      local_known = λ z. ground (arith, (same_iff local zero_address).1);
                      codes = (
                        is_success_sound (pf.stored none) yes_stored,
                        is_success_sound pf.opened opened,
                      );
                      deadline_is = ground arith;
                      fresh = ground arith;
                      first_actions = ground arith;
                    }
                  ]
                ]
              ]
            ]
          ]
        ]
      ]
    ]

-- `rbdiscover` returns an attempt only for arguments that it accepts, with the attempt begun.
discover-Begun :
    (pf : Platform) (now : ℕ) (routes : List Route) (id_hex key_hex cache_text : Bytes)
    (timeout_ms : ℕ) (rb : Attempt) (actions : List Action)
    → discover pf now routes id_hex key_hex cache_text timeout_ms ≡ value (running rb actions)
    → (id : Bytes) × (key : Bytes) × (cache : Bytes) × (hex id_hex 16 ≡ some id)
      × (hex key_hex 65 ≡ some key)
      × (pf.inet_aton cache_text ≡ some cache)
      × (read key 0 ≡ value 4)
      × (ipv4_unicast cache 0 ≡ value true)
      × Begun pf now routes timeout_ms id key cache rb actions
unfolding discover
discover-Begun pf now routes id_hex key_hex cache_text timeout_ms rb actions h =
    elim (Bool-cases pf.allocates) [
      | inr bad ↦ absurd (ground arith)
      | inl room ↦ elim (Option-cases (hex id_hex 16)) [
        | inl bad ↦ absurd (ground arith)
        | inr (id, e1) ↦ elim (Option-cases (hex key_hex 65)) [
          | inl bad ↦ absurd (ground arith)
          | inr (key, e2) ↦ elim (Access-cases (read key 0)) [
            | inl bad ↦ absurd (ground arith)
            | inr (form, e3) ↦ elim (Option-cases (pf.inet_aton cache_text)) [
              | inl bad ↦ absurd (ground arith)
              | inr (cache, e4) ↦ elim (Access-cases (ipv4_unicast cache 0)) [
                | inl bad ↦ absurd (ground arith)
                | inr (unicast, e5) ↦ elim (Bool-cases (not (form == 4) || not unicast)) [
                  | inl bad ↦ absurd (ground arith)
                  | inr fine ↦ (
                    id,
                    key,
                    cache,
                    e1,
                    e2,
                    e4,
                    ground arith,
                    ground arith,
                    start_attempt-Begun pf now routes timeout_ms id key cache rb actions
                        (ground arith),
                  )
                ]
              ]
            ]
          ]
        ]
      ]
    ]

mul_bound : (a b t : ℕ) → a ≤ b → a * t ≤ b * t
mul_bound a b t h =
    let e : b ≡ a + (b - a) = omega arith in
    let e' : b * t ≡ (a + (b - a)) * t = ap (λ x. x * t) e in omega (arith, e')

clamped_bounds :
    (c ticks : ℕ)
    → 1000 ≤ c
    → c ≤ 60000
    → ticks < 2 ^ 40
    → (ticks ≤ c * ticks % 2 ^ 64 / 1000) × (c * ticks % 2 ^ 64 / 1000 ≤ 60 * ticks)
clamped_bounds c ticks least most h =
    let low = mul_bound 1000 c ticks least in
    let high = mul_bound c 60000 ticks most in (omega (arith, low, high), omega (arith, low, high))

-- The budget is from 1 s to 60 s, exactly the timeout when that is between them. The tick rate is
-- below 2 ^ 40, where the 64-bit product is not cut.
pub budget_bounds :
    (ticks timeout_ms : ℕ)
    → ticks < 2 ^ 40
    → (ticks ≤ budget ticks timeout_ms)
      × (budget ticks timeout_ms ≤ 60 * ticks)
      × (1000 ≤ timeout_ms
          → timeout_ms ≤ 60000
          → budget ticks timeout_ms ≡ timeout_ms * ticks / 1000)
unfolding budget
budget_bounds ticks timeout_ms h =
    let (low, high) = clamped_bounds (clamp timeout_ms) ticks (ground arith) (ground arith) h in
    (
      low,
      high,
      λ least most.
          let cut = mul_bound timeout_ms 60000 ticks most in ground (arith, least, most, cut),
    )
  where
    clamp : ℕ → ℕ
    clamp n = let least = if ltb n 1000 then 1000 else n in if ltb 60000 least then 60000 else least

query-valid_query :
    (nonce id frame : Bytes)
    → length id ≡ 16
    → query nonce id ≡ value frame
    → valid_query frame id ≡ value true
unfolding query
query-valid_query nonce id q l h = elim (Access-cases (slice nonce 0 16)) [
  | inl bad ↦ absurd (ground arith)
  | inr (n, e) ↦
      let (e1, l1, _) = slice_sound nonce 0 16 16 n e refl in
      valid_query_of q id l (record {
        nonce = n;
        asked = id;
        nonce_size = l1;
        asked_size = l;
        framed = ground (arith, take_all 16 id);
        addressed = inr refl;
      })
]

-- the name that the query asks for is the attempt's hostname
hostname-dns_query :
    (id query suffix : Bytes)
    → AllBytes id
    → length id ≡ 16
    → mdns_query id ≡ value query
    → slice query 13 24 ≡ value suffix
    → dns_name query 12 ≡ value (some (suffix ++ (b'.' ∷ local_text), 44))
hostname-dns_query id query suffix bs l e f =
    let (q, made, _, named) = dns_name-mdns_query id bs l in
    let same_query : q ≡ query = ground arith in
    let same_suffix : service_prefix ++ hex_pairs (drop 10 id) ≡ suffix =
      ground (arith, slice-mdns_query id query l e) in
    ap (λ t. dns_name t 12) (sym same_query)
    ∙ named
    ∙ ap (λ t. value (some (t ++ (b'.' ∷ local_text), 44))) same_suffix

-- what the client has checked and made when its attempt begins
pub record IsReady (pf : Platform) (id_hex key_hex cache_text : Bytes) (rb : Attempt) : Type 0 where
  pub id_read : hex id_hex 16 ≡ some rb.device_id
  pub key_read : hex key_hex 65 ≡ some rb.public_key
  pub cache_read : pf.inet_aton cache_text ≡ some rb.cache
  pub nonce_read : pf.random ≡ some rb.nonce
  pub uncompressed : read rb.public_key 0 ≡ value 4
  pub unicast : ipv4_unicast rb.cache 0 ≡ value true
  pub accepted : valid_query rb.query rb.device_id ≡ value true
  pub asks_hostname : dns_name rb.dns_query 12 ≡ value (some (rb.hostname, 44))
  pub reachable : rb.local ≢ zero_address

-- When `rbdiscover` starts to wait, for an identifier given as a text of bytes: its arguments have
-- been read, the key is uncompressed and the cached address unicast, the query is one that the
-- device's validator accepts for this identifier, the DNS query asks for the very hostname that the
-- answers are compared with, there is a local address, the deadline is the budget from now, nothing
-- has been sent, and the setting is clear with the timer due at once.
pub discover-IsReady :
    (pf : Platform) (now : ℕ) (routes : List Route) (id_hex key_hex cache_text : Bytes)
    (timeout_ms : ℕ) (rb : Attempt) (actions : List Action)
    → AllBytes id_hex
    → discover pf now routes id_hex key_hex cache_text timeout_ms ≡ value (running rb actions)
    → IsReady pf id_hex key_hex cache_text rb
      × (rb.deadline ≡ (now + budget pf.ticks_per_sec timeout_ms) % 2 ^ 64)
      × (rb.started ≡ false)
      × (rb.round ≡ 0)
      × (rb.candidates ≡ 0)
      × (actions ≡ store none ∷ start_timer 0 ∷ [])
discover-IsReady pf now routes id_hex key_hex cache_text timeout_ms rb actions bs h =
    let (id, key, cache, e1, e2, e3, form, unicast, b) =
      discover-Begun pf now routes id_hex key_hex cache_text timeout_ms rb actions h in
    let (_, id_bytes, size) = hex_sound id_hex 16 id bs e1 in
    (
      record {
        id_read = e1 ∙ ap some (sym b.device_is);
        key_read = e2 ∙ ap some (sym b.key_is);
        cache_read = e3 ∙ ap some (sym b.cache_is);
        nonce_read = b.nonce_is;
        uncompressed = ap (λ k. read k 0) b.key_is ∙ form;
        unicast = ap (λ a. ipv4_unicast a 0) b.cache_is ∙ unicast;
        accepted =
            query-valid_query rb.nonce rb.device_id rb.query (ap length b.device_is ∙ size)
              b.query_is;
        asks_hostname =
            hostname-dns_query rb.device_id rb.dns_query b.suffix (rw b.device_is id_bytes)
              (ap length b.device_is ∙ size) b.dns_is b.suffix_is
            ∙ ap (λ t. value (some (t, 44))) (sym b.hostname_is);
        reachable = b.local_known;
      },
      b.deadline_is,
      b.fresh.0,
      b.fresh.1,
      b.fresh.2,
      b.first_actions,
    )

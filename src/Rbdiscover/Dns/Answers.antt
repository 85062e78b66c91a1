-- ===== src/Rbdiscover/Dns/Answers.antt =====
-- `rb_mdns_address`: what an accepted packet holds, and that the parser stays in it.
use esp32_remote_boot.Prelude.{
  ℕ, zero, suc, ◌+◌, ◌%◌, ◌≤◌, ◌<◌, ◌≡◌, ◌≢◌, ◌⊎◌, refl, ap, ◌∙◌, true, false, Option, none, some,
  [], ◌∷◌, inl, inr, length, Bytes, Access-cases, value, slice, same_iff, read-returns,
  slice-returns, slice_sound, read_at, returns, arith,
}
use esp32_remote_boot.Rbdiscover.Dns.{
  dns_u16, nonzero_at, dns_name, ipv4_unicast, skip_questions, record_matches, record_candidate,
  read_records, answer_header, mdns_address,
}
use esp32_remote_boot.Rbdiscover.Dns.Names.{dns_name-returns, dns_name_bounds}

-- A record of type A and class IN with a lifetime that is not 0, whose owner is `hostname` and
-- whose data is the unicast address `a`.
pub record Answer (p hostname a : Bytes) : Type 0 where
  pub start : ℕ
  pub at : ℕ
  pub class : ℕ
  pub owner : dns_name p start ≡ value (some (hostname, at))
  pub type_is : dns_u16 p at ≡ value 1
  pub class_at : dns_u16 p (at + 2) ≡ value class
  pub class_is : class % 32768 ≡ 1
  pub lives : slice p (at + 4) 4 ≢ value (0 ∷ 0 ∷ 0 ∷ 0 ∷ [])
  pub data_size : dns_u16 p (at + 8) ≡ value 4
  pub data_is : slice p (at + 10) 4 ≡ value a
  pub unicast : ipv4_unicast p (at + 10) ≡ value true

-- the facts of a record that `record_matches` has accepted
record Matched (p : Bytes) (at len : ℕ) (name hostname : Bytes) : Type 0 where
  class : ℕ
  type_is : dns_u16 p at ≡ value 1
  class_at : dns_u16 p (at + 2) ≡ value class
  class_is : class % 32768 ≡ 1
  lives : slice p (at + 4) 4 ≢ value (0 ∷ 0 ∷ 0 ∷ 0 ∷ [])
  size : len ≡ 4
  named : name ≡ hostname

-- four zero bytes do not pass the test
nonzero_at_sound :
    (p : Bytes) (i : ℕ) → nonzero_at p i ≡ value true → slice p i 4 ≢ value (0 ∷ 0 ∷ 0 ∷ 0 ∷ [])
unfolding nonzero_at
nonzero_at_sound p i h z =
    let (e, _, _) = slice_sound p i 4 (i + 4) (0 ∷ 0 ∷ 0 ∷ 0 ∷ []) z refl in
    ground (
      arith,
      read_at p i 0 i e,
      read_at p i 1 (i + 1) e,
      read_at p i 2 (i + 2) e,
      read_at p i 3 (i + 3) e,
    )

record_matches-Matched :
    (p : Bytes) (at len : ℕ) (name hostname : Bytes)
    → record_matches p at len name hostname ≡ value true
    → Matched p at len name hostname
unfolding record_matches
record_matches-Matched p at len name hostname h = elim (Access-cases (dns_u16 p at)) [
  | inl bad ↦ absurd (ground arith)
  | inr (type, e1) ↦ elim (Access-cases (dns_u16 p (at + 2))) [
    | inl bad ↦ absurd (ground arith)
    | inr (class, e2) ↦ elim (Access-cases (nonzero_at p (at + 4))) [
      | inl bad ↦ absurd (ground arith)
      | inr (lives, e3) ↦ record {
        class = class;
        type_is = ground arith;
        class_at = e2;
        class_is = ground arith;
        lives = nonzero_at_sound p (at + 4) (ground arith);
        size = ground arith;
        named = (same_iff name hostname).0 (ground arith);
      }
    ]
  ]
]

record_candidate-Answer :
    (p : Bytes) (start at len : ℕ) (name hostname a : Bytes) (candidate : Option Bytes)
    → dns_name p start ≡ value (some (name, at))
    → dns_u16 p (at + 8) ≡ value len
    → record_candidate p at len name hostname candidate ≡ value (some a)
    → (candidate ≡ some a) ⊎ Answer p hostname a
unfolding record_candidate
record_candidate-Answer p start at len name hostname a candidate o l h =
    elim (Access-cases (record_matches p at len name hostname)) [
      | inl bad ↦ absurd (ground arith)
      | inr (false, e) ↦ inl (ground arith)
      | inr (true, e) ↦ elim (Access-cases (ipv4_unicast p (at + 10))) [
        | inl bad ↦ absurd (ground arith)
        | inr (false, e') ↦ inl (ground arith)
        | inr (true, e') ↦ elim (Access-cases (slice p (at + 10) 4)) [
          | inl bad ↦ absurd (ground arith)
          | inr (x, cut) ↦
              let m = record_matches-Matched p at len name hostname e in
              inr (record {
                start = start;
                at = at;
                class = m.class;
                owner = o ∙ ap (λ (n : Bytes). value (some (n, at))) m.named;
                type_is = m.type_is;
                class_at = m.class_at;
                class_is = m.class_is;
                lives = m.lives;
                data_size = l ∙ ap value m.size;
                data_is = cut ∙ ground arith;
                unicast = e';
              })
        ]
      ]
    ]

read_records-Answer :
    (k : ℕ) (p : Bytes) (pos : ℕ) (hostname a : Bytes) (candidate : Option Bytes) (end : ℕ)
    → read_records k p pos hostname candidate ≡ value (some (end, some a))
    → (candidate ≡ some a) ⊎ Answer p hostname a
unfolding read_records
read_records-Answer zero p pos hostname a candidate end h = inl (ground arith)
read_records-Answer (suc k) p pos hostname a candidate end h =
    elim (Access-cases (dns_name p pos)) [
      | inl bad ↦ absurd (ground arith)
      | inr (none, e) ↦ absurd (ground arith)
      | inr (some (name, at), e) ↦ elim (Access-cases (dns_u16 p (at + 8))) [
        | inl bad ↦ absurd (ground arith)
        | inr (len, l) ↦ elim (Access-cases (record_candidate p at len name hostname candidate)) [
          | inl bad ↦ absurd (ground arith)
          | inr (candidate', c) ↦
              elim (read_records-Answer k p (at + (10 + len)) hostname a candidate' end
                (ground arith)) [
                  | inl same_one ↦
                      record_candidate-Answer p pos at len name hostname a candidate e l
                        (c ∙ ap value same_one)
                  | inr later ↦ inr later
                ]
        ]
      ]
    ]

-- the course of a parse that has reached the end of the packet with a candidate
pub record Packet (p hostname a : Bytes) : Type 0 where
  pub questions : ℕ
  pub records : ℕ
  pub behind : ℕ
  pub header_is : answer_header p ≡ value (some (questions, records))
  pub questions_are : skip_questions questions p 12 ≡ value (some behind)
  pub records_are : read_records records p behind hostname none ≡ value (some (length p, some a))

mdns_address-Packet :
    (p hostname a : Bytes) → mdns_address p hostname ≡ value (some a) → Packet p hostname a
unfolding mdns_address
mdns_address-Packet p hostname a h = elim (Access-cases (answer_header p)) [
  | inl bad ↦ absurd (ground arith)
  | inr (none, e) ↦ absurd (ground arith)
  | inr (some (q, k), e) ↦ elim (Access-cases (skip_questions q p 12)) [
    | inl bad ↦ absurd (ground arith)
    | inr (none, e') ↦ absurd (ground arith)
    | inr (some pos, e') ↦ elim (Access-cases (read_records k p pos hostname none)) [
      | inl bad ↦ absurd (ground arith)
      | inr (none, e'') ↦ absurd (ground arith)
      | inr (some (end, candidate), e'') ↦ record {
        questions = q;
        records = k;
        behind = pos;
        header_is = e;
        questions_are = e';
        records_are = ground arith;
      }
    ]
  ]
]

answer_header_bounds :
    (p : Bytes) (q k : ℕ)
    → answer_header p ≡ value (some (q, k))
    → (12 ≤ length p) × (length p ≤ 512)
unfolding answer_header
answer_header_bounds p q k h = ground arith

-- An address that the parser returns is the data of an A record of the packet: class IN, four
-- bytes, a lifetime that is not 0, a unicast address, and an owner that decodes to exactly the host
-- name. The packet has from 12 to 512 bytes, and its last record ends where it ends.
pub mdns_address-Answer :
    (p hostname a : Bytes)
    → mdns_address p hostname ≡ value (some a)
    → Answer p hostname a × Packet p hostname a × (12 ≤ length p) × (length p ≤ 512)
mdns_address-Answer p hostname a h =
    let r = mdns_address-Packet p hostname a h in
    let (least, most) = answer_header_bounds p r.questions r.records r.header_is in
    (
      elim (read_records-Answer r.records p r.behind hostname a none (length p) r.records_are) [
        | inl nothing ↦ absurd (cc nothing)
        | inr answer ↦ answer
      ],
      r,
      least,
      most,
    )

dns_u16-returns : (p : Bytes) (i : ℕ) → i + 1 < length p → returns (dns_u16 p i) ≡ true
unfolding dns_u16
dns_u16-returns p i h = ground (arith, read-returns p i, read-returns p (i + 1))

nonzero_at-returns : (p : Bytes) (i : ℕ) → i + 3 < length p → returns (nonzero_at p i) ≡ true
unfolding nonzero_at
nonzero_at-returns p i h = ground (
  arith,
  read-returns p i,
  read-returns p (i + 1),
  read-returns p (i + 2),
  read-returns p (i + 3),
)

record_matches-returns :
    (p : Bytes) (at len : ℕ) (name hostname : Bytes)
    → at + 7 < length p
    → returns (record_matches p at len name hostname) ≡ true
unfolding record_matches
record_matches-returns p at len name hostname h =
    ground (arith, dns_u16-returns p at, dns_u16-returns p (at + 2), nonzero_at-returns p (at + 4))

ipv4_unicast-returns : (p : Bytes) (i : ℕ) → i < length p → returns (ipv4_unicast p i) ≡ true
unfolding ipv4_unicast
ipv4_unicast-returns p i h = ground (arith, read-returns p i)

-- The data of a record of four bytes is read only where the packet holds it.
record_candidate-returns :
    (p : Bytes) (at len : ℕ) (name hostname : Bytes) (candidate : Option Bytes)
    → at + 10 + len ≤ length p
    → returns (record_candidate p at len name hostname candidate) ≡ true
unfolding record_candidate
record_candidate-returns p at len name hostname candidate h =
    elim (Access-cases (record_matches p at len name hostname)) [
      | inl bad ↦ ground (arith, record_matches-returns p at len name hostname)
      | inr (false, e) ↦ ground arith
      | inr (true, e) ↦
          let size = (record_matches-Matched p at len name hostname e).size in
          ground (arith, ipv4_unicast-returns p (at + 10), slice-returns p (at + 10) 4)
    ]

skip_questions-returns : (q : ℕ) (p : Bytes) (pos : ℕ) → returns (skip_questions q p pos) ≡ true
unfolding skip_questions
skip_questions-returns zero p pos = refl
skip_questions-returns (suc q) p pos = elim (Access-cases (dns_name p pos)) [
  | inl bad ↦ ground (arith, dns_name-returns p pos)
  | inr (none, e) ↦ ground arith
  | inr (some (name, at), e) ↦ ground (arith, skip_questions-returns q p (at + 4))
]

read_records-returns :
    (k : ℕ) (p : Bytes) (pos : ℕ) (hostname : Bytes) (candidate : Option Bytes)
    → returns (read_records k p pos hostname candidate) ≡ true
unfolding read_records
read_records-returns zero p pos hostname candidate = refl
read_records-returns (suc k) p pos hostname candidate = elim (Access-cases (dns_name p pos)) [
  | inl bad ↦ ground (arith, dns_name-returns p pos)
  | inr (none, e) ↦ ground arith
  | inr (some (name, at), e) ↦ elim (Access-cases (dns_u16 p (at + 8))) [
    | inl bad ↦ ground (arith, dns_u16-returns p (at + 8), dns_name_bounds p pos name at e)
    | inr (len, l) ↦ elim (Access-cases (record_candidate p at len name hostname candidate)) [
      | inl bad ↦ ground (
        arith,
        record_candidate-returns p at len name hostname candidate,
        dns_name_bounds p pos name at e,
      )
      | inr (candidate', c) ↦
          ground (arith, read_records-returns k p (at + (10 + len)) hostname candidate')
    ]
  ]
]

answer_header-returns : (p : Bytes) → returns (answer_header p) ≡ true
unfolding answer_header
answer_header-returns p = ground (
  arith,
  read-returns p 0,
  read-returns p 1,
  dns_u16-returns p 2,
  dns_u16-returns p 4,
  dns_u16-returns p 6,
  dns_u16-returns p 8,
  dns_u16-returns p 10,
)

-- The parse of a datagram ends and reads only inside it, whatever it holds.
pub mdns_address-returns : (p hostname : Bytes) → returns (mdns_address p hostname) ≡ true
unfolding mdns_address
mdns_address-returns p hostname = elim (Access-cases (answer_header p)) [
  | inl bad ↦ ground (arith, answer_header-returns p)
  | inr (none, e) ↦ ground arith
  | inr (some (q, k), e) ↦ elim (Access-cases (skip_questions q p 12)) [
    | inl bad ↦ ground (arith, skip_questions-returns q p 12)
    | inr (none, e') ↦ ground arith
    | inr (some pos, e') ↦ elim (Access-cases (read_records k p pos hostname none)) [
      | inl bad ↦ ground (arith, read_records-returns k p pos hostname none)
      | inr (none, e'') ↦ ground arith
      | inr (some (end, candidate), e'') ↦ ground arith
    ]
  ]
]

-- ===== src/Rbdiscover/Dns.antt =====
-- ipxe/rbdiscover/rbdiscover_dns.h: the mDNS candidate parser and the query that it answers. Names
-- are kept as the bytes before C's NUL. `|` of fields that share no bit is written `+`, and a mask
-- of low or high bits as a remainder or a quotient. `n - pos` is read only at `pos ≤ n`.
pub mod Names
pub mod Answers
pub mod Query
use Prim.Native.Nat.{bit_and}
use esp32_remote_boot.Prelude.{
  ℕ, zero, suc, ◌+◌, ◌-◌, ◌*◌, ◌/◌, ◌%◌, Bool, true, false, not, ◌&&◌, ◌||◌, Option, none, some,
  List, [], ◌∷◌, ◌++◌, ltb, leb, ◌==◌, length, replicate, get_elem?, take, drop, Bytes, Access,
  fault, value, ◌>>=◌, read, slice, checked, same, if◌then◌else◌,
}

-- `rb_dns_u16(p + i)`
unfoldable pub dns_u16 : Bytes → ℕ → Access ℕ
dns_u16 p i = do high ← read p i; low ← read p (i + 1); value (high * 256 + low)

unfoldable pub lower : ℕ → ℕ
lower c = if leb b'A' c && leb c b'Z' then c + 32 else c

-- The inner loop of `rb_dns_name` over the bytes of one label; a NUL or a dot in it is refused.
unfoldable pub label_text : Bytes → Option Bytes
unfolding lower
label_text [] = some []
label_text (c ∷ cs) =
    let rest = label_text cs in
    if c == 0 || c == b'.' then none else elim rest [ none ↦ none | some t ↦ some (lower c ∷ t) ]

-- `out` with a label behind it
abbrev pub append_label : Bytes → Bytes → Bytes
append_label [] t = t
append_label (c ∷ out) t = (c ∷ out) ++ (b'.' ∷ t)

-- `used ? 1 : 0`
abbrev pub dot_size : Bytes → ℕ
dot_size [] = 0
dot_size (_ ∷ _) = 1

-- The steps of `rb_dns_name` that are left, at `pos`, with the text so far and `end` (0 before the
-- first pointer). The result is the name and the offset behind it.
unfoldable pub dns_name_from : ℕ → Bytes → ℕ → Bytes → ℕ → Access (Option (Bytes × ℕ))
dns_name_from zero p pos out end = value none
dns_name_from (suc steps) p pos out end = if leb (length p) pos then value none else do
  len ← read p pos
  let here = pos + 1
  let behind = λ (low : ℕ).
      dns_name_from steps p (len % 64 * 256 + low) out (if end == 0 then here + 1 else end)
  let longer = λ (t : Bytes). dns_name_from steps p (here + len) (append_label out t) end
  if len / 64 == 3
      then if leb (length p) here then value none else (do low ← read p here; behind low)
      else if not (len / 64 == 0)
      then value none
      else if len == 0
      then value (some (out, if end == 0 then here else end))
      else if ltb (length p - here) len || ltb (253 - length out) (len + dot_size out)
      then value none
      else do
        raw ← slice p here len
        elim (label_text raw) [ none ↦ value none | some t ↦ longer t ]

-- `rb_dns_name`
unfoldable pub dns_name : Bytes → ℕ → Access (Option (Bytes × ℕ))
dns_name p offset = dns_name_from 128 p offset [] 0

-- `rb_ipv4_unicast(p + i)`
unfoldable pub ipv4_unicast : Bytes → ℕ → Access Bool
ipv4_unicast p i = do a ← read p i; value (ltb 0 a && ltb a 224 && not (a == 127))

-- The loop over the questions; the result is the offset behind them.
unfoldable pub skip_questions : ℕ → Bytes → ℕ → Access (Option ℕ)
skip_questions zero p pos = value (some pos)
skip_questions (suc q) p pos = do
  name ← dns_name p pos
  elim name [
    | none ↦ value none
    | some (_, at) ↦ if ltb (length p - at) 4 then value none else skip_questions q p (at + 4)
  ]

-- `p[i] || p[i+1] || p[i+2] || p[i+3]`
nonzero_at : Bytes → ℕ → Access Bool
nonzero_at p i = do
  a ← read p i
  b ← read p (i + 1)
  c ← read p (i + 2)
  d ← read p (i + 3)
  value (not (a == 0) || not (b == 0) || not (c == 0) || not (d == 0))

-- the test of one record at `at`, whose data is `len` bytes long, but for the unicast test
record_matches : Bytes → ℕ → ℕ → Bytes → Bytes → Access Bool
unfolding dns_u16 nonzero_at
record_matches p at len name hostname = do
  type ← dns_u16 p at
  class ← dns_u16 p (at + 2)
  lives ← nonzero_at p (at + 4)
  value (type == 1 && class % 32768 == 1 && lives && len == 4 && same name hostname)

-- `candidate` after one record
record_candidate : Bytes → ℕ → ℕ → Bytes → Bytes → Option Bytes → Access (Option Bytes)
unfolding record_matches
record_candidate p at len name hostname candidate = do
  matches ← record_matches p at len name hostname
  if matches
      then (do
        unicast ← ipv4_unicast p (at + 10)
        if unicast then (do a ← slice p (at + 10) 4; value (some a)) else value candidate)
      else value candidate

-- The loop over the records; the result is the offset behind them and the candidate.
unfoldable pub read_records :
    ℕ → Bytes → ℕ → Bytes → Option Bytes → Access (Option (ℕ × Option Bytes))
unfolding record_candidate
read_records zero p pos hostname candidate = value (some (pos, candidate))
read_records (suc k) p pos hostname candidate = do
  name ← dns_name p pos
  elim name [
    | none ↦ value none
    | some (text, at) ↦ if ltb (length p - at) 10 then value none else do
      len ← dns_u16 p (at + 8)
      if ltb (length p - at - 10) len then value none else do
        candidate' ← record_candidate p at len text hostname candidate
        read_records k p (at + (10 + len)) hostname candidate'
  ]

-- the tests of the header of `rb_mdns_address`; the result is the numbers of questions and records
unfoldable pub answer_header : Bytes → Access (Option (ℕ × ℕ))
unfolding dns_u16
answer_header p = if ltb (length p) 12 || ltb 512 (length p) then value none else do
  a ← read p 0
  b ← read p 1
  flags ← dns_u16 p 2
  q ← dns_u16 p 4
  answers ← dns_u16 p 6
  authorities ← dns_u16 p 8
  additional ← dns_u16 p 10
  let records = answers + authorities + additional
  value (
      if not (a == 0)
        || not (b == 0)
        || not (bit_and flags 0xfa0f == 0x8000)
        || ltb 8 q
        || ltb 32 records
      then none
      else some (q, records))

-- `rb_mdns_address`
unfoldable pub mdns_address : Bytes → Bytes → Access (Option Bytes)
mdns_address p hostname = do
  head ← answer_header p
  elim head [
    | none ↦ value none
    | some (q, records) ↦ (do
      behind ← skip_questions q p 12
      elim behind [
        | none ↦ value none
        | some pos ↦ (do
          found ← read_records records p pos hostname none
          elim found [
            | none ↦ value none
            | some (end, candidate) ↦ value (if end == length p then candidate else none)
          ])
      ])
  ]

unfoldable pub hex_char : ℕ → ℕ
hex_char d = if ltb d 10 then b'0' + d else b'a' + (d - 10)

unfoldable pub hex_pairs : Bytes → Bytes
unfolding hex_char
hex_pairs [] = []
hex_pairs (b ∷ bs) = hex_char (b / 16) ∷ hex_char (b % 16) ∷ hex_pairs bs

abbrev pub service_prefix : Bytes
service_prefix =
    b'r' ∷ b'e' ∷ b'm' ∷ b'o' ∷ b't' ∷ b'e' ∷ b'-' ∷ b'b' ∷ b'o' ∷ b'o' ∷ b't' ∷ b'-' ∷ []

abbrev pub local_text : Bytes
local_text = b'l' ∷ b'o' ∷ b'c' ∷ b'a' ∷ b'l' ∷ []

-- `rb_mdns_query`: the 48 bytes that are sent; those behind them stay 0.
unfoldable pub mdns_query : Bytes → Access Bytes
unfolding hex_pairs
mdns_query id = do
  suffix ← slice id 10 6
  value (
      0
      ∷ 0
      ∷ 0
      ∷ 0
      ∷ 0
      ∷ 1
      ∷ 0
      ∷ 0
      ∷ 0
      ∷ 0
      ∷ 0
      ∷ 0
      ∷ 24
      ∷ (service_prefix ++ (hex_pairs suffix ++ (5 ∷ (local_text ++ (0 ∷ 0 ∷ 1 ∷ 0x80 ∷ 1 ∷ []))))))

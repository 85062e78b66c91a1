-- ===== src/Discovery.antt =====
-- shared/discovery_protocol.h: the frames of the signed LAN discovery. A pointer that may be NULL
-- is an option. `|` of fields that share no bit is written `+`.
pub mod Frames
pub mod Replies
pub mod Parts
mod Tests
use esp32_remote_boot.Prelude.{
  ℕ, ◌+◌, ◌*◌, Bool, true, false, not, ◌&&◌, ◌||◌, Option, none, some, List, [], ◌∷◌, ◌++◌, ltb,
  ◌==◌, length, replicate, Bytes, Access, value, ◌>>=◌, read, slice, both, equal_at, if◌then◌else◌,
}

abbrev pub query_size : ℕ
query_size = 40

abbrev pub reply_size : ℕ
reply_size = 177

abbrev pub signed_size : ℕ
signed_size = 113

abbrev pub magic : Bytes
magic = b'R' ∷ b'B' ∷ b'D' ∷ b'1' ∷ []

-- `rb_discovery_u16(p + i)`
unfoldable pub u16 : Bytes → ℕ → Access ℕ
u16 p i = do high ← read p i; low ← read p (i + 1); value (high * 256 + low)

-- `rb_discovery_zero`: the disjunction of the bytes is 0 if every byte is
unfoldable pub zero_bytes : Bytes → Bool
zero_bytes [] = true
zero_bytes (b ∷ bs) = b == 0 && zero_bytes bs

-- `rb_discovery_valid_ipv4(p + i)`
unfoldable pub valid_ipv4 : Bytes → ℕ → Access Bool
valid_ipv4 p i = do a ← read p i; value (not (a == 0) && not (a == 127) && ltb a 224)

-- `rb_discovery_header`; `p` is not NULL where the callers have bytes.
unfoldable pub header : Bytes → ℕ → ℕ → Access Bool
unfolding u16
header p type exact =
    if length p == exact
    then both (equal_at p 0 magic 4) (do
      kind ← read p 4
      version ← read p 5
      size ← u16 p 6
      value (kind == type && version == 0 && size == exact))
    else value false

-- `rb_discovery_query`; the frame is what is left in `out`.
unfoldable pub query : Bytes → Bytes → Access Bytes
query nonce id = do
  n ← slice nonce 0 16
  i ← slice id 0 16
  value (magic ++ (1 ∷ 0 ∷ 0 ∷ 40 ∷ (n ++ i)))

-- `rb_discovery_valid_query`
unfoldable pub valid_query : Bytes → Bytes → Access Bool
unfolding header zero_bytes
valid_query p id =
    both (header p 1 40)
      (do asked ← slice p 24 16; if zero_bytes asked then value true else equal_at p 24 id 16)

-- `rb_discovery_reply`; the 64 bytes of the signature are left zero.
unfoldable pub reply : Bytes → Bytes → Bytes → Bytes → Access Bytes
reply nonce id ip key = do
  n ← slice nonce 0 16
  i ← slice id 0 16
  a ← slice ip 0 4
  k ← slice key 0 65
  value
      (magic ++ (2 ∷ 0 ∷ 0 ∷ 177 ∷ (n ++ (i ++ (a ++ (0 ∷ 80 ∷ 0 ∷ 81 ∷ (k ++ replicate 64 0)))))))

-- `!q || !memcmp(p + off, q, n)`
pinned_at : Bytes → ℕ → Option Bytes → ℕ → Access Bool
pinned_at p off none n = value true
pinned_at p off (some q) n = equal_at p off q n

-- `!rb_discovery_zero(p + off, n)`
unfoldable pub nonzero_at : Bytes → ℕ → ℕ → Access Bool
unfolding zero_bytes
nonzero_at p off n = do bytes ← slice p off n; value (not (zero_bytes bytes))

-- `rb_discovery_u16(p + off) == port`
unfoldable pub port_at : Bytes → ℕ → ℕ → Access Bool
unfolding u16
port_at p off port = do found ← u16 p off; value (found == port)

-- `p[off] == b`
unfoldable pub byte_at : Bytes → ℕ → ℕ → Access Bool
byte_at p off b = do found ← read p off; value (found == b)

-- the tests of `rb_discovery_valid_reply` behind those of its arguments
reply_fields : Bytes → Bytes → Option Bytes → Option Bytes → Bytes → ℕ → ℕ → Access Bool
reply_fields p nonce id key source http ws = both (equal_at p 8 nonce 16) (
    both (pinned_at p 24 id 16) (
      both (nonzero_at p 24 16) (
        both (valid_ipv4 p 40) (
          both (equal_at p 40 source 4) (
            both (port_at p 44 http)
              (both (port_at p 46 ws) (both (byte_at p 48 4) (pinned_at p 48 key 65))))))))

-- `rb_discovery_valid_reply`
unfoldable pub valid_reply :
    Bytes → Option Bytes → Option Bytes → Option Bytes → Option Bytes → ℕ → ℕ → Access Bool
unfolding header reply_fields pinned_at nonzero_at port_at byte_at valid_ipv4
valid_reply p (some nonce) id key (some source) http ws =
    both (header p 2 177)
      (if http == 0 || ws == 0 then value false else reply_fields p nonce id key source http ws)
valid_reply p _ id key _ http ws = both (header p 2 177) (value false)

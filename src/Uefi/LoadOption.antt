-- ===== src/Uefi/LoadOption.antt =====
-- uefi/remote-boot/load_option.h: reading the value of a Boot#### variable. A pointer with a size
-- is the list of the bytes that it may reach. `|` of fields that share no bit is written `+`.
-- `n - off` is read only at `off ≤ n`, where the truncated difference is C's.
pub mod Path
pub mod Format
pub mod Text
pub mod Blocked
use esp32_remote_boot.Prelude.{
  ℕ, zero, suc, ◌+◌, ◌-◌, ◌*◌, ◌%◌, Bool, true, false, not, ◌&&◌, ◌||◌, Option, none, some, List,
  [], ◌∷◌, ltb, leb, ◌==◌, if◌then◌else◌, length, Bytes, Access, fault, value, ◌>>=◌, read, slice,
}

-- `rb_option`: the sections are kept as the bytes that the pointers and sizes delimit.
pub record RbOption : Type 0 where
  pub description : Bytes
  pub path : Bytes
  pub optional : Bytes
  pub attributes : ℕ

-- `rb_u16(p + i)`
unfoldable pub u16 : Bytes → ℕ → Access ℕ
u16 p i = do low ← read p i; high ← read p (i + 1); value (low + 256 * high)

-- `rb_u32(p + i)`
unfoldable pub u32 : Bytes → ℕ → Access ℕ
u32 p i = do low ← u16 p i; high ← u16 p (i + 2); value (low + 65536 * high)

-- a file path node whose text has no room, an odd size or no terminator
bad_text : Bytes → ℕ → ℕ → Access Bool
bad_text p off len =
    if ltb len 6 || not (len % 2 == 0)
    then value true
    else do last ← u16 p (off + len - 2); value (not (last == 0))

-- the rounds of `rb_path_valid` from `off` on
unfoldable pub path_valid_from : ℕ → Bytes → ℕ → Access Bool
unfolding u16 bad_text
path_valid_from zero p off = fault
path_valid_from (suc fuel) p off = if ltb (length p - off) 4 then value false else do
  len ← u16 p (off + 2)
  kind ← read p off
  subkind ← read p (off + 1)
  let next = path_valid_from fuel p (off + len)
  if ltb len 4 || ltb (length p - off) len
      then value false
      else if kind == 0x7f
      then value (subkind == 0xff && len == 4 && off + 4 == length p)
      else if kind == 4 && subkind == 4
      then (do bad ← bad_text p off len; if bad then value false else next)
      else next

-- `rb_path_valid`; every round moves `off` by four or more, so the fuel is enough.
unfoldable pub path_valid : Bytes → Access Bool
path_valid p = path_valid_from (suc (length p)) p 0

-- `while (end + 2 <= n && rb_u16(p + end)) end += 2`
unfoldable pub description_end : ℕ → Bytes → ℕ → Access ℕ
description_end zero p end = fault
description_end (suc fuel) p end =
    let next = description_end fuel p (end + 2) in
    if leb (end + 2) (length p)
    then (do unit ← u16 p end; if unit == 0 then value end else next)
    else value end

-- `rb_parse_option`; a null pointer is `none`, and the inner option is what goes through `out`.
unfoldable pub parse_option : Option Bytes → Access (Option RbOption)
parse_option none = value none
parse_option (some p) = if ltb (length p) 12 || ltb 65536 (length p) then value none else do
  end ← description_end (suc (length p)) p 6
  if ltb (length p) (end + 2) then value none else do
    path_len ← u16 p 4
    let start = end + 2
    if ltb path_len 4 || ltb (length p - start) path_len then value none else do
      path ← slice p start path_len
      valid ← path_valid path
      attributes ← u32 p 0
      description ← slice p 6 (start - 6)
      optional ← slice p (start + path_len) (length p - start - path_len)
      value (
          if valid
          then some (record {
            description = description;
            path = path;
            optional = optional;
            attributes = attributes;
          })
          else none)

unfoldable pub lower : ℕ → ℕ
lower c = if leb b'A' c && leb c b'Z' then c + 32 else c

-- The inner loop of `rb_utf16_contains` at byte `at`; the text ends where C has a NUL.
unfoldable pub matches_at : Bytes → ℕ → Bytes → Access Bool
matches_at p at [] = value true
matches_at p at (c ∷ cs) =
    if leb (at + 2) (length p)
    then (do unit ← u16 p at; if lower unit == c then matches_at p (at + 2) cs else value false)
    else value false

unfoldable pub contains_from : ℕ → Bytes → ℕ → Bytes → Access Bool
contains_from zero p i needle = fault
contains_from (suc fuel) p i needle =
    let next = contains_from fuel p (i + 2) needle in
    if leb (i + 2) (length p)
    then (do found ← matches_at p i needle; if found then value true else next)
    else value false

-- `rb_utf16_contains`
unfoldable pub utf16_contains : Bytes → Bytes → Access Bool
utf16_contains p needle = contains_from (suc (length p)) p 0 needle

abbrev pub remote_boot_text : Bytes
remote_boot_text = b'r' ∷ b'e' ∷ b'm' ∷ b'o' ∷ b't' ∷ b'e' ∷ b' ' ∷ b'b' ∷ b'o' ∷ b'o' ∷ b't' ∷ []

abbrev pub ipxe_text : Bytes
ipxe_text = b'i' ∷ b'p' ∷ b'x' ∷ b'e' ∷ []

abbrev pub ipxe_file : Bytes
ipxe_file = b'i' ∷ b'p' ∷ b'x' ∷ b'e' ∷ b'.' ∷ b'e' ∷ b'f' ∷ b'i' ∷ []

abbrev pub remoteboot_file : Bytes
remoteboot_file =
    b'r' ∷ b'e' ∷ b'm' ∷ b'o' ∷ b't' ∷ b'e' ∷ b'b' ∷ b'o' ∷ b'o' ∷ b't' ∷ b'.' ∷ b'e' ∷ b'f' ∷ b'i'
    ∷ []

-- `a || b` over calls that read
either : Access Bool → Access Bool → Access Bool
either a b = do x ← a; if x then value true else b

-- The loop of `rb_blocked`. With `len < 4` the size `len - 4` wraps, and the text runs past the path.
unfoldable pub blocked_from : ℕ → Bytes → ℕ → Access Bool
unfolding either
blocked_from zero path off = fault
blocked_from (suc fuel) path off =
    if leb (off + 4) (length path)
    then (do
      len ← u16 path (off + 2)
      kind ← read path off
      subkind ← read path (off + 1)
      let next = blocked_from fuel path (off + len)
      if kind == 4 && subkind == 4
          then (do
            text ← if ltb len 4 then fault else slice path (off + 4) (len - 4)
            hit ← either (utf16_contains text ipxe_file) (utf16_contains text remoteboot_file)
            if hit then value true else next)
          else next)
    else value false

-- `rb_blocked`
unfoldable pub blocked : RbOption → Access Bool
unfolding either
blocked o = do
  named ←
      either (utf16_contains o.description remote_boot_text)
        (utf16_contains o.description ipxe_text)
  if named then value true else blocked_from (suc (length o.path)) o.path 0

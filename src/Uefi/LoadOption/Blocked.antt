-- ===== src/Uefi/LoadOption/Blocked.antt =====
-- `rb_blocked` on a load option that has been parsed.
use esp32_remote_boot.Prelude.{
  ℕ, zero, suc, ◌+◌, ◌-◌, ◌*◌, ◌/◌, ◌%◌, ◌<◌, ◌≡◌, refl, ap, ◌∙◌, Bool, false, ◌&&◌, ◌||◌, List, [],
  ◌∷◌, ◌++◌, ◌==◌, length, length-append, drop, take_prefix, drop-length_append, Bytes, value,
  read_at, length_at, drop_at, arith,
}
use esp32_remote_boot.Uefi.LoadOption.{
  RbOption, u16, utf16_contains, remote_boot_text, ipxe_text, ipxe_file, remoteboot_file, either,
  blocked_from, blocked,
}
use esp32_remote_boot.Uefi.LoadOption.Path.{Node, node_size, encode, AllNodes}
use esp32_remote_boot.Uefi.LoadOption.Text.{lowered, found, utf16_contains-found}

abbrev pub mentions : Bytes → Bytes → Bool
mentions text needle = found needle (lowered text)

-- a file path node that names one of the two programs
abbrev pub names_loader : Node → Bool
names_loader n =
    n.kind == 4
    && n.subkind == 4
    && (mentions n.payload ipxe_file || mentions n.payload remoteboot_file)

pub any_loader : List Node → Bool
any_loader [] = false
any_loader (n ∷ ns) = names_loader n || any_loader ns

either-value :
    (p needle other : Bytes)
    → either (utf16_contains p needle) (utf16_contains p other)
      ≡ value (mentions p needle || mentions p other)
unfolding either
either-value p needle other =
    ground (arith, utf16_contains-found p needle, utf16_contains-found p other)

blocked_from_end :
    (f : ℕ) (path : Bytes) (off : ℕ)
    → 0 < f
    → length path < off + 4
    → blocked_from f path off ≡ value false
unfolding blocked_from
blocked_from_end zero path off h l = elim h [ ]
blocked_from_end (suc f) path off h l = ground arith

blocked_from-any_loader :
    (f : ℕ) (path : Bytes) (off : ℕ) (ns : List Node)
    → drop off path ≡ encode ns
    → AllNodes ns
    → length (encode ns) < f
    → blocked_from f path off ≡ value (any_loader ns)
unfolding blocked_from any_loader u16
blocked_from-any_loader zero path off ns e h l = elim l [ ]
blocked_from-any_loader (suc f) path off [] e h l = ground (
  arith,
  length_at path off e,
  read_at path off 0 off e,
  read_at path off 1 (off + 1) e,
  read_at path off 2 (off + 2) e,
  read_at path off 3 (off + 2 + 1) e,
  blocked_from_end f path (off + (4 + 256 * 0)),
)
blocked_from-any_loader (suc f) path off (n ∷ ns) e h l =
    let rest = encode ns in
    let size = node_size n in
    let len = size % 256 + 256 * (size / 256) in
    let text_at : drop (off + 4) path ≡ n.payload ++ rest = drop_at path off 4 (off + 4) e refl in
    let next_at : drop (off + len) path ≡ rest =
      drop_at path (off + 4) (length n.payload) (off + len) text_at (omega arith)
      ∙ drop-length_append n.payload rest in
    ground (
      arith,
      length_at path off e,
      length-append n.payload rest,
      read_at path off 0 off e,
      read_at path off 1 (off + 1) e,
      read_at path off 2 (off + 2) e,
      read_at path off 3 (off + 2 + 1) e,
      text_at,
      take_prefix (len - 4) n.payload rest,
      either-value n.payload ipxe_file remoteboot_file,
      blocked_from-any_loader f path (off + len) ns next_at h.1,
    )

-- On an option whose path is the encoding of well-formed nodes, as every parsed option's is, the
-- check reads only inside its buffers and ends. It answers true exactly when the description
-- mentions "remote boot" or "ipxe", or a file path node names ipxe.efi or remoteboot.efi.
pub blocked-any_loader :
    (o : RbOption) (ns : List Node)
    → AllNodes ns
    → o.path ≡ encode ns
    → blocked o
      ≡ value (
          mentions o.description remote_boot_text
          || mentions o.description ipxe_text
          || any_loader ns)
unfolding blocked
blocked-any_loader o ns h e = ground (
  arith,
  either-value o.description remote_boot_text ipxe_text,
  blocked_from-any_loader (suc (length o.path)) o.path 0 ns e h (omega (arith, ap length e)),
)

-- ===== src/Rbdiscover/Dns/Names.antt =====
-- `rb_dns_name`: it ends, stays in the packet, and reads the name that stands there.
use esp32_remote_boot.Prelude.{
  ℕ, zero, suc, ◌+◌, ◌-◌, ◌*◌, ◌/◌, ◌%◌, ◌≤◌, ◌<◌, ◌≡◌, ◌≢◌, refl, sym, ap, ◌∙◌, true, some, List,
  [], ◌∷◌, inl, inr, Bool-cases, Option-cases, ltb, leb, ◌==◌, length, length-append, drop, Bytes,
  AllBytes, Access-cases, value, read, slice, read-value, read-returns, slice-value, slice_sound,
  read_sound, AllBytes-drop, map, returns, if◌then◌else◌, arith,
}
use esp32_remote_boot.Rbdiscover.Dns.{
  lower, label_text, append_label, dot_size, dns_name_from, dns_name,
}

-- one step that goes on, or the last
data Step (s : ℕ) (p : Bytes) (pos : ℕ) (out : Bytes) (end : ℕ) (name : Bytes) (off : ℕ)
    : Type 0 where
  root :
      pos < length p
      → read p pos ≡ value 0
      → name ≡ out
      → off ≡ (if end == 0 then pos + 1 else end)
      → Step s p pos out end name off
  pointer :
      (len low : ℕ)
      → pos + 1 < length p
      → read p pos ≡ value len
      → len / 64 ≡ 3
      → read p (pos + 1) ≡ value low
      → dns_name_from s p (len % 64 * 256 + low) out (if end == 0 then pos + 1 + 1 else end)
        ≡ value (some (name, off))
      → Step s p pos out end name off
  label :
      (len : ℕ) (raw t : Bytes)
      → pos < length p
      → read p pos ≡ value len
      → len / 64 ≡ 0
      → len ≢ 0
      → slice p (pos + 1) len ≡ value raw
      → label_text raw ≡ some t
      → len + dot_size out ≤ 253 - length out
      → dns_name_from s p (pos + 1 + len) (append_label out t) end ≡ value (some (name, off))
      → Step s p pos out end name off

dns_name_from-Step :
    (s : ℕ) (p : Bytes) (pos : ℕ) (out : Bytes) (end : ℕ) (name : Bytes) (off : ℕ)
    → dns_name_from (suc s) p pos out end ≡ value (some (name, off))
    → Step s p pos out end name off
unfolding dns_name_from
dns_name_from-Step s p pos out end name off h = elim (Access-cases (read p pos)) [
  | inl bad ↦ absurd (ground arith)
  | inr (len, first) ↦ elim (Bool-cases (len / 64 == 3)) [
    | inl far ↦ elim (Access-cases (read p (pos + 1))) [
      | inl bad ↦ absurd (ground arith)
      | inr (low, second) ↦
          pointer len low (ground arith) first (ground arith) second (ground arith)
    ]
    | inr near ↦ elim (Bool-cases (len == 0)) [
      | inl last ↦ root (ground arith) (ground arith) (ground arith) (ground arith)
      | inr more ↦ elim (Access-cases (slice p (pos + 1) len)) [
        | inl bad ↦ absurd (ground arith)
        | inr (raw, cut) ↦ elim (Option-cases (label_text raw)) [
          | inl bad ↦ absurd (ground arith)
          | inr (t, ok) ↦
              label len raw t (ground arith) first (ground arith) (ground arith) cut ok
                (ground arith) (ground arith)
        ]
      ]
    ]
  ]
]

length-label_text : (raw t : Bytes) → label_text raw ≡ some t → length t ≡ length raw
unfolding label_text
length-label_text [] t h = ground arith
length-label_text (c ∷ cs) t h = elim (Option-cases (label_text cs)) [
  | inl bad ↦ absurd (ground arith)
  | inr (t', e) ↦ ground (arith, length-label_text cs t' e)
]

length-append_label :
    (out t : Bytes) → length (append_label out t) ≡ length out + dot_size out + length t
length-append_label [] t = omega arith
length-append_label (c ∷ out) t = omega (arith, length-append out (b'.' ∷ t))

-- what is known of a name that has been read from `pos`, with `end` as the loop keeps it
record InPacket (p : Bytes) (pos end : ℕ) (name : Bytes) (off : ℕ) : Type 0 where
  short : length name ≤ 253
  ahead : end ≡ 0 → (pos < off) × (off ≤ length p)
  fixed : end ≢ 0 → off ≡ end

dns_name_from-InPacket :
    (s : ℕ) (p : Bytes) (pos : ℕ) (out : Bytes) (end : ℕ) (name : Bytes) (off : ℕ)
    → length out ≤ 253
    → dns_name_from s p pos out end ≡ value (some (name, off))
    → InPacket p pos end name off
dns_name_from-InPacket zero p pos out end name off l h = unfold dns_name_from in cc
dns_name_from-InPacket (suc s) p pos out end name off l h =
    elim (dns_name_from-Step s p pos out end name off h) [
      | root a b c d ↦ ground arith
      | pointer len low a b c d rest ↦
          let r =
            dns_name_from-InPacket s p (len % 64 * 256 + low) out
              (if end == 0 then pos + 1 + 1 else end) name off l rest in
          record {
            short = r.short;
            ahead = λ z. ground (arith, r.fixed);
            fixed = λ z. ground (arith, r.fixed);
          }
      | label len raw t a b c d cut ok room rest ↦
          let (_, size, inside) = slice_sound p (pos + 1) len (pos + 1 + len) raw cut refl in
          let r =
            dns_name_from-InPacket s p (pos + 1 + len) (append_label out t) end name off
              (omega (arith, length-append_label out t, length-label_text raw t ok)) rest in
          record { short = r.short; ahead = λ z. omega (arith, r.ahead z); fixed = r.fixed }
    ]

dns_name_from-returns :
    (s : ℕ) (p : Bytes) (pos : ℕ) (out : Bytes) (end : ℕ)
    → returns (dns_name_from s p pos out end) ≡ true
unfolding dns_name_from
dns_name_from-returns zero p pos out end = refl
dns_name_from-returns (suc s) p pos out end = elim (Bool-cases (leb (length p) pos)) [
  | inl out_of ↦ ground arith
  | inr within ↦
      let (len, first) = read-value p pos (ground arith) in
      elim (Bool-cases (len / 64 == 3)) [
        | inl far ↦ elim (Access-cases (read p (pos + 1))) [
          | inl bad ↦ ground (arith, read-returns p (pos + 1))
          | inr (low, second) ↦ ground (
            arith,
            dns_name_from-returns s p (len % 64 * 256 + low) out
                (if end == 0 then pos + 1 + 1 else end),
          )
        ]
        | inr near ↦ elim (Bool-cases (ltb (length p - (pos + 1)) len)) [
          | inl long ↦ ground arith
          | inr fits ↦
              let (raw, cut, _, _) =
                slice-value p (pos + 1) len (pos + 1 + len) (ground arith) refl in
              elim (Option-cases (label_text raw)) [
                | inl bad ↦ ground arith
                | inr (t, ok) ↦
                    ground
                      (arith, dns_name_from-returns s p (pos + 1 + len) (append_label out t) end)
              ]
        ]
      ]
]

-- The decoding of a name ends and reads only inside the packet, whatever the packet and the offset
-- are, loops of compression pointers included.
pub dns_name-returns : (p : Bytes) (offset : ℕ) → returns (dns_name p offset) ≡ true
unfolding dns_name
dns_name-returns p offset = dns_name_from-returns 128 p offset [] 0

-- A decoded name has at most 253 bytes, and the offset behind it lies ahead and in the packet.
pub dns_name_bounds :
    (p : Bytes) (offset : ℕ) (name : Bytes) (off : ℕ)
    → dns_name p offset ≡ value (some (name, off))
    → (length name ≤ 253) × (offset < off) × (off ≤ length p)
unfolding dns_name
dns_name_bounds p offset name off h =
    let r = dns_name_from-InPacket 128 p offset [] 0 name off (omega arith) h in
    (r.short, (r.ahead refl).0, (r.ahead refl).1)

-- The labels that a name at `pos` consists of, whether written out or reached by pointers: raw
-- bytes of 1 to 63, up to the root.
pub data NameAt (p : Bytes) : ℕ → List Bytes → Type 0 where
  root : {pos : ℕ} → read p pos ≡ value 0 → NameAt p pos []
  label :
      {pos : ℕ} {ls : List Bytes} (raw : Bytes)
      → read p pos ≡ value (length raw)
      → 0 < length raw
      → length raw < 64
      → slice p (pos + 1) (length raw) ≡ value raw
      → NameAt p (pos + 1 + length raw) ls
      → NameAt p pos (raw ∷ ls)
  pointer :
      {pos : ℕ} {ls : List Bytes} (high low : ℕ)
      → read p pos ≡ value (192 + high)
      → high < 64
      → read p (pos + 1) ≡ value low
      → NameAt p (high * 256 + low) ls
      → NameAt p pos ls

-- a label without a NUL and without a dot
abbrev pub IsLabel : Bytes → Type 0
IsLabel [] = Unit {0}
IsLabel (c ∷ cs) = (c ≢ 0) × (c ≢ b'.') × IsLabel cs

abbrev pub AllLabels : List Bytes → Type 0
AllLabels [] = Unit {0}
AllLabels (raw ∷ ls) = IsLabel raw × AllLabels ls

-- the text of a name: its labels in small letters, with dots between them, behind `out`
unfoldable pub joined : Bytes → List Bytes → Bytes
joined out [] = out
joined out (raw ∷ ls) = joined (append_label out (map lower raw)) ls

label_text_sound : (raw t : Bytes) → label_text raw ≡ some t → (t ≡ map lower raw) × IsLabel raw
unfolding label_text
label_text_sound [] t h = (ground arith, tt)
label_text_sound (c ∷ cs) t h = elim (Option-cases (label_text cs)) [
  | inl bad ↦ absurd (ground arith)
  | inr (t', e) ↦
      let (same, ok) = label_text_sound cs t' e in (ground arith, (ground arith, ground arith, ok))
]

label_text_of : (raw : Bytes) → IsLabel raw → label_text raw ≡ some (map lower raw)
unfolding label_text
label_text_of [] h = refl
label_text_of (c ∷ cs) h = ground (arith, label_text_of cs h.2)

read-lt : (p : Bytes) (i b : ℕ) → AllBytes p → read p i ≡ value b → b < 256
read-lt p i b bs h =
    let (e, _) = read_sound p i (i + 1) b h refl in
    let b1 : AllBytes (b ∷ drop (i + 1) p) = rw e at (AllBytes-drop i p bs) in b1.0

dns_name_from-NameAt :
    (s : ℕ) (p : Bytes) (pos : ℕ) (out : Bytes) (end : ℕ) (name : Bytes) (off : ℕ)
    → AllBytes p
    → dns_name_from s p pos out end ≡ value (some (name, off))
    → (ls : List Bytes) × NameAt p pos ls × AllLabels ls × (name ≡ joined out ls)
unfolding joined
dns_name_from-NameAt zero p pos out end name off bs h = unfold dns_name_from in absurd (cc h)
dns_name_from-NameAt (suc s) p pos out end name off bs h =
    elim (dns_name_from-Step s p pos out end name off h) [
      | root a b c d ↦ ([], root b, tt, c)
      | pointer len low a b c d rest ↦
          let (ls, at, ok, e) =
            dns_name_from-NameAt s p (len % 64 * 256 + low) out
              (if end == 0 then pos + 1 + 1 else end) name off bs rest in
          let high : len ≡ 192 + len % 64 = omega (arith, read-lt p pos len bs b) in
          (ls, pointer (len % 64) low (b ∙ ap value high) (omega arith) d at, ok, e)
      | label len raw t a b c d cut ok room rest ↦
          let (ls, at, all, e) =
            dns_name_from-NameAt s p (pos + 1 + len) (append_label out t) end name off bs rest in
          let (_, size, _) = slice_sound p (pos + 1) len (pos + 1 + len) raw cut refl in
          let (text, fine) = label_text_sound raw t ok in
          (
            raw ∷ ls,
            label raw (b ∙ ap value (sym size)) (omega arith) (omega arith)
                (ap (slice p (pos + 1)) size ∙ cut) (rw size at),
            (fine, all),
            e ∙ ap (λ u. joined (append_label out u) ls) text,
          )
    ]

-- The decoded name is the text of the labels that stand at the offset, compression pointers
-- followed: labels of 1 to 63 bytes with no NUL or dot in them, in small letters, joined by dots.
pub dns_name-NameAt :
    (p : Bytes) (offset : ℕ) (name : Bytes) (off : ℕ)
    → AllBytes p
    → dns_name p offset ≡ value (some (name, off))
    → (ls : List Bytes) × NameAt p offset ls × AllLabels ls × (name ≡ joined [] ls)
unfolding dns_name
dns_name-NameAt p offset name off bs h = dns_name_from-NameAt 128 p offset [] 0 name off bs h

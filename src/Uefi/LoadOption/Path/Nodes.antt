-- ===== src/Uefi/LoadOption/Path/Nodes.antt =====
-- `rb_path_valid` accepts the encodings of well-formed nodes with one end node behind them, and
-- nothing else.
use esp32_remote_boot.Prelude.{
  ℕ, zero, suc, ◌+◌, ◌-◌, ◌*◌, ◌/◌, ◌%◌, ◌≤◌, ◌<◌, ◌≡◌, ◌≢◌, ◌↔◌, refl, sym, ap, ◌∙◌, true, false,
  List, [], ◌∷◌, ◌++◌, inl, inr, ◌==◌, Bool-cases, length, take, drop, length-take, length-append,
  take-append-drop, drop-length_append, AllBytes, AllBytes-drop, Bytes, value, drop_at, arith,
}
use esp32_remote_boot.Uefi.LoadOption.{u16, bad_text, path_valid}
use esp32_remote_boot.Uefi.LoadOption.Path.{
  u16_at, scan, path_valid_from-scan, Node, node_size, encode_node, end_node, encode, AllNodes,
  IsText, nul, unit, IsText-u16, IsText-size,
}

drop-header :
    (a b c d k : ℕ) (xs ys : Bytes) → k ≡ length xs + 4 → drop k (a ∷ b ∷ c ∷ d ∷ (xs ++ ys)) ≡ ys
drop-header a b c d k xs ys e =
    let e' : k ≡ suc (suc (suc (suc (length xs)))) = omega arith in rw e' (drop-length_append xs ys)

bad_text-node :
    (a b c d len : ℕ) (t rest : Bytes)
    → IsText t
    → len ≡ length t + 4
    → bad_text (a ∷ b ∷ c ∷ d ∷ (t ++ rest)) 0 len ≡ value false
unfolding bad_text
bad_text-node a b c d len t rest h e = ground (
  arith,
  IsText-size h,
  u16_at (a ∷ b ∷ c ∷ d ∷ (t ++ rest)) 4 (len - 6) (0 + len - 2) refl
      (omega (arith, IsText-size h)),
  IsText-u16 t rest (len - 6) h (omega (arith, IsText-size h)),
)

scan-encode :
    (ns : List Node) (f : ℕ)
    → AllNodes ns
    → length (encode ns) < f
    → scan f (encode ns) ≡ value true
unfolding scan
scan-encode ns zero h l = elim l [ ]
scan-encode [] (suc f) h l = refl
scan-encode (n ∷ ns) (suc f) h l =
    let rest = encode ns in
    let len = node_size n % 256 + 256 * (node_size n / 256) in
    ground (
      arith,
      h.0.inner,
      length-append n.payload rest,
      drop-header n.kind n.subkind (node_size n % 256) (node_size n / 256) len n.payload rest
          (omega arith),
      λ (a : n.kind ≡ 4) (b : n.subkind ≡ 4).
          bad_text-node n.kind n.subkind (node_size n % 256) (node_size n / 256) len n.payload rest
            (h.0.text a b) (omega arith),
      scan-encode ns f h.1,
    )

IsText-of :
    (t rest : Bytes) (i : ℕ) → i + 2 ≡ length t → i % 2 ≡ 0 → u16 (t ++ rest) i ≡ value 0 → IsText t
unfolding u16
IsText-of [] rest i e o h = absurd (omega arith)
IsText-of (a ∷ []) rest i e o h = absurd (omega arith)
IsText-of (a ∷ b ∷ []) rest zero e o h =
    let za : a ≡ 0 = ground arith in let zb : b ≡ 0 = ground arith in rw (za, zb) nul
IsText-of (a ∷ b ∷ t) rest zero e o h = absurd (omega arith)
IsText-of (a ∷ b ∷ t) rest (suc zero) e o h = absurd (omega arith)
IsText-of (a ∷ b ∷ t) rest (suc (suc i)) e o h =
    unit a b (IsText-of t rest i (omega arith) (omega arith) (ground arith))

-- what one round of the scan has found out about a node that is not the last
record Found (f : ℕ) (kind subkind len : ℕ) (rest : Bytes) : Type 0 where
  at_least : 4 ≤ len
  within : len ≤ length rest + 4
  inner : kind ≢ 0x7f
  text :
      kind ≡ 4
      → subkind ≡ 4
      → bad_text (kind ∷ subkind ∷ len % 256 ∷ len / 256 ∷ rest) 0 len ≡ value false
  behind : scan f (drop (len - 4) rest) ≡ value true

scan-Found :
    (f kind subkind low high : ℕ) (rest : Bytes)
    → low < 256
    → kind ≢ 0x7f
    → scan (suc f) (kind ∷ subkind ∷ low ∷ high ∷ rest) ≡ value true
    → Found f kind subkind (low + 256 * high) rest
unfolding scan
scan-Found f kind subkind low high rest lt ne h = record {
  at_least = ground arith;
  within = ground arith;
  inner = ne;
  text = λ a b. ground arith;
  behind =
      let len = low + 256 * high in
      ground (arith, drop_at (kind ∷ subkind ∷ low ∷ high ∷ rest) 4 (len - 4) len refl);
}

IsText-Found :
    (a b c d len : ℕ) (rest : Bytes)
    → 4 ≤ len
    → len ≤ length rest + 4
    → bad_text (a ∷ b ∷ c ∷ d ∷ rest) 0 len ≡ value false
    → IsText (take (len - 4) rest)
unfolding bad_text
IsText-Found a b c d len rest lo hi h =
    IsText-of (take (len - 4) rest) (drop (len - 4) rest) (len - 6)
      (ground (arith, length-take (len - 4) rest)) (ground arith)
      (rw (take-append-drop (len - 4) rest)
        (ground (arith, u16_at (a ∷ b ∷ c ∷ d ∷ rest) 4 (len - 6) (0 + len - 2) refl)))

cut-node :
    (kind subkind low high : ℕ) (rest : Bytes)
    → low < 256
    → 4 ≤ low + 256 * high
    → low + 256 * high ≤ length rest + 4
    → kind ∷ subkind ∷ low ∷ high ∷ rest
      ≡ encode_node
          (record { kind = kind; subkind = subkind; payload = take (low + 256 * high - 4) rest })
          (drop (low + 256 * high - 4) rest)
cut-node kind subkind low high rest lt lo hi =
    ground
      (arith, take-append-drop (low + 256 * high - 4) rest, length-take (low + 256 * high - 4) rest)

last-scan :
    (f subkind low high : ℕ) (rest : Bytes)
    → low < 256
    → scan (suc f) (0x7f ∷ subkind ∷ low ∷ high ∷ rest) ≡ value true
    → 0x7f ∷ subkind ∷ low ∷ high ∷ rest ≡ end_node
unfolding scan
last-scan f subkind low high [] lt h = ground arith
last-scan f subkind low high (x ∷ rest) lt h = ground arith

abbrev pub IsEncoded : Bytes → Type 0
IsEncoded q = (ns : List Node) × AllNodes ns × (q ≡ encode ns)

node_sound :
    (f kind subkind low high : ℕ) (rest : Bytes)
    → low < 256
    → high < 256
    → Found f kind subkind (low + 256 * high) rest
    → IsEncoded (drop (low + 256 * high - 4) rest)
    → IsEncoded (kind ∷ subkind ∷ low ∷ high ∷ rest)
node_sound f kind subkind low high rest lt lt' fd (ns, ok, e) =
    let len = low + 256 * high in
    let n : Node = record { kind = kind; subkind = subkind; payload = take (len - 4) rest } in
    (
      n ∷ ns,
      (
        record {
          inner = fd.inner;
          sized = omega (arith, length-take (len - 4) rest);
          text = λ a b.
              IsText-Found kind subkind (len % 256) (len / 256) len rest fd.at_least fd.within
                (fd.text a b);
        },
        ok,
      ),
      cut-node kind subkind low high rest lt fd.at_least fd.within ∙ ap (encode_node n) e,
    )

scan_sound : (f : ℕ) (q : Bytes) → AllBytes q → scan f q ≡ value true → IsEncoded q
unfolding scan
scan_sound zero q b h = cc
scan_sound (suc f) (kind ∷ subkind ∷ low ∷ high ∷ rest) b h = elim (Bool-cases (kind == 0x7f)) [
  | inl last ↦
      let k : kind ≡ 0x7f = ground arith in
      ([], tt, rw k (last-scan f subkind low high rest b.1.1.0 (rw k at h)))
  | inr more ↦
      let fd = scan-Found f kind subkind low high rest b.1.1.0 (ground arith) h in
      node_sound f kind subkind low high rest b.1.1.0 b.1.1.1.0 fd
        (scan_sound f (drop (low + 256 * high - 4) rest) (AllBytes-drop _ rest b.1.1.1.1) fd.behind)
]
scan_sound (suc f) _ b h = cc

-- On any bytes, the check of a device path answers true exactly when they are the encoding of a
-- list of well-formed nodes (no end node among them, sizes below 65536, every file path a text of
-- whole units that ends in a NUL) with one end node behind it and nothing after that.
pub path_valid_iff : (p : Bytes) → AllBytes p → (path_valid p ≡ value true) ↔ IsEncoded p
unfolding path_valid
path_valid_iff p b =
    let e = path_valid_from-scan (suc (length p)) p 0 p refl in
    (
      λ h. scan_sound (suc (length p)) p b (sym e ∙ h),
      λ (ns, ok, enc). e ∙ rw enc (scan-encode ns (suc (length (encode ns))) ok (omega arith)),
    )

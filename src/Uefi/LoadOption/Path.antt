-- ===== src/Uefi/LoadOption/Path.antt =====
-- Device paths: the nodes that `rb_path_valid` accepts, and no others.
pub mod Nodes
use esp32_remote_boot.Prelude.{
  ℕ, zero, suc, ◌+◌, ◌-◌, ◌*◌, ◌/◌, ◌%◌, ◌≤◌, ◌<◌, ◌≡◌, ◌≢◌, ◌↔◌, refl, sym, ap, ◌∙◌, Bool, true,
  false, not, ◌&&◌, ◌||◌, List, [], ◌∷◌, ◌++◌, inl, inr, ltb, leb, ◌==◌, if◌then◌else◌, Bool-cases,
  length, drop, length-drop, Bytes, Access, fault, value, ◌>>=◌, read, returns, read-returns,
  read_at, length_at, drop_at, Access-cases, arith,
}
use esp32_remote_boot.Uefi.LoadOption.{u16, bad_text, path_valid_from, path_valid}

pub u16_at :
    (p : Bytes) (off i k : ℕ) {q : Bytes} → drop off p ≡ q → k ≡ off + i → u16 p k ≡ u16 q i
unfolding u16
u16_at p off i k e h =
    ground (arith, read_at p off i k e h, read_at p off (i + 1) (k + 1) e (omega arith))

-- `rb_path_valid` on the bytes that are left.
pub scan : ℕ → Bytes → Access Bool
scan zero q = fault
scan (suc f) (kind ∷ subkind ∷ low ∷ high ∷ rest) =
    let q = kind ∷ subkind ∷ low ∷ high ∷ rest in
    let len = low + 256 * high in
    let next = scan f (drop len q) in
    if ltb len 4 || ltb (length q) len
    then value false
    else if kind == 0x7f
    then value (subkind == 0xff && len == 4 && length q == 4)
    else if kind == 4 && subkind == 4
    then (do bad ← bad_text q 0 len; if bad then value false else next)
    else next
scan (suc f) _ = value false

bad_text_at :
    (p : Bytes) (off len : ℕ) {q : Bytes} → drop off p ≡ q → bad_text p off len ≡ bad_text q 0 len
unfolding bad_text
bad_text_at p off len e = elim (Bool-cases (ltb len 6)) [
  | inl short ↦ rw short
  | inr long ↦ rw (u16_at p off (0 + len - 2) (off + len - 2) e (ground arith))
]

path_valid_from-scan :
    (f : ℕ) (p : Bytes) (off : ℕ) (q : Bytes) → drop off p ≡ q → path_valid_from f p off ≡ scan f q
unfolding path_valid_from scan u16
path_valid_from-scan zero p off q e = refl
path_valid_from-scan (suc f) p off (kind ∷ subkind ∷ low ∷ high ∷ rest) e = ground (
  arith,
  length_at p off e,
  read_at p off 0 off e,
  read_at p off 1 (off + 1) e,
  read_at p off 2 (off + 2) e,
  read_at p off 3 (off + 2 + 1) e,
  bad_text_at p off (low + 256 * high) e,
  path_valid_from-scan f p (off + (low + 256 * high))
      (drop (low + 256 * high) (kind ∷ subkind ∷ low ∷ high ∷ rest))
      (drop_at p off (low + 256 * high) (off + (low + 256 * high)) e refl),
)
path_valid_from-scan (suc f) p off _ e = ground (arith, length_at p off e)

pub u16-returns : (p : Bytes) (i : ℕ) → i + 1 < length p → returns (u16 p i) ≡ true
unfolding u16
u16-returns p i h = ground (arith, read-returns p i, read-returns p (i + 1))

bad_text-returns : (q : Bytes) (len : ℕ) → len ≤ length q → returns (bad_text q 0 len) ≡ true
unfolding bad_text
bad_text-returns q len h = ground (arith, u16-returns q (0 + len - 2))

scan-returns : (f : ℕ) (q : Bytes) → length q < f → returns (scan f q) ≡ true
unfolding scan
scan-returns zero q h = elim h [ ]
scan-returns (suc f) (kind ∷ subkind ∷ low ∷ high ∷ rest) h =
    let q = kind ∷ subkind ∷ low ∷ high ∷ rest in
    let len = low + 256 * high in
    ground (arith, scan-returns f (drop len q), length-drop len q, bad_text-returns q len)
scan-returns (suc f) _ h = refl

-- The check of a device path reads only inside the path, and ends, on every input.
pub path_valid-returns : (p : Bytes) → returns (path_valid p) ≡ true
unfolding path_valid
path_valid-returns p =
    rw (path_valid_from-scan (suc (length p)) p 0 p refl)
      (scan-returns (suc (length p)) p (omega arith))

-- A node of a device path, other than the node that ends it.
pub record Node : Type 0 where
  pub kind : ℕ
  pub subkind : ℕ
  pub payload : Bytes

abbrev pub node_size : Node → ℕ
node_size n = length n.payload + 4

abbrev pub encode_node : Node → Bytes → Bytes
encode_node n rest =
    n.kind ∷ n.subkind ∷ node_size n % 256 ∷ node_size n / 256 ∷ (n.payload ++ rest)

abbrev pub end_node : Bytes
end_node = 0x7f ∷ 0xff ∷ 4 ∷ 0 ∷ []

abbrev pub encode : List Node → Bytes
encode [] = end_node
encode (n ∷ ns) = encode_node n (encode ns)

-- UTF-16 text that ends in a NUL
pub data IsText : Bytes → Type 0 where
  nul : IsText (0 ∷ 0 ∷ [])
  unit : {bs : Bytes} (low high : ℕ) → IsText bs → IsText (low ∷ high ∷ bs)

pub record IsNode (n : Node) : Type 0 where
  pub inner : n.kind ≢ 0x7f
  pub sized : node_size n < 65536
  pub text : n.kind ≡ 4 → n.subkind ≡ 4 → IsText n.payload

abbrev pub AllNodes : List Node → Type 0
AllNodes [] = Unit {0}
AllNodes (n ∷ ns) = IsNode n × AllNodes ns

-- the last unit of a text of at least one unit, at byte `i`
IsText-u16 : (t rest : Bytes) (i : ℕ) → IsText t → i + 2 ≡ length t → u16 (t ++ rest) i ≡ value 0
unfolding u16
IsText-u16 _ rest zero nul e = refl
IsText-u16 _ rest (suc i) nul e = absurd (omega arith)
IsText-u16 _ rest zero (unit low high nul) e = absurd (omega arith)
IsText-u16 _ rest zero (unit low high (unit a b t)) e = absurd (omega arith)
IsText-u16 _ rest (suc zero) (unit low high nul) e = absurd (omega arith)
IsText-u16 _ rest (suc zero) (unit low high (unit a b t)) e = absurd (omega arith)
IsText-u16 _ rest (suc (suc i)) (unit {bs} low high t) e =
    ground (arith, IsText-u16 bs rest i t (omega arith))

IsText-size : {t : Bytes} → IsText t → (2 ≤ length t) × (length t % 2 ≡ 0)
IsText-size nul = omega arith
IsText-size (unit low high t) = omega (arith, IsText-size t)

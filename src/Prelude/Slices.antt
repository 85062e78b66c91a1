-- ===== src/Prelude/Slices.antt =====
-- Laws of reads and slices: a buffer taken apart, and put together, at known offsets.
use Prim.Native.Nat.{ℕ, zero, suc, ◌+◌, ◌≤◌}
use mathlib.Core.Path.{◌≡◌, refl, sym, ap, ◌∙◌}
use mathlib.Core.Bool.{Bool, true, false, ◌&&◌}
use mathlib.Core.Logic.{◌↔◌}
use mathlib.Core.Option.{some}
use mathlib.Core.List.{[], ◌∷◌, ◌++◌}
use native.Mathlib.Omega.{arith}
use esp32_remote_boot.Prelude.Tests.{◌==◌, if◌then◌else◌}
use esp32_remote_boot.Prelude.Lists.{
  length, get_elem?, take, drop, length-take, length-drop, take-append-drop, drop-drop, take_prefix,
  drop_prefix, length-append, get_elem?-lt,
}
use esp32_remote_boot.Prelude.Memory.{
  Bytes, Access, fault, value, ◌>>=◌, read, slice, drop_at, returns,
}

-- what a slice found says of the bytes from `off` on
pub slice_sound :
    (p : Bytes) (off n k : ℕ) (x : Bytes)
    → slice p off n ≡ value x
    → k ≡ off + n
    → (drop off p ≡ x ++ drop k p) × (length x ≡ n) × (k ≤ length p)
slice_sound p off n k x h e =
    let in_range : off + n ≤ length p = ground arith in
    let found : take n (drop off p) ≡ x = ground arith in
    (
      sym (take-append-drop n (drop off p))
          ∙ ap (λ t. t ++ drop n (drop off p)) found
          ∙ ap (◌++◌ x) (drop-drop off n k p e),
      ground (arith, length-take n (drop off p), length-drop off p),
      omega arith,
    )

pub slice_of :
    (p : Bytes) (off n : ℕ) (x rest : Bytes)
    → drop off p ≡ x ++ rest
    → n ≡ length x
    → off ≤ length p
    → slice p off n ≡ value x
slice_of p off n x rest h e l =
    ground (arith, take_prefix n x rest, length-drop off p, length-append x rest, ap length h)

pub drop_behind :
    (p : Bytes) (off n k : ℕ) (x rest : Bytes)
    → drop off p ≡ x ++ rest
    → n ≡ length x
    → k ≡ off + n
    → drop k p ≡ rest
drop_behind p off n k x rest h e e' = drop_at p off n k h e' ∙ drop_prefix n x rest e

pub slice-returns : (p : Bytes) (off n : ℕ) → off + n ≤ length p → returns (slice p off n) ≡ true
slice-returns p off n h = ground arith

get_elem?-drop_cons :
    (p : Bytes) (i k : ℕ) (b : ℕ) → get_elem? p i ≡ some b → k ≡ i + 1 → drop i p ≡ b ∷ drop k p
get_elem?-drop_cons [] i k b h e = cc
get_elem?-drop_cons (x ∷ p) zero k b h e = let one : k ≡ 1 = omega arith in rw one (ground arith)
get_elem?-drop_cons (x ∷ p) (suc i) zero b h e = absurd (omega arith)
get_elem?-drop_cons (x ∷ p) (suc i) (suc k) b h e = get_elem?-drop_cons p i k b h (omega arith)

-- what a byte read says of the bytes from `i` on
pub read_sound :
    (p : Bytes) (i k b : ℕ)
    → read p i ≡ value b
    → k ≡ i + 1
    → (drop i p ≡ b ∷ drop k p) × (k ≤ length p)
read_sound p i k b h e =
    let found : get_elem? p i ≡ some b = ground arith in
    (get_elem?-drop_cons p i k b found e, omega (arith, get_elem?-lt p i found))

-- `memcmp` of as many bytes answers 0
unfoldable pub same : Bytes → Bytes → Bool
same [] [] = true
same (x ∷ xs) (y ∷ ys) = x == y && same xs ys
same _ _ = false

pub same_iff : (xs ys : Bytes) → (same xs ys ≡ true) ↔ (xs ≡ ys)
unfolding same
same_iff (x ∷ xs) (y ∷ ys) = ground (arith, same_iff xs ys)
same_iff _ _ = ground arith

-- `!memcmp(p + off, q, n)`
abbrev pub equal_at : Bytes → ℕ → Bytes → ℕ → Access Bool
equal_at p off q n = do a ← slice p off n; b ← slice q 0 n; value (same a b)

-- `a && b` over tests that read memory
abbrev pub both : Access Bool → Access Bool → Access Bool
both a b = do x ← a; if x then b else value false

pub drop_all : (n : ℕ) (p : Bytes) → length p ≤ n → drop n p ≡ []
drop_all zero [] h = refl
drop_all zero (x ∷ p) h = absurd (omega arith)
drop_all (suc n) [] h = refl
drop_all (suc n) (x ∷ p) h = drop_all n p (omega arith)

-- a slice in range, and the bytes on both sides of its end
pub slice-value :
    (p : Bytes) (off n k : ℕ)
    → off + n ≤ length p
    → k ≡ off + n
    → (x : Bytes) × (slice p off n ≡ value x) × (length x ≡ n) × (drop off p ≡ x ++ drop k p)
slice-value p off n k h e = (
  take n (drop off p),
  ground arith,
  omega (arith, length-take n (drop off p), length-drop off p),
  sym (take-append-drop n (drop off p)) ∙ ap (◌++◌ (take n (drop off p))) (drop-drop off n k p e),
)

pub both_sound : (a b : Access Bool) → both a b ≡ value true → (a ≡ value true) × (b ≡ value true)
both_sound fault b h = cc
both_sound (value true) b h = (refl, h)
both_sound (value false) b h = cc

pub both_of : (a b : Access Bool) → a ≡ value true → b ≡ value true → both a b ≡ value true
both_of a b h k = rw h k

-- ===== src/Prelude/Memory.antt =====
-- Reads through a pointer with a known size. `fault` stands for a read outside the buffer, which C
-- leaves undefined, and for a loop that has used up its fuel: code that ends in `value` did neither.
use Prim.Native.Nat.{ℕ, zero, suc, ◌+◌, ◌-◌, ◌<◌}
use mathlib.Core.Path.{◌≡◌, refl, sym, ap, ◌∙◌}
use mathlib.Core.Logic.{◌⊎◌, inl, inr}
use mathlib.Core.Bool.{Bool, true, false}
use mathlib.Core.Option.{Option, none, some}
use mathlib.Core.List.{List, [], ◌∷◌, ◌++◌}
use esp32_remote_boot.Prelude.Tests.{leb, if◌then◌else◌}
use esp32_remote_boot.Prelude.Lists.{
  length, get_elem?, take, drop, get_elem?-drop, get_elem?-is_some, length-drop, drop-drop,
}

abbrev pub Bytes : Type 0
Bytes = List ℕ

pub data Access {ℓ} (A : Type ℓ) : Type ℓ where
  fault : Access A
  value : A → Access A

infixl 5 ◌>>=◌
abbrev pub ◌>>=◌ {ℓ κ} : {A : Type ℓ} {B : Type κ} → Access A → (A → Access B) → Access B
fault >>= f = fault
value a >>= f = f a

pub >>=-eq-value {ℓ κ} :
    {A : Type ℓ} {B : Type κ} (m : Access A) (f : A → Access B) {b : B}
    → (m >>= f) ≡ value b
    → (a : A) × (m ≡ value a) × (f a ≡ value b)
>>=-eq-value fault f h = cc
>>=-eq-value (value a) f h = (a, refl, h)

abbrev pub checked {ℓ} : {A : Type ℓ} → Option A → Access A
checked none = fault
checked (some a) = value a

-- `p[i]`
abbrev pub read : Bytes → ℕ → Access ℕ
read p i = checked (get_elem? p i)

-- The pointer `p + off` with the size `n`.
abbrev pub slice : Bytes → ℕ → ℕ → Access Bytes
slice p off n = if leb (off + n) (length p) then value (take n (drop off p)) else fault

pub read-value : (p : Bytes) (i : ℕ) → i < length p → (b : ℕ) × (read p i ≡ value b)
read-value p i h = let (b, e) = get_elem?-is_some p i h in (b, rw e)

pub read-drop : (off i k : ℕ) (p : Bytes) → k ≡ off + i → read (drop off p) i ≡ read p k
read-drop off i k p e = rw (get_elem?-drop off i k p e)

-- Whether the code reached its result.
abbrev pub returns {ℓ} : {A : Type ℓ} → Access A → Bool
returns fault = false
returns (value _) = true

pub read-returns : (p : Bytes) (i : ℕ) → i < length p → returns (read p i) ≡ true
read-returns p i h = rw (read-value p i h).1

pub Access-cases {ℓ} : {A : Type ℓ} (m : Access A) → (m ≡ fault) ⊎ ((a : A) × (m ≡ value a))
Access-cases fault = inl refl
Access-cases (value a) = inr (a, refl)

-- The bytes that follow `off`, when what stands there is known.
pub read_at :
    (p : Bytes) (off i k : ℕ) {q : Bytes} → drop off p ≡ q → k ≡ off + i → read p k ≡ read q i
read_at p off i k e h = sym (read-drop off i k p h) ∙ ap (λ r. read r i) e

pub length_at : (p : Bytes) (off : ℕ) {q : Bytes} → drop off p ≡ q → length p - off ≡ length q
length_at p off e = sym (length-drop off p) ∙ ap length e

pub drop_at :
    (p : Bytes) (off n k : ℕ) {q : Bytes} → drop off p ≡ q → k ≡ off + n → drop k p ≡ drop n q
drop_at p off n k e h = sym (drop-drop off n k p h) ∙ ap (drop n) e

abbrev pub AllBytes : Bytes → Type 0
AllBytes [] = Unit {0}
AllBytes (b ∷ bs) = (b < 256) × AllBytes bs

pub AllBytes-drop : (n : ℕ) (bs : Bytes) → AllBytes bs → AllBytes (drop n bs)
AllBytes-drop zero bs h = h
AllBytes-drop (suc n) [] h = h
AllBytes-drop (suc n) (b ∷ bs) h = AllBytes-drop n bs h.1

pub AllBytes-append : (xs ys : Bytes) → AllBytes (xs ++ ys) → AllBytes xs × AllBytes ys
AllBytes-append [] ys h = (tt, h)
AllBytes-append (x ∷ xs) ys h = let (a, b) = AllBytes-append xs ys h.1 in ((h.0, a), b)

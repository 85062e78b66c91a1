-- ===== src/Uefi/LoadOption/Text.antt =====
-- `rb_utf16_contains` against a search in the list of the units that the bytes hold.
use esp32_remote_boot.Prelude.{
  ℕ, zero, suc, ◌+◌, ◌*◌, ◌<◌, ◌≡◌, ◌↔◌, refl, ap, Bool, true, false, ◌&&◌, ◌||◌, List, [], ◌∷◌,
  ◌++◌, inl, inr, ◌==◌, Bool-cases, length, drop, Bytes, value, read_at, length_at, drop_at, arith,
}
use esp32_remote_boot.Uefi.LoadOption.{u16, lower, matches_at, contains_from, utf16_contains}

-- the 16-bit units, with ASCII capitals made small
pub lowered : Bytes → List ℕ
unfolding lower
lowered (low ∷ high ∷ rest) = lower (low + 256 * high) ∷ lowered rest
lowered _ = []

pub starts : List ℕ → List ℕ → Bool
starts [] us = true
starts (c ∷ cs) [] = false
starts (c ∷ cs) (u ∷ us) = u == c && starts cs us

pub found : List ℕ → List ℕ → Bool
found needle [] = false
found needle (u ∷ us) = starts needle (u ∷ us) || found needle us

matches_at-starts :
    (p : Bytes) (at : ℕ) (needle q : Bytes)
    → drop at p ≡ q
    → matches_at p at needle ≡ value (starts needle (lowered q))
unfolding matches_at starts lowered u16 lower
matches_at-starts p at [] q e = refl
matches_at-starts p at (c ∷ cs) [] e = ground (arith, length_at p at e)
matches_at-starts p at (c ∷ cs) (a ∷ []) e = ground (arith, length_at p at e)
matches_at-starts p at (c ∷ cs) (a ∷ b ∷ r) e = ground (
  arith,
  length_at p at e,
  read_at p at 0 at e,
  read_at p at 1 (at + 1) e,
  matches_at-starts p (at + 2) cs r (drop_at p at 2 (at + 2) e refl),
)

contains_from-found :
    (f : ℕ) (p : Bytes) (i : ℕ) (needle q : Bytes)
    → drop i p ≡ q
    → length q < f
    → contains_from f p i needle ≡ value (found needle (lowered q))
unfolding contains_from found lowered lower
contains_from-found zero p i needle q e l = elim l [ ]
contains_from-found (suc f) p i needle [] e l = ground (arith, length_at p i e)
contains_from-found (suc f) p i needle (a ∷ []) e l = ground (arith, length_at p i e)
contains_from-found (suc f) p i needle (a ∷ b ∷ r) e l = ground (
  arith,
  length_at p i e,
  matches_at-starts p i needle (a ∷ b ∷ r) e,
  contains_from-found f p (i + 2) needle r (drop_at p i 2 (i + 2) e refl),
)

-- The search reads only inside the text, ends, and answers as the search in the list of units.
pub utf16_contains-found :
    (p needle : Bytes) → utf16_contains p needle ≡ value (found needle (lowered p))
unfolding utf16_contains
utf16_contains-found p needle = contains_from-found (suc (length p)) p 0 needle p refl (omega arith)

abbrev pub IsInfix : List ℕ → List ℕ → Type 0
IsInfix needle us = (before : List ℕ) × (behind : List ℕ) × (us ≡ before ++ (needle ++ behind))

starts_sound :
    (needle us : List ℕ) → starts needle us ≡ true → (behind : List ℕ) × (us ≡ needle ++ behind)
unfolding starts
starts_sound [] us h = (us, refl)
starts_sound (c ∷ cs) [] h = cc
starts_sound (c ∷ cs) (u ∷ us) h =
    let (behind, e) = starts_sound cs us (ground arith) in (behind, ground arith)

starts-append : (needle behind : List ℕ) → starts needle (needle ++ behind) ≡ true
unfolding starts
starts-append [] behind = refl
starts-append (c ∷ cs) behind = ground (arith, starts-append cs behind)

found_sound : (needle us : List ℕ) → found needle us ≡ true → IsInfix needle us
unfolding found
found_sound needle [] h = cc
found_sound needle (u ∷ us) h = elim (Bool-cases (starts needle (u ∷ us))) [
  | inl here ↦ let (behind, e) = starts_sound needle (u ∷ us) here in ([], behind, e)
  | inr later ↦
      let (before, behind, e) = found_sound needle us (ground arith) in
      (u ∷ before, behind, ap (◌∷◌ u) e)
]

found-infix :
    (c : ℕ) (cs before behind : List ℕ) → found (c ∷ cs) (before ++ (c ∷ (cs ++ behind))) ≡ true
unfolding found starts
found-infix c cs [] behind = ground (arith, starts-append cs behind)
found-infix c cs (b ∷ before) behind = ground (arith, found-infix c cs before behind)

-- For a text to look for that is not empty, `rb_utf16_contains` answers true exactly when that
-- text stands somewhere among the units, capitals of ASCII taken as small letters.
pub utf16_contains_iff :
    (p : Bytes) (c : ℕ) (cs : Bytes)
    → (utf16_contains p (c ∷ cs) ≡ value true) ↔ IsInfix (c ∷ cs) (lowered p)
utf16_contains_iff p c cs = (
  λ h. found_sound (c ∷ cs) (lowered p) (ground (arith, utf16_contains-found p (c ∷ cs))),
  λ (before, behind, e). rw (utf16_contains-found p (c ∷ cs), e, found-infix c cs before behind),
)

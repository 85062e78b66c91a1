-- ===== src/Microlink/JsonScan/Printed.antt =====
-- `ml_json_object_get` on an object that has been printed: it is a lookup.
use esp32_remote_boot.Prelude.{
  ℕ, zero, suc, ◌+◌, ◌-◌, ◌≤◌, ◌<◌, ◌≡◌, ◌≢◌, ◌⊎◌, inl, inr, refl, ap, ◌∙◌, true, false, Bool-cases,
  Option, none, some, List, [], ◌∷◌, ◌++◌, ◌==◌, length, length-append, take, take_prefix, same,
  same_iff, Bytes, value, if◌then◌else◌, arith,
}
use esp32_remote_boot.Microlink.JsonScan.{
  skip_space, is_space, plain, string_from, skip_string, skip_value, skip_value_depth, skip_object,
  brackets, items, member, after_item, next_item, closed, next, object_valid,
}
use esp32_remote_boot.Microlink.JsonScan.Lookup.{expect, get_from, object_get, key_equals}

-- a key of characters that need no escape
abbrev pub IsKey : Bytes → Type 0
IsKey [] = Unit {0}
IsKey (c ∷ cs) = (32 ≤ c) × (c ≢ 34) × (c ≢ 92) × IsKey cs

-- A text that begins with something other than space, and that the scanner passes from any of its
-- last two depths, whatever comma or bracket is behind it.
pub record IsValue (v : Bytes) : Type 0 where
  pub first : ℕ
  pub rest : Bytes
  pub starts : v ≡ first ∷ rest
  pub no_space : is_space first ≡ false
  pub scans :
      (left c : ℕ) (behind : Bytes)
      → 32 ≤ left
      → left ≤ 33
      → (c ≡ b',') ⊎ (c ≡ b'}')
      → skip_value_depth left (v ++ (c ∷ behind)) ≡ value (some (c ∷ behind))

abbrev pub quoted : Bytes → Bytes → Bytes
quoted key p = 34 ∷ (key ++ (34 ∷ p))

-- the text of the members, without space, up to the closing bracket
unfoldable pub members_text : Bytes × Bytes → List (Bytes × Bytes) → Bytes
members_text (k, v) [] = quoted k (b':' ∷ (v ++ (b'}' ∷ [])))
members_text (k, v) (m ∷ ms) = quoted k (b':' ∷ (v ++ (b',' ∷ members_text m ms)))

abbrev pub object_text : Bytes × Bytes → List (Bytes × Bytes) → Bytes
object_text m ms = b'{' ∷ members_text m ms

abbrev pub AllMembers : List (Bytes × Bytes) → Type 0
AllMembers [] = Unit {0}
AllMembers ((k, v) ∷ ms) = IsKey k × IsValue v × AllMembers ms

-- the value of the first member with the key
unfoldable pub lookup : Bytes → List (Bytes × Bytes) → Option Bytes
lookup key [] = none
lookup key ((k, v) ∷ ms) = if same k key then some v else lookup key ms

string_from-IsKey : (k p : Bytes) → IsKey k → string_from plain (k ++ (34 ∷ p)) ≡ some p
unfolding string_from
string_from-IsKey [] p h = refl
string_from-IsKey (c ∷ k) p h = ground (arith, string_from-IsKey k p h.3)

skip_string-quoted : (k p : Bytes) → IsKey k → skip_string (quoted k p) ≡ some p
unfolding skip_string
skip_string-quoted k p h = string_from-IsKey k p h

skip_space_value : (v behind : Bytes) → IsValue v → skip_space (v ++ behind) ≡ v ++ behind
unfolding skip_space
skip_space_value v behind h = rw h.starts (ground (arith, h.no_space))

-- one member, passed by a scan one level down
member-passes :
    (left c : ℕ) (k v behind : Bytes)
    → 32 ≤ left
    → left ≤ 33
    → (c ≡ b',') ⊎ (c ≡ b'}')
    → IsKey k
    → IsValue v
    → member (skip_value_depth left) (quoted k (b':' ∷ (v ++ (c ∷ behind))))
      ≡ value (some (c ∷ behind))
unfolding member skip_space
member-passes left c k v behind l m e key h =
    ground
      (arith, skip_string-quoted k (b':' ∷ (v ++ (c ∷ behind))) key, h.scans left c behind l m e)

after_comma : (k p : Bytes) → after_item b'}' (b',' ∷ quoted k p) ≡ next (quoted k p)
unfolding after_item skip_space next_item
after_comma k p = refl

after_close : (p : Bytes) → after_item b'}' (b'}' ∷ p) ≡ closed p
unfolding after_item skip_space
after_close p = refl

after_members :
    (m : Bytes × Bytes) (ms : List (Bytes × Bytes))
    → after_item b'}' (b',' ∷ members_text m ms) ≡ next (members_text m ms)
unfolding members_text
after_members (k, v) [] = after_comma k _
after_members (k, v) (m ∷ ms) = after_comma k _

length-quoted : (k v p : Bytes) (c : ℕ) → length p < length (quoted k (b':' ∷ (v ++ (c ∷ p))))
length-quoted k v p c =
    omega (arith, length-append k (34 ∷ b':' ∷ (v ++ (c ∷ p))), length-append v (c ∷ p))

items-members :
    (fuel : ℕ) (m : Bytes × Bytes) (ms : List (Bytes × Bytes))
    → length (members_text m ms) < fuel
    → AllMembers (m ∷ ms)
    → items b'}' (member (skip_value_depth 32)) fuel (members_text m ms) ≡ value (some [])
unfolding items members_text
items-members zero m ms l h = absurd (omega arith)
items-members (suc fuel) (k, v) [] l h = ground (
  arith,
  member-passes 32 b'}' k v [] (omega arith) (omega arith) (inr refl) h.0 h.1,
  after_close [],
)
items-members (suc fuel) (k, v) (m ∷ ms) l h =
    let fewer : length (members_text m ms) < fuel =
      omega (arith, length-quoted k v (members_text m ms) b',') in
    ground (
      arith,
      member-passes 32 b',' k v (members_text m ms) (omega arith) (omega arith) (inl refl) h.0 h.1,
      after_members m ms,
      items-members fuel m ms fewer h.2,
    )

object_text-passes :
    (m : Bytes × Bytes) (ms : List (Bytes × Bytes))
    → AllMembers (m ∷ ms)
    → skip_value (object_text m ms) ≡ value (some [])
unfolding skip_value skip_value_depth skip_object brackets skip_space members_text
object_text-passes (k, v) [] h = items-members _ (k, v) [] (unfold members_text in omega arith) h
object_text-passes (k, v) (m ∷ ms) h =
    items-members _ (k, v) (m ∷ ms) (unfold members_text in omega arith) h

object_valid-object_text :
    (m : Bytes × Bytes) (ms : List (Bytes × Bytes))
    → AllMembers (m ∷ ms)
    → object_valid (object_text m ms) ≡ value true
unfolding object_valid skip_space
object_valid-object_text m ms h = ground (arith, object_text-passes m ms h)

length-quoted_key : (k p : Bytes) → length (quoted k p) ≡ length k + 2 + length p
length-quoted_key k p = omega (arith, length-append k (34 ∷ p))

-- keys of different lengths are different
same-length : (x y : Bytes) → length x ≢ length y → same x y ≡ false
same-length x y h = elim (Bool-cases (same x y)) [
  | inl e ↦ absurd (h (ap length ((same_iff x y).0 e)))
  | inr e ↦ e
]

key_equals-quoted : (k p key : Bytes) → key_equals (quoted k p) p key ≡ same k key
unfolding key_equals
key_equals-quoted k p key = elim (Bool-cases (length k == length key)) [
  | inl e ↦
      let all : take (length key) (k ++ (34 ∷ p)) ≡ k =
        take_prefix (length key) k (34 ∷ p) (ground arith) in
      ground (arith, all, length-quoted_key k p)
  | inr e ↦ ground (arith, length-quoted_key k p, same-length k key (ground arith))
]

cut_value : (v behind : Bytes) → take (length (v ++ behind) - length behind) (v ++ behind) ≡ v
cut_value v behind =
    take_prefix (length (v ++ behind) - length behind) v behind
      (omega (arith, length-append v behind))

get_from-step :
    (fuel : ℕ) (key p k_end r v_start v_end : Bytes)
    → expect b'}' p ≡ none
    → skip_string (skip_space p) ≡ some k_end
    → expect b':' k_end ≡ some r
    → skip_space r ≡ v_start
    → skip_value v_start ≡ value (some v_end)
    → get_from (suc fuel) key p ≡ (
        if key_equals (skip_space p) k_end key
        then value (some (take (length v_start - length v_end) v_start))
        else elim (expect b',' v_end) [ none ↦ value none | some t ↦ get_from fuel key t ])
unfolding get_from
get_from-step fuel key p k_end r v_start v_end e1 e2 e3 e4 e5 = ground arith

-- one round of the search
get_from-member :
    (fuel c : ℕ) (key k v behind : Bytes)
    → (c ≡ b',') ⊎ (c ≡ b'}')
    → IsKey k
    → IsValue v
    → get_from (suc fuel) key (quoted k (b':' ∷ (v ++ (c ∷ behind)))) ≡ (
        if same k key
        then value (some v)
        else elim (expect b',' (c ∷ behind)) [ none ↦ value none | some t ↦ get_from fuel key t ])
unfolding skip_space expect skip_value
get_from-member fuel c key k v behind e hk hv =
    let p = b':' ∷ (v ++ (c ∷ behind)) in
    get_from-step fuel key (quoted k p) p (v ++ (c ∷ behind)) (v ++ (c ∷ behind)) (c ∷ behind) refl
      (skip_string-quoted k p hk) refl (skip_space_value v (c ∷ behind) hv)
      (hv.scans 33 c behind (omega arith) (omega arith) e)
    ∙ ap
        (λ b.
          if b
          then value
              (some (take (length (v ++ (c ∷ behind)) - length (c ∷ behind)) (v ++ (c ∷ behind))))
          else elim (expect b',' (c ∷ behind)) [ none ↦ value none | some t ↦ get_from fuel key t ])
        (key_equals-quoted k p key)
    ∙ ap
        (λ t.
          if same k key
          then value (some t)
          else elim (expect b',' (c ∷ behind)) [ none ↦ value none | some t ↦ get_from fuel key t ])
        (cut_value v (c ∷ behind))

get_from-lookup :
    (fuel : ℕ) (key : Bytes) (m : Bytes × Bytes) (ms : List (Bytes × Bytes))
    → length (members_text m ms) < fuel
    → AllMembers (m ∷ ms)
    → get_from fuel key (members_text m ms) ≡ value (lookup key (m ∷ ms))
unfolding members_text lookup expect skip_space
get_from-lookup zero key m ms l h = absurd (omega arith)
get_from-lookup (suc fuel) key (k, v) [] l h =
    ground (arith, get_from-member fuel b'}' key k v [] (inr refl) h.0 h.1)
get_from-lookup (suc fuel) key (k, v) (m ∷ ms) l h =
    let fewer : length (members_text m ms) < fuel =
      omega (arith, length-quoted k v (members_text m ms) b',') in
    let next_is : expect b',' (b',' ∷ members_text m ms) ≡ some (members_text m ms) = refl in
    ground (
      arith,
      get_from-member fuel b',' key k v (members_text m ms) (inl refl) h.0 h.1,
      get_from-lookup fuel key m ms fewer h.2,
    )

-- On the text of an object, `ml_json_object_get` is a lookup: it gives exactly the bytes of the value
-- of the first member whose key is asked for, and nothing when there is none. The keys are of
-- characters that need no escape, and the values are texts that the scanner passes.
pub object_get-lookup :
    (key : Bytes) (m : Bytes × Bytes) (ms : List (Bytes × Bytes))
    → AllMembers (m ∷ ms)
    → object_get (object_text m ms) key ≡ value (lookup key (m ∷ ms))
unfolding object_get expect skip_space
object_get-lookup key m ms h = ground (
  arith,
  object_valid-object_text m ms h,
  get_from-lookup (suc (length (members_text m ms))) key m ms (omega arith) h,
)

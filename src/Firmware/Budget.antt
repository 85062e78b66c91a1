-- ===== src/Firmware/Budget.antt =====
-- `DiscoveryBudget` and `DiscoveryServiceRetry` of firmware/include/discovery_identity_store.hpp.
use esp32_remote_boot.Prelude.{
  ℕ, ◌+◌, ◌%◌, ◌≤◌, ◌<◌, ◌≡◌, ◌≢◌, ◌⊎◌, refl, Bool, true, false, ◌&&◌, ◌||◌, List, [], ◌∷◌, inl,
  inr, ltb, ◌==◌, if◌then◌else◌, length, min, sym, ap, ◌∙◌, arith,
}
use esp32_remote_boot.Firmware.{elapsed_ms}

-- `DiscoveryBudget`, its array as a function
pub record Budget : Type 0 where
  pub signed_at : ℕ → ℕ
  pub used : ℕ
  pub next : ℕ

-- what `DiscoveryBudget::take` writes when it gives leave
unfoldable pub spend : Budget → ℕ → Budget
spend b now = record {
  signed_at = λ i. if i == b.next then now else b.signed_at i;
  next = (b.next + 1) % 4;
  used = if ltb b.used 4 then b.used + 1 else b.used;
}

-- `DiscoveryBudget::take`
unfoldable pub take_budget : Budget → ℕ → ℕ → ℕ → Bool × Budget
take_budget b now heap largest =
    if ltb heap 24000 || ltb largest 12000
    then (false, b)
    else if b.used == 4 && ltb (elapsed_ms now (b.signed_at b.next)) 1000
    then (false, b)
    else (true, spend b now)

-- a try to sign: the time, the free heap and its largest block
abbrev pub Try : Type 0
Try = ℕ × ℕ × ℕ

-- the budget behind some tries, and the times at which leave was given, the last one first
unfoldable pub sign_all : Budget → List ℕ → List Try → List ℕ × Budget
sign_all b given [] = (given, b)
sign_all b given ((now, heap, largest) ∷ tries) =
    sign_all (take_budget b now heap largest).1
      (if (take_budget b now heap largest).0 then now ∷ given else given) tries

-- each time is a second at least behind the fourth one before it
unfoldable pub IsSpaced : List ℕ → Type 0
IsSpaced (a ∷ b ∷ c ∷ d ∷ e ∷ times) = (1000 ≤ elapsed_ms a e) × IsSpaced (b ∷ c ∷ d ∷ e ∷ times)
IsSpaced _ = Unit {0}

-- the ring holds the last four times, the oldest where the next one goes
record IsRing (b : Budget) (given : List ℕ) : Type 0 where
  in_ring : b.next < 4
  counted : b.used ≡ min 4 (length given)
  first : (x : ℕ) (xs : List ℕ) → given ≡ x ∷ xs → b.signed_at ((b.next + 3) % 4) ≡ x
  second : (x y : ℕ) (xs : List ℕ) → given ≡ x ∷ y ∷ xs → b.signed_at ((b.next + 2) % 4) ≡ y
  third : (x y z : ℕ) (xs : List ℕ) → given ≡ x ∷ y ∷ z ∷ xs → b.signed_at ((b.next + 1) % 4) ≡ z
  fourth : (x y z w : ℕ) (xs : List ℕ) → given ≡ x ∷ y ∷ z ∷ w ∷ xs → b.signed_at b.next ≡ w

spend_same : (b : Budget) (now : ℕ) → (spend b now).signed_at b.next ≡ now
unfolding spend
spend_same b now = ground arith

spend_other : (b : Budget) (now i : ℕ) → i ≢ b.next → (spend b now).signed_at i ≡ b.signed_at i
unfolding spend
spend_other b now i n = ground arith

abbrev tail_of {ℓ} : {A : Type ℓ} → List A → List A
tail_of [] = []
tail_of (x ∷ xs) = xs

abbrev head_of : List ℕ → ℕ
head_of [] = 0
head_of (x ∷ xs) = x

spend-IsRing :
    (b : Budget) (now : ℕ) (given : List ℕ) → IsRing b given → IsRing (spend b now) (now ∷ given)
spend-IsRing b now given r =
    let n : (spend b now).next ≡ (b.next + 1) % 4 = unfold spend in refl in
    let lt = r.in_ring in
    let i3 : ((spend b now).next + 3) % 4 ≡ b.next = omega (arith, n, lt) in
    let i2 : ((spend b now).next + 2) % 4 ≡ (b.next + 3) % 4 = omega (arith, n, lt) in
    let i1 : ((spend b now).next + 1) % 4 ≡ (b.next + 2) % 4 = omega (arith, n, lt) in
    record {
      in_ring = omega (arith, n);
      counted = unfold spend in ground (arith, r.counted);
      first = λ x xs e. rw i3 (spend_same b now ∙ ap head_of e);
      second = λ x y xs e.
          rw i2 (
            spend_other b now ((b.next + 3) % 4) (omega (arith, lt)) ∙ r.first y xs (ap tail_of e));
      third = λ x y z xs e. rw i1 (
          spend_other b now ((b.next + 2) % 4) (omega (arith, lt))
          ∙ r.second y z xs (ap tail_of e));
      fourth = λ x y z w xs e. rw n (
          spend_other b now ((b.next + 1) % 4) (omega (arith, lt))
          ∙ r.third y z w xs (ap tail_of e));
    }

one_more_time :
    (b : Budget) (now : ℕ) (given : List ℕ)
    → IsRing b given
    → IsSpaced given
    → ((b.used ≡ 4) → 1000 ≤ elapsed_ms now (b.signed_at b.next))
    → IsSpaced (now ∷ given)
unfolding IsSpaced
one_more_time b now (x ∷ y ∷ z ∷ w ∷ xs) r s h =
    let full : b.used ≡ 4 = omega (arith, r.counted) in
    let e = r.fourth x y z w xs refl in ((rw (sym e) (h full)), s)
one_more_time b now [] r s h = tt
one_more_time b now (x ∷ []) r s h = tt
one_more_time b now (x ∷ y ∷ []) r s h = tt
one_more_time b now (x ∷ y ∷ z ∷ []) r s h = tt

take_cases :
    (b : Budget) (now heap largest : ℕ)
    → (take_budget b now heap largest ≡ (false, b))
      ⊎ ((take_budget b now heap largest ≡ (true, spend b now))
          × ((b.used ≡ 4) → 1000 ≤ elapsed_ms now (b.signed_at b.next))
          × (24000 ≤ heap)
          × (12000 ≤ largest))
unfolding take_budget
take_cases b now heap largest = ground arith

sign_all_from :
    (b : Budget) (given : List ℕ) (tries : List Try)
    → IsRing b given
    → IsSpaced given
    → IsSpaced (sign_all b given tries).0
unfolding sign_all
sign_all_from b given [] r s = s
sign_all_from b given ((now, heap, largest) ∷ tries) r s = elim (take_cases b now heap largest) [
  | inl refused ↦
      let e : sign_all b given ((now, heap, largest) ∷ tries) ≡ sign_all b given tries =
        ground (arith, refused) in
      rw e (sign_all_from b given tries r s)
  | inr granted ↦
      let e : sign_all b given ((now, heap, largest) ∷ tries)
          ≡ sign_all (spend b now) (now ∷ given) tries =
        ground (arith, granted.0) in
      rw e (
        sign_all_from (spend b now) (now ∷ given) tries (spend-IsRing b now given r)
          (one_more_time b now given r s granted.1))
]

abbrev pub new_budget : Budget
new_budget = record { signed_at = λ i. 0; used = 0; next = 0 }

-- Whatever the times are at which signing is tried, and however much heap is free, each time at which
-- leave is given is a second at least, by the clock that wraps around, behind the fourth one before.
pub sign_all-IsSpaced : (tries : List Try) → IsSpaced (sign_all new_budget [] tries).0
sign_all-IsSpaced tries =
    sign_all_from new_budget [] tries
      (record {
        in_ring = omega arith;
        counted = omega arith;
        first = λ x xs e. cc;
        second = λ x y xs e. cc;
        third = λ x y z xs e. cc;
        fourth = λ x y z w xs e. cc;
      })
      (unfold IsSpaced in tt)

-- `DiscoveryServiceRetry`
pub record ServiceRetry : Type 0 where
  pub last : ℕ
  pub scheduled : Bool

-- its `reset`
unfoldable pub reset_retry : ServiceRetry → ServiceRetry
reset_retry r = record r { scheduled = false }

-- its `due`
unfoldable pub service_due : ServiceRetry → ℕ → Bool × ServiceRetry
service_due r now =
    if r.scheduled && ltb (elapsed_ms now r.last) 5000
    then (false, r)
    else (true, record { last = now; scheduled = true })

-- ===== src/Firmware/Identity.antt =====
-- `prepareDiscoveryIdentity` of firmware/include/discovery_identity_store.hpp: the signing identity of
-- the board in its flash. The store and the cryptography are parameters.
use esp32_remote_boot.Prelude.{
  ℕ, ◌≡◌, refl, ap, ◌∙◌, Bool, true, false, ◌&&◌, Option, none, some, List, [], ◌∷◌, ◌++◌, inl, inr,
  Bool-cases, Option-cases, ◌==◌, if◌then◌else◌, ==_iff, length, take, drop, replicate, arith,
}
use esp32_remote_boot.Firmware.Power.{same, same_sound}

-- What the code calls. `load` is what `isKey`, `getBytesLength` and `getBytes` give of the key
-- "identity", and `store` is `putBytes`, with the size that it returns. `generate` fills the key, `digest`
-- gives the 32 bytes of a hash.
pub record Services (S : Type 0) : Type 0 where
  pub load : S → Option (List ℕ)
  pub store : S → List ℕ → ℕ × S
  pub generate : List ℕ → Option (List ℕ)
  pub validate : List ℕ → Bool
  pub digest : List ℕ → Option (List ℕ)

abbrev pub tag : List ℕ
tag = b'R' ∷ b'B' ∷ b'I' ∷ b'1' ∷ []

module _ {S : Type 0} (sv : Services S) where
  -- the hash of the first 117 bytes is behind them
  unfoldable pub digest_matches : List ℕ → Bool
  digest_matches blob = elim (sv.digest (take 117 blob)) [
    | none ↦ false
    | some hash ↦ same hash (drop 117 blob)
  ]

  -- the branch for a key that is there
  unfoldable pub accept_stored : List ℕ → Option (List ℕ)
  accept_stored blob =
      if length blob == 149 && same (take 4 blob) tag && digest_matches blob && sv.validate blob
      then some blob
      else none

  -- the read of the key behind the write
  unfoldable pub written_back : S → List ℕ → Bool
  written_back s blob = elim (sv.load s) [ none ↦ false | some saved ↦ same saved blob ]

  -- the branch for a key that is not: the new blob with its hash, stored and read again
  unfoldable pub store_new : S → List ℕ → Option (List ℕ) × S
  store_new s body = elim (sv.digest (take 117 body)) [
    | none ↦ (none, s)
    | some hash ↦
        let blob = take 117 body ++ hash in
        let (n, s') = sv.store s blob in
        if n == 149 && written_back s' blob then (some blob, s') else (none, s')
  ]

  -- `prepareDiscoveryIdentity`: the blob that is accepted, and the store
  unfoldable pub prepare_identity : S → Option (List ℕ) × S
  prepare_identity s = elim (sv.load s) [
    | some blob ↦ (accept_stored blob, s)
    | none ↦ elim (sv.generate (tag ++ replicate 145 0)) [
      | none ↦ (none, s)
      | some body ↦ if sv.validate body then store_new s body else (none, s)
    ]
  ]

if_some :
    {A : Type 0} (g : Bool) (x y : A) → (if g then some x else none) ≡ some y → (g ≡ true) × (y ≡ x)
if_some true x y h = (refl, cc)
if_some false x y h = absurd (ground arith)

all_four :
    (a b c d : Bool) → (a && b && c && d) ≡ true → (a ≡ true) × (b ≡ true) × (c ≡ true) × (d ≡ true)
all_four a b c d h = ground arith

module _ {S : Type 0} (sv : Services S) where
  digest_matches-same :
      (blob : List ℕ)
      → digest_matches sv blob ≡ true
      → sv.digest (take 117 blob) ≡ some (drop 117 blob)
  unfolding digest_matches
  digest_matches-same blob h = elim (Option-cases (sv.digest (take 117 blob))) [
    | inl bad ↦ absurd (ground (arith, bad, h))
    | inr (hash, e) ↦
        let eq : same hash (drop 117 blob) ≡ true = ground (arith, e, h) in
        e ∙ ap some (same_sound hash (drop 117 blob) eq)
  ]

  accept_stored-same :
      (stored blob : List ℕ)
      → accept_stored sv stored ≡ some blob
      → (blob ≡ stored)
        × (length stored ≡ 149)
        × (take 4 stored ≡ tag)
        × (sv.validate stored ≡ true)
        × (sv.digest (take 117 stored) ≡ some (drop 117 stored))
  unfolding accept_stored
  accept_stored-same stored blob h =
      let size : Bool = length stored == 149 in
      let tagged : Bool = same (take 4 stored) tag in
      let guard : Bool = size && tagged && digest_matches sv stored && sv.validate stored in
      let (held, eq) = if_some guard stored blob h in
      let (a, b, c, d) =
        all_four size tagged (digest_matches sv stored) (sv.validate stored) held in
      (
        eq,
        (==_iff (length stored) 149).0 a,
        same_sound (take 4 stored) tag b,
        d,
        digest_matches-same stored c,
      )

  store_new-same :
      (s : S) (body blob : List ℕ)
      → (store_new sv s body).0 ≡ some blob
      → sv.load (store_new sv s body).1 ≡ some blob
  unfolding store_new written_back
  store_new-same s body blob h = elim (Option-cases (sv.digest (take 117 body))) [
    | inl bad ↦ absurd (ground arith)
    | inr (hash, e) ↦
        let new = take 117 body ++ hash in
        let s' = (sv.store s new).1 in
        elim (Option-cases (sv.load s')) [
          | inl bad ↦ absurd (ground arith)
          | inr (saved, got) ↦ ground (arith, same_sound saved new)
        ]
  ]

  -- An identity that is there is never written over: the store is as it was, and it is accepted only with
  -- its size, its tag, a valid key and its hash. With none there, an accepted identity is one that
  -- the store now holds.
  pub prepare_identity-kept :
      (s : S)
      → ((stored : List ℕ)
          → sv.load s ≡ some stored
          → ((prepare_identity sv s).1 ≡ s)
            × ((blob : List ℕ)
                → (prepare_identity sv s).0 ≡ some blob
                → (blob ≡ stored)
                  × (length stored ≡ 149)
                  × (take 4 stored ≡ tag)
                  × (sv.validate stored ≡ true)
                  × (sv.digest (take 117 stored) ≡ some (drop 117 stored))))
        × (sv.load s ≡ none
            → (blob : List ℕ) → (prepare_identity sv s).0 ≡ some blob
            → sv.load (prepare_identity sv s).1 ≡ some blob)
  unfolding prepare_identity
  prepare_identity-kept s = (
    (λ stored e.
        (ground (arith, e), λ blob h. accept_stored-same stored blob (ground (arith, e, h)))),
    λ e blob h. elim (Option-cases (sv.generate (tag ++ replicate 145 0))) [
      | inl bad ↦ absurd (ground (arith, e, h))
      | inr (body, made) ↦ elim (Bool-cases (sv.validate body)) [
        | inr bad ↦ absurd (ground (arith, e, h))
        | inl good ↦ ground (arith, e, h, store_new-same s body blob)
      ]
    ],
  )

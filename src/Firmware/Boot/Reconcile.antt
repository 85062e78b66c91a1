-- ===== src/Firmware/Boot/Reconcile.antt =====
-- What `reconcile` keeps when the entries have changed.
use esp32_remote_boot.Prelude.{
  ℕ, ◌≡◌, ◌⊎◌, refl, sym, ap, ◌∙◌, true, false, Option, none, some, inl, inr, Option-cases, arith,
}
use esp32_remote_boot.Firmware.Boot.{
  BootState, Behavior, default_target, last_selected, exit, valid, pending_valid, preferred,
  selected, dispatch, kept, reconcile,
}

kept_cases :
    (s : BootState) (id : Option ℕ)
    → ((kept s id ≡ id) × (valid s id ≡ true)) ⊎ ((kept s id ≡ none) × (valid s id ≡ false))
unfolding kept
kept_cases s id = ground arith

none_invalid : (s : BootState) → valid s none ≡ false
unfolding valid
none_invalid s = refl

entries_valid : (s : BootState) (id : Option ℕ) → valid (reconcile s) id ≡ valid s id
unfolding valid reconcile
entries_valid s none = refl
entries_valid s (some id) = refl

kept_id : (s : BootState) (id : Option ℕ) → valid (reconcile s) (kept s id) ≡ valid s id
kept_id s id = entries_valid s (kept s id) ∙ (elim (kept_cases s id) [
  | inl same ↦ ap (valid s) same.0
  | inr gone ↦ ap (valid s) gone.0 ∙ none_invalid s ∙ sym gone.1
])

preferred-reconcile :
    (s : BootState) (b : Behavior) → s.behavior ≡ b → preferred (reconcile s) ≡ kept s (preferred s)
unfolding preferred reconcile
preferred-reconcile s default_target e = ground (arith, e)
preferred-reconcile s last_selected e = ground (arith, e)
preferred-reconcile s exit e = unfold kept in ground (arith, e, none_invalid s)

selected-reconcile : (s : BootState) (now : ℕ) → selected (reconcile s) now ≡ selected s now
unfolding selected pending_valid valid kept preferred
selected-reconcile s now =
    let pend : (reconcile s).pending ≡ kept s s.pending = unfold reconcile in refl in
    let born : (reconcile s).created ≡ s.created = unfold reconcile in refl in
    let life : (reconcile s).ttl ≡ s.ttl = unfold reconcile in refl in
    let pref = preferred-reconcile s s.behavior refl in
    rw (pend, born, life, pref)
      (ground (
        arith,
        kept_id s s.pending,
        kept_id s (preferred s),
        kept_cases s s.pending,
        kept_cases s (preferred s),
      ))

-- When the entries have changed, `reconcile` drops the ids that are unknown or blocked and keeps the
-- others, and what the next dispatch gives is the same as without it.
pub reconcile-dispatch :
    (s : BootState) (now : ℕ)
    → ((dispatch (reconcile s) now).0 ≡ (dispatch s now).0)
      × ((valid s s.default_id ≡ true → (reconcile s).default_id ≡ s.default_id)
          × (valid s s.default_id ≡ false → (reconcile s).default_id ≡ none))
      × ((valid s s.last_id ≡ true → (reconcile s).last_id ≡ s.last_id)
          × (valid s s.last_id ≡ false → (reconcile s).last_id ≡ none))
      × ((valid s s.pending ≡ true → (reconcile s).pending ≡ s.pending)
          × (valid s s.pending ≡ false → (reconcile s).pending ≡ none))
      × ((valid s s.fallback ≡ true → (reconcile s).fallback ≡ s.fallback)
          × (valid s s.fallback ≡ false → (reconcile s).fallback ≡ none))
reconcile-dispatch s now = (
  same_dispatch,
  unfold reconcile kept in (λ h. ground (arith, h), λ h. ground (arith, h)),
  unfold reconcile kept in (λ h. ground (arith, h), λ h. ground (arith, h)),
  unfold reconcile kept in (λ h. ground (arith, h), λ h. ground (arith, h)),
  unfold reconcile kept in (λ h. ground (arith, h), λ h. ground (arith, h)),
)
  where
    same_dispatch : (dispatch (reconcile s) now).0 ≡ (dispatch s now).0
    same_dispatch =
        let sel = selected-reconcile s now in
        let seen : (reconcile s).dispatch_seen ≡ s.dispatch_seen = unfold reconcile in refl in
        let tgt : (reconcile s).dispatched_target ≡ s.dispatched_target =
          unfold reconcile in refl in
        let at : (reconcile s).dispatched_at ≡ s.dispatched_at = unfold reconcile in refl in
        elim (Option-cases (selected s now)) [
          | inl n ↦ unfold dispatch in ground (arith, sel, n)
          | inr (id, c) ↦ unfold dispatch in ground (arith, sel, c, seen, tgt, at)
        ]

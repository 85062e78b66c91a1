-- ===== src/Uefi/RemoteBoot/Schedule.antt =====
-- `validate_entry`, `schedule_boot` and `efi_main`: what is started, and what is left behind.
use esp32_remote_boot.Prelude.{
  ℕ, ◌/◌, ◌%◌, ◌≡◌, ◌≢◌, true, false, Option, none, some, List, [], ◌∷◌, inl, inr, Option-cases,
  Bytes, Access-cases, value, arith,
}
use esp32_remote_boot.Uefi.LoadOption.{RbOption, parse_option, blocked}
use esp32_remote_boot.Uefi.RemoteBoot.{
  Status, is_error, Firmware, Argument, missing, invalid, found, argument, read_variable,
  check_entry, validate_entry, resetting, returned, schedule_boot, try_fallback, run_arguments,
  efi_main, chars, boot_key, fallback_key,
}

module _ {S : Type 0} (fw : Firmware S) where
  -- The variable of entry `id` holds an active load option that is not blocked.
  pub record IsBootable (s : S) (id : ℕ) : Type 0 where
    pub raw : Bytes
    pub option : RbOption
    pub stored : (read_variable fw s (fw.entry_name id)).1 ≡ some raw
    pub parses : parse_option (some raw) ≡ value (some option)
    pub active : option.attributes % 2 ≡ 1
    pub allowed : blocked option ≡ value false

  -- what has happened when the machine resets on entry `id`
  pub record Scheduled (s : S) (id : ℕ) (s' : S) : Type 0 where
    pub bootable : IsBootable s id
    pub written : (fw.set_next s (id % 256 ∷ id / 256 % 256 ∷ [])).1 ≡ s'
    pub accepted : is_error (fw.set_next s (id % 256 ∷ id / 256 % 256 ∷ [])).0 ≡ false

  validate_entry-IsBootable :
      (s : S) (id : ℕ) (status : Status)
      → validate_entry fw s id ≡ value status
      → is_error status ≡ false
      → IsBootable s id
  unfolding validate_entry check_entry
  validate_entry-IsBootable s id status h ok =
      elim (Option-cases (read_variable fw s (fw.entry_name id)).1) [
        | inl empty ↦ absurd (unfold parse_option in ground arith)
        | inr (raw, stored) ↦ elim (Access-cases (parse_option (some raw))) [
          | inl bad ↦ absurd (ground arith)
          | inr (none, parsed) ↦ absurd (ground arith)
          | inr (some o, parsed) ↦ record {
            raw = raw;
            option = o;
            stored = stored;
            parses = parsed;
            active = ground arith;
            allowed = ground arith;
          }
        ]
      ]

  -- The machine resets only after BootNext has been accepted, set to the number of an entry that
  -- was validated in the state before the write.
  pub schedule_boot-Scheduled :
      (s : S) (id : ℕ) (s' : S) → schedule_boot fw s id ≡ value (resetting s') → Scheduled s id s'
  unfolding schedule_boot
  schedule_boot-Scheduled s id s' h = elim (Access-cases (validate_entry fw s id)) [
    | inl bad ↦ absurd (ground arith)
    | inr (status, checked) ↦ record {
      bootable = validate_entry-IsBootable s id status checked (ground arith);
      written = ground arith;
      accepted = ground arith;
    }
  ]

  -- Which attempt has reset the machine, and what has been refused before it.
  pub data Started (units : List ℕ) (s s' : S) : Type 0 where
    on_target :
        (target : ℕ)
        → argument units boot_key ≡ value (found target)
        → Scheduled s target s'
        → Started units s s'
    on_fallback :
        (target fallback : ℕ) (status : Status) (mid : S)
        → argument units boot_key ≡ value (found target)
        → argument units fallback_key ≡ value (found fallback)
        → fallback ≢ target
        → schedule_boot fw s target ≡ value (returned status mid)
        → is_error status ≡ true
        → Scheduled mid fallback s'
        → Started units s s'

  attempts-Started :
      (s : S) (units : List ℕ) (target : ℕ) (second : Argument) (s' : S)
      → argument units boot_key ≡ value (found target)
      → argument units fallback_key ≡ value second
      → run_arguments fw s (found target) second ≡ value (resetting s')
      → Started units s s'
  unfolding run_arguments try_fallback
  attempts-Started s units target invalid s' a b h = cc
  attempts-Started s units target missing s' a b h =
      elim (Access-cases (schedule_boot fw s target)) [
        | inl bad ↦ absurd (ground arith)
        | inr (returned status mid, e) ↦ absurd (ground arith)
        | inr (resetting mid, e) ↦
            on_target target a (schedule_boot-Scheduled s target s' (ground arith))
      ]
  attempts-Started s units target (found fallback) s' a b h =
      elim (Access-cases (schedule_boot fw s target)) [
        | inl bad ↦ absurd (ground arith)
        | inr (resetting mid, e) ↦
            on_target target a (schedule_boot-Scheduled s target s' (ground arith))
        | inr (returned status mid, e) ↦
            on_fallback target fallback status mid a b (ground arith) e (ground arith)
              (schedule_boot-Scheduled mid fallback s' (ground arith))
      ]

  -- If `efi_main` resets the machine, `boot=` gave a target, and either that entry was scheduled
  -- in the state at the start, or its attempt returned an error and another entry, given by
  -- `fallback=`, was scheduled in the state that the attempt left. Scheduled means: the entry's
  -- variable held an active option that is not blocked, and BootNext was accepted with its number.
  pub efi_main-Started :
      (s s' : S) (status : Status) (options : Bytes)
      → efi_main fw s status (some options) ≡ value (resetting s')
      → Started (chars options) s s'
  unfolding efi_main
  efi_main-Started s s' status options h = elim (Access-cases (argument (chars options) boot_key)) [
    | inl bad ↦ absurd (ground arith)
    | inr (missing, e) ↦ absurd (ground arith)
    | inr (invalid, e) ↦ absurd (ground arith)
    | inr (found target, e) ↦ elim (Access-cases (argument (chars options) fallback_key)) [
      | inl bad ↦ absurd (ground arith)
      | inr (second, e') ↦ attempts-Started s (chars options) target second s' e e' (ground arith)
    ]
  ]

module _ {S : Type 0} (fw : Firmware S) (next : S → Option Bytes) where
  -- An entry was scheduled, the reset came back, and the firmware refused to delete BootNext.
  pub record Stuck (s' : S) : Type 0 where
    pub entry : ℕ
    pub back : S
    pub refused : is_error (fw.set_next back []).0 ≡ true
    pub left : next s' ≡ some (entry % 256 ∷ entry / 256 % 256 ∷ [])

  -- what is left in BootNext when the program returns
  pub data Left (s : S) : S → Type 0 where
    as_before : {s' : S} → next s' ≡ next s → Left s s'
    deleted : {s' : S} → next s' ≡ none → Left s s'
    stuck : {s' : S} → Stuck s' → Left s s'

module _ {S : Type 0} (fw : Firmware S) (next : S → Option Bytes)
    (keeps : (s : S) (b : Bytes)
      → is_error (fw.set_next s b).0 ≡ true
      → next (fw.set_next s b).1 ≡ next s)
    (stores : (s : S) (c : ℕ) (b : Bytes)
      → is_error (fw.set_next s (c ∷ b)).0 ≡ false
      → next (fw.set_next s (c ∷ b)).1 ≡ some (c ∷ b))
    (deletes : (s : S) → is_error (fw.set_next s []).0 ≡ false → next (fw.set_next s []).1 ≡ none)
    (reset_keeps : (s s' : S) → fw.reset s ≡ some s' → next s' ≡ next s) where
  -- The call failed, and BootNext is in one of the three states.
  abbrev Leaves : S → Status → S → Type 0
  Leaves s status s' = (is_error status ≡ true) × Left fw next s s'

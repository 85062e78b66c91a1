-- ===== src/Uefi/RemoteBoot/Total.antt =====
-- `efi_main` ends, and reads no memory outside the variables and the load options.
use esp32_remote_boot.Prelude.{
  ℕ, ◌≡◌, refl, true, Option, none, some, List, inl, inr, Bytes, AllBytes, Access-cases, value,
  returns, arith,
}
use esp32_remote_boot.Uefi.LoadOption.{RbOption, parse_option, blocked}
use esp32_remote_boot.Uefi.LoadOption.Blocked.{blocked-any_loader}
use esp32_remote_boot.Uefi.LoadOption.Path.Nodes.{path_valid_iff}
use esp32_remote_boot.Uefi.LoadOption.Format.{
  parse_option-returns, parse_option_sound, parse_option-AllBytes,
}
use esp32_remote_boot.Uefi.RemoteBoot.{
  Status, Firmware, Argument, missing, invalid, found, argument, read_variable, check_entry,
  validate_entry, resetting, returned, schedule_boot, try_fallback, run_arguments, efi_main, chars,
  boot_key, fallback_key,
}
use esp32_remote_boot.Uefi.RemoteBoot.Arguments.{argument-returns}

-- A parsed option can be checked against the blocked names with no fault.
blocked-returns :
    (raw : Bytes) (o : RbOption)
    → AllBytes raw
    → parse_option (some raw) ≡ value (some o)
    → returns (blocked o) ≡ true
blocked-returns raw o b h =
    let (ok, layout) = parse_option_sound raw o b h in
    let (ns, nodes, enc) =
      (path_valid_iff o.path (parse_option-AllBytes raw o b layout)).0 ok.path_valid_is in
    rw (blocked-any_loader o ns nodes enc)

module _ {S : Type 0} (fw : Firmware S)
    (stores_bytes : (s : S) (name : List ℕ) (n : ℕ) → AllBytes (fw.fetch s name n).1) where
  check_entry-returns :
      (status : Status) (raw : Option Bytes)
      → ((b : Bytes) → raw ≡ some b → AllBytes b)
      → returns (check_entry fw status raw) ≡ true
  unfolding check_entry
  check_entry-returns status none h = unfold parse_option in refl
  check_entry-returns status (some raw) h = elim (Access-cases (parse_option (some raw))) [
    | inl bad ↦ ground (arith, parse_option-returns (some raw))
    | inr (none, parsed) ↦ ground arith
    | inr (some o, parsed) ↦ ground (arith, blocked-returns raw o (h raw refl) parsed)
  ]

  read_variable-AllBytes :
      (s : S) (name : List ℕ) (b : Bytes) → (read_variable fw s name).1 ≡ some b → AllBytes b
  unfolding read_variable
  read_variable-AllBytes s name b h =
      let (status, size) = fw.query s name in
      let e : (fw.fetch s name size).1 ≡ b = ground arith in rw e at (stores_bytes s name size)

  schedule_boot-returns : (s : S) (id : ℕ) → returns (schedule_boot fw s id) ≡ true
  unfolding schedule_boot validate_entry
  schedule_boot-returns s id =
      let (status, raw) = read_variable fw s (fw.entry_name id) in
      ground (arith, check_entry-returns status raw (read_variable-AllBytes s (fw.entry_name id)))

  attempts-returns :
      (s : S) (target second : Argument) → returns (run_arguments fw s target second) ≡ true
  unfolding run_arguments try_fallback
  attempts-returns s missing second = refl
  attempts-returns s invalid second = refl
  attempts-returns s (found target) invalid = refl
  attempts-returns s (found target) missing = elim (Access-cases (schedule_boot fw s target)) [
    | inl bad ↦ ground (arith, schedule_boot-returns s target)
    | inr (outcome, e) ↦ ground arith
  ]
  attempts-returns s (found target) (found fallback) =
      elim (Access-cases (schedule_boot fw s target)) [
        | inl bad ↦ ground (arith, schedule_boot-returns s target)
        | inr (resetting mid, e) ↦ ground arith
        | inr (returned status mid, e) ↦ ground (arith, schedule_boot-returns mid fallback)
      ]

  -- Where the firmware's variables hold bytes, `efi_main` ends in a reset or a return on any load
  -- options and any contents of the variables, and the checks of those contents read inside them.
  pub efi_main-returns :
      (s : S) (status : Status) (options : Option Bytes)
      → returns (efi_main fw s status options) ≡ true
  unfolding efi_main
  efi_main-returns s status none = refl
  efi_main-returns s status (some options) =
      elim (Access-cases (argument (chars options) boot_key)) [
        | inl bad ↦ ground (arith, argument-returns (chars options) boot_key)
        | inr (target, e) ↦ elim (Access-cases (argument (chars options) fallback_key)) [
          | inl bad ↦ ground (arith, argument-returns (chars options) fallback_key)
          | inr (second, e') ↦ ground (arith, attempts-returns s target second)
        ]
      ]

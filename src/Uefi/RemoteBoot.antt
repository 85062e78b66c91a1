-- ===== src/Uefi/RemoteBoot.antt =====
-- uefi/remote-boot/remote_boot.c. The firmware's services are a parameter; its state is passed on
-- from call to call. CHAR16 text is a list of units. `Print` is left out.
pub mod Arguments
pub mod Schedule
pub mod Total
use esp32_remote_boot.Prelude.{
  ℕ, zero, suc, ◌+◌, ◌-◌, ◌*◌, ◌/◌, ◌%◌, Bool, true, false, not, ◌&&◌, ◌||◌, Option, none, some,
  List, [], ◌∷◌, ltb, leb, ◌==◌, if◌then◌else◌, length, drop, Bytes, Access, fault, value, ◌>>=◌,
}
use esp32_remote_boot.Uefi.LoadOption.{RbOption, parse_option, blocked}

-- `EFI_STATUS`: a warning is not zero, and no error either.
pub data Status : Type 0 where
  success buffer_too_small bad_buffer_size out_of_resources access_denied : Status
  device_error invalid_parameter : Status
  warning other_error : ℕ → Status

-- `EFI_ERROR`
abbrev pub is_error : Status → Bool
is_error success = false
is_error (warning n) = false
is_error _ = true

-- The services that the program calls, over the firmware's state.
pub record Firmware (S : Type 0) : Type 0 where
  -- `SPrint` of "Boot%04X"
  pub entry_name : ℕ → List ℕ
  -- `GetVariable` with no buffer: its status and the size that it reports
  pub query : S → List ℕ → Status × ℕ
  -- `AllocatePool`
  pub allocates : S → ℕ → Bool
  -- `GetVariable` with a buffer of that size
  pub fetch : S → List ℕ → ℕ → Status × Bytes
  -- `SetVariable` of BootNext; no bytes delete the variable
  pub set_next : S → Bytes → Status × S
  -- `ResetSystem`: `none` if the machine resets, and the state if the call returns
  pub reset : S → Option S

unfoldable pub hex_digit : ℕ → Option ℕ
hex_digit c =
    if leb b'0' c && leb c b'9'
    then some (c - b'0')
    else if leb b'A' c && leb c b'F'
    then some (c - b'A' + 10)
    else if leb b'a' c && leb c b'f'
    then some (c - b'a' + 10)
    else none

hex_value : ℕ → List ℕ → Option ℕ
hex_value acc [] = some acc
hex_value acc (c ∷ cs) = elim (hex_digit c) [ none ↦ none | some d ↦ hex_value (acc * 16 + d) cs ]

-- `parse_hex`; -1 is `none`
unfoldable pub parse_hex : List ℕ → Option ℕ
unfolding hex_value
parse_hex p = if length p == 4 then hex_value 0 p else none

-- the results of `argument`: -1, -2 and a number
pub data Argument : Type 0 where
  missing invalid : Argument
  found : ℕ → Argument

abbrev pub is_blank : ℕ → Bool
is_blank c = c == b' ' || c == b'\t'

skip_blanks : List ℕ → List ℕ
skip_blanks [] = []
skip_blanks (c ∷ cs) = if is_blank c then skip_blanks cs else c ∷ cs

abbrev pub in_token : ℕ → Bool
in_token c = not (c == 0) && not (is_blank c)

-- the units from `off` up to `end`, and those behind them
token : List ℕ → List ℕ × List ℕ
token [] = ([], [])
token (c ∷ cs) = let (t, rest) = token cs in if in_token c then (c ∷ t, rest) else ([], c ∷ cs)

-- `end - off >= keylen && CompareMem(...) == 0`
is_prefix : List ℕ → List ℕ → Bool
is_prefix [] t = true
is_prefix (k ∷ ks) [] = false
is_prefix (k ∷ ks) (c ∷ cs) = c == k && is_prefix ks cs

-- `result` after a token that begins with the key; `invalid` returns at once
take_argument : Argument → Option ℕ → Argument
take_argument (found v) n = invalid
take_argument _ (some v) = found v
take_argument _ none = invalid

-- `result` after a token; only a token that begins with the key changes it
after_token : List ℕ → List ℕ → Argument → Argument
unfolding is_prefix take_argument
after_token key t result =
    if is_prefix key t then take_argument result (parse_hex (drop (length key) t)) else result

-- The rounds of `argument` on the units that are left.
argument_from : ℕ → List ℕ → List ℕ → Argument → Access Argument
argument_from zero p key result = fault
argument_from (suc fuel) p key result =
    let (t, rest) = token (skip_blanks p) in
    let result' = after_token key t result in
    let next = argument_from fuel rest key result' in
    elim t [ [] ↦ value result | _ ∷ _ ↦ elim result' [ invalid ↦ value invalid | _ ↦ next ] ]

-- `argument`
unfoldable pub argument : List ℕ → List ℕ → Access Argument
unfolding argument_from skip_blanks token after_token parse_hex hex_digit
argument p key = argument_from (suc (length p)) p key missing

module _ {S : Type 0} (fw : Firmware S) where
  -- `read_variable`; the buffer is `none` where `*value` stays NULL
  unfoldable pub read_variable : S → List ℕ → Status × Option Bytes
  read_variable s name =
      let (status, size) = fw.query s name in
      let (status', raw) = fw.fetch s name size in
      elim status [
        | buffer_too_small ↦
            if ltb 65536 size
            then (buffer_too_small, none)
            else if not (fw.allocates s size)
            then (out_of_resources, none)
            else (status', if is_error status' then none else some raw)
        | other ↦ (if is_error other then other else bad_buffer_size, none)
      ]

  -- the test of `validate_entry` on a variable that has been read
  check_entry : Status → Option Bytes → Access Status
  check_entry status raw = do
    parsed ← parse_option raw
    elim parsed [
      | none ↦ value access_denied
      | some o ↦
          if o.attributes % 2 == 0
          then value access_denied
          else (do b ← blocked o; value (if b then access_denied else status))
    ]

  -- `validate_entry`
  unfoldable pub validate_entry : S → ℕ → Access Status
  unfolding read_variable check_entry
  validate_entry s id =
      let (status, raw) = read_variable s (fw.entry_name id) in
      if is_error status then value status else check_entry status raw

-- The machine resets, or the program returns to the firmware.
pub data Outcome (S : Type 0) : Type 0 where
  resetting : S → Outcome S
  returned : Status → S → Outcome S

module _ {S : Type 0} (fw : Firmware S) where
  -- `schedule_boot` after the entry has been validated; `next` goes to memory low byte first
  set_and_reset : S → ℕ → Outcome S
  set_and_reset s id =
      let (status, s') = fw.set_next s (id % 256 ∷ id / 256 % 256 ∷ []) in
      if is_error status then returned status s' else elim (fw.reset s') [
        | none ↦ resetting s'
        | some s'' ↦ returned device_error (fw.set_next s'' []).1
      ]

  -- `schedule_boot`
  unfoldable pub schedule_boot : S → ℕ → Access (Outcome S)
  unfolding set_and_reset
  schedule_boot s id = do
    status ← validate_entry fw s id
    value (if is_error status then returned status s else set_and_reset s id)

  -- the second attempt of `efi_main`, after an error of the first
  try_fallback : ℕ → Argument → Outcome S → Access (Outcome S)
  try_fallback target (found fallback) (returned status s) =
      if is_error status && not (fallback == target)
      then schedule_boot s fallback
      else value (returned status s)
  try_fallback target _ outcome = value outcome

-- the units of the load options; an odd byte at the end is refused before this is called
abbrev pub chars : Bytes → List ℕ
chars (low ∷ high ∷ rest) = (low + 256 * high) ∷ chars rest
chars _ = []

abbrev pub boot_key : List ℕ
boot_key = b'b' ∷ b'o' ∷ b'o' ∷ b't' ∷ b'=' ∷ []

abbrev pub fallback_key : List ℕ
fallback_key = b'f' ∷ b'a' ∷ b'l' ∷ b'l' ∷ b'b' ∷ b'a' ∷ b'c' ∷ b'k' ∷ b'=' ∷ []

module _ {S : Type 0} (fw : Firmware S) where
  -- `efi_main` with its two arguments read
  run_arguments : S → Argument → Argument → Access (Outcome S)
  run_arguments s (found target) invalid = value (returned invalid_parameter s)
  run_arguments s (found target) fallback = do
    outcome ← schedule_boot fw s target
    try_fallback fw target fallback outcome
  run_arguments s _ fallback = value (returned invalid_parameter s)

  -- `efi_main`: the status of `HandleProtocol` and the load options, `none` for a null pointer
  unfoldable pub efi_main : S → Status → Option Bytes → Access (Outcome S)
  unfolding run_arguments try_fallback
  efi_main s status none = value (returned invalid_parameter s)
  efi_main s status (some options) =
      if is_error status || not (length options % 2 == 0) || ltb 2048 (length options)
      then value (returned invalid_parameter s)
      else do
        target ← argument (chars options) boot_key
        fallback ← argument (chars options) fallback_key
        run_arguments s target fallback

-- ===== src/Uefi/Tests.antt =====
-- Runs of the UEFI program on one load option and a small variable store, and the theorems there.
use esp32_remote_boot.Uefi.LoadOption.Text.{IsInfix, lowered, utf16_contains_iff}
use esp32_remote_boot.Prelude.{
  ℕ, ◌≡◌, ◌↔◌, refl, Bool, true, false, ◌||◌, Option, none, some, List, [], ◌∷◌, ◌==◌,
  if◌then◌else◌, Bytes, value, returns, arith,
}
use esp32_remote_boot.Uefi.LoadOption.{
  RbOption, u16, u32, path_valid, path_valid_from, description_end, parse_option, lower, matches_at,
  contains_from, utf16_contains, blocked_from, blocked, ipxe_text, remote_boot_text,
}
use esp32_remote_boot.Uefi.LoadOption.Blocked.{mentions, any_loader, blocked-any_loader}
use esp32_remote_boot.Uefi.LoadOption.Format.{IsOption, encode_option, parse_option_iff}
use esp32_remote_boot.Uefi.LoadOption.Path.{Node, path_valid-returns, unit, nul}
use esp32_remote_boot.Uefi.LoadOption.Path.Nodes.{IsEncoded, path_valid_iff}
use esp32_remote_boot.Uefi.RemoteBoot.{
  Status, success, buffer_too_small, device_error, other_error, Firmware, found, argument,
  resetting, returned, efi_main, chars, boot_key, validate_entry, schedule_boot,
}
use esp32_remote_boot.Prelude.Digits.{four_digits, digit_value}
use esp32_remote_boot.Uefi.RemoteBoot.Arguments.{
  AllTokens, last, more, spaced, select, chosen, argument-spaced,
}
use esp32_remote_boot.Uefi.RemoteBoot.Schedule.{Started, efi_main-Started}
use esp32_remote_boot.Uefi.RemoteBoot.Total.{efi_main-returns}

-- one file path node with the text "a", and the end node
abbrev demo_path : Bytes
demo_path = 4 ∷ 4 ∷ 8 ∷ 0 ∷ b'a' ∷ 0 ∷ 0 ∷ 0 ∷ 0x7f ∷ 0xff ∷ 4 ∷ 0 ∷ []

-- an active option with the description "OS"
abbrev demo_raw : Bytes
demo_raw =
    1 ∷ 0 ∷ 0 ∷ 0 ∷ 12 ∷ 0 ∷ b'O' ∷ 0 ∷ b'S' ∷ 0 ∷ 0 ∷ 0 ∷ 4 ∷ 4 ∷ 8 ∷ 0 ∷ b'a' ∷ 0 ∷ 0 ∷ 0 ∷ 0x7f
    ∷ 0xff ∷ 4 ∷ 0 ∷ []

abbrev demo_option : RbOption
demo_option = record {
  description = b'O' ∷ 0 ∷ b'S' ∷ 0 ∷ 0 ∷ 0 ∷ [];
  path = demo_path;
  optional = [];
  attributes = 1;
}

abbrev demo_node : Node
demo_node = record { kind = 4; subkind = 4; payload = b'a' ∷ 0 ∷ 0 ∷ 0 ∷ [] }

parse_demo : parse_option (some demo_raw) ≡ value (some demo_option)
unfolding parse_option path_valid path_valid_from description_end u16 u32
parse_demo = refl

-- entry 1 holds the option, and no other entry exists
abbrev is_demo_name : List ℕ → Bool
is_demo_name (n ∷ []) = n == 1
is_demo_name _ = false

-- the state is the value of BootNext
abbrev demo_fw : Firmware (Option Bytes)
demo_fw = record {
  entry_name = λ id. id ∷ [];
  query = λ s name. if is_demo_name name then (buffer_too_small, 24) else (other_error 14, 0);
  allocates = λ s n. true;
  fetch = λ s name n. (success, demo_raw);
  set_next = λ s b. (success, elim b [ [] ↦ none | x ∷ xs ↦ some (x ∷ xs) ]);
  reset = λ s. none;
}

-- the same store on a machine whose reset returns
abbrev stuck_fw : Firmware (Option Bytes)
stuck_fw = record demo_fw { reset = λ s. some s }

-- "boot=0001" in UTF-16
abbrev demo_options : Bytes
demo_options =
    b'b' ∷ 0 ∷ b'o' ∷ 0 ∷ b'o' ∷ 0 ∷ b't' ∷ 0 ∷ b'=' ∷ 0 ∷ b'0' ∷ 0 ∷ b'0' ∷ 0 ∷ b'0' ∷ 0 ∷ b'1' ∷ 0
    ∷ []

run_demo : efi_main demo_fw none success (some demo_options) ≡ value (resetting (some (1 ∷ 0 ∷ [])))
unfolding efi_main argument schedule_boot validate_entry parse_option path_valid path_valid_from
    description_end u16 u32 blocked blocked_from utf16_contains contains_from matches_at lower
run_demo = refl

-- the same machine, where the deletion is refused
abbrev jammed_set : Option Bytes → Bytes → Status × Option Bytes
jammed_set s [] = (device_error, s)
jammed_set s (c ∷ b) = (success, some (c ∷ b))

abbrev jammed_fw : Firmware (Option Bytes)
jammed_fw = record stuck_fw { set_next = jammed_set }

-- a reset that returns leaves BootNext deleted
run_stuck : efi_main stuck_fw none success (some demo_options) ≡ value (returned device_error none)
unfolding efi_main argument schedule_boot validate_entry parse_option path_valid path_valid_from
    description_end u16 u32 blocked blocked_from utf16_contains contains_from matches_at lower
run_stuck = refl

blocks_ipxe :
    blocked
      (record demo_option { description = b'i' ∷ 0 ∷ b'P' ∷ 0 ∷ b'X' ∷ 0 ∷ b'E' ∷ 0 ∷ 0 ∷ 0 ∷ [] })
    ≡ value true
unfolding blocked utf16_contains contains_from matches_at u16 lower
blocks_ipxe = refl

path_valid-returns_example : returns (path_valid demo_path) ≡ true
path_valid-returns_example = path_valid-returns demo_path

path_valid_iff_example : (path_valid demo_path ≡ value true) ↔ IsEncoded demo_path
path_valid_iff_example = path_valid_iff demo_path (omega arith)

parse_option_iff_example :
    (parse_option (some demo_raw) ≡ value (some demo_option))
    ↔ (IsOption demo_option × (demo_raw ≡ encode_option demo_option))
parse_option_iff_example = parse_option_iff demo_raw demo_option (omega arith) (omega arith)

blocked-any_loader_example :
    blocked demo_option
    ≡ value (
        mentions demo_option.description remote_boot_text
        || mentions demo_option.description ipxe_text
        || any_loader (demo_node ∷ []))
blocked-any_loader_example =
    blocked-any_loader demo_option (demo_node ∷ [])
      (record { inner = omega arith; sized = omega arith; text = λ a b. unit b'a' 0 nul }, tt) refl

abbrev demo_tokens : List (List ℕ)
demo_tokens = (b'b' ∷ b'o' ∷ b'o' ∷ b't' ∷ b'=' ∷ b'0' ∷ b'0' ∷ b'1' ∷ b'F' ∷ []) ∷ (b'x' ∷ []) ∷ []

AllTokens-demo_tokens : AllTokens demo_tokens
AllTokens-demo_tokens = (
  more refl (
      more refl
        (more refl (more refl (more refl (more refl (more refl (more refl (last refl)))))))),
  (last refl, tt),
)

argument-spaced_example :
    argument (spaced demo_tokens) boot_key ≡ value (chosen boot_key (select boot_key demo_tokens))
argument-spaced_example = argument-spaced demo_tokens boot_key AllTokens-demo_tokens

chosen_demo : chosen boot_key (select boot_key demo_tokens) ≡ found 31
unfolding select chosen four_digits digit_value
chosen_demo = refl

efi_main-Started_example : Started demo_fw (chars demo_options) none (some (1 ∷ 0 ∷ []))
efi_main-Started_example =
    efi_main-Started demo_fw none (some (1 ∷ 0 ∷ [])) success demo_options run_demo

efi_main-returns_example : returns (efi_main demo_fw none success (some demo_options)) ≡ true
efi_main-returns_example =
    efi_main-returns demo_fw (λ s name n. omega arith) none success (some demo_options)

utf16_contains_iff_example :
    (utf16_contains demo_option.description (b'o' ∷ b's' ∷ []) ≡ value true)
    ↔ IsInfix (b'o' ∷ b's' ∷ []) (lowered demo_option.description)
utf16_contains_iff_example = utf16_contains_iff demo_option.description b'o' (b's' ∷ [])

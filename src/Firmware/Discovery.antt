-- ===== src/Firmware/Discovery.antt =====
-- firmware/include/discovery_config.hpp: the blind mode of a PC, and the preparation that its agent
-- reports. A member of a JSON object is a `Field`; a number is one that fits in 32 bits without a sign.
use esp32_remote_boot.Prelude.{
  ℕ, ◌+◌, ◌*◌, Bool, true, false, not, ◌&&◌, ◌||◌, List, [], ltb, ◌==◌, if◌then◌else◌, length,
  Option, some,
}
use esp32_remote_boot.Firmware.Power.{same}
use esp32_remote_boot.Firmware.Names.{token_equal, lower_hex}

pub data Field : Type 0 where
  unbound other : Field
  flag : Bool → Field
  number : ℕ → Field
  text : List ℕ → Field

abbrev pub flag_or : Bool → Field → Bool
flag_or d (flag b) = b
flag_or d _ = d

abbrev pub number_or : ℕ → Field → ℕ
number_or d (number n) = n
number_or d _ = d

abbrev pub text_or_empty : Field → List ℕ
text_or_empty (text s) = s
text_or_empty _ = []

abbrev pub is_unbound : Field → Bool
is_unbound unbound = true
is_unbound _ = false

abbrev pub is_flag : Field → Bool
is_flag (flag _) = true
is_flag _ = false

abbrev pub is_number : Field → Bool
is_number (number _) = true
is_number _ = false

-- the members of a PC that the functions use
pub record Pc : Type 0 where
  pub pc_id : Field
  pub blind_mode : Field
  pub mode_revision : Field
  pub boot_mode_revision : Field
  pub boot_blind_mode : Field
  pub boot_ipxe : Field
  pub boot_loader : Field

-- `discoveryHex`, for a text that is not null
unfoldable pub discovery_hex : List ℕ → ℕ → Bool
discovery_hex s bytes = length s == bytes * 2 && lower_hex s

-- `discoveryPcValid`
unfoldable pub pc_valid : Pc → Bool
pc_valid pc =
    (is_unbound pc.blind_mode || is_flag pc.blind_mode)
    && (is_unbound pc.mode_revision
        || (is_number pc.mode_revision && ltb 0 (number_or 0 pc.mode_revision)))
    && (is_unbound pc.boot_mode_revision || is_number pc.boot_mode_revision)
    && (is_unbound pc.boot_blind_mode || is_flag pc.boot_blind_mode)

-- the four tests of `discoveryPcDefaults`
unfoldable pub fill_defaults : Pc → Pc
fill_defaults pc = record pc {
  blind_mode = if is_unbound pc.blind_mode then flag false else pc.blind_mode;
  mode_revision = if is_unbound pc.mode_revision then number 1 else pc.mode_revision;
  boot_mode_revision = if is_unbound pc.boot_mode_revision then number 0 else pc.boot_mode_revision;
  boot_blind_mode = if is_unbound pc.boot_blind_mode then flag false else pc.boot_blind_mode;
}

-- `discoveryPcDefaults`
unfoldable pub pc_defaults : Pc → Bool × Pc
pc_defaults pc = (pc_valid (fill_defaults pc), fill_defaults pc)

-- `discoveryPatch` with a mode that is asked for
unfoldable pub patch_mode : Pc → Bool → Bool → Bool × Pc
patch_mode pc desired identity_ready =
    let previous = flag_or false pc.blind_mode in
    let revision = number_or 1 pc.mode_revision in
    let changed = (desired && not previous) || (previous && not desired) in
    if desired && not identity_ready
    then (false, pc)
    else if not changed
    then (true, record pc { blind_mode = flag desired })
    else if revision == 4294967295
    then (false, pc)
    else (true, record pc { mode_revision = number (revision + 1); blind_mode = flag desired })

-- `discoveryPatch`, with the member "blind_mode" of its input
unfoldable pub discovery_patch : Pc → Field → Bool → Bool × Pc
discovery_patch pc unbound ready = (true, pc)
discovery_patch pc (flag desired) ready = patch_mode pc desired ready
discovery_patch pc (number _) ready = (false, pc)
discovery_patch pc (text _) ready = (false, pc)
discovery_patch pc other ready = (false, pc)

-- the members of an agent
pub record Agent : Type 0 where
  pub agent_pc : Field
  pub agent_id : Field
  pub token : Field
  pub prepared_revision : Field
  pub prepared_blind : Field
  pub prepared_version : Field
  pub boot_prepared : Field
  pub agent_ipxe : Field
  pub agent_loader : Field

-- the members of the report
pub record Report : Type 0 where
  pub report_pc : Field
  pub report_agent : Field
  pub revision : Field
  pub blind : Field
  pub version : Field
  pub boot : Field
  pub ipxe : Field
  pub loader : Field

-- `Preparation`
pub data Preparation : Type 0 where
  invalid stale unchanged changed : Preparation

-- the first test of `discoveryPreparation`, for objects that are not null
unfoldable pub report_valid : Pc → Agent → Report → Option (List ℕ) → Bool
report_valid pc agent input token =
    token_equal token (some (text_or_empty agent.token))
    && same (text_or_empty input.report_pc) (text_or_empty pc.pc_id)
    && same (text_or_empty input.report_pc) (text_or_empty agent.agent_pc)
    && same (text_or_empty input.report_agent) (text_or_empty agent.agent_id)
    && ltb 0 (number_or 0 input.revision)
    && is_flag input.blind
    && number_or 0 input.version == 1
    && is_flag input.boot

abbrev pub same_flag : Bool → Bool → Bool
same_flag true b = b
same_flag false b = not b

-- what `changed` becomes
unfoldable pub differs : Pc → Agent → Report → Bool
differs pc agent input =
    let revision = number_or 0 input.revision in
    let blind = flag_or false input.blind in
    let boot = flag_or false input.boot in
    let ipxe = text_or_empty input.ipxe in
    let loader = text_or_empty input.loader in
    not (number_or 0 agent.prepared_revision == revision)
    || not (is_flag agent.prepared_blind)
    || not (same_flag (flag_or false agent.prepared_blind) blind)
    || not (number_or 0 agent.prepared_version == 1)
    || not (is_flag agent.boot_prepared)
    || not (same_flag (flag_or false agent.boot_prepared) boot)
    || (boot
        && (not (number_or 0 pc.boot_mode_revision == revision)
            || not (same_flag (flag_or false pc.boot_blind_mode) blind)
            || not (same (text_or_empty pc.boot_ipxe) ipxe)
            || not (same (text_or_empty pc.boot_loader) loader)
            || not (same (text_or_empty agent.agent_ipxe) ipxe)
            || not (same (text_or_empty agent.agent_loader) loader)))

-- what is written when `apply` is set
unfoldable pub apply_report : Pc → Agent → Report → Pc × Agent
apply_report pc agent input =
    let revision = number (number_or 0 input.revision) in
    let blind = flag (flag_or false input.blind) in
    let ipxe = text (text_or_empty input.ipxe) in
    let loader = text (text_or_empty input.loader) in
    let boot = flag_or false input.boot in
    let agent' : Agent = record agent {
      prepared_revision = revision;
      prepared_blind = blind;
      prepared_version = number 1;
      boot_prepared = flag boot;
    } in
    if boot
    then (
      record pc {
        boot_mode_revision = revision;
        boot_blind_mode = blind;
        boot_ipxe = ipxe;
        boot_loader = loader;
      },
      record agent' { agent_ipxe = ipxe; agent_loader = loader },
    )
    else (pc, agent')

-- `discoveryPreparation`
unfoldable pub preparation : Pc → Agent → Report → Option (List ℕ) → Bool → Preparation × Pc × Agent
preparation pc agent input token apply =
    if not (report_valid pc agent input token)
    then (invalid, pc, agent)
    else if not (number_or 0 input.revision == number_or 1 pc.mode_revision)
        || not (same_flag (flag_or false input.blind) (flag_or false pc.blind_mode))
    then (stale, pc, agent)
    else if flag_or false input.boot
        && (not (discovery_hex (text_or_empty input.ipxe) 32)
            || not (discovery_hex (text_or_empty input.loader) 32))
    then (invalid, pc, agent)
    else if not (differs pc agent input)
    then (unchanged, pc, agent)
    else if apply
    then (changed, (apply_report pc agent input).0, (apply_report pc agent input).1)
    else (changed, pc, agent)

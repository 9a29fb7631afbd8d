-- ===== src/Drives/Config.antt =====
-- The checks of packages/fold-drives/src/state.ts and createDriveSystem.
use super_brain.Prelude.{
  Bool, ◌||◌, not, Option, none, some, List, [], ◌∷◌, get_or, is_some, if◌then◌else◌, Result, ok,
  err, ◌>>◌, throw_if,
}
use super_brain.Prelude.Text.{Text}
use super_brain.Prelude.Dict.{Dict, get, put}
use super_brain.Fold.Json.{Numbers, le, math_min, math_max}
use super_brain.Drives.Types.{
  Arithmetic, SatiationBinding, DriftFunction, linear, exponential, custom, Pursuable, DriveConfig,
  DriveState, WearConfig, WearOptions, DriveSystemConfig, DriveSystemState, DriveError, empty_text,
  not_finite, out_of_unit, bad_thresholds, bad_horizon, bad_half_life, bad_tier, negative_threshold,
  bad_tier_count, duplicate_drive,
}

-- requireNonEmpty, with the test that a text has no character but whitespace
unfoldable pub require_non_empty : (is_blank : Text → Bool) → Text → Result DriveError (Unit {0})
require_non_empty is_blank value = throw_if (is_blank value) empty_text

module _ {N : Type 0} ⦃number : Numbers N⦄ ⦃arithmetic : Arithmetic N⦄ where
  open number use {zero, one, lt, finite}

  -- DEFAULT_WEAR_CONFIG
  abbrev pub default_wear_config : WearConfig N
  default_wear_config = record {
    critical_threshold = arithmetic.tenths 2;
    recovery_threshold = arithmetic.tenths 4;
    tier1_saturation_ms = arithmetic.natural 86_400_000;
    recovery_horizon_ms = arithmetic.natural 43_200_000;
  }

  unfoldable pub require_finite : N → Result DriveError (Unit {0})
  require_finite value = throw_if (not (finite value)) not_finite

  unfoldable pub require_unit : N → Result DriveError (Unit {0})
  unfolding require_finite
  require_unit value = require_finite value >> throw_if (lt value zero || lt one value) out_of_unit

  unfoldable pub clamp01 : N → N
  clamp01 value = math_max zero (math_min one value)

  unfoldable pub validate_wear_config : WearConfig N → Result DriveError (Unit {0})
  unfolding require_unit require_finite
  validate_wear_config config =
      require_unit config.critical_threshold
      >> require_unit config.recovery_threshold
      >> throw_if (le config.recovery_threshold config.critical_threshold) bad_thresholds
      >> require_finite config.tier1_saturation_ms
      >> require_finite config.recovery_horizon_ms
      >> throw_if (le config.tier1_saturation_ms zero || le config.recovery_horizon_ms zero)
          bad_horizon

  unfoldable pub validate_drift : DriftFunction N → Result DriveError (Unit {0})
  unfolding require_finite require_non_empty
  validate_drift (linear rate_per_hour) = require_finite rate_per_hour
  validate_drift (exponential half_life_hours) =
      require_finite half_life_hours >> throw_if (le half_life_hours zero) bad_half_life
  validate_drift (custom id compute) = require_non_empty arithmetic.is_blank id

  -- The loop over `config.satiatedBy`
  unfoldable pub validate_bindings : List (SatiationBinding N) → Result DriveError (Unit {0})
  unfolding require_non_empty require_unit
  validate_bindings [] = ok tt
  validate_bindings (binding ∷ bindings) =
      require_non_empty arithmetic.is_blank binding.matches.entry_type
      >> require_unit binding.amount
      >> validate_bindings bindings

  unfoldable pub validate_threshold : Option N → Result DriveError (Unit {0})
  unfolding require_finite
  validate_threshold none = ok tt
  validate_threshold (some threshold) =
      require_finite threshold >> throw_if (lt threshold zero) negative_threshold

  -- The loop over `config.pursuableBy`
  unfoldable pub validate_pursuables : List (Pursuable N) → Result DriveError (Unit {0})
  unfolding require_non_empty validate_threshold
  validate_pursuables [] = ok tt
  validate_pursuables (pursuable ∷ pursuables) =
      require_non_empty arithmetic.is_blank pursuable.satisfier.kind
      >> require_non_empty arithmetic.is_blank pursuable.satisfier.ref
      >> validate_threshold pursuable.threshold
      >> validate_pursuables pursuables

  unfoldable pub validate_drive : DriveConfig N → (tier_count : N) → Result DriveError (Unit {0})
  unfolding require_non_empty require_unit validate_drift validate_bindings validate_pursuables
  validate_drive config tier_count =
      let drive = config.definition in
      require_non_empty arithmetic.is_blank drive.id
      >> require_non_empty arithmetic.is_blank drive.name
      >> throw_if
          (not (arithmetic.is_integer drive.tier) || lt drive.tier one || lt tier_count drive.tier)
          bad_tier
      >> require_unit drive.weight
      >> require_unit config.initial_level
      >> require_unit drive.target
      >> validate_drift drive.drift
      >> validate_bindings drive.satiated_by
      >> validate_pursuables (get_or drive.pursuable_by [])

  -- The loop of createDriveSystem over the drives
  unfoldable pub add_drives :
      (tier_count : N)
      → List (DriveConfig N)
      → Dict (DriveState N)
      → Result DriveError (Dict (DriveState N))
  unfolding validate_drive
  add_drives tier_count [] drives = ok drives
  add_drives tier_count (config ∷ configs) drives = elim (validate_drive config tier_count) [
    | err e ↦ err e
    | ok _ ↦
        if is_some (get config.definition.id drives)
        then err duplicate_drive
        else add_drives tier_count configs (
            put config.definition.id
              (record { definition = config.definition; level = config.initial_level }) drives)
  ]

  -- `{ ...DEFAULT_WEAR_CONFIG, ...config.wear }`
  unfoldable pub wear_config_of : WearOptions N → WearConfig N
  wear_config_of wear = record {
    critical_threshold = get_or wear.critical_threshold default_wear_config.critical_threshold;
    recovery_threshold = get_or wear.recovery_threshold default_wear_config.recovery_threshold;
    tier1_saturation_ms = get_or wear.tier1_saturation_ms default_wear_config.tier1_saturation_ms;
    recovery_horizon_ms = get_or wear.recovery_horizon_ms default_wear_config.recovery_horizon_ms;
  }

  -- createDriveSystem
  unfoldable pub create_drive_system : DriveSystemConfig N → Result DriveError (DriveSystemState N)
  unfolding require_non_empty validate_wear_config add_drives wear_config_of
  create_drive_system config =
      let wear_config = wear_config_of config.wear in
      elim (require_non_empty arithmetic.is_blank config.actor_id
        >> throw_if (not (arithmetic.is_integer config.tier_count) || lt config.tier_count one)
            bad_tier_count
        >> validate_wear_config wear_config) [
          | err e ↦ err e
          | ok _ ↦ elim (add_drives config.tier_count config.drives []) [
            | err e ↦ err e
            | ok drives ↦ ok (record {
              actor_id = config.actor_id;
              tier_count = config.tier_count;
              elapsed_ms = zero;
              drives = drives;
              wear = record { per_drive = []; chronic_load = zero };
              wear_config = wear_config;
            })
          ]
        ]

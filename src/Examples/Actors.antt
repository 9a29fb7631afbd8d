-- ===== src/Examples/Actors.antt =====
-- Drives of an actor at concrete inputs. Numbers are integers in units of 1e-9.
use super_brain.Prelude.{
  ◌*◌, ◌/◌, ◌%◌, ◌==◌, ◌≡◌, inl, refl, Bool, true, false, not, none, List, [], ◌∷◌, ok,
}
use super_brain.Prelude.Int.{ℤ, pos, minus}
use super_brain.Prelude.Text.{text}
use super_brain.Prelude.Dict.{get, put}
use super_brain.Fold.Schema.Validity.{non_empty}
use super_brain.Drives.Types.{
  Arithmetic, of_event, DriveEntry, custom, DriveDefinition, DriveSystemConfig, DriveSystemState,
}
use super_brain.Drives.Config.{
  create_drive_system, require_unit, require_finite, require_non_empty, validate_wear_config,
  default_wear_config,
}
use super_brain.Drives.Snapshot.{snapshot}
use super_brain.Drives.Levels.{units}
use super_brain.Drives.Runs.{Operation, advance_by, integrate_entry, perform_all, perform_all-units}
use super_brain.Examples.Samples.{sample_numbers}

abbrev scaled : ℤ → ℤ → ℤ
scaled (pos a) (pos b) = pos (a * b / 1_000_000_000)
scaled _ _ = pos 0

abbrev quotient : ℤ → ℤ → ℤ
quotient (pos a) (pos b) = pos (a * 1_000_000_000 / b)
quotient _ _ = pos 0

abbrev is_whole : ℤ → Bool
is_whole (pos a) = a % 1_000_000_000 == 0
is_whole _ = false

instance abbrev sample_arithmetic : Arithmetic ℤ
sample_arithmetic = record {
  mul = scaled;
  div = quotient;
  pow = λ a b. a;
  is_integer = is_whole;
  natural = λ n. pos (n * 1_000_000_000);
  tenths = λ n. pos (n * 100_000_000);
  is_blank = λ s. not (non_empty s);
  zero_lt_one = refl;
  finite_zero = refl;
  finite_one = refl;
  finite_number = λ a h. refl;
  between_finite = λ a h k. refl;
  lt_number = λ a b h. refl;
  add_number = λ a b h k. refl;
}

abbrev entry_of : DriveEntry ℤ
entry_of = record { kind = of_event; entry_type = text "slept"; payload = none }

-- A drive that falls by 0.1 in every step, and rises by 0.9 with sleep.
abbrev rest : DriveDefinition ℤ
rest = record {
  id = text "rest";
  name = text "Rest";
  description = [];
  tier = pos 1_000_000_000;
  weight = pos 500_000_000;
  target = pos 800_000_000;
  drift = custom (text "tire") (λ current dt. minus current (pos 100_000_000));
  satiated_by =
      record {
        matches = record { kind = of_event; entry_type = text "slept"; predicate = none };
        amount = pos 900_000_000;
      }
      ∷ [];
  pursuable_by = none;
}

abbrev an_actor : DriveSystemConfig ℤ
an_actor = record {
  actor_id = text "ann";
  tier_count = pos 1_000_000_000;
  drives = record { definition = rest; initial_level = pos 300_000_000 } ∷ [];
  wear = record {
    critical_threshold = none;
    recovery_threshold = none;
    tier1_saturation_ms = none;
    recovery_horizon_ms = none;
  };
}

abbrev created : DriveSystemState ℤ
created = record {
  actor_id = text "ann";
  tier_count = pos 1_000_000_000;
  elapsed_ms = pos 0;
  drives = (text "rest", record { definition = rest; level = pos 300_000_000 }) ∷ [];
  wear = record { per_drive = []; chronic_load = pos 0 };
  wear_config = default_wear_config;
}

an_actor-created : create_drive_system an_actor ≡ ok created
unfolding create_drive_system require_unit require_finite require_non_empty validate_wear_config get
    put
an_actor-created = refl

abbrev a_day : List (Operation ℤ)
a_day =
    advance_by (pos 3_600_000_000_000_000)
    ∷ advance_by (pos 3_600_000_000_000_000)
    ∷ integrate_entry entry_of none
    ∷ []

perform_all-units_example : units (perform_all a_day created).drives ≡ true
unfolding snapshot
perform_all-units_example =
    perform_all-units an_actor (snapshot created) created a_day (inl an_actor-created)

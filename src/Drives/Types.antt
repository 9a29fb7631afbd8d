-- ===== src/Drives/Types.antt =====
-- The types of packages/fold-drives/src/types.ts that its state.ts uses, and the arithmetic of numbers
-- that it needs.
use super_brain.Prelude.{ℕ, ◌≡◌, Bool, true, false, Option, List}
use super_brain.Prelude.Text.{Text}
use super_brain.Prelude.Dict.{Dict}
use super_brain.Fold.Json.{Json, Numbers}

-- `*`, `/`, `**`, `Number.isInteger`, the doubles of natural numbers and of tenths, and
-- `String.prototype.trim` to nothing; with facts about IEEE 754 doubles.
pub record Arithmetic (N : Type 0) ⦃number : Numbers N⦄ : Type 0 where
  pub mul : N → N → N
  pub div : N → N → N
  pub pow : N → N → N
  pub is_integer : N → Bool
  pub natural : ℕ → N
  pub tenths : ℕ → N
  pub is_blank : Text → Bool
  pub zero_lt_one : number.lt number.zero number.one ≡ true
  pub finite_zero : number.finite number.zero ≡ true
  pub finite_one : number.finite number.one ≡ true
  -- A finite number is a number.
  pub finite_number : (a : N) → number.finite a ≡ true → number.is_nan a ≡ false
  -- What lies between 0 and 1 is finite.
  pub between_finite :
      (a : N)
      → number.lt number.zero a ≡ true
      → number.lt a number.one ≡ true
      → number.finite a ≡ true
  -- A comparison with NaN is false.
  pub lt_number : (a b : N) → number.lt a b ≡ true → number.is_nan b ≡ false
  -- A sum with a finite number is NaN only if the other number is.
  pub add_number :
      (a b : N)
      → number.finite a ≡ true
      → number.is_nan b ≡ false
      → number.is_nan (number.add a b) ≡ false

pub data EntryKind : Type 0 where
  of_event of_action : EntryKind

pub record DriveEntry (N : Type 0) : Type 0 where
  pub kind : EntryKind
  pub entry_type : Text
  pub payload : Option (Dict (Json N))

pub record DriveEntryMatcher (N : Type 0) : Type 0 where
  pub kind : EntryKind
  pub entry_type : Text
  pub predicate : Option (DriveEntry N → Bool)

pub record SatiationBinding (N : Type 0) : Type 0 where
  pub matches : DriveEntryMatcher N
  pub amount : N

pub data DriftFunction (N : Type 0) : Type 0 where
  linear : (rate_per_hour : N) → DriftFunction N
  exponential : (half_life_hours : N) → DriftFunction N
  custom : (id : Text) → (compute : N → N → N) → DriftFunction N

pub record Satisfier (N : Type 0) : Type 0 where
  pub kind : Text
  pub ref : Text
  pub params : Option (Dict (Json N))

pub record Pursuable (N : Type 0) : Type 0 where
  pub satisfier : Satisfier N
  pub threshold : Option N
  pub hint : Option Text

-- A drive without its level.
pub record DriveDefinition (N : Type 0) : Type 0 where
  pub id : Text
  pub name : Text
  pub description : Text
  pub tier : N
  pub weight : N
  pub target : N
  pub drift : DriftFunction N
  pub satiated_by : List (SatiationBinding N)
  pub pursuable_by : Option (List (Pursuable N))

pub record DriveConfig (N : Type 0) : Type 0 where
  pub definition : DriveDefinition N
  pub initial_level : N

pub record DriveState (N : Type 0) : Type 0 where
  pub definition : DriveDefinition N
  pub level : N

pub record WearConfig (N : Type 0) : Type 0 where
  pub critical_threshold : N
  pub recovery_threshold : N
  pub tier1_saturation_ms : N
  pub recovery_horizon_ms : N

-- `Partial<WearConfig>`
pub record WearOptions (N : Type 0) : Type 0 where
  pub critical_threshold : Option N
  pub recovery_threshold : Option N
  pub tier1_saturation_ms : Option N
  pub recovery_horizon_ms : Option N

pub data WearZone : Type 0 where
  below between above : WearZone

pub record ChronicTracker (N : Type 0) : Type 0 where
  pub sustained_below_ms : N
  pub sustained_above_ms : N

pub record WearState (N : Type 0) : Type 0 where
  pub per_drive : Dict (ChronicTracker N)
  pub chronic_load : N

pub record DriveSystemConfig (N : Type 0) : Type 0 where
  pub actor_id : Text
  pub tier_count : N
  pub drives : List (DriveConfig N)
  pub wear : WearOptions N

pub record DriveSystemState (N : Type 0) : Type 0 where
  pub actor_id : Text
  pub tier_count : N
  pub elapsed_ms : N
  pub drives : Dict (DriveState N)
  pub wear : WearState N
  pub wear_config : WearConfig N

pub record DriveSatiation (N : Type 0) : Type 0 where
  pub at_ms : N
  pub drive_id : Text
  pub before : N
  pub after : N
  pub requested : N
  pub entry : DriveEntry N
  pub cause_event_id : Option Text

pub record WearTransition (N : Type 0) : Type 0 where
  pub at_ms : N
  pub drive_id : Text
  pub from_zone : WearZone
  pub to_zone : WearZone
  pub level : N
  pub cause_event_id : Option Text

pub record DriveSummary (N : Type 0) : Type 0 where
  pub id : Text
  pub name : Text
  pub tier : N
  pub level : N
  pub target : N
  pub pressure : N
  pub chronic : Bool

pub record DriveSystemSnapshot (N : Type 0) : Type 0 where
  pub actor_id : Text
  pub elapsed_ms : N
  pub levels : Dict N
  pub wear : WearState N

pub data DriveError : Type 0 where
  empty_text not_finite out_of_unit bad_thresholds bad_horizon bad_half_life bad_tier
        negative_threshold bad_tier_count duplicate_drive bad_drift actor_mismatch bad_elapsed
        ids_mismatch missing_drive unknown_drive invalid_tracker :
      DriveError

-- ===== src/Drives/Snapshot.antt =====
-- packages/fold-drives/src/state.ts: the summary of a system, its snapshots, and how one is restored.
use Prim.Native.Nat.{Ordering}
use super_brain.Prelude.{
  false, ◌||◌, ◌&&◌, not, none, some, List, [], ◌∷◌, is_some, map, if◌then◌else◌, Result, ok, err,
}
use super_brain.Prelude.Text.{compare_text}
use super_brain.Prelude.Dict.{Dict, get, put, keys}
use super_brain.Prelude.Sort.{sort_by}
use super_brain.Prelude.Text.{◌===◌}
use super_brain.Fold.Json.{Numbers}
use super_brain.Drives.Types.{
  Arithmetic, DriveState, ChronicTracker, DriveSystemConfig, DriveSystemState, DriveSummary,
  DriveSystemSnapshot, DriveError, actor_mismatch, bad_elapsed, ids_mismatch, missing_drive,
  unknown_drive, invalid_tracker,
}
use super_brain.Drives.Config.{require_unit, create_drive_system}
use super_brain.Drives.System.{same_ids, weighted_pressure}

module _ {N : Type 0} ⦃number : Numbers N⦄ ⦃arithmetic : Arithmetic N⦄ where
  open number use {zero, lt, sub, eq, is_nan, finite}

  unfoldable pub summary_of : DriveSystemState N → DriveState N → DriveSummary N
  unfolding weighted_pressure
  summary_of state drive = record {
    id = drive.definition.id;
    name = drive.definition.name;
    tier = drive.definition.tier;
    level = drive.level;
    target = drive.definition.target;
    pressure = weighted_pressure drive;
    chronic = elim (get drive.definition.id state.wear.per_drive) [
      | none ↦ false
      | some tracker ↦
          lt zero tracker.sustained_below_ms
          && lt tracker.sustained_above_ms state.wear_config.recovery_horizon_ms
    ];
  }

  -- `right.pressure - left.pressure || compareCodeUnits(left.id, right.id)`
  unfoldable pub compare_summaries : DriveSummary N → DriveSummary N → Ordering
  compare_summaries left right =
      let difference = sub right.pressure left.pressure in
      if is_nan difference || eq difference zero
      then compare_text left.id right.id
      else if lt difference zero
      then Ordering.lt
      else Ordering.gt

  -- summarizeDrives
  unfoldable pub summarize : DriveSystemState N → List (DriveSummary N)
  unfolding summary_of compare_summaries
  summarize state = sort_by compare_summaries (map (λ e. summary_of state e.1) state.drives)

  -- snapshotDriveSystem
  unfoldable pub snapshot : DriveSystemState N → DriveSystemSnapshot N
  snapshot state = record {
    actor_id = state.actor_id;
    elapsed_ms = state.elapsed_ms;
    levels = map (λ e. (e.0, e.1.level)) state.drives;
    wear = state.wear;
  }

  -- The loop of restoreDriveSystem over the drives
  unfoldable pub restore_levels :
      (levels : Dict N) → Dict (DriveState N) → Result DriveError (Dict (DriveState N))
  unfolding require_unit
  restore_levels levels [] = ok []
  restore_levels levels ((id, drive) ∷ drives) = elim (get id levels) [
    | none ↦ err missing_drive
    | some level ↦ elim (require_unit level) [
      | err e ↦ err e
      | ok _ ↦ elim (restore_levels levels drives) [
        | err e ↦ err e
        | ok rest ↦ ok ((id, record drive { level = level }) ∷ rest)
      ]
    ]
  ]

  -- Its loop over the trackers
  unfoldable pub restore_trackers :
      Dict (DriveState N)
      → (trackers : Dict (ChronicTracker N)) → Dict (ChronicTracker N)
      → Result DriveError (Dict (ChronicTracker N))
  restore_trackers drives trackers [] = ok trackers
  restore_trackers drives trackers ((id, tracker) ∷ entries) =
      if is_some (get id drives)
      then if not (finite tracker.sustained_below_ms)
          || not (finite tracker.sustained_above_ms)
          || lt tracker.sustained_below_ms zero
          || lt tracker.sustained_above_ms zero
        then err invalid_tracker
        else restore_trackers drives (put id tracker trackers) entries
      else err unknown_drive

  -- restoreDriveSystem, from `initial`
  unfoldable pub restore_from :
      DriveSystemState N → DriveSystemSnapshot N → Result DriveError (DriveSystemState N)
  unfolding restore_levels restore_trackers require_unit
  restore_from initial taken =
      if not (taken.actor_id === initial.actor_id)
      then err actor_mismatch
      else if not (finite taken.elapsed_ms) || lt taken.elapsed_ms zero
      then err bad_elapsed
      else if not (
          same_ids (sort_by compare_text (keys taken.levels))
            (sort_by compare_text (keys initial.drives)))
      then err ids_mismatch
      else (elim (restore_levels taken.levels initial.drives) [
        | err e ↦ err e
        | ok drives ↦ elim (require_unit taken.wear.chronic_load) [
          | err e ↦ err e
          | ok _ ↦ elim (restore_trackers drives [] taken.wear.per_drive) [
            | err e ↦ err e
            | ok trackers ↦ ok (record initial {
              elapsed_ms = taken.elapsed_ms;
              drives = drives;
              wear = record { per_drive = trackers; chronic_load = taken.wear.chronic_load };
            })
          ]
        ]
      ])

  -- restoreDriveSystem
  unfoldable pub restore :
      DriveSystemConfig N → DriveSystemSnapshot N → Result DriveError (DriveSystemState N)
  unfolding create_drive_system restore_from
  restore config taken = elim (create_drive_system config) [
    | err e ↦ err e
    | ok initial ↦ restore_from initial taken
  ]

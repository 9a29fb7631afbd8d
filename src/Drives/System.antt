-- ===== src/Drives/System.antt =====
-- packages/fold-drives/src/state.ts: drift, wear, satiation, the summary, and snapshots of a system.
use super_brain.Prelude.{
  Bool, true, false, ◌||◌, ◌&&◌, Option, none, some, List, [], ◌∷◌, get_or, map, if◌then◌else◌,
  Result, ok, err,
}
use super_brain.Prelude.Text.{Text, ◌===◌}
use super_brain.Prelude.Dict.{Dict, get}
use super_brain.Fold.Json.{Numbers, le, math_min, math_max}
use super_brain.Drives.Types.{
  Arithmetic, EntryKind, of_event, of_action, DriveEntry, DriveEntryMatcher, SatiationBinding,
  DriftFunction, linear, exponential, custom, DriveState, WearConfig, WearZone, below, between,
  above, ChronicTracker, DriveSystemState, DriveSatiation, WearTransition, DriveError, empty_text,
  not_finite, bad_drift,
}
use super_brain.Drives.Config.{clamp01}

abbrev pub same_zone : WearZone → WearZone → Bool
same_zone below below = true
same_zone between between = true
same_zone above above = true
same_zone _ _ = false

abbrev pub same_kind : EntryKind → EntryKind → Bool
same_kind of_event of_event = true
same_kind of_action of_action = true
same_kind _ _ = false

abbrev pub same_ids : List Text → List Text → Bool
same_ids [] [] = true
same_ids (a ∷ as') (b ∷ bs) = a === b && same_ids as' bs
same_ids _ _ = false

-- `causeEventId !== undefined && causeEventId.trim().length === 0`
abbrev pub is_blank_cause : (is_blank : Text → Bool) → Option Text → Bool
is_blank_cause is_blank none = false
is_blank_cause is_blank (some id) = is_blank id

module _ {N : Type 0} ⦃number : Numbers N⦄ ⦃arithmetic : Arithmetic N⦄ where
  open number use {zero, one, lt, add, sub, finite}
  open arithmetic use {mul, div, pow, natural, tenths}

  -- applyDrift, of the number that the drift computes
  unfoldable pub drifted : DriftFunction N → (current dt_ms : N) → N
  drifted (linear rate_per_hour) current dt_ms =
      add current (mul rate_per_hour (div dt_ms (natural 3_600_000)))
  drifted (exponential half_life_hours) current dt_ms =
      mul current (pow (tenths 5) (div (div dt_ms (natural 3_600_000)) half_life_hours))
  drifted (custom id compute) current dt_ms = compute current dt_ms

  unfoldable pub apply_drift : DriftFunction N → (current dt_ms : N) → Result DriveError N
  unfolding drifted clamp01
  apply_drift drift current dt_ms =
      if le dt_ms zero
      then ok current
      else (let next = drifted drift current dt_ms in
          if finite next then ok (clamp01 next) else err bad_drift)

  unfoldable pub drive_pressure : DriveState N → N
  drive_pressure drive = math_max zero (sub drive.definition.target drive.level)

  unfoldable pub weighted_pressure : DriveState N → N
  unfolding drive_pressure
  weighted_pressure drive = mul (drive_pressure drive) drive.definition.weight

  unfoldable pub wear_zone : (level : N) → WearConfig N → WearZone
  wear_zone level config =
      if lt level config.critical_threshold
      then below
      else if lt config.recovery_threshold level
      then above
      else between

  unfoldable pub tick_tracker :
      ChronicTracker N → (level dt_ms : N) → WearConfig N → ChronicTracker N
  tick_tracker tracker level dt_ms config =
      if lt level config.critical_threshold
      then record {
        sustained_below_ms = add tracker.sustained_below_ms dt_ms;
        sustained_above_ms = zero;
      }
      else if lt config.recovery_threshold level
      then (let sustained = add tracker.sustained_above_ms dt_ms in
          if le config.recovery_horizon_ms sustained
          then record { sustained_below_ms = zero; sustained_above_ms = config.recovery_horizon_ms }
          else record {
            sustained_below_ms = tracker.sustained_below_ms;
            sustained_above_ms = sustained;
          })
      else tracker

  -- The loop of chronicLoad
  unfoldable pub load_sums :
      Dict (ChronicTracker N)
      → WearConfig N
      → (contribution weight : N) → Dict (DriveState N)
      → N × N
  load_sums trackers config contribution weight [] = (contribution, weight)
  load_sums trackers config contribution weight ((id, drive) ∷ drives) =
      elim (get drive.definition.id trackers) [
        | none ↦ load_sums trackers config contribution weight drives
        | some tracker ↦
            let saturation_ms =
              mul config.tier1_saturation_ms
                (add one (mul (sub drive.definition.tier one) (tenths 5))) in
            let raw = math_min one (div tracker.sustained_below_ms saturation_ms) in
            let recovery =
              math_min one (div tracker.sustained_above_ms config.recovery_horizon_ms) in
            let tier_weight = div one drive.definition.tier in
            load_sums trackers config
              (add contribution (mul (mul raw (sub one recovery)) tier_weight))
              (add weight tier_weight) drives
      ]

  unfoldable pub chronic_load_of : Dict (ChronicTracker N) → Dict (DriveState N) → WearConfig N → N
  unfolding load_sums clamp01
  chronic_load_of trackers drives config =
      let (contribution, weight) = load_sums trackers config zero zero drives in
      if number.eq weight zero then zero else clamp01 (div contribution weight)

  unfoldable pub transitions_between :
      (before : Dict (DriveState N))
      → (at_ms : N) → WearConfig N
      → (cause : Option Text) → (after : Dict (DriveState N)) → List (WearTransition N)
  unfolding wear_zone
  transitions_between before at_ms config cause [] = []
  transitions_between before at_ms config cause ((id, drive) ∷ after) =
      let rest = transitions_between before at_ms config cause after in
      elim (get id before) [
        | none ↦ rest
        | some previous ↦
            let from = wear_zone previous.level config in
            let to = wear_zone drive.level config in
            if same_zone from to
            then rest
            else record {
              at_ms = at_ms;
              drive_id = id;
              from_zone = from;
              to_zone = to;
              level = drive.level;
              cause_event_id = cause;
            }
              ∷ rest
      ]

  -- The first loop of advanceDriveSystem
  unfoldable pub drift_all :
      (dt_ms : N) → Dict (DriveState N) → Result DriveError (Dict (DriveState N))
  unfolding apply_drift
  drift_all dt_ms [] = ok []
  drift_all dt_ms ((id, drive) ∷ drives) =
      elim (apply_drift drive.definition.drift drive.level dt_ms) [
        | err e ↦ err e
        | ok level ↦ elim (drift_all dt_ms drives) [
          | err e ↦ err e
          | ok rest ↦ ok ((id, record drive { level = level }) ∷ rest)
        ]
      ]

  -- Its second loop
  unfoldable pub tick_all :
      Dict (ChronicTracker N)
      → (dt_ms : N) → WearConfig N
      → Dict (DriveState N)
      → Dict (ChronicTracker N)
  unfolding tick_tracker
  tick_all trackers dt_ms config drives =
      map
        (λ e. (
          e.0,
          tick_tracker
              (get_or (get e.0 trackers)
                (record { sustained_below_ms = zero; sustained_above_ms = zero }))
              e.1.level dt_ms config,
        ))
        drives

  -- advanceDriveSystem
  unfoldable pub advance :
      DriveSystemState N
      → (dt_ms : N) → Result DriveError (DriveSystemState N × List (WearTransition N))
  unfolding drift_all tick_all chronic_load_of transitions_between
  advance state dt_ms =
      if finite dt_ms
      then if le dt_ms zero then ok (state, []) else (elim (drift_all dt_ms state.drives) [
        | err e ↦ err e
        | ok drives ↦
            let at_ms = add state.elapsed_ms dt_ms in
            let trackers = tick_all state.wear.per_drive dt_ms state.wear_config drives in
            ok (
              record state {
                elapsed_ms = at_ms;
                drives = drives;
                wear = record {
                  per_drive = trackers;
                  chronic_load = chronic_load_of trackers drives state.wear_config;
                };
              },
              transitions_between state.drives at_ms state.wear_config none drives,
            )
      ])
      else err not_finite

  unfoldable pub matches_entry : DriveEntry N → DriveEntryMatcher N → Bool
  matches_entry entry matcher =
      same_kind entry.kind matcher.kind
      && entry.entry_type === matcher.entry_type
      && (elim matcher.predicate [ none ↦ true | some test ↦ test entry ])

  -- The sum of the amounts of the bindings that match
  unfoldable pub requested_by : DriveEntry N → (requested : N) → List (SatiationBinding N) → N
  unfolding matches_entry
  requested_by entry requested [] = requested
  requested_by entry requested (binding ∷ bindings) =
      requested_by entry
        (if matches_entry entry binding.matches then add requested binding.amount else requested)
        bindings

  -- A drive after an entry, and its satiation
  unfoldable pub satiate : DriveEntry N → DriveState N → DriveState N
  unfolding requested_by clamp01
  satiate entry drive =
      let requested = requested_by entry zero drive.definition.satiated_by in
      if lt zero requested
      then record drive { level = clamp01 (add drive.level requested) }
      else drive

  -- The list `satiations`
  unfoldable pub satiations_of :
      DriveEntry N
      → (at_ms : N) → (cause : Option Text) → Dict (DriveState N)
      → List (DriveSatiation N)
  unfolding requested_by satiate
  satiations_of entry at_ms cause [] = []
  satiations_of entry at_ms cause ((id, drive) ∷ drives) =
      let rest = satiations_of entry at_ms cause drives in
      let requested = requested_by entry zero drive.definition.satiated_by in
      if lt zero requested
      then record {
        at_ms = at_ms;
        drive_id = id;
        before = drive.level;
        after = (satiate entry drive).level;
        requested = requested;
        entry = entry;
        cause_event_id = cause;
      }
        ∷ rest
      else rest

  -- integrateDriveEntry
  unfoldable pub integrate :
      DriveSystemState N
      → DriveEntry N
      → (cause : Option Text)
      → Result DriveError (DriveSystemState N × (List (DriveSatiation N) × List (WearTransition N)))
  unfolding satiate satiations_of transitions_between
  integrate state entry cause =
      if arithmetic.is_blank entry.entry_type || is_blank_cause arithmetic.is_blank cause
      then err empty_text
      else (let drives = map (λ e. (e.0, satiate entry e.1)) state.drives in
          ok (
            record state { drives = drives },
            (
              satiations_of entry state.elapsed_ms cause state.drives,
              transitions_between state.drives state.elapsed_ms state.wear_config cause drives,
            ),
          ))

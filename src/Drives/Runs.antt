-- ===== src/Drives/Runs.antt =====
-- A system of packages/fold-drives/src/state.ts from its creation or restoration on.
use super_brain.Prelude.{
  ◌≡◌, refl, sym, ◌⊎◌, inl, inr, Bool, true, ◌||◌, not, Option, List, [], ◌∷◌, is_some, get_or,
  Result, ok, err, ◌>>◌, throw_if, ok-injective, Bool-cases, Option-cases, Result-cases, arith,
}
use mathlib.Core.Path.{subst}
use super_brain.Prelude.Text.{Text, ◌===◌, compare_text}
use super_brain.Prelude.Dict.{Dict, get, put, keys}
use super_brain.Prelude.Sort.{sort_by}
use super_brain.Fold.Json.{Numbers, le}
use super_brain.Drives.Types.{
  Arithmetic, DriveEntry, DriveConfig, DriveState, DriveSystemConfig, DriveSystemState,
  DriveSystemSnapshot, DriveError, bad_tier_count, WearTransition, DriveSatiation,
}
use super_brain.Drives.Config.{
  require_non_empty, require_unit, validate_drift, validate_bindings, validate_pursuables,
  validate_wear_config, wear_config_of, validate_drive, add_drives, create_drive_system,
}
use super_brain.Drives.System.{drift_all, advance, integrate, same_ids, is_blank_cause}
use super_brain.Drives.Snapshot.{restore_levels, restore_trackers, restore_from, restore}
use super_brain.Drives.Levels.{
  is_unit, units, require_unit-is_unit, drift_all-units, satiated-units, put-units,
}

pub data Operation (N : Type 0) : Type 0 where
  advance_by : (dt_ms : N) → Operation N
  integrate_entry : (entry : DriveEntry N) (cause : Option Text) → Operation N

>>-fst : (m k : Result DriveError (Unit {0})) (u : Unit {0}) → (m >> k) ≡ ok u → m ≡ ok tt
>>-fst (ok a) k u h = refl
>>-fst (err e) k u h = absurd (ground (arith, h))

>>-snd : (m k : Result DriveError (Unit {0})) (u : Unit {0}) → (m >> k) ≡ ok u → k ≡ ok tt
>>-snd (ok a) k u h = h
>>-snd (err e) k u h = absurd (ground (arith, h))

module _ {N : Type 0} ⦃number : Numbers N⦄ ⦃arithmetic : Arithmetic N⦄ where
  -- The system after an operation, or the error that it threw.
  pub perform : Operation N → DriveSystemState N → Result DriveError (DriveSystemState N)
  perform (advance_by dt_ms) state = elim (advance state dt_ms) [
    | err e ↦ err e
    | ok (next, transitions) ↦ ok next
  ]
  perform (integrate_entry entry cause) state = elim (integrate state entry cause) [
    | err e ↦ err e
    | ok (next, reports) ↦ ok next
  ]

  -- The system after some operations; an operation that throws leaves it as it was.
  pub perform_all : List (Operation N) → DriveSystemState N → DriveSystemState N
  perform_all [] state = state
  perform_all (operation ∷ operations) state = elim (perform operation state) [
    | err e ↦ perform_all operations state
    | ok next ↦ perform_all operations next
  ]

  validate_drive-is_unit :
      (config : DriveConfig N) (tier_count : N) (u : Unit {0})
      → validate_drive config tier_count ≡ ok u
      → is_unit config.initial_level ≡ true
  unfolding validate_drive
  validate_drive-is_unit config tier_count u h = require_unit-is_unit config.initial_level (
      >>-snd _ (require_unit config.initial_level) tt (
        >>-fst _ (require_unit config.definition.target) tt (
          >>-fst _ (validate_drift config.definition.drift) tt (
            >>-fst _ (validate_bindings config.definition.satiated_by) tt
              (>>-fst _ (validate_pursuables (get_or config.definition.pursuable_by [])) u h)))))

  add_drives-units :
      (tier_count : N) (configs : List (DriveConfig N)) (drives after : Dict (DriveState N))
      → units drives ≡ true
      → add_drives tier_count configs drives ≡ ok after
      → units after ≡ true
  unfolding add_drives
  add_drives-units tier_count [] drives after u h = rw (ok-injective h) at u
  add_drives-units tier_count (config ∷ configs) drives after u h =
      elim (Result-cases (validate_drive config tier_count)) [
        | inr (e, q) ↦ absurd (ground (arith, rw (q, add_drives) at h))
        | inl (v, q) ↦ elim (Bool-cases (is_some (get config.definition.id drives))) [
          | inl d ↦ absurd (ground (arith, rw (q, d, add_drives) at h))
          | inr d ↦
              add_drives-units tier_count configs
                (put config.definition.id
                  (record { definition = config.definition; level = config.initial_level }) drives)
                after
                (put-units config.definition.id
                  (record { definition = config.definition; level = config.initial_level }) drives
                  (validate_drive-is_unit config tier_count v q) u)
                (rw (q, d, add_drives) at h)
        ]
      ]

  create_drive_system-units :
      (config : DriveSystemConfig N) (state : DriveSystemState N)
      → create_drive_system config ≡ ok state
      → units state.drives ≡ true
  unfolding create_drive_system units
  create_drive_system-units config state h = elim (Result-cases checks) [
    | inr (e, q) ↦ absurd (ground (arith, rw (q, create_drive_system) at h))
    | inl (u, q) ↦ elim (Result-cases (add_drives config.tier_count config.drives [])) [
      | inr (e, r) ↦ absurd (ground (arith, rw (q, r, create_drive_system) at h))
      | inl (drives, r) ↦
          subst (λ x. units x.drives ≡ true) (ok-injective (rw (q, r, create_drive_system) at h))
            (add_drives-units config.tier_count config.drives [] drives refl r)
    ]
  ]
    where
      checks : Result DriveError (Unit {0})
      checks =
          require_non_empty arithmetic.is_blank config.actor_id
          >> throw_if
              (not (arithmetic.is_integer config.tier_count)
                || number.lt config.tier_count number.one)
              bad_tier_count
          >> validate_wear_config (wear_config_of config.wear)

  restore_levels-units :
      (levels : Dict N) (drives after : Dict (DriveState N))
      → restore_levels levels drives ≡ ok after
      → units after ≡ true
  unfolding restore_levels units
  restore_levels-units levels [] after h = rw (sym (ok-injective h)) refl
  restore_levels-units levels ((id, drive) ∷ drives) after h = elim (Option-cases (get id levels)) [
    | inl g ↦ absurd (ground (arith, rw (g, restore_levels) at h))
    | inr (level, g) ↦ elim (Result-cases (require_unit level)) [
      | inr (e, q) ↦ absurd (ground (arith, rw (g, q, restore_levels) at h))
      | inl (u, q) ↦ elim (Result-cases (restore_levels levels drives)) [
        | inr (e, r) ↦ absurd (ground (arith, rw (g, q, r, restore_levels) at h))
        | inl (rest, r) ↦
            subst (λ x. units x ≡ true) (ok-injective (rw (g, q, r, restore_levels) at h))
              (ground
                (arith, require_unit-is_unit level q, restore_levels-units levels drives rest r))
      ]
    ]
  ]

  -- The tests of restoreDriveSystem on the snapshot
  abbrev refuses : DriveSystemState N → DriveSystemSnapshot N → Bool × (Bool × Bool)
  refuses initial taken = (
    not (taken.actor_id === initial.actor_id),
    (
      not (number.finite taken.elapsed_ms) || number.lt taken.elapsed_ms number.zero,
      not (
          same_ids (sort_by compare_text (keys taken.levels))
            (sort_by compare_text (keys initial.drives))),
    ),
  )

  restore_from-units :
      (initial state : DriveSystemState N) (taken : DriveSystemSnapshot N)
      → restore_from initial taken ≡ ok state
      → units state.drives ≡ true
  unfolding restore_from
  restore_from-units initial state taken h = elim (Bool-cases (refuses initial taken).0) [
    | inl a ↦ absurd (ground (arith, rw (a, restore_from) at h))
    | inr a ↦ elim (Bool-cases (refuses initial taken).1.0) [
      | inl b ↦ absurd (ground (arith, rw (a, b, restore_from) at h))
      | inr b ↦ elim (Bool-cases (refuses initial taken).1.1) [
        | inl c ↦ absurd (ground (arith, rw (a, b, c, restore_from) at h))
        | inr c ↦ elim (Result-cases (restore_levels taken.levels initial.drives)) [
          | inr (e, q) ↦ absurd (ground (arith, rw (a, b, c, q, restore_from) at h))
          | inl (drives, q) ↦ elim (Result-cases (require_unit taken.wear.chronic_load)) [
            | inr (e, r) ↦ absurd (ground (arith, rw (a, b, c, q, r, restore_from) at h))
            | inl (u, r) ↦ elim (Result-cases (restore_trackers drives [] taken.wear.per_drive)) [
              | inr (e, t) ↦ absurd (ground (arith, rw (a, b, c, q, r, t, restore_from) at h))
              | inl (trackers, t) ↦
                  subst (λ x. units x.drives ≡ true)
                    (ok-injective (rw (a, b, c, q, r, t, restore_from) at h))
                    (restore_levels-units taken.levels initial.drives drives q)
            ]
          ]
        ]
      ]
    ]
  ]

  restore-units :
      (config : DriveSystemConfig N) (taken : DriveSystemSnapshot N) (state : DriveSystemState N)
      → restore config taken ≡ ok state
      → units state.drives ≡ true
  unfolding restore
  restore-units config taken state h = elim (Result-cases (create_drive_system config)) [
    | inr (e, q) ↦ absurd (ground (arith, rw (q, restore) at h))
    | inl (initial, q) ↦ restore_from-units initial state taken (rw (q, restore) at h)
  ]

  advance-units :
      (dt_ms : N) (state : DriveSystemState N) (r : DriveSystemState N × List (WearTransition N))
      → units state.drives ≡ true
      → advance state dt_ms ≡ ok r
      → units r.0.drives ≡ true
  unfolding advance
  advance-units dt_ms state r u h = elim (Bool-cases (number.finite dt_ms)) [
    | inr f ↦ absurd (ground (arith, rw (f, advance) at h))
    | inl f ↦ elim (Bool-cases (le dt_ms number.zero)) [
      | inl z ↦
          subst (λ (x : DriveSystemState N × List (WearTransition N)). units x.0.drives ≡ true)
            (ok-injective (rw (f, z, advance) at h)) u
      | inr z ↦ elim (Result-cases (drift_all dt_ms state.drives)) [
        | inr (e, q) ↦ absurd (ground (arith, rw (f, z, q, advance) at h))
        | inl (drives, q) ↦
            subst (λ (x : DriveSystemState N × List (WearTransition N)). units x.0.drives ≡ true)
              (ok-injective (rw (f, z, q, advance) at h))
              (drift_all-units dt_ms state.drives drives u q)
      ]
    ]
  ]

  integrate-units :
      (entry : DriveEntry N) (cause : Option Text) (state : DriveSystemState N)
      (r : DriveSystemState N × (List (DriveSatiation N) × List (WearTransition N)))
      → units state.drives ≡ true
      → integrate state entry cause ≡ ok r
      → units r.0.drives ≡ true
  unfolding integrate
  integrate-units entry cause state r u h =
      elim (Bool-cases
        (arithmetic.is_blank entry.entry_type || is_blank_cause arithmetic.is_blank cause)) [
          | inl b ↦ absurd (ground (arith, rw (b, integrate) at h))
          | inr b ↦
              subst
                (λ (x : DriveSystemState N × (List (DriveSatiation N) × List (WearTransition N))).
                  units x.0.drives ≡ true)
                (ok-injective (rw (b, integrate) at h)) (satiated-units entry state.drives u)
        ]

  perform-units :
      (operation : Operation N) (state next : DriveSystemState N)
      → units state.drives ≡ true
      → perform operation state ≡ ok next
      → units next.drives ≡ true
  unfolding perform
  perform-units (advance_by dt_ms) state next u h = elim (Result-cases (advance state dt_ms)) [
    | inr (e, q) ↦ absurd (ground (arith, rw (q, perform) at h))
    | inl (r, q) ↦
        subst (λ x. units x.drives ≡ true) (ok-injective (rw (q, perform) at h))
          (advance-units dt_ms state r u q)
  ]
  perform-units (integrate_entry entry cause) state next u h =
      elim (Result-cases (integrate state entry cause)) [
        | inr (e, q) ↦ absurd (ground (arith, rw (q, perform) at h))
        | inl (r, q) ↦
            subst (λ x. units x.drives ≡ true) (ok-injective (rw (q, perform) at h))
              (integrate-units entry cause state r u q)
      ]

  perform_all_kept :
      (operations : List (Operation N)) (state : DriveSystemState N)
      → units state.drives ≡ true
      → units (perform_all operations state).drives ≡ true
  unfolding perform_all
  perform_all_kept [] state u = u
  perform_all_kept (operation ∷ operations) state u =
      elim (Result-cases (perform operation state)) [
        | inr (e, q) ↦ rw (q, perform_all) (perform_all_kept operations state u)
        | inl (next, q) ↦
            rw (q, perform_all)
              (perform_all_kept operations next (perform-units operation state next u q))
      ]

  -- Every level is finite and from 0 to 1: in a system that createDriveSystem or restoreDriveSystem
  -- returned, and after any advances and entries, also when some of them throw.
  pub perform_all-units :
      (config : DriveSystemConfig N) (taken : DriveSystemSnapshot N) (state : DriveSystemState N)
      (operations : List (Operation N))
      → (create_drive_system config ≡ ok state) ⊎ (restore config taken ≡ ok state)
      → units (perform_all operations state).drives ≡ true
  perform_all-units config taken state operations (inl h) =
      perform_all_kept operations state (create_drive_system-units config state h)
  perform_all-units config taken state operations (inr h) =
      perform_all_kept operations state (restore-units config taken state h)

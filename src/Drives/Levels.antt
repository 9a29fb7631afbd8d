-- ===== src/Drives/Levels.antt =====
-- The levels of the drives of packages/fold-drives/src/state.ts.
use super_brain.Prelude.{
  ◌≡◌, refl, sym, inl, inr, Bool, true, false, ◌&&◌, not, [], ◌∷◌, map, ok, ok-injective,
  Bool-cases, Result-cases, arith,
}
use mathlib.Core.Path.{subst}
use super_brain.Prelude.Text.{Text}
use super_brain.Prelude.Dict.{Dict, put}
use super_brain.Fold.Json.{Numbers, le}
use super_brain.Drives.Types.{Arithmetic, DriftFunction, DriveEntry, DriveState}
use super_brain.Drives.Config.{require_finite, require_unit, clamp01}
use super_brain.Drives.System.{apply_drift, drifted, drift_all, requested_by, satiate}

module _ {N : Type 0} ⦃number : Numbers N⦄ ⦃arithmetic : Arithmetic N⦄ where
  open number use {zero, one, lt, finite, is_nan, add}

  -- A finite number from 0 to 1.
  unfoldable pub is_unit : N → Bool
  is_unit value = finite value && not (lt value zero) && not (lt one value)

  -- All levels are from 0 to 1.
  unfoldable pub units : Dict (DriveState N) → Bool
  units [] = true
  units ((id, drive) ∷ drives) = is_unit drive.level && units drives

  pub require_unit-is_unit : (value : N) → require_unit value ≡ ok tt → is_unit value ≡ true
  unfolding require_unit require_finite is_unit
  require_unit-is_unit value h = ground arith

  clamp01-is_unit : (value : N) → is_nan value ≡ false → is_unit (clamp01 value) ≡ true
  unfolding clamp01 is_unit
  clamp01-is_unit value h = ground (
    arith,
    h,
    arithmetic.zero_lt_one,
    arithmetic.finite_zero,
    arithmetic.finite_one,
    arithmetic.finite_number zero,
    arithmetic.finite_number one,
    arithmetic.between_finite value,
    number.lt_asymm zero value,
    number.lt_asymm value one,
    number.lt_asymm zero one,
    number.lt_irrefl zero,
    number.lt_irrefl one,
  )

  is_unit-finite : (value : N) → is_unit value ≡ true → finite value ≡ true
  unfolding is_unit
  is_unit-finite value h = ground arith

  apply_drift-is_unit :
      (drift : DriftFunction N) (current dt_ms level : N)
      → is_unit current ≡ true
      → apply_drift drift current dt_ms ≡ ok level
      → is_unit level ≡ true
  unfolding apply_drift
  apply_drift-is_unit drift current dt_ms level u h = elim (Bool-cases (le dt_ms zero)) [
    | inl e ↦ rw (ok-injective (rw (e, apply_drift) at h)) at u
    | inr e ↦ elim (Bool-cases (finite (drifted drift current dt_ms))) [
      | inr f ↦ absurd (ground (arith, rw (e, f, apply_drift) at h))
      | inl f ↦
          subst (λ x. is_unit x ≡ true) (ok-injective (rw (e, f, apply_drift) at h))
            (clamp01-is_unit (drifted drift current dt_ms)
              (arithmetic.finite_number (drifted drift current dt_ms) f))
    ]
  ]

  pub drift_all-units :
      (dt_ms : N) (drives after : Dict (DriveState N))
      → units drives ≡ true
      → drift_all dt_ms drives ≡ ok after
      → units after ≡ true
  unfolding drift_all units
  drift_all-units dt_ms [] after u h = rw (sym (ok-injective h)) refl
  drift_all-units dt_ms ((id, drive) ∷ drives) after u h =
      elim (Result-cases (apply_drift drive.definition.drift drive.level dt_ms)) [
        | inr (e, q) ↦ absurd (ground (arith, rw (q, drift_all) at h))
        | inl (level, q) ↦ elim (Result-cases (drift_all dt_ms drives)) [
          | inr (e, r) ↦ absurd (ground (arith, rw (q, r, drift_all) at h))
          | inl (rest, r) ↦
              subst (λ x. units x ≡ true) (ok-injective (rw (q, r, drift_all) at h))
                (ground (
                  arith,
                  u,
                  apply_drift-is_unit drive.definition.drift drive.level dt_ms level,
                  drift_all-units dt_ms drives rest,
                  q,
                  r,
                ))
        ]
      ]

  satiate-is_unit :
      (entry : DriveEntry N) (drive : DriveState N)
      → is_unit drive.level ≡ true
      → is_unit (satiate entry drive).level ≡ true
  unfolding satiate
  satiate-is_unit entry drive u =
      elim (Bool-cases (lt zero (requested_by entry zero drive.definition.satiated_by))) [
        | inr e ↦ rw (e, satiate) u
        | inl e ↦
            rw (e, satiate)
              (clamp01-is_unit
                (add drive.level (requested_by entry zero drive.definition.satiated_by))
                (arithmetic.add_number drive.level
                  (requested_by entry zero drive.definition.satiated_by)
                  (is_unit-finite drive.level u)
                  (arithmetic.lt_number zero (requested_by entry zero drive.definition.satiated_by)
                    e)))
      ]

  pub satiated-units :
      (entry : DriveEntry N) (drives : Dict (DriveState N))
      → units drives ≡ true
      → units (map (λ e. (e.0, satiate entry e.1)) drives) ≡ true
  unfolding units
  satiated-units entry [] u = refl
  satiated-units entry ((id, drive) ∷ drives) u =
      ground (arith, satiate-is_unit entry drive, satiated-units entry drives)

  pub put-units :
      (id : Text) (drive : DriveState N) (drives : Dict (DriveState N))
      → is_unit drive.level ≡ true
      → units drives ≡ true
      → units (put id drive drives) ≡ true
  unfolding units put
  put-units id drive [] u v = ground arith
  put-units id drive ((k, d) ∷ drives) u v = ground (arith, put-units id drive drives)

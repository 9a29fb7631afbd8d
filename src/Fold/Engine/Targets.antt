-- ===== src/Fold/Engine/Targets.antt =====
-- assertUniqueEventTargets of packages/fold/src/fold.ts.
use super_brain.Prelude.{
  ◌≡◌, ◌≢◌, ◌↔◌, refl, false, none, List, [], ◌∷◌, All, Bool-cases, inl, inr, arith,
}
use super_brain.Prelude.Text.{Text, ===_iff}
use super_brain.Fold.Schema.{Change}
use super_brain.Fold.Order.{has}
use super_brain.Fold.Keys.{target_key}
use super_brain.Fold.Engine.{repeated_target}

module _ {N : Type 0} where
  -- No two changes have one target.
  abbrev pub HasDistinctTargets : List (Change N) → Type 0
  HasDistinctTargets [] = Unit
  HasDistinctTargets (c ∷ cs) =
      All (λ d. target_key c.assertion ≢ target_key d.assertion) cs × HasDistinctTargets cs

  abbrev IsNew : List Text → Change N → Type 0
  IsNew seen c = has seen (target_key c.assertion) ≡ false

  All-IsNew-next :
      (seen : List Text) (key : Text) (cs : List (Change N))
      → All (IsNew (key ∷ seen)) cs
        ↔ (All (IsNew seen) cs × All (λ d. key ≢ target_key d.assertion) cs)
  unfolding has
  All-IsNew-next seen key [] = (λ _. (tt, tt), λ _. tt)
  All-IsNew-next seen key (c ∷ cs) =
      let (to, from) = All-IsNew-next seen key cs in
      let same = ===_iff key (target_key c.assertion) in
      (
        λ h.
            ((ground (arith, h.0), (to h.1).0), ((λ q. ground (arith, h.0, same.1 q)), (to h.1).1)),
        λ h. (ground (arith, h.0.0, h.1.0, same), from (h.0.1, h.1.1)),
      )

  repeated_target-none_iff :
      (seen : List Text) (cs : List (Change N))
      → (repeated_target seen cs ≡ none) ↔ (All (IsNew seen) cs × HasDistinctTargets cs)
  unfolding repeated_target
  repeated_target-none_iff seen [] = (λ _. (tt, tt), λ _. refl)
  repeated_target-none_iff seen (c ∷ cs) =
      let key = target_key c.assertion in
      let (to, from) = repeated_target-none_iff (key ∷ seen) cs in
      let (next, back) = All-IsNew-next seen key cs in
      (
        λ h. elim (Bool-cases (has seen key)) [
          | inl q ↦ absurd (ground arith)
          | inr q ↦
              let rest = to (rw (q, repeated_target) at h) in
              let split = next rest.0 in ((q, split.0), (split.1, rest.1))
        ],
        λ h. rw (h.0.0, repeated_target) (from (back (h.0.1, h.1.0), h.1.1)),
      )

  All-IsNew-start : (cs : List (Change N)) → All (IsNew []) cs
  unfolding has
  All-IsNew-start [] = tt
  All-IsNew-start (c ∷ cs) = (refl, All-IsNew-start cs)

  -- The check of an event's changes finds no repeated target exactly when no two of the changes,
  -- at whatever distance, have the same target key.
  pub repeated_target_iff :
      (changes : List (Change N)) → (repeated_target [] changes ≡ none) ↔ HasDistinctTargets changes
  repeated_target_iff changes =
      let (to, from) = repeated_target-none_iff [] changes in
      (λ h. (to h).1, λ d. from (All-IsNew-start changes, d))

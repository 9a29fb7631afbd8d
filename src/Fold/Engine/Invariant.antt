-- ===== src/Fold/Engine/Invariant.antt =====
-- Invariants of fold and continueFold of packages/fold/src/fold.ts.
use super_brain.Prelude.{
  ℕ, suc, ◌≡◌, refl, Bool, true, false, none, List, [], ◌∷◌, ◌++◌, if◌then◌else◌, Bool-cases,
  Option-cases, Result-cases, inl, inr, arith,
}
use super_brain.Prelude.Text.{Text}
use super_brain.Prelude.Order.{Ordered}
use super_brain.Fold.Json.{Numbers}
use super_brain.Fold.Schema.{FoldEvent, Change, Assertion}
use super_brain.Fold.Schema.Validity.{Dates}
use super_brain.Fold.Order.{FoldLogEntry, has}
use super_brain.Fold.State.{
  ComponentRegistry, FoldState, empty_state, ExistingCreate, FoldOptions, AppliedChange, Outcome,
  done, threw, ◌>>=◌,
}
use super_brain.Fold.Apply.{apply_assertion, apply_change}
use super_brain.Fold.Apply.Redirects.{IsAcyclic, IsAcyclic-nil}
use super_brain.Fold.Apply.Frame.{done-injective}
use mathlib.Core.Path.{subst}
use super_brain.Fold.Apply.Merging.{apply_assertion-IsAcyclic}
use super_brain.Fold.Engine.{
  record_event, repeated_target, apply_changes, apply_event, apply_events, select_entries,
  apply_entries, fold, continue_fold,
}

-- Inversion of a step that succeeded.
pub >>=-eq-done :
    {N T : Type 0} (m : Outcome N T) (f : FoldState N T → Outcome N T) {s' : FoldState N T}
    → (m >>= f) ≡ done s'
    → (s : FoldState N T) × (m ≡ done s) × (f s ≡ done s')
>>=-eq-done (done s) f h = (s, refl, h)
>>=-eq-done (threw e s) f h = cc

-- An event that was applied had a new id and different targets.
pub apply_event-done :
    {N T : Type 0} ⦃number : Numbers N⦄ (cs : ComponentRegistry N) (e : ExistingCreate)
    (retain : Bool) (seen : List Text) (event : FoldEvent N T) (s : FoldState N T)
    {s' : FoldState N T}
    → apply_event cs e retain seen event s ≡ done s'
    → (has seen event.id ≡ false)
      × (repeated_target [] event.changes ≡ none)
      × ((m : FoldState N T) × (apply_changes event.id 0 cs e retain event.changes s ≡ done m)
          × (record_event retain event m ≡ s'))
unfolding apply_event
apply_event-done cs e retain seen event s h = elim (Bool-cases (has seen event.id)) [
  | inl q ↦ absurd (ground arith)
  | inr q ↦ elim (Option-cases (repeated_target [] event.changes)) [
    | inr (k, r) ↦ absurd (ground arith)
    | inl r ↦
        let (m, a, b) =
          >>=-eq-done (apply_changes event.id 0 cs e retain event.changes s) _ (rw (q, r) at h) in
        (q, r, (m, a, done-injective b))
  ]
]

-- An invariant that each change keeps, and that does not depend on the record of applied changes
-- and events.
module _ {N T : Type 0} ⦃number : Numbers N⦄ (P : FoldState N T → Type 0)
    (on_assertion : (id : Text) (i : ℕ) (components : ComponentRegistry N)
        (existing : ExistingCreate) (a : Assertion N) (s s' : FoldState N T)
      → apply_assertion id i components existing a s ≡ done s'
      → P s
      → P s')
    (on_changes : (s : FoldState N T) (l : List (AppliedChange N))
      → P s
      → P (record s { applied_changes = l }))
    (on_events : (s : FoldState N T) (l : List (FoldEvent N T))
      → P s
      → P (record s { applied_events = l })) where
  apply_change_keeps :
      (id : Text) (i : ℕ) (components : ComponentRegistry N) (existing : ExistingCreate)
      (retain : Bool) (change : Change N) (s s' : FoldState N T)
      → apply_change id i components existing retain change s ≡ done s'
      → P s
      → P s'
  unfolding apply_change
  apply_change_keeps id i cs e retain change s s' h p =
      let (m, q, r) = >>=-eq-done (apply_assertion id i cs e change.assertion s) _ h in
      recorded retain m (on_assertion id i cs e change.assertion s m q p) r
    where
      recorded :
          (b : Bool) (m : FoldState N T)
          → P m
          → done (
              if b
              then record m {
                applied_changes =
                    m.applied_changes
                    ++ (record { event_id = id; change_index = i; change = change }) ∷ [];
              }
              else m)
            ≡ done s'
          → P s'
      recorded true m p r = subst P (done-injective r) (on_changes m _ p)
      recorded false m p r = subst P (done-injective r) p

  apply_changes_keeps :
      (id : Text) (i : ℕ) (components : ComponentRegistry N) (existing : ExistingCreate)
      (retain : Bool) (changes : List (Change N)) (s s' : FoldState N T)
      → apply_changes id i components existing retain changes s ≡ done s'
      → P s
      → P s'
  unfolding apply_changes
  apply_changes_keeps id i cs e retain [] s s' h p = subst P (done-injective h) p
  apply_changes_keeps id i cs e retain (c ∷ changes) s s' h p =
      let (m, q, r) = >>=-eq-done (apply_change id i cs e retain c s) _ h in
      apply_changes_keeps id (suc i) cs e retain changes m s' r
        (apply_change_keeps id i cs e retain c s m q p)

  apply_event_keeps :
      (cs : ComponentRegistry N) (e : ExistingCreate) (retain : Bool) (seen : List Text)
      (event : FoldEvent N T) (s s' : FoldState N T)
      → apply_event cs e retain seen event s ≡ done s'
      → P s
      → P s'
  apply_event_keeps cs e retain seen event s s' h p =
      let (m, q, r) = (apply_event-done cs e retain seen event s h).2 in
      recorded retain m (apply_changes_keeps event.id 0 cs e retain event.changes s m q p) r
    where
      recorded : (b : Bool) (m : FoldState N T) → P m → record_event b event m ≡ s' → P s'
      recorded true m p r = subst P r (on_events m _ p)
      recorded false m p r = subst P r p

  apply_events_keeps :
      (cs : ComponentRegistry N) (e : ExistingCreate) (retain : Bool) (seen : List Text)
      (entries : List (FoldLogEntry N T)) (s s' : FoldState N T)
      → apply_events cs e retain seen entries s ≡ done s'
      → P s
      → P s'
  unfolding apply_events
  apply_events_keeps cs e retain seen [] s s' h p = subst P (done-injective h) p
  apply_events_keeps cs e retain seen (x ∷ xs) s s' h p =
      let (m, q, r) = >>=-eq-done (apply_event cs e retain seen x.event s) _ h in
      apply_events_keeps cs e retain (x.event.id ∷ seen) xs m s' r
        (apply_event_keeps cs e retain seen x.event s m q p)

  module _ ⦃dates : Dates N⦄ ⦃clock : Ordered T⦄ where
    pub apply_entries_keeps :
        (s s' : FoldState N T) (input : List (FoldLogEntry N T)) (options : FoldOptions N T)
        → apply_entries s input options ≡ done s'
        → P s
        → P s'
    unfolding apply_entries
    apply_entries_keeps s s' input options h p =
        elim (Result-cases (select_entries options input)) [
          | inl (entries, q) ↦
              apply_events_keeps _ _ _ _ entries s s' (rw (q, apply_entries) at h) p
          | inr (x, q) ↦ absurd (ground arith)
        ]

-- A fold that succeeds leaves a state in which every node id resolves, and so does every
-- continuation of that state that succeeds.
pub fold-IsAcyclic :
    {N T : Type 0} ⦃number : Numbers N⦄ ⦃dates : Dates N⦄ ⦃clock : Ordered T⦄
    (input : List (FoldLogEntry N T)) (options : FoldOptions N T) (s : FoldState N T)
    → fold input options ≡ done s
    → IsAcyclic s.redirects
      × ((more : List (FoldLogEntry N T)) (options' : FoldOptions N T) (s' : FoldState N T)
          → continue_fold s more options' ≡ done s'
          → IsAcyclic s'.redirects)
unfolding fold continue_fold
fold-IsAcyclic {N} {T} input options s h =
    let start = keep empty_state s input options h IsAcyclic-nil in
    (start, λ more options' s' k. keep s s' more options' k start)
  where
    keep :
        (s s' : FoldState N T) (input : List (FoldLogEntry N T)) (options : FoldOptions N T)
        → apply_entries s input options ≡ done s'
        → IsAcyclic s.redirects
        → IsAcyclic s'.redirects
    keep =
        apply_entries_keeps (λ s. IsAcyclic s.redirects) apply_assertion-IsAcyclic (λ s l a. a)
          (λ s l a. a)

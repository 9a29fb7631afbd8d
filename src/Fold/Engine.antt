-- ===== src/Fold/Engine.antt =====
-- applyEntries, fold and continueFold of packages/fold/src/fold.ts.
pub mod Invariant
pub mod Incremental
pub mod History
pub mod Reordering
pub mod Targets
use super_brain.Prelude.{
  ℕ, suc, zero, Bool, true, false, ◌||◌, Option, none, some, List, [], ◌∷◌, ◌++◌, map, all, get_or,
  if◌then◌else◌, Result, ok, err,
}
use super_brain.Prelude.Text.{Text, text, ◌===◌}
use super_brain.Prelude.Dict.{put}
use super_brain.Prelude.Order.{Ordered}
use super_brain.Fold.Json.{Numbers}
use super_brain.Fold.Schema.{FoldEvent, Change}
use super_brain.Fold.Schema.Validity.{Dates, is_valid_event}
use super_brain.Fold.Order.{FoldLogEntry, Status, draft, canon, has, sort_log, fork_at}
use super_brain.Fold.Keys.{target_key}
use super_brain.Fold.State.{
  ComponentRegistry, core_component_registry, FoldState, empty_state, Include, canon_and_draft,
  ExistingCreate, error, FoldOptions, FoldError, duplicate_target, duplicate_event, order_error,
  invalid_event, Outcome, done, threw, ◌>>=◌,
}
use super_brain.Fold.Apply.{apply_change}

module _ {N : Type 0} where
  -- The loop of assertUniqueEventTargets: the key that occurs a second time.
  unfoldable pub repeated_target : List Text → List (Change N) → Option Text
  repeated_target seen [] = none
  repeated_target seen (change ∷ changes) =
      let key = target_key change.assertion in
      let rest = repeated_target (key ∷ seen) changes in if has seen key then some key else rest

-- `if (retainApplied) state.appliedEvents.push(event)`
abbrev pub record_event : {N T : Type 0} → Bool → FoldEvent N T → FoldState N T → FoldState N T
record_event true event s = record s { applied_events = s.applied_events ++ event ∷ [] }
record_event false event s = s

module _ {N T : Type 0} ⦃number : Numbers N⦄ where
  -- `event.changes.forEach(…)`
  unfoldable pub apply_changes :
      (event_id : Text)
      → (change_index : ℕ) → ComponentRegistry N
      → ExistingCreate
      → (retain_applied : Bool) → List (Change N)
      → FoldState N T
      → Outcome N T
  apply_changes id i components existing retain [] state = done state
  apply_changes id i components existing retain (change ∷ changes) state = do
    s ← apply_change id i components existing retain change state
    apply_changes id (suc i) components existing retain changes s

  -- The body of the loop over the entries, over the ids seen before.
  unfoldable pub apply_event :
      ComponentRegistry N
      → ExistingCreate
      → (retain_applied : Bool) → (seen : List Text) → FoldEvent N T
      → FoldState N T
      → Outcome N T
  apply_event components existing retain seen event state =
      if has seen event.id
      then threw (duplicate_event event.id) state
      else elim (repeated_target [] event.changes) [
        | some key ↦ threw (duplicate_target event.id key) state
        | none ↦ do
          s ← apply_changes event.id 0 components existing retain event.changes state
          done (record_event retain event s)
      ]

  -- The loop over the entries.
  unfoldable pub apply_events :
      ComponentRegistry N
      → ExistingCreate
      → (retain_applied : Bool) → (seen : List Text) → List (FoldLogEntry N T)
      → FoldState N T
      → Outcome N T
  apply_events components existing retain seen [] state = done state
  apply_events components existing retain seen (entry ∷ entries) state = do
    s ← apply_event components existing retain seen entry.event state
    apply_events components existing retain (entry.event.id ∷ seen) entries s

-- `{ ...coreComponentRegistry, ...components }`: a later rule for a name replaces the earlier one.
unfoldable pub merge_components :
    {N : Type 0} → ComponentRegistry N → ComponentRegistry N → ComponentRegistry N
merge_components base [] = base
merge_components base ((name, rule) ∷ more) = merge_components (put name rule base) more

-- `status === "canon"`
abbrev pub is_canon : Status → Bool
is_canon draft = false
is_canon canon = true

module _ {N T : Type 0} where
  -- `parsedEntries.filter(({ status }) => include === "canon+draft" || status === "canon")`
  unfoldable pub only_canon : List (FoldLogEntry N T) → List (FoldLogEntry N T)
  only_canon [] = []
  only_canon (entry ∷ entries) =
      if is_canon entry.status then entry ∷ only_canon entries else only_canon entries

  unfoldable pub included : Include → List (FoldLogEntry N T) → List (FoldLogEntry N T)
  unfolding only_canon
  included canon_and_draft entries = entries
  included Include.canon entries = only_canon entries

  -- Whether eventSchema.parse accepts every event; an accepted event is returned as it is.
  unfoldable pub all_valid : ⦃number : Numbers N⦄ ⦃dates : Dates N⦄ → List (FoldLogEntry N T) → Bool
  all_valid entries = all (λ entry. is_valid_event entry.event) entries

module _ {N T : Type 0} ⦃number : Numbers N⦄ ⦃dates : Dates N⦄ ⦃clock : Ordered T⦄ where
  -- `cursor === undefined ? orderedInput === true ? included : sortLog(included) : forkAt(…)`
  unfoldable pub arrange :
      FoldOptions N T → List (FoldLogEntry N T) → Result (FoldError T) (List (FoldLogEntry N T))
  arrange options entries = elim options.cursor [
    | none ↦ ok (if get_or options.ordered_input false then entries else sort_log entries)
    | some cursor ↦ elim (fork_at entries cursor) [
      | ok front ↦ ok front
      | err e ↦ err (order_error e)
    ]
  ]

  -- The entries that applyEntries goes through, in their order.
  unfoldable pub select_entries :
      FoldOptions N T → List (FoldLogEntry N T) → Result (FoldError T) (List (FoldLogEntry N T))
  select_entries options input =
      if get_or options.validated_input false || all_valid input
      then arrange options (included options.include input)
      else err invalid_event

  -- applyEntries
  unfoldable pub apply_entries :
      FoldState N T → List (FoldLogEntry N T) → FoldOptions N T → Outcome N T
  apply_entries state input options = elim (select_entries options input) [
    | err e ↦ threw e state
    | ok entries ↦
        apply_events (merge_components core_component_registry (get_or options.components []))
          (get_or options.existing_create error) (get_or options.retain_applied true)
          (map (λ e. e.id) state.applied_events) entries state
  ]

  -- fold
  unfoldable pub fold : List (FoldLogEntry N T) → FoldOptions N T → Outcome N T
  fold input options = apply_entries empty_state input options

  -- continueFold
  unfoldable pub continue_fold :
      FoldState N T → List (FoldLogEntry N T) → FoldOptions N T → Outcome N T
  continue_fold state input options = apply_entries state input options

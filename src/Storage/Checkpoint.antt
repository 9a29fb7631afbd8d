-- ===== src/Storage/Checkpoint.antt =====
-- packages/fold-storage/src/checkpoint.ts: materializeFoldState, createCheckpoint and
-- verifyCheckpoint.
pub mod Laws
pub mod Canonical
use super_brain.Prelude.{
  ℕ, Bool, ◌&&◌, ◌==◌, true, false, Option, none, some, List, [], ◌∷◌, length, last?, get_or,
  if◌then◌else◌, Result, ok, err,
}
use super_brain.Prelude.Text.{Text, text, ◌===◌, compare_text}
use super_brain.Prelude.Order.{Ordered, is_eq}
use super_brain.Prelude.Sort.{sort_by}
use super_brain.Prelude.Dict.{Dict}
use super_brain.Fold.Json.{Json, Numbers}
use super_brain.Fold.Schema.{FoldEvent}
use super_brain.Fold.Schema.Validity.{Dates}
use super_brain.Fold.Order.{EventCursor, FoldLogEntry}
use super_brain.Fold.State.{
  ComponentRegistry, FoldState, FoldOptions, FoldError, Include, Outcome, done, threw,
}
use super_brain.Fold.Engine.{fold}
use super_brain.Storage.Records.{MaterializedFoldState, FoldCheckpoint, is_valid_checkpoint}
use super_brain.Storage.Digest.{Digests, digest_materialized_state}

-- `[...map.values()]` for a map whose values carry an id
abbrev pub values_of {ℓ} : {A : Type ℓ} → Dict A → List A
values_of [] = []
values_of ((k, v) ∷ m) = v ∷ values_of m

-- materializeFoldState
unfoldable pub materialize_fold_state : {N T : Type 0} → FoldState N T → MaterializedFoldState N
materialize_fold_state state = record {
  values = sort_by (λ left right. compare_text left.0 right.0) state.values;
  nodes = sort_by (λ left right. compare_text left.id right.id) (values_of state.nodes);
  edges = sort_by (λ left right. compare_text left.id right.id) (values_of state.edges);
  redirects = sort_by (λ left right. compare_text left.0 right.0) state.redirects;
  diagnostics = state.diagnostics;
}

pub record CreateCheckpointOptions (N : Type 0) : Type 0 where
  pub include : Include
  pub components : Option (ComponentRegistry N)
  pub component_set : Option Text

pub data CheckpointError (T : Type 0) : Type 0 where
  fold_failed : FoldError T → CheckpointError T
  invalid_checkpoint : CheckpointError T

pub record CheckpointVerification (N T : Type 0) : Type 0 where
  pub valid : Bool
  pub expected : FoldCheckpoint N T

-- The options of the fold in createCheckpoint
abbrev pub fold_options : {N T : Type 0} → Include → Option (ComponentRegistry N) → FoldOptions N T
fold_options include components = record {
  include = include;
  cursor = none;
  components = components;
  existing_create = none;
  retain_applied = none;
  validated_input = none;
  ordered_input = none;
}

-- `last === undefined ? null : { t: last.at.t, eventId: last.id }`
abbrev pub cursor_of : {N T : Type 0} → Option (FoldEvent N T) → Option (EventCursor T)
cursor_of none = none
cursor_of (some e) = some (record { t = e.t; event_id = e.id })

-- `left?.t === right?.t && left?.eventId === right?.eventId`
unfoldable pub same_cursor :
    {T : Type 0} ⦃clock : Ordered T⦄ → Option (EventCursor T) → Option (EventCursor T) → Bool
same_cursor none none = true
same_cursor ⦃clock⦄ (some a) (some b) = is_eq (clock.cmp a.t b.t) && a.event_id === b.event_id
same_cursor _ _ = false

module _ {N T : Type 0} ⦃number : Numbers N⦄ ⦃dates : Dates N⦄ ⦃clock : Ordered T⦄
    ⦃digests : Digests N⦄ where
  -- What createCheckpoint makes of a folded state, before the schema checks it.
  unfoldable pub checkpoint_of : CreateCheckpointOptions N → FoldState N T → FoldCheckpoint N T
  checkpoint_of options state = record {
    include = options.include;
    component_set = get_or options.component_set (text "core-v0.7");
    through = cursor_of (last? state.applied_events);
    event_count = length state.applied_events;
    state_digest = digest_materialized_state (materialize_fold_state state);
    state = materialize_fold_state state;
  }

  -- createCheckpoint
  unfoldable pub create_checkpoint :
      List (FoldLogEntry N T)
      → CreateCheckpointOptions N
      → Result (CheckpointError T) (FoldCheckpoint N T)
  create_checkpoint entries options =
      elim (fold entries (fold_options options.include options.components)) [
        | threw e _ ↦ err (fold_failed e)
        | done state ↦
            let checkpoint = checkpoint_of options state in
            if is_valid_checkpoint checkpoint then ok checkpoint else err invalid_checkpoint
      ]

  -- The conjunction in verifyCheckpoint
  unfoldable pub agrees : FoldCheckpoint N T → FoldCheckpoint N T → Bool
  agrees checkpoint expected =
      checkpoint.event_count == expected.event_count
      && checkpoint.state_digest === expected.state_digest
      && same_cursor checkpoint.through expected.through
      && digest_materialized_state checkpoint.state === checkpoint.state_digest

  -- verifyCheckpoint
  unfoldable pub verify_checkpoint :
      FoldCheckpoint N T
      → List (FoldLogEntry N T)
      → Option (ComponentRegistry N)
      → Result (CheckpointError T) (CheckpointVerification N T)
  verify_checkpoint checkpoint entries components =
      elim (create_checkpoint entries (record {
        include = checkpoint.include;
        components = components;
        component_set = some checkpoint.component_set;
      })) [
        | err e ↦ err e
        | ok expected ↦ ok (record { valid = agrees checkpoint expected; expected = expected })
      ]

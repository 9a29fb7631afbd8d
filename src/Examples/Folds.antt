-- ===== src/Examples/Folds.antt =====
-- Folds, continued folds and sensor statuses at concrete logs.
use mathlib.Core.List.{Permᴰ}
use super_brain.Prelude.{false, ℕ, ◌≡◌, refl, true, none, some, List, [], ◌∷◌, length, ok, arith}
use super_brain.Prelude.Text.{Text, text, text_ordered, ◌===◌, compare_text}
use super_brain.Prelude.Dict.{get, put}
use super_brain.Prelude.Int.{ℤ, pos}
use super_brain.Prelude.Order.Pairs.{pair_ordered}
use super_brain.Prelude.Sort.{sort_by}
use super_brain.Fold.Json.{json_equal, str}
use super_brain.Fold.Schema.{create, merge, set, FoldEvent, Lifecycle, Phase}
use super_brain.Fold.Schema.Validity.{is_valid_event}
use super_brain.Fold.Order.{FoldLogEntry, has, compare_event_keys}
use super_brain.Fold.Keys.{target_key, component_cell_key}
use super_brain.Fold.State.{
  FoldState, FoldOptions, empty_state, canon_and_draft, Outcome, done, threw, diagnose_before,
  ◌>>=◌,
}
use super_brain.Fold.Apply.{
  apply_assertion, apply_change, create_over, write_node, merge_nodes, resolve_node_id,
  resolve_from,
}
use super_brain.Fold.Apply.Redirects.{IsAcyclic}
use super_brain.Fold.Engine.{
  fold, continue_fold, apply_entries, select_entries, arrange, included, merge_components,
  apply_events, apply_event, apply_changes, repeated_target,
}
use super_brain.Fold.Engine.Invariant.{fold-IsAcyclic}
use super_brain.Fold.Engine.Incremental.{IsPlain, apply_entries-append}
use super_brain.Fold.Engine.History.{fold_records, HasNewIds, events_of, changes_of}
use super_brain.Fold.Engine.Reordering.{fold_of_perm}
use super_brain.Fold.Sensors.{
  declared, online, current, sensor_status_at, lifecycle_events, records_of, lifecycle_of,
  snapshot_of, last_declared, declared_by, is_stale, project_changes, project_from,
}
use super_brain.Fold.Sensors.Latest.{IsLatest}
use super_brain.Fold.Sensors.Laws.{
  Declares, sensor_status_at_declared, sensor_status_at-perm, project_changes_keeps,
}
use super_brain.Examples.Samples.{
  sample_numbers, sample_dates, sample_clock, entry, event, change, target,
}

abbrev options : FoldOptions ℤ ℕ
options = record {
  include = canon_and_draft;
  cursor = none;
  components = none;
  existing_create = none;
  retain_applied = none;
  validated_input = some true;
  ordered_input = none;
}

abbrev in_order : FoldOptions ℤ ℕ
in_order = record options { ordered_input = some true }

abbrev created : FoldLogEntry ℤ ℕ
created = entry (text "a") 1 (
    change (create (text "m") (text "place") [])
    ∷ change (create (text "n") (text "place") [])
    ∷ [])

abbrev merged : FoldLogEntry ℤ ℕ
merged = entry (text "b") 2 (change (merge (text "m") (text "n") []) ∷ [])

abbrev log : List (FoldLogEntry ℤ ℕ)
log = created ∷ merged ∷ []

-- The state a fold ends or stops in.
abbrev left_by : Outcome ℤ ℕ → FoldState ℤ ℕ
left_by (done s) = s
left_by (threw e s) = s

abbrev final : FoldState ℤ ℕ
final = left_by (fold log in_order)

fold-log : fold log in_order ≡ done final
unfolding fold apply_entries select_entries arrange apply_events included apply_event
    repeated_target has target_key apply_changes apply_change apply_assertion create_over write_node
    merge_nodes resolve_node_id resolve_from get put ◌===◌ diagnose_before json_equal
    merge_components component_cell_key
fold-log = refl

final_redirects : final.redirects ≡ (text "n", text "m") ∷ []
unfolding fold apply_entries select_entries arrange apply_events included apply_event
    repeated_target has target_key apply_changes apply_change apply_assertion create_over write_node
    merge_nodes resolve_node_id resolve_from get put ◌===◌ diagnose_before json_equal
    merge_components component_cell_key
final_redirects = refl

plain : IsPlain in_order
plain = record { no_cursor = refl; ordered = refl; validated = refl; retained = refl }

apply_entries-append_example : apply_entries empty_state log in_order ≡ (
    apply_entries empty_state (created ∷ []) in_order >>= λ m.
    continue_fold m (merged ∷ []) in_order)
apply_entries-append_example =
    apply_entries-append in_order plain (created ∷ []) (merged ∷ []) empty_state

fold_of_perm_example : fold (merged ∷ created ∷ []) options ≡ fold log options
fold_of_perm_example =
    fold_of_perm (merged ∷ created ∷ []) log options (Permᴰ.swap refl refl)
      (((λ q. ground arith), tt), (tt, tt)) refl refl

fold-IsAcyclic_example :
    IsAcyclic final.redirects
    × ((more : List (FoldLogEntry ℤ ℕ)) (options' : FoldOptions ℤ ℕ) (s' : FoldState ℤ ℕ)
        → continue_fold final more options' ≡ done s'
        → IsAcyclic s'.redirects)
fold-IsAcyclic_example = fold-IsAcyclic log in_order final fold-log

fold_records_example :
    (entries : List (FoldLogEntry ℤ ℕ)) × (select_entries in_order log ≡ ok entries)
    × HasNewIds [] entries
    × (final.applied_events ≡ events_of entries)
    × (final.applied_changes ≡ changes_of entries)
fold_records_example = fold_records log in_order final fold-log refl

abbrev sensor_event : Text → ℕ → Phase → FoldEvent ℤ ℕ
sensor_event id t phase = record (event id t []) {
  lifecycle = some (record {
    sensor = text "urn:sb:s";
    phase = phase;
    observed_at = text "2026";
    heartbeat_window_ms = 10;
  });
}

abbrev sensor_events : List (FoldEvent ℤ ℕ)
sensor_events =
    sensor_event (text "a") 1 Phase.online ∷ sensor_event (text "b") 2 Phase.heartbeat ∷ []

sensor_online : (sensor_status_at sensor_events (text "urn:sb:s") (pos 5)).status ≡ declared online
unfolding sensor_status_at lifecycle_events records_of lifecycle_of snapshot_of last_declared
    declared_by is_stale sort_by compare_event_keys compare_text ◌===◌
sensor_online = refl

sensor_status_at_declared_example :
    ((l : Lifecycle) × IsLatest (text "urn:sb:s") l sensor_events
      × (sample_numbers.lt
            (sample_dates.of_ms l.heartbeat_window_ms)
            (sample_numbers.sub (pos 5) (sample_dates.parse_date l.observed_at))
          ≡ false))
    × ((sensor_status_at sensor_events (text "urn:sb:s") (pos 5)).freshness ≡ current)
    × Declares sensor_events (text "urn:sb:s") online
sensor_status_at_declared_example =
    sensor_status_at_declared sensor_events (text "urn:sb:s") (pos 5) online sensor_online

sensor_status_at-perm_example :
    sensor_status_at sensor_events (text "urn:sb:s") (pos 5)
    ≡ sensor_status_at
        (sensor_event (text "b") 2 Phase.heartbeat ∷ sensor_event (text "a") 1 Phase.online ∷ [])
        (text "urn:sb:s")
        (pos 5)
sensor_status_at-perm_example =
    sensor_status_at-perm (text "urn:sb:s") (pos 5) (Permᴰ.swap refl refl)
      (((λ q. ground arith), tt), (tt, tt))

abbrev plain_event : FoldEvent ℤ ℕ
plain_event = event (text "a") 1 (
    change (set (target (text "s") (text "core.appearance")) (str (text "red")) (str (text "blue")))
    ∷ [])

plain_event_projected : project_changes plain_event (λ c i. c) ≡ some plain_event
unfolding project_changes project_from is_valid_event ◌===◌
plain_event_projected = refl

plain_event_kept :
    (is_valid_event plain_event ≡ true)
    × (plain_event ≡ record plain_event { changes = plain_event.changes })
    × (length plain_event.changes ≡ length plain_event.changes)
plain_event_kept = project_changes_keeps plain_event (λ c i. c) plain_event plain_event_projected

-- ===== src/Examples/Logs.antt =====
-- The order of the log, producer order and forks at concrete logs.
use mathlib.Core.List.{Permᴰ}
use super_brain.Prelude.{ℕ, ◌≡◌, ◌≢◌, ◌↔◌, refl, List, [], ◌∷◌, ok, err, arith}
use super_brain.Prelude.Text.{text, compare_text, text_ordered, ◌===◌}
use super_brain.Prelude.Order.Pairs.{pair_ordered}
use super_brain.Prelude.Sort.{IsSorted, sort_by}
use super_brain.Prelude.Int.{ℤ}
use super_brain.Fold.Order.{
  FoldLogEntry, EventCursor, at_event, at_time, sort_log, compare_event_keys,
  validate_producer_order, resolve_fork_cursor, entries_at, fork_at, up_to, compare_event_to_cursor,
  is_at, not_monotonic, set_id_at, id_at, admit_event,
}
use super_brain.Fold.Order.Sorting.{compare_entries, sort_log-IsSorted_perm, sort_log-canonical}
use super_brain.Fold.Order.Producer.{IsProducerOrder, validate_producer_order_iff}
use super_brain.Fold.Order.Stable.{events_of, sort_log_keeps_authoring}
use super_brain.Fold.Order.Forks.{
  Cut, Identifies, IsOnlyAt, fork_at-Cut, resolve_fork_cursor-Identifies,
  resolve_fork_cursor-ok_iff,
}
use super_brain.Examples.Samples.{sample_clock, entry}

abbrev first : FoldLogEntry ℤ ℕ
first = entry (text "a") 1 []

abbrev second : FoldLogEntry ℤ ℕ
second = entry (text "b") 1 []

abbrev third : FoldLogEntry ℤ ℕ
third = entry (text "c") 5 []

abbrev shuffled : List (FoldLogEntry ℤ ℕ)
shuffled = third ∷ first ∷ second ∷ []

shuffled_sorted : sort_log shuffled ≡ first ∷ second ∷ third ∷ []
unfolding sort_log compare_event_keys compare_text sort_by
shuffled_sorted = refl

shuffled-IsSorted_perm :
    Permᴰ (sort_log shuffled) shuffled × IsSorted compare_entries (sort_log shuffled)
shuffled-IsSorted_perm = sort_log-IsSorted_perm shuffled

differ_ab : text "a" ≢ text "b"
differ_ab h = ground arith

sort_log-canonical_example : sort_log (second ∷ first ∷ []) ≡ sort_log (first ∷ second ∷ [])
sort_log-canonical_example =
    sort_log-canonical (Permᴰ.swap refl refl) (((λ q. ground arith), tt), (tt, tt))

validate_producer_order_iff_example :
    (validate_producer_order (events_of shuffled) ≡ ok tt) ↔ IsProducerOrder (events_of shuffled)
validate_producer_order_iff_example = validate_producer_order_iff (events_of shuffled)

-- Events of one time in the wrong order are refused.
wrong_order :
    validate_producer_order (events_of (second ∷ first ∷ []))
    ≡ err (not_monotonic 1 (text "b") (text "a"))
unfolding validate_producer_order admit_event compare_text ◌===◌ id_at set_id_at
wrong_order = refl

sort_log_keeps_authoring_example : entries_at 1 (sort_log shuffled) ≡ entries_at 1 shuffled
unfolding validate_producer_order admit_event compare_text ◌===◌ id_at set_id_at
sort_log_keeps_authoring_example = sort_log_keeps_authoring 1 shuffled refl

abbrev at_b : EventCursor ℕ
at_b = record { t = 1; event_id = text "b" }

fork_b : fork_at shuffled (at_event at_b) ≡ ok (first ∷ second ∷ [])
unfolding fork_at resolve_fork_cursor is_at up_to compare_event_to_cursor sort_log sort_by
    compare_event_keys compare_text ◌===◌
fork_b = refl

fork_at-Cut_example :
    (resolved : EventCursor ℕ) × (resolve_fork_cursor shuffled (at_event at_b) ≡ ok resolved)
    × Cut resolved (sort_log shuffled) (first ∷ second ∷ [])
fork_at-Cut_example = fork_at-Cut shuffled (at_event at_b) (first ∷ second ∷ []) fork_b

abbrev at_c : EventCursor ℕ
at_c = record { t = 5; event_id = text "c" }

cursor_identified : Identifies at_c shuffled
unfolding resolve_fork_cursor entries_at
cursor_identified = resolve_fork_cursor-Identifies shuffled (at_time 5) at_c refl

resolve_fork_cursor-ok_iff_example :
    ((resolve_fork_cursor shuffled (at_time 5) ≡ ok at_c) ↔ (
      (x : FoldLogEntry ℤ ℕ) × IsOnlyAt 5 x shuffled
      × (record { t = 5; event_id = x.event.id } ≡ at_c)))
    × ((resolve_fork_cursor shuffled (at_event at_c) ≡ ok at_c)
        ↔ ((at_c ≡ at_c) × Identifies at_c shuffled))
resolve_fork_cursor-ok_iff_example = resolve_fork_cursor-ok_iff shuffled 5 at_c at_c

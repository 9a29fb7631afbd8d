-- ===== src/Fold/Order/Sorting.antt =====
-- sortLog of packages/fold/src/order.ts.
use super_brain.Prelude
use super_brain.Prelude.{◌≡◌, refl, List}
use super_brain.Prelude.Text.{Text, text_ordered}
use super_brain.Prelude.Order.{Ordered}
use super_brain.Prelude.Order.Pairs.{compare_pair, pair_ordered}
use super_brain.Prelude.Sort.{IsSorted, sort_by, sort_by-perm}
use super_brain.Prelude.Sort.Laws.{by_key, HasDistinctKeys, sort_by-IsSorted, sort_by-canonical}
use super_brain.Fold.Order.{FoldLogEntry, compare_event_keys, sort_log}
use mathlib.Core.List.{Permᴰ}

module _ {N T : Type 0} ⦃clock : Ordered T⦄ where
  -- The key by which the log is ordered.
  abbrev pub event_key : FoldLogEntry N T → T × Text
  event_key entry = (entry.event.t, entry.event.id)

  abbrev pub compare_entries : FoldLogEntry N T → FoldLogEntry N T → Prelude.Ordering
  compare_entries left right = compare_event_keys left.event right.event

  pub sort_log-by_key :
      (entries : List (FoldLogEntry N T)) → sort_log entries ≡ sort_by (by_key event_key) entries
  unfolding sort_log compare_event_keys compare_pair
  sort_log-by_key entries = refl

  -- Sorting the log keeps exactly its entries, each as often, and puts every two of them in the
  -- order of time and then id.
  pub sort_log-IsSorted_perm :
      (entries : List (FoldLogEntry N T))
      → Permᴰ (sort_log entries) entries × IsSorted compare_entries (sort_log entries)
  unfolding sort_log compare_event_keys compare_pair
  sort_log-IsSorted_perm entries = (sort_by-perm _ entries, sort_by-IsSorted event_key entries)

  -- Two logs with the same entries, no two of which share both time and id, are sorted to the same
  -- list: the order in which the entries were stored has no influence.
  pub sort_log-canonical :
      {xs ys : List (FoldLogEntry N T)}
      → Permᴰ xs ys
      → HasDistinctKeys event_key xs
      → sort_log xs ≡ sort_log ys
  unfolding sort_log compare_event_keys compare_pair
  sort_log-canonical p d = sort_by-canonical event_key p d

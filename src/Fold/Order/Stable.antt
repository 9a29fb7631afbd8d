-- ===== src/Fold/Order/Stable.antt =====
-- validateProducerOrder and sortLog of packages/fold/src/order.ts together: equal-time ids "must
-- already be increasing, otherwise sorting would rewrite authoring order".
use super_brain.Prelude.{◌≡◌, refl, ◌∙◌, List, [], ◌∷◌, All, All-perm, map, ok, arith}
use super_brain.Prelude.Text.{text_ordered}
use super_brain.Prelude.Order.{Ordered}
use super_brain.Prelude.Order.Pairs.{pair_ordered}
use super_brain.Prelude.Sort.{insert_by, sort_by, sort_by-perm}
use mathlib.Core.List.Permᴰ as PermD
use super_brain.Fold.Schema.{FoldEvent}
use super_brain.Fold.Order.{
  FoldLogEntry, compare_event_keys, sort_log, entries_at, validate_producer_order,
}
use super_brain.Fold.Order.Sorting.{compare_entries}
use super_brain.Fold.Order.Producer.{MayFollow, IsProducerOrder, validate_producer_order_iff}

module _ {N T : Type 0} ⦃clock : Ordered T⦄ where
  abbrev Precedes : FoldLogEntry N T → FoldLogEntry N T → Type 0
  Precedes x y = MayFollow x.event y.event

  abbrev pub events_of : List (FoldLogEntry N T) → List (FoldEvent N T)
  events_of entries = map (λ entry. entry.event) entries

  entries_at-insert_by :
      (t : T) (x : FoldLogEntry N T) (ys : List (FoldLogEntry N T))
      → All (Precedes x) ys
      → entries_at t (insert_by compare_entries x ys) ≡ entries_at t (x ∷ ys)
  unfolding entries_at insert_by compare_event_keys
  entries_at-insert_by t x [] a = refl
  entries_at-insert_by t x (y ∷ ys) ((p, q), a) = ground (
    arith,
    entries_at-insert_by t x ys a,
    q,
    clock.eq_of_cmp x.event.t y.event.t,
    clock.eq_of_cmp x.event.t t,
    clock.eq_of_cmp y.event.t t,
    clock.cmp_self t,
  )

  All-events :
      (x : FoldLogEntry N T) (ys : List (FoldLogEntry N T))
      → All (MayFollow x.event) (events_of ys)
      → All (Precedes x) ys
  All-events x [] a = tt
  All-events x (y ∷ ys) (p, a) = (p, All-events x ys a)

  entries_at-sorted :
      (t : T) (entries : List (FoldLogEntry N T))
      → IsProducerOrder (events_of entries)
      → entries_at t (sort_by compare_entries entries) ≡ entries_at t entries
  unfolding sort_by entries_at
  entries_at-sorted t [] p = refl
  entries_at-sorted t (x ∷ xs) (a, p) =
      entries_at-insert_by t x (sort_by compare_entries xs)
        (All-perm (Precedes x) (PermD.symm (sort_by-perm compare_entries xs)) (All-events x xs a))
      ∙ (rw (entries_at-sorted t xs p))

  -- Sorting a log whose events validateProducerOrder accepts leaves the events of any one time in
  -- the order in which the producer wrote them.
  pub sort_log_keeps_authoring :
      (t : T) (entries : List (FoldLogEntry N T))
      → validate_producer_order (events_of entries) ≡ ok tt
      → entries_at t (sort_log entries) ≡ entries_at t entries
  unfolding sort_log
  sort_log_keeps_authoring t entries h =
      entries_at-sorted t entries ((validate_producer_order_iff (events_of entries)).0 h)

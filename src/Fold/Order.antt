-- ===== src/Fold/Order.antt =====
-- packages/fold/src/order.ts: the order of the log by time and id, the check of a producer's order,
-- and fork cursors. A comparator's number is the `Ordering` of its sign: the difference of two
-- finite times is 0 for equal times only, and has the sign of their order.
pub mod Sorting
pub mod Producer
pub mod Stable
pub mod Forks
use super_brain.Prelude.{
  ℕ, Bool, true, false, ◌&&◌, ◌||◌, not, ◌==◌, Option, none, some, List, [], ◌∷◌, length, any,
  if◌then◌else◌, Ordering, Result, ok, err, throw_if, ◌>>=◌, ◌>>◌,
}
use super_brain.Prelude.Text.{Text, ◌===◌, compare_text}
use super_brain.Prelude.Order.{Ordered, then_by, is_le, is_eq, is_lt}
use super_brain.Prelude.Sort.{sort_by}
use super_brain.Fold.Schema.{FoldEvent}

pub data Status : Type 0 where
  draft canon : Status

pub record FoldLogEntry (N T : Type 0) : Type 0 where
  pub event : FoldEvent N T
  pub status : Status

pub record EventCursor (T : Type 0) : Type 0 where
  pub t : T
  pub event_id : Text

-- ForkCursor: an event's key, or a bare time.
pub data ForkCursor (T : Type 0) : Type 0 where
  at_event : EventCursor T → ForkCursor T
  at_time : T → ForkCursor T

-- EventOrderError, with what its message tells.
pub data EventOrderError (T : Type 0) : Type 0 where
  duplicate_event_id : Text → EventOrderError T
  not_monotonic : T → (previous current : Text) → EventOrderError T
  no_such_event : EventCursor T → EventOrderError T
  not_exactly_one : T → (found : ℕ) → EventOrderError T

module _ {N T : Type 0} ⦃clock : Ordered T⦄ where
  -- compareEventKeys
  unfoldable pub compare_event_keys : FoldEvent N T → FoldEvent N T → Ordering
  compare_event_keys left right = then_by (clock.cmp left.t right.t) (compare_text left.id right.id)

  -- compareEventToCursor
  unfoldable pub compare_event_to_cursor : FoldEvent N T → EventCursor T → Ordering
  compare_event_to_cursor event cursor =
      then_by (clock.cmp event.t cursor.t) (compare_text event.id cursor.event_id)

  -- sortLog
  unfoldable pub sort_log : List (FoldLogEntry N T) → List (FoldLogEntry N T)
  sort_log entries = sort_by (λ left right. compare_event_keys left.event right.event) entries

-- `ids.has(id)` on a `Set<string>`
unfoldable pub has : List Text → Text → Bool
has ids id = any (λ s. s === id) ids

-- `previousId !== undefined && compareCodeUnits(previousId, id) >= 0`
unfoldable pub blocked_by : Option Text → Text → Option Text
blocked_by none id = none
blocked_by (some previous) id = if is_lt (compare_text previous id) then none else some previous

module _ {T : Type 0} ⦃clock : Ordered T⦄ where
  -- `previousIdAtTime.get(t)` and `previousIdAtTime.set(t, id)`
  unfoldable pub id_at : T → List (T × Text) → Option Text
  id_at t [] = none
  id_at t ((s, id) ∷ m) = if is_eq (clock.cmp s t) then some id else id_at t m

  unfoldable pub set_id_at : T → Text → List (T × Text) → List (T × Text)
  set_id_at t id [] = (t, id) ∷ []
  set_id_at t id ((s, j) ∷ m) =
      if is_eq (clock.cmp s t) then (s, id) ∷ m else (s, j) ∷ set_id_at t id m

  -- The body of the loop of validateProducerOrder: the new `eventIds` and `previousIdAtTime`.
  unfoldable pub admit_event :
      {N : Type 0}
      → List Text × List (T × Text)
      → FoldEvent N T
      → Result (EventOrderError T) (List Text × List (T × Text))
  unfolding has blocked_by
  admit_event (ids, previous) event = do
    throw_if (has ids event.id) (duplicate_event_id event.id)
    elim (blocked_by (id_at event.t previous) event.id) [
      | some p ↦ err (not_monotonic event.t p event.id)
      | none ↦ ok (event.id ∷ ids, set_id_at event.t event.id previous)
    ]

  unfoldable pub validate_from :
      {N : Type 0}
      → List Text × List (T × Text)
      → List (FoldEvent N T)
      → Result (EventOrderError T) (Unit {0})
  validate_from seen [] = ok tt
  validate_from seen (event ∷ events) = do
    seen' ← admit_event seen event
    validate_from seen' events

  -- validateProducerOrder
  unfoldable pub validate_producer_order :
      {N : Type 0} → List (FoldEvent N T) → Result (EventOrderError T) (Unit {0})
  unfolding validate_from
  validate_producer_order events = validate_from ([], []) events

module _ {N T : Type 0} ⦃clock : Ordered T⦄ where
  -- `event.at.t === cursor.t && event.id === cursor.eventId`
  unfoldable pub is_at : EventCursor T → FoldLogEntry N T → Bool
  is_at cursor entry =
      is_eq (clock.cmp entry.event.t cursor.t) && (entry.event.id === cursor.event_id)

  -- `entries.filter(({ event }) => event.at.t === cursor)`
  unfoldable pub entries_at : T → List (FoldLogEntry N T) → List (FoldLogEntry N T)
  entries_at t [] = []
  entries_at t (entry ∷ entries) =
      if is_eq (clock.cmp entry.event.t t)
      then entry ∷ entries_at t entries
      else entries_at t entries

  -- The end of resolveForkCursor for a bare time, over the matches.
  unfoldable pub only_match :
      T → List (FoldLogEntry N T) → Result (EventOrderError T) (EventCursor T)
  only_match t (entry ∷ []) = ok (record { t = t; event_id = entry.event.id })
  only_match t matches = err (not_exactly_one t (length matches))

  -- resolveForkCursor
  unfoldable pub resolve_fork_cursor :
      List (FoldLogEntry N T) → ForkCursor T → Result (EventOrderError T) (EventCursor T)
  unfolding only_match
  resolve_fork_cursor entries (at_event cursor) =
      if any (is_at cursor) entries then ok cursor else err (no_such_event cursor)
  resolve_fork_cursor entries (at_time t) = only_match t (entries_at t entries)

  -- The filter of forkAt
  unfoldable pub up_to : EventCursor T → List (FoldLogEntry N T) → List (FoldLogEntry N T)
  up_to cursor [] = []
  up_to cursor (entry ∷ entries) =
      if is_le (compare_event_to_cursor entry.event cursor)
      then entry ∷ up_to cursor entries
      else up_to cursor entries

  -- forkAt
  unfoldable pub fork_at :
      List (FoldLogEntry N T) → ForkCursor T → Result (EventOrderError T) (List (FoldLogEntry N T))
  fork_at entries cursor = do
    resolved ← resolve_fork_cursor entries cursor
    ok (up_to resolved (sort_log entries))

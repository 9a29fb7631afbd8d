-- ===== src/Worker/Windows.antt =====
-- The types of apps/memory-worker/src/scheduler.ts and what it accepts as a window and as a state.
-- An instant in milliseconds is a natural number, since counterValid refuses every other.
use super_brain.Prelude.{
  ℕ, ◌+◌, ◌*◌, ◌-◌, Bool, true, false, ◌&&◌, ◌||◌, not, leb, ltb, ◌==◌, Option, none, some, List,
  [], ◌∷◌, all, length, last?, map, is_some,
}
use super_brain.Prelude.Text.{Text, ◌===◌}
use super_brain.Fold.Json.{Numbers}
use super_brain.Fold.Schema.{FoldEvent}
use super_brain.Fold.Schema.Validity.{Dates, non_empty, optional, is_digit, is_valid_event}
use super_brain.Fold.Order.{has}
use super_brain.Storage.Records.{is_digest}

pub record ScheduledSource (T : Type 0) : Type 0 where
  pub event_id : Text
  pub digest : Text
  pub sequence : Option Text
  pub source_time : T

pub data Trigger : Type 0 where
  on_count on_elapsed on_completion on_capacity manual : Trigger

-- A SchedulingWindow without its `id`.
pub record WindowIdentity (T : Type 0) : Type 0 where
  pub policy : Text
  pub partition : Text
  pub project_id : Option Text
  pub parent_window_id : Option Text
  pub trigger : Trigger
  pub opened_at : ℕ
  pub sealed_at : ℕ
  pub sources : List (ScheduledSource T)

pub record SchedulingWindow (T : Type 0) : Type 0 where
  pub id : Text
  pub identity : WindowIdentity T

pub record OpenWindow (N T : Type 0) : Type 0 where
  pub partition : Text
  pub project_id : Option Text
  pub opened_at : ℕ
  pub sources : List (ScheduledSource T)
  pub anchor : FoldEvent N T

pub record OutboxItem (N T : Type 0) : Type 0 where
  pub window : SchedulingWindow T
  pub anchor : FoldEvent N T

pub record SchedulerState (N T : Type 0) : Type 0 where
  pub policy : Text
  pub through : Text
  pub excluded : ℕ
  pub windows : List (OpenWindow N T)
  pub outbox : List (OutboxItem N T)

-- processingDigest, a hash of the canonical JSON of an event or a window; and the size in bytes of
-- the JSON of a state.
pub record Hashes (N T : Type 0) : Type 0 where
  pub event_digest : FoldEvent N T → Text
  pub window_digest : WindowIdentity T → Text
  pub byte_length : SchedulerState N T → ℕ

-- counterValid, for a number that is not negative
unfoldable pub counter_valid : ℕ → Bool
counter_valid n = leb n 9_007_199_254_740_991

-- `BigInt(value)` of a text of digits
unfoldable pub digits_value : (acc : ℕ) → Text → ℕ
digits_value acc [] = acc
digits_value acc (c ∷ cs) = digits_value (acc * 10 + (c - b'0')) cs

unfoldable pub big_int : Text → ℕ
unfolding digits_value
big_int s = digits_value 0 s

-- `/^(?:0|[1-9][0-9]{0,18})$/`
unfoldable pub is_sequence_text : Text → Bool
is_sequence_text [] = false
is_sequence_text (c ∷ cs) =
    (c == b'0' && not (non_empty cs))
    || (leb b'1' c && leb c b'9' && all is_digit cs && leb (length cs) 18)

-- sequenceValid
unfoldable pub sequence_valid : Text → Bool
unfolding is_sequence_text big_int
sequence_valid s = is_sequence_text s && leb (big_int s) 9_223_372_036_854_775_807

-- `new Set(values).size === values.length`
unfoldable pub all_distinct : List Text → Bool
unfolding has
all_distinct [] = true
all_distinct (s ∷ ss) = not (has ss s) && all_distinct ss

-- `a === undefined || b === undefined || BigInt(b) > BigInt(a)`
unfoldable pub rises : Option Text → Option Text → Bool
unfolding big_int
rises none _ = true
rises (some a) none = true
rises (some a) (some b) = ltb (big_int a) (big_int b)

module _ {T : Type 0} where
  unfoldable pub rising : List (ScheduledSource T) → Bool
  unfolding rises
  rising [] = true
  rising (a ∷ []) = true
  rising (a ∷ b ∷ sources) = rises a.sequence b.sequence && rising (b ∷ sources)

  unfoldable pub source_valid : ScheduledSource T → Bool
  unfolding sequence_valid is_digest
  source_valid source =
      non_empty source.event_id
      && is_digest source.digest
      && optional sequence_valid source.sequence

  -- sourcesValid
  unfoldable pub sources_valid : List (ScheduledSource T) → Bool
  unfolding source_valid rising all_distinct
  sources_valid sources =
      ltb 0 (length sources)
      && leb (length sources) 1_000
      && all source_valid sources
      && rising sources
      && all_distinct (map (λ source. source.event_id) sources)

  -- `sources.every((source) => source.sequence !== undefined)`
  abbrev pub all_sequenced : List (ScheduledSource T) → Bool
  all_sequenced sources = all (λ source. is_some source.sequence) sources

  -- `BigInt(sources.at(-1)!.sequence!) <= BigInt(through)`
  unfoldable pub is_through : Text → List (ScheduledSource T) → Bool
  unfolding big_int
  is_through through sources = elim (last? sources) [
    | none ↦ false
    | some source ↦ elim source.sequence [
      | none ↦ false
      | some sequence ↦ leb (big_int sequence) (big_int through)
    ]
  ]

abbrev pub is_manual : Trigger → Bool
is_manual manual = true
is_manual _ = false

-- validateSchedulingWindow
unfoldable pub window_valid :
    {T : Type 0} → (window_digest : WindowIdentity T → Text) → SchedulingWindow T → Bool
unfolding sources_valid counter_valid is_digest
window_valid window_digest window =
    let item = window.identity in
    is_digest window.id
    && is_digest item.policy
    && is_digest item.partition
    && optional non_empty item.project_id
    && optional is_digest item.parent_window_id
    && counter_valid item.opened_at
    && counter_valid item.sealed_at
    && leb item.opened_at item.sealed_at
    && sources_valid item.sources
    && (is_manual item.trigger || is_some item.parent_window_id || all_sequenced item.sources)
    && window_digest item === window.id

module _ {N T : Type 0} ⦃hashes : Hashes N T⦄ ⦃number : Numbers N⦄ ⦃dates : Dates N⦄ where
  -- The anchor is the event of the last source.
  unfoldable pub anchored : FoldEvent N T → List (ScheduledSource T) → Bool
  anchored anchor sources = is_valid_event anchor && (elim (last? sources) [
    | none ↦ false
    | some source ↦ anchor.id === source.event_id && hashes.event_digest anchor === source.digest
  ])

  unfoldable pub open_window_valid : (through : Text) → OpenWindow N T → Bool
  unfolding sources_valid counter_valid anchored is_through is_digest
  open_window_valid through window =
      is_digest window.partition
      && counter_valid window.opened_at
      && sources_valid window.sources
      && optional non_empty window.project_id
      && anchored window.anchor window.sources
      && all_sequenced window.sources
      && is_through through window.sources

  unfoldable pub item_valid : (policy through : Text) → OutboxItem N T → Bool
  unfolding window_valid anchored is_through
  item_valid policy through item =
      let sources = item.window.identity.sources in
      window_valid hashes.window_digest item.window
      && item.window.identity.policy === policy
      && anchored item.anchor sources
      && all_sequenced sources
      && is_through through sources

  -- validateState
  unfoldable pub state_valid : (policy : Text) → SchedulerState N T → Bool
  unfolding sequence_valid counter_valid all_distinct open_window_valid item_valid
  state_valid policy state =
      state.policy === policy
      && sequence_valid state.through
      && counter_valid state.excluded
      && leb (length state.windows) 1_000
      && leb (length state.outbox) 1_000
      && all_distinct (map (λ window. window.partition) state.windows)
      && all (open_window_valid state.through) state.windows
      && all (item_valid policy state.through) state.outbox

-- ===== src/Worker/Sealing.antt =====
-- The windows of apps/memory-worker/src/scheduler.ts: how a state takes in a source and seals windows,
-- before it is persisted; and the options and errors of a scheduler.
use super_brain.Prelude.{
  ℕ, ◌+◌, Bool, true, false, ◌&&◌, ◌||◌, leb, ltb, Option, none, some, List, [], ◌∷◌, ◌++◌, length,
  get_or, if◌then◌else◌, Result, ok, err,
}
use super_brain.Prelude.Text.{Text, ◌===◌}
use super_brain.Fold.Json.{Numbers}
use super_brain.Fold.Schema.{FoldEvent}
use super_brain.Fold.Schema.Validity.{Dates}
use super_brain.Storage.Records.{is_digest}
use super_brain.Worker.Windows.{
  ScheduledSource, Trigger, on_count, on_elapsed, on_completion, on_capacity, WindowIdentity,
  OpenWindow, OutboxItem, SchedulerState, Hashes, state_valid,
}

pub data SchedulerError : Type 0 where
  invalid_policy invalid_sequence invalid_observation invalid_timer not_open invalid_partition
        scope_changed invalid_state backpressure delivery_failed write_failed :
      SchedulerError

pub record SchedulerOptions : Type 0 where
  pub policy : Text
  pub every : ℕ
  pub elapsed_ms : ℕ
  pub capacity : Option ℕ

-- `window.projectId === source.projectId`
abbrev pub same_project : Option Text → Option Text → Bool
same_project none none = true
same_project (some a) (some b) = a === b
same_project _ _ = false

-- `source === undefined`
abbrev pub is_undefined {ℓ} : {A : Type ℓ} → Option A → Bool
is_undefined none = true
is_undefined (some a) = false

-- The constructor's checks
unfoldable pub options_valid : SchedulerOptions → Bool
unfolding is_digest
options_valid options =
    is_digest options.policy
    && leb 1 options.every
    && leb options.every 100_000
    && leb 1 options.elapsed_ms
    && leb options.elapsed_ms 86_400_000
    && leb 1 (get_or options.capacity 1_000)
    && leb (get_or options.capacity 1_000) 1_000

-- An entry of readSchedulingCoverage
pub record SchedulingCoverage : Type 0 where
  pub policy : Text
  pub through : Text
  pub excluded_sources : ℕ
  pub open_windows : ℕ
  pub open_window_sources : ℕ
  pub pending_windows : ℕ
  pub pending_sources : ℕ

pub record ObservedSource (N T : Type 0) : Type 0 where
  pub event : FoldEvent N T
  pub partition : Text
  pub project_id : Option Text
  pub completion : Bool

-- An open window among the windows of a state.
pub record Slot (N T : Type 0) : Type 0 where
  pub before : List (OpenWindow N T)
  pub window : OpenWindow N T
  pub after : List (OpenWindow N T)

module _ {N T : Type 0} where
  -- `state.windows.find(item => item.partition === partition)`
  unfoldable pub find_slot : (partition : Text) → List (OpenWindow N T) → Option (Slot N T)
  find_slot partition [] = none
  find_slot partition (window ∷ windows) =
      if window.partition === partition
      then some (record { before = []; window = window; after = windows })
      else elim (find_slot partition windows) [
        | none ↦ none
        | some slot ↦ some (record slot { before = window ∷ slot.before })
      ]

  -- The number of sources in open windows, and in the outbox
  unfoldable pub open_sources : List (OpenWindow N T) → ℕ
  open_sources [] = 0
  open_sources (window ∷ windows) = length window.sources + open_sources windows

  unfoldable pub outbox_sources : List (OutboxItem N T) → ℕ
  outbox_sources [] = 0
  outbox_sources (item ∷ items) = length item.window.identity.sources + outbox_sources items

  -- `now >= window.openedAt + this.options.elapsedMs`
  unfoldable pub is_elapsed : SchedulerOptions → (now : ℕ) → OpenWindow N T → Bool
  is_elapsed options now window = leb (window.opened_at + options.elapsed_ms) now

module _ {N T : Type 0} ⦃hashes : Hashes N T⦄ where
  -- The item that seal pushes on the outbox
  unfoldable pub sealed_item :
      SchedulerOptions → Trigger → (now : ℕ) → OpenWindow N T → OutboxItem N T
  sealed_item options trigger now window =
      let identity : WindowIdentity T = record {
        policy = options.policy;
        partition = window.partition;
        project_id = window.project_id;
        parent_window_id = none;
        trigger = trigger;
        opened_at = window.opened_at;
        sealed_at = if leb window.opened_at now then now else window.opened_at;
        sources = window.sources;
      } in
      record {
        window = record { id = hashes.window_digest identity; identity = identity };
        anchor = window.anchor;
      }

  -- seal
  unfoldable pub seal :
      SchedulerOptions
      → SchedulerState N T
      → Slot N T
      → Trigger
      → (now : ℕ) → Result SchedulerError (SchedulerState N T)
  seal options state slot trigger now =
      if leb 1_000 (length state.outbox)
      then err backpressure
      else ok (record state {
        outbox = state.outbox ++ sealed_item options trigger now slot.window ∷ [];
        windows = slot.before ++ slot.after;
      })

  -- A window is made and put behind the others.
  unfoldable pub new_slot :
      (now : ℕ)
      → ObservedSource N T
      → SchedulerState N T
      → Result SchedulerError (SchedulerState N T × Slot N T)
  new_slot now source state =
      if leb 1_000 (length state.windows)
      then err backpressure
      else ok (
        state,
        record {
          before = state.windows;
          window = record {
            partition = source.partition;
            project_id = source.project_id;
            opened_at = now;
            sources = [];
            anchor = source.event;
          };
          after = [];
        },
      )

  -- The window for a source: the open one of its partition unless its time is over, or a new one.
  unfoldable pub open_slot :
      SchedulerOptions
      → (now : ℕ) → ObservedSource N T
      → SchedulerState N T
      → Result SchedulerError (SchedulerState N T × Slot N T)
  unfolding new_slot is_elapsed
  open_slot options now source state = elim (find_slot source.partition state.windows) [
    | none ↦ new_slot now source state
    | some slot ↦
        if is_elapsed options now slot.window
        then elim (seal options state slot on_elapsed now) [
          | ok sealed ↦ new_slot now source sealed
          | err e ↦ err e
        ]
        else ok (state, slot)
  ]

  -- The source that observe records of an event
  unfoldable pub source_of : (sequence : Text) → FoldEvent N T → ScheduledSource T
  source_of sequence event = record {
    event_id = event.id;
    digest = hashes.event_digest event;
    sequence = some sequence;
    source_time = event.t;
  }

  -- The trigger that seals a window after a source was added to it
  unfoldable pub trigger_for :
      SchedulerOptions → (completion : Bool) → OpenWindow N T → Option Trigger
  trigger_for options completion window =
      if completion
      then some on_completion
      else if leb options.every (length window.sources)
      then some on_count
      else if leb (get_or options.capacity 1_000) (length window.sources)
      then some on_capacity
      else none

  -- The window with the source, in its place or sealed
  unfoldable pub add_source :
      SchedulerOptions
      → (sequence : Text) → (now : ℕ) → ObservedSource N T
      → SchedulerState N T
      → Slot N T
      → Result SchedulerError (SchedulerState N T)
  unfolding source_of trigger_for
  add_source options sequence now source state slot =
      let window = record slot.window {
        sources = slot.window.sources ++ source_of sequence source.event ∷ [];
        anchor = source.event;
      } in
      if same_project slot.window.project_id source.project_id
      then elim (trigger_for options source.completion window) [
        | none ↦ ok (record state { windows = slot.before ++ window ∷ slot.after })
        | some trigger ↦ seal options state (record slot { window = window }) trigger now
      ]
      else err scope_changed

  -- observe, from the clone of the state to the state to persist
  unfoldable pub admit :
      SchedulerOptions
      → (sequence : Text) → Option (ObservedSource N T)
      → (now : ℕ) → (excluded : Bool) → SchedulerState N T
      → Result SchedulerError (SchedulerState N T)
  unfolding open_slot add_source
  admit options sequence none now excluded state = ok (record state {
    through = sequence;
    excluded = if excluded then state.excluded + 1 else state.excluded;
  })
  admit options sequence (some source) now excluded state =
      let counted = record state {
        through = sequence;
        excluded = if excluded then state.excluded + 1 else state.excluded;
      } in
      if is_digest source.partition
      then elim (open_slot options now source counted) [
        | err e ↦ err e
        | ok (opened, slot) ↦ add_source options sequence now source opened slot
      ]
      else err invalid_partition

  -- The loop of tick over the windows, of which `kept` stay open
  unfoldable pub seal_elapsed :
      SchedulerOptions
      → (now : ℕ) → (kept : List (OpenWindow N T)) → List (OpenWindow N T)
      → SchedulerState N T
      → Result SchedulerError (SchedulerState N T)
  unfolding is_elapsed
  seal_elapsed options now kept [] state = ok state
  seal_elapsed options now kept (window ∷ windows) state = elim (is_elapsed options now window) [
    | true ↦
        elim (seal options state (record { before = kept; window = window; after = windows })
          on_elapsed now) [
            | err e ↦ err e
            | ok sealed ↦ seal_elapsed options now kept windows sealed
          ]
    | false ↦ seal_elapsed options now (kept ++ window ∷ []) windows state
  ]

  -- The test of persist on the size of a state
  unfoldable pub is_too_large : (admission : Bool) → SchedulerState N T → Bool
  is_too_large admission state =
      ltb 10_000 (open_sources state.windows + outbox_sources state.outbox)
      || ltb (if admission then 15_728_640 else 16_777_216) (hashes.byte_length state)

module _ {N T : Type 0} where
  -- A summary of readSchedulingCoverage
  unfoldable pub scheduling_coverage : SchedulerState N T → SchedulingCoverage
  unfolding open_sources outbox_sources
  scheduling_coverage state = record {
    policy = state.policy;
    through = state.through;
    excluded_sources = state.excluded;
    open_windows = length state.windows;
    open_window_sources = open_sources state.windows;
    pending_windows = length state.outbox;
    pending_sources = outbox_sources state.outbox;
  }

module _ {N T : Type 0} ⦃hashes : Hashes N T⦄ ⦃number : Numbers N⦄ ⦃dates : Dates N⦄ where
  -- readSchedulingCoverage, of the stored states and their ids
  unfoldable pub read_scheduling_coverage :
      List (Text × SchedulerState N T) → Result SchedulerError (List SchedulingCoverage)
  unfolding scheduling_coverage
  read_scheduling_coverage [] = ok []
  read_scheduling_coverage ((id, state) ∷ states) =
      if state_valid id state
      then (elim (read_scheduling_coverage states) [
        | err e ↦ err e
        | ok summaries ↦ ok (scheduling_coverage state ∷ summaries)
      ])
      else err invalid_state

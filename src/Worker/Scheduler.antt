-- ===== src/Worker/Scheduler.antt =====
-- DurableWindowScheduler of apps/memory-worker/src/scheduler.ts. Operations run one after another
-- (`serialize`); the calls of the delivery and of the store are those of an environment.
pub mod Flush
pub mod Accounting
pub mod Liveness
use super_brain.Prelude.{
  ℕ, ◌+◌, ◌*◌, Bool, true, false, ◌&&◌, ◌||◌, not, leb, ltb, ◌==◌, Option, none, some, List, [],
  ◌∷◌, ◌++◌, length, get_or, if◌then◌else◌, Result, ok, err,
}
use super_brain.Prelude.Text.{Text, ◌===◌}
use super_brain.Fold.Json.{Numbers}
use super_brain.Fold.Schema.{FoldEvent}
use super_brain.Fold.Schema.Validity.{Dates}
use super_brain.Storage.Records.{is_digest}
use super_brain.Worker.Windows.{
  ScheduledSource, Trigger, on_count, on_elapsed, on_completion, on_capacity, WindowIdentity,
  SchedulingWindow, OpenWindow, OutboxItem, SchedulerState, Hashes, counter_valid, big_int,
  sequence_valid, state_valid,
}
use super_brain.Worker.Sealing.{
  ObservedSource, SchedulerError, SchedulerOptions, Slot, add_source, admit, backpressure,
  delivery_failed, find_slot, invalid_observation, invalid_partition, invalid_policy,
  invalid_sequence, invalid_state, invalid_timer, is_elapsed, is_too_large, is_undefined, new_slot,
  not_open, open_slot, open_sources, options_valid, outbox_sources, same_project, scope_changed,
  seal, seal_elapsed, sealed_item, source_of, trigger_for, write_failed,
}

-- What a call of `deliver` does: it resolves, or rejects with ProcessingBackpressureError or another
-- error.
pub data Delivery : Type 0 where
  accepted refused failed : Delivery

-- What a call of writeSchedulerState does: it resolves; it rejects and the store is as it was; or it
-- rejects after the rename (syncDirectory), when the store has the new state.
pub data Writing : Type 0 where
  written unwritten unconfirmed : Writing

pub record Environment (N T W : Type 0) : Type 0 where
  pub deliver : OutboxItem N T → W → Delivery × W
  pub write : SchedulerState N T → W → Writing × W

-- `memory` is `this.state`, `stored` the checkpoint in the store. `acknowledged` lists the items whose
-- delivery was accepted and whose removal from the outbox is confirmed: persist returned, and they
-- are out of `memory`. The oldest stand first.
pub record Scheduler (N T W : Type 0) : Type 0 where
  pub memory : Option (SchedulerState N T)
  pub stored : Option (SchedulerState N T)
  pub acknowledged : List (OutboxItem N T)
  pub world : W

-- An operation returns or throws, and leaves a scheduler in either case.
pub data Run (N T W : Type 0) : Type 0 where
  returned : Scheduler N T W → Run N T W
  threw : SchedulerError → Scheduler N T W → Run N T W

module _ {N T W : Type 0} where
  infixl 5 ◌>>=◌
  abbrev pub ◌>>=◌ : Run N T W → (Scheduler N T W → Run N T W) → Run N T W
  returned s >>= f = f s
  threw e s >>= f = threw e s

  -- What is left when the operation has ended.
  abbrev pub left_by : Run N T W → Scheduler N T W
  left_by (returned s) = s
  left_by (threw e s) = s

module _ {N T W : Type 0} where
  -- `catch (error) { if (error instanceof ProcessingBackpressureError) return; throw error; }`
  unfoldable pub unless_backpressure : SchedulerError → Scheduler N T W → Run N T W
  unless_backpressure backpressure s = returned s
  unless_backpressure e s = threw e s

  -- What follows `if (this.state === undefined) throw error`
  abbrev pub with_state :
      SchedulerError
      → Scheduler N T W
      → Option (SchedulerState N T)
      → (SchedulerState N T → Run N T W)
      → Run N T W
  with_state error s none use_state = threw error s
  with_state error s (some state) use_state = use_state state

module _ {N T W : Type 0} ⦃hashes : Hashes N T⦄ ⦃number : Numbers N⦄ ⦃dates : Dates N⦄
    (environment : Environment N T W) (options : SchedulerOptions) where
  -- persist
  unfoldable pub persist : SchedulerState N T → (admission : Bool) → Scheduler N T W → Run N T W
  persist state admission s =
      if state_valid options.policy state
      then if is_too_large admission state
        then threw backpressure s
        else (let (writing, world) = environment.write state s.world in
            elim writing [
              | written ↦
                  returned (record s { memory = some state; stored = some state; world = world })
              | unwritten ↦ threw write_failed (record s { world = world })
              | unconfirmed ↦ threw write_failed (record s { stored = some state; world = world })
            ])
      else threw invalid_state s

  -- The loop of flush, over the items of the outbox of `state`, which is `this.state`
  unfoldable pub flush_items :
      List (OutboxItem N T) → SchedulerState N T → Scheduler N T W → Run N T W
  flush_items [] state s = returned s
  flush_items (item ∷ items) state s =
      let (delivery, world) = environment.deliver item s.world in
      elim delivery [
        | refused ↦ returned (record s { world = world })
        | failed ↦ threw delivery_failed (record s { world = world })
        | accepted ↦
            persist (record state { outbox = items }) false (record s { world = world }) >>= λ t.
            flush_items items (record state { outbox = items })
              (record t { acknowledged = t.acknowledged ++ item ∷ [] })
      ]

  -- flush
  unfoldable pub flush : Scheduler N T W → Run N T W
  unfolding flush_items
  flush s = with_state not_open s s.memory (λ state. flush_items state.outbox state s)

  -- open, with what the store holds
  unfoldable pub start : (initial_sequence : Text) → Scheduler N T W → Run N T W
  start initial_sequence s =
      if sequence_valid initial_sequence
      then elim s.stored [
        | some existing ↦
            if state_valid options.policy existing
            then flush (record s { memory = some existing })
            else threw invalid_state s
        | none ↦
            persist
              (record {
                policy = options.policy;
                through = initial_sequence;
                excluded = 0;
                windows = [];
                outbox = [];
              })
              false s
            >>= λ t. flush t
      ]
      else threw invalid_sequence s

  -- observe after its flush, over `this.state`
  unfoldable pub observe_flushed :
      (sequence : Text)
      → Option (ObservedSource N T)
      → (now : ℕ) → (excluded : Bool) → SchedulerState N T
      → Scheduler N T W
      → Run N T W
  observe_flushed sequence source now excluded state s =
      if leb (big_int sequence) (big_int state.through)
      then returned s
      else elim (is_undefined source && not excluded) [
        | true ↦ returned s
        | false ↦ elim (admit options sequence source now excluded state) [
          | err e ↦ threw e s
          | ok next ↦ persist next true s >>= λ t. flush t
        ]
      ]

  -- observe
  unfoldable pub observe :
      (sequence : Text)
      → Option (ObservedSource N T)
      → (now : ℕ) → (excluded : Bool) → Scheduler N T W
      → Run N T W
  unfolding observe_flushed
  observe sequence source now excluded s = with_state invalid_observation s s.memory (λ _.
      if sequence_valid sequence && counter_valid now
      then (flush s >>= λ t.
          with_state not_open t t.memory
            (λ state. observe_flushed sequence source now excluded state t))
      else threw invalid_observation s)

  -- tick after its first flush, over `this.state`
  unfoldable pub tick_flushed : (now : ℕ) → SchedulerState N T → Scheduler N T W → Run N T W
  unfolding unless_backpressure
  tick_flushed now state s = elim (seal_elapsed options now [] state.windows state) [
    | err e ↦ unless_backpressure e s
    | ok sealed ↦ elim sealed.outbox [
      | [] ↦ flush s
      | _ ∷ _ ↦ elim (persist sealed false s) [
        | returned t ↦ flush t
        | threw e t ↦ unless_backpressure e t
      ]
    ]
  ]

  -- tick
  unfoldable pub tick : (now : ℕ) → Scheduler N T W → Run N T W
  unfolding tick_flushed
  tick now s = with_state invalid_timer s s.memory (λ _.
      if counter_valid now
      then (flush s >>= λ t. with_state not_open t t.memory (λ state. tick_flushed now state t))
      else threw invalid_timer s)

-- ===== src/Worker/Scheduler/Liveness.antt =====
-- The loop of flush of apps/memory-worker/src/scheduler.ts when nothing fails.
use super_brain.Prelude.{
  ◌≡◌, refl, sym, ap, ◌∙◌, Bool, true, false, ◌&&◌, leb, some, List, [], ◌∷◌, ◌++◌, length, all,
  map, arith,
}
use mathlib.Core.List.{append_assoc, append-nil}
use super_brain.Prelude.Text.{◌===◌}
use super_brain.Fold.Json.{Numbers}
use super_brain.Fold.Schema.Validity.{Dates}
use super_brain.Worker.Windows.{
  OutboxItem, SchedulerState, Hashes, all_distinct, counter_valid, open_window_valid,
  sequence_valid, item_valid, state_valid,
}
use super_brain.Worker.Sealing.{SchedulerOptions, outbox_sources, is_too_large}
use super_brain.Worker.Scheduler.{
  accepted, written, Environment, Scheduler, returned, persist, flush_items, flush,
}
use super_brain.Worker.Scheduler.Flush.{flush-flush_items}

module _ {N T W : Type 0} ⦃hashes : Hashes N T⦄ ⦃number : Numbers N⦄ ⦃dates : Dates N⦄
    (environment : Environment N T W) (options : SchedulerOptions) where
  chain-rest :
      (a b c d e e' f g h i : Bool)
      → (e ≡ true → e' ≡ true)
      → (a && b && c && d && e && f && g && (h && i)) ≡ true
      → (a && b && c && d && e' && f && g && i) ≡ true
  chain-rest a b c d e e' f g h i up v = ground (arith, up)

  state_valid-rest :
      (state : SchedulerState N T) (item : OutboxItem N T) (items : List (OutboxItem N T))
      → state.outbox ≡ item ∷ items
      → state_valid options.policy state ≡ true
      → state_valid options.policy (record state { outbox = items }) ≡ true
  unfolding state_valid
  state_valid-rest state item items o v =
      chain-rest (state.policy === options.policy) (sequence_valid state.through)
        (counter_valid state.excluded) (leb (length state.windows) 1_000)
        (leb (length (item ∷ items)) 1_000) (leb (length items) 1_000)
        (all_distinct (map (λ window. window.partition) state.windows))
        (all (open_window_valid state.through) state.windows)
        (item_valid options.policy state.through item)
        (all (item_valid options.policy state.through) items) (λ l. ground (arith, l)) (rw o at v)

  is_too_large-rest :
      (state : SchedulerState N T) (item : OutboxItem N T) (items : List (OutboxItem N T))
      → state.outbox ≡ item ∷ items
      → leb (hashes.byte_length (record state { outbox = items })) (hashes.byte_length state) ≡ true
      → is_too_large false state ≡ false
      → is_too_large false (record state { outbox = items }) ≡ false
  unfolding is_too_large outbox_sources
  is_too_large-rest state item items o b v = ground (arith, ap outbox_sources o)

  module _ (accepts : (item : OutboxItem N T) (w : W) → (environment.deliver item w).0 ≡ accepted)
      (writes : (state : SchedulerState N T) (w : W) → (environment.write state w).0 ≡ written)
      (shrinks : (state : SchedulerState N T) (item : OutboxItem N T)
          (items : List (OutboxItem N T))
        → state.outbox ≡ item ∷ items
        → leb (hashes.byte_length (record state { outbox = items })) (hashes.byte_length state)
          ≡ true) where
    persist-returned :
        (state : SchedulerState N T) (s : Scheduler N T W)
        → state_valid options.policy state ≡ true
        → is_too_large false state ≡ false
        → (t : Scheduler N T W) × (persist environment options state false s ≡ returned t)
          × (t.memory ≡ some state)
          × (t.acknowledged ≡ s.acknowledged)
    unfolding persist
    persist-returned state s v l = (
      record s {
        memory = some state;
        stored = some state;
        world = (environment.write state s.world).1;
      },
      rw (v, l, writes state s.world, persist) refl,
      refl,
      refl,
    )

    flush_items-returned :
        (items : List (OutboxItem N T)) (state : SchedulerState N T) (s : Scheduler N T W)
        → state.outbox ≡ items
        → s.memory ≡ some state
        → state_valid options.policy state ≡ true
        → is_too_large false state ≡ false
        → (t : Scheduler N T W) × (flush_items environment options items state s ≡ returned t)
          × (t.memory ≡ some (record state { outbox = [] }))
          × (t.acknowledged ≡ s.acknowledged ++ items)
    unfolding flush_items
    flush_items-returned [] state s o m v l = (
      s,
      refl,
      m ∙ ap (λ items. some (record state { outbox = items })) o,
      sym (append-nil s.acknowledged),
    )
    flush_items-returned (item ∷ items) state s o m v l =
        let next : SchedulerState N T = record state { outbox = items } in
        let v' = state_valid-rest state item items o v in
        let l' = is_too_large-rest state item items o (shrinks state item items o) l in
        let (t, q, h, a) =
          persist-returned next (record s { world = (environment.deliver item s.world).1 }) v' l' in
        let (u, r, h', b) =
          flush_items-returned items next (record t { acknowledged = t.acknowledged ++ item ∷ [] })
            refl h v' l' in
        (
          u,
          rw (accepts item s.world, q, flush_items) r,
          h',
          b
              ∙ ap (λ acks. (acks ++ item ∷ []) ++ items) a
              ∙ append_assoc s.acknowledged (item ∷ []) items,
        )

    -- When every delivery is accepted, every write goes through, and the JSON of a state does not grow
    -- when the first item is taken from its outbox, flush returns with an empty outbox: it has
    -- acknowledged all items of the outbox, in order, and nothing else of the state has changed. The
    -- state is to be valid and not too large before.
    pub flush-returned :
        (state : SchedulerState N T) (s : Scheduler N T W)
        → s.memory ≡ some state
        → state_valid options.policy state ≡ true
        → is_too_large false state ≡ false
        → (t : Scheduler N T W) × (flush environment options s ≡ returned t)
          × (t.memory ≡ some (record state { outbox = [] }))
          × (t.acknowledged ≡ s.acknowledged ++ state.outbox)
    flush-returned state s m v l =
        let (t, q, h, a) = flush_items-returned state.outbox state s refl m v l in
        (t, flush-flush_items environment options state s m ∙ q, h, a)

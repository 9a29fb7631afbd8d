-- ===== src/Worker/Scheduler/Flush.antt =====
-- persist and flush of apps/memory-worker/src/scheduler.ts.
use super_brain.Prelude.{
  ◌≡◌, refl, sym, ap, ◌∙◌, ◌⊎◌, inl, inr, Bool, true, false, some, List, [], ◌∷◌, ◌++◌, Bool-cases,
}
use mathlib.Core.Path.{subst}
use mathlib.Core.List.{append_assoc, append-nil}
use super_brain.Fold.Json.{Numbers}
use super_brain.Fold.Schema.Validity.{Dates}
use super_brain.Worker.Windows.{OutboxItem, SchedulerState, Hashes, state_valid}
use super_brain.Worker.Sealing.{
  SchedulerError, invalid_state, backpressure, write_failed, SchedulerOptions, not_open,
  is_too_large,
}
use super_brain.Worker.Scheduler.{
  Delivery, accepted, refused, failed, Writing, written, unwritten, unconfirmed, Environment,
  Scheduler, returned, threw, left_by, with_state, persist, flush_items, flush,
}

module _ {N T W : Type 0} where
  -- `t` holds what `s` holds, in memory, in the store and among the acknowledged.
  pub record IsSame (s t : Scheduler N T W) : Type 0 where
    pub memory : t.memory ≡ s.memory
    pub stored : t.stored ≡ s.stored
    pub acknowledged : t.acknowledged ≡ s.acknowledged

  -- `t` has the state, in memory and in the store.
  pub record Holds (state : SchedulerState N T) (s t : Scheduler N T W) : Type 0 where
    pub memory : t.memory ≡ some state
    pub stored : t.stored ≡ some state
    pub acknowledged : t.acknowledged ≡ s.acknowledged

  -- The state is in the store, but not in memory: its write was not confirmed.
  pub record Leads (state : SchedulerState N T) (s t : Scheduler N T W) : Type 0 where
    pub memory : t.memory ≡ s.memory
    pub stored : t.stored ≡ some state
    pub acknowledged : t.acknowledged ≡ s.acknowledged

  -- `ahead` is `state` without the first item of its outbox, which the delivery accepted.
  pub record HasDelivered (environment : Environment N T W) (state ahead : SchedulerState N T)
      : Type 0 where
    pub item : OutboxItem N T
    pub items : List (OutboxItem N T)
    pub world : W
    pub parts : state.outbox ≡ item ∷ items
    pub delivered : (environment.deliver item world).0 ≡ accepted
    pub without : ahead ≡ record state { outbox = items }

  -- What the store has when a first part of the outbox is acknowledged: what it had if that part is
  -- empty, the state in memory, or that state without one more item, which was delivered.
  abbrev pub Stores :
      Environment N T W
      → SchedulerState N T
      → (first rest : List (OutboxItem N T)) → Scheduler N T W
      → Scheduler N T W
      → Type 0
  Stores environment state first rest s t =
      ((first ≡ []) × (t.stored ≡ s.stored))
      ⊎ (t.stored ≡ some (record state { outbox = rest }))
      ⊎ ((ahead : SchedulerState N T) × (t.stored ≡ some ahead)
          × HasDelivered environment (record state { outbox = rest }) ahead)

  -- `t` has acknowledged a first part of the outbox of `state`, which `s` held, and holds the rest.
  pub record Drained (environment : Environment N T W) (state : SchedulerState N T)
      (s t : Scheduler N T W) : Type 0 where
    pub first : List (OutboxItem N T)
    pub rest : List (OutboxItem N T)
    pub parts : state.outbox ≡ first ++ rest
    pub acknowledged : t.acknowledged ≡ s.acknowledged ++ first
    pub memory : t.memory ≡ some (record state { outbox = rest })
    pub stored : Stores environment state first rest s t

module _ {N T W : Type 0} ⦃hashes : Hashes N T⦄ ⦃number : Numbers N⦄ ⦃dates : Dates N⦄
    (environment : Environment N T W) (options : SchedulerOptions) where
  -- persist stores a valid state and returns; or it throws, and has changed nothing or only the
  -- store, which then has the state.
  pub persist_cases :
      (state : SchedulerState N T) (admission : Bool) (s : Scheduler N T W)
      → ((t : Scheduler N T W) × (persist environment options state admission s ≡ returned t)
          × Holds state s t
          × (state_valid options.policy state ≡ true)
          × (is_too_large admission state ≡ false))
        ⊎ ((e : SchedulerError) × (t : Scheduler N T W) × (persist environment options state
                admission s
              ≡ threw e t)
            × (IsSame s t ⊎ Leads state s t))
  unfolding persist
  persist_cases state admission s = elim (Bool-cases (state_valid options.policy state)) [
    | inr v ↦ inr (invalid_state, s, rw (v, persist) refl, inl (same s.world))
    | inl v ↦ elim (Bool-cases (is_too_large admission state)) [
      | inl l ↦ inr (backpressure, s, rw (v, l, persist) refl, inl (same s.world))
      | inr l ↦ go (environment.write state s.world).0 refl v l
    ]
  ]
    where
      world : W
      world = (environment.write state s.world).1

      same : (w : W) → IsSame s (record s { world = w })
      same w = record { memory = refl; stored = refl; acknowledged = refl }

      go :
          (writing : Writing)
          → (environment.write state s.world).0 ≡ writing
          → state_valid options.policy state ≡ true
          → is_too_large admission state ≡ false
          → ((t : Scheduler N T W) × (persist environment options state admission s ≡ returned t)
              × Holds state s t
              × (state_valid options.policy state ≡ true)
              × (is_too_large admission state ≡ false))
            ⊎ ((e : SchedulerError) × (t : Scheduler N T W) × (persist environment options state
                    admission s
                  ≡ threw e t)
                × (IsSame s t ⊎ Leads state s t))
      go written w v l = inl (
        record s { memory = some state; stored = some state; world = world },
        rw (v, l, w, persist) refl,
        record { memory = refl; stored = refl; acknowledged = refl },
        v,
        l,
      )
      go unwritten w v l =
          inr
            (write_failed, record s { world = world }, rw (v, l, w, persist) refl, inl (same world))
      go unconfirmed w v l = inr (
        write_failed,
        record s { stored = some state; world = world },
        rw (v, l, w, persist) refl,
        inr (record { memory = refl; stored = refl; acknowledged = refl }),
      )

  -- Nothing of the outbox was acknowledged.
  Drained-none :
      (state : SchedulerState N T) (s t : Scheduler N T W)
      → s.memory ≡ some state
      → IsSame s t
      → Drained environment state s t
  Drained-none state s t m same = record {
    first = [];
    rest = state.outbox;
    parts = refl;
    acknowledged = same.acknowledged ∙ sym (append-nil s.acknowledged);
    memory = same.memory ∙ m;
    stored = inl (refl, same.stored);
  }

  flush_items-Drained :
      (items : List (OutboxItem N T)) (state : SchedulerState N T) (s : Scheduler N T W)
      → state.outbox ≡ items
      → s.memory ≡ some state
      → Drained environment state s (left_by (flush_items environment options items state s))
  unfolding flush_items
  flush_items-Drained [] state s o m =
      Drained-none state s s m (record { memory = refl; stored = refl; acknowledged = refl })
  flush_items-Drained (item ∷ items) state s o m =
      go (environment.deliver item s.world).0 refl
        (λ t h. flush_items-Drained items (record state { outbox = items }) t refl h)
    where
      world : W
      world = (environment.deliver item s.world).1

      moved : IsSame s (record s { world = world })
      moved = record { memory = refl; stored = refl; acknowledged = refl }

      after : Scheduler N T W → Scheduler N T W
      after t = record t { acknowledged = t.acknowledged ++ item ∷ [] }

      stored_by :
          (t u : Scheduler N T W)
          → t.stored ≡ some (record state { outbox = items })
          → (first rest : List (OutboxItem N T)) → items ≡ first ++ rest
          → Stores environment (record state { outbox = items }) first rest t u
          → (u.stored ≡ some (record state { outbox = rest }))
            ⊎ ((ahead : SchedulerState N T) × (u.stored ≡ some ahead)
                × HasDelivered environment (record state { outbox = rest }) ahead)
      stored_by t u h first rest parts (inl (empty, same)) = inl (
          same
          ∙ h
          ∙ ap (λ l. some (record state { outbox = l })) (parts ∙ ap (λ l. l ++ rest) empty))
      stored_by t u h first rest parts (inr after) = after

      later :
          (t u : Scheduler N T W)
          → Holds (record state { outbox = items }) (record s { world = world }) t
          → Drained environment (record state { outbox = items }) (after t) u
          → Drained environment state s u
      later t u h d = record {
        first = item ∷ d.first;
        rest = d.rest;
        parts = o ∙ ap (λ l. item ∷ l) d.parts;
        acknowledged =
            d.acknowledged
            ∙ ap (λ l. (l ++ item ∷ []) ++ d.first) h.acknowledged
            ∙ append_assoc s.acknowledged (item ∷ []) d.first;
        memory = d.memory;
        stored = inr (stored_by (after t) u h.stored d.first d.rest d.parts d.stored);
      }

      led :
          (t : Scheduler N T W)
          → (environment.deliver item s.world).0 ≡ accepted
          → Leads (record state { outbox = items }) (record s { world = world }) t
          → Drained environment state s t
      led t e h = record {
        first = [];
        rest = state.outbox;
        parts = refl;
        acknowledged = h.acknowledged ∙ sym (append-nil s.acknowledged);
        memory = h.memory ∙ m;
        stored = inr (
            inr (
              record state { outbox = items },
              h.stored,
              record {
                item = item;
                items = items;
                world = s.world;
                parts = o;
                delivered = e;
                without = refl;
              },
            ));
      }

      go :
          (d : Delivery)
          → (environment.deliver item s.world).0 ≡ d
          → ((t : Scheduler N T W)
              → t.memory ≡ some (record state { outbox = items })
              → Drained environment
                  (record state { outbox = items })
                  t
                  (left_by
                    (flush_items environment options items (record state { outbox = items }) t)))
          → Drained environment state s
              (left_by (flush_items environment options (item ∷ items) state s))
      go refused e ih = rw (e, flush_items) (Drained-none state s _ m moved)
      go failed e ih = rw (e, flush_items) (Drained-none state s _ m moved)
      go accepted e ih =
          elim (persist_cases (record state { outbox = items }) false
            (record s { world = world })) [
              | inl (t, q, h, _, _) ↦ rw (e, q, flush_items) (later t _ h (ih (after t) h.memory))
              | inr (x, t, q, inr h) ↦ rw (e, q, flush_items) (led t e h)
              | inr (x, t, q, inl h) ↦
                  rw (e, q, flush_items)
                    (Drained-none state s t m (record {
                      memory = h.memory;
                      stored = h.stored;
                      acknowledged = h.acknowledged;
                    }))
            ]

  pub flush-flush_items :
      (state : SchedulerState N T) (s : Scheduler N T W)
      → s.memory ≡ some state
      → flush environment options s ≡ flush_items environment options state.outbox state s
  unfolding flush
  flush-flush_items state s m =
      ap
        (λ memory.
          with_state not_open s memory
            (λ state'. flush_items environment options state'.outbox state' s))
        m

  -- However flush ends, it has acknowledged the items of a first part of the outbox, in order, and
  -- the rest is what is left of the outbox; nothing else of the state has changed. The store
  -- has the same state as memory, or that without one more item, which was delivered; or it has
  -- not changed, and nothing was acknowledged.
  pub flush-Drained :
      (state : SchedulerState N T) (s : Scheduler N T W)
      → s.memory ≡ some state
      → Drained environment state s (left_by (flush environment options s))
  flush-Drained state s m =
      subst (λ r. Drained environment state s (left_by r)) (sym (flush-flush_items state s m))
        (flush_items-Drained state.outbox state s refl m)

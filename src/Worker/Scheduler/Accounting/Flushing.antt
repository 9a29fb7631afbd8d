-- ===== src/Worker/Scheduler/Accounting/Flushing.antt =====
-- What every operation of apps/memory-worker/src/scheduler.ts begins with: its state and its flush.
use super_brain.Prelude.{◌≡◌, refl, sym, Bool, some, List}
use mathlib.Core.Path.{subst}
use super_brain.Fold.Json.{Numbers}
use super_brain.Fold.Schema.Validity.{Dates}
use super_brain.Worker.Windows.{ScheduledSource, SchedulerState, Hashes}
use super_brain.Worker.Sealing.{SchedulerError, SchedulerOptions, backpressure}
use super_brain.Worker.Scheduler.{
  Environment, Scheduler, Run, returned, threw, ◌>>=◌, left_by, with_state, unless_backpressure,
  flush,
}
use super_brain.Worker.Scheduler.Flush.{flush-Drained}
use super_brain.Worker.Scheduler.Accounting.Moves.{IsNear, Moved, Moved-Drained}

module _ {N T W : Type 0} where
  pub with_state-some :
      (P : Run N T W → Type 0) (x : SchedulerError) (s : Scheduler N T W)
      (state : SchedulerState N T) (f : SchedulerState N T → Run N T W)
      → s.memory ≡ some state
      → P (f state)
      → P (with_state x s s.memory f)
  with_state-some P x s state f m h = subst (λ memory. P (with_state x s memory f)) (sym m) h

  pub left_by-unless_backpressure :
      (x : SchedulerError) (s : Scheduler N T W) → left_by (unless_backpressure x s) ≡ s
  unfolding unless_backpressure
  left_by-unless_backpressure backpressure s = refl
  left_by-unless_backpressure _ s = refl

module _ {N T W : Type 0} (p : ScheduledSource T → Bool) where
  module _ ⦃hashes : Hashes N T⦄ ⦃number : Numbers N⦄ ⦃dates : Dates N⦄
      (environment : Environment N T W) (options : SchedulerOptions)
      (known : List (ScheduledSource T)) where
    -- The scheduler moved by `n` sources to a state with the same `through`.
    abbrev pub Still : SchedulerState N T → Scheduler N T W → Scheduler N T W → Type 0
    Still state s t =
        (state' : SchedulerState N T) × (state'.through ≡ state.through)
        × Moved environment p known 0 state state' s t

    pub flush-Still :
        (state : SchedulerState N T) (s : Scheduler N T W)
        → s.memory ≡ some state
        → IsNear environment p known state s.stored
        → Still state s (left_by (flush environment options s))
    flush-Still state s m e =
        let d = flush-Drained environment options state s m in
        (
          record state { outbox = d.rest },
          refl,
          Moved-Drained environment p known state s (left_by (flush environment options s)) m e d,
        )

    -- What holds when flush has thrown, and of every way to go on when it has returned, holds at the end.
    pub flush-then :
        (P : Scheduler N T W → Type 0) (state : SchedulerState N T) (s : Scheduler N T W)
        (f : Scheduler N T W → Run N T W)
        → s.memory ≡ some state
        → IsNear environment p known state s.stored
        → ((t : Scheduler N T W) → Still state s t → P t)
        → ((t : Scheduler N T W) → Still state s t → P (left_by (f t)))
        → P (left_by (flush environment options s >>= f))
    flush-then P state s f m e stops goes =
        go (flush environment options s) (flush-Still state s m e)
      where
        go : (r : Run N T W) → Still state s (left_by r) → P (left_by (r >>= f))
        go (returned t) h = goes t h
        go (threw x t) h = stops t h

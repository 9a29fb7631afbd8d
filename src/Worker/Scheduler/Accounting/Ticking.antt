-- ===== src/Worker/Scheduler/Accounting/Ticking.antt =====
-- tick of apps/memory-worker/src/scheduler.ts: where the sources are afterwards.
use super_brain.Prelude.{
  ℕ, ◌+◌, ◌≡◌, refl, ◌∙◌, ◌⊎◌, inl, inr, Bool, false, some, List, [], ◌∷◌, Result, ok, err,
  Bool-cases, arith,
}
use super_brain.Fold.Json.{Numbers}
use super_brain.Fold.Schema.Validity.{Dates}
use super_brain.Worker.Windows.{ScheduledSource, SchedulerState, Hashes, counter_valid}
use super_brain.Worker.Sealing.{
  SchedulerError, SchedulerOptions, invalid_timer, not_open, seal_elapsed,
}
use super_brain.Worker.Scheduler.{
  Environment, Scheduler, Run, left_by, with_state, unless_backpressure, flush, tick_flushed, tick,
}
use super_brain.Worker.Scheduler.Flush.{Holds, persist_cases}
use super_brain.Worker.Scheduler.Accounting.{tally, held, seal_elapsed-ok}
use super_brain.Worker.Scheduler.Accounting.Moves.{
  Continues, IsNear, Moved, Moved-trans, Moved-IsSame, Moved-Leads, Moved-Holds,
}
use super_brain.Worker.Scheduler.Accounting.Flushing.{
  with_state-some, left_by-unless_backpressure, Still, flush-Still, flush-then,
}

module _ {N T W : Type 0} (p : ScheduledSource T → Bool) where
  module _ ⦃hashes : Hashes N T⦄ ⦃number : Numbers N⦄ ⦃dates : Dates N⦄
      (environment : Environment N T W) (options : SchedulerOptions)
      (known : List (ScheduledSource T)) where
    tick_flushed-Still :
        (now : ℕ) (state : SchedulerState N T) (s : Scheduler N T W)
        → s.memory ≡ some state
        → IsNear environment p known state s.stored
        → Still p environment options known state s
            (left_by (tick_flushed environment options now state s))
    unfolding tick_flushed tally
    tick_flushed-Still now state s m e = go (seal_elapsed options now [] state.windows state) refl
      where
        cons_or_nil :
            {A : Type 0} (xs : List A) → (xs ≡ []) ⊎ ((x : A) × (ys : List A) × (xs ≡ x ∷ ys))
        cons_or_nil [] = inl refl
        cons_or_nil (x ∷ ys) = inr (x, ys, refl)

        still :
            (x : SchedulerError) (t : Scheduler N T W)
            → Moved environment p known 0 state state s t
            → Still p environment options known state s (left_by (unless_backpressure x t))
        still x t f = rw (left_by-unless_backpressure x t) (state, refl, f)

        total :
            (sealed : SchedulerState N T)
            → held p sealed ≡ held p state
            → held p sealed ≡ held p state + tally p []
        total sealed c = omega (arith, c)

        through :
            (sealed : SchedulerState N T)
            → seal_elapsed options now [] state.windows state ≡ ok sealed
            → sealed.through ≡ state.through
        through sealed q = (seal_elapsed-ok p options now [] state.windows state sealed refl q).1.0

        continues :
            (sealed : SchedulerState N T)
            → seal_elapsed options now [] state.windows state ≡ ok sealed
            → Continues environment p [] state sealed
        continues sealed q =
            let (c, (r, (items, o))) =
              seal_elapsed-ok p options now [] state.windows state sealed refl q in
            record { sealed = items; outbox = o; total = total sealed c; through = inl (refl, r) }

        stored :
            (sealed : SchedulerState N T)
            → seal_elapsed options now [] state.windows state ≡ ok sealed
            → (t : Scheduler N T W) → Holds sealed s t
            → Still p environment options known state s (left_by (flush environment options t))
        stored sealed q t h =
            let (b, r', f) =
              flush-Still p environment options known sealed t h.memory (inl h.stored) in
            (
              b,
              r' ∙ through sealed q,
              Moved-trans environment p known 0 0 0 state sealed b s t
                  (left_by (flush environment options t)) refl
                  (Moved-Holds environment p known [] state sealed s t (continues sealed q) h) f,
            )

        nothing : Moved environment p known 0 state state s s
        nothing =
            Moved-IsSame environment p known state s s m e
              (record { memory = refl; stored = refl; acknowledged = refl })

        go :
            (r : Result SchedulerError (SchedulerState N T))
            → seal_elapsed options now [] state.windows state ≡ r
            → Still p environment options known state s
                (left_by (tick_flushed environment options now state s))
        go (err x) q = rw (q, tick_flushed) (still x s nothing)
        go (ok sealed) q = elim (cons_or_nil sealed.outbox) [
          | inl o ↦ rw (q, o, tick_flushed) (flush-Still p environment options known state s m e)
          | inr (item, items, o) ↦ elim (persist_cases environment options sealed false s) [
            | inl (t, w, h, _, _) ↦ rw (q, o, w, tick_flushed) (stored sealed q t h)
            | inr (x, t, w, inl same) ↦
                rw (q, o, w, tick_flushed)
                  (still x t (Moved-IsSame environment p known state s t m e same))
            | inr (x, t, w, inr h) ↦
                rw (q, o, w, tick_flushed)
                  (still x t (
                    Moved-Leads environment p known [] state sealed s t m (inl refl)
                      (continues sealed q) h))
          ]
        ]

    -- Of a scheduler whose store is near its state, tick moves no source out of the open windows,
    -- the outbox and the acknowledged items, and none into them, however it ends: for every
    -- property of sources as many have it as before, `through` stays, and the items acknowledged
    -- and in the outbox keep their order, newly sealed ones behind. This is so for the state in
    -- memory. The store is near again afterwards: it has the state in memory, or that of one write
    -- that was not confirmed, which is the state without the first item of the outbox, which was
    -- delivered, or the state with newly sealed items last and at most one source more, a known
    -- one.
    pub tick-Still :
        (now : ℕ) (state : SchedulerState N T) (s : Scheduler N T W)
        → s.memory ≡ some state
        → IsNear environment p known state s.stored
        → Still p environment options known state s (left_by (tick environment options now s))
    unfolding tick
    tick-Still now state s m e =
        with_state-some (λ r. Still p environment options known state s (left_by r)) invalid_timer s
          state _ m
          (elim (Bool-cases (counter_valid now)) [
            | inr bad ↦ rw bad (
              state,
              refl,
              Moved-IsSame environment p known state s s m e
                  (record { memory = refl; stored = refl; acknowledged = refl }),
            )
            | inl good ↦ rw good (
                flush-then p environment options known (Still p environment options known state s)
                  state s after m e (λ t h. h)
                  (λ t (b, q, f).
                    let (c, r, g) =
                      with_state-some (λ r. Still p environment options known b t (left_by r))
                        not_open t b (λ b'. tick_flushed environment options now b' t) f.memory
                        (tick_flushed-Still now b t f.memory f.stored) in
                    (
                      c,
                      r ∙ q,
                      Moved-trans environment p known 0 0 0 state b c s t (left_by (after t)) refl f
                          g,
                    )))
          ])
      where
        after : Scheduler N T W → Run N T W
        after t = with_state not_open t t.memory (λ b. tick_flushed environment options now b t)

-- ===== src/Worker/Scheduler/Accounting/Observing.antt =====
-- observe of apps/memory-worker/src/scheduler.ts: where the sources are afterwards.
use super_brain.Prelude.{
  ℕ, ◌≡◌, refl, ◌∙◌, ◌⊎◌, inl, inr, Bool, true, ◌&&◌, not, Option, none, some, List, ◌∷◌, ◌++◌, leb,
  ltb, Bool-cases, Result-cases, arith,
}
use mathlib.Core.List.{Memᴰ}
use super_brain.Prelude.Text.{Text}
use super_brain.Fold.Json.{Numbers}
use super_brain.Fold.Schema.Validity.{Dates}
use super_brain.Worker.Windows.{
  ScheduledSource, SchedulerState, Hashes, big_int, sequence_valid, counter_valid,
}
use super_brain.Worker.Sealing.{
  SchedulerOptions, ObservedSource, invalid_observation, not_open, is_undefined, source_of, admit,
}
use super_brain.Worker.Scheduler.{
  Environment, Scheduler, Run, ◌>>=◌, left_by, with_state, persist, flush, observe_flushed, observe,
}
use super_brain.Worker.Scheduler.Flush.{persist_cases}
use super_brain.Worker.Scheduler.Accounting.{tally, recorded, admit-ok}
use super_brain.Worker.Scheduler.Accounting.Moves.{
  Continues, IsOneOf, IsNear, IsNear-tail, Moved, Moved-trans, Moved-IsSame, Moved-Leads,
  Moved-Holds,
}
use super_brain.Worker.Scheduler.Accounting.Flushing.{
  with_state-some, Still, flush-Still, flush-then,
}

module _ {N T W : Type 0} (p : ScheduledSource T → Bool) where
  module _ ⦃hashes : Hashes N T⦄ ⦃number : Numbers N⦄ ⦃dates : Dates N⦄
      (environment : Environment N T W) (options : SchedulerOptions)
      (known : List (ScheduledSource T)) where
    -- A scheduler that observed a sequence number with `n` sources: it took them in, and its `through`
    -- has risen to the number, or it did neither.
    abbrev pub Observed : Text → ℕ → SchedulerState N T → Scheduler N T W → Scheduler N T W → Type 0
    Observed sequence n state s t =
        Still p environment options known state s t
        ⊎ ((state' : SchedulerState N T) × (state'.through ≡ sequence)
            × (ltb (big_int state.through) (big_int sequence) ≡ true)
            × Moved environment p known n state state' s t)

    -- Nothing moved before.
    Observed-trans :
        (sequence : Text) (n : ℕ) (a b : SchedulerState N T) (s t u : Scheduler N T W)
        → b.through ≡ a.through
        → Moved environment p known 0 a b s t
        → Observed sequence n b t u
        → Observed sequence n a s u
    Observed-trans sequence n a b s t u q f (inl (c, r, g)) =
        inl (c, r ∙ q, Moved-trans environment p known 0 0 0 a b c s t u refl f g)
    Observed-trans sequence n a b s t u q f (inr (c, r, l, g)) =
        inr (c, r, rw q at l, Moved-trans environment p known 0 n n a b c s t u (omega arith) f g)

    -- persist and flush, of a state that continues `state`.
    persist-flush-Moved :
        (added : List (ScheduledSource T)) (admission : Bool) (state next : SchedulerState N T)
        (s : Scheduler N T W)
        → s.memory ≡ some state
        → IsNear environment p known state s.stored
        → IsOneOf environment p known added
        → Continues environment p added state next
        → Moved environment p known 0 state state s
            (left_by (persist environment options next admission s >>= flush environment options))
          ⊎ ((state' : SchedulerState N T) × (state'.through ≡ next.through)
              × Moved environment p known (tally p added) state state' s (
                  left_by
                    (persist environment options next admission s >>= flush environment options)))
    persist-flush-Moved added admission state next s m e few c =
        elim (persist_cases environment options next admission s) [
          | inl (t, q, h, _, _) ↦
              let (state', r, f) =
                flush-Still p environment options known next t h.memory (inl h.stored) in
              rw q (
                inr (
                  state',
                  r,
                  Moved-trans environment p known (tally p added) 0 (tally p added) state next
                      state' s t (left_by (flush environment options t)) (omega arith)
                      (Moved-Holds environment p known added state next s t c h) f,
                ))
          | inr (x, t, q, inl same) ↦
              rw q (inl (Moved-IsSame environment p known state s t m e same))
          | inr (x, t, q, inr h) ↦
              rw q (inl (Moved-Leads environment p known added state next s t m few c h))
        ]

    observe_flushed-Observed :
        (sequence : Text) (source : Option (ObservedSource N T)) (now : ℕ) (excluded : Bool)
        (state : SchedulerState N T) (s : Scheduler N T W)
        → IsOneOf environment p known (recorded p sequence source)
        → s.memory ≡ some state
        → IsNear environment p known state s.stored
        → Observed sequence
            (tally p (recorded p sequence source))
            state
            s
            (left_by (observe_flushed environment options sequence source now excluded state s))
    unfolding observe_flushed
    observe_flushed-Observed sequence source now excluded state s few m e =
        elim (Bool-cases (leb (big_int sequence) (big_int state.through))) [
          | inl old ↦ rw (old, observe_flushed) still
          | inr new ↦ elim (Bool-cases (is_undefined source && not excluded)) [
            | inl skip ↦ rw (new, skip, observe_flushed) still
            | inr take ↦ elim (Result-cases (admit options sequence source now excluded state)) [
              | inr (x, q) ↦ rw (new, take, q, observe_flushed) still
              | inl (next, q) ↦
                  let (c, r, (sealed, o)) =
                    admit-ok p options sequence source now excluded state next q in
                  let later : ltb (big_int state.through) (big_int next.through) ≡ true =
                    rw r (ground (arith, new)) in
                  rw (new, take, q, observe_flushed)
                    (elim (persist-flush-Moved (recorded p sequence source) true state next s m e
                      few
                      (record { sealed = sealed; outbox = o; total = c; through = inr later })) [
                        | inl f ↦ inl (state, refl, f)
                        | inr (state', q', f) ↦ inr (state', q' ∙ r, ground (arith, new), f)
                      ])
            ]
          ]
        ]
      where
        still : Observed sequence (tally p (recorded p sequence source)) state s s
        still = inl (
          state,
          refl,
          Moved-IsSame environment p known state s s m e
              (record { memory = refl; stored = refl; acknowledged = refl }),
        )

    observe-Observed_known :
        (sequence : Text) (source : Option (ObservedSource N T)) (now : ℕ) (excluded : Bool)
        (state : SchedulerState N T) (s : Scheduler N T W)
        → IsOneOf environment p known (recorded p sequence source)
        → s.memory ≡ some state
        → IsNear environment p known state s.stored
        → Observed sequence
            (tally p (recorded p sequence source))
            state
            s
            (left_by (observe environment options sequence source now excluded s))
    unfolding observe
    observe-Observed_known sequence source now excluded state s few m e =
        with_state-some (λ r. Observed sequence n state s (left_by r)) invalid_observation s state _
          m
          (elim (Bool-cases (sequence_valid sequence && counter_valid now)) [
            | inr bad ↦ rw bad (
                inl (
                  state,
                  refl,
                  Moved-IsSame environment p known state s s m e
                      (record { memory = refl; stored = refl; acknowledged = refl }),
                ))
            | inl good ↦ rw good (
                flush-then p environment options known (Observed sequence n state s) state s after m
                  e (λ t h. inl h)
                  (λ t (b, q, f). Observed-trans sequence n state b s t (left_by (after t)) q f (
                    with_state-some (λ r. Observed sequence n b t (left_by r)) not_open t b
                      (λ b'. observe_flushed environment options sequence source now excluded b' t)
                      f.memory
                      (observe_flushed-Observed sequence source now excluded b t few f.memory
                        f.stored))))
          ])
      where
        n : ℕ
        n = tally p (recorded p sequence source)

        after : Scheduler N T W → Run N T W
        after t =
            with_state not_open t t.memory
              (λ b. observe_flushed environment options sequence source now excluded b t)

  module _ ⦃hashes : Hashes N T⦄ ⦃number : Numbers N⦄ ⦃dates : Dates N⦄
      (environment : Environment N T W) (options : SchedulerOptions) where
    -- Nothing is lost and nothing is counted twice when a source is observed by a scheduler whose
    -- store is near its state, as described below. For every property of sources, the number of
    -- those with it in open windows, in the outbox and among the acknowledged items stays as it
    -- was, with `through`; or it is more by that of the observed source, `through` is the observed
    -- sequence number, and this is greater than `through` was. The items acknowledged and in the
    -- outbox keep their order, and newly sealed ones come last. This is so for the state in memory
    -- however the observation ends, also by an error of the delivery, of the store or of a check.
    -- The store is near again afterwards: it has the state in memory, or that of one write that was
    -- not confirmed, which is the state without the first item of the outbox, which was delivered,
    -- or the state with newly sealed items last and at most one source more, the observed one or
    -- one known before.
    pub observe-Observed :
        (known : List (ScheduledSource T)) (sequence : Text) (source : Option (ObservedSource N T))
        (now : ℕ) (excluded : Bool) (state : SchedulerState N T) (s : Scheduler N T W)
        → s.memory ≡ some state
        → IsNear environment p known state s.stored
        → Observed environment options
            (recorded p sequence source ++ known)
            sequence
            (tally p (recorded p sequence source))
            state
            s
            (left_by (observe environment options sequence source now excluded s))
    observe-Observed known sequence none now excluded state s m e =
        observe-Observed_known environment options known sequence none now excluded state s
          (inl refl) m e
    observe-Observed known sequence (some source) now excluded state s m e =
        let x = source_of sequence source.event in
        observe-Observed_known environment options (x ∷ known) sequence (some source) now excluded
          state s (inr (x, Memᴰ.head refl, refl)) m
          (IsNear-tail environment p x known state s.stored e)

-- ===== src/Worker/Scheduler/Accounting.antt =====
-- Where the sources go in apps/memory-worker/src/scheduler.ts: open windows, the outbox, and what
-- was acknowledged.
pub mod Moves
pub mod Flushing
pub mod Observing
pub mod Ticking
use super_brain.Prelude.{
  ℕ, suc, ◌+◌, ◌≡◌, refl, sym, ap, ◌∙◌, Bool, true, false, Option, none, some, List, [], ◌∷◌, ◌++◌,
  if◌then◌else◌, leb, length, get_or, Result, ok, err, ok-injective, Bool-cases, Option-cases,
  Result-cases, inl, inr, arith,
}
use mathlib.Core.Path.{subst}
use mathlib.Core.List.{append_assoc, append-nil}
use super_brain.Prelude.Text.{Text, ◌===◌}
use super_brain.Fold.Schema.{FoldEvent}
use super_brain.Storage.Records.{is_digest}
use super_brain.Worker.Windows.{
  ScheduledSource, Trigger, on_elapsed, OpenWindow, OutboxItem, SchedulerState, Hashes,
}
use super_brain.Worker.Sealing.{
  SchedulerError, SchedulerOptions, ObservedSource, Slot, find_slot, sealed_item, seal, new_slot,
  open_slot, source_of, same_project, trigger_for, add_source, admit, is_elapsed, seal_elapsed,
}
use super_brain.Worker.Scheduler.{Scheduler}

module _ {T : Type 0} (p : ScheduledSource T → Bool) where
  -- How many of the sources satisfy `p`.
  pub tally : List (ScheduledSource T) → ℕ
  tally [] = 0
  tally (x ∷ xs) = if p x then suc (tally xs) else tally xs

  pub tally-append : (xs ys : List (ScheduledSource T)) → tally (xs ++ ys) ≡ tally xs + tally ys
  unfolding tally
  tally-append [] ys = omega arith
  tally-append (x ∷ xs) ys = ground (arith, tally-append xs ys)

module _ {N T : Type 0} (p : ScheduledSource T → Bool) where
  pub in_windows : List (OpenWindow N T) → ℕ
  in_windows [] = 0
  in_windows (w ∷ ws) = tally p w.sources + in_windows ws

  pub in_outbox : List (OutboxItem N T) → ℕ
  in_outbox [] = 0
  in_outbox (x ∷ xs) = tally p x.window.identity.sources + in_outbox xs

  pub in_windows-append :
      (xs ys : List (OpenWindow N T)) → in_windows (xs ++ ys) ≡ in_windows xs + in_windows ys
  unfolding in_windows
  in_windows-append [] ys = omega arith
  in_windows-append (x ∷ xs) ys = omega (arith, in_windows-append xs ys)

  pub in_outbox-append :
      (xs ys : List (OutboxItem N T)) → in_outbox (xs ++ ys) ≡ in_outbox xs + in_outbox ys
  unfolding in_outbox
  in_outbox-append [] ys = omega arith
  in_outbox-append (x ∷ xs) ys = omega (arith, in_outbox-append xs ys)

  -- The sources that a state holds, in open windows and in the outbox.
  pub held : SchedulerState N T → ℕ
  held state = in_windows state.windows + in_outbox state.outbox

  abbrev in_slot : Slot N T → ℕ
  in_slot slot = in_windows slot.before + tally p slot.window.sources + in_windows slot.after

  find_slot-in_slot :
      (q : Text) (ws : List (OpenWindow N T)) (slot : Slot N T)
      → find_slot q ws ≡ some slot
      → in_slot slot ≡ in_windows ws
  unfolding find_slot in_windows
  find_slot-in_slot q [] slot h = absurd (ground arith)
  find_slot-in_slot q (w ∷ ws) slot h = elim (Option-cases (find_slot q ws)) [
    | inl e ↦ ground arith
    | inr (s, e) ↦ ground (arith, find_slot-in_slot q ws s e)
  ]

  module _ ⦃hashes : Hashes N T⦄ where
    -- A state that follows another: it has its `through` and a longer outbox.
    abbrev pub Follows : SchedulerState N T → SchedulerState N T → Type 0
    Follows state state' =
        (state'.through ≡ state.through)
        × ((sealed : List (OutboxItem N T)) × (state'.outbox ≡ state.outbox ++ sealed))

    Follows-trans : (a b c : SchedulerState N T) → Follows a b → Follows b c → Follows a c
    Follows-trans a b c (e, (xs, f)) (g, (ys, h)) =
        (g ∙ e, (xs ++ ys, h ∙ ap (λ l. l ++ ys) f ∙ append_assoc a.outbox xs ys))

    seal-ok :
        (options : SchedulerOptions) (state state' : SchedulerState N T) (slot : Slot N T)
        (trigger : Trigger) (now : ℕ)
        → seal options state slot trigger now ≡ ok state'
        → (held state' ≡ in_slot slot + in_outbox state.outbox) × Follows state state'
    unfolding seal sealed_item held in_outbox
    seal-ok options state state' slot trigger now h =
        elim (Bool-cases (leb 1_000 (length state.outbox))) [
          | inl full ↦ absurd (ground arith)
          | inr room ↦
              subst (λ x. (held x ≡ in_slot slot + in_outbox state.outbox) × Follows state x)
                (ok-injective (rw (room, seal) at h))
                (
                  omega (
                    arith,
                    in_windows-append slot.before slot.after,
                    in_outbox-append state.outbox
                        (sealed_item options trigger now slot.window ∷ []),
                  ),
                  (refl, (sealed_item options trigger now slot.window ∷ [], refl)),
                )
        ]

    seal-windows :
        (options : SchedulerOptions) (state state' : SchedulerState N T) (slot : Slot N T)
        (trigger : Trigger) (now : ℕ)
        → seal options state slot trigger now ≡ ok state'
        → state'.windows ≡ slot.before ++ slot.after
    unfolding seal
    seal-windows options state state' slot trigger now h = ground arith

    new_slot-ok :
        (now : ℕ) (source : ObservedSource N T) (state : SchedulerState N T)
        (r : SchedulerState N T × Slot N T)
        → new_slot now source state ≡ ok r
        → (in_slot r.1 + in_outbox r.0.outbox ≡ held state) × (r.0 ≡ state)
    unfolding new_slot held in_windows tally
    new_slot-ok now source state r h = elim (Bool-cases (leb 1_000 (length state.windows))) [
      | inl full ↦ absurd (ground arith)
      | inr room ↦
          subst (λ x. (in_slot x.1 + in_outbox x.0.outbox ≡ held state) × (x.0 ≡ state))
            (ok-injective (rw (room, new_slot) at h)) (omega arith, refl)
    ]

    open_slot-ok :
        (options : SchedulerOptions) (now : ℕ) (source : ObservedSource N T)
        (state : SchedulerState N T) (r : SchedulerState N T × Slot N T)
        → open_slot options now source state ≡ ok r
        → (in_slot r.1 + in_outbox r.0.outbox ≡ held state) × Follows state r.0
    unfolding open_slot held in_windows
    open_slot-ok options now source state r h =
        elim (Option-cases (find_slot source.partition state.windows)) [
          | inl e ↦ fresh (rw (e, open_slot) at h)
          | inr (slot, e) ↦ elim (Bool-cases (is_elapsed options now slot.window)) [
            | inl old ↦ elim (Result-cases (seal options state slot on_elapsed now)) [
              | inr (x, q) ↦ absurd (ground (arith, rw (e, old, q, open_slot) at h))
              | inl (sealed, q) ↦
                  let (a, f) = seal-ok options state sealed slot on_elapsed now q in
                  let (b, g) = new_slot-ok now source sealed r (rw (e, old, q, open_slot) at h) in
                  (total slot sealed e a b, rw g f)
            ]
            | inr young ↦
                subst
                  (λ (x : SchedulerState N T × Slot N T).
                    (in_slot x.1 + in_outbox x.0.outbox ≡ held state) × Follows state x.0)
                  (ok-injective (rw (e, young, open_slot) at h))
                  (unmoved slot e, (refl, ([], sym (append-nil state.outbox))))
          ]
        ]
      where
        fresh :
            new_slot now source state ≡ ok r
            → (in_slot r.1 + in_outbox r.0.outbox ≡ held state) × Follows state r.0
        fresh q =
            let (b, g) = new_slot-ok now source state r q in
            (b, rw g (refl, ([], sym (append-nil state.outbox))))

        total :
            (slot : Slot N T) (sealed : SchedulerState N T)
            → find_slot source.partition state.windows ≡ some slot
            → held sealed ≡ in_slot slot + in_outbox state.outbox
            → in_slot r.1 + in_outbox r.0.outbox ≡ held sealed
            → in_slot r.1 + in_outbox r.0.outbox ≡ held state
        total slot sealed e a b =
            b
            ∙ a
            ∙ ap (λ n. n + in_outbox state.outbox)
                (find_slot-in_slot source.partition state.windows slot e)

        unmoved :
            (slot : Slot N T)
            → find_slot source.partition state.windows ≡ some slot
            → in_slot slot + in_outbox state.outbox ≡ held state
        unmoved slot e =
            ap (λ n. n + in_outbox state.outbox)
              (find_slot-in_slot source.partition state.windows slot e)

    add_source-ok :
        (options : SchedulerOptions) (sequence : Text) (now : ℕ) (source : ObservedSource N T)
        (state state' : SchedulerState N T) (slot : Slot N T)
        → add_source options sequence now source state slot ≡ ok state'
        → (held state'
            ≡ in_slot slot
              + in_outbox state.outbox
              + tally p (source_of sequence source.event ∷ []))
          × Follows state state'
    unfolding add_source held in_windows
    add_source-ok options sequence now source state state' slot h =
        elim (Bool-cases (same_project slot.window.project_id source.project_id)) [
          | inr other ↦ absurd (ground arith)
          | inl same ↦ elim (Option-cases (trigger_for options source.completion window)) [
            | inl stays ↦
                subst
                  (λ x.
                    (held x ≡ in_slot slot + in_outbox state.outbox + tally p added)
                    × Follows state x)
                  (ok-injective (rw (same, stays, add_source) at h))
                  (kept, (refl, ([], sym (append-nil state.outbox))))
            | inr (trigger, e) ↦
                let (a, f) =
                  seal-ok options state state' (record slot { window = window }) trigger now
                    (rw (same, e, add_source) at h) in
                (omega (arith, a, tally-append p slot.window.sources added), f)
          ]
        ]
      where
        added : List (ScheduledSource T)
        added = source_of sequence source.event ∷ []

        window : OpenWindow N T
        window = record slot.window {
          sources = slot.window.sources ++ source_of sequence source.event ∷ [];
          anchor = source.event;
        }

        kept :
            in_windows (slot.before ++ window ∷ slot.after) + in_outbox state.outbox
            ≡ in_slot slot + in_outbox state.outbox + tally p added
        kept = omega (
          arith,
          in_windows-append slot.before (window ∷ slot.after),
          tally-append p slot.window.sources added,
        )

    -- The source that an observation records, if there is one.
    abbrev pub recorded : (sequence : Text) → Option (ObservedSource N T) → List (ScheduledSource T)
    recorded sequence none = []
    recorded sequence (some source) = source_of sequence source.event ∷ []

    -- What admit makes of a state holds one source more, if there is one.
    pub admit-ok :
        (options : SchedulerOptions) (sequence : Text) (source : Option (ObservedSource N T))
        (now : ℕ) (excluded : Bool) (state state' : SchedulerState N T)
        → admit options sequence source now excluded state ≡ ok state'
        → (held state' ≡ held state + tally p (recorded sequence source))
          × (state'.through ≡ sequence)
          × ((sealed : List (OutboxItem N T)) × (state'.outbox ≡ state.outbox ++ sealed))
    unfolding admit tally held
    admit-ok options sequence none now excluded state state' h =
        subst
          (λ x.
            (held x ≡ held state + tally p [])
            × (x.through ≡ sequence)
            × ((sealed : List (OutboxItem N T)) × (x.outbox ≡ state.outbox ++ sealed)))
          (ok-injective h) (omega arith, refl, ([], sym (append-nil state.outbox)))
    admit-ok options sequence (some source) now excluded state state' h =
        elim (Bool-cases (is_digest source.partition)) [
          | inr bad ↦ absurd (ground arith)
          | inl good ↦ elim (Result-cases (open_slot options now source counted)) [
            | inr (e, q) ↦ absurd (ground (arith, rw (good, q, admit) at h))
            | inl ((opened, slot), q) ↦
                let (a, f) = open_slot-ok options now source counted (opened, slot) q in
                let (b, g) =
                  add_source-ok options sequence now source opened state' slot
                    (rw (good, q, admit) at h) in
                let (through, sealed) = Follows-trans counted opened state' f g in
                (b ∙ ap (λ n. n + tally p (recorded sequence (some source))) a, through, sealed)
          ]
        ]
      where
        counted : SchedulerState N T
        counted = record state {
          through = sequence;
          excluded = if excluded then state.excluded + 1 else state.excluded;
        }

    -- What seal_elapsed makes of a state holds the same sources.
    pub seal_elapsed-ok :
        (options : SchedulerOptions) (now : ℕ) (kept windows : List (OpenWindow N T))
        (state state' : SchedulerState N T)
        → state.windows ≡ kept ++ windows
        → seal_elapsed options now kept windows state ≡ ok state'
        → (held state' ≡ held state) × Follows state state'
    unfolding seal_elapsed held in_windows
    seal_elapsed-ok options now kept [] state state' e h =
        rw (ok-injective h) (refl, (refl, ([], sym (append-nil state'.outbox))))
    seal_elapsed-ok options now kept (w ∷ ws) state state' e h =
        elim (Bool-cases (is_elapsed options now w)) [
          | inr young ↦
              seal_elapsed-ok options now (kept ++ w ∷ []) ws state state'
                (e ∙ sym (append_assoc kept (w ∷ []) ws)) (rw (young, seal_elapsed) at h)
          | inl old ↦
              elim (Result-cases (
                seal options state (record { before = kept; window = w; after = ws }) on_elapsed
                  now)) [
                    | inr (x, q) ↦ absurd (ground (arith, rw (old, q, seal_elapsed) at h))
                    | inl (sealed, q) ↦
                        let slot : Slot N T = record { before = kept; window = w; after = ws } in
                        let (a, f) = seal-ok options state sealed slot on_elapsed now q in
                        let (b, g) =
                          seal_elapsed-ok options now kept ws sealed state'
                            (seal-windows options state sealed slot on_elapsed now q)
                            (rw (old, q, seal_elapsed) at h) in
                        (b ∙ a ∙ whole, Follows-trans state sealed state' f g)
                  ]
        ]
      where
        whole :
            in_windows kept + tally p w.sources + in_windows ws + in_outbox state.outbox
            ≡ held state
        whole = omega (arith, ap in_windows e, in_windows-append kept (w ∷ ws))

-- ===== src/Fold/Order/Producer.antt =====
-- validateProducerOrder of packages/fold/src/order.ts and the sequences it accepts.
use super_brain.Prelude.{
  ◌≡◌, ◌≢◌, ◌↔◌, inl, inr, refl, Bool-cases, false, Option, none, some, List, [], ◌∷◌, All,
  Ordering, Result, Result-cases, ok, err, if◌then◌else◌, arith,
}
use super_brain.Prelude.Text.{Text, ===_iff, compare_text, text_ordered}
use super_brain.Prelude.Order.{Ordered, is_eq}
use super_brain.Fold.Schema.{FoldEvent}
use super_brain.Fold.Order.{
  EventOrderError, has, id_at, set_id_at, blocked_by, admit_event, validate_from,
  validate_producer_order,
}

lt_of_passing :
    (previous id : Text)
    → blocked_by (some previous) id ≡ none
    → compare_text previous id ≡ Ordering.lt
unfolding blocked_by
lt_of_passing previous id h = ground arith

passes :
    (o : Option Text) (id next : Text)
    → blocked_by o id ≡ none
    → compare_text id next ≡ Ordering.lt
    → blocked_by o next ≡ none
unfolding blocked_by
passes none id next h k = refl
passes (some p) id next h k = ground (arith, text_ordered.cmp_trans p id next)

module _ {T : Type 0} ⦃clock : Ordered T⦄ where
  id_at-set_id_at :
      (t s : T) (id : Text) (m : List (T × Text))
      → id_at t (set_id_at s id m) ≡ (if is_eq (clock.cmp s t) then some id else id_at t m)
  unfolding id_at set_id_at
  id_at-set_id_at t s id [] = refl
  id_at-set_id_at t s id ((r, j) ∷ m) = ground (
    arith,
    id_at-set_id_at t s id m,
    clock.eq_of_cmp r s,
    clock.eq_of_cmp r t,
    clock.eq_of_cmp s t,
    clock.cmp_self t,
    clock.cmp_self s,
  )

  next_blocked :
      (te tf : T) (ie jf : Text) (m : List (T × Text))
      → blocked_by (id_at te m) ie ≡ none
      → (blocked_by (id_at tf (set_id_at te ie m)) jf ≡ none)
        ↔ ((blocked_by (id_at tf m) jf ≡ none) × (te ≡ tf → compare_text ie jf ≡ Ordering.lt))
  unfolding blocked_by
  next_blocked te tf ie jf m a = elim (Bool-cases (is_eq (clock.cmp te tf))) [
    | inl e ↦ rw (id_at-set_id_at tf te ie m, e) (same (clock.eq_of_cmp te tf (ground arith)))
    | inr e ↦ rw (id_at-set_id_at tf te ie m, e) (λ b. (b, λ q. absurd (differ e q)), λ c. c.0)
  ]
    where
      same :
          te ≡ tf
          → (blocked_by (some ie) jf ≡ none)
            ↔ ((blocked_by (id_at tf m) jf ≡ none) × (te ≡ tf → compare_text ie jf ≡ Ordering.lt))
      same q = rw (← q) (
        λ b. (passes _ ie jf a (lt_of_passing ie jf b), λ _. lt_of_passing ie jf b),
        λ c. ground (arith, c.1 refl),
      )

      differ : is_eq (clock.cmp te tf) ≡ false → te ≡ tf → ⊥
      differ e q = ground (arith, clock.cmp_self te)

module _ {N T : Type 0} ⦃clock : Ordered T⦄ where
  -- `f` may stand after `e`: it has another id, and a greater one if their times are equal.
  abbrev pub MayFollow : FoldEvent N T → FoldEvent N T → Type 0
  MayFollow e f = (e.id ≢ f.id) × (e.t ≡ f.t → compare_text e.id f.id ≡ Ordering.lt)

  abbrev pub IsProducerOrder : List (FoldEvent N T) → Type 0
  IsProducerOrder [] = Unit
  IsProducerOrder (e ∷ es) = All (MayFollow e) es × IsProducerOrder es

  -- What the loop asks of an event, given the events before it.
  abbrev Admits : List Text × List (T × Text) → FoldEvent N T → Type 0
  Admits (ids, previous) f = (has ids f.id ≡ false) × (blocked_by (id_at f.t previous) f.id ≡ none)

  Admits-next :
      (ids : List Text) (previous : List (T × Text)) (e f : FoldEvent N T)
      → Admits (ids, previous) e
      → Admits (e.id ∷ ids, set_id_at e.t e.id previous) f
        ↔ (Admits (ids, previous) f × MayFollow e f)
  unfolding has
  Admits-next ids previous e f a =
      let (to, from) = next_blocked e.t f.t e.id f.id previous a.1 in
      let same = ===_iff e.id f.id in
      (
        λ b.
            let (c, d) = to b.1 in
            ((ground (arith, b.0), c), ((λ q. ground (arith, b.0, same.1 q)), d)),
        λ b. (ground (arith, b.0, b.1, same), from (b.0.1, b.1.1)),
      )

  All-Admits-next :
      (ids : List Text) (previous : List (T × Text)) (e : FoldEvent N T) (es : List (FoldEvent N T))
      → Admits (ids, previous) e
      → All (Admits (e.id ∷ ids, set_id_at e.t e.id previous)) es
        ↔ (All (Admits (ids, previous)) es × All (MayFollow e) es)
  All-Admits-next ids previous e [] a = (λ _. (tt, tt), λ _. tt)
  All-Admits-next ids previous e (f ∷ fs) a =
      let (to, from) = Admits-next ids previous e f a in
      let (tos, froms) = All-Admits-next ids previous e fs a in
      (
        λ h. (((to h.0).0, (tos h.1).0), ((to h.0).1, (tos h.1).1)),
        λ h. (from (h.0.0, h.1.0), froms (h.0.1, h.1.1)),
      )

  admit_event-ok :
      (ids : List Text) (previous : List (T × Text)) (e : FoldEvent N T)
      → Admits (ids, previous) e
      → admit_event (ids, previous) e ≡ ok (e.id ∷ ids, set_id_at e.t e.id previous)
  unfolding admit_event
  admit_event-ok ids previous e (a, b) = rw (a, b) refl

  Admits-of_ok :
      (ids : List Text) (previous : List (T × Text)) (e : FoldEvent N T)
      {r : List Text × List (T × Text)}
      → admit_event (ids, previous) e ≡ ok r
      → Admits (ids, previous) e
  unfolding admit_event
  Admits-of_ok ids previous e h = ground arith

  validate_from_iff :
      (ids : List Text) (previous : List (T × Text)) (es : List (FoldEvent N T))
      → (validate_from (ids, previous) es ≡ ok tt)
        ↔ (All (Admits (ids, previous)) es × IsProducerOrder es)
  unfolding validate_from
  validate_from_iff ids previous [] = (λ _. (tt, tt), λ _. refl)
  validate_from_iff ids previous (e ∷ es) =
      let (to, from) = validate_from_iff (e.id ∷ ids) (set_id_at e.t e.id previous) es in
      (
        λ h. elim (Result-cases (admit_event (ids, previous) e)) [
          | inl (s, q) ↦
              let a = Admits-of_ok ids previous e q in
              let later = to (rw (admit_event-ok ids previous e a) at h) in
              let split = (All-Admits-next ids previous e es a).0 later.0 in
              ((a, split.0), (split.1, later.1))
          | inr (x, q) ↦
              let bad : ◌≡◌ {A = Result (EventOrderError T) (Unit {0})} (err x) (ok tt) =
                rw q at h in
              cc
        ],
        λ h.
            let (a, rest) = h.0 in
            rw (admit_event-ok ids previous e a)
              (from ((All-Admits-next ids previous e es a).1 (rest, h.1.0), h.1.1)),
      )

  All-Admits-start : (es : List (FoldEvent N T)) → All (Admits ([], [])) es
  unfolding has blocked_by id_at
  All-Admits-start [] = tt
  All-Admits-start (e ∷ es) = ((refl, refl), All-Admits-start es)

  -- A sequence is accepted exactly when each event has another id than every event after it, and a
  -- smaller one than every later event of the same time, however many events stand between them.
  pub validate_producer_order_iff :
      (events : List (FoldEvent N T))
      → (validate_producer_order events ≡ ok tt) ↔ IsProducerOrder events
  unfolding validate_producer_order
  validate_producer_order_iff events =
      let (to, from) = validate_from_iff [] [] events in
      (λ h. (to h).1, λ p. from (All-Admits-start events, p))

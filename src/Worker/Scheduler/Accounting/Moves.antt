-- ===== src/Worker/Scheduler/Accounting/Moves.antt =====
-- From one scheduler to another, of apps/memory-worker/src/scheduler.ts: where the sources are after
-- a flush, after a persist, and after nothing.
use super_brain.Prelude.{
  ℕ, ◌+◌, ◌≡◌, sym, ap, ◌∙◌, ◌⊎◌, inl, inr, Bool, true, ltb, Option, some, List, [], ◌∷◌, ◌++◌,
  arith,
}
use mathlib.Core.Path.{subst}
use mathlib.Core.List.{Memᴰ, append_assoc, append-nil}
use super_brain.Worker.Windows.{ScheduledSource, OutboxItem, SchedulerState, big_int}
use super_brain.Worker.Scheduler.{Environment, Scheduler}
use super_brain.Worker.Scheduler.Flush.{IsSame, Holds, Leads, HasDelivered, Stores, Drained}
use super_brain.Worker.Scheduler.Accounting.{tally, in_outbox, in_outbox-append, held}

module _ {N T W : Type 0} (environment : Environment N T W) (p : ScheduledSource T → Bool) where
  -- The sources of `state` and of the acknowledged items that satisfy `p`.
  pub accounted : Scheduler N T W → SchedulerState N T → ℕ
  accounted s state = in_outbox p s.acknowledged + held p state

  -- `next` is `state` after a tick, or after an observation: it has the sources of `state` and the
  -- added ones, and its outbox is that of `state` with sealed items behind.
  pub record Continues (added : List (ScheduledSource T)) (state next : SchedulerState N T)
      : Type 0 where
    pub sealed : List (OutboxItem N T)
    pub outbox : next.outbox ≡ state.outbox ++ sealed
    pub total : held p next ≡ held p state + tally p added
    pub through :
        ((added ≡ []) × (next.through ≡ state.through))
        ⊎ (ltb (big_int state.through) (big_int next.through) ≡ true)

  -- No source, or one of the known ones.
  abbrev pub IsOneOf : (known added : List (ScheduledSource T)) → Type 0
  IsOneOf known added =
      (added ≡ []) ⊎ ((source : ScheduledSource T) × Memᴰ source known × (added ≡ source ∷ []))

  -- The store has the state, or that of one write that was not confirmed: the state without the first
  -- item of its outbox, which was delivered, or what a tick or the observation of at most one source,
  -- a known one, makes of it.
  abbrev pub IsNear :
      (known : List (ScheduledSource T)) → SchedulerState N T → Option (SchedulerState N T) → Type 0
  IsNear known state store =
      (store ≡ some state)
      ⊎ ((ahead : SchedulerState N T) × (store ≡ some ahead)
          × (HasDelivered environment state ahead
              ⊎ ((added : List (ScheduledSource T)) × IsOneOf known added
                  × Continues added state ahead)))

  -- From `s` with `state` to `t` with `state'` in memory: the items acknowledged and in the outbox are
  -- followed by sealed ones, and `n` sources were added. The store has `state'`, or is one write ahead.
  pub record Moved (known : List (ScheduledSource T)) (n : ℕ) (state state' : SchedulerState N T)
      (s t : Scheduler N T W) : Type 0 where
    pub memory : t.memory ≡ some state'
    pub stored : IsNear known state' t.stored
    pub sealed : List (OutboxItem N T)
    pub order : t.acknowledged ++ state'.outbox ≡ (s.acknowledged ++ state.outbox) ++ sealed
    pub total : accounted t state' ≡ accounted s state + n

  pub IsNear-tail :
      (source : ScheduledSource T) (known : List (ScheduledSource T)) (state : SchedulerState N T)
      (store : Option (SchedulerState N T))
      → IsNear known state store
      → IsNear (source ∷ known) state store
  IsNear-tail source known state store (inl e) = inl e
  IsNear-tail source known state store (inr (ahead, e, inl d)) = inr (ahead, e, inl d)
  IsNear-tail source known state store (inr (ahead, e, inr (added, inl none_added, c))) =
      inr (ahead, e, inr (added, inl none_added, c))
  IsNear-tail source known state store (inr (ahead, e, inr (added, inr (x, m, one), c))) =
      inr (ahead, e, inr (added, inr (x, Memᴰ.tail m, one), c))

  pub Moved-trans :
      (known : List (ScheduledSource T)) (n m k : ℕ) (a b c : SchedulerState N T)
      (s t u : Scheduler N T W)
      → n + m ≡ k
      → Moved known n a b s t
      → Moved known m b c t u
      → Moved known k a c s u
  Moved-trans known n m k a b c s t u sum f g = record {
    memory = g.memory;
    stored = g.stored;
    sealed = f.sealed ++ g.sealed;
    order =
        g.order
        ∙ ap (λ l. l ++ g.sealed) f.order
        ∙ append_assoc (s.acknowledged ++ a.outbox) f.sealed g.sealed;
    total = omega (arith, sum, f.total, g.total);
  }

  pub Moved-IsSame :
      (known : List (ScheduledSource T)) (state : SchedulerState N T) (s t : Scheduler N T W)
      → s.memory ≡ some state
      → IsNear known state s.stored
      → IsSame s t
      → Moved known 0 state state s t
  unfolding accounted
  Moved-IsSame known state s t m d same = record {
    memory = same.memory ∙ m;
    stored = subst (IsNear known state) (sym same.stored) d;
    sealed = [];
    order =
        ap (λ l. l ++ state.outbox) same.acknowledged
        ∙ sym (append-nil (s.acknowledged ++ state.outbox));
    total = omega (arith, ap (in_outbox p) same.acknowledged);
  }

  pub Moved-Drained :
      (known : List (ScheduledSource T)) (state : SchedulerState N T) (s t : Scheduler N T W)
      → s.memory ≡ some state
      → IsNear known state s.stored
      → (d : Drained environment state s t)
      → Moved known 0 state (record state { outbox = d.rest }) s t
  unfolding accounted held
  Moved-Drained known state s t m e d = record {
    memory = d.memory;
    stored = near d.first d.rest d.parts d.stored;
    sealed = [];
    order =
        ap (λ l. l ++ d.rest) d.acknowledged
        ∙ append_assoc s.acknowledged d.first d.rest
        ∙ ap (λ l. s.acknowledged ++ l) (sym d.parts)
        ∙ sym (append-nil (s.acknowledged ++ state.outbox));
    total = omega (
      arith,
      ap (in_outbox p) d.acknowledged,
      ap (in_outbox p) d.parts,
      in_outbox-append p s.acknowledged d.first,
      in_outbox-append p d.first d.rest,
    );
  }
    where
      near :
          (first rest : List (OutboxItem N T))
          → state.outbox ≡ first ++ rest
          → Stores environment state first rest s t
          → IsNear known (record state { outbox = rest }) t.stored
      near first rest parts (inl (empty, same)) =
          let whole : state ≡ record state { outbox = rest } =
            ap (λ l. record state { outbox = l }) (parts ∙ ap (λ l. l ++ rest) empty) in
          subst (λ x. IsNear known x t.stored) whole (subst (IsNear known state) (sym same) e)
      near first rest parts (inr (inl now)) = inl now
      near first rest parts (inr (inr (ahead, now, delivered))) = inr (ahead, now, inl delivered)

  -- A state written after another, but not confirmed.
  pub Moved-Leads :
      (known : List (ScheduledSource T)) (added : List (ScheduledSource T))
      (state next : SchedulerState N T) (s t : Scheduler N T W)
      → s.memory ≡ some state
      → IsOneOf known added
      → Continues added state next
      → Leads next s t
      → Moved known 0 state state s t
  unfolding accounted
  Moved-Leads known added state next s t m few c h = record {
    memory = h.memory ∙ m;
    stored = inr (next, h.stored, inr (added, few, c));
    sealed = [];
    order =
        ap (λ l. l ++ state.outbox) h.acknowledged
        ∙ sym (append-nil (s.acknowledged ++ state.outbox));
    total = omega (arith, ap (in_outbox p) h.acknowledged);
  }

  -- A state persisted after another whose outbox it continues.
  pub Moved-Holds :
      (known : List (ScheduledSource T)) (added : List (ScheduledSource T))
      (state state' : SchedulerState N T) (s t : Scheduler N T W)
      → Continues added state state'
      → Holds state' s t
      → Moved known (tally p added) state state' s t
  unfolding accounted
  Moved-Holds known added state state' s t c h = record {
    memory = h.memory;
    stored = inl h.stored;
    sealed = c.sealed;
    order =
        ap (λ l. l ++ state'.outbox) h.acknowledged
        ∙ ap (λ l. s.acknowledged ++ l) c.outbox
        ∙ sym (append_assoc s.acknowledged state.outbox c.sealed);
    total = omega (arith, c.total, ap (in_outbox p) h.acknowledged);
  }

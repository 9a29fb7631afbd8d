-- ===== src/Worker/Lease/Abandoned.antt =====
-- The takeover of the lease of apps/memory-worker/src/jobs.ts, cut off by the end of its process.
use super_brain.Prelude.{ℕ, ◌≡◌, ◌≢◌, refl, sym, ap, ◌∙◌, inl, inr, false, some, arith}
use mathlib.Core.Path.{subst}
use mathlib.Core.Option.{some_inj}
use super_brain.Worker.Lease.{
  Phase, owning, closing, dead, Directory, move, Step, create, inspect, probe, recover, check,
  probe_again, remove, finish, abort, fail, close, release, give_up, die, Reaches, here, then_step,
}
use super_brain.Worker.Lease.Exclusion.{
  Fits, IsSound, IsFresh, is_holding, alive, move-deads, recovery-Fits, in_recovery_alive,
  before_recovery_alive, Step-IsSound, Reaches-IsSound,
}

-- The lease and the recovery file are those of dead workers.
abbrev pub IsAbandoned : (maker owner : ℕ) → Directory → Type 0
IsAbandoned maker owner d =
    (d.recovery ≡ some maker)
    × (d.phase maker ≡ dead)
    × (d.lease ≡ some owner)
    × (d.phase owner ≡ dead)

module _ (maker owner : ℕ) where
  moved :
      (i : ℕ) (p : Phase) (d : Directory)
      → (d.phase i ≢ dead)
      → IsAbandoned maker owner d
      → IsAbandoned maker owner (move i p d)
  unfolding move
  moved i p d n (r, m, l, o) =
      (r, move-deads i p d (inl n) maker m, l, move-deads i p d (inl n) owner o)

  -- The maker of the recovery file, and the owner of the lease, take no step.
  not_maker :
      {A : Type 0} (i : ℕ) (d : Directory)
      → (d.phase i ≢ dead)
      → IsAbandoned maker owner d
      → d.recovery ≡ some i
      → A
  not_maker i d n (r, m, l, o) q = absurd (n (ap d.phase (some_inj.0 (sym q ∙ r)) ∙ m))

  not_owner :
      {A : Type 0} (i : ℕ) (d : Directory)
      → (d.phase i ≢ dead)
      → IsAbandoned maker owner d
      → d.lease ≡ some i
      → A
  not_owner i d n (r, m, l, o) q = absurd (n (ap d.phase (some_inj.0 (sym q ∙ l)) ∙ o))

  Step-IsAbandoned :
      (d e : Directory)
      → Step d e
      → IsSound d
      → IsAbandoned maker owner d
      → IsAbandoned maker owner e
  unfolding IsSound move
  Step-IsAbandoned d _ (create i a h free) s (r, m, l, o) = absurd (ground (arith, sym free ∙ l))
  Step-IsAbandoned d _ (inspect i a t h l few) s b = moved i _ d (alive d i _ h refl) b
  Step-IsAbandoned d _ (probe i a t h q) s b = moved i _ d (alive d i _ h refl) b
  Step-IsAbandoned d _ (recover i a t h free) s (r, m, l, o) = absurd (ground (arith, sym free ∙ r))
  Step-IsAbandoned d _ (check i a t h l) s b = moved i _ d (alive d i _ h refl) b
  Step-IsAbandoned d _ (probe_again i a t h q) s b = moved i _ d (alive d i _ h refl) b
  Step-IsAbandoned d _ (remove i a t h) s b =
      let (f, r, l) = subst (λ p. Fits p i d) h (s i) in not_maker i d (alive d i _ h refl) b r
  Step-IsAbandoned d _ (finish i a h) s b =
      not_maker i d (alive d i _ h refl) b (subst (λ p. Fits p i d) h (s i))
  Step-IsAbandoned d _ (abort i h) s b =
      not_maker i d (alive d i (d.phase i) refl (in_recovery_alive (d.phase i) h)) b
        (recovery-Fits (d.phase i) i d h (s i))
  Step-IsAbandoned d _ (fail i h) s b =
      moved i _ d (alive d i (d.phase i) refl (before_recovery_alive (d.phase i) h)) b
  Step-IsAbandoned d _ (close i h l) s b = moved i _ d (alive d i _ h refl) b
  Step-IsAbandoned d _ (release i h) s b =
      not_owner i d (alive d i _ h refl) b (subst (λ p. Fits p i d) h (s i))
  Step-IsAbandoned d _ (give_up i h) s b = moved i _ d (alive d i _ h refl) b
  Step-IsAbandoned d _ (die i) s (r, m, l, o) =
      (r, move-deads i dead d (inr refl) maker m, l, move-deads i dead d (inr refl) owner o)

  later_IsAbandoned :
      (d e : Directory)
      → IsSound d
      → IsAbandoned maker owner d
      → Reaches d e
      → IsSound e × IsAbandoned maker owner e
  later_IsAbandoned d _ s b here = (s, b)
  later_IsAbandoned d e s b (then_step before step) =
      let (s', b') = later_IsAbandoned d _ s b before in
      (Step-IsSound _ e step s', Step-IsAbandoned _ e step s' b')

  -- When a worker has died in the takeover of the lease of a dead worker, before it removed either
  -- file, no worker ever owns the lease again: in all that comes of the directory both files stay, and
  -- nobody holds the lease. The directory is to have come of a fresh one.
  pub Reaches-IsAbandoned :
      (c d e : Directory) (i : ℕ)
      → IsFresh c
      → Reaches c d
      → IsAbandoned maker owner d
      → Reaches d e
      → (e.recovery ≡ some maker) × (e.lease ≡ some owner) × (is_holding (e.phase i) ≡ false)
  unfolding IsSound
  Reaches-IsAbandoned c d e i f r b q =
      let (s, (x, m, l, o)) = later_IsAbandoned d e (Reaches-IsSound c d f r) b q in
      (x, l, idle (e.phase i) refl l o (s i))
    where
      idle :
          (p : Phase)
          → e.phase i ≡ p
          → e.lease ≡ some owner
          → e.phase owner ≡ dead
          → Fits p i e
          → is_holding p ≡ false
      idle owning h l o n = absurd (alive e i _ h refl (ap e.phase (some_inj.0 (sym n ∙ l)) ∙ o))
      idle closing h l o n = absurd (alive e i _ h refl (ap e.phase (some_inj.0 (sym n ∙ l)) ∙ o))
      idle _ h l o n = refl

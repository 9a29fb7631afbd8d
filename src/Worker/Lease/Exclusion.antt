-- ===== src/Worker/Lease/Exclusion.antt =====
-- Who owns the lease of apps/memory-worker/src/jobs.ts in what can come of a directory.
use super_brain.Prelude.{
  ℕ, ◌+◌, ◌≡◌, ◌≢◌, refl, sym, ap, ◌∙◌, ◌⊎◌, inl, inr, Bool, true, false, ◌==◌, ==_iff, none, some,
  if◌then◌else◌, Bool-cases, arith,
}
use mathlib.Core.Path.{subst}
use mathlib.Core.Option.{some_inj}
use super_brain.Worker.Lease.{
  Phase, starting, inspecting, reclaiming, checking, probing, removing, finishing, owning, closing,
  closed, failed, dead, Directory, move, is_before_recovery, is_in_recovery, Step, create, inspect,
  probe, recover, check, probe_again, remove, finish, abort, fail, close, release, give_up, die,
  Reaches, here, then_step,
}

-- What a phase of a worker says of the directory.
abbrev pub Fits : Phase → ℕ → Directory → Type 0
Fits (reclaiming attempt held) i d = d.phase held ≡ dead
Fits (checking attempt held) i d = (d.phase held ≡ dead) × (d.recovery ≡ some i)
Fits (probing attempt held) i d =
    (d.phase held ≡ dead) × (d.recovery ≡ some i) × (d.lease ≡ some held)
Fits (removing attempt held) i d =
    (d.phase held ≡ dead) × (d.recovery ≡ some i) × (d.lease ≡ some held)
Fits (finishing attempt) i d = d.recovery ≡ some i
Fits owning i d = d.lease ≡ some i
Fits closing i d = d.lease ≡ some i
Fits _ i d = Unit {0}

unfoldable pub IsSound : Directory → Type 0
IsSound d = (i : ℕ) → Fits (d.phase i) i d

abbrev pub is_holding : Phase → Bool
is_holding owning = true
is_holding closing = true
is_holding _ = false

-- What a step of another worker must leave as it is.
record Leaves (j : ℕ) (d e : Directory) : Type 0 where
  deads : (t : ℕ) → d.phase t ≡ dead → e.phase t ≡ dead
  recovery : d.recovery ≡ some j → e.recovery ≡ some j
  own : is_holding (d.phase j) ≡ true → d.lease ≡ some j → e.lease ≡ some j
  stale : (t : ℕ) → d.recovery ≡ some j → d.phase t ≡ dead → d.lease ≡ some t → e.lease ≡ some t

Fits-Leaves :
    (p : Phase) (j : ℕ) (d e : Directory) → d.phase j ≡ p → Leaves j d e → Fits p j d → Fits p j e
Fits-Leaves (reclaiming a t) j d e q l f = l.deads t f
Fits-Leaves (checking a t) j d e q l (f, r) = (l.deads t f, l.recovery r)
Fits-Leaves (probing a t) j d e q l (f, r, h) = (l.deads t f, l.recovery r, l.stale t r f h)
Fits-Leaves (removing a t) j d e q l (f, r, h) = (l.deads t f, l.recovery r, l.stale t r f h)
Fits-Leaves (finishing a) j d e q l r = l.recovery r
Fits-Leaves owning j d e q l h = l.own (ap is_holding q) h
Fits-Leaves closing j d e q l h = l.own (ap is_holding q) h
Fits-Leaves _ j d e q l f = tt

-- A step of worker `i` to phase `p` keeps soundness if the phase fits and the others are left alone.
step-IsSound :
    (i : ℕ) (p : Phase) (d e : Directory)
    → IsSound d
    → ((j : ℕ) → e.phase j ≡ (if j == i then p else d.phase j))
    → Fits p i e
    → ((j : ℕ) → j ≢ i → Leaves j d e)
    → IsSound e
unfolding IsSound
step-IsSound i p d e s moved fits leaves j = elim (Bool-cases (j == i)) [
  | inl same ↦ rw (moved j, same, (==_iff j i).0 same) fits
  | inr other ↦
      rw (moved j, other)
        (Fits-Leaves (d.phase j) j d e refl (leaves j (λ q. ground (arith, other, q))) (s j))
]

-- No worker revives when one that was not dead, or one that dies, moves.
pub move-deads :
    (i : ℕ) (p : Phase) (d : Directory)
    → (d.phase i ≢ dead) ⊎ (p ≡ dead)
    → (t : ℕ) → d.phase t ≡ dead
    → (move i p d).phase t ≡ dead
unfolding move
move-deads i p d n t q = elim (Bool-cases (t == i)) [
  | inr other ↦ rw (other, move) q
  | inl same ↦ elim n [
    | inl alive ↦ absurd (alive (rw ((==_iff t i).0 same) at q))
    | inr e ↦ rw (same, move) e
  ]
]

abbrev is_dead : Phase → Bool
is_dead dead = true
is_dead _ = false

pub alive :
    (d : Directory) (i : ℕ) (p : Phase) → d.phase i ≡ p → is_dead p ≡ false → d.phase i ≢ dead
alive d i p h n q = ground (arith, n, ap is_dead (sym h ∙ q))

pub before_recovery_alive : (p : Phase) → is_before_recovery p ≡ true → is_dead p ≡ false
before_recovery_alive p h = ground arith

pub in_recovery_alive : (p : Phase) → is_in_recovery p ≡ true → is_dead p ≡ false
in_recovery_alive p h = ground arith

-- What a worker within the recovery says, and a holder.
pub recovery-Fits :
    (p : Phase) (i : ℕ) (d : Directory) → is_in_recovery p ≡ true → Fits p i d → d.recovery ≡ some i
recovery-Fits (checking a t) i d h (f, r) = r
recovery-Fits (probing a t) i d h (f, r, l) = r
recovery-Fits (removing a t) i d h (f, r, l) = r
recovery-Fits (finishing a) i d h r = r
recovery-Fits _ i d h f = absurd (ground arith)

-- The files are as they were.
move-IsSound :
    (i : ℕ) (p : Phase) (d : Directory)
    → (d.phase i ≢ dead) ⊎ (p ≡ dead)
    → IsSound d
    → Fits p i (move i p d)
    → IsSound (move i p d)
unfolding move
move-IsSound i p d n s fits =
    step-IsSound i p d (move i p d) s (λ j. refl) fits
      (λ j other. record {
        deads = move-deads i p d n;
        recovery = λ r. r;
        own = λ o h. h;
        stale = λ t r q h. h;
      })

-- A worker that made the recovery file removes it.
recovered-IsSound :
    (i : ℕ) (p : Phase) (d : Directory)
    → d.phase i ≢ dead
    → d.recovery ≡ some i
    → IsSound d
    → Fits p i (record (move i p d) { recovery = none })
    → IsSound (record (move i p d) { recovery = none })
unfolding move
recovered-IsSound i p d n r s fits =
    step-IsSound i p d (record (move i p d) { recovery = none }) s (λ j. refl) fits
      (λ j other. record {
        deads = move-deads i p d (inl n);
        recovery = λ q. absurd (other (some_inj.0 (sym q ∙ r)));
        own = λ o h. h;
        stale = λ t q f h. h;
      })

pub Step-IsSound : (d e : Directory) → Step d e → IsSound d → IsSound e
unfolding move IsSound
Step-IsSound d _ (create i attempt h free) s =
    step-IsSound i owning d _ s (λ j. refl) refl
      (λ j other. record {
        deads = move-deads i owning d (inl (alive d i _ h refl));
        recovery = λ r. r;
        own = λ o q. absurd (ground (arith, sym free ∙ q));
        stale = λ t r f q. absurd (ground (arith, sym free ∙ q));
      })
Step-IsSound d _ (inspect i attempt held h l few) s =
    move-IsSound i (inspecting attempt held) d (inl (alive d i _ h refl)) s tt
Step-IsSound d _ (probe i attempt held h q) s =
    move-IsSound i (reclaiming attempt held) d (inl (alive d i _ h refl)) s
      (move-deads i (reclaiming attempt held) d (inl (alive d i _ h refl)) held q)
Step-IsSound d _ (recover i attempt held h free) s =
    step-IsSound i (checking attempt held) d _ s (λ j. refl)
      (
        move-deads i (checking attempt held) d (inl (alive d i _ h refl)) held
            (subst (λ p. Fits p i d) h (s i)),
        refl,
      )
      (λ j other. record {
        deads = move-deads i (checking attempt held) d (inl (alive d i _ h refl));
        recovery = λ r. absurd (ground (arith, sym free ∙ r));
        own = λ o q. q;
        stale = λ t r f q. absurd (ground (arith, sym free ∙ r));
      })
Step-IsSound d _ (check i attempt held h l) s =
    let (f, r) = subst (λ p. Fits p i d) h (s i) in
    move-IsSound i (probing attempt held) d (inl (alive d i _ h refl)) s
      (move-deads i (probing attempt held) d (inl (alive d i _ h refl)) held f, r, l)
Step-IsSound d _ (probe_again i attempt held h q) s =
    let (f, r, l) = subst (λ p. Fits p i d) h (s i) in
    move-IsSound i (removing attempt held) d (inl (alive d i _ h refl)) s
      (move-deads i (removing attempt held) d (inl (alive d i _ h refl)) held f, r, l)
Step-IsSound d _ (remove i attempt held h) s =
    let (f, r, l) = subst (λ p. Fits p i d) h (s i) in
    step-IsSound i (finishing attempt) d _ s (λ j. refl) r
      (λ j other. record {
        deads = move-deads i (finishing attempt) d (inl (alive d i _ h refl));
        recovery = λ q. q;
        own = λ o q.
            absurd (ground (arith, o, ap is_holding (ap d.phase (some_inj.0 (sym q ∙ l)) ∙ f)));
        stale = λ t q g k. absurd (other (some_inj.0 (sym q ∙ r)));
      })
Step-IsSound d _ (finish i attempt h) s =
    recovered-IsSound i (starting (attempt + 1)) d (alive d i _ h refl)
      (subst (λ p. Fits p i d) h (s i)) s tt
Step-IsSound d _ (abort i h) s =
    recovered-IsSound i failed d (alive d i (d.phase i) refl (in_recovery_alive (d.phase i) h))
      (recovery-Fits (d.phase i) i d h (s i)) s tt
Step-IsSound d _ (fail i h) s =
    move-IsSound i failed d (inl (alive d i (d.phase i) refl (before_recovery_alive (d.phase i) h)))
      s tt
Step-IsSound d _ (close i h l) s = move-IsSound i closing d (inl (alive d i _ h refl)) s l
Step-IsSound d _ (release i h) s =
    let l = subst (λ p. Fits p i d) h (s i) in
    step-IsSound i closed d _ s (λ j. refl) tt
      (λ j other. record {
        deads = move-deads i closed d (inl (alive d i _ h refl));
        recovery = λ q. q;
        own = λ o q. absurd (other (some_inj.0 (sym q ∙ l)));
        stale = λ t q g k. absurd (alive d i _ h refl (ap d.phase (some_inj.0 (sym l ∙ k)) ∙ g));
      })
Step-IsSound d _ (give_up i h) s = move-IsSound i failed d (inl (alive d i _ h refl)) s tt
Step-IsSound d _ (die i) s = move-IsSound i dead d (inr refl) s tt

-- A directory before any worker has come to it: no lease, no recovery file, every worker at the start.
abbrev pub IsFresh : Directory → Type 0
IsFresh d = (d.lease ≡ none) × (d.recovery ≡ none) × ((i : ℕ) → d.phase i ≡ starting 0)

pub Reaches-IsSound : (d e : Directory) → IsFresh d → Reaches d e → IsSound e
unfolding IsSound
Reaches-IsSound d _ (l, r, p) here = λ i. rw (p i) tt
Reaches-IsSound d e f (then_step before step) = Step-IsSound _ e step (Reaches-IsSound d _ f before)

-- Whatever the workers of a fresh directory do, in any interleaving, and wherever they die, a worker
-- that owns the lease, or is about to remove it in close, is the one that lease.json names; so two
-- such workers are one.
pub Reaches-exclusive :
    (d e : Directory) (i j : ℕ)
    → IsFresh d
    → Reaches d e
    → is_holding (e.phase i) ≡ true
    → is_holding (e.phase j) ≡ true
    → (e.lease ≡ some i) × (i ≡ j)
unfolding IsSound
Reaches-exclusive d e i j f r hi hj =
    let s = Reaches-IsSound d e f r in
    let li = named (e.phase i) i hi (s i) in
    let lj = named (e.phase j) j hj (s j) in (li, some_inj.0 (sym li ∙ lj))
  where
    named : (p : Phase) (k : ℕ) → is_holding p ≡ true → Fits p k e → e.lease ≡ some k
    named owning k h f = f
    named closing k h f = f
    named _ k h f = absurd (ground arith)

-- ===== src/Worker/Jobs/Admission.antt =====
-- enqueue of apps/memory-worker/src/jobs.ts.
use Prim.Native.Nat.{◌≤◌}
use super_brain.Prelude.{
  ℕ, suc, ◌≡◌, refl, sym, ap, ◌∙◌, ◌⊎◌, inl, inr, false, leb, none, some, [], ◌∷◌, length,
  if◌then◌else◌, ok, err, ok-injective, Bool-cases, Result-cases, arith,
}
use super_brain.Prelude.Text.{Text, ◌===◌, ===_self, eq_of_===}
use super_brain.Prelude.Dict.{Dict, put}
use super_brain.Worker.Processing.{
  JobKind, JobState, pending, Job, Content, sealed, Ledger, JobError, backpressure, job_files,
  new_job, is_settled, Fault, smooth, unwritten, unretired, unsynced, next_fault, later_faults,
}
use super_brain.Worker.Jobs.{get_job, publish, retire, write_job, put_job, enqueue}
use super_brain.Worker.Jobs.Writes.{put_job_cases}
use super_brain.Worker.Jobs.Views.{IsPlaced, Updates}

module _ {P : Type 0} where
  job_files-put :
      (id : Text) (content : Content P) (files : Dict (Content P))
      → length (job_files (put id content files)) ≤ suc (length (job_files files))
  unfolding job_files put
  job_files-put id content [] = ground arith
  job_files-put id content ((k, c) ∷ files) = ground (arith, job_files-put id content files)

module _ {P S : Type 0} where
  enqueue_existing :
      (max_active : ℕ) (id : Text) (kind : JobKind) (payload : P) (now : ℕ) (job : Job P)
      (l : Ledger P S)
      → get_job id l ≡ ok (some job)
      → enqueue max_active id kind payload now l ≡ (ok job, l)
  unfolding enqueue
  enqueue_existing max_active id kind payload now job l h = rw (h, enqueue) refl

  -- A put that returns, where there was no job, has updated the ledger.
  put_job_new :
      (job : Job P) (l : Ledger P S)
      → IsPlaced l
      → get_job job.id l ≡ ok none
      → (put_job job l).0 ≡ ok tt
      → Updates job l (put_job job l).1
  put_job_new job l p q w = elim (put_job_cases job l p).0 [
    | inl (e, h, r) ↦ absurd (ground (arith, sym q ∙ h))
    | inr (inl (current, h, s, r)) ↦ absurd (ground (arith, sym q ∙ h))
    | inr (inr (current, h, s, inl (x, like))) ↦ absurd (ground (arith, sym w ∙ x))
    | inr (inr (current, h, s, inr updates)) ↦ updates
  ]

  enqueue_error :
      (max_active : ℕ) (id : Text) (kind : JobKind) (payload : P) (now : ℕ) (e : JobError)
      (l : Ledger P S)
      → get_job id l ≡ err e
      → enqueue max_active id kind payload now l ≡ (err e, l)
  unfolding enqueue
  enqueue_error max_active id kind payload now e l h = rw (h, enqueue) refl

  -- What enqueue does when there is no job of the identity.
  enqueue_fresh :
      (max_active : ℕ) (id : Text) (kind : JobKind) (payload : P) (now : ℕ) (l : Ledger P S)
      → get_job id l ≡ ok none
      → (enqueue max_active id kind payload now l ≡ (err backpressure, l))
        ⊎ ((leb max_active (length (job_files l.active)) ≡ false)
            × ((((e : JobError) × ((enqueue max_active id kind payload now l).0 ≡ err e))
                  ⊎ (((put_job (new_job id kind payload now) l).0 ≡ ok tt)
                      × ((enqueue max_active id kind payload now l).0
                          ≡ ok (new_job id kind payload now))))
                × ((enqueue max_active id kind payload now l).1
                    ≡ (put_job (new_job id kind payload now) l).1)))
  unfolding enqueue
  enqueue_fresh max_active id kind payload now l q =
      elim (Bool-cases (leb max_active (length (job_files l.active)))) [
        | inl full ↦ inl (rw (q, full, enqueue) refl)
        | inr room ↦ elim (Result-cases (put_job (new_job id kind payload now) l).0) [
          | inr (e, w) ↦
              inr (room, (inl (e, rw (q, room, w, enqueue) refl), rw (q, room, w, enqueue) refl))
          | inl (u, w) ↦
              inr (room, (inr (w, rw (q, room, w, enqueue) refl), rw (q, room, w, enqueue) refl))
        ]
      ]

  enqueue_view :
      (max_active : ℕ) (id : Text) (kind : JobKind) (payload : P) (now : ℕ) (job : Job P)
      (l : Ledger P S)
      → IsPlaced l
      → (enqueue max_active id kind payload now l).0 ≡ ok job
      → (other : Text)
      → get_job other (enqueue max_active id kind payload now l).1
        ≡ (if id === other then ok (some job) else get_job other l)
  unfolding new_job
  enqueue_view max_active id kind payload now job l p r other = elim (Result-cases (get_job id l)) [
    | inr (e, q) ↦
        absurd (
          ground
            (arith, sym r ∙ ap (λ x. x.0) (enqueue_error max_active id kind payload now e l q)))
    | inl (some j, q) ↦
        let e = enqueue_existing max_active id kind payload now j l q in
        ap (λ x. get_job other x.1) e
        ∙ same (q ∙ ap (λ j. ok (some j)) (ok-injective (sym (ap (λ x. x.0) e) ∙ r)))
    | inl (none, q) ↦ elim (enqueue_fresh max_active id kind payload now l q) [
      | inl full ↦ absurd (ground (arith, sym r ∙ ap (λ x. x.0) full))
      | inr (room, (inl (e, x), y)) ↦ absurd (ground (arith, sym r ∙ x))
      | inr (room, (inr (w, x), y)) ↦
          ap (λ t. get_job other t) y
          ∙ put_job_new (new_job id kind payload now) l p q w other
          ∙ ap (λ j. if id === other then ok (some j) else get_job other l)
              (ok-injective (sym x ∙ r))
    ]
  ]
    where
      same :
          get_job id l ≡ ok (some job)
          → get_job other l ≡ (if id === other then ok (some job) else get_job other l)
      same q = elim (Bool-cases (id === other)) [
        | inl e ↦ rw e (rw (eq_of_=== id other e) at q)
        | inr e ↦ rw e refl
      ]

  -- When enqueue of a well-placed ledger returns a job, get gives that job under the identity, every
  -- other identity has what it had, and a second enqueue of the identity, whatever kind, payload and
  -- time it has, returns the same job and changes nothing.
  pub enqueue-enqueue :
      (max_active : ℕ) (id : Text) (kind kind' : JobKind) (payload payload' : P) (now now' : ℕ)
      (job : Job P) (l : Ledger P S) (other : Text)
      → IsPlaced l
      → (enqueue max_active id kind payload now l).0 ≡ ok job
      → (get_job other (enqueue max_active id kind payload now l).1
          ≡ (if id === other then ok (some job) else get_job other l))
        × (enqueue max_active id kind' payload' now' (enqueue max_active id kind payload now l).1
            ≡ (ok job, (enqueue max_active id kind payload now l).1))
  enqueue-enqueue max_active id kind kind' payload payload' now now' job l other p r = (
    enqueue_view max_active id kind payload now job l p r other,
    enqueue_existing max_active id kind' payload' now' job
        (enqueue max_active id kind payload now l).1
        (enqueue_view max_active id kind payload now job l p r id
          ∙ ap (λ b. if b then ok (some job) else get_job id l) (===_self id)),
  )

  write_job-active :
      (job : Job P) (l : Ledger P S)
      → job.state ≡ pending
      → length (job_files (write_job job l).1.active) ≤ suc (length (job_files l.active))
  unfolding write_job publish retire
  write_job-active job l h = go (next_fault l.faults) refl
    where
      rest : Ledger P S
      rest = record l { faults = later_faults l.faults }

      written :
          (st : JobState)
          → st ≡ pending
          → (length (job_files (publish st job rest).active) ≤ suc (length (job_files l.active)))
            × (length (job_files (retire st job.id (publish st job rest)).active)
                ≤ suc (length (job_files l.active)))
      written pending e =
          (job_files-put job.id (sealed job) l.active, job_files-put job.id (sealed job) l.active)
      written _ e = absurd (ground (arith, e))

      go :
          (fault : Fault)
          → next_fault l.faults ≡ fault
          → length (job_files (write_job job l).1.active) ≤ suc (length (job_files l.active))
      go smooth e = rw (e, write_job) ((written job.state h).1)
      go unwritten e = rw (e, write_job) (omega arith)
      go unretired e = rw (e, write_job) ((written job.state h).0)
      go unsynced e = rw (e, write_job) ((written job.state h).1)

  put_job-active :
      (job : Job P) (l : Ledger P S)
      → job.state ≡ pending
      → length (job_files (put_job job l).1.active) ≤ suc (length (job_files l.active))
  unfolding put_job
  put_job-active job l h = elim (Result-cases (get_job job.id l)) [
    | inr (e, q) ↦ rw (q, put_job) (omega arith)
    | inl (current, q) ↦ elim (Bool-cases (is_settled current)) [
      | inl s ↦ rw (q, s, put_job) (omega arith)
      | inr s ↦ rw (q, s, put_job) (write_job-active job l h)
    ]
  ]

  -- If the number of files of active jobs is within the capacity, enqueue keeps it so, on every branch
  -- and with every fault of its write.
  pub enqueue-active :
      (max_active : ℕ) (id : Text) (kind : JobKind) (payload : P) (now : ℕ) (l : Ledger P S)
      → length (job_files l.active) ≤ max_active
      → length (job_files (enqueue max_active id kind payload now l).1.active) ≤ max_active
  unfolding new_job
  enqueue-active max_active id kind payload now l h = elim (Result-cases (get_job id l)) [
    | inr (e, q) ↦ rw (enqueue_error max_active id kind payload now e l q) h
    | inl (some j, q) ↦ rw (enqueue_existing max_active id kind payload now j l q) h
    | inl (none, q) ↦ elim (enqueue_fresh max_active id kind payload now l q) [
      | inl full ↦ rw full h
      | inr (room, (r, t)) ↦
          rw t (ground (arith, room, put_job-active (new_job id kind payload now) l refl))
    ]
  ]

-- ===== src/Worker/Jobs/Writes.antt =====
-- putInternal of apps/memory-worker/src/jobs.ts: what a ledger holds after a write.
use super_brain.Prelude.{
  ◌≡◌, refl, ap, ◌∙◌, ◌⊎◌, inl, inr, true, false, Option, none, some, if◌then◌else◌, Result, ok,
  err, Bool-cases,
}
use mathlib.Core.Path.{subst}
use super_brain.Prelude.Text.{Text, ◌===◌, eq_of_===, ===_self}
use super_brain.Prelude.Dict.{Dict, get, put, delete}
use super_brain.Worker.Processing.{
  JobState, completed, excluded, exhausted, Job, Content, sealed, Fault, smooth, unwritten,
  unretired, unsynced, Ledger, JobError, not_written, next_fault, later_faults, is_terminal,
  read_job, is_settled,
}
use super_brain.Worker.Jobs.{get_job, publish, retire, write_job, put_job}
use super_brain.Worker.Jobs.Views.{
  put-all_terminal, read_job-put, read_job-delete, read_job-of_none, IsPlaced, IsFree,
  IsFree-of_unsettled, Updates, IsLike,
}

module _ {P S : Type 0} where
  -- A job that was published, and whose active file was removed if it is terminal, is under its
  -- identity,
  publish-own :
      (state : JobState) (job : Job P) (l : Ledger P S)
      → IsFree job.id l
      → (get_job job.id (publish state job l) ≡ ok (some job))
        × (get_job job.id (retire state job.id (publish state job l)) ≡ ok (some job))
  unfolding get_job publish retire
  publish-own state job l f = go state
    where
      there :
          (files : Dict (Content P))
          → read_job job.id (get job.id (put job.id (sealed job) files)) ≡ ok (some job)
      there files =
          read_job-put job job.id files
          ∙ ap (λ b. if b then ok (some job) else read_job job.id (get job.id files))
              (===_self job.id)

      nothing :
          (files : Dict (Content P))
          → get job.id files ≡ none
          → read_job job.id (get job.id files) ≡ ok none
      nothing files e = ap (read_job job.id) e ∙ read_job-of_none job.id

      go :
          (st : JobState)
          → (get_job job.id (publish st job l) ≡ ok (some job))
            × (get_job job.id (retire st job.id (publish st job l)) ≡ ok (some job))
      go completed = simp (f.opened, f.digest, there l.completed) (refl, refl)
      go excluded =
          simp (f.opened, f.digest, nothing l.completed f.completed, there l.excluded) (refl, refl)
      go exhausted =
          simp
            (
              f.opened,
              f.digest,
              nothing l.completed f.completed,
              nothing l.excluded f.excluded,
              there l.exhausted,
            )
            (refl, refl)
      go _ =
          simp
            (
              f.opened,
              f.digest,
              nothing l.completed f.completed,
              nothing l.excluded f.excluded,
              nothing l.exhausted f.exhausted,
              there l.active,
            )
            (refl, refl)

  -- and every other identity has what it had.
  publish-other :
      (state : JobState) (job : Job P) (l : Ledger P S) (id : Text)
      → (job.id === id) ≡ false
      → (get_job id (publish state job l) ≡ get_job id l)
        × (get_job id (retire state job.id (publish state job l)) ≡ get_job id l)
  unfolding get_job publish retire
  publish-other state job l id n = go state
    where
      same :
          (files : Dict (Content P))
          → read_job id (get id (put job.id (sealed job) files)) ≡ read_job id (get id files)
      same files =
          read_job-put job id files
          ∙ ap (λ b. if b then ok (some job) else read_job id (get id files)) n

      kept : read_job id (get id (delete job.id l.active)) ≡ read_job id (get id l.active)
      kept =
          read_job-delete job id l.active
          ∙ ap (λ b. if b then ok none else read_job id (get id l.active)) n

      go :
          (st : JobState)
          → (get_job id (publish st job l) ≡ get_job id l)
            × (get_job id (retire st job.id (publish st job l)) ≡ get_job id l)
      go completed = simp (same l.completed, kept) (refl, refl)
      go excluded = simp (same l.excluded, kept) (refl, refl)
      go exhausted = simp (same l.exhausted, kept) (refl, refl)
      go _ = simp (same l.active) (refl, refl)

  publish-Updates :
      (state : JobState) (job : Job P) (l : Ledger P S)
      → IsFree job.id l
      → Updates job l (publish state job l)
        × Updates job l (retire state job.id (publish state job l))
  publish-Updates state job l f =
      (λ id. (at id (Bool-cases (job.id === id))).0, λ id. (at id (Bool-cases (job.id === id))).1)
    where
      at :
          (id : Text)
          → ((job.id === id) ≡ true) ⊎ ((job.id === id) ≡ false)
          → (get_job id (publish state job l)
              ≡ (if job.id === id then ok (some job) else get_job id l))
            × (get_job id (retire state job.id (publish state job l))
                ≡ (if job.id === id then ok (some job) else get_job id l))
      at id (inr n) = rw n (publish-other state job l id n)
      at id (inl e) = rw e (
          subst
            (λ k.
              (get_job k (publish state job l) ≡ ok (some job))
              × (get_job k (retire state job.id (publish state job l)) ≡ ok (some job)))
            (eq_of_=== job.id id e) (publish-own state job l f))

  publish-IsPlaced :
      (job : Job P) (l : Ledger P S) → IsPlaced l → IsPlaced (publish job.state job l)
  unfolding IsPlaced publish
  publish-IsPlaced job l (a, b, c) = go job.state refl
    where
      go : (st : JobState) → job.state ≡ st → IsPlaced (publish st job l)
      go completed e = (put-all_terminal job l.completed (ap is_terminal e) a, b, c)
      go excluded e = (a, put-all_terminal job l.excluded (ap is_terminal e) b, c)
      go exhausted e = (a, b, put-all_terminal job l.exhausted (ap is_terminal e) c)
      go _ e = (a, b, c)

  retire-IsPlaced :
      (state : JobState) (id : Text) (l : Ledger P S) → IsPlaced l → IsPlaced (retire state id l)
  unfolding IsPlaced retire
  retire-IsPlaced state id l p = elim (Bool-cases (is_terminal state)) [
    | inl e ↦ rw e p
    | inr e ↦ rw e p
  ]

  abbrev Written : Job P → Ledger P S → Type 0
  Written job l =
      ((((write_job job l).0 ≡ err not_written) × IsLike l (write_job job l).1)
        ⊎ Updates job l (write_job job l).1)
      × IsPlaced (write_job job l).1

  -- A write that did not come to the rename changes nothing; any other puts the job in its place.
  write_job_cases : (job : Job P) (l : Ledger P S) → IsFree job.id l → IsPlaced l → Written job l
  unfolding write_job get_job IsPlaced
  write_job_cases job l f p = go (next_fault l.faults) refl
    where
      rest : Ledger P S
      rest = record l { faults = later_faults l.faults }

      free : IsFree job.id rest
      free = record {
        opened = f.opened;
        digest = f.digest;
        completed = f.completed;
        excluded = f.excluded;
        exhausted = f.exhausted;
      }

      go : (fault : Fault) → next_fault l.faults ≡ fault → Written job l
      go smooth e =
          rw (e, write_job)
            (
              inr ((publish-Updates job.state job rest free).1),
              retire-IsPlaced job.state job.id (publish job.state job rest)
                  (publish-IsPlaced job rest p),
            )
      go unwritten e = rw (e, write_job) (inl (refl, λ id. refl), p)
      go unretired e =
          rw (e, write_job)
            (inr ((publish-Updates job.state job rest free).0), publish-IsPlaced job rest p)
      go unsynced e =
          rw (e, write_job)
            (
              inr ((publish-Updates job.state job rest free).1),
              retire-IsPlaced job.state job.id (publish job.state job rest)
                  (publish-IsPlaced job rest p),
            )

  -- The job that is under the identity cannot be read; or it is terminal; or it is not, and the write
  -- did not come to the rename, or it did.
  abbrev pub PutCases : Job P → Ledger P S → Type 0
  PutCases job l =
      (((e : JobError) × (get_job job.id l ≡ err e) × (put_job job l ≡ (err e, l)))
        ⊎ (((current : Job P) × (get_job job.id l ≡ ok (some current))
              × (is_terminal current.state ≡ true)
              × (put_job job l ≡ (ok tt, l)))
            ⊎ ((current : Option (Job P)) × (get_job job.id l ≡ ok current)
                × (is_settled current ≡ false)
                × ((((put_job job l).0 ≡ err not_written) × IsLike l (put_job job l).1)
                    ⊎ Updates job l (put_job job l).1))))

  -- In a well-placed ledger, putInternal leaves every identity what it had when the job is settled
  -- already or cannot be read, and when the write did not come to the rename; otherwise the job stands
  -- under its identity, also when the write was cut off before the active file was removed or right
  -- after that. The ledger
  -- stays well-placed.
  pub put_job_cases :
      (job : Job P) (l : Ledger P S) → IsPlaced l → PutCases job l × IsPlaced (put_job job l).1
  unfolding put_job
  put_job_cases job l p = go (get_job job.id l) refl
    where
      go :
          (r : Result JobError (Option (Job P)))
          → get_job job.id l ≡ r
          → PutCases job l × IsPlaced (put_job job l).1
      go (err e) q = (inl (e, q, rw (q, put_job) refl), rw (q, put_job) p)
      go (ok none) q =
          let (w, p') = write_job_cases job l (IsFree-of_unsettled job.id l none p q refl) p in
          (inr (inr (none, q, refl, rw (q, put_job) w)), rw (q, put_job) p')
      go (ok (some current)) q = elim (Bool-cases (is_terminal current.state)) [
        | inl t ↦ (inr (inl (current, q, t, rw (q, put_job, t) refl)), rw (q, put_job, t) p)
        | inr t ↦
            let (w, p') =
              write_job_cases job l (IsFree-of_unsettled job.id l (some current) p q t) p in
            (inr (inr (some current, q, t, rw (q, put_job, t) w)), rw (q, put_job, t) p')
      ]

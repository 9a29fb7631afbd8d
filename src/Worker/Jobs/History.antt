-- ===== src/Worker/Jobs/History.antt =====
-- Operations of apps/memory-worker/src/jobs.ts one after another, each with the fault that it meets.
use Prim.Native.Nat.{Ordering}
use super_brain.Prelude.{
  ℕ, ◌+◌, ◌≡◌, refl, sym, ◌∙◌, ◌⊎◌, inl, inr, true, leb, none, some, List, [], ◌∷◌, length, ok,
  Bool-cases, Result-cases, arith,
}
use super_brain.Prelude.Text.{Text, ◌===◌, eq_of_===}
use super_brain.Prelude.Dict.{Dict, put}
use super_brain.Storage.Records.{is_digest}
use super_brain.Worker.Processing.{
  JobKind, Job, Ledger, is_terminal, is_stuck, job_files, new_job, released, next_fault,
  later_faults, smooth, unwritten, Fault,
}
use super_brain.Worker.Jobs.{
  get_job, put_job, enqueue, active_jobs, release_jobs, retry_blocked, write_scheduler_state,
}
use super_brain.Worker.Jobs.Writes.{PutCases, put_job_cases}
use super_brain.Worker.Jobs.Views.{IsPlaced}

pub data Command (P S : Type 0) : Type 0 where
  put_command : Job P → Command P S
  enqueue_command : (id : Text) (kind : JobKind) (payload : P) (now : ℕ) → Command P S
  retry_command : (now : ℕ) → Command P S
  scheduler_command : (id : Text) (state : S) → Command P S

module _ {P S : Type 0} (max_active : ℕ) (locale_compare : Text → Text → Ordering) where
  -- The ledger after a command, whatever the command returns.
  pub run : Command P S → Ledger P S → Ledger P S
  run (put_command job) l = (put_job job l).1
  run (enqueue_command id kind payload now) l = (enqueue max_active id kind payload now l).1
  run (retry_command now) l = (retry_blocked locale_compare now l).1
  run (scheduler_command id state) l = (write_scheduler_state id state l).1

  pub run_all : List (Command P S) → Ledger P S → Ledger P S
  run_all [] l = l
  run_all (command ∷ commands) l = run_all commands (run command l)

module _ {P S : Type 0} where
  -- A well-placed ledger with a terminal job under its identity.
  abbrev pub HasFinal : Text → Job P → Ledger P S → Type 0
  HasFinal id job l = IsPlaced l × (get_job id l ≡ ok (some job)) × (is_terminal job.state ≡ true)

  put_job-HasFinal :
      (id : Text) (job other : Job P) (l : Ledger P S)
      → HasFinal id job l
      → HasFinal id job (put_job other l).1
  put_job-HasFinal id job other l (p, h, t) =
      let (cases, p') = put_job_cases other l p in (p', kept cases, t)
    where
      kept : PutCases other l → get_job id (put_job other l).1 ≡ ok (some job)
      kept (inl (e, q, r)) = rw r h
      kept (inr (inl (current, q, s, r))) = rw r h
      kept (inr (inr (current, q, s, inl (w, like)))) = like id ∙ h
      kept (inr (inr (current, q, s, inr updates))) = elim (Bool-cases (other.id === id)) [
        | inl e ↦ absurd (ground (arith, t, s, sym q ∙ (rw (← eq_of_=== other.id id e) at h)))
        | inr e ↦ updates id ∙ rw e h
      ]

  enqueue-HasFinal :
      (max_active : ℕ) (id : Text) (job : Job P) (other : Text) (kind : JobKind) (payload : P)
      (now : ℕ) (l : Ledger P S)
      → HasFinal id job l
      → HasFinal id job (enqueue max_active other kind payload now l).1
  unfolding enqueue
  enqueue-HasFinal max_active id job other kind payload now l f =
      elim (Result-cases (get_job other l)) [
        | inr (e, q) ↦ rw (q, enqueue) f
        | inl (some j, q) ↦ rw (q, enqueue) f
        | inl (none, q) ↦ elim (Bool-cases (leb max_active (length (job_files l.active)))) [
          | inl full ↦ rw (q, full, enqueue) f
          | inr room ↦ elim (Result-cases (put_job (new_job other kind payload now) l).0) [
            | inr (e, w) ↦
                rw (q, room, w, enqueue)
                  (put_job-HasFinal id job (new_job other kind payload now) l f)
            | inl (u, w) ↦
                rw (q, room, w, enqueue)
                  (put_job-HasFinal id job (new_job other kind payload now) l f)
          ]
        ]
      ]

  release_jobs-HasFinal :
      (id : Text) (job : Job P) (now count : ℕ) (jobs : List (Job P)) (l : Ledger P S)
      → HasFinal id job l
      → HasFinal id job (release_jobs now count jobs l).1
  unfolding release_jobs
  release_jobs-HasFinal id job now count [] l f = f
  release_jobs-HasFinal id job now count (j ∷ jobs) l f = elim (Bool-cases (is_stuck j.state)) [
    | inr s ↦ rw (s, release_jobs) (release_jobs-HasFinal id job now count jobs l f)
    | inl s ↦
        let f' = put_job-HasFinal id job (released now j) l f in
        elim (Result-cases (put_job (released now j) l).0) [
          | inr (e, w) ↦ rw (s, w, release_jobs) f'
          | inl (u, w) ↦
              rw (s, w, release_jobs)
                (release_jobs-HasFinal id job now (count + 1) jobs (put_job (released now j) l).1
                  f')
        ]
  ]

  pub retry_blocked-HasFinal :
      (locale_compare : Text → Text → Ordering) (id : Text) (job : Job P) (now : ℕ) (l : Ledger P S)
      → HasFinal id job l
      → HasFinal id job (retry_blocked locale_compare now l).1
  unfolding retry_blocked
  retry_blocked-HasFinal locale_compare id job now l f =
      elim (Result-cases (active_jobs locale_compare l)) [
        | inr (e, q) ↦ rw (q, retry_blocked) f
        | inl (jobs, q) ↦ rw (q, retry_blocked) (release_jobs-HasFinal id job now 0 jobs l f)
      ]

  write_scheduler_state_cases :
      (other : Text) (state : S) (l : Ledger P S)
      → ((write_scheduler_state other state l).1 ≡ l)
        ⊎ ((scheduler : Dict S) × (faults : List Fault) × ((write_scheduler_state other state l).1
              ≡ record l { scheduler = scheduler; faults = faults }))
  unfolding write_scheduler_state
  write_scheduler_state_cases other state l = elim (Bool-cases l.opened) [
    | inr o ↦ inl (rw o refl)
    | inl o ↦ elim (Bool-cases (is_digest other)) [
      | inr d ↦ inl (rw (o, d) refl)
      | inl d ↦ inr (go (next_fault l.faults) refl o d)
    ]
  ]
    where
      go :
          (fault : Fault)
          → next_fault l.faults ≡ fault
          → l.opened ≡ true
          → is_digest other ≡ true
          → (scheduler : Dict S) × (faults : List Fault) × ((write_scheduler_state other state l).1
              ≡ record l { scheduler = scheduler; faults = faults })
      go smooth e o d = (put other state l.scheduler, later_faults l.faults, simp (o, d, e) refl)
      go unwritten e o d = (l.scheduler, later_faults l.faults, simp (o, d, e) refl)
      go _ e o d = (put other state l.scheduler, later_faults l.faults, simp (o, d, e) refl)

  HasFinal-scheduler :
      (id : Text) (job : Job P) (l : Ledger P S) (scheduler : Dict S) (faults : List Fault)
      → HasFinal id job l
      → HasFinal id job (record l { scheduler = scheduler; faults = faults })
  unfolding get_job IsPlaced
  HasFinal-scheduler id job l scheduler faults f = f

  write_scheduler_state-HasFinal :
      (id : Text) (job : Job P) (other : Text) (state : S) (l : Ledger P S)
      → HasFinal id job l
      → HasFinal id job (write_scheduler_state other state l).1
  write_scheduler_state-HasFinal id job other state l f =
      elim (write_scheduler_state_cases other state l) [
        | inl e ↦ rw e f
        | inr (scheduler, faults, e) ↦ rw e (HasFinal-scheduler id job l scheduler faults f)
      ]

  -- A terminal job stays as it is: in a well-placed ledger, whatever jobs are put or enqueued,
  -- whatever is retried and whichever faults the writes meet, get gives it for ever after, and the
  -- ledger stays well-placed.
  pub run_all-HasFinal :
      (max_active : ℕ) (locale_compare : Text → Text → Ordering) (commands : List (Command P S))
      (id : Text) (job : Job P) (l : Ledger P S)
      → HasFinal id job l
      → HasFinal id job (run_all max_active locale_compare commands l)
  unfolding run_all run
  run_all-HasFinal max_active locale_compare [] id job l f = f
  run_all-HasFinal max_active locale_compare (command ∷ commands) id job l f =
      run_all-HasFinal max_active locale_compare commands id job _ (step command)
    where
      step : (c : Command P S) → HasFinal id job (run max_active locale_compare c l)
      step (put_command other) = put_job-HasFinal id job other l f
      step (enqueue_command other kind payload now) =
          enqueue-HasFinal max_active id job other kind payload now l f
      step (retry_command now) = retry_blocked-HasFinal locale_compare id job now l f
      step (scheduler_command other state) = write_scheduler_state-HasFinal id job other state l f

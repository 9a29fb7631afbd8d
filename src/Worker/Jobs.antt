-- ===== src/Worker/Jobs.antt =====
-- DurableWorkerJobs of apps/memory-worker/src/jobs.ts: the ledger of a worker's jobs. The temporary
-- file of a write is left out, since no operation reads it. Operations run one after another
-- (`serialize`).
pub mod Views
pub mod Writes
pub mod Release
pub mod Recovery
pub mod Admission
pub mod History
use Prim.Native.Nat.{Ordering}
use super_brain.Prelude.{
  ℕ, ◌+◌, Bool, true, false, leb, Option, none, some, List, [], ◌∷◌, length, if◌then◌else◌, Result,
  ok, err,
}
use super_brain.Prelude.Text.{Text, compare_text}
use super_brain.Prelude.Dict.{get, put, delete}
use super_brain.Prelude.Sort.{sort_by}
use super_brain.Storage.Records.{is_digest}
use super_brain.Worker.Processing.{
  JobKind, JobState, completed, excluded, exhausted, Job, sealed, smooth, unwritten, unretired,
  unsynced, Ledger, JobError, not_open, invalid_identity, backpressure, not_written, next_fault,
  later_faults, is_terminal, is_stuck, is_pending, is_waiting, is_retry, is_blocked, Coverage,
  kind_counts, count_states, oldest, job_files, read_job, or_else, is_settled, new_job,
  compare_jobs, released,
}

module _ {P S : Type 0} where
  -- get
  unfoldable pub get_job : (id : Text) → Ledger P S → Result JobError (Option (Job P))
  unfolding read_job is_digest
  get_job id l =
      if l.opened
      then if is_digest id
        then or_else (read_job id (get id l.completed)) (
            or_else (read_job id (get id l.excluded))
              (or_else (read_job id (get id l.exhausted)) (read_job id (get id l.active))))
        else err invalid_identity
      else err not_open

  -- The rename of the temporary file to `this.path(job.id, job.state)`
  unfoldable pub publish : JobState → Job P → Ledger P S → Ledger P S
  publish completed job l = record l { completed = put job.id (sealed job) l.completed }
  publish excluded job l = record l { excluded = put job.id (sealed job) l.excluded }
  publish exhausted job l = record l { exhausted = put job.id (sealed job) l.exhausted }
  publish _ job l = record l { active = put job.id (sealed job) l.active }

  -- The removal of the active file of a terminal job
  unfoldable pub retire : JobState → (id : Text) → Ledger P S → Ledger P S
  retire state id l = if is_terminal state then record l { active = delete id l.active } else l

  -- The write of putInternal, with the next fault
  unfoldable pub write_job : Job P → Ledger P S → Result JobError (Unit {0}) × Ledger P S
  unfolding publish retire
  write_job job l =
      let rest = record l { faults = later_faults l.faults } in
      elim (next_fault l.faults) [
        | smooth ↦ (ok tt, retire job.state job.id (publish job.state job rest))
        | unwritten ↦ (err not_written, rest)
        | unretired ↦ (err not_written, publish job.state job rest)
        | unsynced ↦ (err not_written, retire job.state job.id (publish job.state job rest))
      ]

  -- putInternal
  unfoldable pub put_job : Job P → Ledger P S → Result JobError (Unit {0}) × Ledger P S
  unfolding write_job get_job
  put_job job l = elim (get_job job.id l) [
    | err e ↦ (err e, l)
    | ok current ↦ if is_settled current then (ok tt, l) else write_job job l
  ]

  -- enqueue, of the identity that `identify` gives
  unfoldable pub enqueue :
      (max_active : ℕ) (id : Text) (kind : JobKind) (payload : P) (now : ℕ)
      → Ledger P S
      → Result JobError (Job P) × Ledger P S
  unfolding get_job put_job new_job job_files
  enqueue max_active id kind payload now l = elim (get_job id l) [
    | err e ↦ (err e, l)
    | ok (some job) ↦ (ok job, l)
    | ok none ↦
        if leb max_active (length (job_files l.active))
        then (err backpressure, l)
        else (let (r, t) = put_job (new_job id kind payload now) l in
            elim r [ err e ↦ (err e, t) | ok u ↦ (ok (new_job id kind payload now), t) ])
  ]

  -- The loop of active over the names of files
  unfoldable pub read_active : Ledger P S → List Text → Result JobError (List (Job P))
  unfolding get_job
  read_active l [] = ok []
  read_active l (id ∷ ids) = elim (get_job id l) [
    | err e ↦ err e
    | ok none ↦ read_active l ids
    | ok (some job) ↦ elim (read_active l ids) [
      | err e ↦ err e
      | ok jobs ↦ if is_terminal job.state then ok jobs else ok (job ∷ jobs)
    ]
  ]

  -- active
  unfoldable pub active_jobs :
      (locale_compare : Text → Text → Ordering) → Ledger P S → Result JobError (List (Job P))
  unfolding read_active compare_jobs job_files
  active_jobs locale_compare l = elim (read_active l (sort_by compare_text (job_files l.active))) [
    | err e ↦ err e
    | ok jobs ↦ ok (sort_by (compare_jobs locale_compare) jobs)
  ]

  -- coverage
  unfoldable pub coverage :
      (locale_compare : Text → Text → Ordering) → Ledger P S → Result JobError Coverage
  unfolding active_jobs kind_counts count_states oldest job_files
  coverage locale_compare l = elim (active_jobs locale_compare l) [
    | err e ↦ err e
    | ok jobs ↦ ok (record {
      pending_jobs = count_states is_pending jobs;
      waiting_jobs = count_states is_waiting jobs;
      retry_jobs = count_states is_retry jobs;
      blocked_jobs = count_states is_blocked jobs;
      completed_jobs = length (job_files l.completed);
      excluded_jobs = length (job_files l.excluded);
      exhausted_jobs = length (job_files l.exhausted);
      by_kind =
          kind_counts
            (record {
              extract_runs = 0;
              extract_turns = 0;
              proposals = 0;
              verifications = 0;
              plans = 0;
              syntheses = 0;
              episodes = 0;
            })
            jobs;
      oldest_pending_at = oldest jobs;
    })
  ]

  -- The loop of retryBlocked
  unfoldable pub release_jobs :
      (now count : ℕ) → List (Job P) → Ledger P S → Result JobError ℕ × Ledger P S
  unfolding put_job released
  release_jobs now count [] l = (ok count, l)
  release_jobs now count (job ∷ jobs) l = elim (is_stuck job.state) [
    | false ↦ release_jobs now count jobs l
    | true ↦
        (let (r, t) = put_job (released now job) l in
          elim r [ err e ↦ (err e, t) | ok u ↦ release_jobs now (count + 1) jobs t ])
  ]

  -- retryBlocked
  unfoldable pub retry_blocked :
      (locale_compare : Text → Text → Ordering) (now : ℕ)
      → Ledger P S
      → Result JobError ℕ × Ledger P S
  unfolding active_jobs release_jobs
  retry_blocked locale_compare now l = elim (active_jobs locale_compare l) [
    | err e ↦ (err e, l)
    | ok jobs ↦ release_jobs now 0 jobs l
  ]

  -- readSchedulerState
  unfoldable pub read_scheduler_state : (id : Text) → Ledger P S → Result JobError (Option S)
  unfolding is_digest
  read_scheduler_state id l =
      if l.opened
      then if is_digest id then ok (get id l.scheduler) else err invalid_identity
      else err not_open

  -- writeSchedulerState
  unfoldable pub write_scheduler_state :
      (id : Text) → S → Ledger P S → Result JobError (Unit {0}) × Ledger P S
  unfolding is_digest
  write_scheduler_state id state l =
      let rest = record l { faults = later_faults l.faults } in
      if l.opened
      then if is_digest id
        then (elim (next_fault l.faults) [
          | smooth ↦ (ok tt, record rest { scheduler = put id state l.scheduler })
          | unwritten ↦ (err not_written, rest)
          | _ ↦ (err not_written, record rest { scheduler = put id state l.scheduler })
        ])
        else (err invalid_identity, l)
      else (err not_open, l)

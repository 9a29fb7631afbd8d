-- ===== src/Worker/Processing.antt =====
-- The types of apps/memory-worker/src/jobs.ts and what it does with a job or a file alone. A directory
-- of encrypted files is a map from identities to contents.
use Prim.Native.Nat.{compare, Ordering}
use super_brain.Prelude.{
  ℕ, suc, ◌+◌, Bool, true, false, leb, Option, none, some, List, [], ◌∷◌, if◌then◌else◌, Result, ok,
  err,
}
use super_brain.Prelude.Order.{then_by}
use super_brain.Prelude.Text.{Text, ◌===◌}
use super_brain.Prelude.Dict.{Dict}
use super_brain.Storage.Records.{is_digest}

pub data JobKind : Type 0 where
  extract_run extract_turn propose verify_trajectory cognition_plan synthesis episode : JobKind

pub data JobState : Type 0 where
  pending waiting retry blocked completed excluded exhausted : JobState

pub record Job (P : Type 0) : Type 0 where
  pub id : Text
  pub kind : JobKind
  pub state : JobState
  pub created_at : ℕ
  pub updated_at : ℕ
  pub attempts : ℕ
  pub next_attempt_at : ℕ
  pub payload : P
  pub reason : Option Text

-- A file: a job of version 1, or what cannot be decrypted and parsed as one.
pub data Content (P : Type 0) : Type 0 where
  sealed : Job P → Content P
  unreadable : Content P

-- How the write of a job goes: to the end; not to the rename; because of an error
-- or of the end of the process to the rename, but not to the removal of the active file that follows;
-- or to that removal, but not through the syncDirectory behind it.
pub data Fault : Type 0 where
  smooth unwritten unretired unsynced : Fault

-- The directory of a ledger, with the scheduler's states `S`, and the faults that lie ahead.
pub record Ledger (P S : Type 0) : Type 0 where
  pub opened : Bool
  pub active : Dict (Content P)
  pub completed : Dict (Content P)
  pub excluded : Dict (Content P)
  pub exhausted : Dict (Content P)
  pub scheduler : Dict S
  pub faults : List Fault

pub data JobError : Type 0 where
  not_open invalid_identity unreadable_record invalid_record backpressure not_written : JobError

abbrev pub next_fault : List Fault → Fault
next_fault [] = smooth
next_fault (fault ∷ faults) = fault

abbrev pub later_faults : List Fault → List Fault
later_faults [] = []
later_faults (fault ∷ faults) = faults

-- `state === "completed" || state === "excluded" || state === "exhausted"`
abbrev pub is_terminal : JobState → Bool
is_terminal completed = true
is_terminal excluded = true
is_terminal exhausted = true
is_terminal _ = false

-- `state === "blocked" || state === "waiting" || state === "retry"`
abbrev pub is_stuck : JobState → Bool
is_stuck blocked = true
is_stuck waiting = true
is_stuck retry = true
is_stuck _ = false

abbrev pub is_pending : JobState → Bool
is_pending pending = true
is_pending _ = false

abbrev pub is_waiting : JobState → Bool
is_waiting waiting = true
is_waiting _ = false

abbrev pub is_retry : JobState → Bool
is_retry retry = true
is_retry _ = false

abbrev pub is_blocked : JobState → Bool
is_blocked blocked = true
is_blocked _ = false

-- The number of each kind, `byKind`
pub record KindCounts : Type 0 where
  pub extract_runs : ℕ
  pub extract_turns : ℕ
  pub proposals : ℕ
  pub verifications : ℕ
  pub plans : ℕ
  pub syntheses : ℕ
  pub episodes : ℕ

pub record Coverage : Type 0 where
  pub pending_jobs : ℕ
  pub waiting_jobs : ℕ
  pub retry_jobs : ℕ
  pub blocked_jobs : ℕ
  pub completed_jobs : ℕ
  pub excluded_jobs : ℕ
  pub exhausted_jobs : ℕ
  pub by_kind : KindCounts
  pub oldest_pending_at : Option ℕ

-- `byKind[kind] += 1`
unfoldable pub count_kind : JobKind → KindCounts → KindCounts
count_kind extract_run c = record c { extract_runs = c.extract_runs + 1 }
count_kind extract_turn c = record c { extract_turns = c.extract_turns + 1 }
count_kind propose c = record c { proposals = c.proposals + 1 }
count_kind verify_trajectory c = record c { verifications = c.verifications + 1 }
count_kind cognition_plan c = record c { plans = c.plans + 1 }
count_kind synthesis c = record c { syntheses = c.syntheses + 1 }
count_kind episode c = record c { episodes = c.episodes + 1 }

module _ {P : Type 0} where
  unfoldable pub kind_counts : KindCounts → List (Job P) → KindCounts
  unfolding count_kind
  kind_counts c [] = c
  kind_counts c (job ∷ jobs) = kind_counts (count_kind job.kind c) jobs

  -- `jobs.filter(({ state }) => p(state)).length`
  unfoldable pub count_states : (p : JobState → Bool) → List (Job P) → ℕ
  count_states p [] = 0
  count_states p (job ∷ jobs) =
      if p job.state then suc (count_states p jobs) else count_states p jobs

  -- `Math.min(...jobs.map(({ createdAt }) => createdAt))`
  unfoldable pub oldest : List (Job P) → Option ℕ
  oldest [] = none
  oldest (job ∷ jobs) = elim (oldest jobs) [
    | none ↦ some job.created_at
    | some t ↦ some (if leb job.created_at t then job.created_at else t)
  ]

  -- The names of a directory that are those of jobs
  unfoldable pub job_files : Dict (Content P) → List Text
  unfolding is_digest
  job_files [] = []
  job_files ((id, content) ∷ files) = if is_digest id then id ∷ job_files files else job_files files

  -- Reading one file: `none` for ENOENT
  unfoldable pub read_job : (id : Text) → Option (Content P) → Result JobError (Option (Job P))
  read_job id none = ok none
  read_job id (some unreadable) = err unreadable_record
  read_job id (some (sealed job)) = if job.id === id then ok (some job) else err invalid_record

  -- The next directory is read when there is no file in this one.
  abbrev pub or_else :
      Result JobError (Option (Job P))
      → Result JobError (Option (Job P))
      → Result JobError (Option (Job P))
  or_else (err e) next = err e
  or_else (ok (some job)) next = ok (some job)
  or_else (ok none) next = next

  -- `current?.state` is terminal
  abbrev pub is_settled : Option (Job P) → Bool
  is_settled none = false
  is_settled (some job) = is_terminal job.state

  -- The job that enqueue makes
  unfoldable pub new_job : (id : Text) → JobKind → P → (now : ℕ) → Job P
  new_job id kind payload now = record {
    id = id;
    kind = kind;
    state = pending;
    created_at = now;
    updated_at = now;
    attempts = 0;
    next_attempt_at = now;
    payload = payload;
    reason = none;
  }

  -- The comparator of active, with `localeCompare` of the runtime
  unfoldable pub compare_jobs : (locale_compare : Text → Text → Ordering) → Job P → Job P → Ordering
  compare_jobs locale_compare a b =
      then_by (compare a.next_attempt_at b.next_attempt_at)
        (then_by (compare a.created_at b.created_at) (locale_compare a.id b.id))

  -- The job that retryBlocked puts for one that is stuck
  unfoldable pub released : (now : ℕ) → Job P → Job P
  released now job = record job {
    state = pending;
    attempts = 0;
    next_attempt_at = now;
    updated_at = now;
    reason = none;
  }

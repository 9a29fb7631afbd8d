-- ===== src/Worker/Jobs/Views.antt =====
-- get and putInternal of apps/memory-worker/src/jobs.ts: what a ledger holds under an identity.
use super_brain.Prelude.{
  ◌≡◌, refl, inl, inr, Bool, true, false, ◌&&◌, Option, none, some, [], ◌∷◌, if◌then◌else◌, Result,
  ok, Bool-cases, Result-cases, arith,
}
use super_brain.Prelude.Text.{Text, ◌===◌}
use super_brain.Prelude.Dict.{Dict, get, put, delete, get-put, get-delete}
use super_brain.Storage.Records.{is_digest}
use super_brain.Worker.Processing.{
  Job, Content, sealed, unreadable, Ledger, JobError, is_terminal, read_job, or_else, is_settled,
}
use super_brain.Worker.Jobs.{get_job}

module _ {P : Type 0} where
  -- Every job in the files of a directory is terminal.
  unfoldable pub all_terminal : Dict (Content P) → Bool
  all_terminal [] = true
  all_terminal ((id, unreadable) ∷ files) = all_terminal files
  all_terminal ((id, sealed job) ∷ files) = is_terminal job.state && all_terminal files

  read_job-is_terminal :
      (id : Text) (files : Dict (Content P)) (job : Job P)
      → all_terminal files ≡ true
      → read_job id (get id files) ≡ ok (some job)
      → is_terminal job.state ≡ true
  unfolding all_terminal get read_job
  read_job-is_terminal id [] job a h = absurd (ground arith)
  read_job-is_terminal id ((k, unreadable) ∷ files) job a h =
      ground (arith, read_job-is_terminal id files job)
  read_job-is_terminal id ((k, sealed j) ∷ files) job a h =
      ground (arith, read_job-is_terminal id files job)

  pub put-all_terminal :
      (job : Job P) (files : Dict (Content P))
      → is_terminal job.state ≡ true
      → all_terminal files ≡ true
      → all_terminal (put job.id (sealed job) files) ≡ true
  unfolding all_terminal put
  put-all_terminal job [] t a = ground arith
  put-all_terminal job ((k, unreadable) ∷ files) t a = ground (arith, put-all_terminal job files t)
  put-all_terminal job ((k, sealed j) ∷ files) t a = ground (arith, put-all_terminal job files t)

  read_job-none : (id : Text) (c : Option (Content P)) → read_job id c ≡ ok none → c ≡ none
  unfolding read_job
  read_job-none id none h = refl
  read_job-none id (some unreadable) h = absurd (ground arith)
  read_job-none id (some (sealed job)) h = absurd (ground arith)

  pub read_job-put :
      (job : Job P) (id : Text) (files : Dict (Content P))
      → read_job id (get id (put job.id (sealed job) files))
        ≡ (if job.id === id then ok (some job) else read_job id (get id files))
  unfolding read_job
  read_job-put job id files = elim (Bool-cases (job.id === id)) [
    | inl e ↦ rw (get-put job.id id (sealed job) files, e, read_job, e) refl
    | inr e ↦ rw (get-put job.id id (sealed job) files, e) refl
  ]

  pub read_job-of_none : (id : Text) → read_job {P = P} id none ≡ ok none
  unfolding read_job
  read_job-of_none id = refl

  pub read_job-delete :
      (job : Job P) (id : Text) (files : Dict (Content P))
      → read_job id (get id (delete job.id files))
        ≡ (if job.id === id then ok none else read_job id (get id files))
  unfolding read_job
  read_job-delete job id files = elim (Bool-cases (job.id === id)) [
    | inl e ↦ rw (get-delete job.id id files, e) refl
    | inr e ↦ rw (get-delete job.id id files, e) refl
  ]

module _ {P S : Type 0} where
  -- The files of the terminal directories hold terminal jobs.
  unfoldable pub IsPlaced : Ledger P S → Type 0
  IsPlaced l =
      (all_terminal l.completed ≡ true)
      × (all_terminal l.excluded ≡ true)
      × (all_terminal l.exhausted ≡ true)

  -- A ledger on which a job can be written: open, and without a terminal file of the identity.
  pub record IsFree (id : Text) (l : Ledger P S) : Type 0 where
    pub opened : l.opened ≡ true
    pub digest : is_digest id ≡ true
    pub completed : get id l.completed ≡ none
    pub excluded : get id l.excluded ≡ none
    pub exhausted : get id l.exhausted ≡ none

  pub IsFree-of_unsettled :
      (id : Text) (l : Ledger P S) (current : Option (Job P))
      → IsPlaced l
      → get_job id l ≡ ok current
      → is_settled current ≡ false
      → IsFree id l
  unfolding get_job IsPlaced
  IsFree-of_unsettled id l current (a, b, c) h n = elim (Bool-cases l.opened) [
    | inr o ↦ absurd (ground (arith, rw o at h))
    | inl o ↦ elim (Bool-cases (is_digest id)) [
      | inr d ↦ absurd (ground (arith, rw (o, d) at h))
      | inl d ↦
          let (x, h1) = skip l.completed a (rw (o, d) at h) in
          let (y, h2) = skip l.excluded b h1 in
          let (z, h3) = skip l.exhausted c h2 in
          record { opened = o; digest = d; completed = x; excluded = y; exhausted = z }
    ]
  ]
    where
      skip :
          (files : Dict (Content P))
          → all_terminal files ≡ true
          → {next : Result JobError (Option (Job P))}
          → or_else (read_job id (get id files)) next ≡ ok current
          → (get id files ≡ none) × (next ≡ ok current)
      skip files a {next} h = elim (Result-cases (read_job id (get id files))) [
        | inr (e, q) ↦ absurd (ground (arith, rw q at h))
        | inl (none, q) ↦ (read_job-none id (get id files) q, rw q at h)
        | inl (some job, q) ↦
            absurd (ground (arith, rw q at h, read_job-is_terminal id files job a q))
      ]

  -- Under every identity there is what was there, but under that of the job the job is.
  abbrev pub Updates : Job P → Ledger P S → Ledger P S → Type 0
  Updates job l t =
      (id : Text) → get_job id t ≡ (if job.id === id then ok (some job) else get_job id l)

  -- Under every identity there is what was there.
  abbrev pub IsLike : Ledger P S → Ledger P S → Type 0
  IsLike l t = (id : Text) → get_job id t ≡ get_job id l

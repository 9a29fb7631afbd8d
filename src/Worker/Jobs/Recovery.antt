-- ===== src/Worker/Jobs/Recovery.antt =====
-- active and retryBlocked of apps/memory-worker/src/jobs.ts.
use Prim.Native.Nat.{Ordering}
use super_brain.Prelude.{
  ◌≡◌, refl, sym, ◌∙◌, ◌⊎◌, inl, inr, Bool, true, false, Option, none, some, List, [], ◌∷◌, any,
  All, All-perm, Result, ok, ok-injective, Bool-cases, Result-cases, arith,
}
use mathlib.Core.List.Permᴰ as PermD
use mathlib.Core.List.{Permᴰ}
use super_brain.Prelude.Text.{Text, ◌===◌, eq_of_===, ===_self, compare_text}
use super_brain.Prelude.Dict.{Dict, get}
use super_brain.Prelude.Sort.{sort_by, sort_by-perm}
use super_brain.Storage.Records.{is_digest}
use super_brain.Worker.Processing.{
  Job, Content, sealed, unreadable, Ledger, JobError, read_job, or_else, job_files, is_terminal,
  compare_jobs,
}
use super_brain.Worker.Jobs.{get_job, read_active, active_jobs}
use super_brain.Worker.Jobs.Views.{IsPlaced, IsFree-of_unsettled}

any-perm {ℓ} : {A : Type ℓ} (f : A → Bool) {xs ys : List A} → Permᴰ xs ys → any f xs ≡ any f ys
any-perm f Permᴰ.nil = refl
any-perm f (Permᴰ.cons e p) = rw (e, any-perm f p) refl
any-perm f (Permᴰ.swap {a} {b} e g) = rw (e, g) (ground arith)
any-perm f (Permᴰ.trans p q) = any-perm f p ∙ any-perm f q

module _ {P : Type 0} where
  -- Whether there is a job of the identity in the list.
  abbrev pub listed : Text → List (Job P) → Bool
  listed id jobs = any (λ job. job.id === id) jobs

  read_job-id :
      (id : Text) (c : Option (Content P)) (job : Job P)
      → read_job id c ≡ ok (some job)
      → job.id ≡ id
  unfolding read_job
  read_job-id id none job h = absurd (ground arith)
  read_job-id id (some unreadable) job h = absurd (ground arith)
  read_job-id id (some (sealed j)) job h = ground (arith, eq_of_=== j.id id)

  -- A job that is read has a file.
  get-job_files :
      (id : Text) (files : Dict (Content P)) (job : Job P)
      → is_digest id ≡ true
      → read_job id (get id files) ≡ ok (some job)
      → any (λ k. k === id) (job_files files) ≡ true
  unfolding read_job get job_files
  get-job_files id [] job d h = absurd (ground arith)
  get-job_files id ((k, c) ∷ files) job d h = elim (Bool-cases (k === id)) [
    | inl e ↦ rw (eq_of_=== k id e, d, ===_self id) refl
    | inr e ↦ ground (arith, get-job_files id files job d (rw e at h))
  ]

module _ {P S : Type 0} where
  pub get_job-id :
      (id : Text) (l : Ledger P S) (job : Job P) → get_job id l ≡ ok (some job) → job.id ≡ id
  unfolding get_job
  get_job-id id l job h = elim (Bool-cases l.opened) [
    | inr o ↦ absurd (ground (arith, rw o at h))
    | inl o ↦ elim (Bool-cases (is_digest id)) [
      | inr d ↦ absurd (ground (arith, rw (o, d) at h))
      | inl d ↦
          first (get id l.completed)
            (first (get id l.excluded)
              (first (get id l.exhausted) (read_job-id id (get id l.active) job)))
            (rw (o, d) at h)
    ]
  ]
    where
      first :
          (c : Option (Content P))
          → {next : Result JobError (Option (Job P))} → (next ≡ ok (some job) → job.id ≡ id)
          → or_else (read_job id c) next ≡ ok (some job)
          → job.id ≡ id
      first c f h = elim (Result-cases (read_job id c)) [
        | inr (e, q) ↦ absurd (ground (arith, rw q at h))
        | inl (none, q) ↦ f (rw q at h)
        | inl (some j, q) ↦ read_job-id id c job (q ∙ (rw q at h))
      ]

  -- A job that is not terminal has a file among the active ones.
  get_job-job_files :
      (id : Text) (l : Ledger P S) (job : Job P)
      → IsPlaced l
      → get_job id l ≡ ok (some job)
      → is_terminal job.state ≡ false
      → any (λ k. k === id) (job_files l.active) ≡ true
  unfolding get_job
  get_job-job_files id l job p h t =
      let f = IsFree-of_unsettled id l (some job) p h t in
      get-job_files id l.active job f.digest
        (rw (f.opened, f.digest, f.completed, f.excluded, f.exhausted) at h)

  -- The jobs that are read from a file and the others: those of the others, or one more.
  read_active_cases :
      (l : Ledger P S) (k : Text) (ks : List Text) (jobs : List (Job P))
      → read_active l (k ∷ ks) ≡ ok jobs
      → (rest : List (Job P)) × (read_active l ks ≡ ok rest)
        × (((jobs ≡ rest)
              × ((get_job k l ≡ ok none)
                  ⊎ ((j : Job P) × (get_job k l ≡ ok (some j)) × (is_terminal j.state ≡ true))))
            ⊎ ((j : Job P) × (get_job k l ≡ ok (some j)) × (jobs ≡ j ∷ rest)))
  unfolding read_active
  read_active_cases l k ks jobs h = elim (Result-cases (get_job k l)) [
    | inr (e, q) ↦ absurd (ground (arith, rw (q, read_active) at h))
    | inl (none, q) ↦ (jobs, rw (q, read_active) at h, inl (refl, inl q))
    | inl (some j, q) ↦ elim (Result-cases (read_active l ks)) [
      | inr (e, r) ↦ absurd (ground (arith, rw (q, r, read_active) at h))
      | inl (rest, r) ↦ elim (Bool-cases (is_terminal j.state)) [
        | inl t ↦
            (rest, r, inl (sym (ok-injective (rw (q, r, t, read_active) at h)), inr (j, q, t)))
        | inr t ↦ (rest, r, inr (j, q, sym (ok-injective (rw (q, r, t, read_active) at h))))
      ]
    ]
  ]

  read_active-none : (l : Ledger P S) (jobs : List (Job P)) → read_active l [] ≡ ok jobs → [] ≡ jobs
  unfolding read_active
  read_active-none l jobs h = ok-injective h

  read_active-All :
      (l : Ledger P S) (ids : List Text) (jobs : List (Job P))
      → read_active l ids ≡ ok jobs
      → All (λ j. get_job j.id l ≡ ok (some j)) jobs
  read_active-All l [] jobs h = rw (sym (read_active-none l jobs h)) tt
  read_active-All l (k ∷ ks) jobs h =
      let (rest, r, cases) = read_active_cases l k ks jobs h in
      elim cases [
        | inl (e, why) ↦ rw e (read_active-All l ks rest r)
        | inr (j, q, e) ↦ rw e (rw (← get_job-id k l j q) at q, read_active-All l ks rest r)
      ]

  read_active-listed :
      (l : Ledger P S) (id : Text) (job : Job P) (ids : List Text) (jobs : List (Job P))
      → get_job id l ≡ ok (some job)
      → is_terminal job.state ≡ false
      → any (λ k. k === id) ids ≡ true
      → read_active l ids ≡ ok jobs
      → listed id jobs ≡ true
  read_active-listed l id job [] jobs g t m h = absurd (ground arith)
  read_active-listed l id job (k ∷ ks) jobs g t m h =
      let (rest, r, cases) = read_active_cases l k ks jobs h in
      elim (Bool-cases (k === id)) [
        | inr e ↦ elim cases [
          | inl (same, why) ↦ rw same (read_active-listed l id job ks rest g t (rw e at m) r)
          | inr (j, q, more) ↦
              rw more (ground (arith, read_active-listed l id job ks rest g t (rw e at m) r))
        ]
        | inl e ↦ elim cases [
          | inl (same, inl q) ↦ absurd (ground (arith, sym g ∙ (rw (eq_of_=== k id e) at q)))
          | inl (same, inr (j, q, t')) ↦
              absurd (ground (arith, t, t', sym g ∙ (rw (eq_of_=== k id e) at q)))
          | inr (j, q, more) ↦ rw more (rw (get_job-id k l j q, e) refl)
        ]
      ]

  active_jobs-ok :
      (locale_compare : Text → Text → Ordering) (l : Ledger P S) (jobs : List (Job P))
      → active_jobs locale_compare l ≡ ok jobs
      → (raw : List (Job P)) × (read_active l (sort_by compare_text (job_files l.active)) ≡ ok raw)
        × (jobs ≡ sort_by (compare_jobs locale_compare) raw)
  unfolding active_jobs
  active_jobs-ok locale_compare l jobs h =
      elim (Result-cases (read_active l (sort_by compare_text (job_files l.active)))) [
        | inr (e, q) ↦ absurd (ground (arith, rw (q, active_jobs) at h))
        | inl (raw, q) ↦ (raw, q, sym (ok-injective (rw (q, active_jobs) at h)))
      ]

  -- active gives jobs as get does,
  pub active_jobs-All :
      (locale_compare : Text → Text → Ordering) (l : Ledger P S) (jobs : List (Job P))
      → active_jobs locale_compare l ≡ ok jobs
      → All (λ j. get_job j.id l ≡ ok (some j)) jobs
  active_jobs-All locale_compare l jobs h =
      let (raw, r, e) = active_jobs-ok locale_compare l jobs h in
      rw e (
        All-perm _ (PermD.symm (sort_by-perm (compare_jobs locale_compare) raw))
          (read_active-All l (sort_by compare_text (job_files l.active)) raw r))

  -- and all that are not terminal.
  pub active_jobs-listed :
      (locale_compare : Text → Text → Ordering) (l : Ledger P S) (jobs : List (Job P)) (id : Text)
      (job : Job P)
      → IsPlaced l
      → active_jobs locale_compare l ≡ ok jobs
      → get_job id l ≡ ok (some job)
      → is_terminal job.state ≡ false
      → listed id jobs ≡ true
  active_jobs-listed locale_compare l jobs id job p h g t =
      let (raw, r, e) = active_jobs-ok locale_compare l jobs h in
      rw e (
        any-perm (λ j. j.id === id) (sort_by-perm (compare_jobs locale_compare) raw)
        ∙ read_active-listed l id job (sort_by compare_text (job_files l.active)) raw g t
            (any-perm (λ k. k === id) (sort_by-perm compare_text (job_files l.active))
              ∙ get_job-job_files id l job p g t)
            r)

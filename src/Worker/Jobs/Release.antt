-- ===== src/Worker/Jobs/Release.antt =====
-- The loop of retryBlocked of apps/memory-worker/src/jobs.ts.
use Prim.Native.Nat.{Ordering}
use super_brain.Prelude.{
  ℕ, ◌+◌, ◌≡◌, refl, sym, ap, ◌∙◌, ◌⊎◌, inl, inr, Bool, true, false, ◌&&◌, none, some, List, [],
  ◌∷◌, All, if◌then◌else◌, ok, ok-injective, Bool-cases, Result-cases, arith,
}
use mathlib.Core.Option.{some_inj}
use super_brain.Prelude.Text.{Text, ◌===◌, eq_of_===, ===_self}
use super_brain.Worker.Processing.{JobState, Job, Ledger, is_terminal, is_stuck, released}
use super_brain.Worker.Jobs.{get_job, put_job, active_jobs, release_jobs, retry_blocked}
use super_brain.Worker.Jobs.Writes.{put_job_cases}
use super_brain.Worker.Jobs.Views.{IsPlaced, Updates}
use super_brain.Worker.Jobs.History.{retry_blocked-HasFinal}
use super_brain.Worker.Jobs.Recovery.{listed, get_job-id, active_jobs-All, active_jobs-listed}

stuck_not_terminal : (state : JobState) → is_stuck state ≡ true → is_terminal state ≡ false
stuck_not_terminal state h = ground arith

module _ {P : Type 0} where
  released-state : (now : ℕ) (job : Job P) → is_terminal (released now job).state ≡ false
  unfolding released
  released-state now job = refl

module _ {P S : Type 0} where
  -- A put that returns finds a terminal job, or updates the ledger.
  put_job-ok :
      (job : Job P) (l : Ledger P S)
      → IsPlaced l
      → (put_job job l).0 ≡ ok tt
      → ((current : Job P) × (get_job job.id l ≡ ok (some current))
          × (is_terminal current.state ≡ true)
          × ((put_job job l).1 ≡ l))
        ⊎ Updates job l (put_job job l).1
  put_job-ok job l p w = elim (put_job_cases job l p).0 [
    | inl (e, q, r) ↦ absurd (ground (arith, sym w ∙ ap (λ x. x.0) r))
    | inr (inl (current, q, s, r)) ↦ inl (current, q, s, ap (λ x. x.1) r)
    | inr (inr (current, q, s, inl (x, like))) ↦ absurd (ground (arith, sym w ∙ x))
    | inr (inr (current, q, s, inr updates)) ↦ inr updates
  ]

  release_other :
      (now : ℕ) (id : Text) (held : Job P) (j : Job P) (l : Ledger P S)
      → IsPlaced l
      → get_job id l ≡ ok (some held)
      → (j.id === id) ≡ false
      → (put_job (released now j) l).0 ≡ ok tt
      → get_job id (put_job (released now j) l).1 ≡ ok (some held)
  unfolding released
  release_other now id held j l p h n w = elim (put_job-ok (released now j) l p w) [
    | inl (current, q, t, e) ↦ rw e h
    | inr updates ↦ updates id ∙ rw n h
  ]

  release_same :
      (now : ℕ) (id : Text) (held : Job P) (job : Job P) (l : Ledger P S)
      → IsPlaced l
      → get_job id l ≡ ok (some held)
      → is_terminal held.state ≡ false
      → job.id ≡ id
      → (put_job (released now job) l).0 ≡ ok tt
      → get_job id (put_job (released now job) l).1 ≡ ok (some (released now job))
  unfolding released
  release_same now id held job l p h n e w = elim (put_job-ok (released now job) l p w) [
    | inl (current, q, t, r) ↦ absurd (ground (arith, sym (rw e at q) ∙ h))
    | inr updates ↦ updates id ∙ rw (e, ===_self id) refl
  ]

  release_jobs_none : (now count : ℕ) (l : Ledger P S) → release_jobs now count [] l ≡ (ok count, l)
  unfolding release_jobs
  release_jobs_none now count l = refl

  release_jobs_skip :
      (now count : ℕ) (j : Job P) (js : List (Job P)) (l : Ledger P S)
      → is_stuck j.state ≡ false
      → release_jobs now count (j ∷ js) l ≡ release_jobs now count js l
  unfolding release_jobs
  release_jobs_skip now count j js l s = rw (s, release_jobs) refl

  release_jobs-put :
      (now count : ℕ) (j : Job P) (js : List (Job P)) (l : Ledger P S) (n : ℕ)
      → is_stuck j.state ≡ true
      → (release_jobs now count (j ∷ js) l).0 ≡ ok n
      → ((put_job (released now j) l).0 ≡ ok tt)
        × (release_jobs now count (j ∷ js) l
            ≡ release_jobs now (count + 1) js (put_job (released now j) l).1)
  unfolding release_jobs
  release_jobs-put now count j js l n s r = elim (Result-cases (put_job (released now j) l).0) [
    | inr (e, w) ↦ absurd (ground (arith, rw (s, w, release_jobs) at r))
    | inl (u, w) ↦ (w, rw (s, w, release_jobs) refl)
  ]

  release_jobs_view :
      (now count : ℕ) (id : Text) (job held : Job P) (jobs : List (Job P)) (l : Ledger P S) (n : ℕ)
      → IsPlaced l
      → get_job id l ≡ ok (some held)
      → is_terminal held.state ≡ false
      → job.id ≡ id
      → All (λ j. (j.id === id) ≡ true → j ≡ job) jobs
      → (release_jobs now count jobs l).0 ≡ ok n
      → get_job id (release_jobs now count jobs l).1
        ≡ ok (some (if is_stuck job.state && listed id jobs then released now job else held))
  release_jobs_view now count id job held [] l n p h t e a r = rw (release_jobs_none now count l) (
      h
      ∙ ap (λ b. ok (some (if b then released now job else held))) (unlisted (is_stuck job.state)))
    where
      unlisted : (b : Bool) → false ≡ (b && false)
      unlisted b = ground arith
  release_jobs_view now count id job held (j ∷ js) l n p h t e (same, a) r =
      elim (Bool-cases (is_stuck j.state)) [
        | inr s ↦ rw (release_jobs_skip now count j js l s) (
            release_jobs_view now count id job held js l n p h t e a
              (rw (release_jobs_skip now count j js l s) at r)
            ∙ ap (λ b. ok (some (if b then released now job else held))) (skipped s))
        | inl s ↦
            let (w, q) = release_jobs-put now count j js l n s r in
            let p' = (put_job_cases (released now j) l p).1 in
            rw q (elim (Bool-cases (j.id === id)) [
              | inr other ↦
                  release_jobs_view now (count + 1) id job held js (put_job (released now j) l).1 n
                    p' (release_other now id held j l p h other w) t e a (rw q at r)
                  ∙ rw other refl
              | inl own ↦
                  release_jobs_view now (count + 1) id job (released now job) js
                    (put_job (released now j) l).1 n p'
                    (rw (same own) (release_same now id held job l p h t e (rw (same own) at w)))
                    (released-state now job) e a (rw q at r)
                  ∙ rw (own, ← ap (λ x. is_stuck x.state) (same own), s) (ground arith)
            ])
      ]
    where
      skipped :
          is_stuck j.state ≡ false
          → (is_stuck job.state && listed id js) ≡ (is_stuck job.state && listed id (j ∷ js))
      skipped s = elim (Bool-cases (j.id === id)) [
        | inr other ↦ rw other refl
        | inl own ↦ rw (← ap (λ x. is_stuck x.state) (same own), s) refl
      ]

  retry_blocked-ok :
      (locale_compare : Text → Text → Ordering) (now n : ℕ) (l : Ledger P S)
      → (retry_blocked locale_compare now l).0 ≡ ok n
      → (jobs : List (Job P)) × (active_jobs locale_compare l ≡ ok jobs)
        × (retry_blocked locale_compare now l ≡ release_jobs now 0 jobs l)
  unfolding retry_blocked
  retry_blocked-ok locale_compare now n l r = elim (Result-cases (active_jobs locale_compare l)) [
    | inr (e, q) ↦ absurd (ground (arith, rw (q, retry_blocked) at r))
    | inl (jobs, q) ↦ (jobs, q, rw (q, retry_blocked) refl)
  ]

  -- When retryBlocked of a well-placed ledger returns, every job that was blocked, waiting or to be
  -- retried is pending, with no attempts, no reason and the next attempt now, and every other job is
  -- as it was; released jobs are updated now, and nothing else of them changes.
  pub retry_blocked-get_job :
      (locale_compare : Text → Text → Ordering) (now n : ℕ) (id : Text) (job : Job P)
      (l : Ledger P S)
      → IsPlaced l
      → get_job id l ≡ ok (some job)
      → (retry_blocked locale_compare now l).0 ≡ ok n
      → get_job id (retry_blocked locale_compare now l).1
        ≡ ok (
            some (
              if is_stuck job.state
              then record job {
                state = JobState.pending;
                attempts = 0;
                next_attempt_at = now;
                updated_at = now;
                reason = none;
              }
              else job))
  unfolding released
  retry_blocked-get_job locale_compare now n id job l p h r =
      let (jobs, q, e) = retry_blocked-ok locale_compare now n l r in
      elim (Bool-cases (is_terminal job.state)) [
        | inl t ↦
            let (p', h', t') = retry_blocked-HasFinal locale_compare id job now l (p, h, t) in
            h' ∙ ap (λ b. ok (some (if b then released now job else job))) (settled job.state t)
        | inr t ↦ rw e (
            release_jobs_view now 0 id job job jobs l n p h t (get_job-id id l job h)
              (only jobs (active_jobs-All locale_compare l jobs q)) (rw e at r)
            ∙ ap (λ b. ok (some (if is_stuck job.state && b then released now job else job)))
                (active_jobs-listed locale_compare l jobs id job p q h t)
            ∙ ap (λ b. ok (some (if b then released now job else job)))
                (whole (is_stuck job.state)))
      ]
    where
      settled : (state : JobState) → is_terminal state ≡ true → false ≡ is_stuck state
      settled state t = ground arith

      whole : (b : Bool) → (b && true) ≡ b
      whole b = ground arith

      only :
          (js : List (Job P))
          → All (λ j. get_job j.id l ≡ ok (some j)) js
          → All (λ j. (j.id === id) ≡ true → j ≡ job) js
      only [] a = tt
      only (j ∷ js) (g, a) = (
        λ own.
            some_inj.0
              (ok-injective (sym (ap (λ k. get_job k l) (sym (eq_of_=== j.id id own)) ∙ g) ∙ h)),
        only js a,
      )

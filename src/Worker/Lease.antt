-- ===== src/Worker/Lease.antt =====
-- The lease of apps/memory-worker/src/jobs.ts: initialize and close of several workers over one
-- directory, in any interleaving of their file operations. A worker is known by its token. A probe
-- finds no process (ESRCH) only if the worker is dead; a worker that died stays dead.
pub mod Exclusion
pub mod Abandoned
use super_brain.Prelude.{
  ℕ, ◌+◌, ◌≡◌, Bool, true, false, ltb, ◌==◌, Option, none, some, if◌then◌else◌,
}

-- Where a worker stands; `attempt` is the counter of the loop of initialize, `held` the token that the
-- worker read from lease.json.
pub data Phase : Type 0 where
  -- before the exclusive creation of lease.json
  starting : (attempt : ℕ) → Phase
  -- before the first probe of the process of `held`
  inspecting : (attempt held : ℕ) → Phase
  -- before the exclusive creation of lease.json.recovery
  reclaiming : (attempt held : ℕ) → Phase
  -- before lease.json is read again
  checking : (attempt held : ℕ) → Phase
  -- before the second probe
  probing : (attempt held : ℕ) → Phase
  -- before lease.json is removed
  removing : (attempt held : ℕ) → Phase
  -- before lease.json.recovery is removed, to go on with the loop
  finishing : (attempt : ℕ) → Phase
  -- the lease is taken
  owning : Phase
  -- close has read its own token and is about to remove lease.json
  closing : Phase
  closed : Phase
  -- initialize has thrown
  failed : Phase
  dead : Phase

-- The files lease.json, with its token, and lease.json.recovery, with that of the worker that made it.
pub record Directory : Type 0 where
  pub lease : Option ℕ
  pub recovery : Option ℕ
  pub phase : ℕ → Phase

-- A worker comes to another phase.
unfoldable pub move : (worker : ℕ) → Phase → Directory → Directory
move worker phase d = record d { phase = λ i. if i == worker then phase else d.phase i }

-- The phases in which a worker has no file open that it must remove, and is not done.
abbrev pub is_before_recovery : Phase → Bool
is_before_recovery (starting attempt) = true
is_before_recovery (inspecting attempt held) = true
is_before_recovery (reclaiming attempt held) = true
is_before_recovery _ = false

-- The phases of the `try` whose `finally` removes lease.json.recovery
abbrev pub is_in_recovery : Phase → Bool
is_in_recovery (checking attempt held) = true
is_in_recovery (probing attempt held) = true
is_in_recovery (removing attempt held) = true
is_in_recovery (finishing attempt) = true
is_in_recovery _ = false

pub data Step (d : Directory) : Directory → Type 0 where
  -- `open(leasePath, "wx")` succeeds.
  create :
      (i attempt : ℕ)
      → d.phase i ≡ starting attempt
      → d.lease ≡ none
      → Step d (record (move i owning d) { lease = some i })
  -- It fails with EEXIST, `attempt` is at most 1, and the file is read.
  inspect :
      (i attempt held : ℕ)
      → d.phase i ≡ starting attempt
      → d.lease ≡ some held
      → ltb 1 attempt ≡ false
      → Step d (move i (inspecting attempt held) d)
  -- `process.kill(existing.pid, 0)` throws ESRCH.
  probe :
      (i attempt held : ℕ)
      → d.phase i ≡ inspecting attempt held
      → d.phase held ≡ dead
      → Step d (move i (reclaiming attempt held) d)
  -- `open(recoveryPath, "wx")` succeeds.
  recover :
      (i attempt held : ℕ)
      → d.phase i ≡ reclaiming attempt held
      → d.recovery ≡ none
      → Step d (record (move i (checking attempt held) d) { recovery = some i })
  -- The lease still has the token.
  check :
      (i attempt held : ℕ)
      → d.phase i ≡ checking attempt held
      → d.lease ≡ some held
      → Step d (move i (probing attempt held) d)
  -- `process.kill(current.pid, 0)` throws ESRCH.
  probe_again :
      (i attempt held : ℕ)
      → d.phase i ≡ probing attempt held
      → d.phase held ≡ dead
      → Step d (move i (removing attempt held) d)
  -- `unlink(leasePath)`, whatever the file holds
  remove :
      (i attempt held : ℕ)
      → d.phase i ≡ removing attempt held
      → Step d (record (move i (finishing attempt) d) { lease = none })
  -- The `finally`, and the next attempt
  finish :
      (i attempt : ℕ)
      → d.phase i ≡ finishing attempt
      → Step d (record (move i (starting (attempt + 1)) d) { recovery = none })
  -- An error inside the `try`, and the `finally`
  abort :
      (i : ℕ)
      → is_in_recovery (d.phase i) ≡ true
      → Step d (record (move i failed d) { recovery = none })
  -- Any other error: too many attempts, a live owner, an unreadable lease, a recovery under way
  fail : (i : ℕ) → is_before_recovery (d.phase i) ≡ true → Step d (move i failed d)
  -- close reads its own token.
  close : (i : ℕ) → d.phase i ≡ owning → d.lease ≡ some i → Step d (move i closing d)
  -- close removes the lease, whatever the file holds.
  release : (i : ℕ) → d.phase i ≡ closing → Step d (record (move i closed d) { lease = none })
  -- An error after the creation, or a close that does not read its own token: the files stay.
  give_up : (i : ℕ) → d.phase i ≡ owning → Step d (move i failed d)
  -- The process ends, and leaves its files.
  die : (i : ℕ) → Step d (move i dead d)

-- What can come of a directory
pub data Reaches (d : Directory) : Directory → Type 0 where
  here : Reaches d d
  then_step : {e f : Directory} → Reaches d e → Step e f → Reaches d f

-- ===== src/Examples/Jobs.antt =====
-- Runs of the ledger of jobs at concrete inputs.
use Prim.Native.Nat.{◌≤◌}
use super_brain.Prelude.{
  ℕ, ◌≡◌, refl, true, none, some, List, [], ◌∷◌, length, ok, if◌then◌else◌, arith,
}
use super_brain.Prelude.Text.{Text, text, ◌===◌, compare_text}
use super_brain.Prelude.Dict.{get, put}
use super_brain.Prelude.Sort.{sort_by}
use super_brain.Worker.Processing.{
  extract_run, propose, JobState, pending, blocked, completed, Job, sealed, unretired, Ledger,
  job_files, new_job,
}
use super_brain.Worker.Jobs.{get_job, put_job, enqueue, retry_blocked}
use super_brain.Worker.Jobs.Writes.{PutCases, put_job_cases}
use super_brain.Worker.Jobs.Views.{all_terminal, IsPlaced}
use super_brain.Worker.Jobs.History.{
  Command, put_command, retry_command, enqueue_command, run_all, HasFinal, run_all-HasFinal,
}
use super_brain.Worker.Jobs.Admission.{enqueue-enqueue, enqueue-active}
use super_brain.Worker.Jobs.Release.{retry_blocked-get_job}

abbrev first_id : Text
first_id = text "1111111111111111111111111111111111111111111111111111111111111111"

abbrev second_id : Text
second_id = text "2222222222222222222222222222222222222222222222222222222222222222"

abbrev job : Text → JobState → Job ℕ
job id state = record {
  id = id;
  kind = extract_run;
  state = state;
  created_at = 10;
  updated_at = 20;
  attempts = 3;
  next_attempt_at = 30;
  payload = 7;
  reason = none;
}

-- One job completed, whose active file a crash has left, and one blocked.
abbrev a_ledger : Ledger ℕ ℕ
a_ledger = record {
  opened = true;
  active =
      (first_id, sealed (job first_id pending)) ∷ (second_id, sealed (job second_id blocked)) ∷ [];
  completed = (first_id, sealed (job first_id completed)) ∷ [];
  excluded = [];
  exhausted = [];
  scheduler = [];
  faults = [];
}

abbrev an_empty_ledger : Ledger ℕ ℕ
an_empty_ledger = record {
  opened = true;
  active = [];
  completed = [];
  excluded = [];
  exhausted = [];
  scheduler = [];
  faults = [];
}

a_ledger-IsPlaced : IsPlaced a_ledger
unfolding IsPlaced all_terminal
a_ledger-IsPlaced = (refl, refl, refl)

an_empty_ledger-IsPlaced : IsPlaced an_empty_ledger
unfolding IsPlaced all_terminal
an_empty_ledger-IsPlaced = (refl, refl, refl)

first_is_completed : get_job first_id a_ledger ≡ ok (some (job first_id completed))
unfolding get_job ◌===◌ get
first_is_completed = refl

second_is_blocked : get_job second_id a_ledger ≡ ok (some (job second_id blocked))
unfolding get_job ◌===◌ get
second_is_blocked = refl

put_job_cases_example :
    PutCases (job second_id completed) (record a_ledger { faults = unretired ∷ [] })
    × IsPlaced (put_job (job second_id completed) (record a_ledger { faults = unretired ∷ [] })).1
unfolding IsPlaced
put_job_cases_example =
    put_job_cases (job second_id completed) (record a_ledger { faults = unretired ∷ [] })
      a_ledger-IsPlaced

abbrev some_commands : List (Command ℕ ℕ)
some_commands =
    put_command (job first_id pending)
    ∷ retry_command 50
    ∷ enqueue_command first_id propose 1 60
    ∷ []

run_all-HasFinal_example :
    HasFinal first_id (job first_id completed) (run_all 10 compare_text some_commands a_ledger)
run_all-HasFinal_example =
    run_all-HasFinal 10 compare_text some_commands first_id (job first_id completed) a_ledger
      (a_ledger-IsPlaced, first_is_completed, refl)

enqueued : (enqueue 10 first_id propose 5 40 an_empty_ledger).0 ≡ ok (new_job first_id propose 5 40)
unfolding enqueue ◌===◌ get
enqueued = refl

enqueue-enqueue_example :
    (get_job second_id (enqueue 10 first_id propose 5 40 an_empty_ledger).1 ≡ (
      if first_id === second_id
      then ok (some (new_job first_id propose 5 40))
      else get_job second_id an_empty_ledger))
    × (enqueue 10 first_id extract_run 6 50 (enqueue 10 first_id propose 5 40 an_empty_ledger).1 ≡ (
      ok (new_job first_id propose 5 40),
      (enqueue 10 first_id propose 5 40 an_empty_ledger).1,
    ))
enqueue-enqueue_example =
    enqueue-enqueue 10 first_id propose extract_run 5 6 40 50 (new_job first_id propose 5 40)
      an_empty_ledger second_id an_empty_ledger-IsPlaced enqueued

enqueue-active_example :
    length (job_files (enqueue 1 first_id propose 5 40 an_empty_ledger).1.active) ≤ 1
unfolding job_files
enqueue-active_example = enqueue-active 1 first_id propose 5 40 an_empty_ledger (omega arith)

retried : (retry_blocked compare_text 50 a_ledger).0 ≡ ok 1
unfolding retry_blocked ◌===◌ compare_text put sort_by get
retried = refl

retry_blocked-get_job_example :
    get_job second_id (retry_blocked compare_text 50 a_ledger).1
    ≡ ok (
        some (record (job second_id blocked) {
          state = pending;
          attempts = 0;
          next_attempt_at = 50;
          updated_at = 50;
          reason = none;
        }))
retry_blocked-get_job_example =
    retry_blocked-get_job compare_text 50 1 second_id (job second_id blocked) a_ledger
      a_ledger-IsPlaced second_is_blocked retried

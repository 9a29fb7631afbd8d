-- ===== src/Examples/Windows.antt =====
-- Runs of the scheduler at concrete inputs.
use super_brain.Prelude.{
  ℕ, ◌≡◌, ◌++◌, inl, ap, refl, true, false, none, some, List, [], ◌∷◌, length, arith,
}
use super_brain.Prelude.Int.{ℤ}
use super_brain.Prelude.Text.{Text, text, ◌===◌}
use super_brain.Fold.Json.{str}
use super_brain.Fold.Schema.Validity.{is_valid_event}
use super_brain.Fold.Schema.{Change, set}
use super_brain.Worker.Windows.{ScheduledSource, on_count, SchedulerState, Hashes, state_valid}
use super_brain.Worker.Sealing.{
  SchedulerOptions, ObservedSource, is_too_large, open_sources, outbox_sources, admit, find_slot,
  seal, sealed_item, write_failed,
}
use super_brain.Worker.Scheduler.{
  accepted, written, unconfirmed, Environment, Scheduler, returned, threw, left_by, flush, observe,
  tick, persist,
}
use super_brain.Worker.Scheduler.Accounting.{tally, recorded}
use super_brain.Worker.Scheduler.Accounting.Flushing.{Still}
use super_brain.Worker.Scheduler.Accounting.Observing.{Observed, observe-Observed}
use super_brain.Worker.Scheduler.Accounting.Ticking.{tick-Still}
use super_brain.Worker.Scheduler.Liveness.{flush-returned}
use super_brain.Examples.Samples.{sample_numbers, sample_dates, change, target, event}

abbrev some_changes : List (Change ℤ)
some_changes =
    change (set (target (text "s") (text "core.appearance")) (str (text "red")) (str (text "blue")))
    ∷ []

abbrev some_digest : Text
some_digest = text "aaaaaaaaaaaaaaaabbbbbbbbbbbbbbbbccccccccccccccccdddddddddddddddd"

instance abbrev sample_hashes : Hashes ℤ ℕ
sample_hashes = record {
  event_digest = λ _. some_digest;
  window_digest = λ _. some_digest;
  byte_length = λ state. length state.outbox;
}

-- An environment in which nothing fails.
abbrev sound_environment : Environment ℤ ℕ (Unit {0})
sound_environment = record { deliver = λ _ w. (accepted, w); write = λ _ w. (written, w) }

abbrev two_each : SchedulerOptions
two_each = record { policy = some_digest; every = 2; elapsed_ms = 1_000; capacity = none }

abbrev source : Text → Text → ScheduledSource ℕ
source id sequence = record {
  event_id = id;
  digest = some_digest;
  sequence = some sequence;
  source_time = 1;
}

-- One window sealed, and one open.
abbrev a_state : SchedulerState ℤ ℕ
a_state = record {
  policy = some_digest;
  through = text "6";
  excluded = 0;
  windows =
      record {
        partition = some_digest;
        project_id = none;
        opened_at = 2_000;
        sources = source (text "c") (text "6") ∷ [];
        anchor = event (text "c") 3 some_changes;
      }
      ∷ [];
  outbox =
      record {
        window = record {
          id = some_digest;
          identity = record {
            policy = some_digest;
            partition = some_digest;
            project_id = none;
            parent_window_id = none;
            trigger = on_count;
            opened_at = 1_000;
            sealed_at = 1_500;
            sources = source (text "a") (text "4") ∷ source (text "b") (text "5") ∷ [];
          };
        };
        anchor = event (text "b") 2 some_changes;
      }
      ∷ [];
}

abbrev a_scheduler : Scheduler ℤ ℕ (Unit {0})
a_scheduler = record { memory = some a_state; stored = some a_state; acknowledged = []; world = tt }

abbrev an_observation : ObservedSource ℤ ℕ
an_observation = record {
  event = event (text "d") 4 some_changes;
  partition = some_digest;
  project_id = none;
  completion = true;
}

state_is_valid : state_valid some_digest a_state ≡ true
unfolding state_valid ◌===◌ is_valid_event
state_is_valid = refl

observe-Observed_example :
    Observed
      (λ _. true)
      sound_environment
      two_each
      (recorded (λ _. true) (text "7") (some an_observation) ++ [])
      (text "7")
      (tally (λ _. true) (recorded (λ _. true) (text "7") (some an_observation)))
      a_state
      a_scheduler
      (left_by (
        observe sound_environment two_each
          (text "7")
          (some an_observation)
          2_500
          false
          a_scheduler))
observe-Observed_example =
    observe-Observed (λ _. true) sound_environment two_each [] (text "7") (some an_observation)
      2_500 false a_state a_scheduler refl (inl refl)

tick-Still_example :
    Still
      (λ _. true)
      sound_environment
      two_each
      []
      a_state
      a_scheduler
      (left_by (tick sound_environment two_each 4_000 a_scheduler))
tick-Still_example =
    tick-Still (λ _. true) sound_environment two_each [] 4_000 a_state a_scheduler refl (inl refl)

flush-returned_example :
    (t : Scheduler ℤ ℕ (Unit {0})) × (flush sound_environment two_each a_scheduler ≡ returned t)
    × (t.memory ≡ some (record a_state { outbox = [] }))
    × (t.acknowledged ≡ [] ++ a_state.outbox)
unfolding is_too_large open_sources outbox_sources
flush-returned_example =
    flush-returned sound_environment two_each (λ item w. refl) (λ state w. refl)
      (λ state item items h. ground (arith, ap length h)) a_state a_scheduler refl state_is_valid
      refl

-- The source of the observation was taken in, and its window sealed and delivered.
observed_through :
    (left_by (
      observe sound_environment two_each
        (text "7")
        (some an_observation)
        2_500
        false
        a_scheduler)).memory
    ≡ some (record a_state { through = text "7"; windows = []; outbox = [] })
unfolding observe state_valid is_too_large ◌===◌ is_valid_event flush persist open_sources
    outbox_sources admit find_slot seal sealed_item
observed_through = refl

-- The store renames its file, but its call rejects.
abbrev unsynced_environment : Environment ℤ ℕ (Unit {0})
unsynced_environment = record { deliver = λ _ w. (accepted, w); write = λ _ w. (unconfirmed, w) }

-- The item was delivered and is out of the store, and memory keeps it.
store_ahead :
    flush unsynced_environment two_each a_scheduler
    ≡ threw write_failed (record a_scheduler { stored = some (record a_state { outbox = [] }) })
unfolding flush state_valid is_too_large ◌===◌ is_valid_event persist open_sources outbox_sources
store_ahead = refl

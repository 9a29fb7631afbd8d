-- ===== src/Fold/Sensors.antt =====
-- packages/fold/src/lifecycle.ts: the status of a sensor at a time, from its lifecycle events; and
-- projectChanges of packages/fold/src/projection.ts.
pub mod Latest
pub mod Laws
use super_brain.Prelude.{
  ℕ, suc, zero, Bool, true, false, Option, none, some, List, [], ◌∷◌, last?, get_or, if◌then◌else◌,
  Result, ok, err,
}
use super_brain.Prelude.Text.{Text, ◌===◌}
use super_brain.Prelude.Order.{Ordered}
use super_brain.Prelude.Sort.{sort_by}
use super_brain.Fold.Json.{Numbers}
use super_brain.Fold.Schema.{Phase, Lifecycle, FoldEvent, Change}
use super_brain.Fold.Schema.Validity.{Dates, is_valid_event}
use super_brain.Fold.Order.{compare_event_keys}

-- Exclude<SensorStatus, "unknown">
pub data DeclaredStatus : Type 0 where
  online degraded offline : DeclaredStatus

pub data SensorStatus : Type 0 where
  declared : DeclaredStatus → SensorStatus
  unknown : SensorStatus

pub data Freshness : Type 0 where
  current stale unknown : Freshness

pub record SensorStatusSnapshot : Type 0 where
  pub sensor : Text
  pub status : SensorStatus
  pub freshness : Freshness
  pub last_seen_at : Option Text
  pub last_declared_status : Option DeclaredStatus
  pub heartbeat_window_ms : Option ℕ

module _ {N T : Type 0} where
  -- The lifecycle record of an event, if it is one of the sensor.
  unfoldable pub lifecycle_of : Text → FoldEvent N T → Option Lifecycle
  lifecycle_of sensor event = elim event.lifecycle [
    | none ↦ none
    | some l ↦ if l.sensor === sensor then some l else none
  ]

  -- The flatMap of lifecycleEvents
  unfoldable pub records_of : Text → List (FoldEvent N T) → List Lifecycle
  records_of sensor [] = []
  records_of sensor (event ∷ events) = elim (lifecycle_of sensor event) [
    | none ↦ records_of sensor events
    | some l ↦ l ∷ records_of sensor events
  ]

module _ {N T : Type 0} ⦃clock : Ordered T⦄ where
  -- lifecycleEvents
  unfoldable pub lifecycle_events : List (FoldEvent N T) → Text → List Lifecycle
  lifecycle_events events sensor = records_of sensor (sort_by compare_event_keys events)

-- The status that a phase other than a heartbeat declares.
unfoldable pub declared_by : Phase → Option DeclaredStatus
declared_by Phase.online = some online
declared_by Phase.heartbeat = none
declared_by Phase.degraded = some degraded
declared_by Phase.offline = some offline

-- The loop over the records: the last declared status.
unfoldable pub last_declared : Option DeclaredStatus → List Lifecycle → Option DeclaredStatus
last_declared so_far [] = so_far
last_declared so_far (l ∷ records) = elim (declared_by l.phase) [
  | none ↦ last_declared so_far records
  | some status ↦ last_declared (some status) records
]

-- `declaredStatus ?? "unknown"`
abbrev pub status_or_unknown : Option DeclaredStatus → SensorStatus
status_or_unknown none = unknown
status_or_unknown (some s) = declared s

module _ {N : Type 0} ⦃number : Numbers N⦄ ⦃dates : Dates N⦄ where
  -- `nowMs - lastSeenMs > latest.heartbeatWindowMs`
  unfoldable pub is_stale : N → Lifecycle → Bool
  is_stale now latest =
      number.lt (dates.of_ms latest.heartbeat_window_ms)
        (number.sub now (dates.parse_date latest.observed_at))

  -- The end of sensorStatusAt, over the records and the latest of them.
  unfoldable pub snapshot_of : Text → N → List Lifecycle → Option Lifecycle → SensorStatusSnapshot
  snapshot_of sensor now records none = record {
    sensor = sensor;
    status = unknown;
    freshness = unknown;
    last_seen_at = none;
    last_declared_status = none;
    heartbeat_window_ms = none;
  }
  snapshot_of sensor now records (some latest) =
      let declared_status = last_declared none records in
      record {
        sensor = sensor;
        status = if is_stale now latest then unknown else status_or_unknown declared_status;
        freshness = if is_stale now latest then stale else current;
        last_seen_at = some latest.observed_at;
        last_declared_status = declared_status;
        heartbeat_window_ms = some latest.heartbeat_window_ms;
      }

-- `event.changes.map(project)`, the callback taking the index too
unfoldable pub project_from :
    {N : Type 0} → ℕ → (Change N → ℕ → Change N) → List (Change N) → List (Change N)
project_from i project [] = []
project_from i project (c ∷ cs) = project c i ∷ project_from (suc i) project cs

module _ {N T : Type 0} ⦃number : Numbers N⦄ ⦃dates : Dates N⦄ ⦃clock : Ordered T⦄ where
  -- sensorStatusAt
  unfoldable pub sensor_status_at : List (FoldEvent N T) → Text → N → SensorStatusSnapshot
  sensor_status_at events sensor now =
      snapshot_of sensor now (lifecycle_events events sensor)
        (last? (lifecycle_events events sensor))

  -- projectChanges; `none` is the schema's error.
  unfoldable pub project_changes :
      FoldEvent N T → (Change N → ℕ → Change N) → Option (FoldEvent N T)
  project_changes event project =
      let projected = record event { changes = project_from 0 project event.changes } in
      if is_valid_event projected then some projected else none

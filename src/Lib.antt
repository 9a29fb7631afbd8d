-- ===== src/Lib.antt =====
-- super-brain: the event fold, its journal, the memory worker's scheduler and jobs, and drives
--
-- super-brain keeps what happened as a log of events. Each event carries changes (create, set,
-- adjust, link, merge and so on), and the package packages/fold folds the log into a state: cells
-- with JSON values, nodes, edges, redirects of merged nodes, diagnostics, and the record of what was
-- applied. The log is ordered by time and id; a cursor cuts it; sensors report their status by
-- lifecycle events of the same log. Everything else in the repository writes to the log or reads
-- the state. One such program is apps/memory-worker: its scheduler collects events into windows and
-- hands sealed windows on as jobs, which a ledger of files keeps until they are done. The package
-- packages/fold-drives keeps the drives of an actor, whose levels drift and are raised by entries.
--
-- Which file models which part:
--   Fold/Json, Fold/Schema         the values and types of packages/fold/src/schema.ts
--   Fold/Schema/Validity           what eventSchema.parse accepts
--   Fold/Order                     packages/fold/src/order.ts: sortLog, validateProducerOrder,
--                                  resolveForkCursor, forkAt
--   Fold/Keys                      componentCellKey and targetKey of packages/fold/src/fold.ts
--   Fold/State                     FoldState, FoldOptions, diagnoseBefore
--   Fold/Apply                     resolveNodeId, writeTarget and applyChange with every verb
--   Fold/Engine                    assertUniqueEventTargets, applyEntries, fold, continueFold
--   Fold/Sensors                   packages/fold/src/lifecycle.ts and projection.ts
--   Storage/Records                packages/fold-storage/src/records.ts
--   Storage/Digest                 canonicalJson and digestMaterializedState of checkpoint.ts there
--   Storage/Checkpoint             materializeFoldState, createCheckpoint, verifyCheckpoint
--   Storage/Reader                 readJournal of packages/fold-storage/src/jsonl.ts
--   Storage/Writer                 appendJournalRecord and rewriteJournalAtomically there
--   Worker/Windows                 the types and the validation of apps/memory-worker/src/scheduler.ts
--   Worker/Sealing                 observe there up to the state to persist, seal, readSchedulingCoverage
--   Worker/Scheduler               DurableWindowScheduler: open, observe, tick, persist, flush
--   Worker/Processing              the types of apps/memory-worker/src/jobs.ts
--   Worker/Jobs                    DurableWorkerJobs there: get, put, enqueue, active, coverage,
--                                  retryBlocked and the checkpoints of the scheduler
--   Worker/Lease                   initialize and close there, as steps of several workers
--   Drives/Types, Drives/Config    the types and the checks of packages/fold-drives/src (state.ts)
--   Drives/System, Drives/Snapshot advanceDriveSystem, integrateDriveEntry, summarizeDrives,
--                                  snapshotDriveSystem, restoreDriveSystem there
-- A journal is a file of events and checkpoints, one a line; its reader checks the order of the
-- events with the same rule as validateProducerOrder, and every checkpoint against the fold of the
-- entries before it. The files below each of these state and prove what holds of it. Prelude holds what the parts
-- share: texts, dictionaries, orders, sorting. Examples runs the definitions at concrete logs.
--
-- How the model stands to the code:
--   * A string is the list of its UTF-16 code units, compared as JavaScript compares strings.
--   * A number in a JSON value, an amount or a confidence is an element of a type N with the
--     operations of the interface Numbers; what is used of them is stated there (a strict order
--     without loops, `a - a` is zero for finite `a`). No rounding is assumed away. A time
--     `at.t` is finite, and is an element of a type with a total order, Ordered; Date.parse, the
--     date-time check of the schema library and the reading of milliseconds are the interface Dates.
--   * A Map and a JSON object are lists of keys and values in insertion order. Object.keys lists
--     keys that look like array indices first; the order of the keys of an object is not used here.
--   * Array.prototype.sort is a stable sort, written as an insertion sort.
--   * The state is changed in place, so an error comes with the state as it stands at the throw
--     (Outcome). An event that was parsed is returned as it is, since the schemas only check.
--   * A record indexed by a string, as checkpointComponents by a component set, has its own keys
--     only: a name that Object.prototype has is a missing key here.
--   * A journal file is the list of the chunks that its reads give. JSON.parse of a line and the
--     record schema are the interface Decoder, the schema and JSON.stringify the interface Encoder;
--     sha256, the text of a number and a count as a number
--     are the interface Digests.
--   * The loop of resolveNodeId runs on fuel, one more than the number of redirects. Each turn visits
--     another redirected id, so the fuel is enough.
--   * A call of the scheduler's delivery or store goes to an Environment, which answers and changes a
--     world of its own. `acknowledged` is a list that the code does not keep: the items whose delivery
--     was accepted and whose removal from the outbox is confirmed: the call that stores it returned. A
--     write of the store may also reject after its rename; then the store has the new state and the
--     scheduler keeps the old one in memory. The loop of flush is recursion over
--     the outbox that it shortens. Instants are natural numbers, since counterValid refuses others;
--     sequence numbers are texts of digits. The digests and the length of the JSON of a state are
--     the interface Hashes.
--   * A directory of the ledger is a list of names and contents; a content is a job, or unreadable. Each
--     write takes the next of a list of faults: it may end before the rename, between the rename and
--     the removal of the active file, or right after that removal. `localeCompare` is a parameter.
--   * The workers at one lease take steps in any order. A probe finds no process only if the worker is
--     dead. An error may come at any point where the code throws it. The number of attempts of
--     initialize is kept in the phase of the worker. An error of closing or removing a recovery file,
--     and two calls of close at a time by one worker, are left out.
--   * The drives need more of numbers than the fold: multiplication, division, powers and the doubles of
--     integers, with facts about NaN and infinity; these are the interface Arithmetic. A message of an
--     error is left out.
-- Not modelled: serializeFoldState and stableJson, which print a state; failures of the file
-- system and the temporary file of a rewrite; the queue of FoldJournal; the drain loop of the
-- memory worker, the encryption of its files and identify; the other packages and applications.
pub mod Prelude
pub mod Fold
pub mod Storage
pub mod Worker
pub mod Drives
pub mod Examples

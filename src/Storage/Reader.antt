-- ===== src/Storage/Reader.antt =====
-- readJournal of packages/fold-storage/src/jsonl.ts.
pub mod Keeping
pub mod Chunks
pub mod Contents
use super_brain.Prelude.{
  ℕ, suc, Bool, true, false, ◌==◌, ltb, Option, none, some, List, [], ◌∷◌, ◌++◌, length, last?,
  get_or, if◌then◌else◌, Result, ok, err, throw_if, ◌>>=◌, ◌>>◌,
}
use super_brain.Prelude.Text.{Text, text, ◌===◌}
use super_brain.Prelude.Dict.{Dict, get}
use super_brain.Prelude.Order.{Ordered}
use super_brain.Fold.Json.{Numbers}
use super_brain.Fold.Schema.{FoldEvent}
use super_brain.Fold.Schema.Validity.{Dates}
use super_brain.Fold.Order.{FoldLogEntry, Status, has, id_at, set_id_at, blocked_by}
use super_brain.Fold.State.{ComponentRegistry}
use super_brain.Storage.Records.{FoldCheckpoint, JournalRecord, event_record, checkpoint_record}
use super_brain.Storage.Digest.{Digests}
use super_brain.Storage.Checkpoint.{CheckpointError, verify_checkpoint}

pub data JournalErrorKind : Type 0 where
  blank_line checkpoint_components_unavailable checkpoint_mismatch invalid_json invalid_record
        line_too_large :
      JournalErrorKind

pub data ReadError (T : Type 0) : Type 0 where
  journal_error : JournalErrorKind → (line : ℕ) → ReadError T
  missing_file : ReadError T
  verification_failed : CheckpointError T → ReadError T

pub data TailPolicy : Type 0 where
  error recover_truncated_tail : TailPolicy

pub record JournalDiagnostic : Type 0 where
  pub line : ℕ
  pub byte_length : ℕ

pub record ReadJournalOptions (N : Type 0) : Type 0 where
  pub tail_policy : Option TailPolicy
  pub missing_is_empty : Bool
  pub max_line_bytes : Option ℕ
  pub verify_checkpoints : Option Bool
  pub checkpoint_components : Option (Dict (ComponentRegistry N))

pub record ReadJournalResult (N T : Type 0) : Type 0 where
  pub records : List (JournalRecord N T)
  pub entries : List (FoldLogEntry N T)
  pub checkpoints : List (FoldCheckpoint N T)
  pub diagnostics : List JournalDiagnostic

-- The local variables of readJournal: what was read, `seenEventIds` and `previousIdAtTime`.
pub record Reading (N T : Type 0) : Type 0 where
  pub result : ReadJournalResult N T
  pub seen : List Text
  pub previous : List (T × Text)

-- The local variables of the loop over the chunks.
pub record Progress (N T : Type 0) : Type 0 where
  pub line : ℕ
  pub pending : List ℕ
  pub reading : Reading N T

-- JSON.parse of a line and parseJournalRecord of its value.
pub data Decoded (N T : Type 0) : Type 0 where
  not_json not_record : Decoded N T
  decoded : JournalRecord N T → Decoded N T

pub record Decoder (N T : Type 0) : Type 0 where
  pub decode : List ℕ → Decoded N T

module _ {N T : Type 0} where
  abbrev pub empty_result : ReadJournalResult N T
  empty_result = record { records = []; entries = []; checkpoints = []; diagnostics = [] }

  abbrev pub empty_reading : Reading N T
  empty_reading = record { result = empty_result; seen = []; previous = [] }

  -- parseLine
  unfoldable pub parse_line :
      ⦃decoder : Decoder N T⦄ → List ℕ → (line : ℕ) → Result (ReadError T) (JournalRecord N T)
  parse_line [] line = err (journal_error blank_line line)
  parse_line ⦃decoder⦄ (b ∷ bytes) line = elim (decoder.decode (b ∷ bytes)) [
    | not_json ↦ err (journal_error invalid_json line)
    | not_record ↦ err (journal_error invalid_record line)
    | decoded r ↦ ok r
  ]

-- `options.maxLineBytes ?? DEFAULT_MAX_LINE_BYTES`, 16 * 1024 * 1024
abbrev pub max_bytes : {N : Type 0} → ReadJournalOptions N → ℕ
max_bytes options = get_or options.max_line_bytes 16_777_216

-- withoutCarriageReturn
unfoldable pub without_carriage_return : List ℕ → List ℕ
without_carriage_return [] = []
without_carriage_return (b ∷ []) = if b == 13 then [] else b ∷ []
without_carriage_return (b ∷ c ∷ bytes) = b ∷ without_carriage_return (c ∷ bytes)

-- The registry that the component set of a checkpoint names, if it is not the core's.
unfoldable pub components_for :
    {N : Type 0}
    → Option (Dict (ComponentRegistry N))
    → (component_set : Text) → Option (Option (ComponentRegistry N))
components_for registries component_set =
    if component_set === text "core-v0.7" then some none else elim registries [
      | none ↦ none
      | some m ↦ elim (get component_set m) [ none ↦ none | some c ↦ some (some c) ]
    ]

module _ {N T : Type 0} ⦃clock : Ordered T⦄ where
  -- accept, for an event
  unfoldable pub accept_event :
      Status → FoldEvent N T → (line : ℕ) → Reading N T → Result (ReadError T) (Reading N T)
  accept_event status event line reading =
      if has reading.seen event.id
      then err (journal_error invalid_record line)
      else elim (blocked_by (id_at event.t reading.previous) event.id) [
        | some _ ↦ err (journal_error invalid_record line)
        | none ↦ ok (record {
          result = record reading.result {
            entries = reading.result.entries ++ (record { event = event; status = status }) ∷ [];
            records = reading.result.records ++ event_record status event ∷ [];
          };
          seen = event.id ∷ reading.seen;
          previous = set_id_at event.t event.id reading.previous;
        })
      ]

  module _ ⦃number : Numbers N⦄ ⦃dates : Dates N⦄ ⦃digests : Digests N⦄ where
    -- The verification of a checkpoint in accept
    unfoldable pub check_checkpoint :
        ReadJournalOptions N
        → FoldCheckpoint N T
        → (line : ℕ) → List (FoldLogEntry N T)
        → Result (ReadError T) (Unit {0})
    check_checkpoint options checkpoint line entries =
        elim (components_for options.checkpoint_components checkpoint.component_set) [
          | none ↦ err (journal_error checkpoint_components_unavailable line)
          | some components ↦ elim (verify_checkpoint checkpoint entries components) [
            | err e ↦ err (verification_failed e)
            | ok verification ↦
                if verification.valid then ok tt else err (journal_error checkpoint_mismatch line)
          ]
        ]

    -- accept
    unfoldable pub accept :
        ReadJournalOptions N
        → JournalRecord N T
        → (line : ℕ) → Reading N T
        → Result (ReadError T) (Reading N T)
    unfolding accept_event
    accept options (event_record status event) line reading = accept_event status event line reading
    accept options (checkpoint_record checkpoint) line reading = do
      if get_or options.verify_checkpoints true
          then check_checkpoint options checkpoint line reading.result.entries
          else ok tt
      ok (record reading {
        result = record reading.result {
          checkpoints = reading.result.checkpoints ++ checkpoint ∷ [];
          records = reading.result.records ++ checkpoint_record checkpoint ∷ [];
        };
      })

    module _ ⦃decoder : Decoder N T⦄ where
      -- The body of the inner loop, for the bytes before a newline
      unfoldable pub take_line :
          ReadJournalOptions N
          → (bytes : List ℕ) → (line : ℕ) → Reading N T
          → Result (ReadError T) (Reading N T)
      take_line options bytes line reading = do
        let line_bytes = without_carriage_return bytes
        throw_if (ltb (max_bytes options) (length line_bytes)) (journal_error line_too_large line)
        r ← parse_line line_bytes line
        accept options r line reading

      -- The inner loop: `line_bytes` are the bytes since the last newline.
      unfoldable pub take_lines :
          ReadJournalOptions N
          → ℕ
          → (line_bytes : List ℕ) → List ℕ
          → Reading N T
          → Result (ReadError T) (Progress N T)
      take_lines options line line_bytes [] reading =
          ok (record { line = line; pending = line_bytes; reading = reading })
      take_lines options line line_bytes (b ∷ bytes) reading = elim (b == 10) [
        | true ↦ do
          next ← take_line options line_bytes line reading
          take_lines options (suc line) [] bytes next
        | false ↦ take_lines options line (line_bytes ++ b ∷ []) bytes reading
      ]

      -- The loop over the chunks that `handle.read` gives
      unfoldable pub read_chunks :
          ReadJournalOptions N → List (List ℕ) → Progress N T → Result (ReadError T) (Progress N T)
      read_chunks options [] p = ok p
      read_chunks options (chunk ∷ chunks) p = do
        q ← take_lines options p.line [] (p.pending ++ chunk) p.reading
        throw_if (ltb (max_bytes options) (length q.pending)) (journal_error line_too_large q.line)
        read_chunks options chunks q

      -- `tailPolicy === "recover-truncated-tail" && … error.kind === "invalid-json"`
      unfoldable pub recovers : ReadJournalOptions N → ReadError T → Bool
      recovers options e = elim (get_or options.tail_policy error) [
        | error ↦ false
        | recover_truncated_tail ↦ elim e [ journal_error invalid_json _ ↦ true | _ ↦ false ]
      ]

      -- The bytes after the last newline
      unfoldable pub read_tail :
          ReadJournalOptions N → Progress N T → Result (ReadError T) (ReadJournalResult N T)
      read_tail options p = elim p.pending [
        | [] ↦ ok p.reading.result
        | b ∷ bytes ↦
            let tail = without_carriage_return (b ∷ bytes) in
            elim (parse_line tail p.line >>= λ r. accept options r p.line p.reading) [
              | ok reading ↦ ok reading.result
              | err e ↦
                  if recovers options e
                  then ok (record p.reading.result {
                    diagnostics =
                        p.reading.result.diagnostics
                        ++ (record { line = p.line; byte_length = length tail }) ∷ [];
                  })
                  else err e
            ]
      ]

      -- readJournal, over the chunks of the file; `none` is a file that does not exist.
      unfoldable pub read_journal :
          ReadJournalOptions N
          → Option (List (List ℕ))
          → Result (ReadError T) (ReadJournalResult N T)
      read_journal options none =
          if options.missing_is_empty then ok empty_result else err missing_file
      read_journal options (some chunks) =
          read_chunks options chunks (record { line = 1; pending = []; reading = empty_reading })
          >>= λ p. read_tail options p

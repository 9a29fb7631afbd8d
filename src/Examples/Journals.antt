-- ===== src/Examples/Journals.antt =====
-- Journals and checkpoints at concrete files.
use mathlib.Core.List.{Permᴰ}
use super_brain.Prelude.{
  ℕ, ◌≡◌, ltb, ◌>>=◌, refl, true, false, Option, none, some, List, [], ◌∷◌, length, last?,
  if◌then◌else◌, Result, ok, err, arith,
}
use super_brain.Prelude.Text.{text, text_ordered, ◌===◌, compare_text}
use super_brain.Prelude.Dict.{Dict, get, put}
use super_brain.Prelude.Int.{ℤ, pos}
use super_brain.Prelude.Sort.{sort_by}
use super_brain.Fold.Json.{Json, json_equal, str, null, obj, field, end}
use super_brain.Fold.Schema.{set, FoldEvent}
use super_brain.Fold.Schema.Validity.{is_valid_event}
use super_brain.Fold.Order.{
  FoldLogEntry, canon, has, sort_log, compare_event_keys, validate_producer_order, id_at, set_id_at,
  blocked_by,
}
use super_brain.Fold.Keys.{target_key, component_cell_key, short_escape}
use super_brain.Fold.State.{FoldState, empty_state, canon_and_draft, done, diagnose_before}
use super_brain.Fold.Apply.{apply_assertion, apply_change, write_over}
use super_brain.Fold.Engine.{
  fold, apply_entries, select_entries, arrange, included, all_valid, merge_components, apply_events,
  apply_event, apply_changes, repeated_target,
}
use super_brain.Storage.Records.{
  JournalRecord, FoldCheckpoint, event_record, checkpoint_record, is_valid_checkpoint,
}
use super_brain.Storage.Digest.{
  Digests, digest_materialized_state, canonical_json, join_before, pair_texts,
}
use super_brain.Storage.Checkpoint.{
  CreateCheckpointOptions, CheckpointError, fold_options, cursor_of, checkpoint_of,
  create_checkpoint, verify_checkpoint, materialize_fold_state,
}
use super_brain.Storage.Checkpoint.Laws.{
  verify_checkpoint-create_checkpoint, verify_checkpoint-valid,
}
use super_brain.Storage.Checkpoint.Canonical.{materialize_fold_state-perm}
use super_brain.Storage.Reader.{
  take_lines, ReadJournalOptions, ReadJournalResult, Decoder, Decoded, not_json, decoded,
  recover_truncated_tail, read_journal, read_chunks, read_tail, take_lines, take_line, parse_line,
  accept, accept_event, without_carriage_return, recovers,
}
use super_brain.Storage.Reader.Keeping.{events_of_entries, read_journal-ordered}
use super_brain.Storage.Reader.Chunks.{has_short_lines, read_journal-concat}
use super_brain.Storage.Reader.Contents.{
  entries_of, checkpoints_of, read_journal-IsConsistent, fold-read_journal,
}
use mathlib.Core.Path.{subst}
use super_brain.Storage.Reader.Chunks.{IsOneLine}
use super_brain.Storage.Reader.{Progress, empty_reading}
use super_brain.Storage.Writer.{
  Encoder, encode_journal_record, append_journal_record, rewrite_journal, is_torn,
}
use super_brain.Storage.Writer.RoundTrip.{
  IsReadable, accept_all, read_journal-append_journal_record, read_journal-rewrite_journal,
}
use super_brain.Examples.Samples.{sample_numbers, sample_dates, sample_clock, event, change, target}

abbrev painted : FoldEvent ℤ ℕ
painted = event (text "a") 1 (
    change (set (target (text "s") (text "core.appearance")) (str (text "red")) (str (text "blue")))
    ∷ [])

abbrev later : FoldEvent ℤ ℕ
later = event (text "b") 2 []

-- A line holds the name of an event.
abbrev named : List ℕ → Decoded ℤ ℕ
named bytes =
    if bytes === text "a"
    then decoded (event_record canon painted)
    else if bytes === text "b"
    then decoded (event_record canon later)
    else not_json

instance abbrev sample_decoder : Decoder ℤ ℕ
sample_decoder = record { decode = named }

instance abbrev sample_digests : Digests ℤ
sample_digests = record {
  number_text = λ _. text "0";
  of_count = pos;
  sha256 = λ _. text "aaaaaaaaaaaaaaaaaaaaaaaaaaaaaaaaaaaaaaaaaaaaaaaaaaaaaaaaaaaaaaaa";
}

abbrev recovering : ReadJournalOptions ℤ
recovering = record {
  tail_policy = some recover_truncated_tail;
  missing_is_empty = false;
  max_line_bytes = some 2;
  verify_checkpoints = none;
  checkpoint_components = none;
}

-- Two lines, the first with a carriage return, and a torn tail.
abbrev torn_file : List (List ℕ)
torn_file = (97 ∷ 13 ∷ []) ∷ (10 ∷ 98 ∷ 10 ∷ 120 ∷ []) ∷ []

abbrev torn_result : ReadJournalResult ℤ ℕ
torn_result = record {
  records = event_record canon painted ∷ event_record canon later ∷ [];
  entries =
      (record { event = painted; status = canon })
      ∷ (record { event = later; status = canon })
      ∷ [];
  checkpoints = [];
  diagnostics = (record { line = 3; byte_length = 1 }) ∷ [];
}

torn_read : read_journal recovering (some torn_file) ≡ ok torn_result
unfolding read_journal read_chunks read_tail take_lines take_line parse_line accept accept_event
    without_carriage_return recovers has blocked_by id_at set_id_at ◌===◌ compare_text
torn_read = refl

read_journal-ordered_example :
    validate_producer_order (events_of_entries torn_result.entries) ≡ ok tt
read_journal-ordered_example = read_journal-ordered recovering torn_file torn_result torn_read

read_journal-concat_example :
    read_journal {T = ℕ} recovering (some torn_file)
    ≡ read_journal {T = ℕ} recovering (some ((97 ∷ 13 ∷ 10 ∷ 98 ∷ []) ∷ (10 ∷ 120 ∷ []) ∷ []))
unfolding has_short_lines
read_journal-concat_example =
    read_journal-concat recovering torn_file ((97 ∷ 13 ∷ 10 ∷ 98 ∷ []) ∷ (10 ∷ 120 ∷ []) ∷ []) refl
      refl

read_journal-IsConsistent_example :
    (torn_result.entries ≡ entries_of torn_result.records)
    × (torn_result.checkpoints ≡ checkpoints_of torn_result.records)
read_journal-IsConsistent_example =
    read_journal-IsConsistent recovering torn_file torn_result torn_read

fold-read_journal_example :
    fold torn_result.entries (fold_options canon_and_draft none)
    ≡ fold
        ((record { event = later; status = canon })
          ∷ (record { event = painted; status = canon })
          ∷ [])
        (fold_options canon_and_draft none)
fold-read_journal_example =
    fold-read_journal recovering torn_file torn_result
      ((record { event = later; status = canon })
        ∷ (record { event = painted; status = canon })
        ∷ [])
      (fold_options canon_and_draft none) torn_read (Permᴰ.swap refl refl) refl refl

abbrev encode_id : JournalRecord ℤ ℕ → Option (List ℕ)
encode_id (event_record status e) = some e.id
encode_id (checkpoint_record c) = none

instance abbrev sample_encoder : Encoder ℤ ℕ
sample_encoder = record { encode = encode_id }

encoded_once : {s bytes : List ℕ} → ◌≡◌ {A = Option (List ℕ)} (some s) (some bytes) → s ≡ bytes
encoded_once e = cc

painted-IsReadable : IsReadable recovering (event_record canon painted)
unfolding ◌===◌ without_carriage_return
painted-IsReadable = record {
  decodes =
      λ b e. subst (λ x. named x ≡ decoded (event_record canon painted)) (encoded_once e) refl;
  filled = λ b e. subst (λ x. ltb 0 (length x) ≡ true) (encoded_once e) refl;
  one_line = λ b e. subst IsOneLine (encoded_once e) (refl, tt);
  no_return = λ b e. subst (λ x. without_carriage_return x ≡ x) (encoded_once e) refl;
  fits = λ b e. subst (λ x. ltb 2 (length x) ≡ false) (encoded_once e) refl;
}

later-IsReadable : IsReadable recovering (event_record canon later)
unfolding ◌===◌ without_carriage_return
later-IsReadable = record {
  decodes = λ b e. subst (λ x. named x ≡ decoded (event_record canon later)) (encoded_once e) refl;
  filled = λ b e. subst (λ x. ltb 0 (length x) ≡ true) (encoded_once e) refl;
  one_line = λ b e. subst IsOneLine (encoded_once e) (refl, tt);
  no_return = λ b e. subst (λ x. without_carriage_return x ≡ x) (encoded_once e) refl;
  fits = λ b e. subst (λ x. ltb 2 (length x) ≡ false) (encoded_once e) refl;
}

abbrev first_result : ReadJournalResult ℤ ℕ
first_result = record {
  records = event_record canon painted ∷ [];
  entries = (record { event = painted; status = canon }) ∷ [];
  checkpoints = [];
  diagnostics = [];
}

first_read : read_journal recovering (some ((97 ∷ 10 ∷ []) ∷ [])) ≡ ok first_result
unfolding read_journal read_chunks read_tail take_lines take_line parse_line accept accept_event
    without_carriage_return recovers has blocked_by id_at set_id_at ◌===◌ compare_text
first_read = refl

later_appended :
    append_journal_record (97 ∷ 10 ∷ []) (event_record canon later) ≡ ok (97 ∷ 10 ∷ 98 ∷ 10 ∷ [])
unfolding append_journal_record encode_journal_record is_torn
later_appended = refl

read_journal-append_journal_record_example :
    (p : Progress ℤ ℕ) × (take_lines recovering 1 [] (97 ∷ 10 ∷ []) empty_reading ≡ ok p)
    × (p.pending ≡ [])
    × (p.line ≡ 2)
    × (p.reading.result ≡ first_result)
    × (read_journal recovering (some ((97 ∷ 10 ∷ 98 ∷ 10 ∷ []) ∷ []))
        ≡ (accept recovering (event_record canon later) p.line p.reading >>= λ s. ok s.result))
read_journal-append_journal_record_example =
    read_journal-append_journal_record recovering (97 ∷ 10 ∷ []) (97 ∷ 10 ∷ 98 ∷ 10 ∷ [])
      (event_record canon later) first_result first_read later_appended later-IsReadable

both_written :
    rewrite_journal (event_record canon painted ∷ event_record canon later ∷ [])
    ≡ ok (97 ∷ 10 ∷ 98 ∷ 10 ∷ [])
unfolding rewrite_journal encode_journal_record
both_written = refl

read_journal-rewrite_journal_example :
    read_journal recovering (some ((97 ∷ 10 ∷ 98 ∷ 10 ∷ []) ∷ [])) ≡ (
      accept_all recovering 1
        (event_record canon painted ∷ event_record canon later ∷ [])
        empty_reading
      >>= λ s. ok s.result)
read_journal-rewrite_journal_example =
    read_journal-rewrite_journal recovering
      (event_record canon painted ∷ event_record canon later ∷ []) (97 ∷ 10 ∷ 98 ∷ 10 ∷ [])
      both_written (painted-IsReadable, (later-IsReadable, tt))

canonical_object :
    canonical_json {N = ℤ} (obj (field (text "b") null (field (text "a") (str (text "x")) end)))
    ≡ text "{\"a\":\"x\",\"b\":null}"
unfolding canonical_json join_before pair_texts sort_by compare_text short_escape
canonical_object = refl

abbrev create_options : CreateCheckpointOptions ℤ
create_options = record { include = canon_and_draft; components = none; component_set = none }

abbrev log : List (FoldLogEntry ℤ ℕ)
log = (record { event = painted; status = canon }) ∷ []

abbrev made : Result (CheckpointError ℕ) (FoldCheckpoint ℤ ℕ) → FoldCheckpoint ℤ ℕ
made (ok c) = c
made (err e) = checkpoint_of create_options empty_state

abbrev checkpoint : FoldCheckpoint ℤ ℕ
checkpoint = made (create_checkpoint log create_options)

checkpoint_created : create_checkpoint log create_options ≡ ok checkpoint
unfolding create_checkpoint is_valid_checkpoint fold apply_entries select_entries arrange included
    all_valid is_valid_event sort_log sort_by compare_event_keys ◌===◌ apply_events apply_event
    repeated_target has target_key component_cell_key apply_changes apply_change apply_assertion
    write_over get put diagnose_before json_equal merge_components checkpoint_of
    materialize_fold_state digest_materialized_state
checkpoint_created = refl

verify_checkpoint-create_checkpoint_example :
    verify_checkpoint checkpoint log none ≡ ok (record { valid = true; expected = checkpoint })
verify_checkpoint-create_checkpoint_example =
    verify_checkpoint-create_checkpoint log create_options checkpoint checkpoint_created

verify_checkpoint-valid_example :
    (state : FoldState ℤ ℕ) × (fold log (fold_options checkpoint.include none) ≡ done state)
    × (checkpoint.event_count ≡ length state.applied_events)
    × (checkpoint.through ≡ cursor_of (last? state.applied_events))
    × (checkpoint.state_digest ≡ digest_materialized_state (materialize_fold_state state))
    × (digest_materialized_state checkpoint.state ≡ checkpoint.state_digest)
verify_checkpoint-valid_example =
    verify_checkpoint-valid checkpoint log none (record { valid = true; expected = checkpoint })
      verify_checkpoint-create_checkpoint_example refl

abbrev cells : Dict (Json ℤ) → FoldState ℤ ℕ
cells values = record empty_state { values = values }

materialize_fold_state-perm_example :
    materialize_fold_state (cells ((text "a", str (text "x")) ∷ (text "b", str (text "y")) ∷ []))
    ≡ materialize_fold_state (cells ((text "b", str (text "y")) ∷ (text "a", str (text "x")) ∷ []))
materialize_fold_state-perm_example =
    materialize_fold_state-perm
      (cells ((text "a", str (text "x")) ∷ (text "b", str (text "y")) ∷ []))
      (cells ((text "b", str (text "y")) ∷ (text "a", str (text "x")) ∷ []))
      (record {
        values = Permᴰ.swap refl refl;
        nodes = Permᴰ.nil;
        edges = Permᴰ.nil;
        redirects = Permᴰ.nil;
        diagnostics = refl;
      })
      (record {
        values = (((λ q. ground arith), tt), (tt, tt));
        nodes = tt;
        edges = tt;
        redirects = tt;
      })

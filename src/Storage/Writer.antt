-- ===== src/Storage/Writer.antt =====
-- appendJournalRecord and rewriteJournalAtomically of packages/fold-storage/src/jsonl.ts, over the
-- bytes of the journal file.
pub mod RoundTrip
use super_brain.Prelude.{
  ℕ, Bool, true, false, ◌==◌, Option, none, some, List, [], ◌∷◌, ◌++◌, last?, Result, ok, err,
  ◌>>=◌,
}
use super_brain.Storage.Records.{JournalRecord}

-- parseJournalRecord of a record and JSON.stringify of what it accepts; `none` is the schema's error.
pub record Encoder (N T : Type 0) : Type 0 where
  pub encode : JournalRecord N T → Option (List ℕ)

pub data WriteError : Type 0 where
  invalid_record torn_tail : WriteError

-- `stat.size > 0 && lastByte[0] !== 10`
unfoldable pub is_torn : List ℕ → Bool
is_torn bytes = elim (last? bytes) [
  | none ↦ false
  | some b ↦ elim (b == 10) [ true ↦ false | false ↦ true ]
]

module _ {N T : Type 0} ⦃encoder : Encoder N T⦄ where
  -- encodeJournalRecord
  unfoldable pub encode_journal_record : JournalRecord N T → Result WriteError (List ℕ)
  encode_journal_record record' = elim (encoder.encode record') [
    | none ↦ err invalid_record
    | some bytes ↦ ok (bytes ++ 10 ∷ [])
  ]

  -- appendJournalRecord: the new content of the file.
  unfoldable pub append_journal_record :
      (file : List ℕ) → JournalRecord N T → Result WriteError (List ℕ)
  append_journal_record file record' = encode_journal_record record' >>= λ encoded.
      elim (is_torn file) [ true ↦ err torn_tail | false ↦ ok (file ++ encoded) ]

  -- rewriteJournalAtomically: the whole new content of the file.
  unfoldable pub rewrite_journal : List (JournalRecord N T) → Result WriteError (List ℕ)
  rewrite_journal [] = ok []
  rewrite_journal (record' ∷ records) = encode_journal_record record' >>= λ encoded.
      rewrite_journal records >>= λ rest. ok (encoded ++ rest)

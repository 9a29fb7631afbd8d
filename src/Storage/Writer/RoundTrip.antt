-- ===== src/Storage/Writer/RoundTrip.antt =====
-- appendJournalRecord and rewriteJournalAtomically against readJournal, all of
-- packages/fold-storage/src/jsonl.ts.
use super_brain.Prelude.{
  ℕ, suc, ◌+◌, if◌then◌else◌, ◌≡◌, refl, sym, ap, ◌∙◌, true, false, ◌==◌, ltb, none, some, List, [],
  ◌∷◌, ◌++◌, length, last?, All, Result, ok, err, ◌>>=◌, >>=-eq-ok, ok-injective, Bool-cases,
  Option-cases, inl, inr, arith,
}
use mathlib.Core.Path.{subst}
use mathlib.Core.List.{append_assoc}
use super_brain.Prelude.Order.{Ordered}
use super_brain.Fold.Json.{Numbers}
use super_brain.Fold.Schema.Validity.{Dates}
use super_brain.Storage.Records.{JournalRecord}
use super_brain.Storage.Digest.{Digests}
use super_brain.Storage.Reader.{
  ReadError, ReadJournalOptions, ReadJournalResult, Reading, Progress, Decoder, decoded,
  empty_reading, accept, parse_line, take_line, take_lines, read_chunks, read_tail, read_journal,
  max_bytes, without_carriage_return,
}
use super_brain.Storage.Reader.Chunks.{IsOneLine, >>=-assoc, take_lines-append, take_lines-one_line}
use super_brain.Storage.Writer.{
  Encoder, is_torn, encode_journal_record, append_journal_record, rewrite_journal,
}

-- The encoding of a record is a line of a journal that decodes to the record.
pub record IsReadable {N T : Type 0} ⦃encoder : Encoder N T⦄ ⦃decoder : Decoder N T⦄
    (options : ReadJournalOptions N) (record' : JournalRecord N T) : Type 0 where
  pub decodes :
      (bytes : List ℕ)
      → encoder.encode record' ≡ some bytes
      → decoder.decode bytes ≡ decoded record'
  pub filled : (bytes : List ℕ) → encoder.encode record' ≡ some bytes → ltb 0 (length bytes) ≡ true
  pub one_line : (bytes : List ℕ) → encoder.encode record' ≡ some bytes → IsOneLine bytes
  pub no_return :
      (bytes : List ℕ) → encoder.encode record' ≡ some bytes → without_carriage_return bytes ≡ bytes
  pub fits :
      (bytes : List ℕ)
      → encoder.encode record' ≡ some bytes
      → ltb (max_bytes options) (length bytes) ≡ false

-- How many of the bytes are newlines.
abbrev pub newlines : List ℕ → ℕ
newlines [] = 0
newlines (b ∷ bytes) = if b == 10 then suc (newlines bytes) else newlines bytes

module _ {N T : Type 0} ⦃number : Numbers N⦄ ⦃dates : Dates N⦄ ⦃clock : Ordered T⦄
    ⦃digests : Digests N⦄ ⦃decoder : Decoder N T⦄ ⦃encoder : Encoder N T⦄
    (options : ReadJournalOptions N) where
  -- The records accepted one after another, each on a line of its own.
  abbrev pub accept_all :
      (line : ℕ) → List (JournalRecord N T) → Reading N T → Result (ReadError T) (Reading N T)
  accept_all line [] reading = ok reading
  accept_all line (r ∷ rs) reading =
      accept options r line reading >>= λ next. accept_all (suc line) rs next

  parse_line-decoded :
      (r : JournalRecord N T) (bytes : List ℕ) (line : ℕ)
      → ltb 0 (length bytes) ≡ true
      → decoder.decode bytes ≡ decoded r
      → parse_line bytes line ≡ ok r
  unfolding parse_line
  parse_line-decoded r [] line f d = absurd (ground arith)
  parse_line-decoded r (b ∷ bytes) line f d = rw (d, parse_line) refl

  take_line-encoded :
      (r : JournalRecord N T) (bytes : List ℕ) (line : ℕ) (reading : Reading N T)
      → IsReadable options r
      → encoder.encode r ≡ some bytes
      → take_line options bytes line reading ≡ accept options r line reading
  unfolding take_line
  take_line-encoded r bytes line reading i e =
      rw
        (
          i.no_return bytes e,
          i.fits bytes e,
          parse_line-decoded r bytes line (i.filled bytes e) (i.decodes bytes e),
          take_line,
        )
        refl

  take_lines-encoded :
      (r : JournalRecord N T) (bytes more : List ℕ) (line : ℕ) (reading : Reading N T)
      → IsReadable options r
      → encoder.encode r ≡ some bytes
      → take_lines options line [] (bytes ++ 10 ∷ more) reading
        ≡ (accept options r line reading >>= λ next. take_lines options (suc line) [] more next)
  unfolding take_lines
  take_lines-encoded r bytes more line reading i e =
      take_lines-one_line options line [] bytes (10 ∷ more) reading (i.one_line bytes e)
      ∙ ap (λ m. m >>= λ next. take_lines options (suc line) [] more next)
          (take_line-encoded r bytes line reading i e)

  -- A file that ends in a newline leaves no bytes over.
  take_lines-ended :
      (line : ℕ) (line_bytes bytes : List ℕ) (r : Reading N T) (q : Progress N T)
      → last? bytes ≡ some 10
      → take_lines options line line_bytes bytes r ≡ ok q
      → q.pending ≡ []
  unfolding take_lines
  take_lines-ended line line_bytes [] r q l h = absurd (ground arith)
  take_lines-ended line line_bytes (x ∷ []) r q l h = elim (Bool-cases (x == 10)) [
    | inr e ↦ absurd (ground arith)
    | inl e ↦
        let (next, _, k) =
          >>=-eq-ok (take_line options line_bytes line r) _ (rw (e, take_lines) at h) in
        sym (ap (λ (p : Progress N T). p.pending) (ok-injective k))
  ]
  take_lines-ended line line_bytes (x ∷ y ∷ bytes) r q l h = elim (Bool-cases (x == 10)) [
    | inl e ↦
        let (next, _, k) =
          >>=-eq-ok (take_line options line_bytes line r) _ (rw (e, take_lines) at h) in
        take_lines-ended (suc line) [] (y ∷ bytes) next q l k
    | inr e ↦
        take_lines-ended line (line_bytes ++ x ∷ []) (y ∷ bytes) r q l (rw (e, take_lines) at h)
  ]

  take_lines-whole :
      (file : List ℕ) (r : Reading N T) (q : Progress N T)
      → is_torn file ≡ false
      → take_lines options 1 [] file r ≡ ok q
      → q.pending ≡ []
  unfolding is_torn take_lines
  take_lines-whole [] r q t h = sym (ap (λ (p : Progress N T). p.pending) (ok-injective h))
  take_lines-whole (b ∷ file) r q t h = elim (Option-cases (last? (b ∷ file))) [
    | inl e ↦ absurd (nonempty b file e)
    | inr (c, e) ↦
        take_lines-ended 1 [] (b ∷ file) r q (e ∙ ap some (newline c (rw (e, is_torn) at t))) h
  ]
    where
      nonempty : (b : ℕ) (bytes : List ℕ) → last? (b ∷ bytes) ≡ none → ⊥
      nonempty b [] e = cc
      nonempty b (c ∷ bytes) e = nonempty c bytes e

      newline : (c : ℕ) → elim (c == 10) [ true ↦ false | false ↦ true ] ≡ false → c ≡ 10
      newline c t = ground arith

  -- Where the lines of a file that leave no bytes over come from `m`, so does the result.
  read_journal-of_lines :
      (file : List ℕ) (line : ℕ) (m : Result (ReadError T) (Reading N T))
      → take_lines options 1 [] file empty_reading
        ≡ (m >>= λ s. ok (record { line = line; pending = []; reading = s }))
      → read_journal options (some (file ∷ [])) ≡ (m >>= λ s. ok s.result)
  unfolding read_journal read_chunks read_tail
  read_journal-of_lines file line (ok s) h =
      rw (h, fits (max_bytes options), read_journal, read_chunks) refl
    where
      fits : (n : ℕ) → ltb n 0 ≡ false
      fits n = ground arith
  read_journal-of_lines file line (err e) h = rw (h, read_journal, read_chunks) refl

  -- The lines of a journal that can be read.
  lines_of :
      (file : List ℕ) (result : ReadJournalResult N T)
      → read_journal options (some (file ∷ [])) ≡ ok result
      → (q : Progress N T) × (take_lines options 1 [] file empty_reading ≡ ok q)
  unfolding read_journal read_chunks
  lines_of file result h =
      let (p, c, _) =
        >>=-eq-ok
          (read_chunks options (file ∷ [])
            (record { line = 1; pending = []; reading = empty_reading }))
          _ h in
      let (q, l, _) = >>=-eq-ok (take_lines options 1 [] file empty_reading) _ c in (q, l)

  encode_journal_record-ok :
      (r : JournalRecord N T) (encoded : List ℕ)
      → encode_journal_record r ≡ ok encoded
      → (bytes : List ℕ) × (encoder.encode r ≡ some bytes) × (bytes ++ 10 ∷ [] ≡ encoded)
  unfolding encode_journal_record
  encode_journal_record-ok r encoded h = elim (Option-cases (encoder.encode r)) [
    | inl e ↦ absurd (ground (arith, rw (e, encode_journal_record) at h))
    | inr (bytes, e) ↦ (bytes, e, ok-injective (rw (e, encode_journal_record) at h))
  ]

  appended :
      (file bytes : List ℕ) (r : JournalRecord N T) (q : Progress N T)
      → IsReadable options r
      → encoder.encode r ≡ some bytes
      → take_lines options 1 [] file empty_reading ≡ ok (record q { pending = [] })
      → take_lines options 1 [] (file ++ (bytes ++ 10 ∷ [])) empty_reading ≡ (
          accept options r q.line q.reading >>= λ s.
          ok (record { line = suc q.line; pending = []; reading = s }))
  unfolding take_lines
  appended file bytes r q i e l =
      take_lines-append options 1 [] file (bytes ++ 10 ∷ []) empty_reading
      ∙ ap (λ m. m >>= λ p. take_lines options p.line p.pending (bytes ++ 10 ∷ []) p.reading) l
      ∙ take_lines-encoded r bytes [] q.line q.reading i e

  take_lines-line :
      (line : ℕ) (line_bytes bytes : List ℕ) (r : Reading N T) (q : Progress N T)
      → take_lines options line line_bytes bytes r ≡ ok q
      → q.line ≡ line + newlines bytes
  unfolding take_lines
  take_lines-line line line_bytes [] r q h =
      omega (arith, ap (λ (p : Progress N T). p.line) (ok-injective h))
  take_lines-line line line_bytes (b ∷ bytes) r q h = elim (Bool-cases (b == 10)) [
    | inl e ↦
        let (next, _, k) =
          >>=-eq-ok (take_line options line_bytes line r) _ (rw (e, take_lines) at h) in
        rw e (omega (arith, take_lines-line (suc line) [] bytes next q k))
    | inr e ↦ rw e (take_lines-line line (line_bytes ++ b ∷ []) bytes r q (rw (e, take_lines) at h))
  ]

  -- If a journal can be read and a record is appended to it, reading the new file accepts that one
  -- record after everything that was read before, on the line after it. The reader takes the lines
  -- of the old file, which end with it, to the old result and to the line whose number is one more
  -- than the newlines of the file; reading the new file gives what accepting the record on that line
  -- and over that reading gives, a result or the error with which the record is refused there. The
  -- record's encoding has to be a line that decodes to it and is not too long.
  pub read_journal-append_journal_record :
      (file file' : List ℕ) (r : JournalRecord N T) (result : ReadJournalResult N T)
      → read_journal options (some (file ∷ [])) ≡ ok result
      → append_journal_record file r ≡ ok file'
      → IsReadable options r
      → (p : Progress N T) × (take_lines options 1 [] file empty_reading ≡ ok p)
        × (p.pending ≡ [])
        × (p.line ≡ 1 + newlines file)
        × (p.reading.result ≡ result)
        × (read_journal options (some (file' ∷ []))
            ≡ (accept options r p.line p.reading >>= λ s. ok s.result))
  unfolding append_journal_record
  read_journal-append_journal_record file file' r result h a i =
      let (q, l) = lines_of file result h in
      let (encoded, k, b) = >>=-eq-ok (encode_journal_record r) _ a in
      let (bytes, e, same) = encode_journal_record-ok r encoded k in
      elim (Bool-cases (is_torn file)) [
        | inl torn ↦ absurd (ground (arith, rw torn at b))
        | inr whole ↦
            let l' =
              l
              ∙ ap (λ left. ok (record q { pending = left }))
                  (take_lines-whole file empty_reading q whole l) in
            (
              q,
              l,
              take_lines-whole file empty_reading q whole l,
              take_lines-line 1 [] file empty_reading q l,
              ok-injective (sym (read_journal-of_lines file q.line (ok q.reading) l') ∙ h),
              subst
                  (λ f.
                    read_journal options (some (f ∷ []))
                    ≡ (accept options r q.line q.reading >>= λ s. ok s.result))
                  (ap (λ x. file ++ x) same ∙ ok-injective (rw whole at b))
                  (read_journal-of_lines (file ++ (bytes ++ 10 ∷ [])) (suc q.line)
                    (accept options r q.line q.reading) (appended file bytes r q i e l')),
            )
      ]

  -- The line after some records.
  abbrev line_after : ℕ → List (JournalRecord N T) → ℕ
  line_after line [] = line
  line_after line (r ∷ rs) = line_after (suc line) rs

  take_lines-rewritten :
      (rs : List (JournalRecord N T)) (file : List ℕ) (line : ℕ) (reading : Reading N T)
      → rewrite_journal rs ≡ ok file
      → All (IsReadable options) rs
      → take_lines options line [] file reading ≡ (
          accept_all line rs reading >>= λ s.
          ok (record { line = line_after line rs; pending = []; reading = s }))
  unfolding rewrite_journal take_lines
  take_lines-rewritten [] file line reading h i =
      subst
        (λ f.
          take_lines options line [] f reading
          ≡ ok (record { line = line; pending = []; reading = reading }))
        (ok-injective h) refl
  take_lines-rewritten (r ∷ rs) file line reading h (i, is) =
      let (encoded, k, l) = >>=-eq-ok (encode_journal_record r) _ h in
      let (rest, m, n) = >>=-eq-ok (rewrite_journal rs) _ l in
      let (bytes, e, same) = encode_journal_record-ok r encoded k in
      subst
        (λ f. take_lines options line [] f reading ≡ (
          accept_all line (r ∷ rs) reading >>= λ s.
          ok (record { line = line_after (suc line) rs; pending = []; reading = s })))
        (sym (append_assoc bytes (10 ∷ []) rest) ∙ ap (λ x. x ++ rest) same ∙ ok-injective n)
        (take_lines-encoded r bytes rest line reading i e
          ∙ >>=-assoc (accept options r line reading) (λ next. accept_all (suc line) rs next) _ _
              (λ next. take_lines-rewritten rs rest (suc line) next m is))

  -- Reading a journal that was rewritten accepts exactly the records that were written, one after
  -- another on lines of their own: the result holds them, or the error is the one with which the
  -- reader refuses the first of them that it refuses. The encodings have to be lines that decode to
  -- the records and are not too long.
  pub read_journal-rewrite_journal :
      (rs : List (JournalRecord N T)) (file : List ℕ)
      → rewrite_journal rs ≡ ok file
      → All (IsReadable options) rs
      → read_journal options (some (file ∷ []))
        ≡ (accept_all 1 rs empty_reading >>= λ s. ok s.result)
  read_journal-rewrite_journal rs file h i =
      read_journal-of_lines file (line_after 1 rs) (accept_all 1 rs empty_reading)
        (take_lines-rewritten rs file 1 empty_reading h i)

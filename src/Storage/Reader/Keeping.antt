-- ===== src/Storage/Reader/Keeping.antt =====
-- Invariants of readJournal of packages/fold-storage/src/jsonl.ts, and the producer order of what it
-- reads.
use super_brain.Prelude.{
  ℕ, suc, ◌≡◌, refl, sym, ap, ◌∙◌, true, false, none, some, List, [], ◌∷◌, ◌++◌, map, get_or,
  if◌then◌else◌, ok, ◌>>=◌, >>=-eq-ok, passed_guard, ok-injective, ◌==◌, Result-cases, Bool-cases,
  Option-cases, inl, inr, arith,
}
use mathlib.Core.Path.{subst}
use mathlib.Core.List.{append-nil}
use super_brain.Prelude.Text.{Text}
use super_brain.Prelude.Order.{Ordered}
use super_brain.Fold.Json.{Numbers}
use super_brain.Fold.Schema.{FoldEvent}
use super_brain.Fold.Schema.Validity.{Dates}
use super_brain.Fold.Order.{
  FoldLogEntry, Status, has, blocked_by, id_at, set_id_at, admit_event, validate_from,
  validate_producer_order,
}
use super_brain.Storage.Records.{JournalRecord, event_record, checkpoint_record}
use super_brain.Storage.Digest.{Digests}
use super_brain.Storage.Reader.{
  ReadJournalOptions, ReadJournalResult, Reading, Progress, Decoder, JournalDiagnostic,
  empty_reading, accept_event, accept, check_checkpoint, parse_line, take_line, take_lines,
  read_chunks, read_tail, recovers, read_journal, without_carriage_return,
}

module _ {N T : Type 0} ⦃number : Numbers N⦄ ⦃dates : Dates N⦄ ⦃clock : Ordered T⦄
    ⦃digests : Digests N⦄ ⦃decoder : Decoder N T⦄ (options : ReadJournalOptions N)
    (P : Reading N T → Type 0)
    (on_accept : (record' : JournalRecord N T) (line : ℕ) (r r' : Reading N T)
      → accept options record' line r ≡ ok r'
      → P r
      → P r') where
  take_line_keeps :
      (bytes : List ℕ) (line : ℕ) (r r' : Reading N T)
      → take_line options bytes line r ≡ ok r'
      → P r
      → P r'
  unfolding take_line
  take_line_keeps bytes line r r' h p =
      let (_, k) =
        passed_guard _ _
          (parse_line (without_carriage_return bytes) line >>= λ x. accept options x line r) h in
      let (x, _, l) = >>=-eq-ok (parse_line (without_carriage_return bytes) line) _ k in
      on_accept x line r r' l p

  take_lines_keeps :
      (line : ℕ) (line_bytes bytes : List ℕ) (r : Reading N T) (q : Progress N T)
      → take_lines options line line_bytes bytes r ≡ ok q
      → P r
      → P q.reading
  unfolding take_lines
  take_lines_keeps line line_bytes [] r q h p =
      subst (λ (x : Progress N T). P x.reading) (ok-injective h) p
  take_lines_keeps line line_bytes (b ∷ bytes) r q h p = elim (Bool-cases (b == 10)) [
    | inl e ↦
        let (m, k, l) =
          >>=-eq-ok (take_line options line_bytes line r) _ (rw (e, take_lines) at h) in
        take_lines_keeps (suc line) [] bytes m q l (take_line_keeps line_bytes line r m k p)
    | inr e ↦ take_lines_keeps line (line_bytes ++ b ∷ []) bytes r q (rw (e, take_lines) at h) p
  ]

  read_chunks_keeps :
      (chunks : List (List ℕ)) (p q : Progress N T)
      → read_chunks options chunks p ≡ ok q
      → P p.reading
      → P q.reading
  unfolding read_chunks
  read_chunks_keeps [] p q h k = subst (λ (x : Progress N T). P x.reading) (ok-injective h) k
  read_chunks_keeps (chunk ∷ chunks) p q h k =
      let (m, a, b) = >>=-eq-ok (take_lines options p.line [] (p.pending ++ chunk) p.reading) _ h in
      let (_, c) = passed_guard _ _ (read_chunks options chunks m) b in
      read_chunks_keeps chunks m q c
        (take_lines_keeps p.line [] (p.pending ++ chunk) p.reading m a k)

  read_tail_keeps :
      (Q : ReadJournalResult N T → Type 0) (on_result : (r : Reading N T) → P r → Q r.result)
      (on_diagnostics : (r : ReadJournalResult N T) (l : List JournalDiagnostic)
        → Q r
        → Q (record r { diagnostics = l }))
      (p : Progress N T) (result : ReadJournalResult N T)
      → read_tail options p ≡ ok result
      → P p.reading
      → Q result
  unfolding read_tail
  read_tail_keeps Q f g p result h k = go p.pending h
    where
      go :
          (bytes : List ℕ) → read_tail options (record p { pending = bytes }) ≡ ok result → Q result
      go [] h = subst Q (ok-injective h) (f p.reading k)
      go (b ∷ bytes) h =
          elim (Result-cases (
            parse_line (without_carriage_return (b ∷ bytes)) p.line >>= λ r.
            accept options r p.line p.reading)) [
              | inl (reading, q) ↦
                  let (x, _, l) =
                    >>=-eq-ok (parse_line (without_carriage_return (b ∷ bytes)) p.line) _ q in
                  subst Q (ok-injective (rw (q, read_tail) at h))
                    (f reading (on_accept x p.line p.reading reading l k))
              | inr (e, q) ↦ elim (Bool-cases (recovers options e)) [
                | inl c ↦
                    subst Q (ok-injective (rw (q, c, read_tail) at h))
                      (g p.reading.result _ (f p.reading k))
                | inr c ↦ absurd (ground (arith, rw (q, c, read_tail) at h))
              ]
            ]

  pub read_journal_keeps :
      (Q : ReadJournalResult N T → Type 0) (on_result : (r : Reading N T) → P r → Q r.result)
      (on_diagnostics : (r : ReadJournalResult N T) (l : List JournalDiagnostic)
        → Q r
        → Q (record r { diagnostics = l }))
      (start : P empty_reading) (chunks : List (List ℕ)) (result : ReadJournalResult N T)
      → read_journal options (some chunks) ≡ ok result
      → Q result
  unfolding read_journal
  read_journal_keeps Q f g start chunks result h =
      let (q, a, b) = >>=-eq-ok (read_chunks options chunks _) _ h in
      read_tail_keeps Q f g q result b (read_chunks_keeps chunks _ q a start)

module _ {N T : Type 0} ⦃clock : Ordered T⦄ where
  abbrev pub events_of_entries : List (FoldLogEntry N T) → List (FoldEvent N T)
  events_of_entries entries = map (λ e. e.event) entries

  -- The loop of validateProducerOrder over the events read so far has come to where the reader is.
  abbrev IsAligned : Reading N T → Type 0
  IsAligned r =
      (more : List (FoldEvent N T))
      → validate_from ([], []) (events_of_entries r.result.entries ++ more)
        ≡ validate_from (r.seen, r.previous) more

  accept_event-IsAligned :
      (status : Status) (event : FoldEvent N T) (line : ℕ) (r r' : Reading N T)
      → accept_event status event line r ≡ ok r'
      → IsAligned r
      → IsAligned r'
  unfolding accept_event validate_from admit_event
  accept_event-IsAligned status event line r r' h a = elim (Bool-cases (has r.seen event.id)) [
    | inl q ↦ absurd (ground arith)
    | inr q ↦ elim (Option-cases (blocked_by (id_at event.t r.previous) event.id)) [
      | inr (x, b) ↦ absurd (ground arith)
      | inl b ↦ subst IsAligned (ok-injective (rw (q, b, accept_event) at h)) (λ more.
          ap (λ l. validate_from ([], []) l) (moved r.result.entries more)
          ∙ a (event ∷ more)
          ∙ admitted q b more)
    ]
  ]
    where
      moved :
          (entries : List (FoldLogEntry N T)) (more : List (FoldEvent N T))
          → events_of_entries (entries ++ (record { event = event; status = status }) ∷ []) ++ more
            ≡ events_of_entries entries ++ event ∷ more
      moved [] more = refl
      moved (x ∷ xs) more = ap (λ l. x.event ∷ l) (moved xs more)

      admitted :
          has r.seen event.id ≡ false
          → blocked_by (id_at event.t r.previous) event.id ≡ none
          → (more : List (FoldEvent N T))
          → validate_from (r.seen, r.previous) (event ∷ more)
            ≡ validate_from (event.id ∷ r.seen, set_id_at event.t event.id r.previous) more
      admitted q b more = rw (q, b, admit_event) refl

module _ {N T : Type 0} ⦃number : Numbers N⦄ ⦃dates : Dates N⦄ ⦃clock : Ordered T⦄
    ⦃digests : Digests N⦄ ⦃decoder : Decoder N T⦄ where
  accept-IsAligned :
      (options : ReadJournalOptions N) (x : JournalRecord N T) (line : ℕ) (r r' : Reading N T)
      → accept options x line r ≡ ok r'
      → IsAligned r
      → IsAligned r'
  unfolding accept
  accept-IsAligned options (event_record status event) line r r' h a =
      accept_event-IsAligned status event line r r' h a
  accept-IsAligned options (checkpoint_record c) line r r' h a =
      let (_, _, k) =
        >>=-eq-ok
          (if get_or options.verify_checkpoints true
            then check_checkpoint options c line r.result.entries
            else ok tt)
          _ h in
      subst IsAligned (ok-injective k) a

  -- Whatever the chunks of a journal file are, and whether its tail is recovered or not: if it can
  -- be read, validateProducerOrder accepts the events of its entries.
  pub read_journal-ordered :
      (options : ReadJournalOptions N) (chunks : List (List ℕ)) (result : ReadJournalResult N T)
      → read_journal options (some chunks) ≡ ok result
      → validate_producer_order (events_of_entries result.entries) ≡ ok tt
  unfolding validate_producer_order validate_from
  read_journal-ordered options chunks result h =
      read_journal_keeps options IsAligned (accept-IsAligned options)
        (λ res. validate_from ([], []) (events_of_entries res.entries) ≡ ok tt)
        (λ r a.
          ap (λ l. validate_from ([], []) l) (sym (append-nil (events_of_entries r.result.entries)))
          ∙ a []
          ∙ done_all (r.seen, r.previous))
        (λ r l q. q) (λ more. refl) chunks result h
    where
      done_all : (s : List Text × List (T × Text)) → validate_from {N = N} s [] ≡ ok tt
      done_all s = refl

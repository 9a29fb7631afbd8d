-- ===== src/Storage/Reader/Contents.antt =====
-- The result of readJournal of packages/fold-storage/src/jsonl.ts: its entries and checkpoints
-- against its records, and what folding its entries depends on.
use super_brain.Prelude.{
  ℕ, ◌≡◌, ◌≢◌, refl, sym, ap, ◌∙◌, true, false, none, some, List, [], ◌∷◌, ◌++◌, All, get_or,
  if◌then◌else◌, ok, >>=-eq-ok, ok-injective, Bool-cases, Option-cases, inl, inr, arith,
}
use mathlib.Core.Path.{subst}
use mathlib.Core.List.{Permᴰ, append-nil}
use super_brain.Prelude.Text.{Text, text_ordered}
use super_brain.Prelude.Order.{Ordered}
use super_brain.Prelude.Order.Pairs.{pair_ordered}
use super_brain.Prelude.Sort.Laws.{HasDistinctKeys}
use super_brain.Fold.Json.{Numbers}
use super_brain.Fold.Schema.{FoldEvent}
use super_brain.Fold.Schema.Validity.{Dates}
use super_brain.Fold.Order.{FoldLogEntry, Status, has, blocked_by, id_at}
use super_brain.Fold.Order.Sorting.{event_key}
use super_brain.Fold.Order.Producer.{IsProducerOrder, MayFollow, validate_producer_order_iff}
use super_brain.Fold.State.{FoldOptions}
use super_brain.Fold.Engine.{fold}
use super_brain.Fold.Engine.Reordering.{fold_of_perm}
use super_brain.Storage.Records.{FoldCheckpoint, JournalRecord, event_record, checkpoint_record}
use super_brain.Storage.Digest.{Digests}
use super_brain.Storage.Reader.{
  ReadJournalOptions, ReadJournalResult, Reading, Decoder, accept_event, accept, check_checkpoint,
  read_journal,
}
use super_brain.Storage.Reader.Keeping.{events_of_entries, read_journal-ordered, read_journal_keeps}

module _ {N T : Type 0} where
  -- The events of the records with their status, and the checkpoints of the records.
  abbrev pub entries_of : List (JournalRecord N T) → List (FoldLogEntry N T)
  entries_of [] = []
  entries_of (event_record status event ∷ rs) =
      (record { event = event; status = status }) ∷ entries_of rs
  entries_of (checkpoint_record c ∷ rs) = entries_of rs

  abbrev pub checkpoints_of : List (JournalRecord N T) → List (FoldCheckpoint N T)
  checkpoints_of [] = []
  checkpoints_of (event_record status event ∷ rs) = checkpoints_of rs
  checkpoints_of (checkpoint_record c ∷ rs) = c ∷ checkpoints_of rs

  entries_of-append :
      (xs ys : List (JournalRecord N T)) → entries_of (xs ++ ys) ≡ entries_of xs ++ entries_of ys
  entries_of-append [] ys = refl
  entries_of-append (event_record status event ∷ xs) ys =
      ap (λ l. (record { event = event; status = status }) ∷ l) (entries_of-append xs ys)
  entries_of-append (checkpoint_record c ∷ xs) ys = entries_of-append xs ys

  checkpoints_of-append :
      (xs ys : List (JournalRecord N T))
      → checkpoints_of (xs ++ ys) ≡ checkpoints_of xs ++ checkpoints_of ys
  checkpoints_of-append [] ys = refl
  checkpoints_of-append (event_record status event ∷ xs) ys = checkpoints_of-append xs ys
  checkpoints_of-append (checkpoint_record c ∷ xs) ys =
      ap (λ l. c ∷ l) (checkpoints_of-append xs ys)

  abbrev pub IsConsistent : ReadJournalResult N T → Type 0
  IsConsistent r = (r.entries ≡ entries_of r.records) × (r.checkpoints ≡ checkpoints_of r.records)

  module _ ⦃clock : Ordered T⦄ where
    accept_event-IsConsistent :
        (status : Status) (event : FoldEvent N T) (line : ℕ) (r r' : Reading N T)
        → accept_event status event line r ≡ ok r'
        → IsConsistent r.result
        → IsConsistent r'.result
    unfolding accept_event
    accept_event-IsConsistent status event line r r' h (x, y) =
        elim (Bool-cases (has r.seen event.id)) [
          | inl q ↦ absurd (ground arith)
          | inr q ↦ elim (Option-cases (blocked_by (id_at event.t r.previous) event.id)) [
            | inr (z, b) ↦ absurd (ground arith)
            | inl b ↦
                subst (λ (s : Reading N T). IsConsistent s.result)
                  (ok-injective (rw (q, b, accept_event) at h))
                  (
                    ap (λ l. l ++ (record { event = event; status = status }) ∷ []) x
                        ∙ sym (entries_of-append r.result.records (event_record status event ∷ [])),
                    y
                        ∙ sym (append-nil (checkpoints_of r.result.records))
                        ∙ sym (
                            checkpoints_of-append r.result.records
                              (event_record status event ∷ [])),
                  )
          ]
        ]

    distinct_after :
        (x : FoldLogEntry N T) (xs : List (FoldLogEntry N T))
        → All (MayFollow x.event) (events_of_entries xs)
        → All (λ y. event_key x ≢ event_key y) xs
    distinct_after x [] a = tt
    distinct_after x (y ∷ ys) (a, b) =
        ((λ q. a.0 (ap (λ (k : T × Text). k.1) q)), distinct_after x ys b)

    HasDistinctKeys-events_of_entries :
        (xs : List (FoldLogEntry N T))
        → IsProducerOrder (events_of_entries xs)
        → HasDistinctKeys event_key xs
    HasDistinctKeys-events_of_entries [] p = tt
    HasDistinctKeys-events_of_entries (x ∷ xs) (a, p) =
        (distinct_after x xs a, HasDistinctKeys-events_of_entries xs p)

module _ {N T : Type 0} ⦃number : Numbers N⦄ ⦃dates : Dates N⦄ ⦃clock : Ordered T⦄
    ⦃digests : Digests N⦄ ⦃decoder : Decoder N T⦄ where
  accept-IsConsistent :
      (options : ReadJournalOptions N) (x : JournalRecord N T) (line : ℕ) (r r' : Reading N T)
      → accept options x line r ≡ ok r'
      → IsConsistent r.result
      → IsConsistent r'.result
  unfolding accept
  accept-IsConsistent options (event_record status event) line r r' h a =
      accept_event-IsConsistent status event line r r' h a
  accept-IsConsistent options (checkpoint_record c) line r r' h (x, y) =
      let (_, _, k) =
        >>=-eq-ok
          (if get_or options.verify_checkpoints true
            then check_checkpoint options c line r.result.entries
            else ok tt)
          _ h in
      subst (λ (s : Reading N T). IsConsistent s.result) (ok-injective k)
        (
          x
              ∙ sym (append-nil (entries_of r.result.records))
              ∙ sym (entries_of-append r.result.records (checkpoint_record c ∷ [])),
          ap (λ l. l ++ c ∷ []) y
              ∙ sym (checkpoints_of-append r.result.records (checkpoint_record c ∷ [])),
        )

  -- The entries of a journal that is read are exactly the events of its records with their status,
  -- and its checkpoints exactly those of its records, both in the order of the records.
  pub read_journal-IsConsistent :
      (options : ReadJournalOptions N) (chunks : List (List ℕ)) (result : ReadJournalResult N T)
      → read_journal options (some chunks) ≡ ok result
      → IsConsistent result
  read_journal-IsConsistent options chunks result h =
      read_journal_keeps options (λ r. IsConsistent r.result) (accept-IsConsistent options)
        IsConsistent (λ r a. a) (λ r l a. a) (refl, refl) chunks result h

  -- If a journal can be read, folding its entries without a cursor and without the promise that they
  -- are in order gives the same outcome for every order of the entries.
  pub fold-read_journal :
      (options : ReadJournalOptions N) (chunks : List (List ℕ)) (result : ReadJournalResult N T)
      (entries : List (FoldLogEntry N T)) (how : FoldOptions N T)
      → read_journal options (some chunks) ≡ ok result
      → Permᴰ result.entries entries
      → how.cursor ≡ none
      → get_or how.ordered_input false ≡ false
      → fold result.entries how ≡ fold entries how
  fold-read_journal options chunks result entries how h p c o =
      fold_of_perm result.entries entries how p
        (HasDistinctKeys-events_of_entries result.entries (
          (validate_producer_order_iff (events_of_entries result.entries)).0
            (read_journal-ordered options chunks result h)))
        c o

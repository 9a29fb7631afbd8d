-- ===== src/Storage/Reader/Chunks.antt =====
-- The loop over chunks in readJournal of packages/fold-storage/src/jsonl.ts.
use super_brain.Prelude.{
  ℕ, suc, ◌≡◌, refl, sym, ap, ◌∙◌, Bool, true, false, ◌&&◌, some, List, [], ◌∷◌, ◌++◌, concat, ◌==◌,
  ltb, leb, length, Result, ok, err, throw_if, ◌>>=◌, ◌>>◌, >>=-eq-ok, ok-injective, Bool-cases,
  inl, inr, arith,
}
use mathlib.Core.Path.{subst}
use mathlib.Core.List.{append_assoc, append-nil}
use super_brain.Prelude.Order.{Ordered}
use super_brain.Fold.Json.{Numbers}
use super_brain.Fold.Schema.Validity.{Dates}
use super_brain.Storage.Digest.{Digests}
use super_brain.Storage.Reader.{
  ReadError, ReadJournalOptions, Reading, Progress, Decoder, empty_reading, line_too_large,
  journal_error, take_line, take_lines, read_chunks, read_tail, read_journal, max_bytes,
}

-- No stretch of bytes without a newline is longer than `limit`, `size` bytes standing before.
unfoldable pub has_short_lines : (limit size : ℕ) → List ℕ → Bool
has_short_lines limit size [] = leb size limit
has_short_lines limit size (b ∷ bytes) =
    let later = has_short_lines limit 0 bytes in
    let longer = has_short_lines limit (suc size) bytes in
    elim (b == 10) [ true ↦ leb size limit && later | false ↦ longer ]

abbrev pub IsOneLine : List ℕ → Type 0
IsOneLine [] = Unit
IsOneLine (b ∷ bytes) = ((b == 10) ≡ false) × IsOneLine bytes

IsOneLine-snoc :
    (bytes : List ℕ) (b : ℕ) → (b == 10) ≡ false → IsOneLine bytes → IsOneLine (bytes ++ b ∷ [])
IsOneLine-snoc [] b e o = (e, tt)
IsOneLine-snoc (c ∷ bytes) b e (f, o) = (f, IsOneLine-snoc bytes b e o)

length-snoc : (bytes : List ℕ) (b : ℕ) → length (bytes ++ b ∷ []) ≡ suc (length bytes)
length-snoc [] b = refl
length-snoc (c ∷ bytes) b = ap suc (length-snoc bytes b)

short_now :
    (limit size : ℕ) (bytes : List ℕ)
    → has_short_lines limit size bytes ≡ true
    → ltb limit size ≡ false
unfolding has_short_lines
short_now limit size [] h = ground arith
short_now limit size (b ∷ bytes) h = elim (Bool-cases (b == 10)) [
  | inl e ↦ ground arith
  | inr e ↦
      let later = short_now limit (suc size) bytes (rw (e, has_short_lines) at h) in ground arith
]

pub >>=-assoc {ℓ} :
    {E A B C : Type ℓ} (m : Result E A) (f : A → Result E B) (g : B → Result E C)
    (h : A → Result E C)
    → ((a : A) → h a ≡ (f a >>= g))
    → (m >>= h) ≡ ((m >>= f) >>= g)
>>=-assoc (ok a) f g h p = p a
>>=-assoc (err e) f g h p = refl

pub >>=-congr {ℓ} :
    {E A B : Type ℓ} (m : Result E A) (f g : A → Result E B)
    → ((a : A) → m ≡ ok a → f a ≡ g a)
    → (m >>= f) ≡ (m >>= g)
>>=-congr (ok a) f g p = p a refl
>>=-congr (err e) f g p = refl

module _ {N T : Type 0} ⦃number : Numbers N⦄ ⦃dates : Dates N⦄ ⦃clock : Ordered T⦄
    ⦃digests : Digests N⦄ ⦃decoder : Decoder N T⦄ (options : ReadJournalOptions N) where
  pub take_lines-append :
      (line : ℕ) (line_bytes xs ys : List ℕ) (r : Reading N T)
      → take_lines options line line_bytes (xs ++ ys) r ≡ (
          take_lines options line line_bytes xs r >>= λ q.
          take_lines options q.line q.pending ys q.reading)
  unfolding take_lines
  take_lines-append line line_bytes [] ys r = refl
  take_lines-append line line_bytes (x ∷ xs) ys r = elim (Bool-cases (x == 10)) [
    | inl e ↦
        rw (e, take_lines)
          (>>=-assoc (take_line options line_bytes line r) _ _ _
            (λ next. take_lines-append (suc line) [] xs ys next))
    | inr e ↦ rw (e, take_lines) (take_lines-append line (line_bytes ++ x ∷ []) xs ys r)
  ]

  -- Bytes without a newline only make the line longer.
  pub take_lines-one_line :
      (line : ℕ) (line_bytes xs ys : List ℕ) (r : Reading N T)
      → IsOneLine xs
      → take_lines options line line_bytes (xs ++ ys) r
        ≡ take_lines options line (line_bytes ++ xs) ys r
  unfolding take_lines
  take_lines-one_line line line_bytes [] ys r o =
      ap (λ l. take_lines options line l ys r) (sym (append-nil line_bytes))
  take_lines-one_line line line_bytes (x ∷ xs) ys r (e, o) =
      rw (e, take_lines)
        (take_lines-one_line line (line_bytes ++ x ∷ []) xs ys r o
          ∙ ap (λ l. take_lines options line l ys r) (append_assoc line_bytes (x ∷ []) xs))

  -- The bytes left over hold no newline, and the rest of the file still has short lines.
  take_lines-left :
      (limit line : ℕ) (line_bytes xs ys : List ℕ) (r : Reading N T) (q : Progress N T)
      → take_lines options line line_bytes xs r ≡ ok q
      → IsOneLine line_bytes
      → has_short_lines limit (length line_bytes) (xs ++ ys) ≡ true
      → IsOneLine q.pending × (has_short_lines limit (length q.pending) ys ≡ true)
  unfolding take_lines has_short_lines
  take_lines-left limit line line_bytes [] ys r q h o s =
      subst
        (λ (p : Progress N T).
          IsOneLine p.pending × (has_short_lines limit (length p.pending) ys ≡ true))
        (ok-injective h) (o, s)
  take_lines-left limit line line_bytes (x ∷ xs) ys r q h o s = elim (Bool-cases (x == 10)) [
    | inl e ↦
        let (next, _, k) =
          >>=-eq-ok (take_line options line_bytes line r) _ (rw (e, take_lines) at h) in
        take_lines-left limit (suc line) [] xs ys next q k tt
          (ground (arith, rw (e, has_short_lines) at s))
    | inr e ↦
        take_lines-left limit line (line_bytes ++ x ∷ []) xs ys r q (rw (e, take_lines) at h)
          (IsOneLine-snoc line_bytes x e o)
          (rw (length-snoc line_bytes x) (rw (e, has_short_lines) at s))
  ]

  -- Reading chunk by chunk is going through all bytes at once.
  read_chunks-concat :
      (chunks : List (List ℕ)) (p : Progress N T)
      → IsOneLine p.pending
      → has_short_lines (max_bytes options) (length p.pending) (concat chunks) ≡ true
      → read_chunks options chunks p ≡ take_lines options p.line p.pending (concat chunks) p.reading
  unfolding read_chunks take_lines
  read_chunks-concat [] p o s = refl
  read_chunks-concat (chunk ∷ chunks) p o s =
      ap (λ m. m >>= step) (take_lines-one_line p.line [] p.pending chunk p.reading o)
      ∙ >>=-congr (take_lines options p.line p.pending chunk p.reading) _ _ (λ q h.
        let (o', s') =
          take_lines-left (max_bytes options) p.line p.pending chunk (concat chunks) p.reading q h o
            s in
        rw (short_now (max_bytes options) (length q.pending) (concat chunks) s', throw_if)
          (read_chunks-concat chunks q o' s'))
      ∙ sym (take_lines-append p.line p.pending chunk (concat chunks) p.reading)
    where
      step : Progress N T → Result (ReadError T) (Progress N T)
      step q =
          throw_if (ltb (max_bytes options) (length q.pending))
            (journal_error line_too_large q.line)
          >> read_chunks options chunks q

  -- Where the reads cut the file does not matter: two sequences of chunks with the same bytes give
  -- the same result or the same error, if no stretch of the file without a newline is longer than
  -- the largest line.
  pub read_journal-concat :
      (chunks chunks' : List (List ℕ))
      → concat chunks ≡ concat chunks'
      → has_short_lines (max_bytes options) 0 (concat chunks) ≡ true
      → read_journal {T = T} options (some chunks) ≡ read_journal {T = T} options (some chunks')
  unfolding read_journal
  read_journal-concat chunks chunks' e s =
      ap (λ m. m >>= λ p. read_tail options p)
        (read_chunks-concat chunks _ tt s
          ∙ ap (λ bytes. take_lines options 1 [] bytes empty_reading) e
          ∙ sym (
              read_chunks-concat chunks' _ tt
                (subst (λ bytes. has_short_lines (max_bytes options) 0 bytes ≡ true) e s)))

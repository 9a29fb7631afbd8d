-- ===== src/Fold/Engine/Reordering.antt =====
-- fold of packages/fold/src/fold.ts on logs that hold the same entries in another order.
use super_brain.Prelude.{
  ◌≡◌, refl, ap, ◌∙◌, Bool, true, false, none, List, [], ◌∷◌, all, All, get_or, if◌then◌else◌,
  Bool-cases, ok, inl, inr, arith,
}
use mathlib.Core.List.{Permᴰ}
use mathlib.Core.List.Permᴰ as PermD
use super_brain.Prelude.Text.{text_ordered}
use super_brain.Prelude.Order.{Ordered}
use super_brain.Prelude.Order.Pairs.{pair_ordered}
use super_brain.Prelude.Sort.Laws.{HasDistinctKeys}
use super_brain.Fold.Json.{Numbers}
use super_brain.Fold.Schema.Validity.{Dates, is_valid_event}
use super_brain.Fold.Order.{FoldLogEntry, sort_log}
use super_brain.Fold.Order.Sorting.{event_key, sort_log-canonical}
use super_brain.Fold.State.{FoldOptions, Include, canon_and_draft}
use super_brain.Fold.Engine.{
  is_canon, only_canon, included, all_valid, arrange, select_entries, apply_entries, fold,
}

all-perm {ℓ} : {A : Type ℓ} (p : A → Bool) {xs ys : List A} → Permᴰ xs ys → all p xs ≡ all p ys
all-perm p Permᴰ.nil = refl
all-perm p (Permᴰ.cons e q) = rw (e, all-perm p q) refl
all-perm p (Permᴰ.swap e f) = rw (e, f) (ground arith)
all-perm p (Permᴰ.trans q r) = all-perm p q ∙ all-perm p r

module _ {N T : Type 0} where
  only_canon-perm :
      {xs ys : List (FoldLogEntry N T)} → Permᴰ xs ys → Permᴰ (only_canon xs) (only_canon ys)
  unfolding only_canon
  only_canon-perm Permᴰ.nil = Permᴰ.nil
  only_canon-perm (Permᴰ.cons {a} {l₁} {l₂} e q) =
      rw (← e) (keep_one (is_canon a.status) (only_canon-perm q))
    where
      keep_one :
          (b : Bool)
          → Permᴰ (only_canon l₁) (only_canon l₂)
          → Permᴰ
              (if b then a ∷ only_canon l₁ else only_canon l₁)
              (if b then a ∷ only_canon l₂ else only_canon l₂)
      keep_one true q = Permᴰ.cons refl q
      keep_one false q = q
  only_canon-perm (Permᴰ.swap {a} {b} {l} e f) =
      rw (← e, ← f) (keep_two (is_canon a.status) (is_canon b.status))
    where
      keep_two :
          (u v : Bool)
          → Permᴰ
              (if u
                then a ∷ (if v then b ∷ only_canon l else only_canon l)
                else (if v then b ∷ only_canon l else only_canon l))
              (if v
                then b ∷ (if u then a ∷ only_canon l else only_canon l)
                else (if u then a ∷ only_canon l else only_canon l))
      keep_two true true = Permᴰ.swap refl refl
      keep_two true false = PermD.refl _
      keep_two false true = PermD.refl _
      keep_two false false = PermD.refl _
  only_canon-perm (Permᴰ.trans q r) = Permᴰ.trans (only_canon-perm q) (only_canon-perm r)

  All-only_canon :
      (P : FoldLogEntry N T → Type 0) (xs : List (FoldLogEntry N T))
      → All P xs
      → All P (only_canon xs)
  unfolding only_canon
  All-only_canon P [] a = tt
  All-only_canon P (x ∷ xs) (p, a) = elim (Bool-cases (is_canon x.status)) [
    | inl e ↦ rw e (p, All-only_canon P xs a)
    | inr e ↦ rw e (All-only_canon P xs a)
  ]

module _ {N T : Type 0} ⦃clock : Ordered T⦄ where
  HasDistinctKeys-only_canon :
      (xs : List (FoldLogEntry N T))
      → HasDistinctKeys event_key xs
      → HasDistinctKeys event_key (only_canon xs)
  unfolding only_canon
  HasDistinctKeys-only_canon [] d = tt
  HasDistinctKeys-only_canon (x ∷ xs) (a, d) = elim (Bool-cases (is_canon x.status)) [
    | inl e ↦ rw e (All-only_canon _ xs a, HasDistinctKeys-only_canon xs d)
    | inr e ↦ rw e (HasDistinctKeys-only_canon xs d)
  ]

  sort_included :
      (i : Include) {xs ys : List (FoldLogEntry N T)}
      → Permᴰ xs ys
      → HasDistinctKeys event_key xs
      → sort_log (included i xs) ≡ sort_log (included i ys)
  unfolding included
  sort_included canon_and_draft p d = sort_log-canonical p d
  sort_included Include.canon {xs} p d =
      sort_log-canonical (only_canon-perm p) (HasDistinctKeys-only_canon xs d)

module _ {N T : Type 0} ⦃number : Numbers N⦄ ⦃dates : Dates N⦄ ⦃clock : Ordered T⦄ where
  all_valid-perm : {xs ys : List (FoldLogEntry N T)} → Permᴰ xs ys → all_valid xs ≡ all_valid ys
  unfolding all_valid
  all_valid-perm p = all-perm (λ entry. is_valid_event entry.event) p

  arrange_sorted :
      (options : FoldOptions N T) (xs ys : List (FoldLogEntry N T))
      → options.cursor ≡ none
      → get_or options.ordered_input false ≡ false
      → sort_log xs ≡ sort_log ys
      → arrange options xs ≡ arrange options ys
  unfolding arrange
  arrange_sorted options xs ys c o h = rw (c, arrange) (rw o (ap ok h))

  select_entries-perm :
      (options : FoldOptions N T) {xs ys : List (FoldLogEntry N T)}
      → Permᴰ xs ys
      → HasDistinctKeys event_key xs
      → options.cursor ≡ none
      → get_or options.ordered_input false ≡ false
      → select_entries options xs ≡ select_entries options ys
  unfolding select_entries
  select_entries-perm options {xs} {ys} p d c o =
      rw
        (
          all_valid-perm p,
          arrange_sorted options (included options.include xs) (included options.include ys) c o
              (sort_included options.include p d),
        )
        refl

-- Folding without a cursor, and without the promise that the input is in order, does not depend on
-- the order of the log: two logs with the same entries, no two of which share both time and id,
-- give the same outcome, be it a state or an error.
pub fold_of_perm :
    {N T : Type 0} ⦃number : Numbers N⦄ ⦃dates : Dates N⦄ ⦃clock : Ordered T⦄
    (xs ys : List (FoldLogEntry N T)) (options : FoldOptions N T)
    → Permᴰ xs ys
    → HasDistinctKeys event_key xs
    → options.cursor ≡ none
    → get_or options.ordered_input false ≡ false
    → fold xs options ≡ fold ys options
unfolding fold apply_entries
fold_of_perm xs ys options p d c o = rw (select_entries-perm options p d c o, apply_entries) refl

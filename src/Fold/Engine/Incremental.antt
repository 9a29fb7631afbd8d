-- ===== src/Fold/Engine/Incremental.antt =====
-- continueFold of packages/fold/src/fold.ts: "applies an already-ordered append-only suffix to an
-- existing projection".
use super_brain.Prelude.{
  ◌≡◌, refl, sym, ap, ◌∙◌, Bool, true, false, ◌||◌, none, List, [], ◌∷◌, ◌++◌, map, get_or, ok,
  arith,
}
use mathlib.Core.List.{append-nil, map-append}
use super_brain.Prelude.Text.{Text, ◌===◌}
use super_brain.Prelude.Order.{Ordered}
use super_brain.Fold.Json.{Numbers}
use super_brain.Fold.Schema.{FoldEvent}
use super_brain.Fold.Schema.Validity.{Dates}
use super_brain.Fold.Order.{FoldLogEntry, has}
use super_brain.Fold.State.{
  ComponentRegistry, core_component_registry, FoldState, ExistingCreate, error, FoldOptions,
  Include, canon_and_draft, Outcome, done, threw, ◌>>=◌,
}
use super_brain.Fold.Engine.{
  apply_event, apply_events, merge_components, only_canon, included, arrange, select_entries,
  apply_entries, continue_fold,
}
use super_brain.Fold.Engine.History.{events_of, apply_events-Extends}

-- The ids seen after some entries.
abbrev seen_after : {N T : Type 0} → List Text → List (FoldLogEntry N T) → List Text
seen_after seen [] = seen
seen_after seen (x ∷ xs) = seen_after (x.event.id ∷ seen) xs

abbrev ids_of : {N T : Type 0} → List (FoldEvent N T) → List Text
ids_of events = map (λ e. e.id) events

>>=-assoc :
    {N T : Type 0} (o : Outcome N T) (f g h : FoldState N T → Outcome N T)
    → ((m : FoldState N T) → h m ≡ (f m >>= g))
    → (o >>= h) ≡ ((o >>= f) >>= g)
>>=-assoc (done m) f g h p = p m
>>=-assoc (threw z m) f g h p = refl

>>=-congr :
    {N T : Type 0} (o : Outcome N T) (f g : FoldState N T → Outcome N T)
    → ((m : FoldState N T) → o ≡ done m → f m ≡ g m)
    → (o >>= f) ≡ (o >>= g)
>>=-congr (done m) f g p = p m refl
>>=-congr (threw z m) f g p = refl

has-cons :
    (seen seen' : List Text) (j : Text)
    → ((id : Text) → has seen id ≡ has seen' id)
    → (id : Text) → has (j ∷ seen) id ≡ has (j ∷ seen') id
unfolding has
has-cons seen seen' j h id = ap (λ b. (j === id) || b) (h id)

has-middle :
    (j : Text) (xs ys : List Text) (id : Text) → has ((j ∷ xs) ++ ys) id ≡ has (xs ++ j ∷ ys) id
unfolding has
has-middle j [] ys id = refl
has-middle j (x ∷ xs) ys id = ground (arith, has-middle j xs ys id)

module _ {N T : Type 0} ⦃number : Numbers N⦄ (cs : ComponentRegistry N) (e : ExistingCreate)
    (retain : Bool) where
  apply_events-append :
      (seen : List Text) (xs ys : List (FoldLogEntry N T)) (s : FoldState N T)
      → apply_events cs e retain seen (xs ++ ys) s ≡ (
          apply_events cs e retain seen xs s >>= λ m.
          apply_events cs e retain (seen_after seen xs) ys m)
  unfolding apply_events
  apply_events-append seen [] ys s = refl
  apply_events-append seen (x ∷ xs) ys s =
      >>=-assoc (apply_event cs e retain seen x.event s) _ _ _
        (apply_events-append (x.event.id ∷ seen) xs ys)

  -- The ids seen matter only by which ids they hold.
  apply_event-seen :
      (seen seen' : List Text) (event : FoldEvent N T) (s : FoldState N T)
      → has seen event.id ≡ has seen' event.id
      → apply_event cs e retain seen event s ≡ apply_event cs e retain seen' event s
  unfolding apply_event
  apply_event-seen seen seen' event s h = rw h refl

  apply_events-seen :
      (seen seen' : List Text) (xs : List (FoldLogEntry N T)) (s : FoldState N T)
      → ((id : Text) → has seen id ≡ has seen' id)
      → apply_events cs e retain seen xs s ≡ apply_events cs e retain seen' xs s
  unfolding apply_events
  apply_events-seen seen seen' [] s h = refl
  apply_events-seen seen seen' (x ∷ xs) s h =
      rw (apply_event-seen seen seen' x.event s (h x.event.id)) (
        >>=-congr (apply_event cs e retain seen' x.event s) _ _ (λ m q.
          apply_events-seen (x.event.id ∷ seen) (x.event.id ∷ seen') xs m
            (has-cons seen seen' x.event.id h)))

has-seen_after :
    {N T : Type 0} (seen : List Text) (xs : List (FoldLogEntry N T)) (id : Text)
    → has (seen_after seen xs) id ≡ has (seen ++ ids_of (events_of xs)) id
has-seen_after seen [] id = ap (λ l. has l id) (sym (append-nil seen))
has-seen_after seen (x ∷ xs) id =
    has-seen_after (x.event.id ∷ seen) xs id ∙ has-middle x.event.id seen (ids_of (events_of xs)) id

only_canon-append :
    {N T : Type 0} (xs ys : List (FoldLogEntry N T))
    → only_canon (xs ++ ys) ≡ only_canon xs ++ only_canon ys
unfolding only_canon
only_canon-append [] ys = refl
only_canon-append (x ∷ xs) ys = ground (arith, only_canon-append xs ys)

included-append :
    {N T : Type 0} (i : Include) (xs ys : List (FoldLogEntry N T))
    → included i (xs ++ ys) ≡ included i xs ++ included i ys
unfolding included
included-append canon_and_draft xs ys = refl
included-append Include.canon xs ys = only_canon-append xs ys

-- Options under which every included entry is applied as it stands.
pub record IsPlain {N T : Type 0} (options : FoldOptions N T) : Type 0 where
  pub no_cursor : options.cursor ≡ none
  pub ordered : get_or options.ordered_input false ≡ true
  pub validated : get_or options.validated_input false ≡ true
  pub retained : get_or options.retain_applied true ≡ true

module _ {N T : Type 0} ⦃number : Numbers N⦄ ⦃dates : Dates N⦄ ⦃clock : Ordered T⦄
    (options : FoldOptions N T) (plain : IsPlain options) where
  -- What applyEntries does under such options.
  abbrev run : List (FoldLogEntry N T) → FoldState N T → Outcome N T
  run xs s =
      apply_events (merge_components core_component_registry (get_or options.components []))
        (get_or options.existing_create error) true (ids_of s.applied_events)
        (included options.include xs) s

  select_entries-plain :
      (xs : List (FoldLogEntry N T)) → select_entries options xs ≡ ok (included options.include xs)
  unfolding select_entries arrange
  select_entries-plain xs =
      rw (plain.validated) (rw (plain.no_cursor, arrange) (rw plain.ordered refl))

  apply_entries-run :
      (xs : List (FoldLogEntry N T)) (s : FoldState N T) → apply_entries s xs options ≡ run xs s
  unfolding apply_entries
  apply_entries-run xs s = rw (select_entries-plain xs, plain.retained, apply_entries) refl

  seen_matches :
      (xs : List (FoldLogEntry N T)) (s m : FoldState N T)
      → run xs s ≡ done m
      → (id : Text)
      → has (seen_after (ids_of s.applied_events) (included options.include xs)) id
        ≡ has (ids_of m.applied_events) id
  seen_matches xs s m q id =
      let (x, _) = (apply_events-Extends _ _ _ (included options.include xs) s m q).0 in
      has-seen_after (ids_of s.applied_events) (included options.include xs) id
      ∙ ap (λ l. has l id)
          (sym (map-append (λ e. e.id) s.applied_events (events_of (included options.include xs)))
            ∙ ap ids_of (sym x))

  run-append :
      (xs ys : List (FoldLogEntry N T)) (s : FoldState N T)
      → run (xs ++ ys) s ≡ (run xs s >>= λ m. run ys m)
  run-append xs ys s =
      rw (included-append options.include xs ys) (
        apply_events-append _ _ true (ids_of s.applied_events) (included options.include xs)
          (included options.include ys) s)
      ∙ >>=-congr (run xs s) _ _ (λ m q.
        apply_events-seen _ _ true _ _ (included options.include ys) m (seen_matches xs s m q))

  -- With every included entry applied as it stands (input validated before and in order, no cursor)
  -- and what was applied retained, applying a log in one go is the same as applying a first part
  -- and continuing with the rest: the same state, or the same error at the same state.
  pub apply_entries-append :
      (xs ys : List (FoldLogEntry N T)) (s : FoldState N T)
      → apply_entries s (xs ++ ys) options
        ≡ (apply_entries s xs options >>= λ m. continue_fold m ys options)
  unfolding continue_fold
  apply_entries-append xs ys s =
      apply_entries-run (xs ++ ys) s
      ∙ run-append xs ys s
      ∙ sym (>>=-run (apply_entries s xs options) (run xs s) (apply_entries-run xs s))
    where
      >>=-run :
          (o o' : Outcome N T)
          → o ≡ o'
          → (o >>= λ m. apply_entries m ys options) ≡ (o' >>= λ m. run ys m)
      >>=-run o o' q =
          ap (λ x. x >>= λ m. apply_entries m ys options) q
          ∙ >>=-congr o' _ _ (λ m _. apply_entries-run ys m)

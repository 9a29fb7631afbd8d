-- ===== src/Fold/Engine/History.antt =====
-- appliedEvents and appliedChanges of packages/fold/src/fold.ts.
use super_brain.Prelude.{
  ℕ, suc, ◌≡◌, sym, ap, ◌∙◌, true, false, Option, none, some, List, [], ◌∷◌, ◌++◌, map, get_or,
  Result-cases, ok, inl, inr, arith,
}
use mathlib.Core.List.{append_assoc, append-nil}
use mathlib.Core.Path.{subst}
use super_brain.Prelude.Text.{Text}
use super_brain.Prelude.Dict.{Dict, get}
use super_brain.Prelude.Order.{Ordered}
use super_brain.Fold.Json.{Json, Numbers, num}
use super_brain.Fold.Schema.{
  FoldEvent, Change, Assertion, create, adjust, link, unlink, merge, Target,
}
use super_brain.Fold.Schema.Validity.{Dates}
use super_brain.Fold.Order.{FoldLogEntry, has}
use super_brain.Fold.State.{
  ComponentRegistry, ComponentRule, FoldState, FoldNode, empty_state, ExistingCreate, error,
  replace, FoldOptions, AppliedChange, done, diagnose_before,
}
use super_brain.Fold.Apply.{
  replace_node, write_node, create_over, destroy_over, write_over, adjust_over, merge_nodes,
  apply_assertion, apply_change,
}
use super_brain.Fold.Apply.Frame.{done-injective}
use super_brain.Fold.Engine.{
  apply_changes, apply_event, apply_events, select_entries, apply_entries, fold,
}
use super_brain.Fold.Engine.Invariant.{>>=-eq-done, apply_event-done}

module _ {N T : Type 0} where
  -- The two states record the same changes and events.
  abbrev pub SameHistory : FoldState N T → FoldState N T → Type 0
  SameHistory s s' =
      (s'.applied_events ≡ s.applied_events) × (s'.applied_changes ≡ s.applied_changes)

  create_over-SameHistory :
      (id : Text) (i : ℕ) (subject kind : Text) (after : Dict (Json N)) (existing : ExistingCreate)
      (current : Option (FoldNode N)) (s s' : FoldState N T)
      → create_over id i subject kind after existing current s ≡ done s'
      → SameHistory s s'
  unfolding create_over write_node replace_node
  create_over-SameHistory id i subject kind after existing none s s' h = ground arith
  create_over-SameHistory id i subject kind after error (some current) s s' h = ground arith
  create_over-SameHistory id i subject kind after replace (some current) s s' h = ground arith

  merge_nodes-SameHistory :
      (subject object : Text) (s s' : FoldState N T)
      → merge_nodes subject object s ≡ done s'
      → SameHistory s s'
  unfolding merge_nodes
  merge_nodes-SameHistory subject object s s' h = ground arith

module _ {N T : Type 0} ⦃number : Numbers N⦄ where
  diagnose_before-SameHistory :
      (s : FoldState N T) (id : Text) (i : ℕ) (actual : Option (Json N)) (expected : Json N)
      → SameHistory s (diagnose_before s id i actual expected)
  unfolding diagnose_before
  diagnose_before-SameHistory s id i actual expected = ground arith

  adjust_over-SameHistory :
      (id : Text) (i : ℕ) (key : Text) (t : Target) (before amount : N)
      (rule : Option (ComponentRule N)) (current : Json N) (s s' : FoldState N T)
      → adjust_over id i key t before amount rule current s ≡ done s'
      → SameHistory s s'
  unfolding adjust_over
  adjust_over-SameHistory id i key t before amount rule (num c) s s' h =
      ground (arith, diagnose_before-SameHistory s id i (some (num c)) (num before))
  adjust_over-SameHistory id i key t before amount rule _ s s' h = cc

  apply_assertion-SameHistory :
      (id : Text) (i : ℕ) (components : ComponentRegistry N) (existing : ExistingCreate)
      (a : Assertion N) (s s' : FoldState N T)
      → apply_assertion id i components existing a s ≡ done s'
      → SameHistory s s'
  unfolding apply_assertion write_over destroy_over
  apply_assertion-SameHistory id i cs e (create subject kind after) s s' h =
      create_over-SameHistory id i subject kind after e (get subject s.nodes) s s' h
  apply_assertion-SameHistory id i cs e (adjust t before after amount) s s' h =
      adjust_over-SameHistory id i _ t before amount (get t.component cs) _ s s' h
  apply_assertion-SameHistory id i cs e (merge subject object before) s s' h =
      merge_nodes-SameHistory subject object s s' h
  apply_assertion-SameHistory id i cs e (link x) s s' h = ground arith
  apply_assertion-SameHistory id i cs e (unlink x) s s' h = ground arith
  apply_assertion-SameHistory id i cs e a s s' h =
      subst (SameHistory s) (done-injective h) (diagnose_before-SameHistory s id i _ _)

-- The changes of an event with their places, from place `i` on.
abbrev pub numbered : {N : Type 0} → Text → ℕ → List (Change N) → List (AppliedChange N)
numbered id i [] = []
numbered id i (c ∷ cs) =
    (record { event_id = id; change_index = i; change = c }) ∷ numbered id (suc i) cs

-- All changes of the entries, in order.
abbrev pub changes_of : {N T : Type 0} → List (FoldLogEntry N T) → List (AppliedChange N)
changes_of [] = []
changes_of (x ∷ xs) = numbered x.event.id 0 x.event.changes ++ changes_of xs

abbrev pub events_of : {N T : Type 0} → List (FoldLogEntry N T) → List (FoldEvent N T)
events_of entries = map (λ entry. entry.event) entries

-- No id of the entries is in the list or occurs twice.
abbrev pub HasNewIds : {N T : Type 0} → List Text → List (FoldLogEntry N T) → Type 0
HasNewIds seen [] = Unit
HasNewIds seen (x ∷ xs) = (has seen x.event.id ≡ false) × HasNewIds (x.event.id ∷ seen) xs

module _ {N T : Type 0} ⦃number : Numbers N⦄ (cs : ComponentRegistry N) (e : ExistingCreate) where
  -- The second state records these events and changes more than the first.
  abbrev pub Extends :
      FoldState N T → List (FoldEvent N T) → List (AppliedChange N) → FoldState N T → Type 0
  Extends s events changes s' =
      (s'.applied_events ≡ s.applied_events ++ events)
      × (s'.applied_changes ≡ s.applied_changes ++ changes)

  Extends-trans :
      (s m s' : FoldState N T) (xs ys : List (FoldEvent N T)) (as' bs : List (AppliedChange N))
      → Extends s xs as' m
      → Extends m ys bs s'
      → Extends s (xs ++ ys) (as' ++ bs) s'
  Extends-trans s m s' xs ys as' bs (x, a) (y, b) = (
    y ∙ ap (λ l. l ++ ys) x ∙ append_assoc s.applied_events xs ys,
    b ∙ ap (λ l. l ++ bs) a ∙ append_assoc s.applied_changes as' bs,
  )

  apply_change-Extends :
      (id : Text) (i : ℕ) (c : Change N) (s m : FoldState N T)
      → apply_change id i cs e true c s ≡ done m
      → Extends s [] ((record { event_id = id; change_index = i; change = c }) ∷ []) m
  unfolding apply_change
  apply_change-Extends id i c s m h =
      let (a, b, k) = >>=-eq-done (apply_assertion id i cs e c.assertion s) _ h in
      let (x, y) = apply_assertion-SameHistory id i cs e c.assertion s a b in
      subst (Extends s [] ((record { event_id = id; change_index = i; change = c }) ∷ []))
        (done-injective k)
        (
          x ∙ sym (append-nil s.applied_events),
          ap (λ l. l ++ (record { event_id = id; change_index = i; change = c }) ∷ []) y,
        )

  apply_changes-Extends :
      (id : Text) (i : ℕ) (changes : List (Change N)) (s s' : FoldState N T)
      → apply_changes id i cs e true changes s ≡ done s'
      → Extends s [] (numbered id i changes) s'
  unfolding apply_changes
  apply_changes-Extends id i [] s s' h =
      subst (Extends s [] []) (done-injective h)
        (sym (append-nil s.applied_events), sym (append-nil s.applied_changes))
  apply_changes-Extends id i (c ∷ changes) s s' h =
      let (m, q, r) = >>=-eq-done (apply_change id i cs e true c s) _ h in
      Extends-trans s m s' [] [] (_ ∷ []) (numbered id (suc i) changes)
        (apply_change-Extends id i c s m q) (apply_changes-Extends id (suc i) changes m s' r)

  apply_event-Extends :
      (seen : List Text) (event : FoldEvent N T) (s s' : FoldState N T)
      → apply_event cs e true seen event s ≡ done s'
      → Extends s (event ∷ []) (numbered event.id 0 event.changes) s'
  apply_event-Extends seen event s s' h =
      let (m, q, r) = (apply_event-done cs e true seen event s h).2 in
      let (x, y) = apply_changes-Extends event.id 0 event.changes s m q in
      subst (Extends s (event ∷ []) (numbered event.id 0 event.changes)) r
        (ap (λ l. l ++ event ∷ []) (x ∙ append-nil s.applied_events), y)

  pub apply_events-Extends :
      (seen : List Text) (entries : List (FoldLogEntry N T)) (s s' : FoldState N T)
      → apply_events cs e true seen entries s ≡ done s'
      → Extends s (events_of entries) (changes_of entries) s' × HasNewIds seen entries
  unfolding apply_events
  apply_events-Extends seen [] s s' h = (
    subst (Extends s [] []) (done-injective h)
        (sym (append-nil s.applied_events), sym (append-nil s.applied_changes)),
    tt,
  )
  apply_events-Extends seen (x ∷ xs) s s' h =
      let (m, q, r) = >>=-eq-done (apply_event cs e true seen x.event s) _ h in
      let (rest, new) = apply_events-Extends (x.event.id ∷ seen) xs m s' r in
      (
        Extends-trans s m s' (x.event ∷ []) (events_of xs) (numbered x.event.id 0 x.event.changes)
            (changes_of xs) (apply_event-Extends seen x.event s m q) rest,
        ((apply_event-done cs e true seen x.event s q).0, new),
      )

-- A fold that succeeds and retains what it applied has selected entries with different ids, and
-- its state records exactly their events, and exactly the changes of those events with their
-- places, in the order of the selection.
pub fold_records :
    {N T : Type 0} ⦃number : Numbers N⦄ ⦃dates : Dates N⦄ ⦃clock : Ordered T⦄
    (input : List (FoldLogEntry N T)) (options : FoldOptions N T) (s : FoldState N T)
    → fold input options ≡ done s
    → get_or options.retain_applied true ≡ true
    → (entries : List (FoldLogEntry N T)) × (select_entries options input ≡ ok entries)
      × HasNewIds [] entries
      × (s.applied_events ≡ events_of entries)
      × (s.applied_changes ≡ changes_of entries)
unfolding fold apply_entries
fold_records input options s h retain = elim (Result-cases (select_entries options input)) [
  | inl (entries, q) ↦
      let ((x, y), new) =
        apply_events-Extends _ _ [] entries empty_state s (rw (q, apply_entries, retain) at h) in
      (entries, q, new, x, y)
  | inr (e, q) ↦ absurd (ground arith)
]

-- ===== src/Fold/Order/Forks.antt =====
-- resolveForkCursor and forkAt of packages/fold/src/order.ts.
use super_brain.Prelude.{
  ◌≡◌, ◌≢◌, ◌↔◌, ◌⊎◌, refl, sym, ap, ◌∙◌, true, false, List, [], ◌∷◌, ◌++◌, Ordering, All, any, ok,
  ok-injective, >>=-eq-ok, Bool-cases, inl, inr, arith,
}
use mathlib.Core.Path.{subst}
use mathlib.Core.List.{Memᴰ, append-nil}
use super_brain.Prelude.Text.{compare_text, eq_of_===, ===_self, text_ordered}
use super_brain.Prelude.Order.{Ordered, is_eq, is_le}
use super_brain.Prelude.Order.Pairs.{pair_ordered}
use super_brain.Prelude.Sort.{IsSorted}
use super_brain.Fold.Order.{
  FoldLogEntry, EventCursor, ForkCursor, at_event, at_time, compare_event_keys,
  compare_event_to_cursor, sort_log, is_at, entries_at, only_match, resolve_fork_cursor, up_to,
  fork_at,
}
use super_brain.Fold.Order.Sorting.{compare_entries, sort_log-IsSorted_perm}

module _ {N T : Type 0} ⦃clock : Ordered T⦄ where
  abbrev IsPassed : EventCursor T → FoldLogEntry N T → Type 0
  IsPassed cursor entry = is_le (compare_event_to_cursor entry.event cursor) ≡ false

  -- The entry is earlier than the cursor, or at its time with an id that is not greater.
  abbrev pub IsWithin : EventCursor T → FoldLogEntry N T → Type 0
  IsWithin cursor entry =
      (clock.cmp entry.event.t cursor.t ≡ Ordering.lt)
      ⊎ ((entry.event.t ≡ cursor.t) × (is_le (compare_text entry.event.id cursor.event_id) ≡ true))

  -- The entry is later than the cursor, or at its time with a greater id.
  abbrev pub IsBeyond : EventCursor T → FoldLogEntry N T → Type 0
  IsBeyond cursor entry =
      (clock.cmp entry.event.t cursor.t ≡ Ordering.gt)
      ⊎ ((entry.event.t ≡ cursor.t) × (compare_text entry.event.id cursor.event_id ≡ Ordering.gt))

  IsWithin-of_le :
      (cursor : EventCursor T) (x : FoldLogEntry N T)
      → is_le (compare_event_to_cursor x.event cursor) ≡ true
      → IsWithin cursor x
  unfolding compare_event_to_cursor
  IsWithin-of_le cursor x h = ground (arith, clock.eq_of_cmp x.event.t cursor.t)

  IsBeyond-IsPassed :
      (cursor : EventCursor T) (x : FoldLogEntry N T) → IsPassed cursor x → IsBeyond cursor x
  unfolding compare_event_to_cursor
  IsBeyond-IsPassed cursor x h = ground (arith, clock.eq_of_cmp x.event.t cursor.t)

  -- A log cut in two at the cursor.
  pub record Cut (cursor : EventCursor T) (log front : List (FoldLogEntry N T)) : Type 0 where
    pub rest : List (FoldLogEntry N T)
    pub whole : log ≡ front ++ rest
    pub within : All (IsWithin cursor) front
    pub beyond : All (IsBeyond cursor) rest

  All-IsBeyond :
      (cursor : EventCursor T) (xs : List (FoldLogEntry N T))
      → All (IsPassed cursor) xs
      → All (IsBeyond cursor) xs
  All-IsBeyond cursor [] a = tt
  All-IsBeyond cursor (x ∷ xs) (p, a) = (IsBeyond-IsPassed cursor x p, All-IsBeyond cursor xs a)

  IsPassed-of_le :
      (cursor : EventCursor T) (x y : FoldLogEntry N T)
      → is_le (compare_entries x y) ≡ true
      → IsPassed cursor x
      → IsPassed cursor y
  unfolding compare_event_keys compare_event_to_cursor
  IsPassed-of_le cursor x y h b = ground (
    arith,
    clock.cmp_trans x.event.t y.event.t cursor.t,
    clock.eq_of_cmp x.event.t y.event.t,
    clock.eq_of_cmp y.event.t cursor.t,
    clock.eq_of_cmp x.event.t cursor.t,
    text_ordered.cmp_trans x.event.id y.event.id cursor.event_id,
    text_ordered.eq_of_cmp x.event.id y.event.id,
    text_ordered.eq_of_cmp y.event.id cursor.event_id,
  )

  up_to-IsPassed :
      (cursor : EventCursor T) (x : FoldLogEntry N T) (xs : List (FoldLogEntry N T))
      → IsPassed cursor x
      → All (λ y. is_le (compare_entries x y) ≡ true) xs
      → (up_to cursor xs ≡ []) × All (IsPassed cursor) xs
  unfolding up_to
  up_to-IsPassed cursor x [] b a = (refl, tt)
  up_to-IsPassed cursor x (y ∷ ys) b (h, a) =
      let c = IsPassed-of_le cursor x y h b in
      let (none_left, all_beyond) = up_to-IsPassed cursor x ys b a in
      (rw c none_left, (c, all_beyond))

  up_to-Cut :
      (cursor : EventCursor T) (log : List (FoldLogEntry N T))
      → IsSorted compare_entries log
      → Cut cursor log (up_to cursor log)
  unfolding up_to
  up_to-Cut cursor [] s = record { rest = []; whole = refl; within = tt; beyond = tt }
  up_to-Cut cursor (x ∷ xs) (a, s) =
      elim (Bool-cases (is_le (compare_event_to_cursor x.event cursor))) [
        | inl w ↦
            let c = up_to-Cut cursor xs s in
            rw w (record {
              rest = c.rest;
              whole = ap (λ l. x ∷ l) c.whole;
              within = (IsWithin-of_le cursor x w, c.within);
              beyond = c.beyond;
            })
        | inr b ↦
            let (nothing, all_beyond) = up_to-IsPassed cursor x xs b a in
            rw (b, nothing)
              (record {
                rest = x ∷ xs;
                whole = refl;
                within = tt;
                beyond = All-IsBeyond cursor (x ∷ xs) (b, all_beyond);
              })
      ]

  -- A fork that succeeds has a cursor that the log resolves, and is the sorted log up to it: every
  -- entry of the fork is earlier than the cursor or at its time with an id that is not greater,
  -- every entry left out is later or at its time with a greater id, and the two parts in this order
  -- are the sorted log.
  pub fork_at-Cut :
      (entries : List (FoldLogEntry N T)) (cursor : ForkCursor T) (front : List (FoldLogEntry N T))
      → fork_at entries cursor ≡ ok front
      → (resolved : EventCursor T) × (resolve_fork_cursor entries cursor ≡ ok resolved)
        × Cut resolved (sort_log entries) front
  unfolding fork_at
  fork_at-Cut entries cursor front h =
      let (c, resolved, cut) = >>=-eq-ok (resolve_fork_cursor entries cursor) _ h in
      let same : up_to c (sort_log entries) ≡ front = cc in
      (
        c,
        resolved,
        subst (Cut c (sort_log entries)) same
            (up_to-Cut c (sort_log entries) (sort_log-IsSorted_perm entries).1),
      )

  -- The key of `c` is that of an entry of the log.
  abbrev pub Identifies : EventCursor T → List (FoldLogEntry N T) → Type 0
  Identifies c entries =
      (entry : FoldLogEntry N T) × Memᴰ entry entries
      × (entry.event.t ≡ c.t)
      × (entry.event.id ≡ c.event_id)

  -- `x` is the one entry of the log at the time.
  pub record IsOnlyAt (t : T) (x : FoldLogEntry N T) (log : List (FoldLogEntry N T)) : Type 0 where
    pub before : List (FoldLogEntry N T)
    pub after : List (FoldLogEntry N T)
    pub whole : log ≡ before ++ x ∷ after
    pub at_the_time : x.event.t ≡ t
    pub none_before : All (λ y. y.event.t ≢ t) before
    pub none_after : All (λ y. y.event.t ≢ t) after

  any-is_at :
      (c : EventCursor T) (entries : List (FoldLogEntry N T))
      → any (is_at c) entries ≡ true
      → Identifies c entries
  unfolding is_at
  any-is_at c [] h = cc
  any-is_at c (x ∷ xs) h = elim (Bool-cases (is_at c x)) [
    | inl e ↦ (
      x,
      Memᴰ.head refl,
      clock.eq_of_cmp x.event.t c.t (ground arith),
      eq_of_=== x.event.id c.event_id (ground arith),
    )
    | inr e ↦ let (entry, m, t, i) = any-is_at c xs (ground arith) in (entry, Memᴰ.tail m, t, i)
  ]

  is_at_of_eq :
      (c : EventCursor T) (x : FoldLogEntry N T)
      → x.event.t ≡ c.t
      → x.event.id ≡ c.event_id
      → is_at c x ≡ true
  unfolding is_at
  is_at_of_eq c x t i = rw (t, i, clock.cmp_self c.t, ===_self c.event_id) refl

  any_of_Memᴰ :
      (c : EventCursor T) {x : FoldLogEntry N T} {entries : List (FoldLogEntry N T)}
      → Memᴰ x entries
      → is_at c x ≡ true
      → any (is_at c) entries ≡ true
  any_of_Memᴰ c (Memᴰ.head e) h = rw (← e, h) refl
  any_of_Memᴰ c (Memᴰ.tail m) h = ground (arith, any_of_Memᴰ c m h)

  entries_at-head :
      (t : T) (entries : List (FoldLogEntry N T)) (x : FoldLogEntry N T)
      (xs : List (FoldLogEntry N T))
      → entries_at t entries ≡ x ∷ xs
      → Memᴰ x entries × (x.event.t ≡ t)
  unfolding entries_at
  entries_at-head t [] x xs h = cc
  entries_at-head t (y ∷ ys) x xs h = elim (Bool-cases (is_eq (clock.cmp y.event.t t))) [
    | inl e ↦
        let same : y ≡ x = ground arith in
        (Memᴰ.head (sym same), rw (← same) (clock.eq_of_cmp y.event.t t (ground arith)))
    | inr e ↦ let (m, q) = entries_at-head t ys x xs (ground arith) in (Memᴰ.tail m, q)
  ]

  only_match-Identifies :
      (t : T) (entries matches : List (FoldLogEntry N T)) (c : EventCursor T)
      → entries_at t entries ≡ matches
      → only_match t matches ≡ ok c
      → Identifies c entries
  unfolding only_match
  only_match-Identifies t entries [] c e h = cc
  only_match-Identifies t entries (x ∷ []) c e h =
      let (m, q) = entries_at-head t entries x [] e in (x, m, q ∙ (ground arith), ground arith)
  only_match-Identifies t entries (x ∷ y ∷ ys) c e h = cc

  -- A cursor that resolves, be it an event's key or a bare time, has the time and id of an entry
  -- of the log.
  pub resolve_fork_cursor-Identifies :
      (entries : List (FoldLogEntry N T)) (cursor : ForkCursor T) (c : EventCursor T)
      → resolve_fork_cursor entries cursor ≡ ok c
      → Identifies c entries
  unfolding resolve_fork_cursor
  resolve_fork_cursor-Identifies entries (at_event k) c h =
      elim (Bool-cases (any (is_at k) entries)) [
        | inl e ↦ let same : k ≡ c = ground arith in rw (← same) (any-is_at k entries e)
        | inr e ↦ absurd (ground arith)
      ]
  resolve_fork_cursor-Identifies entries (at_time t) c h =
      only_match-Identifies t entries (entries_at t entries) c refl h

  not_at : (t : T) (y : FoldLogEntry N T) → is_eq (clock.cmp y.event.t t) ≡ false → y.event.t ≢ t
  not_at t y e q = absurd (ground (arith, ap (λ s. clock.cmp s t) q, clock.cmp_self t))

  entries_at-here :
      (t : T) (x : FoldLogEntry N T) (xs : List (FoldLogEntry N T))
      → x.event.t ≡ t
      → entries_at t (x ∷ xs) ≡ x ∷ entries_at t xs
  unfolding entries_at
  entries_at-here t x xs e =
      let same : is_eq (clock.cmp x.event.t t) ≡ true =
        ap is_eq (ap (λ s. clock.cmp s t) e ∙ clock.cmp_self t) in
      rw same refl

  entries_at-none :
      (t : T) (entries : List (FoldLogEntry N T))
      → entries_at t entries ≡ []
      → All (λ y. y.event.t ≢ t) entries
  unfolding entries_at
  entries_at-none t [] h = tt
  entries_at-none t (y ∷ ys) h = elim (Bool-cases (is_eq (clock.cmp y.event.t t))) [
    | inl e ↦ absurd (ground (arith, rw (e, entries_at) at h))
    | inr e ↦ (not_at t y e, entries_at-none t ys (rw (e, entries_at) at h))
  ]

  entries_at-one :
      (t : T) (entries : List (FoldLogEntry N T)) (x : FoldLogEntry N T)
      → entries_at t entries ≡ x ∷ []
      → IsOnlyAt t x entries
  unfolding entries_at
  entries_at-one t [] x h = cc
  entries_at-one t (y ∷ ys) x h = elim (Bool-cases (is_eq (clock.cmp y.event.t t))) [
    | inl e ↦
        let same : y ≡ x = ground arith in
        record {
          before = [];
          after = ys;
          whole = ap (λ z. z ∷ ys) same;
          at_the_time = rw (← same) (clock.eq_of_cmp y.event.t t (ground arith));
          none_before = tt;
          none_after = entries_at-none t ys (ground arith);
        }
    | inr e ↦
        let rest = entries_at-one t ys x (rw (e, entries_at) at h) in
        record {
          before = y ∷ rest.before;
          after = rest.after;
          whole = ap (λ l. y ∷ l) rest.whole;
          at_the_time = rest.at_the_time;
          none_before = (not_at t y e, rest.none_before);
          none_after = rest.none_after;
        }
  ]

  entries_at-skip :
      (t : T) (xs ys : List (FoldLogEntry N T))
      → All (λ y. y.event.t ≢ t) xs
      → entries_at t (xs ++ ys) ≡ entries_at t ys
  unfolding entries_at
  entries_at-skip t [] ys a = refl
  entries_at-skip t (x ∷ xs) ys (n, a) = elim (Bool-cases (is_eq (clock.cmp x.event.t t))) [
    | inl e ↦ absurd (n (clock.eq_of_cmp x.event.t t (ground arith)))
    | inr e ↦ rw e (entries_at-skip t xs ys a)
  ]

  entries_at-only :
      (t : T) (entries : List (FoldLogEntry N T)) (x : FoldLogEntry N T)
      → IsOnlyAt t x entries
      → entries_at t entries ≡ x ∷ []
  unfolding entries_at
  entries_at-only t entries x o =
      ap (entries_at t) o.whole
      ∙ entries_at-skip t o.before (x ∷ o.after) o.none_before
      ∙ entries_at-here t x o.after o.at_the_time
      ∙ ap (λ l. x ∷ l)
          (ap (entries_at t) (sym (append-nil o.after)) ∙ entries_at-skip t o.after [] o.none_after)

  only_match-ok :
      (t : T) (entries matches : List (FoldLogEntry N T)) (c : EventCursor T)
      → entries_at t entries ≡ matches
      → only_match t matches ≡ ok c
      → (x : FoldLogEntry N T) × IsOnlyAt t x entries
        × (record { t = t; event_id = x.event.id } ≡ c)
  unfolding only_match
  only_match-ok t entries [] c e h = cc
  only_match-ok t entries (x ∷ []) c e h = (x, entries_at-one t entries x e, ok-injective h)
  only_match-ok t entries (x ∷ y ∷ ys) c e h = cc

  -- A bare time resolves to a key exactly when the key is that time with the id of an entry of the
  -- log at that time, and no other entry of the log is at that time. An event's key resolves to a
  -- key exactly when this is the same key and an entry has its time and id.
  pub resolve_fork_cursor-ok_iff :
      (entries : List (FoldLogEntry N T)) (t : T) (k c : EventCursor T)
      → ((resolve_fork_cursor entries (at_time t) ≡ ok c) ↔ (
          (x : FoldLogEntry N T) × IsOnlyAt t x entries
          × (record { t = t; event_id = x.event.id } ≡ c)))
        × ((resolve_fork_cursor entries (at_event k) ≡ ok c) ↔ ((k ≡ c) × Identifies k entries))
  unfolding resolve_fork_cursor only_match
  resolve_fork_cursor-ok_iff entries t k c = (
    (
      only_match-ok t entries (entries_at t entries) c refl,
      λ (x, o, q). rw (entries_at-only t entries x o) (ap ok q),
    ),
    (
      λ h. elim (Bool-cases (any (is_at k) entries)) [
        | inl e ↦ (ground arith, any-is_at k entries e)
        | inr e ↦ absurd (ground arith)
      ],
      λ (q, (x, m, s, i)). rw (any_of_Memᴰ k m (is_at_of_eq k x s i)) (ap ok q),
    ),
  )

-- ===== src/Fold/Sensors/Laws.antt =====
-- sensorStatusAt of packages/fold/src/lifecycle.ts and projectChanges of
-- packages/fold/src/projection.ts.
use super_brain.Prelude.{
  ℕ, suc, ◌≡◌, refl, sym, ap, ◌∙◌, true, false, Option, none, some, List, [], ◌∷◌, length, last?,
  Bool-cases, Option-cases, ◌⊎◌, inl, inr, arith,
}
use mathlib.Core.List.{Memᴰ, Permᴰ}
use super_brain.Prelude.Text.{Text, text_ordered}
use super_brain.Prelude.Order.{Ordered}
use super_brain.Prelude.Order.Pairs.{compare_pair, pair_ordered}
use super_brain.Prelude.Sort.{sort_by, sort_by-perm}
use super_brain.Prelude.Sort.Laws.{HasDistinctKeys, sort_by-canonical}
use super_brain.Fold.Json.{Numbers}
use super_brain.Fold.Schema.{Lifecycle, FoldEvent, Change}
use super_brain.Fold.Schema.Validity.{Dates, is_valid_event}
use super_brain.Fold.Order.{compare_event_keys}
use super_brain.Fold.Sensors.{
  DeclaredStatus, declared, current, lifecycle_of, records_of, lifecycle_events, declared_by,
  last_declared, is_stale, snapshot_of, sensor_status_at, project_from, project_changes,
}
use super_brain.Fold.Sensors.Latest.{
  Memᴰ-perm, lifecycle_of-some, time_and_id, IsLatest, IsLatest-lifecycle_events,
}

module _ {N T : Type 0} where
  -- An event of the list that carries a lifecycle record of the sensor declaring the status.
  abbrev pub Declares : List (FoldEvent N T) → Text → DeclaredStatus → Type 0
  Declares events sensor d =
      (event : FoldEvent N T) × Memᴰ event events
      × ((l : Lifecycle) × (event.lifecycle ≡ some l)
          × (l.sensor ≡ sensor)
          × (declared_by l.phase ≡ some d))

  Declares-tail :
      (x : FoldEvent N T) (xs : List (FoldEvent N T)) (sensor : Text) (d : DeclaredStatus)
      → Declares xs sensor d
      → Declares (x ∷ xs) sensor d
  Declares-tail x xs sensor d (e, m, r) = (e, Memᴰ.tail m, r)

last_declared-cases :
    (so_far : Option DeclaredStatus) (records : List Lifecycle) (d : DeclaredStatus)
    → last_declared so_far records ≡ some d
    → (so_far ≡ some d) ⊎ ((l : Lifecycle) × Memᴰ l records × (declared_by l.phase ≡ some d))
unfolding last_declared
last_declared-cases so_far [] d h = inl h
last_declared-cases so_far (l ∷ records) d h = elim (Option-cases (declared_by l.phase)) [
  | inl q ↦ later (last_declared-cases so_far records d (rw (q, last_declared) at h))
  | inr (x, q) ↦ elim (last_declared-cases (some x) records d (rw (q, last_declared) at h)) [
    | inl e ↦ inr (l, Memᴰ.head refl, q ∙ e)
    | inr (k, m, e) ↦ inr (k, Memᴰ.tail m, e)
  ]
]
  where
    later :
        (so_far ≡ some d) ⊎ ((k : Lifecycle) × Memᴰ k records × (declared_by k.phase ≡ some d))
        → (so_far ≡ some d)
          ⊎ ((k : Lifecycle) × Memᴰ k (l ∷ records) × (declared_by k.phase ≡ some d))
    later (inl e) = inl e
    later (inr (k, m, e)) = inr (k, Memᴰ.tail m, e)

module _ {N T : Type 0} where
  Declares-of_record :
      (events : List (FoldEvent N T)) (sensor : Text) (k : Lifecycle) (d : DeclaredStatus)
      → Memᴰ k (records_of sensor events)
      → declared_by k.phase ≡ some d
      → Declares events sensor d
  unfolding records_of
  Declares-of_record [] sensor k d m e = elim m [ ]
  Declares-of_record (x ∷ xs) sensor k d m e =
      go (lifecycle_of sensor x) refl (λ n. Declares-of_record xs sensor k d n e) m
    where
      go :
          (o : Option Lifecycle)
          → lifecycle_of sensor x ≡ o
          → (Memᴰ k (records_of sensor xs) → Declares xs sensor d)
          → Memᴰ k (elim o [ none ↦ records_of sensor xs | some l ↦ l ∷ records_of sensor xs ])
          → Declares (x ∷ xs) sensor d
      go none q ih m = Declares-tail x xs sensor d (ih m)
      go (some l) q ih (Memᴰ.head r) =
          let (carried, same) = lifecycle_of-some sensor x l q in
          (
            x,
            Memᴰ.head refl,
            (l, carried, same, ap (λ y. declared_by (Lifecycle.phase y)) (sym r) ∙ e),
          )
      go (some l) q ih (Memᴰ.tail m) = Declares-tail x xs sensor d (ih m)

length-project_from :
    {N : Type 0} (i : ℕ) (project : Change N → ℕ → Change N) (cs : List (Change N))
    → length (project_from i project cs) ≡ length cs
unfolding project_from
length-project_from i project [] = refl
length-project_from i project (c ∷ cs) = ap suc (length-project_from (suc i) project cs)

module _ {N : Type 0} ⦃number : Numbers N⦄ ⦃dates : Dates N⦄ where
  -- There is a latest record, and it was observed at most its heartbeat window before `now`.
  abbrev IsFresh : N → Option Lifecycle → Type 0
  IsFresh now latest =
      (l : Lifecycle) × (latest ≡ some l)
      × (number.lt (dates.of_ms l.heartbeat_window_ms)
            (number.sub now (dates.parse_date l.observed_at))
          ≡ false)

module _ {N T : Type 0} ⦃number : Numbers N⦄ ⦃dates : Dates N⦄ ⦃clock : Ordered T⦄ where
  declared_snapshot :
      (events : List (FoldEvent N T)) (sensor : Text) (now : N) (latest : Option Lifecycle)
      (records : List Lifecycle) (d : DeclaredStatus)
      → (snapshot_of sensor now records latest).status ≡ declared d
      → IsFresh now latest
        × ((snapshot_of sensor now records latest).freshness ≡ current)
        × (last_declared none records ≡ some d)
  unfolding snapshot_of is_stale
  declared_snapshot events sensor now none records d h = cc
  declared_snapshot events sensor now (some l) records d h = elim (Bool-cases (is_stale now l)) [
    | inl old ↦ absurd (ground arith)
    | inr fresh ↦ ((l, refl, fresh), ground arith, ground arith)
  ]

  Declares-perm :
      {xs ys : List (FoldEvent N T)} (sensor : Text) (d : DeclaredStatus)
      → Permᴰ xs ys
      → Declares xs sensor d
      → Declares ys sensor d
  Declares-perm sensor d p (e, m, r) = (e, Memᴰ-perm p m, r)

  -- A status other than "unknown" is reported only if an event of the list carries the latest
  -- lifecycle record of the sensor, no event with another one being behind it in time and id, and
  -- that record was observed not more than its heartbeat window before now; and only if an event
  -- of the list carries a lifecycle record of this very sensor whose phase declares that
  -- status. The freshness is then "current".
  pub sensor_status_at_declared :
      (events : List (FoldEvent N T)) (sensor : Text) (now : N) (d : DeclaredStatus)
      → (sensor_status_at events sensor now).status ≡ declared d
      → ((l : Lifecycle) × IsLatest sensor l events
          × (number.lt
                (dates.of_ms l.heartbeat_window_ms)
                (number.sub now (dates.parse_date l.observed_at))
              ≡ false))
        × ((sensor_status_at events sensor now).freshness ≡ current)
        × Declares events sensor d
  unfolding sensor_status_at lifecycle_events
  sensor_status_at_declared events sensor now d h =
      let records = lifecycle_events events sensor in
      let ((l, latest, within), shown, last) =
        declared_snapshot events sensor now (last? records) records d h in
      (
        (l, IsLatest-lifecycle_events sensor l events latest, within),
        shown,
        elim (last_declared-cases none records d last) [
          | inl q ↦ absurd (ground arith)
          | inr (k, m, q) ↦
              Declares-perm sensor d (sort_by-perm compare_event_keys events)
                (Declares-of_record (sort_by compare_event_keys events) sensor k d m q)
        ],
      )

  -- The status of a sensor does not depend on the order in which events arrive, if no two of them
  -- share both time and id.
  pub sensor_status_at-perm :
      {xs ys : List (FoldEvent N T)} (sensor : Text) (now : N)
      → Permᴰ xs ys
      → HasDistinctKeys time_and_id xs
      → sensor_status_at xs sensor now ≡ sensor_status_at ys sensor now
  unfolding sensor_status_at lifecycle_events compare_event_keys compare_pair
  sensor_status_at-perm sensor now p d =
      ap (λ es. snapshot_of sensor now (records_of sensor es) (last? (records_of sensor es)))
        (sort_by-canonical time_and_id p d)

  -- A projection that succeeds gives an event that the schema accepts, that differs from the
  -- original in its changes only, and that has as many of them.
  pub project_changes_keeps :
      (event : FoldEvent N T) (project : Change N → ℕ → Change N) (event' : FoldEvent N T)
      → project_changes event project ≡ some event'
      → (is_valid_event event' ≡ true)
        × (event' ≡ record event { changes = event'.changes })
        × (length event'.changes ≡ length event.changes)
  unfolding project_changes
  project_changes_keeps event project event' h =
      let p = record event { changes = project_from 0 project event.changes } in
      elim (Bool-cases (is_valid_event p)) [
        | inl valid ↦
            let same : p ≡ event' = ground arith in
            (
              ap is_valid_event (sym same) ∙ valid,
              sym same
                  ∙ ap (λ (c : List (Change N)). record event { changes = c })
                      (ap FoldEvent.changes same),
              ap (λ (e : FoldEvent N T). length e.changes) (sym same)
                  ∙ length-project_from 0 project event.changes,
            )
        | inr invalid ↦ absurd (ground arith)
      ]

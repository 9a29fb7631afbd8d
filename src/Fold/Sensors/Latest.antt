-- ===== src/Fold/Sensors/Latest.antt =====
-- Which lifecycle record of a sensor is the latest in packages/fold/src/lifecycle.ts.
use super_brain.Prelude.{
  ◌≡◌, refl, sym, ap, ◌∙◌, true, none, some, List, [], ◌∷◌, Ordering, All, All-perm, last?,
  Bool-cases, Option-cases, ◌⊎◌, inl, inr, arith,
}
use mathlib.Core.Path.{subst}
use mathlib.Core.Option.{some_inj}
use mathlib.Core.List.{Memᴰ, Permᴰ}
use super_brain.Prelude.Text.{Text, compare_text, ◌===◌, text_ordered, eq_of_===}
use super_brain.Prelude.Order.{Ordered, is_le}
use super_brain.Prelude.Order.Pairs.{compare_pair, pair_ordered}
use super_brain.Prelude.Sort.{IsSorted, sort_by, sort_by-perm}
use super_brain.Prelude.Sort.Laws.{sort_by-IsSorted}
use super_brain.Fold.Schema.{Lifecycle, FoldEvent}
use super_brain.Fold.Order.{compare_event_keys}
use super_brain.Fold.Sensors.{lifecycle_of, records_of, lifecycle_events}

pub Memᴰ-perm {ℓ} : {A : Type ℓ} {a : A} {xs ys : List A} → Permᴰ xs ys → Memᴰ a xs → Memᴰ a ys
Memᴰ-perm Permᴰ.nil m = m
Memᴰ-perm (Permᴰ.cons e p) (Memᴰ.head q) = Memᴰ.head (q ∙ e)
Memᴰ-perm (Permᴰ.cons e p) (Memᴰ.tail m) = Memᴰ.tail (Memᴰ-perm p m)
Memᴰ-perm (Permᴰ.swap e f) (Memᴰ.head q) = Memᴰ.tail (Memᴰ.head (q ∙ e))
Memᴰ-perm (Permᴰ.swap e f) (Memᴰ.tail (Memᴰ.head q)) = Memᴰ.head (q ∙ f)
Memᴰ-perm (Permᴰ.swap e f) (Memᴰ.tail (Memᴰ.tail m)) = Memᴰ.tail (Memᴰ.tail m)
Memᴰ-perm (Permᴰ.trans p q) m = Memᴰ-perm q (Memᴰ-perm p m)

module _ {N T : Type 0} where
  pub lifecycle_of-some :
      (sensor : Text) (x : FoldEvent N T) (l : Lifecycle)
      → lifecycle_of sensor x ≡ some l
      → (x.lifecycle ≡ some l) × (l.sensor ≡ sensor)
  unfolding lifecycle_of
  lifecycle_of-some sensor x l h = elim (Option-cases x.lifecycle) [
    | inl q ↦ absurd (ground arith)
    | inr (k, q) ↦ elim (Bool-cases (k.sensor === sensor)) [
      | inl same ↦
          let e : k ≡ l = ground arith in
          (q ∙ ap some e, sym (ap Lifecycle.sensor e) ∙ eq_of_=== k.sensor sensor same)
      | inr other ↦ absurd (ground arith)
    ]
  ]

-- The key by which events are ordered.
abbrev pub time_and_id : {N T : Type 0} → FoldEvent N T → T × Text
time_and_id e = (e.t, e.id)

module _ {N T : Type 0} ⦃clock : Ordered T⦄ where
  -- The event is earlier, or at the same time with an id that is not greater.
  abbrev pub IsUpTo : (e y : FoldEvent N T) → Type 0
  IsUpTo e y =
      (clock.cmp y.t e.t ≡ Ordering.lt) ⊎ ((y.t ≡ e.t) × (is_le (compare_text y.id e.id) ≡ true))

  -- The record of the latest event of the list that carries one of the sensor: no event behind it in
  -- time and id carries another.
  pub record IsLatest (sensor : Text) (l : Lifecycle) (events : List (FoldEvent N T)) : Type 0 where
    pub event : FoldEvent N T
    pub listed : Memᴰ event events
    pub carried : event.lifecycle ≡ some l
    pub same_sensor : l.sensor ≡ sensor
    pub last : All (λ y. (lifecycle_of sensor y ≡ none) ⊎ IsUpTo event y) events

  IsUpTo-of_le : (e y : FoldEvent N T) → is_le (compare_event_keys y e) ≡ true → IsUpTo e y
  unfolding compare_event_keys
  IsUpTo-of_le e y h = ground (arith, clock.eq_of_cmp y.t e.t)

  All_of_Memᴰ :
      (P : FoldEvent N T → Type 0) {e : FoldEvent N T} (xs : List (FoldEvent N T))
      → All P xs
      → Memᴰ e xs
      → P e
  All_of_Memᴰ P [] a m = elim m [ ]
  All_of_Memᴰ P (x ∷ xs) (p, a) (Memᴰ.head q) = subst P (sym q) p
  All_of_Memᴰ P (x ∷ xs) (p, a) (Memᴰ.tail m) = All_of_Memᴰ P xs a m

  compare_event_keys_self : (e : FoldEvent N T) → is_le (compare_event_keys e e) ≡ true
  unfolding compare_event_keys
  compare_event_keys_self e = rw (clock.cmp_self e.t, text_ordered.cmp_self e.id) refl

  records_of-none :
      (sensor : Text) (e : FoldEvent N T) (xs : List (FoldEvent N T))
      → records_of sensor xs ≡ []
      → All (λ y. (lifecycle_of sensor y ≡ none) ⊎ IsUpTo e y) xs
  unfolding records_of
  records_of-none sensor e [] h = tt
  records_of-none sensor e (x ∷ xs) h = elim (Option-cases (lifecycle_of sensor x)) [
    | inl q ↦ (inl q, records_of-none sensor e xs (rw (q, records_of) at h))
    | inr (k, q) ↦ absurd (ground (arith, rw (q, records_of) at h))
  ]

  IsLatest-last :
      (sensor : Text) (l : Lifecycle) (xs : List (FoldEvent N T))
      → IsSorted compare_event_keys xs
      → last? (records_of sensor xs) ≡ some l
      → IsLatest sensor l xs
  unfolding records_of
  IsLatest-last sensor l [] s h = cc
  IsLatest-last sensor l (x ∷ xs) (a, s) h = elim (Option-cases (lifecycle_of sensor x)) [
    | inl q ↦
        let r = IsLatest-last sensor l xs s (rw (q, records_of) at h) in
        record {
          event = r.event;
          listed = Memᴰ.tail r.listed;
          carried = r.carried;
          same_sensor = r.same_sensor;
          last = (inl q, r.last);
        }
    | inr (k, q) ↦
        go k q (IsLatest-last sensor l xs s) (records_of sensor xs) refl (rw (q, records_of) at h)
  ]
    where
      go :
          (k : Lifecycle)
          → lifecycle_of sensor x ≡ some k
          → (last? (records_of sensor xs) ≡ some l → IsLatest sensor l xs)
          → (records : List Lifecycle) → records_of sensor xs ≡ records
          → last? (k ∷ records) ≡ some l
          → IsLatest sensor l (x ∷ xs)
      go k q ih [] e g =
          let (carried, same) = lifecycle_of-some sensor x k q in
          let own : k ≡ l = some_inj.0 g in
          record {
            event = x;
            listed = Memᴰ.head refl;
            carried = carried ∙ g;
            same_sensor = subst (λ y. Lifecycle.sensor y ≡ sensor) own same;
            last =
                (inr (IsUpTo-of_le x x (compare_event_keys_self x)), records_of-none sensor x xs e);
          }
      go k q ih (y ∷ ys) e g =
          let r = ih (ap last? e ∙ g) in
          record {
            event = r.event;
            listed = Memᴰ.tail r.listed;
            carried = r.carried;
            same_sensor = r.same_sensor;
            last = (
              inr (
                  IsUpTo-of_le r.event x
                    (All_of_Memᴰ (λ y. is_le (compare_event_keys x y) ≡ true) xs a r.listed)),
              r.last,
            );
          }

  pub IsLatest-lifecycle_events :
      (sensor : Text) (l : Lifecycle) (events : List (FoldEvent N T))
      → last? (lifecycle_events events sensor) ≡ some l
      → IsLatest sensor l events
  unfolding lifecycle_events compare_event_keys compare_pair
  IsLatest-lifecycle_events sensor l events h =
      let sorted = sort_by compare_event_keys events in
      let r = IsLatest-last sensor l sorted (sort_by-IsSorted time_and_id events) h in
      let p : Permᴰ sorted events = sort_by-perm compare_event_keys events in
      record {
        event = r.event;
        listed = Memᴰ-perm p r.listed;
        carried = r.carried;
        same_sensor = r.same_sensor;
        last = All-perm (λ y. (lifecycle_of sensor y ≡ none) ⊎ IsUpTo r.event y) p r.last;
      }

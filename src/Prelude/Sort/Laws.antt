-- ===== src/Prelude/Sort/Laws.antt =====
-- Sorting by a key of an ordered type: the result is in order, and does not depend on the order of
-- the input where the keys are different from one another.
use Prim.Native.Nat.{Ordering}
use mathlib.Core.Path.{◌≡◌, refl, sym, ap, ◌∙◌}
use mathlib.Core.Logic.{◌≢◌, inl, inr}
use mathlib.Core.Bool.{true, false}
use mathlib.Core.List.{List, [], ◌∷◌, Permᴰ}
use native.Mathlib.Omega.{arith}
use super_brain.Prelude.Tests.{Bool-cases}
use super_brain.Prelude.Lists.{All, All-perm}
use super_brain.Prelude.Order.{Ordered, is_le}
use super_brain.Prelude.Sort.{insert_by, sort_by, IsSorted}

module _ {ℓ κ} {A : Type ℓ} {K : Type κ} ⦃o : Ordered K⦄ (key : A → K) where
  -- The comparator that the key stands for.
  abbrev pub by_key : A → A → Ordering
  by_key x y = o.cmp (key x) (key y)

  -- No two elements have one key.
  abbrev pub HasDistinctKeys : List A → Type (ℓ ⊔ κ)
  HasDistinctKeys [] = Unit
  HasDistinctKeys (x ∷ xs) = All (λ y. key x ≢ key y) xs × HasDistinctKeys xs

  cmp_le_trans :
      (a b c : K) → is_le (o.cmp a b) ≡ true → is_le (o.cmp b c) ≡ true → is_le (o.cmp a c) ≡ true
  cmp_le_trans a b c h k =
      ground (arith, o.cmp_trans a b c, o.eq_of_cmp a b, o.eq_of_cmp b c, o.cmp_self a)

  le_of_not_le : (a b : K) → is_le (o.cmp a b) ≡ false → is_le (o.cmp b a) ≡ true
  le_of_not_le a b h = ground (arith, o.cmp_flip a b)

  All-le_trans :
      (x y : A) (ys : List A)
      → is_le (by_key x y) ≡ true
      → All (λ z. is_le (by_key y z) ≡ true) ys
      → All (λ z. is_le (by_key x z) ≡ true) ys
  All-le_trans x y [] h a = tt
  All-le_trans x y (z ∷ zs) h (p, a) =
      (cmp_le_trans (key x) (key y) (key z) h p, All-le_trans x y zs h a)

  All-insert_by {μ} :
      (P : A → Type μ) (x : A) (ys : List A) → P x → All P ys → All P (insert_by by_key x ys)
  unfolding insert_by
  All-insert_by P x [] p a = (p, tt)
  All-insert_by P x (y ∷ ys) p (q, a) = elim (Bool-cases (is_le (by_key x y))) [
    | inl e ↦ rw e (p, (q, a))
    | inr e ↦ rw e (q, All-insert_by P x ys p a)
  ]

  insert_by-IsSorted :
      (x : A) (ys : List A) → IsSorted by_key ys → IsSorted by_key (insert_by by_key x ys)
  unfolding insert_by
  insert_by-IsSorted x [] s = (tt, tt)
  insert_by-IsSorted x (y ∷ ys) (a, s) = elim (Bool-cases (is_le (by_key x y))) [
    | inl e ↦ rw e ((e, All-le_trans x y ys e a), (a, s))
    | inr e ↦ rw e (
      All-insert_by (λ z. is_le (by_key y z) ≡ true) x ys (le_of_not_le (key x) (key y) e) a,
      insert_by-IsSorted x ys s,
    )
  ]

  pub sort_by-IsSorted : (xs : List A) → IsSorted by_key (sort_by by_key xs)
  unfolding sort_by
  sort_by-IsSorted [] = tt
  sort_by-IsSorted (x ∷ xs) = insert_by-IsSorted x (sort_by by_key xs) (sort_by-IsSorted xs)

  insert_by_comm :
      (x y : A) (zs : List A)
      → key x ≢ key y
      → insert_by by_key x (insert_by by_key y zs) ≡ insert_by by_key y (insert_by by_key x zs)
  unfolding insert_by
  insert_by_comm x y [] ne = ground (arith, o.cmp_flip (key x) (key y), o.eq_of_cmp (key x) (key y))
  insert_by_comm x y (z ∷ zs) ne = ground (
    arith,
    insert_by_comm x y zs,
    o.cmp_flip (key x) (key y),
    o.eq_of_cmp (key x) (key y),
    cmp_le_trans (key x) (key y) (key z),
    cmp_le_trans (key y) (key x) (key z),
  )

  HasDistinctKeys-perm : {xs ys : List A} → Permᴰ xs ys → HasDistinctKeys xs → HasDistinctKeys ys
  HasDistinctKeys-perm Permᴰ.nil d = tt
  HasDistinctKeys-perm (Permᴰ.cons {l₁} {l₂} e p) (h, d) =
      (All-perm _ p (rw e at h), HasDistinctKeys-perm p d)
  HasDistinctKeys-perm (Permᴰ.swap e f) ((n, h), (k, d)) =
      ((λ q. n (ap key e ∙ sym q ∙ sym (ap key f)), rw f at k), (rw e at h, d))
  HasDistinctKeys-perm (Permᴰ.trans p q) d = HasDistinctKeys-perm q (HasDistinctKeys-perm p d)

  -- Inputs that hold the same elements under different keys are sorted to the same list.
  pub sort_by-canonical :
      {xs ys : List A} → Permᴰ xs ys → HasDistinctKeys xs → sort_by by_key xs ≡ sort_by by_key ys
  unfolding sort_by
  sort_by-canonical Permᴰ.nil d = refl
  sort_by-canonical (Permᴰ.cons {a} e p) (h, d) = rw (sort_by-canonical p d, e)
  sort_by-canonical (Permᴰ.swap {a} {b} {l} e f) ((n, h), (k, d)) =
      rw (← e, ← f) (insert_by_comm a b (sort_by by_key l) n)
  sort_by-canonical (Permᴰ.trans p q) d =
      sort_by-canonical p d ∙ sort_by-canonical q (HasDistinctKeys-perm p d)

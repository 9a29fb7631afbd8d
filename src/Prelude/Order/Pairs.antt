-- ===== src/Prelude/Order/Pairs.antt =====
-- Comparing by a first key, and by a second one where the first ones are equal.
use Prim.Native.Nat.{Ordering}
use mathlib.Core.Path.{◌≡◌, ap₂}
use native.Mathlib.Omega.{arith}
use super_brain.Prelude.Order.{Ordered, flip, then_by}

then_by-eq : (o p : Ordering) → then_by o p ≡ Ordering.eq → (o ≡ Ordering.eq) × (p ≡ Ordering.eq)
then_by-eq o p h = ground arith

module _ {ℓ κ} {A : Type ℓ} {B : Type κ} ⦃oa : Ordered A⦄ ⦃ob : Ordered B⦄ where
  unfoldable pub compare_pair : A × B → A × B → Ordering
  compare_pair (a, b) (c, d) = then_by (oa.cmp a c) (ob.cmp b d)

  pub compare_pair_self : (p : A × B) → compare_pair p p ≡ Ordering.eq
  unfolding compare_pair
  compare_pair_self (a, b) = ground (arith, oa.cmp_self a, ob.cmp_self b)

  pub eq_of_compare_pair : (p q : A × B) → compare_pair p q ≡ Ordering.eq → p ≡ q
  unfolding compare_pair
  eq_of_compare_pair (a, b) (c, d) h =
      let (x, y) = then_by-eq (oa.cmp a c) (ob.cmp b d) h in
      ap₂ (λ u v. (u, v)) (oa.eq_of_cmp a c x) (ob.eq_of_cmp b d y)

  pub compare_pair-flip : (p q : A × B) → compare_pair q p ≡ flip (compare_pair p q)
  unfolding compare_pair
  compare_pair-flip (a, b) (c, d) = ground (arith, oa.cmp_flip a c, ob.cmp_flip b d)

  pub compare_pair_trans :
      (p q r : A × B)
      → compare_pair p q ≡ Ordering.lt
      → compare_pair q r ≡ Ordering.lt
      → compare_pair p r ≡ Ordering.lt
  unfolding compare_pair
  compare_pair_trans (a, x) (b, y) (c, z) h k =
      ground (arith, oa.cmp_trans a b c, ob.cmp_trans x y z, oa.eq_of_cmp a b, oa.eq_of_cmp b c)

  instance abbrev pub pair_ordered : Ordered (A × B)
  pair_ordered = record {
    cmp = compare_pair;
    cmp_self = compare_pair_self;
    eq_of_cmp = eq_of_compare_pair;
    cmp_flip = compare_pair-flip;
    cmp_trans = compare_pair_trans;
  }

-- ===== src/Prelude/Order.antt =====
-- The interface of a total order by a comparison, as the comparators of the source use it: the
-- sign of the returned number is an `Ordering`.
pub mod Pairs
use Prim.Native.Nat.{Ordering}
use mathlib.Core.Path.{◌≡◌, refl, sym, ◌∙◌, ap}
use mathlib.Core.Bool.{Bool, true, false}
use native.Mathlib.Omega.{arith}

abbrev pub flip : Ordering → Ordering
flip Ordering.lt = Ordering.gt
flip Ordering.eq = Ordering.eq
flip Ordering.gt = Ordering.lt

-- `compare(a, b) <= 0`
abbrev pub is_le : Ordering → Bool
is_le Ordering.gt = false
is_le _ = true

abbrev pub is_lt : Ordering → Bool
is_lt Ordering.lt = true
is_lt _ = false

abbrev pub is_eq : Ordering → Bool
is_eq Ordering.eq = true
is_eq _ = false

-- Compare by the second key where the first ones are equal.
abbrev pub then_by : Ordering → Ordering → Ordering
then_by Ordering.lt o = Ordering.lt
then_by Ordering.eq o = o
then_by Ordering.gt o = Ordering.gt

pub record Ordered {ℓ} (A : Type ℓ) : Type ℓ where
  pub cmp : A → A → Ordering
  pub cmp_self : (a : A) → cmp a a ≡ Ordering.eq
  pub eq_of_cmp : (a b : A) → cmp a b ≡ Ordering.eq → a ≡ b
  pub cmp_flip : (a b : A) → cmp b a ≡ flip (cmp a b)
  pub cmp_trans :
      (a b c : A) → cmp a b ≡ Ordering.lt → cmp b c ≡ Ordering.lt → cmp a c ≡ Ordering.lt

module _ {ℓ} {A : Type ℓ} ⦃o : Ordered A⦄ where
  pub gt_of_lt : (a b : A) → o.cmp a b ≡ Ordering.lt → o.cmp b a ≡ Ordering.gt
  gt_of_lt a b h = o.cmp_flip a b ∙ ap flip h

  pub lt_of_gt : (a b : A) → o.cmp a b ≡ Ordering.gt → o.cmp b a ≡ Ordering.lt
  lt_of_gt a b h = o.cmp_flip a b ∙ ap flip h

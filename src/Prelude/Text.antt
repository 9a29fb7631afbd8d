-- ===== src/Prelude/Text.antt =====
-- Strings as the source's language has them: sequences of 16-bit code units, compared unit by unit.
use Prim.Native.Char.{code}
use Prim.Native.String.{String}
use Prim.Native.Nat.{ℕ, compare, Ordering}
use mathlib.Core.Path.{◌≡◌, refl, sym, ◌∙◌, ap}
use mathlib.Core.Logic.{◌↔◌}
use mathlib.Core.Bool.{Bool, true, false, ◌&&◌}
use mathlib.Core.List.{List, [], ◌∷◌}
use native.Mathlib.Omega.{arith}
use super_brain.Prelude.Order.{Ordered, then_by, flip, is_eq}

abbrev pub Text : Type 0
Text = List ℕ

-- A literal. Every character below U+10000 is one code unit.
abbrev pub text : String → Text
text String.[] = []
text (String.◌∷◌ c s) = code c ∷ text s

-- compareCodeUnits, `<` on strings
unfoldable pub compare_text : Text → Text → Ordering
compare_text [] [] = Ordering.eq
compare_text [] (b ∷ bs) = Ordering.lt
compare_text (a ∷ as') [] = Ordering.gt
compare_text (a ∷ as') (b ∷ bs) = then_by (compare a b) (compare_text as' bs)

pub compare_text_self : (s : Text) → compare_text s s ≡ Ordering.eq
unfolding compare_text
compare_text_self [] = refl
compare_text_self (a ∷ s) = ground (arith, compare_text_self s)

pub eq_of_compare_text : (s t : Text) → compare_text s t ≡ Ordering.eq → s ≡ t
unfolding compare_text
eq_of_compare_text [] [] h = refl
eq_of_compare_text [] (b ∷ bs) h = cc
eq_of_compare_text (a ∷ s) [] h = cc
eq_of_compare_text (a ∷ s) (b ∷ t) h = ground (arith, eq_of_compare_text s t)

pub compare_text-flip : (s t : Text) → compare_text t s ≡ flip (compare_text s t)
unfolding compare_text
compare_text-flip [] [] = refl
compare_text-flip [] (b ∷ bs) = refl
compare_text-flip (a ∷ s) [] = refl
compare_text-flip (a ∷ s) (b ∷ t) = ground (arith, compare_text-flip s t)

pub compare_text_trans :
    (s t u : Text)
    → compare_text s t ≡ Ordering.lt
    → compare_text t u ≡ Ordering.lt
    → compare_text s u ≡ Ordering.lt
unfolding compare_text
compare_text_trans [] [] u h k = cc
compare_text_trans [] (b ∷ t) [] h k = cc
compare_text_trans [] (b ∷ t) (c ∷ u) h k = refl
compare_text_trans (a ∷ s) [] u h k = cc
compare_text_trans (a ∷ s) (b ∷ t) [] h k = cc
compare_text_trans (a ∷ s) (b ∷ t) (c ∷ u) h k = ground (arith, compare_text_trans s t u)

instance abbrev pub text_ordered : Ordered Text
text_ordered = record {
  cmp = compare_text;
  cmp_self = compare_text_self;
  eq_of_cmp = eq_of_compare_text;
  cmp_flip = compare_text-flip;
  cmp_trans = compare_text_trans;
}

-- `===` on strings
infix 50 ◌===◌
unfoldable pub ◌===◌ : Text → Text → Bool
[] === [] = true
[] === (b ∷ bs) = false
(a ∷ as') === [] = false
(a ∷ as') === (b ∷ bs) = is_eq (compare a b) && (as' === bs)

pub ===_self : (s : Text) → (s === s) ≡ true
unfolding ◌===◌
===_self [] = refl
===_self (a ∷ s) = ground (arith, ===_self s)

pub eq_of_=== : (s t : Text) → (s === t) ≡ true → s ≡ t
unfolding ◌===◌
eq_of_=== [] [] h = refl
eq_of_=== [] (b ∷ bs) h = cc
eq_of_=== (a ∷ s) [] h = cc
eq_of_=== (a ∷ s) (b ∷ t) h = ground (arith, eq_of_=== s t)

pub ===_iff : (s t : Text) → ((s === t) ≡ true) ↔ (s ≡ t)
===_iff s t = (eq_of_=== s t, λ e. ap (λ u. s === u) (sym e) ∙ ===_self s)

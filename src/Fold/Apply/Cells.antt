-- ===== src/Fold/Apply/Cells.antt =====
-- The value that a change of packages/fold/src/fold.ts leaves in the cell of its target, and the
-- bounds of clamped components.
use super_brain.Prelude.{ℕ, ◌≡◌, refl, sym, ap, ◌∙◌, true, false, Option, none, some, arith}
use super_brain.Prelude.Text.{Text, ===_self}
use super_brain.Prelude.Dict.{Dict, get, put, get-put}
use super_brain.Fold.Json.{Json, Numbers, bool, num, math_min, math_max}
use super_brain.Fold.Schema.{
  Assertion, create, destroy, set, adjust, mark, unmark, link, unlink, transfer, reveal, conceal,
  merge, Target,
}
use super_brain.Fold.Keys.{target_key}
use super_brain.Fold.State.{
  FoldState, FoldNode, ComponentRegistry, clamped_numeric, ExistingCreate, done, or_else,
}
use super_brain.Fold.Apply.{
  of_nullable, destroy_over, write_over, adjusted, adjust_over, apply_assertion,
}
use super_brain.Fold.Apply.Frame.{done-injective}

module _ {N : Type 0} where
  -- The value that the verbs other than create and adjust assert of their target.
  abbrev pub asserted : Assertion N → Option (Json N)
  asserted (set t before after) = some after
  asserted (destroy subject before) = some (bool false)
  asserted (mark t before) = some (bool true)
  asserted (unmark t before) = some (bool false)
  asserted (transfer subject object before after) = some (of_nullable after)
  asserted (reveal k) = some (bool true)
  asserted (conceal k) = some (bool true)
  asserted _ = none

  get-put_self : (key : Text) (v : Json N) (m : Dict (Json N)) → get key (put key v m) ≡ some v
  get-put_self key v m = rw (get-put key key v m, ===_self key) refl

module _ {N : Type 0} ⦃number : Numbers N⦄ where
  -- `v` is neither below `low` nor above `high`.
  abbrev pub IsWithin : N → N → N → Type 0
  IsWithin low high v = (number.lt v low ≡ false) × (number.lt high v ≡ false)

  clamp_bounds :
      (low high next : N)
      → number.is_nan low ≡ false
      → number.is_nan high ≡ false
      → number.is_nan next ≡ false
      → number.lt high low ≡ false
      → IsWithin low high (math_min high (math_max low next))
  clamp_bounds low high next p q r h = ground (
    arith,
    number.lt_irrefl low,
    number.lt_irrefl high,
    number.lt_asymm low next,
    number.lt_asymm next high,
    number.lt_asymm low high,
  )

module _ {N T : Type 0} ⦃number : Numbers N⦄ where
  written_over :
      (id : Text) (i : ℕ) (key : Text) (current : Option (Json N)) (before after : Json N)
      (s : FoldState N T)
      → get key (write_over id i key current before after s).values ≡ some after
  unfolding write_over
  written_over id i key current before after s = get-put_self key after _

  written_destroy :
      (id : Text) (i : ℕ) (subject : Text) (before : Dict (Json N)) (current : Option (FoldNode N))
      (s : FoldState N T)
      → get
          (target_key (destroy subject before))
          (destroy_over id i subject before current s).values
        ≡ some (bool false)
  unfolding destroy_over target_key
  written_destroy id i subject before current s = get-put_self _ (bool false) _

  -- After a set, destroy, mark, unmark, transfer, reveal or conceal that succeeds, the cell of its
  -- target holds the value that the change asserts, whatever it held before. This is so for every
  -- component, also a clampedNumeric one: the value of a set is written as it is, without a clamp.
  pub apply_assertion_writes :
      (id : Text) (i : ℕ) (components : ComponentRegistry N) (existing : ExistingCreate)
      (a : Assertion N) (v : Json N) (s s' : FoldState N T)
      → apply_assertion id i components existing a s ≡ done s'
      → asserted a ≡ some v
      → get (target_key a) s'.values ≡ some v
  unfolding apply_assertion
  apply_assertion_writes id i cs e (create subject kind after) v s s' h q = cc
  apply_assertion_writes id i cs e (adjust t before after amount) v s s' h q = cc
  apply_assertion_writes id i cs e (merge subject object before) v s s' h q = cc
  apply_assertion_writes id i cs e (link x) v s s' h q = cc
  apply_assertion_writes id i cs e (unlink x) v s s' h q = cc
  apply_assertion_writes id i cs e (destroy subject before) v s s' h q =
      ap (λ (x : FoldState N T). get (target_key (destroy subject before)) x.values)
        (sym (done-injective h))
      ∙ written_destroy id i subject before (get subject s.nodes) s
      ∙ q
  apply_assertion_writes id i cs e a v s s' h q =
      ap (λ (x : FoldState N T). get (target_key a) x.values) (sym (done-injective h))
      ∙ written_over id i (target_key a) _ _ _ s
      ∙ q

  adjusted_over :
      (id : Text) (i : ℕ) (key : Text) (t : Target) (before amount low high c : N)
      (s s' : FoldState N T)
      → adjust_over id i key t before amount (some (clamped_numeric low high)) (num c) s ≡ done s'
      → get key s'.values ≡ some (num (math_min high (math_max low (number.add c amount))))
  unfolding adjust_over adjusted
  adjusted_over id i key t before amount low high c s s' h =
      ap (λ (x : FoldState N T). get key x.values) (sym (done-injective h)) ∙ get-put_self key _ _

  -- An adjustment of a clamped component that succeeds leaves the clamped sum of the old value and
  -- the amount in its cell, and this number lies within the component's bounds, provided that the
  -- bounds are in order and neither they nor the sum is NaN.
  pub adjust_clamped :
      (id : Text) (i : ℕ) (components : ComponentRegistry N) (existing : ExistingCreate)
      (t : Target) (before after amount low high c : N) (s s' : FoldState N T)
      → apply_assertion id i components existing (adjust t before after amount) s ≡ done s'
      → get t.component components ≡ some (clamped_numeric low high)
      → or_else (get (target_key (adjust t before after amount)) s.values) (num number.zero) ≡ num c
      → number.is_nan low ≡ false
      → number.is_nan high ≡ false
      → number.is_nan (number.add c amount) ≡ false
      → number.lt high low ≡ false
      → (v : N) × (get (target_key (adjust t before after amount)) s'.values ≡ some (num v))
        × (v ≡ math_min high (math_max low (number.add c amount)))
        × IsWithin low high v
  unfolding apply_assertion
  adjust_clamped id i cs e t before after amount low high c s s' h rule current p q r o = (
    math_min high (math_max low (number.add c amount)),
    adjusted_over id i _ t before amount low high c s s' (rw (rule, current) at h),
    refl,
    clamp_bounds low high (number.add c amount) p q r o,
  )

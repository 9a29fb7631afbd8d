-- ===== src/Fold/Json.antt =====
-- packages/fold/src/schema.ts, JsonValue, and packages/fold/src/fold.ts, jsonEqual.
use super_brain.Prelude.{
  ◌≡◌, Bool, true, false, ◌&&◌, ◌||◌, Option, none, some, List, [], ◌∷◌, if◌then◌else◌,
}
use super_brain.Prelude.Text.{Text, ◌===◌, compare_text}
use super_brain.Prelude.Dict.{Dict}
use super_brain.Prelude.Sort.{sort_by}

-- JavaScript's numbers, as far as the fold uses them: constants, `+`, `-`, `<`, `===` and
-- `Number.isFinite`, with the facts about IEEE 754 doubles that the proofs rely on. `tolerance`
-- is 1e-9.
pub record Numbers (N : Type 0) : Type 0 where
  pub minus_one : N
  pub zero : N
  pub one : N
  pub tolerance : N
  pub add : N → N → N
  pub sub : N → N → N
  pub lt : N → N → Bool
  pub eq : N → N → Bool
  pub is_nan : N → Bool
  pub finite : N → Bool
  pub lt_irrefl : (a : N) → lt a a ≡ false
  pub lt_asymm : (a b : N) → lt a b ≡ true → lt b a ≡ false
  pub sub_self : (a : N) → finite a ≡ true → sub a a ≡ zero
  pub tolerance_pos : lt zero tolerance ≡ true

module _ {N : Type 0} ⦃num : Numbers N⦄ where
  open num use {zero, tolerance, sub, lt, eq, is_nan}

  -- `a <= b`
  abbrev pub le : N → N → Bool
  le a b = lt a b || eq a b

  -- Math.abs
  abbrev pub abs : N → N
  abs a = if lt a zero then sub zero a else a

  -- Math.min and Math.max, which return NaN if an argument is NaN
  abbrev pub math_min : N → N → N
  math_min a b = if is_nan a then a else if is_nan b then b else if lt b a then b else a

  abbrev pub math_max : N → N → N
  math_max a b = if is_nan a then a else if is_nan b then b else if lt a b then b else a

mutual
  -- type JsonValue; an object's keys are different from one another.
  pub data Json (N : Type 0) : Type 0 where
    null : Json N
    bool : Bool → Json N
    num : N → Json N
    str : Text → Json N
    arr : Items N → Json N
    obj : Fields N → Json N

  pub data Items (N : Type 0) : Type 0 where
    nil : Items N
    cons : Json N → Items N → Items N

  pub data Fields (N : Type 0) : Type 0 where
    end : Fields N
    field : Text → Json N → Fields N → Fields N

module _ {N : Type 0} where
  -- A `Record<string, JsonValue>` as a JSON object.
  pub of_dict : Dict (Json N) → Fields N
  of_dict [] = end
  of_dict ((k, v) ∷ m) = field k v (of_dict m)

  -- `Object.keys(o)`
  pub keys_of : Fields N → List Text
  keys_of end = []
  keys_of (field k v fs) = k ∷ keys_of fs

  -- `o[key]`
  pub get_field : Text → Fields N → Option (Json N)
  get_field k end = none
  get_field k (field j v fs) = if j === k then some v else get_field k fs

pub same_texts : List Text → List Text → Bool
same_texts [] [] = true
same_texts (s ∷ ss) (t ∷ ts) = s === t && same_texts ss ts
same_texts _ _ = false

-- `left === right` on booleans
abbrev pub same_bool : Bool → Bool → Bool
same_bool true b = b
same_bool false true = false
same_bool false false = true

-- `Math.abs(left - right) <= 1e-9`
unfoldable pub close_to : {N : Type 0} ⦃num : Numbers N⦄ → N → N → Bool
close_to ⦃num⦄ a b = le (abs (num.sub a b)) num.tolerance

-- jsonEqual on two values, over the comparison of two numbers. Objects are compared by their
-- sorted keys and the values under each key.
unfoldable mutual
  pub same_json : {N : Type 0} → (N → N → Bool) → Json N → Json N → Bool
  same_json near (num a) (num b) = near a b
  same_json near null null = true
  same_json near (bool a) (bool b) = same_bool a b
  same_json near (str s) (str t) = s === t
  same_json near (arr xs) (arr ys) = same_items near xs ys
  same_json near (obj fs) (obj gs) =
      same_texts (sort_by compare_text (keys_of fs)) (sort_by compare_text (keys_of gs))
      && same_fields near fs gs
  same_json near _ _ = false

  pub same_items : {N : Type 0} → (N → N → Bool) → Items N → Items N → Bool
  same_items near nil nil = true
  same_items near (cons x xs) (cons y ys) = same_json near x y && same_items near xs ys
  same_items near _ _ = false

  pub same_fields : {N : Type 0} → (N → N → Bool) → Fields N → Fields N → Bool
  same_fields near end gs = true
  same_fields near (field k v fs) gs =
      elim (get_field k gs) [ none ↦ false | some w ↦ same_json near v w ] && same_fields near fs gs

-- jsonEqual; `none` is `undefined`, which equals `null` only.
unfoldable pub json_equal : {N : Type 0} ⦃num : Numbers N⦄ → Option (Json N) → Json N → Bool
unfolding close_to same_json
json_equal none null = true
json_equal none _ = false
json_equal (some left) right = same_json close_to left right

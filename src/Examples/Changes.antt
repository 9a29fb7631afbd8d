-- ===== src/Examples/Changes.antt =====
-- Keys, redirects and single changes at concrete inputs.
use super_brain.Prelude.{
  ℕ, ◌≡◌, ◌≢◌, ◌↔◌, refl, false, Option, none, some, [], ◌∷◌, ◌++◌, ok, err, arith,
}
use super_brain.Prelude.Text.{Text, text, ◌===◌, ===_self}
use super_brain.Prelude.Dict.{Dict, get, put}
use super_brain.Prelude.Int.{ℤ, pos}
use super_brain.Fold.Json.{num, str, json_equal, math_min, math_max}
use super_brain.Fold.Schema.{Assertion, set, adjust}
use super_brain.Fold.Order.{has}
use super_brain.Fold.Keys.{component_cell_key, target_key, quote_units, short_escape, hex_digit}
use super_brain.Fold.Keys.Injective.{component_cell_key-injective}
use super_brain.Fold.State.{
  FoldState, empty_state, core_component_registry, done, error, write, diagnose_before,
  before_mismatch,
}
use super_brain.Fold.Apply.{
  resolve_node_id, resolve_from, apply_assertion, adjusted, adjust_over, write_over,
}
use super_brain.Fold.Apply.Redirects.{Chain, Ends, resolve_node_id-Ends, resolve_node_id_iff}
use super_brain.Fold.Apply.Frame.{apply_assertion-frame}
use super_brain.Fold.Apply.Writing.{reported, apply_assertion_reports}
use super_brain.Fold.Apply.Cells.{IsWithin, apply_assertion_writes, adjust_clamped}
use super_brain.Fold.Engine.{repeated_target}
use super_brain.Fold.Engine.Targets.{HasDistinctTargets, repeated_target_iff}
use super_brain.Examples.Samples.{sample_numbers, change, target}

-- JSON.stringify(["a\"b", "\n", null, null])
quoted_key :
    component_cell_key (text "a\"b") (10 ∷ []) none none ≡ text "[\"a\\\"b\",\"\\n\",null,null]"
unfolding component_cell_key short_escape
quoted_key = refl

-- A half of a surrogate pair is written with four digits, and a pair as it is.
lone_surrogate :
    quote_units false (0xD83D ∷ b'x' ∷ 0xD83D ∷ 0xDE00 ∷ []) []
    ≡ text "\\ud83dx" ++ 0xD83D ∷ 0xDE00 ∷ b'"' ∷ []
unfolding quote_units short_escape hex_digit
lone_surrogate = refl

abbrev nothing : Option Text
nothing = none

component_cell_key-injective_example :
    (text "a" ≡ text "a")
    × (text "b" ≡ text "b")
    × (nothing ≡ nothing)
    × (some (text "") ≡ some (text ""))
component_cell_key-injective_example =
    component_cell_key-injective (text "a") (text "b") none (some (text "")) (text "a") (text "b")
      none (some (text "")) refl

abbrev redirects : Dict Text
redirects =
    (text "a", text "b") ∷ (text "b", text "c") ∷ (text "x", text "y") ∷ (text "y", text "x") ∷ []

resolved_a : resolve_node_id redirects (text "a") ≡ ok (text "c")
unfolding resolve_node_id resolve_from get ◌===◌ has
resolved_a = refl

cycle_x : resolve_node_id redirects (text "x") ≡ err (text "x")
unfolding resolve_node_id resolve_from get ◌===◌ has
cycle_x = refl

resolve_node_id-Ends_example : Ends redirects (text "x") (resolve_node_id redirects (text "x"))
resolve_node_id-Ends_example = resolve_node_id-Ends redirects (text "x")

resolve_node_id_iff_example :
    (resolve_node_id redirects (text "a") ≡ ok (text "c"))
    ↔ ((d : ℕ) × Chain redirects d (text "a") (text "c"))
resolve_node_id_iff_example = resolve_node_id_iff redirects (text "a") (text "c")

abbrev start : FoldState ℤ ℕ
start = empty_state

abbrev raise : Assertion ℤ
raise = adjust (target (text "s") (text "drama.tension")) (pos 0) (pos 5) (pos 7_000_000_000)

abbrev raised : FoldState ℤ ℕ
raised = write start (target_key raise) (num (pos 1_000_000_000))

-- An adjustment of 7 is clamped to the component's maximum, 1.
raise_done : apply_assertion (text "e") 0 core_component_registry error raise start ≡ done raised
unfolding apply_assertion adjust_over adjusted diagnose_before json_equal get put ◌===◌
raise_done = refl

adjust_clamped_example :
    (v : ℤ) × (get (target_key raise) raised.values ≡ some (num v))
    × (v ≡ math_min (pos 1_000_000_000) (math_max (pos 0) (pos 7_000_000_000)))
    × IsWithin (pos 0) (pos 1_000_000_000) v
unfolding get ◌===◌
adjust_clamped_example =
    adjust_clamped (text "e") 0 core_component_registry error
      (target (text "s") (text "drama.tension")) (pos 0) (pos 5) (pos 7_000_000_000) (pos 0)
      (pos 1_000_000_000) (pos 0) start raised raise_done refl refl refl refl refl refl

abbrev paint : Assertion ℤ
paint = set (target (text "s") (text "core.appearance")) (str (text "red")) (str (text "blue"))

-- `before` is not what the state holds, so the change is diagnosed and still applied.
abbrev painted : FoldState ℤ ℕ
painted = record start {
  values = (target_key paint, str (text "blue")) ∷ [];
  diagnostics = before_mismatch (text "e") 0 (str (text "red")) none ∷ [];
}

paint_done : apply_assertion (text "e") 0 core_component_registry error paint start ≡ done painted
unfolding apply_assertion write_over diagnose_before json_equal get put
paint_done = refl

apply_assertion_reports_example : painted.diagnostics ≡ reported (text "e") 0 error paint start
apply_assertion_reports_example =
    apply_assertion_reports (text "e") 0 core_component_registry error paint start painted
      paint_done

apply_assertion_writes_example : get (target_key paint) painted.values ≡ some (str (text "blue"))
apply_assertion_writes_example =
    apply_assertion_writes (text "e") 0 core_component_registry error paint (str (text "blue"))
      start painted paint_done refl

raise-ne-paint : target_key raise ≢ target_key paint
unfolding target_key
raise-ne-paint h = ground (arith, (component_cell_key-injective _ _ _ _ _ _ _ _ h).1)

apply_assertion-frame_example :
    get (target_key raise) painted.values ≡ get (target_key raise) start.values
apply_assertion-frame_example =
    apply_assertion-frame (text "e") 0 core_component_registry error paint start painted
      (target_key raise) paint_done raise-ne-paint

repeated_target_iff_example :
    (repeated_target [] (change paint ∷ change raise ∷ []) ≡ none)
    ↔ HasDistinctTargets (change paint ∷ change raise ∷ [])
repeated_target_iff_example = repeated_target_iff (change paint ∷ change raise ∷ [])

same_target_found : repeated_target [] (change paint ∷ change paint ∷ []) ≡ some (target_key paint)
unfolding repeated_target has
same_target_found = ground (arith, ===_self (target_key paint))

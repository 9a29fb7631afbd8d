-- ===== src/Fold/Apply/Writing.antt =====
-- What a change of packages/fold/src/fold.ts writes into the cell of its target, and when it
-- diagnoses its `before`.
use super_brain.Prelude.{
  ℕ, ◌≡◌, refl, sym, ap, ◌∙◌, false, Option, none, some, List, [], ◌∷◌, ◌++◌, if◌then◌else◌,
  Bool-cases, Option-cases, inl, inr, arith,
}
use mathlib.Core.List.{append-nil}
use super_brain.Prelude.Text.{Text}
use super_brain.Prelude.Dict.{Dict, get}
use super_brain.Fold.Json.{Json, Numbers, bool, num, obj, json_equal, of_dict}
use super_brain.Fold.Schema.{
  Assertion, create, destroy, set, adjust, mark, unmark, link, unlink, transfer, reveal, conceal,
  merge, Target,
}
use super_brain.Fold.Keys.{target_key}
use super_brain.Fold.State.{
  FoldState, FoldNode, ComponentRegistry, ComponentRule, ExistingCreate, error, replace,
  existing_create_replaced, FoldDiagnostic, before_mismatch, done, diagnose_before, or_else,
}
use super_brain.Fold.Apply.{
  of_nullable, as_json, properties_of, replace_node, write_node, create_over, merge_nodes,
  destroy_over, write_over, adjusted, adjust_over, apply_assertion,
}
use super_brain.Fold.Apply.Frame.{done-injective}

module _ {N : Type 0} ⦃number : Numbers N⦄ where
  -- The `before` that the change claims, of the verbs that are diagnosed. A merge has a `before` too,
  -- which the code does not look at.
  abbrev pub claimed : Assertion N → Option (Json N)
  claimed (set t before after) = some before
  claimed (destroy subject before) = some (obj (of_dict before))
  claimed (adjust t before after amount) = some (num before)
  claimed (mark t before) = some (bool before)
  claimed (unmark t before) = some (bool before)
  claimed (transfer subject object before after) = some (of_nullable before)
  claimed (reveal k) = some (bool k.before)
  claimed (conceal k) = some (bool k.before)
  claimed _ = none

  -- The diagnostics that a claim against an observed value gives.
  abbrev pub mismatches :
      Text → ℕ → (actual : Option (Json N)) → (claim : Option (Json N)) → List (FoldDiagnostic N)
  mismatches id i actual none = []
  mismatches id i actual (some before) =
      if json_equal actual before then [] else before_mismatch id i before actual ∷ []

  -- What a create reports: the node that it replaces.
  abbrev pub replaced :
      Text → ℕ → ExistingCreate → (subject : Text) → Option (FoldNode N) → List (FoldDiagnostic N)
  replaced id i existing subject none = []
  replaced id i error subject (some current) = []
  replaced id i replace subject (some current) =
      if current.exists then existing_create_replaced id i subject ∷ [] else []

module _ {N T : Type 0} ⦃number : Numbers N⦄ where
  -- What each verb compares with its `before`: the value of the target's cell, where a missing or
  -- null flag counts as false and a missing or null number as 0, and for a destroy the properties
  -- of the node.
  abbrev pub observed : Assertion N → FoldState N T → Option (Json N)
  observed (set t before after) s = get (target_key (set t before after)) s.values
  observed (destroy subject before) s = as_json (properties_of (get subject s.nodes))
  observed (adjust t before after amount) s =
      some (or_else (get (target_key (adjust t before after amount)) s.values) (num number.zero))
  observed (transfer subject object before after) s =
      let a : Assertion N = transfer subject object before after in get (target_key a) s.values
  observed a s = some (or_else (get (target_key a) s.values) (bool false))

  -- The diagnostics that a change gives.
  abbrev pub reported :
      Text → ℕ → ExistingCreate → Assertion N → FoldState N T → List (FoldDiagnostic N)
  reported id i existing (create subject kind after) s =
      replaced id i existing subject (get subject s.nodes)
  reported id i existing a s = mismatches id i (observed a s) (claimed a)

  diagnostics-diagnose_before :
      (s : FoldState N T) (id : Text) (i : ℕ) (actual : Option (Json N)) (before : Json N)
      → (diagnose_before s id i actual before).diagnostics
        ≡ s.diagnostics ++ mismatches id i actual (some before)
  unfolding diagnose_before
  diagnostics-diagnose_before s id i actual before = elim (Bool-cases (json_equal actual before)) [
    | inl e ↦ rw e (sym (append-nil s.diagnostics))
    | inr e ↦ rw e refl
  ]

  diagnostics-create_over :
      (id : Text) (i : ℕ) (subject kind : Text) (after : Dict (Json N)) (existing : ExistingCreate)
      (current : Option (FoldNode N)) (s s' : FoldState N T)
      → create_over id i subject kind after existing current s ≡ done s'
      → s'.diagnostics ≡ s.diagnostics ++ replaced id i existing subject current
  unfolding create_over write_node replace_node
  diagnostics-create_over id i subject kind after existing none s s' h =
      ground (arith, append-nil s.diagnostics)
  diagnostics-create_over id i subject kind after error (some current) s s' h =
      ground (arith, append-nil s.diagnostics)
  diagnostics-create_over id i subject kind after replace (some current) s s' h =
      ground (arith, append-nil s.diagnostics)

  diagnostics-adjust_over :
      (id : Text) (i : ℕ) (key : Text) (t : Target) (before amount : N)
      (rule : Option (ComponentRule N)) (current : Json N) (s s' : FoldState N T)
      → adjust_over id i key t before amount rule current s ≡ done s'
      → s'.diagnostics ≡ s.diagnostics ++ mismatches id i (some current) (some (num before))
  unfolding adjust_over
  diagnostics-adjust_over id i key t before amount rule (num c) s s' h =
      elim (Option-cases (adjusted rule c amount)) [
        | inl e ↦ absurd (ground arith)
        | inr (next, e) ↦
            ground (arith, diagnostics-diagnose_before s id i (some (num c)) (num before))
      ]
  diagnostics-adjust_over id i key t before amount rule _ s s' h = cc

  diagnostics-merge_nodes :
      (subject object : Text) (s s' : FoldState N T)
      → merge_nodes subject object s ≡ done s'
      → s'.diagnostics ≡ s.diagnostics
  unfolding merge_nodes
  diagnostics-merge_nodes subject object s s' h = ground arith

  diagnostics-destroy_over :
      (id : Text) (i : ℕ) (subject : Text) (before : Dict (Json N)) (current : Option (FoldNode N))
      (s : FoldState N T)
      → (destroy_over id i subject before current s).diagnostics
        ≡ s.diagnostics
          ++ mismatches id i (as_json (properties_of current)) (some (obj (of_dict before)))
  unfolding destroy_over
  diagnostics-destroy_over id i subject before current s = diagnostics-diagnose_before s id i _ _

  -- A change that succeeds adds to the diagnostics exactly what it reports: for a create in replace
  -- mode the node that it replaces; for a set, destroy, adjust, mark, unmark, transfer, reveal or
  -- conceal one mismatch if the observed value does not equal its `before`; and nothing for a link,
  -- an unlink, and a merge, whose `before` is not compared.
  pub apply_assertion_reports :
      (id : Text) (i : ℕ) (components : ComponentRegistry N) (existing : ExistingCreate)
      (a : Assertion N) (s s' : FoldState N T)
      → apply_assertion id i components existing a s ≡ done s'
      → s'.diagnostics ≡ s.diagnostics ++ reported id i existing a s
  unfolding apply_assertion target_key write_over
  apply_assertion_reports id i cs e (create subject kind after) s s' h =
      diagnostics-create_over id i subject kind after e (get subject s.nodes) s s' h
  apply_assertion_reports id i cs e (adjust t before after amount) s s' h =
      diagnostics-adjust_over id i _ t before amount (get t.component cs) _ s s' h
  apply_assertion_reports id i cs e (merge subject object before) s s' h =
      ground (arith, append-nil s.diagnostics, diagnostics-merge_nodes subject object s s' h)
  apply_assertion_reports id i cs e (link x) s s' h = ground (arith, append-nil s.diagnostics)
  apply_assertion_reports id i cs e (unlink x) s s' h = ground (arith, append-nil s.diagnostics)
  apply_assertion_reports id i cs e (destroy subject before) s s' h =
      ap (λ (x : FoldState N T). x.diagnostics) (sym (done-injective h))
      ∙ diagnostics-destroy_over id i subject before (get subject s.nodes) s
  apply_assertion_reports id i cs e a s s' h =
      ap (λ (x : FoldState N T). x.diagnostics) (sym (done-injective h))
      ∙ diagnostics-diagnose_before s id i _ _

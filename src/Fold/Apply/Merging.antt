-- ===== src/Fold/Apply/Merging.antt =====
-- Merges of packages/fold/src/fold.ts, and the redirects under the other changes.
use super_brain.Prelude.{ℕ, ◌≡◌, Option, none, some, Result-cases, inl, inr, arith}
use super_brain.Prelude.Text.{Text}
use super_brain.Prelude.Dict.{Dict, get, put}
use super_brain.Fold.Json.{Json, Numbers, num}
use super_brain.Fold.Schema.{Assertion, create, destroy, adjust, merge, Target}
use super_brain.Fold.State.{
  FoldState, FoldNode, ComponentRegistry, ComponentRule, ExistingCreate, error, replace, done,
  diagnose_before,
}
use super_brain.Fold.Apply.{
  replace_node, write_node, create_over, destroy_over, write_over, adjust_over, merge_nodes,
  apply_assertion, resolve_node_id,
}
use super_brain.Fold.Apply.Redirects.{IsAcyclic, IsAcyclic-put}
use mathlib.Core.Path.{subst}

module _ {N T : Type 0} where
  merge_nodes-IsAcyclic :
      (subject object : Text) (s s' : FoldState N T)
      → merge_nodes subject object s ≡ done s'
      → IsAcyclic s.redirects
      → IsAcyclic s'.redirects
  unfolding merge_nodes
  merge_nodes-IsAcyclic subject object s s' h a =
      elim (Result-cases (resolve_node_id (put object subject s.redirects) object)) [
        | inl (root, e) ↦
            let kept = IsAcyclic-put s.redirects object subject root e a in
            let same : put object subject s.redirects ≡ s'.redirects = ground arith in
            subst IsAcyclic same kept
        | inr (c, e) ↦ absurd (ground arith)
      ]

module _ {N T : Type 0} where
  redirects-create_over :
      (id : Text) (i : ℕ) (subject kind : Text) (after : Dict (Json N)) (existing : ExistingCreate)
      (current : Option (FoldNode N)) (s s' : FoldState N T)
      → create_over id i subject kind after existing current s ≡ done s'
      → s.redirects ≡ s'.redirects
  unfolding create_over replace_node write_node
  redirects-create_over id i subject kind after existing none s s' h = ground arith
  redirects-create_over id i subject kind after error (some current) s s' h = ground arith
  redirects-create_over id i subject kind after replace (some current) s s' h = ground arith

module _ {N T : Type 0} ⦃number : Numbers N⦄ where
  redirects-diagnose_before :
      (s : FoldState N T) (id : Text) (i : ℕ) (actual : Option (Json N)) (expected : Json N)
      → (diagnose_before s id i actual expected).redirects ≡ s.redirects
  unfolding diagnose_before
  redirects-diagnose_before s id i actual expected = ground arith

  redirects-adjust_over :
      (id : Text) (i : ℕ) (key : Text) (t : Target) (before amount : N)
      (rule : Option (ComponentRule N)) (current : Json N) (s s' : FoldState N T)
      → adjust_over id i key t before amount rule current s ≡ done s'
      → s.redirects ≡ s'.redirects
  unfolding adjust_over
  redirects-adjust_over id i key t before amount rule (num c) s s' h =
      ground (arith, redirects-diagnose_before s id i (some (num c)) (num before))
  redirects-adjust_over id i key t before amount rule _ s s' h = cc

  -- A change that succeeds keeps every id resolvable.
  pub apply_assertion-IsAcyclic :
      (id : Text) (i : ℕ) (components : ComponentRegistry N) (existing : ExistingCreate)
      (a : Assertion N) (s s' : FoldState N T)
      → apply_assertion id i components existing a s ≡ done s'
      → IsAcyclic s.redirects
      → IsAcyclic s'.redirects
  unfolding apply_assertion write_over destroy_over diagnose_before
  apply_assertion-IsAcyclic id i cs e (merge subject object before) s s' h a =
      merge_nodes-IsAcyclic subject object s s' h a
  apply_assertion-IsAcyclic id i cs e (create subject kind after) s s' h a =
      subst IsAcyclic (redirects-create_over id i subject kind after e (get subject s.nodes) s s' h)
        a
  apply_assertion-IsAcyclic id i cs e (adjust t before after amount) s s' h a =
      subst IsAcyclic (redirects-adjust_over id i _ t before amount (get t.component cs) _ s s' h) a
  apply_assertion-IsAcyclic id i cs e (destroy subject before) s s' h a =
      subst IsAcyclic (ground (arith, redirects-diagnose_before s id i)) a
  apply_assertion-IsAcyclic id i cs e _ s s' h a = subst IsAcyclic (ground arith) a

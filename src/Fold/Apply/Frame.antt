-- ===== src/Fold/Apply/Frame.antt =====
-- Which cells a change of packages/fold/src/fold.ts may touch.
use super_brain.Prelude.{
  ℕ, ◌≡◌, ◌≢◌, refl, sym, ap, ◌∙◌, true, false, Option, none, some, [], ◌∷◌, Option-cases, inl, inr,
  arith,
}
use super_brain.Prelude.Text.{Text, text, ◌===◌, ===_iff}
use super_brain.Prelude.Dict.{Dict, get, put, delete, get-put, get-delete}
use super_brain.Fold.Json.{Json, Numbers, bool, num}
use super_brain.Fold.Schema.{Assertion, create, destroy, adjust, link, unlink, merge, Target}
use super_brain.Fold.Keys.{component_cell_key, target_key}
use super_brain.Fold.State.{
  FoldState, FoldNode, ComponentRegistry, ComponentRule, ExistingCreate, error, replace, done,
  diagnose_before,
}
use super_brain.Fold.Apply.{
  delete_cells, write_cells, replace_node, write_node, create_over, destroy_over, write_over,
  adjusted, adjust_over, merge_nodes, apply_assertion,
}

abbrev OutsideOf : Text → Text → Type 0
OutsideOf subject key = (c : Text) → key ≢ component_cell_key subject c none none

differ : (j k : Text) → k ≢ j → (j === k) ≡ false
differ j k h = ground (arith, ===_iff j k, λ (e : j ≡ k). h (sym e))

module _ {N : Type 0} where
  -- The cells that a change may touch: a create those of its subject with no field and no object,
  -- a change of an edge or a redirect none, and every other change the one of its target.
  abbrev pub Touches : Assertion N → Text → Type 0
  Touches (create subject _ _) key =
      (component : Text) × (key ≡ component_cell_key subject component none none)
  Touches (link _) key = ⊥
  Touches (unlink _) key = ⊥
  Touches (merge _ _ _) key = ⊥
  Touches a key = key ≡ target_key a

  get-put_ne : (j k : Text) (v : Json N) (m : Dict (Json N)) → k ≢ j → get k (put j v m) ≡ get k m
  get-put_ne j k v m h = rw (get-put j k v m, differ j k h) refl

  get-delete_ne : (j k : Text) (m : Dict (Json N)) → k ≢ j → get k (delete j m) ≡ get k m
  get-delete_ne j k m h = rw (get-delete j k m, differ j k h) refl

  get-delete_cells :
      (subject key : Text) (properties values : Dict (Json N))
      → OutsideOf subject key
      → get key (delete_cells subject properties values) ≡ get key values
  unfolding delete_cells
  get-delete_cells subject key [] values h = refl
  get-delete_cells subject key ((c, _) ∷ m) values h =
      get-delete_cells subject key m _ h ∙ get-delete_ne _ key values (h c)

  get-write_cells :
      (subject key : Text) (after values : Dict (Json N))
      → OutsideOf subject key
      → get key (write_cells subject after values) ≡ get key values
  unfolding write_cells
  get-write_cells subject key [] values h = refl
  get-write_cells subject key ((c, v) ∷ m) values h =
      get-write_cells subject key m _ h ∙ get-put_ne _ key v values (h c)

module _ {N T : Type 0} where
  pub done-injective : {s s' : FoldState N T} → done s ≡ done s' → s ≡ s'
  done-injective h = cc

  values-write_node :
      (subject kind key : Text) (after : Dict (Json N)) (s : FoldState N T)
      → OutsideOf subject key
      → get key (write_node subject kind after s).values ≡ get key s.values
  unfolding write_node
  values-write_node subject kind key after s o =
      get-write_cells subject key after _ o
      ∙ get-put_ne _ key (bool true) s.values (o (text "core.exists"))

  values-replace_node :
      (id : Text) (i : ℕ) (subject key : Text) (current : FoldNode N) (s : FoldState N T)
      → OutsideOf subject key
      → get key (replace_node id i subject current s).values ≡ get key s.values
  unfolding replace_node
  values-replace_node id i subject key current s o =
      get-delete_cells subject key current.properties s.values o

  values-create_over :
      (id : Text) (i : ℕ) (subject kind : Text) (after : Dict (Json N)) (existing : ExistingCreate)
      (current : Option (FoldNode N)) (key : Text) (s s' : FoldState N T)
      → OutsideOf subject key
      → create_over id i subject kind after existing current s ≡ done s'
      → get key s'.values ≡ get key s.values
  unfolding create_over
  values-create_over id i subject kind after existing none key s s' o h =
      ground (arith, values-write_node subject kind key after s o)
  values-create_over id i subject kind after error (some current) key s s' o h =
      ground (arith, values-write_node subject kind key after s o)
  values-create_over id i subject kind after replace (some current) key s s' o h = ground (
    arith,
    values-write_node subject kind key after s o,
    values-write_node subject kind key after (replace_node id i subject current s) o,
    values-replace_node id i subject key current s o,
  )

module _ {N T : Type 0} ⦃number : Numbers N⦄ where
  values-diagnose_before :
      (s : FoldState N T) (id : Text) (i : ℕ) (actual : Option (Json N)) (expected : Json N)
      → (diagnose_before s id i actual expected).values ≡ s.values
  unfolding diagnose_before
  values-diagnose_before s id i actual expected = ground arith

  values-write_over :
      (id : Text) (i : ℕ) (target key : Text) (current : Option (Json N)) (before after : Json N)
      (s : FoldState N T)
      → key ≢ target
      → get key (write_over id i target current before after s).values ≡ get key s.values
  unfolding write_over
  values-write_over id i target key current before after s ne =
      get-put_ne target key after _ ne
      ∙ ap (λ m. get key m) (values-diagnose_before s id i current before)

  values-adjust_over :
      (id : Text) (i : ℕ) (target key : Text) (t : Target) (before amount : N)
      (rule : Option (ComponentRule N)) (current : Json N) (s s' : FoldState N T)
      → key ≢ target
      → adjust_over id i target t before amount rule current s ≡ done s'
      → get key s'.values ≡ get key s.values
  unfolding adjust_over
  values-adjust_over id i target key t before amount rule (num c) s s' ne h =
      elim (Option-cases (adjusted rule c amount)) [
        | inl e ↦ absurd (ground arith)
        | inr (next, e) ↦ ground (
          arith,
          values-diagnose_before s id i (some (num c)) (num before),
          get-put_ne target key (num next) s.values ne,
        )
      ]
  values-adjust_over id i target key t before amount rule _ s s' ne h = cc

  values-merge_nodes :
      (subject object : Text) (s s' : FoldState N T)
      → merge_nodes subject object s ≡ done s'
      → s'.values ≡ s.values
  unfolding merge_nodes
  values-merge_nodes subject object s s' h = ground arith

  values-destroy_over :
      (id : Text) (i : ℕ) (subject key : Text) (before : Dict (Json N))
      (current : Option (FoldNode N)) (s : FoldState N T)
      → key ≢ component_cell_key subject (text "core.exists") none none
      → get key (destroy_over id i subject before current s).values ≡ get key s.values
  unfolding destroy_over
  values-destroy_over id i subject key before current s ne =
      get-put_ne _ key (bool false) _ ne ∙ ap (λ m. get key m) (values-diagnose_before s id i _ _)

  -- A change that succeeds leaves every cell as it was that it does not touch: a create may touch
  -- the cells of its subject without field and object, link, unlink and merge touch none, and any
  -- other change touches the cell of its target only.
  pub apply_assertion-frame :
      (id : Text) (i : ℕ) (components : ComponentRegistry N) (existing : ExistingCreate)
      (a : Assertion N) (s s' : FoldState N T) (key : Text)
      → apply_assertion id i components existing a s ≡ done s'
      → ¬ Touches a key
      → get key s'.values ≡ get key s.values
  unfolding apply_assertion target_key
  apply_assertion-frame id i cs e (create subject kind after) s s' key h n =
      values-create_over id i subject kind after e (get subject s.nodes) key s s' (λ c q. n (c, q))
        h
  apply_assertion-frame id i cs e (adjust t before after amount) s s' key h n =
      values-adjust_over id i _ key t before amount (get t.component cs) _ s s' n h
  apply_assertion-frame id i cs e (merge subject object before) s s' key h n =
      ap (λ m. get key m) (values-merge_nodes subject object s s' h)
  apply_assertion-frame id i cs e (link x) s s' key h n = ground arith
  apply_assertion-frame id i cs e (unlink x) s s' key h n = ground arith
  apply_assertion-frame id i cs e (destroy subject before) s s' key h n =
      ap (λ (x : FoldState N T). get key x.values) (sym (done-injective h))
      ∙ values-destroy_over id i subject key before (get subject s.nodes) s n
  apply_assertion-frame id i cs e a s s' key h n =
      ap (λ (x : FoldState N T). get key x.values) (sym (done-injective h))
      ∙ values-write_over id i _ key _ _ _ s n

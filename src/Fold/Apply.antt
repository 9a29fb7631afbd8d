-- ===== src/Fold/Apply.antt =====
-- One change of packages/fold/src/fold.ts: resolveNodeId, writeTarget and applyChange.
pub mod Redirects
pub mod Merging
pub mod Frame
pub mod Writing
pub mod Cells
use super_brain.Prelude.{
  ℕ, suc, zero, Bool, true, false, Option, none, some, List, [], ◌∷◌, ◌++◌, length, is_some,
  if◌then◌else◌, Result, ok, err, throw_if,
}
use super_brain.Prelude.Text.{Text, text, ◌===◌}
use super_brain.Prelude.Dict.{Dict, get, put, delete}
use super_brain.Fold.Json.{Json, null, bool, num, str, obj, Numbers, math_min, math_max, of_dict}
use super_brain.Fold.Schema.{
  Assertion, create, destroy, set, adjust, mark, unmark, link, unlink, transfer, reveal, conceal,
  merge, Target, EdgeFields, Knowledge, Change,
}
use super_brain.Fold.Order.{has}
use super_brain.Fold.Keys.{component_cell_key, target_key}
use super_brain.Fold.State.{
  ComponentRule, numeric, clamped_numeric, ComponentRegistry, FoldNode, FoldEdge, FoldState,
  ExistingCreate, error, replace, existing_create_replaced, FoldError, duplicate_target,
  redirect_cycle, existing_node, not_numeric, undeclared_numeric, redirect_would_cycle, Outcome,
  done, threw, ◌>>=◌, diagnose_before, write, or_else,
}

-- The loop of resolveNodeId. Each round visits another redirected id, so one round more than
-- there are redirects is enough.
unfoldable pub resolve_from : ℕ → List Text → Text → Dict Text → Result Text Text
resolve_from zero visited current redirects = err current
resolve_from (suc fuel) visited current redirects = elim (get current redirects) [
  | none ↦ ok current
  | some next ↦ elim (has visited current) [
    | true ↦ err current
    | false ↦ resolve_from fuel (current ∷ visited) next redirects
  ]
]

-- resolveNodeId; an error is the id that the redirect cycle contains.
unfoldable pub resolve_node_id : Dict Text → Text → Result Text Text
resolve_node_id redirects node_id = resolve_from (suc (length redirects)) [] node_id redirects

module _ {N : Type 0} where
  -- `for (const component of Object.keys(properties)) state.values.delete(…)`
  unfoldable pub delete_cells : Text → Dict (Json N) → Dict (Json N) → Dict (Json N)
  delete_cells subject [] values = values
  delete_cells subject ((component, _) ∷ properties) values =
      delete_cells subject properties
        (delete (component_cell_key subject component none none) values)

  -- `for (const [component, value] of Object.entries(after)) state.values.set(…)`
  unfoldable pub write_cells : Text → Dict (Json N) → Dict (Json N) → Dict (Json N)
  write_cells subject [] values = values
  write_cells subject ((component, value) ∷ after) values =
      write_cells subject after (put (component_cell_key subject component none none) value values)

  -- `after` and `before` of a transfer
  abbrev pub of_nullable : Option Text → Json N
  of_nullable none = null
  of_nullable (some s) = str s

  abbrev pub of_edge : EdgeFields N → FoldEdge N
  of_edge e = record {
    id = e.edge_id;
    subject = e.subject;
    object = e.object;
    edge_type = e.edge_type;
    payload = e.payload;
  }

  -- `node?.properties`
  abbrev pub properties_of : Option (FoldNode N) → Option (Dict (Json N))
  properties_of none = none
  properties_of (some node) = some node.properties

  abbrev pub kind_of : Option (FoldNode N) → Option Text
  kind_of none = none
  kind_of (some node) = node.node_kind

  abbrev pub as_json : Option (Dict (Json N)) → Option (Json N)
  as_json none = none
  as_json (some m) = some (obj (of_dict m))

  abbrev pub dict_or : Option (Dict (Json N)) → Dict (Json N) → Dict (Json N)
  dict_or none d = d
  dict_or (some m) d = m

module _ {N T : Type 0} where
  -- A create over a node that exists, under `existingCreate: "replace"`.
  unfoldable pub replace_node :
      (event_id : Text)
      → (change_index : ℕ) → (subject : Text) → FoldNode N
      → FoldState N T
      → FoldState N T
  unfolding delete_cells
  replace_node event_id change_index subject current state = record state {
    diagnostics = state.diagnostics ++ existing_create_replaced event_id change_index subject ∷ [];
    values = delete_cells subject current.properties state.values;
  }

  unfoldable pub write_node :
      (subject node_kind : Text) → Dict (Json N) → FoldState N T → FoldState N T
  unfolding write_cells
  write_node subject node_kind after state = record state {
    nodes =
        put subject
          (record { id = subject; node_kind = some node_kind; exists = true; properties = after })
          state.nodes;
    values =
        write_cells subject after (
          put (component_cell_key subject (text "core.exists") none none) (bool true) state.values);
  }

  -- case "create", over `current?.exists === true`
  unfoldable pub create_over :
      (event_id : Text)
      → (change_index : ℕ) → (subject node_kind : Text) → Dict (Json N)
      → ExistingCreate
      → Option (FoldNode N)
      → FoldState N T
      → Outcome N T
  create_over event_id change_index subject node_kind after existing none state =
      done (write_node subject node_kind after state)
  create_over event_id change_index subject node_kind after error (some current) state =
      if current.exists
      then threw (existing_node subject) state
      else done (write_node subject node_kind after state)
  create_over event_id change_index subject node_kind after replace (some current) state =
      if current.exists
      then done (
          write_node subject node_kind after
            (replace_node event_id change_index subject current state))
      else done (write_node subject node_kind after state)

  -- case "merge"; the second resolution refuses a redirect that closes a cycle, once it is set.
  unfoldable pub merge_nodes : (subject object : Text) → FoldState N T → Outcome N T
  merge_nodes subject object state = elim (resolve_node_id state.redirects subject) [
    | err at ↦ threw (redirect_cycle at) state
    | ok root ↦
        if root === object
        then threw (redirect_would_cycle object subject) state
        else let next = record state { redirects = put object subject state.redirects } in
          elim (resolve_node_id next.redirects object) [
            | err at ↦ threw (redirect_cycle at) next
            | ok _ ↦ done next
          ]
  ]

module _ {N : Type 0} ⦃number : Numbers N⦄ where
  -- The next value of an adjusted component, for a rule that admits one.
  unfoldable pub adjusted : Option (ComponentRule N) → (current amount : N) → Option N
  adjusted (some numeric) current amount = some (number.add current amount)
  adjusted (some (clamped_numeric min max)) current amount =
      some (math_min max (math_max min (number.add current amount)))
  adjusted _ current amount = none

module _ {N T : Type 0} ⦃number : Numbers N⦄ where
  -- case "destroy", over `node`
  unfoldable pub destroy_over :
      (event_id : Text)
      → (change_index : ℕ) → (subject : Text) → Dict (Json N)
      → Option (FoldNode N)
      → FoldState N T
      → FoldState N T
  destroy_over event_id change_index subject before node state =
      let s =
        diagnose_before state event_id change_index (as_json (properties_of node))
          (obj (of_dict before)) in
      record s {
        nodes =
            put subject
              (record {
                id = subject;
                node_kind = kind_of node;
                exists = false;
                properties = dict_or (properties_of node) before;
              })
              s.nodes;
        values =
            put (component_cell_key subject (text "core.exists") none none) (bool false) s.values;
      }

  -- Diagnose and set: the common part of writeTarget, transfer, reveal and conceal.
  unfoldable pub write_over :
      (event_id : Text)
      → (change_index : ℕ) → (key : Text) → (current : Option (Json N)) → (before after : Json N)
      → FoldState N T
      → FoldState N T
  write_over event_id change_index key current before after state =
      write (diagnose_before state event_id change_index current before) key after

  -- case "adjust", over `current`
  unfoldable pub adjust_over :
      (event_id : Text)
      → (change_index : ℕ) → (key : Text) → Target
      → (before amount : N) → Option (ComponentRule N)
      → Json N
      → FoldState N T
      → Outcome N T
  adjust_over event_id change_index key t before amount rule (num current) state =
      let s = diagnose_before state event_id change_index (some (num current)) (num before) in
      elim (adjusted rule current amount) [
        | none ↦ threw (undeclared_numeric t.component) s
        | some next ↦ done (write s key (num next))
      ]
  adjust_over event_id change_index key t before amount rule _ state =
      threw (not_numeric t.component t.subject) state

  -- The switch of applyChange, over the key of the change's target.
  unfoldable pub apply_at :
      (event_id : Text)
      → (change_index : ℕ) → (key : Text) → ComponentRegistry N
      → ExistingCreate
      → Assertion N
      → FoldState N T
      → Outcome N T
  apply_at id i key components existing (create subject node_kind after) state =
      create_over id i subject node_kind after existing (get subject state.nodes) state
  apply_at id i key components existing (destroy subject before) state =
      done (destroy_over id i subject before (get subject state.nodes) state)
  apply_at id i key components existing (set t before after) state =
      done (write_over id i key (get key state.values) before after state)
  apply_at id i key components existing (mark t before) state = done (
      write_over id i key (some (or_else (get key state.values) (bool false))) (bool before)
        (bool true) state)
  apply_at id i key components existing (unmark t before) state = done (
      write_over id i key (some (or_else (get key state.values) (bool false))) (bool before)
        (bool false) state)
  apply_at id i key components existing (adjust t before after amount) state =
      adjust_over id i key t before amount (get t.component components)
        (or_else (get key state.values) (num number.zero)) state
  apply_at id i key components existing (link e) state =
      done (record state { edges = put e.edge_id (of_edge e) state.edges })
  apply_at id i key components existing (unlink e) state =
      done (record state { edges = delete e.edge_id state.edges })
  apply_at id i key components existing (transfer subject object before after) state =
      done
        (write_over id i key (get key state.values) (of_nullable before) (of_nullable after) state)
  apply_at id i key components existing (reveal k) state = done (
      write_over id i key (some (or_else (get key state.values) (bool false))) (bool k.before)
        (bool true) state)
  apply_at id i key components existing (conceal k) state = done (
      write_over id i key (some (or_else (get key state.values) (bool false))) (bool k.before)
        (bool true) state)
  apply_at id i key components existing (merge subject object before) state =
      merge_nodes subject object state

  unfoldable pub apply_assertion :
      (event_id : Text)
      → (change_index : ℕ) → ComponentRegistry N
      → ExistingCreate
      → Assertion N
      → FoldState N T
      → Outcome N T
  unfolding apply_at
  apply_assertion id i components existing assertion state =
      apply_at id i (target_key assertion) components existing assertion state

  -- applyChange
  unfoldable pub apply_change :
      (event_id : Text)
      → (change_index : ℕ) → ComponentRegistry N
      → ExistingCreate
      → (retain_applied : Bool) → Change N
      → FoldState N T
      → Outcome N T
  apply_change id i components existing retain change state = do
    s ← apply_assertion id i components existing change.assertion state
    done (
        if retain
        then record s {
          applied_changes =
              s.applied_changes
              ++ (record { event_id = id; change_index = i; change = change }) ∷ [];
        }
        else s)

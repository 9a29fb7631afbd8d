-- ===== src/Storage/Checkpoint/Canonical.antt =====
-- materializeFoldState of packages/fold-storage/src/checkpoint.ts and the order in which the maps of
-- a state were filled.
use super_brain.Prelude.{◌≡◌, refl}
use mathlib.Core.List.{Permᴰ}
use super_brain.Prelude.Text.{Text, text_ordered}
use super_brain.Prelude.Sort.Laws.{HasDistinctKeys, sort_by-canonical}
use super_brain.Fold.Json.{Json}
use super_brain.Fold.State.{FoldState, FoldNode, FoldEdge}
use super_brain.Storage.Checkpoint.{materialize_fold_state, values_of}

abbrev value_key : {N : Type 0} → Text × Json N → Text
value_key e = e.0

abbrev redirect_key : Text × Text → Text
redirect_key e = e.0

module _ {N T : Type 0} where
  -- The two states hold the same cells, nodes, edges and redirects, in whatever order.
  pub record IsReordered (s s' : FoldState N T) : Type 0 where
    pub values : Permᴰ s.values s'.values
    pub nodes : Permᴰ (values_of s.nodes) (values_of s'.nodes)
    pub edges : Permᴰ (values_of s.edges) (values_of s'.edges)
    pub redirects : Permᴰ s.redirects s'.redirects
    pub diagnostics : s.diagnostics ≡ s'.diagnostics

  -- No key and no id of a node or an edge occurs twice, as in a Map.
  pub record HasUniqueKeys (s : FoldState N T) : Type 0 where
    pub values : HasDistinctKeys value_key s.values
    pub nodes : HasDistinctKeys FoldNode.id (values_of s.nodes)
    pub edges : HasDistinctKeys FoldEdge.id (values_of s.edges)
    pub redirects : HasDistinctKeys redirect_key s.redirects

  -- Two states that hold the same cells, nodes, edges and redirects in whatever order, and the same
  -- diagnostics, materialize to the same value, if no key and no id of a node or an edge occurs twice.
  pub materialize_fold_state-perm :
      (s s' : FoldState N T)
      → IsReordered s s'
      → HasUniqueKeys s
      → materialize_fold_state s ≡ materialize_fold_state s'
  unfolding materialize_fold_state
  materialize_fold_state-perm s s' p u =
      rw
        (
          sort_by-canonical value_key p.values u.values,
          sort_by-canonical FoldNode.id p.nodes u.nodes,
          sort_by-canonical FoldEdge.id p.edges u.edges,
          sort_by-canonical redirect_key p.redirects u.redirects,
          p.diagnostics,
        )
        refl

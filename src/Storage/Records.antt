-- ===== src/Storage/Records.antt =====
-- The records of packages/fold-storage/src/records.ts and what foldCheckpointSchema accepts.
use super_brain.Prelude.{ℕ, Bool, ◌&&◌, ◌||◌, leb, all, length, ◌==◌, Option, List}
use super_brain.Prelude.Text.{Text}
use super_brain.Fold.Json.{Json, Numbers}
use super_brain.Fold.Schema.{FoldEvent}
use super_brain.Fold.Schema.Validity.{non_empty, optional, is_digit, json_ok, record_ok}
use super_brain.Fold.Order.{EventCursor, Status}
use super_brain.Fold.State.{
  FoldNode, FoldEdge, FoldDiagnostic, before_mismatch, existing_create_replaced, Include,
}

pub record MaterializedFoldState (N : Type 0) : Type 0 where
  pub values : List (Text × Json N)
  pub nodes : List (FoldNode N)
  pub edges : List (FoldEdge N)
  pub redirects : List (Text × Text)
  pub diagnostics : List (FoldDiagnostic N)

pub record FoldCheckpoint (N T : Type 0) : Type 0 where
  pub include : Include
  pub component_set : Text
  pub through : Option (EventCursor T)
  pub event_count : ℕ
  pub state_digest : Text
  pub state : MaterializedFoldState N

pub data JournalRecord (N T : Type 0) : Type 0 where
  event_record : Status → FoldEvent N T → JournalRecord N T
  checkpoint_record : FoldCheckpoint N T → JournalRecord N T

-- `/^[a-f0-9]{64}$/`
unfoldable pub is_digest : Text → Bool
is_digest s = all (λ c. is_digit c || (leb b'a' c && leb c b'f')) s && length s == 64

module _ {N : Type 0} ⦃number : Numbers N⦄ where
  -- materializedNodeSchema
  unfoldable pub is_valid_node : FoldNode N → Bool
  is_valid_node node =
      non_empty node.id && optional non_empty node.node_kind && record_ok node.properties

  -- materializedEdgeSchema
  unfoldable pub is_valid_edge : FoldEdge N → Bool
  is_valid_edge edge =
      non_empty edge.id
      && non_empty edge.subject
      && non_empty edge.object
      && non_empty edge.edge_type
      && optional json_ok edge.payload

  -- materializedDiagnosticSchema
  unfoldable pub is_valid_diagnostic : FoldDiagnostic N → Bool
  is_valid_diagnostic (before_mismatch event_id change_index expected actual) =
      non_empty event_id && json_ok expected && optional json_ok actual
  is_valid_diagnostic (existing_create_replaced event_id change_index subject) =
      non_empty event_id && non_empty subject

  -- materializedFoldStateSchema
  unfoldable pub is_valid_state : MaterializedFoldState N → Bool
  unfolding is_valid_node is_valid_edge is_valid_diagnostic
  is_valid_state state =
      all (λ e. json_ok e.1) state.values
      && all is_valid_node state.nodes
      && all is_valid_edge state.edges
      && all is_valid_diagnostic state.diagnostics

  -- foldCheckpointSchema
  unfoldable pub is_valid_checkpoint : {T : Type 0} → FoldCheckpoint N T → Bool
  unfolding is_valid_state is_digest
  is_valid_checkpoint checkpoint =
      non_empty checkpoint.component_set
      && optional (λ c. non_empty c.event_id) checkpoint.through
      && is_digest checkpoint.state_digest
      && is_valid_state checkpoint.state

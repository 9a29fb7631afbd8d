-- ===== src/Storage/Digest.antt =====
-- canonicalJson and digestMaterializedState of packages/fold-storage/src/checkpoint.ts.
use super_brain.Prelude.{ℕ, true, false, Option, none, some, List, [], ◌∷◌, ◌++◌}
use super_brain.Prelude.Text.{Text, text, compare_text}
use super_brain.Prelude.Sort.{sort_by}
use super_brain.Fold.Json.{
  Json, null, bool, num, str, arr, obj, Items, nil, cons, Fields, end, field, of_dict,
}
use super_brain.Fold.Keys.{stringify_text}
use super_brain.Fold.State.{
  FoldNode, FoldEdge, FoldDiagnostic, before_mismatch, existing_create_replaced,
}
use super_brain.Storage.Records.{MaterializedFoldState}

-- What the runtime and its crypto library do: JSON.stringify of a number, a whole number as a
-- number, and sha256 of a text in hexadecimal digits.
pub record Digests (N : Type 0) : Type 0 where
  pub number_text : N → Text
  pub of_count : ℕ → N
  pub sha256 : Text → Text

-- `texts.join(",")`, followed by `rest`
unfoldable pub join_before : List Text → Text → Text
join_before [] rest = rest
join_before (s ∷ []) rest = s ++ rest
join_before (s ∷ t ∷ texts) rest = s ++ b',' ∷ join_before (t ∷ texts) rest

unfoldable pub pair_texts : List (Text × Text) → List Text
unfolding stringify_text
pair_texts [] = []
pair_texts ((key, value) ∷ fields) = stringify_text key (b':' ∷ value) ∷ pair_texts fields

-- canonicalJson: the fields of an object are sorted by their keys.
unfoldable mutual
  pub canonical_json : {N : Type 0} ⦃digests : Digests N⦄ → Json N → Text
  canonical_json null = text "null"
  canonical_json (bool true) = text "true"
  canonical_json (bool false) = text "false"
  canonical_json ⦃digests⦄ (num a) = digests.number_text a
  canonical_json (str s) = stringify_text s []
  canonical_json (arr xs) = b'[' ∷ join_before (canonical_items xs) (b']' ∷ [])
  canonical_json (obj fs) =
      b'{'
      ∷ join_before
          (pair_texts (sort_by (λ left right. compare_text left.0 right.0) (canonical_fields fs)))
          (b'}' ∷ [])

  pub canonical_items : {N : Type 0} ⦃digests : Digests N⦄ → Items N → List Text
  canonical_items nil = []
  canonical_items (cons x xs) = canonical_json x ∷ canonical_items xs

  pub canonical_fields : {N : Type 0} ⦃digests : Digests N⦄ → Fields N → List (Text × Text)
  canonical_fields end = []
  canonical_fields (field k v fs) = (k, canonical_json v) ∷ canonical_fields fs

module _ {N : Type 0} where
  abbrev pub items_of {ℓ} : {A : Type ℓ} → (A → Json N) → List A → Items N
  items_of f [] = nil
  items_of f (x ∷ xs) = cons (f x) (items_of f xs)

  -- A field that is left out when it is undefined
  abbrev pub optional_field : Text → Option (Json N) → Fields N → Fields N
  optional_field k none fs = fs
  optional_field k (some v) fs = field k v fs

  abbrev pub text_json : Option Text → Option (Json N)
  text_json none = none
  text_json (some s) = some (str s)

  unfoldable pub node_json : FoldNode N → Json N
  node_json node = obj (
      field (text "id") (str node.id) (
        optional_field (text "nodeKind") (text_json node.node_kind) (
          field (text "exists") (bool node.exists)
            (field (text "properties") (obj (of_dict node.properties)) end))))

  unfoldable pub edge_json : FoldEdge N → Json N
  edge_json edge = obj (
      field (text "id") (str edge.id) (
        field (text "subject") (str edge.subject) (
          field (text "object") (str edge.object) (
            field (text "edgeType") (str edge.edge_type)
              (optional_field (text "payload") edge.payload end)))))

module _ {N : Type 0} ⦃digests : Digests N⦄ where
  unfoldable pub diagnostic_json : FoldDiagnostic N → Json N
  diagnostic_json (before_mismatch event_id change_index expected actual) = obj (
      field (text "kind") (str (text "before-mismatch")) (
        field (text "eventId") (str event_id) (
          field (text "changeIndex") (num (digests.of_count change_index))
            (field (text "expected") expected (optional_field (text "actual") actual end)))))
  diagnostic_json (existing_create_replaced event_id change_index subject) = obj (
      field (text "kind") (str (text "existing-create-replaced")) (
        field (text "eventId") (str event_id) (
          field (text "changeIndex") (num (digests.of_count change_index))
            (field (text "subject") (str subject) end))))

  -- A materialized state as the JSON value that it is
  unfoldable pub state_json : MaterializedFoldState N → Json N
  unfolding node_json edge_json diagnostic_json
  state_json state = obj (
      field (text "values") (arr (items_of (λ e. arr (cons (str e.0) (cons e.1 nil))) state.values))
        (field (text "nodes") (arr (items_of node_json state.nodes)) (
          field (text "edges") (arr (items_of edge_json state.edges)) (
            field (text "redirects")
              (arr (items_of (λ e. arr (cons (str e.0) (cons (str e.1) nil))) state.redirects))
              (field (text "diagnostics") (arr (items_of diagnostic_json state.diagnostics))
                end)))))

  -- digestMaterializedState
  unfoldable pub digest_materialized_state : MaterializedFoldState N → Text
  unfolding state_json canonical_json
  digest_materialized_state state = digests.sha256 (canonical_json (state_json state))

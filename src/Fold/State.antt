-- ===== src/Fold/State.antt =====
-- The state and the options of packages/fold/src/fold.ts, and its reads and diagnostics.
use super_brain.Prelude.{ℕ, Bool, Option, none, some, List, [], ◌∷◌, ◌++◌, if◌then◌else◌}
use super_brain.Prelude.Text.{Text, text}
use super_brain.Prelude.Dict.{Dict, get, put}
use super_brain.Fold.Json.{Json, null, Numbers, json_equal}
use super_brain.Fold.Schema.{Change, FoldEvent}
use super_brain.Fold.Order.{EventOrderError, ForkCursor}
use super_brain.Fold.Keys.{component_cell_key}

pub data ComponentRule (N : Type 0) : Type 0 where
  numeric : ComponentRule N
  clamped_numeric : (min max : N) → ComponentRule N
  scalar_last_write flag ref set : ComponentRule N

abbrev pub ComponentRegistry : Type 0 → Type 0
ComponentRegistry N = Dict (ComponentRule N)

-- coreComponentRegistry
abbrev pub core_component_registry : {N : Type 0} ⦃num : Numbers N⦄ → ComponentRegistry N
core_component_registry ⦃num⦄ =
    (text "core.alive", flag)
    ∷ (text "core.appearance", scalar_last_write)
    ∷ (text "core.containment", ref)
    ∷ (text "core.exists", flag)
    ∷ (text "core.knowledge", set)
    ∷ (text "core.membership", set)
    ∷ (text "core.motivation", scalar_last_write)
    ∷ (text "core.position", ref)
    ∷ (text "core.possession", ref)
    ∷ (text "core.regard", clamped_numeric num.minus_one num.one)
    ∷ (text "drama.stakes", clamped_numeric num.zero num.one)
    ∷ (text "drama.state", scalar_last_write)
    ∷ (text "drama.tension", clamped_numeric num.zero num.one)
    ∷ []

pub record FoldNode (N : Type 0) : Type 0 where
  pub id : Text
  pub node_kind : Option Text
  pub exists : Bool
  pub properties : Dict (Json N)

pub record FoldEdge (N : Type 0) : Type 0 where
  pub id : Text
  pub subject : Text
  pub object : Text
  pub edge_type : Text
  pub payload : Option (Json N)

pub data FoldDiagnostic (N : Type 0) : Type 0 where
  before_mismatch :
      (event_id : Text)
      → (change_index : ℕ) → (expected : Json N) → (actual : Option (Json N)) → FoldDiagnostic N
  existing_create_replaced :
      (event_id : Text) → (change_index : ℕ) → (subject : Text) → FoldDiagnostic N

pub record AppliedChange (N : Type 0) : Type 0 where
  pub event_id : Text
  pub change_index : ℕ
  pub change : Change N

pub record FoldState (N T : Type 0) : Type 0 where
  pub values : Dict (Json N)
  pub nodes : Dict (FoldNode N)
  pub edges : Dict (FoldEdge N)
  pub redirects : Dict Text
  pub diagnostics : List (FoldDiagnostic N)
  pub applied_events : List (FoldEvent N T)
  pub applied_changes : List (AppliedChange N)

pub data Include : Type 0 where
  canon canon_and_draft : Include

pub data ExistingCreate : Type 0 where
  error replace : ExistingCreate

pub record FoldOptions (N T : Type 0) : Type 0 where
  pub include : Include
  pub cursor : Option (ForkCursor T)
  pub components : Option (ComponentRegistry N)
  pub existing_create : Option ExistingCreate
  pub retain_applied : Option Bool
  pub validated_input : Option Bool
  pub ordered_input : Option Bool

-- FoldValidationError with what its message tells, and the errors of the calls that the fold makes.
pub data FoldError (T : Type 0) : Type 0 where
  duplicate_target : (event_id key : Text) → FoldError T
  redirect_cycle : Text → FoldError T
  existing_node : Text → FoldError T
  not_numeric : (component subject : Text) → FoldError T
  undeclared_numeric : (component : Text) → FoldError T
  redirect_would_cycle : (object subject : Text) → FoldError T
  duplicate_event : Text → FoldError T
  order_error : EventOrderError T → FoldError T
  invalid_event : FoldError T

-- The state is changed in place: an error leaves the state as it stands at the throw.
pub data Outcome (N T : Type 0) : Type 0 where
  done : FoldState N T → Outcome N T
  threw : FoldError T → FoldState N T → Outcome N T

infixl 5 ◌>>=◌
abbrev pub ◌>>=◌ : {N T : Type 0} → Outcome N T → (FoldState N T → Outcome N T) → Outcome N T
done s >>= f = f s
threw e s >>= f = threw e s

module _ {N T : Type 0} where
  -- readComponent
  unfoldable pub read_component :
      FoldState N T → (subject component : Text) → (field object : Option Text) → Option (Json N)
  read_component state subject component field object =
      get (component_cell_key subject component field object) state.values

  -- emptyState
  abbrev pub empty_state : FoldState N T
  empty_state = record {
    values = [];
    nodes = [];
    edges = [];
    redirects = [];
    diagnostics = [];
    applied_events = [];
    applied_changes = [];
  }

  -- diagnoseBefore
  unfoldable pub diagnose_before :
      ⦃num : Numbers N⦄
      → FoldState N T
      → (event_id : Text) → (change_index : ℕ) → (actual : Option (Json N)) → (expected : Json N)
      → FoldState N T
  diagnose_before state event_id change_index actual expected =
      if json_equal actual expected then state else record state {
        diagnostics =
            state.diagnostics ++ before_mismatch event_id change_index expected actual ∷ [];
      }

  -- `state.values.set(key, value)`
  abbrev pub write : FoldState N T → Text → Json N → FoldState N T
  write state key value = record state { values = put key value state.values }

-- `value ?? fallback`: the fallback serves for `undefined` and for `null`.
abbrev pub or_else : {N : Type 0} → Option (Json N) → Json N → Json N
or_else none d = d
or_else (some null) d = d
or_else (some v) d = v

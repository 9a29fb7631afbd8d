-- ===== src/Fold/Schema.antt =====
-- packages/fold/src/schema.ts: the types that its zod schemas describe. `N` is the type of JSON
-- numbers and `T` that of the finite times `at.t`; an optional property is an `Option`, and a
-- property with one literal value (`specVersion`, `verb`, a literal `after`) is left out.
pub mod Validity
use super_brain.Prelude.{ℕ, Bool, Option, List}
use super_brain.Prelude.Text.{Text}
use super_brain.Prelude.Dict.{Dict}
use super_brain.Fold.Json.{Json}

pub data Basis : Type 0 where
  authored observed estimated derived : Basis

pub data MethodKind : Type 0 where
  sensor classifier oracle model human system : MethodKind

pub record Method (N : Type 0) : Type 0 where
  pub kind : MethodKind
  pub id : Option Text
  pub detail : Option (Dict (Json N))

pub record Provenance (N : Type 0) : Type 0 where
  pub basis : Basis
  pub confidence : Option N
  pub scale : Option Text
  pub method : Option (Method N)

-- targetFields
pub record Target : Type 0 where
  pub subject : Text
  pub component : Text
  pub field : Option Text
  pub object : Option Text

-- edgeFields
pub record EdgeFields (N : Type 0) : Type 0 where
  pub subject : Text
  pub object : Text
  pub edge_type : Text
  pub edge_id : Text
  pub payload : Option (Json N)

-- knowledgeFields
pub record Knowledge : Type 0 where
  pub subject : Text
  pub audience : Text
  pub object : Option Text
  pub before : Bool

-- What a change asserts, by its verb.
pub data Assertion (N : Type 0) : Type 0 where
  create : (subject node_kind : Text) → (after : Dict (Json N)) → Assertion N
  destroy : (subject : Text) → (before : Dict (Json N)) → Assertion N
  set : Target → (before after : Json N) → Assertion N
  adjust : Target → (before after amount : N) → Assertion N
  mark unmark : Target → (before : Bool) → Assertion N
  link unlink : EdgeFields N → Assertion N
  transfer : (subject object : Text) → (before after : Option Text) → Assertion N
  reveal conceal : Knowledge → Assertion N
  merge : (subject object : Text) → (before : Dict (Json N)) → Assertion N

pub record Change (N : Type 0) : Type 0 where
  pub assertion : Assertion N
  pub provenance : Option (Provenance N)

pub data AuthorKind : Type 0 where
  human simulation agent rule generator ingest sensor : AuthorKind

pub record Author : Type 0 where
  pub kind : AuthorKind
  pub id : Text
  pub production_id : Option Text

pub record CaptureEnvelope : Type 0 where
  pub workspace : Text
  pub space : Option Text
  pub creator : Option Text
  pub identity : Option (Dict Text)

pub data Phase : Type 0 where
  online heartbeat degraded offline : Phase

pub record Lifecycle : Type 0 where
  pub sensor : Text
  pub phase : Phase
  pub observed_at : Text
  pub heartbeat_window_ms : ℕ

pub record Measurement (N : Type 0) : Type 0 where
  pub value : N
  pub provenance : Provenance N

pub data Granularity : Type 0 where
  beat scene chapter era session : Granularity

pub record Effect (N : Type 0) : Type 0 where
  pub id : Text
  pub type : Text
  pub payload : Json N

pub record FoldEvent (N T : Type 0) : Type 0 where
  pub id : Text
  pub kind : Text
  pub title : Text
  pub description : Option Text
  pub t : T
  pub world_date : Text
  pub granularity : Option Granularity
  pub timeline_id : Option Text
  pub participants : Option (List Text)
  pub location : Option Text
  pub author : Author
  pub caused_by : Option (List Text)
  pub magnitude : Option (Measurement N)
  pub valence : Option (Measurement N)
  pub capture : CaptureEnvelope
  pub lifecycle : Option Lifecycle
  pub changes : List (Change N)
  pub effects : Option (List (Effect N))
  pub extensions : Option (Dict (Json N))

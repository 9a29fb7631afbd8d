-- ===== src/Fold/Schema/Validity.antt =====
-- packages/fold/src/schema.ts: what eventSchema accepts. Values of the types of Schema already
-- have the right shape, so what is left are the restrictions on lengths, numbers and texts and the
-- rules of superRefine.
use super_brain.Prelude.{
  ℕ, suc, Bool, true, false, not, ◌&&◌, ◌||◌, Option, none, some, List, [], ◌∷◌, all, any, is_some,
  leb, ltb, ◌==◌, if◌then◌else◌,
}
use super_brain.Prelude.Text.{Text, text, ◌===◌}
use super_brain.Prelude.Dict.{Dict}
use super_brain.Fold.Json.{Json, num, arr, obj, Items, nil, cons, Fields, end, field, Numbers, le}
use super_brain.Fold.Schema.{
  Method, Provenance, Target, EdgeFields, Knowledge, Assertion, create, destroy, set, adjust, mark,
  unmark, link, unlink, transfer, reveal, conceal, merge, Change, AuthorKind, sensor, Author,
  CaptureEnvelope, Lifecycle, Measurement, Effect, FoldEvent,
}

-- Dates as the schema library and the runtime read them.
pub record Dates (N : Type 0) : Type 0 where
  -- zod's `z.string().datetime({ offset: true })`
  pub is_datetime : Text → Bool
  -- `Date.parse`
  pub parse_date : Text → N
  -- A whole number of milliseconds as a JavaScript number
  pub of_ms : ℕ → N

-- `.min(1)`
abbrev pub non_empty : Text → Bool
non_empty [] = false
non_empty (_ ∷ _) = true

-- `.optional()`
abbrev pub optional {ℓ} : {A : Type ℓ} → (A → Bool) → Option A → Bool
optional p none = true
optional p (some a) = p a

abbrev pub is_digit : ℕ → Bool
is_digit c = leb b'0' c && leb c b'9'

abbrev pub is_slug_unit : ℕ → Bool
is_slug_unit c = leb b'a' c && leb c b'z' || is_digit c || c == b'-'

-- The rest of a text behind a prefix, if it has that prefix.
unfoldable pub drop_prefix : Text → Text → Option Text
drop_prefix [] s = some s
drop_prefix (p ∷ ps) [] = none
drop_prefix (p ∷ ps) (c ∷ cs) = let rest = drop_prefix ps cs in if p == c then rest else none

-- Takes units off the front as long as the test holds, with their number.
unfoldable pub span : (ℕ → Bool) → Text → ℕ × Text
span p [] = (0, [])
span p (c ∷ cs) = let (n, rest) = span p cs in if p c then (suc n, rest) else (0, c ∷ cs)

-- What follows a shape, in which `0` stands for any digit and other units for themselves.
unfoldable pub after_shape : Text → Text → Option Text
after_shape [] s = some s
after_shape (p ∷ ps) [] = none
after_shape (p ∷ ps) (c ∷ cs) =
    let rest = after_shape ps cs in
    if (p == b'0' && is_digit c) || (not (p == b'0') && p == c) then rest else none

abbrev is_end : Option Text → Bool
is_end (some []) = true
is_end _ = false

-- `(?:[T ]\d{2}:\d{2})?$` behind what has been matched
abbrev ends_with_time : Option Text → Bool
ends_with_time none = false
ends_with_time (some []) = true
ends_with_time (some (c ∷ cs)) =
    is_end (after_shape (text "T00:00") (c ∷ cs)) || is_end (after_shape (text " 00:00") (c ∷ cs))

-- `/^\d{4,6}-\d{2}-\d{2}(?:[T ]\d{2}:\d{2})?$/`
unfoldable pub is_world_date : Text → Bool
unfolding span after_shape
is_world_date s =
    let (n, rest) = span is_digit s in
    leb 4 n && leb n 6 && ends_with_time (after_shape (text "-00-00") rest)

-- `[a-z0-9-]+$`, and `[a-z0-9-]+\.[a-z0-9-]+$`
unfoldable pub is_slug : Text → Bool
unfolding span
is_slug s = let (n, rest) = span is_slug_unit s in ltb 0 n && not (non_empty rest)

unfoldable pub is_dotted_slug : Text → Bool
unfolding span is_slug
is_dotted_slug s =
    let (n, rest) = span is_slug_unit s in
    ltb 0 n
    && optional is_slug (drop_prefix (text ".") rest)
    && is_some (drop_prefix (text ".") rest)

abbrev pub core_node_kinds : List Text
core_node_kinds =
    text "character"
    ∷ text "location"
    ∷ text "object"
    ∷ text "organization"
    ∷ text "faction"
    ∷ text "creature"
    ∷ text "concept"
    ∷ text "artifact"
    ∷ text "media-asset"
    ∷ text "narrative-node"
    ∷ text "fact"
    ∷ text "theme"
    ∷ text "audience"
    ∷ text "timeline"
    ∷ []

-- nodeKindSchema
unfoldable pub is_node_kind : Text → Bool
unfolding is_dotted_slug drop_prefix
is_node_kind s =
    any (λ k. k === s) core_node_kinds
    || (is_some (drop_prefix (text "x.") s) && optional is_dotted_slug (drop_prefix (text "x.") s))

-- `\s`
abbrev pub is_space : ℕ → Bool
is_space c =
    (leb 9 c && leb c 13)
    || c == 32
    || c == 160
    || c == 0x1680
    || (leb 0x2000 c && leb c 0x200A)
    || c == 0x2028
    || c == 0x2029
    || c == 0x202F
    || c == 0x205F
    || c == 0x3000
    || c == 0xFEFF

abbrev is_id_tail : Option Text → Bool
is_id_tail none = false
is_id_tail (some s) = non_empty s && all (λ c. not (is_space c)) s

-- `/^urn:sensor:[^\s]+$/`
unfoldable pub is_sensor_urn : Text → Bool
unfolding drop_prefix
is_sensor_urn s = is_id_tail (drop_prefix (text "urn:sensor:") s)

-- jsonValueSchema: every number is finite.
unfoldable mutual
  pub is_finite_json : {N : Type 0} → (N → Bool) → Json N → Bool
  is_finite_json finite (num a) = finite a
  is_finite_json finite (arr xs) = are_finite_items finite xs
  is_finite_json finite (obj fs) = are_finite_fields finite fs
  is_finite_json finite _ = true

  pub are_finite_items : {N : Type 0} → (N → Bool) → Items N → Bool
  are_finite_items finite nil = true
  are_finite_items finite (cons x xs) = is_finite_json finite x && are_finite_items finite xs

  pub are_finite_fields : {N : Type 0} → (N → Bool) → Fields N → Bool
  are_finite_fields finite end = true
  are_finite_fields finite (field k v fs) = is_finite_json finite v && are_finite_fields finite fs

-- targetFields and knowledgeFields
abbrev pub target_ok : Target → Bool
target_ok t =
    non_empty t.subject
    && non_empty t.component
    && optional non_empty t.field
    && optional non_empty t.object

abbrev pub knowledge_ok : Knowledge → Bool
knowledge_ok k = non_empty k.subject && non_empty k.audience && optional non_empty k.object

module _ {N : Type 0} ⦃number : Numbers N⦄ where
  open number use {zero as n_zero, one as n_one, finite}

  abbrev pub json_ok : Json N → Bool
  json_ok v = is_finite_json finite v

  abbrev pub record_ok : Dict (Json N) → Bool
  record_ok m = all (λ e. json_ok e.1) m

  -- methodSchema
  unfoldable pub is_valid_method : Method N → Bool
  unfolding is_finite_json
  is_valid_method m = optional non_empty m.id && optional record_ok m.detail

  -- provenanceSchema
  unfoldable pub is_valid_provenance : Provenance N → Bool
  unfolding is_valid_method
  is_valid_provenance p =
      optional (λ c. le n_zero c && le c n_one) p.confidence
      && optional non_empty p.scale
      && optional is_valid_method p.method

  abbrev pub edge_ok : EdgeFields N → Bool
  edge_ok e =
      non_empty e.subject
      && non_empty e.object
      && non_empty e.edge_type
      && non_empty e.edge_id
      && optional json_ok e.payload

  -- The members of changeSchema
  unfoldable pub is_valid_assertion : Assertion N → Bool
  unfolding is_finite_json is_node_kind
  is_valid_assertion (create subject node_kind after) =
      non_empty subject && is_node_kind node_kind && record_ok after
  is_valid_assertion (destroy subject before) = non_empty subject && record_ok before
  is_valid_assertion (set t before after) = target_ok t && json_ok before && json_ok after
  is_valid_assertion (adjust t before after amount) =
      target_ok t && finite before && finite after && finite amount
  is_valid_assertion (mark t before) = target_ok t
  is_valid_assertion (unmark t before) = target_ok t
  is_valid_assertion (link e) = edge_ok e
  is_valid_assertion (unlink e) = edge_ok e
  is_valid_assertion (transfer subject object before after) =
      non_empty subject && non_empty object && optional non_empty before && optional non_empty after
  is_valid_assertion (reveal k) = knowledge_ok k
  is_valid_assertion (conceal k) = knowledge_ok k
  is_valid_assertion (merge subject object before) =
      non_empty subject && non_empty object && record_ok before

  -- changeSchema
  unfoldable pub is_valid_change : Change N → Bool
  unfolding is_valid_assertion is_valid_provenance
  is_valid_change c = is_valid_assertion c.assertion && optional is_valid_provenance c.provenance

  -- measurementSchema
  unfoldable pub is_valid_measurement : Measurement N → Bool
  unfolding is_valid_provenance
  is_valid_measurement m = finite m.value && is_valid_provenance m.provenance

  abbrev pub effect_ok : Effect N → Bool
  effect_ok e = non_empty e.id && non_empty e.type && json_ok e.payload

-- `.min(1)` on an array
abbrev pub some_change {ℓ} : {A : Type ℓ} → List A → Bool
some_change [] = false
some_change (_ ∷ _) = true

-- authorSchema and captureEnvelopeSchema
unfoldable pub is_valid_author : Author → Bool
is_valid_author a = non_empty a.id && optional non_empty a.production_id

unfoldable pub is_valid_capture : CaptureEnvelope → Bool
is_valid_capture c =
    non_empty c.workspace
    && optional non_empty c.space
    && optional non_empty c.creator
    && optional (λ m. all (λ e. non_empty e.1) m) c.identity

abbrev pub is_sensor : AuthorKind → Bool
is_sensor sensor = true
is_sensor _ = false

-- superRefine's rule for lifecycle metadata that is present
abbrev pub lifecycle_matches : (kind : Text) → Author → Lifecycle → Bool
lifecycle_matches kind author l =
    kind === text "lifecycle" && is_sensor author.kind && author.id === l.sensor

-- The callback of superRefine raises no issue.
unfoldable pub is_refined : (kind : Text) → Author → Option Lifecycle → Bool
unfolding is_sensor_urn
is_refined kind author lifecycle =
    (not (is_sensor author.kind) || is_sensor_urn author.id)
    && (not (kind === text "lifecycle") || is_some lifecycle)
    && optional (lifecycle_matches kind author) lifecycle

-- lifecycleSchema
unfoldable pub is_valid_lifecycle : (is_datetime : Text → Bool) → Lifecycle → Bool
is_valid_lifecycle is_datetime l =
    non_empty l.sensor && is_datetime l.observed_at && ltb 0 l.heartbeat_window_ms

module _ {N : Type 0} ⦃number : Numbers N⦄ ⦃dates : Dates N⦄ where
  -- eventSchema
  unfoldable pub is_valid_event : {T : Type 0} → FoldEvent N T → Bool
  unfolding is_valid_author is_valid_measurement is_valid_capture is_valid_lifecycle is_valid_change
      is_world_date is_refined is_finite_json
  is_valid_event e =
      non_empty e.id
      && non_empty e.kind
      && non_empty e.title
      && is_world_date e.world_date
      && optional non_empty e.timeline_id
      && optional (λ ids. all non_empty ids) e.participants
      && optional non_empty e.location
      && is_valid_author e.author
      && optional (λ ids. all non_empty ids) e.caused_by
      && optional is_valid_measurement e.magnitude
      && optional is_valid_measurement e.valence
      && is_valid_capture e.capture
      && optional (is_valid_lifecycle dates.is_datetime) e.lifecycle
      && some_change e.changes
      && all is_valid_change e.changes
      && optional (λ es. all effect_ok es) e.effects
      && optional record_ok e.extensions
      && is_refined e.kind e.author e.lifecycle

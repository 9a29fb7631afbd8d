-- ===== src/Fold/Keys.antt =====
-- componentCellKey and targetKey of packages/fold/src/fold.ts, with JSON.stringify on an array of
-- strings and nulls as the language defines it. A text is built from its end: `k` is what follows.
pub mod Injective
use super_brain.Prelude.{
  ℕ, ◌+◌, ◌/◌, ◌%◌, Bool, true, false, not, ◌&&◌, ◌||◌, Option, none, some, List, [], ◌∷◌, ◌++◌,
  leb, ltb, ◌==◌, if◌then◌else◌,
}
use super_brain.Prelude.Text.{Text, text}
use super_brain.Fold.Schema.{
  Assertion, create, destroy, set, adjust, mark, unmark, link, unlink, transfer, reveal, conceal,
  merge, Target,
}

-- Halves of a surrogate pair.
abbrev pub is_high : ℕ → Bool
is_high c = leb 0xD800 c && ltb c 0xDC00

abbrev pub is_low : ℕ → Bool
is_low c = leb 0xDC00 c && ltb c 0xE000

abbrev pub starts_low : Text → Bool
starts_low [] = false
starts_low (c ∷ cs) = is_low c

-- A unit that stands for itself between quotes, if it is no half of a pair.
abbrev pub is_plain : ℕ → Bool
is_plain c = leb 32 c && not (c == b'"') && not (c == 92)

-- The letter after the backslash: \b \t \n \f \r \" \\
unfoldable pub short_escape : ℕ → Option ℕ
short_escape c =
    if c == 8
    then some b'b'
    else if c == 9
    then some b't'
    else if c == 10
    then some b'n'
    else if c == 12
    then some b'f'
    else if c == 13
    then some b'r'
    else if c == b'"'
    then some b'"'
    else if c == 92
    then some 92
    else none

unfoldable pub hex_digit : ℕ → ℕ
hex_digit d = if ltb d 10 then 48 + d else 87 + d

unfoldable pub escape : ℕ → Text → Text
escape c k = elim (short_escape c) [
  | some letter ↦ 92 ∷ letter ∷ k
  | none ↦
      92
      ∷ b'u'
      ∷ hex_digit (c / 4096)
      ∷ hex_digit (c / 256 % 16)
      ∷ hex_digit (c / 16 % 16)
      ∷ hex_digit (c % 16)
      ∷ k
]

unfoldable pub emit : Bool → ℕ → Text → Text
unfolding escape
emit true c k = c ∷ k
emit false c k = escape c k

-- Whether a unit stands for itself: a half of a pair does beside its other half only.
unfoldable pub is_raw : Bool → ℕ → Text → Bool
is_raw after_high c cs =
    if is_high c then starts_low cs else if is_low c then after_high else is_plain c

-- The units of a string and the closing quote.
unfoldable pub quote_units : Bool → Text → Text → Text
unfolding emit is_raw
quote_units after_high [] k = b'"' ∷ k
quote_units after_high (c ∷ cs) k =
    emit (is_raw after_high c cs) c (quote_units (is_high c && starts_low cs) cs k)

-- JSON.stringify on a string, and on a string or null
unfoldable pub stringify_text : Text → Text → Text
unfolding quote_units
stringify_text s k = b'"' ∷ quote_units false s k

unfoldable pub stringify_nullable : Option Text → Text → Text
unfolding stringify_text
stringify_nullable none k = b'n' ∷ b'u' ∷ b'l' ∷ b'l' ∷ k
stringify_nullable (some s) k = stringify_text s k

-- componentCellKey
unfoldable pub component_cell_key : Text → Text → Option Text → Option Text → Text
unfolding stringify_text stringify_nullable
component_cell_key subject component field object =
    b'['
    ∷ stringify_text subject (
        b','
        ∷ stringify_text component
            (b',' ∷ stringify_nullable field (b',' ∷ stringify_nullable object (b']' ∷ []))))

module _ {N : Type 0} where
  -- targetKey
  unfoldable pub target_key : Assertion N → Text
  target_key (create subject node_kind after) =
      component_cell_key subject (text "core.exists") none none
  target_key (destroy subject before) = component_cell_key subject (text "core.exists") none none
  target_key (set t before after) = component_cell_key t.subject t.component t.field t.object
  target_key (adjust t before after amount) =
      component_cell_key t.subject t.component t.field t.object
  target_key (mark t before) = component_cell_key t.subject t.component t.field t.object
  target_key (unmark t before) = component_cell_key t.subject t.component t.field t.object
  target_key (link e) =
      component_cell_key e.subject (text "edge:" ++ e.edge_type) (some e.edge_id) (some e.object)
  target_key (unlink e) =
      component_cell_key e.subject (text "edge:" ++ e.edge_type) (some e.edge_id) (some e.object)
  target_key (transfer subject object before after) =
      component_cell_key object (text "core.possession") none none
  target_key (reveal k) =
      component_cell_key k.audience (text "core.knowledge") (some (text "known")) (some k.subject)
  target_key (conceal k) =
      component_cell_key k.audience (text "core.knowledge") (some (text "shielded"))
        (some k.subject)
  target_key (merge subject object before) =
      component_cell_key object (text "core.redirect") none none

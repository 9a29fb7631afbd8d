-- ===== src/Fold/Keys/Injective.antt =====
-- componentCellKey of packages/fold/src/fold.ts: the cells that keys stand for.
use super_brain.Prelude.{
  ℕ, ◌/◌, ◌%◌, ◌<◌, ◌≡◌, ◌≢◌, refl, sym, ap, Bool, true, false, ◌&&◌, Option, none, some, [], ◌∷◌,
  Option-cases, inl, inr, arith,
}
use super_brain.Prelude.Text.{Text}
use super_brain.Fold.Keys.{
  is_high, starts_low, is_plain, short_escape, hex_digit, escape, emit, is_raw, quote_units,
  stringify_text, stringify_nullable, component_cell_key,
}

hex_digit-injective : (a b : ℕ) → a < 16 → b < 16 → hex_digit a ≡ hex_digit b → a ≡ b
unfolding hex_digit
hex_digit-injective a b p q h = ground arith

short_escape-injective : (c d s : ℕ) → short_escape c ≡ some s → short_escape d ≡ some s → c ≡ d
unfolding short_escape
short_escape-injective c d s p q = ground arith

short_escape-ne_u : (c s : ℕ) → short_escape c ≡ some s → s ≢ b'u'
unfolding short_escape
short_escape-ne_u c s p q = ground arith

emit_head :
    (raw : Bool) (c : ℕ) (k l : Text)
    → (raw ≡ true → is_plain c ≡ true)
    → emit raw c k ≡ b'"' ∷ l
    → ⊥
unfolding emit
emit_head true c k l p h = ground arith
emit_head false c k l p h = ground arith

digits-injective :
    (c d : ℕ)
    → c < 65536
    → d < 65536
    → hex_digit (c / 4096) ≡ hex_digit (d / 4096)
    → hex_digit (c / 256 % 16) ≡ hex_digit (d / 256 % 16)
    → hex_digit (c / 16 % 16) ≡ hex_digit (d / 16 % 16)
    → hex_digit (c % 16) ≡ hex_digit (d % 16)
    → c ≡ d
digits-injective c d p q h₃ h₂ h₁ h₀ = omega (
  arith,
  hex_digit-injective (c / 4096) (d / 4096) (omega arith) (omega arith) h₃,
  hex_digit-injective (c / 256 % 16) (d / 256 % 16) (omega arith) (omega arith) h₂,
  hex_digit-injective (c / 16 % 16) (d / 16 % 16) (omega arith) (omega arith) h₁,
  hex_digit-injective (c % 16) (d % 16) (omega arith) (omega arith) h₀,
)

escape-injective :
    (c d : ℕ) (k l : Text) → c < 65536 → d < 65536 → escape c k ≡ escape d l → (c ≡ d) × (k ≡ l)
unfolding escape
escape-injective c d k l p q h = elim (Option-cases (short_escape c)) [
  | inl e ↦ elim (Option-cases (short_escape d)) [
    | inl f ↦ ground (arith, digits-injective c d)
    | inr (t, f) ↦ ground (arith, short_escape-ne_u d t f)
  ]
  | inr (s, e) ↦ elim (Option-cases (short_escape d)) [
    | inl f ↦ ground (arith, short_escape-ne_u c s e)
    | inr (t, f) ↦ ground (arith, short_escape-injective c d s e)
  ]
]

plain_of_raw :
    (after_high : Bool) (c : ℕ) (cs : Text) → is_raw after_high c cs ≡ true → is_plain c ≡ true
unfolding is_raw
plain_of_raw after_high c cs h = ground arith

small_of_not_raw :
    (after_high : Bool) (c : ℕ) (cs : Text) → is_raw after_high c cs ≡ false → c < 65536
unfolding is_raw
small_of_not_raw after_high c cs h = ground arith

escape_head : (c d : ℕ) (k l : Text) → escape c k ≡ d ∷ l → d ≡ 92
unfolding escape
escape_head c d k l h = ground arith

emit-injective :
    (raw raw' : Bool) (c d : ℕ) (k l : Text)
    → (raw ≡ true → is_plain c ≡ true)
    → (raw' ≡ true → is_plain d ≡ true)
    → (raw ≡ false → c < 65536)
    → (raw' ≡ false → d < 65536)
    → emit raw c k ≡ emit raw' d l
    → (c ≡ d) × (k ≡ l)
unfolding emit
emit-injective true true c d k l _ _ _ _ h = ground arith
emit-injective true false c d k l p _ _ _ h = absurd (ground (arith, escape_head d c l k (sym h)))
emit-injective false true c d k l _ p _ _ h = absurd (ground (arith, escape_head c d k l h))
emit-injective false false c d k l _ _ p q h = escape-injective c d k l (p refl) (q refl) h

quote_units-injective :
    (a b : Bool) (s t k l : Text) → quote_units a s k ≡ quote_units b t l → (s ≡ t) × (k ≡ l)
unfolding quote_units
quote_units-injective a b [] [] k l h = ground arith
quote_units-injective a b [] (d ∷ t) k l h =
    absurd (emit_head (is_raw b d t) d _ k (plain_of_raw b d t) (sym h))
quote_units-injective a b (c ∷ s) [] k l h =
    absurd (emit_head (is_raw a c s) c _ l (plain_of_raw a c s) h)
quote_units-injective a b (c ∷ s) (d ∷ t) k l h =
    let (same, tails) =
      emit-injective (is_raw a c s) (is_raw b d t) c d _ _ (plain_of_raw a c s) (plain_of_raw b d t)
        (small_of_not_raw a c s) (small_of_not_raw b d t) h in
    let (rest, ends) =
      quote_units-injective (is_high c && starts_low s) (is_high d && starts_low t) s t k l tails in
    (ground arith, ends)

stringify_text-injective :
    (s t k l : Text) → stringify_text s k ≡ stringify_text t l → (s ≡ t) × (k ≡ l)
unfolding stringify_text
stringify_text-injective s t k l h = quote_units-injective false false s t k l (ground arith)

stringify_nullable-injective :
    (s t : Option Text) (k l : Text)
    → stringify_nullable s k ≡ stringify_nullable t l
    → (s ≡ t) × (k ≡ l)
unfolding stringify_nullable
stringify_nullable-injective none none k l h = ground arith
stringify_nullable-injective none (some t) k l h = absurd (ground arith)
stringify_nullable-injective (some s) none k l h = absurd (ground arith)
stringify_nullable-injective (some s) (some t) k l h =
    let (e, tails) = stringify_text-injective s t k l h in (ap some e, tails)

cons_tail : {a b : ℕ} {k l : Text} → (a ∷ k) ≡ (b ∷ l) → k ≡ l
cons_tail h = ground arith

-- Two cells have one key only if they agree in subject, component, field and object, an absent
-- field or object being different from every present one.
pub component_cell_key-injective :
    (s c : Text) (f o : Option Text) (s' c' : Text) (f' o' : Option Text)
    → component_cell_key s c f o ≡ component_cell_key s' c' f' o'
    → (s ≡ s') × (c ≡ c') × (f ≡ f') × (o ≡ o')
unfolding component_cell_key
component_cell_key-injective s c f o s' c' f' o' h =
    let (es, h₁) = stringify_text-injective s s' _ _ (cons_tail h) in
    let (ec, h₂) = stringify_text-injective c c' _ _ (cons_tail h₁) in
    let (ef, h₃) = stringify_nullable-injective f f' _ _ (cons_tail h₂) in
    let (eo, h₄) = stringify_nullable-injective o o' _ _ (cons_tail h₃) in (es, ec, ef, eo)

-- ===== src/Fold/Apply/Redirects.antt =====
-- resolveNodeId of packages/fold/src/fold.ts against chains of redirects.
use super_brain.Prelude.{
  ℕ, zero, suc, ◌+◌, ◌≤◌, ◌<◌, ◌≡◌, ◌↔◌, refl, sym, ap, ◌∙◌, true, false, none, some, List, [], ◌∷◌,
  All, length, if◌then◌else◌, Bool-cases, Option-cases, Result, ok, err, inl, inr, arith,
}
use mathlib.Core.Path.{subst}
use super_brain.Prelude.Text.{Text, ◌===◌, ===_iff, eq_of_===}
use super_brain.Prelude.Dict.{Dict, get, put, get-put}
use super_brain.Fold.Order.{has}
use super_brain.Fold.Apply.{resolve_from, resolve_node_id}

-- `d` redirects lead from `n` to `r`, which is not redirected.
abbrev pub Chain : Dict Text → ℕ → Text → Text → Type 0
Chain m zero n r = (get n m ≡ none) × (n ≡ r)
Chain m (suc d) n r = (k : Text) × (get n m ≡ some k) × Chain m d k r

-- `d` redirects lead from `n` to `k`.
abbrev pub Steps : Dict Text → ℕ → Text → Text → Type 0
Steps m zero n k = n ≡ k
Steps m (suc d) n k = (j : Text) × (get n m ≡ some j) × Steps m d j k

Chain-unique :
    (m : Dict Text) (d e : ℕ) (n r s : Text) → Chain m d n r → Chain m e n s → (d ≡ e) × (r ≡ s)
Chain-unique m zero zero n r s (_, p) (_, q) = (refl, sym p ∙ q)
Chain-unique m zero (suc e) n r s (p, _) (k, q, _) = absurd (ground arith)
Chain-unique m (suc d) zero n r s (k, q, _) (p, _) = absurd (ground arith)
Chain-unique m (suc d) (suc e) n r s (k, p, c) (j, q, c') =
    let same : j ≡ k = ground arith in
    let (x, y) = Chain-unique m d e k r s c (subst (λ i. Chain m e i s) same c') in (ap suc x, y)

Steps-next :
    (m : Dict Text) (d : ℕ) (v n k : Text) → Steps m d v n → get n m ≡ some k → Steps m (suc d) v k
Steps-next m zero v n k p q = (k, rw p q, refl)
Steps-next m (suc d) v n k (j, p, s) q = (j, p, Steps-next m d j n k s q)

-- The redirects whose ids have not been visited.
unvisited : List Text → Dict Text → ℕ
unvisited visited [] = 0
unvisited visited ((k, _) ∷ m) =
    let rest = unvisited visited m in if has visited k then rest else suc rest

unvisited-le :
    (visited : List Text) (n : Text) (m : Dict Text)
    → unvisited (n ∷ visited) m ≤ unvisited visited m
unfolding unvisited has
unvisited-le visited n [] = omega arith
unvisited-le visited n ((k, _) ∷ m) = ground (arith, unvisited-le visited n m)

unvisited-lt :
    (visited : List Text) (n k : Text) (m : Dict Text)
    → get n m ≡ some k
    → has visited n ≡ false
    → unvisited (n ∷ visited) m < unvisited visited m
unfolding unvisited has get
unvisited-lt visited n k [] h f = cc
unvisited-lt visited n k ((j, v) ∷ m) h f =
    ground (arith, unvisited-lt visited n k m, unvisited-le visited n m, ===_iff j n, ===_iff n j)

unvisited-le-length : (m : Dict Text) → unvisited [] m ≤ length m
unfolding unvisited has
unvisited-le-length [] = omega arith
unvisited-le-length (_ ∷ m) = ground (arith, unvisited-le-length m)

-- Every visited id leads to `n` by one redirect or more.
abbrev LeadTo : Dict Text → List Text → Text → Type 0
LeadTo m visited n = All (λ v. (d : ℕ) × Steps m (suc d) v n) visited

LeadTo-next :
    (m : Dict Text) (visited : List Text) (n k : Text)
    → get n m ≡ some k
    → LeadTo m visited n
    → LeadTo m (n ∷ visited) k
LeadTo-next m visited n k e a = ((0, (k, e, refl)), go visited a)
  where
    go : (vs : List Text) → LeadTo m vs n → LeadTo m vs k
    go [] a = tt
    go (v ∷ vs) ((d, s), a) = ((suc d, Steps-next m (suc d) v n k s e), go vs a)

LeadTo-has :
    (m : Dict Text) (visited : List Text) (n : Text)
    → LeadTo m visited n
    → has visited n ≡ true
    → (d : ℕ) × Steps m (suc d) n n
unfolding has
LeadTo-has m [] n a h = cc
LeadTo-has m (v ∷ vs) n ((d, s), a) h = elim (Bool-cases (v === n)) [
  | inl e ↦ (d, subst (λ x. Steps m (suc d) x n) (eq_of_=== v n e) s)
  | inr e ↦ LeadTo-has m vs n a (ground arith)
]

-- How a resolution ends, with the redirects that it followed.
abbrev pub Ends : Dict Text → Text → Result Text Text → Type 0
Ends m n (ok r) = (d : ℕ) × Chain m d n r
Ends m n (err c) = (e : ℕ) × Steps m e n c × (d : ℕ) × Steps m (suc d) c c

Ends-next :
    (m : Dict Text) (n k : Text) (o : Result Text Text) → get n m ≡ some k → Ends m k o → Ends m n o
Ends-next m n k (ok r) e (d, c) = (suc d, (k, e, c))
Ends-next m n k (err c) e (f, s, d, t) = (suc f, (k, e, s), d, t)

resolve_from-root :
    (fuel : ℕ) (visited : List Text) (n : Text) (m : Dict Text)
    → get n m ≡ none
    → resolve_from (suc fuel) visited n m ≡ ok n
unfolding resolve_from
resolve_from-root fuel visited n m e = ground arith

resolve_from-seen :
    (fuel : ℕ) (visited : List Text) (n k : Text) (m : Dict Text)
    → get n m ≡ some k
    → has visited n ≡ true
    → resolve_from (suc fuel) visited n m ≡ err n
unfolding resolve_from
resolve_from-seen fuel visited n k m e h = ground arith

resolve_from-next :
    (fuel : ℕ) (visited : List Text) (n k : Text) (m : Dict Text)
    → get n m ≡ some k
    → has visited n ≡ false
    → resolve_from (suc fuel) visited n m ≡ resolve_from fuel (n ∷ visited) k m
unfolding resolve_from
resolve_from-next fuel visited n k m e h = ground arith

resolve_from-Ends :
    (fuel : ℕ) (visited : List Text) (n : Text) (m : Dict Text)
    → unvisited visited m < fuel
    → LeadTo m visited n
    → Ends m n (resolve_from fuel visited n m)
resolve_from-Ends zero visited n m h a = absurd (omega arith)
resolve_from-Ends (suc fuel) visited n m h a = elim (Option-cases (get n m)) [
  | inl e ↦ subst (Ends m n) (sym (resolve_from-root fuel visited n m e)) (0, (e, refl))
  | inr (k, e) ↦ elim (Bool-cases (has visited n)) [
    | inl seen ↦
        subst (Ends m n) (sym (resolve_from-seen fuel visited n k m e seen))
          (let (d, s) = LeadTo-has m visited n a seen in (0, refl, d, s))
    | inr new ↦ subst (Ends m n) (sym (resolve_from-next fuel visited n k m e new)) (
        Ends-next m n k _ e (
          resolve_from-Ends fuel (n ∷ visited) k m (omega (arith, unvisited-lt visited n k m e new))
            (LeadTo-next m visited n k e a)))
  ]
]

-- Resolving an id ends in one of two ways: it returns an id that is not redirected, reached by a
-- chain of redirects from the given one, or it reports an id that is reached so and that
-- redirects lead back to itself.
pub resolve_node_id-Ends : (m : Dict Text) (n : Text) → Ends m n (resolve_node_id m n)
unfolding resolve_node_id
resolve_node_id-Ends m n =
    resolve_from-Ends (suc (length m)) [] n m (omega (arith, unvisited-le-length m)) tt

Chain-drop :
    (m : Dict Text) (d e : ℕ) (n c r : Text)
    → Chain m d n r
    → Steps m e n c
    → (f : ℕ) × (d ≡ e + f) × Chain m f c r
Chain-drop m d zero n c r h s = (d, omega arith, subst (λ x. Chain m d x r) s h)
Chain-drop m zero (suc e) n c r (p, _) (j, q, _) = absurd (ground arith)
Chain-drop m (suc d) (suc e) n c r (k, p, h) (j, q, s) =
    let same : k ≡ j = ground arith in
    let (f, sum, rest) = Chain-drop m d e j c r (subst (λ x. Chain m d x r) same h) s in
    (f, omega arith, rest)

no_cycle :
    (m : Dict Text) (d e f : ℕ) (n c r : Text)
    → Chain m d n r
    → Steps m e n c
    → Steps m (suc f) c c
    → ⊥
no_cycle m d e f n c r h s t =
    let (d₁, _, h₁) = Chain-drop m d e n c r h s in
    let (d₂, sum, h₂) = Chain-drop m d₁ (suc f) c c r h₁ t in
    let (same, _) = Chain-unique m d₁ d₂ c r r h₁ h₂ in omega arith

ok_of_Chain-Ends :
    (m : Dict Text) (n r : Text) (d : ℕ) (o : Result Text Text)
    → Chain m d n r
    → Ends m n o
    → o ≡ ok r
ok_of_Chain-Ends m n r d (ok s) h (e, k) = let (_, same) = Chain-unique m d e n r s h k in rw same
ok_of_Chain-Ends m n r d (err c) h (e, s, f, t) = absurd (no_cycle m d e f n c r h s t)

-- The id is resolved to `r` exactly when a chain of redirects leads from it to `r` and `r` is not
-- redirected.
pub resolve_node_id_iff :
    (m : Dict Text) (n r : Text) → (resolve_node_id m n ≡ ok r) ↔ ((d : ℕ) × Chain m d n r)
resolve_node_id_iff m n r = (
  λ e. subst (Ends m n) e (resolve_node_id-Ends m n),
  λ (d, h). ok_of_Chain-Ends m n r d (resolve_node_id m n) h (resolve_node_id-Ends m n),
)

-- Every id resolves.
abbrev pub IsAcyclic : Dict Text → Type 0
IsAcyclic m = (n : Text) → (r : Text) × (resolve_node_id m n ≡ ok r)

Chain-put :
    (m : Dict Text) (object subject root : Text) (e d : ℕ) (n r : Text)
    → Chain (put object subject m) e object root
    → Chain m d n r
    → (r' : Text) × (d' : ℕ) × Chain (put object subject m) d' n r'
Chain-put m object subject root e zero n r c (p, _) = elim (Bool-cases (object === n)) [
  | inl q ↦ (root, e, subst (λ x. Chain (put object subject m) e x root) (eq_of_=== object n q) c)
  | inr q ↦ (n, 0, (rw (get-put object n subject m, q) p, refl))
]
Chain-put m object subject root e (suc d) n r c (k, p, h) = elim (Bool-cases (object === n)) [
  | inl q ↦ (root, e, subst (λ x. Chain (put object subject m) e x root) (eq_of_=== object n q) c)
  | inr q ↦
      let (r', d', h') = Chain-put m object subject root e d k r c h in
      (r', suc d', (k, rw (get-put object n subject m, q) p, h'))
]

-- A redirect under which its own id resolves keeps every id resolvable.
pub IsAcyclic-put :
    (m : Dict Text) (object subject root : Text)
    → resolve_node_id (put object subject m) object ≡ ok root
    → IsAcyclic m
    → IsAcyclic (put object subject m)
IsAcyclic-put m object subject root h a n =
    let (e, c) = (resolve_node_id_iff (put object subject m) object root).0 h in
    let (r, q) = a n in
    let (d, k) = (resolve_node_id_iff m n r).0 q in
    let (r', d', k') = Chain-put m object subject root e d n r c k in
    (r', (resolve_node_id_iff (put object subject m) n r').1 (d', k'))

pub IsAcyclic-nil : IsAcyclic []
unfolding resolve_node_id resolve_from get
IsAcyclic-nil n = (n, refl)

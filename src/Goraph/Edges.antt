-- ===== src/Goraph/Edges.antt =====
-- SymmetricDifference of sets of edges, for any order in which the map is iterated over.
use gomega.Base.{
  ◌≡◌, ◌↔◌, ◌⊎◌, inl, inr, refl, ap, sym, ◌∙◌, Bool, true, false, not, ◌||◌, [], ◌∷◌, if◌then◌else◌,
  arith, Bool-cases,
}
use gomega.Goraph.{
  Edge, EdgeSet, EdgeMap, edge_eq, contains, lookup, assign, include_all, toggle_all, included,
  symmetric_difference,
}

edge_eq_refl : (e : Edge) → edge_eq e e ≡ true
edge_eq_refl e = ground arith

edge_eq-true : (e f : Edge) → edge_eq e f ≡ true → e ≡ f
edge_eq-true e f h = ground arith

edge_eq_sym : (e f : Edge) → edge_eq e f ≡ edge_eq f e
edge_eq_sym e f = ground arith

pair_eq : {e f : Edge} {b c : Bool} → e ≡ f → b ≡ c → ◌≡◌ {A = Edge × Bool} (e, b) (f, c)
pair_eq p q = λ i. (p i, q i)

-- An entry of the map.
abbrev pub In : Edge × Bool → EdgeMap → Type 0
In x [] = ⊥
In x (y ∷ m) = (x ≡ y) ⊎ In x m

abbrev has_key : EdgeMap → Edge → Bool
has_key [] f = false
has_key ((e, b) ∷ m) f = let rest = has_key m f in if edge_eq e f then true else rest

-- One entry for each key.
abbrev IsMap : EdgeMap → Type 0
IsMap [] = Unit {0}
IsMap ((e, b) ∷ m) = (has_key m e ≡ false) × IsMap m

contains-included-In : (m : EdgeMap) (e : Edge) → contains (included m) e ≡ true → In (e, true) m
unfolding contains included
contains-included-In [] e h = absurd (ground arith)
contains-included-In ((f, b) ∷ m) e h = elim (Bool-cases b) [
  | inl on ↦ elim (Bool-cases (edge_eq f e)) [
    | inl hit ↦ inl (pair_eq (sym (edge_eq-true f e hit)) (sym on))
    | inr miss ↦ inr (contains-included-In m e (ground (arith, h)))
  ]
  | inr off ↦ inr (contains-included-In m e (ground (arith, h)))
]

In-contains-included : (m : EdgeMap) (e : Edge) → In (e, true) m → contains (included m) e ≡ true
unfolding contains included
In-contains-included [] e h = absurd h
In-contains-included ((f, b) ∷ m) e (inl p) =
    ground (arith, edge_eq_refl e, ap (λ x. x.0) p, ap (λ x. x.1) p)
In-contains-included ((f, b) ∷ m) e (inr q) = ground (arith, In-contains-included m e q)

In-has_key : (m : EdgeMap) (e : Edge) (b : Bool) → In (e, b) m → has_key m e ≡ true
In-has_key [] e b h = absurd h
In-has_key ((f, c) ∷ m) e b (inl p) = ground (arith, edge_eq_refl e, ap (λ x. x.0) p)
In-has_key ((f, c) ∷ m) e b (inr q) = ground (arith, In-has_key m e b q)

has_key-assign :
    (m : EdgeMap) (f : Edge) (c : Bool) (e : Edge)
    → has_key (assign m f c) e ≡ (edge_eq f e || has_key m e)
unfolding assign
has_key-assign [] f c e = ground arith
has_key-assign ((g, b) ∷ m) f c e = ground (arith, has_key-assign m f c e)

lookup-assign :
    (m : EdgeMap) (f : Edge) (c : Bool) (e : Edge)
    → lookup (assign m f c) e ≡ (if edge_eq f e then c else lookup m e)
unfolding assign lookup
lookup-assign [] f c e = ground arith
lookup-assign ((g, b) ∷ m) f c e = ground (arith, lookup-assign m f c e)

assign-IsMap : (m : EdgeMap) (f : Edge) (c : Bool) → IsMap m → IsMap (assign m f c)
unfolding assign
assign-IsMap [] f c h = (refl, tt)
assign-IsMap ((g, b) ∷ m) f c h = elim (Bool-cases (edge_eq g f)) [
  | inl hit ↦ rw hit h
  | inr miss ↦
      rw miss (
        has_key-assign m f c g ∙ ground (arith, miss, h.0, edge_eq_sym f g),
        assign-IsMap m f c h.1,
      )
]

include_all-IsMap : (es : EdgeSet) (m : EdgeMap) → IsMap m → IsMap (include_all es m)
unfolding include_all
include_all-IsMap [] m h = h
include_all-IsMap (e ∷ es) m h = include_all-IsMap es (assign m e true) (assign-IsMap m e true h)

toggle_all-IsMap : (es : EdgeSet) (m : EdgeMap) → IsMap m → IsMap (toggle_all es m)
unfolding toggle_all
toggle_all-IsMap [] m h = h
toggle_all-IsMap (e ∷ es) m h =
    toggle_all-IsMap es (assign m e (not (lookup m e))) (assign-IsMap m e (not (lookup m e)) h)

contains-included-no_key :
    (m : EdgeMap) (e : Edge) → has_key m e ≡ false → contains (included m) e ≡ false
unfolding contains included
contains-included-no_key [] e h = refl
contains-included-no_key ((f, b) ∷ m) e h = ground (arith, h, contains-included-no_key m e)

contains-included : (m : EdgeMap) (e : Edge) → IsMap m → contains (included m) e ≡ lookup m e
unfolding contains included lookup
contains-included [] e h = refl
contains-included ((f, b) ∷ m) e h = elim (Bool-cases (edge_eq f e)) [
  | inl hit ↦
      ground (
        arith,
        hit,
        contains-included-no_key m e (ap (has_key m) (sym (edge_eq-true f e hit)) ∙ h.0),
      )
  | inr miss ↦ ground (arith, miss, contains-included m e h.1)
]

lookup-include_all :
    (es : EdgeSet) (m : EdgeMap) (e : Edge)
    → lookup (include_all es m) e ≡ (contains es e || lookup m e)
unfolding include_all contains
lookup-include_all [] m e = refl
lookup-include_all (f ∷ es) m e =
    lookup-include_all es (assign m f true) e ∙ ground (arith, lookup-assign m f true e)

-- An edge occurs an odd number of times.
abbrev pub is_odd_in : EdgeSet → Edge → Bool
is_odd_in [] e = false
is_odd_in (f ∷ es) e = let rest = is_odd_in es e in if edge_eq f e then not rest else rest

-- Exactly one of the two.
abbrev pub xor : Bool → Bool → Bool
xor true b = not b
xor false b = b

lookup-toggle_all :
    (es : EdgeSet) (m : EdgeMap) (e : Edge)
    → lookup (toggle_all es m) e ≡ xor (is_odd_in es e) (lookup m e)
unfolding toggle_all
lookup-toggle_all [] m e = refl
lookup-toggle_all (f ∷ es) m e = elim (Bool-cases (edge_eq f e)) [
  | inl hit ↦
      lookup-toggle_all es (assign m f (not (lookup m f))) e
      ∙ ground
          (arith, hit, lookup-assign m f (not (lookup m f)) e, ap (lookup m) (edge_eq-true f e hit))
  | inr miss ↦
      lookup-toggle_all es (assign m f (not (lookup m f))) e
      ∙ ground (arith, miss, lookup-assign m f (not (lookup m f)) e)
]

-- The iteration over a map comes to its entries, and to nothing else.
abbrev pub IsIteration : (EdgeMap → EdgeMap) → Type 0
IsIteration visit = (m : EdgeMap) (x : Edge × Bool) → In x (visit m) ↔ In x m

bool_ext : {b c : Bool} → (b ≡ true → c ≡ true) → (c ≡ true → b ≡ true) → b ≡ c
bool_ext f g = ground (arith, f, g)

-- In whatever order the map is iterated over, an edge is in the symmetric difference of two sets of
-- edges exactly when it is in the first, or else occurs an odd number of times in the second, and not
-- both.
pub contains-symmetric_difference :
    (visit : EdgeMap → EdgeMap) (es es2 : EdgeSet) (e : Edge)
    → IsIteration visit
    → contains (symmetric_difference visit es es2) e ≡ xor (is_odd_in es2 e) (contains es e)
unfolding symmetric_difference lookup
contains-symmetric_difference visit es es2 e iteration =
    let m = toggle_all es2 (include_all es []) in
    let (to, from) = iteration m (e, true) in
    bool_ext (λ h. In-contains-included m e (to (contains-included-In (visit m) e h)))
      (λ h. In-contains-included (visit m) e (from (contains-included-In m e h)))
    ∙ (contains-included m e (toggle_all-IsMap es2 (include_all es []) (include_all-IsMap es [] tt))
        ∙ (lookup-toggle_all es2 (include_all es []) e
            ∙ ap (xor (is_odd_in es2 e)) (lookup-include_all es [] e ∙ ground arith)))

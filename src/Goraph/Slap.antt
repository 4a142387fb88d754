-- ===== src/Goraph/Slap.antt =====
-- matchers/support/goraph/bipartitegraph/bipartitegraphmatching.go: the search of a shortest
-- alternating path (SLAP) down the guide layers. The layers are lists of the IDs of their nodes; `used`
-- is passed along as a function.
pub mod Path
mod Examples
use gomega.Base.{
  ℕ, zero, suc, ◌-◌, ◌≡◌, ◌∙◌, ◌⊎◌, refl, sym, ap, ◌==◌, inl, inr, Bool, true, false, not, Option,
  none, some, List, [], ◌∷◌, ◌++◌, if◌then◌else◌, same, length, get_elem?, arith, Option-cases,
  Bool-cases,
}
use gomega.Goraph.{Edge, EdgeSet, contains, find_by_nodes}

-- `used`.
abbrev pub Used : Type 0
Used = ℕ → Bool

abbrev pub set_used : Used → ℕ → Bool → Used
set_used used n b k = if k == n then b else used k

-- util.Odd.
abbrev pub is_odd : ℕ → Bool
is_odd zero = false
is_odd (suc n) = not (is_odd n)

-- `guideLayers[level]`.
abbrev pub layer : List (List ℕ) → ℕ → List ℕ
layer [] l = []
layer (ns ∷ nss) zero = ns
layer (ns ∷ nss) (suc l) = layer nss l

-- The edge that leads from a node of a level to the next node, if the search may take it.
unfoldable pub step_edge : EdgeSet → EdgeSet → ℕ → Used → ℕ → ℕ → Option Edge
step_edge edges matching level used n next =
    if used next then none else elim (find_by_nodes edges n next) [
      | none ↦ none
      | some e ↦ if same (contains matching e) (is_odd level) then none else some e
    ]

-- The loop over the next nodes, with the search from a next node; it ends without a path.
unfoldable pub scan_next :
    (ℕ → EdgeSet → Used → Option EdgeSet × Used)
    → (Used → ℕ → Option Edge)
    → ℕ
    → EdgeSet
    → List ℕ
    → Used
    → Option EdgeSet × Used
scan_next search take n slap [] used = (none, set_used used n false)
scan_next search take n slap (next ∷ rest) used = elim (take used next) [
  | none ↦ scan_next search take n slap rest used
  | some e ↦
      let (found, used') = search next (slap ++ e ∷ []) used in
      elim found [ some path ↦ (some path, used') | none ↦ scan_next search take n slap rest used' ]
]

-- findDisjointSLAPHelper, on the graph's edges.
unfoldable pub find_slap :
    EdgeSet → EdgeSet → List (List ℕ) → ℕ → ℕ → EdgeSet → Used → Option EdgeSet × Used
unfolding scan_next step_edge
find_slap edges matching layers zero n slap used = (some slap, set_used used n true)
find_slap edges matching layers (suc l) n slap used =
    scan_next (find_slap edges matching layers l)
      (λ used' next. step_edge edges matching (suc l) used' n next) n slap (layer layers l)
      (set_used used n true)

-- findDisjointSLAP. Without layers, of which its caller has at least one, it would panic on an index.
unfoldable pub find_disjoint_slap :
    EdgeSet → EdgeSet → List (List ℕ) → ℕ → Used → Option EdgeSet × Used
unfolding find_slap
find_disjoint_slap edges matching [] start used = (none, used)
find_disjoint_slap edges matching (ns ∷ nss) start used =
    find_slap edges matching (ns ∷ nss) (length nss) start [] used

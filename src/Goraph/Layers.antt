-- ===== src/Goraph/Layers.antt =====
-- matchers/support/goraph/bipartitegraph/bipartitegraphmatching.go: createSLAPGuideLayers, on the IDs of
-- the nodes. A layer is grown by a loop over the nodes of the last one and of the other side.
pub mod Ends
mod Examples
use gomega.Base.{
  ◌==◌, ◌+◌, ℕ, zero, suc, Bool, true, false, not, Option, none, some, List, [], ◌∷◌, ◌++◌,
  if◌then◌else◌, length,
}
use gomega.Goraph.{EdgeSet, contains, find_by_nodes, is_free}
use gomega.Goraph.Slap.{Used, set_used, is_odd}

-- `currentLayer`, `used` and `done`.
pub record Growth : Type 0 where
  pub layer : List ℕ
  pub used : Used
  pub is_done : Bool

abbrev pub join : ℕ → Bool → Growth → Growth
join n done g = record { layer = g.layer ++ n ∷ []; used = set_used g.used n true; is_done = done }

abbrev pub is_empty : List ℕ → Bool
is_empty [] = true
is_empty (n ∷ ns) = false

module _ (edges matching : EdgeSet) where
  -- The body of the loops for a left node of the last layer and a right node.
  unfoldable pub join_right : ℕ → ℕ → Growth → Growth
  join_right l r g = if g.used r then g else elim (find_by_nodes edges l r) [
    | none ↦ g
    | some e ↦
        if contains matching e then g else join r (if is_free matching r then true else g.is_done) g
  ]

  -- The same for a right node of the last layer and a left node.
  unfoldable pub join_left : ℕ → ℕ → Growth → Growth
  join_left r l g = if g.used l then g else elim (find_by_nodes edges l r) [
    | none ↦ g
    | some e ↦ if contains matching e then join l g.is_done g else g
  ]

-- The nodes without an edge of the matching.
abbrev pub free_nodes : EdgeSet → List ℕ → List ℕ
free_nodes matching [] = []
free_nodes matching (n ∷ ns) =
    let rest = free_nodes matching ns in if is_free matching n then n ∷ rest else rest

abbrev pub all_used : List ℕ → Used
all_used [] k = false
all_used (n ∷ ns) k = if k == n then true else all_used ns k

-- The two loops.
unfoldable pub over_nodes : (ℕ → Growth → Growth) → List ℕ → Growth → Growth
over_nodes body [] g = g
over_nodes body (n ∷ ns) g = over_nodes body ns (body n g)

unfoldable pub over_layer : (ℕ → ℕ → Growth → Growth) → List ℕ → List ℕ → Growth → Growth
unfolding over_nodes
over_layer body [] ns g = g
over_layer body (m ∷ ms) ns g = over_layer body ms ns (over_nodes (body m) ns g)

module _ (edges matching : EdgeSet) (lefts rights : List ℕ) where
  -- The next layer: the right nodes after an odd number of layers, else the left ones.
  unfoldable pub grow : Bool → List ℕ → Used → Growth
  unfolding over_layer join_right join_left
  grow odd last used =
      let g : Growth = record { layer = []; used = used; is_done = false } in
      if odd
      then over_layer (join_right edges matching) last rights g
      else over_layer (join_left edges matching) last lefts g

  -- `for !done`, on fuel; `none` is too little of it.
  unfoldable pub layers_loop : ℕ → List (List ℕ) → List ℕ → Used → Option (List (List ℕ))
  unfolding grow
  layers_loop zero layers last used = none
  layers_loop (suc fuel) layers last used =
      let g = grow (is_odd (length layers)) last used in
      let rest = layers_loop fuel (layers ++ g.layer ∷ []) g.layer g.used in
      if is_empty g.layer
      then some []
      else if g.is_done
      then some (layers ++ g.layer ∷ [])
      else rest

  -- createSLAPGuideLayers; the fuel is enough for every graph.
  unfoldable pub create_slap_guide_layers : Option (List (List ℕ))
  unfolding layers_loop
  create_slap_guide_layers =
      let first = free_nodes matching lefts in
      if is_empty first
      then some []
      else layers_loop (suc (length lefts + length rights)) (first ∷ []) first (all_used first)

-- ===== src/Goraph.antt =====
-- matchers/support/goraph: edge.go, node.go and bipartitegraph.go. The values of the left and the right
-- nodes are of two types here, and a node is named by its ID where only that is read.
pub mod Edges
pub mod Graph
pub mod Slap
pub mod Layers
mod Examples
use gomega.Base.{
  ℕ, suc, ◌+◌, ◌==◌, Bool, true, false, not, ◌&&◌, ◌||◌, Option, none, some, List, [], ◌∷◌, ◌++◌,
  if◌then◌else◌, length, is_none,
}
use gomega.Errors.{GoError}

pub record Edge : Type 0 where
  pub node1 : ℕ
  pub node2 : ℕ

abbrev pub EdgeSet : Type 0
EdgeSet = List Edge

abbrev pub edge_eq : Edge → Edge → Bool
edge_eq e f = e.node1 == f.node1 && e.node2 == f.node2

-- Free.
unfoldable pub is_free : EdgeSet → ℕ → Bool
is_free [] n = true
is_free (e ∷ es) n = let rest = is_free es n in if e.node1 == n || e.node2 == n then false else rest

unfoldable pub contains : EdgeSet → Edge → Bool
contains [] f = false
contains (e ∷ es) f = let rest = contains es f in if edge_eq e f then true else rest

unfoldable pub find_by_nodes : EdgeSet → ℕ → ℕ → Option Edge
find_by_nodes [] m n = none
find_by_nodes (e ∷ es) m n =
    let rest = find_by_nodes es m n in
    if (e.node1 == m && e.node2 == n) || (e.node1 == n && e.node2 == m) then some e else rest

-- `edgesToInclude`, a map from edges to bools with one entry for each key.
abbrev pub EdgeMap : Type 0
EdgeMap = List (Edge × Bool)

-- `m[e]`, false without an entry.
unfoldable pub lookup : EdgeMap → Edge → Bool
lookup [] f = false
lookup ((e, b) ∷ m) f = let rest = lookup m f in if edge_eq e f then b else rest

unfoldable pub assign : EdgeMap → Edge → Bool → EdgeMap
assign [] f c = (f, c) ∷ []
assign ((e, b) ∷ m) f c =
    let rest = assign m f c in if edge_eq e f then (e, c) ∷ m else (e, b) ∷ rest

unfoldable pub include_all : EdgeSet → EdgeMap → EdgeMap
unfolding assign
include_all [] m = m
include_all (e ∷ es) m = include_all es (assign m e true)

unfoldable pub toggle_all : EdgeSet → EdgeMap → EdgeMap
unfolding assign lookup
toggle_all [] m = m
toggle_all (e ∷ es) m = toggle_all es (assign m e (not (lookup m e)))

unfoldable pub included : EdgeMap → EdgeSet
included [] = []
included ((e, b) ∷ m) = let rest = included m in if b then e ∷ rest else rest

-- SymmetricDifference; `visit` is the order in which the map is iterated over.
unfoldable pub symmetric_difference : (EdgeMap → EdgeMap) → EdgeSet → EdgeSet → EdgeSet
unfolding include_all toggle_all included
symmetric_difference visit es es2 = included (visit (toggle_all es2 (include_all es [])))

pub record Node (A : Type 0) : Type 0 where
  pub id : ℕ
  pub value : A

pub record BipartiteGraph (V M : Type 0) : Type 0 where
  pub left : List (Node V)
  pub right : List (Node M)
  pub edges : EdgeSet

-- The nodes of values, from an ID on.
unfoldable pub nodes : {A : Type 0} → ℕ → List A → List (Node A)
nodes i [] = []
nodes i (v ∷ vs) = record { id = i; value = v } ∷ nodes (suc i) vs

-- The values of the nodes without an edge.
unfoldable pub free_values : {A : Type 0} → EdgeSet → List (Node A) → List A
unfolding is_free
free_values es [] = []
free_values es (n ∷ ns) =
    let rest = free_values es ns in if is_free es n.id then n.value ∷ rest else rest

module _ {V M : Type 0} (neighbours : V → M → Bool × Option GoError) where
  -- The inner loop, with the edges so far; the error it returns with, if it does.
  unfoldable pub row_edges : EdgeSet → ℕ → V → ℕ → List M → EdgeSet × Option GoError
  row_edges es i v j [] = (es, none)
  row_edges es i v j (w ∷ ws) =
      let rest =
        row_edges (if (neighbours v w).0 then es ++ record { node1 = i; node2 = j } ∷ [] else es) i
          v (suc j) ws in
      if is_none (neighbours v w).1 then rest else (es, (neighbours v w).1)

  unfoldable pub all_edges : EdgeSet → ℕ → List V → ℕ → List M → EdgeSet × Option GoError
  unfolding row_edges
  all_edges es i [] j ws = (es, none)
  all_edges es i (v ∷ vs) j ws =
      let (es', err) = row_edges es i v j ws in
      let rest = all_edges es' (suc i) vs j ws in if is_none err then rest else (es', err)

  -- NewBipartiteGraph: the graph or the error.
  unfoldable pub new_bipartite_graph :
      List V → List M → Option (BipartiteGraph V M) × Option GoError
  unfolding all_edges nodes
  new_bipartite_graph vs ws =
      let (es, err) = all_edges [] 0 vs (length vs) ws in
      if is_none err
      then (some (record { left = nodes 0 vs; right = nodes (length vs) ws; edges = es }), none)
      else (none, err)

-- FreeLeftRight.
unfoldable pub free_left_right : {V M : Type 0} → BipartiteGraph V M → EdgeSet → List V × List M
unfolding free_values
free_left_right g es = (free_values es g.left, free_values es g.right)

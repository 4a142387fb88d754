-- ===== src/Goraph/Graph.antt =====
-- The edges that NewBipartiteGraph makes, and the nodes that FreeLeftRight leaves.
use mathlib.Core.Path.{subst}
use gomega.Base.{
  ℕ, zero, suc, ◌+◌, ◌<◌, ◌==◌, ◌≡◌, refl, ap, ◌∙◌, Bool, false, ◌||◌, Option, none, some, List, [],
  ◌∷◌, ◌++◌, if◌then◌else◌, length, arith,
}
use gomega.Errors.{GoError}
use gomega.Goraph.{
  Edge, EdgeSet, contains, BipartiteGraph, nodes, row_edges, all_edges, new_bipartite_graph,
}

contains-append :
    (es fs : EdgeSet) (e : Edge) → contains (es ++ fs) e ≡ (contains es e || contains fs e)
unfolding contains
contains-append [] fs e = refl
contains-append (f ∷ es) fs e = ground (arith, contains-append es fs e)

abbrev pub edge : ℕ → ℕ → Edge
edge i j = record { node1 = i; node2 = j }

module _ {V M : Type 0} (adjacent : V → M → Bool) where
  -- Adjacency that is never an error.
  abbrev pub calm : V → M → Bool × Option GoError
  calm v w = (adjacent v w, none)

  -- The value at a place is adjacent.
  abbrev pub adjacent_at : V → List M → ℕ → Bool
  adjacent_at v [] j = false
  adjacent_at v (w ∷ ws) zero = adjacent v w
  adjacent_at v (w ∷ ws) (suc j) = adjacent_at v ws j

  abbrev pub adjacent_pair : List V → List M → ℕ → ℕ → Bool
  adjacent_pair [] ws i j = false
  adjacent_pair (v ∷ vs) ws zero j = adjacent_at v ws j
  adjacent_pair (v ∷ vs) ws (suc i) j = adjacent_pair vs ws i j

  row_edges-calm :
      (es : EdgeSet) (i : ℕ) (v : V) (j : ℕ) (ws : List M) → (row_edges calm es i v j ws).1 ≡ none
  unfolding row_edges
  row_edges-calm es i v j [] = refl
  row_edges-calm es i v j (w ∷ ws) =
      row_edges-calm (if adjacent v w then es ++ edge i j ∷ [] else es) i v (suc j) ws

  -- A row leaves the other rows as they are, and the places before it.
  row_edges-other :
      (es : EdgeSet) (i : ℕ) (v : V) (j : ℕ) (ws : List M) (i' k : ℕ)
      → (i == i') ≡ false
      → contains (row_edges calm es i v j ws).0 (edge i' k) ≡ contains es (edge i' k)
  unfolding row_edges contains
  row_edges-other es i v j [] i' k h = refl
  row_edges-other es i v j (w ∷ ws) i' k h =
      row_edges-other (if adjacent v w then es ++ edge i j ∷ [] else es) i v (suc j) ws i' k h
      ∙ ground (arith, h, contains-append es (edge i j ∷ []) (edge i' k))

  row_edges-before :
      (es : EdgeSet) (i : ℕ) (v : V) (j : ℕ) (ws : List M) (k : ℕ)
      → k < j
      → contains (row_edges calm es i v j ws).0 (edge i k) ≡ contains es (edge i k)
  unfolding row_edges contains
  row_edges-before es i v j [] k h = refl
  row_edges-before es i v j (w ∷ ws) k h =
      row_edges-before (if adjacent v w then es ++ edge i j ∷ [] else es) i v (suc j) ws k
        (omega arith)
      ∙ ground (arith, h, contains-append es (edge i j ∷ []) (edge i k))

  row_edges-at :
      (es : EdgeSet) (i : ℕ) (v : V) (j : ℕ) (ws : List M) (k n : ℕ)
      → n ≡ j + k
      → contains (row_edges calm es i v j ws).0 (edge i n)
        ≡ (contains es (edge i n) || adjacent_at v ws k)
  unfolding row_edges contains
  row_edges-at es i v j [] k n h = ground arith
  row_edges-at es i v j (w ∷ ws) zero n h =
      row_edges-before (if adjacent v w then es ++ edge i j ∷ [] else es) i v (suc j) ws n
        (omega arith)
      ∙ ground (arith, h, contains-append es (edge i j ∷ []) (edge i n))
  row_edges-at es i v j (w ∷ ws) (suc k) n h =
      row_edges-at (if adjacent v w then es ++ edge i j ∷ [] else es) i v (suc j) ws k n
        (omega arith)
      ∙ ground (arith, h, contains-append es (edge i j ∷ []) (edge i n))

  all_edges-step :
      (es : EdgeSet) (i : ℕ) (v : V) (vs : List V) (j : ℕ) (ws : List M)
      → all_edges calm es i (v ∷ vs) j ws
        ≡ all_edges calm (row_edges calm es i v j ws).0 (suc i) vs j ws
  unfolding all_edges
  all_edges-step es i v vs j ws = ground (arith, row_edges-calm es i v j ws)

  all_edges-calm :
      (es : EdgeSet) (i : ℕ) (vs : List V) (j : ℕ) (ws : List M)
      → (all_edges calm es i vs j ws).1 ≡ none
  unfolding all_edges
  all_edges-calm es i [] j ws = refl
  all_edges-calm es i (v ∷ vs) j ws =
      ap (λ r. r.1) (all_edges-step es i v vs j ws)
      ∙ all_edges-calm (row_edges calm es i v j ws).0 (suc i) vs j ws

  -- The rows from i on leave the earlier ones as they are.
  all_edges-before :
      (es : EdgeSet) (i : ℕ) (vs : List V) (j : ℕ) (ws : List M) (i' n : ℕ)
      → i' < i
      → contains (all_edges calm es i vs j ws).0 (edge i' n) ≡ contains es (edge i' n)
  unfolding all_edges
  all_edges-before es i [] j ws i' n h = refl
  all_edges-before es i (v ∷ vs) j ws i' n h =
      ap (λ r. contains r.0 (edge i' n)) (all_edges-step es i v vs j ws)
      ∙ (all_edges-before (row_edges calm es i v j ws).0 (suc i) vs j ws i' n (omega arith)
          ∙ row_edges-other es i v j ws i' n (ground arith))

  row_at_start :
      (es : EdgeSet) (i : ℕ) (v : V) (j : ℕ) (ws : List M) (m k n : ℕ)
      → i ≡ m
      → n ≡ j + k
      → contains (row_edges calm es i v j ws).0 (edge m n)
        ≡ (contains es (edge m n) || adjacent_at v ws k)
  row_at_start es i v j ws m k n h hn =
      subst
        (λ x.
          contains (row_edges calm es i v j ws).0 (edge x n)
          ≡ (contains es (edge x n) || adjacent_at v ws k))
        h (row_edges-at es i v j ws k n hn)

  all_edges-at :
      (es : EdgeSet) (i : ℕ) (vs : List V) (j : ℕ) (ws : List M) (p m k n : ℕ)
      → m ≡ i + p
      → n ≡ j + k
      → contains (all_edges calm es i vs j ws).0 (edge m n)
        ≡ (contains es (edge m n) || adjacent_pair vs ws p k)
  unfolding all_edges
  all_edges-at es i [] j ws p m k n hm hn = ground arith
  all_edges-at es i (v ∷ vs) j ws zero m k n hm hn =
      ap (λ r. contains r.0 (edge m n)) (all_edges-step es i v vs j ws)
      ∙ (all_edges-before (row_edges calm es i v j ws).0 (suc i) vs j ws m n (omega arith)
          ∙ row_at_start es i v j ws m k n (omega arith) hn)
  all_edges-at es i (v ∷ vs) j ws (suc p) m k n hm hn =
      ap (λ r. contains r.0 (edge m n)) (all_edges-step es i v vs j ws)
      ∙ (all_edges-at (row_edges calm es i v j ws).0 (suc i) vs j ws p m k n (omega arith) hn
          ∙ ap (λ b. b || adjacent_pair vs ws p k) (row_edges-other es i v j ws m n (ground arith)))

  -- Without an error NewBipartiteGraph makes a graph in which the node of the left value at place i and
  -- the node of the right value at place j, whose ID is j plus the number of left values, have an edge
  -- exactly when the two values are adjacent; beyond the values there are no edges.
  pub contains-new_bipartite_graph :
      (vs : List V) (ws : List M) (i j : ℕ)
      → (g : BipartiteGraph V M) × (new_bipartite_graph calm vs ws ≡ (some g, none))
        × (contains g.edges (edge i (length vs + j)) ≡ adjacent_pair vs ws i j)
  unfolding new_bipartite_graph contains
  contains-new_bipartite_graph vs ws i j = (
    record {
      left = nodes 0 vs;
      right = nodes (length vs) ws;
      edges = (all_edges calm [] 0 vs (length vs) ws).0;
    },
    ground (arith, all_edges-calm [] 0 vs (length vs) ws),
    all_edges-at [] 0 vs (length vs) ws i i j (length vs + j) (omega arith) refl,
  )

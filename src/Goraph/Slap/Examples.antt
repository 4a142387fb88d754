-- ===== src/Goraph/Slap/Examples.antt =====
-- An instance of the theorem on paths.
use gomega.Base.{ℕ, ◌-◌, refl, false, List, [], ◌∷◌, length}
use gomega.Goraph.{Edge, EdgeSet, contains, find_by_nodes}
use gomega.Goraph.Slap.{Used, find_disjoint_slap}
use gomega.Goraph.Slap.Path.{IsSlap, find_disjoint_slap-IsSlap}

abbrev edge : ℕ → ℕ → Edge
edge m n = record { node1 = m; node2 = n }

-- Left nodes 0 and 1, right nodes 2 and 3; 0 is matched with 2.
abbrev links : EdgeSet
links = edge 0 2 ∷ edge 0 3 ∷ edge 1 2 ∷ []

abbrev matching : EdgeSet
matching = edge 0 2 ∷ []

abbrev layers : List (List ℕ)
layers = (1 ∷ []) ∷ (2 ∷ []) ∷ (0 ∷ []) ∷ (3 ∷ []) ∷ []

abbrev unused : Used
unused n = false

abbrev augmenting : EdgeSet
augmenting = edge 0 3 ∷ edge 0 2 ∷ edge 1 2 ∷ []

find_disjoint_slap-IsSlap_example : IsSlap links matching layers (length layers - 1) 3 augmenting
unfolding find_disjoint_slap contains find_by_nodes
find_disjoint_slap-IsSlap_example =
    find_disjoint_slap-IsSlap links matching layers 3 unused augmenting refl

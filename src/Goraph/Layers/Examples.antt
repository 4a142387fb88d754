-- ===== src/Goraph/Layers/Examples.antt =====
-- An instance of the theorem on guide layers, and the layers of that graph.
use gomega.Base.{ℕ, ◌≡◌, refl, some, List, [], ◌∷◌}
use gomega.Goraph.{Edge, EdgeSet, contains, find_by_nodes, is_free}
use gomega.Goraph.Layers.{create_slap_guide_layers}
use gomega.Goraph.Layers.Ends.{create_slap_guide_layers-Ends}

abbrev link : ℕ → ℕ → Edge
link m n = record { node1 = m; node2 = n }

-- Left nodes 0 and 1, right nodes 2 and 3; 0 is matched with 2.
abbrev links : EdgeSet
links = link 0 2 ∷ link 0 3 ∷ link 1 2 ∷ []

abbrev matched_link : EdgeSet
matched_link = link 0 2 ∷ []

create_slap_guide_layers-Ends_example :
    (r : List (List ℕ)) × (create_slap_guide_layers links matched_link (0 ∷ 1 ∷ []) (2 ∷ 3 ∷ [])
      ≡ some r)
create_slap_guide_layers-Ends_example =
    create_slap_guide_layers-Ends links matched_link (0 ∷ 1 ∷ []) (2 ∷ 3 ∷ [])

guide_layers :
    create_slap_guide_layers links matched_link (0 ∷ 1 ∷ []) (2 ∷ 3 ∷ [])
    ≡ some ((1 ∷ []) ∷ (2 ∷ []) ∷ (0 ∷ []) ∷ (3 ∷ []) ∷ [])
unfolding create_slap_guide_layers contains find_by_nodes is_free
guide_layers = refl

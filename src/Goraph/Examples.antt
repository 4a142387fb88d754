-- ===== src/Goraph/Examples.antt =====
-- Instances of the theorems on graphs.
use gomega.Base.{ℕ, ◌==◌, Bool, [], ◌∷◌}
use gomega.Goraph.{EdgeSet}
use gomega.Goraph.Graph.{edge}

abbrev matching : EdgeSet
matching = edge 0 2 ∷ []

abbrev path : EdgeSet
path = edge 1 2 ∷ edge 0 2 ∷ edge 0 3 ∷ []

abbrev equal : ℕ → ℕ → Bool
equal m n = m == n

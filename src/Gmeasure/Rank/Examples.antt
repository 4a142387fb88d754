-- ===== src/Gmeasure/Rank/Examples.antt =====
-- A ranking of concrete Stats, with insertion for sort.Slice.
use gomega.Base.{ℕ, ◌≡◌, inl, refl, [], ◌∷◌, ltb}
use gomega.Gmeasure.Sorting.Insertion.{insertions, insertions-Sorts, ltb-IsWeakOrder}
use gomega.Gmeasure.Rank.{
  Stats, of_values, of_durations, FloatOrder, NoBetter, winner, rank_stats, float_for, ranks_before,
  lower_mean_is_better, winner-NoBetter,
}

abbrev numbers : FloatOrder ℕ ℕ
numbers = record { less = ltb; nought = 0; of_duration = λ d. d }

abbrev slow : Stats ℕ ℕ
slow = of_values (λ stat. 7)

abbrev fast : Stats ℕ ℕ
fast = of_durations (λ stat. 3)

winner-NoBetter_example :
    NoBetter numbers lower_mean_is_better slow
      (winner numbers (rank_stats numbers insertions lower_mean_is_better (slow ∷ fast ∷ [])))
winner-NoBetter_example =
    winner-NoBetter numbers insertions lower_mean_is_better (slow ∷ fast ∷ []) slow ltb-IsWeakOrder
      insertions-Sorts (inl refl)

the_winner :
    winner numbers (rank_stats numbers insertions lower_mean_is_better (slow ∷ fast ∷ [])) ≡ fast
unfolding winner rank_stats ranks_before float_for
the_winner = refl

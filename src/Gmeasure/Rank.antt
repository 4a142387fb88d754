-- ===== src/Gmeasure/Rank.antt =====
-- gmeasure/rank.go and FloatFor of gmeasure/stats.go: the ranking of Stats, with sort.Slice and the
-- floats given.
mod Examples
use gomega.Gmeasure.Sorting.{IsWeakOrder, Among, Ascends, Sorts, All-Among}
use mathlib.Core.Path.{subst}
use gomega.Base.{
  ℕ, ◌≡◌, ◌⊎◌, inl, inr, refl, sym, ap, ◌∙◌, Bool, true, false, not, Option, none, some, List, [],
  ◌∷◌, if◌then◌else◌, arith, Bool-cases, All,
}

pub data RankingCriteria : Type 0 where
  lower_mean_is_better higher_mean_is_better lower_median_is_better higher_median_is_better
        lower_min_is_better higher_min_is_better lower_max_is_better higher_max_is_better :
      RankingCriteria

pub data Stat : Type 0 where
  stat_invalid stat_min stat_max stat_mean stat_median stat_std_dev : Stat

-- Stats of values, or of durations, or of neither.
pub data Stats (F D : Type 0) : Type 0 where
  of_values : (Stat → F) → Stats F D
  of_durations : (Stat → D) → Stats F D
  no_stats : Stats F D

-- The order of floats, and the floats of durations.
pub record FloatOrder (F D : Type 0) : Type 0 where
  pub less : F → F → Bool
  pub nought : F
  pub of_duration : D → F

module _ {F D : Type 0} (fs : FloatOrder F D) where
  -- FloatFor.
  unfoldable pub float_for : Stats F D → Stat → F
  float_for (of_values f) stat = f stat
  float_for (of_durations d) stat = fs.of_duration (d stat)
  float_for no_stats stat = fs.nought

  -- The function that sort.Slice is given.
  unfoldable pub ranks_before : RankingCriteria → Stats F D → Stats F D → Bool
  ranks_before lower_mean_is_better x y = fs.less (float_for x stat_mean) (float_for y stat_mean)
  ranks_before higher_mean_is_better x y = fs.less (float_for y stat_mean) (float_for x stat_mean)
  ranks_before lower_median_is_better x y =
      fs.less (float_for x stat_median) (float_for y stat_median)
  ranks_before higher_median_is_better x y =
      fs.less (float_for y stat_median) (float_for x stat_median)
  ranks_before lower_min_is_better x y = fs.less (float_for x stat_min) (float_for y stat_min)
  ranks_before higher_min_is_better x y = fs.less (float_for y stat_min) (float_for x stat_min)
  ranks_before lower_max_is_better x y = fs.less (float_for x stat_max) (float_for y stat_max)
  ranks_before higher_max_is_better x y = fs.less (float_for y stat_max) (float_for x stat_max)

  module _ (sort : (Stats F D → Stats F D → Bool) → List (Stats F D) → List (Stats F D)) where
    -- RankStats: the Stats of the ranking.
    unfoldable pub rank_stats : RankingCriteria → List (Stats F D) → List (Stats F D)
    rank_stats criteria stats = sort (ranks_before criteria) stats

  -- Winner.
  unfoldable pub winner : List (Stats F D) → Stats F D
  winner [] = no_stats
  winner (s ∷ stats) = s

  -- What a criterion is about, and whether a lower value is better.
  abbrev pub stat_of : RankingCriteria → Stat
  stat_of lower_mean_is_better = stat_mean
  stat_of higher_mean_is_better = stat_mean
  stat_of lower_median_is_better = stat_median
  stat_of higher_median_is_better = stat_median
  stat_of lower_min_is_better = stat_min
  stat_of higher_min_is_better = stat_min
  stat_of lower_max_is_better = stat_max
  stat_of higher_max_is_better = stat_max

  abbrev pub lower_is_better : RankingCriteria → Bool
  lower_is_better lower_mean_is_better = true
  lower_is_better higher_mean_is_better = false
  lower_is_better lower_median_is_better = true
  lower_is_better higher_median_is_better = false
  lower_is_better lower_min_is_better = true
  lower_is_better higher_min_is_better = false
  lower_is_better lower_max_is_better = true
  lower_is_better higher_max_is_better = false

  -- One is no better than another by a criterion.
  abbrev pub NoBetter : RankingCriteria → Stats F D → Stats F D → Type 0
  NoBetter criteria x best =
      (if lower_is_better criteria
        then fs.less (float_for x (stat_of criteria)) (float_for best (stat_of criteria))
        else fs.less (float_for best (stat_of criteria)) (float_for x (stat_of criteria)))
      ≡ false

  ranks_before-NoBetter :
      (criteria : RankingCriteria) (x best : Stats F D)
      → ranks_before criteria x best ≡ false
      → NoBetter criteria x best
  unfolding ranks_before
  ranks_before-NoBetter lower_mean_is_better x best h = h
  ranks_before-NoBetter higher_mean_is_better x best h = h
  ranks_before-NoBetter lower_median_is_better x best h = h
  ranks_before-NoBetter higher_median_is_better x best h = h
  ranks_before-NoBetter lower_min_is_better x best h = h
  ranks_before-NoBetter higher_min_is_better x best h = h
  ranks_before-NoBetter lower_max_is_better x best h = h
  ranks_before-NoBetter higher_max_is_better x best h = h

  upwards :
      (stat : Stat)
      → IsWeakOrder fs.less
      → IsWeakOrder (λ (x y : Stats F D). fs.less (float_for x stat) (float_for y stat))
  upwards stat (irreflexive, transitive, between) = (
    λ x. irreflexive (float_for x stat),
    λ x y z. transitive (float_for x stat) (float_for y stat) (float_for z stat),
    λ x y z. between (float_for x stat) (float_for y stat) (float_for z stat),
  )

  downwards :
      (stat : Stat)
      → IsWeakOrder fs.less
      → IsWeakOrder (λ (x y : Stats F D). fs.less (float_for y stat) (float_for x stat))
  downwards stat (irreflexive, transitive, between) = (
    λ x. irreflexive (float_for x stat),
    λ x y z h k. transitive (float_for z stat) (float_for y stat) (float_for x stat) k h,
    λ x y z h. elim (between (float_for z stat) (float_for y stat) (float_for x stat) h) [
      | inl p ↦ inr p
      | inr p ↦ inl p
    ],
  )

  ranks_before-IsWeakOrder :
      (criteria : RankingCriteria) → IsWeakOrder fs.less → IsWeakOrder (ranks_before criteria)
  unfolding ranks_before
  ranks_before-IsWeakOrder lower_mean_is_better h = upwards stat_mean h
  ranks_before-IsWeakOrder higher_mean_is_better h = downwards stat_mean h
  ranks_before-IsWeakOrder lower_median_is_better h = upwards stat_median h
  ranks_before-IsWeakOrder higher_median_is_better h = downwards stat_median h
  ranks_before-IsWeakOrder lower_min_is_better h = upwards stat_min h
  ranks_before-IsWeakOrder higher_min_is_better h = downwards stat_min h
  ranks_before-IsWeakOrder lower_max_is_better h = upwards stat_max h
  ranks_before-IsWeakOrder higher_max_is_better h = downwards stat_max h

  winner-first :
      (less : Stats F D → Stats F D → Bool) (xs : List (Stats F D)) (x : Stats F D)
      → ((y : Stats F D) → less y y ≡ false)
      → Ascends less xs
      → Among x xs
      → less x (winner xs) ≡ false
  unfolding winner
  winner-first less [] x irreflexive sorted there = absurd there
  winner-first less (y ∷ ys) x irreflexive (first, sorted) (inl same) =
      subst (λ z. less z y ≡ false) (sym same) (irreflexive y)
  winner-first less (y ∷ ys) x irreflexive (first, sorted) (inr there) =
      All-Among (λ z. less z y ≡ false) x ys first there

  -- Where the floats are in a strict weak order and sort.Slice sorts by such an order and keeps the
  -- elements, none of the Stats that are ranked is better by the criterion than the winner.
  pub winner-NoBetter :
      (sort : (Stats F D → Stats F D → Bool) → List (Stats F D) → List (Stats F D))
      (criteria : RankingCriteria) (stats : List (Stats F D)) (x : Stats F D)
      → IsWeakOrder fs.less
      → Sorts sort
      → Among x stats
      → NoBetter criteria x (winner (rank_stats sort criteria stats))
  unfolding rank_stats
  winner-NoBetter sort criteria stats x order sorts there =
      let ordered = ranks_before-IsWeakOrder criteria order in
      let (sorted, kept) = sorts (ranks_before criteria) stats ordered in
      ranks_before-NoBetter criteria x (winner (sort (ranks_before criteria) stats)) (
        winner-first (ranks_before criteria) (sort (ranks_before criteria) stats) x ordered.0 sorted
          (kept x there))

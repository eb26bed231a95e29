-- ===== src/Stats/Tests.antt =====
-- Figures, and the theorems at concrete ones.
use contract_pinger.Common.{◌≡◌, refl, arith, List, [], ◌∷◌, some, String, length, tally, str_eq}
use contract_pinger.Common.Int.{ℤ, pos, negsuc}
use contract_pinger.Common.Sorting.{sort, insert}
use contract_pinger.Stats.{percentile, summary_of, summarize, count_by}
use contract_pinger.Stats.Ranks.{Describes, summarize-Describes}
use contract_pinger.Stats.Order.{IsOrdered, count_of, sum_counts, count_by_exact}

stats_code : Unit {0}
unfolding percentile summary_of summarize count_by sort insert
stats_code = tt

abbrev waits : List ℤ
waits = pos 40 ∷ negsuc 1 ∷ pos 7 ∷ []

summarize-waits : summarize waits ≡ record {
  count = 3;
  lowest = some (negsuc 1);
  p05 = some (negsuc 1);
  p50 = some (pos 7);
  p95 = some (pos 40);
  highest = some (pos 40);
}
unfolding stats_code
summarize-waits = refl

summarize-Describes_example : Describes waits (summarize waits) × IsOrdered (summarize waits)
summarize-Describes_example = summarize-Describes waits (omega arith)

abbrev states : List String
states = "failed" ∷ "responded" ∷ "failed" ∷ []

count_by_exact_example :
    (count_of "failed" (count_by states) ≡ tally (λ x. str_eq x "failed") states)
    × (sum_counts (count_by states) ≡ length states)
count_by_exact_example = count_by_exact "failed" states

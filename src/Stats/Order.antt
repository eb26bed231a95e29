-- ===== src/Stats/Order.antt =====
-- The order of the figures of a summary, and the counts.
use contract_pinger.Common.{
  ℕ, zero, suc, ◌+◌, ◌≤◌, ◌≡◌, refl, true, false, List, [], ◌∷◌, Option, some, String, str_eq,
  eq_iff, if◌then◌else◌, arith, length, get_elem?, tally, All,
}
use contract_pinger.Common.Int.{ℤ, leb_ℤ}
use contract_pinger.Common.Sorting.{sort, IsSorted, sort-IsSorted}
use contract_pinger.Stats.{percentile, Summary, summary_of, count_one, count_into, count_by}

leb_ℤ_trans : (a b c : ℤ) → leb_ℤ a b ≡ true → leb_ℤ b c ≡ true → leb_ℤ a c ≡ true
leb_ℤ_trans a b c h k = ground arith

leb_ℤ_total : (a b : ℤ) → leb_ℤ a b ≡ false → leb_ℤ b a ≡ true
leb_ℤ_total a b h = ground arith

-- Figures that are there are in order.
abbrev pub InOrder : Option ℤ → Option ℤ → Type 0
InOrder (some a) (some b) = leb_ℤ a b ≡ true
InOrder _ _ = Unit

get_elem?-All :
    (x : ℤ) (xs : List ℤ) (j : ℕ)
    → All (λ y. leb_ℤ x y ≡ true) xs
    → InOrder (some x) (get_elem? xs j)
get_elem?-All x [] j h = tt
get_elem?-All x (y ∷ ys) zero h = h.0
get_elem?-All x (y ∷ ys) (suc j) h = get_elem?-All x ys j h.1

get_elem?-InOrder :
    (xs : List ℤ) (i j : ℕ) → IsSorted leb_ℤ xs → i ≤ j → InOrder (get_elem? xs i) (get_elem? xs j)
get_elem?-InOrder [] i j s h = tt
get_elem?-InOrder (x ∷ xs) zero zero s h = ground arith
get_elem?-InOrder (x ∷ xs) zero (suc j) s h = get_elem?-All x xs j s.0
get_elem?-InOrder (x ∷ xs) (suc i) zero s h = ground arith
get_elem?-InOrder (x ∷ xs) (suc i) (suc j) s h = get_elem?-InOrder xs i j s.1 (omega arith)

-- Each figure of a summary is at most the next: lowest, p05, p50, p95, highest.
pub record IsOrdered (s : Summary) : Type 0 where
  pub low : InOrder s.lowest s.p05
  pub lower : InOrder s.p05 s.p50
  pub upper : InOrder s.p50 s.p95
  pub high : InOrder s.p95 s.highest

pub summary_of-IsOrdered : (xs : List ℤ) → IsSorted leb_ℤ xs → IsOrdered (summary_of xs)
unfolding summary_of percentile
summary_of-IsOrdered [] s = record { low = tt; lower = tt; upper = tt; high = tt }
summary_of-IsOrdered (x ∷ xs) s = record {
  low = get_elem?-InOrder (x ∷ xs) 0 _ s (omega arith);
  lower = get_elem?-InOrder (x ∷ xs) _ _ s (omega arith);
  upper = get_elem?-InOrder (x ∷ xs) _ _ s (omega arith);
  high = get_elem?-InOrder (x ∷ xs) _ _ s (omega arith);
}

pub sort_values-IsSorted : (values : List ℤ) → IsSorted leb_ℤ (sort leb_ℤ values)
sort_values-IsSorted values = sort-IsSorted leb_ℤ leb_ℤ_trans leb_ℤ_total values

-- The count of a value, and the sum of all counts.
abbrev pub count_of : String → List (String × ℕ) → ℕ
count_of v [] = 0
count_of v ((x, n) ∷ out) = let rest = count_of v out in if str_eq x v then n + rest else rest

abbrev pub sum_counts : List (String × ℕ) → ℕ
sum_counts [] = 0
sum_counts ((x, n) ∷ out) = n + sum_counts out

count_of-count_one :
    (v w : String) (out : List (String × ℕ))
    → count_of v (count_one w out) ≡ (if str_eq w v then 1 else 0) + count_of v out
count_of-count_one v w [] = ground arith
count_of-count_one v w ((x, n) ∷ out) =
    ground (arith, eq_iff x w, eq_iff x v, eq_iff w v, count_of-count_one v w out)

sum_counts-count_one :
    (w : String) (out : List (String × ℕ)) → sum_counts (count_one w out) ≡ 1 + sum_counts out
sum_counts-count_one w [] = refl
sum_counts-count_one w ((x, n) ∷ out) = ground (arith, sum_counts-count_one w out)

count_into_counts :
    (v : String) (out : List (String × ℕ)) (vs : List String)
    → (count_of v (count_into out vs) ≡ count_of v out + tally (λ x. str_eq x v) vs)
      × (sum_counts (count_into out vs) ≡ sum_counts out + length vs)
count_into_counts v out [] = (omega arith, omega arith)
count_into_counts v out (w ∷ vs) =
    let rest = count_into_counts v (count_one w out) vs in
    (
      ground (arith, rest.0, count_of-count_one v w out),
      omega (arith, rest.1, sum_counts-count_one w out),
    )

-- The counts by value say of each value how often it occurs, and add up to the number of values.
pub count_by_exact :
    (v : String) (values : List String)
    → (count_of v (count_by values) ≡ tally (λ x. str_eq x v) values)
      × (sum_counts (count_by values) ≡ length values)
unfolding count_by
count_by_exact v values =
    let c = count_into_counts v [] values in (omega (arith, c), omega (arith, c))

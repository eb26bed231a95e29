-- ===== src/Stats/Ranks.antt =====
-- The figures of `summarize` of src/stats.ts, by the ranks of their values.
use contract_pinger.Common.{
  ℕ, zero, suc, ◌*◌, ◌/◌, ◌≤◌, ◌<◌, ◌≡◌, refl, sym, subst, ◌∙◌, true, not, List, [], ◌∷◌, some,
  arith, length, get_elem?, tally, tally-le-length, All, min,
}
use contract_pinger.Common.Int.{ℤ, leb_ℤ}
use contract_pinger.Common.Sorting.{sort, IsSorted, tally-sort, length-sort}
use contract_pinger.Stats.Order.{IsOrdered, summary_of-IsOrdered, sort_values-IsSorted}
use contract_pinger.Stats.{percentile, Summary, summary_of, summarize, last_of}

abbrev pub below : ℤ → List ℤ → ℕ
below v xs = tally (λ x. not (leb_ℤ v x)) xs

abbrev pub up_to : ℤ → List ℤ → ℕ
up_to v xs = tally (λ x. leb_ℤ x v) xs

-- At most `p` percent of the values are below it, and more than `p` percent are not above it.
pub record IsPercentile (p : ℕ) (values : List ℤ) (v : ℤ) : Type 0 where
  pub not_above : below v values * 100 ≤ p * length values
  pub not_below : p * length values < up_to v values * 100

below-All : (v : ℤ) (xs : List ℤ) → All (λ x. leb_ℤ v x ≡ true) xs → below v xs ≡ 0
below-All v [] h = refl
below-All v (x ∷ xs) h = ground (arith, below-All v xs h.1)

below-get_elem? :
    (xs : List ℤ) (i : ℕ) (v : ℤ) → IsSorted leb_ℤ xs → get_elem? xs i ≡ some v → below v xs ≤ i
below-get_elem? [] i v s e = cc
below-get_elem? (x ∷ xs) zero v s e =
    let same : x ≡ v = cc in
    subst (λ y. below y (x ∷ xs) ≤ 0) same (ground (arith, below-All x xs s.0))
below-get_elem? (x ∷ xs) (suc i) v s e = ground (arith, below-get_elem? xs i v s.1 e)

get_elem?-above :
    (x : ℤ) (xs : List ℤ) (i : ℕ) (v : ℤ)
    → All (λ y. leb_ℤ x y ≡ true) xs
    → get_elem? xs i ≡ some v
    → leb_ℤ x v ≡ true
get_elem?-above x [] i v h e = cc
get_elem?-above x (y ∷ ys) zero v h e =
    let same : y ≡ v = cc in subst (λ z. leb_ℤ x z ≡ true) same h.0
get_elem?-above x (y ∷ ys) (suc i) v h e = get_elem?-above x ys i v h.1 e

up_to-get_elem? :
    (xs : List ℤ) (i : ℕ) (v : ℤ) → IsSorted leb_ℤ xs → get_elem? xs i ≡ some v → suc i ≤ up_to v xs
up_to-get_elem? [] i v s e = cc
up_to-get_elem? (x ∷ xs) zero v s e =
    let same : x ≡ v = cc in subst (λ y. 1 ≤ up_to y (x ∷ xs)) same (ground arith)
up_to-get_elem? (x ∷ xs) (suc i) v s e =
    ground (arith, up_to-get_elem? xs i v s.1 e, get_elem?-above x xs i v s.0 e)

get_elem?-found : (xs : List ℤ) (i : ℕ) → i < length xs → (v : ℤ) × (get_elem? xs i ≡ some v)
get_elem?-found [] i h = ground arith
get_elem?-found (x ∷ xs) zero h = (x, refl)
get_elem?-found (x ∷ xs) (suc i) h = get_elem?-found xs i (omega arith)

percentile-IsPercentile :
    (p : ℕ) (xs : List ℤ)
    → p * length xs ≤ 99 * length xs
    → 1 ≤ length xs
    → IsSorted leb_ℤ xs
    → (v : ℤ) × (percentile xs p ≡ some v) × IsPercentile p xs v
unfolding percentile
percentile-IsPercentile p [] b h s = ground arith
percentile-IsPercentile p (x ∷ xs) b h s =
    let i = min (length xs) (p * suc (length xs) / 100) in
    let (v, e) = get_elem?-found (x ∷ xs) i (omega arith) in
    (
      v,
      e,
      record {
        not_above = omega (arith, below-get_elem? (x ∷ xs) i v s e);
        not_below = omega (arith, b, up_to-get_elem? (x ∷ xs) i v s e);
      },
    )

abbrev pub IsLeast : List ℤ → ℤ → Type 0
IsLeast values v = (below v values ≡ 0) × (1 ≤ up_to v values)

abbrev pub IsGreatest : List ℤ → ℤ → Type 0
IsGreatest values v = (up_to v values ≡ length values) × (below v values < length values)

-- What a summary says of its values.
pub record Describes (values : List ℤ) (s : Summary) : Type 0 where
  pub count : s.count ≡ length values
  pub lowest : (v : ℤ) × (s.lowest ≡ some v) × IsLeast values v
  pub p05 : (v : ℤ) × (s.p05 ≡ some v) × IsPercentile 5 values v
  pub p50 : (v : ℤ) × (s.p50 ≡ some v) × IsPercentile 50 values v
  pub p95 : (v : ℤ) × (s.p95 ≡ some v) × IsPercentile 95 values v
  pub highest : (v : ℤ) × (s.highest ≡ some v) × IsGreatest values v

up_to-le-length : (v : ℤ) (xs : List ℤ) → up_to v xs ≤ length xs
up_to-le-length v xs = tally-le-length (λ x. leb_ℤ x v) xs

last-IsGreatest :
    (xs : List ℤ)
    → 1 ≤ length xs
    → IsSorted leb_ℤ xs
    → (v : ℤ) × (last_of xs ≡ some v) × IsGreatest xs v
last-IsGreatest [] h s = ground arith
last-IsGreatest (x ∷ xs) h s =
    let (v, e) = get_elem?-found (x ∷ xs) (length xs) (omega arith) in
    (
      v,
      e,
      (
        omega (arith, up_to-get_elem? (x ∷ xs) (length xs) v s e, up_to-le-length v (x ∷ xs)),
        omega (arith, below-get_elem? (x ∷ xs) (length xs) v s e),
      ),
    )

first-IsLeast :
    (xs : List ℤ)
    → 1 ≤ length xs
    → IsSorted leb_ℤ xs
    → (v : ℤ) × (get_elem? xs 0 ≡ some v) × IsLeast xs v
first-IsLeast [] h s = ground arith
first-IsLeast (x ∷ xs) h s = (
  x,
  refl,
  (omega (arith, below-get_elem? (x ∷ xs) 0 x s refl), up_to-get_elem? (x ∷ xs) 0 x s refl),
)

summary_of-Describes :
    (xs : List ℤ) → 1 ≤ length xs → IsSorted leb_ℤ xs → Describes xs (summary_of xs)
unfolding summary_of
summary_of-Describes xs h s = record {
  count = refl;
  lowest = first-IsLeast xs h s;
  p05 = percentile-IsPercentile 5 xs (omega arith) h s;
  p50 = percentile-IsPercentile 50 xs (omega arith) h s;
  p95 = percentile-IsPercentile 95 xs (omega arith) h s;
  highest = last-IsGreatest xs h s;
}

-- The ranks do not depend on the order of the values.
module _ (values : List ℤ) where
  length-sort_values : length (sort leb_ℤ values) ≡ length values
  length-sort_values = length-sort leb_ℤ values

  below-sort : (v : ℤ) → below v (sort leb_ℤ values) ≡ below v values
  below-sort v = tally-sort leb_ℤ (λ x. not (leb_ℤ v x)) values

  up_to-sort : (v : ℤ) → up_to v (sort leb_ℤ values) ≡ up_to v values
  up_to-sort v = tally-sort leb_ℤ (λ x. leb_ℤ x v) values

  sorted-IsPercentile :
      (p : ℕ) (v : ℤ) → IsPercentile p (sort leb_ℤ values) v → IsPercentile p values v
  sorted-IsPercentile p v d = record {
    not_above = rw (sym (below-sort v), sym length-sort_values) d.not_above;
    not_below = rw (sym (up_to-sort v), sym length-sort_values) d.not_below;
  }

  sorted-Describes : (s : Summary) → Describes (sort leb_ℤ values) s → Describes values s
  sorted-Describes s d =
      let (low, low_is, least) = d.lowest in
      let (a, a_is, fifth) = d.p05 in
      let (b, b_is, middle) = d.p50 in
      let (c, c_is, upper) = d.p95 in
      let (high, high_is, greatest) = d.highest in
      record {
        count = d.count ∙ length-sort_values;
        lowest = (
          low,
          low_is,
          (omega (arith, least, below-sort low), omega (arith, least, up_to-sort low)),
        );
        p05 = (a, a_is, sorted-IsPercentile 5 a fifth);
        p50 = (b, b_is, sorted-IsPercentile 50 b middle);
        p95 = (c, c_is, sorted-IsPercentile 95 c upper);
        highest = (
          high,
          high_is,
          (
            omega (arith, greatest, up_to-sort high, length-sort_values),
            omega (arith, greatest, below-sort high, length-sort_values),
          ),
        );
      }

-- A summary of one duration or more gives all its figures, and they come in order. No value is below
-- the lowest, and one is not above it; none is above the highest, and one is not below it. At most
-- 5, 50 and 95 percent of the values are below the three percentiles, and more than as many are not
-- above them. The count is that of the values.
pub summarize-Describes :
    (values : List ℤ)
    → 1 ≤ length values
    → Describes values (summarize values) × IsOrdered (summarize values)
unfolding summarize
summarize-Describes values h =
    let sorted = sort_values-IsSorted values in
    (
      sorted-Describes values (summarize values) (
          summary_of-Describes (sort leb_ℤ values) (omega (arith, h, length-sort_values values))
            sorted),
      summary_of-IsOrdered (sort leb_ℤ values) sorted,
    )

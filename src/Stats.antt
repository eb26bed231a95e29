-- ===== src/Stats.antt =====
-- src/jobs/stats.ts: the figures over the jobs that a store holds.
pub mod Order
pub mod Ranks
pub mod Build
mod Tests
use contract_pinger.Common.{
  ℕ, zero, suc, ◌+◌, ◌-◌, ◌*◌, ◌/◌, min, Bool, true, false, not, List, [], ◌∷◌, ◌++◌, map, Option,
  none, some, String, ltb, leb, ◌==◌, str_eq, if◌then◌else◌, length, get_elem?, keep, tally,
}
use contract_pinger.Common.Int.{ℤ, leb_ℤ}
use contract_pinger.Common.Sorting.{sort}
use contract_pinger.BidirectionalTx.{TxMode}
use contract_pinger.JobStore.{JobRecord, responded, failed, JobState, span}

-- `percentile` of a sorted list: `p` is a percentage.
unfoldable pub percentile : List ℤ → ℕ → Option ℤ
percentile [] p = none
percentile (x ∷ xs) p = get_elem? (x ∷ xs) (min (length xs) (p * suc (length xs) / 100))

pub record Summary : Type 0 where
  pub count : ℕ
  pub lowest : Option ℤ
  pub p05 : Option ℤ
  pub p50 : Option ℤ
  pub p95 : Option ℤ
  pub highest : Option ℤ

abbrev pub last_of : List ℤ → Option ℤ
last_of [] = none
last_of (x ∷ xs) = get_elem? (x ∷ xs) (length xs)

-- The figures of a sorted list.
unfoldable pub summary_of : List ℤ → Summary
unfolding percentile
summary_of sorted = record {
  count = length sorted;
  lowest = get_elem? sorted 0;
  p05 = percentile sorted 5;
  p50 = percentile sorted 50;
  p95 = percentile sorted 95;
  highest = last_of sorted;
}

unfoldable pub summarize : List ℤ → Summary
unfolding summary_of
summarize values = summary_of (sort leb_ℤ values)

abbrev pub add_some : Option ℤ → List ℤ → List ℤ
add_some none vs = vs
add_some (some v) vs = v ∷ vs

unfoldable pub collect : List JobRecord → (JobRecord → Option ℤ) → List ℤ
collect [] pick = []
collect (j ∷ js) pick = add_some (pick j) (collect js pick)

pub record Latencies : Type 0 where
  pub lease_wait_ms : Summary
  pub signature_ms : Summary
  pub confirmation_ms : Summary
  pub respond_ms : Summary
  pub total_ms : Summary

abbrev pub has_responded : JobRecord → Bool
has_responded j = elim j.state [ responded ↦ true | _ ↦ false ]

abbrev pub has_failed : JobRecord → Bool
has_failed j = elim j.state [ failed ↦ true | _ ↦ false ]

unfoldable pub latencies_for : List JobRecord → Latencies
unfolding collect summarize
latencies_for jobs = record {
  lease_wait_ms =
      summarize (collect jobs (λ j. span (some j.timings.accepted_at) j.timings.lease_acquired_at));
  signature_ms = summarize (collect jobs (λ j. span j.timings.sign_sent_at j.timings.signature_at));
  confirmation_ms =
      summarize (collect jobs (λ j. span j.timings.broadcast_at j.timings.confirmed_at));
  respond_ms = summarize (collect jobs (λ j. span j.timings.confirmed_at j.timings.responded_at));
  total_ms = summarize (
      collect (keep has_responded jobs)
        (λ j. span (some j.timings.accepted_at) j.timings.finished_at));
}

-- `countBy`: a count for each value, in the order of the first of its kind.
abbrev pub count_one : String → List (String × ℕ) → List (String × ℕ)
count_one v [] = (v, 1) ∷ []
count_one v ((x, n) ∷ out) =
    let rest = count_one v out in if str_eq x v then (x, n + 1) ∷ out else (x, n) ∷ rest

abbrev pub count_into : List (String × ℕ) → List String → List (String × ℕ)
count_into out [] = out
count_into out (v ∷ vs) = count_into (count_one v out) vs

unfoldable pub count_by : List String → List (String × ℕ)
count_by values = count_into [] values

-- The total, and the counts by outcome, of the jobs of a mode.
pub record ModeStats : Type 0 where
  pub jobs_total : ℕ
  pub succeeded : ℕ
  pub not_succeeded : ℕ
  pub latencies : Latencies

unfoldable pub mode_stats : List JobRecord → ModeStats
unfolding latencies_for
mode_stats mode_jobs = record {
  jobs_total = length mode_jobs;
  succeeded = tally has_responded mode_jobs;
  not_succeeded = tally has_failed mode_jobs;
  latencies = latencies_for mode_jobs;
}

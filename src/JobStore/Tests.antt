-- ===== src/JobStore/Tests.antt =====
-- Runs of the store, and the theorems at concrete stores.
use contract_pinger.Common.{
  ◌+◌, ◌≤◌, ◌<◌, ◌≡◌, ◌↔◌, none, refl, false, not, List, [], ◌∷◌, map, some, tally, keep, All, min,
  arith, length, String, str_eq,
}
use mathlib.Core.Option
use contract_pinger.Common.Sorting.{sort}
use contract_pinger.Common.Int.{pos}
use contract_pinger.BidirectionalTx.{eth_self_transfer}
use contract_pinger.JobStore.{
  JobRecord, JobPatch, no_timings, JobStore, confirmed, sign_sent, shutdown, is_finished, stamp,
  surplus, prune, new_job, create, find, modify, update, fail, no_change, at_capacity, active,
  awaiting_respond, awaiting_respond_count, active_count, live_count, view,
}
use contract_pinger.JobStore.Retention.{IsKeyed, prune_count, prune_live, prune_oldest}
use contract_pinger.JobStore.Bounded.{
  IsBounded, Op, creates, fails, apply, apply_all, new_store, store-IsBounded, counts_partition,
}
use contract_pinger.JobStore.Capacity.{
  Reach, here, next, admits, advances, at_capacity_iff, admitted_bound,
}
use contract_pinger.JobStore.Patched.{IsPatched, find-update}

store_code : Unit {0}
unfolding create prune surplus sort find modify update fail at_capacity live_count apply apply_all
store_code = tt

abbrev load : List Op
load =
    creates "a" "dev" eth_self_transfer 1
    ∷ creates "b" "dev" eth_self_transfer 5
    ∷ creates "c" "dev" eth_self_transfer 6
    ∷ creates "d" "dev" eth_self_transfer 7
    ∷ fails "c" shutdown "late" 10
    ∷ fails "d" shutdown "late" 20
    ∷ fails "a" shutdown "late" 30
    ∷ []

-- Three finished jobs and a live one, with room for two finished.
abbrev crowded : JobStore
crowded = record (apply_all (new_store 2 9 1) load) { retained = 2 }

prune-crowded : map (λ j. j.id) (prune crowded).jobs ≡ "a" ∷ "b" ∷ "d" ∷ []
unfolding store_code
prune-crowded = refl

at_capacity-crowded : at_capacity crowded ≡ some active
unfolding store_code
at_capacity-crowded = refl

crowded_counts : live_count crowded + tally is_finished crowded.jobs ≡ length crowded.jobs
crowded_counts = counts_partition crowded

view-crowded : Option.map (λ v. v.1) (view crowded "d") ≡ some (("totalMs", pos 13) ∷ [])
unfolding store_code view
view-crowded = refl

crowded-IsKeyed : IsKeyed crowded.jobs
crowded-IsKeyed = (store-IsBounded 2 9 1 load).keyed

prune_count_example :
    tally is_finished (prune crowded).jobs ≡ min (tally is_finished crowded.jobs) crowded.retained
prune_count_example = prune_count crowded crowded-IsKeyed

prune_live_example :
    keep (λ j. not (is_finished j)) (prune crowded).jobs
    ≡ keep (λ j. not (is_finished j)) crowded.jobs
prune_live_example = prune_live crowded crowded-IsKeyed

prune_oldest_example :
    All
      (λ j. All (λ d. stamp d ≤ stamp j) (surplus crowded.retained crowded.jobs))
      (keep is_finished (prune crowded).jobs)
prune_oldest_example = prune_oldest crowded

store-IsBounded_example : IsBounded (apply_all (new_store 2 1 1) load)
store-IsBounded_example = store-IsBounded 2 1 1 load

abbrev one_job : JobStore
one_job = create (new_store 2 10 1) "a" "mainnet" eth_self_transfer 1

one_found : find "a" one_job.jobs ≡ some (new_job "a" "mainnet" eth_self_transfer 1)
unfolding store_code
one_found = refl

one_reached :
    Reach (new_store 2 10 1) (update one_job "a" (record no_change { state = some confirmed }))
one_reached =
    next
      (next here (
        admits "a" "mainnet" eth_self_transfer 1 (unfold store_code in refl)
          (unfold store_code in refl)))
      (advances "a" (record no_change { state = some confirmed })
        (λ job e. ground (arith, one_found)))

admitted_bound_example :
    (active_count (update one_job "a" (record no_change { state = some confirmed })) ≤ 1)
    × (live_count (update one_job "a" (record no_change { state = some confirmed })) ≤ 2)
admitted_bound_example = admitted_bound 2 10 1 one_reached

-- A patch with one instant, on a record that has another.
abbrev stamped : JobPatch
stamped = record no_change { timings = record no_timings { signature_at = some 7 } }

abbrev sent_job : JobRecord
sent_job = record (new_job "a" "mainnet" eth_self_transfer 1) {
  state = sign_sent;
  timings = record (new_job "a" "mainnet" eth_self_transfer 1).timings { sign_sent_at = some 5 };
}

abbrev one_sent : JobStore
one_sent = record { jobs = sent_job ∷ []; max_jobs = 1; retained = 9; max_active_jobs = 1 }

find-update_example :
    ((new : JobRecord) × (find "a" (update one_sent "a" stamped).jobs ≡ some new)
      × IsPatched stamped sent_job new)
    × ((k : String)
        → str_eq "a" k ≡ false
        → find k (update one_sent "a" stamped).jobs ≡ find k one_sent.jobs)
find-update_example = find-update one_sent "a" stamped sent_job (unfold store_code in refl) refl

abbrev one_confirmed : JobStore
one_confirmed = record {
  jobs = record (new_job "a" "dev" eth_self_transfer 1) { state = confirmed } ∷ [];
  max_jobs = 1;
  retained = 9;
  max_active_jobs = 1;
}

at_capacity_iff_example :
    ((at_capacity one_confirmed ≡ some active) ↔ (1 ≤ active_count one_confirmed))
    × ((at_capacity one_confirmed ≡ some awaiting_respond)
        ↔ ((active_count one_confirmed < 1) × (1 ≤ awaiting_respond_count one_confirmed)))
    × ((at_capacity one_confirmed ≡ none)
        ↔ ((active_count one_confirmed < 1) × (awaiting_respond_count one_confirmed < 1)))
at_capacity_iff_example = at_capacity_iff one_confirmed

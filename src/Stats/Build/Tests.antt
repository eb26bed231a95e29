-- ===== src/Stats/Build/Tests.antt =====
-- The figures of a service, and the theorem at one.
use contract_pinger.Common.{◌+◌, ◌≡◌, refl, true, List, [], ◌∷◌, some, tally, is_some}
use contract_pinger.BidirectionalTx.{dev, eth_self_transfer, erc20_zero_transfer}
use contract_pinger.RateLimiter.{expire}
use contract_pinger.RateLimiter
use contract_pinger.WorkerPool.{fresh_worker}
use contract_pinger.WorkerPool
use contract_pinger.JobStore.{JobRecord, new_job, responded, failed, shutdown, active_count}
use contract_pinger.Service.{Service}
use contract_pinger.Stats.{count_by}
use contract_pinger.Stats.Order.{sum_counts}
use contract_pinger.Stats.Build.{job_figures, pool_figures, build_stats}
use contract_pinger.Stats.Build.Sums.{sum_modes, stats_add_up}

abbrev jobs : List JobRecord
jobs =
    record (new_job "a" "dev" erc20_zero_transfer 1) { state = responded }
    ∷ new_job "b" "dev" eth_self_transfer 2
    ∷ record (new_job "c" "dev" erc20_zero_transfer 3) {
      state = failed;
      failure_reason = some shutdown;
    }
    ∷ []

abbrev service : Service
service = record {
  environment = dev;
  pool = record {
    workers = record (fresh_worker "p-0") { busy = true } ∷ fresh_worker "p-1" ∷ [];
    waiters = 4 ∷ [];
    settled = [];
    next_ticket = 5;
  };
  jobs = record { jobs = jobs; max_jobs = 9; retained = 9; max_active_jobs = 9 };
  limiter = record { hits = 1 ∷ 50 ∷ []; limit = 2; window_ms = 60 };
  addresses_ready = true;
}

stats_code : Unit {0}
unfolding build_stats WorkerPool.size WorkerPool.waiting job_figures pool_figures count_by
    active_count RateLimiter.used RateLimiter.retry_after_ms expire
stats_code = tt

states :
    (build_stats service 70).1.jobs.states ≡ ("responded", 1) ∷ ("pending", 1) ∷ ("failed", 1) ∷ []
unfolding stats_code
states = refl

failures : (build_stats service 70).1.jobs.failures ≡ ("shutdown", 1) ∷ []
unfolding stats_code
failures = refl

rate : (build_stats service 70).1.rate ≡ record { used_in_window = 1; retry_after_ms = 0 }
unfolding stats_code
rate = refl

pool : (build_stats service 70).1.pool ≡ record { size = 2; busy = 1; waiting = 1; underfunded = 0 }
unfolding stats_code
pool = refl

stats_add_up_example :
    let f = (build_stats service 70).1 in
    (sum_modes (λ m. m.jobs_total) f.by_mode ≡ f.jobs.jobs_total)
    × (sum_modes (λ m. m.succeeded) f.by_mode
          + sum_modes (λ m. m.not_succeeded) f.by_mode
          + f.jobs.live
        ≡ f.jobs.jobs_total)
    × (sum_counts f.jobs.states ≡ f.jobs.jobs_total)
    × (sum_counts f.jobs.failures ≡ tally (λ j. is_some j.failure_reason) service.jobs.jobs)
stats_add_up_example = stats_add_up service 70

-- ===== src/Stats/Build.antt =====
-- src/jobs/stats.ts: `buildStats`, the figures of a service.
pub mod Sums
mod Tests
use contract_pinger.Common.{
  ℕ, Bool, true, false, not, List, [], ◌∷◌, map, Option, none, some, String, str_eq, if◌then◌else◌,
  length, keep, tally,
}
use contract_pinger.BidirectionalTx.{TxMode, eth_self_transfer, erc20_zero_transfer, Environment}
use contract_pinger.RateLimiter
use contract_pinger.WorkerPool
use contract_pinger.WorkerPool.{Worker}
use contract_pinger.JobStore.{
  JobRecord, JobState, pending, sign_sent, awaiting_signature, verified, broadcast, confirmed,
  responded, failed, FailureReason, all_workers_busy, all_workers_underfunded,
  preflight_underfunded, signature_timeout, derivation_mismatch, broadcast_failed,
  confirmation_timeout, transaction_reverted, respond_timeout, respond_mismatch, shutdown,
  internal_error, active_count, awaiting_respond_count, live_count,
}
use contract_pinger.Service.{Service}
use contract_pinger.Stats.{ModeStats, mode_stats, count_by}

abbrev pub mode_name : TxMode → String
mode_name eth_self_transfer = "eth_self_transfer"
mode_name erc20_zero_transfer = "erc20_zero_transfer"

abbrev pub state_name : JobState → String
state_name pending = "pending"
state_name sign_sent = "sign_sent"
state_name awaiting_signature = "awaiting_signature"
state_name verified = "verified"
state_name broadcast = "broadcast"
state_name confirmed = "confirmed"
state_name responded = "responded"
state_name failed = "failed"

abbrev pub reason_name : FailureReason → String
reason_name all_workers_busy = "all_workers_busy"
reason_name all_workers_underfunded = "all_workers_underfunded"
reason_name preflight_underfunded = "preflight_underfunded"
reason_name signature_timeout = "signature_timeout"
reason_name derivation_mismatch = "derivation_mismatch"
reason_name broadcast_failed = "broadcast_failed"
reason_name confirmation_timeout = "confirmation_timeout"
reason_name transaction_reverted = "transaction_reverted"
reason_name respond_timeout = "respond_timeout"
reason_name respond_mismatch = "respond_mismatch"
reason_name shutdown = "shutdown"
reason_name internal_error = "internal_error"

-- `jobs.map(j => j.failureReason)` without the undefined ones.
abbrev pub reasons : List JobRecord → List String
reasons [] = []
reasons (j ∷ js) = elim j.failure_reason [ none ↦ reasons js | some r ↦ reason_name r ∷ reasons js ]

-- `new Set(values)`, in the order of the first of each kind.
abbrev pub distinct : List String → List String
distinct [] = []
distinct (v ∷ vs) = v ∷ keep (λ x. not (str_eq x v)) (distinct vs)

abbrev pub has_mode : String → JobRecord → Bool
has_mode mode j = str_eq (mode_name j.mode) mode

abbrev pub stats_by_mode : List JobRecord → List String → List (String × ModeStats)
stats_by_mode jobs [] = []
stats_by_mode jobs (mode ∷ modes) =
    (mode, mode_stats (keep (has_mode mode) jobs)) ∷ stats_by_mode jobs modes

pub record JobFigures : Type 0 where
  pub jobs_total : ℕ
  pub active : ℕ
  pub awaiting_respond : ℕ
  pub live : ℕ
  pub states : List (String × ℕ)
  pub failures : List (String × ℕ)

pub record RateFigures : Type 0 where
  pub used_in_window : ℕ
  pub retry_after_ms : ℕ

pub record PoolFigures : Type 0 where
  pub size : ℕ
  pub busy : ℕ
  pub waiting : ℕ
  pub underfunded : ℕ

pub record Figures : Type 0 where
  pub environment : Environment
  pub jobs : JobFigures
  pub rate : RateFigures
  pub pool : PoolFigures
  pub by_mode : List (String × ModeStats)

unfoldable pub job_figures : Service → JobFigures
job_figures s = record {
  jobs_total = length s.jobs.jobs;
  active = active_count s.jobs;
  awaiting_respond = awaiting_respond_count s.jobs;
  live = live_count s.jobs;
  states = count_by (map (λ j. state_name j.state) s.jobs.jobs);
  failures = count_by (reasons s.jobs.jobs);
}

unfoldable pub pool_figures : Service → PoolFigures
pool_figures s = record {
  size = WorkerPool.size s.pool;
  busy = tally (λ w. w.busy) s.pool.workers;
  waiting = WorkerPool.waiting s.pool;
  underfunded = tally (λ w. w.underfunded) s.pool.workers;
}

-- The reading of the rate limiter drops its expired hits.
unfoldable pub build_stats : Service → ℕ → Service × Figures
unfolding job_figures pool_figures
build_stats s now =
    let (limiter, in_window) = RateLimiter.used s.limiter now in
    let (limiter', wait) = RateLimiter.retry_after_ms limiter now in
    (
      record s { limiter = limiter' },
      record {
        environment = s.environment;
        jobs = job_figures s;
        rate = record { used_in_window = in_window; retry_after_ms = wait };
        pool = pool_figures s;
        by_mode = stats_by_mode s.jobs.jobs (distinct (map (λ j. mode_name j.mode) s.jobs.jobs));
      },
    )

-- ===== src/Service.antt =====
-- src/handlers/signBidirectional.ts: the service of one environment, and the state of a running job.
-- A run of a job stops at each `await`; `Phase` names the place and keeps the locals that are still
-- read. The workers' endpoint of src/index.ts shares the service's balance and nonce checks.
pub mod Steps
pub mod World
pub mod Balance
pub mod Leasing
pub mod Resuming
pub mod Account
pub mod Exclusive
pub mod Stages
pub mod Proceeding
pub mod Settling
pub mod Finishing
pub mod Admission
pub mod Progress
pub mod Due
pub mod Ending
pub mod Addresses
pub mod Shutdown
pub mod Withheld
mod Tests
use contract_pinger.Common.{
  ℕ, ◌+◌, Bool, true, false, not, ◌&&◌, ◌||◌, List, [], ◌∷◌, ◌++◌, map, Option, none, some, String,
  ltb, leb, ◌==◌, str_eq, if◌then◌else◌,
}
use contract_pinger.BidirectionalTx.{TxMode, Environment, mainnet, BuiltTransaction, RsvSignature}
use contract_pinger.RateLimiter.{RateLimiter}
use contract_pinger.RateLimiter
use contract_pinger.WorkerPool.{
  WorkerPool, Worker, Reason, all_busy, all_underfunded, PoolError, no_worker, abandoned,
}
use contract_pinger.WorkerPool
use contract_pinger.JobStore.{JobStore, JobPatch, FailureReason}
use contract_pinger.JobStore

-- The part of `env.bidirectional` that the service reads.
pub record Config : Type 0 where
  pub path_prefix : String
  pub paths : ℕ
  pub max_active_jobs : ℕ
  pub max_jobs : ℕ
  pub retained_jobs : ℕ
  pub max_requests_per_minute : ℕ
  pub min_balance_wei : ℕ

pub record Service : Type 0 where
  pub environment : Environment
  pub pool : WorkerPool
  pub jobs : JobStore
  pub limiter : RateLimiter
  -- Whether the derivation of the addresses has succeeded.
  pub addresses_ready : Bool

abbrev pub is_mainnet : Environment → Bool
is_mainnet mainnet = true
is_mainnet _ = false

abbrev pub environment_name : Environment → String
environment_name Environment.dev = "dev"
environment_name Environment.testnet = "testnet"
environment_name Environment.mainnet = "mainnet"

-- The constructor. `show` is the text of a number.
unfoldable pub new_service : (ℕ → String) → Config → Environment → Service
new_service show config environment = record {
  environment = environment;
  pool = WorkerPool.create (
      WorkerPool.build_paths show config.path_prefix
        (if is_mainnet environment then 1 else config.paths));
  jobs = record {
    jobs = [];
    max_jobs = if is_mainnet environment then 2 else config.max_jobs;
    retained = config.retained_jobs;
    max_active_jobs = if is_mainnet environment then 1 else config.max_active_jobs;
  };
  limiter =
      RateLimiter.create (if is_mainnet environment then 1 else config.max_requests_per_minute)
        60000;
  addresses_ready = false;
}

-- The `await` at which a run stands.
pub data Phase : Type 0 where
  deriving_addresses : Phase
  -- The loops of `reconcileQuarantined` and `refreshUnderfunded`, by the paths still to do.
  reconciling : List String → Phase
  refreshing : List String → Phase
  parked : ℕ → Phase
  preflight : Phase
  building : ℕ → Phase
  sending : BuiltTransaction → Phase
  signing : BuiltTransaction → Phase
  attaching : BuiltTransaction → Phase
  broadcasting : BuiltTransaction → Phase
  confirming : BuiltTransaction → Phase
  responding : Phase
  over : Phase

pub record Run : Type 0 where
  pub job_id : String
  pub worker : Option String
  pub lease_released : Bool
  -- `watches.signal.aborted`
  pub aborted : Bool
  pub phase : Phase

-- What an `await` comes back with.
pub data Reply : Type 0 where
  derived : List (String × String) → Reply
  counts : ℕ → ℕ → Reply
  balance : ℕ → Reply
  built : BuiltTransaction → String → Reply
  solana_sent : String → Reply
  signature : Reply
  attached : String → Reply
  eth_hash : String → Reply
  receipt : Bool → Reply
  respond : String → Reply
  settled : Reply
  threw : String → Reply

-- What a rejected `run` was rejected with.
pub data RunError : Type 0 where
  shutdown_error : RunError
  pool_error : Reason → RunError
  other : String → RunError

-- The `catch` of `start`.
abbrev pub reason_of : RunError → FailureReason
reason_of shutdown_error = JobStore.shutdown
reason_of (pool_error all_underfunded) = JobStore.all_workers_underfunded
reason_of (pool_error all_busy) = JobStore.all_workers_busy
reason_of (other message) = JobStore.internal_error

-- An error of the pool, as the catch sees it: only a `NoWorkerAvailableError` is one of its own.
abbrev pub run_error_of : PoolError → RunError
run_error_of (no_worker reason) = pool_error reason
run_error_of (abandoned message) = other message

-- `releaseLease`
unfoldable pub release_lease : Service → Run → ℕ → Service × Run
release_lease s r now = elim r.worker [
  | none ↦ (s, r)
  | some path ↦ if r.lease_released then (s, r) else (
    record s { pool = WorkerPool.release s.pool path now },
    record r { lease_released = true },
  )
]

-- The `finally` of `run`.
unfoldable pub finish : Service → Run → ℕ → Service × Run
finish s r now =
    let (s', r') = release_lease s r now in (s', record r' { phase = over; aborted = true })

abbrev pub update_job : Service → Run → JobPatch → Service
update_job s r patch = record s { jobs = JobStore.update s.jobs r.job_id patch }

abbrev pub fail_job : Service → Run → FailureReason → String → ℕ → Service
fail_job s r reason message now = record s {
  jobs = JobStore.fail s.jobs r.job_id reason message now;
}

-- `this.jobs.fail(…); return;`
unfoldable pub give_up : Service → Run → FailureReason → String → ℕ → Service × Run
give_up s r reason message now = finish (fail_job s r reason message now) r now

-- An error that leaves `run`: first its `finally`, then the `catch` of `start`.
abbrev pub text_of : RunError → String
text_of shutdown_error = "Process is shutting down; job abandoned before it could proceed"
text_of (pool_error all_busy) =
    "All derived addresses are mid-transaction or awaiting nonce reconciliation; retry shortly."
text_of (pool_error all_underfunded) =
    "No derived address holds enough gas. Fund them or run a top-up sweep."
text_of (other message) = message

unfoldable pub throw : Service → Run → RunError → ℕ → Service × Run
throw s r e now =
    let (s', r') = finish s r now in (fail_job s' r' (reason_of e) (text_of e) now, r')

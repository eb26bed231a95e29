-- ===== src/Service/World.antt =====
-- A service and all its runs: a history is a list of events with their instants. A run goes on only
-- by a reply to its `await`, so any interleaving of the jobs is such a list.
use contract_pinger.Common.{ℕ, zero, suc, true, false, List, [], ◌∷◌, ◌++◌, map, none, String, ltb}
use contract_pinger.BidirectionalTx.{TxMode, Environment}
use contract_pinger.WorkerPool.{abandoned}
use contract_pinger.WorkerPool
use contract_pinger.JobStore
use contract_pinger.Service.{
  Config, Service, new_service, environment_name, deriving_addresses, Run, Reply,
}
use contract_pinger.Service.Steps.{Outside, ready, resume}

pub record World : Type 0 where
  pub service : Service
  pub runs : List Run

pub data Event : Type 0 where
  starts : String → TxMode → Event
  resumes : ℕ → Reply → Event
  -- The timer of a waiter.
  times_out : ℕ → Event
  shuts_down : Event
  -- The workers' endpoint: its derivation, its balances, its nonce counts.
  sees_addresses : List (String × String) → Event
  sees_balance : String → ℕ → Event
  sees_counts : String → ℕ → ℕ → Event

abbrev pub new_run : String → Run
new_run id = record {
  job_id = id;
  worker = none;
  lease_released = false;
  aborted = false;
  phase = deriving_addresses;
}

-- `start`, to the first `await` of its run.
unfoldable pub start : World → String → TxMode → ℕ → World
start w id mode now = record {
  service = record w.service {
    jobs = JobStore.create w.service.jobs id (environment_name w.service.environment) mode now;
  };
  runs = w.runs ++ new_run id ∷ [];
}

-- `abortActiveJobs`, on the jobs and the waiters of this service.
abbrev pub abort_all : List Run → List Run
abort_all = map {A = Run} (λ r. record r { aborted = true })

unfoldable pub abort_active_jobs : World → World
abort_active_jobs w = record {
  service = record w.service {
    pool = WorkerPool.reject_waiters w.service.pool (abandoned "Process is shutting down");
  };
  runs = abort_all w.runs;
}

module _ (o : Outside) (config : Config) where
  -- The run at a place goes on; a place that is not there changes nothing.
  unfoldable pub resume_at : Service → List Run → ℕ → Reply → ℕ → Service × List Run
  unfolding resume
  resume_at s [] i reply now = (s, [])
  resume_at s (r ∷ rs) zero reply now =
      let (s', r') = resume o config s r reply now in (s', r' ∷ rs)
  resume_at s (r ∷ rs) (suc i) reply now =
      let (s', rs') = resume_at s rs i reply now in (s', r ∷ rs')

  unfoldable pub step : World → ℕ × Event → World
  unfolding resume_at
  step w (now, starts id mode) = start w id mode now
  step w (now, resumes i reply) =
      let (s, rs) = resume_at w.service w.runs i reply now in record { service = s; runs = rs }
  step w (now, times_out t) = record w {
    service = record w.service { pool = WorkerPool.time_out w.service.pool t };
  }
  step w (now, shuts_down) = abort_active_jobs w
  step w (now, sees_addresses addresses) = record w { service = ready w.service addresses }
  step w (now, sees_balance path b) = record w {
    service = record w.service {
      pool = WorkerPool.set_balance w.service.pool path b config.min_balance_wei;
    };
  }
  step w (now, sees_counts path latest pending) = record w {
    service = record w.service {
      pool = WorkerPool.reconcile w.service.pool path (ltb latest pending);
    };
  }

  unfoldable pub run : World → List (ℕ × Event) → World
  run w [] = w
  run w (e ∷ es) = run (step w e) es

unfoldable pub new_world : (ℕ → String) → Config → Environment → World
unfolding new_service
new_world show config environment = record {
  service = new_service show config environment;
  runs = [];
}

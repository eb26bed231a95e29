-- ===== src/Service/Shutdown.antt =====
-- A shutdown while jobs wait for an address.
use contract_pinger.Common.{
  ℕ, ◌≡◌, refl, sym, subst, ◌∙◌, true, List, [], ◌∷◌, ◌++◌, none, some, arith,
}
use contract_pinger.WorkerPool.{
  PoolError, abandoned, refused, Settlement, refusals, has_ticket, reject_waiters,
}
use contract_pinger.JobStore.{internal_error}
use contract_pinger.Service.{Config, Service, Run, parked, settled, finish, fail_job, throw}
use contract_pinger.Service.Steps.{
  Outside, settlement_of, drop_settlement, settle, collect, resume_unleased, resume_by, resume,
}
use contract_pinger.Service.Resuming.{collect-some}
use contract_pinger.Service.World.{World, abort_active_jobs}

settlement_of-refusals :
    (t : ℕ) (e : PoolError) (ts : List ℕ) (before : List (ℕ × Settlement))
    → settlement_of t before ≡ none
    → has_ticket t ts ≡ true
    → settlement_of t (before ++ refusals e ts) ≡ some (refused e)
settlement_of-refusals t e [] [] n h = cc
settlement_of-refusals t e (x ∷ ts) [] n h = ground (arith, settlement_of-refusals t e ts [])
settlement_of-refusals t e ts ((x, st) ∷ before) n h =
    ground (arith, settlement_of-refusals t e ts before)

resume-parked :
    (out : Outside) (config : Config) (s : Service) (r : Run) (t now : ℕ)
    → r.worker ≡ none
    → r.phase ≡ parked t
    → resume out config s r settled now ≡ collect s r t now
unfolding resume resume_unleased
resume-parked out config s r t now nobody waits =
    subst (λ x. resume_by out config x s r settled now ≡ collect s r t now) (sym nobody)
      (subst (λ p. resume_unleased out config s r p settled now ≡ collect s r t now) (sym waits)
        refl)

-- The outcome of a job that a shutdown takes from the queue.
abbrev pub rejected_service : Service → ℕ → Service
rejected_service s t =
    let p = reject_waiters s.pool (abandoned "Process is shutting down") in
    record s { pool = record p { settled = drop_settlement t p.settled } }

-- A job that waits for an address when the service is told to shut down, and goes on, is recorded
-- as failed with the reason `internal_error` and the text "Process is shutting down", not with
-- the reason `shutdown`; this is so for every waiter without a settlement.
pub abort-parked :
    (out : Outside) (config : Config) (w : World) (r : Run) (t now : ℕ)
    → r.worker ≡ none
    → r.phase ≡ parked t
    → settlement_of t w.service.pool.settled ≡ none
    → has_ticket t w.service.pool.waiters ≡ true
    → resume out config (abort_active_jobs w).service (record r { aborted = true }) settled now ≡ (
        let (s, r') = finish (rejected_service w.service t) (record r { aborted = true }) now in
        (fail_job s r' internal_error "Process is shutting down" now, r'))
unfolding abort_active_jobs settle throw reject_waiters
abort-parked out config w r t now nobody waits unsettled queued =
    let s = (abort_active_jobs w).service in
    let gone : Run = record r { aborted = true } in
    resume-parked out config s gone t now nobody waits
    ∙ collect-some s gone t now (refused (abandoned "Process is shutting down")) (
        settlement_of-refusals t (abandoned "Process is shutting down") w.service.pool.waiters
          w.service.pool.settled unsettled queued)

-- ===== src/Service/Exclusive.antt =====
-- The account of the addresses over interleavings of the runs of a service.
use contract_pinger.Common.{
  ℕ, zero, suc, ◌+◌, ◌≤◌, ◌≡◌, refl, ap, inl, inr, List, [], ◌∷◌, String, tally, keep, not,
  if◌then◌else◌, Bool-cases, All, All-append, ltb, arith, tally-append,
}
use contract_pinger.BidirectionalTx.{Environment}
use contract_pinger.WorkerPool.{
  Settlement, refused, no_worker, all_busy, reject_waiters, PoolError, abandoned, create,
  build_paths, fresh_worker, refusals, time_out, set_balance, reconcile,
}
use contract_pinger.WorkerPool
use contract_pinger.WorkerPool.Paths.{build_paths_once}
use contract_pinger.WorkerPool.Leases.{
  busy_at, paths_at, busy-le-paths, fresh_counts, time_out-workers,
}
use contract_pinger.Service.{Config, Service, Run, Reply, is_mainnet, new_service}
use contract_pinger.Service.Steps.{Outside, ready}
use contract_pinger.Service.Balance.{holds, is_over, granted_to, unread, IsSane, Fits}
use contract_pinger.Service.Resuming.{set_balance-Fits, reconcile-Fits, ready-Fits}
use contract_pinger.Service.Account.{resume-Fits}
use contract_pinger.Service.World.{
  World, Event, starts, resumes, times_out, shuts_down, sees_addresses, sees_balance, sees_counts,
  new_run, start, abort_all, abort_active_jobs, resume_at, step, run, new_world,
}

-- The busy marks are the held and the granted leases, no two workers share a path, and every run
-- is sane.
pub record IsAccounted (w : World) : Type 0 where
  pub matched :
      (q : String)
      → busy_at q w.service.pool.workers ≡ tally (holds q) w.runs + unread q w.service.pool.settled
  pub distinct : (q : String) → paths_at q w.service.pool.workers ≤ 1
  pub sane : All IsSane w.runs

-- The same for some of the runs: the others may hold leases too.
record Within (s : Service) (rs : List Run) : Type 0 where
  pub backed :
      (q : String) → tally (holds q) rs + unread q s.pool.settled ≤ busy_at q s.pool.workers
  pub distinct : (q : String) → paths_at q s.pool.workers ≤ 1
  pub sane : All IsSane rs

record Moved (s : Service) (rs : List Run) (x : Service × List Run) : Type 0 where
  pub account :
      (q : String)
      → busy_at q x.0.pool.workers + (tally (holds q) rs + unread q s.pool.settled)
        ≡ busy_at q s.pool.workers + (tally (holds q) x.1 + unread q x.0.pool.settled)
  pub same_paths : (q : String) → paths_at q x.0.pool.workers ≡ paths_at q s.pool.workers
  pub sane : All IsSane x.1

module _ (out : Outside) (config : Config) where
  resume_at-Moved :
      (s : Service) (rs : List Run) (i : ℕ) (reply : Reply) (now : ℕ)
      → Within s rs
      → Moved s rs (resume_at out config s rs i reply now)
  unfolding resume_at
  resume_at-Moved s [] i reply now v = record {
    account = λ q. refl;
    same_paths = λ q. refl;
    sane = tt;
  }
  resume_at-Moved s (r ∷ rs) zero reply now v =
      let f =
        resume-Fits out config s r
          (record { backed = λ q. ground (arith, v.backed q); distinct = v.distinct }) reply now
          v.sane.0 in
      record {
        account = λ q. ground (arith, f.account q);
        same_paths = f.same_paths;
        sane = (f.sane v.sane.0, v.sane.1);
      }
  resume_at-Moved s (r ∷ rs) (suc i) reply now v =
      let f = resume_at-Moved s rs i reply now (record {
        backed = λ q. ground (arith, v.backed q);
        distinct = v.distinct;
        sane = v.sane.1;
      }) in
      record {
        account = λ q. ground (arith, f.account q);
        same_paths = f.same_paths;
        sane = (v.sane.0, f.sane);
      }

-- A change of the service alone that keeps the account with one run keeps it with all.
changed-IsAccounted :
    (w : World) (s : Service)
    → ((r : Run) → Fits w.service r (s, r))
    → IsAccounted w
    → IsAccounted (record w { service = s })
changed-IsAccounted w s f v = record {
  matched = λ q. omega (arith, v.matched q, (f (new_run "")).account q);
  distinct = λ q. omega (arith, v.distinct q, (f (new_run "")).same_paths q);
  sane = v.sane;
}

unread-refusals : (q : String) (e : PoolError) (ts : List ℕ) → unread q (refusals e ts) ≡ 0
unread-refusals q e [] = refl
unread-refusals q e (t ∷ ts) = unread-refusals q e ts

unread-time_out :
    (q : String) (p : WorkerPool.WorkerPool) (t : ℕ)
    → unread q (time_out p t).settled ≡ unread q p.settled
unfolding time_out
unread-time_out q p t =
    ground (
      arith,
      tally-append (λ e. granted_to q e.1) p.settled ((t, refused (no_worker all_busy)) ∷ []),
    )

tally-abort_all : (q : String) (rs : List Run) → tally (holds q) (abort_all rs) ≡ tally (holds q) rs
tally-abort_all q [] = refl
tally-abort_all q (r ∷ rs) = ground (arith, tally-abort_all q rs)

abort_all-IsSane : (rs : List Run) → All IsSane rs → All IsSane (abort_all rs)
abort_all-IsSane [] h = tt
abort_all-IsSane (r ∷ rs) h =
    (record { fresh = h.0.fresh; done = h.0.done }, abort_all-IsSane rs h.1)

over_hold_nothing :
    (q : String) (rs : List Run)
    → All IsSane rs
    → tally (holds q) rs ≡ tally (holds q) (keep (λ r. not (is_over r.phase)) rs)
over_hold_nothing q [] h = refl
over_hold_nothing q (r ∷ rs) h = elim (Bool-cases (is_over r.phase)) [
  | inl ended ↦ rw (ended, h.0.done ended q) (over_hold_nothing q rs h.1)
  | inr running ↦ rw running (ground (arith, over_hold_nothing q rs h.1))
]

module _ (out : Outside) (config : Config) where
  step-IsAccounted : (w : World) (e : ℕ × Event) → IsAccounted w → IsAccounted (step out config w e)
  unfolding step start abort_active_jobs reject_waiters
  step-IsAccounted w (now, starts id mode) v = record {
    matched = λ q. ground (arith, v.matched q, tally-append (holds q) w.runs (new_run id ∷ []));
    distinct = v.distinct;
    sane =
        All-append IsSane w.runs (new_run id ∷ []) v.sane
          (record { fresh = λ e. refl; done = λ e q. refl }, tt);
  }
  step-IsAccounted w (now, resumes i reply) v =
      let f = resume_at-Moved out config w.service w.runs i reply now (record {
        backed = λ q. omega (arith, v.matched q);
        distinct = v.distinct;
        sane = v.sane;
      }) in
      record {
        matched = λ q. omega (arith, v.matched q, f.account q);
        distinct = λ q. omega (arith, v.distinct q, f.same_paths q);
        sane = f.sane;
      }
  step-IsAccounted w (now, times_out t) v = record {
    matched = λ q. omega (
      arith,
      v.matched q,
      ap (busy_at q) (time_out-workers w.service.pool t),
      unread-time_out q w.service.pool t,
    );
    distinct =
        λ q. omega (arith, v.distinct q, ap (paths_at q) (time_out-workers w.service.pool t));
    sane = v.sane;
  }
  step-IsAccounted w (now, shuts_down) v =
      let e : PoolError = abandoned "Process is shutting down" in
      let ts = w.service.pool.waiters in
      record {
        matched = λ q. omega (
          arith,
          v.matched q,
          tally-abort_all q w.runs,
          unread-refusals q e ts,
          tally-append (λ e. granted_to q e.1) w.service.pool.settled (refusals e ts),
        );
        distinct = v.distinct;
        sane = abort_all-IsSane w.runs v.sane;
      }
  step-IsAccounted w (now, sees_addresses addresses) v =
      changed-IsAccounted w (ready w.service addresses) (λ r. ready-Fits w.service r addresses) v
  step-IsAccounted w (now, sees_balance path b) v =
      changed-IsAccounted w _ (λ r. set_balance-Fits w.service r path b config.min_balance_wei) v
  step-IsAccounted w (now, sees_counts path latest pending) v =
      changed-IsAccounted w _ (λ r. reconcile-Fits w.service r path (ltb latest pending)) v

  run-IsAccounted :
      (es : List (ℕ × Event)) (w : World) → IsAccounted w → IsAccounted (run out config w es)
  unfolding run
  run-IsAccounted [] w v = v
  run-IsAccounted (e ∷ es) w v = run-IsAccounted es (step out config w e) (step-IsAccounted w e v)

-- Nothing is leased yet when a service is made.
new_world-IsAccounted :
    (show : ℕ → String) (config : Config) (environment : Environment)
    → ((a b : ℕ) → show a ≡ show b → a ≡ b)
    → IsAccounted (new_world show config environment)
unfolding new_world new_service create
new_world-IsAccounted show config environment injective =
    let n = if is_mainnet environment then 1 else config.paths in
    let paths = build_paths show config.path_prefix n in
    record {
      matched = λ q. (fresh_counts q paths).0;
      distinct = λ q.
          omega
            (arith, fresh_counts q paths, build_paths_once show config.path_prefix injective n q);
      sane = tt;
    }

-- In every history of a service, however its runs interleave, time out or are aborted, and whatever
-- the chains answer: no address is held by two runs, one that is held is busy and granted to nobody
-- else, and one that is busy is held by a run that is not over or granted to a waiter that has yet
-- to read it. Numbers are taken to have distinct texts.
pub one_run_an_address :
    (out : Outside) (show : ℕ → String) (config : Config) (environment : Environment)
    (es : List (ℕ × Event))
    → ((a b : ℕ) → show a ≡ show b → a ≡ b)
    → (q : String)
    → let w = run out config (new_world show config environment) es in
      let holders = tally (holds q) w.runs in
      let granted = unread q w.service.pool.settled in
      (holders + granted ≤ 1)
      × (busy_at q w.service.pool.workers ≡ holders + granted)
      × (holders ≡ tally (holds q) (keep (λ r. not (is_over r.phase)) w.runs))
one_run_an_address out show config environment es injective q =
    let w = run out config (new_world show config environment) es in
    let v =
      run-IsAccounted out config es (new_world show config environment)
        (new_world-IsAccounted show config environment injective) in
    (
      omega (arith, v.matched q, v.distinct q, busy-le-paths q w.service.pool.workers),
      v.matched q,
      over_hold_nothing q w.runs v.sane,
    )

-- ===== src/WorkerPool/Tests.antt =====
-- Runs of the pool, and the theorems at concrete pools.
use contract_pinger.Common.{
  ℕ, ◌≤◌, ◌≡◌, refl, ◌↔◌, inl, inr, false, List, [], ◌∷◌, ◌++◌, map, some, String, arith, eq_iff,
  str_eq, subst, Bool-cases,
}
use contract_pinger.WorkerPool.{
  all_busy, all_underfunded, granted, refused, no_worker, WorkerPool, fresh_worker, lease, find,
  update_first, take_first, create, unavailable, acquire, kept, acquire_within, serve, grants,
  release, time_out, quarantine, reconcile, set_balance,
}
use contract_pinger.WorkerPool.Acquire.{NoneFree, NoneFunded, acquire_refused}
use contract_pinger.WorkerPool.Waiters.{IsFair, release_order}
use contract_pinger.WorkerPool.Events.{
  Event, arrives, releases, quarantines, reconciles, times, step, run,
}
use contract_pinger.WorkerPool.Leases.{busy_at, start, held_once}
use contract_pinger.WorkerPool.Fairness.{step-IsFair, reconcile_overtakes}

pool_code : Unit {0}
unfolding acquire acquire_within take_first find update_first serve release time_out quarantine
    reconcile set_balance create
pool_code = tt

abbrev two_idle : WorkerPool
two_idle = record {
  workers = fresh_worker "load-0" ∷ fresh_worker "load-1" ∷ [];
  waiters = [];
  settled = [];
  next_ticket = 0;
}

abbrev first_leased : WorkerPool
first_leased = record two_idle {
  workers = lease 5 (fresh_worker "load-0") ∷ fresh_worker "load-1" ∷ [];
}

-- One address, leased; somebody waits for it.
abbrev one_leased : WorkerPool
one_leased = record {
  workers = lease 5 (fresh_worker "load-0") ∷ [];
  waiters = 0 ∷ [];
  settled = [];
  next_ticket = 1;
}

acquire-one_leased : acquire one_leased 6 ≡ (one_leased, unavailable all_busy)
unfolding pool_code
acquire-one_leased = refl

acquire_refused_example :
    (one_leased ≡ one_leased)
    × NoneFree one_leased.workers
    × ((all_busy ≡ all_underfunded) ↔ NoneFunded one_leased.workers)
acquire_refused_example = acquire_refused one_leased one_leased 6 all_busy acquire-one_leased

release-one_leased : (release one_leased "load-0" 9).settled ≡ (0, granted "load-0") ∷ []
unfolding pool_code
release-one_leased = refl

release_order_example :
    let q = release one_leased "load-0" 9 in
    (given : List (ℕ × String)) × (q.settled ≡ [] ++ grants given)
    × (one_leased.waiters ≡ map (λ g. g.0) given ++ q.waiters)
    × IsFair q
release_order_example = release_order one_leased "load-0" 9

timeout_one_leased : (time_out one_leased 0).settled ≡ (0, refused (no_worker all_busy)) ∷ []
unfolding pool_code
timeout_one_leased = refl

-- Three callers on two addresses: the third waits, and is served by the first release.
abbrev busy_day : List (ℕ × Event)
busy_day =
    (1, arrives)
    ∷ (2, arrives)
    ∷ (3, arrives)
    ∷ (4, quarantines "load-1" 7)
    ∷ (5, releases "load-1")
    ∷ (6, releases "load-0")
    ∷ (7, reconciles "load-1" false)
    ∷ []

busy_day_held : (run (start ("load-0" ∷ "load-1" ∷ [])) busy_day).held ≡ "load-0" ∷ []
unfolding pool_code run step start
busy_day_held = refl

two_paths : (q : String) → times q ("load-0" ∷ "load-1" ∷ []) ≤ 1
two_paths q = elim (Bool-cases (str_eq "load-0" q)) [
  | inl same ↦
      subst (λ r. times r ("load-0" ∷ "load-1" ∷ []) ≤ 1) ((eq_iff "load-0" q).0 same) (omega arith)
  | inr other ↦ rw other (ground arith)
]

held_once_example :
    (times "load-0" (run (start ("load-0" ∷ "load-1" ∷ [])) busy_day).held ≤ 1)
    × (times "load-0" (run (start ("load-0" ∷ "load-1" ∷ [])) busy_day).held
        ≡ busy_at "load-0" (run (start ("load-0" ∷ "load-1" ∷ [])) busy_day).pool.workers)
held_once_example = held_once ("load-0" ∷ "load-1" ∷ []) busy_day two_paths "load-0"

step-IsFair_example :
    IsFair (step (record { pool = one_leased; held = "load-0" ∷ [] }) (9, releases "load-0")).pool
step-IsFair_example =
    step-IsFair (record { pool = one_leased; held = "load-0" ∷ [] }) 9 (releases "load-0") refl
      (inr (refl, tt))

-- An address withheld for nonce 7 while somebody waits.
abbrev one_withheld : WorkerPool
one_withheld = record one_leased {
  workers = record (fresh_worker "load-0") { pending_nonce = some 7 } ∷ [];
}

reconcile_overtakes_example :
    let q = reconcile one_withheld "load-0" false in
    ¬ IsFair q
    × (q.settled ≡ [])
    × ((to : String) × ((acquire_within q 9).1 ≡ kept (granted to))
        × ((acquire_within q 9).0.waiters ≡ 0 ∷ []))
reconcile_overtakes_example =
    reconcile_overtakes one_withheld "load-0" 9 0 []
      (record (fresh_worker "load-0") { pending_nonce = some 7 }) 7 refl (unfold pool_code in refl)
      refl refl refl

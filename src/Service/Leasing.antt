-- ===== src/Service/Leasing.antt =====
-- The account over the pieces of `run` that lead to a lease.
use contract_pinger.Common.{
  ℕ, suc, ◌+◌, ◌≤◌, ◌≡◌, refl, sym, subst, ◌∙◌, inl, inr, true, false, List, [], ◌∷◌, ◌++◌, map,
  none, some, String, str_eq, arith, Bool-cases, Option-cases,
}
use contract_pinger.WorkerPool.{
  Worker, Settlement, granted, refused, take_first, some_occupied, all_underfunded, find,
}
use contract_pinger.WorkerPool.Acquire.{acquire_within-found, acquire_within-stuck, take_first-some}
use contract_pinger.WorkerPool.Leases.{busy_at, paths_at, one_if, lease_counts}
use contract_pinger.Service.{Service, Run, parked, shutdown_error, pool_error, run_error_of, throw}
use contract_pinger.Service.Steps.{
  leased, settle, await_pledge, to_lease, to_refresh, to_reconcile, wants_refresh,
}
use contract_pinger.Service.Balance.{holds, granted_to, spent, IsSane, Fits, Owned, throw-Fits}

-- An address that is handed to a run without one: whatever lets the account fit before the grant is
-- read lets it fit after.
pub settle-Fits :
    (s : Service) (r : Run) (st : Settlement) (now : ℕ)
    → r.worker ≡ none
    → r.lease_released ≡ false
    → ((q : String) → spent q s r + one_if (granted_to q st) ≤ busy_at q s.pool.workers)
    → ((q : String) → paths_at q s.pool.workers ≤ 1)
    → (q : String)
    → (busy_at q (settle s r st now).0.pool.workers + spent q s r + one_if (granted_to q st)
        ≡ busy_at q s.pool.workers + spent q (settle s r st now).0 (settle s r st now).1)
      × (paths_at q (settle s r st now).0.pool.workers ≡ paths_at q s.pool.workers)
unfolding settle leased
settle-Fits s r (granted path) now w l b d q = ground arith
settle-Fits s r (refused e) now w l b d q =
    let f =
      throw-Fits s r (run_error_of e) now
        (record { backed = λ p. omega (arith, b p); distinct = d }) in
    (omega (arith, f.account q), f.same_paths q)

-- What a run needs on its way to a lease.
module _ (r : Run) (nobody : r.worker ≡ none) (unreleased : r.lease_released ≡ false) where
  unheld : (q : String) → holds q r ≡ false
  unheld q = ground arith

  pub granted-IsSane :
      (s : Service) (path : String) (now : ℕ) → IsSane (settle s r (granted path) now).1
  unfolding settle leased
  granted-IsSane s path now = record { fresh = λ e. cc; done = λ e. cc }

  given-Fits :
      (s : Service) (ws : List Worker) (w : Worker) (now : ℕ)
      → Owned s r
      → ((q : String)
          → (busy_at q ws ≡ busy_at q s.pool.workers + one_if (str_eq w.path q))
            × (paths_at q ws ≡ paths_at q s.pool.workers))
      → Fits s r
          (settle (record s { pool = record s.pool { workers = ws } }) r (granted w.path) now)
  given-Fits s ws w now o counted =
      let f =
        settle-Fits (record s { pool = record s.pool { workers = ws } }) r (granted w.path) now
          nobody unreleased (λ q. omega (arith, o.backed q, counted q))
          (λ q. omega (arith, o.distinct q, counted q)) in
      record {
        account = λ q. omega (arith, f q, counted q);
        same_paths = λ q. (f q).1 ∙ (counted q).1;
        sane = λ h. granted-IsSane (record s { pool = record s.pool { workers = ws } }) w.path now;
      }

  to_lease-gone :
      (s : Service) (now : ℕ) → r.aborted ≡ true → to_lease s r now ≡ throw s r shutdown_error now
  unfolding to_lease
  to_lease-gone s now gone = rw gone

  to_lease-found :
      (s : Service) (now : ℕ) (w : Worker) (ws : List Worker)
      → r.aborted ≡ false
      → take_first now s.pool.workers ≡ some (w, ws)
      → to_lease s r now
        ≡ settle (record s { pool = record s.pool { workers = ws } }) r (granted w.path) now
  unfolding to_lease await_pledge
  to_lease-found s now w ws alive found = rw (alive, acquire_within-found s.pool now w ws found)

  to_lease-queued :
      (s : Service) (now : ℕ)
      → r.aborted ≡ false
      → take_first now s.pool.workers ≡ none
      → some_occupied s.pool.workers ≡ true
      → to_lease s r now ≡ (
        record s {
          pool = record s.pool {
            waiters = s.pool.waiters ++ s.pool.next_ticket ∷ [];
            next_ticket = suc s.pool.next_ticket;
          };
        },
        record r { phase = parked s.pool.next_ticket },
      )
  unfolding to_lease await_pledge
  to_lease-queued s now alive stuck occupied =
      rw (alive, acquire_within-stuck s.pool now stuck, occupied)

  to_lease-poor :
      (s : Service) (now : ℕ)
      → r.aborted ≡ false
      → take_first now s.pool.workers ≡ none
      → some_occupied s.pool.workers ≡ false
      → to_lease s r now ≡ throw s r (pool_error all_underfunded) now
  unfolding to_lease await_pledge settle
  to_lease-poor s now alive stuck poor = rw (alive, acquire_within-stuck s.pool now stuck, poor)

  pub to_lease-Fits : (s : Service) (now : ℕ) → Owned s r → Fits s r (to_lease s r now)
  to_lease-Fits s now o = elim (Bool-cases r.aborted) [
    | inl gone ↦
        subst (Fits s r) (sym (to_lease-gone s now gone)) (throw-Fits s r shutdown_error now o)
    | inr alive ↦ elim (Option-cases (take_first now s.pool.workers)) [
      | inl stuck ↦ elim (Bool-cases (some_occupied s.pool.workers)) [
        | inl occupied ↦
            subst (Fits s r) (sym (to_lease-queued s now alive stuck occupied)) (record {
              account = λ q. refl;
              same_paths = λ q. refl;
              sane = λ h. record { fresh = h.fresh; done = λ e. cc };
            })
        | inr poor ↦
            subst (Fits s r) (sym (to_lease-poor s now alive stuck poor))
              (throw-Fits s r (pool_error all_underfunded) now o)
      ]
      | inr ((w, ws), found) ↦ subst (Fits s r) (sym (to_lease-found s now w ws alive found)) (
          given-Fits s ws w now o (λ q.
            lease_counts now q s.pool.workers w ws (take_first-some now s.pool.workers w ws found)))
    ]
  ]

  pub to_refresh-Fits :
      (s : Service) (paths : List String) (now : ℕ)
      → Owned s r
      → Fits s r (to_refresh s r paths now)
  unfolding to_refresh
  to_refresh-Fits s [] now o = to_lease-Fits s now o
  to_refresh-Fits s (path ∷ paths) now o =
      elim (Bool-cases (wants_refresh (find path s.pool.workers))) [
        | inl wanted ↦ rw wanted (record {
          account = λ q. refl;
          same_paths = λ q. refl;
          sane = λ h. record { fresh = h.fresh; done = λ e. cc };
        })
        | inr passed ↦ rw passed (to_refresh-Fits s paths now o)
      ]

  pub to_reconcile-Fits :
      (s : Service) (paths : List String) (now : ℕ)
      → Owned s r
      → Fits s r (to_reconcile s r paths now)
  unfolding to_reconcile
  to_reconcile-Fits s [] now o = to_refresh-Fits s (map (λ w. w.path) s.pool.workers) now o
  to_reconcile-Fits s (path ∷ paths) now o = record {
    account = λ q. refl;
    same_paths = λ q. refl;
    sane = λ h. record { fresh = h.fresh; done = λ e. cc };
  }

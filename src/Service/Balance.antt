-- ===== src/Service/Balance.antt =====
-- The account of the busy addresses: who holds each, and to whom each is granted.
use contract_pinger.Common.{
  ℕ, ◌+◌, ◌≤◌, ◌≡◌, refl, sym, subst, ◌∙◌, inl, inr, Bool, true, false, not, ◌&&◌, List, [], ◌∷◌,
  map, none, some, String, tally, str_eq, eq_iff, arith, Bool-cases, Option-cases, tally-append,
}
use contract_pinger.WorkerPool.{
  Worker, Settlement, granted, refused, grants, serve, update_first, release,
}
use contract_pinger.WorkerPool.Events.{times}
use contract_pinger.WorkerPool.Leases.{
  busy_at, paths_at, one_if, Keeps, serve_counts, update_first_counts, free_counts, busy-le-paths,
}
use contract_pinger.JobStore.{FailureReason}
use contract_pinger.Service.{
  Service, Run, Phase, over, RunError, release_lease, finish, fail_job, give_up, throw,
}

abbrev pub holds : String → Run → Bool
holds q r = elim r.worker [ none ↦ false | some path ↦ str_eq path q && not r.lease_released ]

abbrev pub granted_to : String → Settlement → Bool
granted_to q (granted path) = str_eq path q
granted_to q (refused e) = false

-- The grants of an address that no run has read.
abbrev pub unread : String → List (ℕ × Settlement) → ℕ
unread q = tally (λ e. granted_to q e.1)

-- The service and the run before a piece of `run`, for one path.
abbrev pub spent : String → Service → Run → ℕ
spent q s r = one_if (holds q r) + unread q s.pool.settled

abbrev pub is_over : Phase → Bool
is_over over = true
is_over _ = false

-- A run marks a release only of an address that it has, and holds none when it is over.
pub record IsSane (r : Run) : Type 0 where
  pub fresh : r.worker ≡ none → r.lease_released ≡ false
  pub done : is_over r.phase ≡ true → (q : String) → holds q r ≡ false

-- The lease account is kept: a busy mark comes or goes with a lease, held or granted.
pub record Fits (s : Service) (r : Run) (x : Service × Run) : Type 0 where
  pub account :
      (q : String)
      → busy_at q x.0.pool.workers + spent q s r ≡ busy_at q s.pool.workers + spent q x.0 x.1
  pub same_paths : (q : String) → paths_at q x.0.pool.workers ≡ paths_at q s.pool.workers
  pub sane : IsSane r → IsSane x.1

pub record Owned (s : Service) (r : Run) : Type 0 where
  pub backed : (q : String) → spent q s r ≤ busy_at q s.pool.workers
  pub distinct : (q : String) → paths_at q s.pool.workers ≤ 1

pub Fits-Owned :
    (s : Service) (r : Run) (x : Service × Run) → Owned s r → Fits s r x → Owned x.0 x.1
Fits-Owned s r x o f = record {
  backed = λ q. omega (arith, o.backed q, f.account q);
  distinct = λ q. omega (arith, o.distinct q, f.same_paths q);
}

pub Fits-trans :
    (s : Service) (r : Run) (x y : Service × Run) → Fits s r x → Fits x.0 x.1 y → Fits s r y
Fits-trans s r x y f g = record {
  account = λ q. omega (arith, f.account q, g.account q);
  same_paths = λ q. g.same_paths q ∙ f.same_paths q;
  sane = λ h. g.sane (f.sane h);
}

pub unread-grants :
    (q : String) (given : List (ℕ × String))
    → unread q (grants given) ≡ times q (map (λ g. g.1) given)
unread-grants q [] = refl
unread-grants q ((t, path) ∷ given) = ground (arith, unread-grants q given)

-- A change of workers that keeps their paths and busy marks.
pub update-Fits :
    (s : Service) (r : Run) (path : String) (f : Worker → Worker)
    → Keeps f
    → Fits s r
        (record s { pool = record s.pool { workers = update_first path f s.pool.workers } }, r)
update-Fits s r path f k = record {
  account = λ q. omega (arith, update_first_counts q path f s.pool.workers k);
  same_paths = λ q. (update_first_counts q path f s.pool.workers k).1;
  sane = λ h. h;
}

release-Fits :
    (s : Service) (r : Run) (path : String) (now : ℕ)
    → r.worker ≡ some path
    → r.lease_released ≡ false
    → Owned s r
    → Fits s r (record s { pool = release s.pool path now }, record r { lease_released = true })
unfolding release
release-Fits s r path now holder held o = record {
  account = λ q. ground (
    arith,
    eq_iff path q,
    o.backed q,
    o.distinct q,
    o.distinct path,
    busy-le-paths q s.pool.workers,
    serve_counts now q s.pool.waiters freed,
    free_counts q path s.pool.workers (o.distinct path),
    tally-append (λ e. granted_to q e.1) s.pool.settled (grants given),
    unread-grants q given,
  );
  same_paths = λ q.
      (serve_counts now q s.pool.waiters freed).1
      ∙ (free_counts q path s.pool.workers (o.distinct path)).1;
  sane = λ h. record { fresh = λ e. cc; done = λ e q. ground arith };
}
  where
    freed : List Worker
    freed = update_first path (λ w. record w { busy = false }) s.pool.workers

    given : List (ℕ × String)
    given = (serve now freed s.pool.waiters).2

pub same-Fits : (s : Service) (r : Run) → Fits s r (s, r)
same-Fits s r = record { account = λ q. refl; same_paths = λ q. refl; sane = λ h. h }

release_lease-none :
    (s : Service) (r : Run) (now : ℕ) → r.worker ≡ none → release_lease s r now ≡ (s, r)
unfolding release_lease
release_lease-none s r now e = ground arith

release_lease-gone :
    (s : Service) (r : Run) (now : ℕ) → r.lease_released ≡ true → release_lease s r now ≡ (s, r)
unfolding release_lease
release_lease-gone s r now e = ground arith

pub release_lease-held :
    (s : Service) (r : Run) (path : String) (now : ℕ)
    → r.worker ≡ some path
    → r.lease_released ≡ false
    → release_lease s r now
      ≡ (record s { pool = release s.pool path now }, record r { lease_released = true })
unfolding release_lease
release_lease-held s r path now e f = ground arith

pub release_lease-Fits :
    (s : Service) (r : Run) (now : ℕ) → Owned s r → Fits s r (release_lease s r now)
release_lease-Fits s r now o = elim (Option-cases r.worker) [
  | inl nobody ↦ subst (Fits s r) (sym (release_lease-none s r now nobody)) (same-Fits s r)
  | inr (path, holder) ↦ elim (Bool-cases r.lease_released) [
    | inl gone ↦ subst (Fits s r) (sym (release_lease-gone s r now gone)) (same-Fits s r)
    | inr held ↦
        subst (Fits s r) (sym (release_lease-held s r path now holder held))
          (release-Fits s r path now holder held o)
  ]
]

release_lease-freed :
    (s : Service) (r : Run) (now : ℕ) (q : String) → holds q (release_lease s r now).1 ≡ false
release_lease-freed s r now q = elim (Option-cases r.worker) [
  | inl nobody ↦
      subst (λ x. holds q x.1 ≡ false) (sym (release_lease-none s r now nobody)) (ground arith)
  | inr (path, holder) ↦ elim (Bool-cases r.lease_released) [
    | inl gone ↦
        subst (λ x. holds q x.1 ≡ false) (sym (release_lease-gone s r now gone)) (ground arith)
    | inr held ↦
        subst (λ x. holds q x.1 ≡ false) (sym (release_lease-held s r path now holder held))
          (ground arith)
  ]
]

pub finish-Fits : (s : Service) (r : Run) (now : ℕ) → Owned s r → Fits s r (finish s r now)
unfolding finish
finish-Fits s r now o =
    let f = release_lease-Fits s r now o in
    record {
      account = f.account;
      same_paths = f.same_paths;
      sane = λ h. record { fresh = (f.sane h).fresh; done = λ e q. release_lease-freed s r now q };
    }

-- The job store plays no part in the account.
pub give_up-Fits :
    (s : Service) (r : Run) (reason : FailureReason) (message : String) (now : ℕ)
    → Owned s r
    → Fits s r (give_up s r reason message now)
unfolding give_up
give_up-Fits s r reason message now o =
    let f =
      finish-Fits (fail_job s r reason message now) r now
        (record { backed = o.backed; distinct = o.distinct }) in
    record { account = f.account; same_paths = f.same_paths; sane = f.sane }

pub throw-Fits :
    (s : Service) (r : Run) (e : RunError) (now : ℕ) → Owned s r → Fits s r (throw s r e now)
unfolding throw
throw-Fits s r e now o =
    let f = finish-Fits s r now o in
    record { account = f.account; same_paths = f.same_paths; sane = f.sane }

-- ===== src/WorkerPool/Leases.antt =====
-- How often an address is leased, over histories of calls.
use contract_pinger.Common.{
  ℕ, zero, suc, ◌+◌, ◌-◌, ◌≤◌, ◌≡◌, refl, inl, inr, Bool, false, ◌&&◌, List, [], ◌∷◌, map, String,
  tally, tally-append, if◌then◌else◌, arith, Bool-cases, Option-cases, str_eq, eq_iff,
}
use contract_pinger.WorkerPool.{
  Worker, WorkerPool, create, fresh_worker, some_occupied, update_first, take_first, acquire_within,
  serve, release, set_address, set_balance, time_out, reject_waiters, quarantine, reconcile,
  cleared,
}
use contract_pinger.WorkerPool.Acquire.{
  IsFirst, acquire_within-found, acquire_within-stuck, take_first-some,
}
use contract_pinger.WorkerPool.Waiters.{serve-stuck, serve-found}
use contract_pinger.WorkerPool.Events.{
  Event, arrives, releases, expires, abandons, quarantines, reconciles, funds, addresses, Pooled,
  times, drop_one, hold, handed, returned, step, run,
}

-- The busy workers of a path, and all workers of it.
abbrev pub busy_at : String → List Worker → ℕ
busy_at q = tally (λ w. str_eq w.path q && w.busy)

abbrev pub paths_at : String → List Worker → ℕ
paths_at q = tally (λ w. str_eq w.path q)

abbrev pub one_if : Bool → ℕ
one_if b = if b then 1 else 0

pub lease_counts :
    (now : ℕ) (q : String) (ws : List Worker) (w : Worker) (ws' : List Worker)
    → IsFirst now ws w ws'
    → (busy_at q ws' ≡ busy_at q ws + one_if (str_eq w.path q)) × (paths_at q ws' ≡ paths_at q ws)
lease_counts now q ws w ws' f =
    rw (f.splits, f.placed)
      (ground (
        arith,
        f.free,
        f.leased,
        tally-append (λ w. str_eq w.path q && w.busy) f.before (f.chosen ∷ f.behind),
        tally-append (λ w. str_eq w.path q && w.busy) f.before (w ∷ f.behind),
        tally-append (λ w. str_eq w.path q) f.before (f.chosen ∷ f.behind),
        tally-append (λ w. str_eq w.path q) f.before (w ∷ f.behind),
      ))

pub serve_counts :
    (now : ℕ) (q : String) (ts : List ℕ) (ws : List Worker)
    → let (ws', ts', given) = serve now ws ts in
      (busy_at q ws' ≡ busy_at q ws + times q (map (λ g. g.1) given))
      × (paths_at q ws' ≡ paths_at q ws)
serve_counts now q [] ws = unfold serve in (omega arith, refl)
serve_counts now q (t ∷ ts) ws = elim (Option-cases (take_first now ws)) [
  | inl stuck ↦ rw (serve-stuck now t ts ws stuck) (omega arith, refl)
  | inr ((w, ws'), found) ↦ rw (serve-found now t ts ws w ws' found) (
      ground (
        arith,
        serve_counts now q ts ws',
        lease_counts now q ws w ws' (take_first-some now ws w ws' found),
      ))
]

-- A change that leaves the paths and the busy marks alone.
abbrev pub Keeps : (Worker → Worker) → Type 0
Keeps f = (v : Worker) → ((f v).path ≡ v.path) × ((f v).busy ≡ v.busy)

pub update_first_counts :
    (q path : String) (f : Worker → Worker) (ws : List Worker)
    → Keeps f
    → (busy_at q (update_first path f ws) ≡ busy_at q ws)
      × (paths_at q (update_first path f ws) ≡ paths_at q ws)
unfolding update_first
update_first_counts q path f [] k = (refl, refl)
update_first_counts q path f (w ∷ ws) k = ground (arith, k w, update_first_counts q path f ws k)

pub busy-le-paths : (q : String) (ws : List Worker) → busy_at q ws ≤ paths_at q ws
busy-le-paths q [] = omega arith
busy-le-paths q (w ∷ ws) = ground (arith, busy-le-paths q ws)

pub free_counts :
    (q path : String) (ws : List Worker)
    → paths_at path ws ≤ 1
    → let ws' = update_first path (λ w. record w { busy = false }) ws in
      (busy_at q ws' ≡ (if str_eq path q then 0 else busy_at q ws))
      × (paths_at q ws' ≡ paths_at q ws)
unfolding update_first
free_counts q path [] d = ground arith
free_counts q path (w ∷ ws) d = ground (
  arith,
  eq_iff w.path path,
  eq_iff w.path q,
  eq_iff path q,
  busy-le-paths path ws,
  free_counts q path ws,
)

drop_one_counts :
    (q path : String) (hs : List String)
    → times q (drop_one path hs) ≡ times q hs - (if str_eq path q then 1 else 0)
drop_one_counts q path [] = ground arith
drop_one_counts q path (h ∷ hs) =
    ground (arith, eq_iff h path, eq_iff h q, eq_iff path q, drop_one_counts q path hs)

-- Every held address is busy, as often as it is held, and no two workers share a path.
pub record IsOwned (s : Pooled) : Type 0 where
  pub matched : (q : String) → times q s.held ≡ busy_at q s.pool.workers
  pub distinct : (q : String) → paths_at q s.pool.workers ≤ 1

acquire_within_counts :
    (p : WorkerPool) (now : ℕ) (q : String) (held : List String)
    → let (p', pledge) = acquire_within p now in
      (busy_at q p'.workers + times q held ≡ busy_at q p.workers + times q (hold pledge held))
      × (paths_at q p'.workers ≡ paths_at q p.workers)
acquire_within_counts p now q held = elim (Option-cases (take_first now p.workers)) [
  | inl stuck ↦ elim (Bool-cases (some_occupied p.workers)) [
    | inl occupied ↦ rw (acquire_within-stuck p now stuck, occupied) (refl, refl)
    | inr spent ↦ rw (acquire_within-stuck p now stuck, spent) (refl, refl)
  ]
  | inr ((w, ws), found) ↦
      rw (acquire_within-found p now w ws found) (
        ground
          (arith, lease_counts now q p.workers w ws (take_first-some now p.workers w ws found)))
]

release_counts :
    (p : WorkerPool) (path : String) (now : ℕ) (q : String)
    → paths_at path p.workers ≤ 1
    → (busy_at q (release p path now).workers
        ≡ (if str_eq path q then 0 else busy_at q p.workers) + times q (handed p path now))
      × (paths_at q (release p path now).workers ≡ paths_at q p.workers)
unfolding release
release_counts p path now q d =
    let freed = update_first path (λ w. record w { busy = false }) p.workers in
    ground (arith, serve_counts now q p.waiters freed, free_counts q path p.workers d)

-- The calls that change no busy mark.
update_first-IsOwned :
    (s : Pooled) (path : String) (f : Worker → Worker)
    → Keeps f
    → IsOwned s
    → IsOwned (record s { pool = record s.pool { workers = update_first path f s.pool.workers } })
update_first-IsOwned s path f k v = record {
  matched = λ q. omega (arith, v.matched q, update_first_counts q path f s.pool.workers k);
  distinct = λ q. omega (arith, v.distinct q, update_first_counts q path f s.pool.workers k);
}

pub cleared-Keeps : (outstanding : Bool) → Keeps (cleared outstanding)
cleared-Keeps outstanding v = ground arith

arrives-IsOwned : (s : Pooled) (now : ℕ) → IsOwned s → IsOwned (step s (now, arrives))
unfolding step
arrives-IsOwned s now v = record {
  matched = λ q. omega (arith, v.matched q, acquire_within_counts s.pool now q s.held);
  distinct = λ q. omega (arith, v.distinct q, acquire_within_counts s.pool now q s.held);
}

returned-IsOwned :
    (s : Pooled) (path : String) (now n : ℕ)
    → n ≡ times path s.held
    → IsOwned s
    → IsOwned (returned s path now n)
returned-IsOwned s path now zero e v = v
returned-IsOwned s path now (suc n) e v = record {
  matched = λ q. ground (
    arith,
    e,
    v.matched q,
    v.matched path,
    v.distinct path,
    eq_iff path q,
    busy-le-paths path s.pool.workers,
    drop_one_counts q path s.held,
    release_counts s.pool path now q (v.distinct path),
    tally-append (λ h. str_eq h q) (drop_one path s.held) (handed s.pool path now),
  );
  distinct = λ q. omega (arith, v.distinct q, release_counts s.pool path now q (v.distinct path));
}

pub time_out-workers : (p : WorkerPool) (t : ℕ) → (time_out p t).workers ≡ p.workers
unfolding time_out
time_out-workers p t = ground arith

pub step-IsOwned : (s : Pooled) (e : ℕ × Event) → IsOwned s → IsOwned (step s e)
step-IsOwned s (now, arrives) v = arrives-IsOwned s now v
step-IsOwned s (now, releases path) v = unfold step in returned-IsOwned s path now _ refl v
step-IsOwned s (now, expires t) v =
    let same = time_out-workers s.pool t in
    unfold step in
    record { matched = λ q. rw same (v.matched q); distinct = λ q. rw same (v.distinct q) }
step-IsOwned s (now, abandons e) v =
    unfold step reject_waiters in record { matched = v.matched; distinct = v.distinct }
step-IsOwned s (now, quarantines path nonce) v =
    unfold step quarantine in update_first-IsOwned s path _ (λ w. (refl, refl)) v
step-IsOwned s (now, reconciles path outstanding) v =
    unfold step reconcile in update_first-IsOwned s path _ (cleared-Keeps outstanding) v
step-IsOwned s (now, funds path balance minimum) v =
    unfold step set_balance in update_first-IsOwned s path _ (λ w. (refl, refl)) v
step-IsOwned s (now, addresses path address) v =
    unfold step set_address in update_first-IsOwned s path _ (λ w. (refl, refl)) v

run-IsOwned : (es : List (ℕ × Event)) (s : Pooled) → IsOwned s → IsOwned (run s es)
unfolding run
run-IsOwned [] s v = v
run-IsOwned (e ∷ es) s v = run-IsOwned es (step s e) (step-IsOwned s e v)

unfoldable pub start : List String → Pooled
start paths = record { pool = create paths; held = [] }

pub fresh_counts :
    (q : String) (paths : List String)
    → (busy_at q (map fresh_worker paths) ≡ 0)
      × (paths_at q (map fresh_worker paths) ≡ times q paths)
fresh_counts q [] = (refl, refl)
fresh_counts q (x ∷ paths) = ground (arith, fresh_counts q paths)

start-IsOwned : (paths : List String) → ((q : String) → times q paths ≤ 1) → IsOwned (start paths)
unfolding start create
start-IsOwned paths d = record {
  matched = λ q. omega (arith, fresh_counts q paths);
  distinct = λ q. omega (arith, fresh_counts q paths, d q);
}

-- After any history of arrivals, releases, timeouts, quarantines, reconciliations and balance
-- updates, on distinct paths, an address is held by at most one caller, and a held address is busy.
pub held_once :
    (paths : List String) (es : List (ℕ × Event))
    → ((q : String) → times q paths ≤ 1)
    → (q : String)
    → (times q (run (start paths) es).held ≤ 1)
      × (times q (run (start paths) es).held ≡ busy_at q (run (start paths) es).pool.workers)
held_once paths es d q =
    let v = run-IsOwned es (start paths) (start-IsOwned paths d) in
    (
      omega (arith, v.matched q, v.distinct q, busy-le-paths q (run (start paths) es).pool.workers),
      v.matched q,
    )

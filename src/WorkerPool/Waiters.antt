-- ===== src/WorkerPool/Waiters.antt =====
-- Who gets an address that comes back, and how long the others wait.
use contract_pinger.Common.{
  ℕ, ◌≡◌, refl, ◌⊎◌, inl, inr, true, false, List, [], ◌∷◌, ◌++◌, map, none, some, String, arith,
  Option-cases, ap,
}
use contract_pinger.WorkerPool.{
  Worker, granted, WorkerPool, is_candidate, find, update_first, take_first, serve, grants, release,
}
use contract_pinger.WorkerPool.Acquire.{NoneFree, take_first-none}

-- Nobody waits while a worker could be handed out.
abbrev pub IsFair : WorkerPool → Type 0
IsFair p = (p.waiters ≡ []) ⊎ NoneFree p.workers

pub serve-stuck :
    (now t : ℕ) (ts : List ℕ) (ws : List Worker)
    → take_first now ws ≡ none
    → serve now ws (t ∷ ts) ≡ (ws, t ∷ ts, [])
unfolding serve
serve-stuck now t ts ws e = ground arith

pub serve-found :
    (now t : ℕ) (ts : List ℕ) (ws : List Worker) (w : Worker) (ws' : List Worker)
    → take_first now ws ≡ some (w, ws')
    → serve now ws (t ∷ ts)
      ≡ ((serve now ws' ts).0, (serve now ws' ts).1, (t, w.path) ∷ (serve now ws' ts).2)
unfolding serve
serve-found now t ts ws w ws' e = ground arith

-- `handOff` serves the waiters in the order of their arrival, as far as the workers reach.
abbrev pub Served : List ℕ → List Worker × List ℕ × List (ℕ × String) → Type 0
Served ts (ws', ts', given) = (ts ≡ map (λ g. g.0) given ++ ts') × ((ts' ≡ []) ⊎ NoneFree ws')

pub serve-Served : (now : ℕ) (ts : List ℕ) (ws : List Worker) → Served ts (serve now ws ts)
serve-Served now [] ws = unfold serve in (refl, inl refl)
serve-Served now (t ∷ ts) ws = elim (Option-cases (take_first now ws)) [
  | inl stuck ↦ rw (serve-stuck now t ts ws stuck) (refl, inr (take_first-none now ws stuck))
  | inr ((w, ws'), found) ↦
      let (order, idle) = serve-Served now ts ws' in
      rw (serve-found now t ts ws w ws' found) (ap (◌∷◌ t) order, idle)
]

-- `release` frees the address and serves the waiters by arrival: those served are the ones that
-- came first, each with a granted address, and if anyone is left no worker can be handed out.
pub release_order :
    (p : WorkerPool) (path : String) (now : ℕ)
    → let q = release p path now in
      (given : List (ℕ × String)) × (q.settled ≡ p.settled ++ grants given)
      × (p.waiters ≡ map (λ g. g.0) given ++ q.waiters)
      × IsFair q
unfolding release
release_order p path now =
    let freed = update_first path (λ w. record w { busy = false }) p.workers in
    let (order, idle) = serve-Served now p.waiters freed in
    ((serve now freed p.waiters).2, refl, order, idle)

pub find_candidate :
    (path : String) (ws : List Worker) (w : Worker)
    → find path ws ≡ some w
    → is_candidate w ≡ true
    → ¬ NoneFree ws
unfolding find
find_candidate path [] w e c n = cc
find_candidate path (x ∷ ws) w e c n = ground (arith, find_candidate path ws w)

pub find-update_first :
    (path : String) (f : Worker → Worker) (ws : List Worker) (w : Worker)
    → find path ws ≡ some w
    → ((v : Worker) → (f v).path ≡ v.path)
    → find path (update_first path f ws) ≡ some (f w)
unfolding find update_first
find-update_first path f [] w e same = cc
find-update_first path f (x ∷ ws) w e same = ground (arith, same x, find-update_first path f ws w)

-- A freed address that is funded and has nothing outstanding goes to the longest waiter, or
-- another address does.
pub release_serves_oldest :
    (p : WorkerPool) (path : String) (now t : ℕ) (ts : List ℕ) (w : Worker)
    → p.waiters ≡ t ∷ ts
    → find path p.workers ≡ some w
    → w.underfunded ≡ false
    → w.pending_nonce ≡ none
    → (to : String) × (given : List (ℕ × String)) × ((release p path now).settled
        ≡ p.settled ++ (t, granted to) ∷ grants given)
release_serves_oldest p path now t ts w waits held funded clear =
    elim (Option-cases (take_first now freed)) [
      | inl stuck ↦ absurd (
          find_candidate path freed (record w { busy = false })
            (find-update_first path (λ v. record v { busy = false }) p.workers w held (λ v. refl))
            (ground arith) (take_first-none now freed stuck))
      | inr ((v, ws'), found) ↦ (
        v.path,
        (serve now ws' ts).2,
        unfold release in rw (waits, serve-found now t ts freed v ws' found),
      )
    ]
  where
    freed : List Worker
    freed = update_first path (λ v. record v { busy = false }) p.workers

-- ===== src/WorkerPool/Fairness.antt =====
-- Who is served first: which calls keep the queue fair, and which let a newcomer overtake it.
use contract_pinger.Common.{
  ℕ, suc, ◌≡◌, refl, inl, inr, Bool, true, false, List, [], ◌∷◌, none, some, String, arith,
  Bool-cases, Option-cases, zero, ap,
}
use contract_pinger.WorkerPool.{
  Worker, granted, WorkerPool, is_candidate, some_occupied, find, update_first, take_first, kept,
  acquire_within, set_address, time_out, reject_waiters, quarantine, reconcile, cleared,
}
use contract_pinger.WorkerPool.Acquire.{
  NoneFree, take_first-none, acquire_within-found, acquire_within-stuck,
}
use contract_pinger.WorkerPool.Waiters.{IsFair, release_order, find-update_first, find_candidate}
use contract_pinger.WorkerPool.Events.{
  Event, arrives, releases, expires, abandons, quarantines, reconciles, funds, addresses, Pooled,
  times, returned, step,
}

-- The calls that bring a worker back without a release.
abbrev pub brings_back : Event → Bool
brings_back (reconciles path outstanding) = true
brings_back (funds path balance minimum) = true
brings_back _ = false

NoneFree-update_first :
    (path : String) (f : Worker → Worker) (ws : List Worker)
    → ((v : Worker) → is_candidate v ≡ false → is_candidate (f v) ≡ false)
    → NoneFree ws
    → NoneFree (update_first path f ws)
unfolding update_first
NoneFree-update_first path f [] k n = tt
NoneFree-update_first path f (w ∷ ws) k n = ground (arith, k w, NoneFree-update_first path f ws k)

take_first-NoneFree : (now : ℕ) (ws : List Worker) → NoneFree ws → take_first now ws ≡ none
unfolding take_first
take_first-NoneFree now [] n = refl
take_first-NoneFree now (w ∷ ws) n = ground (arith, take_first-NoneFree now ws)

arrives-IsFair : (p : WorkerPool) (now : ℕ) → IsFair p → IsFair (acquire_within p now).0
arrives-IsFair p now f = elim (Option-cases (take_first now p.workers)) [
  | inl stuck ↦ elim (Bool-cases (some_occupied p.workers)) [
    | inl occupied ↦
        rw (acquire_within-stuck p now stuck, occupied) (inr (take_first-none now p.workers stuck))
    | inr spent ↦ rw (acquire_within-stuck p now stuck, spent) f
  ]
  | inr ((w, ws), found) ↦ rw (acquire_within-found p now w ws found) (elim f [
    | inl empty ↦ inl empty
    | inr n ↦ absurd (ground (arith, take_first-NoneFree now p.workers n))
  ])
]

time_out-IsFair : (p : WorkerPool) (t : ℕ) → IsFair p → IsFair (time_out p t)
unfolding time_out
time_out-IsFair p t f = ground arith

update-IsFair :
    (p : WorkerPool) (path : String) (f : Worker → Worker)
    → ((v : Worker) → is_candidate v ≡ false → is_candidate (f v) ≡ false)
    → IsFair p
    → IsFair (record p { workers = update_first path f p.workers })
update-IsFair p path f k (inl empty) = inl empty
update-IsFair p path f k (inr n) = inr (NoneFree-update_first path f p.workers k n)

returned-IsFair :
    (s : Pooled) (path : String) (now n : ℕ) → IsFair s.pool → IsFair (returned s path now n).pool
returned-IsFair s path now zero f = f
returned-IsFair s path now (suc n) f = (release_order s.pool path now).3

-- Every call but a reconciliation and a balance update keeps the pool fair: if nobody waits while
-- a worker could be handed out, the same holds after the call.
pub step-IsFair :
    (s : Pooled) (now : ℕ) (e : Event)
    → brings_back e ≡ false
    → IsFair s.pool
    → IsFair (step s (now, e)).pool
step-IsFair s now arrives h f = unfold step in arrives-IsFair s.pool now f
step-IsFair s now (releases path) h f =
    unfold step in returned-IsFair s path now (times path s.held) f
step-IsFair s now (expires t) h f = unfold step in time_out-IsFair s.pool t f
step-IsFair s now (abandons e) h f = unfold step reject_waiters in inl refl
step-IsFair s now (quarantines path nonce) h f =
    unfold step quarantine in update-IsFair s.pool path _ (λ v n. ground arith) f
step-IsFair s now (reconciles path outstanding) h f = cc
step-IsFair s now (funds path balance minimum) h f = cc
step-IsFair s now (addresses path address) h f =
    unfold step set_address in update-IsFair s.pool path _ (λ v n. n) f

-- A reconciliation breaks it. Whenever somebody waits, and the address that is reconciled is idle,
-- funded and was withheld only for its transaction, the waiters stay where they are, nobody is
-- served, and a caller that arrives next is handed an address at once, ahead of all of them.
pub reconcile_overtakes :
    (p : WorkerPool) (path : String) (now t : ℕ) (ts : List ℕ) (w : Worker) (nonce : ℕ)
    → p.waiters ≡ t ∷ ts
    → find path p.workers ≡ some w
    → w.busy ≡ false
    → w.underfunded ≡ false
    → w.pending_nonce ≡ some nonce
    → let q = reconcile p path false in
      ¬ IsFair q
      × (q.settled ≡ p.settled)
      × ((to : String) × ((acquire_within q now).1 ≡ kept (granted to))
          × ((acquire_within q now).0.waiters ≡ t ∷ ts))
unfolding reconcile
reconcile_overtakes p path now t ts w nonce waits held idle funded withheld =
    elim (Option-cases (take_first now back)) [
      | inl stuck ↦ absurd (usable (take_first-none now back stuck))
      | inr ((v, vs), found) ↦
          let served = acquire_within-found (record p { workers = back }) now v vs found in
          (unfair, refl, (v.path, ap (λ r. r.1) served, rw served waits))
    ]
  where
    back : List Worker
    back = update_first path (cleared false) p.workers

    usable : ¬ NoneFree back
    usable =
        find_candidate path back (cleared false w)
          (find-update_first path (cleared false) p.workers w held (λ v. ground arith))
          (ground arith)

    unfair : ¬ IsFair (record p { workers = back })
    unfair (inl empty) = cc (waits, empty)
    unfair (inr n) = usable n

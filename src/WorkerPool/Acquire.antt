-- ===== src/WorkerPool/Acquire.antt =====
-- Which worker `acquire` hands out, and what its refusal tells.
use contract_pinger.Common.{
  ℕ, suc, ◌≡◌, refl, inl, inr, ◌↔◌, Bool, true, false, List, [], ◌∷◌, ◌++◌, Option, none, some, All,
  if◌then◌else◌, arith, Bool-cases, Option-cases,
}
use contract_pinger.WorkerPool.{
  Worker, Reason, all_busy, all_underfunded, WorkerPool, is_candidate, lease, take_first,
  some_occupied, unavailable, acquire, acquire_within, kept, open_until, granted, refused,
  no_worker,
}

-- No worker of the list can be handed out.
abbrev pub NoneFree : List Worker → Type 0
NoneFree = All (λ w. is_candidate w ≡ false)

abbrev pub NoneFunded : List Worker → Type 0
NoneFunded = All (λ w. w.underfunded ≡ true)

-- `w` is the lease of the first candidate of `ws`, and `ws'` is `ws` with it in place.
pub record IsFirst (now : ℕ) (ws : List Worker) (w : Worker) (ws' : List Worker) : Type 0 where
  pub before : List Worker
  pub chosen : Worker
  pub behind : List Worker
  pub splits : ws ≡ before ++ chosen ∷ behind
  pub passed : NoneFree before
  pub free : is_candidate chosen ≡ true
  pub leased : w ≡ lease now chosen
  pub placed : ws' ≡ before ++ w ∷ behind

IsFirst-cons :
    (now : ℕ) (x : Worker) (ws : List Worker) (w : Worker) (ws' : List Worker)
    → is_candidate x ≡ false
    → IsFirst now ws w ws'
    → IsFirst now (x ∷ ws) w (x ∷ ws')
IsFirst-cons now x ws w ws' e f = record {
  before = x ∷ f.before;
  chosen = f.chosen;
  behind = f.behind;
  splits = cc (f.splits);
  passed = (e, f.passed);
  free = f.free;
  leased = f.leased;
  placed = cc (f.placed);
}

pub take_first-none : (now : ℕ) (ws : List Worker) → take_first now ws ≡ none → NoneFree ws
unfolding take_first
take_first-none now [] e = tt
take_first-none now (x ∷ ws) e = ground (arith, take_first-none now ws)

pub take_first-some :
    (now : ℕ) (ws : List Worker) (w : Worker) (ws' : List Worker)
    → take_first now ws ≡ some (w, ws')
    → IsFirst now ws w ws'
unfolding take_first
take_first-some now [] w ws' e = cc
take_first-some now (x ∷ ws) w ws' e = elim (Bool-cases (is_candidate x)) [
  | inl fits ↦ record {
    before = [];
    chosen = x;
    behind = ws;
    splits = refl;
    passed = tt;
    free = fits;
    leased = ground arith;
    placed = ground arith;
  }
  | inr busy ↦ elim (Option-cases (take_first now ws)) [
    | inl stuck ↦ absurd (ground arith)
    | inr ((v, vs), found) ↦
        let e' : ◌≡◌ {A = Option (Worker × List Worker)} (some (v, x ∷ vs)) (some (w, ws')) =
          ground arith in
        let same : v ≡ w = cc in
        let tail : x ∷ vs ≡ ws' = cc in
        rw (← tail, ← same) (IsFirst-cons now x ws v vs busy (take_first-some now ws v vs found))
  ]
]

some_occupied-NoneFunded :
    (ws : List Worker) → NoneFree ws → (some_occupied ws ≡ false) ↔ NoneFunded ws
some_occupied-NoneFunded [] n = (λ e. tt, λ f. refl)
some_occupied-NoneFunded (w ∷ ws) n = ground (arith, some_occupied-NoneFunded ws n.1)

reason_iff :
    (p : WorkerPool) (r : Reason) (b : Bool)
    → some_occupied p.workers ≡ b
    → r ≡ (if b then all_busy else all_underfunded)
    → (some_occupied p.workers ≡ false → NoneFunded p.workers)
    → (NoneFunded p.workers → some_occupied p.workers ≡ false)
    → (r ≡ all_underfunded) ↔ NoneFunded p.workers
reason_iff p r true e why spare poor = (λ same. cc, λ f. cc (poor f))
reason_iff p r false e why spare poor = (λ same. spare e, λ f. why)

-- A refusal leaves the pool alone and is right: no worker can be handed out, and the reason is
-- `all_underfunded` exactly when every address is short of gas, so that waiting cannot help.
pub acquire_refused :
    (p p' : WorkerPool) (now : ℕ) (r : Reason)
    → acquire p now ≡ (p', unavailable r)
    → (p' ≡ p) × NoneFree p.workers × ((r ≡ all_underfunded) ↔ NoneFunded p.workers)
unfolding acquire
acquire_refused p p' now r e = elim (Option-cases (take_first now p.workers)) [
  | inl stuck ↦
      let none_free = take_first-none now p.workers stuck in
      let (spare, poor) = some_occupied-NoneFunded p.workers none_free in
      (
        ground arith,
        none_free,
        reason_iff p r (some_occupied p.workers) refl (ground arith) spare poor,
      )
  | inr ((v, vs), found) ↦ absurd (ground arith)
]

-- The two ways of `acquireWithin`.
pub acquire_within-found :
    (p : WorkerPool) (now : ℕ) (w : Worker) (ws : List Worker)
    → take_first now p.workers ≡ some (w, ws)
    → acquire_within p now ≡ (record p { workers = ws }, kept (granted w.path))
unfolding acquire_within
acquire_within-found p now w ws e = ground arith

pub acquire_within-stuck :
    (p : WorkerPool) (now : ℕ)
    → take_first now p.workers ≡ none
    → acquire_within p now ≡ (
        if some_occupied p.workers
        then (
          record p { waiters = p.waiters ++ p.next_ticket ∷ []; next_ticket = suc p.next_ticket },
          open_until p.next_ticket,
        )
        else (p, kept (refused (no_worker all_underfunded))))
unfolding acquire_within
acquire_within-stuck p now e = ground arith

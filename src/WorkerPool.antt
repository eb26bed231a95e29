-- ===== src/WorkerPool.antt =====
-- src/utils/workerPool.ts: the pool of derived addresses. A method returns the new pool; `Date.now()`
-- is the argument `now`. A worker that a method hands out is the pool's own object, so a holder
-- keeps its path and reads the rest from the pool. A promise is settled by an entry of `settled`
-- under the ticket that stands for the waiter's identity.
pub mod Acquire
pub mod Waiters
pub mod Events
pub mod Paths
pub mod Leases
pub mod Fairness
mod Tests
use contract_pinger.Common.{
  ℕ, zero, suc, ◌+◌, Bool, true, false, not, ◌&&◌, ◌||◌, List, [], ◌∷◌, ◌++◌, map, Option, none,
  some, String, length, keep, tally, ltb, leb, ◌==◌, str_eq, if◌then◌else◌,
}

pub record Worker : Type 0 where
  pub path : String
  pub address : String
  pub busy : Bool
  pub underfunded : Bool
  pub pending_nonce : Option ℕ
  pub balance_wei : ℕ
  pub leases : ℕ
  pub last_leased_at : Option ℕ

pub data Reason : Type 0 where
  all_busy all_underfunded : Reason

-- What a waiter is rejected with: a `NoWorkerAvailableError`, or the error of `rejectWaiters`.
pub data PoolError : Type 0 where
  no_worker : Reason → PoolError
  abandoned : String → PoolError

pub data Settlement : Type 0 where
  granted : String → Settlement
  refused : PoolError → Settlement

pub record WorkerPool : Type 0 where
  pub workers : List Worker
  pub waiters : List ℕ
  pub settled : List (ℕ × Settlement)
  pub next_ticket : ℕ

abbrev pub fresh_worker : String → Worker
fresh_worker path = record {
  path = path;
  address = "0x";
  busy = false;
  underfunded = false;
  pending_nonce = none;
  balance_wei = 0;
  leases = 0;
  last_leased_at = none;
}

unfoldable pub create : List String → WorkerPool
create paths = record {
  workers = map fresh_worker paths;
  waiters = [];
  settled = [];
  next_ticket = 0;
}

unfoldable pub size : WorkerPool → ℕ
size p = length p.workers

unfoldable pub waiting : WorkerPool → ℕ
waiting p = length p.waiters

abbrev pub is_pending : Worker → Bool
is_pending w = elim w.pending_nonce [ none ↦ false | some _ ↦ true ]

-- `this.workers.find(w => w.path === path)` and a change of what it finds.
unfoldable pub update_first : String → (Worker → Worker) → List Worker → List Worker
update_first path f [] = []
update_first path f (w ∷ ws) = if str_eq w.path path then f w ∷ ws else w ∷ update_first path f ws

unfoldable pub find : String → List Worker → Option Worker
find path [] = none
find path (w ∷ ws) = if str_eq w.path path then some w else find path ws

unfoldable pub set_address : WorkerPool → String → String → WorkerPool
set_address p path address = record p {
  workers = update_first path (λ w. record w { address = address }) p.workers;
}

unfoldable pub set_balance : WorkerPool → String → ℕ → ℕ → WorkerPool
set_balance p path balance minimum = record p {
  workers =
      update_first path (λ w. record w { balance_wei = balance; underfunded = ltb balance minimum })
        p.workers;
}

-- The test of `acquire`.
abbrev pub is_candidate : Worker → Bool
is_candidate w = not w.busy && (not w.underfunded && not (is_pending w))

-- The test of `willFreeUp`.
abbrev pub is_occupied : Worker → Bool
is_occupied w = not w.underfunded && (w.busy || is_pending w)

abbrev pub lease : ℕ → Worker → Worker
lease now w = record w { busy = true; leases = w.leases + 1; last_leased_at = some now }

-- The first candidate, leased where it stands.
unfoldable pub take_first : ℕ → List Worker → Option (Worker × List Worker)
take_first now [] = none
take_first now (w ∷ ws) =
    let rest = take_first now ws in
    if is_candidate w
    then some (lease now w, lease now w ∷ ws)
    else elim rest [ none ↦ none | some (v, vs) ↦ some (v, w ∷ vs) ]

abbrev pub some_occupied : List Worker → Bool
some_occupied [] = false
some_occupied (w ∷ ws) = is_occupied w || some_occupied ws

pub data Acquired : Type 0 where
  worker : Worker → Acquired
  unavailable : Reason → Acquired

unfoldable pub acquire : WorkerPool → ℕ → WorkerPool × Acquired
acquire p now = elim (take_first now p.workers) [
  | none ↦ (p, unavailable (if some_occupied p.workers then all_busy else all_underfunded))
  | some (w, ws) ↦ (record p { workers = ws }, worker w)
]

-- The promise of `acquireWithin`, as it is when the call returns.
pub data Pledge : Type 0 where
  kept : Settlement → Pledge
  open_until : ℕ → Pledge

abbrev pub enqueue : WorkerPool × Acquired → WorkerPool × Pledge
enqueue (p, worker w) = (p, kept (granted w.path))
enqueue (p, unavailable all_underfunded) = (p, kept (refused (no_worker all_underfunded)))
enqueue (p, unavailable all_busy) = (
  record p { waiters = p.waiters ++ p.next_ticket ∷ []; next_ticket = suc p.next_ticket },
  open_until p.next_ticket,
)

-- Only `all_busy` waits.
unfoldable pub acquire_within : WorkerPool → ℕ → WorkerPool × Pledge
unfolding acquire
acquire_within p now = enqueue (acquire p now)

-- The loop of `handOff`: the workers and the waiters left, and what was handed to whom.
unfoldable pub serve : ℕ → List Worker → List ℕ → List Worker × List ℕ × List (ℕ × String)
serve now ws [] = (ws, [], [])
serve now ws (t ∷ ts) = elim (take_first now ws) [
  | none ↦ (ws, t ∷ ts, [])
  | some (w, ws') ↦ let (ws'', ts', given) = serve now ws' ts in (ws'', ts', (t, w.path) ∷ given)
]

abbrev pub grants : List (ℕ × String) → List (ℕ × Settlement)
grants [] = []
grants ((t, path) ∷ given) = (t, granted path) ∷ grants given

unfoldable pub hand_off : WorkerPool → ℕ → WorkerPool
hand_off p now =
    let (ws, ts, given) = serve now p.workers p.waiters in
    record p { workers = ws; waiters = ts; settled = p.settled ++ grants given }

unfoldable pub release : WorkerPool → String → ℕ → WorkerPool
unfolding hand_off
release p path now =
    hand_off (record p { workers = update_first path (λ w. record w { busy = false }) p.workers })
      now

abbrev pub has_ticket : ℕ → List ℕ → Bool
has_ticket t [] = false
has_ticket t (x ∷ ts) = x == t || has_ticket t ts

-- `this.waiters.indexOf(waiter)` and `splice`.
abbrev pub drop_ticket : ℕ → List ℕ → List ℕ
drop_ticket t [] = []
drop_ticket t (x ∷ ts) = if x == t then ts else x ∷ drop_ticket t ts

-- The timer of `acquireWithin`. It is cleared when the waiter is settled, so it finds the waiter.
unfoldable pub time_out : WorkerPool → ℕ → WorkerPool
time_out p t =
    if has_ticket t p.waiters
    then record p {
      waiters = drop_ticket t p.waiters;
      settled = p.settled ++ (t, refused (no_worker all_busy)) ∷ [];
    }
    else p

abbrev pub refusals : PoolError → List ℕ → List (ℕ × Settlement)
refusals e [] = []
refusals e (t ∷ ts) = (t, refused e) ∷ refusals e ts

unfoldable pub reject_waiters : WorkerPool → PoolError → WorkerPool
reject_waiters p e = record p { waiters = []; settled = p.settled ++ refusals e p.waiters }

unfoldable pub quarantine : WorkerPool → String → ℕ → WorkerPool
quarantine p path nonce = record p {
  workers = update_first path (λ w. record w { pending_nonce = some nonce }) p.workers;
}

abbrev pub cleared : Bool → Worker → Worker
cleared outstanding w =
    if is_pending w && not outstanding then record w { pending_nonce = none } else w

unfoldable pub reconcile : WorkerPool → String → Bool → WorkerPool
reconcile p path outstanding = record p {
  workers = update_first path (cleared outstanding) p.workers;
}

unfoldable pub quarantined : WorkerPool → List Worker
quarantined p = keep is_pending p.workers

-- `Array.from({ length }, (_, i) => …)`, from an index on, and `buildPaths`. `show` is the text of a
-- number.
abbrev pub append : String → String → String
append String.[] t = t
append (String.◌∷◌ c s) t = String.◌∷◌ c (append s t)

abbrev pub path_of : (ℕ → String) → String → ℕ → String
path_of show prefix i = append prefix (String.◌∷◌ "-" (show i))

abbrev pub paths_from : (ℕ → String) → String → ℕ → ℕ → List String
paths_from show prefix i zero = []
paths_from show prefix i (suc n) = path_of show prefix i ∷ paths_from show prefix (suc i) n

unfoldable pub build_paths : (ℕ → String) → String → ℕ → List String
build_paths show prefix count = paths_from show prefix 0 count

-- ===== src/Service/Progress.antt =====
-- How far a run is from its end, over its steps.
use contract_pinger.Common.{
  ℕ, suc, ◌+◌, ◌≤◌, ◌≡◌, refl, ap, Bool, true, false, List, [], ◌∷◌, map, none, some, String,
  length, length-keep, tally-le-length, if◌then◌else◌, arith,
}
use contract_pinger.WorkerPool.{
  Worker, WorkerPool, Settlement, granted, refused, Pledge, kept, open_until, find, update_first,
  set_address, quarantined, is_pending, acquire_within,
}
use contract_pinger.JobStore.{FailureReason}
use contract_pinger.Service.{
  Service, Run, Phase, deriving_addresses, reconciling, refreshing, parked, preflight, building,
  sending, signing, attaching, broadcasting, confirming, responding, over, Reply, derived, counts,
  balance, built, solana_sent, signature, attached, eth_hash, receipt, respond, settled, threw,
  RunError, finish, give_up, throw,
}
use contract_pinger.Service.Steps.{
  settlement_of, leased, settle, await_pledge, to_lease, to_refresh, to_reconcile, wants_refresh,
  set_addresses, ready,
}

-- How many answers a run can still take, for a pool of `n` addresses.
abbrev pub rank : ℕ → Phase → ℕ
rank n deriving_addresses = 10 + n + n
rank n (reconciling paths) = 9 + n + length paths
rank n (refreshing paths) = 9 + length paths
rank n (parked t) = 9
rank n preflight = 8
rank n (building b) = 7
rank n (sending t) = 6
rank n (signing t) = 5
rank n (attaching t) = 4
rank n (broadcasting t) = 3
rank n (confirming t) = 2
rank n responding = 1
rank n over = 0

-- The answers that a run without an address waits for: `came` tells whether its ticket is settled.
abbrev pub fits_unleased : Bool → Phase → Reply → Bool
fits_unleased came deriving_addresses (derived addresses) = true
fits_unleased came (reconciling (path ∷ paths)) (counts latest pending) = true
fits_unleased came (refreshing (path ∷ paths)) (balance b) = true
fits_unleased came over reply = false
fits_unleased came (parked t) settled = came
fits_unleased came (parked t) (threw e) = false
fits_unleased came p (threw e) = true
fits_unleased came p reply = false

abbrev pub fits_leased : Phase → Reply → Bool
fits_leased preflight (balance b) = true
fits_leased (building b) (built t request_id) = true
fits_leased (sending t) (solana_sent tx) = true
fits_leased (signing t) signature = true
fits_leased (attaching t) (attached recovered) = true
fits_leased (broadcasting t) (eth_hash hash) = true
fits_leased (confirming t) (receipt success) = true
fits_leased responding (respond output) = true
fits_leased over reply = false
fits_leased p (threw e) = true
fits_leased p reply = false

abbrev pub has_settlement : Service → Phase → Bool
has_settlement s (parked t) = elim (settlement_of t s.pool.settled) [
  | none ↦ false
  | some st ↦ true
]
has_settlement s _ = false

abbrev pub fits : Service → Run → Reply → Bool
fits s r reply = elim r.worker [
  | none ↦ fits_unleased (has_settlement s r.phase) r.phase reply
  | some path ↦ fits_leased r.phase reply
]

module _ (n : ℕ) where
  abbrev pub AtMost : ℕ → Service × Run → Type 0
  AtMost m x = rank n x.1.phase ≤ m

  pub if-AtMost :
      (m : ℕ) (b : Bool) (x y : Service × Run)
      → AtMost m x
      → AtMost m y
      → AtMost m (if b then x else y)
  if-AtMost m true x y f g = f
  if-AtMost m false x y f g = g

  pub finish-AtMost : (m : ℕ) (s : Service) (r : Run) (now : ℕ) → AtMost m (finish s r now)
  unfolding finish
  finish-AtMost m s r now = omega arith

  pub give_up-AtMost :
      (m : ℕ) (s : Service) (r : Run) (reason : FailureReason) (message : String) (now : ℕ)
      → AtMost m (give_up s r reason message now)
  unfolding give_up finish
  give_up-AtMost m s r reason message now = omega arith

  pub throw-AtMost :
      (m : ℕ) (s : Service) (r : Run) (e : RunError) (now : ℕ) → AtMost m (throw s r e now)
  unfolding throw finish
  throw-AtMost m s r e now = omega arith

  pub settle-AtMost :
      (s : Service) (r : Run) (st : Settlement) (now : ℕ) → AtMost 8 (settle s r st now)
  unfolding settle leased
  settle-AtMost s r (granted path) now = omega arith
  settle-AtMost s r (refused e) now = throw-AtMost 8 s r _ now

  pub await_pledge-AtMost :
      (s : Service) (r : Run) (pledge : Pledge) (now : ℕ) → AtMost 9 (await_pledge s r pledge now)
  unfolding await_pledge
  await_pledge-AtMost s r (kept st) now = omega (arith, settle-AtMost s r st now)
  await_pledge-AtMost s r (open_until t) now = omega arith

  pub to_lease-AtMost : (s : Service) (r : Run) (now : ℕ) → AtMost 9 (to_lease s r now)
  unfolding to_lease
  to_lease-AtMost s r now = if-AtMost 9 r.aborted _ _ (throw-AtMost 9 s r _ now) (
      await_pledge-AtMost (record s { pool = (acquire_within s.pool now).0 }) r
        (acquire_within s.pool now).1 now)

  pub to_refresh-AtMost :
      (s : Service) (r : Run) (paths : List String) (now : ℕ)
      → AtMost (9 + length paths) (to_refresh s r paths now)
  unfolding to_refresh
  to_refresh-AtMost s r [] now = omega (arith, to_lease-AtMost s r now)
  to_refresh-AtMost s r (path ∷ paths) now =
      if-AtMost (9 + length (path ∷ paths)) (wants_refresh (find path s.pool.workers)) _ _
        (omega arith) (omega (arith, to_refresh-AtMost s r paths now))

  pub length-map : (ws : List Worker) → length (map (λ w. w.path) ws) ≡ length ws
  length-map [] = refl
  length-map (w ∷ ws) = ap suc (length-map ws)

  pub to_reconcile-AtMost :
      (s : Service) (r : Run) (paths : List String) (now : ℕ)
      → length s.pool.workers ≤ n
      → AtMost (9 + n + length paths) (to_reconcile s r paths now)
  unfolding to_reconcile
  to_reconcile-AtMost s r [] now h = omega (
    arith,
    h,
    length-map s.pool.workers,
    to_refresh-AtMost s r (map (λ w. w.path) s.pool.workers) now,
  )
  to_reconcile-AtMost s r (path ∷ paths) now h = omega arith

  pub length-update_first :
      (path : String) (f : Worker → Worker) (ws : List Worker)
      → length (update_first path f ws) ≡ length ws
  unfolding update_first
  length-update_first path f [] = refl
  length-update_first path f (w ∷ ws) = ground (arith, length-update_first path f ws)

  pub length-set_addresses :
      (p : WorkerPool) (es : List (String × String))
      → length (set_addresses p es).workers ≡ length p.workers
  unfolding set_address
  length-set_addresses p [] = refl
  length-set_addresses p ((path, address) ∷ es) = omega (
    arith,
    length-set_addresses (set_address p path address) es,
    length-update_first path (λ w. record w { address = address }) p.workers,
  )

  pub length-ready :
      (s : Service) (es : List (String × String))
      → length (ready s es).pool.workers ≡ length s.pool.workers
  length-ready s es = ground (arith, length-set_addresses s.pool es)

  pub length-quarantined : (p : WorkerPool) → length (quarantined p) ≤ length p.workers
  unfolding quarantined
  length-quarantined p =
      omega (arith, length-keep is_pending p.workers, tally-le-length is_pending p.workers)

-- ===== src/WorkerPool/Events.antt =====
-- The calls that reach a pool, one at a time: a history is a list of them with their instants.
-- `held` lists the addresses that callers hold. It is not in the source; it records the callers'
-- part, that an address is released only by a caller that holds it.
use contract_pinger.Common.{
  ℕ, zero, suc, Bool, true, false, List, [], ◌∷◌, ◌++◌, map, String, tally, str_eq,
}
use contract_pinger.WorkerPool.{
  PoolError, granted, refused, WorkerPool, set_address, set_balance, Pledge, kept, open_until,
  acquire_within, update_first, serve, release, time_out, reject_waiters, quarantine, reconcile,
}

pub data Event : Type 0 where
  arrives : Event
  releases : String → Event
  expires : ℕ → Event
  abandons : PoolError → Event
  quarantines : String → ℕ → Event
  reconciles : String → Bool → Event
  funds : String → ℕ → ℕ → Event
  addresses : String → String → Event

pub record Pooled : Type 0 where
  pub pool : WorkerPool
  pub held : List String

-- How often `path` is held.
abbrev pub times : String → List String → ℕ
times path = tally (λ h. str_eq h path)

abbrev pub drop_one : String → List String → List String
drop_one path [] = []
drop_one path (h ∷ hs) = elim (str_eq h path) [ true ↦ hs | false ↦ h ∷ drop_one path hs ]

abbrev pub hold : Pledge → List String → List String
hold (kept (granted path)) held = path ∷ held
hold (kept (refused e)) held = held
hold (open_until t) held = held

-- The addresses that `release` hands on.
abbrev pub handed : WorkerPool → String → ℕ → List String
handed p path now =
    map (λ g. g.1)
      (serve now (update_first path (λ w. record w { busy = false }) p.workers) p.waiters).2

abbrev pub returned : Pooled → String → ℕ → ℕ → Pooled
returned s path now zero = s
returned s path now (suc n) = record {
  pool = release s.pool path now;
  held = drop_one path s.held ++ handed s.pool path now;
}

unfoldable pub step : Pooled → ℕ × Event → Pooled
step s (now, arrives) =
    let (pool, pledge) = acquire_within s.pool now in
    record { pool = pool; held = hold pledge s.held }
step s (now, releases path) = returned s path now (times path s.held)
step s (now, expires t) = record s { pool = time_out s.pool t }
step s (now, abandons e) = record s { pool = reject_waiters s.pool e }
step s (now, quarantines path nonce) = record s { pool = quarantine s.pool path nonce }
step s (now, reconciles path outstanding) = record s { pool = reconcile s.pool path outstanding }
step s (now, funds path balance minimum) = record s {
  pool = set_balance s.pool path balance minimum;
}
step s (now, addresses path address) = record s { pool = set_address s.pool path address }

unfoldable pub run : Pooled → List (ℕ × Event) → Pooled
run s [] = s
run s (e ∷ es) = run (step s e) es

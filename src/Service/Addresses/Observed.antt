-- ===== src/Service/Addresses/Observed.antt =====
-- What the workers' endpoint tells of a pool whose paths are distinct.
use contract_pinger.Common.{
  ℕ, ◌≡◌, refl, sym, subst, ◌∙◌, ap, inl, inr, Bool, true, false, List, [], ◌∷◌, map, Option, none,
  some, String, ltb, str_eq, if◌then◌else◌, arith, Bool-cases,
}
use contract_pinger.Handlers.{Failure, Result, ok, err}
use contract_pinger.WorkerPool.{Worker, WorkerPool}
use contract_pinger.WorkerPool.Leases.{paths_at}
use contract_pinger.Service.{Service}
use contract_pinger.Service.Steps.{ready}
use contract_pinger.Service.Addresses.{
  for_each, key_version, Network, derive_worker_addresses, ensure_addresses, read_balance,
  reconcile_quarantined, refresh_balances,
}
use contract_pinger.Service.Addresses.Loops.{
  answered, with_funds, with_counts, with_address, map_kept, balances_lem, counts_lem,
  set_addresses-maps, with_funds_path,
}
use contract_pinger.Service.Addresses.Placing.{IsDistinct}
use contract_pinger.Service.Addresses.{refreshed, inspect, derive_addresses}

after_balances :
    (network : Network) (p : WorkerPool) (failed : Option Failure)
    → (elim failed as (λ o. WorkerPool × Option Failure) [
      | some f ↦ (p, some f)
      | none ↦ reconcile_quarantined network p
    ]).1
      ≡ none
    → (failed ≡ none)
      × (elim failed as (λ o. WorkerPool × Option Failure) [
        | some f ↦ (p, some f)
        | none ↦ reconcile_quarantined network p
      ]
          ≡ reconcile_quarantined network p)
after_balances network p none e = (refl, refl)
after_balances network p (some f) e = cc

refresh_lem :
    (network : Network) (minimum : ℕ) (p : WorkerPool)
    → IsDistinct p.workers
    → (refresh_balances network minimum p).1 ≡ none
    → (refresh_balances network minimum p).0 ≡ record p {
      workers = map (with_counts network) (map (with_funds network minimum) p.workers);
    }
unfolding refresh_balances
refresh_lem network minimum p d e =
    let (p', failed) = for_each (read_balance network minimum) p.workers p in
    let (ran, same) = after_balances network p' failed e in
    let funded = balances_lem network minimum p d ran in
    let distinct : IsDistinct p'.workers = λ q. omega (
      arith,
      d q,
      map_kept (with_funds network minimum) (with_funds_path network minimum) q p.workers,
      ap (λ (r : WorkerPool). paths_at q r.workers) funded,
    ) in
    ap (λ (t : WorkerPool × Option Failure). t.0) same
    ∙ counts_lem network minimum p' distinct
        (subst (λ (t : WorkerPool × Option Failure). t.1 ≡ none) same e)
    ∙ ap (λ (q : WorkerPool). record q { workers = map (with_counts network) q.workers }) funded

-- The address of a worker once its service has derived them.
abbrev pub address_of : Bool → Network → Worker → String
address_of true network w = w.address
address_of false network w =
    answered "0x" (network.derive (answered "" network.requester) w.path key_version)

-- A worker as the network has it: the balance of its address against the minimum, unless it has
-- none, and its nonce only while a transaction of the address is outstanding.
abbrev pub observed : Bool → Network → ℕ → Worker → Worker
observed ready network minimum w =
    let a = address_of ready network w in
    let b = answered 0 (network.balance a) in
    let unmined =
      ltb (answered 0 (network.latest_count a)) (answered 0 (network.pending_count a)) in
    record w {
      address = a;
      balance_wei = if str_eq a "0x" then w.balance_wei else b;
      underfunded = if str_eq a "0x" then w.underfunded else ltb b minimum;
      pending_nonce = if unmined then w.pending_nonce else none;
    }

ready_worker :
    (network : Network) (minimum : ℕ) (w : Worker)
    → with_counts network (with_funds network minimum w) ≡ observed true network minimum w
ready_worker network minimum w = ground arith

ready_map :
    (network : Network) (minimum : ℕ) (ws : List Worker)
    → map (with_counts network) (map (with_funds network minimum) ws)
      ≡ map (observed true network minimum) ws
ready_map network minimum [] = refl
ready_map network minimum (w ∷ ws) =
    λ i. ready_worker network minimum w i ∷ ready_map network minimum ws i

after_ready :
    (network : Network) (minimum : ℕ) (s : Service)
    → IsDistinct s.pool.workers
    → (refreshed network minimum (s, none)).1 ≡ none
    → (refreshed network minimum (s, none)).0 ≡ record s {
      pool = record s.pool { workers = map (observed true network minimum) s.pool.workers };
    }
after_ready network minimum s d e =
    ap (λ (p : WorkerPool). record s { pool = p }) (refresh_lem network minimum s.pool d e)
    ∙ ap (λ ws. record s { pool = record s.pool { workers = ws } })
        (ready_map network minimum s.pool.workers)

-- The derivation that succeeds.
derived_by :
    (network : Network) (key : Result String) (paths : List String)
    (derived : List (String × String))
    → elim key as (λ k. Result (List (String × String))) [
      | err f ↦ err f
      | ok k ↦ derive_worker_addresses network k paths
    ]
      ≡ ok derived
    → derive_worker_addresses network (answered "" key) paths ≡ ok derived
derived_by network (ok k) paths derived e = e
derived_by network (err f) paths derived e = cc

derived_map :
    (network : Network) (minimum : ℕ) (ws : List Worker)
    → map
        (observed true network minimum)
        (map (with_address network (answered "" network.requester)) ws)
      ≡ map (observed false network minimum) ws
derived_map network minimum [] = refl
derived_map network minimum (w ∷ ws) =
    ap (λ vs. observed false network minimum w ∷ vs) (derived_map network minimum ws)

after_derivation :
    (network : Network) (minimum : ℕ) (s : Service) (r : Result (List (String × String)))
    → s.addresses_ready ≡ false
    → IsDistinct s.pool.workers
    → derive_addresses network (map (λ (w : Worker). w.path) s.pool.workers) ≡ r
    → (refreshed network minimum (elim r as (λ x. Service × Option Failure) [
      | err f ↦ (s, some f)
      | ok derived ↦ (ready s derived, none)
    ])).1
      ≡ none
    → (refreshed network minimum (elim r as (λ x. Service × Option Failure) [
      | err f ↦ (s, some f)
      | ok derived ↦ (ready s derived, none)
    ])).0
      ≡ record s {
        pool = record s.pool { workers = map (observed false network minimum) s.pool.workers };
        addresses_ready = true;
      }
after_derivation network minimum s (err f) unready d is e = cc
after_derivation network minimum s (ok derived) unready d is e =
    let key = answered "" network.requester in
    let placed = set_addresses-maps network key s.pool.workers [] s.pool derived refl d (
      derived_by network network.requester (map (λ (w : Worker). w.path) s.pool.workers) derived
        is) in
    let t : Service = record s {
      pool = record s.pool { workers = map (with_address network key) s.pool.workers };
      addresses_ready = true;
    } in
    let readied : ready s derived ≡ t =
      rw unready (ap (λ (p : WorkerPool). record s { pool = p; addresses_ready = true }) placed) in
    let distinct : IsDistinct t.pool.workers =
      λ q. omega (arith, d q, map_kept (with_address network key) (λ w. refl) q s.pool.workers) in
    subst
      (λ u. (refreshed network minimum (u, none)).0 ≡ record s {
        pool = record s.pool { workers = map (observed false network minimum) s.pool.workers };
        addresses_ready = true;
      })
      (sym readied)
      (after_ready network minimum t distinct
          (subst (λ u. (refreshed network minimum (u, none)).1 ≡ none) readied e)
        ∙ ap (λ ws. record s { pool = record s.pool { workers = ws }; addresses_ready = true })
            (derived_map network minimum s.pool.workers))

-- What `inspect` comes to, by whether the addresses are there.
abbrev Observes : Network → ℕ → Service → Bool → Type 0
Observes network minimum s there =
    let ensured : Service × Option Failure =
      if there
      then (s, none)
      else elim (derive_addresses network (map (λ (w : Worker). w.path) s.pool.workers))
          as (λ x. Service × Option Failure) [
            | err f ↦ (s, some f)
            | ok derived ↦ (ready s derived, none)
          ] in
    (refreshed network minimum ensured).1 ≡ none
    → (refreshed network minimum ensured).0 ≡ record s {
      pool = record s.pool { workers = map (observed there network minimum) s.pool.workers };
      addresses_ready = true;
    }

-- Where the service's paths are distinct and every read that the workers' endpoint makes succeeds,
-- it leaves each worker as the network has it: the address derived for its path, if the service had
-- none, the balance of that address and whether it is below the minimum, and a withheld nonce only
-- while a transaction of the address is outstanding. Leases, marks of use, waiters, the jobs and
-- the limiter stay.
pub inspect_observes :
    (network : Network) (minimum : ℕ) (s : Service)
    → IsDistinct s.pool.workers
    → (inspect network minimum s).1 ≡ none
    → (inspect network minimum s).0 ≡ record s {
      pool = record s.pool {
        workers = map (observed s.addresses_ready network minimum) s.pool.workers;
      };
      addresses_ready = true;
    }
unfolding inspect ensure_addresses
inspect_observes network minimum s d e = elim (Bool-cases s.addresses_ready) [
  | inl done ↦
      let there : Observes network minimum s true = λ h. after_ready network minimum s d h ∙ (λ i.
        record s {
          pool = record s.pool { workers = map (observed true network minimum) s.pool.workers };
          addresses_ready = done i;
        }) in
      subst (Observes network minimum s) (sym done) there e
  | inr unready ↦
      subst (Observes network minimum s) (sym unready)
        (after_derivation network minimum s
          (derive_addresses network (map (λ (w : Worker). w.path) s.pool.workers)) unready d refl)
        e
]

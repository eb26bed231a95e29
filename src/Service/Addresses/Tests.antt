-- ===== src/Service/Addresses/Tests.antt =====
-- The workers' endpoint at a service of two addresses.
use contract_pinger.Common.{
  arith, ◌≡◌, refl, subst, true, false, [], ◌∷◌, map, none, some, String, str_eq, if◌then◌else◌,
  eq_iff,
}
use contract_pinger.BidirectionalTx.{dev}
use contract_pinger.Handlers.{ok, err, thrown}
use contract_pinger.WorkerPool.{
  fresh_worker, update_first, set_address, set_balance, reconcile, quarantined,
}
use contract_pinger.Service.{Service}
use contract_pinger.Service.Addresses.{
  Network, inspect, ensure_addresses, derive_worker_addresses, refresh_balances,
  reconcile_quarantined,
}
use contract_pinger.Service.Addresses.Observed.{observed, inspect_observes}

abbrev network : Network
network = record {
  requester = ok "key";
  derive = λ key path version. ok (if str_eq path "p-0" then "0xa" else "0xb");
  balance = λ a. ok (if str_eq a "0xa" then 100 else 3);
  latest_count = λ a. ok 4;
  pending_count = λ a. ok 4;
}

-- The second address is withheld.
abbrev service : Service
service = record {
  environment = dev;
  pool = record {
    workers = fresh_worker "p-0" ∷ record (fresh_worker "p-1") { pending_nonce = some 3 } ∷ [];
    waiters = [];
    settled = [];
    next_ticket = 0;
  };
  jobs = record { jobs = []; max_jobs = 9; retained = 9; max_active_jobs = 9 };
  limiter = record { hits = []; limit = 2; window_ms = 60000 };
  addresses_ready = false;
}

inspect_code : Unit {0}
unfolding inspect ensure_addresses derive_worker_addresses refresh_balances reconcile_quarantined
    update_first set_address set_balance reconcile quarantined
inspect_code = tt

workers :
    (inspect network 50 service).0.pool.workers
    ≡ record (fresh_worker "p-0") { address = "0xa"; balance_wei = 100 }
      ∷ record (fresh_worker "p-1") { address = "0xb"; balance_wei = 3; underfunded = true }
      ∷ []
unfolding inspect_code
workers = refl

-- A balance that cannot be read: the addresses stay derived.
no_balance :
    (inspect
      (record network { balance = λ a. err (thrown "down" none) })
      50
      service).0.addresses_ready
    ≡ true
unfolding inspect_code
no_balance = refl

succeeds : (inspect network 50 service).1 ≡ none
unfolding inspect_code
succeeds = refl

not_both : (q : String) → str_eq "p-0" q ≡ true → str_eq "p-1" q ≡ false
not_both q e = subst (λ t. str_eq "p-1" t ≡ false) ((eq_iff "p-0" q).0 e) refl

inspect_observes_example : (inspect network 50 service).0 ≡ record service {
  pool = record service.pool { workers = map (observed false network 50) service.pool.workers };
  addresses_ready = true;
}
inspect_observes_example =
    inspect_observes network 50 service (λ q. ground (arith, not_both q)) succeeds

-- ===== src/Service/Resuming.antt =====
-- The account over one step of a run.
use contract_pinger.Common.{
  ℕ, ◌+◌, ◌≡◌, refl, sym, subst, inl, inr, Bool, true, false, List, [], ◌∷◌, map, none, some,
  String, ltb, arith, Bool-cases, Option-cases,
}
use contract_pinger.WorkerPool.{
  Settlement, granted, refused, set_balance, set_address, quarantine, quarantined, reconcile,
  cleared,
}
use contract_pinger.WorkerPool.Leases.{one_if, cleared-Keeps}
use contract_pinger.Service.{
  Config, Service, Run, Phase, deriving_addresses, reconciling, refreshing, parked, over, Reply,
  derived, counts, balance, settled, threw, other, run_error_of,
}
use contract_pinger.Service.Steps.{
  Outside, settlement_of, drop_settlement, settle, to_reconcile, to_refresh, set_addresses, ready,
  collect, resume_unleased,
}
use contract_pinger.Service.Balance.{
  granted_to, unread, IsSane, Fits, Owned, Fits-Owned, Fits-trans, same-Fits, update-Fits,
  throw-Fits,
}
use contract_pinger.Service.Leasing.{
  settle-Fits, granted-IsSane, to_refresh-Fits, to_reconcile-Fits,
}

unread-drop :
    (q : String) (t : ℕ) (xs : List (ℕ × Settlement)) (st : Settlement)
    → settlement_of t xs ≡ some st
    → unread q xs ≡ unread q (drop_settlement t xs) + one_if (granted_to q st)
unread-drop q t [] st e = cc
unread-drop q t ((x, s) ∷ xs) st e = ground (arith, unread-drop q t xs st)

settle-IsSane :
    (s : Service) (r : Run) (st : Settlement) (now : ℕ)
    → r.worker ≡ none
    → r.lease_released ≡ false
    → Owned s r
    → IsSane r
    → IsSane (settle s r st now).1
unfolding settle
settle-IsSane s r (granted path) now nobody unreleased o h =
    granted-IsSane r nobody unreleased s path now
settle-IsSane s r (refused e) now nobody unreleased o h =
    (throw-Fits s r (run_error_of e) now o).sane h

pub collect-none :
    (s : Service) (r : Run) (t now : ℕ)
    → settlement_of t s.pool.settled ≡ none
    → collect s r t now ≡ (s, r)
unfolding collect
collect-none s r t now e = ground arith

abbrev pub dropped : Service → ℕ → Service
dropped s t = record s { pool = record s.pool { settled = drop_settlement t s.pool.settled } }

pub collect-some :
    (s : Service) (r : Run) (t now : ℕ) (st : Settlement)
    → settlement_of t s.pool.settled ≡ some st
    → collect s r t now ≡ settle (dropped s t) r st now
unfolding collect
collect-some s r t now st e = rw (collect, e)

collect-Fits :
    (s : Service) (r : Run) (t now : ℕ)
    → r.worker ≡ none
    → r.lease_released ≡ false
    → Owned s r
    → Fits s r (collect s r t now)
collect-Fits s r t now nobody unreleased o = elim (Option-cases (settlement_of t s.pool.settled)) [
  | inl unsettled ↦ subst (Fits s r) (sym (collect-none s r t now unsettled)) (same-Fits s r)
  | inr (st, came) ↦
      let u : (q : String)
          → unread q s.pool.settled
            ≡ unread q (drop_settlement t s.pool.settled) + one_if (granted_to q st) =
        λ q. unread-drop q t s.pool.settled st came in
      let f =
        settle-Fits (dropped s t) r st now nobody unreleased (λ q. omega (arith, o.backed q, u q))
          o.distinct in
      subst (Fits s r) (sym (collect-some s r t now st came)) (record {
        account = λ q. omega (arith, f q, u q);
        same_paths = λ q. (f q).1;
        sane =
            settle-IsSane (dropped s t) r st now nobody unreleased
              (record { backed = λ q. omega (arith, o.backed q, u q); distinct = o.distinct });
      })
]

set_address-Fits :
    (s : Service) (r : Run) (path address : String)
    → Fits s r (record s { pool = set_address s.pool path address }, r)
unfolding set_address
set_address-Fits s r path address =
    update-Fits s r path (λ w. record w { address = address }) (λ v. (refl, refl))

pub set_balance-Fits :
    (s : Service) (r : Run) (path : String) (b minimum : ℕ)
    → Fits s r (record s { pool = set_balance s.pool path b minimum }, r)
unfolding set_balance
set_balance-Fits s r path b minimum =
    update-Fits s r path (λ w. record w { balance_wei = b; underfunded = ltb b minimum })
      (λ v. (refl, refl))

pub quarantine-Fits :
    (s : Service) (r : Run) (path : String) (n : ℕ)
    → Fits s r (record s { pool = quarantine s.pool path n }, r)
unfolding quarantine
quarantine-Fits s r path n =
    update-Fits s r path (λ w. record w { pending_nonce = some n }) (λ v. (refl, refl))

pub reconcile-Fits :
    (s : Service) (r : Run) (path : String) (b : Bool)
    → Fits s r (record s { pool = reconcile s.pool path b }, r)
unfolding reconcile
reconcile-Fits s r path b = update-Fits s r path (cleared b) (cleared-Keeps b)

set_addresses-Fits :
    (s : Service) (r : Run) (addresses : List (String × String))
    → Fits s r (record s { pool = set_addresses s.pool addresses }, r)
set_addresses-Fits s r [] = same-Fits s r
set_addresses-Fits s r ((path, address) ∷ rest) =
    let s' : Service = record s { pool = set_address s.pool path address } in
    Fits-trans s r (s', r) (record s { pool = set_addresses s.pool ((path, address) ∷ rest) }, r)
      (set_address-Fits s r path address) (set_addresses-Fits s' r rest)

ready-yes :
    (s : Service) (addresses : List (String × String))
    → s.addresses_ready ≡ true
    → ready s addresses ≡ s
ready-yes s addresses e = rw e

ready-no :
    (s : Service) (addresses : List (String × String))
    → s.addresses_ready ≡ false
    → ready s addresses ≡ record s { pool = set_addresses s.pool addresses; addresses_ready = true }
ready-no s addresses e = rw e

pub ready-Fits :
    (s : Service) (r : Run) (addresses : List (String × String)) → Fits s r (ready s addresses, r)
ready-Fits s r addresses = elim (Bool-cases s.addresses_ready) [
  | inl derived_before ↦
      subst (λ x. Fits s r (x, r)) (sym (ready-yes s addresses derived_before)) (same-Fits s r)
  | inr first ↦
      let f = set_addresses-Fits s r addresses in
      subst (λ x. Fits s r (x, r)) (sym (ready-no s addresses first))
        (record { account = f.account; same_paths = f.same_paths; sane = f.sane })
]

-- The phases of a run that has no lease.
module _ (o : Outside) (config : Config) where
  after-Fits :
      (s : Service) (r : Run) (s' : Service) (x : Service × Run)
      → Owned s r
      → Fits s r (s', r)
      → (Owned s' r → Fits s' r x)
      → Fits s r x
  after-Fits s r s' x o f g = Fits-trans s r (s', r) x f (g (Fits-Owned s r (s', r) o f))

  pub resume_unleased-Fits :
      (s : Service) (r : Run) (p : Phase) (reply : Reply) (now : ℕ)
      → r.worker ≡ none
      → r.lease_released ≡ false
      → Owned s r
      → Fits s r (resume_unleased o config s r p reply now)
  unfolding resume_unleased
  resume_unleased-Fits s r deriving_addresses (derived addresses) now n u o =
      let s' = ready s addresses in
      after-Fits s r s' (to_reconcile s' r (map (λ w. w.path) (quarantined s'.pool)) now) o
        (ready-Fits s r addresses)
        (to_reconcile-Fits r n u s' (map (λ w. w.path) (quarantined s'.pool)) now)
  resume_unleased-Fits s r (reconciling (path ∷ paths)) (counts latest pending) now n u o =
      let s' : Service = record s { pool = reconcile s.pool path (ltb latest pending) } in
      after-Fits s r s' (to_reconcile s' r paths now) o
        (reconcile-Fits s r path (ltb latest pending)) (to_reconcile-Fits r n u s' paths now)
  resume_unleased-Fits s r (refreshing (path ∷ paths)) (balance b) now n u o =
      let s' : Service = record s { pool = set_balance s.pool path b config.min_balance_wei } in
      after-Fits s r s' (to_refresh s' r paths now) o
        (set_balance-Fits s r path b config.min_balance_wei) (to_refresh-Fits r n u s' paths now)
  resume_unleased-Fits s r over reply now n u o = same-Fits s r
  resume_unleased-Fits s r (parked t) settled now n u o = collect-Fits s r t now n u o
  resume_unleased-Fits s r (parked t) (threw e) now n u o = same-Fits s r
  resume_unleased-Fits s r p (threw e) now n u o = throw-Fits s r (other e) now o
  resume_unleased-Fits s r p reply now n u o = same-Fits s r

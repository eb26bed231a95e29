-- ===== src/Http/Status.antt =====
-- src/index.ts: `GET /sign_bidirectional/workers` and `GET /sign_bidirectional/stats`.
use contract_pinger.Common.{ℕ, Bool, List, map, Option, none, some, String}
use contract_pinger.Handlers.{Failure}
use contract_pinger.WorkerPool.{Worker}
use contract_pinger.Service.{Service}
use contract_pinger.Service.Addresses.{Network, inspect}
use contract_pinger.Stats.Build.{Figures, build_stats}
use contract_pinger.Http.{
  Value, text, or_else, Settings, Resolved, invalid_environment, missing_rpc_url, resolved, resolve,
  get_service, store_service,
}

-- What the endpoint tells of an address.
pub record Row : Type 0 where
  pub path : String
  pub address : String
  pub balance_wei : ℕ
  pub busy : Bool
  pub underfunded : Bool
  pub pending_nonce : Option ℕ
  pub leases : ℕ

abbrev pub row : Worker → Row
row w = record {
  path = w.path;
  address = w.address;
  balance_wei = w.balance_wei;
  busy = w.busy;
  underfunded = w.underfunded;
  pending_nonce = w.pending_nonce;
  leases = w.leases;
}

-- An answer of status 200, 400 or 500.
pub data Told {ℓ} (A : Type ℓ) : Type ℓ where
  told : A → Told A
  not_resolved : Resolved → Told A
  told_failure : Failure → Told A

abbrev pub rows_of : Service × Option Failure → Told (List Row)
rows_of (s, none) = told (map row s.pool.workers)
rows_of (s, some f) = told_failure f

unfoldable pub get_workers :
    (ℕ → String) → Settings → Network → List Service → Value → List Service × Told (List Row)
unfolding resolve get_service inspect
get_workers show e network services asked = elim (resolve e (or_else asked (text "dev"))) [
  | invalid_environment ↦ (services, not_resolved invalid_environment)
  | missing_rpc_url ↦ (services, not_resolved missing_rpc_url)
  | resolved v ↦
      let (services', s) = get_service show e v services in
      let (s', failed) = inspect network e.config.min_balance_wei s in
      (store_service s' services', rows_of (s', failed))
]

unfoldable pub get_stats :
    (ℕ → String) → Settings → List Service → Value → ℕ → List Service × Told Figures
unfolding resolve get_service build_stats
get_stats show e services asked now = elim (resolve e (or_else asked (text "dev"))) [
  | invalid_environment ↦ (services, not_resolved invalid_environment)
  | missing_rpc_url ↦ (services, not_resolved missing_rpc_url)
  | resolved v ↦
      let (services', s) = get_service show e v services in
      let (s', figures) = build_stats s now in (store_service s' services', told figures)
]

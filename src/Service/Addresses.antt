-- ===== src/Service/Addresses.antt =====
-- src/utils/derivation.ts: `deriveWorkerAddresses`, and the reads of a service by themselves, as the
-- workers' endpoint makes them. The derivation is signet.js's, the counts and balances are the
-- node's: they are arguments.
pub mod Loops
pub mod Placing
pub mod Observed
mod Tests
use contract_pinger.Common.{
  ℕ, Bool, true, false, List, [], ◌∷◌, map, Option, none, some, String, ltb, str_eq, if◌then◌else◌,
}
use contract_pinger.Handlers.{Failure, Result, ok, err}
use contract_pinger.WorkerPool.{Worker, WorkerPool, set_balance, reconcile, quarantined}
use contract_pinger.Service.{Service}
use contract_pinger.Service.Steps.{ready}

-- A loop with an `await` in its body that may throw: what the last body left, and the failure.
abbrev pub for_each {ℓ} :
    {A : Type ℓ}
    → (A → WorkerPool → WorkerPool × Option Failure)
    → List A
    → WorkerPool
    → WorkerPool × Option Failure
for_each body [] p = (p, none)
for_each body (w ∷ ws) p =
    let (p', failed) = body w p in
    elim failed [ some f ↦ (p', some f) | none ↦ for_each body ws p' ]

abbrev pub key_version : ℕ
key_version = 1

-- What the service asks: `adapter.deriveAddressAndPublicKey`, and the reads of the node.
pub record Network : Type 0 where
  -- The public key of the pair that `solana()` gives.
  pub requester : Result String
  pub derive : String → String → ℕ → Result String
  pub balance : String → Result ℕ
  pub latest_count : String → Result ℕ
  pub pending_count : String → Result ℕ

unfoldable pub derive_worker_addresses :
    Network → String → List String → Result (List (String × String))
derive_worker_addresses network requester [] = ok []
derive_worker_addresses network requester (path ∷ paths) =
    elim (network.derive requester path key_version) [
      | err f ↦ err f
      | ok address ↦ elim (derive_worker_addresses network requester paths) [
        | err f ↦ err f
        | ok rest ↦ ok ((path, address) ∷ rest)
      ]
    ]

abbrev pub derive_addresses : Network → List String → Result (List (String × String))
derive_addresses network paths = elim network.requester [
  | err f ↦ err f
  | ok key ↦ derive_worker_addresses network key paths
]

-- A call with no other derivation under way.
unfoldable pub ensure_addresses : Network → Service → Service × Option Failure
unfolding derive_worker_addresses
ensure_addresses network s =
    if s.addresses_ready
    then (s, none)
    else elim (derive_addresses network (map (λ w. w.path) s.pool.workers)) [
      | err f ↦ (s, some f)
      | ok derived ↦ (ready s derived, none)
    ]

abbrev pub read_balance : Network → ℕ → Worker → WorkerPool → WorkerPool × Option Failure
read_balance network minimum w p =
    if str_eq w.address "0x" then (p, none) else elim (network.balance w.address) [
      | err f ↦ (p, some f)
      | ok b ↦ (set_balance p w.path b minimum, none)
    ]

-- Both counts are asked for at once; of two failures the first to come is told, here that of `latest`.
abbrev pub read_counts : Network → Worker → WorkerPool → WorkerPool × Option Failure
read_counts network w p = elim (network.latest_count w.address) [
  | err f ↦ (p, some f)
  | ok latest ↦ elim (network.pending_count w.address) [
    | err f ↦ (p, some f)
    | ok pending ↦ (reconcile p w.path (ltb latest pending), none)
  ]
]

unfoldable pub reconcile_quarantined : Network → WorkerPool → WorkerPool × Option Failure
reconcile_quarantined network p = for_each (read_counts network) (quarantined p) p

unfoldable pub refresh_balances : Network → ℕ → WorkerPool → WorkerPool × Option Failure
unfolding reconcile_quarantined
refresh_balances network minimum p =
    let (p', failed) = for_each (read_balance network minimum) p.workers p in
    elim failed [ some f ↦ (p', some f) | none ↦ reconcile_quarantined network p' ]

-- What the workers' endpoint does before it answers.
abbrev pub refreshed : Network → ℕ → Service × Option Failure → Service × Option Failure
refreshed network minimum (s, some f) = (s, some f)
refreshed network minimum (s, none) =
    let (p, failed) = refresh_balances network minimum s.pool in (record s { pool = p }, failed)

unfoldable pub inspect : Network → ℕ → Service → Service × Option Failure
unfolding ensure_addresses refresh_balances
inspect network minimum s = refreshed network minimum (ensure_addresses network s)

-- ===== src/Funding/Sweep.antt =====
-- scripts/fund-workers.ts: `main`, from the arguments to the decision. A read of the node that fails
-- ends the run before anything is sent; here the node answers.
pub mod Checked
pub mod Flags
pub mod Twice
pub mod Stages
mod Tests
use Prim.Native.Char.{Char, code}
use contract_pinger.Common.{
  ℕ, Bool, true, false, not, ◌&&◌, List, [], ◌∷◌, ◌++◌, map, Option, none, some, String, length,
  keep, ltb, leb, ◌==◌, str_eq, if◌then◌else◌,
}
use contract_pinger.BidirectionalTx.{
  Environment, dev, testnet, mainnet, chain_id, rpc_url, with_hex_prefix,
}
use contract_pinger.Handlers.{Failure, Result, ok, err}
use contract_pinger.WorkerPool.{build_paths}
use contract_pinger.Service.{environment_name}
use contract_pinger.Service.Addresses.{Network, derive_worker_addresses}
use contract_pinger.LoadTest.{argument, or_default}
use contract_pinger.Funding.{Target, Limits, Decision, Difference, plan, decide_plan, differences}

-- What `fail` or an exception stops the run for.
pub data Stop : Type 0 where
  unknown_environment no_funding_key bad_funding_key several_chains no_environment no_rpc_url : Stop
  bad_signing_key requester_differs no_requester malformed_requester : Stop
  target_below_minimum above_address_cap no_solana_url wrong_chain miscounted malformed_amount :
      Stop
  not_derived : Failure → Stop
  drifted : Environment → List Difference → Stop

pub data Check {ℓ} (A : Type ℓ) : Type ℓ where
  passed : A → Check A
  stopped : Stop → Check A

infixl 5 ◌>>=◌
abbrev pub ◌>>=◌ {ℓ κ} : {A : Type ℓ} {B : Type κ} → Check A → (A → Check B) → Check B
passed a >>= f = f a
stopped e >>= f = stopped e

-- `env`, as far as the sweep reads it; an absent value is empty. `worker_count`, `limits` and
-- `dry_run` are the values that Flags reads with `--paths`, `--topup` and `--dry-run`.
pub record Sweep : Type 0 where
  pub funding_key : String
  pub signing_key : String
  pub expected_requester : String
  pub sepolia_url : String
  pub mainnet_url : String
  pub solana_url : String
  pub service_url : String
  pub api_secret : String
  pub path_prefix : String
  pub worker_count : ℕ
  pub limits : Limits
  pub dry_run : Bool

-- A service that answers with its workers, or not, or with an error.
pub data ServiceReply : Type 0 where
  silent : ServiceReply
  reports : List (String × String) → ServiceReply

-- The texts' methods, the keys, the derivation by environment, the service and the node.
pub record Outside : Type 0 where
  pub trim : String → String
  pub lower : String → String
  pub show : ℕ → String
  pub public_key : String → Option String
  pub is_key : String → Bool
  -- Whether `privateKeyToAccount` takes the key, with its prefix.
  pub is_private_key : String → Bool
  pub network : Environment → Network
  pub service : String → Environment → ServiceReply
  pub chain : ℕ
  pub max_fee : ℕ
  pub source : ℕ
  pub balance : String → ℕ

-- `.split(',')`
abbrev pub put_first : Char → List String → List String
put_first c [] = []
put_first c (x ∷ xs) = String.◌∷◌ c x ∷ xs

abbrev pub split : String → List String
split String.[] = String.[] ∷ []
split (String.◌∷◌ c s) = if code c == b',' then String.[] ∷ split s else put_first c (split s)

abbrev pub asked : Outside → List String → List String
asked o argv =
    keep (λ s. not (str_eq s ""))
      (map o.trim (split (or_default (argument "--env" argv) "testnet")))

-- `s in ENVIRONMENTS`. A name that every object inherits, as "constructor", passes that test too; it
-- has no chain to be read, so the run stops behind it all the same, and sends nothing.
abbrev pub known_environment : String → Option Environment
known_environment s =
    if str_eq s "dev"
    then some dev
    else if str_eq s "testnet"
    then some testnet
    else if str_eq s "mainnet"
    then some mainnet
    else none

unfoldable pub environments : List String → Check (List Environment)
environments [] = passed []
environments (s ∷ ss) = elim (known_environment s) [
  | none ↦ stopped unknown_environment
  | some v ↦ do vs ← environments ss; passed (v ∷ vs)
]

abbrev pub same_chain : ℕ → List Environment → Bool
same_chain c [] = true
same_chain c (v ∷ vs) = chain_id v == c && same_chain c vs

-- The first environment, on whose chain all are, and which has a node.
unfoldable pub one_chain : Sweep → List Environment → Check Environment
one_chain e [] = stopped no_environment
one_chain e (v ∷ vs) =
    if not (same_chain (chain_id v) vs)
    then stopped several_chains
    else if str_eq (rpc_url e.sepolia_url e.mainnet_url v) ""
    then stopped no_rpc_url
    else passed v

abbrev pub own_requester : Outside → Sweep → Check (Option String)
own_requester o e =
    if str_eq e.signing_key "" then passed none else elim (o.public_key e.signing_key) [
      | none ↦ stopped bad_signing_key
      | some k ↦ passed (some k)
    ]

abbrev pub agreed : String → Option String → Check String
agreed expected none = if str_eq expected "" then stopped no_requester else passed expected
agreed expected (some k) =
    if not (str_eq expected "") && not (str_eq expected k)
    then stopped requester_differs
    else passed k

unfoldable pub requester_of : Outside → Sweep → Check String
requester_of o e = do
  own ← own_requester o e
  k ← agreed e.expected_requester own
  if o.is_key k then passed k else stopped malformed_requester

abbrev pub check_band : Limits → Check (Unit {0})
check_band l =
    if leb l.top_up_to l.min_balance
    then stopped target_below_minimum
    else if ltb l.max_per_address l.top_up_to
    then stopped above_address_cap
    else passed tt

abbrev pub check_node : Outside → Sweep → Environment → Check (Unit {0})
check_node o e v =
    if str_eq e.solana_url ""
    then stopped no_solana_url
    else if o.chain == chain_id v
    then passed tt
    else stopped wrong_chain

abbrev pub as_targets : Environment → List (String × String) → List Target
as_targets v = map (λ d. record { environment = v; path = d.0; address = d.1 })

abbrev pub counted : ℕ → Environment → Result (List (String × String)) → Check (List Target)
counted n v (err f) = stopped (not_derived f)
counted n v (ok ds) = if length ds == n then passed (as_targets v ds) else stopped miscounted

unfoldable pub derive_targets : Outside → Sweep → String → List Environment → Check (List Target)
unfolding derive_worker_addresses
derive_targets o e requester [] = passed []
derive_targets o e requester (v ∷ vs) = do
  own ← counted e.worker_count v (
      derive_worker_addresses (o.network v) requester
        (build_paths o.show e.path_prefix e.worker_count))
  rest ← derive_targets o e requester vs
  passed (own ++ rest)

abbrev pub pairs_of : Environment → List Target → List (String × String)
pairs_of v targets =
    map (λ t. (t.path, t.address))
      (keep (λ t. str_eq (environment_name t.environment) (environment_name v)) targets)

-- `crossCheck`, by its differences.
abbrev pub compared : Environment → List Difference → Check (Unit {0})
compared v [] = passed tt
compared v (d ∷ ds) = stopped (drifted v (d ∷ ds))

abbrev pub cross_check : Outside → String → List Target → Environment → Check (Unit {0})
cross_check o url targets v = elim (o.service url v) [
  | silent ↦ passed tt
  | reports ws ↦ compared v (differences o.lower (pairs_of v targets) ws)
]

abbrev pub cross_checks : Outside → String → List Target → List Environment → Check (Unit {0})
cross_checks o url targets [] = passed tt
cross_checks o url targets (v ∷ vs) = do
  done ← cross_check o url targets v
  cross_checks o url targets vs

abbrev pub compare_services :
    Outside → Sweep → String → List Target → List Environment → Check (Unit {0})
compare_services o e url targets vs =
    let checks = cross_checks o url targets vs in
    if not (str_eq url "") && not (str_eq e.api_secret "") then checks else passed tt

abbrev pub with_key : Sweep → Check (Unit {0})
with_key e = if str_eq e.funding_key "" then stopped no_funding_key else passed tt

-- `privateKeyToAccount(withHexPrefix(fundingKey))`
abbrev pub with_account : Outside → Sweep → Check (Unit {0})
with_account o e =
    if o.is_private_key (with_hex_prefix e.funding_key) then passed tt else stopped bad_funding_key

-- The environments, the requester and the targets of a run that nothing stops, and its decision.
pub record Swept : Type 0 where
  pub swept : List Environment
  pub requester : String
  pub targets : List (Target × ℕ)
  pub decision : Decision

unfoldable pub sweep : Outside → Sweep → List String → Check Swept
unfolding environments one_chain requester_of derive_targets decide_plan plan with_hex_prefix
sweep o e argv = do
  vs ← environments (asked o argv)
  keyed ← with_key e
  first ← one_chain e vs
  requester ← requester_of o e
  banded ← check_band e.limits
  node ← check_node o e first
  targets ← derive_targets o e requester vs
  agrees ← compare_services o e (or_default (argument "--url" argv) e.service_url) targets vs
  account ← with_account o e
  let priced = map (λ (t : Target). (t, o.balance t.address)) targets
  passed (record {
    swept = vs;
    requester = requester;
    targets = priced;
    decision = decide_plan e.limits e.dry_run o.max_fee o.source (plan e.limits.top_up_to priced);
  })

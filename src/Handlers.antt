-- ===== src/Handlers.antt =====
-- src/handlers/index.ts, ethereum.ts and solana.ts with src/utils/initEvm.ts, initSolana.ts and
-- evmTransactions.ts: the registry of chains and the two ping handlers. The contracts, the nodes and
-- the wallets are viem's, web3.js's and signet.js's: what they answer is an argument.
pub mod Laws
pub mod Shared
mod Tests
use contract_pinger.Common.{
  ℕ, zero, suc, ◌+◌, ◌*◌, ◌/◌, Bool, true, false, not, ◌&&◌, ◌||◌, List, [], ◌∷◌, ◌++◌, map, Option,
  none, some, String, str_eq, if◌then◌else◌,
}
use contract_pinger.BidirectionalTx.{
  Environment, chain_id, rpc_url, dev, testnet, mainnet, with_hex_prefix,
}
use contract_pinger.Env.{evm_sk}

pub data Chain : Type 0 where
  ethereum solana : Chain

-- `register`: an own property of `_handlers`, whose first registration fixes its place.
abbrev pub register : String → Chain → List (String × Chain) → List (String × Chain)
register name handler [] = (name, handler) ∷ []
register name handler ((x, c) ∷ rest) =
    let others = register name handler rest in
    if str_eq x name then (x, handler) ∷ rest else (x, c) ∷ others

abbrev pub own_handler : String → List (String × Chain) → Option Chain
own_handler name [] = none
own_handler name ((x, c) ∷ rest) = if str_eq x name then some c else own_handler name rest

-- The registry of this module.
abbrev pub registry : List (String × Chain)
registry = register "Solana" solana (register "Ethereum" ethereum [])

abbrev pub supported_chains : List (String × Chain) → List String
supported_chains = map {A = String × Chain} (λ e. e.0)

-- What a read of `_handlers[chainName]` finds: an own property, or one that every object inherits
-- (`inherited` tells which names these are), or nothing.
pub data Found : Type 0 where
  own : Chain → Found
  foreign : Found
  absent : Found

unfoldable pub look_up : (String → Bool) → List (String × Chain) → String → Found
look_up inherited handlers name = elim (own_handler name handlers) [
  | some c ↦ own c
  | none ↦ if inherited name then foreign else absent
]

unfoldable pub supports : (String → Bool) → List (String × Chain) → String → Bool
unfolding look_up
supports inherited handlers name = elim (look_up inherited handlers name) [
  | own c ↦ true
  | foreign ↦ true
  | absent ↦ false
]

-- A failure of a handler; `thrown` carries a library's text and, if it has one, its `statusCode`.
pub data Failure : Type 0 where
  no_handler : Failure
  not_a_function : Failure
  ethereum_url_missing solana_url_missing : Environment → Failure
  ethereum_key_missing : Environment → Failure
  solana_key_missing : Failure
  checked_on_ethereum : Failure
  thrown : String → Option ℕ → Failure

-- The result of a call that may throw.
pub data Result {ℓ} (A : Type ℓ) : Type ℓ where
  ok : A → Result A
  err : Failure → Result A

infixl 5 ◌>>=◌
abbrev pub ◌>>=◌ {ℓ κ} : {A : Type ℓ} {B : Type κ} → Result A → (A → Result B) → Result B
ok a >>= f = f a
err e >>= f = err e

-- `env`, as far as the handlers read it; the keys of the five slots are read by `evm_sk`.
pub record Keys : Type 0 where
  pub sepolia_url : String
  pub mainnet_url : String
  pub slots : ℕ → Option String
  pub solana_dev_url : String
  pub solana_mainnet_url : String
  pub solana_key : String

-- What `initEthereum` builds its clients from.
pub record EvmClient : Type 0 where
  pub chain : ℕ
  pub url : String
  pub private_key : String

-- `initEthereum` reads one key, which moves the rotation on, before any of its tests.
unfoldable pub init_ethereum : Keys → ℕ → Environment → ℕ × Result EvmClient
unfolding evm_sk
init_ethereum e index environment =
    let (index', key) = evm_sk e.slots index in
    let url = rpc_url e.sepolia_url e.mainnet_url environment in
    (
      index',
      if str_eq url ""
          then err (ethereum_url_missing environment)
          else if str_eq key ""
          then err (ethereum_key_missing environment)
          else ok (record {
            chain = chain_id environment;
            url = url;
            private_key = with_hex_prefix key;
          }),
    )

-- The arguments of a ping's own transaction, from the node's fees and its pending count.
pub record TransactionArgs : Type 0 where
  pub max_fee_per_gas : ℕ
  pub max_priority_fee_per_gas : ℕ
  pub nonce : ℕ

-- The Ethereum node and contract of a client: fees, the count of transactions with those pending,
-- and the contract's call, which gives the text of its answer.
pub record Ethereum : Type 0 where
  pub fees : EvmClient → Result (ℕ × ℕ)
  pub pending_count : EvmClient → Result ℕ
  pub create_request : EvmClient → TransactionArgs → Result String

unfoldable pub custom_transaction_args : Ethereum → EvmClient → Result TransactionArgs
custom_transaction_args node client = do
  fees ← node.fees client
  nonce ← node.pending_count client
  ok (record {
    max_fee_per_gas = fees.0 * 12 / 10;
    max_priority_fee_per_gas = fees.1 * 12 / 10;
    nonce = nonce;
  })

unfoldable pub create_sign_request : Ethereum → EvmClient → Result String
unfolding custom_transaction_args
create_sign_request node client = do
  transaction ← custom_transaction_args node client
  node.create_request client transaction

-- `execute` of src/handlers/ethereum.ts, from the check on.
abbrev pub request_unchecked : Ethereum → Bool → EvmClient → Result String
request_unchecked node true client = err checked_on_ethereum
request_unchecked node false client = create_sign_request node client

unfoldable pub execute_ethereum : Keys → Ethereum → ℕ → Bool → Environment → ℕ × Result String
unfolding init_ethereum create_sign_request
execute_ethereum e node index check environment =
    let (index', client) = init_ethereum e index environment in
    (index', client >>= request_unchecked node check)

-- `resolveConfig` of src/utils/initSolana.ts: the URL and the key.
abbrev pub solana_url : Keys → Environment → String
solana_url e dev = e.solana_dev_url
solana_url e testnet = e.solana_dev_url
solana_url e mainnet = e.solana_mainnet_url

unfoldable pub resolve_config : Keys → Environment → Result (String × String)
resolve_config e environment =
    if str_eq (solana_url e environment) ""
    then err (solana_url_missing environment)
    else if str_eq e.solana_key ""
    then err solana_key_missing
    else ok (solana_url e environment, e.solana_key)

-- The contract on Solana: a signature that is waited for, or an instruction that is sent.
pub record Solana : Type 0 where
  pub sign : String × String → Result String
  pub sign_request : String × String → Result String

unfoldable pub execute_solana : Keys → Solana → Bool → Environment → Result String
unfolding resolve_config
execute_solana e contract check environment = do
  config ← resolve_config e environment
  if check then contract.sign config else contract.sign_request config

-- `getHandler(chain).execute(…)`: the rotation and the result.
unfoldable pub ping_handler :
    (String → Bool) → Keys → Ethereum → Solana → ℕ → String → Bool → Environment → ℕ × Result String
unfolding look_up execute_ethereum execute_solana
ping_handler inherited e node contract index name check environment =
    elim (look_up inherited registry name) [
      | own ethereum ↦ execute_ethereum e node index check environment
      | own solana ↦ (index, execute_solana e contract check environment)
      | foreign ↦ (index, err not_a_function)
      | absent ↦ (index, err no_handler)
    ]

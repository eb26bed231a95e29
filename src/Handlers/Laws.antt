-- ===== src/Handlers/Laws.antt =====
-- What a ping asks of the chains.
use contract_pinger.Common.{
  ℕ, ◌+◌, ◌/◌, if◌then◌else◌, ◌*◌, ◌≤◌, ◌<◌, ◌≡◌, refl, Bool, true, false, none, String, str_eq,
  arith,
}
use contract_pinger.BidirectionalTx.{Environment, dev, testnet, mainnet, with_hex_prefix}
use contract_pinger.Env.{evm_sk}
use contract_pinger.Handlers.{
  ethereum_url_missing, ethereum_key_missing, Result, registry, own_handler, look_up, supports, ok,
  err, Keys, EvmClient, init_ethereum, TransactionArgs, Ethereum, custom_transaction_args, Solana,
  ping_handler, not_a_function, create_sign_request, execute_ethereum,
}

-- The fees of a ping's transaction are those of the node and a fifth on top, rounded down, and its
-- nonce is the one after every pending transaction of the key.
pub raised_fees :
    (node : Ethereum) (client : EvmClient) (args : TransactionArgs) (fee priority : ℕ)
    → node.fees client ≡ ok (fee, priority)
    → custom_transaction_args node client ≡ ok args
    → (args.max_fee_per_gas * 10 ≤ fee * 12)
      × (fee * 12 < args.max_fee_per_gas * 10 + 10)
      × (args.max_priority_fee_per_gas * 10 ≤ priority * 12)
      × (priority * 12 < args.max_priority_fee_per_gas * 10 + 10)
      × (node.pending_count client ≡ ok args.nonce)
unfolding custom_transaction_args
raised_fees node client args fee priority f e =
    (ground arith, ground arith, ground arith, ground arith, ground arith)

-- The client of an environment and a key: mainnet's chain is 1, the others' is Sepolia.
abbrev pub own_client : Keys → Environment → String → EvmClient
own_client e mainnet key = record {
  chain = 1;
  url = e.mainnet_url;
  private_key = with_hex_prefix key;
}
own_client e testnet key = record {
  chain = 11155111;
  url = e.sepolia_url;
  private_key = with_hex_prefix key;
}
own_client e dev key = record {
  chain = 11155111;
  url = e.sepolia_url;
  private_key = with_hex_prefix key;
}

-- What a ping that succeeds sent: the node's fees with a fifth on top, rounded down, and the nonce
-- behind every pending transaction of the key.
pub record Sent (node : Ethereum) (client : EvmClient) (answer : String) : Type 0 where
  pub fee : ℕ
  pub priority : ℕ
  pub nonce : ℕ
  pub fees : node.fees client ≡ ok (fee, priority)
  pub counted : node.pending_count client ≡ ok nonce
  pub requested :
      node.create_request client (record {
        max_fee_per_gas = fee * 12 / 10;
        max_priority_fee_per_gas = priority * 12 / 10;
        nonce = nonce;
      })
      ≡ ok answer

abbrev pub Succeeds : Keys → Ethereum → Bool → Environment → String → String → Type 0
Succeeds e node check environment key answer =
    (check ≡ false)
    × (str_eq (own_client e environment key).url "" ≡ false)
    × (str_eq key "" ≡ false)
    × Sent node (own_client e environment key) answer

fees-Sent :
    (node : Ethereum) (client : EvmClient) (answer : String) (f : Result (ℕ × ℕ)) (c : Result ℕ)
    → node.fees client ≡ f
    → node.pending_count client ≡ c
    → create_sign_request node client ≡ ok answer
    → Sent node client answer
unfolding create_sign_request custom_transaction_args
fees-Sent node client answer (ok (fee, priority)) (ok nonce) h k e = record {
  fee = fee;
  priority = priority;
  nonce = nonce;
  fees = h;
  counted = k;
  requested = ground arith;
}
fees-Sent node client answer (ok (fee, priority)) (err x) h k e = absurd (ground arith)
fees-Sent node client answer (err x) c h k e = absurd (ground arith)

Sent-create :
    (node : Ethereum) (client : EvmClient) (answer : String)
    → Sent node client answer
    → create_sign_request node client ≡ ok answer
unfolding create_sign_request custom_transaction_args
Sent-create node client answer s = ground (arith, s.fees, s.counted, s.requested)

executed :
    (e : Keys) (node : Ethereum) (index : ℕ) (environment : Environment)
    → let slot = evm_sk e.slots index in
      let client = own_client e environment slot.1 in
      (execute_ethereum e node index false environment).1 ≡ (
        if str_eq client.url ""
        then err (ethereum_url_missing environment)
        else if str_eq slot.1 ""
        then err (ethereum_key_missing environment)
        else create_sign_request node client)
unfolding execute_ethereum init_ethereum
executed e node index dev = ground arith
executed e node index testnet = ground arith
executed e node index mainnet = ground arith

-- A ping of Ethereum moves the rotation of the keys by one whatever comes of it. It succeeds exactly
-- without a check and where the environment has a URL, the slot a key, the node its fees and the
-- key's pending count, and the contract on the environment's chain answers for that key to the call
-- with those fees, a fifth on top and rounded down, and that count as nonce; then its answer is that
-- of the contract.
pub ethereum_ping :
    (e : Keys) (node : Ethereum) (index : ℕ) (check : Bool) (environment : Environment)
    (answer : String)
    → let slot = evm_sk e.slots index in
      let x = execute_ethereum e node index check environment in
      (x.0 ≡ slot.0)
      × (x.1 ≡ ok answer → Succeeds e node check environment slot.1 answer)
      × (Succeeds e node check environment slot.1 answer → x.1 ≡ ok answer)
unfolding execute_ethereum init_ethereum
ethereum_ping e node index true environment answer =
    (refl, λ h. absurd (ground arith), λ h. absurd (ground (arith, h.0)))
ethereum_ping e node index false environment answer =
    let slot = evm_sk e.slots index in
    let client = own_client e environment slot.1 in
    let is = executed e node index environment in
    (
      refl,
      λ h.
          let called : create_sign_request node client ≡ ok answer = ground (arith, is) in
          (
            refl,
            ground (arith, is),
            ground (arith, is),
            fees-Sent node client answer (node.fees client) (node.pending_count client) refl refl
                called,
          ),
      λ h. ground (arith, is, h.1, h.2, Sent-create node client answer h.3),
    )

-- A name that every object inherits, such as "constructor", counts as supported though it is not
-- registered, and its ping fails as a call of what is no function.
pub inherited_ping :
    (inherited : String → Bool) (e : Keys) (node : Ethereum) (contract : Solana) (index : ℕ)
    (name : String) (check : Bool) (environment : Environment)
    → inherited name ≡ true
    → own_handler name registry ≡ none
    → (supports inherited registry name ≡ true)
      × (ping_handler inherited e node contract index name check environment
          ≡ (index, err not_a_function))
unfolding supports ping_handler look_up
inherited_ping inherited e node contract index name check environment i o =
    (ground arith, ground arith)

-- ===== src/BidirectionalTx.antt =====
-- src/utils/bidirectionalTx.ts: the transactions of a round trip. The node's answers, ABI and RLP
-- encoding, and the recovery of a signer are viem's and signet.js's: they are arguments.
pub mod Laws
mod Tests
use Prim.Native.Char.{Char, code}
use contract_pinger.Common.{
  ℕ, ◌+◌, ◌-◌, ◌*◌, ◌/◌, Bool, true, false, ◌&&◌, Option, none, some, String, ltb, ◌==◌, str_eq,
  if◌then◌else◌,
}

-- `TX_MODES`, by the source's strings.
pub data TxMode : Type 0 where
  eth_self_transfer erc20_zero_transfer : TxMode

-- `isTxMode` on a string, with the mode that it stands for.
unfoldable pub tx_mode_of : String → Option TxMode
tx_mode_of value =
    if str_eq value "eth_self_transfer"
    then some eth_self_transfer
    else if str_eq value "erc20_zero_transfer"
    then some erc20_zero_transfer
    else none

pub data Environment : Type 0 where
  dev testnet mainnet : Environment

abbrev pub sepolia_chain_id : ℕ
sepolia_chain_id = 11155111

abbrev pub mainnet_chain_id : ℕ
mainnet_chain_id = 1

-- `ETHEREUM_TARGETS[environment].chainId` and `.erc20`.
abbrev pub chain_id : Environment → ℕ
chain_id dev = sepolia_chain_id
chain_id testnet = sepolia_chain_id
chain_id mainnet = mainnet_chain_id

abbrev pub target_erc20 : Environment → String
target_erc20 dev = "0x1c7D4B196Cb0C7B01d743Fbc6116a902379C7238"
target_erc20 testnet = "0x1c7D4B196Cb0C7B01d743Fbc6116a902379C7238"
target_erc20 mainnet = "0xA0b86991c6218b36c1d19D4a2e9Eb0cE3606eB48"

-- `ETHEREUM_TARGETS[environment].rpcUrl()`, from the two configured URLs, `''` if unset.
abbrev pub rpc_url : String → String → Environment → String
rpc_url sepolia_url mainnet_url dev = sepolia_url
rpc_url sepolia_url mainnet_url testnet = sepolia_url
rpc_url sepolia_url mainnet_url mainnet = mainnet_url

abbrev pub expected_serialized_output : String
expected_serialized_output = "0x01"

-- `value.startsWith('0x')`
unfoldable pub is_prefixed : String → Bool
is_prefixed String.[] = false
is_prefixed (String.◌∷◌ c String.[]) = false
is_prefixed (String.◌∷◌ c (String.◌∷◌ d s)) = code c == b'0' && code d == b'x'

abbrev pub cut_prefix : String → String
cut_prefix String.[] = String.[]
cut_prefix (String.◌∷◌ c String.[]) = String.◌∷◌ c String.[]
cut_prefix (String.◌∷◌ c (String.◌∷◌ d s)) = s

unfoldable pub with_hex_prefix : String → String
unfolding is_prefixed
with_hex_prefix value = if is_prefixed value then value else String.◌∷◌ "0" (String.◌∷◌ "x" value)

-- `value.replace(/^0x/, '')`
unfoldable pub without_hex_prefix : String → String
unfolding is_prefixed
without_hex_prefix value = if is_prefixed value then cut_prefix value else value

pub record Unsigned : Type 0 where
  pub chain : ℕ
  pub nonce : ℕ
  pub to : String
  pub value : ℕ
  pub gas : ℕ
  pub max_fee_per_gas : ℕ
  pub max_priority_fee_per_gas : ℕ
  pub data_of_call : Option String

pub record BuiltTransaction : Type 0 where
  pub unsigned : Unsigned
  pub rlp_encoded : String
  pub nonce : ℕ
  pub gas_cost_wei : ℕ
  pub output_deserialization_schema : String
  pub respond_serialization_schema : String

-- What the node answers to `buildTransaction`: an answer of `none` is a call that fails.
pub record NodeAnswers : Type 0 where
  pub latest_nonce : Option ℕ
  pub max_fee_per_gas : Option ℕ
  pub max_priority_fee_per_gas : ℕ
  pub gas_estimate : Option ℕ

abbrev pub gas_buffer_percent : ℕ
gas_buffer_percent = 20

abbrev pub is_erc20 : TxMode → Bool
is_erc20 eth_self_transfer = false
is_erc20 erc20_zero_transfer = true

infixl 5 ◌>>=◌
abbrev pub ◌>>=◌ {ℓ κ} : {A : Type ℓ} {B : Type κ} → Option A → (A → Option B) → Option B
none >>= f = none
some a >>= f = f a

-- `encodeFunctionData` for `transfer(to, amount)`, and `serializeTransaction`.
module _ (encode_transfer : String → ℕ → String) (serialize : Unsigned → String) where
  unfoldable pub build_transaction :
      NodeAnswers → Environment → TxMode → String → String → Option BuiltTransaction
  build_transaction node environment mode from erc20_address = do
    nonce ← node.latest_nonce
    max_fee ← node.max_fee_per_gas
    gas_estimate ← node.gas_estimate
    let gas = gas_estimate * (100 + gas_buffer_percent) / 100
    let unsigned : Unsigned = record {
      chain = chain_id environment;
      nonce = nonce;
      to = if is_erc20 mode then erc20_address else from;
      value = 0;
      gas = gas;
      max_fee_per_gas = max_fee;
      max_priority_fee_per_gas = node.max_priority_fee_per_gas;
      data_of_call = if is_erc20 mode then some (encode_transfer from 0) else none;
    }
    some (record {
      unsigned = unsigned;
      rlp_encoded = serialize unsigned;
      nonce = nonce;
      gas_cost_wei = gas * max_fee;
      output_deserialization_schema =
          if is_erc20 mode then "[{\"name\":\"\",\"type\":\"bool\"}]" else "";
      respond_serialization_schema = "\"bool\"";
    })

pub record RsvSignature : Type 0 where
  pub r : String
  pub s : String
  pub v : ℕ

-- The signature as signet.js takes it.
abbrev pub normalize : RsvSignature → RsvSignature
normalize sig = record {
  r = without_hex_prefix sig.r;
  s = without_hex_prefix sig.s;
  v = if ltb sig.v 27 then sig.v + 27 else sig.v;
}

-- `finalizeTransactionSigning` of signet.js, and viem's `recoverAddress` of the hash of the bytes.
module _ (finalize : Unsigned → RsvSignature → String)
    (recover : Unsigned → String → String → ℕ → String) where
  unfoldable pub attach_signature : Unsigned → RsvSignature → String × String
  attach_signature unsigned signature =
      let rsv = normalize signature in
      (
        finalize unsigned rsv,
        recover unsigned (with_hex_prefix rsv.r) (with_hex_prefix rsv.s) (rsv.v - 27),
      )

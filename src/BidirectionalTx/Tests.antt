-- ===== src/BidirectionalTx/Tests.antt =====
-- Transactions built and signed, and the theorems at concrete ones.
use contract_pinger.Common.{ℕ, ◌≡◌, refl, some, String, arith}
use contract_pinger.BidirectionalTx.{
  testnet, erc20_zero_transfer, target_erc20, with_hex_prefix, without_hex_prefix, is_prefixed,
  Unsigned, BuiltTransaction, NodeAnswers, build_transaction, RsvSignature, attach_signature,
}
use contract_pinger.BidirectionalTx.Laws.{attach_equivalent, IsSound, build-IsSound}

tx_code : Unit {0}
unfolding is_prefixed with_hex_prefix without_hex_prefix build_transaction attach_signature
tx_code = tt

with_prefix : with_hex_prefix "ab" ≡ "0xab"
unfolding tx_code
with_prefix = refl

without_prefix : without_hex_prefix "0x0xab" ≡ "0xab"
unfolding tx_code
without_prefix = refl

abbrev node : NodeAnswers
node = record {
  latest_nonce = some 4;
  max_fee_per_gas = some 30;
  max_priority_fee_per_gas = 2;
  gas_estimate = some 21001;
}

abbrev token_call : String → ℕ → String
token_call to amount = to

abbrev first_bytes : Unsigned → String
first_bytes u = u.to

abbrev token_unsigned : Unsigned
token_unsigned = record {
  chain = 11155111;
  nonce = 4;
  to = target_erc20 testnet;
  value = 0;
  gas = 25201;
  max_fee_per_gas = 30;
  max_priority_fee_per_gas = 2;
  data_of_call = some "0xabc";
}

abbrev token_built : BuiltTransaction
token_built = record {
  unsigned = token_unsigned;
  rlp_encoded = target_erc20 testnet;
  nonce = 4;
  gas_cost_wei = 756030;
  output_deserialization_schema = "[{\"name\":\"\",\"type\":\"bool\"}]";
  respond_serialization_schema = "\"bool\"";
}

build-token :
    build_transaction token_call first_bytes node testnet erc20_zero_transfer "0xabc"
      (target_erc20 testnet)
    ≡ some token_built
unfolding tx_code
build-token = refl

build-IsSound_example :
    (t : BuiltTransaction) × (build_transaction token_call first_bytes node testnet
        erc20_zero_transfer "0xabc"
        (target_erc20 testnet)
      ≡ some t)
    × IsSound token_call first_bytes testnet erc20_zero_transfer "0xabc"
        (target_erc20 testnet)
        4
        21001
        30
        2
        t
build-IsSound_example =
    build-IsSound token_call first_bytes node testnet erc20_zero_transfer "0xabc"
      (target_erc20 testnet) 4 21001 30 refl refl refl

abbrev finalized : Unsigned → RsvSignature → String
finalized u sig = sig.s

abbrev recovered : Unsigned → String → String → ℕ → String
recovered u r s v = r

attach_equivalent_example :
    let short : RsvSignature = record { r = "1f"; s = "0x2e"; v = 1 } in
    let long : RsvSignature = record {
      r = with_hex_prefix "1f";
      s = with_hex_prefix "0x2e";
      v = 28;
    } in
    (attach_signature finalized recovered token_unsigned short
      ≡ attach_signature finalized recovered token_unsigned long)
    × ((attach_signature finalized recovered token_unsigned short).1
        ≡ recovered token_unsigned
            (with_hex_prefix (without_hex_prefix "1f"))
            (with_hex_prefix (without_hex_prefix "0x2e"))
            1)
attach_equivalent_example =
    attach_equivalent finalized recovered token_unsigned "1f" "0x2e" 1 (omega arith)

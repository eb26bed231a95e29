-- ===== src/Handlers/Tests.antt =====
-- Fees of a ping.
use contract_pinger.Common.{◌≡◌, refl}
use contract_pinger.Handlers.{EvmClient, Ethereum, ok, custom_transaction_args}

abbrev client : EvmClient
client = record { chain = 1; url = "http://node"; private_key = "0xkey" }

abbrev node : Ethereum
node = record {
  fees = λ c. ok (25, 1);
  pending_count = λ c. ok 7;
  create_request = λ c t. ok "sent";
}

raised :
    custom_transaction_args node client
    ≡ ok (record { max_fee_per_gas = 30; max_priority_fee_per_gas = 1; nonce = 7 })
unfolding custom_transaction_args
raised = refl

-- ===== src/Funding/Sweep/Tests.antt =====
-- Sweeps of one and of two environments.
use contract_pinger.Common.{
  none, str_eq, if◌then◌else◌, All, ◌≤◌, ◌≡◌, refl, true, false, List, [], ◌∷◌, ◌++◌, some, String,
}
use contract_pinger.BidirectionalTx.{testnet, with_hex_prefix, is_prefixed}
use contract_pinger.Handlers.{ok}
use contract_pinger.WorkerPool.{build_paths}
use contract_pinger.Service.Addresses.{Network, derive_worker_addresses}
use contract_pinger.Funding.Sweep.Flags.{Configured, Texts, limits_of, main}
use contract_pinger.Funding.{
  dry_run_only, limits, Limits, Planned, sends, plan, decide_plan, sizes_differ, differences,
}
use contract_pinger.Funding.Sweep.{
  bad_funding_key, malformed_amount, silent, several_chains, unknown_environment, requester_differs,
  drifted, passed, stopped, Sweep, reports, Outside, environments, one_chain, requester_of,
  derive_targets, Swept, sweep,
}
use contract_pinger.Funding.Sending.{mined, sweep_code}
use contract_pinger.Funding.Sending.Exits.{is_mined, sweep_exits}
use contract_pinger.Funding.Sweep.Twice.{SendsTwice, sweep_twice}
use contract_pinger.Funding.Sweep.Checked.{IsChecked, sweep-IsChecked}

checks_code : Unit {0}
unfolding main limits_of limits with_hex_prefix is_prefixed plan decide_plan differences
    environments one_chain requester_of derive_targets sweep derive_worker_addresses build_paths
checks_code = tt

abbrev network : Network
network = record {
  requester = ok "key";
  derive = λ key path version. ok "0xa";
  balance = λ a. ok 0;
  latest_count = λ a. ok 0;
  pending_count = λ a. ok 0;
}

abbrev outside : Outside
outside = record {
  trim = λ s. s;
  lower = λ s. s;
  show = λ n. "0";
  public_key = λ s. some "key";
  is_key = λ s. true;
  is_private_key = λ s. true;
  network = λ v. network;
  service = λ url v. reports (("load-0", "0xa") ∷ []);
  chain = 11155111;
  max_fee = 1;
  source = 30000;
  balance = λ a. 20;
}

abbrev band : Limits
band = record {
  min_balance = 10;
  top_up_to = 50;
  funded_at = 10;
  max_per_address = 100;
  max_per_run = 60;
  reserve = 5;
}

abbrev settings : Sweep
settings = record {
  funding_key = "0xkey";
  signing_key = "[1]";
  expected_requester = "key";
  sepolia_url = "http://node";
  mainnet_url = "http://main";
  solana_url = "http://solana";
  service_url = "http://service";
  api_secret = "secret";
  path_prefix = "load";
  worker_count = 1;
  limits = band;
  dry_run = false;
}

abbrev args : List String
args = "--env" ∷ "testnet" ∷ []

abbrev filled : List Planned
filled =
    record {
      target = record { environment = testnet; path = "load-0"; address = "0xa" };
      balance = 20;
      top = 30;
    }
    ∷ []

abbrev swept : Swept
swept = record {
  swept = testnet ∷ [];
  requester = "key";
  targets = (record { environment = testnet; path = "load-0"; address = "0xa" }, 20) ∷ [];
  decision = sends filled;
}

sweeps : sweep outside settings args ≡ passed swept
unfolding checks_code
sweeps = refl

two_chains : sweep outside settings ("--env" ∷ "testnet,mainnet" ∷ []) ≡ stopped several_chains
unfolding checks_code
two_chains = refl

misspelt : sweep outside settings ("--env" ∷ "test" ∷ []) ≡ stopped unknown_environment
unfolding checks_code
misspelt = refl

other_key :
    sweep outside (record settings { expected_requester = "other" }) args
    ≡ stopped requester_differs
unfolding checks_code
other_key = refl

drift :
    sweep (record outside { service = λ url v. reports [] }) settings args
    ≡ stopped (drifted testnet (sizes_differ 1 0 ∷ []))
unfolding checks_code
drift = refl

abbrev configured : Configured
configured = record {
  funding_key = "0xkey";
  signing_key = "[1]";
  expected_requester = "key";
  sepolia_url = "http://node";
  mainnet_url = "http://main";
  solana_url = "http://solana";
  service_url = "http://service";
  api_secret = "secret";
  path_prefix = "load";
  paths = "1";
  min_balance_wei = 10;
  top_up_eth = "fifty";
  max_per_address_eth = "hundred";
  max_per_run_eth = "sixty";
  reserve_eth = "five";
}

abbrev texts : Texts
texts = record {
  number = λ s. if str_eq s "1" then some 1 else none;
  parse_ether = λ s.
      if str_eq s "fifty"
      then some 50
      else if str_eq s "hundred"
      then some 100
      else if str_eq s "sixty"
      then some 60
      else if str_eq s "five"
      then some 5
      else none;
}

flags_read : main outside texts configured args ≡ passed swept
unfolding checks_code
flags_read = refl

dry_run_flag :
    main outside texts configured ("--dry-run" ∷ args)
    ≡ passed (record swept { decision = dry_run_only })
unfolding checks_code
dry_run_flag = refl

bad_amount : main outside texts configured ("--topup" ∷ "lots" ∷ args) ≡ stopped malformed_amount
unfolding checks_code
bad_amount = refl

bad_key :
    sweep (record outside { is_private_key = λ s. false }) settings args ≡ stopped bad_funding_key
unfolding checks_code
bad_key = refl

-- One address, named twice.
abbrev twice : Swept
twice = record {
  swept = testnet ∷ testnet ∷ [];
  requester = "key";
  targets =
      (record { environment = testnet; path = "load-0"; address = "0xa" }, 20)
      ∷ (record { environment = testnet; path = "load-0"; address = "0xa" }, 20)
      ∷ [];
  decision = sends (filled ++ filled);
}

abbrev lone : Outside
lone = record outside { service = λ url v. silent; source = 90000 }

sweeps_twice : sweep lone settings ("--env" ∷ "testnet,testnet" ∷ []) ≡ passed twice
unfolding checks_code
sweeps_twice = refl

sweep_twice_example : SendsTwice lone settings testnet "key" (filled ++ filled)
sweep_twice_example =
    sweep_twice lone settings testnet ("--env" ∷ "testnet,testnet" ∷ []) twice (filled ++ filled)
      (unfold checks_code in refl) sweeps_twice refl

sweep-IsChecked_example : IsChecked outside settings "http://service" swept filled
sweep-IsChecked_example = sweep-IsChecked outside settings args swept filled sweeps refl

sweep_exits_example :
    (sweep_code (λ w. mined true) 6000 (λ a. 50) settings (passed swept) ≡ 0
      → All (λ w. is_mined (mined true) ≡ true) filled
        × (5 ≤ 6000)
        × All (λ w. 10 ≤ 50) swept.targets)
    × (All (λ w. is_mined (mined true) ≡ true) filled
          × (5 ≤ 6000)
          × All (λ w. 10 ≤ 50) swept.targets
        → sweep_code (λ w. mined true) 6000 (λ a. 50) settings (passed swept) ≡ 0)
sweep_exits_example = sweep_exits (λ w. mined true) 6000 (λ a. 50) settings swept filled refl

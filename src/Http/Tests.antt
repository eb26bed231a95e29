-- ===== src/Http/Tests.antt =====
-- Requests, and the theorems at concrete ones.
use contract_pinger.Common.{
  Option, false, arith, tally, ◌==◌, str_eq, if◌then◌else◌, ℕ, ◌≡◌, ◌↔◌, refl, true, false, ◌&&◌,
  [], ◌∷◌, none, some, String,
}
use contract_pinger.BidirectionalTx.{
  with_hex_prefix, is_prefixed, tx_mode_of, dev, eth_self_transfer,
}
use contract_pinger.RateLimiter
use contract_pinger.RateLimiter.{try_acquire, expire}
use contract_pinger.WorkerPool
use contract_pinger.JobStore.{new_job, Ceiling, at_capacity, active_count, awaiting_respond_count}
use contract_pinger.JobStore
use contract_pinger.Service.{Config, Service, environment_name, new_service}
use contract_pinger.Env.{evm_sk}
use contract_pinger.Handlers.{
  Keys, Ethereum, Solana, ok, err, thrown, not_a_function, look_up, supports, ping_handler,
  init_ethereum, custom_transaction_args, create_sign_request, execute_ethereum, execute_solana,
  resolve_config,
}
use contract_pinger.Handlers.Laws.{Succeeds, ethereum_ping}
use contract_pinger.Http.Ping.{Script, post_ping, answer_ping, pinged, ping_failed, ping_status}
use contract_pinger.Http.Ping.Laws.{
  post_ping_invalid, has_called, is_valid_ping, pinged_slots, pings_rotate,
}
use contract_pinger.Http.Lookup.{accepted_is_found}
use contract_pinger.Http.{
  Value, get_job, truth, resolved, undefined, text, another, Settings, requested_mode, resolve,
  get_service, arrive, offer, post_sign, status, validate_secret,
}
use contract_pinger.Http.Laws.{offer_outcome, has_mode, has_environment, post_sign_invalid}

http_code : Unit {0}
unfolding is_prefixed with_hex_prefix evm_sk look_up supports ping_handler init_ethereum
    custom_transaction_args create_sign_request execute_ethereum execute_solana resolve_config
    post_ping tx_mode_of try_acquire expire at_capacity JobStore.create JobStore.find active_count
    awaiting_respond_count new_service WorkerPool.create WorkerPool.build_paths RateLimiter.create
    requested_mode resolve get_service offer post_sign validate_secret arrive
http_code = tt

abbrev config : Config
config = record {
  path_prefix = "load";
  paths = 2;
  max_active_jobs = 1;
  max_jobs = 2;
  retained_jobs = 10;
  max_requests_per_minute = 2;
  min_balance_wei = 100;
}

abbrev settings : Settings
settings = record {
  api_secret = "key";
  config = config;
  default_mode = "eth_self_transfer";
  sepolia_url = "http://node";
  mainnet_url = "";
}

abbrev no_text : ℕ → String
no_text n = ""

abbrev dev_service : Service
dev_service = new_service no_text config dev

accepts : status (post_sign no_text settings [] (text "dev") undefined "a" 5).1 ≡ 202
unfolding http_code
accepts = refl

-- No mainnet URL is configured.
rejects : status (post_sign no_text settings [] (text "mainnet") undefined "a" 5).1 ≡ 400
unfolding http_code
rejects = refl

health_check : validate_secret settings "GET" "/" undefined undefined ≡ true
unfolding http_code
health_check = refl

mode_is : requested_mode settings undefined ≡ some eth_self_transfer
unfolding http_code
mode_is = refl

resolved_is : resolve settings (text "dev") ≡ resolved dev
unfolding http_code
resolved_is = refl

offer_outcome_example :
    let x = offer config dev_service "a" eth_self_transfer 5 in
    ((status x.1 ≡ 202)
      ↔ ((at_capacity dev_service.jobs ≡ none) × ((try_acquire dev_service.limiter 5).1 ≡ true)))
    × ((c : Ceiling) → at_capacity dev_service.jobs ≡ some c → x.0 ≡ dev_service)
    × (status x.1 ≡ 429 → x.0.jobs ≡ dev_service.jobs)
    × (status x.1 ≡ 202
        → (x.0.jobs
            ≡ JobStore.create dev_service.jobs "a"
                (environment_name dev_service.environment)
                eth_self_transfer
                5)
          × (x.0.limiter ≡ (try_acquire dev_service.limiter 5).0))
offer_outcome_example = offer_outcome config dev_service "a" eth_self_transfer 5

post_sign_invalid_example :
    let x = post_sign no_text settings (dev_service ∷ []) (text "mainnet") (another true) "a" 5 in
    ((status x.1 ≡ 400)
      ↔ ((has_mode settings (another true) && has_environment settings (text "mainnet")) ≡ false))
    × (status x.1 ≡ 400 → x.0 ≡ dev_service ∷ [])
post_sign_invalid_example =
    post_sign_invalid no_text settings (dev_service ∷ []) (text "mainnet") (another true) "a" 5

accepted_is_found_example :
    get_job (post_sign no_text settings [] (text "dev") undefined "a" 5).0 "a"
    ≡ some (new_job "a" "dev" eth_self_transfer 5, [])
accepted_is_found_example =
    accepted_is_found no_text settings [] (text "dev") undefined "a" 5 dev eth_self_transfer mode_is
      resolved_is tt accepts

-- Pings: one key, in slot 3.
abbrev keys : Keys
keys = record {
  sepolia_url = "http://node";
  mainnet_url = "";
  slots = λ n. if n == 3 then some "0xkey" else none;
  solana_dev_url = "";
  solana_mainnet_url = "";
  solana_key = "";
}

abbrev evm_node : Ethereum
evm_node = record {
  fees = λ c. ok (25, 1);
  pending_count = λ c. ok 7;
  create_request = λ c t. ok "sent";
}

abbrev no_contract : Solana
no_contract = record {
  sign = λ c. err (thrown "none" none);
  sign_request = λ c. err (thrown "none" none);
}

abbrev script : Script
script = record { inherited = λ n. str_eq n "constructor"; text_of = λ v. ""; lower = λ s. s }

-- The third of the five finds a key.
third_ping :
    post_ping script keys evm_node no_contract 2 (text "Ethereum") (truth false) (text "dev")
    ≡ (3, pinged "sent")
unfolding http_code
third_ping = refl

-- "constructor" is taken for a chain.
constructor_ping :
    post_ping script keys evm_node no_contract 2 (text "constructor") (truth false) (text "dev")
    ≡ (2, ping_failed 500 not_a_function)
unfolding http_code
constructor_ping = refl

ethereum_ping_example :
    let slot = evm_sk keys.slots 2 in
    let x = execute_ethereum keys evm_node 2 false dev in
    (x.0 ≡ slot.0)
    × (x.1 ≡ ok "sent" → Succeeds keys evm_node false dev slot.1 "sent")
    × (Succeeds keys evm_node false dev slot.1 "sent" → x.1 ≡ ok "sent")
ethereum_ping_example = ethereum_ping keys evm_node 2 false dev "sent"

abbrev bitcoin_ping : Option (Value × Value × Value)
bitcoin_ping = some (text "Bitcoin", truth false, text "dev")

post_ping_invalid_example :
    let x = answer_ping script keys evm_node no_contract 2 bitcoin_ping in
    (has_called x.1 ≡ is_valid_ping script bitcoin_ping)
    × (is_valid_ping script bitcoin_ping ≡ false → (x.0 ≡ 2) × (ping_status x.1 ≡ 400))
post_ping_invalid_example = post_ping_invalid script keys evm_node no_contract 2 bitcoin_ping

pings_rotate_example :
    tally (λ x. x == 4) (pinged_slots script keys evm_node no_contract true (text "dev") 5 2) ≡ 1
pings_rotate_example =
    pings_rotate script keys evm_node no_contract true (text "dev") dev 2 4 refl (omega arith)
      (omega arith) (omega arith)

-- ===== src/Http/Ping.antt =====
-- `POST /ping` and `POST /eth_balance` of src/index.ts.
pub mod Laws
use Prim.Native.Char.{Char, code}
use contract_pinger.Common.{
  ℕ, zero, suc, Bool, true, false, not, ◌&&◌, ◌||◌, List, [], ◌∷◌, Option, none, some, String, leb,
  ◌==◌, str_eq, if◌then◌else◌,
}
use contract_pinger.BidirectionalTx.{Environment, chain_id, mainnet, dev, is_prefixed, cut_prefix}
use contract_pinger.Handlers.{
  registry, supported_chains, supports, Failure, thrown, Result, ok, err, Keys, Ethereum, Solana,
  ping_handler,
}
use contract_pinger.Http.{Value, undefined, null, text, truth, another, is_truthy, environment_of}

-- What JavaScript and its objects do: the names that every object inherits, the text of a value that
-- is no string, and `toLowerCase`.
pub record Script : Type 0 where
  pub inherited : String → Bool
  pub text_of : Value → String
  pub lower : String → String

abbrev pub key_of : Script → Value → String
key_of js (text s) = s
key_of js v = js.text_of v

pub data PingResponse : Type 0 where
  no_body missing_chain unsupported_chain missing_check check_not_boolean invalid_environment :
      PingResponse
  pinged : String → PingResponse
  ping_failed : ℕ → Failure → PingResponse

abbrev pub ping_status : PingResponse → ℕ
ping_status (pinged answer) = 200
ping_status no_body = 500
ping_status (ping_failed code e) = code
ping_status _ = 400

-- The `catch` of the endpoint: the error's own `statusCode`, if it has one.
abbrev pub status_of : Failure → ℕ
status_of (thrown message (some code)) = code
status_of _ = 500

abbrev pub ping_reply : Result String → PingResponse
ping_reply (ok answer) = pinged answer
ping_reply (err e) = ping_failed (status_of e) e

-- The checks from `check` on.
abbrev pub ping_checked :
    Script → Keys → Ethereum → Solana → ℕ → String → Value → Value → ℕ × PingResponse
ping_checked js e node contract index name undefined network = (index, missing_check)
ping_checked js e node contract index name (truth check) network = elim (environment_of network) [
  | none ↦ (index, invalid_environment)
  | some environment ↦
      let (index', result) =
        ping_handler js.inherited e node contract index name check environment in
      (index', ping_reply result)
]
ping_checked js e node contract index name _ network = (index, check_not_boolean)

unfoldable pub post_ping :
    Script → Keys → Ethereum → Solana → ℕ → Value → Value → Value → ℕ × PingResponse
unfolding supports ping_handler
post_ping js e node contract index chain check network =
    if not (is_truthy chain)
    then (index, missing_chain)
    else if not (supports js.inherited registry (key_of js chain))
    then (index, unsupported_chain)
    else ping_checked js e node contract index (key_of js chain) check network

-- `req.body` is undefined where no body was parsed, and then the reading of its fields throws.
unfoldable pub answer_ping :
    Script → Keys → Ethereum → Solana → ℕ → Option (Value × Value × Value) → ℕ × PingResponse
unfolding post_ping
answer_ping js e node contract index none = (index, no_body)
answer_ping js e node contract index (some (chain, check, network)) =
    post_ping js e node contract index chain check network

-- `/^0x[a-fA-F0-9]{40}$/`
abbrev pub is_hex : Char → Bool
is_hex c =
    leb b'0' (code c) && leb (code c) b'9'
    || (leb b'a' (code c) && leb (code c) b'f' || (leb b'A' (code c) && leb (code c) b'F'))

abbrev pub hex_digits : ℕ → String → Bool
hex_digits zero String.[] = true
hex_digits zero (String.◌∷◌ c s) = false
hex_digits (suc n) String.[] = false
hex_digits (suc n) (String.◌∷◌ c s) = is_hex c && hex_digits n s

unfoldable pub is_address : String → Bool
unfolding is_prefixed
is_address s = is_prefixed s && hex_digits 40 (cut_prefix s)

pub data BalanceResponse : Type 0 where
  missing_address invalid_address url_missing : BalanceResponse
  balance_read : ℕ → BalanceResponse
  balance_failed : String → BalanceResponse

abbrev pub balance_status : BalanceResponse → ℕ
balance_status missing_address = 400
balance_status invalid_address = 400
balance_status url_missing = 500
balance_status (balance_read b) = 200
balance_status (balance_failed message) = 500

-- The environment of the request: `none` where `toLowerCase` is no method of the value.
abbrev pub lower_network : Script → Value → Option String
lower_network js undefined = some ""
lower_network js null = some ""
lower_network js (text s) = some (js.lower s)
lower_network js _ = none

-- The node of a chain, by its URL: the balance of an address, or the text of its error.
pub data NodeReply : Type 0 where
  has_balance : ℕ → NodeReply
  node_error : String → NodeReply

abbrev pub balance_reply : NodeReply → BalanceResponse
balance_reply (has_balance b) = balance_read b
balance_reply (node_error m) = balance_failed m

abbrev pub read_balance : Keys → (ℕ → String → String → NodeReply) → Bool → String → BalanceResponse
read_balance e node is_main address =
    let url = if is_main then e.mainnet_url else e.sepolia_url in
    if str_eq url ""
    then url_missing
    else balance_reply (node (if is_main then chain_id mainnet else chain_id dev) url address)

unfoldable pub post_balance :
    Script → Keys → (ℕ → String → String → NodeReply) → Value → Value → BalanceResponse
unfolding is_address
post_balance js e node address network = elim (lower_network js network) [
  | none ↦ balance_failed "toLowerCase is not a function"
  | some name ↦
      if not (is_truthy address)
      then missing_address
      else if not (is_address (key_of js address))
      then invalid_address
      else read_balance e node (str_eq name "mainnet") (key_of js address)
]

unfoldable pub answer_balance :
    Script → Keys → (ℕ → String → String → NodeReply) → Option (Value × Value) → BalanceResponse
unfolding post_balance
answer_balance js e node none = balance_failed "Cannot read properties of undefined"
answer_balance js e node (some (address, network)) = post_balance js e node address network

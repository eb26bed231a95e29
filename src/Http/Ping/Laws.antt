-- ===== src/Http/Ping/Laws.antt =====
-- Which pings reach a chain, and with which key.
use contract_pinger.Common.{
  ℕ, zero, suc, ◌≤◌, ◌≡◌, refl, ap, inl, inr, Bool, true, false, ◌&&◌, ◌||◌, eq_iff, Option, List,
  [], ◌∷◌, none, some, String, tally, ◌==◌, str_eq, if◌then◌else◌, arith, Option-cases,
}
use contract_pinger.BidirectionalTx.{Environment, chain_id, mainnet, dev}
use contract_pinger.Env.{evm_sk}
use contract_pinger.Env.Rotation.{slots_read, five_visit_all}
use contract_pinger.Handlers.{
  registry, supports, look_up, Keys, Ethereum, Solana, ping_handler, execute_ethereum,
  init_ethereum,
}
use contract_pinger.Http.{Value, undefined, null, another, text, truth, is_truthy, environment_of}
use contract_pinger.Http.Ping.{
  Script, key_of, ping_status, pinged, ping_failed, PingResponse, answer_ping, post_ping,
  is_address, balance_read, lower_network, NodeReply, has_balance, post_balance,
}

-- The names of the registered chains, and those that every object inherits.
abbrev pub names_chain : Script → String → Bool
names_chain js name = str_eq name "Ethereum" || (str_eq name "Solana" || js.inherited name)

abbrev pub names_environment : Value → Bool
names_environment (text s) = str_eq s "dev" || (str_eq s "testnet" || str_eq s "mainnet")
names_environment _ = false

abbrev pub is_boolean : Value → Bool
is_boolean (truth b) = true
is_boolean _ = false

-- What a ping's body has to have: a chain by its name, a Boolean `check`, an environment by its name.
abbrev pub is_valid_ping : Script → Option (Value × Value × Value) → Bool
is_valid_ping js none = false
is_valid_ping js (some (chain, check, network)) =
    is_truthy chain
    && (names_chain js (key_of js chain) && (is_boolean check && names_environment network))

-- Whether a chain's handler was called.
abbrev pub has_called : PingResponse → Bool
has_called (pinged answer) = true
has_called (ping_failed code e) = true
has_called _ = false

is_named : Option Environment → Bool
is_named none = false
is_named (some v) = true

environment_named : (v : Value) → is_named (environment_of v) ≡ names_environment v
unfolding is_named
environment_named undefined = refl
environment_named null = refl
environment_named (text s) = ground arith
environment_named (truth b) = refl
environment_named (another b) = refl

supports-names :
    (js : Script) (name : String) → supports js.inherited registry name ≡ names_chain js name
unfolding supports look_up
supports-names js name = ground (
  arith,
  eq_iff name "Ethereum",
  eq_iff name "Solana",
  eq_iff "Ethereum" name,
  eq_iff "Solana" name,
)

-- A ping's body gets to a chain's handler exactly if it is there and names a registered chain, or
-- what every object inherits, gives a Boolean `check` and names one of the three environments. Any
-- other ping leaves the rotation of the keys and is answered by 400, but by 500 without a body.
pub post_ping_invalid :
    (js : Script) (e : Keys) (node : Ethereum) (contract : Solana) (index : ℕ)
    (body : Option (Value × Value × Value))
    → let x = answer_ping js e node contract index body in
      (has_called x.1 ≡ is_valid_ping js body)
      × (is_valid_ping js body ≡ false
          → (x.0 ≡ index) × (ping_status x.1 ≡ elim body [ none ↦ 500 | some b ↦ 400 ]))
unfolding answer_ping post_ping
post_ping_invalid js e node contract index none = (refl, λ h. (refl, refl))
post_ping_invalid js e node contract index (some (chain, undefined, network)) = ground arith
post_ping_invalid js e node contract index (some (chain, null, network)) = ground arith
post_ping_invalid js e node contract index (some (chain, text s, network)) = ground arith
post_ping_invalid js e node contract index (some (chain, another b, network)) = ground arith
post_ping_invalid js e node contract index (some (chain, truth check, network)) = (
  ground (arith, supports-names js (key_of js chain), environment_named network),
  ground (arith, supports-names js (key_of js chain), environment_named network),
)

ping_moves :
    (js : Script) (e : Keys) (node : Ethereum) (contract : Solana) (index : ℕ) (check : Bool)
    (network : Value) (v : Environment)
    → environment_of network ≡ some v
    → (post_ping js e node contract index (text "Ethereum") (truth check) network).0
      ≡ (evm_sk e.slots index).0
unfolding post_ping supports look_up ping_handler execute_ethereum init_ethereum
ping_moves js e node contract index check network v valid = ground arith

module _ (js : Script) (e : Keys) (node : Ethereum) (contract : Solana) (check : Bool)
    (network : Value) where
  -- The slots of the keys that `n` successive pings of Ethereum are signed with.
  unfoldable pub pinged_slots : ℕ → ℕ → List ℕ
  pinged_slots zero index = []
  pinged_slots (suc n) index =
      let next = (post_ping js e node contract index (text "Ethereum") (truth check) network).0 in
      next ∷ pinged_slots n next

  pinged-slots_read :
      (v : Environment) (n index : ℕ)
      → environment_of network ≡ some v
      → pinged_slots n index ≡ slots_read e.slots index n
  unfolding pinged_slots slots_read
  pinged-slots_read v zero index valid = refl
  pinged-slots_read v (suc n) index valid =
      rw (ping_moves js e node contract index check network v valid) (
        ap (λ xs. (evm_sk e.slots index).0 ∷ xs)
          (pinged-slots_read v n (evm_sk e.slots index).0 valid))

  -- Five successive pings of Ethereum use each of the five keys' slots once, whatever comes of them.
  pub pings_rotate :
      (v : Environment) (index slot : ℕ)
      → environment_of network ≡ some v
      → index ≤ 5
      → 1 ≤ slot
      → slot ≤ 5
      → tally (λ x. x == slot) (pinged_slots 5 index) ≡ 1
  pings_rotate v index slot valid i lo hi =
      rw (pinged-slots_read v 5 index valid) (five_visit_all e.slots index slot i lo hi)

-- A balance is answered only for an address of forty hexadecimal digits; it is mainnet's balance if
-- the lowered environment is "mainnet", and Sepolia's for any other environment or none.
pub post_balance_sound :
    (js : Script) (e : Keys) (node : ℕ → String → String → NodeReply) (address network : Value)
    (b : ℕ)
    → post_balance js e node address network ≡ balance_read b
    → (is_address (key_of js address) ≡ true)
      × (name : String) × (lower_network js network ≡ some name)
      × (node
            (if str_eq name "mainnet" then chain_id mainnet else chain_id dev)
            (if str_eq name "mainnet" then e.mainnet_url else e.sepolia_url)
            (key_of js address)
          ≡ has_balance b)
unfolding post_balance
post_balance_sound js e node address network b h = elim (Option-cases (lower_network js network)) [
  | inl none_given ↦ ground arith
  | inr (name, given) ↦ (ground arith, name, given, ground arith)
]

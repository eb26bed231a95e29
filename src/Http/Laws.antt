-- ===== src/Http/Laws.antt =====
-- When a request is accepted, and what it leaves behind.
use contract_pinger.Common.{
  refl, sym, subst, not, ◌||◌, str_eq, eq_iff, ℕ, ◌≡◌, ◌↔◌, Bool, true, false, List, Option, none,
  some, String, ◌&&◌, arith,
}
use contract_pinger.BidirectionalTx.{TxMode, tx_mode_of}
use contract_pinger.RateLimiter.{try_acquire}
use contract_pinger.JobStore.{JobStore, Ceiling, at_capacity}
use contract_pinger.JobStore
use contract_pinger.Service.{Config, Service, environment_name}
use contract_pinger.Http.{
  undefined, null, text, truth, another, Value, Settings, Resolved, resolved, requested_mode,
  resolve, post_sign, status, arrive, offer,
}

-- A request is accepted exactly if no ceiling is reached and the limiter allows it. A refusal at a
-- ceiling leaves the service as it was, so it costs nothing of the rate; a refusal by the limiter
-- leaves the jobs; an accepted request opens its job and uses one arrival.
pub offer_outcome :
    (config : Config) (s : Service) (id : String) (mode : TxMode) (now : ℕ)
    → let x = offer config s id mode now in
      ((status x.1 ≡ 202) ↔ ((at_capacity s.jobs ≡ none) × ((try_acquire s.limiter now).1 ≡ true)))
      × ((c : Ceiling) → at_capacity s.jobs ≡ some c → x.0 ≡ s)
      × (status x.1 ≡ 429 → x.0.jobs ≡ s.jobs)
      × (status x.1 ≡ 202
          → (x.0.jobs ≡ JobStore.create s.jobs id (environment_name s.environment) mode now)
            × (x.0.limiter ≡ (try_acquire s.limiter now).0))
unfolding offer arrive
offer_outcome config s id mode now =
    (ground arith, (λ c e. ground arith), (λ e. ground arith), (λ e. (ground arith, ground arith)))

abbrev pub names_mode : String → Bool
names_mode s = str_eq s "eth_self_transfer" || str_eq s "erc20_zero_transfer"

-- A request names a mode, or names none and the default is one.
abbrev pub has_mode : Settings → Value → Bool
has_mode e undefined = names_mode e.default_mode
has_mode e null = names_mode e.default_mode
has_mode e (text s) = names_mode s
has_mode e _ = false

-- A request names an environment whose Ethereum has a URL.
abbrev pub has_environment : Settings → Value → Bool
has_environment e (text s) =
    ((str_eq s "dev" || str_eq s "testnet") && not (str_eq e.sepolia_url ""))
    || (str_eq s "mainnet" && not (str_eq e.mainnet_url ""))
has_environment e _ = false

abbrev pub is_some : Option TxMode → Bool
is_some none = false
is_some (some m) = true

abbrev pub is_resolved : Resolved → Bool
is_resolved (resolved v) = true
is_resolved _ = false

mode_known : (s : String) → is_some (tx_mode_of s) ≡ names_mode s
unfolding tx_mode_of
mode_known s = ground (arith, eq_iff s "eth_self_transfer")

mode_requested : (e : Settings) (mode : Value) → is_some (requested_mode e mode) ≡ has_mode e mode
unfolding requested_mode
mode_requested e undefined = mode_known e.default_mode
mode_requested e null = mode_known e.default_mode
mode_requested e (text s) = mode_known s
mode_requested e (truth b) = refl
mode_requested e (another b) = refl

-- The three names are three.
not_two : (s a b : String) → str_eq a b ≡ false → str_eq s a ≡ true → str_eq s b ≡ false
not_two s a b d h = subst (λ x. str_eq x b ≡ false) (sym ((eq_iff s a).0 h)) d

environment_resolved :
    (e : Settings) (network : Value) → is_resolved (resolve e network) ≡ has_environment e network
unfolding resolve
environment_resolved e undefined = refl
environment_resolved e null = refl
environment_resolved e (text s) = ground (
  arith,
  not_two s "dev" "mainnet" refl,
  not_two s "testnet" "mainnet" refl,
  not_two s "dev" "testnet" refl,
)
environment_resolved e (truth b) = refl
environment_resolved e (another b) = refl

-- A request is turned down with 400 exactly if it names no mode of the two, though a missing one
-- stands for the default, or none of the three environments, or one whose Ethereum, mainnet's or
-- Sepolia, has no URL; then every service is as it was, and none is made.
pub post_sign_invalid :
    (show : ℕ → String) (e : Settings) (services : List Service) (network mode : Value)
    (id : String) (now : ℕ)
    → let x = post_sign show e services network mode id now in
      ((status x.1 ≡ 400) ↔ ((has_mode e mode && has_environment e network) ≡ false))
      × (status x.1 ≡ 400 → x.0 ≡ services)
unfolding post_sign offer arrive
post_sign_invalid show e services network mode id now =
    (ground (arith, mode_requested e mode, environment_resolved e network), λ h. ground arith)

-- ===== src/Http.antt =====
-- src/index.ts: the secret, the resolution of a service, the requests for a round trip and for a
-- job. A value of a request body is what JSON gives. The run that an accepted request starts is
-- modelled in Service; here it is the job that it opens.
pub mod Laws
pub mod Lookup
pub mod Ping
pub mod Status
mod Tests
use contract_pinger.Common.{
  ℕ, zero, suc, ◌+◌, ◌*◌, ◌/◌, Bool, true, false, not, ◌&&◌, ◌||◌, List, [], ◌∷◌, ◌++◌, map, Option,
  none, some, String, ltb, leb, ◌==◌, str_eq, if◌then◌else◌,
}
use contract_pinger.BidirectionalTx.{
  TxMode, tx_mode_of, Environment, dev, testnet, mainnet, rpc_url,
}
use contract_pinger.RateLimiter.{RateLimiter, try_acquire, retry_after_ms}
use contract_pinger.JobStore.{
  JobStore, JobRecord, Ceiling, active, awaiting_respond, active_count, awaiting_respond_count,
  at_capacity, view,
}
use contract_pinger.JobStore
use contract_pinger.Common.Int.{ℤ}
use contract_pinger.Service.{Config, Service, environment_name, new_service}

-- A value of a body or a query: `undefined`, `null`, a string, a Boolean, or another value, of which
-- it is told whether JavaScript takes it for true.
pub data Value : Type 0 where
  undefined null : Value
  text : String → Value
  truth : Bool → Value
  another : Bool → Value

-- The configuration that the server reads.
pub record Settings : Type 0 where
  pub api_secret : String
  pub config : Config
  pub default_mode : String
  pub sepolia_url : String
  pub mainnet_url : String

-- `a || b` on values, and `!value`.
abbrev pub is_truthy : Value → Bool
is_truthy undefined = false
is_truthy null = false
is_truthy (truth b) = b
is_truthy (text s) = not (str_eq s "")
is_truthy (another b) = b

abbrev pub or_else : Value → Value → Value
or_else a b = if is_truthy a then a else b

abbrev pub is_text : Value → String → Bool
is_text (text x) s = str_eq x s
is_text _ s = false

-- `validateSecret`: whether the request goes on; `x-api-secret` and the secret of the body.
unfoldable pub validate_secret : Settings → String → String → Value → Value → Bool
validate_secret e method path header secret =
    (str_eq method "GET" && str_eq path "/")
    || (is_truthy (or_else header secret) && is_text (or_else header secret) e.api_secret)

-- `env` of a request, as one of the three environments.
abbrev pub environment_of : Value → Option Environment
environment_of (text s) =
    if str_eq s "dev"
    then some dev
    else if str_eq s "testnet"
    then some testnet
    else if str_eq s "mainnet"
    then some mainnet
    else none
environment_of _ = none

-- `mode ?? env.bidirectional.txMode`, through `isTxMode`.
unfoldable pub requested_mode : Settings → Value → Option TxMode
requested_mode e undefined = tx_mode_of e.default_mode
requested_mode e null = tx_mode_of e.default_mode
requested_mode e (text s) = tx_mode_of s
requested_mode e _ = none

abbrev pub same_environment : Environment → Environment → Bool
same_environment dev dev = true
same_environment testnet testnet = true
same_environment mainnet mainnet = true
same_environment _ _ = false

-- The registry of services, by `getService`.
abbrev pub lookup : Environment → List Service → Option Service
lookup v [] = none
lookup v (s ∷ ss) = if same_environment s.environment v then some s else lookup v ss

unfoldable pub get_service :
    (ℕ → String) → Settings → Environment → List Service → List Service × Service
get_service show e v services = elim (lookup v services) [
  | some s ↦ (services, s)
  | none ↦ (services ++ new_service show e.config v ∷ [], new_service show e.config v)
]

-- The service of the same environment takes its place.
abbrev pub store_service : Service → List Service → List Service
store_service s [] = []
store_service s (x ∷ xs) =
    if same_environment x.environment s.environment then s ∷ xs else x ∷ store_service s xs

pub data Resolved : Type 0 where
  invalid_environment : Resolved
  missing_rpc_url : Resolved
  resolved : Environment → Resolved

unfoldable pub resolve : Settings → Value → Resolved
resolve e network = elim (environment_of network) [
  | none ↦ invalid_environment
  | some v ↦
      if str_eq (rpc_url e.sepolia_url e.mainnet_url v) "" then missing_rpc_url else resolved v
]

-- The bodies of the answers to a request for a round trip.
pub record Full : Type 0 where
  pub limit : Ceiling
  pub active_jobs : ℕ
  pub max_active_jobs : ℕ
  pub awaiting : ℕ
  pub max_awaiting : ℕ
  pub retry_after_ms : ℕ

pub data Response : Type 0 where
  invalid_mode : Response
  unresolved : Resolved → Response
  at_ceiling : Full → Response
  rate_limited : ℕ → ℕ → Response
  accepted : String → TxMode → Response

abbrev pub status : Response → ℕ
status invalid_mode = 400
status (unresolved e) = 400
status (at_ceiling body) = 429
status (rate_limited limit wait) = 429
status (accepted id mode) = 202

-- `Retry-After`, in seconds.
abbrev pub retry_after_s : ℕ → ℕ
retry_after_s ms = (ms + 999) / 1000

abbrev pub ceiling_wait : Ceiling → ℕ
ceiling_wait active = 15000
ceiling_wait awaiting_respond = 60000

abbrev pub full_body : Config → Service → Ceiling → Full
full_body config s ceiling = record {
  limit = ceiling;
  active_jobs = active_count s.jobs;
  max_active_jobs = config.max_active_jobs;
  awaiting = awaiting_respond_count s.jobs;
  max_awaiting = config.max_jobs;
  retry_after_ms = ceiling_wait ceiling;
}

-- From the limiter on: the answer of `tryAcquire` and the limiter after it.
unfoldable pub arrive :
    Config → Service → String → TxMode → ℕ → RateLimiter × Bool → Service × Response
arrive config s id mode now (limiter, allowed) =
    let (limiter', wait) = retry_after_ms limiter now in
    if allowed
    then (
      record s {
        limiter = limiter;
        jobs = JobStore.create s.jobs id (environment_name s.environment) mode now;
      },
      accepted id mode,
    )
    else (record s { limiter = limiter' }, rate_limited config.max_requests_per_minute wait)

-- A request of a valid mode for a service: `id` is the id that the store would draw.
unfoldable pub offer : Config → Service → String → TxMode → ℕ → Service × Response
unfolding arrive
offer config s id mode now = elim (at_capacity s.jobs) [
  | some ceiling ↦ (s, at_ceiling (full_body config s ceiling))
  | none ↦ arrive config s id mode now (try_acquire s.limiter now)
]

-- `POST /sign_bidirectional`
unfoldable pub post_sign :
    (ℕ → String) → Settings → List Service → Value → Value → String → ℕ → List Service × Response
unfolding requested_mode resolve get_service offer
post_sign show e services network mode id now = elim (requested_mode e mode) [
  | none ↦ (services, invalid_mode)
  | some tx_mode ↦ elim (resolve e network) [
    | invalid_environment ↦ (services, unresolved invalid_environment)
    | missing_rpc_url ↦ (services, unresolved missing_rpc_url)
    | resolved v ↦
        let (services', s) = get_service show e v services in
        let (s', response) = offer e.config s id tx_mode now in
        (store_service s' services', response)
  ]
]

-- `GET /sign_bidirectional/:jobId`; `none` for 404.
unfoldable pub get_job : List Service → String → Option (JobRecord × List (String × ℤ))
get_job [] id = none
get_job (s ∷ ss) id = elim (view s.jobs id) [ some v ↦ some v | none ↦ get_job ss id ]

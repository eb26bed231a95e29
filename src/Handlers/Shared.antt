-- ===== src/Handlers/Shared.antt =====
-- `buildProvider`, `initSolana` and `getSharedSolana` of src/utils/initSolana.ts. The clients'
-- constructors, `JSON.parse` and the making of a key pair are arguments.
pub mod Once
mod Tests
use contract_pinger.Common.{
  ◌≡◌, refl, ap, ◌∙◌, inl, inr, Bool, true, false, List, [], ◌∷◌, ◌++◌, Option, none, some, String,
  str_eq, if◌then◌else◌, arith, eq_iff, Option-cases,
}
use text.Mathlib.TextPositions.{eq_refl}
use contract_pinger.BidirectionalTx.{Environment}
use contract_pinger.Handlers.{thrown, Result, ok, err, ◌>>=◌, Keys, resolve_config}
use contract_pinger.Service.{environment_name}
use contract_pinger.WorkerPool.{append}

-- What the libraries make: a key pair of a secret's text, if it is one, a provider of a URL and a
-- key pair, and a contract of a program, a provider, a requester and whether it repeats no request
-- that was answered by 429.
pub record Clients (P K C : Type 0) : Type 0 where
  pub key_pair : String → Option K
  pub provider : String → K → P
  pub public_key : K → String
  pub contract : String → P → String → Bool → C

pub record SharedContext (P K C : Type 0) : Type 0 where
  pub provider : P
  pub keypair : K
  pub contract : C

module _ {P K C : Type 0} (lib : Clients P K C) (e : Keys) where
  abbrev pub with_pair : String → Option K → Result (P × K)
  with_pair url none = err (thrown "bad secret key" none)
  with_pair url (some k) = ok (lib.provider url k, k)

  unfoldable pub build_provider : Environment → Result (P × K)
  unfolding resolve_config
  build_provider environment = do
    config ← resolve_config e environment
    with_pair config.0 (lib.key_pair config.1)

  -- `requester` is the pair that `Keypair.generate()` draws.
  unfoldable pub init_solana : String → Environment → K → Result (C × P × K)
  unfolding build_provider
  init_solana program environment requester = do
    built ← build_provider environment
    ok (lib.contract program built.0 (lib.public_key requester) false, built.0, requester)

  -- `sharedContexts`, by its entries.
  abbrev pub cached : String → List (String × SharedContext P K C) → Option (SharedContext P K C)
  cached key [] = none
  cached key ((x, c) ∷ rest) = if str_eq x key then some c else cached key rest

  abbrev pub cache_key : String → Environment → String
  cache_key program environment = append (environment_name environment) (String.◌∷◌ ":" program)

  abbrev pub shared_of : String → P × K → SharedContext P K C
  shared_of program (p, k) = record {
    provider = p;
    keypair = k;
    contract = lib.contract program p (lib.public_key k) true;
  }

  abbrev pub keep_shared :
      String
      → String
      → List (String × SharedContext P K C)
      → Result (P × K)
      → List (String × SharedContext P K C) × Result (SharedContext P K C)
  keep_shared key program cache (err f) = (cache, err f)
  keep_shared key program cache (ok built) =
      (cache ++ (key, shared_of program built) ∷ [], ok (shared_of program built))

  unfoldable pub get_shared :
      List (String × SharedContext P K C)
      → String
      → Environment
      → List (String × SharedContext P K C) × Result (SharedContext P K C)
  unfolding build_provider
  get_shared cache program environment =
      let key = cache_key program environment in
      elim (cached key cache) [
        | some c ↦ (cache, ok c)
        | none ↦ keep_shared key program cache (build_provider environment)
      ]

  unfoldable pub share_all :
      List (String × SharedContext P K C)
      → List (String × Environment)
      → List (String × SharedContext P K C)
  unfolding get_shared
  share_all cache [] = cache
  share_all cache ((program, environment) ∷ rest) =
      share_all (get_shared cache program environment).0 rest

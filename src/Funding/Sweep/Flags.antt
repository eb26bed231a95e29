-- ===== src/Funding/Sweep/Flags.antt =====
-- scripts/fund-workers.ts: the flags of the sweep, `--paths`, `--topup` and `--dry-run`, over the
-- configured values.
use contract_pinger.Common.{
  ℕ, Bool, true, false, List, [], ◌∷◌, Option, none, some, String, str_eq, if◌then◌else◌,
}
use contract_pinger.LoadTest.{argument, or_default}
use contract_pinger.Funding.{Limits, limits}
use contract_pinger.Funding.Sweep.{
  Check, ◌>>=◌, passed, stopped, malformed_amount, miscounted, Outside, Sweep, Swept, sweep,
}

-- `Number` of a count that `length` can equal, `none` for any other, and `parseEther`, `none` where
-- it throws.
pub record Texts : Type 0 where
  pub number : String → Option ℕ
  pub parse_ether : String → Option ℕ

-- `env`, as far as the sweep reads it; an absent value is empty.
pub record Configured : Type 0 where
  pub funding_key : String
  pub signing_key : String
  pub expected_requester : String
  pub sepolia_url : String
  pub mainnet_url : String
  pub solana_url : String
  pub service_url : String
  pub api_secret : String
  pub path_prefix : String
  pub paths : String
  pub min_balance_wei : ℕ
  pub top_up_eth : String
  pub max_per_address_eth : String
  pub max_per_run_eth : String
  pub reserve_eth : String

-- `flag`
abbrev pub flag : String → List String → Bool
flag name [] = false
flag name (x ∷ argv) = let rest = flag name argv in if str_eq x name then true else rest

abbrev pub amount : Texts → String → Check ℕ
amount texts s = elim (texts.parse_ether s) [ none ↦ stopped malformed_amount | some x ↦ passed x ]

abbrev pub worker_count_of : Texts → String → Check ℕ
worker_count_of texts s = elim (texts.number s) [ none ↦ stopped miscounted | some x ↦ passed x ]

abbrev pub requested_figure : Option String → ℕ → Option ℕ
requested_figure none x = none
requested_figure (some s) x = some x

-- The figure of `--topup` and the caps, in wei.
unfoldable pub limits_of : Texts → Configured → List String → Check Limits
unfolding limits
limits_of texts c argv = do
  top_up ← amount texts (or_default (argument "--topup" argv) c.top_up_eth)
  per_address ← amount texts c.max_per_address_eth
  per_run ← amount texts c.max_per_run_eth
  reserve ← amount texts c.reserve_eth
  passed (
      limits c.min_balance_wei (requested_figure (argument "--topup" argv) top_up) top_up
        per_address per_run reserve)

abbrev pub settings_of : Configured → List String → Limits → ℕ → Sweep
settings_of c argv l count = record {
  funding_key = c.funding_key;
  signing_key = c.signing_key;
  expected_requester = c.expected_requester;
  sepolia_url = c.sepolia_url;
  mainnet_url = c.mainnet_url;
  solana_url = c.solana_url;
  service_url = c.service_url;
  api_secret = c.api_secret;
  path_prefix = c.path_prefix;
  worker_count = count;
  limits = l;
  dry_run = flag "--dry-run" argv;
}

-- `main`, to its decision. An amount that is malformed, or a count that no list has, stops the run
-- somewhere before the funding key is used; here it stops it at once.
unfoldable pub main : Outside → Texts → Configured → List String → Check Swept
unfolding limits_of sweep
main o texts c argv = do
  l ← limits_of texts c argv
  count ← worker_count_of texts (or_default (argument "--paths" argv) c.paths)
  sweep o (settings_of c argv l count) argv

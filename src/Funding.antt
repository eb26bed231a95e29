-- ===== src/Funding.antt =====
-- scripts/fund-workers.ts: the sweep that tops the derived addresses up. Node and service answer by
-- arguments; amounts are in wei.
pub mod Plan
pub mod CrossCheck
pub mod Sweep
pub mod Sending
mod Tests
use contract_pinger.Common.{
  ℕ, zero, suc, ◌+◌, ◌-◌, ◌*◌, Bool, true, false, not, ◌&&◌, ◌||◌, List, [], ◌∷◌, ◌++◌, map, Option,
  none, some, String, ltb, leb, ◌==◌, str_eq, if◌then◌else◌, length, keep,
}
use contract_pinger.BidirectionalTx.{Environment}

-- A derived address, with the environment that it belongs to.
pub record Target : Type 0 where
  pub environment : Environment
  pub path : String
  pub address : String

pub record Limits : Type 0 where
  pub min_balance : ℕ
  pub top_up_to : ℕ
  pub funded_at : ℕ
  pub max_per_address : ℕ
  pub max_per_run : ℕ
  pub reserve : ℕ

-- The argument `--topup`, and what stands in where it is not given.
abbrev pub figure : Option ℕ → ℕ → ℕ
figure none fallback = fallback
figure (some x) fallback = x

unfoldable pub limits : ℕ → Option ℕ → ℕ → ℕ → ℕ → ℕ → Limits
limits min_balance requested configured max_per_address max_per_run reserve =
    let target = figure requested configured in
    record {
      min_balance = min_balance;
      top_up_to = target;
      funded_at = figure requested min_balance;
      max_per_address = max_per_address;
      max_per_run = max_per_run;
      reserve = reserve;
    }

pub record Planned : Type 0 where
  pub target : Target
  pub balance : ℕ
  pub top : ℕ

-- The list of every target with its balance, and of those below the figure.
abbrev pub priced : ℕ → List (Target × ℕ) → List Planned
priced top_up_to [] = []
priced top_up_to ((t, b) ∷ ws) =
    record { target = t; balance = b; top = top_up_to - b } ∷ priced top_up_to ws

unfoldable pub plan : ℕ → List (Target × ℕ) → List Planned
plan top_up_to ws = keep (λ w. ltb w.balance top_up_to) (priced top_up_to ws)

abbrev pub total : List Planned → ℕ
total [] = 0
total (w ∷ ws) = w.top + total ws

abbrev pub plain_transfer_gas : ℕ
plain_transfer_gas = 21000

pub data Refusal : Type 0 where
  target_below_minimum above_address_cap above_run_cap source_short : Refusal

pub data Decision : Type 0 where
  refused : Refusal → Decision
  nothing_to_do : Decision
  dry_run_only : Decision
  sends : List Planned → Decision

-- What is decided once the targets are funded or not: the caps, and what the source must hold.
unfoldable pub decide_plan : Limits → Bool → ℕ → ℕ → List Planned → Decision
decide_plan l dry_run max_fee source [] = nothing_to_do
decide_plan l dry_run max_fee source (w ∷ ws) =
    if ltb l.max_per_run (total (w ∷ ws))
    then refused above_run_cap
    else if ltb source (total (w ∷ ws) + length (w ∷ ws) * plain_transfer_gas * max_fee + l.reserve)
    then refused source_short
    else if dry_run
    then dry_run_only
    else sends (w ∷ ws)

-- `main`, from the safety limits to the first transfer: the fee and the balances are the node's.
unfoldable pub decide : Limits → Bool → ℕ → ℕ → List (Target × ℕ) → Decision
unfolding decide_plan plan
decide l dry_run max_fee source ws =
    if leb l.top_up_to l.min_balance
    then refused target_below_minimum
    else if ltb l.max_per_address l.top_up_to
    then refused above_address_cap
    else decide_plan l dry_run max_fee source (plan l.top_up_to ws)

-- The check at the end, on the balances read again.
pub data Verdict : Type 0 where
  below_reserve : Verdict
  still_short : List (Target × ℕ) → Verdict
  all_funded : Verdict

abbrev pub short_verdict : List (Target × ℕ) → Verdict
short_verdict [] = all_funded
short_verdict (w ∷ ws) = still_short (w ∷ ws)

unfoldable pub verify : Limits → ℕ → List (Target × ℕ) → Verdict
verify l remaining after =
    if ltb remaining l.reserve
    then below_reserve
    else short_verdict (keep (λ w. ltb w.1 l.funded_at) after)

-- `Map`, by its entries: `set` keeps the place of a key that is there.
abbrev pub set_entry : String → String → List (String × String) → List (String × String)
set_entry k v [] = (k, v) ∷ []
set_entry k v ((x, y) ∷ es) =
    let rest = set_entry k v es in if str_eq x k then (k, v) ∷ es else (x, y) ∷ rest

abbrev pub get_entry : String → List (String × String) → Option String
get_entry k [] = none
get_entry k ((x, y) ∷ es) = let rest = get_entry k es in if str_eq x k then some y else rest

abbrev pub new_map : List (String × String) → List (String × String) → List (String × String)
new_map acc [] = acc
new_map acc ((k, v) ∷ es) = new_map (set_entry k v acc) es

pub data Difference : Type 0 where
  sizes_differ : ℕ → ℕ → Difference
  addresses_differ : String → String → String → Difference

-- `other && other !== address`
abbrev pub disagrees : Option String → String → Bool
disagrees none address = false
disagrees (some other) address = not (str_eq other "") && not (str_eq other address)

abbrev pub address_differences : List (String × String) → List (String × String) → List Difference
address_differences theirs [] = []
address_differences theirs ((path, address) ∷ mine) =
    let rest = address_differences theirs mine in
    elim (get_entry path theirs) [
      | none ↦ rest
      | some other ↦
          if disagrees (some other) address
          then addresses_differ path address other ∷ rest
          else rest
    ]

-- The comparison of `crossCheck`; `lower` is `toLowerCase`.
unfoldable pub differences :
    (String → String) → List (String × String) → List (String × String) → List Difference
differences lower derived reported =
    let mine = new_map [] (map (λ e. (e.0, lower e.1)) derived) in
    let theirs = new_map [] (map (λ e. (e.0, lower e.1)) reported) in
    (if length mine == length theirs then [] else sizes_differ (length mine) (length theirs) ∷ [])
    ++ address_differences theirs mine

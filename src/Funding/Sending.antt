-- ===== src/Funding/Sending.antt =====
-- scripts/fund-workers.ts: the transfers, the check behind them and the exit code. What becomes of a
-- transfer and the balances after all of them are arguments.
pub mod Exits
use contract_pinger.Common.{ℕ, Bool, true, false, List, [], ◌∷◌, map, String, if◌then◌else◌}
use contract_pinger.Funding.{
  Target, Planned, Decision, refused, nothing_to_do, dry_run_only, sends, Verdict, below_reserve,
  still_short, all_funded, verify,
}
use contract_pinger.Funding.Sweep.{Check, passed, stopped, Sweep, Swept}

-- A transfer that is mined, in success or not, or whose sending or waiting throws.
pub data Transfer : Type 0 where
  mined : Bool → Transfer
  broken : Transfer

unfoldable pub send_all : (Planned → Transfer) → List Planned → Bool
send_all outcome [] = true
send_all outcome (w ∷ ws) = elim (outcome w) [
  | mined success ↦ send_all outcome ws
  | broken ↦ false
]

abbrev pub verdict_code : Verdict → ℕ
verdict_code all_funded = 0
verdict_code below_reserve = 1
verdict_code (still_short ws) = 1

abbrev pub read_again : (String → ℕ) → List (Target × ℕ) → List (Target × ℕ)
read_again after [] = []
read_again after ((t, b) ∷ ws) = (t, after t.address) ∷ read_again after ws

abbrev pub decision_code :
    (Planned → Transfer) → ℕ → (String → ℕ) → Sweep → List (Target × ℕ) → Decision → ℕ
decision_code outcome remaining after e targets (refused why) = 1
decision_code outcome remaining after e targets nothing_to_do = 0
decision_code outcome remaining after e targets dry_run_only = 0
decision_code outcome remaining after e targets (sends ps) =
    if send_all outcome ps
    then verdict_code (verify e.limits remaining (read_again after targets))
    else 1

unfoldable pub sweep_code : (Planned → Transfer) → ℕ → (String → ℕ) → Sweep → Check Swept → ℕ
unfolding send_all verify
sweep_code outcome remaining after e (stopped why) = 1
sweep_code outcome remaining after e (passed r) =
    decision_code outcome remaining after e r.targets r.decision

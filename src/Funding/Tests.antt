-- ===== src/Funding/Tests.antt =====
-- Sweeps, and the theorems at concrete ones.
use contract_pinger.Common.{ℕ, ◌≡◌, refl, false, List, [], ◌∷◌, ◌++◌, String, length, All}
use contract_pinger.BidirectionalTx.{dev}
use contract_pinger.Funding.{Target, Limits, Planned, plan, sends, decide_plan, decide, differences}
use contract_pinger.Funding.Plan.{sent_to}
use contract_pinger.Funding.CrossCheck.{lowered, Agrees, differences_iff, disjoint_pass}

funding_code : Unit {0}
unfolding plan decide_plan decide differences
funding_code = tt

abbrev band : Limits
band = record {
  min_balance = 10;
  top_up_to = 50;
  funded_at = 10;
  max_per_address = 100;
  max_per_run = 60;
  reserve = 5;
}

abbrev pool : List (Target × ℕ)
pool =
    (record { environment = dev; path = "load-0"; address = "0xa" }, 20)
    ∷ (record { environment = dev; path = "load-1"; address = "0xb" }, 50)
    ∷ []

abbrev first_filled : List Planned
first_filled =
    record {
      target = record { environment = dev; path = "load-0"; address = "0xa" };
      balance = 20;
      top = 30;
    }
    ∷ []

decide-pool : decide band false 1 21035 pool ≡ sends first_filled
unfolding funding_code
decide-pool = refl

twice_sent : sent_to "0xa" (plan 50 (pool ++ pool)) ≡ 60
unfolding funding_code
twice_sent = refl

abbrev same_case : String → String
same_case s = s

abbrev ours : List (String × String)
ours = ("load-0", "0xa") ∷ ("load-1", "0xb") ∷ []

abbrev theirs : List (String × String)
theirs = ("pool-0", "0xc") ∷ ("pool-1", "0xd") ∷ []

differences_iff_example :
    (differences same_case ours theirs ≡ []
      → (length (lowered same_case ours) ≡ length (lowered same_case theirs))
        × All (Agrees (lowered same_case theirs)) (lowered same_case ours))
    × ((length (lowered same_case ours) ≡ length (lowered same_case theirs))
          × All (Agrees (lowered same_case theirs)) (lowered same_case ours)
        → differences same_case ours theirs ≡ [])
differences_iff_example = differences_iff same_case ours theirs

disjoint_pass_example : differences same_case ours theirs ≡ []
disjoint_pass_example = disjoint_pass same_case ours theirs refl (refl, (refl, tt))

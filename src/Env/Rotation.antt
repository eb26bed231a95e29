-- ===== src/Env/Rotation.antt =====
-- Which keys successive reads give.
use contract_pinger.Common.{
  ℕ, zero, suc, ◌≤◌, ◌≡◌, List, [], ◌∷◌, Option, String, tally, ◌==◌, arith,
}
use contract_pinger.Env.{evm_sk}

-- The slots that `n` successive reads visit.
unfoldable pub slots_read : (ℕ → Option String) → ℕ → ℕ → List ℕ
slots_read slots index zero = []
slots_read slots index (suc n) = let next = (evm_sk slots index).0 in next ∷ slots_read slots next n

-- From the first read on, any five reads in a row visit each of the five slots exactly once,
-- whichever of the keys are set.
pub five_visit_all :
    (slots : ℕ → Option String) (index slot : ℕ)
    → index ≤ 5
    → 1 ≤ slot
    → slot ≤ 5
    → tally (λ x. x == slot) (slots_read slots index 5) ≡ 1
unfolding slots_read evm_sk
five_visit_all slots zero slot i lo hi = ground arith
five_visit_all slots (suc zero) slot i lo hi = ground arith
five_visit_all slots (suc (suc zero)) slot i lo hi = ground arith
five_visit_all slots (suc (suc (suc zero))) slot i lo hi = ground arith
five_visit_all slots (suc (suc (suc (suc zero)))) slot i lo hi = ground arith
five_visit_all slots (suc (suc (suc (suc (suc zero))))) slot i lo hi = ground arith
five_visit_all slots (suc (suc (suc (suc (suc (suc n)))))) slot i lo hi = ground arith

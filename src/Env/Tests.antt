-- ===== src/Env/Tests.antt =====
-- Reads of the keys, and the theorem at concrete ones.
use contract_pinger.Common.{
  ℕ, ◌≡◌, refl, [], ◌∷◌, none, some, String, Option, tally, ◌==◌, if◌then◌else◌, arith,
}
use contract_pinger.Env.{evm_sk}
use contract_pinger.Env.Rotation.{slots_read, five_visit_all}

abbrev one_key : ℕ → Option String
one_key n = if n == 3 then some "key" else none

slots-one_key : slots_read one_key 2 5 ≡ 3 ∷ 4 ∷ 5 ∷ 1 ∷ 2 ∷ []
unfolding slots_read evm_sk
slots-one_key = refl

five_visit_all_example : tally (λ x. x == 4) (slots_read one_key 2 5) ≡ 1
five_visit_all_example = five_visit_all one_key 2 4 (omega arith) (omega arith) (omega arith)

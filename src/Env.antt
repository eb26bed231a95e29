-- ===== src/Env.antt =====
-- src/utils/env.ts: the empty values, the respond budget and the rotation of the keys. The schema of
-- the variables is zod's.
pub mod Rotation
mod Tests
use contract_pinger.Common.{
  ℕ, zero, suc, ◌+◌, ◌%◌, Bool, true, false, not, List, [], ◌∷◌, Option, none, some, String, str_eq,
  if◌then◌else◌, keep,
}

-- `withoutEmptyValues`, on the entries of the environment.
unfoldable pub without_empty_values : List (String × String) → List (String × String)
without_empty_values entries = keep (λ e. not (str_eq e.1 "")) entries

abbrev pub respond_timeout_finality_ms : ℕ
respond_timeout_finality_ms = 2100000

abbrev pub respond_timeout_inclusion_ms : ℕ
respond_timeout_inclusion_ms = 300000

-- `respondTimeoutMs`: the explicit value, or a budget by the finality flag.
unfoldable pub respond_timeout_ms : Option ℕ → Bool → ℕ
respond_timeout_ms none waits_for_finality =
    if waits_for_finality then respond_timeout_finality_ms else respond_timeout_inclusion_ms
respond_timeout_ms (some explicit) waits_for_finality = explicit

-- A read of `evmSk`: the index after it, and the key of that slot, `''` if it is not set.
unfoldable pub evm_sk : (ℕ → Option String) → ℕ → ℕ × String
evm_sk slots index =
    let next = suc (index % 5) in (next, elim (slots next) [ none ↦ "" | some key ↦ key ])

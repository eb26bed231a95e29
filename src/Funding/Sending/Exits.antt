-- ===== src/Funding/Sending/Exits.antt =====
-- What the exit code of a sweep says.
use contract_pinger.Common.{
  ℕ, ◌≤◌, ◌≡◌, refl, sym, subst, Bool, true, false, List, [], ◌∷◌, String, ltb, arith, keep, All,
}
use contract_pinger.Funding.{Target, Limits, Planned, sends, short_verdict, verify}
use contract_pinger.Funding.Sweep.{passed, Sweep, Swept}
use contract_pinger.Funding.Sending.{
  Transfer, mined, broken, send_all, verdict_code, read_again, decision_code, sweep_code,
}

abbrev pub is_mined : Transfer → Bool
is_mined (mined success) = true
is_mined broken = false

sent-All :
    (outcome : Planned → Transfer) (ps : List Planned)
    → (send_all outcome ps ≡ true → All (λ w. is_mined (outcome w) ≡ true) ps)
      × (All (λ w. is_mined (outcome w) ≡ true) ps → send_all outcome ps ≡ true)
unfolding send_all
sent-All outcome [] = (λ h. tt, λ h. refl)
sent-All outcome (w ∷ ws) = (
  λ h. (ground arith, (sent-All outcome ws).0 (ground arith)),
  λ h. ground (arith, (sent-All outcome ws).1 h.1),
)

funded-All :
    (l : Limits) (after : String → ℕ) (ws : List (Target × ℕ))
    → (verdict_code (short_verdict (keep (λ w. ltb w.1 l.funded_at) (read_again after ws))) ≡ 0
        → All (λ w. l.funded_at ≤ after w.0.address) ws)
      × (All (λ w. l.funded_at ≤ after w.0.address) ws
          → verdict_code (short_verdict (keep (λ w. ltb w.1 l.funded_at) (read_again after ws)))
            ≡ 0)
funded-All l after [] = (λ h. tt, λ h. refl)
funded-All l after ((t, b) ∷ ws) = (
  λ h. (ground arith, (funded-All l after ws).0 (ground arith)),
  λ h. ground (arith, (funded-All l after ws).1 h.1),
)

-- A sweep that decides to send ends with 0 exactly if every transfer is mined, in success or not, the
-- source keeps its reserve, and every target then holds the figure that counts as funded.
pub sweep_exits :
    (outcome : Planned → Transfer) (remaining : ℕ) (after : String → ℕ) (e : Sweep) (r : Swept)
    (ps : List Planned)
    → r.decision ≡ sends ps
    → (sweep_code outcome remaining after e (passed r) ≡ 0
        → All (λ w. is_mined (outcome w) ≡ true) ps
          × (e.limits.reserve ≤ remaining)
          × All (λ w. e.limits.funded_at ≤ after w.0.address) r.targets)
      × (All (λ w. is_mined (outcome w) ≡ true) ps
            × (e.limits.reserve ≤ remaining)
            × All (λ w. e.limits.funded_at ≤ after w.0.address) r.targets
          → sweep_code outcome remaining after e (passed r) ≡ 0)
unfolding sweep_code verify
sweep_exits outcome remaining after e r ps d =
    let sent = sent-All outcome ps in
    let funded = funded-All e.limits after r.targets in
    subst
      (λ x.
        (decision_code outcome remaining after e r.targets x ≡ 0
          → All (λ w. is_mined (outcome w) ≡ true) ps
            × (e.limits.reserve ≤ remaining)
            × All (λ w. e.limits.funded_at ≤ after w.0.address) r.targets)
        × (All (λ w. is_mined (outcome w) ≡ true) ps
              × (e.limits.reserve ≤ remaining)
              × All (λ w. e.limits.funded_at ≤ after w.0.address) r.targets
            → decision_code outcome remaining after e r.targets x ≡ 0))
      (sym d)
      (
        (λ h. (sent.0 (ground arith), ground arith, funded.0 (ground arith))),
        (λ h. ground (arith, sent.1 h.0, funded.1 h.2)),
      )

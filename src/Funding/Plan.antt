-- ===== src/Funding/Plan.antt =====
-- What the sweep sends.
use contract_pinger.Common.{
  ℕ, ◌+◌, ◌*◌, ◌≤◌, ◌≡◌, refl, subst, inl, inr, Bool, List, [], ◌∷◌, ◌++◌, String, ltb, str_eq,
  if◌then◌else◌, arith, Bool-cases, length, tally, All,
}
use contract_pinger.Funding.{
  Target, Limits, Planned, plan, total, plain_transfer_gas, sends, decide_plan, decide,
}

-- A transfer fills its address to the figure, and no more than the cap of an address.
pub record Fills (l : Limits) (w : Planned) : Type 0 where
  pub exact : w.balance + w.top ≡ l.top_up_to
  pub needed : 1 ≤ w.top
  pub capped : w.top ≤ l.max_per_address

-- What is known of the transfers that a run makes.
pub record IsSafe (l : Limits) (max_fee source : ℕ) (ws : List (Target × ℕ)) (ps : List Planned)
    : Type 0 where
  pub fills : All (Fills l) ps
  -- Every address below the figure has its transfer.
  pub complete : length ps ≡ tally (λ w. ltb w.1 l.top_up_to) ws
  pub run_capped : total ps ≤ l.max_per_run
  -- If no transfer costs more gas than a plain one at the fee, the source keeps its reserve.
  pub reserved : total ps + length ps * plain_transfer_gas * max_fee + l.reserve ≤ source

plan-Fills :
    (l : Limits) (ws : List (Target × ℕ))
    → l.top_up_to ≤ l.max_per_address
    → All (Fills l) (plan l.top_up_to ws)
unfolding plan
plan-Fills l [] h = tt
plan-Fills l ((t, b) ∷ ws) h = elim (Bool-cases (ltb b l.top_up_to)) [
  | inl short ↦ rw short (
    record { exact = ground arith; needed = ground arith; capped = ground arith },
    plan-Fills l ws h,
  )
  | inr full ↦ rw full (plan-Fills l ws h)
]

length-plan : (n : ℕ) (ws : List (Target × ℕ)) → length (plan n ws) ≡ tally (λ w. ltb w.1 n) ws
unfolding plan
length-plan n [] = refl
length-plan n ((t, b) ∷ ws) = ground (arith, length-plan n ws)

pub decide_plan-sends :
    (l : Limits) (dry_run : Bool) (max_fee source : ℕ) (ps qs : List Planned)
    → decide_plan l dry_run max_fee source ps ≡ sends qs
    → (ps ≡ qs)
      × (total ps ≤ l.max_per_run)
      × (total ps + length ps * plain_transfer_gas * max_fee + l.reserve ≤ source)
unfolding decide_plan
decide_plan-sends l dry_run max_fee source [] qs e = cc
decide_plan-sends l dry_run max_fee source (w ∷ ws) qs e =
    (ground arith, ground arith, ground arith)

decide-sends :
    (l : Limits) (dry_run : Bool) (max_fee source : ℕ) (ws : List (Target × ℕ)) (ps : List Planned)
    → decide l dry_run max_fee source ws ≡ sends ps
    → (l.top_up_to ≤ l.max_per_address)
      × (decide_plan l dry_run max_fee source (plan l.top_up_to ws) ≡ sends ps)
unfolding decide
decide-sends l dry_run max_fee source ws ps e = (ground arith, ground arith)

-- If the run sends, the transfers are those for all addresses below the figure, each to the figure
-- and within the cap of an address, together within the cap of a run, and the source can pay them,
-- with a plain transfer's gas for each at the estimated fee, and keep its reserve.
pub decide-IsSafe :
    (l : Limits) (dry_run : Bool) (max_fee source : ℕ) (ws : List (Target × ℕ)) (ps : List Planned)
    → decide l dry_run max_fee source ws ≡ sends ps
    → IsSafe l max_fee source ws ps
decide-IsSafe l dry_run max_fee source ws ps e =
    let (capped, planned) = decide-sends l dry_run max_fee source ws ps e in
    let (same, run_cap, left) =
      decide_plan-sends l dry_run max_fee source (plan l.top_up_to ws) ps planned in
    record {
      fills = subst (All (Fills l)) same (plan-Fills l ws capped);
      complete =
          subst (λ x. length x ≡ tally (λ w. ltb w.1 l.top_up_to) ws) same
            (length-plan l.top_up_to ws);
      run_capped = subst (λ x. total x ≤ l.max_per_run) same run_cap;
      reserved =
          subst (λ x. total x + length x * plain_transfer_gas * max_fee + l.reserve ≤ source) same
            left;
    }

-- What an address is sent.
abbrev pub sent_to : String → List Planned → ℕ
sent_to a [] = 0
sent_to a (w ∷ ws) =
    let rest = sent_to a ws in if str_eq w.target.address a then w.top + rest else rest

pub sent_to-append :
    (n : ℕ) (a : String) (xs ys : List (Target × ℕ))
    → sent_to a (plan n (xs ++ ys)) ≡ sent_to a (plan n xs) + sent_to a (plan n ys)
unfolding plan
sent_to-append n a [] ys = omega arith
sent_to-append n a ((t, b) ∷ xs) ys = ground (arith, sent_to-append n a xs ys)

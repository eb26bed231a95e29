-- ===== src/Funding/Sweep/Twice.antt =====
-- A sweep that names one environment twice.
use contract_pinger.Common.{
  ℕ, suc, ◌+◌, ◌-◌, ◌*◌, ◌≡◌, sym, subst, ap, ◌∙◌, List, [], ◌∷◌, ◌++◌, map, String, str_eq, arith,
  tally, Bool, tally-append, eq_iff, inl, inr, Bool-cases, if◌then◌else◌,
}
use mathlib.Core.List.{append-nil}
use contract_pinger.BidirectionalTx.{Environment}
use contract_pinger.WorkerPool.{build_paths}
use contract_pinger.Service.Addresses.{derive_worker_addresses}
use contract_pinger.LoadTest.{argument, or_default}
use contract_pinger.Funding.{Target, Planned, sends, plan}
use contract_pinger.Funding.Plan.{sent_to, sent_to-append, decide_plan-sends}
use contract_pinger.Funding.Sweep.{
  passed, stopped, Check, ◌>>=◌, Sweep, Outside, asked, counted, environments, one_chain,
  requester_of, check_band, check_node, derive_targets, compare_services, with_account, with_key,
  Swept, sweep,
}
use contract_pinger.Funding.Sweep.Stages.{passes, passed_injective}
use contract_pinger.Funding.Sweep.Checked.{outcome_of}

sent_one :
    (n b : ℕ) (a : String) (t : Target)
    → sent_to a (plan n ((t, b) ∷ [])) ≡ (if str_eq t.address a then n - b else 0)
unfolding plan
sent_one n b a t = ground arith

zero_add : (x : ℕ) → 0 + x ≡ x
zero_add x = omega arith

mul_suc : (k m : ℕ) → m + k * m ≡ suc k * m
mul_suc k m = grind arith

mul_twice : (k m : ℕ) → (k + k) * m ≡ 2 * (k * m)
mul_twice k m = grind arith

-- What the targets of one address are sent.
sent-plan :
    (o : Outside) (n : ℕ) (a : String) (ts : List Target)
    → sent_to a (plan n (map (λ (t : Target). (t, o.balance t.address)) ts))
      ≡ tally (λ (t : Target). str_eq t.address a) ts * (n - o.balance a)
unfolding plan
sent-plan o n a [] = omega arith
sent-plan o n a (t ∷ ts) =
    let rest : List (Target × ℕ) = map (λ (u : Target). (u, o.balance u.address)) ts in
    let split = sent_to-append n a ((t, o.balance t.address) ∷ []) rest in
    let one = sent_one n (o.balance t.address) a t in
    let m = n - o.balance a in
    let k = tally (λ (u : Target). str_eq u.address a) ts in
    elim (Bool-cases (str_eq t.address a)) [
      | inl same ↦
          let here : o.balance t.address ≡ o.balance a =
            ap o.balance ((eq_iff t.address a).0 same) in
          let top : sent_to a (plan n ((t, o.balance t.address) ∷ [])) ≡ n - o.balance t.address =
            rw same at one in
          rw same (split ∙ (ap2_add top (sent-plan o n a ts) ∙ rw here (mul_suc k m)))
      | inr other ↦
          let top : sent_to a (plan n ((t, o.balance t.address) ∷ [])) ≡ 0 = rw other at one in
          rw other (split ∙ (ap2_add top (sent-plan o n a ts) ∙ zero_add (k * m)))
    ]
  where
    ap2_add : {x y z w : ℕ} → x ≡ y → z ≡ w → x + z ≡ y + w
    ap2_add e f = omega arith

bound_twice :
    (m : Check (List Target)) (ts : List Target)
    → m >>= (λ own. (m >>= (λ more. passed (more ++ []))) >>= (λ rest. passed (own ++ rest)))
      ≡ passed ts
    → (own : List Target) × ((m >>= (λ more. passed (more ++ []))) ≡ passed own) × (ts ≡ own ++ own)
bound_twice (passed own) ts h = (
  own,
  ap passed (append-nil own),
  sym (passed_injective h) ∙ ap (λ x. own ++ x) (append-nil own),
)
bound_twice (stopped e) ts h = cc

twice-derived :
    (o : Outside) (e : Sweep) (requester : String) (v : Environment) (ts : List Target)
    → derive_targets o e requester (v ∷ v ∷ []) ≡ passed ts
    → (own : List Target) × (derive_targets o e requester (v ∷ []) ≡ passed own) × (ts ≡ own ++ own)
unfolding derive_targets
twice-derived o e requester v ts h =
    bound_twice
      (counted e.worker_count v (
        derive_worker_addresses (o.network v) requester
          (build_paths o.show e.path_prefix e.worker_count)))
      ts h

module _ (o : Outside) (e : Sweep) (v : Environment) where
  -- The targets of the environment by itself, and what the transfers send to an address.
  abbrev pub SendsTwice : String → List Planned → Type 0
  SendsTwice requester ps =
      (own : List Target) × (derive_targets o e requester (v ∷ []) ≡ passed own)
      × ((a : String)
          → sent_to a ps
            ≡ 2
              * (tally (λ (t : Target). str_eq t.address a) own
                  * (e.limits.top_up_to - o.balance a)))

  outcome_twice :
      (requester : String) (ts : List Target) (ps : List Planned)
      → derive_targets o e requester (v ∷ v ∷ []) ≡ passed ts
      → (outcome_of o e (v ∷ v ∷ []) requester ts).decision ≡ sends ps
      → SendsTwice requester ps
  outcome_twice requester ts ps made d =
      let (own, once, double) = twice-derived o e requester v ts made in
      let n = e.limits.top_up_to in
      let priced = map (λ (t : Target). (t, o.balance t.address)) ts in
      let (same, within, left) =
        decide_plan-sends e.limits e.dry_run o.max_fee o.source (plan n priced) ps d in
      (
        own,
        once,
        λ a.
            ap (sent_to a) (sym same)
            ∙ (sent-plan o n a ts
                ∙ (ap (λ xs. tally (at a) xs * (n - o.balance a)) double
                    ∙ (ap (λ k. k * (n - o.balance a)) (tally-append (at a) own own)
                        ∙ mul_twice (tally (at a) own) (n - o.balance a)))),
      )
    where
      at : String → Target → Bool
      at a t = str_eq t.address a

  -- A sweep of an environment that `--env` names twice, `--env dev,dev`, and that decides to send,
  -- sends every address twice what it lacks of the figure, once for each time that one derivation
  -- of the environment gives it.
  pub sweep_twice :
      (argv : List String) (r : Swept) (ps : List Planned)
      → environments (asked o argv) ≡ passed (v ∷ v ∷ [])
      → sweep o e argv ≡ passed r
      → r.decision ≡ sends ps
      → SendsTwice r.requester ps
  unfolding sweep
  sweep_twice argv r ps named h d =
      let url = or_default (argument "--url" argv) e.service_url in
      let (vs, read, h1) = passes (environments (asked o argv)) _ r h in
      let (keyed, has_key, h2) = passes (with_key e) _ r h1 in
      let (first, chained, h3) = passes (one_chain e vs) _ r h2 in
      let (requester, spoken, h4) = passes (requester_of o e) _ r h3 in
      let (banded, in_band, h5) = passes (check_band e.limits) _ r h4 in
      let (node, on_node, h6) = passes (check_node o e first) _ r h5 in
      let (targets, made, h7) = passes (derive_targets o e requester vs) _ r h6 in
      let (agrees, compared_to, h8) = passes (compare_services o e url targets vs) _ r h7 in
      let (account, usable, h9) = passes (with_account o e) _ r h8 in
      let is : outcome_of o e vs requester targets ≡ r = passed_injective h9 in
      let twice : vs ≡ v ∷ v ∷ [] = passed_injective (sym read ∙ named) in
      subst (λ (x : Swept). SendsTwice x.requester ps) is
        (outcome_twice requester targets ps
          (subst (λ xs. derive_targets o e requester xs ≡ passed targets) twice made)
          (subst (λ xs. (outcome_of o e xs requester targets).decision ≡ sends ps) twice
            (ap (λ (x : Swept). x.decision) is ∙ d)))

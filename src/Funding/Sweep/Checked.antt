-- ===== src/Funding/Sweep/Checked.antt =====
-- What a sweep that sends has checked.
use contract_pinger.Common.{
  ℕ, ◌≡◌, refl, subst, ◌∙◌, ap, Bool, false, List, map, String, str_eq, arith, All,
}
use contract_pinger.BidirectionalTx.{Environment}
use contract_pinger.LoadTest.{argument, or_default}
use contract_pinger.Funding.{Target, Limits, Planned, sends, decide_plan, plan, decide}
use contract_pinger.Funding.Plan.{IsSafe, decide-IsSafe}
use contract_pinger.Funding.Sweep.{
  passed, Sweep, Outside, asked, environments, one_chain, requester_of, check_band, check_node,
  derive_targets, cross_checks, compare_services, with_account, with_key, Swept, sweep,
}
use contract_pinger.Funding.Sweep.Stages.{
  passes, passed_injective, IsDerived, targets-IsDerived, OnChain, chain-OnChain, Speaks,
  requester-Speaks, Uncontested, checks-Uncontested,
}

-- What holds of a sweep that decides to send.
pub record IsChecked (o : Outside) (e : Sweep) (url : String) (r : Swept) (ps : List Planned)
    : Type 0 where
  pub targets : List Target
  -- Every environment settles on the chain that the node is on.
  pub on_chain : All (OnChain o) r.swept
  pub speaks : Speaks o e r.requester
  -- The targets with their balances: each is derived for this requester.
  pub read : r.targets ≡ map (λ (t : Target). (t, o.balance t.address)) targets
  pub derived : All (IsDerived o r.requester) targets
  -- A service that is asked and answers agrees.
  pub uncontested :
      str_eq url "" ≡ false
      → str_eq e.api_secret "" ≡ false
      → All (Uncontested o url targets) r.swept
  pub safe : IsSafe e.limits o.max_fee o.source r.targets ps

decided :
    (l : Limits) (dry_run : Bool) (fee source : ℕ) (ws : List (Target × ℕ)) (ps : List Planned)
    → check_band l ≡ passed tt
    → decide_plan l dry_run fee source (plan l.top_up_to ws) ≡ sends ps
    → decide l dry_run fee source ws ≡ sends ps
unfolding decide
decided l dry_run fee source ws ps banded e = ground arith

-- A comparison is made where there are an address and a secret.
made_comparisons :
    (o : Outside) (e : Sweep) (url : String) (ts : List Target) (vs : List Environment)
    → compare_services o e url ts vs ≡ passed tt
    → str_eq url "" ≡ false
    → str_eq e.api_secret "" ≡ false
    → cross_checks o url ts vs ≡ passed tt
made_comparisons o e url ts vs h named secret = ground arith

abbrev pub outcome_of : Outside → Sweep → List Environment → String → List Target → Swept
outcome_of o e vs requester targets =
    let priced = map (λ (t : Target). (t, o.balance t.address)) targets in
    record {
      swept = vs;
      requester = requester;
      targets = priced;
      decision = decide_plan e.limits e.dry_run o.max_fee o.source (plan e.limits.top_up_to priced);
    }

outcome-IsChecked :
    (o : Outside) (e : Sweep) (url : String) (vs : List Environment) (first : Environment)
    (requester : String) (ts : List Target) (ps : List Planned)
    → one_chain e vs ≡ passed first
    → requester_of o e ≡ passed requester
    → check_band e.limits ≡ passed tt
    → check_node o e first ≡ passed tt
    → derive_targets o e requester vs ≡ passed ts
    → compare_services o e url ts vs ≡ passed tt
    → (outcome_of o e vs requester ts).decision ≡ sends ps
    → IsChecked o e url (outcome_of o e vs requester ts) ps
outcome-IsChecked o e url vs first requester ts ps chained spoken banded node made agrees d =
    record {
      targets = ts;
      on_chain = chain-OnChain o e vs first chained node;
      speaks = requester-Speaks o e requester spoken;
      read = refl;
      derived = targets-IsDerived o e requester vs ts made;
      uncontested = λ named secret.
          checks-Uncontested o url ts vs (made_comparisons o e url ts vs agrees named secret);
      safe =
          let priced = map (λ (t : Target). (t, o.balance t.address)) ts in
          decide-IsSafe e.limits e.dry_run o.max_fee o.source priced ps
            (decided e.limits e.dry_run o.max_fee o.source priced ps banded d);
    }

-- A sweep that nothing stops and that decides to send has checked all this: every environment
-- settles on the chain of its node; the requester is the signing key's own and the expected one,
-- where these are given; every target is derived for that requester, and no service that is asked
-- and answers contradicts its environment's; the transfers are safe for the targets' balances.
pub sweep-IsChecked :
    (o : Outside) (e : Sweep) (argv : List String) (r : Swept) (ps : List Planned)
    → sweep o e argv ≡ passed r
    → r.decision ≡ sends ps
    → IsChecked o e (or_default (argument "--url" argv) e.service_url) r ps
unfolding sweep
sweep-IsChecked o e argv r ps h d =
    let url = or_default (argument "--url" argv) e.service_url in
    let (vs, named, h1) = passes (environments (asked o argv)) _ r h in
    let (keyed, has_key, h2) = passes (with_key e) _ r h1 in
    let (first, chained, h3) = passes (one_chain e vs) _ r h2 in
    let (requester, spoken, h4) = passes (requester_of o e) _ r h3 in
    let (banded, in_band, h5) = passes (check_band e.limits) _ r h4 in
    let (node, on_node, h6) = passes (check_node o e first) _ r h5 in
    let (targets, made, h7) = passes (derive_targets o e requester vs) _ r h6 in
    let (agrees, compared_to, h8) = passes (compare_services o e url targets vs) _ r h7 in
    let (account, usable, h9) = passes (with_account o e) _ r h8 in
    let is : outcome_of o e vs requester targets ≡ r = passed_injective h9 in
    subst (λ x. IsChecked o e url x ps) is
      (outcome-IsChecked o e url vs first requester targets ps chained spoken in_band on_node made
        compared_to (ap (λ (x : Swept). x.decision) is ∙ d))

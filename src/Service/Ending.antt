-- ===== src/Service/Ending.antt =====
-- The answers that a run takes, and its end.
use contract_pinger.Common.{
  ℕ, suc, ◌+◌, ◌≤◌, ◌<◌, ◌≡◌, refl, sym, subst, ap, inl, inr, ◌||◌, true, false, List, [], ◌∷◌, map,
  Option, none, some, String, length, ltb, str_eq, if◌then◌else◌, arith, Bool-cases, Option-cases,
  All, All,
}
use contract_pinger.BidirectionalTx.{expected_serialized_output}
use contract_pinger.WorkerPool.{set_balance, quarantined, reconcile, cleared}
use contract_pinger.JobStore.{signature_timeout, respond_timeout}
use contract_pinger.Service.{
  Config, Service, Run, Phase, deriving_addresses, reconciling, refreshing, parked, preflight,
  building, sending, signing, attaching, broadcasting, confirming, responding, over, Reply, derived,
  counts, balance, built, solana_sent, signature, attached, eth_hash, receipt, respond, settled,
  threw, other,
}
use contract_pinger.Service.Steps.{
  Outside, address_at, assert_derived_sender, settlement_of, ready, with_balance, with_built,
  not_built, with_sent, with_signer, withhold, with_receipt, with_respond, resume_unleased,
  resume_leased, resume_by, resume,
}
use contract_pinger.Service.Balance.{is_over}
use contract_pinger.Service.World.{new_run}
use contract_pinger.Service.Resuming.{collect-none, collect-some, dropped}
use contract_pinger.Service.Due.{due, placed, due-fits, resume-Placed}
use contract_pinger.Service.Progress.{
  rank, fits_unleased, fits_leased, has_settlement, fits, AtMost, if-AtMost, finish-AtMost,
  give_up-AtMost, throw-AtMost, settle-AtMost, to_refresh-AtMost, to_reconcile-AtMost, length-map,
  length-update_first, length-ready, length-quarantined,
}

module _ (n : ℕ) (o : Outside) (config : Config) (s : Service) (r : Run) where
  unleased-descends :
      (p : Phase) (reply : Reply) (now : ℕ)
      → length s.pool.workers ≤ n
      → fits_unleased (has_settlement s p) p reply ≡ true
      → rank n (resume_unleased o config s r p reply now).1.phase < rank n p
  unfolding resume_unleased reconcile
  unleased-descends deriving_addresses (derived addresses) now h f =
      let s' = ready s addresses in
      omega (
        arith,
        h,
        length-ready n s addresses,
        length-quarantined n s'.pool,
        length-map n (quarantined s'.pool),
        to_reconcile-AtMost n s' r (map (λ w. w.path) (quarantined s'.pool)) now,
      )
  unleased-descends (reconciling (path ∷ paths)) (counts latest pending) now h f = omega (
    arith,
    h,
    length-update_first n path (cleared (ltb latest pending)) s.pool.workers,
    to_reconcile-AtMost n (record s { pool = reconcile s.pool path (ltb latest pending) }) r paths
        now,
  )
  unleased-descends (refreshing (path ∷ paths)) (balance b) now h f = omega (
    arith,
    to_refresh-AtMost n (record s { pool = set_balance s.pool path b config.min_balance_wei }) r
        paths now,
  )
  unleased-descends over reply now h f = cc
  unleased-descends (parked t) settled now h f =
      elim (Option-cases (settlement_of t s.pool.settled)) [
        | inl unsettled ↦ ground arith
        | inr (st, came) ↦
            rw (collect-some s r t now st came)
              (omega (arith, settle-AtMost n (dropped s t) r st now))
      ]
  unleased-descends (parked t) (threw e) now h f = cc
  unleased-descends p (threw e) now h f = omega (arith, throw-AtMost n 0 s r (other e) now)
  unleased-descends p reply now h f = cc

  leased-descends :
      (path : String) (p : Phase) (reply : Reply) (now : ℕ)
      → fits_leased p reply ≡ true
      → rank n (resume_leased o config s r path p reply now).1.phase < rank n p
  unfolding resume_leased with_balance with_built not_built with_sent with_signer withhold
      with_receipt with_respond
  leased-descends path preflight (balance b) now f =
      let below : AtMost n 7 (with_balance o config s r path b now) =
        if-AtMost n 7 (ltb b config.min_balance_wei) _ _ (give_up-AtMost n 7 _ r _ _ now)
          (if-AtMost n 7 r.aborted _ _ (throw-AtMost n 7 s r _ now) (omega arith)) in
      omega (arith, below)
  leased-descends path (building b) (built t id) now f =
      let below : AtMost n 6 (with_built o config s r path b t id now) =
        if-AtMost n 6 (ltb b t.gas_cost_wei) _ _ (give_up-AtMost n 6 _ r _ _ now)
          (if-AtMost n 6 r.aborted _ _ (throw-AtMost n 6 _ r _ now) (omega arith)) in
      omega (arith, below)
  leased-descends path (building b) (threw m) now f =
      let below : AtMost n 6 (not_built o config s r path b m now) =
        if-AtMost n 6 (o.lacks_funds m) _ _ (give_up-AtMost n 6 _ r _ m now)
          (throw-AtMost n 6 s r (other m) now) in
      omega (arith, below)
  leased-descends path (sending t) (solana_sent tx) now f = omega arith
  leased-descends path (signing t) signature now f = omega arith
  leased-descends path (signing t) (threw m) now f =
      omega (arith, give_up-AtMost n 0 s r signature_timeout m now)
  leased-descends path (attaching t) (attached recovered) now f =
      let below : AtMost n 3 (with_signer o config s r path t recovered now) =
        if-AtMost n 3 (assert_derived_sender o (address_at s path) recovered) _ _ (omega arith)
          (give_up-AtMost n 3 s r _ _ now) in
      omega (arith, below)
  leased-descends path (broadcasting t) (eth_hash hash) now f = omega arith
  leased-descends path (broadcasting t) (threw m) now f =
      omega (arith, give_up-AtMost n 0 _ r _ m now)
  leased-descends path (confirming t) (receipt success) now f =
      let below : AtMost n 1 (with_receipt o config s r success now) =
        if-AtMost n 1 success _ _ (omega arith) (give_up-AtMost n 1 s r _ _ now) in
      omega (arith, below)
  leased-descends path (confirming t) (threw m) now f =
      omega (arith, give_up-AtMost n 0 _ r _ m now)
  leased-descends path responding (respond output) now f =
      let below : AtMost n 0 (with_respond o config s r output now) =
        if-AtMost n 0 (str_eq output expected_serialized_output) _ _ (finish-AtMost n 0 _ r now)
          (give_up-AtMost n 0 _ r _ _ now) in
      omega (arith, below)
  leased-descends path responding (threw m) now f =
      omega (arith, give_up-AtMost n 0 s r respond_timeout m now)
  leased-descends path over reply now f = cc
  leased-descends path p (threw m) now f = omega (arith, throw-AtMost n 0 s r (other m) now)
  leased-descends path p reply now f = cc

  resume_by-descends :
      (w : Option String) (reply : Reply) (now : ℕ)
      → length s.pool.workers ≤ n
      → elim w [
        | none ↦ fits_unleased (has_settlement s r.phase) r.phase reply
        | some path ↦ fits_leased r.phase reply
      ]
        ≡ true
      → rank n (resume_by o config w s r reply now).1.phase < rank n r.phase
  resume_by-descends none reply now h f = unleased-descends r.phase reply now h f
  resume_by-descends (some path) reply now h f = leased-descends path r.phase reply now f

  -- An answer that the run waits for brings it nearer to its end.
  pub resume-descends :
      (reply : Reply) (now : ℕ)
      → length s.pool.workers ≤ n
      → fits s r reply ≡ true
      → rank n (resume o config s r reply now).1.phase < rank n r.phase
  unfolding resume
  resume-descends reply now h f = resume_by-descends r.worker reply now h f

module _ (o : Outside) (config : Config) (s : Service) (r : Run) where
  unleased_unfit :
      (p : Phase) (reply : Reply) (now : ℕ)
      → fits_unleased (has_settlement s p) p reply ≡ false
      → resume_unleased o config s r p reply now ≡ (s, r)
  unfolding resume_unleased
  unleased_unfit deriving_addresses (derived addresses) now f = cc
  unleased_unfit (reconciling (path ∷ paths)) (counts latest pending) now f = cc
  unleased_unfit (refreshing (path ∷ paths)) (balance b) now f = cc
  unleased_unfit over reply now f = refl
  unleased_unfit (parked t) settled now f = elim (Option-cases (settlement_of t s.pool.settled)) [
    | inl unsettled ↦ collect-none s r t now unsettled
    | inr (st, came) ↦ ground arith
  ]
  unleased_unfit (parked t) (threw e) now f = refl
  unleased_unfit p (threw e) now f = cc
  unleased_unfit p reply now f = refl

  leased_unfit :
      (path : String) (p : Phase) (reply : Reply) (now : ℕ)
      → fits_leased p reply ≡ false
      → resume_leased o config s r path p reply now ≡ (s, r)
  unfolding resume_leased
  leased_unfit path preflight (balance b) now f = cc
  leased_unfit path (building b) (built t id) now f = cc
  leased_unfit path (building b) (threw m) now f = cc
  leased_unfit path (sending t) (solana_sent tx) now f = cc
  leased_unfit path (signing t) signature now f = cc
  leased_unfit path (signing t) (threw m) now f = cc
  leased_unfit path (attaching t) (attached recovered) now f = cc
  leased_unfit path (broadcasting t) (eth_hash hash) now f = cc
  leased_unfit path (broadcasting t) (threw m) now f = cc
  leased_unfit path (confirming t) (receipt success) now f = cc
  leased_unfit path (confirming t) (threw m) now f = cc
  leased_unfit path responding (respond output) now f = cc
  leased_unfit path responding (threw m) now f = cc
  leased_unfit path over reply now f = refl
  leased_unfit path p (threw m) now f = cc
  leased_unfit path p reply now f = refl

  resume_by_unfit :
      (w : Option String) (reply : Reply) (now : ℕ)
      → elim w [
        | none ↦ fits_unleased (has_settlement s r.phase) r.phase reply
        | some path ↦ fits_leased r.phase reply
      ]
        ≡ false
      → resume_by o config w s r reply now ≡ (s, r)
  resume_by_unfit none reply now f = unleased_unfit r.phase reply now f
  resume_by_unfit (some path) reply now f = leased_unfit path r.phase reply now f

  -- Another answer changes nothing.
  pub resume_unfit :
      (reply : Reply) (now : ℕ) → fits s r reply ≡ false → resume o config s r reply now ≡ (s, r)
  unfolding resume
  resume_unfit reply now f = resume_by_unfit r.worker reply now f

-- An answer to a run, with the service as the other runs have left it by then.
pub record Answer : Type 0 where
  pub service : Service
  pub reply : Reply
  pub at : ℕ

module _ (o : Outside) (config : Config) where
  -- A run through its answers, and how many of them it waited for.
  unfoldable pub drive : Run → List Answer → Run
  drive r [] = r
  drive r (a ∷ answers) = drive (resume o config a.service r a.reply a.at).1 answers

  unfoldable pub taken : Run → List Answer → ℕ
  taken r [] = 0
  taken r (a ∷ answers) =
      let rest = taken (resume o config a.service r a.reply a.at).1 answers in
      if fits a.service r a.reply then suc rest else rest

  taken-rank :
      (n : ℕ) (r : Run) (answers : List Answer)
      → All (λ a. length a.service.pool.workers ≤ n) answers
      → taken r answers + rank n (drive r answers).phase ≤ rank n r.phase
  unfolding drive taken
  taken-rank n r [] h = omega arith
  taken-rank n r (a ∷ answers) h = elim (Bool-cases (fits a.service r a.reply)) [
    | inl fit ↦ rw fit (
        omega (
          arith,
          resume-descends n o config a.service r a.reply a.at h.0 fit,
          taken-rank n (resume o config a.service r a.reply a.at).1 answers h.1,
        ))
    | inr unfit ↦
        let same = resume_unfit o config a.service r a.reply a.at unfit in
        rw unfit (
          omega (
            arith,
            ap (λ x. rank n x.1.phase) same,
            taken-rank n (resume o config a.service r a.reply a.at).1 answers h.1,
          ))
  ]

  unfit_over :
      (s : Service) (r : Run) (reply : Reply) → is_over r.phase ≡ true → fits s r reply ≡ false
  unfit_over s r reply h = by_worker r.worker r.phase h
    where
      by_worker :
          (w : Option String) (p : Phase)
          → is_over p ≡ true
          → elim w [
            | none ↦ fits_unleased (has_settlement s p) p reply
            | some path ↦ fits_leased p reply
          ]
            ≡ false
      by_worker none over e = refl
      by_worker (some path) over e = refl
      by_worker w p e = cc

  rank_over : (n : ℕ) (p : Phase) → rank n p ≤ 0 → is_over p ≡ true
  rank_over n over h = refl
  rank_over n deriving_addresses h = ground arith
  rank_over n (reconciling paths) h = ground arith
  rank_over n (refreshing paths) h = ground arith
  rank_over n p h = ground arith

  pub run_takes :
      (n : ℕ) (id : String) (answers : List Answer)
      → All (λ a. length a.service.pool.workers ≤ n) answers
      → taken (new_run id) answers ≤ 10 + n + n
  run_takes n id answers h = omega (arith, taken-rank n (new_run id) answers h)

  -- Each of the answers is what the run asks for at the place where it then stands, until it is over.
  unfoldable pub Asked : Run → List Answer → Type 0
  Asked r [] = Unit
  Asked r (a ∷ answers) =
      (is_over r.phase || due (has_settlement a.service r.phase) r.phase a.reply ≡ true)
      × Asked (resume o config a.service r a.reply a.at).1 answers

  drive_over :
      (r : Run) (answers : List Answer)
      → is_over r.phase ≡ true
      → is_over (drive r answers).phase ≡ true
  unfolding drive
  drive_over r [] h = h
  drive_over r (a ∷ answers) h = drive_over (resume o config a.service r a.reply a.at).1 answers (
      subst (λ x. is_over x.1.phase ≡ true)
        (sym (resume_unfit o config a.service r a.reply a.at (unfit_over a.service r a.reply h))) h)

  Asked-over :
      (n : ℕ) (r : Run) (answers : List Answer)
      → All (λ a. length a.service.pool.workers ≤ n) answers
      → placed r.phase r.worker ≡ true
      → Asked r answers
      → rank n r.phase ≤ length answers
      → is_over (drive r answers).phase ≡ true
  unfolding drive Asked
  Asked-over n r [] h at asked m = rank_over n r.phase m
  Asked-over n r (a ∷ answers) h at asked m = elim (Bool-cases (is_over r.phase)) [
    | inl ended ↦ drive_over r (a ∷ answers) ended
    | inr going ↦
        let asks = due (has_settlement a.service r.phase) r.phase a.reply in
        let fit : fits a.service r a.reply ≡ true =
          due-fits a.service r a.reply at (subst (λ b. b || asks ≡ true) going asked.0) in
        Asked-over n (resume o config a.service r a.reply a.at).1 answers h.1
          (resume-Placed o config a.service r a.reply a.at at) asked.1
          (omega (arith, m, resume-descends n o config a.service r a.reply a.at h.0 fit))
  ]

  -- A run that is answered 10 + 2n times is over, on a pool of at most `n` addresses, whatever the
  -- other runs do to the service in between. Each answer is what its place asks for, the call's value
  -- or its error, and for a waiter the settlement of its ticket, or comes after the end.
  pub run_ends :
      (n : ℕ) (id : String) (answers : List Answer)
      → All (λ a. length a.service.pool.workers ≤ n) answers
      → Asked (new_run id) answers
      → 10 + n + n ≤ length answers
      → (taken (new_run id) answers ≤ 10 + n + n)
        × (is_over (drive (new_run id) answers).phase ≡ true)
  run_ends n id answers h asked m =
      (run_takes n id answers h, Asked-over n (new_run id) answers h refl asked m)

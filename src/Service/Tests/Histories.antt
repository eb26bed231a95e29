-- ===== src/Service/Tests/Histories.antt =====
-- The theorems on whole histories, at concrete ones.
use contract_pinger.Common.{arith, ◌+◌, ◌-◌, ◌≤◌, ◌≡◌, refl, true, [], ◌∷◌, some, List, All, length}
use contract_pinger.BidirectionalTx.{dev, expected_serialized_output}
use contract_pinger.JobStore.{
  JobRecord, find, active_count, live_count, at_capacity, awaiting_respond_count, surplus,
}
use contract_pinger.Service.{
  Service, new_service, responding, Reply, derived, balance, built, solana_sent, signature,
  attached, eth_hash, receipt, respond, settled, threw,
}
use contract_pinger.Service.Steps.{
  ready, assert_derived_sender, with_built, with_sent, with_signer, with_receipt, with_respond,
}
use contract_pinger.Service.Balance.{is_over}
use contract_pinger.Service.Stages.{expected_of}
use contract_pinger.Service.World.{new_run, new_world}
use contract_pinger.Service.Admission.{
  IsAdmitted, active_ceiling, respond_ceiling, runs_settle_jobs, service_bound,
}
use contract_pinger.Service.Ending.{Answer, Asked, taken, drive, run_ends}
use contract_pinger.Service.Tests.{
  service_code, strokes, outside, config, contended, after_contended, sent_transaction,
}

contended-IsAdmitted : IsAdmitted outside config (new_world strokes config dev) contended
unfolding service_code at_capacity active_count awaiting_respond_count surplus
contended-IsAdmitted = ((refl, refl), ((refl, refl), (tt, (tt, (tt, tt)))))

runs_settle_jobs_example :
    All
      (λ r.
        (job : JobRecord)
        → find r.job_id after_contended.service.jobs.jobs ≡ some job
        → expected_of r.phase job ≡ true)
      after_contended.runs
runs_settle_jobs_example =
    runs_settle_jobs outside strokes config dev contended contended-IsAdmitted

service_bound_example :
    let s = after_contended.service in
    (active_count s.jobs ≤ active_ceiling config dev)
    × (live_count s.jobs ≤ active_ceiling config dev + respond_ceiling config dev - 1)
service_bound_example = service_bound outside strokes config dev contended contended-IsAdmitted

-- The service at each answer: its address is derived and free.
abbrev derived_service : Service
derived_service = ready (new_service strokes config dev) (("load-", "0xabc") ∷ [])

abbrev answer : Reply → Answer
answer reply = record { service = derived_service; reply = reply; at = 7 }

-- A job that succeeds, and what comes too late for it.
abbrev answers : List Answer
answers =
    answer (derived (("load-", "0xabc") ∷ []))
    ∷ answer (balance 1000000)
    ∷ answer (built sent_transaction "0x1")
    ∷ answer (solana_sent "5k")
    ∷ answer signature
    ∷ answer (attached "0xabc")
    ∷ answer (eth_hash "0x2")
    ∷ answer (receipt true)
    ∷ answer (respond expected_serialized_output)
    ∷ answer settled
    ∷ answer (threw "late")
    ∷ answer settled
    ∷ []

one_address : length derived_service.pool.workers ≤ 1
unfolding service_code
one_address = omega arith

answers-Asked : Asked outside config (new_run "a") answers
unfolding service_code Asked assert_derived_sender with_built with_sent with_signer with_receipt
    with_respond
answers-Asked = (
  refl,
  (refl, (refl, (refl, (refl, (refl, (refl, (refl, (refl, (refl, (refl, (refl, tt))))))))))),
)

reached :
    (drive outside config (new_run "a") (
      answer (derived (("load-", "0xabc") ∷ []))
      ∷ answer (balance 1000000)
      ∷ answer (built sent_transaction "0x1")
      ∷ answer (solana_sent "5k")
      ∷ answer signature
      ∷ answer (attached "0xabc")
      ∷ answer (eth_hash "0x2")
      ∷ answer (receipt true)
      ∷ [])).phase
    ≡ responding
unfolding service_code drive assert_derived_sender with_built with_sent with_signer with_receipt
    with_respond
reached = refl

run_ends_example :
    (taken outside config (new_run "a") answers ≤ 12)
    × (is_over (drive outside config (new_run "a") answers).phase ≡ true)
run_ends_example = run_ends outside config 1 "a" answers few answers-Asked (omega arith)
  where
    few : All (λ a. length a.service.pool.workers ≤ 1) answers
    few = let f = one_address in (f, (f, (f, (f, (f, (f, (f, (f, (f, (f, (f, (f, tt))))))))))))

-- ===== src/Service/Tests.antt =====
-- A service at work, and the theorems at concrete histories.
mod Histories
use contract_pinger.Common.{
  arith, ℕ, zero, suc, ◌+◌, ◌≤◌, ◌≡◌, refl, ap, true, false, not, List, [], ◌∷◌, ◌++◌, map, none,
  some, String, tally, All, keep, drop,
}
use contract_pinger.BidirectionalTx.{BuiltTransaction, dev, eth_self_transfer}
use contract_pinger.WorkerPool.{
  create, has_ticket, build_paths, find, acquire, acquire_within, take_first, update_first, release,
  serve, hand_off, set_address, set_balance, quarantined, quarantine, reconcile, reject_waiters,
  time_out,
}
use contract_pinger.WorkerPool.Leases.{busy_at, paths_at}
use contract_pinger.JobStore.{internal_error}
use contract_pinger.JobStore
use contract_pinger.Service.{
  confirming, Config, new_service, Run, over, parked, derived, settled, threw, release_lease,
  finish, fail_job, give_up, throw,
}
use contract_pinger.Service.Steps.{
  Outside, settlement_of, collect, resume, to_lease, to_refresh, to_reconcile, leased, settle,
  await_pledge, with_balance, resume_unleased, resume_leased, address_at,
}
use contract_pinger.Service.Balance.{holds, is_over, unread}
use contract_pinger.Service.World.{
  World, Event, starts, resumes, start, abort_active_jobs, resume_at, step, run, new_world,
}
use contract_pinger.Service.Shutdown.{rejected_service, abort-parked}
use contract_pinger.Service.Withheld.{Awaits, unseen-Awaits}
use contract_pinger.Service.Exclusive.{one_run_an_address}

service_code : Unit {0}
unfolding create build_paths find acquire acquire_within take_first update_first release serve
    hand_off set_address set_balance quarantined quarantine reconcile reject_waiters time_out
    new_service release_lease finish give_up throw collect resume to_lease to_refresh to_reconcile
    leased settle await_pledge with_balance resume_unleased resume_leased address_at start
    abort_active_jobs resume_at step run new_world JobStore.create JobStore.update JobStore.fail
    JobStore.prune JobStore.find
service_code = tt

-- Numbers in unary, for a text of a number.
abbrev strokes : ℕ → String
strokes zero = String.[]
strokes (suc n) = String.◌∷◌ "I" (strokes n)

strokes_injective : (a b : ℕ) → strokes a ≡ strokes b → a ≡ b
strokes_injective zero zero e = refl
strokes_injective zero (suc b) e = cc
strokes_injective (suc a) zero e = cc
strokes_injective (suc a) (suc b) e = ap suc (strokes_injective a b cc)

abbrev outside : Outside
outside = record { say = λ n. ""; get_address = λ a. some a; lacks_funds = λ m. false }

-- One address.
abbrev config : Config
config = record {
  path_prefix = "load";
  paths = 1;
  max_active_jobs = 5;
  max_jobs = 10;
  retained_jobs = 10;
  max_requests_per_minute = 60;
  min_balance_wei = 100;
}

-- Two jobs start; the first gets the address, the second waits for it; the first fails and gives
-- the address up.
abbrev contended : List (ℕ × Event)
contended =
    (1, starts "a" eth_self_transfer)
    ∷ (2, starts "b" eth_self_transfer)
    ∷ (3, resumes 0 (derived (("load-", "0xabc") ∷ [])))
    ∷ (4, resumes 1 (derived (("load-", "0xabc") ∷ [])))
    ∷ (5, resumes 0 (threw "no answer"))
    ∷ []

abbrev after_contended : World
after_contended = run outside config (new_world strokes config dev) contended

contended-holders : map (λ r. r.phase) after_contended.runs ≡ over ∷ parked 0 ∷ []
unfolding service_code
contended-holders = refl

-- The second has the address once it reads its grant.
taken_over :
    map
      (λ r. holds "load-" r)
      (run outside config
        (new_world strokes config dev)
        (contended ++ (6, resumes 1 settled) ∷ [])).runs
    ≡ false ∷ true ∷ []
unfolding service_code
taken_over = refl

one_run_an_address_example :
    let w = after_contended in
    let holders = tally (holds "load-") w.runs in
    let granted = unread "load-" w.service.pool.settled in
    (holders + granted ≤ 1)
    × (busy_at "load-" w.service.pool.workers ≡ holders + granted)
    × (holders ≡ tally (holds "load-") (keep (λ r. not (is_over r.phase)) w.runs))
one_run_an_address_example =
    one_run_an_address outside strokes config dev contended strokes_injective "load-"

abbrev queued_events : List (ℕ × Event)
queued_events =
    (1, starts "a" eth_self_transfer)
    ∷ (2, starts "b" eth_self_transfer)
    ∷ (3, resumes 0 (derived (("load-", "0xabc") ∷ [])))
    ∷ (4, resumes 1 (derived (("load-", "0xabc") ∷ [])))
    ∷ []

abbrev with_waiter : World
with_waiter = run outside config (new_world strokes config dev) queued_events

abbrev waiting_run : Run
waiting_run = record {
  job_id = "b";
  worker = none;
  lease_released = false;
  aborted = false;
  phase = parked 0;
}

with_waiter-runs : drop 1 with_waiter.runs ≡ waiting_run ∷ []
unfolding service_code
with_waiter-runs = refl

nothing_settled : settlement_of 0 with_waiter.service.pool.settled ≡ none
unfolding service_code
nothing_settled = refl

it_waits : has_ticket 0 with_waiter.service.pool.waiters ≡ true
unfolding service_code
it_waits = refl

abort-parked_example :
    resume outside config
      (abort_active_jobs with_waiter).service
      (record waiting_run { aborted = true })
      settled
      9
    ≡ (let (s, r') =
          finish
            (rejected_service with_waiter.service 0)
            (record waiting_run { aborted = true })
            9 in
        (fail_job s r' internal_error "Process is shutting down" 9, r'))
abort-parked_example =
    abort-parked outside config with_waiter waiting_run 0 9 refl refl nothing_settled it_waits

abbrev sent_transaction : BuiltTransaction
sent_transaction = record {
  unsigned = record {
    chain = 11155111;
    nonce = 4;
    to = "0xabc";
    value = 0;
    gas = 25200;
    max_fee_per_gas = 30;
    max_priority_fee_per_gas = 2;
    data_of_call = none;
  };
  rlp_encoded = "0x02";
  nonce = 4;
  gas_cost_wei = 756000;
  output_deserialization_schema = "";
  respond_serialization_schema = "";
}

abbrev leased_run : Run
leased_run = record {
  job_id = "a";
  worker = some "load-";
  lease_released = false;
  aborted = false;
  phase = confirming sent_transaction;
}

one_path : paths_at "load-" with_waiter.service.pool.workers ≤ 1
unfolding service_code
one_path = omega arith

unseen-Awaits_example :
    let s' = (resume outside config with_waiter.service leased_run (threw "late") 9).0 in
    All (Awaits "load-" 4) s'.pool.workers
    × (unread "load-" s'.pool.settled ≡ unread "load-" with_waiter.service.pool.settled)
unseen-Awaits_example =
    unseen-Awaits outside config with_waiter.service leased_run "load-" sent_transaction "late" 9
      refl refl refl one_path

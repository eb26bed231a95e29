-- ===== src/Service/Steps.antt =====
-- `run` of src/handlers/signBidirectional.ts from one `await` to the next.
use contract_pinger.Common.{
  ℕ, ◌+◌, Bool, true, false, not, ◌&&◌, List, [], ◌∷◌, map, Option, none, some, String, ltb, ◌==◌,
  str_eq, if◌then◌else◌,
}
use contract_pinger.BidirectionalTx.{BuiltTransaction, expected_serialized_output}
use contract_pinger.WorkerPool.{
  WorkerPool, Worker, PoolError, Settlement, granted, refused, Pledge, kept, open_until,
}
use contract_pinger.WorkerPool
use contract_pinger.JobStore.{
  JobPatch, no_change, no_timings, preflight_underfunded, signature_timeout, derivation_mismatch,
  broadcast_failed, confirmation_timeout, transaction_reverted, respond_timeout, respond_mismatch,
}
use contract_pinger.JobStore
use contract_pinger.Service.{
  Config, Service, Phase, deriving_addresses, reconciling, refreshing, parked, preflight, building,
  sending, signing, attaching, broadcasting, confirming, responding, over, Run, Reply, derived,
  counts, balance, built, solana_sent, signature, attached, eth_hash, receipt, respond, settled,
  threw, shutdown_error, other, run_error_of, release_lease, finish, update_job, give_up, throw,
}

-- The texts that the service composes for its failures.
pub data Notice : Type 0 where
  below_minimum : String → ℕ → ℕ → Notice
  short_of_gas : String → ℕ → ℕ → Notice
  mismatched : String → String → Notice
  reverted : Notice
  unexpected_output : String → Notice

-- `say` composes a text; `get_address` is viem's checksum address, `none` where it throws;
-- `lacks_funds` is the test of an error's text for "insufficient funds".
pub record Outside : Type 0 where
  pub say : Notice → String
  pub get_address : String → Option String
  pub lacks_funds : String → Bool

-- `assertDerivedSender` of src/utils/derivation.ts: whether it returns.
abbrev pub both_equal : Option String → Option String → Bool
both_equal (some a) (some b) = str_eq a b
both_equal _ _ = false

unfoldable pub assert_derived_sender : Outside → String → String → Bool
assert_derived_sender o expected recovered =
    both_equal (o.get_address expected) (o.get_address recovered)

-- The address of a path, as the pool has it.
unfoldable pub address_at : Service → String → String
address_at s path = elim (WorkerPool.find path s.pool.workers) [ none ↦ "0x" | some w ↦ w.address ]

-- `refreshUnderfunded` looks at an address if it is held back and derived.
abbrev pub wants_refresh : Option Worker → Bool
wants_refresh none = false
wants_refresh (some w) = w.underfunded && not (str_eq w.address "0x")

-- From the grant of a lease to the first `getBalance`.
unfoldable pub leased : Service → Run → String → ℕ → Service × Run
leased s r path now = (
  update_job s r (record no_change {
    path = some path;
    derived_address = some (address_at s path);
    timings = record no_timings { lease_acquired_at = some now };
  }),
  record r { worker = some path; phase = preflight },
)

unfoldable pub settle : Service → Run → Settlement → ℕ → Service × Run
settle s r (granted path) now = leased s r path now
settle s r (refused e) now = throw s r (run_error_of e) now

unfoldable pub await_pledge : Service → Run → Pledge → ℕ → Service × Run
await_pledge s r (kept st) now = settle s r st now
await_pledge s r (open_until t) now = (s, record r { phase = parked t })

-- `abortIfShuttingDown(); worker = await this.pool.acquireWithin(…)`
unfoldable pub to_lease : Service → Run → ℕ → Service × Run
to_lease s r now =
    if r.aborted
    then throw s r shutdown_error now
    else let (pool, pledge) = WorkerPool.acquire_within s.pool now in
      await_pledge (record s { pool = pool }) r pledge now

-- The rest of `refreshUnderfunded`, to the next address that it asks for.
unfoldable pub to_refresh : Service → Run → List String → ℕ → Service × Run
to_refresh s r [] now = to_lease s r now
to_refresh s r (path ∷ paths) now =
    let rest = to_refresh s r paths now in
    if wants_refresh (WorkerPool.find path s.pool.workers)
    then (s, record r { phase = refreshing (path ∷ paths) })
    else rest

-- The rest of `reconcileQuarantined`.
unfoldable pub to_reconcile : Service → Run → List String → ℕ → Service × Run
to_reconcile s r [] now = to_refresh s r (map (λ w. w.path) s.pool.workers) now
to_reconcile s r (path ∷ paths) now = (s, record r { phase = reconciling (path ∷ paths) })

abbrev pub set_addresses : WorkerPool → List (String × String) → WorkerPool
set_addresses p [] = p
set_addresses p ((path, address) ∷ rest) =
    set_addresses (WorkerPool.set_address p path address) rest

-- `ensureAddresses`: the first derivation to succeed counts.
abbrev pub ready : Service → List (String × String) → Service
ready s addresses =
    if s.addresses_ready
    then s
    else record s { pool = set_addresses s.pool addresses; addresses_ready = true }

-- The settlement of a ticket, and the others.
abbrev pub settlement_of : ℕ → List (ℕ × Settlement) → Option Settlement
settlement_of t [] = none
settlement_of t ((x, st) ∷ rest) = if x == t then some st else settlement_of t rest

abbrev pub drop_settlement : ℕ → List (ℕ × Settlement) → List (ℕ × Settlement)
drop_settlement t [] = []
drop_settlement t ((x, st) ∷ rest) = if x == t then rest else (x, st) ∷ drop_settlement t rest

unfoldable pub collect : Service → Run → ℕ → ℕ → Service × Run
collect s r t now = elim (settlement_of t s.pool.settled) [
  | none ↦ (s, r)
  | some st ↦
      settle (record s { pool = record s.pool { settled = drop_settlement t s.pool.settled } }) r st
        now
]

abbrev pub await_respond : Service × Run → Service × Run
await_respond (s, r) = (s, record r { phase = responding })

module _ (o : Outside) (config : Config) where
  -- After `getBalance` of the leased address.
  unfoldable pub with_balance : Service → Run → String → ℕ → ℕ → Service × Run
  with_balance s r path b now =
      if ltb b config.min_balance_wei
      then give_up (record s { pool = WorkerPool.set_balance s.pool path b config.min_balance_wei })
          r preflight_underfunded
          (o.say (below_minimum (address_at s path) b config.min_balance_wei)) now
      else if r.aborted
      then throw s r shutdown_error now
      else (s, record r { phase = building b })

  -- After `buildTransaction`.
  unfoldable pub with_built :
      Service → Run → String → ℕ → BuiltTransaction → String → ℕ → Service × Run
  with_built s r path b t request_id now =
      if ltb b t.gas_cost_wei
      then give_up (record s { pool = WorkerPool.set_balance s.pool path b t.gas_cost_wei }) r
          preflight_underfunded (o.say (short_of_gas (address_at s path) b t.gas_cost_wei)) now
      else let s' =
          update_job s r
            (record no_change { request_id = some request_id; nonce = some t.nonce }) in
        if r.aborted then throw s' r shutdown_error now else (s', record r { phase = sending t })

  unfoldable pub not_built : Service → Run → String → ℕ → String → ℕ → Service × Run
  not_built s r path b message now =
      if o.lacks_funds message
      then give_up (record s { pool = WorkerPool.set_balance s.pool path b (b + 1) }) r
          preflight_underfunded message now
      else throw s r (other message) now

  -- After the Solana send.
  unfoldable pub with_sent : Service → Run → BuiltTransaction → String → ℕ → Service × Run
  with_sent s r t tx now =
      let s' = update_job s r (record no_change {
        state = some JobStore.sign_sent;
        solana_tx = some tx;
        timings = record no_timings { sign_sent_at = some now };
      }) in
      (
        update_job s' r (record no_change { state = some JobStore.awaiting_signature }),
        record r { phase = signing t },
      )

  -- After `attachSignature`.
  unfoldable pub with_signer :
      Service → Run → String → BuiltTransaction → String → ℕ → Service × Run
  with_signer s r path t recovered now =
      if assert_derived_sender o (address_at s path) recovered
      then (
        update_job s r (record no_change { state = some JobStore.verified }),
        record r { phase = broadcasting t },
      )
      else give_up s r derivation_mismatch (o.say (mismatched (address_at s path) recovered)) now

  -- A broadcast that failed, or was not seen confirmed: the address is withheld before its lease ends.
  unfoldable pub withhold :
      Service
      → Run
      → String
      → BuiltTransaction
      → JobStore.FailureReason
      → String
      → ℕ
      → Service × Run
  withhold s r path t reason message now =
      give_up (record s { pool = WorkerPool.quarantine s.pool path t.nonce }) r reason message now

  -- After the receipt.
  unfoldable pub with_receipt : Service → Run → Bool → ℕ → Service × Run
  with_receipt s r success now =
      if success
      then await_respond (
          release_lease
            (update_job s r (record no_change {
              state = some JobStore.confirmed;
              timings = record no_timings { confirmed_at = some now };
            }))
            r now)
      else give_up s r transaction_reverted (o.say reverted) now

  -- After the respond event.
  unfoldable pub with_respond : Service → Run → String → ℕ → Service × Run
  with_respond s r output now =
      let s' = update_job s r (record no_change {
        serialized_output = some output;
        timings = record no_timings { responded_at = some now };
      }) in
      if str_eq output expected_serialized_output
      then finish
          (update_job s' r (record no_change {
            state = some JobStore.responded;
            timings = record no_timings { finished_at = some now };
          }))
          r now
      else give_up s' r respond_mismatch (o.say (unexpected_output output)) now

  -- The phases before a lease.
  unfoldable pub resume_unleased : Service → Run → Phase → Reply → ℕ → Service × Run
  resume_unleased s r deriving_addresses (derived addresses) now =
      let s' = ready s addresses in
      to_reconcile s' r (map (λ w. w.path) (WorkerPool.quarantined s'.pool)) now
  resume_unleased s r (reconciling (path ∷ paths)) (counts latest pending) now =
      to_reconcile (record s { pool = WorkerPool.reconcile s.pool path (ltb latest pending) }) r
        paths now
  resume_unleased s r (refreshing (path ∷ paths)) (balance b) now =
      to_refresh (record s { pool = WorkerPool.set_balance s.pool path b config.min_balance_wei }) r
        paths now
  resume_unleased s r over reply now = (s, r)
  resume_unleased s r (parked t) settled now = collect s r t now
  resume_unleased s r (parked t) (threw e) now = (s, r)
  resume_unleased s r p (threw e) now = throw s r (other e) now
  resume_unleased s r p reply now = (s, r)

  -- The phases of a leased address, `path`.
  unfoldable pub resume_leased : Service → Run → String → Phase → Reply → ℕ → Service × Run
  resume_leased s r path preflight (balance b) now = with_balance s r path b now
  resume_leased s r path (building b) (built t request_id) now =
      with_built s r path b t request_id now
  resume_leased s r path (building b) (threw e) now = not_built s r path b e now
  resume_leased s r path (sending t) (solana_sent tx) now = with_sent s r t tx now
  resume_leased s r path (signing t) signature now = (
    update_job s r (record no_change { timings = record no_timings { signature_at = some now } }),
    record r { phase = attaching t },
  )
  resume_leased s r path (signing t) (threw e) now = give_up s r signature_timeout e now
  resume_leased s r path (attaching t) (attached recovered) now =
      with_signer s r path t recovered now
  resume_leased s r path (broadcasting t) (eth_hash hash) now = (
    update_job s r (record no_change {
      state = some JobStore.broadcast;
      eth_tx_hash = some hash;
      timings = record no_timings { broadcast_at = some now };
    }),
    record r { phase = confirming t },
  )
  resume_leased s r path (broadcasting t) (threw e) now = withhold s r path t broadcast_failed e now
  resume_leased s r path (confirming t) (receipt success) now = with_receipt s r success now
  resume_leased s r path (confirming t) (threw e) now =
      withhold s r path t confirmation_timeout e now
  resume_leased s r path responding (respond output) now = with_respond s r output now
  resume_leased s r path responding (threw e) now = give_up s r respond_timeout e now
  resume_leased s r path over reply now = (s, r)
  resume_leased s r path p (threw e) now = throw s r (other e) now
  resume_leased s r path p reply now = (s, r)

  -- A reply that the run does not wait for changes nothing.
  abbrev pub resume_by : Option String → Service → Run → Reply → ℕ → Service × Run
  resume_by none s r reply now = resume_unleased s r r.phase reply now
  resume_by (some path) s r reply now = resume_leased s r path r.phase reply now

  unfoldable pub resume : Service → Run → Reply → ℕ → Service × Run
  unfolding resume_unleased resume_leased
  resume s r reply now = resume_by r.worker s r reply now

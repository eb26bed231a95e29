-- ===== src/Service/Proceeding.antt =====
-- The job of a run over the steps up to the respond leg.
use contract_pinger.Common.{
  ℕ, ◌+◌, ◌≡◌, refl, sym, subst, inl, inr, true, List, [], ◌∷◌, map, some, String, ltb, arith,
  Option-cases,
}
use contract_pinger.BidirectionalTx.{BuiltTransaction}
use contract_pinger.WorkerPool.{
  Settlement, granted, refused, Pledge, kept, open_until, find, set_balance, quarantine,
  quarantined, reconcile, acquire_within,
}
use contract_pinger.JobStore.{
  JobRecord, JobStore, JobPatch, no_change, no_timings, FailureReason, is_finished, is_awaiting,
  is_active, merge, preflight_underfunded, signature_timeout, derivation_mismatch, broadcast_failed,
  confirmation_timeout, transaction_reverted, respond_timeout, respond_mismatch,
}
use contract_pinger.JobStore
use contract_pinger.JobStore.Moves.{Holds, stays-Moves}
use contract_pinger.Service.{
  Config, Service, Run, Phase, deriving_addresses, reconciling, refreshing, parked, preflight,
  building, sending, signing, broadcasting, over, Reply, derived, counts, balance, settled, threw,
  shutdown_error, other, run_error_of, update_job,
}
use contract_pinger.Service.Steps.{
  Outside, address_at, assert_derived_sender, settlement_of, leased, settle, await_pledge, to_lease,
  to_refresh, to_reconcile, wants_refresh, ready, collect, with_balance, with_built, not_built,
  with_sent, with_signer, withhold, resume_unleased,
}
use contract_pinger.Service.Resuming.{collect-none, collect-some, dropped}
use contract_pinger.Service.Stages.{
  Expected, IsActive, Proceeds, give_up-Proceeds, throw-Proceeds, if-Proceeds, IsWork,
  work-Proceeds, patch-Moves, after-Proceeds, at_work,
}

module _ (r : Run) where
  abbrev Works : Service → Type 0
  Works s = Holds IsActive s.jobs r.job_id

  leased-Proceeds :
      (s : Service) (path : String) (now : ℕ) → Works s → Proceeds s.jobs r (leased s r path now)
  unfolding leased
  leased-Proceeds s path now h =
      let patch : JobPatch = record no_change {
        path = some path;
        derived_address = some (address_at s path);
        timings = record no_timings { lease_acquired_at = some now };
      } in
      let s' = update_job s r patch in
      after-Proceeds r.job_id IsActive s.jobs s'.jobs r
        (s', record r { worker = some path; phase = preflight }) refl (patch-Moves s r patch refl h)
        (λ h'.
          let f = work-Proceeds s' r preflight (refl, refl) h' in
          record { same_run = refl; moved = f.moved })

  settle-Proceeds :
      (s : Service) (st : Settlement) (now : ℕ) → Works s → Proceeds s.jobs r (settle s r st now)
  unfolding settle
  settle-Proceeds s (granted path) now h = leased-Proceeds s path now h
  settle-Proceeds s (refused e) now h = throw-Proceeds s r (run_error_of e) now

  await_pledge-Proceeds :
      (s : Service) (pledge : Pledge) (now : ℕ)
      → Works s
      → Proceeds s.jobs r (await_pledge s r pledge now)
  unfolding await_pledge
  await_pledge-Proceeds s (kept st) now h = settle-Proceeds s st now h
  await_pledge-Proceeds s (open_until t) now h = work-Proceeds s r (parked t) (refl, refl) h

  to_lease-Proceeds : (s : Service) (now : ℕ) → Works s → Proceeds s.jobs r (to_lease s r now)
  unfolding to_lease
  to_lease-Proceeds s now h =
      if-Proceeds s.jobs r r.aborted _ _ (throw-Proceeds s r shutdown_error now) (
        await_pledge-Proceeds (record s { pool = (acquire_within s.pool now).0 })
          (acquire_within s.pool now).1 now h)

  to_refresh-Proceeds :
      (s : Service) (paths : List String) (now : ℕ)
      → Works s
      → Proceeds s.jobs r (to_refresh s r paths now)
  unfolding to_refresh
  to_refresh-Proceeds s [] now h = to_lease-Proceeds s now h
  to_refresh-Proceeds s (path ∷ paths) now h =
      if-Proceeds s.jobs r (wants_refresh (find path s.pool.workers)) _ _
        (work-Proceeds s r (refreshing (path ∷ paths)) (refl, refl) h)
        (to_refresh-Proceeds s paths now h)

  to_reconcile-Proceeds :
      (s : Service) (paths : List String) (now : ℕ)
      → Works s
      → Proceeds s.jobs r (to_reconcile s r paths now)
  unfolding to_reconcile
  to_reconcile-Proceeds s [] now h = to_refresh-Proceeds s (map (λ w. w.path) s.pool.workers) now h
  to_reconcile-Proceeds s (path ∷ paths) now h =
      work-Proceeds s r (reconciling (path ∷ paths)) (refl, refl) h

  pub same-Proceeds :
      (s : Service) → Holds (Expected r.phase) s.jobs r.job_id → Proceeds s.jobs r (s, r)
  same-Proceeds s h = record {
    same_run = refl;
    moved = stays-Moves r.job_id (Expected r.phase) s.jobs h;
  }

  pub works :
      (s : Service) (p : Phase)
      → r.phase ≡ p
      → IsWork p
      → Holds (Expected r.phase) s.jobs r.job_id
      → Works s
  works s p e w h job f =
      let x : Expected p job = subst (λ q. Expected q job) e (h job f) in ground arith

  collect-Proceeds :
      (s : Service) (t now : ℕ)
      → Works s
      → Holds (Expected r.phase) s.jobs r.job_id
      → Proceeds s.jobs r (collect s r t now)
  collect-Proceeds s t now w h = elim (Option-cases (settlement_of t s.pool.settled)) [
    | inl unsettled ↦
        subst (Proceeds s.jobs r) (sym (collect-none s r t now unsettled)) (same-Proceeds s h)
    | inr (st, came) ↦
        subst (Proceeds s.jobs r) (sym (collect-some s r t now st came))
          (settle-Proceeds (dropped s t) st now w)
  ]

  ready-jobs :
      (s : Service) (addresses : List (String × String)) → (ready s addresses).jobs ≡ s.jobs
  ready-jobs s addresses = ground arith

-- The phases before a lease.
module _ (o : Outside) (config : Config) (s : Service) (r : Run)
    (h : Holds (Expected r.phase) s.jobs r.job_id) where
  pub resume_unleased-Proceeds :
      (p : Phase) (reply : Reply) (now : ℕ)
      → r.phase ≡ p
      → Proceeds s.jobs r (resume_unleased o config s r p reply now)
  unfolding resume_unleased
  resume_unleased-Proceeds deriving_addresses (derived addresses) now e =
      let s' = ready s addresses in
      let same = ready-jobs r s addresses in
      subst (λ t. Proceeds t r (to_reconcile s' r (map (λ w. w.path) (quarantined s'.pool)) now))
        same
        (to_reconcile-Proceeds r s' (map (λ w. w.path) (quarantined s'.pool)) now (
          subst (λ t. Holds IsActive t r.job_id) (sym same)
            (works r s deriving_addresses e (refl, refl) h)))
  resume_unleased-Proceeds (reconciling (path ∷ paths)) (counts latest pending) now e =
      to_reconcile-Proceeds r (record s { pool = reconcile s.pool path (ltb latest pending) }) paths
        now (works r s (reconciling (path ∷ paths)) e (refl, refl) h)
  resume_unleased-Proceeds (refreshing (path ∷ paths)) (balance b) now e =
      to_refresh-Proceeds r (record s { pool = set_balance s.pool path b config.min_balance_wei })
        paths now (works r s (refreshing (path ∷ paths)) e (refl, refl) h)
  resume_unleased-Proceeds over reply now e = same-Proceeds r s h
  resume_unleased-Proceeds (parked t) settled now e =
      collect-Proceeds r s t now (works r s (parked t) e (refl, refl) h) h
  resume_unleased-Proceeds (parked t) (threw m) now e = same-Proceeds r s h
  resume_unleased-Proceeds p (threw m) now e = throw-Proceeds s r (other m) now
  resume_unleased-Proceeds p reply now e = same-Proceeds r s h

  -- The phases of a leased address, from the balance to the respond event.
  pub patch_to :
      (patch : JobPatch) (p : Phase)
      → at_work patch.state ≡ true
      → IsWork p
      → Holds IsActive s.jobs r.job_id
      → Proceeds s.jobs r (update_job s r patch, record r { phase = p })
  patch_to patch p a w k =
      let s' = update_job s r patch in
      after-Proceeds r.job_id IsActive s.jobs s'.jobs r (s', record r { phase = p }) refl
        (patch-Moves s r patch a k) (λ k'. work-Proceeds s' r p w k')

  pub with_balance-Proceeds :
      (path : String) (b now : ℕ)
      → Holds IsActive s.jobs r.job_id
      → Proceeds s.jobs r (with_balance o config s r path b now)
  unfolding with_balance
  with_balance-Proceeds path b now k =
      if-Proceeds s.jobs r (ltb b config.min_balance_wei) _ _
        (give_up-Proceeds (record s { pool = set_balance s.pool path b config.min_balance_wei }) r
          preflight_underfunded _ now)
        (if-Proceeds s.jobs r r.aborted _ _ (throw-Proceeds s r shutdown_error now)
          (work-Proceeds s r (building b) (refl, refl) k))

  pub with_built-Proceeds :
      (path : String) (b : ℕ) (t : BuiltTransaction) (id : String) (now : ℕ)
      → Holds IsActive s.jobs r.job_id
      → Proceeds s.jobs r (with_built o config s r path b t id now)
  unfolding with_built
  with_built-Proceeds path b t id now k =
      let patch : JobPatch = record no_change { request_id = some id; nonce = some t.nonce } in
      let s' = update_job s r patch in
      if-Proceeds s.jobs r (ltb b t.gas_cost_wei) _ _
        (give_up-Proceeds (record s { pool = set_balance s.pool path b t.gas_cost_wei }) r
          preflight_underfunded _ now)
        (after-Proceeds r.job_id IsActive s.jobs s'.jobs r _ refl (patch-Moves s r patch refl k)
          (λ k'.
            if-Proceeds s'.jobs r r.aborted _ _ (throw-Proceeds s' r shutdown_error now)
              (work-Proceeds s' r (sending t) (refl, refl) k')))

  pub not_built-Proceeds :
      (path : String) (b : ℕ) (message : String) (now : ℕ)
      → Proceeds s.jobs r (not_built o config s r path b message now)
  unfolding not_built
  not_built-Proceeds path b message now =
      if-Proceeds s.jobs r (o.lacks_funds message) _ _
        (give_up-Proceeds (record s { pool = set_balance s.pool path b (b + 1) }) r
          preflight_underfunded message now)
        (throw-Proceeds s r (other message) now)

  pub with_sent-Proceeds :
      (t : BuiltTransaction) (tx : String) (now : ℕ)
      → Holds IsActive s.jobs r.job_id
      → Proceeds s.jobs r (with_sent o config s r t tx now)
  unfolding with_sent
  with_sent-Proceeds t tx now k =
      let patch : JobPatch = record no_change {
        state = some JobStore.sign_sent;
        solana_tx = some tx;
        timings = record no_timings { sign_sent_at = some now };
      } in
      let s' = update_job s r patch in
      let s'' = update_job s' r (record no_change { state = some JobStore.awaiting_signature }) in
      after-Proceeds r.job_id IsActive s.jobs s'.jobs r _ refl (patch-Moves s r patch refl k) (λ k'.
        after-Proceeds r.job_id IsActive s'.jobs s''.jobs r _ refl
          (patch-Moves s' r (record no_change { state = some JobStore.awaiting_signature }) refl k')
          (λ k''. work-Proceeds s'' r (signing t) (refl, refl) k''))

  pub with_signer-Proceeds :
      (path : String) (t : BuiltTransaction) (recovered : String) (now : ℕ)
      → Holds IsActive s.jobs r.job_id
      → Proceeds s.jobs r (with_signer o config s r path t recovered now)
  unfolding with_signer
  with_signer-Proceeds path t recovered now k =
      if-Proceeds s.jobs r (assert_derived_sender o (address_at s path) recovered) _ _
        (patch_to (record no_change { state = some JobStore.verified }) (broadcasting t) refl
          (refl, refl) k)
        (give_up-Proceeds s r derivation_mismatch _ now)

  pub withhold-Proceeds :
      (path : String) (t : BuiltTransaction) (reason : FailureReason) (message : String) (now : ℕ)
      → Proceeds s.jobs r (withhold o config s r path t reason message now)
  unfolding withhold
  withhold-Proceeds path t reason message now =
      give_up-Proceeds (record s { pool = quarantine s.pool path t.nonce }) r reason message now

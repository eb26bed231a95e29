-- ===== src/Service/Account.antt =====
-- The account over one step of a run that has an address, and over any step.
use contract_pinger.Common.{
  ℕ, ◌+◌, ◌≡◌, refl, sym, subst, inl, inr, Bool, true, false, some, String, ltb, str_eq,
  if◌then◌else◌, Option-cases,
}
use contract_pinger.BidirectionalTx.{BuiltTransaction, expected_serialized_output}
use contract_pinger.WorkerPool.{set_balance, quarantine}
use contract_pinger.JobStore.{
  JobPatch, no_change, no_timings, FailureReason, preflight_underfunded, signature_timeout,
  derivation_mismatch, broadcast_failed, confirmation_timeout, transaction_reverted,
  respond_timeout, respond_mismatch,
}
use contract_pinger.JobStore
use contract_pinger.Service.{
  Config, Service, Run, Phase, preflight, building, sending, signing, attaching, broadcasting,
  confirming, responding, over, Reply, balance, built, solana_sent, signature, attached, eth_hash,
  receipt, respond, threw, shutdown_error, other, give_up, release_lease, update_job,
}
use contract_pinger.Service.Steps.{
  Outside, address_at, assert_derived_sender, await_respond, with_balance, with_built, not_built,
  with_sent, with_signer, withhold, with_receipt, with_respond, resume_leased, resume_by, resume,
}
use contract_pinger.Service.Balance.{
  is_over, IsSane, Fits, Owned, Fits-Owned, Fits-trans, same-Fits, release_lease-Fits, finish-Fits,
  give_up-Fits, throw-Fits,
}
use contract_pinger.Service.Resuming.{set_balance-Fits, quarantine-Fits, resume_unleased-Fits}

-- A job's record plays no part, nor does a phase that is not the last.
module _ (s : Service) (r : Run) where
  job-Fits : (patch : JobPatch) (x : Service × Run) → Fits (update_job s r patch) r x → Fits s r x
  job-Fits patch x f = record { account = f.account; same_paths = f.same_paths; sane = f.sane }

  job-Owned : (patch : JobPatch) → Owned s r → Owned (update_job s r patch) r
  job-Owned patch o = record { backed = o.backed; distinct = o.distinct }

  -- The balance is set, or the address withheld, before the run gives up.
  poor-Fits :
      (path : String) (b minimum : ℕ) (message : String) (now : ℕ)
      → Owned s r
      → Fits s r (
          give_up
            (record s { pool = set_balance s.pool path b minimum })
            r
            preflight_underfunded
            message
            now)
  poor-Fits path b minimum message now o =
      let s' : Service = record s { pool = set_balance s.pool path b minimum } in
      let f = set_balance-Fits s r path b minimum in
      Fits-trans s r (s', r) (give_up s' r preflight_underfunded message now) f
        (give_up-Fits s' r preflight_underfunded message now (Fits-Owned s r (s', r) o f))

  withhold-Fits :
      (o : Outside) (config : Config) (path : String) (t : BuiltTransaction)
      (reason : FailureReason) (message : String) (now : ℕ)
      → Owned s r
      → Fits s r (withhold o config s r path t reason message now)
  unfolding withhold
  withhold-Fits _ _ path t reason message now o =
      let s' : Service = record s { pool = quarantine s.pool path t.nonce } in
      let f = quarantine-Fits s r path t.nonce in
      Fits-trans s r (s', r) (give_up s' r reason message now) f
        (give_up-Fits s' r reason message now (Fits-Owned s r (s', r) o f))

  respond-Fits : (now : ℕ) → Owned s r → Fits s r (await_respond (release_lease s r now))
  respond-Fits now o =
      let f = release_lease-Fits s r now o in
      record {
        account = f.account;
        same_paths = f.same_paths;
        sane = λ h. record { fresh = (f.sane h).fresh; done = λ e. cc };
      }

  if-Fits :
      (b : Bool) (x y : Service × Run) → Fits s r x → Fits s r y → Fits s r (if b then x else y)
  if-Fits true x y f g = f
  if-Fits false x y f g = g

  phase-Fits : (p : Phase) → is_over p ≡ false → Fits s r (s, record r { phase = p })
  phase-Fits p e = record {
    account = λ q. refl;
    same_paths = λ q. refl;
    sane = λ h. record { fresh = h.fresh; done = λ f. cc };
  }

-- What follows an answer, in the order of the phases.
module _ (out : Outside) (config : Config) (s : Service) (r : Run) (o : Owned s r) where
  with_balance-Fits :
      (path : String) (b now : ℕ) → Fits s r (with_balance out config s r path b now)
  unfolding with_balance
  with_balance-Fits path b now =
      if-Fits s r (ltb b config.min_balance_wei) _ _
        (poor-Fits s r path b config.min_balance_wei _ now o)
        (if-Fits s r r.aborted _ _ (throw-Fits s r shutdown_error now o)
          (phase-Fits s r (building b) refl))

  with_built-Fits :
      (path : String) (b : ℕ) (t : BuiltTransaction) (id : String) (now : ℕ)
      → Fits s r (with_built out config s r path b t id now)
  unfolding with_built
  with_built-Fits path b t id now =
      let patch : JobPatch = record no_change { request_id = some id; nonce = some t.nonce } in
      let s' = update_job s r patch in
      if-Fits s r (ltb b t.gas_cost_wei) _ _ (poor-Fits s r path b t.gas_cost_wei _ now o) (
        job-Fits s r patch _ (
          if-Fits s' r r.aborted _ _ (throw-Fits s' r shutdown_error now (job-Owned s r patch o))
            (phase-Fits s' r (sending t) refl)))

  not_built-Fits :
      (path : String) (b : ℕ) (message : String) (now : ℕ)
      → Fits s r (not_built out config s r path b message now)
  unfolding not_built
  not_built-Fits path b message now =
      if-Fits s r (out.lacks_funds message) _ _ (poor-Fits s r path b (b + 1) message now o)
        (throw-Fits s r (other message) now o)

  with_sent-Fits :
      (t : BuiltTransaction) (tx : String) (now : ℕ) → Fits s r (with_sent out config s r t tx now)
  unfolding with_sent
  with_sent-Fits t tx now =
      let f = phase-Fits s r (signing t) refl in
      record { account = f.account; same_paths = f.same_paths; sane = f.sane }

  with_signer-Fits :
      (path : String) (t : BuiltTransaction) (recovered : String) (now : ℕ)
      → Fits s r (with_signer out config s r path t recovered now)
  unfolding with_signer
  with_signer-Fits path t recovered now =
      let f = phase-Fits s r (broadcasting t) refl in
      if-Fits s r (assert_derived_sender out (address_at s path) recovered) _ _
        (record { account = f.account; same_paths = f.same_paths; sane = f.sane })
        (give_up-Fits s r derivation_mismatch _ now o)

  with_receipt-Fits :
      (success : Bool) (now : ℕ) → Fits s r (with_receipt out config s r success now)
  unfolding with_receipt
  with_receipt-Fits success now =
      let patch : JobPatch = record no_change {
        state = some JobStore.confirmed;
        timings = record no_timings { confirmed_at = some now };
      } in
      if-Fits s r success _ _
        (job-Fits s r patch _ (respond-Fits (update_job s r patch) r now (job-Owned s r patch o)))
        (give_up-Fits s r transaction_reverted _ now o)

  with_respond-Fits :
      (output : String) (now : ℕ) → Fits s r (with_respond out config s r output now)
  unfolding with_respond
  with_respond-Fits output now =
      let patch : JobPatch = record no_change {
        serialized_output = some output;
        timings = record no_timings { responded_at = some now };
      } in
      let closing : JobPatch = record no_change {
        state = some JobStore.responded;
        timings = record no_timings { finished_at = some now };
      } in
      let s' = update_job s r patch in
      let o' = job-Owned s r patch o in
      job-Fits s r patch _ (
        if-Fits s' r (str_eq output expected_serialized_output) _ _
          (job-Fits s' r closing _
            (finish-Fits (update_job s' r closing) r now (job-Owned s' r closing o')))
          (give_up-Fits s' r respond_mismatch _ now o'))

  resume_leased-Fits :
      (path : String) (p : Phase) (reply : Reply) (now : ℕ)
      → Fits s r (resume_leased out config s r path p reply now)
  unfolding resume_leased
  resume_leased-Fits path preflight (balance b) now = with_balance-Fits path b now
  resume_leased-Fits path (building b) (built t id) now = with_built-Fits path b t id now
  resume_leased-Fits path (building b) (threw e) now = not_built-Fits path b e now
  resume_leased-Fits path (sending t) (solana_sent tx) now = with_sent-Fits t tx now
  resume_leased-Fits path (signing t) signature now =
      let f = phase-Fits s r (attaching t) refl in
      record { account = f.account; same_paths = f.same_paths; sane = f.sane }
  resume_leased-Fits path (signing t) (threw e) now = give_up-Fits s r signature_timeout e now o
  resume_leased-Fits path (attaching t) (attached recovered) now =
      with_signer-Fits path t recovered now
  resume_leased-Fits path (broadcasting t) (eth_hash hash) now =
      let f = phase-Fits s r (confirming t) refl in
      record { account = f.account; same_paths = f.same_paths; sane = f.sane }
  resume_leased-Fits path (broadcasting t) (threw e) now =
      withhold-Fits s r out config path t broadcast_failed e now o
  resume_leased-Fits path (confirming t) (receipt success) now = with_receipt-Fits success now
  resume_leased-Fits path (confirming t) (threw e) now =
      withhold-Fits s r out config path t confirmation_timeout e now o
  resume_leased-Fits path responding (respond output) now = with_respond-Fits output now
  resume_leased-Fits path responding (threw e) now = give_up-Fits s r respond_timeout e now o
  resume_leased-Fits path over reply now = same-Fits s r
  resume_leased-Fits path p (threw e) now = throw-Fits s r (other e) now o
  resume_leased-Fits path p reply now = same-Fits s r

  pub resume-Fits :
      (reply : Reply) (now : ℕ) → IsSane r → Fits s r (resume out config s r reply now)
  unfolding resume
  resume-Fits reply now h = elim (Option-cases r.worker) [
    | inl nobody ↦
        subst (λ w. Fits s r (resume_by out config w s r reply now)) (sym nobody)
          (resume_unleased-Fits out config s r r.phase reply now nobody (h.fresh nobody) o)
    | inr (path, holder) ↦
        subst (λ w. Fits s r (resume_by out config w s r reply now)) (sym holder)
          (resume_leased-Fits path r.phase reply now)
  ]

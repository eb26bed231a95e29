-- ===== src/Service/Settling.antt =====
-- The last phases of a run, and all of them.
use contract_pinger.Common.{
  ℕ, ◌≡◌, refl, sym, subst, Bool, true, Option, none, some, String, str_eq, arith,
}
use contract_pinger.BidirectionalTx.{expected_serialized_output}
use contract_pinger.JobStore.{
  JobRecord, JobStore, JobPatch, no_change, no_timings, FailureReason, is_finished, is_awaiting,
  is_active, merge, preflight_underfunded, signature_timeout, derivation_mismatch, broadcast_failed,
  confirmation_timeout, transaction_reverted, respond_timeout, respond_mismatch,
}
use contract_pinger.JobStore
use contract_pinger.JobStore.Moves.{Holds, Moves, stays-Moves, update-Moves}
use contract_pinger.Service.{
  Config, Service, Run, Phase, preflight, building, sending, signing, attaching, broadcasting,
  confirming, responding, over, Reply, balance, built, solana_sent, signature, attached, eth_hash,
  receipt, respond, threw, other, finish, release_lease, update_job,
}
use contract_pinger.Service.Steps.{
  Outside, await_respond, with_receipt, with_respond, resume_leased, resume_by, resume,
}
use contract_pinger.Service.Stages.{
  Expected, IsActive, Proceeds, release_lease-jobs, finish-jobs, give_up-Proceeds, throw-Proceeds,
  if-Proceeds, after-Proceeds,
}
use contract_pinger.Service.Proceeding.{
  same-Proceeds, works, resume_unleased-Proceeds, patch_to, with_balance-Proceeds,
  with_built-Proceeds, not_built-Proceeds, with_sent-Proceeds, with_signer-Proceeds,
  withhold-Proceeds,
}

abbrev IsAwaiting : JobRecord → Type 0
IsAwaiting job = is_awaiting job ≡ true

abbrev IsFinished : JobRecord → Type 0
IsFinished job = is_finished job ≡ true

finish-Proceeds :
    (s : Service) (r : Run) (now : ℕ)
    → Holds IsFinished s.jobs r.job_id
    → Proceeds s.jobs r (finish s r now)
finish-Proceeds s r now k =
    let (same, id, phase) = finish-jobs s r now in
    record {
      same_run = id;
      moved =
          subst (λ p. Moves r.job_id (Expected p) s.jobs (finish s r now).0.jobs) (sym phase)
            (subst (λ t. Moves r.job_id IsFinished s.jobs t) (sym same)
              (stays-Moves r.job_id IsFinished s.jobs k));
    }

await_respond-Proceeds :
    (s : Service) (r : Run) (now : ℕ)
    → Holds IsAwaiting s.jobs r.job_id
    → Proceeds s.jobs r (await_respond (release_lease s r now))
await_respond-Proceeds s r now k =
    let (same, id) = release_lease-jobs s r now in
    record {
      same_run = id;
      moved =
          subst (λ t. Moves r.job_id IsAwaiting s.jobs t) (sym same)
            (stays-Moves r.job_id IsAwaiting s.jobs k);
    }

module _ (o : Outside) (config : Config) (s : Service) (r : Run) where
  with_receipt-Proceeds :
      (success : Bool) (now : ℕ)
      → Holds IsActive s.jobs r.job_id
      → Proceeds s.jobs r (with_receipt o config s r success now)
  unfolding with_receipt
  with_receipt-Proceeds success now k =
      let patch : JobPatch = record no_change {
        state = some JobStore.confirmed;
        timings = record no_timings { confirmed_at = some now };
      } in
      let s' = update_job s r patch in
      if-Proceeds s.jobs r success _ _
        (after-Proceeds r.job_id IsAwaiting s.jobs s'.jobs r _ refl
          (update-Moves r.job_id IsActive IsAwaiting s.jobs patch (λ job a. (ground arith, refl)) k)
          (λ k'. await_respond-Proceeds s' r now k'))
        (give_up-Proceeds s r transaction_reverted _ now)

  with_respond-Proceeds :
      (output : String) (now : ℕ)
      → Holds IsAwaiting s.jobs r.job_id
      → Proceeds s.jobs r (with_respond o config s r output now)
  unfolding with_respond
  with_respond-Proceeds output now k =
      let patch : JobPatch = record no_change {
        serialized_output = some output;
        timings = record no_timings { responded_at = some now };
      } in
      let closing : JobPatch = record no_change {
        state = some JobStore.responded;
        timings = record no_timings { finished_at = some now };
      } in
      let s' = update_job s r patch in
      let s'' = update_job s' r closing in
      after-Proceeds r.job_id IsAwaiting s.jobs s'.jobs r _ refl
        (update-Moves r.job_id IsAwaiting IsAwaiting s.jobs patch (λ job a. (omega arith, a)) k)
        (λ k'.
          if-Proceeds s'.jobs r (str_eq output expected_serialized_output) _ _
            (after-Proceeds r.job_id IsFinished s'.jobs s''.jobs r _ refl
              (update-Moves r.job_id IsAwaiting IsFinished s'.jobs closing
                (λ job a. (ground arith, refl)) k')
              (λ k''. finish-Proceeds s'' r now k''))
            (give_up-Proceeds s' r respond_mismatch _ now))

module _ (o : Outside) (config : Config) (s : Service) (r : Run)
    (h : Holds (Expected r.phase) s.jobs r.job_id) where
  awaits : r.phase ≡ responding → Holds IsAwaiting s.jobs r.job_id
  awaits e job f = subst (λ q. Expected q job) e (h job f)

  resume_leased-Proceeds :
      (path : String) (p : Phase) (reply : Reply) (now : ℕ)
      → r.phase ≡ p
      → Proceeds s.jobs r (resume_leased o config s r path p reply now)
  unfolding resume_leased
  resume_leased-Proceeds path preflight (balance b) now e =
      with_balance-Proceeds o config s r h path b now (works r s preflight e (refl, refl) h)
  resume_leased-Proceeds path (building b) (built t id) now e =
      with_built-Proceeds o config s r h path b t id now (works r s (building b) e (refl, refl) h)
  resume_leased-Proceeds path (building b) (threw m) now e =
      not_built-Proceeds o config s r h path b m now
  resume_leased-Proceeds path (sending t) (solana_sent tx) now e =
      with_sent-Proceeds o config s r h t tx now (works r s (sending t) e (refl, refl) h)
  resume_leased-Proceeds path (signing t) signature now e =
      patch_to o config s r h
        (record no_change { timings = record no_timings { signature_at = some now } }) (attaching t)
        refl (refl, refl) (works r s (signing t) e (refl, refl) h)
  resume_leased-Proceeds path (signing t) (threw m) now e =
      give_up-Proceeds s r signature_timeout m now
  resume_leased-Proceeds path (attaching t) (attached recovered) now e =
      with_signer-Proceeds o config s r h path t recovered now
        (works r s (attaching t) e (refl, refl) h)
  resume_leased-Proceeds path (broadcasting t) (eth_hash hash) now e =
      patch_to o config s r h
        (record no_change {
          state = some JobStore.broadcast;
          eth_tx_hash = some hash;
          timings = record no_timings { broadcast_at = some now };
        })
        (confirming t) refl (refl, refl) (works r s (broadcasting t) e (refl, refl) h)
  resume_leased-Proceeds path (broadcasting t) (threw m) now e =
      withhold-Proceeds o config s r h path t broadcast_failed m now
  resume_leased-Proceeds path (confirming t) (receipt success) now e =
      with_receipt-Proceeds o config s r success now (works r s (confirming t) e (refl, refl) h)
  resume_leased-Proceeds path (confirming t) (threw m) now e =
      withhold-Proceeds o config s r h path t confirmation_timeout m now
  resume_leased-Proceeds path responding (respond output) now e =
      with_respond-Proceeds o config s r output now (awaits e)
  resume_leased-Proceeds path responding (threw m) now e =
      give_up-Proceeds s r respond_timeout m now
  resume_leased-Proceeds path over reply now e = same-Proceeds r s h
  resume_leased-Proceeds path p (threw m) now e = throw-Proceeds s r (other m) now
  resume_leased-Proceeds path p reply now e = same-Proceeds r s h

  resume_by-Proceeds :
      (w : Option String) (reply : Reply) (now : ℕ)
      → Proceeds s.jobs r (resume_by o config w s r reply now)
  resume_by-Proceeds none reply now = resume_unleased-Proceeds o config s r h r.phase reply now refl
  resume_by-Proceeds (some path) reply now = resume_leased-Proceeds path r.phase reply now refl

  pub resume-Proceeds :
      (reply : Reply) (now : ℕ) → Proceeds s.jobs r (resume o config s r reply now)
  unfolding resume
  resume-Proceeds reply now = resume_by-Proceeds r.worker reply now

-- ===== src/Service/Stages.antt =====
-- What the job of a run should say at each phase of the run.
use contract_pinger.Common.{
  ℕ, ◌≤◌, ◌≡◌, refl, sym, subst, Bool, true, false, not, ◌&&◌, Option, none, some, String,
  if◌then◌else◌, arith,
}
use contract_pinger.JobStore.{
  JobRecord, JobStore, JobPatch, no_change, no_timings, FailureReason, is_finished, is_awaiting,
  is_active, merge, preflight_underfunded, signature_timeout, derivation_mismatch, broadcast_failed,
  confirmation_timeout, transaction_reverted, respond_timeout, respond_mismatch,
}
use contract_pinger.JobStore
use contract_pinger.JobStore.Capacity.{stage}
use contract_pinger.JobStore.Moves.{
  Holds, Moves, stays-Moves, Moves-trans, update-Moves, fail-Moves,
}
use contract_pinger.Service.{
  Service, Run, Phase, responding, over, RunError, reason_of, text_of, finish, fail_job, give_up,
  throw, release_lease, update_job,
}
use contract_pinger.Service.Balance.{is_over}

abbrev pub is_responding : Phase → Bool
is_responding responding = true
is_responding _ = false

-- A job is finished once its run is over, awaits the respond while the run does, and is at work
-- before.
abbrev pub expected_of : Phase → JobRecord → Bool
expected_of p job =
    if is_over p
    then is_finished job
    else if is_responding p
    then is_awaiting job
    else is_active job

abbrev pub Expected : Phase → JobRecord → Type 0
Expected p job = expected_of p job ≡ true

abbrev pub IsActive : JobRecord → Type 0
IsActive job = is_active job ≡ true

-- A piece of a run: the calls are for its own job, and the job is where the phase is.
pub record Proceeds (jobs : JobStore) (r : Run) (x : Service × Run) : Type 0 where
  pub same_run : x.1.job_id ≡ r.job_id
  pub moved : Moves r.job_id (Expected x.1.phase) jobs x.0.jobs

pub release_lease-jobs :
    (s : Service) (r : Run) (now : ℕ)
    → ((release_lease s r now).0.jobs ≡ s.jobs) × ((release_lease s r now).1.job_id ≡ r.job_id)
unfolding release_lease
release_lease-jobs s r now = (ground arith, ground arith)

pub finish-jobs :
    (s : Service) (r : Run) (now : ℕ)
    → ((finish s r now).0.jobs ≡ s.jobs)
      × ((finish s r now).1.job_id ≡ r.job_id)
      × ((finish s r now).1.phase ≡ over)
unfolding finish
finish-jobs s r now =
    (ground (arith, release_lease-jobs s r now), ground (arith, release_lease-jobs s r now), refl)

pub give_up-Proceeds :
    (s : Service) (r : Run) (reason : FailureReason) (message : String) (now : ℕ)
    → Proceeds s.jobs r (give_up s r reason message now)
unfolding give_up finish
give_up-Proceeds s r reason message now = record {
  same_run = (finish-jobs (fail_job s r reason message now) r now).1;
  moved =
      subst (λ t. Moves r.job_id (Expected over) s.jobs t)
        (sym (finish-jobs (fail_job s r reason message now) r now).0)
        (fail-Moves r.job_id s.jobs reason message now);
}

throw-jobs :
    (s : Service) (r : Run) (e : RunError) (now : ℕ)
    → ((throw s r e now).0.jobs ≡ JobStore.fail s.jobs r.job_id (reason_of e) (text_of e) now)
      × ((throw s r e now).1.job_id ≡ r.job_id)
      × ((throw s r e now).1.phase ≡ over)
unfolding throw
throw-jobs s r e now = let (same, id, phase) = finish-jobs s r now in (rw (same, id), id, phase)

pub throw-Proceeds :
    (s : Service) (r : Run) (e : RunError) (now : ℕ) → Proceeds s.jobs r (throw s r e now)
throw-Proceeds s r e now =
    let f = throw-jobs s r e now in
    record {
      same_run = f.1;
      moved =
          subst (λ p. Moves r.job_id (Expected p) s.jobs (throw s r e now).0.jobs) (sym f.2)
            (subst (λ t. Moves r.job_id (Expected over) s.jobs t) (sym f.0)
              (fail-Moves r.job_id s.jobs (reason_of e) (text_of e) now));
    }

pub if-Proceeds :
    (jobs : JobStore) (r : Run) (b : Bool) (x y : Service × Run)
    → Proceeds jobs r x
    → Proceeds jobs r y
    → Proceeds jobs r (if b then x else y)
if-Proceeds jobs r true x y f g = f
if-Proceeds jobs r false x y f g = g

-- A phase of work.
abbrev pub IsWork : Phase → Type 0
IsWork p = (is_over p ≡ false) × (is_responding p ≡ false)

pub work-Proceeds :
    (s : Service) (r : Run) (p : Phase)
    → IsWork p
    → Holds IsActive s.jobs r.job_id
    → Proceeds s.jobs r (s, record r { phase = p })
work-Proceeds s r p w h = record {
  same_run = refl;
  moved = stays-Moves r.job_id (Expected p) s.jobs (λ job e. let a = h job e in ground arith);
}

-- Patches of a job at work: the state that they give, if any.
abbrev pub at_work : Option JobStore.JobState → Bool
at_work none = true
at_work (some st) = not (JobStore.finished_state st) && not (JobStore.confirmed_state st)

pub patch-Moves :
    (s : Service) (r : Run) (patch : JobPatch)
    → at_work patch.state ≡ true
    → Holds IsActive s.jobs r.job_id
    → Moves r.job_id IsActive s.jobs (update_job s r patch).jobs
patch-Moves s r patch w h =
    update-Moves r.job_id IsActive IsActive s.jobs patch
      (λ job a. patched job.state patch.state a w) h
  where
    patched :
        (old : JobStore.JobState) (new : Option JobStore.JobState)
        → (not (JobStore.finished_state old) && not (JobStore.confirmed_state old)) ≡ true
        → at_work new ≡ true
        → (stage old ≤ stage (JobStore.given new old))
          × ((not (JobStore.finished_state (JobStore.given new old))
                && not (JobStore.confirmed_state (JobStore.given new old)))
              ≡ true)
    patched old none a w = (omega arith, a)
    patched old (some st) a w = (ground arith, w)

pub after-Proceeds :
    (id : String) (P : JobRecord → Type 0) (jobs jobs' : JobStore) (r : Run) (x : Service × Run)
    → r.job_id ≡ id
    → Moves id P jobs jobs'
    → (Holds P jobs' id → Proceeds jobs' r x)
    → Proceeds jobs r x
after-Proceeds id P jobs jobs' r x e m f =
    let g = f m.lands in
    record {
      same_run = g.same_run;
      moved =
          Moves-trans r.job_id P (Expected x.1.phase) jobs jobs' x.0.jobs
            (subst (λ i. Moves i P jobs jobs') (sym e) m) g.moved;
    }

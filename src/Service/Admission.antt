-- ===== src/Service/Admission.antt =====
-- A service whose jobs are admitted below the ceilings: its runs and its jobs in any history.
use contract_pinger.Common.{
  ℕ, ◌+◌, ◌-◌, ◌≤◌, ◌≡◌, refl, sym, subst, ◌∙◌, inl, inr, true, List, [], ◌∷◌, none, some, String,
  tally, All, All-append, str_eq, eq_iff, if◌then◌else◌, arith, Option-cases, tally-append,
}
use text.Mathlib.TextPositions.{eq_refl}
use contract_pinger.BidirectionalTx.{TxMode, Environment}
use contract_pinger.JobStore.{
  JobRecord, JobStore, new_job, find, put, create, at_capacity, active_count, live_count,
}
use contract_pinger.JobStore.Bounded.{new_store}
use contract_pinger.JobStore.Capacity.{Reach, here, next, admits, admitted_bound}
use contract_pinger.JobStore.Moves.{find-prune, find-put, Reach-trans}
use contract_pinger.Service.{Config, Service, Run, is_mainnet, new_service, environment_name}
use contract_pinger.Service.Steps.{Outside, ready}
use contract_pinger.Service.Stages.{expected_of}
use contract_pinger.Service.World.{
  World, Event, starts, resumes, times_out, shuts_down, sees_addresses, sees_balance, sees_counts,
  new_run, start, abort_all, abort_active_jobs, step, run, new_world,
}
use contract_pinger.Service.Finishing.{
  has_run, IsInStep, IsStaged, others-IsInStep, resume_at-Moved,
}

-- A job that a request opens below the ceilings, with an id of its own.
abbrev pub Admits : World → Event → Type 0
Admits w (starts id mode) = (at_capacity w.service.jobs ≡ none) × (tally (has_run id) w.runs ≡ 0)
Admits w _ = Unit

module _ (out : Outside) (config : Config) where
  abbrev pub IsAdmitted : World → List (ℕ × Event) → Type 0
  IsAdmitted w [] = Unit
  IsAdmitted w (e ∷ es) = Admits w e.1 × IsAdmitted (step out config w e) es

-- A service in step with its runs, reached from a store: every job has a run.
pub record IsKept (from : JobStore) (w : World) : Type 0 where
  pub staged : IsStaged w.service.jobs w.runs
  pub owned :
      (q : String) (job : JobRecord)
      → find q w.service.jobs.jobs ≡ some job
      → 1 ≤ tally (has_run q) w.runs
  pub onward : Reach from w.service.jobs

create-find :
    (s : JobStore) (id environment q : String) (mode : TxMode) (now : ℕ) (job : JobRecord)
    → find q (create s id environment mode now).jobs ≡ some job
    → (if str_eq id q then some (new_job id environment mode now) else find q s.jobs) ≡ some job
unfolding create
create-find s id environment q mode now job e =
    sym (find-put q (new_job id environment mode now) s.jobs)
    ∙ find-prune (record s { jobs = put (new_job id environment mode now) s.jobs }) q job e

create-IsInStep :
    (s : JobStore) (id environment : String) (mode : TxMode) (now : ℕ) (rs : List Run)
    → tally (has_run id) rs ≡ 0
    → All (IsInStep s) rs
    → All (IsInStep (create s id environment mode now)) rs
create-IsInStep s id environment mode now rs d h =
    others-IsInStep id s (create s id environment mode now) rs
      (λ q job n e. let f = create-find s id environment q mode now job e in ground arith) d h

abort_all-IsInStep :
    (jobs : JobStore) (rs : List Run) → All (IsInStep jobs) rs → All (IsInStep jobs) (abort_all rs)
abort_all-IsInStep jobs [] h = tt
abort_all-IsInStep jobs (r ∷ rs) h = (h.0, abort_all-IsInStep jobs rs h.1)

abort_all-runs :
    (q : String) (rs : List Run) → tally (has_run q) (abort_all rs) ≡ tally (has_run q) rs
abort_all-runs q [] = refl
abort_all-runs q (r ∷ rs) = ground (arith, abort_all-runs q rs)

-- A change of the service that leaves its jobs.
same_jobs-IsKept :
    (from : JobStore) (w : World) (s : Service)
    → s.jobs ≡ w.service.jobs
    → IsKept from w
    → IsKept from (record w { service = s })
same_jobs-IsKept from w s e v = record {
  staged = subst (λ t. IsStaged t w.runs) (sym e) v.staged;
  owned =
      subst
        (λ t.
          (q : String) (job : JobRecord) → find q t.jobs ≡ some job → 1 ≤ tally (has_run q) w.runs)
        (sym e) v.owned;
  onward = subst (Reach from) (sym e) v.onward;
}

module _ (out : Outside) (config : Config) (from : JobStore) where
  unheld :
      (w : World) (id : String)
      → tally (has_run id) w.runs ≡ 0
      → IsKept from w
      → find id w.service.jobs.jobs ≡ none
  unheld w id fresh v = elim (Option-cases (find id w.service.jobs.jobs)) [
    | inl gone ↦ gone
    | inr (job, found) ↦ let h = v.owned id job found in ground arith
  ]

  starts-IsKept :
      (w : World) (now : ℕ) (id : String) (mode : TxMode)
      → Admits w (starts id mode)
      → IsKept from w
      → IsKept from (step out config w (now, starts id mode))
  unfolding step start
  starts-IsKept w now id mode (room, fresh) v =
      let env = environment_name w.service.environment in
      let jobs = create w.service.jobs id env mode now in
      let added = λ (q : String). tally-append (has_run q) w.runs (new_run id ∷ []) in
      record {
        staged = record {
          distinct = λ q. ground (arith, v.staged.distinct q, added q, eq_iff id q);
          in_step =
              All-append (IsInStep jobs) w.runs (new_run id ∷ [])
                (create-IsInStep w.service.jobs id env mode now w.runs fresh v.staged.in_step)
                (
                  (λ job e.
                      let f = create-find w.service.jobs id env id mode now job e in
                      ground (arith, eq_refl id)),
                  tt,
                );
        };
        owned = λ q job e.
            let f = create-find w.service.jobs id env q mode now job e in
            ground (arith, added q, v.owned q job);
        onward = next v.onward (admits id env mode now room (unheld w id fresh v));
      }

  step-IsKept :
      (w : World) (e : ℕ × Event) → Admits w e.1 → IsKept from w → IsKept from (step out config w e)
  unfolding step abort_active_jobs
  step-IsKept w (now, starts id mode) a v = unfold step in starts-IsKept w now id mode a v
  step-IsKept w (now, resumes i reply) a v =
      let f = resume_at-Moved out config w.service w.runs i reply now v.staged in
      record {
        staged = record {
          distinct = λ id. omega (arith, v.staged.distinct id, f.same_runs id);
          in_step = f.in_step;
        };
        owned = λ q job e.
            let (old, g) = f.old_ids q job e in omega (arith, v.owned q old g, f.same_runs q);
        onward = Reach-trans v.onward f.onward;
      }
  step-IsKept w (now, times_out t) a v = same_jobs-IsKept from w _ refl v
  step-IsKept w (now, shuts_down) a v = record {
    staged = record {
      distinct = λ id. omega (arith, v.staged.distinct id, abort_all-runs id w.runs);
      in_step = abort_all-IsInStep w.service.jobs w.runs v.staged.in_step;
    };
    owned = λ q job e. omega (arith, v.owned q job e, abort_all-runs q w.runs);
    onward = v.onward;
  }
  step-IsKept w (now, sees_addresses addresses) a v =
      same_jobs-IsKept from w (ready w.service addresses) (ground arith) v
  step-IsKept w (now, sees_balance path b) a v = same_jobs-IsKept from w _ refl v
  step-IsKept w (now, sees_counts path latest pending) a v = same_jobs-IsKept from w _ refl v

  run-IsKept :
      (w : World) (es : List (ℕ × Event))
      → IsAdmitted out config w es
      → IsKept from w
      → IsKept from (run out config w es)
  unfolding run
  run-IsKept w [] a v = v
  run-IsKept w (e ∷ es) a v = run-IsKept (step out config w e) es a.1 (step-IsKept w e a.0 v)

-- The ceilings of an environment: mainnet's are fixed.
abbrev pub active_ceiling : Config → Environment → ℕ
active_ceiling config environment = if is_mainnet environment then 1 else config.max_active_jobs

abbrev pub respond_ceiling : Config → Environment → ℕ
respond_ceiling config environment = if is_mainnet environment then 2 else config.max_jobs

module _ (out : Outside) (show : ℕ → String) (config : Config) (environment : Environment) where
  new_store_of : JobStore
  new_store_of =
      new_store (respond_ceiling config environment) config.retained_jobs
        (active_ceiling config environment)

  new_world-IsKept : IsKept new_store_of (new_world show config environment)
  unfolding new_world new_service new_store_of find
  new_world-IsKept = record {
    staged = record { distinct = λ id. omega arith; in_step = tt };
    owned = λ q job e. cc;
    onward = here;
  }

  -- In every history of a service in which each job is admitted below both ceilings and under a new
  -- id, however the runs interleave, time out, fail or are aborted: each job that is still in the
  -- store is finished if its run is over, awaits the respond if its run does, and is at work
  -- otherwise. So no run ends and leaves its job open.
  pub runs_settle_jobs :
      (es : List (ℕ × Event))
      → IsAdmitted out config (new_world show config environment) es
      → let w = run out config (new_world show config environment) es in
        All
          (λ r.
            (job : JobRecord)
            → find r.job_id w.service.jobs.jobs ≡ some job
            → expected_of r.phase job ≡ true)
          w.runs
  runs_settle_jobs es a =
      (run-IsKept out config new_store_of (new_world show config environment) es a
        new_world-IsKept).staged.in_step

  -- In every history of a service in which each job is admitted below both ceilings and under a new
  -- id, the jobs at work never pass the environment's ceiling, and the live ones stay below the sum
  -- of its two ceilings: on mainnet one job works, and two are live, at most.
  pub service_bound :
      (es : List (ℕ × Event))
      → IsAdmitted out config (new_world show config environment) es
      → let s = (run out config (new_world show config environment) es).service in
        (active_count s.jobs ≤ active_ceiling config environment)
        × (live_count s.jobs
            ≤ active_ceiling config environment + respond_ceiling config environment - 1)
  unfolding new_store_of
  service_bound es a =
      admitted_bound (respond_ceiling config environment) config.retained_jobs
        (active_ceiling config environment)
        (run-IsKept out config new_store_of (new_world show config environment) es a
          new_world-IsKept).onward

-- ===== src/Service/Finishing.antt =====
-- What the runs of a service do to its jobs, in any interleaving.
use contract_pinger.Common.{
  ℕ, zero, suc, ◌≤◌, ◌≡◌, refl, sym, subst, Bool, false, List, [], ◌∷◌, some, String, tally, All,
  str_eq, eq_iff, arith,
}
use text.Mathlib.TextPositions.{eq_refl}
use contract_pinger.JobStore.{JobRecord, JobStore, find}
use contract_pinger.JobStore.Capacity.{Reach, here}
use contract_pinger.JobStore.Moves.{Holds}
use contract_pinger.Service.{Config, Service, Run, Reply}
use contract_pinger.Service.Steps.{Outside, resume}
use contract_pinger.Service.Stages.{Expected}
use contract_pinger.Service.Settling.{resume-Proceeds}
use contract_pinger.Service.World.{resume_at}

abbrev pub has_run : String → Run → Bool
has_run id r = str_eq r.job_id id

-- The job of a run is where the run's phase is.
abbrev pub IsInStep : JobStore → Run → Type 0
IsInStep jobs r = Holds (Expected r.phase) jobs r.job_id

-- Of the runs: each has its own job, and that is where it should be.
pub record IsStaged (jobs : JobStore) (rs : List Run) : Type 0 where
  pub distinct : (id : String) → tally (has_run id) rs ≤ 1
  pub in_step : All (IsInStep jobs) rs

-- A change of the store that touches the job of one run leaves the other runs in step.
pub others-IsInStep :
    (id : String) (s t : JobStore) (rs : List Run)
    → ((q : String) (job : JobRecord)
        → str_eq id q ≡ false
        → find q t.jobs ≡ some job
        → find q s.jobs ≡ some job)
    → tally (has_run id) rs ≡ 0
    → All (IsInStep s) rs
    → All (IsInStep t) rs
others-IsInStep id s t [] same d h = tt
others-IsInStep id s t (r ∷ rs) same d h = (
  (λ job e. h.0 job (same r.job_id job (ground (arith, eq_iff r.job_id id, eq_iff id r.job_id)) e)),
  others-IsInStep id s t rs same (ground arith) h.1,
)

-- One run goes on: which store it leaves, and which runs.
pub record Moved (s : Service) (rs : List Run) (x : Service × List Run) : Type 0 where
  pub onward : Reach s.jobs x.0.jobs
  pub old_ids :
      (q : String) (job : JobRecord)
      → find q x.0.jobs.jobs ≡ some job
      → (old : JobRecord) × (find q s.jobs.jobs ≡ some old)
  pub same_runs : (id : String) → tally (has_run id) x.1 ≡ tally (has_run id) rs
  pub in_step : All (IsInStep x.0.jobs) x.1
  -- The runs that are not of this list stay in step, if they have other jobs.
  pub others :
      (q : String) (job : JobRecord)
      → tally (has_run q) rs ≡ 0
      → find q x.0.jobs.jobs ≡ some job
      → find q s.jobs.jobs ≡ some job

module _ (out : Outside) (config : Config) where
  pub resume_at-Moved :
      (s : Service) (rs : List Run) (i : ℕ) (reply : Reply) (now : ℕ)
      → IsStaged s.jobs rs
      → Moved s rs (resume_at out config s rs i reply now)
  unfolding resume_at
  resume_at-Moved s [] i reply now v = record {
    onward = here;
    old_ids = λ q job e. (job, e);
    same_runs = λ id. refl;
    in_step = tt;
    others = λ q job d e. e;
  }
  resume_at-Moved s (r ∷ rs) zero reply now v =
      let f = resume-Proceeds out config s r v.in_step.0 reply now in
      let x = resume out config s r reply now in
      let m = f.moved in
      record {
        onward = m.onward;
        old_ids = m.old_ids;
        same_runs = λ id. ground (arith, f.same_run);
        in_step = (
          subst (λ id. Holds (Expected x.1.phase) x.0.jobs id) (sym f.same_run) m.lands,
          others-IsInStep r.job_id s.jobs x.0.jobs rs m.others
              (ground (arith, v.distinct r.job_id, eq_refl r.job_id)) v.in_step.1,
        );
        others = λ q job d e. m.others q job (ground arith) e;
      }
  resume_at-Moved s (r ∷ rs) (suc i) reply now v =
      let f =
        resume_at-Moved s rs i reply now
          (record { distinct = λ id. ground (arith, v.distinct id); in_step = v.in_step.1 }) in
      record {
        onward = f.onward;
        old_ids = f.old_ids;
        same_runs = λ id. ground (arith, f.same_runs id);
        in_step = (
          (λ job e.
              v.in_step.0 job
                (f.others r.job_id job (ground (arith, v.distinct r.job_id, eq_refl r.job_id)) e)),
          f.in_step,
        );
        others = λ q job d e. f.others q job (ground arith) e;
      }

-- ===== src/Stats/Build/Sums.antt =====
-- What the figures of a service add up to.
use contract_pinger.Common.{
  ℕ, ◌+◌, ◌≡◌, refl, sym, ◌∙◌, ap, Bool, true, false, not, ◌&&◌, ◌||◌, List, [], ◌∷◌, map, String,
  str_eq, eq_iff, if◌then◌else◌, arith, is_some, length, keep, tally, All, All-map, All-intro,
  tally_no, tally-All, suc,
}
use text.Mathlib.TextPositions.{eq_refl}
use contract_pinger.JobStore.{JobRecord, live_count, is_finished}
use contract_pinger.JobStore.Bounded.{counts_partition}
use mathlib.Core.Path.{Path}
use contract_pinger.Service.{Service}
use contract_pinger.Stats.{ModeStats, mode_stats, has_responded, has_failed}
use contract_pinger.Stats.Order.{sum_counts, count_by_exact}
use contract_pinger.Stats.Build.{
  mode_name, state_name, reasons, distinct, has_mode, stats_by_mode, job_figures, build_stats,
}

abbrev pub sum_modes : (ModeStats → ℕ) → List (String × ModeStats) → ℕ
sum_modes f [] = 0
sum_modes f ((mode, m) ∷ out) = f m + sum_modes f out

abbrev in_modes : List String → JobRecord → Bool
in_modes [] j = false
in_modes (mode ∷ modes) j = has_mode mode j || in_modes modes j

abbrev sum_kept : (JobRecord → Bool) → List JobRecord → List String → ℕ
sum_kept p jobs [] = 0
sum_kept p jobs (mode ∷ modes) = tally p (keep (has_mode mode) jobs) + sum_kept p jobs modes

abbrev other_mode : String → JobRecord → Bool
other_mode mode j = not (has_mode mode j)

tally-keep_other :
    (p : JobRecord → Bool) (m mode : String) (jobs : List JobRecord)
    → tally p (keep (has_mode m) (keep (other_mode mode) jobs))
      ≡ (if str_eq m mode then 0 else tally p (keep (has_mode m) jobs))
tally-keep_other p m mode [] = ground arith
tally-keep_other p m mode (j ∷ jobs) = ground (
  arith,
  eq_iff (mode_name j.mode) mode,
  eq_iff (mode_name j.mode) m,
  eq_iff m mode,
  tally-keep_other p m mode jobs,
)

-- To leave a mode out of the sum is to leave out its jobs.
sum_kept-other :
    (p : JobRecord → Bool) (mode : String) (jobs : List JobRecord) (modes : List String)
    → sum_kept p jobs (keep (λ x. not (str_eq x mode)) modes)
      ≡ sum_kept p (keep (other_mode mode) jobs) modes
sum_kept-other p mode jobs [] = refl
sum_kept-other p mode jobs (m ∷ modes) =
    ground (arith, tally-keep_other p m mode jobs, sum_kept-other p mode jobs modes)

tally-in_modes :
    (p : JobRecord → Bool) (mode : String) (modes : List String) (jobs : List JobRecord)
    → tally p (keep (has_mode mode) jobs)
        + tally (λ j. in_modes modes j && p j) (keep (other_mode mode) jobs)
      ≡ tally (λ j. in_modes (mode ∷ modes) j && p j) jobs
tally-in_modes p mode modes [] = refl
tally-in_modes p mode modes (j ∷ jobs) = ground (arith, tally-in_modes p mode modes jobs)

sum_kept-distinct :
    (p : JobRecord → Bool) (vs : List String) (jobs : List JobRecord)
    → sum_kept p jobs (distinct vs) ≡ tally (λ j. in_modes vs j && p j) jobs
sum_kept-distinct p [] jobs =
    sym (tally_no (λ j. false) jobs (All-intro (λ j. Path Bool false false) (λ j. refl) jobs))
sum_kept-distinct p (v ∷ vs) jobs = omega (
  arith,
  sum_kept-other p v jobs (distinct vs),
  sum_kept-distinct p vs (keep (other_mode v) jobs),
  tally-in_modes p v vs jobs,
)

own_modes :
    (jobs : List JobRecord) → All (λ j. in_modes (map (λ x. mode_name x.mode) jobs) j ≡ true) jobs
own_modes [] = tt
own_modes (j ∷ jobs) =
    let modes = map (λ (x : JobRecord). mode_name x.mode) jobs in
    (
      ground (arith, eq_refl (mode_name j.mode)),
      All-map (λ x. in_modes modes x ≡ true) (λ x. in_modes (mode_name j.mode ∷ modes) x ≡ true)
          (λ x h. ground arith) jobs (own_modes jobs),
    )

tally_implied :
    (q p : JobRecord → Bool) (jobs : List JobRecord)
    → All (λ j. q j ≡ true) jobs
    → tally (λ j. q j && p j) jobs ≡ tally p jobs
tally_implied q p [] h = refl
tally_implied q p (j ∷ jobs) h = ground (arith, tally_implied q p jobs)

sum_kept_all :
    (p : JobRecord → Bool) (jobs : List JobRecord)
    → sum_kept p jobs (distinct (map (λ j. mode_name j.mode) jobs)) ≡ tally p jobs
sum_kept_all p jobs =
    sum_kept-distinct p (map (λ j. mode_name j.mode) jobs) jobs
    ∙ tally_implied (in_modes (map (λ j. mode_name j.mode) jobs)) p jobs (own_modes jobs)

sum_modes-kept :
    (f : ModeStats → ℕ) (p : JobRecord → Bool) (jobs : List JobRecord)
    → ((js : List JobRecord) → f (mode_stats js) ≡ tally p js)
    → (modes : List String) → sum_modes f (stats_by_mode jobs modes) ≡ sum_kept p jobs modes
sum_modes-kept f p jobs h [] = refl
sum_modes-kept f p jobs h (m ∷ modes) =
    omega (arith, h (keep (has_mode m) jobs), sum_modes-kept f p jobs h modes)

finished-splits :
    (jobs : List JobRecord)
    → tally is_finished jobs ≡ tally has_responded jobs + tally has_failed jobs
finished-splits [] = refl
finished-splits (j ∷ jobs) = ground (arith, finished-splits jobs)

length-tally : (jobs : List JobRecord) → length jobs ≡ tally (λ j. true) jobs
length-tally jobs =
    sym (tally-All (λ j. true) jobs (All-intro (λ j. Path Bool true true) (λ j. refl) jobs))

length-states :
    (jobs : List JobRecord)
    → length (map (λ (j : JobRecord). state_name j.state) jobs) ≡ length jobs
length-states [] = refl
length-states (j ∷ jobs) = ap suc (length-states jobs)

length-reasons :
    (jobs : List JobRecord) → length (reasons jobs) ≡ tally (λ j. is_some j.failure_reason) jobs
length-reasons [] = refl
length-reasons (j ∷ jobs) = ground (arith, length-reasons jobs)

-- The figures of a service add up. The jobs of all modes are its jobs, those of them that succeeded
-- and failed are all that did, and with the live ones these are all; the counts by state add up to
-- its jobs, and the counts by failure to those that have a reason.
pub stats_add_up :
    (s : Service) (now : ℕ)
    → let f = (build_stats s now).1 in
      (sum_modes (λ m. m.jobs_total) f.by_mode ≡ f.jobs.jobs_total)
      × (sum_modes (λ m. m.succeeded) f.by_mode
            + sum_modes (λ m. m.not_succeeded) f.by_mode
            + f.jobs.live
          ≡ f.jobs.jobs_total)
      × (sum_counts f.jobs.states ≡ f.jobs.jobs_total)
      × (sum_counts f.jobs.failures ≡ tally (λ j. is_some j.failure_reason) s.jobs.jobs)
unfolding build_stats job_figures mode_stats live_count
stats_add_up s now =
    let jobs = s.jobs.jobs in
    let modes = distinct (map (λ (j : JobRecord). mode_name j.mode) jobs) in
    (
      sum_modes-kept (λ m. m.jobs_total) (λ j. true) jobs length-tally modes
          ∙ sum_kept_all (λ j. true) jobs
          ∙ sym (length-tally jobs),
      omega (
        arith,
        sum_modes-kept (λ m. m.succeeded) has_responded jobs (λ js. refl) modes,
        sum_kept_all has_responded jobs,
        sum_modes-kept (λ m. m.not_succeeded) has_failed jobs (λ js. refl) modes,
        sum_kept_all has_failed jobs,
        finished-splits jobs,
        counts_partition s.jobs,
      ),
      (count_by_exact "" (map (λ (j : JobRecord). state_name j.state) jobs)).1 ∙ length-states jobs,
      (count_by_exact "" (reasons jobs)).1 ∙ length-reasons jobs,
    )

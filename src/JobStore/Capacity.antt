-- ===== src/JobStore/Capacity.antt =====
-- How many live jobs the store holds, if jobs are admitted below its ceilings.
use contract_pinger.Common.{
  ℕ, ◌+◌, ◌-◌, ◌≤◌, ◌<◌, ◌≡◌, ◌↔◌, refl, sym, ◌∙◌, ap, inl, inr, Bool, true, not, none, some,
  String, tally, if◌then◌else◌, arith, Bool-cases, Option-cases, tally-keep_implied,
}
use contract_pinger.BidirectionalTx.{TxMode}
use contract_pinger.JobStore.{
  JobState, JobRecord, JobPatch, JobStore, finished_state, confirmed_state, is_finished,
  is_awaiting, is_active, prune, put, new_job, create, merge, find, modify, update, active_count,
  awaiting_respond_count, live_count, active, awaiting_respond, at_capacity,
}
use contract_pinger.JobStore.Bounded.{new_store, prune_limits}
use contract_pinger.JobStore.Retention.{IsKeyed, prune_live}
use contract_pinger.JobStore.Updates.{
  put_ids, put_new, tally-modify, modify_ids, prune-IsKeyed, update_missing, update_found,
}

-- How far a job has come: at work, awaiting the respond, finished.
abbrev pub stage : JobState → ℕ
stage s = if finished_state s then 2 else if confirmed_state s then 1 else 0

-- A request is admitted below both ceilings and under a fresh id; a job never falls back.
pub data Step (s : JobStore) : JobStore → Type 0 where
  admits :
      (id environment : String) (mode : TxMode) (now : ℕ)
      → at_capacity s ≡ none
      → find id s.jobs ≡ none
      → Step s (create s id environment mode now)
  advances :
      (id : String) (p : JobPatch)
      → ((job : JobRecord)
          → find id s.jobs ≡ some job
          → stage job.state ≤ stage (merge p job).state)
      → Step s (update s id p)

pub data Reach (s : JobStore) : JobStore → Type 0 where
  here : Reach s s
  next : {t u : JobStore} → Reach s t → Step t u → Reach s u

tally-prune :
    (s : JobStore) (q : JobRecord → Bool)
    → ((j : JobRecord) → q j ≡ true → not (is_finished j) ≡ true)
    → IsKeyed s.jobs
    → tally q (prune s).jobs ≡ tally q s.jobs
tally-prune s q h k =
    sym (tally-keep_implied q (λ j. not (is_finished j)) h (prune s).jobs)
    ∙ (ap (tally q) (prune_live s k) ∙ tally-keep_implied q (λ j. not (is_finished j)) h s.jobs)

active_live : (j : JobRecord) → is_active j ≡ true → not (is_finished j) ≡ true
active_live j h = ground arith

awaiting_live : (j : JobRecord) → is_awaiting j ≡ true → not (is_finished j) ≡ true
awaiting_live j h = ground arith

-- The live jobs within the ceilings of the store.
pub record IsWithin (s : JobStore) : Type 0 where
  pub keyed : IsKeyed s.jobs
  pub active_fits : tally is_active s.jobs ≤ s.max_active_jobs
  pub live_fits :
      tally is_active s.jobs + tally is_awaiting s.jobs ≤ s.max_active_jobs + s.max_jobs - 1

prune-IsWithin : (s : JobStore) → IsWithin s → IsWithin (prune s)
prune-IsWithin s w = record {
  keyed = prune-IsKeyed s w.keyed;
  active_fits =
      omega (arith, w.active_fits, tally-prune s is_active active_live w.keyed, prune_limits s);
  live_fits = omega (
    arith,
    w.live_fits,
    tally-prune s is_active active_live w.keyed,
    tally-prune s is_awaiting awaiting_live w.keyed,
    prune_limits s,
  );
}

admits-IsWithin :
    (s : JobStore) (id environment : String) (mode : TxMode) (now : ℕ)
    → at_capacity s ≡ none
    → find id s.jobs ≡ none
    → IsWithin s
    → IsWithin (create s id environment mode now)
unfolding create at_capacity
admits-IsWithin s id environment mode now room fresh w =
    prune-IsWithin (record s { jobs = put job s.jobs })
      (record {
        keyed = put_ids job s.jobs w.keyed;
        active_fits = ground (arith, put_new is_active job s.jobs fresh);
        live_fits =
            ground
              (arith, put_new is_active job s.jobs fresh, put_new is_awaiting job s.jobs fresh);
      })
  where
    job : JobRecord
    job = new_job id environment mode now

advances-IsWithin :
    (s : JobStore) (id : String) (p : JobPatch)
    → ((job : JobRecord) → find id s.jobs ≡ some job → stage job.state ≤ stage (merge p job).state)
    → IsWithin s
    → IsWithin (update s id p)
advances-IsWithin s id p onward w = elim (Option-cases (find id s.jobs)) [
  | inl gone ↦ rw (update_missing s id p gone) w
  | inr (job, here') ↦
      rw (update_found s id p job here') (elim (Bool-cases (is_finished (merge p job))) [
        | inl over ↦ rw over (prune-IsWithin _ (moved job here'))
        | inr live ↦ rw live (moved job here')
      ])
]
  where
    moved :
        (job : JobRecord)
        → find id s.jobs ≡ some job
        → IsWithin (record s { jobs = modify id (merge p) s.jobs })
    moved job e = record {
      keyed = λ k. rw (modify_ids id (merge p) s.jobs (λ j. refl) k) (w.keyed k);
      active_fits = ground (arith, onward job e, tally-modify is_active id (merge p) s.jobs job e);
      live_fits = ground (
        arith,
        onward job e,
        tally-modify is_active id (merge p) s.jobs job e,
        tally-modify is_awaiting id (merge p) s.jobs job e,
      );
    }

Step-IsWithin : {s t : JobStore} → Step s t → IsWithin s → IsWithin t
Step-IsWithin {s} (admits id environment mode now room fresh) w =
    admits-IsWithin s id environment mode now room fresh w
Step-IsWithin {s} (advances id p onward) w = advances-IsWithin s id p onward w

abbrev SameLimits : JobStore → JobStore → Type 0
SameLimits s t = (t.max_jobs ≡ s.max_jobs) × (t.max_active_jobs ≡ s.max_active_jobs)

Step-SameLimits : {s t : JobStore} → Step s t → SameLimits s t
Step-SameLimits {s} (admits id environment mode now room fresh) =
    unfold create prune in (refl, refl)
Step-SameLimits {s} (advances id p onward) = elim (Option-cases (find id s.jobs)) [
  | inl gone ↦ rw (update_missing s id p gone) (refl, refl)
  | inr (job, here') ↦ rw (update_found s id p job here') (unfold prune in ground arith)
]

Reach-IsWithin : {s t : JobStore} → IsWithin s → Reach s t → IsWithin t × SameLimits s t
Reach-IsWithin w here = (w, (refl, refl))
Reach-IsWithin w (next r st) =
    let (v, same) = Reach-IsWithin w r in
    let moved = Step-SameLimits st in (Step-IsWithin st v, (moved.0 ∙ same.0, moved.1 ∙ same.1))

-- If jobs are only created below both ceilings, under fresh ids, and never fall back to an earlier
-- stage, then there are never more active jobs than `maxActiveJobs`, and never more live ones than
-- one less than the sum of the ceilings. The jobs that await the respond may pass `maxJobs`.
pub admitted_bound :
    (max_jobs retained max_active_jobs : ℕ) {t : JobStore}
    → Reach (new_store max_jobs retained max_active_jobs) t
    → (active_count t ≤ max_active_jobs) × (live_count t ≤ max_active_jobs + max_jobs - 1)
unfolding active_count live_count
admitted_bound max_jobs retained max_active_jobs r =
    let (w, same) =
      Reach-IsWithin
        (record { keyed = λ id. omega arith; active_fits = omega arith; live_fits = omega arith })
        r in
    (omega (arith, w.active_fits, same.1), omega (arith, w.live_fits, same.0, same.1))

-- Which ceiling is named: the active one first, the other only below it, none below both.
pub at_capacity_iff :
    (s : JobStore)
    → ((at_capacity s ≡ some active) ↔ (s.max_active_jobs ≤ active_count s))
      × ((at_capacity s ≡ some awaiting_respond)
          ↔ ((active_count s < s.max_active_jobs) × (s.max_jobs ≤ awaiting_respond_count s)))
      × ((at_capacity s ≡ none)
          ↔ ((active_count s < s.max_active_jobs) × (awaiting_respond_count s < s.max_jobs)))
unfolding at_capacity
at_capacity_iff s = ground arith

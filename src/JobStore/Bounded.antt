-- ===== src/JobStore/Bounded.antt =====
-- How many finished jobs the store keeps, after any calls.
use contract_pinger.Common.{
  ℕ, ◌+◌, ◌≤◌, ◌≡◌, refl, inl, inr, List, [], ◌∷◌, String, length, tally, arith, Bool-cases,
  Option-cases,
}
use contract_pinger.BidirectionalTx.{TxMode}
use contract_pinger.JobStore.{
  FailureReason, JobRecord, JobPatch, JobStore, is_finished, is_awaiting, is_active, prune, put,
  new_job, create, merge, find, modify, update, failure, fail, live_count,
}
use contract_pinger.JobStore.Retention.{IsKeyed, prune_count}
use contract_pinger.JobStore.Updates.{
  put_ids, tally-modify, modify_ids, prune-IsKeyed, update_missing, update_found,
}

-- Every job is active, awaiting the respond, or finished.
pub counts_partition : (s : JobStore) → live_count s + tally is_finished s.jobs ≡ length s.jobs
unfolding live_count
counts_partition s = go s.jobs
  where
    go :
        (js : List JobRecord)
        → tally is_active js + tally is_awaiting js + tally is_finished js ≡ length js
    go [] = refl
    go (j ∷ js) = ground (arith, go js)

-- The store keeps no more finished jobs than it retains, and no two records of one id.
pub record IsBounded (s : JobStore) : Type 0 where
  pub keyed : IsKeyed s.jobs
  pub finished : tally is_finished s.jobs ≤ s.retained

pub prune_limits :
    (s : JobStore)
    → ((prune s).retained ≡ s.retained)
      × ((prune s).max_jobs ≡ s.max_jobs)
      × ((prune s).max_active_jobs ≡ s.max_active_jobs)
unfolding prune
prune_limits s = (refl, refl, refl)

prune-IsBounded : (s : JobStore) → IsKeyed s.jobs → IsBounded (prune s)
prune-IsBounded s k = record {
  keyed = prune-IsKeyed s k;
  finished = omega (arith, prune_count s k, prune_limits s);
}

pub create-IsBounded :
    (s : JobStore) (id environment : String) (mode : TxMode) (now : ℕ)
    → IsBounded s
    → IsBounded (create s id environment mode now)
unfolding create
create-IsBounded s id environment mode now b =
    prune-IsBounded (record s { jobs = put (new_job id environment mode now) s.jobs })
      (put_ids (new_job id environment mode now) s.jobs b.keyed)

pub update-IsBounded :
    (s : JobStore) (id : String) (p : JobPatch) → IsBounded s → IsBounded (update s id p)
update-IsBounded s id p b = elim (Option-cases (find id s.jobs)) [
  | inl gone ↦ rw (update_missing s id p gone) b
  | inr (job, here) ↦
      rw (update_found s id p job here) (elim (Bool-cases (is_finished (merge p job))) [
        | inl over ↦ rw over (prune-IsBounded _ modified)
        | inr live ↦ rw live (record {
          keyed = modified;
          finished =
              ground (arith, b.finished, tally-modify is_finished id (merge p) s.jobs job here);
        })
      ])
]
  where
    modified : IsKeyed (modify id (merge p) s.jobs)
    modified k = rw (modify_ids id (merge p) s.jobs (λ j. refl) k) (b.keyed k)

pub data Op : Type 0 where
  creates : String → String → TxMode → ℕ → Op
  updates : String → JobPatch → Op
  fails : String → FailureReason → String → ℕ → Op

unfoldable pub apply : JobStore → Op → JobStore
apply s (creates id environment mode now) = create s id environment mode now
apply s (updates id p) = update s id p
apply s (fails id reason message now) = fail s id reason message now

unfoldable pub apply_all : JobStore → List Op → JobStore
apply_all s [] = s
apply_all s (o ∷ os) = apply_all (apply s o) os

abbrev pub new_store : ℕ → ℕ → ℕ → JobStore
new_store max_jobs retained max_active_jobs = record {
  jobs = [];
  max_jobs = max_jobs;
  retained = retained;
  max_active_jobs = max_active_jobs;
}

apply-IsBounded : (s : JobStore) (o : Op) → IsBounded s → IsBounded (apply s o)
unfolding apply fail
apply-IsBounded s (creates id environment mode now) b = create-IsBounded s id environment mode now b
apply-IsBounded s (updates id p) b = update-IsBounded s id p b
apply-IsBounded s (fails id reason message now) b =
    update-IsBounded s id (failure reason message now) b

apply_all-IsBounded : (os : List Op) (s : JobStore) → IsBounded s → IsBounded (apply_all s os)
unfolding apply_all
apply_all-IsBounded [] s b = b
apply_all-IsBounded (o ∷ os) s b = apply_all-IsBounded os (apply s o) (apply-IsBounded s o b)

-- After any sequence of creations, updates and failures on a new store, with ids fresh or not, the
-- store keeps no more finished jobs than it retains, and no two records share an id.
pub store-IsBounded :
    (max_jobs retained max_active_jobs : ℕ) (os : List Op)
    → IsBounded (apply_all (new_store max_jobs retained max_active_jobs) os)
store-IsBounded max_jobs retained max_active_jobs os =
    apply_all-IsBounded os (new_store max_jobs retained max_active_jobs)
      (record { keyed = λ id. omega arith; finished = omega arith })

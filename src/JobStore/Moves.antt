-- ===== src/JobStore/Moves.antt =====
-- What the calls for one job do to its record, and to those of the others.
use contract_pinger.Common.{
  ℕ, ◌≤◌, ◌≡◌, refl, sym, subst, ◌∙◌, inl, inr, Bool, true, false, not, ◌&&◌, List, [], ◌∷◌, none,
  some, String, keep, tally, tally-keep, if◌then◌else◌, arith, Bool-cases, Option-cases, str_eq,
  eq_iff,
}
use text.Mathlib.TextPositions.{eq_refl}
use contract_pinger.BidirectionalTx.{TxMode}
use contract_pinger.JobStore.{
  JobRecord, JobPatch, JobStore, FailureReason, is_finished, has_id, in_ids, surplus, prune, put,
  new_job, create, merge, find, modify, update, failure, fail,
}
use contract_pinger.JobStore.Retention.{dropped_done}
use contract_pinger.JobStore.Updates.{put_new, update_missing, update_found, find-modify}
use contract_pinger.JobStore.Capacity.{stage, Reach, here, next, advances}

-- The dropping of records by their ids leaves the first record of an id, or none.
find-keep :
    (q : String) (g : String → Bool) (xs : List JobRecord)
    → find q (keep (λ j. g j.id) xs) ≡ (if g q then find q xs else none)
unfolding find
find-keep q g [] = ground arith
find-keep q g (j ∷ xs) = ground (arith, eq_iff j.id q, find-keep q g xs)

pub find-prune :
    (s : JobStore) (q : String) (job : JobRecord)
    → find q (prune s).jobs ≡ some job
    → find q s.jobs ≡ some job
unfolding prune
find-prune s q job e =
    ground (arith, find-keep q (λ i. not (in_ids i (surplus s.retained s.jobs))) s.jobs)

pub find-put :
    (q : String) (j : JobRecord) (xs : List JobRecord)
    → find q (put j xs) ≡ (if str_eq j.id q then some j else find q xs)
unfolding find
find-put q j [] = ground arith
find-put q j (x ∷ xs) =
    ground (arith, eq_iff x.id j.id, eq_iff x.id q, eq_iff j.id q, find-put q j xs)

find-pruned :
    (over : Bool) (t : JobStore) (q : String) (job : JobRecord)
    → find q (if over then prune t else t).jobs ≡ some job
    → find q t.jobs ≡ some job
find-pruned true t q job e = find-prune t q job e
find-pruned false t q job e = e

-- A record found after an update was there before, and is the patched one for the id of the update.
pub update-find :
    (s : JobStore) (id q : String) (p : JobPatch) (job : JobRecord)
    → find q (update s id p).jobs ≡ some job
    → (old : JobRecord) × (find q s.jobs ≡ some old)
      × (job ≡ (if str_eq id q then merge p old else old))
update-find s id q p job e = elim (Option-cases (find id s.jobs)) [
  | inl gone ↦ (
    job,
    ground (arith, update_missing s id p gone, eq_iff id q),
    ground (arith, update_missing s id p gone, eq_iff id q),
  )
  | inr (old, found) ↦
      let kept : find q (modify id (merge p) s.jobs) ≡ some job =
        find-pruned (is_finished (merge p old)) (record s { jobs = modify id (merge p) s.jobs }) q
          job (subst (λ t. find q t.jobs ≡ some job) (update_found s id p old found) e) in
      let both = sym (find-modify id q (merge p) s.jobs old (λ j. refl) found) ∙ kept in
      elim (Bool-cases (str_eq id q)) [
        | inl same ↦ (old, ground (arith, eq_iff id q), ground arith)
        | inr other ↦ (job, ground arith, ground arith)
      ]
]

-- What a store says of the job of an id, if it holds it.
abbrev pub Holds : (JobRecord → Type 0) → JobStore → String → Type 0
Holds P s id = (job : JobRecord) → find id s.jobs ≡ some job → P job

abbrev pub Reach-trans : {s t u : JobStore} → Reach s t → Reach t u → Reach s u
Reach-trans r here = r
Reach-trans r (next q st) = next (Reach-trans r q) st

-- Calls for the job of one id: it never falls back, and no other job is touched, but by pruning.
pub record Moves (id : String) (P : JobRecord → Type 0) (s t : JobStore) : Type 0 where
  pub onward : Reach s t
  pub others :
      (q : String) (job : JobRecord)
      → str_eq id q ≡ false
      → find q t.jobs ≡ some job
      → find q s.jobs ≡ some job
  pub old_ids :
      (q : String) (job : JobRecord)
      → find q t.jobs ≡ some job
      → (old : JobRecord) × (find q s.jobs ≡ some old)
  pub lands : Holds P t id

pub stays-Moves :
    (id : String) (P : JobRecord → Type 0) (s : JobStore) → Holds P s id → Moves id P s s
stays-Moves id P s h = record {
  onward = here;
  others = λ q job n e. e;
  old_ids = λ q job e. (job, e);
  lands = h;
}

pub Moves-trans :
    (id : String) (P Q : JobRecord → Type 0) (s t u : JobStore)
    → Moves id P s t
    → Moves id Q t u
    → Moves id Q s u
Moves-trans id P Q s t u m n = record {
  onward = Reach-trans m.onward n.onward;
  others = λ q job d e. m.others q job d (n.others q job d e);
  old_ids = λ q job e. let (old, f) = n.old_ids q job e in m.old_ids q old f;
  lands = n.lands;
}

pub update-Moves :
    (id : String) (P Q : JobRecord → Type 0) (s : JobStore) (p : JobPatch)
    → ((job : JobRecord) → P job → (stage job.state ≤ stage (merge p job).state) × Q (merge p job))
    → Holds P s id
    → Moves id Q s (update s id p)
update-Moves id P Q s p step h = record {
  onward = next here (advances id p (λ job e. (step job (h job e)).0));
  others = λ q job d e. let (old, found, is) = update-find s id q p job e in ground arith;
  old_ids = λ q job e. let (old, found, is) = update-find s id q p job e in (old, found);
  lands = λ job e.
      let (old, found, is) = update-find s id id p job e in
      let patched : job ≡ merge p old = ground (arith, eq_refl id) in
      subst Q (sym patched) (step old (h old found)).1;
}

abbrev pub Anything : JobRecord → Type 0
Anything job = Unit

pub fail-Moves :
    (id : String) (s : JobStore) (reason : FailureReason) (message : String) (now : ℕ)
    → Moves id (λ j. is_finished j ≡ true) s (fail s id reason message now)
unfolding fail
fail-Moves id s reason message now =
    update-Moves id Anything (λ j. is_finished j ≡ true) s (failure reason message now)
      (λ job h. (ground arith, refl)) (λ job e. tt)

find-none :
    (id : String) (p : JobRecord → Bool) (xs : List JobRecord)
    → find id xs ≡ none
    → tally (λ x. p x && has_id id x) xs ≡ 0
unfolding find
find-none id p [] e = refl
find-none id p (x ∷ xs) e = ground (arith, find-none id p xs)

new_survives :
    (s : JobStore) (id environment : String) (mode : TxMode) (now : ℕ)
    → find id s.jobs ≡ none
    → in_ids id (surplus s.retained (put (new_job id environment mode now) s.jobs)) ≡ false
new_survives s id environment mode now fresh =
    elim (Bool-cases (in_ids id (surplus s.retained jobs))) [
      | inl hit ↦ absurd (
          omega (
            arith,
            dropped_done s.retained jobs id hit,
            tally-keep (has_id id) is_finished jobs,
            put_new (λ x. is_finished x && has_id id x) (new_job id environment mode now) s.jobs
                fresh,
            find-none id is_finished s.jobs fresh,
          ))
      | inr miss ↦ miss
    ]
  where
    jobs : List JobRecord
    jobs = put (new_job id environment mode now) s.jobs

-- A new job under a new id is found as it was made: pruning does not drop it.
pub find-create :
    (s : JobStore) (id environment : String) (mode : TxMode) (now : ℕ)
    → find id s.jobs ≡ none
    → find id (create s id environment mode now).jobs ≡ some (new_job id environment mode now)
unfolding create prune
find-create s id environment mode now fresh =
    let jobs = put (new_job id environment mode now) s.jobs in
    ground (
      arith,
      find-keep id (λ i. not (in_ids i (surplus s.retained jobs))) jobs,
      find-put id (new_job id environment mode now) s.jobs,
      new_survives s id environment mode now fresh,
      eq_refl id,
    )

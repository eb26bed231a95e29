-- ===== src/JobStore/Updates.antt =====
-- The map under `create` and `update`: its keys, and what a count becomes.
use contract_pinger.Common.{
  ℕ, ◌+◌, ◌≤◌, ◌≡◌, refl, subst, inl, inr, Bool, false, not, List, [], ◌∷◌, none, some, String,
  tally, if◌then◌else◌, arith, Bool-cases, str_eq, eq_iff, tally-keep-le,
}
use text.Mathlib.TextPositions.{eq_refl}
use contract_pinger.JobStore.{
  JobRecord, JobPatch, JobStore, is_finished, has_id, in_ids, surplus, prune, put, merge, find,
  modify, update,
}
use contract_pinger.JobStore.Retention.{IsKeyed}

abbrev pub one_if : Bool → ℕ
one_if b = if b then 1 else 0

put_other :
    (id : String) (j : JobRecord) (xs : List JobRecord)
    → str_eq j.id id ≡ false
    → tally (has_id id) (put j xs) ≡ tally (has_id id) xs
put_other id j [] e = ground arith
put_other id j (x ∷ xs) e = elim (Bool-cases (str_eq x.id j.id)) [
  | inl same ↦ rw (same, e, (eq_iff x.id j.id).0 same, e)
  | inr other ↦ rw other (ground (arith, put_other id j xs e))
]

put_self :
    (j : JobRecord) (xs : List JobRecord)
    → tally (has_id j.id) xs ≤ 1
    → tally (has_id j.id) (put j xs) ≤ 1
put_self j [] h = ground (arith, eq_refl j.id)
put_self j (x ∷ xs) h = elim (Bool-cases (str_eq x.id j.id)) [
  | inl same ↦ rw same (ground (arith, eq_refl j.id))
  | inr other ↦ rw other (ground (arith, put_self j xs))
]

pub put_ids : (j : JobRecord) (xs : List JobRecord) → IsKeyed xs → IsKeyed (put j xs)
put_ids j xs k id = elim (Bool-cases (str_eq j.id id)) [
  | inl same ↦
      subst (λ i. tally (has_id i) (put j xs) ≤ 1) ((eq_iff j.id id).0 same)
        (put_self j xs (k j.id))
  | inr other ↦ rw (put_other id j xs other) (k id)
]

-- A new key adds its record, and an old one replaces it.
pub tally-put :
    (q : JobRecord → Bool) (j : JobRecord) (xs : List JobRecord)
    → q j ≡ false
    → tally q (put j xs) ≤ tally q xs
tally-put q j [] e = ground arith
tally-put q j (x ∷ xs) e = ground (arith, tally-put q j xs)

pub put_new :
    (q : JobRecord → Bool) (j : JobRecord) (xs : List JobRecord)
    → find j.id xs ≡ none
    → tally q (put j xs) ≡ one_if (q j) + tally q xs
unfolding find
put_new q j [] e = ground arith
put_new q j (x ∷ xs) e = ground (arith, put_new q j xs)

pub tally-modify :
    (q : JobRecord → Bool) (id : String) (f : JobRecord → JobRecord) (xs : List JobRecord)
    (j : JobRecord)
    → find id xs ≡ some j
    → tally q (modify id f xs) + one_if (q j) ≡ tally q xs + one_if (q (f j))
unfolding find modify
tally-modify q id f [] j e = cc
tally-modify q id f (x ∷ xs) j e = ground (arith, tally-modify q id f xs j)

pub modify_ids :
    (id : String) (f : JobRecord → JobRecord) (xs : List JobRecord)
    → ((j : JobRecord) → (f j).id ≡ j.id)
    → (k : String) → tally (has_id k) (modify id f xs) ≡ tally (has_id k) xs
unfolding modify
modify_ids id f [] same k = refl
modify_ids id f (x ∷ xs) same k = ground (arith, same x, modify_ids id f xs same k)

pub prune-IsKeyed : (s : JobStore) → IsKeyed s.jobs → IsKeyed (prune s).jobs
unfolding prune
prune-IsKeyed s k id = omega (
  arith,
  k id,
  tally-keep-le (has_id id) (λ j. not (in_ids j.id (surplus s.retained s.jobs))) s.jobs,
)

-- The two ways of `update`.
pub update_missing :
    (s : JobStore) (id : String) (p : JobPatch) → find id s.jobs ≡ none → update s id p ≡ s
unfolding update
update_missing s id p e = ground arith

pub update_found :
    (s : JobStore) (id : String) (p : JobPatch) (job : JobRecord)
    → find id s.jobs ≡ some job
    → update s id p ≡ (
        if is_finished (merge p job)
        then prune (record s { jobs = modify id (merge p) s.jobs })
        else record s { jobs = modify id (merge p) s.jobs })
unfolding update
update_found s id p job e = ground arith

pub find-modify :
    (id k : String) (f : JobRecord → JobRecord) (xs : List JobRecord) (j : JobRecord)
    → ((x : JobRecord) → (f x).id ≡ x.id)
    → find id xs ≡ some j
    → find k (modify id f xs) ≡ (if str_eq id k then some (f j) else find k xs)
unfolding find modify
find-modify id k f [] j same e = cc
find-modify id k f (x ∷ xs) j same e =
    ground (arith, eq_iff x.id id, eq_iff x.id k, eq_iff id k, same x, find-modify id k f xs j same)

-- ===== src/JobStore/Retention.antt =====
-- What `prune` drops and what it keeps.
use contract_pinger.Common.{
  ℕ, ◌+◌, ◌-◌, ◌≤◌, ◌≡◌, refl, sym, ◌∙◌, ap, inl, inr, Bool, true, false, not, List, [], ◌∷◌,
  String, All, length, keep, tally, take, drop, min, leb, arith, Bool-cases, tally-append,
  take-append-drop, length-drop, length-keep, All-map, All-keep_test, keep-swap, All-append, subst,
  leb→le, leb_trans, leb_total, tally-keep-le, tally-keep-swap, tally-split, tally-All, tally_no,
  tally_self,
}
use text.Mathlib.TextPositions.{eq_refl}
use contract_pinger.Common.Sorting.{
  sort, tally-sort, length-sort, sort-IsSorted, sort-All, take-le-drop,
}
use contract_pinger.JobStore.{
  JobRecord, JobStore, is_finished, stamp, earlier, has_id, in_ids, surplus, prune,
}

-- The keys of a map: no two records share an id.
abbrev pub IsKeyed : List JobRecord → Type 0
IsKeyed jobs = (id : String) → tally (has_id id) jobs ≤ 1

in_ids-tally : (id : String) (js : List JobRecord) → in_ids id js ≡ true → 1 ≤ tally (has_id id) js
in_ids-tally id [] h = cc
in_ids-tally id (j ∷ js) h = ground (arith, in_ids-tally id js)

tally-in_ids : (id : String) (js : List JobRecord) → 1 ≤ tally (has_id id) js → in_ids id js ≡ true
tally-in_ids id [] h = absurd (omega arith)
tally-in_ids id (j ∷ js) h = ground (arith, tally-in_ids id js)

self_ids : (js : List JobRecord) → All (λ j. 1 ≤ tally (has_id j.id) js) js
self_ids js = tally_self (λ i j. has_id i.id j) (λ j. eq_refl j.id) js

-- The finished jobs, oldest first, as `prune` cuts them into the dropped and the kept.
module _ (retained : ℕ) (jobs : List JobRecord) where
  abbrev pub done : List JobRecord
  done = keep is_finished jobs

  kept_done : List JobRecord
  kept_done = drop (length done - retained) (sort earlier done)

  surplus-take : surplus retained jobs ≡ take (length done - retained) (sort earlier done)
  unfolding surplus
  surplus-take = elim (Bool-cases (leb (length done) retained)) [
    | inl fits ↦ let none_over : length done - retained ≡ 0 = ground arith in rw (fits, none_over)
    | inr over ↦ rw over
  ]

  tally-surplus :
      (p : JobRecord → Bool) → tally p (surplus retained jobs) + tally p kept_done ≡ tally p done
  unfolding kept_done
  tally-surplus p = rw surplus-take (
      sym (tally-append p (take (length done - retained) (sort earlier done)) kept_done)
      ∙ (ap (tally p) (take-append-drop (length done - retained) (sort earlier done))
          ∙ tally-sort earlier p done))

  -- The dropped ids are those of finished jobs.
  pub dropped_done :
      (id : String) → in_ids id (surplus retained jobs) ≡ true → 1 ≤ tally (has_id id) done
  dropped_done id h =
      omega (arith, in_ids-tally id (surplus retained jobs) h, tally-surplus (has_id id))

  abbrev survives : JobRecord → Bool
  survives j = not (in_ids j.id (surplus retained jobs))

  module _ (keyed : IsKeyed jobs) where
    -- A finished job that is not among the dropped has no namesake there.
    kept_survive : All (λ j. survives j ≡ true) kept_done
    kept_survive =
        All-map (λ j. 1 ≤ tally (has_id j.id) kept_done) (λ j. survives j ≡ true)
          (λ j h. elim (Bool-cases (in_ids j.id (surplus retained jobs))) [
            | inl hit ↦ absurd (
                omega (
                  arith,
                  in_ids-tally j.id (surplus retained jobs) hit,
                  tally-surplus (has_id j.id),
                  keyed j.id,
                  tally-keep-le (has_id j.id) is_finished jobs,
                ))
            | inr miss ↦ rw miss
          ])
          kept_done (self_ids kept_done)

    dropped_die : All (λ j. survives j ≡ false) (surplus retained jobs)
    dropped_die =
        All-map (λ j. 1 ≤ tally (has_id j.id) (surplus retained jobs)) (λ j. survives j ≡ false)
          (λ j h. rw (tally-in_ids j.id (surplus retained jobs) h)) (surplus retained jobs)
          (self_ids (surplus retained jobs))

    survivors : tally is_finished (keep survives jobs) ≡ min (length done) retained
    unfolding kept_done
    survivors = omega (
      arith,
      tally-keep-swap is_finished survives jobs,
      tally-surplus survives,
      tally_no survives (surplus retained jobs) dropped_die,
      tally-All survives kept_done kept_survive,
      length-drop (length done - retained) (sort earlier done),
      length-sort earlier done,
    )

    live_survive :
        (id : String)
        → in_ids id (surplus retained jobs) ≡ true
        → tally (has_id id) (keep (λ j. not (is_finished j)) jobs) ≡ 0
    live_survive id h =
        omega (arith, dropped_done id h, keyed id, tally-split (has_id id) is_finished jobs)

-- A filter that spares every live job leaves the live jobs as they are, in their order.
live_kept :
    (gone : String → Bool) (jobs : List JobRecord)
    → ((id : String)
        → gone id ≡ true
        → tally (has_id id) (keep (λ j. not (is_finished j)) jobs) ≡ 0)
    → keep (λ j. not (is_finished j)) (keep (λ j. not (gone j.id)) jobs)
      ≡ keep (λ j. not (is_finished j)) jobs
live_kept gone [] h = refl
live_kept gone (j ∷ jobs) h =
    ground (arith, h j.id, eq_refl j.id, live_kept gone jobs (λ id hit. ground (arith, h id)))

-- `prune` drops finished jobs down to the retained number, and no more.
pub prune_count :
    (s : JobStore)
    → IsKeyed s.jobs
    → tally is_finished (prune s).jobs ≡ min (tally is_finished s.jobs) s.retained
unfolding prune
prune_count s keyed =
    survivors s.retained s.jobs keyed ∙ ap (λ n. min n s.retained) (length-keep is_finished s.jobs)

-- A job that is not finished is never dropped: the live jobs are the same, in the same order.
pub prune_live :
    (s : JobStore)
    → IsKeyed s.jobs
    → keep (λ j. not (is_finished j)) (prune s).jobs ≡ keep (λ j. not (is_finished j)) s.jobs
unfolding prune
prune_live s keyed =
    live_kept (λ id. in_ids id (surplus s.retained s.jobs)) s.jobs
      (live_survive s.retained s.jobs keyed)

earlier_trans : (a b c : JobRecord) → earlier a b ≡ true → earlier b c ≡ true → earlier a c ≡ true
earlier_trans a b c h k = leb_trans (stamp a) (stamp b) (stamp c) h k

earlier_total : (a b : JobRecord) → earlier a b ≡ false → earlier b a ≡ true
earlier_total a b h = leb_total (stamp a) (stamp b) h

module _ (retained : ℕ) (jobs : List JobRecord) where
  -- `j` is no namesake of a dropped job, or no dropped job finished after it.
  abbrev Younger : JobRecord → Type 0
  Younger j = survives retained jobs j ≡ true → All (λ d. stamp d ≤ stamp j) (surplus retained jobs)

  front : All Younger (surplus retained jobs)
  front =
      All-map (λ j. 1 ≤ tally (has_id j.id) (surplus retained jobs)) Younger
        (λ j h alive. cc (tally-in_ids j.id (surplus retained jobs) h, alive))
        (surplus retained jobs) (self_ids (surplus retained jobs))

  stamps :
      (n : ℕ)
      → surplus retained jobs ≡ take n (sort earlier (done retained jobs))
      → All
          (λ j. All (λ d. stamp d ≤ stamp j) (surplus retained jobs))
          (drop n (sort earlier (done retained jobs)))
  stamps n e = rw e (
      All-map (λ j. All (λ d. earlier d j ≡ true) (take n (sort earlier (done retained jobs))))
        (λ j. All (λ d. stamp d ≤ stamp j) (take n (sort earlier (done retained jobs))))
        (λ j.
          All-map (λ d. earlier d j ≡ true) (λ d. stamp d ≤ stamp j)
            (λ d. leb→le (stamp d) (stamp j)) (take n (sort earlier (done retained jobs))))
        (drop n (sort earlier (done retained jobs)))
        (take-le-drop earlier n (sort earlier (done retained jobs))
          (sort-IsSorted earlier earlier_trans earlier_total (done retained jobs))))

  rear :
      All Younger
        (drop (length (done retained jobs) - retained) (sort earlier (done retained jobs)))
  rear =
      All-map (λ j. All (λ d. stamp d ≤ stamp j) (surplus retained jobs)) Younger (λ j h alive. h)
        (drop (length (done retained jobs) - retained) (sort earlier (done retained jobs)))
        (stamps (length (done retained jobs) - retained) (surplus-take retained jobs))

  Younger-sorted : All Younger (sort earlier (done retained jobs))
  unfolding kept_done
  Younger-sorted =
      let n = length (done retained jobs) - retained in
      let sorted = sort earlier (done retained jobs) in
      subst (All Younger) (take-append-drop n sorted) (
        All-append Younger (take n sorted) (drop n sorted)
          (subst (All Younger) (surplus-take retained jobs) front) rear)

-- What is dropped is oldest: no dropped job finished after a finished job that is kept.
pub prune_oldest :
    (s : JobStore)
    → All
        (λ j. All (λ d. stamp d ≤ stamp j) (surplus s.retained s.jobs))
        (keep is_finished (prune s).jobs)
unfolding prune
prune_oldest s = rw (keep-swap is_finished (survives s.retained s.jobs) s.jobs) (
    All-keep_test (λ j. All (λ d. stamp d ≤ stamp j) (surplus s.retained s.jobs))
      (survives s.retained s.jobs) (done s.retained s.jobs)
      (sort-All earlier (Younger s.retained s.jobs) (done s.retained s.jobs)
        (Younger-sorted s.retained s.jobs)))

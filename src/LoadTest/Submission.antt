-- ===== src/LoadTest/Submission.antt =====
-- The submission, and the whole run of the driver.
use contract_pinger.Common.{
  not, ◌&&◌, ℕ, zero, suc, ◌+◌, ◌≤◌, ◌≡◌, refl, sym, ◌∙◌, Bool, true, false, List, [], ◌∷◌, ◌++◌,
  some, String, ltb, str_eq, if◌then◌else◌, arith, is_some, length, take, length-append,
  length-keep, keep, tally, All,
}
use mathlib.Core.List.{append_assoc, append-nil}
use contract_pinger.LoadTest.{
  SubmitReply, job_id, limited, refused, all_submitted, View, submit, PollReply, Options, views,
  succeeded, has_failed, Report, report, exited, load_test, wait_of,
}
use contract_pinger.LoadTest.Polling.{poll_ends, verdicts_or}
use contract_pinger.LoadTest.Rounds.{IsDistinct, verdict, replies_to, passes}

-- The ids of the jobs that were accepted, in their order.
abbrev pub job_ids : List SubmitReply → List String
job_ids [] = []
job_ids (job_id id ∷ replies) = id ∷ job_ids replies
job_ids (limited wait ∷ replies) = job_ids replies
job_ids (refused status ∷ replies) = job_ids replies

abbrev pub is_refused : SubmitReply → Bool
is_refused (refused status) = true
is_refused other = false

-- The driver takes the first ids, as many as it wants.
submits :
    (jobs : ℕ) (replies : List SubmitReply) (n : ℕ) (ids : List String) (sleeps : List ℕ)
    → All (λ r. is_refused r ≡ false) replies
    → length ids + n ≡ jobs
    → n ≤ length (job_ids replies)
    → (slept : List ℕ) × (submit jobs replies ids sleeps
        ≡ all_submitted (ids ++ take n (job_ids replies)) slept)
unfolding submit
submits jobs [] zero ids sleeps ok e h = (sleeps, ground (arith, append-nil ids))
submits jobs [] (suc n) ids sleeps ok e h = absurd (omega (arith, h))
submits jobs (job_id id ∷ replies) zero ids sleeps ok e h = (sleeps, ground (arith, append-nil ids))
submits jobs (limited wait ∷ replies) zero ids sleeps ok e h =
    (sleeps, ground (arith, append-nil ids))
submits jobs (refused status ∷ replies) zero ids sleeps ok e h =
    (sleeps, ground (arith, append-nil ids))
submits jobs (job_id id ∷ replies) (suc n) ids sleeps (o, ok) e h =
    let (slept, is) =
      submits jobs replies n (ids ++ id ∷ []) sleeps ok (omega (arith, length-append ids (id ∷ [])))
        (omega (arith, h)) in
    (slept, ground (arith, append_assoc ids (id ∷ []) (take n (job_ids replies))))
submits jobs (limited wait ∷ replies) (suc n) ids sleeps (o, ok) e h =
    let (slept, is) =
      submits jobs replies (suc n) ids (sleeps ++ (wait_of wait + 250) ∷ []) ok e h in
    (slept, ground arith)
submits jobs (refused status ∷ replies) (suc n) ids sleeps (o, ok) e h = absurd (ground arith)

length-take {ℓ} : {A : Type ℓ} (n : ℕ) (xs : List A) → n ≤ length xs → length (take n xs) ≡ n
length-take zero xs h = refl
length-take (suc n) [] h = absurd (omega (arith, h))
length-take (suc n) (x ∷ xs) h = omega (arith, length-take n xs)

-- How many of these jobs end so.
abbrev pub verdicts : (View → Bool) → List (String → PollReply) → List String → ℕ
verdicts f rounds ids = tally (λ q. passes f (verdict 0 (replies_to q rounds))) ids

-- With a secret, no refused submission, enough accepted ones with distinct ids, and rounds that end
-- each of the first `jobs` of them when it is polled by itself: the run of the driver ends. Its
-- report counts as succeeded and failed the jobs that end so by themselves, which are all `jobs` of
-- them. It exits with 0 exactly when none of them failed and the last request, for the statistics,
-- is answered, else with 1.
pub load_test_ends :
    (opts : Options) (replies : List SubmitReply) (rounds : List (String → PollReply))
    (answered : Bool)
    → str_eq opts.secret "" ≡ false
    → All (λ r. is_refused r ≡ false) replies
    → opts.jobs ≤ length (job_ids replies)
    → IsDistinct (take opts.jobs (job_ids replies))
    → All (λ q. is_some (verdict 0 (replies_to q rounds)) ≡ true) (take opts.jobs (job_ids replies))
    → let ids = take opts.jobs (job_ids replies) in
      (r : Report) × (load_test opts replies rounds answered
        ≡ exited
            (if answered && not (ltb 0 (verdicts has_failed rounds ids)) then 0 else 1)
            (some r))
      × (r.ok ≡ verdicts succeeded rounds ids)
      × (r.bad ≡ verdicts has_failed rounds ids)
      × (r.ok + r.bad ≡ opts.jobs)
unfolding load_test report
load_test_ends opts replies rounds answered key ok enough distinct all =
    let ids = take opts.jobs (job_ids replies) in
    let (slept, sent) = submits opts.jobs replies opts.jobs [] [] ok (omega arith) enough in
    let (end, ends, counts, results) = poll_ends rounds ids distinct all in
    let jobs = views end.finished in
    let good : length (keep succeeded jobs) ≡ verdicts succeeded rounds ids =
      length-keep succeeded jobs ∙ counts succeeded in
    let bad : length (keep has_failed jobs) ≡ verdicts has_failed rounds ids =
      length-keep has_failed jobs ∙ counts has_failed in
    (
      report jobs,
      rw (key, sent, ends, sym bad) refl,
      good,
      bad,
      omega (
        arith,
        good,
        bad,
        verdicts_or rounds ids all,
        length-take opts.jobs (job_ids replies) enough,
      ),
    )

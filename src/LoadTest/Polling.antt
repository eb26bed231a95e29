-- ===== src/LoadTest/Polling.antt =====
-- How the polling ends: the maps of the whole loop against each job by itself.
use contract_pinger.Common.{
  ℕ, ◌+◌, ◌≤◌, ◌≡◌, refl, sym, ap, subst, ◌∙◌, inl, inr, Bool, true, false, List, [], ◌∷◌, some,
  String, ltb, str_eq, eq_iff, if◌then◌else◌, arith, is_some, Bool-cases, length, tally,
  tally-le-length, tally-All, tally_no, All-intro, All, All-map, All-zip,
}
use contract_pinger.LoadTest.{
  View, PollReply, not_ok, job, get_key, views, succeeded, has_failed, Polls, poll_round, poll,
}
use contract_pinger.LoadTest.Rounds.{
  verdict, replies_to, IsDistinct, no_polls, length-views, outcome, passes, has, poll_round_each,
  poll_round_count,
}

-- The map of the ended holds each of the ids at most once, and no other.
abbrev pub Counts : List String → Polls → Type 0
Counts ids p = (f : View → Bool) → tally f (views p.finished) ≡ tally (has f p) ids

-- Who has ended has ended so, whatever the further replies.
ended_before :
    (p : Polls) (rounds : List (String → PollReply)) (ids : List String)
    → length ids ≤ tally (has (λ v. true) p) ids
    → All (λ q. get_key q p.finished ≡ outcome p q (replies_to q rounds)) ids
ended_before p rounds [] h = tt
ended_before p rounds (id ∷ ids) h = (
  ground (arith, tally-le-length (has (λ v. true) p) ids),
  ended_before p rounds ids (ground (arith, tally-le-length (has (λ v. true) p) ids)),
)

-- What the loop comes to, from maps on that count right.
abbrev pub Ends : List (String → PollReply) → List String → Polls → Type 0
Ends rounds ids p =
    (end : Polls) × (poll rounds ids p ≡ some end)
    × Counts ids end
    × All (λ q. get_key q end.finished ≡ outcome p q (replies_to q rounds)) ids

stopped :
    (ids : List String) (p : Polls)
    → Counts ids p
    → ltb (length p.finished) (length ids) ≡ false
    → length ids ≤ tally (has (λ v. true) p) ids
stopped ids p size stop = ground (arith, size (λ v. true), length-views p.finished)

poll_stops :
    (rounds : List (String → PollReply)) (ids : List String) (p : Polls)
    → Counts ids p
    → ltb (length p.finished) (length ids) ≡ false
    → Ends rounds ids p
unfolding poll
poll_stops [] ids p size stop =
    (p, rw stop refl, size, ended_before p [] ids (stopped ids p size stop))
poll_stops (ask ∷ rounds) ids p size stop =
    (p, rw stop refl, size, ended_before p (ask ∷ rounds) ids (stopped ids p size stop))

poll_goes_on :
    (rounds : List (String → PollReply)) (ids : List String) (p : Polls)
    → IsDistinct ids
    → Counts ids p
    → All (λ q. is_some (outcome p q (replies_to q rounds)) ≡ true) ids
    → Ends rounds ids p
unfolding poll
poll_goes_on [] ids p d size h = elim (Bool-cases (ltb (length p.finished) (length ids))) [
  | inl go ↦ absurd (
      ground (
        arith,
        size (λ v. true),
        length-views p.finished,
        tally-All (has (λ v. true) p) ids (
            All-map (λ q. is_some (outcome p q []) ≡ true) (λ q. has (λ v. true) p q ≡ true)
              (λ q e. ground arith) ids h),
      ))
  | inr stop ↦ poll_stops [] ids p size stop
]
poll_goes_on (ask ∷ rounds) ids p d size h =
    elim (Bool-cases (ltb (length p.finished) (length ids))) [
      | inl go ↦
          let p' = (poll_round ask ids p []).0 in
          let each = poll_round_each ask rounds ids p [] d in
          let (end, ends, sized, results) =
            poll_goes_on rounds ids p' d
              (λ f. omega (arith, size f, poll_round_count f ask ids p [] d))
              (All-zip
                (λ q.
                  outcome p' q (replies_to q rounds) ≡ outcome p q (replies_to q (ask ∷ rounds)))
                (λ q. is_some (outcome p q (replies_to q (ask ∷ rounds))) ≡ true)
                (λ q. is_some (outcome p' q (replies_to q rounds)) ≡ true)
                (λ q e is. ap is_some e ∙ is) ids each h) in
          (
            end,
            rw go ends,
            sized,
            All-zip (λ q. get_key q end.finished ≡ outcome p' q (replies_to q rounds))
                (λ q.
                  outcome p' q (replies_to q rounds) ≡ outcome p q (replies_to q (ask ∷ rounds)))
                (λ q. get_key q end.finished ≡ outcome p q (replies_to q (ask ∷ rounds)))
                (λ q a b. a ∙ b) ids results each,
          )
      | inr stop ↦ poll_stops (ask ∷ rounds) ids p size stop
    ]

tally-verdict :
    (f : View → Bool) (end : Polls) (rounds : List (String → PollReply)) (ids : List String)
    → All (λ q. get_key q end.finished ≡ verdict 0 (replies_to q rounds)) ids
    → tally (has f end) ids ≡ tally (λ q. passes f (verdict 0 (replies_to q rounds))) ids
tally-verdict f end rounds [] h = refl
tally-verdict f end rounds (id ∷ ids) h = ground (arith, tally-verdict f end rounds ids)

-- For distinct ids, each of which the rounds end when it is polled by itself (a terminal state, or
-- five polls in a row that find no job), the polling from empty maps ends with these rounds. Then
-- it holds of each job what ends it by itself, and as many ended jobs of any kind as these are.
pub poll_ends :
    (rounds : List (String → PollReply)) (ids : List String)
    → IsDistinct ids
    → All (λ q. is_some (verdict 0 (replies_to q rounds)) ≡ true) ids
    → (end : Polls) × (poll rounds ids no_polls ≡ some end)
      × ((f : View → Bool)
          → tally f (views end.finished)
            ≡ tally (λ q. passes f (verdict 0 (replies_to q rounds))) ids)
      × All (λ q. get_key q end.finished ≡ verdict 0 (replies_to q rounds)) ids
poll_ends rounds ids d h =
    let (end, ends, counts, results) =
      poll_goes_on rounds ids no_polls d
        (λ f. sym (
          tally_no (has f no_polls) ids
            (All-intro (λ q. has f no_polls q ≡ false) (λ q. refl) ids)))
        h in
    (end, ends, λ f. counts f ∙ tally-verdict f end rounds ids results, results)

not_both : (t : String) → str_eq t "responded" ≡ true → str_eq t "failed" ≡ false
not_both t e =
    let same : t ≡ "responded" = ground (arith, eq_iff t "responded") in
    subst (λ u. str_eq u "failed" ≡ false) (sym same) refl

-- A job that has ended either succeeded or failed.
verdict_or :
    (m : ℕ) (replies : List PollReply)
    → is_some (verdict m replies) ≡ true
    → (if passes succeeded (verdict m replies) then 1 else 0)
        + (if passes has_failed (verdict m replies) then 1 else 0)
      ≡ 1
verdict_or m [] h = ground arith
verdict_or m (not_ok ∷ replies) h = ground (arith, verdict_or (m + 1) replies)
verdict_or m (job v ∷ replies) h = ground (arith, verdict_or 0 replies, not_both v.state)

pub verdicts_or :
    (rounds : List (String → PollReply)) (ids : List String)
    → All (λ q. is_some (verdict 0 (replies_to q rounds)) ≡ true) ids
    → tally (λ q. passes succeeded (verdict 0 (replies_to q rounds))) ids
        + tally (λ q. passes has_failed (verdict 0 (replies_to q rounds))) ids
      ≡ length ids
verdicts_or rounds [] h = refl
verdicts_or rounds (id ∷ ids) h =
    ground (arith, verdict_or 0 (replies_to id rounds), verdicts_or rounds ids)

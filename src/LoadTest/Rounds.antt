-- ===== src/LoadTest/Rounds.antt =====
-- One round of the polling, against each job by itself.
use contract_pinger.Common.{
  ℕ, ◌+◌, ◌≡◌, refl, ◌∙◌, Bool, true, false, List, [], ◌∷◌, Option, none, some, String, leb, str_eq,
  eq_iff, if◌then◌else◌, arith, length, tally, All, All-map, All-zip,
}
use text.Mathlib.TextPositions.{eq_refl}
use contract_pinger.LoadTest.{
  View, PollReply, not_ok, job, max_misses, lost, is_terminal, get_key, set_key, delete_key, views,
  Polls, misses_of, poll_one, poll_round,
}

-- One job by itself: how these rounds end it, after so many misses in a row.
abbrev pub verdict : ℕ → List PollReply → Option View
verdict m [] = none
verdict m (not_ok ∷ replies) = if leb max_misses (m + 1) then some lost else verdict (m + 1) replies
verdict m (job v ∷ replies) = if is_terminal v then some v else verdict 0 replies

abbrev pub replies_to : String → List (String → PollReply) → List PollReply
replies_to id [] = []
replies_to id (ask ∷ rounds) = ask id ∷ replies_to id rounds

abbrev pub IsDistinct : List String → Type 0
IsDistinct [] = Unit
IsDistinct (id ∷ ids) = All (λ q. str_eq id q ≡ false) ids × IsDistinct ids

abbrev pub no_polls : Polls
no_polls = record { finished = []; missing = [] }

-- The maps.
module _ {ℓ} {A : Type ℓ} where
  pub get-set :
      (k q : String) (v : A) (es : List (String × A))
      → get_key q (set_key k v es) ≡ (if str_eq k q then some v else get_key q es)
  get-set k q v [] = ground arith
  get-set k q v ((x, w) ∷ es) = ground (arith, eq_iff x k, eq_iff x q, eq_iff k q, get-set k q v es)

  pub get-delete_other :
      (k q : String) (es : List (String × A))
      → str_eq k q ≡ false
      → get_key q (delete_key k es) ≡ get_key q es
  get-delete_other k q [] d = ground arith
  get-delete_other k q ((x, w) ∷ es) d =
      ground (arith, eq_iff x k, eq_iff x q, eq_iff k q, get-delete_other k q es)

  pub get-delete : (k : String) (es : List (String × A)) → get_key k (delete_key k es) ≡ none
  get-delete k [] = refl
  get-delete k ((x, w) ∷ es) = ground (arith, get-delete k es)

pub tally-set :
    (f : View → Bool) (k : String) (v : View) (es : List (String × View))
    → get_key k es ≡ none
    → tally f (views (set_key k v es)) ≡ tally f (views es) + (if f v then 1 else 0)
tally-set f k v [] e = ground arith
tally-set f k v ((x, w) ∷ es) e = ground (arith, tally-set f k v es)

pub length-views : (es : List (String × View)) → length es ≡ tally (λ v. true) (views es)
length-views [] = refl
length-views ((x, w) ∷ es) = omega (arith, length-views es)

-- How a job ends from these maps on.
abbrev pub outcome_of : Option View → ℕ → List PollReply → Option View
outcome_of none m replies = verdict m replies
outcome_of (some v) m replies = some v

abbrev pub outcome : Polls → String → List PollReply → Option View
outcome p id replies = outcome_of (get_key id p.finished) (misses_of (get_key id p.missing)) replies

-- Whether a job has ended, and so.
abbrev pub passes : (View → Bool) → Option View → Bool
passes f none = false
passes f (some v) = f v

abbrev pub has : (View → Bool) → Polls → String → Bool
has f p id = passes f (get_key id p.finished)

pub poll_one_other :
    (r : PollReply) (id q : String) (p : Polls) (states : List (String × ℕ))
    → str_eq id q ≡ false
    → (get_key q (poll_one r id p states).0.finished ≡ get_key q p.finished)
      × (get_key q (poll_one r id p states).0.missing ≡ get_key q p.missing)
unfolding poll_one
poll_one_other not_ok id q p states d = ground (
  arith,
  get-set id q lost p.finished,
  get-set id q (misses_of (get_key id p.missing) + 1) p.missing,
)
poll_one_other (job v) id q p states d =
    ground (arith, get-set id q v p.finished, get-delete_other id q p.missing)

pub poll_one_self :
    (r : PollReply) (id : String) (p : Polls) (states : List (String × ℕ))
    (replies : List PollReply)
    → outcome (poll_one r id p states).0 id replies ≡ outcome p id (r ∷ replies)
unfolding poll_one
poll_one_self not_ok id p states replies = ground (
  arith,
  eq_refl id,
  get-set id id lost p.finished,
  get-set id id (misses_of (get_key id p.missing) + 1) p.missing,
)
poll_one_self (job v) id p states replies =
    ground (arith, eq_refl id, get-set id id v p.finished, get-delete id p.missing)

-- One more entry exactly when the job of the id comes to have one.
pub poll_one_count :
    (f : View → Bool) (r : PollReply) (id : String) (p : Polls) (states : List (String × ℕ))
    → tally f (views (poll_one r id p states).0.finished) + (if has f p id then 1 else 0)
      ≡ tally f (views p.finished) + (if has f (poll_one r id p states).0 id then 1 else 0)
unfolding poll_one
poll_one_count f not_ok id p states =
    ground (arith, eq_refl id, get-set id id lost p.finished, tally-set f id lost p.finished)
poll_one_count f (job v) id p states =
    ground (arith, eq_refl id, get-set id id v p.finished, tally-set f id v p.finished)

pub poll_round_other :
    (ask : String → PollReply) (ids : List String) (q : String) (p : Polls)
    (states : List (String × ℕ))
    → All (λ id. str_eq q id ≡ false) ids
    → (get_key q (poll_round ask ids p states).0.finished ≡ get_key q p.finished)
      × (get_key q (poll_round ask ids p states).0.missing ≡ get_key q p.missing)
unfolding poll_round
poll_round_other ask [] q p states d = (refl, refl)
poll_round_other ask (id ∷ ids) q p states (d, ds) =
    let (p', states') = poll_one (ask id) id p states in
    let (fe, me) =
      poll_one_other (ask id) id q p states (ground (arith, eq_iff q id, eq_iff id q)) in
    let (fe', me') = poll_round_other ask ids q p' states' ds in (fe' ∙ fe, me' ∙ me)

-- A round takes every job one reply further, and keeps to the count of those that ended.
pub poll_round_each :
    (ask : String → PollReply) (rounds : List (String → PollReply)) (ids : List String) (p : Polls)
    (states : List (String × ℕ))
    → IsDistinct ids
    → All
        (λ id.
          outcome (poll_round ask ids p states).0 id (replies_to id rounds)
          ≡ outcome p id (replies_to id (ask ∷ rounds)))
        ids
unfolding poll_round
poll_round_each ask rounds [] p states d = tt
poll_round_each ask rounds (id ∷ ids) p states (d, ds) =
    let (p', states') = poll_one (ask id) id p states in
    let (fe, me) = poll_round_other ask ids id p' states' d in
    (
      rw (fe, me) (poll_one_self (ask id) id p states (replies_to id rounds)),
      All-zip (λ q. str_eq id q ≡ false)
          (λ q.
            outcome (poll_round ask ids p' states').0 q (replies_to q rounds)
            ≡ outcome p' q (replies_to q (ask ∷ rounds)))
          (λ q.
            outcome (poll_round ask ids p' states').0 q (replies_to q rounds)
            ≡ outcome p q (replies_to q (ask ∷ rounds)))
          (λ q n e.
            let (fq, mq) = poll_one_other (ask id) id q p states n in
            e ∙ (λ i. outcome_of (fq i) (misses_of (mq i)) (ask q ∷ replies_to q rounds)))
          ids d (poll_round_each ask rounds ids p' states' ds),
    )

pub tally-has :
    (f : View → Bool) (p p' : Polls) (ids : List String)
    → All (λ q. get_key q p'.finished ≡ get_key q p.finished) ids
    → tally (has f p') ids ≡ tally (has f p) ids
tally-has f p p' [] h = refl
tally-has f p p' (id ∷ ids) h = ground (arith, tally-has f p p' ids)

pub poll_round_count :
    (f : View → Bool) (ask : String → PollReply) (ids : List String) (p : Polls)
    (states : List (String × ℕ))
    → IsDistinct ids
    → tally f (views (poll_round ask ids p states).0.finished) + tally (has f p) ids
      ≡ tally f (views p.finished) + tally (has f (poll_round ask ids p states).0) ids
unfolding poll_round
poll_round_count f ask [] p states d = refl
poll_round_count f ask (id ∷ ids) p states (d, ds) =
    let (p', states') = poll_one (ask id) id p states in
    let (fe, me) = poll_round_other ask ids id p' states' d in
    let same : tally (has f p') ids ≡ tally (has f p) ids = tally-has f p p' ids (
      All-map (λ q. str_eq id q ≡ false) (λ q. get_key q p'.finished ≡ get_key q p.finished)
        (λ q n. (poll_one_other (ask id) id q p states n).0) ids d) in
    ground
      (arith, fe, poll_one_count f (ask id) id p states, poll_round_count f ask ids p' states' ds)

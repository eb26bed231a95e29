-- ===== src/LoadTest.antt =====
-- scripts/loadtest.ts: the driver that submits jobs to a running service and polls them to their
-- end. What the server answers, and to which request, is an argument.
pub mod Polling
pub mod Rounds
pub mod Submission
mod Tests
use contract_pinger.Common.{
  ℕ, zero, suc, ◌+◌, ◌*◌, ◌/◌, min, Bool, true, false, not, ◌&&◌, ◌||◌, List, [], ◌∷◌, ◌++◌, map,
  Option, none, some, String, ltb, leb, str_eq, if◌then◌else◌, length, get_elem?, keep, tally,
}
use contract_pinger.Common.Int.{ℤ, leb_ℤ}
use contract_pinger.Common.Sorting.{sort}
use contract_pinger.Stats.{add_some, count_by, count_one, last_of}

-- `argv[argv.indexOf(flag) + 1]`, if the flag is there and the argument behind it is not empty.
abbrev pub nonempty : List String → Option String
nonempty [] = none
nonempty (value ∷ rest) = if str_eq value "" then none else some value

abbrev pub argument : String → List String → Option String
argument flag [] = none
argument flag (x ∷ argv) = if str_eq x flag then nonempty argv else argument flag argv

abbrev pub or_default : Option String → String → String
or_default none fallback = fallback
or_default (some value) fallback = value

pub record Options : Type 0 where
  pub jobs : ℕ
  pub environment : String
  pub mode : String
  pub url : String
  pub secret : String
  pub poll_ms : ℕ

-- `env`, as far as the driver reads it; `number` is JavaScript's `Number`, of texts of naturals.
pub record Settings : Type 0 where
  pub number : String → ℕ
  pub local_url : String
  pub e2e_env : String
  pub tx_mode : String
  pub api_secret : Option String

unfoldable pub parse_args : Settings → List String → Options
parse_args e argv = record {
  jobs = e.number (or_default (argument "--jobs" argv) "10");
  environment = or_default (argument "--env" argv) e.e2e_env;
  mode = or_default (argument "--mode" argv) e.tx_mode;
  url = or_default (argument "--url" argv) e.local_url;
  secret = or_default e.api_secret "";
  poll_ms = e.number (or_default (argument "--poll" argv) "15000");
}

-- The answers to a submission: a job, a 429 with the wait that its body names, another status.
pub data SubmitReply : Type 0 where
  job_id : String → SubmitReply
  limited : Option ℕ → SubmitReply
  refused : ℕ → SubmitReply

pub data Submitted : Type 0 where
  all_submitted : List String → List ℕ → Submitted
  -- The last status, after which the driver exits.
  submit_failed : ℕ → Submitted
  -- The answers so far do not end the loop.
  submitting : List String → List ℕ → Submitted

abbrev pub wait_of : Option ℕ → ℕ
wait_of none = 5000
wait_of (some ms) = ms

-- The loop over the answers; the ids and the sleeps so far.
unfoldable pub submit : ℕ → List SubmitReply → List String → List ℕ → Submitted
submit jobs [] ids sleeps =
    if ltb (length ids) jobs then submitting ids sleeps else all_submitted ids sleeps
submit jobs (job_id id ∷ replies) ids sleeps =
    let rest = submit jobs replies (ids ++ id ∷ []) sleeps in
    if ltb (length ids) jobs then rest else all_submitted ids sleeps
submit jobs (limited wait ∷ replies) ids sleeps =
    let rest = submit jobs replies ids (sleeps ++ (wait_of wait + 250) ∷ []) in
    if ltb (length ids) jobs then rest else all_submitted ids sleeps
submit jobs (refused status ∷ replies) ids sleeps =
    if ltb (length ids) jobs then submit_failed status else all_submitted ids sleeps

-- A job as the server tells of it.
pub record View : Type 0 where
  pub state : String
  pub failure_reason : Option String
  pub durations : List (String × ℤ)

pub data PollReply : Type 0 where
  not_ok : PollReply
  job : View → PollReply

abbrev pub max_misses : ℕ
max_misses = 5

abbrev pub lost : View
lost = record { state = "failed"; failure_reason = some "lost_by_server"; durations = [] }

abbrev pub is_terminal : View → Bool
is_terminal v = str_eq v.state "responded" || str_eq v.state "failed"

-- `Map`, by its entries in the order of their keys' first setting.
module _ {ℓ} {A : Type ℓ} where
  abbrev pub get_key : String → List (String × A) → Option A
  get_key k [] = none
  get_key k ((x, v) ∷ es) = if str_eq x k then some v else get_key k es

  abbrev pub set_key : String → A → List (String × A) → List (String × A)
  set_key k v [] = (k, v) ∷ []
  set_key k v ((x, w) ∷ es) = if str_eq x k then (x, v) ∷ es else (x, w) ∷ set_key k v es

  abbrev pub delete_key : String → List (String × A) → List (String × A)
  delete_key k [] = []
  delete_key k ((x, w) ∷ es) =
      let rest = delete_key k es in if str_eq x k then rest else (x, w) ∷ rest

pub record Polls : Type 0 where
  pub finished : List (String × View)
  pub missing : List (String × ℕ)

abbrev pub misses_of : Option ℕ → ℕ
misses_of none = 0
misses_of (some n) = n

-- One job of a round: the maps, and the counts of the states.
abbrev pub poll_unfinished :
    PollReply → String → Polls → List (String × ℕ) → Polls × List (String × ℕ)
poll_unfinished not_ok id p states =
    let misses = misses_of (get_key id p.missing) + 1 in
    (
      record {
        missing = set_key id misses p.missing;
        finished = if leb max_misses misses then set_key id lost p.finished else p.finished;
      },
      states,
    )
poll_unfinished (job v) id p states = (
  record {
    missing = delete_key id p.missing;
    finished = if is_terminal v then set_key id v p.finished else p.finished;
  },
  count_one v.state states,
)

unfoldable pub poll_one : PollReply → String → Polls → List (String × ℕ) → Polls × List (String × ℕ)
poll_one reply id p states = elim (get_key id p.finished) [
  | some v ↦ (p, count_one v.state states)
  | none ↦ poll_unfinished reply id p states
]

unfoldable pub poll_round :
    (String → PollReply) → List String → Polls → List (String × ℕ) → Polls × List (String × ℕ)
unfolding poll_one
poll_round ask [] p states = (p, states)
poll_round ask (id ∷ ids) p states =
    let (p', states') = poll_one (ask id) id p states in poll_round ask ids p' states'

-- The loop over rounds; `none` if it is not over with these.
unfoldable pub poll : List (String → PollReply) → List String → Polls → Option Polls
unfolding poll_round
poll [] ids p = if ltb (length p.finished) (length ids) then none else some p
poll (ask ∷ rounds) ids p =
    let rest = poll rounds ids (poll_round ask ids p []).0 in
    if ltb (length p.finished) (length ids) then rest else some p

-- `percentile`, of unsorted values; `p` is a percentage.
abbrev pub percentile_of_sorted : List ℤ → ℕ → Option ℤ
percentile_of_sorted [] p = none
percentile_of_sorted (x ∷ xs) p = get_elem? (x ∷ xs) (min (length xs) (p * suc (length xs) / 100))

unfoldable pub percentile : List ℤ → ℕ → Option ℤ
percentile values p = percentile_of_sorted (sort leb_ℤ values) p

-- The report: how many succeeded and failed, why, and how long the stages took.
abbrev pub succeeded : View → Bool
succeeded v = str_eq v.state "responded"

abbrev pub has_failed : View → Bool
has_failed v = str_eq v.state "failed"

abbrev pub views : List (String × View) → List View
views [] = []
views ((id, v) ∷ es) = v ∷ views es

-- The reasons by how many jobs they failed, the commonest first.
abbrev pub failure_reasons : List View → List (String × ℕ)
failure_reasons bad =
    sort (λ a b. leb b.1 a.1) (count_by (map (λ v. or_default v.failure_reason "unknown") bad))

abbrev pub durations_of : String → List View → List ℤ
durations_of key [] = []
durations_of key (v ∷ vs) = add_some (get_key key v.durations) (durations_of key vs)

-- A line of the table of latencies.
pub record Latency : Type 0 where
  pub lowest : Option ℤ
  pub p50 : Option ℤ
  pub p95 : Option ℤ
  pub highest : Option ℤ

unfoldable pub latency : String → List View → Latency
unfolding percentile
latency key ok =
    let values = sort leb_ℤ (durations_of key ok) in
    record {
      lowest = get_elem? values 0;
      p50 = percentile (durations_of key ok) 50;
      p95 = percentile (durations_of key ok) 95;
      highest = last_of values;
    }

pub record Report : Type 0 where
  pub ok : ℕ
  pub bad : ℕ
  pub reasons : List (String × ℕ)
  pub latencies : List (String × Latency)

unfoldable pub report : List View → Report
unfolding latency
report jobs =
    let ok = keep succeeded jobs in
    let bad = keep has_failed jobs in
    record {
      ok = length ok;
      bad = length bad;
      reasons = failure_reasons bad;
      latencies =
          map (λ (label, key). (label, latency key ok))
            (("lease wait", "leaseWaitMs")
              ∷ ("signature", "signatureMs")
              ∷ ("confirmation", "confirmationMs")
              ∷ ("respond", "respondMs")
              ∷ ("total", "totalMs")
              ∷ []);
    }

-- The whole run: the exit code, with the report of a run that polled to the end.
pub data Exit : Type 0 where
  exited : ℕ → Option Report → Exit
  -- The answers so far do not end it.
  unfinished : Exit

-- The last request, for the statistics, and its body only print; where one of them rejects, the
-- `catch` of `main` ends the run with 1 behind the report.
abbrev pub exit_code : Bool → ℕ → ℕ
exit_code answered bad = if answered && not (ltb 0 bad) then 0 else 1

abbrev pub ended : Bool → Option Polls → Exit
ended answered none = unfinished
ended answered (some p) =
    let r = report (views p.finished) in exited (exit_code answered r.bad) (some r)

abbrev pub polled : Bool → List (String → PollReply) → Submitted → Exit
polled answered rounds (all_submitted ids sleeps) =
    ended answered (poll rounds ids (record { finished = []; missing = [] }))
polled answered rounds (submit_failed status) = exited 1 none
polled answered rounds (submitting ids sleeps) = unfinished

-- Every request of the loops is answered: one that rejects ends the run with 1, by the same `catch`.
-- `answered` tells whether the statistics are.
unfoldable pub load_test : Options → List SubmitReply → List (String → PollReply) → Bool → Exit
unfolding submit poll report
load_test opts replies rounds answered =
    if str_eq opts.secret ""
    then exited 1 none
    else polled answered rounds (submit opts.jobs replies [] [])

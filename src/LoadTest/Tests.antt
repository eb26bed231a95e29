-- ===== src/LoadTest/Tests.antt =====
-- The driver at concrete answers.
use contract_pinger.Common.{
  true, not, ◌&&◌, arith, ◌+◌, ◌≡◌, refl, List, [], ◌∷◌, none, some, String, str_eq, if◌then◌else◌,
  ltb, take,
}
use contract_pinger.Common.Int.{pos}
use contract_pinger.LoadTest.{
  parse_args, Settings, Options, View, SubmitReply, job_id, limited, refused, all_submitted,
  submit_failed, submit, PollReply, not_ok, job, lost, poll, poll_one, poll_round, Report, exited,
  load_test, succeeded, has_failed,
}
use contract_pinger.LoadTest.Submission.{job_ids, verdicts, load_test_ends}
use contract_pinger.LoadTest.Rounds.{no_polls}

abbrev settings : Settings
settings = record {
  number = λ t. if str_eq t "3" then 3 else if str_eq t "15000" then 15000 else 10;
  local_url = "http://localhost:3000";
  e2e_env = "dev";
  tx_mode = "eth_self_transfer";
  api_secret = some "key";
}

parsed : parse_args settings ("--env" ∷ "testnet" ∷ "--jobs" ∷ "3" ∷ "--mode" ∷ []) ≡ record {
  jobs = 3;
  environment = "testnet";
  mode = "eth_self_transfer";
  url = "http://localhost:3000";
  secret = "key";
  poll_ms = 15000;
}
unfolding parse_args
parsed = refl

abbrev sent : List SubmitReply
sent = job_id "a" ∷ limited (some 7000) ∷ job_id "b" ∷ limited none ∷ job_id "c" ∷ []

waits : submit 2 sent [] [] ≡ all_submitted ("a" ∷ "b" ∷ []) (7250 ∷ [])
unfolding submit
waits = refl

fails : submit 2 (job_id "a" ∷ refused 503 ∷ []) [] [] ≡ submit_failed 503
unfolding submit
fails = refl

abbrev at_work : View
at_work = record { state = "confirmed"; failure_reason = none; durations = [] }

abbrev done : View
done = record { state = "responded"; failure_reason = none; durations = ("totalMs", pos 900) ∷ [] }

-- The job "b" is never found; "a" is done at the third round.
abbrev asked : PollReply → String → PollReply
asked reply id = if str_eq id "a" then reply else not_ok

abbrev rounds : List (String → PollReply)
rounds = asked (job at_work) ∷ asked not_ok ∷ asked (job done) ∷ asked not_ok ∷ asked not_ok ∷ []

kept :
    poll rounds ("a" ∷ "b" ∷ []) no_polls
    ≡ some (record { finished = ("a", done) ∷ ("b", lost) ∷ []; missing = ("b", 5) ∷ [] })
unfolding poll poll_round poll_one
kept = refl

abbrev options : Options
options = record {
  jobs = 2;
  environment = "dev";
  mode = "eth_self_transfer";
  url = "http://localhost";
  secret = "key";
  poll_ms = 15000;
}

load_test_ends_example :
    let ids = take 2 (job_ids sent) in
    (r : Report) × (load_test options sent rounds true
      ≡ exited (if true && not (ltb 0 (verdicts has_failed rounds ids)) then 0 else 1) (some r))
    × (r.ok ≡ verdicts succeeded rounds ids)
    × (r.bad ≡ verdicts has_failed rounds ids)
    × (r.ok + r.bad ≡ 2)
load_test_ends_example =
    load_test_ends options sent rounds true refl (refl, (refl, (refl, (refl, (refl, tt)))))
      (omega arith) ((refl, tt), (tt, tt)) (refl, (refl, tt))

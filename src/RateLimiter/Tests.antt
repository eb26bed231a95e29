-- ===== src/RateLimiter/Tests.antt =====
-- Runs of the limiter, and the theorems at concrete histories.
use contract_pinger.Common.{ℕ, ◌+◌, ◌≤◌, ◌<◌, ◌≡◌, refl, true, false, List, [], ◌∷◌, arith}
use contract_pinger.RateLimiter.{RateLimiter, create, expire, try_acquire, retry_after_ms, used}
use contract_pinger.RateLimiter.Window.{
  Tracks, try_acquire-Tracks, answers, spec_answers, spec_try, answers-spec_answers, allowed,
  inside, window_bound,
}
use contract_pinger.RateLimiter.Retry.{retry_after_exact}

-- Two requests a window of 100: the third waits for the first to leave.
abbrev arrivals : List ℕ
arrivals = 10 ∷ 20 ∷ 30 ∷ 109 ∷ 110 ∷ 119 ∷ 120 ∷ []

arrivals_answered :
    answers (create 2 100) arrivals ≡ true ∷ true ∷ false ∷ false ∷ true ∷ false ∷ true ∷ []
unfolding answers create try_acquire expire
arrivals_answered = refl

abbrev busy_limiter : RateLimiter
busy_limiter = record { hits = 10 ∷ 20 ∷ []; limit = 2; window_ms = 100 }

retry_from_busy : (retry_after_ms busy_limiter 30).1 ≡ 80
unfolding retry_after_ms expire
retry_from_busy = refl

used_from_busy : (used busy_limiter 115).1 ≡ 1
unfolding used expire
used_from_busy = refl

busy-Tracks : Tracks busy_limiter (10 ∷ 20 ∷ []) 20
busy-Tracks = record {
  ascending = omega arith;
  arrived = omega arith;
  bounded = omega arith;
  agrees = λ t h. refl;
}

answers-spec_answers_example : answers (create 2 100) arrivals ≡ spec_answers 2 100 [] arrivals
answers-spec_answers_example = answers-spec_answers 2 100 arrivals (omega arith)

window_bound_example : inside 100 119 (allowed arrivals (answers (create 2 100) arrivals)) ≤ 2
window_bound_example = window_bound 2 100 arrivals (omega arith) 119

try_acquire-Tracks_example :
    ((try_acquire busy_limiter 110).1 ≡ (spec_try 2 100 (10 ∷ 20 ∷ []) 110).1)
    × Tracks (try_acquire busy_limiter 110).0 (spec_try 2 100 (10 ∷ 20 ∷ []) 110).0 110
try_acquire-Tracks_example =
    try_acquire-Tracks busy_limiter (10 ∷ 20 ∷ []) 20 110 (omega arith) busy-Tracks

retry_after_exact_example :
    ((try_acquire (retry_after_ms busy_limiter 30).0 (30 + (retry_after_ms busy_limiter 30).1)).1
      ≡ true)
    × ((t : ℕ)
        → 30 ≤ t
        → t < 30 + (retry_after_ms busy_limiter 30).1
        → (try_acquire (retry_after_ms busy_limiter 30).0 t).1 ≡ false)
retry_after_exact_example =
    retry_after_exact busy_limiter (10 ∷ 20 ∷ []) 20 30 busy-Tracks (omega arith)

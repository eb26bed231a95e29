-- ===== src/RateLimiter.antt =====
-- src/utils/rateLimiter.ts: the sliding-window limiter. A method returns the new limiter and its
-- result; `now`, which the source reads from the clock by default, is an argument.
pub mod Window
pub mod Retry
mod Tests
use contract_pinger.Common.{
  ℕ, ◌+◌, ◌-◌, Bool, true, false, List, [], ◌∷◌, ◌++◌, length, leb, ltb, if◌then◌else◌,
}

pub record RateLimiter : Type 0 where
  pub hits : List ℕ
  pub limit : ℕ
  pub window_ms : ℕ

unfoldable pub create : ℕ → ℕ → RateLimiter
create limit window_ms = record { hits = []; limit = limit; window_ms = window_ms }

-- The loop of `prune`. `hits[0] <= now - windowMs` is over signed numbers, where it says
-- `hits[0] + windowMs <= now`.
unfoldable pub expire : ℕ → ℕ → List ℕ → List ℕ
expire now window_ms [] = []
expire now window_ms (h ∷ hs) = elim (leb (h + window_ms) now) [
  | true ↦ expire now window_ms hs
  | false ↦ h ∷ hs
]

pub prune : RateLimiter → ℕ → RateLimiter
prune r now = record r { hits = expire now r.window_ms r.hits }

admit : RateLimiter → ℕ → RateLimiter × Bool
admit r now =
    if leb r.limit (length r.hits)
    then (r, false)
    else (record r { hits = r.hits ++ now ∷ [] }, true)

unfoldable pub try_acquire : RateLimiter → ℕ → RateLimiter × Bool
unfolding admit prune
try_acquire r now = admit (prune r now) now

-- `hits[0]` of an empty list is reached only with a limit of 0, which the first test takes.
oldest : List ℕ → ℕ
oldest [] = 0
oldest (h ∷ hs) = h

-- `-` stops at 0, as `Math.max(0, …)` does.
wait_for : RateLimiter → ℕ → ℕ
unfolding oldest
wait_for r now =
    if leb r.limit 0
    then r.window_ms
    else if ltb (length r.hits) r.limit
    then 0
    else oldest r.hits + r.window_ms - now

unfoldable pub retry_after_ms : RateLimiter → ℕ → RateLimiter × ℕ
unfolding wait_for prune
retry_after_ms r now = let r' = prune r now in (r', wait_for r' now)

unfoldable pub used : RateLimiter → ℕ → RateLimiter × ℕ
unfolding prune
used r now = let r' = prune r now in (r', length r'.hits)

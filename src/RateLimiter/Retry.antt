-- ===== src/RateLimiter/Retry.antt =====
-- What `retryAfterMs` promises a refused caller.
use contract_pinger.Common.{ℕ, ◌+◌, ◌≤◌, ◌<◌, ◌≡◌, refl, true, false, List, [], ◌∷◌, length, arith}
use contract_pinger.RateLimiter.{RateLimiter, expire, prune, wait_for, try_acquire, retry_after_ms}
use contract_pinger.RateLimiter.Window.{Tracks}

-- What is kept is younger than the window, from its head on.
expire_head :
    (now w : ℕ) (hs : List ℕ) (h : ℕ) (rest : List ℕ) → expire now w hs ≡ h ∷ rest → now < h + w
unfolding expire
expire_head now w [] h rest e = cc
expire_head now w (x ∷ hs) h rest e = ground (arith, expire_head now w hs h rest)

length-expire-le : (w now : ℕ) (hs : List ℕ) → length (expire now w hs) ≤ length hs
unfolding expire
length-expire-le w now [] = omega arith
length-expire-le w now (h ∷ hs) = ground (arith, length-expire-le w now hs)

-- A limiter just pruned at `now`.
abbrev Pruned : ℕ → ℕ → List ℕ → Type 0
Pruned now w [] = Unit {0}
Pruned now w (h ∷ hs) = now < h + w

expire-Pruned : (now w : ℕ) (hs : List ℕ) → Pruned now w (expire now w hs)
unfolding expire
expire-Pruned now w [] = tt
expire-Pruned now w (h ∷ hs) = ground (arith, expire-Pruned now w hs)

module _ (limit w now : ℕ) where
  abbrev holding : List ℕ → RateLimiter
  holding hs = record { hits = hs; limit = limit; window_ms = w }

  allowed_after :
      (t : ℕ) (hs : List ℕ)
      → Pruned now w hs
      → 0 < limit
      → length hs ≤ limit
      → t ≡ now + wait_for (holding hs) now
      → (try_acquire (holding hs) t).1 ≡ true
  unfolding try_acquire wait_for expire
  allowed_after t [] p pos le e = ground arith
  allowed_after t (h ∷ hs) p pos le e = ground (arith, length-expire-le w t hs)

  refused_before :
      (t : ℕ) (hs : List ℕ)
      → Pruned now w hs
      → now ≤ t
      → t < now + wait_for (holding hs) now
      → (try_acquire (holding hs) t).1 ≡ false
  unfolding try_acquire wait_for expire
  refused_before t [] p le lt = ground arith
  refused_before t (h ∷ hs) p le lt = ground arith

-- With a positive limit `retryAfterMs` is exact: a request made after the wait that it names is
-- allowed, and every request before that is refused, if no other request comes in between.
pub retry_after_exact :
    (r : RateLimiter) (log : List ℕ) (last now : ℕ)
    → Tracks r log last
    → 0 < r.limit
    → ((try_acquire (retry_after_ms r now).0 (now + (retry_after_ms r now).1)).1 ≡ true)
      × ((t : ℕ)
          → now ≤ t
          → t < now + (retry_after_ms r now).1
          → (try_acquire (retry_after_ms r now).0 t).1 ≡ false)
unfolding retry_after_ms prune
retry_after_exact r log last now v pos = (
  allowed_after r.limit r.window_ms now _ kept fresh pos
      (omega (arith, length-expire-le r.window_ms now r.hits, v.bounded)) refl,
  λ t le lt. refused_before r.limit r.window_ms now t kept fresh le lt,
)
  where
    kept : List ℕ
    kept = expire now r.window_ms r.hits

    fresh : Pruned now r.window_ms kept
    fresh = expire-Pruned now r.window_ms r.hits

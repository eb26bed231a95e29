-- ===== src/RateLimiter/Window.antt =====
-- The limiter against a log of every request that it ever allowed.
use mathlib.Core.List.{append-nil, append_assoc}
use contract_pinger.Common.{
  ℕ, ◌+◌, ◌≤◌, ◌<◌, ◌≡◌, ◌⊎◌, refl, Bool, true, false, List, [], ◌∷◌, ◌++◌, length, tally, All,
  arith, leb, ltb, tests, ◌&&◌, if◌then◌else◌, length-append, tally-append, Bool-cases, inl, inr,
  All-append, ◌∙◌,
}
use contract_pinger.RateLimiter.{RateLimiter, create, expire, prune, try_acquire}

-- Hits in the order of their arrival, none before `lo`.
abbrev pub Ascending : ℕ → List ℕ → Type 0
Ascending lo [] = Unit {0}
Ascending lo (h ∷ hs) = (lo ≤ h) × Ascending h hs

abbrev pub Until : ℕ → List ℕ → Type 0
Until now = All (λ h. h ≤ now)

Until-mono : (a b : ℕ) (hs : List ℕ) → a ≤ b → Until a hs → Until b hs
Until-mono a b [] le u = tt
Until-mono a b (h ∷ hs) le u = (omega arith, Until-mono a b hs le u.1)

Ascending-weaken : (lo h : ℕ) (hs : List ℕ) → lo ≤ h → Ascending h hs → Ascending lo hs
Ascending-weaken lo h [] le a = tt
Ascending-weaken lo h (x ∷ hs) le a = (omega arith, a.1)

pub Ascending-append :
    (lo now : ℕ) (hs : List ℕ)
    → lo ≤ now
    → Ascending lo hs
    → Until now hs
    → Ascending lo (hs ++ now ∷ [])
Ascending-append lo now [] le a u = (le, tt)
Ascending-append lo now (h ∷ hs) le a u = (a.0, Ascending-append h now hs u.0 a.1 u.1)

-- The hits that count at `now`: those less than a window old.
abbrev pub recent : ℕ → ℕ → List ℕ → ℕ
recent window_ms now = tally (λ h. ltb now (h + window_ms))

recent-all :
    (lo w now : ℕ) (hs : List ℕ) → now < lo + w → Ascending lo hs → recent w now hs ≡ length hs
recent-all lo w now [] h a = refl
recent-all lo w now (x ∷ hs) h a = ground (arith, recent-all x w now hs)

pub length-expire :
    (lo w now : ℕ) (hs : List ℕ) → Ascending lo hs → length (expire now w hs) ≡ recent w now hs
unfolding expire
length-expire lo w now [] a = refl
length-expire lo w now (h ∷ hs) a = ground (arith, length-expire h w now hs, recent-all h w now hs)

pub expire-Ascending :
    (lo w now : ℕ) (hs : List ℕ) → Ascending lo hs → Ascending lo (expire now w hs)
unfolding expire
expire-Ascending lo w now [] a = tt
expire-Ascending lo w now (h ∷ hs) a =
    ground (arith, expire-Ascending h w now hs, Ascending-weaken lo h (expire now w hs))

pub expire-Until : (w now t : ℕ) (hs : List ℕ) → Until t hs → Until t (expire now w hs)
unfolding expire
expire-Until w now t [] u = tt
expire-Until w now t (h ∷ hs) u = ground (arith, expire-Until w now t hs)

-- What `expire` takes away is out of the window at every later instant.
pub recent-expire :
    (w now t : ℕ) (hs : List ℕ) → now ≤ t → recent w t (expire now w hs) ≡ recent w t hs
unfolding expire
recent-expire w now t [] le = refl
recent-expire w now t (h ∷ hs) le = ground (arith, recent-expire w now t hs)

-- The specification: keep every allowed request, and count those of the last window.
pub spec_try : ℕ → ℕ → List ℕ → ℕ → List ℕ × Bool
spec_try limit w log now =
    if ltb (recent w now log) limit then (log ++ now ∷ [], true) else (log, false)

-- The answers to a sequence of requests.
unfoldable pub answers : RateLimiter → List ℕ → List Bool
answers r [] = []
answers r (t ∷ ts) = let (r', b) = try_acquire r t in b ∷ answers r' ts

unfoldable pub spec_answers : ℕ → ℕ → List ℕ → List ℕ → List Bool
spec_answers limit w log [] = []
spec_answers limit w log (t ∷ ts) =
    let (log', b) = spec_try limit w log t in b ∷ spec_answers limit w log' ts

-- A limiter after its last call at `now`, beside the log of what it allowed.
pub record Tracks (r : RateLimiter) (log : List ℕ) (now : ℕ) : Type 0 where
  pub ascending : Ascending 0 r.hits
  pub arrived : Until now r.hits
  pub bounded : length r.hits ≤ r.limit
  pub agrees : (t : ℕ) → now ≤ t → recent r.window_ms t r.hits ≡ recent r.window_ms t log

pub create-Tracks : (limit w now : ℕ) → Tracks (create limit w) [] now
unfolding create
create-Tracks limit w now = record {
  ascending = tt;
  arrived = tt;
  bounded = omega arith;
  agrees = λ t h. refl;
}

length-expire-le : (w now : ℕ) (hs : List ℕ) → length (expire now w hs) ≤ length hs
unfolding expire
length-expire-le w now [] = omega arith
length-expire-le w now (h ∷ hs) = ground (arith, length-expire-le w now hs)

pub prune-Tracks :
    (r : RateLimiter) (log : List ℕ) (now t : ℕ)
    → now ≤ t
    → Tracks r log now
    → Tracks (prune r t) log t
unfolding prune
prune-Tracks r log now t le v = record {
  ascending = expire-Ascending 0 r.window_ms t r.hits v.ascending;
  arrived = expire-Until r.window_ms t t r.hits (Until-mono now t r.hits le v.arrived);
  bounded = omega (arith, length-expire-le r.window_ms t r.hits, v.bounded);
  agrees = λ u h. recent-expire r.window_ms t u r.hits h ∙ v.agrees u (omega arith);
}

push-Tracks :
    (r : RateLimiter) (log : List ℕ) (now : ℕ)
    → length r.hits < r.limit
    → Tracks r log now
    → Tracks (record r { hits = r.hits ++ now ∷ [] }) (log ++ now ∷ []) now
push-Tracks r log now room v = record {
  ascending = Ascending-append 0 now r.hits (omega arith) v.ascending v.arrived;
  arrived = All-append (λ h. h ≤ now) r.hits (now ∷ []) v.arrived (omega arith, tt);
  bounded = omega (arith, length-append r.hits (now ∷ []));
  agrees = λ u h. omega (
    arith,
    tally-append (late u) r.hits (now ∷ []),
    tally-append (late u) log (now ∷ []),
    v.agrees u h,
  );
}
  where
    late : ℕ → ℕ → Bool
    late u h = ltb u (h + r.window_ms)

-- `hits` holds just the requests of the window, so its length is the log's count.
length-prune :
    (r : RateLimiter) (log : List ℕ) (now t : ℕ)
    → now ≤ t
    → Tracks r log now
    → length (prune r t).hits ≡ recent r.window_ms t log
unfolding prune
length-prune r log now t le v = length-expire 0 r.window_ms t r.hits v.ascending ∙ v.agrees t le

-- One call answers as the specification does and goes on tracking it.
pub try_acquire-Tracks :
    (r : RateLimiter) (log : List ℕ) (now t : ℕ)
    → now ≤ t
    → Tracks r log now
    → ((try_acquire r t).1 ≡ (spec_try r.limit r.window_ms log t).1)
      × Tracks (try_acquire r t).0 (spec_try r.limit r.window_ms log t).0 t
unfolding try_acquire spec_try prune
try_acquire-Tracks r log now t le v = elim (Bool-cases (ltb (recent r.window_ms t log) r.limit)) [
  | inl room ↦
      rw (room, open_gate room)
        (refl, push-Tracks (prune r t) log t (short room) (prune-Tracks r log now t le v))
  | inr full ↦ rw (full, shut_gate full) (refl, prune-Tracks r log now t le v)
]
  where
    held : length (expire t r.window_ms r.hits) ≡ recent r.window_ms t log
    held = length-prune r log now t le v

    short :
        ltb (recent r.window_ms t log) r.limit ≡ true
        → length (expire t r.window_ms r.hits) < r.limit
    short room = omega (tests, held)

    open_gate :
        ltb (recent r.window_ms t log) r.limit ≡ true
        → leb r.limit (length (expire t r.window_ms r.hits)) ≡ false
    open_gate room = ground (arith, held)

    shut_gate :
        ltb (recent r.window_ms t log) r.limit ≡ false
        → leb r.limit (length (expire t r.window_ms r.hits)) ≡ true
    shut_gate full = ground (arith, held)

pub settings_kept :
    (r : RateLimiter) (t : ℕ)
    → ((try_acquire r t).0.limit ≡ r.limit) × ((try_acquire r t).0.window_ms ≡ r.window_ms)
unfolding try_acquire prune
settings_kept r t = ground arith

answers_of :
    (ts : List ℕ) (r : RateLimiter) (log : List ℕ) (now : ℕ)
    → Ascending now ts
    → Tracks r log now
    → answers r ts ≡ spec_answers r.limit r.window_ms log ts
unfolding answers spec_answers
answers_of [] r log now a v = refl
answers_of (t ∷ ts) r log now a v =
    let (same, kept) = try_acquire-Tracks r log now t a.0 v in
    let rest = answers_of ts (try_acquire r t).0 _ t a.1 kept in
    rw (same, rest, (settings_kept r t).0, (settings_kept r t).1)

-- On requests in the order of their arrival, the limiter that prunes gives the answers of the one
-- that keeps every allowed request and counts those less than a window old.
pub answers-spec_answers :
    (limit w : ℕ) (ts : List ℕ)
    → Ascending 0 ts
    → answers (create limit w) ts ≡ spec_answers limit w [] ts
unfolding create
answers-spec_answers limit w ts a = answers_of ts (create limit w) [] 0 a (create-Tracks limit w 0)

-- The requests that were allowed.
abbrev pub allowed : List ℕ → List Bool → List ℕ
allowed [] bs = []
allowed (t ∷ ts) [] = []
allowed (t ∷ ts) (b ∷ bs) = if b then t ∷ allowed ts bs else allowed ts bs

-- How many requests fall into the window that ends at `t`.
abbrev pub inside : ℕ → ℕ → List ℕ → ℕ
inside w t = tally (λ h. leb h t && ltb t (h + w))

inside-late : (w now t : ℕ) (log : List ℕ) → now ≤ t → inside w t log ≤ recent w now log
inside-late w now t [] le = omega arith
inside-late w now t (h ∷ log) le = ground (arith, inside-late w now t log)

abbrev Quiet : ℕ → ℕ → List ℕ → Type 0
Quiet limit w log = (t : ℕ) → inside w t log ≤ limit

spec_try-Quiet :
    (limit w now : ℕ) (log : List ℕ)
    → Quiet limit w log
    → Quiet limit w (spec_try limit w log now).0
unfolding spec_try
spec_try-Quiet limit w now log q t = ground (
  arith,
  q t,
  inside-late w now t log,
  tally-append (λ h. leb h t && ltb t (h + w)) log (now ∷ []),
)

spec_try_cases :
    (limit w now : ℕ) (log : List ℕ)
    → (spec_try limit w log now ≡ (log ++ now ∷ [], true))
      ⊎ (spec_try limit w log now ≡ (log, false))
unfolding spec_try
spec_try_cases limit w now log = ground arith

spec_answers-Quiet :
    (ts : List ℕ) (limit w : ℕ) (log : List ℕ)
    → Quiet limit w log
    → Quiet limit w (log ++ allowed ts (spec_answers limit w log ts))
unfolding spec_answers
spec_answers-Quiet [] limit w log q t = rw (append-nil log) (q t)
spec_answers-Quiet (x ∷ ts) limit w log q t =
    let next =
      spec_answers-Quiet ts limit w (spec_try limit w log x).0 (spec_try-Quiet limit w x log q) t in
    elim (spec_try_cases limit w x log) [
      | inl e ↦ rw e (rw (e, append_assoc) at next)
      | inr e ↦ rw e (rw e at next)
    ]

-- For requests in the order of their arrival, no window of `window_ms` holds more than
-- `limit` allowed ones, wherever it ends.
pub window_bound :
    (limit w : ℕ) (ts : List ℕ)
    → Ascending 0 ts
    → (t : ℕ) → inside w t (allowed ts (answers (create limit w) ts)) ≤ limit
window_bound limit w ts a t =
    rw (answers-spec_answers limit w ts a) (spec_answers-Quiet ts limit w [] (λ u. omega arith) t)

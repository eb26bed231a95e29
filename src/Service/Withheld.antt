-- ===== src/Service/Withheld.antt =====
-- An address whose transaction was never seen confirmed.
use contract_pinger.Common.{
  ℕ, ◌≤◌, ◌≡◌, refl, sym, subst, inl, inr, true, false, List, [], ◌∷◌, map, Option, none, some,
  String, str_eq, arith, Bool-cases, Option-cases, tally-append, All,
}
use contract_pinger.BidirectionalTx.{BuiltTransaction}
use contract_pinger.WorkerPool.{
  Worker, WorkerPool, is_candidate, take_first, update_first, serve, hand_off, release, grants,
  quarantine,
}
use contract_pinger.WorkerPool.Waiters.{serve-stuck, serve-found}
use contract_pinger.WorkerPool.Events.{times}
use contract_pinger.WorkerPool.Leases.{paths_at}
use contract_pinger.JobStore.{FailureReason, broadcast_failed, confirmation_timeout}
use contract_pinger.Service.{
  Config, Service, Run, Phase, broadcasting, confirming, threw, finish, fail_job, give_up,
}
use contract_pinger.Service.Steps.{Outside, withhold, resume_leased, resume_by, resume}
use contract_pinger.Service.Balance.{granted_to, unread, unread-grants, release_lease-held}

-- A worker of a path awaits the resolution of a nonce.
abbrev pub Awaits : String → ℕ → Worker → Type 0
Awaits q n w = str_eq w.path q ≡ true → w.pending_nonce ≡ some n

absent-Awaits : (q : String) (n : ℕ) (ws : List Worker) → paths_at q ws ≤ 0 → All (Awaits q n) ws
absent-Awaits q n [] h = tt
absent-Awaits q n (w ∷ ws) h = ((λ e. ground arith), absent-Awaits q n ws (ground arith))

update_first-Awaits :
    (q : String) (n : ℕ) (f : Worker → Worker) (ws : List Worker)
    → ((w : Worker) → (f w).pending_nonce ≡ some n)
    → paths_at q ws ≤ 1
    → All (Awaits q n) (update_first q f ws)
unfolding update_first
update_first-Awaits q n f [] set d = tt
update_first-Awaits q n f (w ∷ ws) set d = elim (Bool-cases (str_eq w.path q)) [
  | inl same ↦ rw same ((λ e. set w), absent-Awaits q n ws (ground arith))
  | inr other ↦ rw other ((λ e. cc), update_first-Awaits q n f ws set (ground arith))
]

freed-Awaits :
    (q path : String) (n : ℕ) (ws : List Worker)
    → All (Awaits q n) ws
    → All (Awaits q n) (update_first path (λ w. record w { busy = false }) ws)
unfolding update_first
freed-Awaits q path n [] h = tt
freed-Awaits q path n (w ∷ ws) h = elim (Bool-cases (str_eq w.path path)) [
  | inl same ↦ rw same (h.0, h.1)
  | inr other ↦ rw other (h.0, freed-Awaits q path n ws h.1)
]

-- What is handed out is not of the path, and its other workers still await.
abbrev Spares : String → ℕ → Option (Worker × List Worker) → Type 0
Spares q n none = Unit
Spares q n (some (w, ws)) = (str_eq w.path q ≡ false) × All (Awaits q n) ws

candidate-other :
    (q : String) (n : ℕ) (x : Worker)
    → Awaits q n x
    → is_candidate x ≡ true
    → str_eq x.path q ≡ false
candidate-other q n x h c = elim (Bool-cases (str_eq x.path q)) [
  | inl same ↦ let pending = h same in ground arith
  | inr other ↦ other
]

take_first-Spares :
    (now : ℕ) (q : String) (n : ℕ) (ws : List Worker)
    → All (Awaits q n) ws
    → Spares q n (take_first now ws)
unfolding take_first
take_first-Spares now q n [] h = tt
take_first-Spares now q n (x ∷ ws) h = elim (Bool-cases (is_candidate x)) [
  | inl fits ↦
      let other = candidate-other q n x h.0 fits in rw fits (other, ((λ e. ground arith), h.1))
  | inr passed ↦
      rw passed (passed_over x h.0 (take_first now ws) (take_first-Spares now q n ws h.1))
]
  where
    passed_over :
        (x : Worker)
        → Awaits q n x
        → (r : Option (Worker × List Worker)) → Spares q n r
        → Spares q n (elim r [ none ↦ none | some (v, vs) ↦ some (v, x ∷ vs) ])
    passed_over x a none k = tt
    passed_over x a (some (v, vs)) k = (k.0, (a, k.1))

serve-Awaits :
    (now : ℕ) (q : String) (n : ℕ) (ts : List ℕ) (ws : List Worker)
    → All (Awaits q n) ws
    → (times q (map (λ g. g.1) (serve now ws ts).2) ≡ 0) × All (Awaits q n) (serve now ws ts).0
unfolding serve
serve-Awaits now q n [] ws h = (refl, h)
serve-Awaits now q n (t ∷ ts) ws h = elim (Option-cases (take_first now ws)) [
  | inl stuck ↦ subst Given (sym (serve-stuck now t ts ws stuck)) (refl, h)
  | inr ((w, ws'), found) ↦
      let (other, kept) = subst (Spares q n) found (take_first-Spares now q n ws h) in
      let (none_given, rest) = serve-Awaits now q n ts ws' kept in
      subst Given (sym (serve-found now t ts ws w ws' found)) (ground arith, rest)
]
  where
    Given : List Worker × List ℕ × List (ℕ × String) → Type 0
    Given x = (times q (map (λ g. g.1) x.2) ≡ 0) × All (Awaits q n) x.0

release-Awaits :
    (p : WorkerPool) (path q : String) (n now : ℕ)
    → All (Awaits q n) p.workers
    → All (Awaits q n) (release p path now).workers
      × (unread q (release p path now).settled ≡ unread q p.settled)
unfolding release hand_off
release-Awaits p path q n now h =
    let freed = update_first path (λ w. record w { busy = false }) p.workers in
    let (none_given, rest) =
      serve-Awaits now q n p.waiters freed (freed-Awaits q path n p.workers h) in
    let given = (serve now freed p.waiters).2 in
    (
      rest,
      omega (
        arith,
        none_given,
        tally-append (λ e. granted_to q e.1) p.settled (grants given),
        unread-grants q given,
      ),
    )

withhold-Awaits :
    (out : Outside) (config : Config) (s : Service) (r : Run) (path : String) (t : BuiltTransaction)
    (reason : FailureReason) (message : String) (now : ℕ)
    → r.worker ≡ some path
    → r.lease_released ≡ false
    → paths_at path s.pool.workers ≤ 1
    → let s' = (withhold out config s r path t reason message now).0 in
      All (Awaits path t.nonce) s'.pool.workers
      × (unread path s'.pool.settled ≡ unread path s.pool.settled)
unfolding withhold give_up finish quarantine
withhold-Awaits out config s r path t reason message now holder held d =
    let pool = quarantine s.pool path t.nonce in
    let s' = fail_job (record s { pool = pool }) r reason message now in
    subst
      (λ x.
        All (Awaits path t.nonce) x.0.pool.workers
        × (unread path x.0.pool.settled ≡ unread path s.pool.settled))
      (sym (release_lease-held s' r path now holder held))
      (release-Awaits pool path path t.nonce now (
        update_first-Awaits path t.nonce (λ w. record w { pending_nonce = some t.nonce })
          s.pool.workers (λ w. refl) d))

-- The transaction that a run has handed to the network, or is about to.
abbrev pub sent_of : Phase → Option BuiltTransaction
sent_of (broadcasting t) = some t
sent_of (confirming t) = some t
sent_of _ = none

abbrev pub Withheld : Service → String → ℕ → Service × Run → Type 0
Withheld s path n x =
    All (Awaits path n) x.0.pool.workers
    × (unread path x.0.pool.settled ≡ unread path s.pool.settled)

unseen_leased :
    (out : Outside) (config : Config) (s : Service) (r : Run) (path : String) (t : BuiltTransaction)
    (p : Phase) (message : String) (now : ℕ)
    → r.worker ≡ some path
    → sent_of p ≡ some t
    → r.lease_released ≡ false
    → paths_at path s.pool.workers ≤ 1
    → Withheld s path t.nonce (resume_leased out config s r path p (threw message) now)
unfolding resume_leased
unseen_leased out config s r path t (broadcasting u) message now holder sent held d =
    let same : u ≡ t = cc in
    subst
      (λ v. Withheld s path v.nonce (withhold out config s r path u broadcast_failed message now))
      same (withhold-Awaits out config s r path u broadcast_failed message now holder held d)
unseen_leased out config s r path t (confirming u) message now holder sent held d =
    let same : u ≡ t = cc in
    subst
      (λ v.
        Withheld s path v.nonce (withhold out config s r path u confirmation_timeout message now))
      same (withhold-Awaits out config s r path u confirmation_timeout message now holder held d)
unseen_leased out config s r path t p message now holder sent held d = cc

-- When the broadcast of a job fails, or its confirmation is not seen in time, the job's address is
-- left with the nonce it waits for, and none of the waiters that the release serves gets it. The job
-- holds the address, and no other worker has its path.
pub unseen-Awaits :
    (out : Outside) (config : Config) (s : Service) (r : Run) (path : String) (t : BuiltTransaction)
    (message : String) (now : ℕ)
    → r.worker ≡ some path
    → sent_of r.phase ≡ some t
    → r.lease_released ≡ false
    → paths_at path s.pool.workers ≤ 1
    → Withheld s path t.nonce (resume out config s r (threw message) now)
unfolding resume
unseen-Awaits out config s r path t message now holder sent held d =
    subst (λ w. Withheld s path t.nonce (resume_by out config w s r (threw message) now))
      (sym holder) (unseen_leased out config s r path t r.phase message now holder sent held d)

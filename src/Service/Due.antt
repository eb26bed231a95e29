-- ===== src/Service/Due.antt =====
-- The answers that a run asks for, by the place where it stands in `run` of
-- src/handlers/signBidirectional.ts.
use contract_pinger.Common.{
  ℕ, ◌≡◌, refl, sym, subst, inl, inr, Bool, true, false, List, [], ◌∷◌, map, Option, none, some,
  String, ltb, str_eq, if◌then◌else◌, arith, Option-cases,
}
use contract_pinger.BidirectionalTx.{expected_serialized_output}
use contract_pinger.WorkerPool.{
  Settlement, granted, refused, Pledge, kept, open_until, find, acquire_within,
}
use contract_pinger.JobStore.{FailureReason}
use contract_pinger.Service.{
  Config, Service, Run, Phase, deriving_addresses, reconciling, refreshing, parked, preflight,
  building, sending, signing, attaching, broadcasting, confirming, responding, over, Reply, derived,
  counts, balance, built, solana_sent, signature, attached, eth_hash, receipt, respond, settled,
  threw, RunError, other, release_lease, finish, give_up, throw,
}
use contract_pinger.Service.Steps.{
  Outside, address_at, assert_derived_sender, settlement_of, leased, settle, await_pledge, to_lease,
  to_refresh, to_reconcile, wants_refresh, collect, await_respond, with_balance, with_built,
  not_built, with_sent, with_signer, withhold, with_receipt, with_respond, resume_unleased,
  resume_leased, resume_by, resume,
}
use contract_pinger.Service.Resuming.{collect-none, collect-some, dropped}
use contract_pinger.Service.Progress.{fits_unleased, fits_leased, has_settlement, fits}

-- What may come back to the `await` of a phase: the value that the call gives, or, for every call
-- but that of the ticket, an error. `came` tells whether the ticket is settled.
abbrev pub due : Bool → Phase → Reply → Bool
due came over reply = false
due came (parked t) settled = came
due came (parked t) reply = false
due came deriving_addresses (derived addresses) = true
due came (reconciling paths) (counts latest pending) = true
due came (refreshing paths) (balance b) = true
due came preflight (balance b) = true
due came (building b) (built t request_id) = true
due came (sending t) (solana_sent tx) = true
due came (signing t) signature = true
due came (attaching t) (attached recovered) = true
due came (broadcasting t) (eth_hash hash) = true
due came (confirming t) (receipt success) = true
due came responding (respond output) = true
due came p (threw e) = true
due came p reply = false

-- A run stands in a loop only before a round of it, and has a worker exactly behind the lease.
abbrev pub placed : Phase → Option String → Bool
placed over worker = true
placed deriving_addresses none = true
placed (reconciling (path ∷ paths)) none = true
placed (refreshing (path ∷ paths)) none = true
placed (parked t) none = true
placed preflight (some path) = true
placed (building b) (some path) = true
placed (sending t) (some path) = true
placed (signing t) (some path) = true
placed (attaching t) (some path) = true
placed (broadcasting t) (some path) = true
placed (confirming t) (some path) = true
placed responding (some path) = true
placed p worker = false

due-fits_unleased :
    (came : Bool) (p : Phase) (reply : Reply)
    → placed p none ≡ true
    → due came p reply ≡ true
    → fits_unleased came p reply ≡ true
due-fits_unleased came over reply h d = cc
due-fits_unleased came (parked t) settled h d = d
due-fits_unleased came (parked t) reply h d = cc
due-fits_unleased came deriving_addresses (derived addresses) h d = refl
due-fits_unleased came deriving_addresses (threw e) h d = refl
due-fits_unleased came deriving_addresses reply h d = cc
due-fits_unleased came (reconciling (path ∷ paths)) (counts latest pending) h d = refl
due-fits_unleased came (reconciling (path ∷ paths)) (threw e) h d = refl
due-fits_unleased came (reconciling (path ∷ paths)) reply h d = cc
due-fits_unleased came (refreshing (path ∷ paths)) (balance b) h d = refl
due-fits_unleased came (refreshing (path ∷ paths)) (threw e) h d = refl
due-fits_unleased came (refreshing (path ∷ paths)) reply h d = cc
due-fits_unleased came (reconciling []) reply h d = cc
due-fits_unleased came (refreshing []) reply h d = cc
due-fits_unleased came p reply h d = cc

due-fits_leased :
    (came : Bool) (path : String) (p : Phase) (reply : Reply)
    → placed p (some path) ≡ true
    → due came p reply ≡ true
    → fits_leased p reply ≡ true
due-fits_leased came path over reply h d = cc
due-fits_leased came path preflight (balance b) h d = refl
due-fits_leased came path preflight (threw e) h d = refl
due-fits_leased came path preflight reply h d = cc
due-fits_leased came path (building b) (built t request_id) h d = refl
due-fits_leased came path (building b) (threw e) h d = refl
due-fits_leased came path (building b) reply h d = cc
due-fits_leased came path (sending t) (solana_sent tx) h d = refl
due-fits_leased came path (sending t) (threw e) h d = refl
due-fits_leased came path (sending t) reply h d = cc
due-fits_leased came path (signing t) signature h d = refl
due-fits_leased came path (signing t) (threw e) h d = refl
due-fits_leased came path (signing t) reply h d = cc
due-fits_leased came path (attaching t) (attached recovered) h d = refl
due-fits_leased came path (attaching t) (threw e) h d = refl
due-fits_leased came path (attaching t) reply h d = cc
due-fits_leased came path (broadcasting t) (eth_hash hash) h d = refl
due-fits_leased came path (broadcasting t) (threw e) h d = refl
due-fits_leased came path (broadcasting t) reply h d = cc
due-fits_leased came path (confirming t) (receipt success) h d = refl
due-fits_leased came path (confirming t) (threw e) h d = refl
due-fits_leased came path (confirming t) reply h d = cc
due-fits_leased came path responding (respond output) h d = refl
due-fits_leased came path responding (threw e) h d = refl
due-fits_leased came path responding reply h d = cc
due-fits_leased came path (reconciling []) reply h d = cc
due-fits_leased came path (refreshing []) reply h d = cc
due-fits_leased came path p reply h d = cc

-- What a placed run is due, it waits for.
pub due-fits :
    (s : Service) (r : Run) (reply : Reply)
    → placed r.phase r.worker ≡ true
    → due (has_settlement s r.phase) r.phase reply ≡ true
    → fits s r reply ≡ true
due-fits s r reply h d = by_worker r.worker h
  where
    by_worker :
        (w : Option String)
        → placed r.phase w ≡ true
        → elim w [
          | none ↦ fits_unleased (has_settlement s r.phase) r.phase reply
          | some path ↦ fits_leased r.phase reply
        ]
          ≡ true
    by_worker none h' = due-fits_unleased (has_settlement s r.phase) r.phase reply h' d
    by_worker (some path) h' = due-fits_leased (has_settlement s r.phase) path r.phase reply h' d

-- Placement is kept.
abbrev pub Placed : Service × Run → Type 0
Placed x = placed x.1.phase x.1.worker ≡ true

if-Placed : (b : Bool) (x y : Service × Run) → Placed x → Placed y → Placed (if b then x else y)
if-Placed true x y f g = f
if-Placed false x y f g = g

finish-Placed : (s : Service) (r : Run) (now : ℕ) → Placed (finish s r now)
unfolding finish
finish-Placed s r now = refl

give_up-Placed :
    (s : Service) (r : Run) (reason : FailureReason) (message : String) (now : ℕ)
    → Placed (give_up s r reason message now)
unfolding give_up finish
give_up-Placed s r reason message now = refl

throw-Placed : (s : Service) (r : Run) (e : RunError) (now : ℕ) → Placed (throw s r e now)
unfolding throw finish
throw-Placed s r e now = refl

settle-Placed : (s : Service) (r : Run) (st : Settlement) (now : ℕ) → Placed (settle s r st now)
unfolding settle leased
settle-Placed s r (granted path) now = refl
settle-Placed s r (refused e) now = throw-Placed s r _ now

module _ (r : Run) where
  await_pledge-Placed :
      (s : Service) (pledge : Pledge) (now : ℕ)
      → r.worker ≡ none
      → Placed (await_pledge s r pledge now)
  unfolding await_pledge
  await_pledge-Placed s (kept st) now w = settle-Placed s r st now
  await_pledge-Placed s (open_until t) now w = rw w refl

  to_lease-Placed : (s : Service) (now : ℕ) → r.worker ≡ none → Placed (to_lease s r now)
  unfolding to_lease
  to_lease-Placed s now w = if-Placed r.aborted _ _ (throw-Placed s r _ now) (
      await_pledge-Placed (record s { pool = (acquire_within s.pool now).0 })
        (acquire_within s.pool now).1 now w)

  to_refresh-Placed :
      (s : Service) (paths : List String) (now : ℕ)
      → r.worker ≡ none
      → Placed (to_refresh s r paths now)
  unfolding to_refresh
  to_refresh-Placed s [] now w = to_lease-Placed s now w
  to_refresh-Placed s (path ∷ paths) now w =
      if-Placed (wants_refresh (find path s.pool.workers)) _ _ (rw w refl)
        (to_refresh-Placed s paths now w)

  to_reconcile-Placed :
      (s : Service) (paths : List String) (now : ℕ)
      → r.worker ≡ none
      → Placed (to_reconcile s r paths now)
  unfolding to_reconcile
  to_reconcile-Placed s [] now w = to_refresh-Placed s (map (λ v. v.path) s.pool.workers) now w
  to_reconcile-Placed s (path ∷ paths) now w = rw w refl

  collect-Placed : (s : Service) (t now : ℕ) → Placed (s, r) → Placed (collect s r t now)
  collect-Placed s t now at = elim (Option-cases (settlement_of t s.pool.settled)) [
    | inl unsettled ↦ subst Placed (sym (collect-none s r t now unsettled)) at
    | inr (st, came) ↦
        subst Placed (sym (collect-some s r t now st came)) (settle-Placed (dropped s t) r st now)
  ]

  release_lease-worker : (s : Service) (now : ℕ) → (release_lease s r now).1.worker ≡ r.worker
  unfolding release_lease
  release_lease-worker s now = ground arith

  await_respond-Placed :
      (s : Service) (path : String) (now : ℕ)
      → r.worker ≡ some path
      → Placed (await_respond (release_lease s r now))
  await_respond-Placed s path now w = rw (release_lease-worker s now, w) refl

module _ (o : Outside) (config : Config) (s : Service) (r : Run) where
  unleased-Placed :
      (p : Phase) (reply : Reply) (now : ℕ)
      → r.worker ≡ none
      → Placed (s, r)
      → Placed (resume_unleased o config s r p reply now)
  unfolding resume_unleased
  unleased-Placed deriving_addresses (derived addresses) now w at = to_reconcile-Placed r _ _ now w
  unleased-Placed (reconciling (path ∷ paths)) (counts latest pending) now w at =
      to_reconcile-Placed r _ paths now w
  unleased-Placed (refreshing (path ∷ paths)) (balance b) now w at =
      to_refresh-Placed r _ paths now w
  unleased-Placed over reply now w at = at
  unleased-Placed (parked t) settled now w at = collect-Placed r s t now at
  unleased-Placed (parked t) (threw e) now w at = at
  unleased-Placed p (threw e) now w at = throw-Placed s r (other e) now
  unleased-Placed p reply now w at = at

  leased-Placed :
      (path : String) (p : Phase) (reply : Reply) (now : ℕ)
      → r.worker ≡ some path
      → Placed (s, r)
      → Placed (resume_leased o config s r path p reply now)
  unfolding resume_leased with_balance with_built not_built with_sent with_signer withhold
      with_receipt with_respond
  leased-Placed path preflight (balance b) now w at =
      if-Placed (ltb b config.min_balance_wei) _ _ (give_up-Placed _ r _ _ now)
        (if-Placed r.aborted _ _ (throw-Placed s r _ now) (rw w refl))
  leased-Placed path (building b) (built t id) now w at =
      if-Placed (ltb b t.gas_cost_wei) _ _ (give_up-Placed _ r _ _ now)
        (if-Placed r.aborted _ _ (throw-Placed _ r _ now) (rw w refl))
  leased-Placed path (building b) (threw m) now w at =
      if-Placed (o.lacks_funds m) _ _ (give_up-Placed _ r _ m now) (throw-Placed s r (other m) now)
  leased-Placed path (sending t) (solana_sent tx) now w at = rw w refl
  leased-Placed path (signing t) signature now w at = rw w refl
  leased-Placed path (signing t) (threw m) now w at = give_up-Placed s r _ m now
  leased-Placed path (attaching t) (attached recovered) now w at =
      if-Placed (assert_derived_sender o (address_at s path) recovered) _ _ (rw w refl)
        (give_up-Placed s r _ _ now)
  leased-Placed path (broadcasting t) (eth_hash hash) now w at = rw w refl
  leased-Placed path (broadcasting t) (threw m) now w at = give_up-Placed _ r _ m now
  leased-Placed path (confirming t) (receipt success) now w at =
      if-Placed success _ _ (await_respond-Placed r _ path now w) (give_up-Placed s r _ _ now)
  leased-Placed path (confirming t) (threw m) now w at = give_up-Placed _ r _ m now
  leased-Placed path responding (respond output) now w at =
      if-Placed (str_eq output expected_serialized_output) _ _ (finish-Placed _ r now)
        (give_up-Placed _ r _ _ now)
  leased-Placed path responding (threw m) now w at = give_up-Placed s r _ m now
  leased-Placed path over reply now w at = at
  leased-Placed path p (threw m) now w at = throw-Placed s r (other m) now
  leased-Placed path p reply now w at = at

  pub resume-Placed :
      (reply : Reply) (now : ℕ) → Placed (s, r) → Placed (resume o config s r reply now)
  unfolding resume
  resume-Placed reply now at = elim (Option-cases r.worker) [
    | inl nobody ↦
        subst (λ w. Placed (resume_by o config w s r reply now)) (sym nobody)
          (unleased-Placed r.phase reply now nobody at)
    | inr (path, holder) ↦
        subst (λ w. Placed (resume_by o config w s r reply now)) (sym holder)
          (leased-Placed path r.phase reply now holder at)
  ]

-- ===== src/Service/Addresses/Loops.antt =====
-- The loops of the service over the workers of a pool.
use contract_pinger.Common.{
  ℕ, ◌≡◌, refl, sym, subst, ◌∙◌, ap, true, List, [], ◌∷◌, ◌++◌, map, none, String, ltb, str_eq,
  if◌then◌else◌, arith, keep,
}
use contract_pinger.Handlers.{Result, ok, err}
use contract_pinger.WorkerPool.{
  Worker, WorkerPool, update_first, set_address, set_balance, reconcile, quarantined, is_pending,
  cleared,
}
use contract_pinger.WorkerPool.Leases.{paths_at}
use contract_pinger.Service.Steps.{set_addresses}
use contract_pinger.Service.Addresses.{
  for_each, key_version, Network, derive_worker_addresses, read_balance, read_counts,
  reconcile_quarantined,
}
use contract_pinger.Service.Addresses.Placing.{
  IsDistinct, update_first-middle, Places, head_fresh, onward_IsDistinct, shift, for_each-maps,
}

-- The answer of a read that succeeds; another value where it fails.
abbrev pub answered {ℓ} : {A : Type ℓ} → A → Result A → A
answered fallback (ok a) = a
answered fallback (err f) = fallback

abbrev pub with_funds : Network → ℕ → Worker → Worker
with_funds network minimum w =
    if str_eq w.address "0x"
    then w
    else let b = answered 0 (network.balance w.address) in
      record w { balance_wei = b; underfunded = ltb b minimum }

abbrev pub with_counts : Network → Worker → Worker
with_counts network w =
    cleared
      (ltb (answered 0 (network.latest_count w.address))
        (answered 0 (network.pending_count w.address)))
      w

-- A change of the worker of a path, where it stands.
placed_at :
    (f : Worker → Worker) (w : Worker) (behind ahead : List Worker) (p : WorkerPool)
    → p.workers ≡ behind ++ w ∷ ahead
    → paths_at w.path behind ≡ 0
    → record p { workers = update_first w.path f p.workers }
      ≡ record p { workers = behind ++ f w ∷ ahead }
placed_at f w behind ahead p at fresh =
    ap (λ ws. record p { workers = ws })
      (ap (update_first w.path f) at ∙ update_first-middle f w behind ahead fresh)

read_balance-Places :
    (network : Network) (minimum : ℕ)
    → Places (read_balance network minimum) (with_funds network minimum)
unfolding set_balance
read_balance-Places network minimum w behind ahead p at fresh e = ground (
  arith,
  ap (λ ws. record p { workers = ws }) at,
  placed_at
      (λ v. record v {
        balance_wei = answered 0 (network.balance w.address);
        underfunded = ltb (answered 0 (network.balance w.address)) minimum;
      })
      w behind ahead p at fresh,
)

read_counts-Places : (network : Network) → Places (read_counts network) (with_counts network)
unfolding reconcile
read_counts-Places network w behind ahead p at fresh e = ground (
  arith,
  placed_at
      (cleared (
        ltb (answered 0 (network.latest_count w.address))
          (answered 0 (network.pending_count w.address))))
      w behind ahead p at fresh,
)

-- The derivation.
abbrev pub with_address : Network → String → Worker → Worker
with_address network key w = record w {
  address = answered "0x" (network.derive key w.path key_version);
}

one_derived :
    (path : String) (a : Result String) (rs : Result (List (String × String)))
    (derived : List (String × String))
    → (elim a as (λ x. Result (List (String × String))) [
      | err f ↦ err f
      | ok address ↦ elim rs as (λ x. Result (List (String × String))) [
        | err f ↦ err f
        | ok rest ↦ ok ((path, address) ∷ rest)
      ]
    ])
      ≡ ok derived
    → (rest : List (String × String)) × (rs ≡ ok rest) × (derived ≡ (path, answered "0x" a) ∷ rest)
one_derived path (ok a) (ok rest) derived e = (rest, refl, cc)
one_derived path (ok a) (err f) derived e = cc
one_derived path (err f) rs derived e = cc

pub set_addresses-maps :
    (network : Network) (key : String) (ahead behind : List Worker) (p : WorkerPool)
    (derived : List (String × String))
    → p.workers ≡ behind ++ ahead
    → IsDistinct (behind ++ ahead)
    → derive_worker_addresses network key (map (λ (w : Worker). w.path) ahead) ≡ ok derived
    → set_addresses p derived
      ≡ record p { workers = behind ++ map (with_address network key) ahead }
unfolding derive_worker_addresses set_address
set_addresses-maps network key [] behind p derived at d e =
    let none_derived : derived ≡ [] = cc in
    rw none_derived (ap (λ ws. record p { workers = ws }) at)
set_addresses-maps network key (w ∷ ahead) behind p derived at d e =
    let f = with_address network key in
    let (rest, derives, is) =
      one_derived w.path (network.derive key w.path key_version)
        (derive_worker_addresses network key (map (λ (x : Worker). x.path) ahead)) derived e in
    let a = answered "0x" (network.derive key w.path key_version) in
    let p' = set_address p w.path a in
    let placed : p' ≡ record p { workers = behind ++ f w ∷ ahead } =
      placed_at (λ v. record v { address = a }) w behind ahead p at (head_fresh w behind ahead d) in
    let onward =
      set_addresses-maps network key ahead (behind ++ f w ∷ []) p' rest
        (ap (λ (q : WorkerPool). q.workers) placed ∙ shift f w behind ahead)
        (onward_IsDistinct w (f w) behind ahead refl d) derives in
    ap (set_addresses p) is
    ∙ onward
    ∙ ap (λ (q : WorkerPool). record q { workers = behind ++ f w ∷ [] ++ map f ahead }) placed
    ∙ ap (λ ws. record p { workers = ws }) (sym (shift f w behind (map f ahead)))

keep_all : (ws : List Worker) → keep (λ w. true) ws ≡ ws
keep_all [] = refl
keep_all (w ∷ ws) = ap (λ vs. w ∷ vs) (keep_all ws)

pub map_kept :
    (f : Worker → Worker)
    → ((w : Worker) → (f w).path ≡ w.path)
    → (q : String) (ws : List Worker) → paths_at q (map f ws) ≡ paths_at q ws
map_kept f k q [] = refl
map_kept f k q (w ∷ ws) = ground (arith, k w, map_kept f k q ws)

module _ (network : Network) (minimum : ℕ) where
  pub with_funds_path : (w : Worker) → (with_funds network minimum w).path ≡ w.path
  with_funds_path w = ground arith

  pub balances_lem :
      (p : WorkerPool)
      → IsDistinct p.workers
      → (for_each (read_balance network minimum) p.workers p).1 ≡ none
      → (for_each (read_balance network minimum) p.workers p).0
        ≡ record p { workers = map (with_funds network minimum) p.workers }
  balances_lem p d e =
      subst
        (λ l.
          (for_each (read_balance network minimum) l p).1 ≡ none
          → (for_each (read_balance network minimum) l p).0
            ≡ record p { workers = map (with_funds network minimum) p.workers })
        (keep_all p.workers)
        (for_each-maps (read_balance network minimum) (with_funds network minimum) (λ w. true)
          (read_balance-Places network minimum) with_funds_path (λ w h. cc) p.workers [] p refl d)
        e

  pub counts_lem :
      (p : WorkerPool)
      → IsDistinct p.workers
      → (reconcile_quarantined network p).1 ≡ none
      → (reconcile_quarantined network p).0
        ≡ record p { workers = map (with_counts network) p.workers }
  unfolding reconcile_quarantined quarantined
  counts_lem p d e =
      for_each-maps (read_counts network) (with_counts network) is_pending
        (read_counts-Places network) (λ w. ground arith) (λ w h. ground arith) p.workers [] p refl d
        e

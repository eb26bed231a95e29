-- ===== src/Funding/Sweep/Stages.antt =====
-- What each check of a sweep says when it passes.
use contract_pinger.Common.{
  ℕ, ◌≡◌, refl, subst, inl, inr, true, false, List, [], ◌∷◌, ◌++◌, some, String, length, ◌==◌,
  str_eq, eq_iff, arith, Bool-cases, All, All-append,
}
use contract_pinger.BidirectionalTx.{Environment, chain_id}
use contract_pinger.Handlers.{Result, ok, err}
use contract_pinger.WorkerPool.{build_paths}
use contract_pinger.Service.Addresses.{Network, key_version, derive_worker_addresses}
use contract_pinger.Funding.{Target, differences}
use contract_pinger.Funding.Sweep.{
  Check, passed, stopped, ◌>>=◌, Sweep, ServiceReply, silent, reports, Outside, same_chain,
  one_chain, requester_of, check_node, as_targets, counted, derive_targets, pairs_of, compared,
  cross_check, cross_checks,
}

pub passes {ℓ κ} :
    {A : Type ℓ} {B : Type κ} (m : Check A) (f : A → Check B) (b : B)
    → m >>= f ≡ passed b
    → (a : A) × (m ≡ passed a) × (f a ≡ passed b)
passes (passed a) f b e = (a, refl, e)
passes (stopped s) f b e = cc

pub passed_injective {ℓ} : {A : Type ℓ} {a b : A} → passed a ≡ passed b → a ≡ b
passed_injective e = cc

-- Each derived address is the network's for the requester and the path.
abbrev pub IsDerived : Outside → String → Target → Type 0
IsDerived o requester t =
    (o.network t.environment).derive requester t.path key_version ≡ ok t.address

pub one_derived :
    (network : Network) (key path : String) (a : Result String)
    (rs : Result (List (String × String))) (ds : List (String × String))
    → network.derive key path key_version ≡ a
    → (elim a as (λ x. Result (List (String × String))) [
      | err f ↦ err f
      | ok address ↦ elim rs as (λ x. Result (List (String × String))) [
        | err f ↦ err f
        | ok rest ↦ ok ((path, address) ∷ rest)
      ]
    ])
      ≡ ok ds
    → (address : String) × (rest : List (String × String)) × (network.derive key path key_version
        ≡ ok address)
      × (rs ≡ ok rest)
      × (ds ≡ (path, address) ∷ rest)
one_derived network key path (ok a) (ok rest) ds h e = (a, rest, h, refl, cc)
one_derived network key path (ok a) (err f) ds h e = cc
one_derived network key path (err f) rs ds h e = cc

pub derive-IsDerived :
    (o : Outside) (v : Environment) (key : String) (paths : List String)
    (ds : List (String × String))
    → derive_worker_addresses (o.network v) key paths ≡ ok ds
    → All (IsDerived o key) (as_targets v ds)
unfolding derive_worker_addresses
derive-IsDerived o v key [] ds e = let none_there : ds ≡ [] = cc in rw none_there tt
derive-IsDerived o v key (path ∷ paths) ds e =
    let (address, rest, is, more, shape) =
      one_derived (o.network v) key path ((o.network v).derive key path key_version)
        (derive_worker_addresses (o.network v) key paths) ds refl e in
    rw shape (is, derive-IsDerived o v key paths rest more)

pub counted-IsDerived :
    (o : Outside) (n : ℕ) (v : Environment) (key : String) (r : Result (List (String × String)))
    (ts : List Target)
    → ((ds : List (String × String)) → r ≡ ok ds → All (IsDerived o key) (as_targets v ds))
    → counted n v r ≡ passed ts
    → All (IsDerived o key) ts
counted-IsDerived o n v key (err f) ts h e = cc
counted-IsDerived o n v key (ok ds) ts h e = elim (Bool-cases (length ds == n)) [
  | inl right ↦
      let same : as_targets v ds ≡ ts = ground arith in
      subst (All (IsDerived o key)) same (h ds refl)
  | inr wrong ↦ absurd (ground arith)
]

pub targets-IsDerived :
    (o : Outside) (e : Sweep) (key : String) (vs : List Environment) (ts : List Target)
    → derive_targets o e key vs ≡ passed ts
    → All (IsDerived o key) ts
unfolding derive_targets
targets-IsDerived o e key [] ts h = let none_there : ts ≡ [] = cc in rw none_there tt
targets-IsDerived o e key (v ∷ vs) ts h =
    let made =
      derive_worker_addresses (o.network v) key (build_paths o.show e.path_prefix e.worker_count) in
    let (own, first, then_rest) =
      passes (counted e.worker_count v made)
        (λ own. derive_targets o e key vs >>= (λ rest. passed (own ++ rest))) ts h in
    let (rest, more, whole) =
      passes (derive_targets o e key vs) (λ rest. passed (own ++ rest)) ts then_rest in
    let shape : ts ≡ own ++ rest = cc in
    rw shape (
      All-append (IsDerived o key) own rest
        (counted-IsDerived o e.worker_count v key made own
          (λ ds. derive-IsDerived o v key (build_paths o.show e.path_prefix e.worker_count) ds)
          first)
        (targets-IsDerived o e key vs rest more))

-- The first environment's chain is that of all, and the node's.
abbrev pub OnChain : Outside → Environment → Type 0
OnChain o v = chain_id v ≡ o.chain

pub same_chain-OnChain :
    (o : Outside) (c : ℕ) (vs : List Environment)
    → c ≡ o.chain
    → same_chain c vs ≡ true
    → All (OnChain o) vs
same_chain-OnChain o c [] e h = tt
same_chain-OnChain o c (v ∷ vs) e h = (ground arith, same_chain-OnChain o c vs e (ground arith))

pub chain-OnChain :
    (o : Outside) (e : Sweep) (vs : List Environment) (first : Environment)
    → one_chain e vs ≡ passed first
    → check_node o e first ≡ passed tt
    → All (OnChain o) vs
unfolding one_chain
chain-OnChain o e [] first h k = cc
chain-OnChain o e (v ∷ vs) first h k =
    let at_first : (first ≡ v) × (same_chain (chain_id v) vs ≡ true) × (chain_id first ≡ o.chain) =
      ground arith in
    let own : chain_id v ≡ o.chain = ground (arith, at_first) in
    (own, same_chain-OnChain o (chain_id v) vs own at_first.1)

-- The requester is the signing key's own, and the expected one, where these are given.
abbrev pub Speaks : Outside → Sweep → String → Type 0
Speaks o e key =
    (str_eq e.signing_key "" ≡ false → o.public_key e.signing_key ≡ some key)
    × (str_eq e.expected_requester "" ≡ false → key ≡ e.expected_requester)
    × (o.is_key key ≡ true)

pub requester-Speaks :
    (o : Outside) (e : Sweep) (key : String) → requester_of o e ≡ passed key → Speaks o e key
unfolding requester_of
requester-Speaks o e key h = ground (arith, eq_iff e.expected_requester key)

-- No service that answers tells of another address or of another number of paths.
abbrev pub Uncontested : Outside → String → List Target → Environment → Type 0
Uncontested o url ts v =
    (ws : List (String × String))
    → o.service url v ≡ reports ws
    → differences o.lower (pairs_of v ts) ws ≡ []

pub check-Uncontested :
    (o : Outside) (url : String) (ts : List Target) (v : Environment) (r : ServiceReply)
    (u : Unit {0})
    → o.service url v ≡ r
    → (elim r as (λ x. Check (Unit {0})) [
      | silent ↦ passed tt
      | reports ws ↦ compared v (differences o.lower (pairs_of v ts) ws)
    ])
      ≡ passed u
    → Uncontested o url ts v
check-Uncontested o url ts v silent u is e ws told = cc
check-Uncontested o url ts v (reports rs) u is e ws told = let same : rs ≡ ws = cc in ground arith

pub checks-Uncontested :
    (o : Outside) (url : String) (ts : List Target) (vs : List Environment)
    → cross_checks o url ts vs ≡ passed tt
    → All (Uncontested o url ts) vs
checks-Uncontested o url ts [] e = tt
checks-Uncontested o url ts (v ∷ vs) e =
    let (done, here, further) =
      passes (cross_check o url ts v) (λ x. cross_checks o url ts vs) tt e in
    (
      check-Uncontested o url ts v (o.service url v) done refl here,
      checks-Uncontested o url ts vs further,
    )

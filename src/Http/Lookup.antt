-- ===== src/Http/Lookup.antt =====
-- The job of an accepted request, looked up by its id.
use contract_pinger.Common.{
  ℕ, ◌≡◌, refl, sym, subst, ◌∙◌, inl, inr, true, List, [], ◌∷◌, ◌++◌, none, some, String, All,
  All-append, arith, Bool-cases, Option-cases,
}
use contract_pinger.Common.Int.{ℤ}
use contract_pinger.BidirectionalTx.{TxMode, Environment, dev, testnet, mainnet}
use contract_pinger.JobStore.{JobRecord, JobStore, new_job, find, create, view, durations_for}
use contract_pinger.JobStore.Moves.{find-create}
use contract_pinger.Service.{Config, Service, environment_name, new_service}
use contract_pinger.Http.Laws.{offer_outcome}
use contract_pinger.Http.{
  status, Value, Settings, resolved, requested_mode, resolve, same_environment, lookup, get_service,
  store_service, arrive, offer, post_sign, get_job,
}

-- No service has a job of the id.
abbrev pub IsFresh : String → List Service → Type 0
IsFresh id services = All (λ s. find id s.jobs.jobs ≡ none) services

abbrev Entry : Type 0
Entry = JobRecord × List (String × ℤ)

same_refl : (v : Environment) → same_environment v v ≡ true
same_refl dev = refl
same_refl testnet = refl
same_refl mainnet = refl

same-equal : (v w : Environment) → same_environment v w ≡ true → v ≡ w
same-equal dev dev h = refl
same-equal testnet testnet h = refl
same-equal mainnet mainnet h = refl
same-equal dev testnet h = cc
same-equal dev mainnet h = cc
same-equal testnet dev h = cc
same-equal testnet mainnet h = cc
same-equal mainnet dev h = cc
same-equal mainnet testnet h = cc

view_fresh : (s : JobStore) (id : String) → find id s.jobs ≡ none → view s id ≡ none
unfolding view
view_fresh s id e = ground arith

view-create :
    (s : JobStore) (id environment : String) (mode : TxMode) (now : ℕ)
    → find id s.jobs ≡ none
    → view (create s id environment mode now) id ≡ some (new_job id environment mode now, [])
unfolding view durations_for
view-create s id environment mode now fresh =
    ground (arith, find-create s id environment mode now fresh)

get_job-found :
    (id : String) (s : Service) (ss : List Service) (entry : Entry)
    → view s.jobs id ≡ some entry
    → get_job (s ∷ ss) id ≡ some entry
unfolding get_job
get_job-found id s ss entry v = ground arith

get_job-passed :
    (id : String) (s : Service) (ss : List Service)
    → view s.jobs id ≡ none
    → get_job (s ∷ ss) id ≡ get_job ss id
unfolding get_job
get_job-passed id s ss v = ground arith

-- The services before the one that takes its place do not answer.
get_job-store_service :
    (id : String) (s t : Service) (services : List Service) (entry : Entry)
    → IsFresh id services
    → lookup s.environment services ≡ some t
    → view s.jobs id ≡ some entry
    → get_job (store_service s services) id ≡ some entry
get_job-store_service id s t [] entry fresh l v = cc
get_job-store_service id s t (x ∷ xs) entry fresh l v =
    elim (Bool-cases (same_environment x.environment s.environment)) [
      | inl same ↦ rw same (get_job-found id s xs entry v)
      | inr other ↦ rw other (
          get_job-passed id x (store_service s xs) (view_fresh x.jobs id fresh.0)
          ∙ get_job-store_service id s t xs entry fresh.1 (ground arith) v)
    ]

lookup-append :
    (v : Environment) (services : List Service) (s : Service)
    → s.environment ≡ v
    → lookup v services ≡ none
    → lookup v (services ++ s ∷ []) ≡ some s
lookup-append v [] s e l = ground (arith, same_refl v)
lookup-append v (x ∷ xs) s e l = ground (arith, lookup-append v xs s e)

lookup-environment :
    (v : Environment) (services : List Service) (s : Service)
    → lookup v services ≡ some s
    → s.environment ≡ v
lookup-environment v [] s l = cc
lookup-environment v (x ∷ xs) s l = elim (Bool-cases (same_environment x.environment v)) [
  | inl same ↦ let e : x.environment ≡ v = same-equal x.environment v same in ground arith
  | inr other ↦ lookup-environment v xs s (ground arith)
]

lookup-fresh :
    (id : String) (v : Environment) (services : List Service) (s : Service)
    → IsFresh id services
    → lookup v services ≡ some s
    → find id s.jobs.jobs ≡ none
lookup-fresh id v [] s f l = cc
lookup-fresh id v (x ∷ xs) s f l = elim (Bool-cases (same_environment x.environment v)) [
  | inl same ↦ let e : x ≡ s = ground arith in subst (λ y. find id y.jobs.jobs ≡ none) e f.0
  | inr other ↦ lookup-fresh id v xs s f.1 (ground arith)
]

-- A service of a registry with no job of the id, for an environment that has it.
record Served (id : String) (v : Environment) (x : List Service × Service) : Type 0 where
  pub fresh : IsFresh id x.0
  pub listed : lookup v x.0 ≡ some x.1
  pub of_environment : x.1.environment ≡ v
  pub fresh_one : find id x.1.jobs.jobs ≡ none

new_service-fresh :
    (show : ℕ → String) (config : Config) (v : Environment) (id : String)
    → (find id (new_service show config v).jobs.jobs ≡ none)
      × ((new_service show config v).environment ≡ v)
unfolding new_service find
new_service-fresh show config v id = (refl, refl)

get_service-old :
    (show : ℕ → String) (e : Settings) (v : Environment) (services : List Service) (s : Service)
    → lookup v services ≡ some s
    → get_service show e v services ≡ (services, s)
unfolding get_service
get_service-old show e v services s l = ground arith

get_service-new :
    (show : ℕ → String) (e : Settings) (v : Environment) (services : List Service)
    → lookup v services ≡ none
    → get_service show e v services
      ≡ (services ++ new_service show e.config v ∷ [], new_service show e.config v)
unfolding get_service
get_service-new show e v services l = ground arith

get_service-Served :
    (show : ℕ → String) (e : Settings) (v : Environment) (services : List Service) (id : String)
    → IsFresh id services
    → Served id v (get_service show e v services)
get_service-Served show e v services id fresh = elim (Option-cases (lookup v services)) [
  | inl missing ↦
      let (none_there, same) = new_service-fresh show e.config v id in
      subst (Served id v) (sym (get_service-new show e v services missing)) (record {
        fresh =
            All-append (λ s. find id s.jobs.jobs ≡ none) services (new_service show e.config v ∷ [])
              fresh (none_there, tt);
        listed = lookup-append v services (new_service show e.config v) same missing;
        of_environment = same;
        fresh_one = none_there;
      })
  | inr (s, found) ↦ subst (Served id v) (sym (get_service-old show e v services s found)) (record {
    fresh = fresh;
    listed = found;
    of_environment = lookup-environment v services s found;
    fresh_one = lookup-fresh id v services s fresh found;
  })
]

offer-environment :
    (config : Config) (s : Service) (id : String) (mode : TxMode) (now : ℕ)
    → (offer config s id mode now).0.environment ≡ s.environment
unfolding offer arrive
offer-environment config s id mode now = ground arith

-- An accepted offer's store, in the registry, answers for the job.
offer-found :
    (config : Config) (s : Service) (services : List Service) (id : String) (mode : TxMode)
    (now : ℕ) (v : Environment)
    → Served id v (services, s)
    → status (offer config s id mode now).1 ≡ 202
    → get_job (store_service (offer config s id mode now).0 services) id
      ≡ some (new_job id (environment_name v) mode now, [])
offer-found config s services id mode now v f h =
    let s' = (offer config s id mode now).0 in
    let same = offer-environment config s id mode now in
    let jobs_are = ((offer_outcome config s id mode now).3 h).0 in
    get_job-store_service id s' s services (new_job id (environment_name v) mode now, []) f.fresh
      (subst (λ w. lookup w services ≡ some s) (sym (same ∙ f.of_environment)) f.listed)
      (subst (λ t. view t id ≡ some (new_job id (environment_name v) mode now, [])) (sym jobs_are)
        (subst
          (λ w.
            view (create s.jobs id (environment_name w) mode now) id
            ≡ some (new_job id (environment_name v) mode now, []))
          (sym f.of_environment) (view-create s.jobs id (environment_name v) mode now f.fresh_one)))

post_sign-offer :
    (show : ℕ → String) (e : Settings) (services : List Service) (network mode : Value)
    (id : String) (now : ℕ) (v : Environment) (m : TxMode)
    → requested_mode e mode ≡ some m
    → resolve e network ≡ resolved v
    → let x = get_service show e v services in
      let y = offer e.config x.1 id m now in
      post_sign show e services network mode id now ≡ (store_service y.0 x.0, y.1)
unfolding post_sign
post_sign-offer show e services network mode id now v m a b = ground arith

-- A request that gets 202 under an id that no service has yet opens a job which a query by that id
-- answers at once: pending, of the request's mode and environment, accepted now, with no durations.
pub accepted_is_found :
    (show : ℕ → String) (e : Settings) (services : List Service) (network mode : Value)
    (id : String) (now : ℕ) (v : Environment) (m : TxMode)
    → requested_mode e mode ≡ some m
    → resolve e network ≡ resolved v
    → IsFresh id services
    → status (post_sign show e services network mode id now).1 ≡ 202
    → get_job (post_sign show e services network mode id now).0 id
      ≡ some (new_job id (environment_name v) m now, [])
accepted_is_found show e services network mode id now v m a b fresh h =
    let x = get_service show e v services in
    let same = post_sign-offer show e services network mode id now v m a b in
    subst (λ y. get_job y.0 id ≡ some (new_job id (environment_name v) m now, [])) (sym same)
      (offer-found e.config x.1 x.0 id m now v (get_service-Served show e v services id fresh)
        (subst (λ y. status y.1 ≡ 202) same h))

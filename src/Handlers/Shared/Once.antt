-- ===== src/Handlers/Shared/Once.antt =====
-- Repeated requests for the context of an environment and a program.
use contract_pinger.Common.{
  ◌≡◌, sym, subst, ap, ◌∙◌, inl, inr, List, [], ◌∷◌, ◌++◌, none, some, String, arith, Option-cases,
}
use text.Mathlib.TextPositions.{eq_refl}
use contract_pinger.BidirectionalTx.{Environment}
use contract_pinger.Handlers.{Result, ok, err, Keys}
use contract_pinger.Handlers.Shared.{
  Clients, SharedContext, build_provider, cached, cache_key, shared_of, keep_shared, get_shared,
  share_all,
}

ok_injective {ℓ} : {A : Type ℓ} {a b : A} → ok a ≡ ok b → a ≡ b
ok_injective e = cc

module _ {P K C : Type 0} (lib : Clients P K C) (e : Keys) where
  cached-kept :
      (key q : String) (c d : SharedContext P K C) (cache : List (String × SharedContext P K C))
      → cached lib e q cache ≡ some c
      → cached lib e q (cache ++ (key, d) ∷ []) ≡ some c
  cached-kept key q c d [] h = cc
  cached-kept key q c d ((x, y) ∷ cache) h = ground (arith, cached-kept key q c d cache)

  cached-new :
      (q : String) (d : SharedContext P K C) (cache : List (String × SharedContext P K C))
      → cached lib e q cache ≡ none
      → cached lib e q (cache ++ (q, d) ∷ []) ≡ some d
  cached-new q d [] h = ground (arith, eq_refl q)
  cached-new q d ((x, y) ∷ cache) h = ground (arith, cached-new q d cache)

  keep_shared-kept :
      (key q program : String) (c : SharedContext P K C)
      (cache : List (String × SharedContext P K C)) (r : Result (P × K))
      → cached lib e q cache ≡ some c
      → cached lib e q (keep_shared lib e key program cache r).0 ≡ some c
  keep_shared-kept key q program c cache (ok b) h =
      cached-kept key q c (shared_of lib e program b) cache h
  keep_shared-kept key q program c cache (err f) h = h

  get_shared-new :
      (program : String) (v : Environment) (cache : List (String × SharedContext P K C))
      → cached lib e (cache_key lib e program v) cache ≡ none
      → get_shared lib e cache program v
        ≡ keep_shared lib e (cache_key lib e program v) program cache (build_provider lib e v)
  unfolding get_shared
  get_shared-new program v cache h = ground arith

  get_shared-old :
      (program : String) (v : Environment) (c : SharedContext P K C)
      (cache : List (String × SharedContext P K C))
      → cached lib e (cache_key lib e program v) cache ≡ some c
      → get_shared lib e cache program v ≡ (cache, ok c)
  unfolding get_shared
  get_shared-old program v c cache h = ground arith

  get_shared-kept :
      (q program : String) (v : Environment) (c : SharedContext P K C)
      (cache : List (String × SharedContext P K C))
      → cached lib e q cache ≡ some c
      → cached lib e q (get_shared lib e cache program v).0 ≡ some c
  get_shared-kept q program v c cache h =
      elim (Option-cases (cached lib e (cache_key lib e program v) cache)) [
        | inl new ↦
            subst (λ x. cached lib e q x.0 ≡ some c) (sym (get_shared-new program v cache new))
              (keep_shared-kept (cache_key lib e program v) q program c cache
                (build_provider lib e v) h)
        | inr (old, there) ↦
            subst (λ x. cached lib e q x.0 ≡ some c)
              (sym (get_shared-old program v old cache there)) h
      ]

  share_all-kept :
      (q : String) (c : SharedContext P K C) (rs : List (String × Environment))
      (cache : List (String × SharedContext P K C))
      → cached lib e q cache ≡ some c
      → cached lib e q (share_all lib e cache rs) ≡ some c
  unfolding share_all
  share_all-kept q c [] cache h = h
  share_all-kept q c ((program, v) ∷ rs) cache h =
      share_all-kept q c rs (get_shared lib e cache program v).0
        (get_shared-kept q program v c cache h)

  keep_shared-cached :
      (key program : String) (c : SharedContext P K C) (cache : List (String × SharedContext P K C))
      (r : Result (P × K))
      → cached lib e key cache ≡ none
      → (keep_shared lib e key program cache r).1 ≡ ok c
      → cached lib e key (keep_shared lib e key program cache r).0 ≡ some c
  keep_shared-cached key program c cache (ok b) new h =
      let is : shared_of lib e program b ≡ c = cc in
      cached-new key (shared_of lib e program b) cache new ∙ ap some is
  keep_shared-cached key program c cache (err f) new h = cc

  get_shared-cached :
      (program : String) (v : Environment) (c : SharedContext P K C)
      (cache : List (String × SharedContext P K C))
      → (get_shared lib e cache program v).1 ≡ ok c
      → cached lib e (cache_key lib e program v) (get_shared lib e cache program v).0 ≡ some c
  get_shared-cached program v c cache h =
      elim (Option-cases (cached lib e (cache_key lib e program v) cache)) [
        | inl new ↦
            let is = get_shared-new program v cache new in
            subst (λ x. cached lib e (cache_key lib e program v) x.0 ≡ some c) (sym is)
              (keep_shared-cached (cache_key lib e program v) program c cache
                (build_provider lib e v) new (subst (λ x. x.1 ≡ ok c) is h))
        | inr (old, there) ↦
            let is = get_shared-old program v old cache there in
            let same : old ≡ c = ok_injective (subst (λ x. x.1 ≡ ok c) is h) in
            subst (λ x. cached lib e (cache_key lib e program v) x.0 ≡ some c) (sym is)
              (there ∙ ap some same)
      ]

  -- Once an environment and a program have a context, every later request for them gets the same and
  -- makes none, whatever was requested in between.
  pub shared_once :
      (program : String) (v : Environment) (c : SharedContext P K C)
      (cache : List (String × SharedContext P K C)) (between : List (String × Environment))
      → (get_shared lib e cache program v).1 ≡ ok c
      → let later = share_all lib e (get_shared lib e cache program v).0 between in
        get_shared lib e later program v ≡ (later, ok c)
  shared_once program v c cache between h =
      let later = share_all lib e (get_shared lib e cache program v).0 between in
      get_shared-old program v c later (
        share_all-kept (cache_key lib e program v) c between (get_shared lib e cache program v).0
          (get_shared-cached program v c cache h))

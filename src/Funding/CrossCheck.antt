-- ===== src/Funding/CrossCheck.antt =====
-- What the comparison with a running service detects.
use contract_pinger.Common.{
  ◌≡◌, refl, inl, inr, some, str_eq, eq_iff, false, List, [], ◌∷◌, map, none, String, arith,
  Option-cases, length, All, All-map,
}
use contract_pinger.Funding.{get_entry, new_map, disagrees, address_differences, differences}

abbrev pub lowered : (String → String) → List (String × String) → List (String × String)
lowered lower es = new_map [] (map (λ e. (e.0, lower e.1)) es)

-- What the service says of a path, if it has an address there, is the address derived for it.
abbrev pub Agrees : List (String × String) → String × String → Type 0
Agrees theirs e =
    (other : String) → get_entry e.0 theirs ≡ some other → str_eq other "" ≡ false → other ≡ e.1

agreed :
    (theirs : List (String × String)) (e : String × String)
    → (disagrees (get_entry e.0 theirs) e.1 ≡ false → Agrees theirs e)
      × (Agrees theirs e → disagrees (get_entry e.0 theirs) e.1 ≡ false)
agreed theirs e = (
  λ h other told here. ground (arith, eq_iff other e.1),
  λ h. elim (Option-cases (get_entry e.0 theirs)) [
    | inl silent ↦ ground arith
    | inr (other, told) ↦ ground (arith, eq_iff other e.1, eq_iff other "", h other told)
  ],
)

address_differences-none :
    (theirs mine : List (String × String))
    → address_differences theirs mine ≡ []
    → All (Agrees theirs) mine
address_differences-none theirs [] e = tt
address_differences-none theirs ((path, address) ∷ mine) e =
    elim (Option-cases (get_entry path theirs)) [
      | inl silent ↦ (
        (agreed theirs (path, address)).0 (ground arith),
        address_differences-none theirs mine (ground arith),
      )
      | inr (other, said) ↦ (
        (agreed theirs (path, address)).0 (ground arith),
        address_differences-none theirs mine (ground arith),
      )
    ]

none-address_differences :
    (theirs mine : List (String × String))
    → All (Agrees theirs) mine
    → address_differences theirs mine ≡ []
none-address_differences theirs [] h = refl
none-address_differences theirs ((path, address) ∷ mine) h =
    ground (arith, (agreed theirs (path, address)).1 h.0, none-address_differences theirs mine)

-- The comparison finds nothing exactly if both sides list as many paths, and each path derived here
-- is unknown to the service, has no address there, or has the same address there.
pub differences_iff :
    (lower : String → String) (derived reported : List (String × String))
    → let mine = lowered lower derived in
      let theirs = lowered lower reported in
      (differences lower derived reported ≡ []
        → (length mine ≡ length theirs) × All (Agrees theirs) mine)
      × ((length mine ≡ length theirs) × All (Agrees theirs) mine
          → differences lower derived reported ≡ [])
unfolding differences
differences_iff lower derived reported =
    let mine = lowered lower derived in
    let theirs = lowered lower reported in
    (
      (λ e. (ground arith, address_differences-none theirs mine (ground arith))),
      (λ h. ground (arith, none-address_differences theirs mine h.1, h.0)),
    )

unknown-Agrees :
    (theirs mine : List (String × String))
    → All (λ e. get_entry e.0 theirs ≡ none) mine
    → All (Agrees theirs) mine
unknown-Agrees theirs mine h =
    All-map (λ e. get_entry e.0 theirs ≡ none) (Agrees theirs)
      (λ e unknown other told here. absurd (ground arith)) mine h

-- Two disjoint sets of paths of the same size pass the comparison, whatever their addresses: a path
-- prefix that differs from the service's is not found.
pub disjoint_pass :
    (lower : String → String) (derived reported : List (String × String))
    → length (lowered lower derived) ≡ length (lowered lower reported)
    → All (λ e. get_entry e.0 (lowered lower reported) ≡ none) (lowered lower derived)
    → differences lower derived reported ≡ []
disjoint_pass lower derived reported n h =
    (differences_iff lower derived reported).1
      (n, unknown-Agrees (lowered lower reported) (lowered lower derived) h)

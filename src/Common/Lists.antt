-- ===== src/Common/Lists.antt =====
-- Lists measured and indexed by native numbers, and predicates by recursion.
use Prim.Native.Nat.{ℕ, zero, suc, ◌+◌, ◌-◌, ◌≤◌}
use mathlib.Core.Path.{◌≡◌, refl}
use mathlib.Core.Bool.{Bool, true, false, not, ◌&&◌}
use mathlib.Core.Logic.{inl, inr}
use mathlib.Core.List.{List, [], ◌∷◌, ◌++◌}
use mathlib.Core.Option.{Option, none, some}
use native.Mathlib.Omega.{arith}
use contract_pinger.Common.Tests.{if◌then◌else◌, Bool-cases}

module _ {ℓ} {A : Type ℓ} where
  abbrev pub length : List A → ℕ
  length [] = 0
  length (x ∷ xs) = suc (length xs)

  abbrev pub get_elem? : List A → ℕ → Option A
  get_elem? [] i = none
  get_elem? (x ∷ xs) zero = some x
  get_elem? (x ∷ xs) (suc i) = get_elem? xs i

  -- `filter` and `filter(…).length` of the source, by a Boolean test.
  abbrev pub keep : (A → Bool) → List A → List A
  keep p [] = []
  keep p (x ∷ xs) = let rest = keep p xs in if p x then x ∷ rest else rest

  abbrev pub tally : (A → Bool) → List A → ℕ
  tally p [] = 0
  tally p (x ∷ xs) = let rest = tally p xs in if p x then suc rest else rest

  pub length-append : (xs ys : List A) → length (xs ++ ys) ≡ length xs + length ys
  length-append [] ys = omega arith
  length-append (x ∷ xs) ys = omega (arith, length-append xs ys)

  pub tally-append : (p : A → Bool) (xs ys : List A) → tally p (xs ++ ys) ≡ tally p xs + tally p ys
  tally-append p [] ys = omega arith
  tally-append p (x ∷ xs) ys = ground (arith, tally-append p xs ys)

  pub tally-le-length : (p : A → Bool) (xs : List A) → tally p xs ≤ length xs
  tally-le-length p [] = omega arith
  tally-le-length p (x ∷ xs) = ground (arith, tally-le-length p xs)

  pub length-keep : (p : A → Bool) (xs : List A) → length (keep p xs) ≡ tally p xs
  length-keep p [] = refl
  length-keep p (x ∷ xs) = ground (arith, length-keep p xs)

module _ {ℓ κ} {A : Type ℓ} (P : A → Type κ) where
  abbrev pub All : List A → Type κ
  All [] = Unit
  All (x ∷ xs) = P x × All xs

  pub All-append : (xs ys : List A) → All xs → All ys → All (xs ++ ys)
  All-append [] ys hx hy = hy
  All-append (x ∷ xs) ys hx hy = (hx.0, All-append xs ys hx.1 hy)

module _ {ℓ} {A : Type ℓ} where
  abbrev pub take : ℕ → List A → List A
  take zero xs = []
  take (suc n) [] = []
  take (suc n) (x ∷ xs) = x ∷ take n xs

  abbrev pub drop : ℕ → List A → List A
  drop zero xs = xs
  drop (suc n) [] = []
  drop (suc n) (x ∷ xs) = drop n xs

  pub take-append-drop : (n : ℕ) (xs : List A) → take n xs ++ drop n xs ≡ xs
  take-append-drop zero xs = refl
  take-append-drop (suc n) [] = refl
  take-append-drop (suc n) (x ∷ xs) = rw (take-append-drop n xs)

  pub length-drop : (n : ℕ) (xs : List A) → length (drop n xs) ≡ length xs - n
  length-drop zero xs = omega arith
  length-drop (suc n) [] = omega arith
  length-drop (suc n) (x ∷ xs) = omega (arith, length-drop n xs)

module _ {ℓ κ} {A : Type ℓ} (P : A → Type κ) where
  pub All-intro : ((x : A) → P x) → (xs : List A) → All P xs
  All-intro h [] = tt
  All-intro h (x ∷ xs) = (h x, All-intro h xs)

  pub All-drop : (n : ℕ) (xs : List A) → All P xs → All P (drop n xs)
  All-drop zero xs h = h
  All-drop (suc n) [] h = tt
  All-drop (suc n) (x ∷ xs) h = All-drop n xs h.1

  pub All-keep : (p : A → Bool) (xs : List A) → All P xs → All P (keep p xs)
  All-keep p [] h = tt
  All-keep p (x ∷ xs) h = elim (Bool-cases (p x)) [
    | inl kept ↦ rw kept (h.0, All-keep p xs h.1)
    | inr gone ↦ rw gone (All-keep p xs h.1)
  ]

pub All-zip {ℓ κ} :
    {A : Type ℓ} (P Q R : A → Type κ)
    → ((x : A) → P x → Q x → R x)
    → (xs : List A) → All P xs
    → All Q xs
    → All R xs
All-zip P Q R f [] h k = tt
All-zip P Q R f (x ∷ xs) h k = (f x h.0 k.0, All-zip P Q R f xs h.1 k.1)

pub All-map {ℓ κ} :
    {A : Type ℓ} (P Q : A → Type κ) → ((x : A) → P x → Q x) → (xs : List A) → All P xs → All Q xs
All-map P Q f xs h = All-zip P P Q (λ x a b. f x a) xs h h

-- `keep` in two passes, and what a test says of the kept.
pub tally-keep {ℓ} :
    {A : Type ℓ} (p q : A → Bool) (xs : List A) → tally p (keep q xs) ≡ tally (λ x. q x && p x) xs
tally-keep p q [] = refl
tally-keep p q (x ∷ xs) = ground (arith, tally-keep p q xs)

module _ {ℓ} {A : Type ℓ} where
  pub tally-keep-le : (p q : A → Bool) (xs : List A) → tally p (keep q xs) ≤ tally p xs
  tally-keep-le p q [] = omega arith
  tally-keep-le p q (x ∷ xs) = ground (arith, tally-keep-le p q xs)

  -- Two filters count alike in either order.
  pub tally-keep-swap : (p q : A → Bool) (xs : List A) → tally p (keep q xs) ≡ tally q (keep p xs)
  tally-keep-swap p q [] = refl
  tally-keep-swap p q (x ∷ xs) = ground (arith, tally-keep-swap p q xs)

  -- A test splits the count.
  pub tally-split :
      (p q : A → Bool) (xs : List A)
      → tally p xs ≡ tally p (keep q xs) + tally p (keep (λ x. not (q x)) xs)
  tally-split p q [] = omega arith
  tally-split p q (x ∷ xs) = ground (arith, tally-split p q xs)

  pub tally-All : (p : A → Bool) (xs : List A) → All (λ x. p x ≡ true) xs → tally p xs ≡ length xs
  tally-All p [] h = refl
  tally-All p (x ∷ xs) h = ground (arith, tally-All p xs)

  pub tally_no : (p : A → Bool) (xs : List A) → All (λ x. p x ≡ false) xs → tally p xs ≡ 0
  tally_no p [] h = refl
  tally_no p (x ∷ xs) h = ground (arith, tally_no p xs)

  -- Every item counts at least itself.
  pub tally_self :
      (p : A → A → Bool)
      → ((x : A) → p x x ≡ true)
      → (xs : List A) → All (λ x. 1 ≤ tally (p x) xs) xs
  tally_self p r [] = tt
  tally_self p r (x ∷ xs) = (
    ground (arith, r x),
    All-map (λ y. 1 ≤ tally (p y) xs) (λ y. 1 ≤ tally (p y) (x ∷ xs)) (λ y h. ground arith) xs
        (tally_self p r xs),
  )

pub keep-swap {ℓ} :
    {A : Type ℓ} (p q : A → Bool) (xs : List A) → keep p (keep q xs) ≡ keep q (keep p xs)
keep-swap p q [] = refl
keep-swap p q (x ∷ xs) = ground (arith, keep-swap p q xs)

-- What holds of the items that pass a test holds of the kept.
pub All-keep_test {ℓ κ} :
    {A : Type ℓ} (Q : A → Type κ) (p : A → Bool) (xs : List A)
    → All (λ x. p x ≡ true → Q x) xs
    → All Q (keep p xs)
All-keep_test Q p [] h = tt
All-keep_test Q p (x ∷ xs) h = elim (Bool-cases (p x)) [
  | inl kept ↦ rw kept (h.0 kept, All-keep_test Q p xs h.1)
  | inr gone ↦ rw gone (All-keep_test Q p xs h.1)
]

-- A filter that a test implies does not change its count.
pub tally-keep_implied {ℓ} :
    {A : Type ℓ} (p q : A → Bool)
    → ((x : A) → p x ≡ true → q x ≡ true)
    → (xs : List A) → tally p (keep q xs) ≡ tally p xs
tally-keep_implied p q h [] = refl
tally-keep_implied p q h (x ∷ xs) = ground (arith, h x, tally-keep_implied p q h xs)

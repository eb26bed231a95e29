-- ===== src/Common/Sorting.antt =====
-- `Array.prototype.sort` with a comparison: a stable sort, `le x y` for `compare(x, y) <= 0`.
use contract_pinger.Common.Tests.{if◌then◌else◌, Bool-cases}
use contract_pinger.Common.Lists.{length, tally, All, All-intro, All-zip, All-drop, take, drop}
use Prim.Native.Nat.{ℕ, zero, suc}
use mathlib.Core.Path.{◌≡◌, refl, ap, ◌∙◌}
use mathlib.Core.Logic.{inl, inr}
use mathlib.Core.Bool.{Bool, true, false}
use mathlib.Core.List.{List, [], ◌∷◌}
use native.Mathlib.Omega.{arith}

module _ {ℓ} {A : Type ℓ} (le : A → A → Bool) where
  unfoldable pub insert : A → List A → List A
  insert x [] = x ∷ []
  insert x (y ∷ ys) = if le x y then x ∷ y ∷ ys else y ∷ insert x ys

  unfoldable pub sort : List A → List A
  unfolding insert
  sort [] = []
  sort (x ∷ xs) = insert x (sort xs)

  abbrev pub IsSorted : List A → Type ℓ
  IsSorted [] = Unit
  IsSorted (x ∷ xs) = All (λ y. le x y ≡ true) xs × IsSorted xs

  tally-insert : (p : A → Bool) (x : A) (ys : List A) → tally p (insert x ys) ≡ tally p (x ∷ ys)
  unfolding insert
  tally-insert p x [] = refl
  tally-insert p x (y ∷ ys) = ground (arith, tally-insert p x ys)

  -- Sorting keeps every item, as often as it was there.
  pub tally-sort : (p : A → Bool) (xs : List A) → tally p (sort xs) ≡ tally p xs
  unfolding sort
  tally-sort p [] = refl
  tally-sort p (x ∷ xs) = ground (arith, tally-insert p x (sort xs), tally-sort p xs)

  length-insert : (x : A) (ys : List A) → length (insert x ys) ≡ suc (length ys)
  unfolding insert
  length-insert x [] = refl
  length-insert x (y ∷ ys) = ground (arith, length-insert x ys)

  pub length-sort : (xs : List A) → length (sort xs) ≡ length xs
  unfolding sort
  length-sort [] = refl
  length-sort (x ∷ xs) = length-insert x (sort xs) ∙ ap suc (length-sort xs)

  module _ {κ} (P : A → Type κ) where
    All-insert : (x : A) (ys : List A) → P x → All P ys → All P (insert x ys)
    unfolding insert
    All-insert x [] p h = (p, tt)
    All-insert x (y ∷ ys) p h = elim (Bool-cases (le x y)) [
      | inl low ↦ rw low (p, h)
      | inr high ↦ rw high (h.0, All-insert x ys p h.1)
    ]

    insert-All : (x : A) (ys : List A) → All P (insert x ys) → P x × All P ys
    unfolding insert
    insert-All x [] h = h
    insert-All x (y ∷ ys) h = elim (Bool-cases (le x y)) [
      | inl low ↦ (rw low at h)
      | inr high ↦
          let (hy, rest) = (rw high at h) in let (hx, hys) = insert-All x ys rest in (hx, (hy, hys))
    ]

    pub All-sort : (xs : List A) → All P xs → All P (sort xs)
    unfolding sort
    All-sort [] h = tt
    All-sort (x ∷ xs) h = All-insert x (sort xs) h.0 (All-sort xs h.1)

    pub sort-All : (xs : List A) → All P (sort xs) → All P xs
    unfolding sort
    sort-All [] h = tt
    sort-All (x ∷ xs) h = let (hx, rest) = insert-All x (sort xs) h in (hx, sort-All xs rest)

-- A comparison that is transitive and compares any two items sorts.
module _ {ℓ} {A : Type ℓ} (le : A → A → Bool)
    (trans : (a b c : A) → le a b ≡ true → le b c ≡ true → le a c ≡ true)
    (total : (a b : A) → le a b ≡ false → le b a ≡ true) where
  All-below :
      (x y : A) (ys : List A)
      → le x y ≡ true
      → All (λ z. le y z ≡ true) ys
      → All (λ z. le x z ≡ true) ys
  All-below x y [] h all = tt
  All-below x y (z ∷ ys) h all = (trans x y z h all.0, All-below x y ys h all.1)

  insert-IsSorted : (x : A) (ys : List A) → IsSorted le ys → IsSorted le (insert le x ys)
  unfolding insert
  insert-IsSorted x [] s = (tt, tt)
  insert-IsSorted x (y ∷ ys) s = elim (Bool-cases (le x y)) [
    | inl low ↦ rw low ((low, All-below x y ys low s.0), s)
    | inr high ↦
        rw high
          (All-insert le (λ z. le y z ≡ true) x ys (total x y high) s.0, insert-IsSorted x ys s.1)
  ]

  pub sort-IsSorted : (xs : List A) → IsSorted le (sort le xs)
  unfolding sort
  sort-IsSorted [] = tt
  sort-IsSorted (x ∷ xs) = insert-IsSorted x (sort le xs) (sort-IsSorted xs)

module _ {ℓ} {A : Type ℓ} (le : A → A → Bool) where
  -- In a sorted list what stands in the first `n` places is not above what stands behind them.
  pub take-le-drop :
      (n : ℕ) (xs : List A)
      → IsSorted le xs
      → All (λ y. All (λ x. le x y ≡ true) (take n xs)) (drop n xs)
  take-le-drop zero xs s = All-intro (λ y. All (λ x. le x y ≡ true) []) (λ y. tt) xs
  take-le-drop (suc n) [] s = tt
  take-le-drop (suc n) (x ∷ xs) s =
      All-zip (λ y. le x y ≡ true) (λ y. All (λ x. le x y ≡ true) (take n xs))
        (λ y. All (λ x. le x y ≡ true) (take (suc n) (x ∷ xs))) (λ y h k. (h, k)) (drop n xs)
        (All-drop (λ y. le x y ≡ true) n xs s.0) (take-le-drop n xs s.1)

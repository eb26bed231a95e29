-- ===== src/WorkerPool/Paths.antt =====
-- The names that `buildPaths` of src/utils/workerPool.ts gives.
use contract_pinger.Common.{
  ℕ, zero, suc, ◌≤◌, ◌<◌, ◌≡◌, refl, subst, inl, inr, true, String, str_eq, eq_iff, arith,
  Bool-cases,
}
use contract_pinger.WorkerPool.{append, path_of, paths_from, build_paths}
use contract_pinger.WorkerPool.Events.{times}

append_cancel : (p s t : String) → append p s ≡ append p t → s ≡ t
append_cancel String.[] s t e = e
append_cancel (String.◌∷◌ c p) s t e = append_cancel p s t cc

path_of_injective :
    (show : ℕ → String) (prefix : String) (i j : ℕ)
    → ((a b : ℕ) → show a ≡ show b → a ≡ b)
    → path_of show prefix i ≡ path_of show prefix j
    → i ≡ j
path_of_injective show prefix i j injective e =
    let tail : String.◌∷◌ "-" (show i) ≡ String.◌∷◌ "-" (show j) = append_cancel prefix _ _ e in
    injective i j cc

to_path : (a b : String) → str_eq a b ≡ true → a ≡ b
to_path a b e = (eq_iff a b).0 e

module _ (show : ℕ → String) (prefix : String)
    (injective : (a b : ℕ) → show a ≡ show b → a ≡ b) where
  later_differ :
      (i j n : ℕ) → i < j → times (path_of show prefix i) (paths_from show prefix j n) ≡ 0
  later_differ i j zero h = refl
  later_differ i j (suc n) h =
      elim (Bool-cases (str_eq (path_of show prefix j) (path_of show prefix i))) [
        | inl same ↦
            let e = path_of_injective show prefix j i injective (to_path _ _ same) in ground arith
        | inr other ↦ rw other (later_differ i (suc j) n (omega arith))
      ]

  paths_from_once : (q : String) (i n : ℕ) → times q (paths_from show prefix i n) ≤ 1
  paths_from_once q i zero = omega arith
  paths_from_once q i (suc n) = elim (Bool-cases (str_eq (path_of show prefix i) q)) [
    | inl same ↦
        let e = to_path (path_of show prefix i) q same in
        rw same (
          ground (
            arith,
            subst (λ x. times x (paths_from show prefix (suc i) n) ≡ 0) e
                (later_differ i (suc i) n (omega arith)),
          ))
    | inr other ↦ rw other (paths_from_once q (suc i) n)
  ]

  pub build_paths_once : (n : ℕ) (q : String) → times q (build_paths show prefix n) ≤ 1
  unfolding build_paths
  build_paths_once n q = paths_from_once q 0 n

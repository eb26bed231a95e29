-- ===== src/Service/Addresses/Placing.antt =====
-- Loops whose body changes its own worker in its place.
use contract_pinger.Common.{
  ◌≤◌, ◌≡◌, refl, sym, subst, ◌∙◌, ap, inl, inr, Bool, false, List, [], ◌∷◌, ◌++◌, map, Option,
  none, some, String, str_eq, arith, keep, tally-append, Bool-cases,
}
use text.Mathlib.TextPositions.{eq_refl}
use mathlib.Core.List.{append_assoc}
use contract_pinger.Handlers.{Failure}
use contract_pinger.WorkerPool.{Worker, WorkerPool, update_first}
use contract_pinger.WorkerPool.Leases.{paths_at}
use contract_pinger.Service.Addresses.{for_each}

-- No path twice.
abbrev pub IsDistinct : List Worker → Type 0
IsDistinct ws = (q : String) → paths_at q ws ≤ 1

pub update_first-middle :
    (f : Worker → Worker) (w : Worker) (behind ahead : List Worker)
    → paths_at w.path behind ≡ 0
    → update_first w.path f (behind ++ w ∷ ahead) ≡ behind ++ f w ∷ ahead
unfolding update_first
update_first-middle f w [] ahead h = ground (arith, eq_refl w.path)
update_first-middle f w (v ∷ behind) ahead h = ground (arith, update_first-middle f w behind ahead)

-- A body that changes its own worker in its place, where it does not throw.
abbrev pub Places : (Worker → WorkerPool → WorkerPool × Option Failure) → (Worker → Worker) → Type 0
Places body f =
    (w : Worker) (behind ahead : List Worker) (p : WorkerPool)
    → p.workers ≡ behind ++ w ∷ ahead
    → paths_at w.path behind ≡ 0
    → (body w p).1 ≡ none
    → (body w p).0 ≡ record p { workers = behind ++ f w ∷ ahead }

pub head_fresh :
    (w : Worker) (behind ahead : List Worker)
    → IsDistinct (behind ++ w ∷ ahead)
    → paths_at w.path behind ≡ 0
head_fresh w behind ahead d =
    ground
      (arith, d w.path, eq_refl w.path, tally-append (λ v. str_eq v.path w.path) behind (w ∷ ahead))

pub onward_IsDistinct :
    (w v : Worker) (behind ahead : List Worker)
    → v.path ≡ w.path
    → IsDistinct (behind ++ w ∷ ahead)
    → IsDistinct (behind ++ v ∷ [] ++ ahead)
onward_IsDistinct w v behind ahead same d q = ground (
  arith,
  d q,
  tally-append (λ u. str_eq u.path q) behind (w ∷ ahead),
  tally-append (λ u. str_eq u.path q) (behind ++ v ∷ []) ahead,
  tally-append (λ u. str_eq u.path q) behind (v ∷ []),
)

pub after_body :
    (body : Worker → WorkerPool → WorkerPool × Option Failure) (ws : List Worker) (p : WorkerPool)
    (failed : Option Failure)
    → (elim failed as (λ o. WorkerPool × Option Failure) [
      | some f ↦ (p, some f)
      | none ↦ for_each body ws p
    ]).1
      ≡ none
    → (failed ≡ none)
      × (elim failed as (λ o. WorkerPool × Option Failure) [
        | some f ↦ (p, some f)
        | none ↦ for_each body ws p
      ]
          ≡ for_each body ws p)
after_body body ws p none e = (refl, refl)
after_body body ws p (some f) e = cc

pub shift :
    (f : Worker → Worker) (w : Worker) (behind ahead : List Worker)
    → behind ++ f w ∷ ahead ≡ behind ++ f w ∷ [] ++ ahead
shift f w behind ahead = sym (append_assoc behind (f w ∷ []) ahead)

module _ (body : Worker → WorkerPool → WorkerPool × Option Failure) (f : Worker → Worker)
    (picks : Worker → Bool) (places : Places body f)
    (path_kept : (w : Worker) → (f w).path ≡ w.path)
    (other_kept : (w : Worker) → picks w ≡ false → f w ≡ w) where
  pub for_each-maps :
      (ahead behind : List Worker) (p : WorkerPool)
      → p.workers ≡ behind ++ ahead
      → IsDistinct (behind ++ ahead)
      → (for_each body (keep picks ahead) p).1 ≡ none
      → (for_each body (keep picks ahead) p).0 ≡ record p { workers = behind ++ map f ahead }
  for_each-maps [] behind p at d e = ap (λ ws. record p { workers = ws }) at
  for_each-maps (w ∷ ahead) behind p at d e =
      let next_distinct = onward_IsDistinct w (f w) behind ahead (path_kept w) d in
      let place = λ (ws : List Worker). record p { workers = ws } in
      elim (Bool-cases (picks w)) [
        | inl picked ↦
            let p' = (body w p).0 in
            let listed : keep picks (w ∷ ahead) ≡ w ∷ keep picks ahead = ground arith in
            let runs : (for_each body (w ∷ keep picks ahead) p).1 ≡ none =
              subst (λ l. (for_each body l p).1 ≡ none) listed e in
            let (ran, same) = after_body body (keep picks ahead) p' (body w p).1 runs in
            let placed = places w behind ahead p at (head_fresh w behind ahead d) ran in
            let rest =
              for_each-maps ahead (behind ++ f w ∷ []) p'
                (ap (λ (q : WorkerPool). q.workers) placed ∙ shift f w behind ahead) next_distinct
                (subst (λ (t : WorkerPool × Option Failure). t.1 ≡ none) same runs) in
            subst (λ l. (for_each body l p).0 ≡ place (behind ++ f w ∷ map f ahead)) (sym listed)
              (ap (λ (t : WorkerPool × Option Failure). t.0) same
                ∙ rest
                ∙ ap (λ (q : WorkerPool). record q { workers = behind ++ f w ∷ [] ++ map f ahead })
                    placed
                ∙ ap place (sym (shift f w behind (map f ahead))))
        | inr passed ↦
            let listed : keep picks (w ∷ ahead) ≡ keep picks ahead = ground arith in
            let rest =
              for_each-maps ahead (behind ++ f w ∷ []) p
                (at
                  ∙ ap (λ v. behind ++ v ∷ ahead) (sym (other_kept w passed))
                  ∙ shift f w behind ahead)
                next_distinct (subst (λ l. (for_each body l p).1 ≡ none) listed e) in
            subst (λ l. (for_each body l p).0 ≡ place (behind ++ f w ∷ map f ahead)) (sym listed)
              (rest ∙ ap place (sym (shift f w behind (map f ahead))))
      ]

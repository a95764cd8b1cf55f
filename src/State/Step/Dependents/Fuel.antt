-- ===== src/State/Step/Dependents/Fuel.antt =====
-- `get_dependents` ends: fuel beyond the number of derivation paths that are not seen yet is enough.
use hydra_queue_runner.Base.{
  ℕ, zero, suc, ◌≤◌, ◌<◌, ◌≡◌, refl, ap, inl, inr, Bool, true, false, not, Option, some, List, [],
  ◌∷◌, ◌++◌, arith, Bool-cases, Option-cases, any, count_if, All, any-append,
}
use hydra_queue_runner.NixUtils.StorePath.{StorePath, path_eq, path_eq_iff}
use hydra_queue_runner.State.Heap.{StepRef, Heap, Step, step_eq, contains_step}
use hydra_queue_runner.State.Step.{unfinished_builds, visit_rdeps, get_dependents}
use hydra_queue_runner.State.Step.Dependents.{Found}
use hydra_queue_runner.State.Step.Dependents.Closure.{Visits, searched-found}

unfoldable pub path_in : List StorePath → StorePath → Bool
path_in paths p = any (λ q. path_eq q p) paths

-- The paths of the list that no seen step has.
unfoldable pub missing : List StorePath → List StepRef → ℕ
missing paths steps = count_if (λ p. not (any (λ (s : StepRef). path_eq s.drv_path p) steps)) paths

-- Every reverse dependency that the heap holds has its path in the list.
abbrev pub Within : Heap → List StorePath → Type 0
Within h paths =
    (a : ℕ) (s : Step)
    → h.step a ≡ some s
    → All (λ (d : StepRef). path_in paths d.drv_path ≡ true) s.state.rdeps

missing-append :
    (paths : List StorePath) (new steps : List StepRef)
    → missing paths (new ++ steps) ≤ missing paths steps
unfolding missing
missing-append [] new steps = omega arith
missing-append (p ∷ paths) new steps = ground (
  arith,
  missing-append paths new steps,
  any-append (λ (s : StepRef). path_eq s.drv_path p) new steps,
)

pub missing-head :
    (paths : List StorePath) (r : StepRef) (steps : List StepRef)
    → path_in paths r.drv_path ≡ true
    → contains_step steps r ≡ false
    → missing paths (r ∷ steps) < missing paths steps
unfolding missing path_in contains_step step_eq
missing-head [] r steps m n = cc
missing-head (p ∷ paths) r steps m n = ground (
  arith,
  missing-head paths r steps,
  missing-append paths (r ∷ []) steps,
  path_eq_iff p r.drv_path,
  path_eq_iff r.drv_path p,
)

abbrev Ends : List StorePath → ℕ → (StepRef → Found → Option Found) → Type 0
Ends paths fuel visit =
    (r : StepRef) (acc : Found)
    → path_in paths r.drv_path ≡ true
    → missing paths acc.1 < fuel
    → (to : Found) × (visit r acc ≡ some to)

visit_rdeps-Ends :
    (h : Heap) (paths : List StorePath) (fuel : ℕ) (visit : StepRef → Found → Option Found)
    → Visits h visit
    → Ends paths fuel visit
    → (rs : List StepRef) (acc : Found) → All (λ (d : StepRef). path_in paths d.drv_path ≡ true) rs
    → missing paths acc.1 < fuel
    → (to : Found) × (visit_rdeps visit h rs acc ≡ some to)
unfolding visit_rdeps
visit_rdeps-Ends h paths fuel visit v ends [] acc a m = (acc, refl)
visit_rdeps-Ends h paths fuel visit v ends (r ∷ rs) acc a m = elim (Option-cases (h.step r.addr)) [
  | inl gone ↦
      let (to, e) = visit_rdeps-Ends h paths fuel visit v ends rs acc a.1 m in (to, ground arith)
  | inr (s, live) ↦
      let (mid, first) = ends r acc a.0 m in
      let (to, e) = visit_rdeps-Ends h paths fuel visit v ends rs mid a.1 (
        omega (
          arith,
          missing-append paths ((v r acc mid first).1.fresh) acc.1,
          ap (missing paths) ((v r acc mid first).1.grown),
        )) in
      (to, ground arith)
]

-- From a step whose path is in a list that also holds the paths of all reverse dependencies, the
-- search returns, if the fuel is above the number of those paths that are not seen yet.
pub get_dependents_total :
    (h : Heap) (paths : List StorePath) (fuel : ℕ) (r : StepRef) (acc : Found)
    → Within h paths
    → path_in paths r.drv_path ≡ true
    → missing paths acc.1 < fuel
    → (to : Found) × (get_dependents fuel h r acc ≡ some to)
unfolding get_dependents
get_dependents_total h paths zero r acc w i m = absurd (omega arith)
get_dependents_total h paths (suc fuel) r (builds, steps) w i m =
    elim (Bool-cases (contains_step steps r)) [
      | inl seen ↦ ((builds, steps), ground arith)
      | inr new ↦ elim (Option-cases (h.step r.addr)) [
        | inl gone ↦ ((builds, r ∷ steps), ground arith)
        | inr (s, live) ↦
            let (to, e) =
              visit_rdeps-Ends h paths fuel (get_dependents fuel h) (searched-found h fuel)
                (λ d acc. get_dependents_total h paths fuel d acc w) s.state.rdeps
                (unfinished_builds h s.state.builds builds, r ∷ steps) (w r.addr s live)
                (omega (arith, missing-head paths r steps i new)) in
            (to, ground arith)
      ]
    ]

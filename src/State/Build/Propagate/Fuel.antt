-- ===== src/State/Build/Propagate/Fuel.antt =====
-- `propagate_priorities` ends: the queue and the paths that were never queued bound the fuel.
use hydra_queue_runner.Base.{
  ℕ, zero, suc, ◌+◌, ◌≤◌, ◌≡◌, refl, subst, ◌∙◌, inl, inr, Bool, true, false, not, Option, none,
  some, List, [], ◌∷◌, ◌++◌, arith, ◌==◌, Bool-cases, Option-cases, length, length-append, retain,
  All, some_inj, All-retain,
}
use hydra_queue_runner.NixUtils.StorePath.{StorePath, path_eq_iff}
use hydra_queue_runner.State.Heap.{
  StepRef, Step, Build, Heap, set_step, contains_step, insert_step, step_eq,
}
use hydra_queue_runner.State.Step.{get_all_deps_not_queued}
use hydra_queue_runner.State.Step.Dependents.Fuel.{path_in, missing, missing-head}
use hydra_queue_runner.State.Build.{raise_step, insert_all, propagate, propagate_priorities}
use hydra_queue_runner.State.Build.Propagate.Served.{
  new_deps, propagate_live, propagate_dead, get-set,
}

-- A hash set as a list: no element stands in it twice.
abbrev pub IsDistinct : List StepRef → Type 0
IsDistinct [] = Unit {0}
IsDistinct (r ∷ l) = (contains_step l r ≡ false) × IsDistinct l

-- The dependencies of every step are a set whose paths are in a list.
abbrev pub DepsWithin : List StorePath → Heap → Type 0
DepsWithin paths h =
    (a : ℕ) (s : Step)
    → h.step a ≡ some s
    → IsDistinct s.state.deps × All (λ (d : StepRef). path_in paths d.drv_path ≡ true) s.state.deps

abbrev Fresh : List StepRef → List StepRef → Type 0
Fresh queued l = All (λ d. contains_step queued d ≡ false) l

Fresh-cons :
    (queued l : List StepRef) (r : StepRef)
    → contains_step l r ≡ false
    → Fresh queued l
    → Fresh (r ∷ queued) l
unfolding contains_step step_eq
Fresh-cons queued [] r n i = tt
Fresh-cons queued (x ∷ l) r n i = (
  ground (arith, i.0, path_eq_iff x.drv_path r.drv_path, path_eq_iff r.drv_path x.drv_path),
  Fresh-cons queued l r (ground arith) i.1,
)

missing-insert_all :
    (paths : List StorePath) (l queued : List StepRef)
    → IsDistinct l
    → Fresh queued l
    → All (λ (d : StepRef). path_in paths d.drv_path ≡ true) l
    → missing paths (insert_all l queued) + length l ≤ missing paths queued
unfolding insert_all insert_step
missing-insert_all paths [] queued u i w = omega arith
missing-insert_all paths (r ∷ l) queued u i w =
    let rest = missing-insert_all paths l (r ∷ queued) u.1 (Fresh-cons queued l r u.0 i.1) w.1 in
    let head = missing-head paths r queued w.0 i.0 in rw i.0 (omega (arith, rest, head))

retain_absent :
    (p : StepRef → Bool) (l : List StepRef) (r : StepRef)
    → contains_step l r ≡ false
    → contains_step (retain p l) r ≡ false
unfolding contains_step
retain_absent p [] r n = refl
retain_absent p (x ∷ l) r n = ground (arith, retain_absent p l r)

retain-IsDistinct : (p : StepRef → Bool) (l : List StepRef) → IsDistinct l → IsDistinct (retain p l)
retain-IsDistinct p [] u = tt
retain-IsDistinct p (x ∷ l) u = elim (Bool-cases (p x)) [
  | inl e ↦ rw e (retain_absent p l x u.0, retain-IsDistinct p l u.1)
  | inr e ↦ rw e (retain-IsDistinct p l u.1)
]

retain-Fresh :
    (queued l : List StepRef) → Fresh queued (retain (λ dep. not (contains_step queued dep)) l)
retain-Fresh queued [] = tt
retain-Fresh queued (x ∷ l) = elim (Bool-cases (contains_step queued x)) [
  | inl e ↦ rw e (retain-Fresh queued l)
  | inr e ↦ rw e (e, retain-Fresh queued l)
]

missing_le : (paths : List StorePath) (l : List StepRef) → missing paths l ≤ length paths
unfolding missing
missing_le [] l = omega arith
missing_le (p ∷ paths) l = ground (arith, missing_le paths l)

module _ (paths : List StorePath) (b : Build) where
  set-DepsWithin :
      (h : Heap) (a : ℕ) (s : Step)
      → DepsWithin paths h
      → h.step a ≡ some s
      → DepsWithin paths (set_step h a (raise_step b s))
  unfolding raise_step
  set-DepsWithin h a s v live c t e = elim (Bool-cases (a == c)) [
    | inl same ↦
        subst
          (λ (x : Step).
            IsDistinct x.state.deps
            × All (λ (d : StepRef). path_in paths d.drv_path ≡ true) x.state.deps)
          (some_inj (raise_step b s) t (ground (arith, get-set h a c (raise_step b s))))
          (v a s live)
    | inr other ↦ v c t (ground (arith, get-set h a c (raise_step b s)))
  ]

  room :
      (queued : List StepRef) (s : Step)
      → IsDistinct s.state.deps
      → All (λ (d : StepRef). path_in paths d.drv_path ≡ true) s.state.deps
      → missing paths (insert_all (new_deps queued b s) queued) + length (new_deps queued b s)
        ≤ missing paths queued
  unfolding raise_step get_all_deps_not_queued
  room queued s u w =
      missing-insert_all paths (retain (λ dep. not (contains_step queued dep)) s.state.deps) queued
        (retain-IsDistinct (λ dep. not (contains_step queued dep)) s.state.deps u)
        (retain-Fresh queued s.state.deps)
        (All-retain (λ (d : StepRef). path_in paths d.drv_path ≡ true)
          (λ dep. not (contains_step queued dep)) s.state.deps w)

  propagate_total :
      (fuel : ℕ) (queued todo : List StepRef) (h : Heap)
      → DepsWithin paths h
      → length todo + missing paths queued ≤ fuel
      → (to : Heap) × (propagate fuel b queued todo h ≡ some to)
  unfolding propagate
  propagate_total fuel queued [] h v m = (h, refl)
  propagate_total zero queued (r ∷ todo) h v m = absurd (omega arith)
  propagate_total (suc fuel) queued (r ∷ todo) h v m = elim (Option-cases (h.step r.addr)) [
    | inl gone ↦
        let (to, e) = propagate_total fuel queued todo h v (omega arith) in
        (to, propagate_dead fuel b queued todo r h gone ∙ e)
    | inr (s, live) ↦
        let deps = new_deps queued b s in
        let (u, w) = v r.addr s live in
        let (to, e) =
          propagate_total fuel (insert_all deps queued) (todo ++ deps)
            (set_step h r.addr (raise_step b s)) (set-DepsWithin h r.addr s v live)
            (omega (arith, room queued s u w, length-append todo deps)) in
        (to, propagate_live fuel b queued todo r h s live ∙ e)
  ]

  propagate_from :
      (o : Option StepRef) (h : Heap)
      → DepsWithin paths h
      → (to : Heap) × (propagate
            (suc (length paths))
            b
            []
            (elim o as (λ _. List StepRef) [ none ↦ [] | some r ↦ r ∷ [] ])
            h
          ≡ some to)
  propagate_from none h v =
      propagate_total (suc (length paths)) [] [] h v (omega (arith, missing_le paths []))
  propagate_from (some r) h v =
      propagate_total (suc (length paths)) [] (r ∷ []) h v (omega (arith, missing_le paths []))

  -- `propagate_priorities` ends with a result on every heap whose dependencies are sets, also with
  -- cycles: fuel for one round, and one for each path that a dependency may have, is enough.
  pub propagate_priorities_total :
      (h : Heap)
      → DepsWithin paths h
      → (to : Heap) × (propagate_priorities (suc (length paths)) b h ≡ some to)
  unfolding propagate_priorities
  propagate_priorities_total h v = propagate_from b.toplevel h v

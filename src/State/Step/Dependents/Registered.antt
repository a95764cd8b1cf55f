-- ===== src/State/Step/Dependents/Registered.antt =====
-- The steps that the search has seen, where every reference points to the address of its path.
use hydra_queue_runner.Base.{◌≡◌, some, All-In, true, zero}
use hydra_queue_runner.State.Build.Propagate.{IsRegistered, contains-In}
use hydra_queue_runner.State.Step.Dependents.{Found, Covered, List, Heap, StepFound, BuildFound}
use hydra_queue_runner.NixUtils.StorePath.{StorePath}
use hydra_queue_runner.Base.{
  List, ℕ, In, All, ◌∷◌, Option, [], inl, suc, subst, Bool-cases, some_inj, inr, arith,
  Option-cases,
}
use hydra_queue_runner.State.Heap.{Heap, Step, StepRef, contains_step, BuildRef}
use hydra_queue_runner.State.Step.{visit_rdeps, get_dependents, unfinished_builds}
use hydra_queue_runner.State.Step.Dependents.Reached.{Reach, next, here}
use hydra_queue_runner.State.Step.Dependents.Closure.{get_dependents-closed}
use Prim.Native.Nat.{zero}

abbrev pub RdepsRegistered : (StorePath → ℕ) → Heap → Type 0
RdepsRegistered f h = (a : ℕ) (s : Step) → h.step a ≡ some s → All (IsRegistered f) s.state.rdeps

module _ (f : StorePath → ℕ) (h : Heap) (v : RdepsRegistered f h) where
  abbrev Keeps : (StepRef → Found → Option Found) → Type 0
  Keeps visit =
      (r : StepRef) (acc to : Found)
      → IsRegistered f r
      → visit r acc ≡ some to
      → All (IsRegistered f) acc.1
      → All (IsRegistered f) to.1

  visit_rdeps-Keeps :
      (visit : StepRef → Found → Option Found)
      → Keeps visit
      → (rs : List StepRef) (acc to : Found) → All (IsRegistered f) rs
      → visit_rdeps visit h rs acc ≡ some to
      → All (IsRegistered f) acc.1
      → All (IsRegistered f) to.1
  unfolding visit_rdeps
  visit_rdeps-Keeps visit k [] acc to i e a =
      subst (λ (t : Found). All (IsRegistered f) t.1) (some_inj acc to e) a
  visit_rdeps-Keeps visit k (r ∷ rs) acc to i e a = elim (Option-cases (h.step r.addr)) [
    | inl gone ↦ visit_rdeps-Keeps visit k rs acc to i.1 (ground arith) a
    | inr (s, live) ↦ elim (Option-cases (visit r acc)) [
      | inl out ↦ cc (rw (live, visit_rdeps, out) at e)
      | inr (mid, done) ↦
          visit_rdeps-Keeps visit k rs mid to i.1 (ground arith) (k r acc mid i.0 done a)
    ]
  ]

  get_dependents-Keeps : (fuel : ℕ) → Keeps (get_dependents fuel h)
  unfolding get_dependents
  get_dependents-Keeps zero r acc to i e a = cc
  get_dependents-Keeps (suc fuel) r (builds, steps) to i e a =
      elim (Bool-cases (contains_step steps r)) [
        | inl seen ↦
            subst (λ (t : Found). All (IsRegistered f) t.1)
              (some_inj (builds, steps) to (ground arith)) a
        | inr new ↦ elim (Option-cases (h.step r.addr)) [
          | inl gone ↦
              subst (λ (t : Found). All (IsRegistered f) t.1)
                (some_inj (builds, r ∷ steps) to (ground arith)) (i, a)
          | inr (s, live) ↦
              visit_rdeps-Keeps (get_dependents fuel h) (get_dependents-Keeps fuel) s.state.rdeps
                (unfinished_builds h s.state.builds builds, r ∷ steps) to (v r.addr s live)
                (ground arith) (i, a)
        ]
      ]

  Reach-IsRegistered : (root d : StepRef) → IsRegistered f root → Reach h root d → IsRegistered f d
  Reach-IsRegistered root _ i here = i
  Reach-IsRegistered root _ i (next {x} s d reach live m) =
      All-In (IsRegistered f) s.state.rdeps d (v x.addr s live) m

  module _ (fuel : ℕ) (root : StepRef) (found : Found) (i : IsRegistered f root)
      (e : get_dependents fuel h root ([], []) ≡ some found) where
    seen-In : (d : StepRef) → IsRegistered f d → contains_step found.1 d ≡ true → In d found.1
    seen-In d j c =
        contains-In f found.1 d (get_dependents-Keeps fuel root ([], []) found i e tt) j c

    -- Every live step that is reached is among the steps that the search has seen.
    reached-In : (d : StepRef) (s : Step) → Reach h root d → h.step d.addr ≡ some s → In d found.1
    reached-In d s here live = seen-In root i (get_dependents-closed fuel h root found e).0
    reached-In _ s (next {x} t d reach before m) live =
        let covered =
          All-In (Covered h found) found.1 x (get_dependents-closed fuel h root found e).1
            (reached-In x t reach before) in
        seen-In d (Reach-IsRegistered root d i (next t d reach before m))
          (All-In (StepFound h found.1) t.state.rdeps d (covered t before).1 m s live)

    -- A build of a live step that is reached is found, or it is finished or gone.
    pub reached-BuildFound :
        (d : StepRef) (s : Step) (b : BuildRef)
        → Reach h root d
        → h.step d.addr ≡ some s
        → In b s.state.builds
        → BuildFound h found.0 b
    reached-BuildFound d s b reach live m =
        let covered =
          All-In (Covered h found) found.1 d (get_dependents-closed fuel h root found e).1
            (reached-In d s reach live) in
        All-In (BuildFound h found.0) s.state.builds b (covered s live).0 m

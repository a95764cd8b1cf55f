-- ===== src/State/Build/Propagate/Below.antt =====
-- After `propagate_priorities` every step below the top carries the priorities of the build.
use hydra_queue_runner.Base.{ℕ, ◌≡◌, refl, sym, subst, inl, none, some, List, [], ◌∷◌, In}
use hydra_queue_runner.NixUtils.StorePath.{StorePath}
use hydra_queue_runner.State.Heap.{StepRef, Step, Build, Heap}
use hydra_queue_runner.State.Build.{propagate, propagate_priorities}
use hydra_queue_runner.State.Build.Raised.{Raised, IsServed}
use hydra_queue_runner.State.Build.Propagate.{DepsRegistered}
use hydra_queue_runner.State.Build.Propagate.Served.{IsDone, Grown, propagate-Grown}
use hydra_queue_runner.State.Build.Propagate.Reach.{propagate-Reached}

-- The steps that a step needs, itself included, along the dependencies of the heap.
pub data Needs (h : Heap) (top : StepRef) : StepRef → Type 0 where
  itself : Needs h top top
  through :
      {r : StepRef} (s : Step) (d : StepRef)
      → Needs h top r
      → h.step r.addr ≡ some s
      → In d s.state.deps
      → Needs h top d

module _ (f : StorePath → ℕ) (b : Build) (h to : Heap) (top : StepRef) where
  needed-In :
      (l : List StepRef)
      → ((a : ℕ) → Grown (h.step a) (to.step a))
      → In top l
      → ((r : StepRef) → In r l → IsDone b to l r)
      → (d : StepRef) → Needs h top d
      → In d l
  needed-In l grown m done d itself = m
  needed-In l grown m done _ (through {r} s d n live k) =
      let (t, live', raised) = subst (λ o. Grown o (to.step r.addr)) live (grown r.addr) in
      (done r (needed-In l grown m done r n) t live').1 d (subst (λ x. In d x) (sym raised.deps) k)

  -- A run of `propagate_priorities` that returns, on a heap in which every dependency points to
  -- the one address that its path has: every live step that the top-level step of the build
  -- needs, itself included, has global and local priorities at least those of the build and a
  -- lowest build id of at most the build's; none of its priorities fell, and its dependencies,
  -- reverse dependencies, builds, the counter of dependencies and whether it is runnable or
  -- finished are as before.
  pub propagate_priorities-IsServed :
      (fuel : ℕ)
      → b.toplevel ≡ some top
      → DepsRegistered f h
      → propagate_priorities fuel b h ≡ some to
      → (d : StepRef) (s : Step) → Needs h top d
      → h.step d.addr ≡ some s
      → (t : Step) × (to.step d.addr ≡ some t) × IsServed b t × Raised s t
  unfolding propagate_priorities
  propagate_priorities-IsServed fuel has v e d s n live =
      let run : propagate fuel b [] (top ∷ []) h ≡ some to =
        subst
          (λ o.
            propagate fuel b [] (elim o as (λ _. List StepRef) [ none ↦ [] | some r ↦ r ∷ [] ]) h
            ≡ some to)
          has e in
      let grown = propagate-Grown fuel b [] (top ∷ []) h to run in
      let (l, old, waiting, done) =
        propagate-Reached f b fuel [] (top ∷ []) [] h to v tt (λ r m. absurd m) (λ q m. absurd m)
          run in
      let (t, live', raised) = subst (λ o. Grown o (to.step d.addr)) live (grown d.addr) in
      (t, live', (done d (needed-In l grown (waiting top (inl refl)) done d n) t live').0, raised)

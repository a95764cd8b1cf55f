-- ===== src/State/Step/Dependents/Reached.antt =====
-- The builds that `get_dependents` returns belong to steps that depend on the one it started from.
use hydra_queue_runner.Base.{
  In, ℕ, zero, suc, ◌≡◌, refl, subst, inl, inr, false, Option, none, some, List, [], ◌∷◌, arith,
  if◌then◌else◌, Bool-cases, Option-cases, All, some_inj,
}
use hydra_queue_runner.State.Heap.{
  StepRef, BuildRef, Heap, Step, Build, insert_build, contains_step,
}
use hydra_queue_runner.State.Step.{unfinished_builds, visit_rdeps, get_dependents}
use hydra_queue_runner.State.Step.Dependents.{Found}

-- The live steps that depend on a step, directly or not.
pub data Reach (h : Heap) (root : StepRef) : StepRef → Type 0 where
  here : Reach h root root
  next :
      {x : StepRef} (s : Step) (d : StepRef)
      → Reach h root x
      → h.step x.addr ≡ some s
      → In d s.state.rdeps
      → Reach h root d

-- An unfinished build of a step that depends on the root.
pub record IsDependent (h : Heap) (root : StepRef) (b : BuildRef) : Type 0 where
  pub at : StepRef
  pub reach : Reach h root at
  pub step : Step
  pub live : h.step at.addr ≡ some step
  pub owns : In b step.state.builds
  pub build : Build
  pub known : h.build b.addr ≡ some build
  pub unfinished : build.finished_in_db ≡ false

insert-All {ℓ} :
    (P : BuildRef → Type ℓ) (b : BuildRef) (l : List BuildRef)
    → P b
    → All P l
    → All P (insert_build b l)
unfolding insert_build
insert-All P b l p a = ground arith

unfinished_builds-All :
    (h : Heap) (root r : StepRef) (s : Step)
    → Reach h root r
    → h.step r.addr ≡ some s
    → (bs builds : List BuildRef) → ((b : BuildRef) → In b bs → In b s.state.builds)
    → All (IsDependent h root) builds
    → All (IsDependent h root) (unfinished_builds h bs builds)
unfolding unfinished_builds
unfinished_builds-All h root r s reach live [] builds sub a = a
unfinished_builds-All h root r s reach live (b ∷ bs) builds sub a =
    unfinished_builds-All h root r s reach live bs _ (λ c m. sub c (inr m))
      (added (h.build b.addr) refl)
  where
    added :
        (o : Option Build)
        → h.build b.addr ≡ o
        → All (IsDependent h root) (elim o [
          | none ↦ builds
          | some x ↦ if x.finished_in_db then builds else insert_build b builds
        ])
    added none e = a
    added (some x) e = elim (Bool-cases x.finished_in_db) [
      | inl done ↦ rw done a
      | inr open_build ↦ rw open_build (
          insert-All (IsDependent h root) b builds
            (record {
              at = r;
              reach = reach;
              step = s;
              live = live;
              owns = sub b (inl refl);
              build = x;
              known = e;
              unfinished = open_build;
            })
            a)
    ]

abbrev Keeps : Heap → StepRef → (StepRef → Found → Option Found) → Type 0
Keeps h root visit =
    (r : StepRef) (acc to : Found)
    → Reach h root r
    → visit r acc ≡ some to
    → All (IsDependent h root) acc.0
    → All (IsDependent h root) to.0

visit_rdeps-Keeps :
    (h : Heap) (root : StepRef) (visit : StepRef → Found → Option Found)
    → Keeps h root visit
    → (rs : List StepRef) (acc to : Found) → ((d : StepRef) → In d rs → Reach h root d)
    → visit_rdeps visit h rs acc ≡ some to
    → All (IsDependent h root) acc.0
    → All (IsDependent h root) to.0
unfolding visit_rdeps
visit_rdeps-Keeps h root visit k [] acc to sub e a =
    subst (λ (t : Found). All (IsDependent h root) t.0) (some_inj acc to e) a
visit_rdeps-Keeps h root visit k (r ∷ rs) acc to sub e a = elim (Option-cases (h.step r.addr)) [
  | inl gone ↦ visit_rdeps-Keeps h root visit k rs acc to (λ d m. sub d (inr m)) (ground arith) a
  | inr (s, live) ↦ elim (Option-cases (visit r acc)) [
    | inl out ↦ cc (rw (live, visit_rdeps, out) at e)
    | inr (mid, done) ↦
        visit_rdeps-Keeps h root visit k rs mid to (λ d m. sub d (inr m)) (ground arith)
          (k r acc mid (sub r (inl refl)) done a)
  ]
]

get_dependents-Keeps : (h : Heap) (root : StepRef) (fuel : ℕ) → Keeps h root (get_dependents fuel h)
unfolding get_dependents
get_dependents-Keeps h root zero r acc to reach e a = cc
get_dependents-Keeps h root (suc fuel) r (builds, steps) to reach e a =
    elim (Bool-cases (contains_step steps r)) [
      | inl seen ↦
          subst (λ (t : Found). All (IsDependent h root) t.0)
            (some_inj (builds, steps) to (ground arith)) a
      | inr new ↦ elim (Option-cases (h.step r.addr)) [
        | inl gone ↦
            subst (λ (t : Found). All (IsDependent h root) t.0)
              (some_inj (builds, r ∷ steps) to (ground arith)) a
        | inr (s, live) ↦
            visit_rdeps-Keeps h root (get_dependents fuel h) (get_dependents-Keeps h root fuel)
              s.state.rdeps (unfinished_builds h s.state.builds builds, r ∷ steps) to
              (λ d m. next s d reach live m) (ground arith)
              (unfinished_builds-All h root r s reach live s.state.builds builds (λ b m. m) a)
      ]
    ]

-- Every build that the search returns, started with empty sets, is live and not finished, and is a
-- top-level build of a step that is reached from the start along reverse dependencies.
pub get_dependents-IsDependent :
    (fuel : ℕ) (h : Heap) (r : StepRef) (found : Found)
    → get_dependents fuel h r ([], []) ≡ some found
    → All (IsDependent h r) found.0
get_dependents-IsDependent fuel h r found e =
    get_dependents-Keeps h r fuel r ([], []) found here e tt

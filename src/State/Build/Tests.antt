-- ===== src/State/Build/Tests.antt =====
-- Builds: tests, and the theorems on a heap where step 1 needs step 2, and step 2 needs step 1.
use hydra_queue_runner.Base.{
  ℕ, zero, suc, ◌≡◌, refl, subst, inl, true, false, Option, none, some, List, [], ◌∷◌, arith, All,
  some_inj,
}
use hydra_queue_runner.Base.Text.{codes, text_eq}
use hydra_queue_runner.NixUtils.StorePath.{StorePath, path_eq}
use hydra_queue_runner.State.Heap.{StepRef, JobsetRef, Step, Build, Heap}
use hydra_queue_runner.State.Step.{new_step}
use hydra_queue_runner.State.Step.Dependents.Fuel.{path_in}
use hydra_queue_runner.State.Build.{propagate_priorities, full_job_name}
use hydra_queue_runner.State.Build.Raised.{Raised, IsServed}
use hydra_queue_runner.State.Build.Propagate.{IsRegistered}
use hydra_queue_runner.State.Build.Propagate.Below.{itself, through, propagate_priorities-IsServed}
use hydra_queue_runner.State.Build.Propagate.Fuel.{IsDistinct, propagate_priorities_total}

abbrev path : ℕ → StorePath
path n = record { base_name = n ∷ [] }

abbrev at : ℕ → StepRef
at n = record { addr = n; drv_path = path n }

abbrev waiting_for : ℕ → List StepRef → Step
waiting_for n deps = record (new_step (path n)) {
  state = record { deps = deps; rdeps = []; builds = []; jobsets = [] };
}

abbrev cycle_steps : ℕ → Option Step
cycle_steps (suc zero) = some (waiting_for 1 (at 2 ∷ []))
cycle_steps (suc (suc zero)) = some (waiting_for 2 (at 1 ∷ []))
cycle_steps _ = none

abbrev cycle : Heap
cycle = record { step = cycle_steps; build = λ a. none; jobset = λ a. none }

abbrev trunk : JobsetRef
trunk = record { addr = 0; id = 1; project_name = codes "nixpkgs"; name = codes "trunk" }

abbrev urgent : Build
urgent = record {
  id = 4;
  drv_path = path 1;
  outputs = [];
  jobset_id = 1;
  name = codes "job";
  timestamp = 0;
  max_silent_time = 3600;
  timeout = 36000;
  local_priority = 100;
  global_priority = 9;
  toplevel = some (at 1);
  jobset = trunk;
  finished_in_db = false;
}

full_job_name_test : full_job_name urgent ≡ codes "nixpkgs:trunk:job"
unfolding full_job_name
full_job_name_test = refl

abbrev cycle_paths : List StorePath
cycle_paths = path 1 ∷ path 2 ∷ []

-- The address of a path of one code is that code.
abbrev address : StorePath → ℕ
address p = elim p.base_name as (λ _. ℕ) [ [] ↦ 0 | c ∷ _ ↦ c ]

abbrev Registered : Step → Type 0
Registered s = All (IsRegistered address) s.state.deps

cycle-DepsRegistered : (a : ℕ) (s : Step) → cycle_steps a ≡ some s → Registered s
cycle-DepsRegistered zero s h = absurd (ground arith)
cycle-DepsRegistered (suc zero) s h =
    subst Registered (some_inj (waiting_for 1 (at 2 ∷ [])) s h) (refl, tt)
cycle-DepsRegistered (suc (suc zero)) s h =
    subst Registered (some_inj (waiting_for 2 (at 1 ∷ [])) s h) (refl, tt)
cycle-DepsRegistered (suc (suc (suc n))) s h = absurd (ground arith)

abbrev Within : Step → Type 0
Within s =
    IsDistinct s.state.deps
    × All (λ (d : StepRef). path_in cycle_paths d.drv_path ≡ true) s.state.deps

cycle-DepsWithin : (a : ℕ) (s : Step) → cycle_steps a ≡ some s → Within s
unfolding path_in path_eq text_eq hydra_queue_runner.State.Heap.contains_step
cycle-DepsWithin zero s h = absurd (ground arith)
cycle-DepsWithin (suc zero) s h =
    subst Within (some_inj (waiting_for 1 (at 2 ∷ [])) s h) ((refl, tt), (refl, tt))
cycle-DepsWithin (suc (suc zero)) s h =
    subst Within (some_inj (waiting_for 2 (at 1 ∷ [])) s h) ((refl, tt), (refl, tt))
cycle-DepsWithin (suc (suc (suc n))) s h = absurd (ground arith)

propagate_priorities_total_example : (to : Heap) × (propagate_priorities 3 urgent cycle ≡ some to)
propagate_priorities_total_example =
    propagate_priorities_total cycle_paths urgent cycle cycle-DepsWithin

propagate_priorities-IsServed_example :
    let run = propagate_priorities_total cycle_paths urgent cycle cycle-DepsWithin in
    (t : Step) × (run.0.step 2 ≡ some t) × IsServed urgent t × Raised (waiting_for 2 (at 1 ∷ [])) t
propagate_priorities-IsServed_example =
    propagate_priorities-IsServed address urgent cycle
      (propagate_priorities_total cycle_paths urgent cycle cycle-DepsWithin).0 (at 1) 3 refl
      cycle-DepsRegistered (propagate_priorities_total cycle_paths urgent cycle cycle-DepsWithin).1
      (at 2) (waiting_for 2 (at 1 ∷ []))
      (through (waiting_for 1 (at 2 ∷ [])) (at 2) itself refl (inl refl)) refl

-- ===== src/State/Step/Tests.antt =====
-- Steps: tests, and the theorems on a small heap. Step 0 is finished, steps 1 and 2 wait for it,
-- and step 3 waits for step 1; a build has step 3 at its top.
use hydra_queue_runner.Base.{
  suc, zero, ℕ, ◌≡◌, refl, true, false, none, some, List, [], ◌∷◌, arith, ◌==◌, if◌then◌else◌,
  length, All, Option, subst, some_inj,
}
use hydra_queue_runner.Base.Text.{codes, text_eq}
use hydra_queue_runner.NixUtils.StorePath.{StorePath, path_eq}
use hydra_queue_runner.State.Heap.{
  StepRef, BuildRef, JobsetRef, Step, StepState, StepAtomicState, Build, Heap, set_step,
  contains_step,
}
use hydra_queue_runner.State.Step.{new_step, get_dependents}
use hydra_queue_runner.State.Step.Dependents.{Found, Covered}
use hydra_queue_runner.State.Step.Dependents.Closure.{get_dependents-closed}
use hydra_queue_runner.State.Step.Dependents.Fuel.{path_in, missing, get_dependents_total}
use hydra_queue_runner.State.Step.Dependents.Reached.{IsDependent, get_dependents-IsDependent}

abbrev path : ℕ → StorePath
path n = record { base_name = n ∷ [] }

abbrev at : ℕ → StepRef
at n = record { addr = n; drv_path = path n }

-- A created step with its dependencies and reverse dependencies.
abbrev created_step : ℕ → List StepRef → List StepRef → List BuildRef → Step
created_step n deps rdeps builds = record (new_step (path n)) {
  state = record { deps = deps; rdeps = rdeps; builds = builds; jobsets = [] };
  atomic_state = record (new_step (path n)).atomic_state {
    created = true;
    deps_len = length deps;
    rdeps_len = length rdeps;
  };
}

abbrev top_build : BuildRef
top_build = record { addr = 7; id = 1; drv_path = path 3 }

abbrev done_step : Step
done_step = record (created_step 0 [] (at 1 ∷ at 2 ∷ []) []) { finished = true }

abbrev trunk : JobsetRef
trunk = record { addr = 0; id = 1; project_name = codes "nixpkgs"; name = codes "trunk" }

abbrev build_7 : Build
build_7 = record {
  id = 1;
  drv_path = path 3;
  outputs = [];
  jobset_id = 1;
  name = codes "job";
  timestamp = 0;
  max_silent_time = 3600;
  timeout = 36000;
  local_priority = 100;
  global_priority = 0;
  toplevel = some (at 3);
  jobset = trunk;
  finished_in_db = false;
}

abbrev small_steps : ℕ → Option Step
small_steps zero = some done_step
small_steps (suc zero) = some (created_step 1 (at 0 ∷ []) (at 3 ∷ []) [])
small_steps (suc (suc zero)) = some (created_step 2 (at 0 ∷ at 5 ∷ []) [] [])
small_steps (suc (suc (suc zero))) = some (created_step 3 (at 1 ∷ []) [] (top_build ∷ []))
small_steps _ = none

abbrev small_heap : Heap
small_heap = record {
  step = small_steps;
  build = λ a. if a == 7 then some build_7 else none;
  jobset = λ a. none;
}

abbrev found : Found
found = (top_build ∷ [], at 3 ∷ at 1 ∷ [])

dependents_test : get_dependents 5 small_heap (at 1) ([], []) ≡ some found
unfolding get_dependents new_step hydra_queue_runner.State.Heap.step_eq path_eq text_eq
dependents_test = refl

get_dependents-closed_example :
    (contains_step found.1 (at 1) ≡ true) × All (Covered small_heap found) found.1
unfolding get_dependents new_step hydra_queue_runner.State.Heap.step_eq path_eq text_eq
get_dependents-closed_example = get_dependents-closed 5 small_heap (at 1) found refl

get_dependents-IsDependent_example : All (IsDependent small_heap (at 1)) found.0
unfolding get_dependents new_step hydra_queue_runner.State.Heap.step_eq path_eq text_eq
get_dependents-IsDependent_example = get_dependents-IsDependent 5 small_heap (at 1) found refl

abbrev small_paths : List StorePath
small_paths = path 0 ∷ path 1 ∷ path 2 ∷ path 3 ∷ []

abbrev Inside : Step → Type 0
Inside s = All (λ (d : StepRef). path_in small_paths d.drv_path ≡ true) s.state.rdeps

same-Inside : (t s : Step) → Inside t → some t ≡ some s → Inside s
same-Inside t s i h = subst Inside (some_inj t s h) i

small_heap-Within : (a : ℕ) (s : Step) → small_steps a ≡ some s → Inside s
unfolding path_in path_eq text_eq
small_heap-Within zero s h = same-Inside done_step s (refl, (refl, tt)) h
small_heap-Within (suc zero) s h =
    same-Inside (created_step 1 (at 0 ∷ []) (at 3 ∷ []) []) s (refl, tt) h
small_heap-Within (suc (suc zero)) s h =
    same-Inside (created_step 2 (at 0 ∷ at 5 ∷ []) [] []) s tt h
small_heap-Within (suc (suc (suc zero))) s h =
    same-Inside (created_step 3 (at 1 ∷ []) [] (top_build ∷ [])) s tt h
small_heap-Within (suc (suc (suc (suc n)))) s h = cc

get_dependents_total_example :
    (to : Found) × (get_dependents 5 small_heap (at 1) ([], []) ≡ some to)
unfolding path_in path_eq text_eq missing
get_dependents_total_example =
    get_dependents_total small_heap (path 0 ∷ path 1 ∷ path 2 ∷ path 3 ∷ []) 5 (at 1) ([], [])
      small_heap-Within refl (omega arith)

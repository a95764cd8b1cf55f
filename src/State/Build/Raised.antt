-- ===== src/State/Build/Raised.antt =====
-- What `propagate_priorities` may change in the heap.
use hydra_queue_runner.Base.{◌≤◌, ◌≡◌, refl, arith}
use hydra_queue_runner.Base.Words.{key32}
use hydra_queue_runner.State.Heap.{Step, Build}
use hydra_queue_runner.State.Build.{raise_step, max_i32, min_i32}

-- A step that only had its priorities raised: it kept its dependencies, reverse dependencies and
-- builds, its state and its counters, and neither priority fell nor did the lowest build id rise.
pub record Raised (s t : Step) : Type 0 where
  pub deps : t.state.deps ≡ s.state.deps
  pub rdeps : t.state.rdeps ≡ s.state.rdeps
  pub builds : t.state.builds ≡ s.state.builds
  pub runnable : t.runnable ≡ s.runnable
  pub finished : t.finished ≡ s.finished
  pub deps_len : t.atomic_state.deps_len ≡ s.atomic_state.deps_len
  pub global :
      key32 s.atomic_state.highest_global_priority ≤ key32 t.atomic_state.highest_global_priority
  pub local :
      key32 s.atomic_state.highest_local_priority ≤ key32 t.atomic_state.highest_local_priority
  pub build_id : key32 t.atomic_state.lowest_build_id ≤ key32 s.atomic_state.lowest_build_id

pub Raised-refl : (s : Step) → Raised s s
Raised-refl s = record {
  deps = refl;
  rdeps = refl;
  builds = refl;
  runnable = refl;
  finished = refl;
  deps_len = refl;
  global = omega arith;
  local = omega arith;
  build_id = omega arith;
}

pub Raised-trans : (s t u : Step) → Raised s t → Raised t u → Raised s u
Raised-trans s t u p q = ground arith

pub raise_step-Raised : (b : Build) (s : Step) → Raised s (raise_step b s)
unfolding raise_step max_i32 min_i32
raise_step-Raised b s = ground arith

-- The step carries at least what the build asks for.
pub record IsServed (b : Build) (s : Step) : Type 0 where
  pub global : key32 b.global_priority ≤ key32 s.atomic_state.highest_global_priority
  pub local : key32 b.local_priority ≤ key32 s.atomic_state.highest_local_priority
  pub build_id : key32 s.atomic_state.lowest_build_id ≤ key32 b.id

pub raise_step-IsServed : (b : Build) (s : Step) → IsServed b (raise_step b s)
unfolding raise_step max_i32 min_i32
raise_step-IsServed b s = ground arith

pub Raised-IsServed : (b : Build) (s t : Step) → Raised s t → IsServed b s → IsServed b t
Raised-IsServed b s t p q = ground arith

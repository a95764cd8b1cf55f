-- ===== src/State/Step/Invariant.antt =====
-- What holds of a step between the operations.
use hydra_queue_runner.Base.{ℕ, ◌≡◌, refl, true, false, Option, none, some, [], arith, length}
use hydra_queue_runner.State.Heap.{StepRef, BuildRef, JobsetRef, Step}
use hydra_queue_runner.NixUtils.StorePath.{StorePath}
use hydra_queue_runner.State.Step.{
  new_step, make_runnable, drop_dep, add_dep, add_jobset, add_referring_data,
}

-- The counters are the sizes of the lists, and a step is runnable only once it is created and has
-- no dependency left.
pub record IsConsistent (s : Step) : Type 0 where
  pub deps_counted : s.atomic_state.deps_len ≡ length s.state.deps
  pub rdeps_counted : s.atomic_state.rdeps_len ≡ length s.state.rdeps
  pub ready : s.runnable ≡ true → (s.atomic_state.created ≡ true) × (s.state.deps ≡ [])

pub new_step-IsConsistent : (p : StorePath) → IsConsistent (new_step p)
unfolding new_step
new_step-IsConsistent p = record { deps_counted = refl; rdeps_counted = refl; ready = λ h. cc }

-- A dependency is added only while the step is not runnable: `create_step` adds them before it marks
-- the step as created.
pub add_dep-IsConsistent :
    (d : StepRef) (s : Step) → s.runnable ≡ false → IsConsistent s → IsConsistent (add_dep d s)
unfolding add_dep
add_dep-IsConsistent d s idle v = record {
  deps_counted = refl;
  rdeps_counted = v.rdeps_counted;
  ready = λ h. cc;
}

pub add_jobset-IsConsistent :
    (j : JobsetRef) (s : Step) → IsConsistent s → IsConsistent (add_jobset j s)
unfolding add_jobset
add_jobset-IsConsistent j s v = ground arith

pub add_referring_data-IsConsistent :
    (b : Option BuildRef) (r : Option StepRef) (s : Step)
    → IsConsistent s
    → IsConsistent (add_referring_data b r s)
unfolding add_referring_data
add_referring_data-IsConsistent none none s v = v
add_referring_data-IsConsistent (some b) none s v = ground arith
add_referring_data-IsConsistent none (some r) s v = ground arith
add_referring_data-IsConsistent (some b) (some r) s v = ground arith

pub make_runnable-IsConsistent :
    (now : ℕ) (s : Step)
    → s.atomic_state.created ≡ true
    → s.state.deps ≡ []
    → IsConsistent s
    → IsConsistent (make_runnable now s)
unfolding make_runnable
make_runnable-IsConsistent now s c d v = ground arith

-- A step whose counters are right and that is runnable only if it is created and has no
-- dependency stays so when a finished dependency is dropped from it, also where it becomes
-- runnable by that.
pub drop_dep-IsConsistent :
    (now : ℕ) (p : StorePath) (s : Step) → IsConsistent s → IsConsistent (drop_dep now p s)
unfolding drop_dep make_runnable
drop_dep-IsConsistent now p s v = ground arith

-- ===== src/State/Dispatch.antt =====
-- Where queues and builders meet in queue-runner/src/state/queue.rs: `JobConstraint`, which looks for
-- a builder for a job, and `kill_active_steps`, which aborts the steps that no build needs any more.
pub mod Kill
pub mod Resolve
mod Tests
use hydra_queue_runner.Base.{
  ℕ, zero, suc, ◌+◌, ◌-◌, ◌*◌, ◌/◌, ◌%◌, ◌^◌, ◌≤◌, ◌<◌, min, max, compare, Ordering, ◌≡◌, refl, sym,
  ap, subst, ◌∙◌, ◌≡⟨◌⟩◌, ◌∎, ◌≢◌, ◌↔◌, ◌⊎◌, inl, inr, Bool, true, false, not, ◌&&◌, ◌||◌, Option,
  none, some, List, [], ◌∷◌, ◌++◌, map, flat_map, arith, ltb, leb, ◌==◌, if◌then◌else◌, is_some,
  unwrap_or, ltb→lt, ==_iff, Bool-cases, Option-cases, length, length-append, take, drop,
  take-append-drop, length-take, retain, any, all, find, count_if, All, length-retain, All-append,
  In, any-append, some_inj, find-test, All-retain,
}
use hydra_queue_runner.Base.Map
use hydra_queue_runner.Base.Map.{Map}
use hydra_queue_runner.Base.Text.{Text}
use hydra_queue_runner.NixUtils.StorePath.{StorePath}
use hydra_queue_runner.State.Heap.{StepRef, BuildRef, Heap}
use hydra_queue_runner.State.Step.{get_required_features, get_dependents}
use hydra_queue_runner.State.StepInfo.{StepInfo}
use hydra_queue_runner.State.Queue.{InnerQueues, ScheduledItem}
use hydra_queue_runner.State.Queue.Inner.{set_cancelled}
use hydra_queue_runner.State.Machine.{Machine, get_internal_build_id_for_drv, abort_build}
use hydra_queue_runner.State.Machine.Capacity.{Floats32, MachineFreeFn}
use hydra_queue_runner.State.Machine.Registry.{Machines, set_machine, get_machine_for_system}

pub record JobConstraint : Type 0 where
  pub job : ℕ
  pub system : Text
  pub queue_features : List Text

-- `job.step.get_required_features()` of a step that is alive.
unfoldable pub step_features : Heap → StepInfo → List Text
unfolding get_required_features
step_features h i = elim (h.step i.step.addr) [ none ↦ [] | some s ↦ get_required_features s ]

unfoldable pub merged_features : List Text → List Text → List Text
merged_features features [] = features
merged_features features (q ∷ qs) = features ++ (q ∷ qs)

-- The builder and the job; asking for capacity may change the builders.
unfoldable pub resolve :
    Floats32
    → ℕ
    → Heap
    → InnerQueues
    → MachineFreeFn
    → JobConstraint
    → Machines
    → Machines × Option (ℕ × ℕ)
unfolding step_features merged_features get_machine_for_system
resolve fl now h q free c ms =
    let found =
      get_machine_for_system fl now c.system
        (merged_features (step_features h (q.infos c.job)) c.queue_features) (some free) ms in
    (found.0, elim found.1 [ none ↦ none | some m ↦ some (m, c.job) ])

pub record Killed : Type 0 where
  pub queues : InnerQueues
  pub machines : Machines
  pub cancelled_steps : List (StorePath × ℕ)

-- What the loop does with an item whose step has no dependents: the job is marked as cancelled, and
-- the builder is told to abort. `sent` says whether the channel of the builder takes the message.
unfoldable pub cancel_item : (ℕ → Bool) → StorePath → ScheduledItem → Killed → Killed
unfolding set_cancelled abort_build get_internal_build_id_for_drv set_machine
cancel_item sent drv_path item k =
    let marked = set_cancelled item.step_info true k.queues in
    let m = k.machines.machine item.machine in
    elim (get_internal_build_id_for_drv drv_path m) [
      | none ↦ record k { queues = marked }
      | some id ↦ elim (abort_build (sent item.machine) id m) [
        | none ↦ record k { queues = marked }
        | some m' ↦ record k {
          queues = marked;
          machines = set_machine k.machines item.machine m';
          cancelled_steps = k.cancelled_steps ++ (drv_path, m.id) ∷ [];
        }
      ]
    ]

-- The body of the loop; `none` means that the search for dependents ran out of fuel.
unfoldable pub kill_item :
    ℕ → Heap → (ℕ → Bool) → StorePath → ScheduledItem → Killed → Option Killed
unfolding cancel_item get_dependents
kill_item fuel h sent drv_path item k =
    if (k.queues.infos item.step_info).cancelled
    then some k
    else elim (get_dependents fuel h (k.queues.infos item.step_info).step ([], [])) [
      | none ↦ none
      | some found ↦ elim found.0 [ [] ↦ some (cancel_item sent drv_path item k) | _ ∷ _ ↦ some k ]
    ]

unfoldable pub kill_items :
    ℕ → Heap → (ℕ → Bool) → Map StorePath ScheduledItem → Killed → Option Killed
unfolding kill_item
kill_items fuel h sent [] k = some k
kill_items fuel h sent ((drv_path, item) ∷ active) k =
    elim (kill_item fuel h sent drv_path item k) [
      | none ↦ none
      | some k' ↦ kill_items fuel h sent active k'
    ]

-- The loop goes over the items that were scheduled at the start.
unfoldable pub kill_active_steps : ℕ → Heap → (ℕ → Bool) → InnerQueues → Machines → Option Killed
unfolding kill_items
kill_active_steps fuel h sent q ms =
    kill_items fuel h sent q.scheduled (record { queues = q; machines = ms; cancelled_steps = [] })

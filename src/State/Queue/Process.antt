-- ===== src/State/Queue/Process.antt =====
-- `Queues::process` of queue-runner/src/state/queue.rs: one dispatch over the queues. What the
-- processor, `realise_drv_on_valid_machine`, does is an argument: it answers and may change the whole
-- world, since other tasks run while it is awaited.
pub mod Skips
pub mod Held
use hydra_queue_runner.Base.{
  ℕ, zero, suc, ◌+◌, ◌-◌, ◌*◌, ◌/◌, ◌%◌, ◌^◌, ◌≤◌, ◌<◌, min, max, compare, Ordering, ◌≡◌, refl, sym,
  ap, subst, ◌∙◌, ◌≡⟨◌⟩◌, ◌∎, ◌≢◌, ◌↔◌, ◌⊎◌, inl, inr, Bool, true, false, not, ◌&&◌, ◌||◌, Option,
  none, some, List, [], ◌∷◌, ◌++◌, map, flat_map, arith, ltb, leb, ◌==◌, if◌then◌else◌, is_some,
  unwrap_or, ltb→lt, ==_iff, Bool-cases, Option-cases, length, length-append, take, drop,
  take-append-drop, length-take, retain, any, all, find, count_if, All, length-retain, All-append,
  In, any-append, some_inj, find-test, All-retain,
}
use hydra_queue_runner.Base.Map
use hydra_queue_runner.Base.Map.{Map}
use hydra_queue_runner.Base.Text.{Text, text_Eq}
use hydra_queue_runner.NixUtils.StorePath.{StorePath}
use hydra_queue_runner.State.Heap.{StepRef, Step, Heap}
use hydra_queue_runner.State.StepInfo.{StepInfo}
use hydra_queue_runner.State.Queue.{BuildQueue, ScheduledItem, InnerQueues, upgrade, modify_queue}
use hydra_queue_runner.State.Queue.Inner.{
  is_finished, add_job_to_scheduled, remove_job, set_cancelled,
}

pub record World : Type 0 where
  pub heap : Heap
  pub queues : InnerQueues

pub data RealiseStepResult : Type 0 where
  no_machine maybe_cancelled cached_failure : RealiseStepResult
  valid : ℕ → RealiseStepResult

-- The processor gets the job and the system; `none` is an error.
abbrev pub Processor : Type 0
Processor = ℕ → Text → World → World × Option RealiseStepResult

pub record Counts : Type 0 where
  pub nr_disabled : ℕ
  pub nr_waiting : ℕ
  pub nr_steps_waiting_all_queues : ℕ

-- `job.step.get_after()`
unfoldable pub get_after : Heap → StepRef → ℕ
get_after h r = elim (h.step r.addr) [ none ↦ 0 | some s ↦ s.atomic_state.after ]

-- The `match` on what the processor returned, while the job is held.
unfoldable pub handle_result : ℕ → Text → Option RealiseStepResult → World → Counts → World × Counts
handle_result a system none w c = (w, c)
handle_result a system (some (valid m)) w c =
    (record w { queues = add_job_to_scheduled a system m w.queues }, c)
handle_result a system (some no_machine) w c = (
  w,
  record c {
    nr_waiting = suc c.nr_waiting;
    nr_steps_waiting_all_queues = suc c.nr_steps_waiting_all_queues;
  },
)
handle_result a system (some maybe_cancelled) w c =
    (record w { queues = remove_job [] a system w.queues }, c)
handle_result a system (some cached_failure) w c =
    (record w { queues = remove_job [] a system w.queues }, c)

-- `set_nr_runnable_waiting` and `set_nr_runnable_disabled`
unfoldable pub set_counts : Text → Counts → World → World
set_counts system c w = record w {
  queues =
      modify_queue w.queues system λ bq. record bq {
        nr_runnable_waiting = c.nr_waiting;
        nr_runnable_disabled = c.nr_disabled;
      };
}

-- The body of the inner loop: the `continue`s leave before the counters are stored.
unfoldable pub process_job : Processor → ℕ → Text → ℕ → World → Counts → World × Counts
unfolding upgrade is_finished get_after handle_result set_counts
process_job processor now system a w c = elim (upgrade w.queues [] a) [
  | none ↦ (w, c)
  | some job ↦
      if job.already_scheduled
      then (w, c)
      else if is_finished w.heap job.step
      then (w, c)
      else if ltb now (get_after w.heap job.step)
      then (w, record c { nr_disabled = suc c.nr_disabled })
      else (let (w', result) = processor a system w in
          let (w'', c') = handle_result a system result w' c in (set_counts system c' w'', c'))
]

unfoldable pub process_jobs : Processor → ℕ → Text → List ℕ → World → Counts → World × Counts
process_jobs processor now system [] w c = (w, c)
process_jobs processor now system (a ∷ l) w c =
    let (w', c') = process_job processor now system a w c in
    process_jobs processor now system l w' c'

-- `queue.clone_inner()`
unfoldable pub queue_jobs : World → Text → List ℕ
queue_jobs w system = elim (Map.get system w.queues.inner) [ none ↦ [] | some bq ↦ bq.jobs ]

-- The outer loop, over the systems that were read at the start; the jobs of a queue are read when
-- its turn comes.
unfoldable pub process_queues : Processor → ℕ → List Text → World → ℕ → World × ℕ
unfolding process_jobs queue_jobs
process_queues processor now [] w total = (w, total)
process_queues processor now (system ∷ rest) w total =
    let (w', c) =
      process_jobs processor now system (queue_jobs w system) w
        (record { nr_disabled = 0; nr_waiting = 0; nr_steps_waiting_all_queues = total }) in
    process_queues processor now rest w' c.nr_steps_waiting_all_queues

unfoldable pub process : Processor → ℕ → World → World × ℕ
unfolding process_queues
process processor now w =
    process_queues processor now (map (λ (e : Text × BuildQueue). e.0) w.queues.inner) w 0

-- ===== src/State/Runner/Submit.antt =====
-- Two parts of a dispatch in queue-runner/src/state/mod.rs: the first half of `do_dispatch_once`,
-- which submits the runnable steps to the queues, and `abort_unsupported`.
use hydra_queue_runner.State.Runner.{
  ◌>>=◌, ◌>>◌, get, Step, Env, add64, update_step, Text, StorePath, InnerQueues, PromMetrics,
  Runner, Action, pure, modify, ignore_failure, update_metrics,
}
use hydra_queue_runner.Base.Map
use hydra_queue_runner.Base.Map.{Map}
use hydra_queue_runner.Base.{
  ℕ, ◌+◌, ◌-◌, ◌/◌, Bool, true, false, ◌||◌, Option, none, some, List, [], ◌∷◌, ◌++◌, ltb,
  if◌then◌else◌, unwrap_or, length,
}
use hydra_queue_runner.State.Step.{get_system}
use hydra_queue_runner.State.StepInfo.{new_step_info, StepSortFn, StepInfo}
use hydra_queue_runner.State.Queue.Inner.{
  insert_new_jobs, remove_job_by_path, remove_all_weak_pointer,
}
use hydra_queue_runner.State.Steps.{clone_runnable}
use hydra_queue_runner.State.Heap.{Step, Heap, StepRef, BuildRef, insert_step}
use hydra_queue_runner.State.Machine.{new_job, Job}
use hydra_queue_runner.State.Runner.Realise.{choose_build, dependents_of}
use hydra_queue_runner.State.Machine.Registry.{support_step}
use hydra_queue_runner.Base.Words.{add64, Floats}
use hydra_queue_runner.State.Remote.{set_start_and_stop}
use hydra_queue_runner.Base.Text.{Text, text_Eq, codes}
use hydra_queue_runner.NixUtils.StorePath.{StorePath}
use hydra_queue_runner.State.Queue.{InnerQueues}
use hydra_queue_runner.State.Metrics.{PromMetrics}
use hydra_queue_runner.State.Runner.Finish.{update_queues}
use hydra_queue_runner.State.Machine.Capacity.{Floats32}
use hydra_queue_runner.Db.Models.{BuildStatus}
use hydra_queue_runner.State.Runner.Fail.{inner_fail_job}

-- The step and the system under which a dispatch submits it: a step that has been tried before is
-- passed over, since its job is still in a queue.
unfoldable pub submits : Heap → StepRef → Option Text
unfolding get_system
submits h s = elim (h.step s.addr) [
  | none ↦ none
  | some x ↦ elim (get_system x) [
    | none ↦ none
    | some system ↦ if ltb 0 x.atomic_state.tries then none else some system
  ]
]

-- The loop that collects the new jobs by system. `resolved` is what the store resolves a derivation
-- to.
unfoldable pub collect_jobs :
    Floats
    → Heap
    → (StepRef → Option StorePath)
    → List StepRef
    → Map Text (List StepInfo)
    → Map Text (List StepInfo)
unfolding submits new_step_info
collect_jobs fl h resolved [] queues = queues
collect_jobs fl h resolved (s ∷ ss) queues = collect_jobs fl h resolved ss (elim (submits h s) [
  | none ↦ queues
  | some system ↦ elim (new_step_info fl h (resolved s) s) [
    | none ↦ queues
    | some info ↦ Map.insert system (unwrap_or (Map.get system queues) [] ++ info ∷ []) queues
  ]
])

unfoldable pub insert_jobs :
    Floats → Heap → StepSortFn → ℕ → Map Text (List StepInfo) → InnerQueues → InnerQueues
unfolding insert_new_jobs
insert_jobs fl h f now [] q = q
insert_jobs fl h f now ((system, jobs) ∷ rest) q =
    insert_jobs fl h f now rest (insert_new_jobs fl h f system jobs now q)

-- `do_dispatch_once` up to the processing of the queues.
unfoldable pub submit_runnable :
    Env → Floats → StepSortFn → (StepRef → Option StorePath) → Runner → Runner
unfolding clone_runnable collect_jobs insert_jobs remove_all_weak_pointer
submit_runnable env fl f resolved r =
    let (steps, runnable) = clone_runnable r.steps in
    let q =
      insert_jobs fl steps.heap f env.now (collect_jobs fl steps.heap resolved runnable [])
        r.queues in
    record r { steps = steps; queues = remove_all_weak_pointer [] q }

unfoldable pub set_last_supported : ℕ → Step → Step
set_last_supported now s = record s {
  atomic_state = record s.atomic_state { last_supported = now };
}

-- `Job` of an aborted step.
unfoldable pub unsupported_job : Env → BuildRef → StepRef → Option Text → Job
unfolding new_job set_start_and_stop
unsupported_job env b step system =
    let job = new_job env.new_uuid b.id step.drv_path none in
    record job {
      result = record (set_start_and_stop env.now job.result) {
        step_status = BuildStatus.unsupported;
        error_msg = some (codes "unsupported system type '" ++ (unwrap_or system [] ++ codes "'"));
      };
    }

-- The end of the loop's body for a step that is aborted.
unfoldable pub abort_step : Env → StepRef → Option Text → Action (Unit {0})
unfolding choose_build unsupported_job
abort_step env step system = do
  dependents ← dependents_of env step
  elim (choose_build step.drv_path dependents) [
    | none ↦ pure tt
    | some b ↦ ignore_failure (inner_fail_job env none (unsupported_job env b step system) step)
  ]

-- `limit` is `max_unsupported_time` in nanoseconds.
unfoldable pub is_recent : Env → ℕ → Step → Bool
is_recent env limit s =
    ltb env.now s.atomic_state.last_supported || ltb (env.now - s.atomic_state.last_supported) limit

-- The loop of `abort_unsupported`: the aborted steps and the number of unsupported ones.
unfoldable pub abort_each :
    Env → Floats32 → ℕ → List StepRef → List StepRef → ℕ → Action (List StepRef × ℕ)
unfolding support_step is_recent set_last_supported update_step insert_step get_system
abort_each env fl limit [] aborted count = pure (aborted, count)
abort_each env fl limit (s ∷ ss) aborted count = do
  r ← get
  elim (r.steps.heap.step s.addr) [
    | none ↦ abort_each env fl limit ss aborted count
    | some x ↦ elim (support_step fl (env.now / 1000000000) x r.machines) [
      | true ↦ do
        modify (update_step s (set_last_supported env.now))
        abort_each env fl limit ss aborted count
      | false ↦ elim (is_recent env limit x) [
        | true ↦ abort_each env fl limit ss aborted (count + 1)
        | false ↦ do
          abort_step env s (get_system x)
          abort_each env fl limit ss (insert_step s aborted) (count + 1)
      ]
    ]
  ]

unfoldable pub remove_jobs : List StepRef → InnerQueues → InnerQueues
unfolding remove_job_by_path
remove_jobs [] q = q
remove_jobs (s ∷ ss) q = remove_jobs ss (remove_job_by_path s.drv_path q)

unfoldable pub count_aborted : List StepRef → ℕ → PromMetrics → PromMetrics
unfolding add64
count_aborted aborted count m = record m {
  nr_unsupported_steps = count;
  nr_unsupported_steps_aborted = add64 m.nr_unsupported_steps_aborted (length aborted);
}

unfoldable pub abort_unsupported : Env → Floats32 → ℕ → Action (Unit {0})
unfolding clone_runnable abort_each remove_jobs remove_all_weak_pointer update_queues
abort_unsupported env fl limit = do
  r ← get
  let runnable = clone_runnable r.steps
  modify (λ s. record s { steps = runnable.0 })
  found ← abort_each env fl limit runnable.1 [] 0
  modify (update_queues λ q. remove_all_weak_pointer [] (remove_jobs found.0 q))
  modify (update_metrics (count_aborted found.0 found.1))

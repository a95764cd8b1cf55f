-- ===== src/State/Runner/Fail.antt =====
-- `fail_step`, `inner_fail_job` and what they call in queue-runner/src/state/mod.rs.
use hydra_queue_runner.State.Machine.Counters
use hydra_queue_runner.State.Machine.Counters.{BuildTimings, timings_overhead}
use hydra_queue_runner.State.Metrics
use hydra_queue_runner.State.Queue.Inner
use hydra_queue_runner.State.Runner.{
  ◌>>=◌, ◌>>◌, ok, Runner, execute, Env, execute_all, begin_transaction, update_machine, Step,
  add64, update_step, Text, build_done, commit, trigger_dispatch, update_metrics, Steps, Action,
  InsertBuildStep, Statement, out_of_fuel, pure, get, modify, or_fail, number_too_big, no_fuel,
}
use hydra_queue_runner.Base.{
  ℕ, zero, suc, ◌+◌, ◌*◌, ◌/◌, ◌%◌, Bool, true, false, not, ◌&&◌, ◌||◌, Option, none, some, List,
  [], ◌∷◌, ◌++◌, map, ltb, ◌==◌, if◌then◌else◌, unwrap_or,
}
use hydra_queue_runner.State.Steps.{remove, Steps}
use hydra_queue_runner.State.Step.{get_dependents, get_system, get_outputs}
use hydra_queue_runner.NixUtils.StorePath.{print_store_path, path_eq, StorePath}
use hydra_queue_runner.Db.Models.{status_eq, BuildStatus}
use hydra_queue_runner.State.Heap.{BuildRef, Step, StepRef, Build}
use hydra_queue_runner.State.Runner.Finish.{
  close_builds, finish_build_step, step_of, update_queues, take_job, machine_name, each_build,
}
use hydra_queue_runner.State.Remote.{
  set_stop_time_now, set_overhead, get_total_step_time_ms, get_start_time_as_i32,
  update_with_result_state, get_stop_time_as_i32, BuildResultState, RemoteBuild,
}
use hydra_queue_runner.Base.Words.{add64, two_32, key64}
use hydra_queue_runner.NixUtils.Derivation.{Output}
use hydra_queue_runner.Base.Text.{Text}
use hydra_queue_runner.State.Machine.{Job}
use hydra_queue_runner.State.Queue.{ScheduledItem}
use hydra_queue_runner.State.Metrics.{PromMetrics}
use hydra_queue_runner.State.Statement.{
  InsertBuildStep, Statement, insert_failed_paths, notify_build_finished, create_build_step,
  update_build_after_failure,
}

-- The loop over the steps that refer to a step without builds.
unfoldable pub remove_steps : List StepRef → Steps → Steps
unfolding remove
remove_steps [] st = st
remove_steps (s ∷ ss) st = remove_steps ss (remove s.drv_path st)

unfoldable pub get_all_indirect_builds : Env → StepRef → Action (List BuildRef)
unfolding get_dependents remove_steps
get_all_indirect_builds env step r = elim (get_dependents env.search r.steps.heap step ([], [])) [
  | none ↦ out_of_fuel
  | some ([], steps) ↦ ok [] (record r { steps = remove_steps steps r.steps })
  | some (b ∷ bs, steps) ↦ ok (b ∷ bs) r
]

-- The derivation and the outputs of a step, as a row of a build step shows them.
unfoldable pub step_system : Runner → StepRef → Option Text
unfolding get_system
step_system r s = elim (r.steps.heap.step s.addr) [ none ↦ none | some x ↦ get_system x ]

unfoldable pub step_outputs : Runner → StepRef → List Output
unfolding get_outputs
step_outputs r s = elim (r.steps.heap.step s.addr) [
  | none ↦ []
  | some x ↦ unwrap_or (get_outputs x) []
]

unfoldable pub shown_output : Env → Output → Text × Option Text
unfolding print_store_path
shown_output env o =
    (o.name, elim o.path [ none ↦ none | some p ↦ some (print_store_path env.store_prefix p) ])

unfoldable pub is_unfinished : Runner → BuildRef → Bool
is_unfinished r b = elim (r.steps.heap.build b.addr) [
  | none ↦ false
  | some x ↦ not x.finished_in_db
]

-- The condition under which the loop of `inner_fail_job` writes no step for a build.
unfoldable pub skips_step : Job → StepRef → BuildRef → Bool
unfolding status_eq path_eq
skips_step job step b =
    status_eq job.result.step_status BuildStatus.cached_failure && path_eq b.drv_path step.drv_path
    || (not (status_eq job.result.step_status BuildStatus.cached_failure)
        && not (status_eq job.result.step_status BuildStatus.unsupported)
        && job.build_id == b.id)

unfoldable pub failed_step_row :
    Env → Runner → Option Text → Job → StepRef → BuildRef → InsertBuildStep
unfolding step_system step_outputs shown_output print_store_path
failed_step_row env r machine job step b = record {
  start_time = none;
  build_id = b.id;
  drv_path = print_store_path env.store_prefix step.drv_path;
  system = step_system r step;
  machine = unwrap_or machine [];
  status = job.result.step_status;
  error_msg = job.result.error_msg;
  propagated_from = if job.build_id == b.id then none else some job.build_id;
  outputs = map (shown_output env) (step_outputs r step);
}

unfoldable pub create_failed_steps :
    Env → Option Text → Job → StepRef → List BuildRef → Action (Unit {0})
create_failed_steps env machine job step [] = pure tt
create_failed_steps env machine job step (b ∷ bs) = do
  r ← get
  if skips_step job step b || not (is_unfinished r b)
      then pure tt
      else execute env (create_build_step (failed_step_row env r machine job step b))
  create_failed_steps env machine job step bs

-- The status of a build that needs the failed step.
unfoldable pub failed_status : Job → StepRef → Build → BuildStatus
unfolding status_eq path_eq
failed_status job step b =
    if not (path_eq b.drv_path step.drv_path) && status_eq job.result.step_status BuildStatus.failed
    then BuildStatus.dep_failed
    else job.result.step_status

unfoldable pub mark_build_failed : Env → Job → StepRef → Build → Action (Unit {0})
mark_build_failed env job step b = do
  start_time ← or_fail number_too_big (get_start_time_as_i32 job.result)
  stop_time ← or_fail number_too_big (get_stop_time_as_i32 job.result)
  execute env (
      update_build_after_failure b.id (failed_status job step b) start_time stop_time
        (status_eq job.result.step_status BuildStatus.cached_failure))
  modify build_done

unfoldable pub mark_failed : Env → Job → StepRef → Build → Action (Unit {0})
unfolding mark_build_failed
mark_failed env job step b = if b.finished_in_db then pure tt else mark_build_failed env job step b

unfoldable pub failed_paths : Env → List Output → List Statement
unfolding print_store_path
failed_paths env [] = []
failed_paths env (o ∷ os) =
    let rest = failed_paths env os in
    elim o.path [
      | none ↦ rest
      | some p ↦ insert_failed_paths (print_store_path env.store_prefix p) ∷ rest
    ]

unfoldable pub remember_failed_paths : Env → Job → StepRef → Action (Unit {0})
remember_failed_paths env job step = do
  r ← get
  if not (status_eq job.result.step_status BuildStatus.cached_failure) && job.result.can_cache
      then execute_all env (failed_paths env (step_outputs r step))
      else pure tt

-- The transaction in the loop of `inner_fail_job`.
unfoldable pub fail_builds : Env → Option Text → Job → StepRef → List BuildRef → Action (Unit {0})
fail_builds env machine job step indirect = do
  begin_transaction env
  create_failed_steps env machine job step indirect
  each_build (mark_failed env job step) indirect
  remember_failed_paths env job step
  commit env

unfoldable pub is_done : List BuildRef → Bool → Bool
is_done [] step_finished = step_finished
is_done (_ ∷ _) step_finished = false

-- The loop of `inner_fail_job`, on fuel: it returns the ids of the builds that have failed.
unfoldable pub fail_rounds : ℕ → Env → Option Text → Job → StepRef → Bool → List ℕ → Action (List ℕ)
fail_rounds zero env machine job step step_finished ids = no_fuel
fail_rounds (suc n) env machine job step step_finished ids = do
  indirect ← get_all_indirect_builds env step
  elim (is_done indirect step_finished) [
    | true ↦ pure ids
    | false ↦ do
      fail_builds env machine job step indirect
      modify (close_builds indirect)
      fail_rounds n env machine job step true (ids ++ map (λ (b : BuildRef). b.id) indirect)
  ]

unfoldable pub with_stop_time : Env → Job → Job
unfolding set_stop_time_now
with_stop_time env job = elim job.result.stop_time [
  | none ↦ record job { result = set_stop_time_now env.now job.result }
  | some _ ↦ job
]

unfoldable pub notify_failed : Env → Job → List ℕ → Action (Unit {0})
notify_failed env job ids = do
  begin_transaction env
  execute env (notify_build_finished job.build_id ids)
  commit env

-- `inner_fail_job`; the builder is only asked for its name.
unfoldable pub inner_fail_job : Env → Option Text → Job → StepRef → Action (Unit {0})
inner_fail_job env machine job0 step = do
  let job = with_stop_time env job0
  if job.step_nr == 0
      then pure tt
      else finish_build_step env job.build_id job.step_nr job.result machine
  ids ← fail_rounds env.rounds env machine job step false []
  notify_failed env job ids
  modify trigger_dispatch

unfoldable pub count_failure : Env → BuildTimings → ℕ → ScheduledItem → Runner → Runner
unfolding Counters.track_build_failure Metrics.track_build_failure update_machine update_metrics
count_failure env timings total item r =
    let m = r.machines.machine item.machine in
    update_metrics (Metrics.track_build_failure timings total) (
      update_machine item.machine
        (record m {
          stats = Counters.track_build_failure (env.now / 1000000000) timings total m.stats;
        })
        r)

-- What `fail_step` writes into the result of the job.
unfoldable pub failure_result : Env → BuildResultState → BuildTimings → Job → Option RemoteBuild
unfolding set_stop_time_now set_overhead timings_overhead update_with_result_state
failure_result env state timings job = set_overhead (timings_overhead timings) (
    set_stop_time_now env.now
      (update_with_result_state state (record job.result { step_status = BuildStatus.failed })))

unfoldable pub incr_tries : Step → Step
incr_tries s = record s {
  atomic_state = record s.atomic_state { tries = (s.atomic_state.tries + 1) % two_32 };
}

unfoldable pub set_after : ℕ → Step → Step
set_after t s = record s { atomic_state = record s.atomic_state { after = t } }

unfoldable pub tries_of : ScheduledItem → Runner → ℕ
unfolding step_of
tries_of item r = elim (r.steps.heap.step (step_of item r).addr) [
  | none ↦ 0
  | some s ↦ s.atomic_state.tries
]

unfoldable pub count_retry : ℕ → PromMetrics → PromMetrics
unfolding add64 key64
count_retry tries m = record m {
  nr_retries = add64 m.nr_retries 1;
  max_nr_retries = if ltb (key64 m.max_nr_retries) (key64 tries) then tries else m.max_nr_retries;
}

-- A try that is not the last: the job may be taken again after a while.
unfoldable pub retry_later : Env → ScheduledItem → ℕ → Runner → Runner
unfolding update_step set_after step_of update_metrics count_retry update_queues
    Inner.set_already_scheduled
retry_later env item tries r = update_queues (Inner.set_already_scheduled item.step_info false) (
    update_metrics (count_retry tries)
      (update_step (step_of item r) (set_after (env.now + env.retry_delta tries * 1000000000)) r))

-- The end of `fail_step`, when the step is not tried again.
unfoldable pub give_up : Env → ScheduledItem → Job → Action (Unit {0})
give_up env item job = do
  modify (update_queues (Inner.remove_job [] item.step_info item.build_queue))
  r ← get
  inner_fail_job env (machine_name item r) job (step_of item r)

unfoldable pub add_try : ScheduledItem → Runner → Runner
unfolding update_step step_of incr_tries
add_try item r = update_step (step_of item r) incr_tries r

unfoldable pub retry_or_give_up : Env → ScheduledItem → Job → Action (Unit {0})
retry_or_give_up env item job = elim job.result.can_retry [
  | false ↦ give_up env item job
  | true ↦ do
    modify (add_try item)
    r ← get
    elim (ltb (tries_of item r) env.max_retries) [
      | false ↦ give_up env item job
      | true ↦ do
        modify (retry_later env item (tries_of item r))
        finish_build_step env job.build_id job.step_nr job.result (machine_name item r)
        modify trigger_dispatch
    ]
]

unfoldable pub fail_step : Env → StorePath → BuildResultState → BuildTimings → Action (Unit {0})
fail_step env drv state timings = do
  taken ← take_job env false drv
  res ← or_fail number_too_big (failure_result env state timings taken.1)
  let job : Job = record taken.1 { result = res }
  modify (count_failure env timings (get_total_step_time_ms res) taken.0)
  retry_or_give_up env taken.0 job

-- ===== src/State/Runner/Finish.antt =====
-- `finish_build_step` of queue-runner/src/utils.rs and `succeed_step` of
-- queue-runner/src/state/mod.rs.
use hydra_queue_runner.State.Machine.Counters
use hydra_queue_runner.State.Machine.Counters.{BuildTimings, timings_overhead}
use hydra_queue_runner.State.Metrics
use hydra_queue_runner.State.Queue.Inner
use hydra_queue_runner.State.Machine.{remove_job}
use hydra_queue_runner.State.Runner.{
  ◌>>=◌, ◌>>◌, ok, err, get, or_fail, modify, db_error, number_too_big, nix_error,
}
use hydra_queue_runner.Base.{
  ℕ, ◌/◌, Bool, true, not, ◌&&◌, ◌||◌, Option, none, some, List, [], ◌∷◌, ◌++◌, map, ◌==◌,
  if◌then◌else◌, length,
}
use hydra_queue_runner.State.Queue.{InnerQueues, ScheduledItem}
use hydra_queue_runner.NixUtils.StorePath.{print_store_path, new_store_path, StorePath}
use hydra_queue_runner.State.Runner.{
  execute_all, begin_transaction, update_step, Env, execute, Runner, commit, build_done, Statement,
  Action, update_machine, set_heap, Text, pure, step_not_scheduled, job_not_on_machine,
  update_metrics, trigger_dispatch,
}
use hydra_queue_runner.State.Queue.Inner.{remove_job_from_scheduled}
use hydra_queue_runner.State.Heap.{Step, modify_build, BuildRef, StepRef, Build}
use hydra_queue_runner.State.Step.{get_direct_builds, make_rdeps_runnable}
use hydra_queue_runner.State.Steps.{remove}
use hydra_queue_runner.State.Remote.{
  set_stop_time_now, set_overhead, get_start_time_as_i32, get_total_step_time_ms,
  get_stop_time_as_i32, RemoteBuild, get_overhead, get_times_built, get_is_non_deterministic,
}
use hydra_queue_runner.NixUtils.Derivation.{Output}
use hydra_queue_runner.State.Output.{BuildOutput, get_mark_build_success_data}
use hydra_queue_runner.State.Build.{set_finished_in_db, remove_by_id}
use hydra_queue_runner.State.Statement.{
  Statement, update_build_step_output, notify_build_finished, mark_succeeded_build,
  update_build_step_in_finish, notify_step_finished,
}
use hydra_queue_runner.State.Machine.{Job}
use hydra_queue_runner.Base.Text.{Text, codes}
use hydra_queue_runner.Db.Models.{status_eq, BuildStatus}

-- A field of the queues of the runner.
unfoldable pub update_queues : (InnerQueues → InnerQueues) → Runner → Runner
update_queues f r = record r { queues = f r.queues }

-- The outputs of a derivation that have a path, as rows of a build step.
unfoldable pub output_statements : Env → ℕ → ℕ → List Output → List Statement
unfolding print_store_path
output_statements env build_id step_nr [] = []
output_statements env build_id step_nr (o ∷ os) =
    let rest = output_statements env build_id step_nr os in
    elim o.path [
      | none ↦ rest
      | some p ↦
          update_build_step_output build_id step_nr o.name (print_store_path env.store_prefix p)
          ∷ rest
    ]

-- The part of `finish_build_step` for a step that succeeded.
unfoldable pub write_outputs : Env → ℕ → ℕ → Action (Unit {0})
write_outputs env build_id step_nr = do
  r ← get
  path ← or_fail db_error (env.drv_path_of_step (r.db ++ r.tx) build_id step_nr)
  elim path [
    | none ↦ pure tt
    | some p ↦ do
      drv ← or_fail nix_error (env.query_drv (new_store_path env.store_dir p))
      elim drv [
        | none ↦ pure tt
        | some d ↦ execute_all env (output_statements env build_id step_nr d.outputs)
      ]
  ]

unfoldable pub finish_build_step : Env → ℕ → ℕ → RemoteBuild → Option Text → Action (Unit {0})
finish_build_step env build_id step_nr res machine = do
  begin_transaction env
  start_time ← or_fail number_too_big (get_start_time_as_i32 res)
  stop_time ← or_fail number_too_big (get_stop_time_as_i32 res)
  execute env (
      update_build_step_in_finish (record {
        build_id = build_id;
        step_nr = step_nr;
        status = res.step_status;
        error_msg = res.error_msg;
        start_time = start_time;
        stop_time = stop_time;
        machine = machine;
        overhead = get_overhead res;
        times_built = get_times_built res;
        is_non_deterministic = get_is_non_deterministic res;
      }))
  execute env (notify_step_finished build_id step_nr res.log_file)
  if status_eq res.step_status BuildStatus.success
      then write_outputs env build_id step_nr
      else pure tt
  commit env

-- The first part of `succeed_step` and `fail_step`: the job leaves the list of scheduled jobs, its
-- step is marked, and the job leaves its builder.
unfoldable pub take_scheduled : StorePath → Action ScheduledItem
unfolding remove_job_from_scheduled
take_scheduled drv r =
    let (q, found) = remove_job_from_scheduled drv r.queues in
    elim found [
      | none ↦ err step_not_scheduled (record r { queues = q })
      | some item ↦ ok item (record r { queues = q })
    ]

unfoldable pub take_from_machine : Env → StorePath → ScheduledItem → Action Job
unfolding remove_job update_machine
take_from_machine env drv item r =
    let (m, found) = remove_job (env.now / 1000000000) drv (r.machines.machine item.machine) in
    elim found [
      | none ↦ err job_not_on_machine (update_machine item.machine m r)
      | some job ↦ ok job (update_machine item.machine m r)
    ]

unfoldable pub set_finished : Bool → Step → Step
set_finished v s = record s { finished = v }

-- The step of a scheduled job.
unfoldable pub step_of : ScheduledItem → Runner → StepRef
step_of item r = (r.queues.infos item.step_info).step

unfoldable pub mark_step : Bool → ScheduledItem → Runner → Runner
unfolding update_step step_of set_finished
mark_step v item r = update_step (step_of item r) (set_finished v) r

unfoldable pub take_job : Env → Bool → StorePath → Action (ScheduledItem × Job)
take_job env finished drv = do
  item ← take_scheduled drv
  modify (mark_step finished item)
  job ← take_from_machine env drv item
  pure (item, job)

unfoldable pub count_success : Env → BuildTimings → ℕ → ScheduledItem → Runner → Runner
unfolding Counters.track_build_success Metrics.track_build_success update_machine update_metrics
count_success env timings total item r =
    let m = r.machines.machine item.machine in
    update_metrics (Metrics.track_build_success timings total) (
      update_machine item.machine
        (record m { stats = Counters.track_build_success timings total m.stats }) r)

-- The outputs are uploaded by the runner, unless the builders do it.
unfoldable pub upload_outputs : Env → BuildOutput → Job → Runner → Runner
upload_outputs env output job r =
    if not (length r.remote_stores == 0) && not env.use_presigned_uploads
    then record r {
      uploads =
          r.uploads
          ++ record {
            store_paths = map (λ (e : Text × StorePath). e.1) output.outputs;
            log_remote_path = codes "log/" ++ job.path.base_name;
            log_local_path = job.result.log_file;
          }
            ∷ [];
    }
    else r

unfoldable pub direct_of : ScheduledItem → Runner → List BuildRef
unfolding step_of get_direct_builds
direct_of item r = elim (r.steps.heap.step (step_of item r).addr) [
  | none ↦ []
  | some s ↦ get_direct_builds r.steps.heap s
]

unfoldable pub forget_step : StepRef → List BuildRef → Runner → Runner
unfolding remove
forget_step s [] r = record r { steps = remove s.drv_path r.steps }
forget_step s (_ ∷ _) r = r

-- A loop over references to builds, and its body.
unfoldable pub at_build : (Build → Action (Unit {0})) → BuildRef → Action (Unit {0})
at_build f b r = elim (r.steps.heap.build b.addr) [ none ↦ ok tt r | some x ↦ f x r ]

unfoldable pub each_build : (Build → Action (Unit {0})) → List BuildRef → Action (Unit {0})
each_build f [] = pure tt
each_build f (b ∷ bs) = do at_build f b; each_build f bs

unfoldable pub mark_build_succeeded : Env → BuildOutput → Job → ℕ → ℕ → Build → Action (Unit {0})
mark_build_succeeded env output job start_time stop_time b = do
  execute env (
      mark_succeeded_build (get_mark_build_success_data env.store_prefix b output)
        (not (job.build_id == b.id) || job.result.is_cached) start_time stop_time)
  modify build_done

-- The loops that mark builds as finished and take them out of `builds`.
unfoldable pub close_build : BuildRef → Runner → Runner
unfolding modify_build set_finished_in_db set_heap remove_by_id
close_build b r =
    let r' = set_heap (modify_build r.steps.heap b (set_finished_in_db true)) r in
    record r' { builds = remove_by_id b.id r'.builds }

unfoldable pub close_builds : List BuildRef → Runner → Runner
unfolding close_build
close_builds [] r = r
close_builds (b ∷ bs) r = close_builds bs (close_build b r)

unfoldable pub notify_builds : List BuildRef → List Statement
notify_builds bs = map (λ b. notify_build_finished b.id []) bs

-- The second half of `succeed_step`, from the look at the direct builds on.
unfoldable pub finish_direct :
    Env → BuildOutput → ScheduledItem → Job → List BuildRef → Action (Unit {0})
finish_direct env output item job direct = do
  modify (λ r. forget_step (step_of item r) direct r)
  begin_transaction env
  start_time ← or_fail number_too_big (get_start_time_as_i32 job.result)
  stop_time ← or_fail number_too_big (get_stop_time_as_i32 job.result)
  each_build (mark_build_succeeded env output job start_time stop_time) direct
  commit env
  modify (close_builds direct)
  begin_transaction env
  execute_all env (notify_builds direct)
  commit env
  modify (λ r. set_heap (make_rdeps_runnable env.now r.steps.heap (step_of item r)) r)
  modify trigger_dispatch

unfoldable pub machine_name : ScheduledItem → Runner → Option Text
machine_name item r = some (r.machines.machine item.machine).join.hostname

-- What `succeed_step` writes into the result of the job.
unfoldable pub success_result : Env → BuildOutput → Job → Option RemoteBuild
unfolding set_stop_time_now set_overhead timings_overhead
success_result env output job =
    set_overhead (timings_overhead output.timings)
      (set_stop_time_now env.now (record job.result { step_status = BuildStatus.success }))

unfoldable pub succeed_step : Env → StorePath → BuildOutput → Action (Unit {0})
succeed_step env drv output = do
  taken ← take_job env true drv
  let item = taken.0
  modify (update_queues (Inner.remove_job [] item.step_info item.build_queue))
  res ← or_fail number_too_big (success_result env output taken.1)
  let job : Job = record taken.1 { result = res }
  modify (count_success env output.timings (get_total_step_time_ms res) item)
  r ← get
  finish_build_step env job.build_id job.step_nr res (machine_name item r)
  modify (upload_outputs env output job)
  r' ← get
  finish_direct env output item job (direct_of item r')

-- ===== src/State/Runner/Realise.antt =====
-- `realise_drv_on_valid_machine` and `construct_log_file_path` of queue-runner/src/state/mod.rs: a
-- job is sent to a builder.
use hydra_queue_runner.State.Runner.{
  ◌>>=◌, ◌>>◌, ok, err, out_of_fuel, get, Env, Heap, add64, update_machine, Text, Action, Runner,
  PromMetrics, begin_transaction, or_fail, execute, channel_closed, pure, InsertBuildStep,
  number_too_big, bad_log_path, run_statement, commit, modify, update_metrics,
}
use hydra_queue_runner.State.Machine.{build_drv, new_job, Job, BuildOptions}
use hydra_queue_runner.Base.{
  ℕ, ◌/◌, Bool, true, false, ◌||◌, Option, none, some, List, [], ◌∷◌, ◌++◌, map, leb, ◌==◌,
  if◌then◌else◌, unwrap_or, length, take, drop, find,
}
use hydra_queue_runner.NixUtils.StorePath.{ends_with, path_eq, StorePath, print_store_path}
use hydra_queue_runner.State.Build.{max_i32}
use hydra_queue_runner.State.Heap.{Heap, Build, BuildRef, StepRef}
use hydra_queue_runner.State.Runner.Fail.{step_system, step_outputs, shown_output, inner_fail_job}
use hydra_queue_runner.Base.Words.{add64}
use hydra_queue_runner.State.Runner.Cached.{check_cached_failure}
use hydra_queue_runner.State.Step.{get_dependents}
use hydra_queue_runner.State.Dispatch.{resolve, JobConstraint}
use hydra_queue_runner.Base.Text.{Text}
use hydra_queue_runner.State.Remote.{set_start_time_now, get_start_time_as_i32}
use hydra_queue_runner.State.Metrics.{PromMetrics}
use hydra_queue_runner.State.StepInfo.{StepInfo}
use hydra_queue_runner.State.Machine.Capacity.{Floats32, MachineFreeFn}
use hydra_queue_runner.State.Queue.Process.{RealiseStepResult}
use hydra_queue_runner.State.Statement.{
  InsertBuildStep, notify_build_started, create_build_step, update_build_step, StepStatus,
}
use hydra_queue_runner.Db.Models.{BuildStatus}

-- `PathBuf::push` of a relative path.
unfoldable pub push_path : Text → Text → Text
unfolding ends_with
push_path dir p = if ends_with b'/' dir || length dir == 0 then dir ++ p else dir ++ (b'/' ∷ p)

-- A name of fewer than two bytes panics: `none`.
unfoldable pub construct_log_file_path : Env → StorePath → Option Text
unfolding push_path
construct_log_file_path env drv =
    if leb 2 (length drv.base_name)
    then some (
        push_path (push_path env.log_dir (take 2 drv.base_name ++ b'/' ∷ []))
          (drop 2 drv.base_name))
    else none

-- The build that stands for the step: one that has it as its top level, or else the first.
unfoldable pub choose_build : StorePath → List BuildRef → Option BuildRef
unfolding path_eq
choose_build drv [] = none
choose_build drv (b ∷ bs) = some (unwrap_or (find (λ c. path_eq c.drv_path drv) (b ∷ bs)) b)

-- The largest value of a field of the live builds, if there is one.
unfoldable pub biggest : Heap → (Build → ℕ) → List BuildRef → Option ℕ
unfolding max_i32
biggest h f [] = none
biggest h f (b ∷ bs) =
    let rest = biggest h f bs in
    elim (h.build b.addr) [
      | none ↦ rest
      | some x ↦ elim rest [ none ↦ some (f x) | some v ↦ some (max_i32 (f x) v) ]
    ]

-- `BuildOptions::new(None)` with the largest limits of the builds that need the step.
unfoldable pub options_of : Heap → List BuildRef → BuildOptions
unfolding biggest
options_of h dependents = record {
  max_log_size = 67108864;
  max_silent_time = unwrap_or (biggest h (λ x. x.max_silent_time) dependents) 0;
  build_timeout = unwrap_or (biggest h (λ x. x.timeout) dependents) 0;
}

-- A job with its start time.
unfoldable pub started_job : Env → ℕ → StorePath → Option StorePath → Job
unfolding new_job set_start_time_now
started_job env build_id drv resolved =
    let job = new_job env.new_uuid build_id drv resolved in
    record job { result = set_start_time_now env.now job.result }

unfoldable pub busy_row : Env → Runner → Text → Job → StepRef → ℕ → InsertBuildStep
unfolding step_system step_outputs shown_output print_store_path
busy_row env r hostname job step start_time = record {
  start_time = some start_time;
  build_id = job.build_id;
  drv_path = print_store_path env.store_prefix step.drv_path;
  system = step_system r step;
  machine = hostname;
  status = BuildStatus.busy;
  error_msg = none;
  propagated_from = none;
  outputs = map (shown_output env) (step_outputs r step);
}

-- The transaction that draws the number of the new build step.
unfoldable pub create_busy_step : Env → Text → Job → StepRef → Action ℕ
create_busy_step env hostname job step = do
  begin_transaction env
  start_time ← or_fail number_too_big (get_start_time_as_i32 job.result)
  r ← get
  let row = busy_row env r hostname job step start_time
  execute env (create_build_step row)
  commit env
  pure (env.next_step_nr r.db row)

unfoldable pub notify_started : Env → ℕ → Action (Unit {0})
notify_started env build_id = do
  begin_transaction env
  execute env (notify_build_started build_id)
  commit env

unfoldable pub presigned_opts : Env → Runner → Option Bool
presigned_opts env r =
    if env.use_presigned_uploads
    then elim r.remote_stores [ [] ↦ none | _ ∷ _ ↦ some env.write_debug_info ]
    else none

unfoldable pub count_started : PromMetrics → PromMetrics
unfolding add64
count_started m = record m {
  nr_steps_started = add64 m.nr_steps_started 1;
  nr_steps_building = add64 m.nr_steps_building 1;
}

-- The message to the builder; `sent` says whether its channel takes it.
unfoldable pub send_job : Env → Bool → ℕ → Job → BuildOptions → Action (Unit {0})
unfolding build_drv presigned_opts update_machine
send_job env sent a job options r =
    elim (build_drv sent (env.now / 1000000000) job options (presigned_opts env r)
      (r.machines.machine a)) [
        | none ↦ err channel_closed r
        | some m ↦ ok tt (update_machine a m r)
      ]

-- The job is recorded as a build step and sent to the builder.
unfoldable pub start_on : Env → Bool → ℕ → Job → StepRef → BuildOptions → Action RealiseStepResult
start_on env sent a job0 step options = do
  log ← or_fail bad_log_path (construct_log_file_path env step.drv_path)
  let job1 : Job = record job0 { result = record job0.result { log_file = log } }
  r ← get
  step_nr ← create_busy_step env (r.machines.machine a).join.hostname job1 step
  let job : Job = record job1 { step_nr = step_nr }
  notify_started env job.build_id
  run_statement env (update_build_step job.build_id step_nr StepStatus.connecting)
  send_job env sent a job options
  modify (update_metrics count_started)
  pure (RealiseStepResult.valid a)

-- What follows once a builder and a build are found: a step that has failed before is failed again.
unfoldable pub realise_for :
    Env → Bool → ℕ → StepInfo → BuildRef → BuildOptions → Action RealiseStepResult
unfolding check_cached_failure started_job
realise_for env sent a info b options = do
  r ← get
  let job = started_job env b.id info.step.drv_path info.resolved_drv_path
  elim (check_cached_failure env info.step r) [
    | true ↦ do
      inner_fail_job env none
          (record job { result = record job.result { step_status = BuildStatus.cached_failure } })
          info.step
      pure RealiseStepResult.cached_failure
    | false ↦ start_on env sent a job info.step options
  ]

-- The builds that need the step.
unfoldable pub dependents_of : Env → StepRef → Action (List BuildRef)
unfolding get_dependents
dependents_of env step r = elim (get_dependents env.search r.steps.heap step ([], [])) [
  | none ↦ out_of_fuel
  | some found ↦ ok found.0 r
]

unfoldable pub realise_on : Env → (ℕ → Bool) → ℕ → StepInfo → Action RealiseStepResult
unfolding options_of choose_build
realise_on env sent a info = do
  dependents ← dependents_of env info.step
  r ← get
  elim (choose_build info.step.drv_path dependents) [
    | none ↦ pure RealiseStepResult.maybe_cancelled
    | some b ↦ realise_for env (sent a) a info b (options_of r.steps.heap dependents)
  ]

unfoldable pub resolve_job :
    Env → Floats32 → MachineFreeFn → JobConstraint → Action (Option (ℕ × ℕ))
unfolding resolve
resolve_job env fl free c r =
    let found = resolve fl (env.now / 1000000000) r.steps.heap r.queues free c r.machines in
    ok found.1 (record r { machines = found.0 })

unfoldable pub realise_drv_on_valid_machine :
    Env → Floats32 → MachineFreeFn → (ℕ → Bool) → JobConstraint → Action RealiseStepResult
unfolding resolve_job
realise_drv_on_valid_machine env fl free sent c = do
  found ← resolve_job env fl free c
  r ← get
  elim found [
    | none ↦ pure RealiseStepResult.no_machine
    | some (a, job) ↦ realise_on env sent a (r.queues.infos job)
  ]

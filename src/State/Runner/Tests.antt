-- ===== src/State/Runner/Tests.antt =====
-- The runner: the theorems at a state with one job, which is scheduled on one builder for one build.
use hydra_queue_runner.State.Runner.{Text, StorePath, StepRef, Step, Heap, PromMetrics, Runner, Env}
use hydra_queue_runner.Base.{
  ◌*◌, ◌≡◌, refl, ap, subst, inl, inr, true, false, none, some, [], ◌∷◌, arith, ◌==◌, if◌then◌else◌,
  Bool-cases, any, All, In, some_inj, ◌+◌, ◌≤◌,
}
use hydra_queue_runner.Base.Text.{Text, codes, text_eq}
use hydra_queue_runner.NixUtils.StorePath.{StorePath, path_eq}
use hydra_queue_runner.State.Heap.{StepRef, BuildRef, JobsetRef, Build, Step, Heap}
use hydra_queue_runner.State.Machine.{JoinMessage, Job, new_machine}
use hydra_queue_runner.State.Queue.{ScheduledItem, new_queue}
use hydra_queue_runner.State.Metrics.{PromMetrics}
use hydra_queue_runner.State.Output.{BuildOutput, no_timings}
use hydra_queue_runner.State.Runner.Recorded.{IsRecorded}
use hydra_queue_runner.State.Runner.Hoare.{Ends, is_out}
use hydra_queue_runner.State.Step.Dependents.Fuel.{path_in}
use hydra_queue_runner.State.Step.{new_step}
use hydra_queue_runner.State.Remote.{new_remote, BuildResultState}
use hydra_queue_runner.State.Runner.Finish.{succeed_step}
use hydra_queue_runner.State.Runner.Fail.{
  fail_step, inner_fail_job, retry_or_give_up, tries_of, add_try,
}
use hydra_queue_runner.State.Runner.Builders.{remove_machine}
use hydra_queue_runner.State.Runner.Once.{Refuses, succeed_step_once}
use hydra_queue_runner.State.Runner.Retry.{Waits, retry_or_give_up-Waits}
use hydra_queue_runner.State.Runner.Recorded.Steps.{succeed_step-IsRecorded}
use hydra_queue_runner.State.Runner.Settled.Rounds.{
  IsBounded, inner_fail_job_total, count_unfinished, unfinished_at,
}
use hydra_queue_runner.State.Runner.Recorded.Failed.{fail_step-IsRecorded}
use hydra_queue_runner.State.Runner.Removed.{NoneScheduled, remove_machine-NoneScheduled}
use hydra_queue_runner.State.Step.Dependents.Registered.{RdepsRegistered}
use hydra_queue_runner.State.Build.Propagate.{IsRegistered}
use hydra_queue_runner.State.Runner.Settled.Builds.{IsSettled, inner_fail_job-IsSettled}

abbrev linux : Text
linux = codes "x86_64-linux"

abbrev path : StorePath
path = record { base_name = codes "aaaa.drv" }

abbrev step : StepRef
step = record { addr = 1; drv_path = path }

abbrev top : BuildRef
top = record { addr = 7; id = 3; drv_path = path }

abbrev set_of_jobs : JobsetRef
set_of_jobs = record { addr = 0; id = 1; project_name = codes "p"; name = codes "j" }

abbrev build : Build
build = record {
  id = 3;
  drv_path = path;
  outputs = [];
  jobset_id = 1;
  name = codes "hello";
  timestamp = 0;
  max_silent_time = 60;
  timeout = 60;
  local_priority = 1;
  global_priority = 1;
  toplevel = some step;
  jobset = set_of_jobs;
  finished_in_db = false;
}

abbrev running : Step
running = record (new_step path) {
  state = record { deps = []; rdeps = []; builds = top ∷ []; jobsets = [] };
}

abbrev heap : Heap
heap = record {
  step = λ a. if a == 1 then some running else none;
  build = λ a. if a == 7 then some build else none;
  jobset = λ a. none;
}

abbrev join : JoinMessage
join = record {
  machine_id = codes "1";
  systems = linux ∷ [];
  hostname = codes "a";
  cpu_count = 4;
  bogomips = 0;
  speed_factor = 1;
  max_jobs = 2;
  build_dir_avail_threshold = 0;
  store_avail_threshold = 0;
  load1_threshold = 0;
  cpu_psi_threshold = 0;
  mem_psi_threshold = 0;
  io_psi_threshold = none;
  total_mem = 0;
  supported_features = [];
  mandatory_features = [];
  cgroups = true;
  substituters = [];
  use_substitutes = false;
  nix_version = codes "2.28";
}

abbrev job : Job
job = record {
  internal_build_id = 9;
  path = path;
  resolved_drv = none;
  build_id = 3;
  step_nr = 1;
  result = record new_remote { start_time = some 1000000000; can_retry = true };
}

abbrev item : ScheduledItem
item = record { step_info = 0; build_queue = linux; machine = 0 }

abbrev metrics : PromMetrics
metrics = record {
  nr_builds_done = 0;
  nr_builds_succeeded = 0;
  nr_builds_failed = 0;
  nr_steps_started = 0;
  nr_steps_done = 0;
  nr_steps_building = 0;
  nr_steps_waiting = 0;
  nr_retries = 0;
  max_nr_retries = 0;
  nr_unsupported_steps = 0;
  nr_unsupported_steps_aborted = 0;
  queue_build_loads = 0;
  queue_steps_created = 0;
  queue_checks_started = 0;
  queue_checks_finished = 0;
  queue_checks_early_exits = 0;
  nr_builds_read = 0;
  nr_substitutes_started = 0;
  nr_substitutes_succeeded = 0;
  nr_substitutes_failed = 0;
  total_step_time_ms = 0;
  total_step_import_time_ms = 0;
  total_step_build_time_ms = 0;
  total_step_upload_time_ms = 0;
}

abbrev runner : Runner
runner = record {
  steps = record { inner = (path, step) ∷ []; heap = heap; next = 2 };
  builds = (3, top) ∷ [];
  queues = record {
    jobs = (path, 0) ∷ [];
    inner = (linux, record new_queue { jobs = 0 ∷ []; total_runnable = 1 }) ∷ [];
    scheduled = (path, item) ∷ [];
    infos = λ a. record {
      step = step;
      resolved_drv_path = none;
      already_scheduled = true;
      cancelled = false;
      runnable_since = 0;
      lowest_share_used = 0;
    };
    next = 1;
  };
  machines = record {
    by_uuid = (1, 0) ∷ [];
    by_system = (linux, 0 ∷ []) ∷ [];
    supported_features = [];
    machine = λ a. record (new_machine 5 join 1) { jobs = job ∷ [] };
    next = 1;
  };
  metrics = metrics;
  uploads = [];
  remote_stores = [];
  notify_dispatch = false;
  db = [];
  tx = [];
}

-- A database that accepts everything.
abbrev env : Env
env = record {
  now = 5000000000;
  store_dir = codes "/nix/store";
  store_prefix = codes "/nix/store";
  log_dir = codes "/log";
  connects = λ db. true;
  accepts = λ db tx s. true;
  commits = λ db tx. true;
  next_step_nr = λ db row. 1;
  drv_path_of_step = λ db b n. some none;
  paths_failed = λ db paths. some false;
  last_step_of_drv = λ db p. some none;
  last_step_of_output = λ db p. some none;
  last_step_of_drv_output = λ db p o. some none;
  query_drv = λ p. some none;
  max_retries = 3;
  retry_delta = λ n. 60 * n;
  use_presigned_uploads = false;
  write_debug_info = false;
  new_uuid = 0;
  search = 5;
  rounds = 5;
}

abbrev output : BuildOutput
output = record {
  failed = false;
  timings = no_timings;
  release_name = none;
  closure_size = 0;
  size = 0;
  products = [];
  outputs = [];
  metrics = [];
}

runner-IsRecorded : IsRecorded runner
runner-IsRecorded a x e d = elim (Bool-cases (a == 7)) [
  | inl here ↦ absurd (ground (arith, here, some_inj build x (ground (arith, here))))
  | inr other ↦ absurd (ground (arith, other))
]

succeed_step-IsRecorded_example :
    Ends (λ _. IsRecorded) IsRecorded (succeed_step env path output runner)
succeed_step-IsRecorded_example = succeed_step-IsRecorded env path output runner runner-IsRecorded

fail_step-IsRecorded_example :
    Ends
      (λ _. IsRecorded)
      IsRecorded
      (fail_step env path BuildResultState.build_failure no_timings runner)
fail_step-IsRecorded_example =
    fail_step-IsRecorded env path BuildResultState.build_failure no_timings runner runner-IsRecorded

remove_machine-NoneScheduled_example :
    Ends
      (λ _ s. NoneScheduled (runner.machines.machine 0) s × IsRecorded s)
      (λ _. ⊥)
      (remove_machine env 1 runner)
unfolding hydra_queue_runner.State.Machine.Registry.get_machine_by_id
    hydra_queue_runner.Base.Map.get
remove_machine-NoneScheduled_example =
    remove_machine-NoneScheduled env 1 0 runner refl runner-IsRecorded

runner-RdepsRegistered : RdepsRegistered (λ p. 1) heap
runner-RdepsRegistered a s e = elim (Bool-cases (a == 1)) [
  | inl here ↦
      subst (λ (x : Step). All (IsRegistered (λ p. 1)) x.state.rdeps)
        (some_inj running s (ground (arith, here))) tt
  | inr other ↦ absurd (ground (arith, other))
]

inner_fail_job-IsSettled_example :
    Ends
      (λ _ s. (s.steps.heap.step ≡ heap.step) × IsSettled heap step s.steps.heap)
      (λ _. Unit {0})
      (inner_fail_job env none job step runner)
inner_fail_job-IsSettled_example =
    inner_fail_job-IsSettled (λ p. 1) env none job step runner refl runner-RdepsRegistered

runner-IsBounded : IsBounded runner.steps.heap (path ∷ []) (7 ∷ []) step
unfolding path_in path_eq text_eq
runner-IsBounded = record {
  within = λ a s e. elim (Bool-cases (a == 1)) [
    | inl here ↦
        subst
          (λ (x : Step). All (λ (d : StepRef). path_in (path ∷ []) d.drv_path ≡ true) x.state.rdeps)
          (some_inj running s (ground (arith, here))) tt
    | inr other ↦ absurd (ground (arith, other))
  ];
  root_in = refl;
  builds_in = λ a s e. elim (Bool-cases (a == 1)) [
    | inl here ↦
        subst
          (λ (x : Step).
            (b : BuildRef) → In b x.state.builds → any (λ c. c == b.addr) (7 ∷ []) ≡ true)
          (some_inj running s (ground (arith, here))) only_top
    | inr other ↦ absurd (ground (arith, other))
  ];
}
  where
    only_top : (b : BuildRef) → In b (top ∷ []) → any (λ c. c == b.addr) (7 ∷ []) ≡ true
    only_top b (inl same) = ap (λ (c : BuildRef). any (λ n. n == c.addr) (7 ∷ [])) same
    only_top b (inr none_left) = absurd none_left

runner-rounds : count_unfinished runner.steps.heap (7 ∷ []) + 2 ≤ 5
unfolding count_unfinished unfinished_at
runner-rounds = omega arith

inner_fail_job_total_example : is_out (inner_fail_job env none job step runner) ≡ false
inner_fail_job_total_example =
    inner_fail_job_total env none job step (path ∷ []) (7 ∷ []) runner runner-IsBounded
      (omega arith) runner-rounds

succeed_step_once_example :
    Ends
      (λ _. Refuses env path output BuildResultState.aborted no_timings)
      (Refuses env path output BuildResultState.aborted no_timings)
      (succeed_step env path output runner)
succeed_step_once_example =
    succeed_step_once env env path output output BuildResultState.aborted no_timings runner

retry_or_give_up-Waits_example :
    Ends (λ _. Waits item runner) (Waits item runner) (retry_or_give_up env item job runner)
unfolding tries_of add_try new_step
retry_or_give_up-Waits_example = retry_or_give_up-Waits env item job runner refl refl

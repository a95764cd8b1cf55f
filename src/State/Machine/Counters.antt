-- ===== src/State/Machine/Counters.antt =====
-- `Stats` of queue-runner/src/state/machine.rs: the counters of a builder. Times are seconds since
-- the epoch, and the clock is read by the caller.
use hydra_queue_runner.Base.{ℕ, ◌+◌, ◌&&◌, Option, none, some, ltb, ◌==◌, if◌then◌else◌}
use hydra_queue_runner.Base.Words.{two_64, add64}

pub record Pressure : Type 0 where
  pub avg10 : ℕ
  pub avg60 : ℕ
  pub avg300 : ℕ
  pub total : ℕ

pub record PressureState : Type 0 where
  pub cpu_some : Option Pressure
  pub mem_some : Option Pressure
  pub mem_full : Option Pressure
  pub io_some : Option Pressure
  pub io_full : Option Pressure
  pub irq_full : Option Pressure

pub record Stats : Type 0 where
  pub current_jobs : ℕ
  pub nr_steps_done : ℕ
  pub failed_builds : ℕ
  pub succeeded_builds : ℕ
  pub total_step_time_ms : ℕ
  pub total_step_import_time_ms : ℕ
  pub total_step_build_time_ms : ℕ
  pub total_step_upload_time_ms : ℕ
  pub idle_since : ℕ
  pub last_failure : ℕ
  pub disabled_until : ℕ
  pub consecutive_failures : ℕ
  pub last_ping : ℕ
  pub load1 : ℕ
  pub load5 : ℕ
  pub load15 : ℕ
  pub mem_usage : ℕ
  pub pressure : Option PressureState
  pub build_dir_free_percent : ℕ
  pub store_free_percent : ℕ
  pub current_uploading_path_count : ℕ
  pub current_downloading_count : ℕ
  pub jobs_in_last_30s_start : ℕ
  pub jobs_in_last_30s_count : ℕ

unfoldable pub new_stats : ℕ → Stats
new_stats now = record {
  current_jobs = 0;
  nr_steps_done = 0;
  failed_builds = 0;
  succeeded_builds = 0;
  total_step_time_ms = 0;
  total_step_import_time_ms = 0;
  total_step_build_time_ms = 0;
  total_step_upload_time_ms = 0;
  idle_since = now;
  last_failure = 0;
  disabled_until = 0;
  consecutive_failures = 0;
  last_ping = 0;
  load1 = 0;
  load5 = 0;
  load15 = 0;
  mem_usage = 0;
  pressure = none;
  build_dir_free_percent = 0;
  store_free_percent = 0;
  current_uploading_path_count = 0;
  current_downloading_count = 0;
  jobs_in_last_30s_start = 0;
  jobs_in_last_30s_count = 0;
}

unfoldable pub store_current_jobs : ℕ → ℕ → Stats → Stats
store_current_jobs now c s = record s {
  idle_since = if c == 0 && s.idle_since == 0 then now else 0;
  current_jobs = c;
}

unfoldable pub incr_nr_steps_done : Stats → Stats
unfolding add64
incr_nr_steps_done s = record s { nr_steps_done = add64 s.nr_steps_done 1 }

-- `if let Ok(v) = u64::try_from(v)`: a sum that fits is added, one that does not is left out.
unfoldable pub add_ms : ℕ → ℕ → ℕ
unfolding add64
add_ms total v = if ltb v two_64 then add64 total v else total

-- The timings in milliseconds.
pub record BuildTimings : Type 0 where
  pub import_elapsed : ℕ
  pub build_elapsed : ℕ
  pub upload_elapsed : ℕ

-- `BuildTimings::get_overhead`
unfoldable pub timings_overhead : BuildTimings → ℕ
timings_overhead t = t.import_elapsed + t.upload_elapsed

unfoldable pub track_build_success : BuildTimings → ℕ → Stats → Stats
unfolding add64 add_ms
track_build_success t total_step_time s = record s {
  succeeded_builds = add64 s.succeeded_builds 1;
  total_step_import_time_ms = add_ms s.total_step_import_time_ms t.import_elapsed;
  total_step_build_time_ms = add_ms s.total_step_build_time_ms t.build_elapsed;
  total_step_upload_time_ms = add_ms s.total_step_upload_time_ms t.upload_elapsed;
  total_step_time_ms = add64 s.total_step_time_ms total_step_time;
  consecutive_failures = 0;
}

unfoldable pub track_build_failure : ℕ → BuildTimings → ℕ → Stats → Stats
unfolding add64 add_ms
track_build_failure now t total_step_time s = record s {
  failed_builds = add64 s.failed_builds 1;
  total_step_import_time_ms = add_ms s.total_step_import_time_ms t.import_elapsed;
  total_step_build_time_ms = add_ms s.total_step_build_time_ms t.build_elapsed;
  total_step_upload_time_ms = add_ms s.total_step_upload_time_ms t.upload_elapsed;
  total_step_time_ms = add64 s.total_step_time_ms total_step_time;
  last_failure = now;
  consecutive_failures = add64 s.consecutive_failures 1;
}

pub record PingMessage : Type 0 where
  pub load1 : ℕ
  pub load5 : ℕ
  pub load15 : ℕ
  pub mem_usage : ℕ
  pub pressure : Option PressureState
  pub build_dir_free_percent : ℕ
  pub store_free_percent : ℕ
  pub current_uploading_path_count : ℕ
  pub current_downloading_path_count : ℕ

-- A ping without pressure values leaves the last ones.
unfoldable pub store_ping : ℕ → PingMessage → Stats → Stats
store_ping now msg s = record s {
  last_ping = now;
  load1 = msg.load1;
  load5 = msg.load5;
  load15 = msg.load15;
  mem_usage = msg.mem_usage;
  pressure = elim msg.pressure [ none ↦ s.pressure | some p ↦ some p ];
  build_dir_free_percent = msg.build_dir_free_percent;
  store_free_percent = msg.store_free_percent;
  current_uploading_path_count = msg.current_uploading_path_count;
  current_downloading_count = msg.current_downloading_path_count;
}

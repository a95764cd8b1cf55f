-- ===== src/State/Metrics.antt =====
-- The counters of queue-runner/src/state/metrics.rs that the operations of the runner change. A
-- counter is a `u64`, a gauge an `i64` pattern.
use hydra_queue_runner.Base.{ℕ}
use hydra_queue_runner.Base.Words.{add64, sub64}
use hydra_queue_runner.State.Machine.Counters.{add_ms, BuildTimings}

pub record PromMetrics : Type 0 where
  pub nr_builds_done : ℕ
  pub nr_builds_succeeded : ℕ
  pub nr_builds_failed : ℕ
  pub nr_steps_started : ℕ
  pub nr_steps_done : ℕ
  pub nr_steps_building : ℕ
  pub nr_steps_waiting : ℕ
  pub nr_retries : ℕ
  pub max_nr_retries : ℕ
  pub nr_unsupported_steps : ℕ
  pub nr_unsupported_steps_aborted : ℕ
  pub queue_build_loads : ℕ
  pub queue_steps_created : ℕ
  pub queue_checks_started : ℕ
  pub queue_checks_finished : ℕ
  pub queue_checks_early_exits : ℕ
  pub nr_builds_read : ℕ
  pub nr_substitutes_started : ℕ
  pub nr_substitutes_succeeded : ℕ
  pub nr_substitutes_failed : ℕ
  pub total_step_time_ms : ℕ
  pub total_step_import_time_ms : ℕ
  pub total_step_build_time_ms : ℕ
  pub total_step_upload_time_ms : ℕ

-- The `add_to_total_…` functions: a time that is no `u64` is not counted.
unfoldable pub add_time : BuildTimings → ℕ → PromMetrics → PromMetrics
unfolding add64 add_ms
add_time t total_step_time m = record m {
  total_step_import_time_ms = add_ms m.total_step_import_time_ms t.import_elapsed;
  total_step_build_time_ms = add_ms m.total_step_build_time_ms t.build_elapsed;
  total_step_upload_time_ms = add_ms m.total_step_upload_time_ms t.upload_elapsed;
  total_step_time_ms = add64 m.total_step_time_ms total_step_time;
}

unfoldable pub track_build_success : BuildTimings → ℕ → PromMetrics → PromMetrics
unfolding add_time add64 sub64
track_build_success t total_step_time m = add_time t total_step_time (record m {
  nr_builds_succeeded = add64 m.nr_builds_succeeded 1;
  nr_steps_done = add64 m.nr_steps_done 1;
  nr_steps_building = sub64 m.nr_steps_building 1;
})

unfoldable pub track_build_failure : BuildTimings → ℕ → PromMetrics → PromMetrics
unfolding add_time add64 sub64
track_build_failure t total_step_time m = add_time t total_step_time (record m {
  nr_steps_done = add64 m.nr_steps_done 1;
  nr_steps_building = sub64 m.nr_steps_building 1;
  nr_builds_failed = add64 m.nr_builds_failed 1;
})

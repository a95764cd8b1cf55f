-- ===== src/State/Remote.antt =====
-- `RemoteBuild` and `BuildResultState` of queue-runner/src/state/build.rs: what the runner records
-- about one run of a step on a builder. A timestamp is a number of nanoseconds since the epoch.
use hydra_queue_runner.Base.{
  ℕ, ◌-◌, ◌/◌, Bool, true, false, Option, none, some, [], ltb, leb, ◌==◌, if◌then◌else◌, unwrap_or,
}
use hydra_queue_runner.Base.Text.{Text}
use hydra_queue_runner.Base.Words.{i32_max}
use hydra_queue_runner.Db.Models.{BuildStatus}

pub data BuildResultState : Type 0 where
  success build_failure preparing_failure import_failure : BuildResultState
  upload_failure post_processing_failure aborted cancelled : BuildResultState

pub record RemoteBuild : Type 0 where
  pub step_status : BuildStatus
  pub can_retry : Bool
  pub is_cached : Bool
  pub can_cache : Bool
  pub error_msg : Option Text
  pub times_built : ℕ
  pub is_non_deterministic : Bool
  pub start_time : Option ℕ
  pub stop_time : Option ℕ
  pub overhead : ℕ
  pub log_file : Text

unfoldable pub new_remote : RemoteBuild
new_remote = record {
  step_status = BuildStatus.aborted;
  can_retry = false;
  is_cached = false;
  can_cache = false;
  error_msg = none;
  times_built = 0;
  is_non_deterministic = false;
  start_time = none;
  stop_time = none;
  overhead = 0;
  log_file = [];
}

-- The absolute difference of the two times in milliseconds, cut to a whole number.
unfoldable pub get_total_step_time_ms : RemoteBuild → ℕ
get_total_step_time_ms r = elim r.start_time [
  | none ↦ 0
  | some start ↦ elim r.stop_time [
    | none ↦ 0
    | some stop ↦ (if ltb stop start then start - stop else stop - start) / 1000000
  ]
]

unfoldable pub update_with_result_state : BuildResultState → RemoteBuild → RemoteBuild
update_with_result_state success r = r
update_with_result_state build_failure r = record r { can_retry = false }
update_with_result_state preparing_failure r = record r { can_retry = true }
update_with_result_state import_failure r = record r { can_retry = true }
update_with_result_state upload_failure r = record r { can_retry = true }
update_with_result_state post_processing_failure r = record r { can_retry = true }
update_with_result_state aborted r = record r {
  can_retry = true;
  step_status = BuildStatus.aborted;
}
update_with_result_state cancelled r = record r {
  can_retry = true;
  step_status = BuildStatus.cancelled;
}

unfoldable pub set_start_and_stop : ℕ → RemoteBuild → RemoteBuild
set_start_and_stop v r = record r { start_time = some v; stop_time = some v }

unfoldable pub set_start_time_now : ℕ → RemoteBuild → RemoteBuild
set_start_time_now now r = record r { start_time = some now }

unfoldable pub set_stop_time_now : ℕ → RemoteBuild → RemoteBuild
set_stop_time_now now r = record r { stop_time = some now }

-- `i32::try_from`, of a value that is not negative.
unfoldable pub try_i32 : ℕ → Option ℕ
try_i32 v = if leb v i32_max then some v else none

unfoldable pub time_as_i32 : Option ℕ → Option ℕ
unfolding try_i32
time_as_i32 t = try_i32 (unwrap_or t 0 / 1000000000)

unfoldable pub get_start_time_as_i32 : RemoteBuild → Option ℕ
unfolding time_as_i32
get_start_time_as_i32 r = time_as_i32 r.start_time

unfoldable pub get_stop_time_as_i32 : RemoteBuild → Option ℕ
unfolding time_as_i32
get_stop_time_as_i32 r = time_as_i32 r.stop_time

unfoldable pub get_overhead : RemoteBuild → Option ℕ
get_overhead r = if r.overhead == 0 then none else some r.overhead

unfoldable pub get_times_built : RemoteBuild → Option ℕ
get_times_built r = if r.times_built == 0 then none else some r.times_built

unfoldable pub get_is_non_deterministic : RemoteBuild → Option Bool
get_is_non_deterministic r = if r.times_built == 0 then none else some r.is_non_deterministic

-- `none` is the error of the conversion, and the build is as before.
unfoldable pub set_overhead : ℕ → RemoteBuild → Option RemoteBuild
unfolding try_i32
set_overhead v r = elim (try_i32 v) [ none ↦ none | some o ↦ some (record r { overhead = o }) ]

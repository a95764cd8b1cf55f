-- ===== src/State/Statement.antt =====
-- The statements that the queue runner sends to the database (crates/db/src/connection.rs), as the
-- calls of queue-runner/src/state and queue-runner/src/utils.rs give them. The SQL text is not
-- modelled.
use hydra_queue_runner.Base.{ℕ, Bool, Option, List}
use hydra_queue_runner.Db.Models.{BuildStatus}
use hydra_queue_runner.Base.Text.{Text}
use hydra_queue_runner.State.Output.{MarkBuildSuccessData}

pub record UpdateBuildStepInFinish : Type 0 where
  pub build_id : ℕ
  pub step_nr : ℕ
  pub status : BuildStatus
  pub error_msg : Option Text
  pub start_time : ℕ
  pub stop_time : ℕ
  pub machine : Option Text
  pub overhead : Option ℕ
  pub times_built : Option ℕ
  pub is_non_deterministic : Option Bool

pub record InsertBuildStep : Type 0 where
  pub start_time : Option ℕ
  pub build_id : ℕ
  pub drv_path : Text
  pub system : Option Text
  pub machine : Text
  pub status : BuildStatus
  pub error_msg : Option Text
  pub propagated_from : Option ℕ
  pub outputs : List (Text × Option Text)

-- `StepStatus`
pub data StepStatus : Type 0 where
  preparing connecting sending_inputs building : StepStatus
  waiting_for_local_slot receiving_outputs post_processing : StepStatus

pub data Statement : Type 0 where
  update_build_step_in_finish : UpdateBuildStepInFinish → Statement
  notify_step_finished : (build_id step_nr : ℕ) → (log_file : Text) → Statement
  update_build_step_output : (build_id step_nr : ℕ) → (name path : Text) → Statement
  create_build_step : InsertBuildStep → Statement
  create_substitution_step :
      (starttime stoptime build_id : ℕ)
      → (drv_path : Text) → (name : Text) → (output : Option Text) → Statement
  update_build_step : (build_id step_nr : ℕ) → StepStatus → Statement
  notify_build_started : (build_id : ℕ) → Statement
  mark_succeeded_build :
      MarkBuildSuccessData → (is_cached : Bool) → (start_time stop_time : ℕ) → Statement
  update_build_after_failure :
      (build_id : ℕ) → BuildStatus → (start_time stop_time : ℕ) → (is_cached : Bool) → Statement
  update_build_after_previous_failure : (build_id : ℕ) → BuildStatus → Statement
  abort_build : (build_id : ℕ) → Statement
  insert_failed_paths : (path : Text) → Statement
  notify_build_finished : (build_id : ℕ) → (dependent_ids : List ℕ) → Statement
  clear_busy : (stop_time : ℕ) → Statement
  insert_debug_build : (jobset_id : ℕ) → (drv_path system : Text) → Statement
  notify_builds_added : Statement

-- ===== src/State/Machine.antt =====
-- `Machine`, `Job` and `Message` of queue-runner/src/state/machine.rs: one builder as the runner
-- sees it. `f32` and `f64` values are bit patterns; what the hardware does to them is an argument.
pub mod Counters
pub mod Capacity
pub mod Jobs
pub mod Registry
mod Tests
use hydra_queue_runner.Base.{
  ℕ, zero, suc, ◌+◌, ◌-◌, ◌*◌, ◌/◌, ◌%◌, ◌^◌, ◌≤◌, ◌<◌, min, max, compare, Ordering, ◌≡◌, refl, sym,
  ap, subst, ◌∙◌, ◌≡⟨◌⟩◌, ◌∎, ◌≢◌, ◌↔◌, ◌⊎◌, inl, inr, Bool, true, false, not, ◌&&◌, ◌||◌, Option,
  none, some, List, [], ◌∷◌, ◌++◌, map, flat_map, arith, ltb, leb, ◌==◌, if◌then◌else◌, is_some,
  unwrap_or, ltb→lt, ==_iff, Bool-cases, Option-cases, length, length-append, take, drop,
  take-append-drop, length-take, retain, any, all, find, count_if, All, length-retain, All-append,
  In, any-append, some_inj, find-test, All-retain,
}
use hydra_queue_runner.Base.Text.{Text, text_eq}
use hydra_queue_runner.Base.Words.{total_key, two_31, two_32, two_63, two_64, add64, sub64}
use hydra_queue_runner.NixUtils.StorePath.{StorePath, path_eq}
use hydra_queue_runner.State.Remote.{RemoteBuild, new_remote}
use hydra_queue_runner.State.Machine.Counters.{
  Stats, new_stats, store_current_jobs, incr_nr_steps_done,
}

pub record Job : Type 0 where
  pub internal_build_id : ℕ
  pub path : StorePath
  pub resolved_drv : Option StorePath
  pub build_id : ℕ
  pub step_nr : ℕ
  pub result : RemoteBuild

-- The new `uuid` is drawn by the caller.
unfoldable pub new_job : ℕ → ℕ → StorePath → Option StorePath → Job
unfolding new_remote
new_job uuid build_id path resolved_drv = record {
  internal_build_id = uuid;
  path = path;
  resolved_drv = resolved_drv;
  build_id = build_id;
  step_nr = 0;
  result = new_remote;
}

pub record BuildOptions : Type 0 where
  pub max_log_size : ℕ
  pub max_silent_time : ℕ
  pub build_timeout : ℕ

pub data Message : Type 0 where
  config_update : ℕ → Message
  build_message :
      (build_id : ℕ)
      → (drv : StorePath) → (resolved_drv : Option StorePath) → BuildOptions
      → (upload_debug_info : Option Bool) → Message
  abort_message : (build_id : ℕ) → Message

pub record JoinMessage : Type 0 where
  pub machine_id : Text
  pub systems : List Text
  pub hostname : Text
  pub cpu_count : ℕ
  pub bogomips : ℕ
  pub speed_factor : ℕ
  pub max_jobs : ℕ
  pub build_dir_avail_threshold : ℕ
  pub store_avail_threshold : ℕ
  pub load1_threshold : ℕ
  pub cpu_psi_threshold : ℕ
  pub mem_psi_threshold : ℕ
  pub io_psi_threshold : Option ℕ
  pub total_mem : ℕ
  pub supported_features : List Text
  pub mandatory_features : List Text
  pub cgroups : Bool
  pub substituters : List Text
  pub use_substitutes : Bool
  pub nix_version : Text

-- The fields of the join message stay as they are, `join`; `messages` are those that the channel to
-- the builder has taken, the last first.
pub record Machine : Type 0 where
  pub id : ℕ
  pub join : JoinMessage
  pub joined_at : ℕ
  pub messages : List Message
  pub stats : Stats
  pub jobs : List Job

pub data JoinError : Type 0 where
  no_substitutes : JoinError
  missing_substituter : Text → JoinError
  bad_machine_id : JoinError

pub data Joined : Type 0 where
  err : JoinError → Joined
  ok : Machine → Joined

unfoldable pub contains_text : List Text → Text → Bool
contains_text l t = any (λ s. text_eq s t) l

-- The loop over the forced substituters: the first that the builder misses.
unfoldable pub first_missing : List Text → List Text → Option Text
unfolding contains_text
first_missing have forced = find (λ s. not (contains_text have s)) forced

unfoldable pub new_machine : ℕ → JoinMessage → ℕ → Machine
unfolding new_stats
new_machine now msg id = record {
  id = id;
  join = msg;
  joined_at = now;
  messages = [];
  stats = new_stats now;
  jobs = [];
}

-- `Machine::new`. `parse` reads a `uuid`; `to_f64` widens an `f32`.
unfoldable pub machine_new : (Text → Option ℕ) → ℕ → JoinMessage → Bool → List Text → Joined
unfolding first_missing new_machine
machine_new parse now msg use_presigned_uploads forced =
    let accepted : Joined = elim (parse msg.machine_id) [
      | none ↦ err bad_machine_id
      | some id ↦ ok (new_machine now msg id)
    ] in
    if use_presigned_uploads && not (length forced == 0)
    then if not msg.use_substitutes
      then err no_substitutes
      else elim (first_missing msg.substituters forced) [
        | some s ↦ err (missing_substituter s)
        | none ↦ accepted
      ]
    else accepted

unfoldable pub insert_job : ℕ → Job → Machine → Machine
unfolding store_current_jobs
insert_job now job m =
    let jobs = m.jobs ++ job ∷ [] in
    record m { jobs = jobs; stats = store_current_jobs now (length jobs) m.stats }

-- A message to the builder: `sent` says whether the channel takes it.
unfoldable pub send : Bool → Message → Machine → Option Machine
send sent msg m = if sent then some (record m { messages = msg ∷ m.messages }) else none

-- The part of `build_drv` after the message is sent.
unfoldable pub start_job : ℕ → Job → Machine → Machine
unfolding insert_job add64
start_job now job m =
    let s = m.stats in
    let s' : Stats =
      if s.jobs_in_last_30s_count == 0 then record s { jobs_in_last_30s_start = now } else s in
    let m' = insert_job now job (record m { stats = s' }) in
    record m' {
      stats = record m'.stats { jobs_in_last_30s_count = add64 m'.stats.jobs_in_last_30s_count 1 };
    }

-- `build_drv`; `none` is the error of a closed channel.
unfoldable pub build_drv : Bool → ℕ → Job → BuildOptions → Option Bool → Machine → Option Machine
unfolding send start_job
build_drv sent now job opts presigned m =
    elim (send sent (build_message job.internal_build_id job.path job.resolved_drv opts presigned)
      m) [ none ↦ none | some m' ↦ some (start_job now job m') ]

unfoldable pub abort_build : Bool → ℕ → Machine → Option Machine
unfolding send
abort_build sent build_id m = send sent (abort_message build_id) m

unfoldable pub publish_config_update : Bool → ℕ → Machine → Option Machine
unfolding send
publish_config_update sent max_concurrent_downloads m =
    send sent (config_update max_concurrent_downloads) m

-- `remove_job` at the time `now`, in seconds.
unfoldable pub remove_job : ℕ → StorePath → Machine → Machine × Option Job
unfolding store_current_jobs incr_nr_steps_done sub64
remove_job now drv m =
    let jobs = retain (λ j. not (path_eq j.path drv)) m.jobs in
    let s = store_current_jobs now (length jobs) (incr_nr_steps_done m.stats) in
    let s' : Stats =
      if leb now (s.jobs_in_last_30s_start + 30)
      then record s { jobs_in_last_30s_count = sub64 s.jobs_in_last_30s_count 1 }
      else s in
    (record m { jobs = jobs; stats = s' }, find (λ j. path_eq j.path drv) m.jobs)

unfoldable pub get_build_id_and_step_nr : StorePath → Machine → Option (ℕ × ℕ)
get_build_id_and_step_nr drv m = elim (find (λ j. path_eq j.path drv) m.jobs) [
  | none ↦ none
  | some j ↦ some (j.build_id, j.step_nr)
]

unfoldable pub get_build_id_and_step_nr_by_uuid : ℕ → Machine → Option (ℕ × ℕ)
get_build_id_and_step_nr_by_uuid id m = elim (find (λ j. j.internal_build_id == id) m.jobs) [
  | none ↦ none
  | some j ↦ some (j.build_id, j.step_nr)
]

unfoldable pub get_job_drv_for_build_id : ℕ → Machine → Option StorePath
get_job_drv_for_build_id id m = elim (find (λ j. j.internal_build_id == id) m.jobs) [
  | none ↦ none
  | some j ↦ some j.path
]

unfoldable pub get_internal_build_id_for_drv : StorePath → Machine → Option ℕ
get_internal_build_id_for_drv drv m = elim (find (λ j. path_eq j.path drv) m.jobs) [
  | none ↦ none
  | some j ↦ some j.internal_build_id
]

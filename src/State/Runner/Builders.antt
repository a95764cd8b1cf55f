-- ===== src/State/Runner/Builders.antt =====
-- The operations of queue-runner/src/state/mod.rs on builders: they come and go, report by their
-- ids, and steps that no build needs any more are taken from them. `reload_config_callback` is here
-- too.
use hydra_queue_runner.State.Runner.{
  ◌>>=◌, ◌>>◌, ok, err, out_of_fuel, get, trigger_dispatch, Env, run_statement, Text, InnerQueues,
  Action, Runner, StorePath, pure, set_heap, db_error, ignore_failure, or_fail, machine_not_found,
  job_not_found,
}
use hydra_queue_runner.State.Machine.Counters.{BuildTimings}
use hydra_queue_runner.State.Machine.Registry
use hydra_queue_runner.State.Machine.{
  Machine, get_job_drv_for_build_id, get_build_id_and_step_nr_by_uuid, Job,
}
use hydra_queue_runner.Base.{
  ℕ, Bool, true, false, ◌&&◌, ◌||◌, Option, none, some, List, [], ◌∷◌, map, if◌then◌else◌, all,
}
use hydra_queue_runner.State.Machine.Registry.{
  get_all_machines, get_machine_by_id, publish_new_config,
}
use hydra_queue_runner.State.Queue.Inner.{ensure_queues_for_systems, sort_queues}
use hydra_queue_runner.State.Runner.Fail.{fail_step}
use hydra_queue_runner.State.Build.{update_priorities}
use hydra_queue_runner.State.Runner.Finish.{succeed_step, update_queues}
use hydra_queue_runner.Base.Text.{Text, text_eq}
use hydra_queue_runner.Base.Words.{Floats}
use hydra_queue_runner.State.Queue.{InnerQueues}
use hydra_queue_runner.State.Remote.{BuildResultState}
use hydra_queue_runner.State.Dispatch.{kill_active_steps}
use hydra_queue_runner.State.Output.{BuildOutput, no_timings}
use hydra_queue_runner.State.Statement.{StepStatus, update_build_step}
use hydra_queue_runner.State.Machine.Capacity.{MachineSortFn, Floats32}
use hydra_queue_runner.NixUtils.StorePath.{StorePath}
use hydra_queue_runner.State.StepInfo.{StepSortFn}
use hydra_queue_runner.Base.Map.{Map}

unfoldable pub ensure_systems : List Text → InnerQueues → InnerQueues
unfolding ensure_queues_for_systems
ensure_systems [] q = q
ensure_systems (s ∷ ss) q = ensure_queues_for_systems (s ∷ ss) q

unfoldable pub insert_machine : Floats32 → MachineSortFn → Machine → Runner → Runner × ℕ
unfolding ensure_systems Registry.insert_machine trigger_dispatch update_queues
insert_machine fl f m r =
    let (ms, id) = Registry.insert_machine fl f m r.machines in
    (
      trigger_dispatch (record (update_queues (ensure_systems m.join.systems) r) { machines = ms }),
      id,
    )

-- The loops that fail steps: an error is logged and dropped.
unfoldable pub fail_steps : Env → BuildResultState → List StorePath → Action (Unit {0})
unfolding fail_step
fail_steps env state [] = pure tt
fail_steps env state (drv ∷ drvs) = do
  ignore_failure (fail_step env drv state no_timings)
  fail_steps env state drvs

unfoldable pub remove_machine : Env → ℕ → Action (Unit {0})
unfolding Registry.remove_machine fail_steps
remove_machine env id r =
    let (ms, found) = Registry.remove_machine id r.machines in
    let r' : Runner = record r { machines = ms } in
    elim found [
      | none ↦ ok tt r'
      | some a ↦
          fail_steps env BuildResultState.preparing_failure
            (map (λ (j : Job). j.path) (ms.machine a).jobs) r'
    ]

unfoldable pub remove_machines : Env → List ℕ → Action (Unit {0})
unfolding remove_machine
remove_machines env [] = pure tt
remove_machines env (id ∷ ids) = do remove_machine env id; remove_machines env ids

unfoldable pub remove_all_machines : Env → Action (Unit {0})
unfolding remove_machines get_all_machines
remove_all_machines env = do
  r ← get
  remove_machines env (map (λ a. (r.machines.machine a).id) (get_all_machines r.machines))

-- `curr` are the unfinished builds of the database with their priorities, `sent` says which channels
-- take a message, and `depth` bounds the spread of priorities.
unfoldable pub process_queue_change : Env → Option (Map ℕ ℕ) → (ℕ → Bool) → ℕ → Action (Unit {0})
unfolding update_priorities kill_active_steps fail_steps set_heap
process_queue_change env curr sent depth r = elim curr [
  | none ↦ err db_error r
  | some curr_ids ↦
      let updated = update_priorities depth curr_ids r.builds r.steps.heap in
      elim updated.1 [
        | none ↦ out_of_fuel
        | some h ↦ elim (kill_active_steps env.search h sent r.queues r.machines) [
          | none ↦ out_of_fuel
          | some k ↦
              fail_steps env BuildResultState.cancelled
                (map (λ (e : StorePath × ℕ). e.0) k.cancelled_steps)
                (record (set_heap h r) {
                  builds = updated.0;
                  queues = k.queues;
                  machines = k.machines;
                })
        ]
      ]
]

-- The builder behind an id, and the derivation of one of its jobs.
unfoldable pub drv_of_job : ℕ → ℕ → Action StorePath
unfolding get_machine_by_id get_job_drv_for_build_id
drv_of_job build_id machine_id = do
  r ← get
  a ← or_fail machine_not_found (get_machine_by_id machine_id r.machines)
  or_fail job_not_found (get_job_drv_for_build_id build_id (r.machines.machine a))

unfoldable pub succeed_step_by_uuid : Env → ℕ → ℕ → BuildOutput → Action (Unit {0})
unfolding drv_of_job succeed_step
succeed_step_by_uuid env build_id machine_id output = do
  drv ← drv_of_job build_id machine_id
  succeed_step env drv output

unfoldable pub fail_step_by_uuid : Env → ℕ → ℕ → BuildResultState → BuildTimings → Action (Unit {0})
unfolding drv_of_job fail_step
fail_step_by_uuid env build_id machine_id state timings = do
  drv ← drv_of_job build_id machine_id
  fail_step env drv state timings

unfoldable pub step_of_uuid : ℕ → ℕ → Runner → Option (ℕ × ℕ)
unfolding get_machine_by_id get_build_id_and_step_nr_by_uuid
step_of_uuid build_id machine_id r = elim (get_machine_by_id machine_id r.machines) [
  | none ↦ none
  | some a ↦ get_build_id_and_step_nr_by_uuid build_id (r.machines.machine a)
]

-- A builder or a job that is not known is passed over.
unfoldable pub report_build_step : Env → ℕ → ℕ → StepStatus → Action (Unit {0})
unfolding step_of_uuid run_statement
report_build_step env build_id machine_id status r = elim (step_of_uuid build_id machine_id r) [
  | none ↦ ok tt r
  | some found ↦ run_statement env (update_build_step found.0 found.1 status) r
]

-- The part of the configuration that a reload looks at.
pub record Config : Type 0 where
  pub db_url : Text
  pub machine_sort_fn : MachineSortFn
  pub step_sort_fn : StepSortFn
  pub remote_store_addr : List Text
  pub max_concurrent_downloads : ℕ

unfoldable pub texts_eq : List Text → List Text → Bool
texts_eq [] [] = true
texts_eq [] (_ ∷ _) = false
texts_eq (_ ∷ _) [] = false
texts_eq (s ∷ ss) (t ∷ ts) = let rest = texts_eq ss ts in text_eq s t && rest

-- The outside of a reload: whether the addresses open as stores, whether the pool takes the new
-- address, how functions are compared and which channels take a message.
pub record Reload : Type 0 where
  pub opens : Text → Bool
  pub reconfigures : Bool
  pub same_machine_sort : Bool
  pub same_step_sort : Bool
  pub sent : ℕ → Bool

unfoldable pub apply_config : Floats → Floats32 → Reload → Config → Config → Runner → Runner
unfolding Registry.sort sort_queues texts_eq publish_new_config
apply_config fl fl32 how old new r =
    let ms =
      if how.same_machine_sort
      then r.machines
      else Registry.sort fl32 new.machine_sort_fn r.machines in
    let q =
      if how.same_step_sort
      then r.queues
      else sort_queues fl r.steps.heap old.step_sort_fn r.queues in
    record r {
      machines = publish_new_config how.sent new.max_concurrent_downloads ms;
      queues = q;
      remote_stores =
          if texts_eq old.remote_store_addr new.remote_store_addr
          then r.remote_stores
          else new.remote_store_addr;
    }

unfoldable pub reload_config_callback :
    Floats → Floats32 → Reload → Config → Config → Action (Unit {0})
unfolding apply_config texts_eq
reload_config_callback fl fl32 how old new r =
    let stores =
      texts_eq old.remote_store_addr new.remote_store_addr || all how.opens new.remote_store_addr in
    let pool = text_eq old.db_url new.db_url || how.reconfigures in
    if stores && pool then ok tt (apply_config fl fl32 how old new r) else err db_error r

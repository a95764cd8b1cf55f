-- ===== src/State/Runner.antt =====
-- queue-runner/src/state/mod.rs: the state of the runner and its operations. An operation is an
-- action: it takes the state and ends with a value or a failure, and the state that it has reached
-- stays in both cases. The database is a log of accepted statements. Whether it accepts one, what
-- Nix answers and the clock, which is read once in an operation, are in the environment.
pub mod Finish
pub mod Fail
pub mod Cached
pub mod Builders
pub mod Realise
pub mod Submit
pub mod CreateStep
pub mod CreateBuild
pub mod Hoare
pub mod Parts
pub mod Recorded
pub mod Settled
pub mod Once
pub mod Removed
pub mod Unscheduled
pub mod Retry
mod Tests
use hydra_queue_runner.Base.{
  ℕ, Bool, true, Option, none, some, List, [], ◌∷◌, ◌++◌, if◌then◌else◌, ◌&&◌,
}
use hydra_queue_runner.NixUtils.StorePath.{StorePath}
use hydra_queue_runner.State.Steps.{Steps}
use hydra_queue_runner.Base.Text.{Text}
use hydra_queue_runner.State.Heap.{Heap, modify_step, StepRef, Step}
use hydra_queue_runner.State.Machine.Registry.{set_machine, Machines}
use hydra_queue_runner.State.Metrics.{PromMetrics}
use hydra_queue_runner.Base.Words.{add64}
use hydra_queue_runner.State.Statement.{Statement, InsertBuildStep}
use hydra_queue_runner.State.Build.{Builds}
use hydra_queue_runner.State.Machine.{Machine}
use hydra_queue_runner.State.Queue.{InnerQueues}
use hydra_queue_runner.NixUtils.Derivation.{Derivation}

pub record Upload : Type 0 where
  pub store_paths : List StorePath
  pub log_remote_path : Text
  pub log_local_path : Text

pub record Runner : Type 0 where
  pub steps : Steps
  pub builds : Builds
  pub queues : InnerQueues
  pub machines : Machines
  pub metrics : PromMetrics
  pub uploads : List Upload
  pub remote_stores : List Text
  pub notify_dispatch : Bool
  pub db : List Statement
  pub tx : List Statement

-- `search` bounds the depth of a search for dependents, `rounds` the number of loops of
-- `inner_fail_job`. `retry_delta` is the time in seconds, a product of floats, after so many tries.
pub record Env : Type 0 where
  pub now : ℕ
  pub store_dir : Text
  pub store_prefix : Text
  pub log_dir : Text
  pub connects : List Statement → Bool
  pub accepts : List Statement → List Statement → Statement → Bool
  pub commits : List Statement → List Statement → Bool
  pub next_step_nr : List Statement → InsertBuildStep → ℕ
  pub drv_path_of_step : List Statement → ℕ → ℕ → Option (Option Text)
  pub paths_failed : List Statement → List Text → Option Bool
  pub last_step_of_drv : List Statement → Text → Option (Option ℕ)
  pub last_step_of_output : List Statement → Text → Option (Option ℕ)
  pub last_step_of_drv_output : List Statement → Text → Text → Option (Option ℕ)
  pub query_drv : StorePath → Option (Option Derivation)
  pub max_retries : ℕ
  pub retry_delta : ℕ → ℕ
  pub use_presigned_uploads : Bool
  pub write_debug_info : Bool
  pub new_uuid : ℕ
  pub search : ℕ
  pub rounds : ℕ

pub data Failure : Type 0 where
  step_not_scheduled job_not_on_machine machine_not_found job_not_found : Failure
  db_error nix_error number_too_big channel_closed drv_not_found : Failure
  output_unknown bad_log_path : Failure

-- `out_of_fuel` is no result of the program: a search or a loop of the model has hit its bound.
pub data Outcome (A : Type 0) : Type 0 where
  ok : A → Runner → Outcome A
  err : Failure → Runner → Outcome A
  out_of_fuel : Outcome A

abbrev pub Action : Type 0 → Type 0
Action A = Runner → Outcome A

unfoldable pub pure : {A : Type 0} → A → Action A
pure a r = ok a r

unfoldable pub fail : {A : Type 0} → Failure → Action A
fail e r = err e r

unfoldable pub no_fuel : {A : Type 0} → Action A
no_fuel r = out_of_fuel

infixl 5 ◌>>=◌ ◌>>◌
unfoldable pub ◌>>=◌ : {A B : Type 0} → Action A → (A → Action B) → Action B
◌>>=◌ m f r = elim (m r) [ ok a r' ↦ f a r' | err e r' ↦ err e r' | out_of_fuel ↦ out_of_fuel ]

abbrev pub ◌>>◌ : {B : Type 0} → Action (Unit {0}) → Action B → Action B
m >> k = m >>= λ _. k

unfoldable pub get : Action Runner
get r = ok r r

unfoldable pub modify : (Runner → Runner) → Action (Unit {0})
modify f r = ok tt (f r)

-- `?` on an error of a conversion or of a query.
unfoldable pub or_fail : {A : Type 0} → Failure → Option A → Action A
or_fail e none r = err e r
or_fail e (some a) r = ok a r

-- `if let Err(e) = … { tracing::error!(…) }`: the failure is dropped, the state stays.
unfoldable pub ignore_failure : Action (Unit {0}) → Action (Unit {0})
ignore_failure m r = elim (m r) [
  | ok _ r' ↦ ok tt r'
  | err _ r' ↦ ok tt r'
  | out_of_fuel ↦ out_of_fuel
]

unfoldable pub set_heap : Heap → Runner → Runner
set_heap h r = record r { steps = record r.steps { heap = h } }

unfoldable pub update_step : StepRef → (Step → Step) → Runner → Runner
unfolding set_heap modify_step
update_step s f r = set_heap (modify_step r.steps.heap s f) r

unfoldable pub update_machine : ℕ → Machine → Runner → Runner
unfolding set_machine
update_machine a m r = record r { machines = set_machine r.machines a m }

unfoldable pub update_metrics : (PromMetrics → PromMetrics) → Runner → Runner
update_metrics f r = record r { metrics = f r.metrics }

unfoldable pub build_done : Runner → Runner
unfolding update_metrics add64
build_done r = update_metrics (λ m. record m { nr_builds_done = add64 m.nr_builds_done 1 }) r

-- `db.get()` and `begin_transaction()`: statements collect in `tx`.
unfoldable pub begin_transaction : Env → Action (Unit {0})
begin_transaction env r = if env.connects r.db then ok tt (record r { tx = [] }) else err db_error r

unfoldable pub execute : Env → Statement → Action (Unit {0})
execute env s r =
    if env.accepts r.db r.tx s then ok tt (record r { tx = r.tx ++ s ∷ [] }) else err db_error r

-- A transaction that is dropped before this has no effect.
unfoldable pub commit : Env → Action (Unit {0})
commit env r =
    if env.commits r.db r.tx
    then ok tt (record r { db = r.db ++ r.tx; tx = [] })
    else err db_error r

-- A statement outside a transaction.
unfoldable pub run_statement : Env → Statement → Action (Unit {0})
run_statement env s r =
    if env.connects r.db && env.accepts r.db [] s
    then ok tt (record r { db = r.db ++ s ∷ [] })
    else err db_error r

-- The loops that send one statement for each of some values.
unfoldable pub execute_all : Env → List Statement → Action (Unit {0})
execute_all env [] = pure tt
execute_all env (s ∷ ss) = do execute env s; execute_all env ss

unfoldable pub trigger_dispatch : Runner → Runner
trigger_dispatch r = record r { notify_dispatch = true }

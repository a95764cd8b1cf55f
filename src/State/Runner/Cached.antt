-- ===== src/State/Runner/Cached.antt =====
-- Builds that are decided without a run, in queue-runner/src/state/mod.rs: `check_cached_failure`,
-- `handle_previous_failure`, `get_build_output_cached` and `handle_cached_build`.
use hydra_queue_runner.State.Runner.{
  ◌>>=◌, ◌>>◌, ok, err, get, set_heap, Env, Text, StepRef, Statement, Action, Runner, or_fail, pure,
  db_error, InsertBuildStep, begin_transaction, nix_error, execute, drv_not_found, number_too_big,
  output_unknown, modify, build_done, commit, ignore_failure,
}
use hydra_queue_runner.Base.{
  ℕ, ◌/◌, Bool, true, false, Option, none, some, List, [], ◌∷◌, ◌++◌, map, ◌==◌, if◌then◌else◌,
  unwrap_or,
}
use hydra_queue_runner.NixUtils.StorePath.{print_store_path, StorePath, path_eq}
use hydra_queue_runner.State.Step.{get_outputs}
use hydra_queue_runner.State.Runner.Fail.{step_system, step_outputs, shown_output}
use hydra_queue_runner.State.Runner.Finish.{at_build}
use hydra_queue_runner.Base.Text.{Text}
use hydra_queue_runner.State.Output.{
  product_of_row, OutputRow, BuildOutput, output_of_row, OwnedBuildProduct, BuildMetric, StoreInfo,
  NixSupport, output_new, get_mark_build_success_data,
}
use hydra_queue_runner.NixUtils.Derivation.{Output}
use hydra_queue_runner.State.Heap.{StepRef, modify_build, BuildRef, Build}
use hydra_queue_runner.State.Statement.{
  Statement, InsertBuildStep, create_build_step, update_build_after_previous_failure,
  mark_succeeded_build, notify_build_finished,
}
use hydra_queue_runner.State.Build.{set_finished_in_db}
use hydra_queue_runner.State.Remote.{try_i32}
use hydra_queue_runner.Db.Models.{BuildStatus}

unfoldable pub output_paths : Env → List Output → List Text
unfolding print_store_path
output_paths env [] = []
output_paths env (o ∷ os) =
    let rest = output_paths env os in
    elim o.path [ none ↦ rest | some p ↦ print_store_path env.store_prefix p ∷ rest ]

-- An error of the database counts as no failure.
unfoldable pub check_cached_failure : Env → StepRef → Runner → Bool
unfolding output_paths get_outputs
check_cached_failure env s r = elim (r.steps.heap.step s.addr) [
  | none ↦ false
  | some x ↦ elim (get_outputs x) [
    | none ↦ false
    | some os ↦
        if env.connects r.db
        then unwrap_or (env.paths_failed r.db (output_paths env os)) false
        else false
  ]
]

-- The loop that looks for an earlier step by the outputs; zero if there is none.
unfoldable pub last_step_of_outputs : Env → List Statement → Text → List Output → ℕ
unfolding print_store_path
last_step_of_outputs env db drv [] = 0
last_step_of_outputs env db drv (o ∷ os) =
    let rest = last_step_of_outputs env db drv os in
    let answer : Option (Option ℕ) = elim o.path [
      | none ↦ env.last_step_of_drv_output db drv o.name
      | some p ↦ env.last_step_of_output db (print_store_path env.store_prefix p)
    ] in
    elim answer [ none ↦ rest | some found ↦ elim found [ none ↦ rest | some id ↦ id ] ]

unfoldable pub propagated_from : Env → StepRef → Action ℕ
unfolding print_store_path last_step_of_outputs step_outputs
propagated_from env step = do
  r ← get
  let drv = print_store_path env.store_prefix step.drv_path
  found ← or_fail db_error (env.last_step_of_drv (r.db ++ r.tx) drv)
  let id = unwrap_or found 0
  pure (if id == 0 then last_step_of_outputs env (r.db ++ r.tx) drv (step_outputs r step) else id)

unfoldable pub cached_failure_row : Env → Runner → StepRef → BuildRef → ℕ → InsertBuildStep
unfolding step_system step_outputs shown_output print_store_path
cached_failure_row env r step b from = record {
  start_time = none;
  build_id = b.id;
  drv_path = print_store_path env.store_prefix step.drv_path;
  system = step_system r step;
  machine = [];
  status = BuildStatus.cached_failure;
  error_msg = none;
  propagated_from = some from;
  outputs = map (shown_output env) (step_outputs r step);
}

unfoldable pub mark_finished : BuildRef → Runner → Runner
unfolding set_heap modify_build set_finished_in_db
mark_finished b r = set_heap (modify_build r.steps.heap b (set_finished_in_db true)) r

-- The transaction of `handle_previous_failure` and what follows it, for an unfinished build.
unfoldable pub fail_from_cache : Env → BuildRef → StepRef → Build → Action (Unit {0})
fail_from_cache env b step x = do
  begin_transaction env
  from ← propagated_from env step
  r ← get
  execute env (create_build_step (cached_failure_row env r step b from))
  execute env (
      update_build_after_previous_failure x.id
        (if path_eq step.drv_path x.drv_path then BuildStatus.failed else BuildStatus.dep_failed))
  ignore_failure (execute env (notify_build_finished x.id []))
  commit env
  modify (mark_finished b)
  modify build_done

unfoldable pub handle_previous_failure : Env → BuildRef → StepRef → Action (Unit {0})
unfolding at_build
handle_previous_failure env b step =
    at_build (λ x. if x.finished_in_db then pure tt else fail_from_cache env b step x) b

-- What the database and the local store say about the outputs of a derivation.
pub record Answers : Type 0 where
  pub output_for_path : Text → Option (Option OutputRow)
  pub products_for : ℕ → Option (List OwnedBuildProduct)
  pub metrics_for : ℕ → Option (List BuildMetric)
  pub info : StoreInfo
  pub support : List Output → Option NixSupport

-- The row of an output that converts, with its products and metrics.
unfoldable pub read_output : Env → Answers → ℕ → BuildOutput → Action (Option BuildOutput)
unfolding product_of_row
read_output env ans id res = do
  products ← or_fail db_error (ans.products_for id)
  metrics ← or_fail db_error (ans.metrics_for id)
  pure (
      some
        (record res { products = map (product_of_row env.store_dir) products; metrics = metrics }))

-- The loop over the outputs: the first whose path has a row that converts.
unfoldable pub cached_output : Env → Answers → List Output → Action (Option BuildOutput)
unfolding print_store_path output_of_row
cached_output env ans [] = pure none
cached_output env ans (o ∷ os) =
    let rest = cached_output env ans os in
    elim o.path [
      | none ↦ rest
      | some p ↦ do
        found ← or_fail db_error (ans.output_for_path (print_store_path env.store_prefix p))
        elim found [
          | none ↦ rest
          | some row ↦ elim (output_of_row row) [
            | none ↦ rest
            | some res ↦ read_output env ans row.id res
          ]
        ]
    ]

unfoldable pub connect : Env → Action (Unit {0})
connect env r = if env.connects r.db then ok tt r else err db_error r

unfoldable pub get_build_output_cached : Env → Answers → StorePath → Action BuildOutput
get_build_output_cached env ans drv_path = do
  answer ← or_fail nix_error (env.query_drv drv_path)
  drv ← or_fail drv_not_found answer
  connect env
  found ← cached_output env ans drv.outputs
  elim found [
    | some res ↦ pure res
    | none ↦ or_fail output_unknown (output_new env.store_dir ans.info ans.support drv.outputs)
  ]

unfoldable pub succeed_from_cache : Env → BuildOutput → BuildRef → Build → Action (Unit {0})
succeed_from_cache env res b x = do
  begin_transaction env
  now ← or_fail number_too_big (try_i32 (env.now / 1000000000))
  execute env
      (mark_succeeded_build (get_mark_build_success_data env.store_prefix x res) true now now)
  modify build_done
  execute env (notify_build_finished x.id [])
  commit env
  modify (mark_finished b)

unfoldable pub handle_cached_build : Env → Answers → BuildRef → Action (Unit {0})
handle_cached_build env ans b = do
  res ← get_build_output_cached env ans b.drv_path
  at_build (succeed_from_cache env res b) b

-- ===== src/State/Runner/CreateStep.antt =====
-- `substitute_output` of queue-runner/src/utils.rs and `create_step` of
-- queue-runner/src/state/mod.rs. The streams of the source run up to 25 calls at a time; here their
-- calls follow each other in the order of the list. The FOD checker is not modelled.
use hydra_queue_runner.State.Runner.{
  ◌>>=◌, ◌>>◌, ok, err, out_of_fuel, get, Env, Action, add64, StepRef, StorePath, Derivation, Step,
  update_step, or_fail, pure, PromMetrics, Text, Runner, number_too_big, modify, no_fuel,
  update_metrics, begin_transaction, execute, commit,
}
use hydra_queue_runner.State.Statement.{create_substitution_step}
use hydra_queue_runner.State.Steps.{create}
use hydra_queue_runner.Base.{
  ℕ, zero, suc, ◌+◌, ◌/◌, Bool, true, false, not, ◌&&◌, ◌||◌, Option, none, some, List, [], ◌∷◌,
  ◌++◌, ◌==◌, if◌then◌else◌, length, any,
}
use hydra_queue_runner.NixUtils.Derivation.{Output, Derivation}
use hydra_queue_runner.Base.Words.{add64}
use hydra_queue_runner.State.Runner.Realise.{construct_log_file_path}
use hydra_queue_runner.State.Heap.{StepRef, Step, BuildRef, insert_step}
use hydra_queue_runner.NixUtils.StorePath.{StorePath, new_store_path, path_eq, print_store_path}
use hydra_queue_runner.State.Metrics.{PromMetrics}
use hydra_queue_runner.Base.Text.{codes, Text}
use hydra_queue_runner.State.Step.{add_dep}
use hydra_queue_runner.State.Runner.Cached.{check_cached_failure}
use hydra_queue_runner.State.Remote.{try_i32}
use hydra_queue_runner.State.Runner.Finish.{set_finished}

-- What the stores answer: the outputs that are missing locally and in the first remote store, and
-- whether a path can be substituted or is valid.
pub record Stores : Type 0 where
  pub missing_local : List Output → List Output
  pub missing_remote : List Output → List Output
  pub ensure_path : StorePath → Bool
  pub is_valid_path : StorePath → Bool
  pub use_substitutes : Bool

-- What is written about a substitution; the copy to the remote store is not modelled.
unfoldable pub record_substitution : Env → ℕ → StorePath → Output → StorePath → Action Bool
record_substitution env build_id drv o path = do
  time ← or_fail number_too_big (try_i32 (env.now / 1000000000))
  begin_transaction env
  execute env (
      create_substitution_step time time build_id (print_store_path env.store_prefix drv) o.name
        (some (print_store_path env.store_prefix path)))
  commit env
  pure true

unfoldable pub substitute_output : Env → Stores → ℕ → StorePath → Output → Action Bool
unfolding record_substitution
substitute_output env stores build_id drv o = elim o.path [
  | none ↦ pure false
  | some path ↦ do
    time ← or_fail number_too_big (try_i32 (env.now / 1000000000))
    if stores.ensure_path path then record_substitution env build_id drv o path else pure false
]

-- `Ok(v) if v`: an error counts as `false`.
unfoldable pub or_false : Action Bool → Action Bool
or_false m r = elim (m r) [ ok b r' ↦ ok b r' | err _ r' ↦ ok false r' | out_of_fuel ↦ out_of_fuel ]

unfoldable pub count_substitute : Bool → PromMetrics → PromMetrics
unfolding add64
count_substitute true m = record m {
  nr_substitutes_started = add64 m.nr_substitutes_started 1;
  nr_substitutes_succeeded = add64 m.nr_substitutes_succeeded 1;
}
count_substitute false m = record m {
  nr_substitutes_started = add64 m.nr_substitutes_started 1;
  nr_substitutes_failed = add64 m.nr_substitutes_failed 1;
}

-- The loop over the missing outputs, with the number of those that were substituted.
unfoldable pub substitute_all : Env → Stores → ℕ → StorePath → List Output → ℕ → Action ℕ
unfolding or_false substitute_output count_substitute
substitute_all env stores build_id drv [] n = pure n
substitute_all env stores build_id drv (o ∷ os) n = do
  done ← or_false (substitute_output env stores build_id drv o)
  modify (update_metrics (count_substitute done))
  substitute_all env stores build_id drv os (if done then n + 1 else n)

unfoldable pub outputs_there : Env → Stores → ℕ → StorePath → List Output → Action Bool
unfolding substitute_all
outputs_there env stores build_id drv missing =
    if not (length missing == 0) && stores.use_substitutes
    then (substitute_all env stores build_id drv missing 0 >>= λ n. pure (n == length missing))
    else pure (length missing == 0)

unfoldable pub paths_of : List Output → List StorePath
paths_of [] = []
paths_of (o ∷ os) = let rest = paths_of os in elim o.path [ none ↦ rest | some p ↦ p ∷ rest ]

-- The outputs that are missing. Those that are only missing in the remote store are uploaded.
unfoldable pub missing_outputs : Env → Stores → StorePath → Derivation → Action (List Output)
unfolding paths_of construct_log_file_path
missing_outputs env stores drv d r = elim r.remote_stores [
  | [] ↦ ok (stores.missing_local d.outputs) r
  | _ ∷ _ ↦
      let missing = stores.missing_remote d.outputs in
      if not (length missing == 0) && length (stores.missing_local d.outputs) == 0
      then elim (construct_log_file_path env drv) [
        | none ↦ ok missing r
        | some log ↦ ok [] (record r {
          uploads =
              r.uploads
              ++ record {
                store_paths = paths_of missing;
                log_remote_path = codes "log/" ++ drv.base_name;
                log_local_path = log;
              }
                ∷ [];
        })
      ]
      else ok missing r
]

pub data CreateStepResult : Type 0 where
  no_step : CreateStepResult
  valid_step previous_failure : StepRef → CreateStepResult

-- The sets that the calls share.
pub record Loading : Type 0 where
  pub finished_drvs : List StorePath
  pub new_steps : List StepRef
  pub new_runnable : List StepRef

unfoldable pub register : StorePath → Option BuildRef → Option StepRef → Action (StepRef × Bool)
unfolding create
register drv referring_build referring_step r =
    let made = create drv referring_build referring_step r.steps in
    ok (made.1, made.2) (record r { steps = made.0 })

unfoldable pub count_created : PromMetrics → PromMetrics
unfolding add64
count_created m = record m { queue_steps_created = add64 m.queue_steps_created 1 }

-- `query_drv(..).ok().flatten()`
unfoldable pub known_drv : Env → StorePath → Option Derivation
known_drv env drv = elim (env.query_drv drv) [ none ↦ none | some d ↦ d ]

unfoldable pub set_drv : Derivation → Step → Step
set_drv d s = record s { drv = some d }

unfoldable pub set_previous_failure : Bool → Step → Step
set_previous_failure v s = record s { previous_failure = v }

unfoldable pub set_created : Bool → Step → Step
set_created v s = record s { atomic_state = record s.atomic_state { created = v } }

-- A dependency that is not finished and has not failed is added to the step.
unfoldable pub link_dep : StepRef → StepRef → Runner → Runner
unfolding update_step add_dep
link_dep step dep r = elim (r.steps.heap.step dep.addr) [
  | none ↦ r
  | some d ↦ if d.finished || d.previous_failure then r else update_step step (add_dep dep) r
]

-- The loop over the inputs, with the recursive call as an argument: it stops at the first previous
-- failure.
unfoldable pub create_deps :
    (StorePath → Loading → Action (CreateStepResult × Loading))
    → Text
    → StepRef
    → List Text
    → Loading
    → Action (Option StepRef × Loading)
unfolding link_dep new_store_path
create_deps call store_dir step [] l = pure (none, l)
create_deps call store_dir step (i ∷ is) l = do
  made ← call (new_store_path store_dir i) l
  elim made.0 [
    | no_step ↦ create_deps call store_dir step is made.1
    | valid_step dep ↦ do modify (link_dep step dep); create_deps call store_dir step is made.1
    | previous_failure s ↦ pure (some s, made.1)
  ]

unfoldable pub has_no_deps : StepRef → Runner → Bool
has_no_deps s r = elim (r.steps.heap.step s.addr) [
  | none ↦ true
  | some x ↦ x.atomic_state.deps_len == 0
]

-- The end of `create_step`, once the dependencies are there.
unfoldable pub finish_creation : StepRef → Loading → Action (CreateStepResult × Loading)
unfolding update_step set_created has_no_deps insert_step
finish_creation step l = do
  modify (update_step step (set_created true))
  r ← get
  pure (
    valid_step step,
    record l {
      new_runnable = if has_no_deps step r then insert_step step l.new_runnable else l.new_runnable;
      new_steps = insert_step step l.new_steps;
    },
  )

-- `create_step` on fuel, for the build whose id is given.
unfoldable pub create_step :
    ℕ
    → Env
    → Stores
    → ℕ
    → Option BuildRef
    → Option StepRef
    → StorePath
    → Loading
    → Action (CreateStepResult × Loading)
unfolding register known_drv missing_outputs set_drv update_step check_cached_failure
    set_previous_failure outputs_there create_deps finish_creation
create_step zero env stores build_id referring_build referring_step drv l = no_fuel
create_step (suc n) env stores build_id referring_build referring_step drv l =
    elim (any (λ p. path_eq p drv) l.finished_drvs) [
      | true ↦ pure (no_step, l)
      | false ↦ do
        made ← register drv referring_build referring_step
        let step = made.0
        elim made.1 [
          | false ↦ pure (valid_step step, l)
          | true ↦ do
            modify (update_metrics count_created)
            elim (known_drv env drv) [
              | none ↦ pure (no_step, l)
              | some d ↦ do
                missing ← missing_outputs env stores drv d
                modify (update_step step (set_drv d))
                r ← get
                elim (check_cached_failure env step r) [
                  | true ↦ do
                    modify (update_step step (set_previous_failure true))
                    pure (previous_failure step, l)
                  | false ↦ do
                    there ← outputs_there env stores build_id drv missing
                    elim there [
                      | true ↦ do
                        modify (update_step step (set_finished true))
                        pure (no_step, record l { finished_drvs = drv ∷ l.finished_drvs })
                      | false ↦ do
                        deps ←
                            create_deps (create_step n env stores build_id none (some step))
                              env.store_dir step d.input_drvs l
                        elim deps.0 [
                          | some failed_step ↦ pure (previous_failure failed_step, deps.1)
                          | none ↦ finish_creation step deps.1
                        ]
                    ]
                ]
            ]
        ]
    ]

-- ===== src/State/Runner/CreateBuild.antt =====
-- `create_build` and `process_new_builds` of queue-runner/src/state/mod.rs: builds that are new in
-- the database get their steps. The calls of a stream follow each other in the order of the list.
use hydra_queue_runner.State.Runner.{
  ◌>>=◌, ◌>>◌, ok, out_of_fuel, add64, StorePath, set_heap, update_step, Env, trigger_dispatch,
  PromMetrics, run_statement, Action, Runner, pure, no_fuel, modify, build_done, update_metrics,
  ignore_failure, Statement,
}
use hydra_queue_runner.Base.Map
use hydra_queue_runner.Base.Map.{Map}
use hydra_queue_runner.State.Build.{
  id_Eq, propagate_priorities, insert_new_build, set_toplevel_step,
}
use hydra_queue_runner.Base.{
  ℕ, zero, suc, ◌+◌, Bool, true, false, none, some, List, [], ◌∷◌, ◌++◌, if◌then◌else◌, unwrap_or,
}
use hydra_queue_runner.State.Heap.{BuildRef, StepRef, modify_build}
use hydra_queue_runner.Base.Words.{add64}
use hydra_queue_runner.State.Runner.Finish.{at_build}
use hydra_queue_runner.NixUtils.StorePath.{StorePath, path_Eq}
use hydra_queue_runner.State.Runner.Fail.{is_unfinished}
use hydra_queue_runner.State.Runner.Cached.{
  handle_cached_build, Answers, handle_previous_failure, mark_finished,
}
use hydra_queue_runner.State.Runner.CreateStep.{
  create_step, Stores, CreateStepResult, valid_step, previous_failure, no_step,
}
use hydra_queue_runner.State.Steps.{make_all_rdeps_runnable}
use hydra_queue_runner.State.Metrics.{PromMetrics}
use hydra_queue_runner.State.Step.{make_runnable}
use hydra_queue_runner.State.Statement.{Statement}

-- The new builds that are left, by id, and what the calls share. The ids by derivation path do not
-- change.
pub record NewBuilds : Type 0 where
  pub by_id : Map ℕ BuildRef
  pub nr_added : ℕ
  pub finished_drvs : List StorePath
  pub new_runnable : List StepRef

unfoldable pub start_loading : BuildRef → NewBuilds → NewBuilds
start_loading b nb = record nb { nr_added = nb.nr_added + 1; by_id = Map.remove b.id nb.by_id }

unfoldable pub count_load : PromMetrics → PromMetrics
unfolding add64
count_load m = record m { queue_build_loads = add64 m.queue_build_loads 1 }

-- A build whose derivation is gone from the store: an error of the database is logged and dropped.
unfoldable pub abort_collected : Env → BuildRef → Action (Unit {0})
unfolding at_build run_statement mark_finished build_done
abort_collected env b = do
  at_build
      (λ x.
        if x.finished_in_db
        then pure tt
        else ignore_failure (run_statement env (Statement.abort_build x.id)))
      b
  modify (mark_finished b)
  modify build_done

-- The ids of the builds whose derivation is that of a new step.
unfoldable pub builds_of : Map StorePath (List ℕ) → List StepRef → List ℕ
builds_of by_path [] = []
builds_of by_path (s ∷ ss) = unwrap_or (Map.get s.drv_path by_path) [] ++ builds_of by_path ss

-- The loop over the ids, with the recursive call as an argument.
unfoldable pub create_others :
    (BuildRef → NewBuilds → Action NewBuilds) → List ℕ → NewBuilds → Action NewBuilds
create_others call [] nb = pure nb
create_others call (id ∷ ids) nb = elim (Map.get id nb.by_id) [
  | none ↦ create_others call ids nb
  | some b ↦ call b nb >>= λ nb'. create_others call ids nb'
]

unfoldable pub set_toplevel : BuildRef → StepRef → Runner → Runner
unfolding set_heap modify_build set_toplevel_step
set_toplevel b s r = set_heap (modify_build r.steps.heap b (set_toplevel_step s)) r

-- `build.propagate_priorities()`, with a bound for its loop.
unfoldable pub propagate_build : ℕ → BuildRef → Action (Unit {0})
unfolding propagate_priorities set_heap
propagate_build depth b r = elim (r.steps.heap.build b.addr) [
  | none ↦ ok tt r
  | some x ↦ elim (propagate_priorities depth x r.steps.heap) [
    | none ↦ out_of_fuel
    | some h ↦ ok tt (set_heap h r)
  ]
]

unfoldable pub add_build : BuildRef → Runner → Runner
unfolding is_unfinished insert_new_build
add_build b r = if is_unfinished r b then record r { builds = insert_new_build b r.builds } else r

-- The end of `create_build`: the build has a step, or all its outputs are there.
unfoldable pub settle_build : Env → Answers → ℕ → BuildRef → CreateStepResult → Action (Unit {0})
unfolding add_build set_toplevel propagate_build handle_cached_build
settle_build env ans depth b (valid_step s) = do
  modify (add_build b)
  modify (set_toplevel b s)
  propagate_build depth b
settle_build env ans depth b _ = ignore_failure (handle_cached_build env ans b)

-- `create_build` on fuel, which also bounds the depth of `create_step`.
unfoldable pub create_build :
    ℕ
    → Env
    → Stores
    → Answers
    → ℕ
    → Map StorePath (List ℕ)
    → BuildRef
    → NewBuilds
    → Action NewBuilds
unfolding start_loading count_load abort_collected create_step handle_previous_failure create_others
    builds_of settle_build
create_build zero env stores ans depth by_path b nb = no_fuel
create_build (suc n) env stores ans depth by_path b nb0 = do
  modify (update_metrics count_load)
  let nb = start_loading b nb0
  elim (stores.is_valid_path b.drv_path) [
    | false ↦ do abort_collected env b; pure nb
    | true ↦ do
      made ← create_step depth env stores b.id (some b) none b.drv_path (record {
        finished_drvs = nb.finished_drvs;
        new_steps = [];
        new_runnable = nb.new_runnable;
      })
      let nb1 : NewBuilds = record nb {
        finished_drvs = made.1.finished_drvs;
        new_runnable = made.1.new_runnable;
      }
      elim made.0 [
        | previous_failure s ↦ do ignore_failure (handle_previous_failure env b s); pure nb1
        | no_step ↦ do
          nb2 ←
              create_others (create_build n env stores ans depth by_path)
                (builds_of by_path made.1.new_steps) nb1
          settle_build env ans depth b no_step
          pure nb2
        | valid_step s ↦ do
          nb2 ←
              create_others (create_build n env stores ans depth by_path)
                (builds_of by_path made.1.new_steps) nb1
          settle_build env ans depth b (valid_step s)
          pure nb2
      ]
  ]

unfoldable pub make_steps_runnable : ℕ → List StepRef → Runner → Runner
unfolding update_step make_runnable
make_steps_runnable now [] r = r
make_steps_runnable now (s ∷ ss) r =
    make_steps_runnable now ss (update_step s (make_runnable now) r)

unfoldable pub count_read : ℕ → PromMetrics → PromMetrics
unfolding add64
count_read added m = record m { nr_builds_read = add64 m.nr_builds_read added }

unfoldable pub count_early_exit : PromMetrics → PromMetrics
unfolding add64
count_early_exit m = record m { queue_checks_early_exits = add64 m.queue_checks_early_exits 1 }

unfoldable pub count_checked : PromMetrics → PromMetrics
unfolding add64
count_checked m = record m { queue_checks_finished = add64 m.queue_checks_finished 1 }

-- The loop over the new ids. `late` says after which build the time for a run is over.
unfoldable pub process_ids :
    ℕ
    → Env
    → Stores
    → Answers
    → ℕ
    → (ℕ → Bool)
    → Map StorePath (List ℕ)
    → List ℕ
    → NewBuilds
    → Action (Unit {0})
unfolding create_build make_steps_runnable count_read count_early_exit
process_ids fuel env stores ans depth late by_path [] nb = pure tt
process_ids fuel env stores ans depth late by_path (id ∷ ids) nb = elim (Map.get id nb.by_id) [
  | none ↦ process_ids fuel env stores ans depth late by_path ids nb
  | some b ↦ do
    done ←
        create_build fuel env stores ans depth by_path b
          (record nb { nr_added = 0; new_runnable = [] })
    modify (make_steps_runnable env.now done.new_runnable)
    modify (update_metrics (count_read done.nr_added))
    elim (late id) [
      | true ↦ modify (update_metrics count_early_exit)
      | false ↦ process_ids fuel env stores ans depth late by_path ids done
    ]
]

unfoldable pub release_finished : ℕ → Runner → Runner
unfolding make_all_rdeps_runnable
release_finished now r = record r { steps = make_all_rdeps_runnable now r.steps }

unfoldable pub process_new_builds :
    ℕ
    → Env
    → Stores
    → Answers
    → ℕ
    → (ℕ → Bool)
    → Map StorePath (List ℕ)
    → List ℕ
    → Map ℕ BuildRef
    → Action (Unit {0})
unfolding process_ids release_finished trigger_dispatch
process_new_builds fuel env stores ans depth late by_path new_ids by_id = do
  process_ids fuel env stores ans depth late by_path new_ids
      (record { by_id = by_id; nr_added = 0; finished_drvs = []; new_runnable = [] })
  modify (release_finished env.now)
  modify (update_metrics count_checked)
  modify trigger_dispatch

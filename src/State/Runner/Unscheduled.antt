-- ===== src/State/Runner/Unscheduled.antt =====
-- A step that fails: its job is not scheduled any more, and no other job is scheduled anew.
use hydra_queue_runner.Base.Map
use hydra_queue_runner.State.Runner.{get, ok, err, step_not_scheduled}
use hydra_queue_runner.State.Runner.Once.{SameScheduled_Framing, close_builds-queues}
use hydra_queue_runner.State.Machine.Registry.{uuid_Eq}
use hydra_queue_runner.Base.{
  ◌≡◌, Option, Option-cases, Bool, refl, false, [], inl, inr, ◌∷◌, ap, ◌∙◌, arith, ltb, none, some,
}
use hydra_queue_runner.NixUtils.StorePath.{StorePath, path_Eq}
use hydra_queue_runner.State.Runner.Fail.{
  fail_step, get_all_indirect_builds, inner_fail_job, give_up, retry_or_give_up, count_failure,
  notify_failed, retry_later, add_try, failure_result, tries_of, with_stop_time,
}
use hydra_queue_runner.State.Runner.{
  build_done, Env, StepRef, update_metrics, update_machine, Runner, trigger_dispatch, Text, or_fail,
  Action, number_too_big, modify, ◌>>=◌, Outcome,
}
use hydra_queue_runner.State.Runner.Finish.{
  take_scheduled, take_job, update_queues, mark_step, finish_build_step, machine_name, step_of,
  set_finished, close_builds,
}
use hydra_queue_runner.State.Heap.{StepRef}
use hydra_queue_runner.State.Queue.Inner.{remove_job_from_scheduled, set_already_scheduled}
use hydra_queue_runner.State.Remote.{BuildResultState, get_total_step_time_ms}
use hydra_queue_runner.State.Runner.Hoare.{
  Keeps, Ends, bind-Keeps, if-Moves, modify-Moves, bind-Moves, pure-Moves, finish_build_step-Moves,
  get-Moves, or_fail-Moves, begin_transaction-Moves, execute-Moves, commit-Moves,
}
use hydra_queue_runner.State.Queue.{ScheduledItem, set_info, decr_active, InnerQueues}
use hydra_queue_runner.State.Machine.Counters.{BuildTimings}
use hydra_queue_runner.State.Runner.Once.{
  Unscheduled, SameScheduled, reported, quiet, remove_job-scheduled, SameScheduled_Blind,
  modify_queue-scheduled, seen,
}
use hydra_queue_runner.State.Machine.{Job}
use hydra_queue_runner.Base.Text.{Text}
use hydra_queue_runner.State.Step.{get_dependents}
use hydra_queue_runner.Base.Map.{Map}
use hydra_queue_runner.State.Runner.Parts.{update_step-Moves, take_from_machine-Moves}
use mathlib.Core.Bool.{true}
use hydra_queue_runner.State.Runner.Settled.Builds.{fail_rounds-Keeps}
use hydra_queue_runner.State.Runner.Settled.{fail_builds-Moves}

module _ (d : StorePath) where
  get_all_indirect_builds-Unscheduled :
      (env : Env) (step : StepRef) → Keeps (Unscheduled d) (get_all_indirect_builds env step)
  unfolding get_all_indirect_builds
  get_all_indirect_builds-Unscheduled env step = record {
    run = λ r k. elim (Option-cases (get_dependents env.search r.steps.heap step ([], []))) [
      | inl out ↦ rw (out, get_all_indirect_builds) tt
      | inr (([], steps), e) ↦ rw (e, get_all_indirect_builds) k
      | inr ((b ∷ bs, steps), e) ↦ rw (e, get_all_indirect_builds) k
    ];
  }

  build_done-SameScheduled : (r : Runner) → SameScheduled r (build_done r)
  unfolding build_done update_metrics
  build_done-SameScheduled r = refl

  inner_fail_job-Unscheduled :
      (env : Env) (machine : Option Text) (job : Job) (step : StepRef)
      → Keeps (Unscheduled d) (inner_fail_job env machine job step)
  unfolding inner_fail_job notify_failed trigger_dispatch
  inner_fail_job-Unscheduled env machine job step =
      bind-Keeps (quiet d (if-Moves _ (pure-Moves tt) (finish_build_step-Moves env _ _ _ machine)))
        λ _.
          bind-Keeps
            (fail_rounds-Keeps (Unscheduled d) env machine (with_stop_time env job) step
              (get_all_indirect_builds-Unscheduled env step)
              (λ bs. quiet d (fail_builds-Moves build_done-SameScheduled env machine _ step bs))
              (λ bs. quiet d (seen (close_builds bs) (close_builds-queues bs))) env.rounds false [])
            λ ids. quiet d (
              bind-Moves
                (bind-Moves (begin_transaction-Moves env)
                  λ _. bind-Moves (execute-Moves env _) λ _. commit-Moves env)
                λ _. seen trigger_dispatch λ r. refl)

  give_up-Unscheduled :
      (env : Env) (item : ScheduledItem) (job : Job) → Keeps (Unscheduled d) (give_up env item job)
  unfolding give_up update_queues
  give_up-Unscheduled env item job =
      bind-Keeps
        (quiet d
          (modify-Moves _ λ r. remove_job-scheduled item.step_info item.build_queue r.queues))
        λ _. bind-Keeps (quiet d get-Moves) λ r. inner_fail_job-Unscheduled env _ job _

  retry_or_give_up-Unscheduled :
      (env : Env) (item : ScheduledItem) (job : Job)
      → Keeps (Unscheduled d) (retry_or_give_up env item job)
  unfolding retry_or_give_up retry_later add_try update_queues update_metrics trigger_dispatch
      set_already_scheduled set_info
  retry_or_give_up-Unscheduled env item job = by_flag job.result.can_retry
    where
      by_left :
          (r : Runner) (c : Bool)
          → Keeps (Unscheduled d) (elim c as (λ _. Action (Unit {0})) [
            | false ↦ give_up env item job
            | true ↦ modify (retry_later env item (tries_of item r)) >>= λ _.
                finish_build_step env job.build_id job.step_nr job.result (machine_name item r)
                >>= λ _. modify trigger_dispatch
          ])
      by_left r false = give_up-Unscheduled env item job
      by_left r true = quiet d (
          bind-Moves (modify-Moves _ λ s. refl) λ _.
            bind-Moves (finish_build_step-Moves env _ _ _ _) λ _. seen trigger_dispatch λ s. refl)

      by_flag :
          (c : Bool)
          → Keeps (Unscheduled d) (elim c as (λ _. Action (Unit {0})) [
            | false ↦ give_up env item job
            | true ↦ modify (add_try item) >>= λ _. get >>= λ r.
                elim (ltb (tries_of item r) env.max_retries) as (λ _. Action (Unit {0})) [
                  | false ↦ give_up env item job
                  | true ↦ modify (retry_later env item (tries_of item r)) >>= λ _.
                      finish_build_step env job.build_id job.step_nr job.result
                        (machine_name item r)
                      >>= λ _. modify trigger_dispatch
                ]
          ])
      by_flag false = give_up-Unscheduled env item job
      by_flag true =
          bind-Keeps (quiet d (seen (add_try item) (λ s. refl))) λ _.
            bind-Keeps (quiet d get-Moves) λ r. by_left r (ltb (tries_of item r) env.max_retries)

  -- The rest of `fail_step`, when the job is taken.
  fail_rest-Unscheduled :
      (env : Env) (state : BuildResultState) (timings : BuildTimings) (taken : ScheduledItem × Job)
      → Keeps (Unscheduled d) (
          or_fail number_too_big (failure_result env state timings taken.1) >>= λ res.
          modify (count_failure env timings (get_total_step_time_ms res) taken.0) >>= λ _.
          retry_or_give_up env taken.0 (record taken.1 { result = res }))
  unfolding count_failure update_machine update_metrics
  fail_rest-Unscheduled env state timings taken = bind-Keeps (quiet d (or_fail-Moves _ _)) λ res.
      bind-Keeps (quiet d (seen _ λ r. refl))
        λ _. retry_or_give_up-Unscheduled env taken.0 (record taken.1 { result = res })

  remove_job_from_scheduled-keeps :
      (drv : StorePath) (q : InnerQueues)
      → Map.get d q.scheduled ≡ none
      → Map.get d (remove_job_from_scheduled drv q).0.scheduled ≡ none
  unfolding remove_job_from_scheduled set_already_scheduled set_info
  remove_job_from_scheduled-keeps drv q k = elim (Option-cases (Map.get drv q.scheduled)) [
    | inl missing ↦ rw (missing, remove_job_from_scheduled) k
    | inr (item, e) ↦
        rw (e, remove_job_from_scheduled)
          (ap (Map.get d) (modify_queue-scheduled _ item.build_queue decr_active)
            ∙ ground (arith, k, Map.get-remove drv d q.scheduled))
  ]

  take_scheduled-Keeps : (drv : StorePath) → Keeps (Unscheduled d) (take_scheduled drv)
  unfolding take_scheduled
  take_scheduled-Keeps drv = record {
    run = λ r k.
        by_found r (remove_job_from_scheduled-keeps drv r.queues k)
          (remove_job_from_scheduled drv r.queues).1;
  }
    where
      by_found :
          (r : Runner)
          → Map.get d (remove_job_from_scheduled drv r.queues).0.scheduled ≡ none
          → (found : Option ScheduledItem)
          → Ends
              (λ _. Unscheduled d)
              (Unscheduled d)
              (elim found as (λ _. Outcome ScheduledItem) [
                | none ↦
                    err step_not_scheduled
                      (record r { queues = (remove_job_from_scheduled drv r.queues).0 })
                | some item ↦
                    ok item (record r { queues = (remove_job_from_scheduled drv r.queues).0 })
              ])
      by_found r k none = k
      by_found r k (some item) = k

  pub fail_step-Keeps :
      (env : Env) (drv : StorePath) (state : BuildResultState) (timings : BuildTimings)
      → Keeps (Unscheduled d) (fail_step env drv state timings)
  unfolding fail_step take_job mark_step
  fail_step-Keeps env drv state timings =
      bind-Keeps
        (bind-Keeps (take_scheduled-Keeps drv) λ item. quiet d (
          bind-Moves (update_step-Moves SameScheduled_Blind (step_of item) (set_finished false))
            λ _.
              bind-Moves (take_from_machine-Moves SameScheduled_Blind env drv item)
                λ job. pure-Moves (item, job)))
        λ taken. fail_rest-Unscheduled env state timings taken

pub fail_step-Unscheduled :
    (env : Env) (drv : StorePath) (state : BuildResultState) (timings : BuildTimings) (r : Runner)
    → Ends (λ _. Unscheduled drv) (Unscheduled drv) (fail_step env drv state timings r)
unfolding fail_step
fail_step-Unscheduled env drv state timings =
    reported env false drv _ λ taken. fail_rest-Unscheduled drv env state timings taken

-- ===== src/State/Runner/Once.antt =====
-- A scheduled job is reported once: what a report leaves in the list of scheduled jobs.
use hydra_queue_runner.State.Runner.{
  Runner, Text, Action, Env, modify, StepRef, set_heap, build_done, Outcome, update_metrics,
  trigger_dispatch, ◌>>=◌, step_not_scheduled, update_machine, or_fail, number_too_big,
}
use hydra_queue_runner.Base.Map
use hydra_queue_runner.State.Queue.Inner.{remove_job}
use hydra_queue_runner.NixUtils.StorePath.{path_Eq, StorePath, path_eq_iff}
use hydra_queue_runner.State.Runner.{ok, err, get}
use hydra_queue_runner.State.Machine.{Job}
use hydra_queue_runner.Base.{
  ℕ, ◌≡◌, refl, ap, ◌∙◌, inl, inr, none, [], arith, Option-cases, Bool, Option, List, ◌∷◌, some,
  true,
}
use hydra_queue_runner.State.Runner.Hoare.{
  Framing, Moves, Keeps, Ends, frame-Keeps, modify-Moves, bind-Ends, bind-Moves,
  begin_transaction-Moves, or_fail-Moves, pure-Moves, execute-Moves, commit-Moves,
  execute_all-Moves, weaken-Ends, get-Moves, finish_build_step-Moves,
}
use hydra_queue_runner.State.Queue.{
  modify_queue, InnerQueues, set_info, BuildQueue, decr_active, ScheduledItem,
}
use hydra_queue_runner.State.Queue.Inner.{
  remove_job_from_scheduled, remove_job, set_already_scheduled,
}
use hydra_queue_runner.Base.Text.{Text, text_Eq}
use hydra_queue_runner.State.Runner.Finish.{
  take_scheduled, take_job, close_builds, forget_step, finish_direct, mark_step, close_build,
  mark_build_succeeded, step_of, set_finished, update_queues, succeed_step, count_success,
  upload_outputs, success_result, finish_build_step, machine_name, direct_of,
}
use hydra_queue_runner.State.Runner.Parts.{
  Blind, update_step-Moves, take_from_machine-Moves, each_build-Moves,
}
use hydra_queue_runner.State.Heap.{StepRef, BuildRef}
use hydra_queue_runner.State.Output.{BuildOutput}
use hydra_queue_runner.State.Runner.Fail.{fail_step}
use hydra_queue_runner.State.Remote.{BuildResultState, get_total_step_time_ms}
use hydra_queue_runner.State.Machine.Counters.{BuildTimings}

-- The list of scheduled jobs is the same.
abbrev pub SameScheduled : Runner → Runner → Type 0
SameScheduled r s = s.queues.scheduled ≡ r.queues.scheduled

instance abbrev pub SameScheduled_Framing : Framing SameScheduled
SameScheduled_Framing = record {
  same = λ r. refl;
  trans = λ r s t f g. g ∙ f;
  open_tx = λ r tx. refl;
  grow = λ r more tx. refl;
}

-- The job is not scheduled, whether the report was a success or not.
abbrev pub Unscheduled : StorePath → Runner → Type 0
Unscheduled drv r = Map.get drv r.queues.scheduled ≡ none

pub modify_queue-scheduled :
    (q : InnerQueues) (system : Text) (f : BuildQueue → BuildQueue)
    → (modify_queue q system f).scheduled ≡ q.scheduled
unfolding modify_queue
modify_queue-scheduled q system f = elim (Option-cases (Map.get system q.inner)) [
  | inl gone ↦ rw (gone, modify_queue) refl
  | inr (bq, found) ↦ rw (found, modify_queue) refl
]

pub remove_job-scheduled :
    (a : ℕ) (system : Text) (q : InnerQueues) → (remove_job [] a system q).scheduled ≡ q.scheduled
unfolding remove_job
remove_job-scheduled a system q = modify_queue-scheduled _ system _

remove_job_from_scheduled-none :
    (drv : StorePath) (q : InnerQueues)
    → Map.get drv (remove_job_from_scheduled drv q).0.scheduled ≡ none
unfolding remove_job_from_scheduled set_already_scheduled set_info
remove_job_from_scheduled-none drv q = elim (Option-cases (Map.get drv q.scheduled)) [
  | inl missing ↦ rw (missing, remove_job_from_scheduled) missing
  | inr (item, e) ↦
      rw (e, remove_job_from_scheduled)
        (ap (Map.get drv) (modify_queue-scheduled _ item.build_queue decr_active)
          ∙ ground (arith, Map.get-remove drv drv q.scheduled, path_eq_iff drv drv))
]

-- Changes of the state that leave the list of scheduled jobs alone.
pub quiet :
    (drv : StorePath) {A : Type 0} {m : Action A}
    → Moves SameScheduled m
    → Keeps (Unscheduled drv) m
quiet drv h = frame-Keeps SameScheduled (λ r s f k. ap (Map.get drv) f ∙ k) h

take_scheduled-Unscheduled :
    (drv : StorePath) (r : Runner)
    → Ends (λ _. Unscheduled drv) (Unscheduled drv) (take_scheduled drv r)
unfolding take_scheduled
take_scheduled-Unscheduled drv r = by_found (remove_job_from_scheduled drv r.queues).1
  where
    by_found :
        (found : Option ScheduledItem)
        → Ends
            (λ _. Unscheduled drv)
            (Unscheduled drv)
            (elim found as (λ _. Outcome ScheduledItem) [
              | none ↦
                  err step_not_scheduled
                    (record r { queues = (remove_job_from_scheduled drv r.queues).0 })
              | some item ↦
                  ok item (record r { queues = (remove_job_from_scheduled drv r.queues).0 })
            ])
    by_found none = remove_job_from_scheduled-none drv r.queues
    by_found (some item) = remove_job_from_scheduled-none drv r.queues

-- Nothing of the state is seen but the queues.
pub seen :
    (f : Runner → Runner)
    → ((r : Runner) → (f r).queues ≡ r.queues)
    → Moves SameScheduled (modify f)
seen f h = modify-Moves f λ r. ap (λ (q : InnerQueues). q.scheduled) (h r)

pub SameScheduled_Blind : Blind SameScheduled
SameScheduled_Blind = record { machines = λ r ms. refl; steps = λ r cells. refl }

pub take_job-Unscheduled :
    (env : Env) (v : Bool) (drv : StorePath) (r : Runner)
    → Ends (λ _. Unscheduled drv) (Unscheduled drv) (take_job env v drv r)
unfolding take_job mark_step
take_job-Unscheduled env v drv r =
    bind-Ends (λ _. Unscheduled drv) (λ _. Unscheduled drv) (Unscheduled drv) (take_scheduled drv) _
      r (take_scheduled-Unscheduled drv r)
      λ item.
        (quiet drv (
          bind-Moves (update_step-Moves SameScheduled_Blind (step_of item) (set_finished v)) λ _.
            bind-Moves (take_from_machine-Moves SameScheduled_Blind env drv item)
              λ job. pure-Moves (item, job))).run

-- An operation that takes the job first and then leaves the list alone.
pub reported :
    (env : Env) (v : Bool) (drv : StorePath) (rest : ScheduledItem × Job → Action (Unit {0}))
    → ((taken : ScheduledItem × Job) → Keeps (Unscheduled drv) (rest taken))
    → (r : Runner) → Ends (λ _. Unscheduled drv) (Unscheduled drv) ((take_job env v drv >>= rest) r)
reported env v drv rest k r =
    bind-Ends (λ _. Unscheduled drv) (λ _. Unscheduled drv) (Unscheduled drv) (take_job env v drv)
      rest r (take_job-Unscheduled env v drv r) λ taken. (k taken).run

pub close_builds-queues : (bs : List BuildRef) (r : Runner) → (close_builds bs r).queues ≡ r.queues
unfolding close_builds close_build set_heap
close_builds-queues [] r = refl
close_builds-queues (b ∷ bs) r = close_builds-queues bs (close_build b r)

forget_step-queues :
    (s : StepRef) (bs : List BuildRef) (r : Runner) → (forget_step s bs r).queues ≡ r.queues
unfolding forget_step
forget_step-queues s [] r = refl
forget_step-queues s (b ∷ bs) r = refl

finish_direct-quiet :
    (env : Env) (output : BuildOutput) (item : ScheduledItem) (job : Job) (direct : List BuildRef)
    → Moves SameScheduled (finish_direct env output item job direct)
unfolding finish_direct mark_build_succeeded build_done update_metrics set_heap trigger_dispatch
finish_direct-quiet env output item job direct =
    bind-Moves (seen _ λ r. forget_step-queues (step_of item r) direct r) λ _.
      bind-Moves (begin_transaction-Moves env) λ _. bind-Moves (or_fail-Moves _ _) λ start_time.
        bind-Moves (or_fail-Moves _ _) λ stop_time.
          bind-Moves
            (each_build-Moves _ (λ x. bind-Moves (execute-Moves env _) λ _. seen _ λ r. refl)
              direct)
            λ _. bind-Moves (commit-Moves env) λ _.
              bind-Moves (seen (close_builds direct) (close_builds-queues direct)) λ _.
                bind-Moves (begin_transaction-Moves env) λ _.
                  bind-Moves (execute_all-Moves env _) λ _.
                    bind-Moves (commit-Moves env)
                      λ _. bind-Moves (seen _ λ r. refl) λ _. seen _ λ r. refl

succeed_rest-quiet :
    (env : Env) (output : BuildOutput) (taken : ScheduledItem × Job)
    → Moves SameScheduled (
        modify (update_queues (remove_job [] taken.0.step_info taken.0.build_queue)) >>= λ _.
        or_fail number_too_big (success_result env output taken.1) >>= λ res.
        modify (count_success env output.timings (get_total_step_time_ms res) taken.0) >>= λ _.
        get >>= λ r.
        finish_build_step env taken.1.build_id taken.1.step_nr res (machine_name taken.0 r) >>= λ _.
        modify (upload_outputs env output (record taken.1 { result = res })) >>= λ _. get >>= λ r'.
        finish_direct env output taken.0 (record taken.1 { result = res }) (direct_of taken.0 r'))
unfolding update_queues count_success update_metrics update_machine upload_outputs
succeed_rest-quiet env output taken =
    bind-Moves
      (modify-Moves _ λ r. remove_job-scheduled taken.0.step_info taken.0.build_queue r.queues)
      λ _. bind-Moves (or_fail-Moves _ _) λ res. bind-Moves (seen _ λ r. refl) λ _.
        bind-Moves get-Moves λ r. bind-Moves (finish_build_step-Moves env _ _ _ _) λ _.
          bind-Moves
            (seen (upload_outputs env output (record taken.1 { result = res })) λ r. ground arith)
            λ _.
              bind-Moves get-Moves
                λ r'. finish_direct-quiet env output taken.0 (record taken.1 { result = res }) _

succeed_step-Unscheduled :
    (env : Env) (drv : StorePath) (output : BuildOutput) (r : Runner)
    → Ends (λ _. Unscheduled drv) (Unscheduled drv) (succeed_step env drv output r)
unfolding succeed_step
succeed_step-Unscheduled env drv output =
    reported env true drv _ λ taken. quiet drv (succeed_rest-quiet env output taken)

-- A report for a job that is not scheduled is refused, and the state stays as it is.
succeed_step-refused :
    (env : Env) (drv : StorePath) (output : BuildOutput) (r : Runner)
    → Unscheduled drv r
    → succeed_step env drv output r ≡ err step_not_scheduled r
unfolding succeed_step take_job take_scheduled remove_job_from_scheduled ◌>>=◌
succeed_step-refused env drv output r h = ground (arith, h)

fail_step-refused :
    (env : Env) (drv : StorePath) (state : BuildResultState) (timings : BuildTimings) (r : Runner)
    → Unscheduled drv r
    → fail_step env drv state timings r ≡ err step_not_scheduled r
unfolding fail_step take_job take_scheduled remove_job_from_scheduled ◌>>=◌
fail_step-refused env drv state timings r h = ground (arith, h)

-- Both reports are refused in a state, and leave it as it is.
abbrev pub Refuses :
    Env → StorePath → BuildOutput → BuildResultState → BuildTimings → Runner → Type 0
Refuses env drv output state timings r =
    (succeed_step env drv output r ≡ err step_not_scheduled r)
    × (fail_step env drv state timings r ≡ err step_not_scheduled r)

-- A job is reported once. However `succeed_step` has ended for a derivation, returned or failed on
-- the way, a further report of success or of failure for it is refused with the error that the step
-- is not scheduled, and changes nothing.
pub succeed_step_once :
    (env env' : Env) (drv : StorePath) (output output' : BuildOutput) (state : BuildResultState)
    (timings : BuildTimings) (r : Runner)
    → Ends
        (λ _. Refuses env' drv output' state timings)
        (Refuses env' drv output' state timings)
        (succeed_step env drv output r)
succeed_step_once env env' drv output output' state timings r =
    weaken-Ends (λ _. Unscheduled drv) _ (Unscheduled drv) _ (succeed_step env drv output r)
      (λ _ s h.
        (succeed_step-refused env' drv output' s h, fail_step-refused env' drv state timings s h))
      (λ s h.
        (succeed_step-refused env' drv output' s h, fail_step-refused env' drv state timings s h))
      (succeed_step-Unscheduled env drv output r)

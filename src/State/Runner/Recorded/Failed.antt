-- ===== src/State/Runner/Recorded/Failed.antt =====
-- `fail_step` and `inner_fail_job` never mark a build as finished before the database knows.
use hydra_queue_runner.State.Runner.{
  ◌>>=◌, ◌>>◌, Outcome, execute_all, Env, pure, get, or_fail, StepRef, Text, Statement, Runner,
  number_too_big, execute, modify, build_done, begin_transaction, commit, Steps, StorePath,
  update_machine, update_metrics, trigger_dispatch, no_fuel,
}
use hydra_queue_runner.State.Machine.Counters.{BuildTimings}
use hydra_queue_runner.State.Runner.Recorded.{
  Frame_Framing, finishes, Frame, IsRecorded, RecordedAt, recorded_grows,
  update_build_after_failure, is_recorded, Frame-IsRecorded, close_builds-IsRecorded,
}
use hydra_queue_runner.Base.{
  ℕ, zero, suc, ◌+◌, ◌*◌, ◌≡◌, refl, ap, inl, inr, Bool, true, false, not, ◌&&◌, Option, none, some,
  List, [], ◌∷◌, ◌++◌, map, ltb, if◌then◌else◌, ==_iff, Bool-cases, Option-cases, All,
}
use hydra_queue_runner.State.Runner.Fail.{
  get_all_indirect_builds, create_failed_steps, remember_failed_paths, mark_build_failed,
  mark_failed, fail_builds, failed_paths, step_outputs, failed_status, remove_steps, fail_rounds,
  inner_fail_job, count_failure, give_up, retry_later, retry_or_give_up, fail_step, is_done,
  notify_failed, add_try, with_stop_time, tries_of, set_after, incr_tries,
}
use hydra_queue_runner.State.Heap.{StepRef, BuildRef, Build, Heap}
use hydra_queue_runner.Base.Text.{Text}
use hydra_queue_runner.State.Statement.{Statement}
use hydra_queue_runner.State.Machine.{Job}
use hydra_queue_runner.State.Runner.Hoare.{
  bind-Keeps, Moves, Ends, pure-Moves, bind-Moves, bind-Ends, get-Moves, begin_transaction-Moves,
  if-Moves, weaken-Ends, execute-Moves, finish_build_step-Moves, commit-Moves, or_fail-Moves,
}
use hydra_queue_runner.State.Runner.Recorded.Marks.{
  Tells, Inside, Inside-refl, execute-Inside, Inside-trans, tell_done-Tells, KnownAt, Known,
  each_build-TellsAll, KnownAt-RecordedAt, KnownAt-moved, commit-Recorded,
}
use hydra_queue_runner.State.Step.{get_dependents}
use hydra_queue_runner.Db.Models.{status_eq, BuildStatus}
use hydra_queue_runner.State.Remote.{
  get_start_time_as_i32, get_stop_time_as_i32, BuildResultState, get_total_step_time_ms,
}
use hydra_queue_runner.State.Steps.{remove, Steps}
use hydra_queue_runner.State.Runner.Finish.{
  each_build, close_builds, update_queues, finish_build_step, step_of, machine_name,
}
use hydra_queue_runner.State.Runner.Recorded.Steps.{
  Records, frame-Records, quiet, update_step-quiet, dispatch-quiet, Frame_Blind, queues-Frame,
}
use hydra_queue_runner.NixUtils.StorePath.{StorePath}
use hydra_queue_runner.State.Queue.{ScheduledItem}
use hydra_queue_runner.State.Runner.Parts.{update_step-Moves, take_job-Moves}

pub remove_steps-heap : (ss : List StepRef) (st : Steps) → (remove_steps ss st).heap ≡ st.heap
unfolding remove_steps remove
remove_steps-heap [] st = refl
remove_steps-heap (s ∷ ss) st = remove_steps-heap ss (remove s.drv_path st)

get_all_indirect_builds-Records :
    (env : Env) (step : StepRef) → Records (get_all_indirect_builds env step)
unfolding get_all_indirect_builds
get_all_indirect_builds-Records env step = record {
  run = λ r rec. elim (Option-cases (get_dependents env.search r.steps.heap step ([], []))) [
    | inl out ↦ rw (out, get_all_indirect_builds) tt
    | inr (([], steps), e) ↦
        rw (e, get_all_indirect_builds)
          (Frame-IsRecorded r (record r { steps = remove_steps steps r.steps })
            (record {
              same = ap (λ (h : Heap). h.build) (remove_steps-heap steps r.steps);
              grows = λ id h. h;
            })
            rec)
    | inr ((b ∷ bs, steps), e) ↦ rw (e, get_all_indirect_builds) rec
  ];
}

create_failed_steps-Moves :
    (env : Env) (machine : Option Text) (job : Job) (step : StepRef) (bs : List BuildRef)
    → Moves Frame (create_failed_steps env machine job step bs)
unfolding create_failed_steps
create_failed_steps-Moves env machine job step [] = pure-Moves tt
create_failed_steps-Moves env machine job step (b ∷ bs) = bind-Moves get-Moves λ r.
    bind-Moves (if-Moves _ (pure-Moves tt) (execute-Moves env _))
      λ _. create_failed_steps-Moves env machine job step bs

execute_all-Inside :
    (env : Env) (ss : List Statement) (r : Runner)
    → Ends (λ _ s. Inside r s) (Inside r) (execute_all env ss r)
unfolding execute_all pure
execute_all-Inside env [] r = Inside-refl r
execute_all-Inside env (s ∷ ss) r =
    bind-Ends (λ _ t. Inside r t) (λ _ t. Inside r t) (Inside r) (execute env s)
      (λ _. execute_all env ss) r (execute-Inside env s r)
      λ _ t i.
        weaken-Ends (λ _ u. Inside t u) (λ _ u. Inside r u) (Inside t) (Inside r)
          (execute_all env ss t) (λ _ u j. Inside-trans r t u i j) (λ u j. Inside-trans r t u i j)
          (execute_all-Inside env ss t)

remember_failed_paths-Inside :
    (env : Env) (job : Job) (step : StepRef) (r : Runner)
    → Ends (λ _ s. Inside r s) (Inside r) (remember_failed_paths env job step r)
unfolding remember_failed_paths get pure ◌>>=◌
remember_failed_paths-Inside env job step r =
    by_test
      (not (status_eq job.result.step_status BuildStatus.cached_failure) && job.result.can_cache)
  where
    by_test :
        (c : Bool)
        → Ends
            (λ _ s. Inside r s)
            (Inside r)
            ((if c then execute_all env (failed_paths env (step_outputs r step)) else pure tt) r)
    by_test true = execute_all-Inside env (failed_paths env (step_outputs r step)) r
    by_test false = Inside-refl r

mark_build_failed-Tells :
    (env : Env) (job : Job) (step : StepRef) (x : Build) (r : Runner)
    → Tells x.id r (mark_build_failed env job step x r)
unfolding mark_build_failed or_fail ◌>>=◌ finishes
mark_build_failed-Tells env job step x r =
    by_times (get_start_time_as_i32 job.result) (get_stop_time_as_i32 job.result)
  where
    by_times :
        (start stop : Option ℕ)
        → Tells x.id r (
            (or_fail number_too_big start >>= λ a. or_fail number_too_big stop >>= λ b.
            execute env (
              update_build_after_failure x.id
                (failed_status job step x)
                a
                b
                (status_eq job.result.step_status BuildStatus.cached_failure))
            >> modify build_done)
              r)
    by_times none stop = Inside-refl r
    by_times (some a) none = Inside-refl r
    by_times (some a) (some b) =
        tell_done-Tells env
          (update_build_after_failure x.id (failed_status job step x) a b
            (status_eq job.result.step_status BuildStatus.cached_failure))
          x.id r ((==_iff x.id x.id).1 refl)

mark_failed-Tells :
    (env : Env) (job : Job) (step : StepRef) (x : Build) (a : ℕ) (r : Runner)
    → IsRecorded r
    → r.steps.heap.build a ≡ some x
    → Tells x.id r (mark_failed env job step x r)
unfolding mark_failed pure failed_status
mark_failed-Tells env job step x a r rec live = elim (Bool-cases x.finished_in_db) [
  | inl done ↦
      rw (done, mark_failed) (Inside-refl r, recorded_grows r.db r.tx x.id (rec a x live done))
  | inr open_build ↦ rw (open_build, mark_failed) (mark_build_failed-Tells env job step x r)
]

-- The end of the transaction, once the loop over the builds has told of them.
end_transaction-Marks :
    (env : Env) (job : Job) (step : StepRef) (bs : List BuildRef) (r : Runner)
    → All (KnownAt r) bs
    → Ends
        (λ _ s. Frame r s × All (RecordedAt s) bs)
        (Frame r)
        ((remember_failed_paths env job step >> commit env) r)
end_transaction-Marks env job step bs r known =
    bind-Ends (λ _ s. Inside r s) (λ _ s. Frame r s × All (RecordedAt s) bs) (Frame r)
      (remember_failed_paths env job step) (λ _. commit env) r
      (weaken-Ends _ _ (Inside r) (Frame r) (remember_failed_paths env job step r) (λ _ s i. i)
        (λ s i. i.frame) (remember_failed_paths-Inside env job step r))
      λ _ s i.
        weaken-Ends (λ _ t. Frame s t × ((id : ℕ) → Known s id → is_recorded t.db id ≡ true))
          (λ _ t. Frame r t × All (RecordedAt t) bs) (Frame s) (Frame r) (commit env s)
          (λ _ t h. (
            Frame_Framing.trans r s t i.frame h.0,
            KnownAt-RecordedAt s t h.0 h.1 bs (KnownAt-moved r s bs i known),
          ))
          (λ t f. Frame_Framing.trans r s t i.frame f) (commit-Recorded env s)

fail_builds-Marks :
    (env : Env) (machine : Option Text) (job : Job) (step : StepRef) (bs : List BuildRef)
    (r : Runner)
    → IsRecorded r
    → Ends
        (λ _ s. Frame r s × All (RecordedAt s) bs)
        (Frame r)
        (fail_builds env machine job step bs r)
unfolding fail_builds
fail_builds-Marks env machine job step bs r rec =
    bind-Ends (λ _ s. Frame r s) Q (Frame r) (begin_transaction env) _ r
      ((begin_transaction-Moves {R = Frame} env).run r)
      λ _ s f.
        bind-Ends (λ _ t. Frame r t) Q (Frame r) (create_failed_steps env machine job step bs) _ s
          (later s f _ ((create_failed_steps-Moves env machine job step bs).run s))
          λ _ t g.
            bind-Ends (λ _ u. Frame r u × All (KnownAt u) bs) Q (Frame r)
              (each_build (mark_failed env job step) bs) _ t
              (weaken-Ends _ _ (Inside t) (Frame r) (each_build (mark_failed env job step) bs t)
                (λ _ u i. (Frame_Framing.trans r t u g i.0.frame, i.1))
                (λ u i. Frame_Framing.trans r t u g i.frame)
                (each_build-TellsAll (mark_failed env job step) (mark_failed-Tells env job step) bs
                  t (Frame-IsRecorded r t g rec)))
              λ _ u k.
                weaken-Ends (λ _ v. Frame u v × All (RecordedAt v) bs) Q (Frame u) (Frame r)
                  ((remember_failed_paths env job step >> commit env) u)
                  (λ _ v h. (Frame_Framing.trans r u v k.0 h.0, h.1))
                  (λ v h. Frame_Framing.trans r u v k.0 h)
                  (end_transaction-Marks env job step bs u k.1)
  where
    Q : Unit {0} → Runner → Type 0
    Q _ s = Frame r s × All (RecordedAt s) bs

    later :
        (s : Runner)
        → Frame r s
        → (o : Outcome (Unit {0})) → Ends (λ _ t. Frame s t) (Frame s) o
        → Ends (λ _ t. Frame r t) (Frame r) o
    later s f o h =
        weaken-Ends (λ _ t. Frame s t) (λ _ t. Frame r t) (Frame s) (Frame r) o
          (λ _ t g. Frame_Framing.trans r s t f g) (λ t g. Frame_Framing.trans r s t f g) h

fail_rounds-Records :
    (n : ℕ) (env : Env) (machine : Option Text) (job : Job) (step : StepRef) (done : Bool)
    (ids : List ℕ)
    → Records (fail_rounds n env machine job step done ids)
unfolding fail_rounds modify no_fuel
fail_rounds-Records zero env machine job step done ids = record { run = λ r rec. tt }
fail_rounds-Records (suc n) env machine job step done ids =
    bind-Keeps (get_all_indirect_builds-Records env step)
      λ bs. by_test (λ l. fail_rounds-Records n env machine job step true l) bs (is_done bs done)
  where
    by_test :
        ((l : List ℕ) → Records (fail_rounds n env machine job step true l))
        → (bs : List BuildRef) (c : Bool)
        → Records (elim c [
          | true ↦ pure ids
          | false ↦ fail_builds env machine job step bs >>= λ _. modify (close_builds bs) >>= λ _.
              fail_rounds n env machine job step true (ids ++ map (λ (b : BuildRef). b.id) bs)
        ])
    by_test rest bs true = frame-Records (pure-Moves ids)
    by_test rest bs false = record {
      run = λ r rec.
          bind-Ends (λ _ s. Frame r s × All (RecordedAt s) bs) (λ _. IsRecorded) IsRecorded
            (fail_builds env machine job step bs) _ r
            (weaken-Ends _ _ (Frame r) IsRecorded (fail_builds env machine job step bs r)
              (λ _ s h. h) (λ s f. Frame-IsRecorded r s f rec)
              (fail_builds-Marks env machine job step bs r rec))
            λ _ s h.
              bind-Ends (λ _. IsRecorded) (λ _. IsRecorded) IsRecorded (modify (close_builds bs)) _
                s (close_builds-IsRecorded bs s (Frame-IsRecorded r s h.0 rec) h.1)
                λ _. (rest _).run;
    }

inner_fail_job-Records :
    (env : Env) (machine : Option Text) (job : Job) (step : StepRef)
    → Records (inner_fail_job env machine job step)
unfolding inner_fail_job notify_failed
inner_fail_job-Records env machine job step =
    bind-Keeps
      (frame-Records (if-Moves _ (pure-Moves tt) (finish_build_step-Moves env _ _ _ machine)))
      λ _.
        bind-Keeps
          (fail_rounds-Records env.rounds env machine (with_stop_time env job) step false [])
          λ ids.
            bind-Keeps
              (frame-Records (
                bind-Moves (begin_transaction-Moves env)
                  λ _. bind-Moves (execute-Moves env _) λ _. commit-Moves env))
              λ _. frame-Records dispatch-quiet

count_failure-quiet :
    (env : Env) (t : BuildTimings) (total : ℕ) (item : ScheduledItem)
    → Moves Frame (modify (count_failure env t total item))
unfolding count_failure update_machine update_metrics
count_failure-quiet env t total item = quiet _ λ r. (refl, refl)

give_up-Records : (env : Env) (item : ScheduledItem) (job : Job) → Records (give_up env item job)
unfolding give_up update_queues
give_up-Records env item job =
    bind-Keeps (frame-Records (quiet _ λ r. (refl, refl)))
      λ _. bind-Keeps (frame-Records get-Moves) λ r. inner_fail_job-Records env _ job _

retry_later-quiet :
    (env : Env) (item : ScheduledItem) (tries : ℕ)
    → Moves Frame (modify (retry_later env item tries))
unfolding retry_later update_queues update_metrics
retry_later-quiet env item tries = quiet _ λ r.
    update_step-quiet (step_of item r) (set_after (env.now + env.retry_delta tries * 1000000000)) r

retry_or_give_up-Records :
    (env : Env) (item : ScheduledItem) (job : Job) → Records (retry_or_give_up env item job)
unfolding retry_or_give_up add_try
retry_or_give_up-Records env item job = by_flag job.result.can_retry
  where
    by_flag :
        (c : Bool)
        → Records (elim c [
          | false ↦ give_up env item job
          | true ↦ modify (add_try item) >>= λ _. get >>= λ r.
              elim (ltb (tries_of item r) env.max_retries) [
                | false ↦ give_up env item job
                | true ↦ modify (retry_later env item (tries_of item r)) >>= λ _.
                    finish_build_step env job.build_id job.step_nr job.result (machine_name item r)
                    >>= λ _. modify trigger_dispatch
              ]
        ])
    by_flag false = give_up-Records env item job
    by_flag true =
        bind-Keeps (frame-Records (update_step-Moves Frame_Blind (step_of item) incr_tries)) λ _.
          bind-Keeps (frame-Records get-Moves)
            λ r. by_tries r (ltb (tries_of item r) env.max_retries)
      where
        by_tries :
            (r : Runner) (c : Bool)
            → Records (elim c [
              | false ↦ give_up env item job
              | true ↦ modify (retry_later env item (tries_of item r)) >>= λ _.
                  finish_build_step env job.build_id job.step_nr job.result (machine_name item r)
                  >>= λ _. modify trigger_dispatch
            ])
        by_tries r false = give_up-Records env item job
        by_tries r true = bind-Keeps (frame-Records (retry_later-quiet env item _)) λ _.
            bind-Keeps (frame-Records (finish_build_step-Moves env _ _ _ _))
              λ _. frame-Records dispatch-quiet

fail_step-Records :
    (env : Env) (drv : StorePath) (state : BuildResultState) (timings : BuildTimings)
    → Records (fail_step env drv state timings)
unfolding fail_step
fail_step-Records env drv state timings =
    bind-Keeps (frame-Records (take_job-Moves queues-Frame Frame_Blind env false drv)) λ taken.
      bind-Keeps (frame-Records (or_fail-Moves _ _)) λ res.
        bind-Keeps
          (frame-Records (count_failure-quiet env timings (get_total_step_time_ms res) taken.0))
          λ _. retry_or_give_up-Records env taken.0 (record taken.1 { result = res })

-- The same of `fail_step`, whether it gives up, waits for another try, or fails half way, and
-- however many rounds the loop of `inner_fail_job` takes: a build that is marked as finished in
-- memory has been reported to the database by a statement that was committed.
pub fail_step-IsRecorded :
    (env : Env) (drv : StorePath) (state : BuildResultState) (timings : BuildTimings) (r : Runner)
    → IsRecorded r
    → Ends (λ _. IsRecorded) IsRecorded (fail_step env drv state timings r)
fail_step-IsRecorded env drv state timings = (fail_step-Records env drv state timings).run

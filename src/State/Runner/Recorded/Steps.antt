-- ===== src/State/Runner/Recorded/Steps.antt =====
-- `succeed_step` and `fail_step` never mark a build as finished before the database knows.
use hydra_queue_runner.State.Runner.{
  ◌>>=◌, Action, Runner, modify, update_machine, Env, update_metrics, StorePath, set_heap,
  trigger_dispatch, commit, update_step,
}
use hydra_queue_runner.State.Runner.Recorded.{Frame_Framing, finishes}
use hydra_queue_runner.Base.{
  ◌≡◌, sym, subst, true, List, ℕ, arith, ◌∷◌, Option-cases, [], inl, inr, Bool-cases, some, refl,
  length, ap, ==_iff, ◌∙◌, All,
}
use hydra_queue_runner.State.Runner.Hoare.{
  Moves, bind-Ends, Ends, weaken-Ends, modify-Moves, begin_transaction-Moves, or_fail-Moves,
  execute_all-Moves, commit-Moves, get-Moves, finish_build_step-Moves, Keeps, frame-Keeps,
  bind-Keeps,
}
use hydra_queue_runner.State.Runner.Recorded.{IsRecorded, Frame, Frame-IsRecorded, is_recorded}
use hydra_queue_runner.State.Runner.Parts.{Blind, modify_step-cases, take_job-Moves}
use hydra_queue_runner.State.Runner.Finish.{
  count_success, upload_outputs, forget_step, finish_direct, step_of, mark_build_succeeded,
  succeed_step, each_build, close_builds, update_queues,
}
use hydra_queue_runner.State.Step.{release_rdeps, make_rdeps_runnable, drop_dep}
use hydra_queue_runner.State.Queue.{ScheduledItem, InnerQueues}
use hydra_queue_runner.State.Heap.{set_step, BuildRef, Heap, StepRef, Build, Step}
use hydra_queue_runner.State.Output.{BuildOutput, get_mark_build_success_data}
use hydra_queue_runner.State.Machine.Counters.{BuildTimings}
use hydra_queue_runner.State.Machine.{Job}
use hydra_queue_runner.NixUtils.StorePath.{StorePath}
use hydra_queue_runner.State.Runner.Recorded.Marks.{
  Tells, tell_done-Tells, Inside, KnownAt, each_build-TellsAll, commit_close-Recorded,
}
use hydra_queue_runner.State.Remote.{get_total_step_time_ms}

-- An action that keeps what is recorded; the parts of an operation that finish no build do.
abbrev pub Records : {A : Type 0} → Action A → Type 0
Records m = Keeps IsRecorded m

pub frame-Records : {A : Type 0} {m : Action A} → Moves Frame m → Records m
frame-Records h = frame-Keeps Frame Frame-IsRecorded h

-- A loop that tells of builds, followed by the commit and the marks in memory.
pub tell_close-Records :
    {B : Type 0} (env : Env) (f : Build → Action (Unit {0})) (bs : List BuildRef)
    → ((x : Build) (a : ℕ) (r : Runner)
        → IsRecorded r
        → r.steps.heap.build a ≡ some x
        → Tells x.id r (f x r))
    → {k : Action B} → Records k
    → Records (each_build f bs >>= λ _. commit env >>= λ _. modify (close_builds bs) >>= λ _. k)
tell_close-Records env f bs h {k = k} rest = record {
  run = λ r rec.
      bind-Ends (λ _ s. Inside r s × All (KnownAt s) bs) (λ _. IsRecorded) IsRecorded
        (each_build f bs) (λ _. commit env >>= λ _. modify (close_builds bs) >>= λ _. k) r
        (weaken-Ends _ _ (Inside r) IsRecorded (each_build f bs r) (λ _ s t. t)
          (λ s i. Frame-IsRecorded r s i.frame rec) (each_build-TellsAll f h bs r rec))
        λ _ s t. commit_close-Recorded env bs k s (Frame-IsRecorded r s t.0.frame rec) t.1 rest.run;
}

-- A change of the state that leaves builds and the database alone.
pub quiet :
    (f : Runner → Runner)
    → ((r : Runner) → ((f r).steps.heap.build ≡ r.steps.heap.build) × ((f r).db ≡ r.db))
    → Moves Frame (modify f)
quiet f h = modify-Moves f λ r. record {
  same = (h r).0;
  grows = λ id k. subst (λ db. is_recorded db id ≡ true) (sym ((h r).1)) k;
}

pub queues-Frame : (r : Runner) (q : InnerQueues) → Frame r (record r { queues = q })
queues-Frame r q = record { same = refl; grows = λ id h. h }

pub Frame_Blind : Blind Frame
Frame_Blind = record {
  machines = λ r ms. record { same = refl; grows = λ id h. h };
  steps = λ r cells. record { same = refl; grows = λ id h. h };
}

count_success-quiet :
    (env : Env) (t : BuildTimings) (total : ℕ) (item : ScheduledItem)
    → Moves Frame (modify (count_success env t total item))
unfolding count_success update_machine update_metrics
count_success-quiet env t total item = quiet _ λ r. (refl, refl)

upload_outputs-quiet :
    (env : Env) (output : BuildOutput) (job : Job)
    → Moves Frame (modify (upload_outputs env output job))
unfolding upload_outputs
upload_outputs-quiet env output job = quiet _ λ r. ground arith

forget_step-quiet :
    (item : ScheduledItem) (bs : List BuildRef)
    → Moves Frame (modify (λ r. forget_step (step_of item r) bs r))
unfolding forget_step
forget_step-quiet item [] = quiet _ λ r. (refl, refl)
forget_step-quiet item (b ∷ bs) = quiet _ λ r. (refl, refl)

pub update_step-quiet :
    (s : StepRef) (f : Step → Step) (r : Runner)
    → ((update_step s f r).steps.heap.build ≡ r.steps.heap.build) × ((update_step s f r).db ≡ r.db)
unfolding update_step set_heap
update_step-quiet s f r = elim (modify_step-cases r.steps.heap s f) [
  | inl e ↦ (ap (λ (h : Heap). h.build) e, refl)
  | inr (cells, e) ↦ (ap (λ (h : Heap). h.build) e, refl)
]

release_rdeps-builds :
    (now : ℕ) (p : StorePath) (h : Heap) (rs : List StepRef)
    → (release_rdeps now p h rs).0.build ≡ h.build
unfolding release_rdeps set_step
release_rdeps-builds now p h [] = refl
release_rdeps-builds now p h (r ∷ rs) = elim (Option-cases (h.step r.addr)) [
  | inl gone ↦ rw (gone, release_rdeps) (release_rdeps-builds now p h rs)
  | inr (x, live) ↦
      rw (live, release_rdeps)
        (release_rdeps-builds now p (set_step h r.addr (drop_dep now p x)) rs)
]

make_rdeps_runnable-builds :
    (now : ℕ) (h : Heap) (r : StepRef) → (make_rdeps_runnable now h r).build ≡ h.build
unfolding make_rdeps_runnable
make_rdeps_runnable-builds now h r = elim (Option-cases (h.step r.addr)) [
  | inl gone ↦ rw (gone, make_rdeps_runnable) refl
  | inr (s, live) ↦ elim (Bool-cases s.finished) [
    | inr open_step ↦ rw (live, make_rdeps_runnable, open_step) refl
    | inl done ↦
        let released = release_rdeps now s.drv_path h s.state.rdeps in
        let rest = modify_step-cases released.0 r λ t. record t {
          state = record t.state { rdeps = released.1 };
          atomic_state = record t.atomic_state { rdeps_len = length released.1 };
        } in
        rw (live, make_rdeps_runnable, done)
          (elim rest [
            | inl e ↦
                ap (λ (x : Heap). x.build) e ∙ release_rdeps-builds now s.drv_path h s.state.rdeps
            | inr (cells, e) ↦
                ap (λ (x : Heap). x.build) e ∙ release_rdeps-builds now s.drv_path h s.state.rdeps
          ])
  ]
]

release-quiet :
    (env : Env) (item : ScheduledItem)
    → Moves Frame
        (modify λ r. set_heap (make_rdeps_runnable env.now r.steps.heap (step_of item r)) r)
unfolding set_heap
release-quiet env item =
    quiet _ λ r. (make_rdeps_runnable-builds env.now r.steps.heap (step_of item r), refl)

pub dispatch-quiet : Moves Frame (modify trigger_dispatch)
unfolding trigger_dispatch
dispatch-quiet = quiet _ λ r. (refl, refl)

mark_build_succeeded-Tells :
    (env : Env) (output : BuildOutput) (job : Job) (start_time stop_time : ℕ) (x : Build)
    (r : Runner)
    → Tells x.id r (mark_build_succeeded env output job start_time stop_time x r)
unfolding mark_build_succeeded finishes get_mark_build_success_data
mark_build_succeeded-Tells env output job start_time stop_time x r =
    tell_done-Tells env _ x.id r ((==_iff x.id x.id).1 refl)

finish_direct-Records :
    (env : Env) (output : BuildOutput) (item : ScheduledItem) (job : Job) (direct : List BuildRef)
    → Records (finish_direct env output item job direct)
unfolding finish_direct
finish_direct-Records env output item job direct =
    bind-Keeps (frame-Records (forget_step-quiet item direct)) λ _.
      bind-Keeps (frame-Records (begin_transaction-Moves env)) λ _.
        bind-Keeps (frame-Records (or_fail-Moves _ _)) λ start_time.
          bind-Keeps (frame-Records (or_fail-Moves _ _)) λ stop_time.
            tell_close-Records env (mark_build_succeeded env output job start_time stop_time) direct
              (λ x a r rec live. mark_build_succeeded-Tells env output job start_time stop_time x r)
              (bind-Keeps (frame-Records (begin_transaction-Moves env)) λ _.
                bind-Keeps (frame-Records (execute_all-Moves env _)) λ _.
                  bind-Keeps (frame-Records (commit-Moves env)) λ _.
                    bind-Keeps (frame-Records (release-quiet env item))
                      λ _. frame-Records dispatch-quiet)

succeed_step-Records :
    (env : Env) (drv : StorePath) (output : BuildOutput) → Records (succeed_step env drv output)
unfolding succeed_step update_queues
succeed_step-Records env drv output =
    bind-Keeps (frame-Records (take_job-Moves queues-Frame Frame_Blind env true drv)) λ taken.
      bind-Keeps (frame-Records (quiet _ λ r. (refl, refl))) λ _.
        bind-Keeps (frame-Records (or_fail-Moves _ _)) λ res.
          bind-Keeps
            (frame-Records
              (count_success-quiet env output.timings (get_total_step_time_ms res) taken.0))
            λ _. bind-Keeps (frame-Records get-Moves) λ r.
              bind-Keeps (frame-Records (finish_build_step-Moves env _ _ _ _)) λ _.
                bind-Keeps
                  (frame-Records
                    (upload_outputs-quiet env output (record taken.1 { result = res })))
                  λ _. bind-Keeps (frame-Records get-Moves) λ r'.
                    finish_direct-Records env output taken.0 (record taken.1 { result = res }) _

-- Whatever `succeed_step` does, and also where it fails half way: a build that the memory of the
-- runner marks as finished has been reported to the database by a statement that was committed.
pub succeed_step-IsRecorded :
    (env : Env) (drv : StorePath) (output : BuildOutput) (r : Runner)
    → IsRecorded r
    → Ends (λ _. IsRecorded) IsRecorded (succeed_step env drv output r)
succeed_step-IsRecorded env drv output = (succeed_step-Records env drv output).run

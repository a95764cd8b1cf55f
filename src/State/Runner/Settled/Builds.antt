-- ===== src/State/Runner/Settled/Builds.antt =====
-- The builds that need a failed step, when `inner_fail_job` has returned.
use hydra_queue_runner.State.Runner.{
  ◌>>=◌, ◌>>◌, Runner, Env, Text, StepRef, Action, no_fuel, pure, trigger_dispatch, modify,
  StorePath,
}
use hydra_queue_runner.Base.{
  ℕ, zero, suc, ◌≡◌, refl, sym, subst, ◌∙◌, inl, inr, Bool, true, false, Option, some, List, [],
  ◌∷◌, ◌++◌, map, Bool-cases, Option-cases, ap, In, if◌then◌else◌, ◌==◌,
}
use hydra_queue_runner.State.Runner.Hoare.{
  Ends, Moves, pure-Moves, if-Moves, bind-Moves, begin_transaction-Moves, execute-Moves,
  modify-Moves, commit-Moves, bind-Ends, weaken-Ends, Keeps, frame-Keeps, bind-Keeps,
  finish_build_step-Moves,
}
use hydra_queue_runner.State.Runner.Fail.{
  fail_builds, get_all_indirect_builds, is_done, fail_rounds, inner_fail_job, notify_failed,
  with_stop_time,
}
use hydra_queue_runner.State.Runner.Finish.{close_builds, finish_build_step}
use hydra_queue_runner.Base.Text.{Text}
use hydra_queue_runner.State.Heap.{StepRef, BuildRef, Build, Heap, contains_build, Step}
use hydra_queue_runner.State.Machine.{Job}
use hydra_queue_runner.State.Step.{get_dependents}
use hydra_queue_runner.State.Runner.Recorded.Failed.{remove_steps-heap}
use hydra_queue_runner.State.Step.Dependents.Reached.{Reach, next, here}
use hydra_queue_runner.NixUtils.StorePath.{StorePath}
use hydra_queue_runner.State.Build.Propagate.{IsRegistered}
use hydra_queue_runner.State.Step.Dependents.Registered.{RdepsRegistered, reached-BuildFound}
use hydra_queue_runner.State.Runner.Settled.{
  SameHeap_Framing, SameHeap, close_builds-step, NothingOpen, both-Ends, fail_rounds-NothingOpen,
  fail_builds-SameHeap,
}

-- The cells of the steps.
abbrev StepsAre : (ℕ → Option Step) → Runner → Type 0
StepsAre cells r = r.steps.heap.step ≡ cells

same_steps :
    (cells : ℕ → Option Step) {A : Type 0} {m : Action A}
    → Moves SameHeap m
    → Keeps (StepsAre cells) m
same_steps cells h = frame-Keeps SameHeap (λ r s f k. ap (λ (g : Heap). g.step) f ∙ k) h

get_all_indirect_builds-Keeps :
    (cells : ℕ → Option Step) (env : Env) (step : StepRef)
    → Keeps (StepsAre cells) (get_all_indirect_builds env step)
unfolding get_all_indirect_builds
get_all_indirect_builds-Keeps cells env step = record {
  run = λ r k. elim (Option-cases (get_dependents env.search r.steps.heap step ([], []))) [
    | inl out ↦ rw (out, get_all_indirect_builds) tt
    | inr (([], steps), e) ↦
        rw (e, get_all_indirect_builds)
          (ap (λ (h : Heap). h.step) (remove_steps-heap steps r.steps) ∙ k)
    | inr ((b ∷ bs, steps), e) ↦ rw (e, get_all_indirect_builds) k
  ];
}

close_builds-Keeps :
    (cells : ℕ → Option Step) (bs : List BuildRef)
    → Keeps (StepsAre cells) (modify (close_builds bs))
unfolding modify
close_builds-Keeps cells bs = record { run = λ r k. close_builds-step bs r ∙ k }

-- What every part of a round keeps, the loop keeps.
module _ (P : Runner → Type 0) (env : Env) (machine : Option Text) (job : Job) (step : StepRef)
    (found : Keeps P (get_all_indirect_builds env step))
    (fails : (bs : List BuildRef) → Keeps P (fail_builds env machine job step bs))
    (closes : (bs : List BuildRef) → Keeps P (modify (close_builds bs))) where
  pub fail_rounds-Keeps :
      (n : ℕ) (done : Bool) (ids : List ℕ) → Keeps P (fail_rounds n env machine job step done ids)
  unfolding fail_rounds no_fuel pure
  fail_rounds-Keeps zero done ids = record { run = λ r k. tt }
  fail_rounds-Keeps (suc n) done ids =
      bind-Keeps found λ bs. by_test bs (λ l. fail_rounds-Keeps n true l) (is_done bs done)
    where
      by_test :
          (bs : List BuildRef)
          → ((l : List ℕ) → Keeps P (fail_rounds n env machine job step true l))
          → (c : Bool)
          → Keeps P (elim c as (λ _. Action (List ℕ)) [
            | true ↦ pure ids
            | false ↦ fail_builds env machine job step bs >>= λ _. modify (close_builds bs) >>= λ _.
                fail_rounds n env machine job step true (ids ++ map (λ (b : BuildRef). b.id) bs)
          ])
      by_test bs rest true = record { run = λ r k. k }
      by_test bs rest false = bind-Keeps (fails bs) λ _. bind-Keeps (closes bs) λ _. rest _

-- The builds of the steps that depend on the root in one heap, that is of the root itself, of every
-- live step that refers to it, of the live steps that refer to these, and so on, are finished in
-- another one, if they are not gone.
abbrev pub IsSettled : Heap → StepRef → Heap → Type 0
IsSettled h root after =
    (d : StepRef) (s : Step) (b : BuildRef) (x : Build)
    → Reach h root d
    → h.step d.addr ≡ some s
    → In b s.state.builds
    → after.build b.addr ≡ some x
    → x.finished_in_db ≡ true

moved-Reach :
    (h after : Heap) (root d : StepRef) → after.step ≡ h.step → Reach h root d → Reach after root d
moved-Reach h after root _ same here = here
moved-Reach h after root _ same (next {x} s d reach live m) =
    next s d (moved-Reach h after root x same reach) (ap (λ g. g x.addr) same ∙ live) m

NothingOpen-IsSettled :
    (f : StorePath → ℕ) (env : Env) (step : StepRef) (h : Heap) (r : Runner)
    → IsRegistered f step
    → RdepsRegistered f h
    → r.steps.heap.step ≡ h.step
    → NothingOpen env step r
    → IsSettled h step r.steps.heap
unfolding contains_build
NothingOpen-IsSettled f env step h r i v same (steps, e) d s b x reach live m known =
    elim (Bool-cases x.finished_in_db) [
      | inl done ↦ done
      | inr open_build ↦ cc (
          reached-BuildFound f r.steps.heap (λ a t l. v a t (sym (ap (λ g. g a) same) ∙ l))
            env.search step ([], steps) i e d s b (moved-Reach h r.steps.heap step d same reach)
            (ap (λ g. g d.addr) same ∙ live) m x known open_build)
    ]

-- Where the failed step and every reverse dependency of a live step point to the one address that
-- their derivation path has: when `inner_fail_job` returns without a failure, whatever it met on the
-- way, the cells of the steps are as before, and every build that needs the failed step is finished,
-- if its cell is not empty. These are the builds of the step itself, of every live step that refers
-- to it, of the live steps that refer to these, and so on.
pub inner_fail_job-IsSettled :
    (f : StorePath → ℕ) (env : Env) (machine : Option Text) (job : Job) (step : StepRef)
    (r : Runner)
    → IsRegistered f step
    → RdepsRegistered f r.steps.heap
    → Ends
        (λ _ s. (s.steps.heap.step ≡ r.steps.heap.step) × IsSettled r.steps.heap step s.steps.heap)
        (λ _. Unit {0})
        (inner_fail_job env machine job step r)
unfolding inner_fail_job notify_failed trigger_dispatch
inner_fail_job-IsSettled f env machine job step r i v =
    bind-Ends (λ _. StepsAre cells) Q (λ _. Unit {0}) _ _ r
      (weaken-Ends (λ _. StepsAre cells) _ (StepsAre cells) (λ _. Unit {0}) _ (λ _ _ k. k)
        (λ _ _. tt) ((same_steps cells first).run r refl))
      λ _ s k.
        bind-Ends (λ _ t. NothingOpen env step t × StepsAre cells t) Q (λ _. Unit {0})
          (fail_rounds env.rounds env machine (with_stop_time env job) step false []) _ s
          (both-Ends _ _ _ _ _
            (fail_rounds-NothingOpen env.rounds env machine (with_stop_time env job) step false []
              s)
            ((fail_rounds-Keeps (StepsAre cells) env machine (with_stop_time env job) step
                (get_all_indirect_builds-Keeps cells env step)
                (λ bs. same_steps cells (fail_builds-SameHeap env machine _ step bs))
                (close_builds-Keeps cells) env.rounds false []).run
              s k))
          λ ids t (idle, k').
            weaken-Ends (λ _ u. SameHeap t u) Q (SameHeap t) (λ _. Unit {0}) _
              (λ _ u same. settled t u idle k' same) (λ _ _. tt) ((end-Moves ids).run t)
  where
    cells : ℕ → Option Step
    cells = r.steps.heap.step

    Q : Unit {0} → Runner → Type 0
    Q _ s = StepsAre cells s × IsSettled r.steps.heap step s.steps.heap

    first : Moves SameHeap (
        if (with_stop_time env job).step_nr == 0
        then pure tt
        else finish_build_step env
            (with_stop_time env job).build_id
            (with_stop_time env job).step_nr
            (with_stop_time env job).result
            machine)
    first = if-Moves _ (pure-Moves tt) (finish_build_step-Moves env _ _ _ _)

    settled : (t u : Runner) → NothingOpen env step t → StepsAre cells t → SameHeap t u → Q tt u
    settled t u idle k same = (
      ap (λ (h : Heap). h.step) same ∙ k,
      subst (IsSettled r.steps.heap step) (sym same)
          (NothingOpen-IsSettled f env step r.steps.heap t i v k idle),
    )

    end-Moves :
        (ids : List ℕ)
        → Moves SameHeap (notify_failed env (with_stop_time env job) ids >> modify trigger_dispatch)
    end-Moves ids =
        bind-Moves
          (bind-Moves (begin_transaction-Moves env)
            λ _. bind-Moves (execute-Moves env _) λ _. commit-Moves env)
          λ _. modify-Moves _ λ r. refl

-- ===== src/State/Runner/Settled.antt =====
-- The loop of `inner_fail_job`: it ends, and no unfinished build is left behind.
pub mod Rounds
pub mod Builds
use hydra_queue_runner.State.Runner.{
  ◌>>=◌, ◌>>◌, ok, err, out_of_fuel, Outcome, Runner, Env, Text, StepRef, build_done,
  update_metrics, Action, no_fuel, pure, trigger_dispatch, modify, StorePath, set_heap,
}
use hydra_queue_runner.Base.{
  ℕ, zero, suc, ◌≡◌, refl, sym, subst, ◌∙◌, inl, inr, Bool, true, false, Option, some, List, [],
  ◌∷◌, ◌++◌, map, Bool-cases, Option-cases, All, ap, In, if◌then◌else◌, ◌==◌,
}
use hydra_queue_runner.State.Runner.Hoare.{
  Framing, is_out, Ends, Moves, pure-Moves, if-Moves, bind-Moves, get-Moves, or_fail-Moves,
  begin_transaction-Moves, execute-Moves, execute_all-Moves, modify-Moves, commit-Moves, bind-Ends,
  weaken-Ends, Keeps, frame-Keeps, bind-Keeps, finish_build_step-Moves,
}
use hydra_queue_runner.State.Runner.Fail.{
  create_failed_steps, mark_failed, fail_builds, get_all_indirect_builds, mark_build_failed,
  remember_failed_paths, is_done, fail_rounds, inner_fail_job, notify_failed, with_stop_time,
}
use hydra_queue_runner.State.Runner.Finish.{
  each_build, at_build, close_builds, close_build, finish_build_step,
}
use hydra_queue_runner.Base.Text.{Text, codes}
use hydra_queue_runner.State.Heap.{
  StepRef, BuildRef, Build, Heap, contains_build, contains_step, Step, modify_build, set_build,
}
use hydra_queue_runner.State.Machine.{Job}
use hydra_queue_runner.State.Step.{get_dependents}
use hydra_queue_runner.State.Runner.Recorded.Failed.{remove_steps-heap}
use hydra_queue_runner.State.Step.Dependents.Closure.{get_dependents-closed}
use hydra_queue_runner.State.Step.Dependents.{BuildFound, Covered, StepFound}
use hydra_queue_runner.State.Runner.Parts.{each_build-Moves}
use hydra_queue_runner.State.Step.Dependents.Reached.{Reach, next, here}
use hydra_queue_runner.NixUtils.StorePath.{StorePath}
use hydra_queue_runner.State.Build.Propagate.{IsRegistered}
use hydra_queue_runner.State.Step.Dependents.Registered.{RdepsRegistered, reached-BuildFound}

-- The builds and the steps are the same ones.
abbrev pub SameHeap : Runner → Runner → Type 0
SameHeap r s = s.steps.heap ≡ r.steps.heap

instance abbrev pub SameHeap_Framing : Framing SameHeap
SameHeap_Framing = record {
  same = λ r. refl;
  trans = λ r s t f g. g ∙ f;
  open_tx = λ r tx. refl;
  grow = λ r more tx. refl;
}

create_failed_steps-Moves :
    {R : Runner → Runner → Type 0} ⦃p : Framing R⦄ (env : Env) (machine : Option Text) (job : Job)
    (step : StepRef) (bs : List BuildRef)
    → Moves R (create_failed_steps env machine job step bs)
unfolding create_failed_steps
create_failed_steps-Moves env machine job step [] = pure-Moves tt
create_failed_steps-Moves env machine job step (b ∷ bs) = bind-Moves get-Moves λ r.
    bind-Moves (if-Moves _ (pure-Moves tt) (execute-Moves env _))
      λ _. create_failed_steps-Moves env machine job step bs

module _ {R : Runner → Runner → Type 0} ⦃p : Framing R⦄
    (done : (r : Runner) → R r (build_done r)) where
  mark_failed-Moves :
      (env : Env) (job : Job) (step : StepRef) (x : Build) → Moves R (mark_failed env job step x)
  unfolding mark_failed mark_build_failed
  mark_failed-Moves env job step x = if-Moves _ (pure-Moves tt) (
      bind-Moves (or_fail-Moves _ _) λ start_time.
        bind-Moves (or_fail-Moves _ _)
          λ stop_time. bind-Moves (execute-Moves env _) λ _. modify-Moves build_done done)

  pub fail_builds-Moves :
      (env : Env) (machine : Option Text) (job : Job) (step : StepRef) (bs : List BuildRef)
      → Moves R (fail_builds env machine job step bs)
  unfolding fail_builds remember_failed_paths
  fail_builds-Moves env machine job step bs = bind-Moves (begin_transaction-Moves env) λ _.
      bind-Moves (create_failed_steps-Moves env machine job step bs) λ _.
        bind-Moves (each_build-Moves (mark_failed env job step) (mark_failed-Moves env job step) bs)
          λ _.
            bind-Moves
              (bind-Moves get-Moves λ r. if-Moves _ (execute_all-Moves env _) (pure-Moves tt))
              λ _. commit-Moves env

build_done-SameHeap : (r : Runner) → SameHeap r (build_done r)
unfolding build_done update_metrics
build_done-SameHeap r = refl

pub fail_builds-SameHeap :
    (env : Env) (machine : Option Text) (job : Job) (step : StepRef) (bs : List BuildRef)
    → Moves SameHeap (fail_builds env machine job step bs)
fail_builds-SameHeap env machine job step bs =
    fail_builds-Moves build_done-SameHeap env machine job step bs

pub any_end : {A : Type 0} (o : Outcome A) → Ends (λ _ _. Unit {0}) (λ _. Unit {0}) o
any_end (ok a r) = tt
any_end (err e r) = tt
any_end out_of_fuel = tt

pub both-Ends :
    {A : Type 0} (Q Q' : A → Runner → Type 0) (E E' : Runner → Type 0) (o : Outcome A)
    → Ends Q E o
    → Ends Q' E' o
    → Ends (λ a r. Q a r × Q' a r) (λ _. Unit {0}) o
both-Ends Q Q' E E' (ok a r) h h' = (h, h')
both-Ends Q Q' E E' (err _ r) h h' = tt
both-Ends Q Q' E E' out_of_fuel h h' = tt

-- The search from the step finds no unfinished build.
abbrev pub NothingOpen : Env → StepRef → Runner → Type 0
NothingOpen env step r =
    (steps : List StepRef) × (get_dependents env.search r.steps.heap step ([], [])
      ≡ some ([], steps))

-- What the first part of a round has found.
abbrev pub Looked : Env → StepRef → Runner → List BuildRef → Runner → Type 0
Looked env step r bs s =
    SameHeap r s
    × ((steps : List StepRef) × (get_dependents env.search r.steps.heap step ([], [])
          ≡ some (bs, steps)))

pub get_all_indirect_builds-Looked :
    (env : Env) (step : StepRef) (r : Runner)
    → Ends (Looked env step r) (λ _. Unit {0}) (get_all_indirect_builds env step r)
unfolding get_all_indirect_builds
get_all_indirect_builds-Looked env step r =
    elim (Option-cases (get_dependents env.search r.steps.heap step ([], []))) [
      | inl out ↦ rw (out, get_all_indirect_builds) tt
      | inr (([], steps), e) ↦
          rw (e, get_all_indirect_builds) (remove_steps-heap steps r.steps, (steps, e))
      | inr ((b ∷ bs, steps), e) ↦ rw (e, get_all_indirect_builds) (refl, (steps, e))
    ]

is_done-nil : (bs : List BuildRef) (done : Bool) → is_done bs done ≡ true → bs ≡ []
unfolding is_done
is_done-nil [] done h = refl
is_done-nil (b ∷ bs) done h = cc

Looked-NothingOpen :
    (env : Env) (step : StepRef) (r s : Runner) (bs : List BuildRef)
    → Looked env step r bs s
    → bs ≡ []
    → NothingOpen env step s
Looked-NothingOpen env step r s bs (same, (steps, e)) nil = (
  steps,
  subst (λ h. get_dependents env.search h step ([], []) ≡ some ([], steps)) (sym same)
      (subst (λ l. get_dependents env.search r.steps.heap step ([], []) ≡ some (l, steps)) nil e),
)

pub fail_rounds-NothingOpen :
    (n : ℕ) (env : Env) (machine : Option Text) (job : Job) (step : StepRef) (done : Bool)
    (ids : List ℕ) (r : Runner)
    → Ends
        (λ _ s. NothingOpen env step s)
        (λ _. Unit {0})
        (fail_rounds n env machine job step done ids r)
unfolding fail_rounds no_fuel pure modify
fail_rounds-NothingOpen zero env machine job step done ids r = tt
fail_rounds-NothingOpen (suc n) env machine job step done ids r =
    bind-Ends (Looked env step r) (λ _ s. NothingOpen env step s) (λ _. Unit {0})
      (get_all_indirect_builds env step) _ r (get_all_indirect_builds-Looked env step r)
      λ bs s look.
        by_test (λ l t. fail_rounds-NothingOpen n env machine job step true l t) bs s look
          (is_done bs done) refl
  where
    by_test :
        ((l : List ℕ) (t : Runner)
          → Ends
              (λ _ s. NothingOpen env step s)
              (λ _. Unit {0})
              (fail_rounds n env machine job step true l t))
        → (bs : List BuildRef) (s : Runner) → Looked env step r bs s
        → (c : Bool) → is_done bs done ≡ c
        → Ends
            (λ _ s. NothingOpen env step s)
            (λ _. Unit {0})
            ((elim c as (λ _. Action (List ℕ)) [
              | true ↦ pure ids
              | false ↦ fail_builds env machine job step bs >>= λ _.
                  modify (close_builds bs) >>= λ _.
                  fail_rounds n env machine job step true (ids ++ map (λ (b : BuildRef). b.id) bs)
            ])
              s)
    by_test rest bs s look true e = Looked-NothingOpen env step r s bs look (is_done-nil bs done e)
    by_test rest bs s look false e =
        bind-Ends (λ _ _. Unit {0}) (λ _ s. NothingOpen env step s) (λ _. Unit {0})
          (fail_builds env machine job step bs) _ s
          (any_end (fail_builds env machine job step bs s))
          λ _ t _.
            bind-Ends (λ _ _. Unit {0}) (λ _ s. NothingOpen env step s) (λ _. Unit {0})
              (modify (close_builds bs)) _ t tt λ _ u _. rest _ u

pub close_build-step :
    (b : BuildRef) (r : Runner) → (close_build b r).steps.heap.step ≡ r.steps.heap.step
unfolding close_build modify_build set_build set_heap
close_build-step b r = elim (Option-cases (r.steps.heap.build b.addr)) [
  | inl gone ↦ rw (gone, modify_build) refl
  | inr (x, live) ↦ rw (live, modify_build) refl
]

pub close_builds-step :
    (bs : List BuildRef) (r : Runner) → (close_builds bs r).steps.heap.step ≡ r.steps.heap.step
unfolding close_builds
close_builds-step [] r = refl
close_builds-step (b ∷ bs) r = close_builds-step bs (close_build b r) ∙ close_build-step b r

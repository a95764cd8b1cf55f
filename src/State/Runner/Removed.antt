-- ===== src/State/Runner/Removed.antt =====
-- A builder that is removed: what becomes of its jobs.
use hydra_queue_runner.Base.Map
use hydra_queue_runner.State.Runner.{ok, err, out_of_fuel, ignore_failure}
use hydra_queue_runner.State.Runner.Once.{SameScheduled_Framing}
use hydra_queue_runner.State.Machine.Registry
use hydra_queue_runner.State.Machine.Registry.{uuid_Eq}
use hydra_queue_runner.Base.{
  ◌≡◌, Option, refl, [], inl, inr, ◌∷◌, ap, ◌∙◌, List, In, ◌⊎◌, none, subst, map, sym, ℕ, some,
  some_inj,
}
use hydra_queue_runner.NixUtils.StorePath.{StorePath, path_Eq}
use hydra_queue_runner.State.Runner.Fail.{fail_step}
use hydra_queue_runner.State.Runner.{Env, Runner, Outcome, pure}
use hydra_queue_runner.State.Remote.{BuildResultState}
use hydra_queue_runner.State.Runner.Hoare.{Ends, bind-Ends, ignore_failure-Ends, weaken-Ends}
use hydra_queue_runner.State.Runner.Once.{Unscheduled}
use hydra_queue_runner.State.Machine.{Job, Machine}
use hydra_queue_runner.Base.Map.{Map}
use hydra_queue_runner.State.Output.{no_timings}
use hydra_queue_runner.State.Runner.Builders.{fail_steps, remove_machine}
use hydra_queue_runner.State.Machine.Registry.{get_machine_by_id, Machines}
use hydra_queue_runner.State.Runner.Recorded.{IsRecorded}
use hydra_queue_runner.State.Runner.Unscheduled.{fail_step-Unscheduled, fail_step-Keeps}
use hydra_queue_runner.State.Runner.Recorded.Failed.{fail_step-IsRecorded}

-- After a loop over some jobs, none of these is scheduled, and no other one is scheduled anew.
Failed : List StorePath → Runner → Runner → Type 0
Failed drvs r s = (d : StorePath) → In d drvs ⊎ Unscheduled d r → Unscheduled d s

-- What every ending satisfies for each derivation and each reason.
all-Ends :
    {A : Type 0} (X : StorePath → Type 0) (P : StorePath → Runner → Type 0) (o : Outcome A)
    → ((d : StorePath) → X d → Ends (λ _. P d) (P d) o)
    → Ends (λ _ s. (d : StorePath) → X d → P d s) (λ s. (d : StorePath) → X d → P d s) o
all-Ends X P (ok a s) h = h
all-Ends X P (err _ s) h = h
all-Ends X P out_of_fuel h = tt

fail_step-Failed :
    (env : Env) (drv : StorePath) (state : BuildResultState) (r : Runner)
    → Ends (λ _. Failed (drv ∷ []) r) (Failed (drv ∷ []) r) (fail_step env drv state no_timings r)
unfolding Failed
fail_step-Failed env drv state r =
    all-Ends (λ d. In d (drv ∷ []) ⊎ Unscheduled d r) Unscheduled
      (fail_step env drv state no_timings r) by_reason
  where
    by_reason :
        (d : StorePath)
        → In d (drv ∷ []) ⊎ Unscheduled d r
        → Ends (λ _. Unscheduled d) (Unscheduled d) (fail_step env drv state no_timings r)
    by_reason d (inl (inl same)) =
        subst
          (λ p. Ends (λ _. Unscheduled p) (Unscheduled p) (fail_step env drv state no_timings r))
          (sym same) (fail_step-Unscheduled env drv state no_timings r)
    by_reason d (inl (inr m)) = absurd m
    by_reason d (inr k) = (fail_step-Keeps d env drv state no_timings).run r k

Failed-trans :
    (drv : StorePath) (drvs : List StorePath) (r s t : Runner)
    → Failed (drv ∷ []) r s
    → Failed drvs s t
    → Failed (drv ∷ drvs) r t
unfolding Failed
Failed-trans drv drvs r s t f g d (inl (inl same)) = g d (inr (f d (inl (inl same))))
Failed-trans drv drvs r s t f g d (inl (inr m)) = g d (inl m)
Failed-trans drv drvs r s t f g d (inr k) = g d (inr (f d (inr k)))

Failed-nil : (r : Runner) → Failed [] r r
unfolding Failed
Failed-nil r d (inl m) = absurd m
Failed-nil r d (inr k) = k

fail_steps-Failed :
    (env : Env) (state : BuildResultState) (drvs : List StorePath) (r : Runner)
    → Ends (λ _. Failed drvs r) (λ _. ⊥) (fail_steps env state drvs r)
unfolding fail_steps pure
fail_steps-Failed env state [] r = Failed-nil r
fail_steps-Failed env state (drv ∷ drvs) r =
    bind-Ends (λ _. Failed (drv ∷ []) r) (λ _. Failed (drv ∷ drvs) r) (λ _. ⊥)
      (ignore_failure (fail_step env drv state no_timings)) (λ _. fail_steps env state drvs) r
      (ignore_failure-Ends (Failed (drv ∷ []) r) (fail_step env drv state no_timings) r
        (fail_step-Failed env drv state r))
      λ _ s f.
        weaken-Ends (λ _. Failed drvs s) (λ _. Failed (drv ∷ drvs) r) (λ _. ⊥) (λ _. ⊥)
          (fail_steps env state drvs s) (λ _ t g. Failed-trans drv drvs r s t f g) (λ _ b. b)
          (fail_steps-Failed env state drvs s)

fail_steps-Records :
    (env : Env) (state : BuildResultState) (drvs : List StorePath) (r : Runner)
    → IsRecorded r
    → Ends (λ _. IsRecorded) (λ _. ⊥) (fail_steps env state drvs r)
unfolding fail_steps pure
fail_steps-Records env state [] r rec = rec
fail_steps-Records env state (drv ∷ drvs) r rec =
    bind-Ends (λ _. IsRecorded) (λ _. IsRecorded) (λ _. ⊥)
      (ignore_failure (fail_step env drv state no_timings)) (λ _. fail_steps env state drvs) r
      (ignore_failure-Ends IsRecorded (fail_step env drv state no_timings) r
        (fail_step-IsRecorded env drv state no_timings r rec))
      λ _ s rec'. fail_steps-Records env state drvs s rec'

-- No job of a builder is scheduled.
abbrev pub NoneScheduled : Machine → Runner → Type 0
NoneScheduled m s = (j : Job) → In j m.jobs → Map.get j.path s.queues.scheduled ≡ none

In-paths : (js : List Job) (j : Job) → In j js → In j.path (map (λ (x : Job). x.path) js)
In-paths [] j m = m
In-paths (x ∷ js) j (inl same) = inl (ap (λ (y : Job). y.path) same)
In-paths (x ∷ js) j (inr m) = inr (In-paths js j m)

both-Ends :
    {A : Type 0} (P P' : Runner → Type 0) (o : Outcome A)
    → Ends (λ _. P) (λ _. ⊥) o
    → Ends (λ _. P') (λ _. ⊥) o
    → Ends (λ _ s. P s × P' s) (λ _. ⊥) o
both-Ends P P' (ok a s) h k = (h, k)
both-Ends P P' (err _ s) h k = h
both-Ends P P' out_of_fuel h k = tt

registry-removed :
    (id a : ℕ) (ms : Machines)
    → Map.get id ms.by_uuid ≡ some a
    → ((Registry.remove_machine id ms).1 ≡ some a)
      × ((Registry.remove_machine id ms).0.machine ≡ ms.machine)
unfolding Registry.remove_machine Registry.reconstruct_supported_features
registry-removed id a ms h =
    (rw (h, Registry.remove_machine) refl, rw (h, Registry.remove_machine) refl)

-- What follows the removal from the registry, for any answer of it.
after_registry :
    (env : Env) (a : ℕ) (r : Runner)
    → IsRecorded r
    → (ms : Machines) (found : Option ℕ) → found ≡ some a
    → ms.machine ≡ r.machines.machine
    → Ends
        (λ _ s. NoneScheduled (r.machines.machine a) s × IsRecorded s)
        (λ _. ⊥)
        (elim found as (λ _. Outcome (Unit {0})) [
          | none ↦ ok tt (record r { machines = ms })
          | some b ↦
              fail_steps env BuildResultState.preparing_failure
                (map (λ (j : Job). j.path) (ms.machine b).jobs)
                (record r { machines = ms })
        ])
unfolding Failed
after_registry env a r rec ms none e same = cc
after_registry env a r rec ms (some b) e same =
    let drvs = map (λ (j : Job). j.path) (ms.machine b).jobs in
    let r' : Runner = record r { machines = ms } in
    let builder : ms.machine b ≡ r.machines.machine a =
      ap ms.machine (some_inj b a e) ∙ ap (λ (g : ℕ → Machine). g a) same in
    both-Ends (NoneScheduled (r.machines.machine a)) IsRecorded
      (fail_steps env BuildResultState.preparing_failure drvs r')
      (weaken-Ends (λ _. Failed drvs r') (λ _. NoneScheduled (r.machines.machine a)) (λ _. ⊥)
        (λ _. ⊥) (fail_steps env BuildResultState.preparing_failure drvs r')
        (λ _ s f.
          subst (λ m. NoneScheduled m s) builder
            (λ j m. f j.path (inl (In-paths (ms.machine b).jobs j m))))
        (λ _ x. x) (fail_steps-Failed env BuildResultState.preparing_failure drvs r'))
      (fail_steps-Records env BuildResultState.preparing_failure drvs r' rec)

-- A builder that is known under an id is removed, in a state in which the database knows of every
-- build that is marked as finished in memory. When the removal ends, none of the jobs that the
-- builder had is scheduled any more, also where failing one of them ended with an error, and the
-- database knows of every build that is marked by then.
pub remove_machine-NoneScheduled :
    (env : Env) (id a : ℕ) (r : Runner)
    → get_machine_by_id id r.machines ≡ some a
    → IsRecorded r
    → Ends
        (λ _ s. NoneScheduled (r.machines.machine a) s × IsRecorded s)
        (λ _. ⊥)
        (remove_machine env id r)
unfolding remove_machine get_machine_by_id
remove_machine-NoneScheduled env id a r known rec =
    let (found, same) = registry-removed id a r.machines known in
    after_registry env a r rec (Registry.remove_machine id r.machines).0
      (Registry.remove_machine id r.machines).1 found same

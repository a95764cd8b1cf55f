-- ===== src/State/Runner/Parts.antt =====
-- The parts that `succeed_step` and `fail_step` share, for a relation that does not see some of the
-- fields. No code is modelled here.
use hydra_queue_runner.State.Runner.{
  Runner, InnerQueues, Machines, update_step, Step, StorePath, update_machine, modify_step, Env,
  set_heap, modify, Action,
}
use hydra_queue_runner.Base.Map
use hydra_queue_runner.NixUtils.StorePath.{path_Eq}
use hydra_queue_runner.Base.{
  refl, ℕ, inl, inr, Bool, Option, Option-cases, find, subst, sym, ◌≡◌, ◌⊎◌, if◌then◌else◌, ◌==◌,
  some, arith, List, ◌∷◌, [],
}
use hydra_queue_runner.State.Queue.{InnerQueues, ScheduledItem}
use hydra_queue_runner.State.Runner.Hoare.{
  Framing, Moves, bind-Moves, modify-Moves, pure-Moves, is_out,
}
use hydra_queue_runner.State.Machine.Registry.{Machines}
use hydra_queue_runner.State.Runner.Finish.{
  take_scheduled, take_from_machine, take_job, mark_step, step_of, set_finished, each_build,
  at_build,
}
use hydra_queue_runner.State.Heap.{Step, modify_step, set_step, StepRef, Heap, Build, BuildRef}
use hydra_queue_runner.NixUtils.StorePath.{StorePath, path_eq}

-- The relation does not see the builders or the steps.
pub record Blind (R : Runner → Runner → Type 0) : Type 0 where
  pub machines : (r : Runner) (ms : Machines) → R r (record r { machines = ms })
  pub steps :
      (r : Runner) (cells : ℕ → Option Step)
      → R r (record r { steps = record r.steps { heap = record r.steps.heap { step = cells } } })

-- A method on a step changes no more than the cells of the steps.
pub modify_step-cases :
    (h : Heap) (s : StepRef) (f : Step → Step)
    → (modify_step h s f ≡ h)
      ⊎ ((cells : ℕ → Option Step) × (modify_step h s f ≡ record h { step = cells }))
unfolding modify_step set_step
modify_step-cases h s f = elim (Option-cases (h.step s.addr)) [
  | inl gone ↦ inl (rw (gone, modify_step) refl)
  | inr (x, live) ↦
      inr (λ b. if s.addr == b then some (f x) else h.step b, rw (live, modify_step) refl)
]

module _ {R : Runner → Runner → Type 0} ⦃p : Framing R⦄ where
  pub take_scheduled-Moves :
      ((r : Runner) (q : InnerQueues) → R r (record r { queues = q }))
      → (drv : StorePath) → Moves R (take_scheduled drv)
  unfolding take_scheduled is_out
  take_scheduled-Moves b drv = record {
    run = λ r. elim (Option-cases (Map.get drv r.queues.scheduled)) [
      | inl missing ↦ rw (missing, take_scheduled) (b r _)
      | inr (item, e) ↦ rw (e, take_scheduled) (b r _)
    ];
    ends = λ r. ground arith;
  }

  pub take_from_machine-Moves :
      Blind R
      → (env : Env) (drv : StorePath) (item : ScheduledItem)
      → Moves R (take_from_machine env drv item)
  unfolding take_from_machine update_machine is_out
  take_from_machine-Moves b env drv item = record {
    run = λ r.
        elim (Option-cases
          (find (λ j. path_eq j.path drv) (r.machines.machine item.machine).jobs)) [
            | inl missing ↦ rw (missing, take_from_machine) (b.machines r _)
            | inr (job, e) ↦ rw (e, take_from_machine) (b.machines r _)
          ];
    ends = λ r. ground arith;
  }

  pub update_step-Moves :
      Blind R
      → (s : Runner → StepRef) (f : Step → Step) → Moves R (modify (λ r. update_step (s r) f r))
  unfolding update_step set_heap
  update_step-Moves b s f = modify-Moves _ λ r. elim (modify_step-cases r.steps.heap (s r) f) [
    | inl e ↦ subst (λ h. R r (record r { steps = record r.steps { heap = h } })) (sym e) (p.same r)
    | inr (cells, e) ↦
        subst (λ h. R r (record r { steps = record r.steps { heap = h } })) (sym e)
          (b.steps r cells)
  ]

  pub take_job-Moves :
      ((r : Runner) (q : InnerQueues) → R r (record r { queues = q }))
      → Blind R
      → (env : Env) (v : Bool) (drv : StorePath) → Moves R (take_job env v drv)
  unfolding take_job mark_step
  take_job-Moves q b env v drv = bind-Moves (take_scheduled-Moves q drv) λ item.
      bind-Moves (update_step-Moves b (step_of item) (set_finished v))
        λ _. bind-Moves (take_from_machine-Moves b env drv item) λ job. pure-Moves (item, job)

  pub each_build-Moves :
      (f : Build → Action (Unit {0}))
      → ((x : Build) → Moves R (f x))
      → (bs : List BuildRef) → Moves R (each_build f bs)
  unfolding each_build at_build is_out
  each_build-Moves f h [] = pure-Moves tt
  each_build-Moves f h (b ∷ bs) =
      bind-Moves
        (record {
          run = λ r. elim (Option-cases (r.steps.heap.build b.addr)) [
            | inl gone ↦ rw (gone, at_build) (p.same r)
            | inr (x, live) ↦ rw (live, at_build) ((h x).run r)
          ];
          ends = λ r. elim (Option-cases (r.steps.heap.build b.addr)) [
            | inl gone ↦ rw (gone, at_build) refl
            | inr (x, live) ↦ rw (live, at_build) ((h x).ends r)
          ];
        })
        λ _. each_build-Moves f h bs

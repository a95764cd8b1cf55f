-- ===== src/State/Runner/Retry.antt =====
-- A step that is tried again.
use hydra_queue_runner.State.Runner.{
  ◌>>=◌, get, Runner, update_step, modify, update_metrics, set_heap, Env, Heap, trigger_dispatch,
  Action,
}
use hydra_queue_runner.Base.{
  ℕ, ◌+◌, ◌*◌, ◌≡◌, refl, ap, ◌∙◌, inl, inr, Bool, true, false, arith, ltb, ==_iff,
}
use hydra_queue_runner.State.Runner.Hoare.{
  Framing, Ends, Moves, bind-Moves, finish_build_step-Moves, modify-Moves, weaken-Ends,
}
use hydra_queue_runner.State.Queue.{ScheduledItem, InnerQueues, set_info}
use hydra_queue_runner.State.Runner.Fail.{
  retry_later, add_try, retry_or_give_up, tries_of, set_after, incr_tries, give_up,
}
use hydra_queue_runner.State.Runner.Finish.{update_queues, step_of, finish_build_step, machine_name}
use hydra_queue_runner.State.Queue.Inner.{set_already_scheduled}
use hydra_queue_runner.State.Runner.Parts.{modify_step-cases}
use hydra_queue_runner.State.Machine.{Job}
use hydra_queue_runner.State.Heap.{Heap}

-- The jobs, the marks of the jobs and the builds are the same.
abbrev pub SameJobs : Runner → Runner → Type 0
SameJobs r s =
    (s.queues ≡ r.queues) × (s.builds ≡ r.builds) × (s.steps.heap.build ≡ r.steps.heap.build)

instance abbrev SameJobs_Framing : Framing SameJobs
SameJobs_Framing = record {
  same = λ r. (refl, refl, refl);
  trans = λ r s t f g. (g.0 ∙ f.0, g.1 ∙ f.1, g.2 ∙ f.2);
  open_tx = λ r tx. (refl, refl, refl);
  grow = λ r more tx. (refl, refl, refl);
}

-- What a retry leaves behind: every queue lists what it listed and every job has its owner, the
-- job may be taken again, and no build is touched.
abbrev pub Waits : ScheduledItem → Runner → Runner → Type 0
Waits item r s =
    (s.queues.jobs ≡ r.queues.jobs)
    × (s.queues.inner ≡ r.queues.inner)
    × ((s.queues.infos item.step_info).already_scheduled ≡ false)
    × (s.builds ≡ r.builds)
    × (s.steps.heap.build ≡ r.steps.heap.build)

retry_later-Waits :
    (env : Env) (item : ScheduledItem) (tries : ℕ) (r : Runner)
    → Waits item r (retry_later env item tries r)
unfolding retry_later update_queues update_metrics update_step set_heap set_already_scheduled
    set_info
retry_later-Waits env item tries r = (
  refl,
  refl,
  ground (arith, ==_iff item.step_info item.step_info),
  refl,
  elim (modify_step-cases r.steps.heap (step_of item r)
      (set_after (env.now + env.retry_delta tries * 1000000000))) [
        | inl e ↦ ap (λ (h : Heap). h.build) e
        | inr (cells, e) ↦ ap (λ (h : Heap). h.build) e
      ],
)

add_try-SameJobs : (item : ScheduledItem) (r : Runner) → SameJobs r (add_try item r)
unfolding add_try update_step set_heap
add_try-SameJobs item r = (
  refl,
  refl,
  elim (modify_step-cases r.steps.heap (step_of item r) incr_tries) [
    | inl e ↦ ap (λ (h : Heap). h.build) e
    | inr (cells, e) ↦ ap (λ (h : Heap). h.build) e
  ],
)

Waits-then :
    (item : ScheduledItem) (r s t u : Runner)
    → SameJobs r s
    → Waits item s t
    → SameJobs t u
    → Waits item r u
Waits-then item r s t u f w g = (
  ap (λ (q : InnerQueues). q.jobs) g.0 ∙ (w.0 ∙ ap (λ (q : InnerQueues). q.jobs) f.0),
  ap (λ (q : InnerQueues). q.inner) g.0 ∙ (w.1 ∙ ap (λ (q : InnerQueues). q.inner) f.0),
  ap (λ (q : InnerQueues). (q.infos item.step_info).already_scheduled) g.0 ∙ w.2,
  g.1 ∙ (w.3 ∙ f.1),
  g.2 ∙ (w.4 ∙ f.2),
)

-- A step that may be tried again and has tries left is not given up: whether the database takes the
-- result of this try or not, every queue lists the jobs that it listed and every job has its owner,
-- so the job stays where it was; it is no longer marked as scheduled, and no build is marked or
-- removed.
pub retry_or_give_up-Waits :
    (env : Env) (item : ScheduledItem) (job : Job) (r : Runner)
    → job.result.can_retry ≡ true
    → ltb (tries_of item (add_try item r)) env.max_retries ≡ true
    → Ends (λ _. Waits item r) (Waits item r) (retry_or_give_up env item job r)
unfolding retry_or_give_up modify get ◌>>=◌ trigger_dispatch
retry_or_give_up-Waits env item job r can left = by_flag job.result.can_retry can
  where
    s : Runner
    s = add_try item r

    rest : Runner → Action (Unit {0})
    rest r' =
        finish_build_step env job.build_id job.step_nr job.result (machine_name item r') >>= λ _.
        modify trigger_dispatch

    rest-SameJobs : (r' : Runner) → Moves SameJobs (rest r')
    rest-SameJobs r' =
        bind-Moves (finish_build_step-Moves env _ _ _ _)
          λ _. modify-Moves trigger_dispatch λ t. (refl, refl, refl)

    by_left :
        (c : Bool)
        → c ≡ true
        → Ends
            (λ _. Waits item r)
            (Waits item r)
            ((elim c as (λ _. Action (Unit {0})) [
              | false ↦ give_up env item job
              | true ↦ modify (retry_later env item (tries_of item s)) >>= λ _. rest s
            ])
              s)
    by_left false e = cc
    by_left true e =
        let t = retry_later env item (tries_of item s) s in
        weaken-Ends (λ _ u. SameJobs t u) (λ _. Waits item r) (SameJobs t) (Waits item r) (rest s t)
          (λ _ u g.
            Waits-then item r s t u (add_try-SameJobs item r) (retry_later-Waits env item _ s) g)
          (λ u g.
            Waits-then item r s t u (add_try-SameJobs item r) (retry_later-Waits env item _ s) g)
          ((rest-SameJobs s).run t)

    by_flag :
        (c : Bool)
        → c ≡ true
        → Ends
            (λ _. Waits item r)
            (Waits item r)
            ((elim c as (λ _. Action (Unit {0})) [
              | false ↦ give_up env item job
              | true ↦ modify (add_try item) >>= λ _. get >>= λ r'.
                  elim (ltb (tries_of item r') env.max_retries) as (λ _. Action (Unit {0})) [
                    | false ↦ give_up env item job
                    | true ↦ modify (retry_later env item (tries_of item r')) >>= λ _. rest r'
                  ]
            ])
              r)
    by_flag false e = cc
    by_flag true e = by_left (ltb (tries_of item s) env.max_retries) left

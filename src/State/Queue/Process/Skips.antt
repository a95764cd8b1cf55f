-- ===== src/State/Queue/Process/Skips.antt =====
-- Which jobs a dispatch hands to the processor, and what it counts.
use hydra_queue_runner.Base.{
  ℕ, suc, ◌+◌, ◌≤◌, ◌≡◌, refl, Bool, true, false, not, ◌&&◌, none, some, List, [], ◌∷◌, arith, ltb,
  leb, length, All,
}
use hydra_queue_runner.Base.Text.{Text}
use hydra_queue_runner.State.Queue.{upgrade}
use hydra_queue_runner.State.Queue.Inner.{is_finished}
use hydra_queue_runner.State.Queue.Process.{
  World, Processor, Counts, get_after, process_job, process_jobs, handle_result, set_counts,
}

-- A job is ready when it is alive, not scheduled, not finished, and its retry time has come.
unfoldable pub is_ready : ℕ → World → ℕ → Bool
unfolding upgrade
is_ready now w a = elim (upgrade w.queues [] a) [
  | none ↦ false
  | some job ↦
      not job.already_scheduled
      && not (is_finished w.heap job.step)
      && leb (get_after w.heap job.step) now
]

-- A job that is gone, scheduled, finished or waits for its retry time never reaches the
-- processor: whatever the processor is, the world stays as it is, the number of waiting jobs too,
-- and the number of disabled jobs grows by at most one.
pub process_job_skips :
    (processor : Processor) (now : ℕ) (system : Text) (a : ℕ) (w : World) (c : Counts)
    → is_ready now w a ≡ false
    → ((process_job processor now system a w c).0 ≡ w)
      × ((process_job processor now system a w c).1.nr_waiting ≡ c.nr_waiting)
      × ((process_job processor now system a w c).1.nr_disabled ≤ c.nr_disabled + 1)
unfolding process_job is_ready
process_job_skips processor now system a w c h = ground arith

-- A ready job is handed to the processor once, and its answer decides: see `handle_result`.
pub process_job_ready :
    (processor : Processor) (now : ℕ) (system : Text) (a : ℕ) (w : World) (c : Counts)
    → is_ready now w a ≡ true
    → let answer = processor a system w in
      let r = handle_result a system answer.1 answer.0 c in
      process_job processor now system a w c ≡ (set_counts system r.1 r.0, r.1)
unfolding process_job is_ready
process_job_ready processor now system a w c h = ground arith

-- A job whose retry time has not come.
unfoldable pub is_disabled : ℕ → World → ℕ → Bool
unfolding upgrade
is_disabled now w a = elim (upgrade w.queues [] a) [
  | none ↦ false
  | some job ↦
      not job.already_scheduled
      && not (is_finished w.heap job.step)
      && ltb now (get_after w.heap job.step)
]

disabled_one :
    (processor : Processor) (now : ℕ) (system : Text) (a : ℕ) (w : World) (c : Counts)
    → is_disabled now w a ≡ true
    → process_job processor now system a w c ≡ (w, record c { nr_disabled = suc c.nr_disabled })
unfolding process_job is_disabled
disabled_one processor now system a w c h = ground arith

-- The defect: where every job of a queue waits for its retry time, the loop counts them all and
-- stores nothing, so the queue keeps the numbers of an earlier dispatch.
pub disabled_not_stored :
    (processor : Processor) (now : ℕ) (system : Text) (jobs : List ℕ) (w : World) (c : Counts)
    → All (λ a. is_disabled now w a ≡ true) jobs
    → ((process_jobs processor now system jobs w c).0 ≡ w)
      × ((process_jobs processor now system jobs w c).1.nr_disabled ≡ c.nr_disabled + length jobs)
unfolding process_jobs
disabled_not_stored processor now system [] w c h = (refl, omega arith)
disabled_not_stored processor now system (a ∷ jobs) w c h = ground (
  arith,
  disabled_one processor now system a w c h.0,
  disabled_not_stored processor now system jobs w (record c { nr_disabled = suc c.nr_disabled })
      h.1,
)

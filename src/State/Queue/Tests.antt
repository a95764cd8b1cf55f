-- ===== src/State/Queue/Tests.antt =====
-- Build queues: tests, and the theorems on a queue with two jobs.
use hydra_queue_runner.Base.{
  ℕ, ◌≤◌, ◌≡◌, refl, ◌≢◌, true, false, none, some, [], ◌∷◌, arith, ◌==◌, length, any, In, ◌↔◌,
}
use hydra_queue_runner.Base.Map
use hydra_queue_runner.Base.Map.{Map}
use hydra_queue_runner.Base.Text.{Text, codes, text_eq, text_Eq}
use hydra_queue_runner.NixUtils.StorePath.{StorePath, path_eq, path_Eq}
use hydra_queue_runner.State.Step.{new_step}
use hydra_queue_runner.State.StepInfo.{StepInfo}
use hydra_queue_runner.State.Queue.{BuildQueue, ScheduledItem, InnerQueues, new_queue, push_new}
use hydra_queue_runner.State.Queue.Inner.{
  add_job_to_scheduled, remove_job_from_scheduled, remove_job, remove_all_weak_pointer,
}
use hydra_queue_runner.State.Queue.Active.{
  IsCounted, active_in, add_job_to_scheduled-IsCounted, remove_job_from_scheduled-IsCounted,
  remove-add_scheduled,
}
use hydra_queue_runner.State.Queue.Insert.{live_count}
use hydra_queue_runner.State.Queue.Process.{
  World, Processor, Counts, RealiseStepResult, process_job, process_jobs,
}
use hydra_queue_runner.State.Queue.Process.Skips.{
  is_ready, is_disabled, process_job_skips, disabled_not_stored,
}
use hydra_queue_runner.State.Queue.Process.Held.{
  remove_job_keeps, Owned, remove_all_weak_pointer-IsScrubbed,
}

abbrev path : ℕ → StorePath
path n = record { base_name = n ∷ [] }

abbrev linux : Text
linux = codes "x86_64-linux"

-- The job of the step at an address, whose path has the same number.
abbrev info : ℕ → StepInfo
info a = record {
  step = record { addr = a; drv_path = path a };
  resolved_drv_path = none;
  already_scheduled = false;
  cancelled = false;
  runnable_since = 0;
  lowest_share_used = 0;
}

-- Two jobs wait in one queue.
abbrev two_jobs : InnerQueues
two_jobs = record {
  jobs = (path 1, 1) ∷ (path 2, 2) ∷ [];
  inner = (linux, record new_queue { jobs = 1 ∷ 2 ∷ []; total_runnable = 2 }) ∷ [];
  scheduled = [];
  infos = info;
  next = 3;
}

two_jobs-IsCounted : IsCounted two_jobs
unfolding new_queue active_in Map.get
two_jobs-IsCounted = record { unique = tt; counted = λ s bq h. ground arith }

add_job_to_scheduled-IsCounted_example : IsCounted (add_job_to_scheduled 1 linux 9 two_jobs)
unfolding Map.get
add_job_to_scheduled-IsCounted_example =
    add_job_to_scheduled-IsCounted 1 linux 9 two_jobs refl two_jobs-IsCounted

remove_job_from_scheduled-IsCounted_example :
    IsCounted (remove_job_from_scheduled (path 1) (add_job_to_scheduled 1 linux 9 two_jobs)).0
unfolding Map.get
remove_job_from_scheduled-IsCounted_example =
    remove_job_from_scheduled-IsCounted (path 1) (add_job_to_scheduled 1 linux 9 two_jobs)
      (add_job_to_scheduled-IsCounted 1 linux 9 two_jobs refl two_jobs-IsCounted)

remove-add_scheduled_example :
    let r = remove_job_from_scheduled (path 1) (add_job_to_scheduled 1 linux 9 two_jobs) in
    (r.1 ≡ some (record { step_info = 1; build_queue = linux; machine = 9 }))
    × (Map.get (path 1) r.0.scheduled ≡ none)
    × ((r.0.infos 1).already_scheduled ≡ false)
    × (((add_job_to_scheduled 1 linux 9 two_jobs).infos 1).already_scheduled ≡ true)
    × (r.0.jobs ≡ two_jobs.jobs)
    × ((p : StorePath) → p ≢ path 1 → Map.get p r.0.scheduled ≡ Map.get p two_jobs.scheduled)
remove-add_scheduled_example = remove-add_scheduled 1 linux 9 two_jobs

-- Job 1 is submitted again together with job 2, into a queue that holds only job 1.
push_test : (push_new two_jobs [] 0 (1 ∷ 2 ∷ []) (1 ∷ []) 0).0 ≡ 1 ∷ 2 ∷ []
unfolding push_new path_eq text_eq
push_test = refl

one_job-once : (p : StorePath) → live_count two_jobs [] p (1 ∷ []) ≤ 1
unfolding live_count
one_job-once p = ground arith

remove_job_keeps_example :
    (Map.get (path 1) (remove_job [] 1 linux two_jobs).jobs ≡ none)
    × (after : BuildQueue) × (Map.get linux (remove_job [] 1 linux two_jobs).inner ≡ some after)
    × (any (λ b. b == 1) after.jobs ≡ true)
    × (after.total_runnable ≡ length after.jobs)
unfolding new_queue Map.get text_eq
remove_job_keeps_example =
    remove_job_keeps 1 linux two_jobs (record new_queue { jobs = 1 ∷ 2 ∷ []; total_runnable = 2 })
      refl refl

remove_all_weak_pointer-IsScrubbed_example :
    let q = remove_job [] 1 linux two_jobs in
    (after : BuildQueue) × (Map.get linux (remove_all_weak_pointer [] q).inner ≡ some after)
    × ((a : ℕ) → In a after.jobs ↔ (In a (1 ∷ 2 ∷ []) × Owned q a))
    × (after.total_runnable ≡ length after.jobs)
    × ((a : ℕ) → Owned (remove_all_weak_pointer [] q) a ↔ Owned q a)
unfolding remove_job new_queue Map.get hydra_queue_runner.State.Queue.modify_queue text_eq
    Map.insert Map.remove path_eq
remove_all_weak_pointer-IsScrubbed_example =
    remove_all_weak_pointer-IsScrubbed (remove_job [] 1 linux two_jobs) linux
      (record new_queue { jobs = 1 ∷ 2 ∷ []; total_runnable = 2 }) refl

-- The job that was taken out is the one that the scrub drops.
scrub_test :
    Map.get linux (remove_all_weak_pointer [] (remove_job [] 1 linux two_jobs)).inner
    ≡ some (record new_queue { jobs = 2 ∷ []; total_runnable = 1 })
unfolding remove_job new_queue remove_all_weak_pointer Map.get
    hydra_queue_runner.State.Queue.modify_queue text_eq Map.insert Map.remove path_eq
scrub_test = refl

-- Both steps are to be tried again at the time 100.
abbrev waiting : World
waiting = record {
  heap = record {
    step = λ a. some (record (new_step (path a)) {
      atomic_state = record (new_step (path a)).atomic_state { created = true; after = 100 };
    });
    build = λ a. none;
    jobset = λ a. none;
  };
  queues = two_jobs;
}

-- A processor that forgets every job.
abbrev forgetful : Processor
forgetful a system w =
    (record w { queues = record w.queues { jobs = [] } }, some RealiseStepResult.no_machine)

abbrev no_counts : Counts
no_counts = record { nr_disabled = 0; nr_waiting = 0; nr_steps_waiting_all_queues = 0 }

process_job_skips_example :
    ((process_job forgetful 50 linux 1 waiting no_counts).0 ≡ waiting)
    × ((process_job forgetful 50 linux 1 waiting no_counts).1.nr_waiting ≡ 0)
    × ((process_job forgetful 50 linux 1 waiting no_counts).1.nr_disabled ≤ 1)
unfolding is_ready new_step hydra_queue_runner.State.Queue.Inner.is_finished
    hydra_queue_runner.State.Queue.Process.get_after
process_job_skips_example = process_job_skips forgetful 50 linux 1 waiting no_counts refl

disabled_not_stored_example :
    ((process_jobs forgetful 50 linux (1 ∷ 2 ∷ []) waiting no_counts).0 ≡ waiting)
    × ((process_jobs forgetful 50 linux (1 ∷ 2 ∷ []) waiting no_counts).1.nr_disabled ≡ 2)
unfolding is_disabled new_step hydra_queue_runner.State.Queue.Inner.is_finished
    hydra_queue_runner.State.Queue.Process.get_after
disabled_not_stored_example =
    disabled_not_stored forgetful 50 linux (1 ∷ 2 ∷ []) waiting no_counts (refl, (refl, tt))

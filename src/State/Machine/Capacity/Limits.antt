-- ===== src/State/Machine/Capacity/Limits.antt =====
-- What a builder with capacity promises to the next job.
use hydra_queue_runner.Base.{
  ℕ, ◌+◌, ◌≤◌, ◌<◌, ◌≡◌, Bool, true, false, Option, some, arith, length, length-append, ap, ◌∷◌, [],
}
use hydra_queue_runner.State.Machine.{
  Machine, Job, BuildOptions, build_drv, start_job, send, insert_job,
}
use hydra_queue_runner.State.Machine.Capacity.{
  Floats32, MachineFreeFn, has_capacity, has_static_capacity, free_test, is_throttled, reset_window,
  window_over,
}

-- The free functions that look at the limit of jobs.
unfoldable pub is_limited : MachineFreeFn → Bool
is_limited MachineFreeFn.dynamic = false
is_limited _ = true

-- The job counter of a builder shows its jobs.
abbrev pub IsCounted : Machine → Type 0
IsCounted m = m.stats.current_jobs ≡ length m.jobs

build_drv-jobs :
    (sent : Bool) (now : ℕ) (job : Job) (opts : BuildOptions) (presigned : Option Bool)
    (m after : Machine)
    → build_drv sent now job opts presigned m ≡ some after
    → length after.jobs ≡ length m.jobs + 1
unfolding build_drv start_job send insert_job
build_drv-jobs sent now job opts presigned m after h =
    ground (arith, length-append m.jobs (job ∷ []))

has_capacity-jobs :
    (fl : Floats32) (now : ℕ) (free : MachineFreeFn) (m : Machine)
    → (has_capacity fl now free m).0.jobs ≡ m.jobs
unfolding has_capacity reset_window
has_capacity-jobs fl now free m = ground arith

free_test-limited :
    (free : MachineFreeFn) (m : Machine)
    → is_limited free ≡ true
    → free_test free m ≡ true
    → m.stats.current_jobs < m.join.max_jobs
unfolding free_test has_static_capacity is_limited
free_test-limited MachineFreeFn.dynamic m l h = ground arith
free_test-limited MachineFreeFn.dynamic_with_max_job_limit m l h = ground arith
free_test-limited MachineFreeFn.static m l h = ground arith

has_capacity-test :
    (fl : Floats32) (now : ℕ) (free : MachineFreeFn) (m : Machine)
    → (has_capacity fl now free m).1 ≡ true
    → free_test free (has_capacity fl now free m).0 ≡ true
unfolding has_capacity
has_capacity-test fl now free m h = ground arith

has_capacity-same :
    (fl : Floats32) (now : ℕ) (free : MachineFreeFn) (m : Machine)
    → ((has_capacity fl now free m).0.stats.current_jobs ≡ m.stats.current_jobs)
      × ((has_capacity fl now free m).0.join.max_jobs ≡ m.join.max_jobs)
unfolding has_capacity reset_window
has_capacity-same fl now free m = ground arith

has_capacity-free :
    (fl : Floats32) (now : ℕ) (free : MachineFreeFn) (m : Machine)
    → is_limited free ≡ true
    → (has_capacity fl now free m).1 ≡ true
    → m.stats.current_jobs < m.join.max_jobs
has_capacity-free fl now free m l h =
    let (jobs, most) = has_capacity-same fl now free m in
    let fewer =
      free_test-limited free (has_capacity fl now free m).0 l (has_capacity-test fl now free m h) in
    omega (arith, jobs, most, fewer)

-- A builder whose counter of jobs is right and that has capacity under a free function with a
-- limit takes one more job without going over `max_jobs`, whether or not the question reset the
-- window of thirty seconds.
pub has_capacity-max_jobs :
    (fl : Floats32) (now : ℕ) (free : MachineFreeFn) (m : Machine)
    → IsCounted m
    → is_limited free ≡ true
    → (has_capacity fl now free m).1 ≡ true
    → (sent : Bool) (later : ℕ) (job : Job) (opts : BuildOptions) (presigned : Option Bool)
      (after : Machine)
    → build_drv sent later job opts presigned (has_capacity fl now free m).0 ≡ some after
    → length after.jobs ≤ m.join.max_jobs
has_capacity-max_jobs fl now free m counted limited has sent later job opts presigned after h =
    let grown =
      build_drv-jobs sent later job opts presigned (has_capacity fl now free m).0 after h in
    omega (
      arith,
      grown,
      ap length (has_capacity-jobs fl now free m),
      has_capacity-free fl now free m limited has,
      counted,
    )

-- While the window of thirty seconds is open, a builder that was given four jobs in it and still has
-- capacity works on fewer than four jobs.
pub has_capacity-throttle :
    (fl : Floats32) (now : ℕ) (free : MachineFreeFn) (m : Machine)
    → now ≤ m.stats.jobs_in_last_30s_start + 30
    → 4 ≤ m.stats.jobs_in_last_30s_count
    → (has_capacity fl now free m).1 ≡ true
    → m.stats.current_jobs < 4
unfolding has_capacity is_throttled window_over
has_capacity-throttle fl now free m w c h = ground arith

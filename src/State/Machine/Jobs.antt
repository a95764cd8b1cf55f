-- ===== src/State/Machine/Jobs.antt =====
-- The jobs of a builder: lookups, the counter of jobs and the time since which it is idle.
use hydra_queue_runner.Base.{
  inl, inr, subst, sym, ◌∙◌, Bool-cases, ℕ, ◌+◌, ◌-◌, ◌≤◌, ◌<◌, ◌≡◌, ◌↔◌, Bool, false, not, Option,
  none, some, List, [], ◌∷◌, ◌++◌, arith, if◌then◌else◌, length-append, retain, find, ◌∙◌,
  Bool-cases, ap, ◌⊎◌,
}
use hydra_queue_runner.Base.Words.{two_64, sub64}
use hydra_queue_runner.NixUtils.StorePath.{StorePath, path_eq, path_eq_iff}
use hydra_queue_runner.State.Machine.{
  Machine, Job, BuildOptions, build_drv, start_job, send, insert_job, remove_job,
  get_internal_build_id_for_drv,
}
use hydra_queue_runner.State.Machine.Counters.{store_current_jobs, incr_nr_steps_done}
use hydra_queue_runner.State.Machine.Capacity.{
  Floats32, MachineFreeFn, has_capacity, is_throttled, window_over,
}
use hydra_queue_runner.State.Machine.Capacity.Limits.{IsCounted}

find-append :
    (p : Job → Bool) (l : List Job) (j : Job)
    → find p (l ++ j ∷ [])
      ≡ (elim (find p l) [ none ↦ if p j then some j else none | some x ↦ some x ])
find-append p [] j = ground arith
find-append p (x ∷ l) j = ground (arith, find-append p l j)

find-retain :
    (drv other : StorePath) (l : List Job)
    → find (λ j. path_eq j.path other) (retain (λ j. not (path_eq j.path drv)) l)
      ≡ (if path_eq drv other then none else find (λ j. path_eq j.path other) l)
find-retain drv other [] = ground arith
find-retain drv other (x ∷ l) = ground (
  arith,
  find-retain drv other l,
  path_eq_iff x.path drv,
  path_eq_iff x.path other,
  path_eq_iff drv other,
)

-- After a job was sent to a builder, its counter of jobs is the number of its jobs and it is not
-- idle.
pub build_drv-IsCounted :
    (sent : Bool) (now : ℕ) (job : Job) (opts : BuildOptions) (presigned : Option Bool)
    (m after : Machine)
    → build_drv sent now job opts presigned m ≡ some after
    → IsCounted after × (after.stats.idle_since ≡ 0)
unfolding build_drv start_job send insert_job store_current_jobs
build_drv-IsCounted sent now job opts presigned m after h =
    ground (arith, length-append m.jobs (job ∷ []))

build_drv-jobs :
    (sent : Bool) (now : ℕ) (job : Job) (opts : BuildOptions) (presigned : Option Bool)
    (m after : Machine)
    → build_drv sent now job opts presigned m ≡ some after
    → after.jobs ≡ m.jobs ++ job ∷ []
unfolding build_drv start_job send insert_job
build_drv-jobs sent now job opts presigned m after h = ground arith

-- Adding a job and dropping those of its derivation gives back each lookup.
find-dropped :
    (job : Job) (l : List Job) (drv : StorePath)
    → find (λ j. path_eq j.path job.path) l ≡ none
    → find (λ j. path_eq j.path drv) (retain (λ j. not (path_eq j.path job.path)) (l ++ job ∷ []))
      ≡ find (λ j. path_eq j.path drv) l
find-dropped job l drv h =
    find-retain job.path drv (l ++ job ∷ []) ∙ (elim (Bool-cases (path_eq job.path drv)) [
      | inl e ↦ rw (
        e,
        sym (subst (λ x. find (λ j. path_eq j.path x) l ≡ none) ((path_eq_iff job.path drv).0 e) h),
      )
      | inr e ↦ ground (arith, find-append (λ j. path_eq j.path drv) l job)
    ])

find-added :
    (job : Job) (l : List Job)
    → find (λ j. path_eq j.path job.path) l ≡ none
    → find (λ j. path_eq j.path job.path) (l ++ job ∷ []) ≡ some job
find-added job l h =
    ground (arith, find-append (λ j. path_eq j.path job.path) l job, path_eq_iff job.path job.path)

no_job :
    (drv : StorePath) (m : Machine)
    → get_internal_build_id_for_drv drv m ≡ none
    → find (λ j. path_eq j.path drv) m.jobs ≡ none
unfolding get_internal_build_id_for_drv
no_job drv m h = ground arith

remove_job-IsCounted :
    (now : ℕ) (drv : StorePath) (m : Machine) → IsCounted (remove_job now drv m).0
unfolding remove_job store_current_jobs
remove_job-IsCounted now drv m = ground arith

lookup-same :
    (now : ℕ) (path drv : StorePath) (after m : Machine)
    → find (λ j. path_eq j.path drv) (retain (λ j. not (path_eq j.path path)) after.jobs)
      ≡ find (λ j. path_eq j.path drv) m.jobs
    → get_internal_build_id_for_drv drv (remove_job now path after).0
      ≡ get_internal_build_id_for_drv drv m
unfolding remove_job get_internal_build_id_for_drv
lookup-same now path drv after m e =
    ap (λ x. elim x as (λ _. Option ℕ) [ none ↦ none | some j ↦ some j.internal_build_id ]) e

-- A job that is started on a builder without a job for its derivation is found by the derivation;
-- taking it off returns it, leaves the counter of jobs right, and leaves every derivation with
-- the job that it had before, so this one with none.
pub build-remove_job :
    (sent : Bool) (now later : ℕ) (job : Job) (opts : BuildOptions) (presigned : Option Bool)
    (m after : Machine)
    → get_internal_build_id_for_drv job.path m ≡ none
    → build_drv sent now job opts presigned m ≡ some after
    → (get_internal_build_id_for_drv job.path after ≡ some job.internal_build_id)
      × ((remove_job later job.path after).1 ≡ some job)
      × IsCounted (remove_job later job.path after).0
      × ((drv : StorePath)
          → get_internal_build_id_for_drv drv (remove_job later job.path after).0
            ≡ get_internal_build_id_for_drv drv m)
unfolding get_internal_build_id_for_drv remove_job build_drv start_job send insert_job
    store_current_jobs
build-remove_job sent now later job opts presigned m after absent h =
    let jobs = build_drv-jobs sent now job opts presigned m after h in
    let free = no_job job.path m absent in
    let added =
      subst (λ l. find (λ j. path_eq j.path job.path) l ≡ some job) (sym jobs)
        (find-added job m.jobs free) in
    (
      ground (arith, added),
      added,
      remove_job-IsCounted later job.path after,
      λ drv. lookup-same later job.path drv after m (
          subst
            (λ l.
              find (λ j. path_eq j.path drv) (retain (λ j. not (path_eq j.path job.path)) l)
              ≡ find (λ j. path_eq j.path drv) m.jobs)
            (sym jobs) (find-dropped job m.jobs drv free)),
    )

-- After a job is taken off at a time above zero, the builder is idle since now exactly if no job
-- is left and no idle time was stored; otherwise the idle time is cleared, also if the builder
-- was idle already.
pub remove_job-idle :
    (now : ℕ) (drv : StorePath) (m : Machine)
    → 0 < now
    → (((remove_job now drv m).0.stats.idle_since ≡ now)
        ↔ (((remove_job now drv m).0.jobs ≡ []) × (m.stats.idle_since ≡ 0)))
      × (((remove_job now drv m).0.stats.idle_since ≡ now)
          ⊎ ((remove_job now drv m).0.stats.idle_since ≡ 0))
unfolding remove_job store_current_jobs incr_nr_steps_done
remove_job-idle now drv m pos = (ground arith, ground arith)

-- The defect: two jobs that end at one time, while the window of thirty seconds counts one job,
-- leave its unsigned counter at the largest value. If the builder then still works on four jobs,
-- it is refused at every time until the window is over, in that state, which the refusal does not
-- change.
pub remove_job_underflow :
    (fl : Floats32) (free : MachineFreeFn) (now later : ℕ) (first second : StorePath) (m : Machine)
    → m.stats.jobs_in_last_30s_count ≡ 1
    → now ≤ m.stats.jobs_in_last_30s_start + 30
    → later ≤ m.stats.jobs_in_last_30s_start + 30
    → 4 ≤ (remove_job now second (remove_job now first m).0).0.stats.current_jobs
    → ((remove_job now second (remove_job now first m).0).0.stats.jobs_in_last_30s_count
        ≡ two_64 - 1)
      × (has_capacity fl later free (remove_job now second (remove_job now first m).0).0
          ≡ ((remove_job now second (remove_job now first m).0).0, false))
unfolding remove_job store_current_jobs incr_nr_steps_done sub64 has_capacity is_throttled
    window_over
remove_job_underflow fl free now later first second m one within open_window four = ground arith

-- ===== src/State/Queue/Inner.antt =====
-- `InnerQueues` of queue-runner/src/state/queue.rs.
use hydra_queue_runner.Base.{
  ℕ, suc, Bool, true, false, not, ◌&&◌, Option, none, some, List, [], ◌∷◌, map, if◌then◌else◌,
  is_some,
}
use hydra_queue_runner.Base.Map
use hydra_queue_runner.Base.Map.{Map}
use hydra_queue_runner.Base.Text.{Text, text_Eq}
use hydra_queue_runner.Base.Words.{Floats}
use hydra_queue_runner.NixUtils.StorePath.{StorePath, path_Eq}
use hydra_queue_runner.State.Heap.{StepRef, Heap}
use hydra_queue_runner.State.StepInfo.{StepInfo, StepSortFn}
use hydra_queue_runner.State.Queue.{
  BuildQueue, ScheduledItem, InnerQueues, new_queue, set_info, modify_queue, incr_active,
  decr_active, scrube_jobs, sort_jobs, queue_insert_new_jobs,
}

-- `step.get_finished()` of a step that is alive.
unfoldable pub is_finished : Heap → StepRef → Bool
is_finished h r = elim (h.step r.addr) [ none ↦ false | some s ↦ s.finished ]

-- The loop over the new jobs: each gets an address, and the accepted ones are handed on.
unfoldable pub accept_jobs : Heap → List StepInfo → InnerQueues → InnerQueues × List ℕ
unfolding is_finished set_info
accept_jobs h [] q = (q, [])
accept_jobs h (j ∷ js) q =
    let a = q.next in
    let q' : InnerQueues = record (set_info q a j) { next = suc a } in
    let taken = not (is_some (Map.get j.step.drv_path q.jobs)) && not (is_finished h j.step) in
    let rest =
      accept_jobs h js
        (if taken then record q' { jobs = Map.insert j.step.drv_path a q'.jobs } else q') in
    (rest.0, if taken then a ∷ rest.1 else rest.1)

-- `entry(system).or_insert_with(..)`
unfoldable pub ensure_queue : Text → InnerQueues → InnerQueues
unfolding new_queue
ensure_queue system q = elim (Map.get system q.inner) [
  | none ↦ record q { inner = Map.insert system new_queue q.inner }
  | some _ ↦ q
]

unfoldable pub insert_new_jobs :
    Floats → Heap → StepSortFn → Text → List StepInfo → ℕ → InnerQueues → InnerQueues
unfolding accept_jobs ensure_queue queue_insert_new_jobs
insert_new_jobs fl h f system jobs now q =
    let (q', submit) = accept_jobs h jobs q in
    queue_insert_new_jobs fl h f [] system submit now (ensure_queue system q')

unfoldable pub ensure_queues_for_systems : List Text → InnerQueues → InnerQueues
unfolding ensure_queue
ensure_queues_for_systems [] q = q
ensure_queues_for_systems (s ∷ ss) q = ensure_queues_for_systems ss (ensure_queue s q)

-- `remove_all_weak_pointer`: every queue is scrubbed. `held` are the local owners.
unfoldable pub scrube_all : InnerQueues → List ℕ → Map Text BuildQueue → Map Text BuildQueue
unfolding scrube_jobs
scrube_all q held [] = []
scrube_all q held ((s, bq) ∷ m) = (s, scrube_jobs q held bq) ∷ scrube_all q held m

unfoldable pub remove_all_weak_pointer : List ℕ → InnerQueues → InnerQueues
unfolding scrube_all
remove_all_weak_pointer held q = record q { inner = scrube_all q held q.inner }

unfoldable pub set_already_scheduled : ℕ → Bool → InnerQueues → InnerQueues
unfolding set_info
set_already_scheduled a v q = set_info q a (record (q.infos a) { already_scheduled = v })

unfoldable pub set_cancelled : ℕ → Bool → InnerQueues → InnerQueues
unfolding set_info
set_cancelled a v q = set_info q a (record (q.infos a) { cancelled = v })

unfoldable pub add_job_to_scheduled : ℕ → Text → ℕ → InnerQueues → InnerQueues
unfolding set_already_scheduled incr_active
add_job_to_scheduled a system machine q =
    let item : ScheduledItem = record { step_info = a; build_queue = system; machine = machine } in
    modify_queue
      (set_already_scheduled a true
        (record q { scheduled = Map.insert (q.infos a).step.drv_path item q.scheduled }))
      system incr_active

unfoldable pub remove_job_from_scheduled :
    StorePath → InnerQueues → InnerQueues × Option ScheduledItem
unfolding set_already_scheduled decr_active
remove_job_from_scheduled drv q = elim (Map.get drv q.scheduled) [
  | none ↦ (q, none)
  | some item ↦ (
    modify_queue
        (set_already_scheduled item.step_info false
          (record q { scheduled = Map.remove drv q.scheduled }))
        item.build_queue decr_active,
    some item,
  )
]

unfoldable pub remove_job_by_path : StorePath → InnerQueues → InnerQueues
remove_job_by_path drv q = record q { jobs = Map.remove drv q.jobs }

-- `remove_job`: the caller passes `&Arc<StepInfo>`, so the job is held while its queue is scrubbed.
unfoldable pub remove_job : List ℕ → ℕ → Text → InnerQueues → InnerQueues
unfolding scrube_jobs
remove_job held a system q =
    let q' : InnerQueues = record q { jobs = Map.remove (q.infos a).step.drv_path q.jobs } in
    modify_queue q' system (scrube_jobs q' (a ∷ held))

unfoldable pub get_jobs : InnerQueues → List ℕ
get_jobs q = map (λ (e : StorePath × ℕ). e.1) q.jobs

unfoldable pub get_scheduled : InnerQueues → List ℕ
get_scheduled q = map (λ (e : StorePath × ScheduledItem). e.1.step_info) q.scheduled

unfoldable pub sort_systems : Floats → Heap → StepSortFn → List Text → InnerQueues → InnerQueues
unfolding sort_jobs
sort_systems fl h f [] q = q
sort_systems fl h f (s ∷ ss) q = sort_systems fl h f ss (sort_jobs fl h f [] s q)

unfoldable pub sort_queues : Floats → Heap → StepSortFn → InnerQueues → InnerQueues
unfolding sort_systems
sort_queues fl h f q = sort_systems fl h f (map (λ (e : Text × BuildQueue). e.0) q.inner) q

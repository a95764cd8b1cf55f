-- ===== src/State/Queue.antt =====
-- queue-runner/src/state/queue.rs: the build queues. A `StepInfo` lives at an address; it is owned
-- by `jobs`, by the scheduled items and by the local variables of the running call (`held`), and a
-- weak reference to it can be upgraded exactly while one of these holds it. A build queue is shared
-- under its system, since an entry of `inner` is never replaced or removed.
pub mod Inner
pub mod Process
pub mod Insert
pub mod Active
mod Tests
use hydra_queue_runner.Base.{
  ℕ, zero, suc, ◌+◌, ◌-◌, ◌*◌, ◌/◌, ◌%◌, ◌^◌, ◌≤◌, ◌<◌, min, max, compare, Ordering, ◌≡◌, refl, sym,
  ap, subst, ◌∙◌, ◌≡⟨◌⟩◌, ◌∎, ◌≢◌, ◌↔◌, ◌⊎◌, inl, inr, Bool, true, false, not, ◌&&◌, ◌||◌, Option,
  none, some, List, [], ◌∷◌, ◌++◌, map, flat_map, arith, ltb, leb, ◌==◌, if◌then◌else◌, is_some,
  unwrap_or, ltb→lt, ==_iff, Bool-cases, Option-cases, length, length-append, take, drop,
  take-append-drop, length-take, retain, any, all, find, count_if, All, length-retain, All-append,
  In, any-append, some_inj, find-test, All-retain,
}
use hydra_queue_runner.Base.Map
use hydra_queue_runner.Base.Map.{Map}
use hydra_queue_runner.Base.Sort.{sort_by}
use hydra_queue_runner.Base.Text.{Text, text_Eq}
use hydra_queue_runner.Base.Words.{Floats, two_64, add64, sub64}
use hydra_queue_runner.NixUtils.StorePath.{StorePath, path_eq, path_Eq}
use hydra_queue_runner.State.Heap.{StepRef, Heap}
use hydra_queue_runner.State.StepInfo.{StepInfo, StepSortFn, update_internal_stats, cmp_weak}

pub record BuildQueue : Type 0 where
  pub jobs : List ℕ
  pub active_runnable : ℕ
  pub total_runnable : ℕ
  pub nr_runnable_waiting : ℕ
  pub nr_runnable_disabled : ℕ
  pub avg_runnable_time : ℕ
  pub wait_time_ms : ℕ

unfoldable pub new_queue : BuildQueue
new_queue = record {
  jobs = [];
  active_runnable = 0;
  total_runnable = 0;
  nr_runnable_waiting = 0;
  nr_runnable_disabled = 0;
  avg_runnable_time = 0;
  wait_time_ms = 0;
}

-- The machine is an address of `Machines`.
pub record ScheduledItem : Type 0 where
  pub step_info : ℕ
  pub build_queue : Text
  pub machine : ℕ

pub record InnerQueues : Type 0 where
  pub jobs : Map StorePath ℕ
  pub inner : Map Text BuildQueue
  pub scheduled : Map StorePath ScheduledItem
  pub infos : ℕ → StepInfo
  pub next : ℕ

unfoldable pub owned : InnerQueues → List ℕ → ℕ → Bool
owned q held a =
    any (λ (e : StorePath × ℕ). e.1 == a) q.jobs
    || any (λ (e : StorePath × ScheduledItem). e.1.step_info == a) q.scheduled
    || any (λ b. b == a) held

-- `Weak::upgrade`
unfoldable pub upgrade : InnerQueues → List ℕ → ℕ → Option StepInfo
unfolding owned
upgrade q held a = if owned q held a then some (q.infos a) else none

unfoldable pub set_info : InnerQueues → ℕ → StepInfo → InnerQueues
set_info q a i = record q { infos = λ b. if a == b then i else q.infos b }

unfoldable pub modify_queue : InnerQueues → Text → (BuildQueue → BuildQueue) → InnerQueues
modify_queue q system f = elim (Map.get system q.inner) [
  | none ↦ q
  | some bq ↦ record q { inner = Map.insert system (f bq) q.inner }
]

unfoldable pub incr_active : BuildQueue → BuildQueue
unfolding add64
incr_active bq = record bq { active_runnable = add64 bq.active_runnable 1 }

unfoldable pub decr_active : BuildQueue → BuildQueue
unfolding sub64
decr_active bq = record bq { active_runnable = sub64 bq.active_runnable 1 }

-- `scrube_jobs`
unfoldable pub scrube_jobs : InnerQueues → List ℕ → BuildQueue → BuildQueue
unfolding owned
scrube_jobs q held bq =
    let jobs = retain (owned q held) bq.jobs in
    record bq { jobs = jobs; total_runnable = length jobs }

-- The first loop of `sort_jobs`.
unfoldable pub update_stats : Floats → Heap → List ℕ → List ℕ → InnerQueues → InnerQueues
unfolding owned set_info
update_stats fl h held [] q = q
update_stats fl h held (a ∷ l) q =
    update_stats fl h held l
      (if owned q held a then set_info q a (update_internal_stats fl h (q.infos a)) else q)

-- `sort_jobs` of the queue of a system. The time that it takes is not modelled.
unfoldable pub sort_jobs : Floats → Heap → StepSortFn → List ℕ → Text → InnerQueues → InnerQueues
unfolding update_stats upgrade sort_by
sort_jobs fl h f held system q = elim (Map.get system q.inner) [
  | none ↦ q
  | some bq ↦
      let q' = update_stats fl h held bq.jobs q in
      modify_queue q' system λ bq. record bq {
        jobs = sort_by (λ a b. cmp_weak f h (upgrade q' held a) (upgrade q' held b)) bq.jobs;
      }
]

-- `u64::try_from(now.duration_since(..).as_millis()).unwrap_or_default()`: zero for a negative
-- duration.
unfoldable pub wait_ms : ℕ → ℕ → ℕ
wait_ms now since = let ms = (now - since) / 1000000 in if ltb ms two_64 then ms else 0

-- The loop of `BuildQueue::insert_new_jobs`, over the jobs, the current jobs and the waiting time.
unfoldable pub push_new : InnerQueues → List ℕ → ℕ → List ℕ → List ℕ → ℕ → List ℕ × ℕ
unfolding owned wait_ms add64
push_new q held now [] current wait = (current, wait)
push_new q held now (a ∷ l) current wait =
    let known =
      any (λ b. owned q held b && path_eq (q.infos b).step.drv_path (q.infos a).step.drv_path)
        current in
    let skip = not (owned q held a) || known in
    push_new q held now l (if skip then current else current ++ a ∷ [])
      (if skip then wait else add64 wait (wait_ms now (q.infos a).runnable_since))

-- `BuildQueue::insert_new_jobs` on the queue of a system.
unfoldable pub queue_insert_new_jobs :
    Floats → Heap → StepSortFn → List ℕ → Text → List ℕ → ℕ → InnerQueues → InnerQueues
unfolding push_new scrube_jobs sort_jobs add64
queue_insert_new_jobs fl h f held system jobs now q = sort_jobs fl h f held system (
    modify_queue q system λ bq.
      let (current, wait) = push_new q held now jobs bq.jobs 0 in
      scrube_jobs q held (record bq { jobs = current; wait_time_ms = add64 bq.wait_time_ms wait }))

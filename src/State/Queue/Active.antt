-- ===== src/State/Queue/Active.antt =====
-- The counter of active steps against the scheduled items.
use hydra_queue_runner.Base.{
  ℕ, ◌%◌, ◌≡◌, subst, inl, inr, true, false, none, some, ◌∷◌, arith, if◌then◌else◌, Bool-cases,
  Option-cases, count_if, some_inj, ◌≢◌, ◌∙◌, refl,
}
use hydra_queue_runner.Base.Map
use hydra_queue_runner.Base.Map.{
  Map, IsUnique, get-insert, get-remove, insert-IsUnique, remove-IsUnique, count-insert_new,
  count-remove,
}
use hydra_queue_runner.Base.Text.{Text, text_Eq, text_eq, text_eq_iff}
use hydra_queue_runner.Base.Words.{two_64, add64, sub64}
use hydra_queue_runner.NixUtils.StorePath.{StorePath, path_Eq, path_eq_iff}
use hydra_queue_runner.State.Queue.{
  BuildQueue, ScheduledItem, InnerQueues, modify_queue, incr_active, decr_active,
}
use hydra_queue_runner.State.Queue.Inner.{
  add_job_to_scheduled, remove_job_from_scheduled, set_already_scheduled,
}

-- The scheduled items that came from the queue of a system.
unfoldable pub active_in : Text → Map StorePath ScheduledItem → ℕ
active_in system m = count_if (λ (e : StorePath × ScheduledItem). text_eq e.1.build_queue system) m

-- Every queue counts the scheduled items that came from it, modulo 2^64.
pub record IsCounted (q : InnerQueues) : Type 0 where
  pub unique : IsUnique q.scheduled
  pub counted :
      (system : Text) (bq : BuildQueue)
      → Map.get system q.inner ≡ some bq
      → bq.active_runnable ≡ active_in system q.scheduled % two_64

get-modify :
    (q : InnerQueues) (system t : Text) (f : BuildQueue → BuildQueue)
    → Map.get t (modify_queue q system f).inner ≡ (
        if text_eq system t
        then (elim (Map.get t q.inner) [ none ↦ none | some bq ↦ some (f bq) ])
        else Map.get t q.inner)
unfolding modify_queue
get-modify q system t f = elim (Option-cases (Map.get system q.inner)) [
  | inl e ↦ rw (e, modify_queue) (ground (arith, text_eq_iff system t))
  | inr (bq, e) ↦
      rw (e, modify_queue)
        (ground (arith, get-insert system t (f bq) q.inner, text_eq_iff system t))
]

scheduled-modify :
    (q : InnerQueues) (system : Text) (f : BuildQueue → BuildQueue)
    → (modify_queue q system f).scheduled ≡ q.scheduled
unfolding modify_queue
scheduled-modify q system f = ground arith

-- A change of the scheduled items that is matched by the counter of one queue.
counted-modify :
    (q : InnerQueues) (old : Map StorePath ScheduledItem) (system : Text)
    (f : BuildQueue → BuildQueue)
    → ((t : Text) (bq : BuildQueue)
        → Map.get t q.inner ≡ some bq
        → bq.active_runnable ≡ active_in t old % two_64)
    → ((t : Text) (bq : BuildQueue)
        → text_eq system t ≡ true
        → bq.active_runnable ≡ active_in t old % two_64
        → (f bq).active_runnable ≡ active_in t q.scheduled % two_64)
    → ((t : Text) → text_eq system t ≡ false → active_in t q.scheduled ≡ active_in t old)
    → (t : Text) (bq : BuildQueue) → Map.get t (modify_queue q system f).inner ≡ some bq
    → bq.active_runnable ≡ active_in t (modify_queue q system f).scheduled % two_64
counted-modify q old system f before here there t bq h =
    rw scheduled-modify (elim (Bool-cases (text_eq system t)) [
      | inl same ↦ elim (Option-cases (Map.get t q.inner)) [
        | inl gone ↦ ground (arith, get-modify q system t f)
        | inr (bq', e) ↦
            subst (λ (b : BuildQueue). b.active_runnable ≡ active_in t q.scheduled % two_64)
              (some_inj (f bq') bq (ground (arith, get-modify q system t f)))
              (here t bq' same (before t bq' e))
      ]
      | inr other ↦ rw (there t other) (before t bq (ground (arith, get-modify q system t f)))
    ])

-- If each step is scheduled at most once and every queue counts the scheduled items that came
-- from it (modulo 2^64), this still holds after a step that is not scheduled yet was scheduled.
pub add_job_to_scheduled-IsCounted :
    (a : ℕ) (system : Text) (machine : ℕ) (q : InnerQueues)
    → Map.get (q.infos a).step.drv_path q.scheduled ≡ none
    → IsCounted q
    → IsCounted (add_job_to_scheduled a system machine q)
unfolding add_job_to_scheduled
add_job_to_scheduled-IsCounted a system machine q new v = record {
  unique =
      rw scheduled-modify (insert-IsUnique (q.infos a).step.drv_path item q.scheduled v.unique);
  counted =
      counted-modify q' q.scheduled system incr_active v.counted
        (λ t bq e h. unfold active_in add64 in ground (arith, added t))
        (λ t e. unfold active_in in ground (arith, added t));
}
  where
    item : ScheduledItem
    item = record { step_info = a; build_queue = system; machine = machine }

    q' : InnerQueues
    q' =
        set_already_scheduled a true
          (record q { scheduled = Map.insert (q.infos a).step.drv_path item q.scheduled })

    added :
        (t : Text)
        → count_if (λ (e : StorePath × ScheduledItem). text_eq e.1.build_queue t) q'.scheduled
          ≡ count_if
              (λ (e : StorePath × ScheduledItem). text_eq e.1.build_queue t)
              (((q.infos a).step.drv_path, item) ∷ q.scheduled)
    added t = count-insert_new _ (q.infos a).step.drv_path item q.scheduled new

-- If each step is scheduled at most once and every queue counts the scheduled items that came
-- from it (modulo 2^64), this still holds after a step was taken off the scheduled ones, whether
-- it was there or not.
pub remove_job_from_scheduled-IsCounted :
    (drv : StorePath) (q : InnerQueues)
    → IsCounted q
    → IsCounted (remove_job_from_scheduled drv q).0
unfolding remove_job_from_scheduled
remove_job_from_scheduled-IsCounted drv q v = elim (Option-cases (Map.get drv q.scheduled)) [
  | inl gone ↦ rw (gone, remove_job_from_scheduled) v
  | inr (item, e) ↦ rw (e, remove_job_from_scheduled) (taken item e)
]
  where
    taken :
        (item : ScheduledItem)
        → Map.get drv q.scheduled ≡ some item
        → IsCounted (
            modify_queue
              (set_already_scheduled item.step_info false
                (record q { scheduled = Map.remove drv q.scheduled }))
              item.build_queue
              decr_active)
    taken item e = record {
      unique = rw scheduled-modify (remove-IsUnique drv q.scheduled v.unique);
      counted =
          counted-modify _ q.scheduled item.build_queue decr_active v.counted
            (λ t bq s h.
              unfold active_in sub64 in
              ground (
                arith,
                count-remove (λ (x : StorePath × ScheduledItem). text_eq x.1.build_queue t) drv item
                    q.scheduled v.unique e,
              ))
            (λ t s.
              unfold active_in in
              ground (
                arith,
                count-remove (λ (x : StorePath × ScheduledItem). text_eq x.1.build_queue t) drv item
                    q.scheduled v.unique e,
              ));
    }

infos-modify :
    (q : InnerQueues) (system : Text) (f : BuildQueue → BuildQueue)
    → (modify_queue q system f).infos ≡ q.infos
unfolding modify_queue
infos-modify q system f = ground arith

jobs-modify :
    (q : InnerQueues) (system : Text) (f : BuildQueue → BuildQueue)
    → (modify_queue q system f).jobs ≡ q.jobs
unfolding modify_queue
jobs-modify q system f = ground arith

add-fields :
    (a : ℕ) (system : Text) (machine : ℕ) (q : InnerQueues)
    → let q' = add_job_to_scheduled a system machine q in
      (q'.scheduled
        ≡ Map.insert
            (q.infos a).step.drv_path
            (record { step_info = a; build_queue = system; machine = machine })
            q.scheduled)
      × (q'.jobs ≡ q.jobs)
      × ((q'.infos a).already_scheduled ≡ true)
unfolding add_job_to_scheduled
add-fields a system machine q =
    (rw scheduled-modify, rw jobs-modify, rw infos-modify (ground arith))

remove-fields :
    (drv : StorePath) (item : ScheduledItem) (q : InnerQueues)
    → Map.get drv q.scheduled ≡ some item
    → let r = remove_job_from_scheduled drv q in
      (r.1 ≡ some item)
      × (r.0.scheduled ≡ Map.remove drv q.scheduled)
      × (r.0.jobs ≡ q.jobs)
      × ((r.0.infos item.step_info).already_scheduled ≡ false)
unfolding remove_job_from_scheduled
remove-fields drv item q e =
    rw (e, remove_job_from_scheduled)
      (refl, rw scheduled-modify, rw jobs-modify, rw infos-modify (ground arith))

-- Scheduling a step marks its job as scheduled; taking the step off again returns the item that
-- was stored, leaves the step unscheduled and clears the mark. Every other scheduled step and the
-- job list are as before both.
pub remove-add_scheduled :
    (a : ℕ) (system : Text) (machine : ℕ) (q : InnerQueues)
    → let drv = (q.infos a).step.drv_path in
      let r = remove_job_from_scheduled drv (add_job_to_scheduled a system machine q) in
      (r.1 ≡ some (record { step_info = a; build_queue = system; machine = machine }))
      × (Map.get drv r.0.scheduled ≡ none)
      × ((r.0.infos a).already_scheduled ≡ false)
      × (((add_job_to_scheduled a system machine q).infos a).already_scheduled ≡ true)
      × (r.0.jobs ≡ q.jobs)
      × ((p : StorePath) → p ≢ drv → Map.get p r.0.scheduled ≡ Map.get p q.scheduled)
remove-add_scheduled a system machine q =
    let drv = (q.infos a).step.drv_path in
    let item : ScheduledItem = record { step_info = a; build_queue = system; machine = machine } in
    let q' = add_job_to_scheduled a system machine q in
    let (s, jobs, set) = add-fields a system machine q in
    let stored : Map.get drv q'.scheduled ≡ some item =
      rw s (ground (arith, get-insert drv drv item q.scheduled, path_eq_iff drv drv)) in
    let (found, s', jobs', cleared) = remove-fields drv item q' stored in
    (
      found,
      rw (s', s)
          (ground
            (arith, get-remove drv drv (Map.insert drv item q.scheduled), path_eq_iff drv drv)),
      cleared,
      set,
      jobs' ∙ jobs,
      λ p ne.
          rw (s', s)
            (ground (
              arith,
              get-remove drv p (Map.insert drv item q.scheduled),
              get-insert drv p item q.scheduled,
              path_eq_iff drv p,
            )),
    )

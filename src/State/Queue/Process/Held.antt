-- ===== src/State/Queue/Process/Held.antt =====
-- Taking a job out of a queue while the caller still holds it.
use hydra_queue_runner.Base.{
  ℕ, ◌≡◌, refl, ◌∙◌, Bool, true, none, some, List, [], ◌∷◌, arith, ◌==◌, length, retain, any, In,
  ◌↔◌, Bool-cases, ◌⊎◌, inl, ap, ==_iff, inr, sym,
}
use hydra_queue_runner.Base.Map
use hydra_queue_runner.Base.Map.{Map, get-insert, get-remove}
use hydra_queue_runner.Base.Text.{Text, text_Eq, text_eq_iff}
use hydra_queue_runner.NixUtils.StorePath.{path_Eq, path_eq_iff, StorePath}
use hydra_queue_runner.State.Queue.{
  BuildQueue, InnerQueues, owned, modify_queue, scrube_jobs, ScheduledItem,
}
use hydra_queue_runner.State.Queue.Inner.{remove_job, scrube_all, remove_all_weak_pointer}

retain-held :
    (p : ℕ → Bool) (a : ℕ) (l : List ℕ)
    → p a ≡ true
    → any (λ b. b == a) (retain p l) ≡ any (λ b. b == a) l
retain-held p a [] h = refl
retain-held p a (b ∷ l) h = ground (arith, retain-held p a l h)

owned-held : (q : InnerQueues) (held : List ℕ) (a : ℕ) → owned q (a ∷ held) a ≡ true
unfolding owned
owned-held q held a = ground arith

-- The defect: `remove_job` takes a job out of `jobs` and scrubs its queue, but the caller's
-- reference keeps the job alive, so its weak reference stays in the queue, if it was there, and is
-- counted as runnable.
pub remove_job_keeps :
    (a : ℕ) (system : Text) (q : InnerQueues) (bq : BuildQueue)
    → Map.get system q.inner ≡ some bq
    → any (λ b. b == a) bq.jobs ≡ true
    → (Map.get (q.infos a).step.drv_path (remove_job [] a system q).jobs ≡ none)
      × (after : BuildQueue) × (Map.get system (remove_job [] a system q).inner ≡ some after)
      × (any (λ b. b == a) after.jobs ≡ true)
      × (after.total_runnable ≡ length after.jobs)
unfolding remove_job modify_queue scrube_jobs
remove_job_keeps a system q bq e m =
    let drv = (q.infos a).step.drv_path in
    let q' : InnerQueues = record q { jobs = Map.remove drv q.jobs } in
    (
      ground (arith, get-remove drv drv q.jobs, path_eq_iff drv drv),
      scrube_jobs q' (a ∷ []) bq,
      ground (
        arith,
        e,
        get-insert system system (scrube_jobs q' (a ∷ []) bq) q.inner,
        text_eq_iff system system,
      ),
      retain-held (owned q' (a ∷ [])) a bq.jobs (owned-held q' [] a) ∙ m,
      refl,
    )

-- Some owner keeps the job alive: `jobs`, or a scheduled item.
abbrev pub Owned : InnerQueues → ℕ → Type 0
Owned q a =
    ((drv : StorePath) × In (drv, a) q.jobs)
    ⊎ ((drv : StorePath) × (item : ScheduledItem) × In (drv, item) q.scheduled
        × (item.step_info ≡ a))

jobs-Owned :
    (a : ℕ) (m : Map StorePath ℕ)
    → (any (λ (e : StorePath × ℕ). e.1 == a) m ≡ true) ↔ ((drv : StorePath) × In (drv, a) m)
jobs-Owned a [] = (λ h. cc, λ h. absurd h.1)
jobs-Owned a ((drv, b) ∷ m) = (
  λ h. elim (Bool-cases (b == a)) [
    | inl same ↦ (drv, inl (ap (λ n. (drv, n)) (sym ((==_iff b a).0 same))))
    | inr other ↦ let (d, n) = (jobs-Owned a m).0 (ground (arith, h, other)) in (d, inr n)
  ],
  λ h. elim h.1 [
    | inl same ↦ ground (arith, (==_iff b a).1 (sym (ap (λ (e : StorePath × ℕ). e.1) same)))
    | inr n ↦ ground (arith, (jobs-Owned a m).1 (h.0, n))
  ],
)

scheduled-Owned :
    (a : ℕ) (m : Map StorePath ScheduledItem)
    → (any (λ (e : StorePath × ScheduledItem). e.1.step_info == a) m ≡ true)
      ↔ ((drv : StorePath) × (item : ScheduledItem) × In (drv, item) m × (item.step_info ≡ a))
scheduled-Owned a [] = (λ h. cc, λ h. absurd h.2)
scheduled-Owned a ((drv, i) ∷ m) = (
  λ h. elim (Bool-cases (i.step_info == a)) [
    | inl same ↦ (drv, i, inl refl, (==_iff i.step_info a).0 same)
    | inr other ↦
        let (d, item, n, e) = (scheduled-Owned a m).0 (ground (arith, h, other)) in
        (d, item, inr n, e)
  ],
  λ h. elim h.2 [
    | inl same ↦ ground (
      arith,
      (==_iff i.step_info a).1
          (ap (λ (x : StorePath × ScheduledItem). x.1.step_info) (sym same) ∙ h.3),
    )
    | inr n ↦ ground (arith, (scheduled-Owned a m).1 (h.0, h.1, n, h.3))
  ],
)

owned_iff : (q : InnerQueues) (a : ℕ) → (owned q [] a ≡ true) ↔ Owned q a
unfolding owned
owned_iff q a = (λ h. there h, λ h. back h)
  where
    there : owned q [] a ≡ true → Owned q a
    there h = elim (Bool-cases (any (λ (e : StorePath × ℕ). e.1 == a) q.jobs)) [
      | inl found ↦ inl ((jobs-Owned a q.jobs).0 found)
      | inr other ↦ inr ((scheduled-Owned a q.scheduled).0 (ground (arith, h, other)))
    ]

    back : Owned q a → owned q [] a ≡ true
    back (inl o) = ground (arith, (jobs-Owned a q.jobs).1 o)
    back (inr o) = ground (arith, (scheduled-Owned a q.scheduled).1 o)

-- What a filter keeps.
retain-In : (p : ℕ → Bool) (a : ℕ) (l : List ℕ) → In a (retain p l) ↔ (In a l × (p a ≡ true))
retain-In p a [] = (λ m. absurd m, λ m. absurd m.0)
retain-In p a (b ∷ l) = elim (Bool-cases (p b)) [
  | inl pass ↦ rw pass (
    λ m. elim m [
      | inl same ↦ (inl same, ap p same ∙ pass)
      | inr m' ↦ let (n, t) = (retain-In p a l).0 m' in (inr n, t)
    ],
    λ m. elim m.0 [ inl same ↦ inl same | inr n ↦ inr ((retain-In p a l).1 (n, m.1)) ],
  )
  | inr miss ↦ rw miss (
    λ m. let (n, t) = (retain-In p a l).0 m in (inr n, t),
    λ m. elim m.0 [
      | inl same ↦ absurd (ground (arith, miss, m.1, ap p same))
      | inr n ↦ (retain-In p a l).1 (n, m.1)
    ],
  )
]

get-scrube_all :
    (q : InnerQueues) (system : Text) (m : Map Text BuildQueue) (bq : BuildQueue)
    → Map.get system m ≡ some bq
    → Map.get system (scrube_all q [] m) ≡ some (scrube_jobs q [] bq)
unfolding scrube_all Map.get
get-scrube_all q system [] bq h = cc
get-scrube_all q system ((s, b) ∷ m) bq h = ground (arith, h, get-scrube_all q system m bq)

-- `remove_all_weak_pointer`, when no call holds a job: the queue of a system lists afterwards
-- exactly those of its jobs that `jobs` or a scheduled item owns, and counts what it lists; the
-- owners are the same.
pub remove_all_weak_pointer-IsScrubbed :
    (q : InnerQueues) (system : Text) (bq : BuildQueue)
    → Map.get system q.inner ≡ some bq
    → (after : BuildQueue) × (Map.get system (remove_all_weak_pointer [] q).inner ≡ some after)
      × ((a : ℕ) → In a after.jobs ↔ (In a bq.jobs × Owned q a))
      × (after.total_runnable ≡ length after.jobs)
      × ((a : ℕ) → Owned (remove_all_weak_pointer [] q) a ↔ Owned q a)
unfolding remove_all_weak_pointer scrube_jobs
remove_all_weak_pointer-IsScrubbed q system bq h = (
  scrube_jobs q [] bq,
  get-scrube_all q system q.inner bq h,
  λ a. (
    λ m. let (m', o) = (retain-In (owned q []) a bq.jobs).0 m in (m', (owned_iff q a).0 o),
    λ m. (retain-In (owned q []) a bq.jobs).1 (m.0, (owned_iff q a).1 m.1),
  ),
  refl,
  λ a. (λ o. o, λ o. o),
)

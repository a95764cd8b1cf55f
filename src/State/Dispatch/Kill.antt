-- ===== src/State/Dispatch/Kill.antt =====
-- Which steps `kill_active_steps` cancels.
use hydra_queue_runner.Base.{
  ℕ, ◌≡◌, refl, sym, ap, subst, ◌∙◌, ◌⊎◌, inl, inr, Bool, true, false, none, some, [], ◌∷◌, arith,
  ◌==◌, if◌then◌else◌, ==_iff, Bool-cases, Option-cases, some_inj,
}
use hydra_queue_runner.Base.Map.{Map}
use hydra_queue_runner.NixUtils.StorePath.{StorePath}
use hydra_queue_runner.State.Heap.{StepRef, Heap}
use hydra_queue_runner.State.Step.{get_dependents}
use hydra_queue_runner.State.Queue.{InnerQueues, ScheduledItem, set_info}
use hydra_queue_runner.State.Queue.Inner.{set_cancelled}
use hydra_queue_runner.State.Machine.Registry.{Machines}
use hydra_queue_runner.State.Dispatch.{
  Killed, cancel_item, kill_item, kill_items, kill_active_steps,
}

-- The search finds a build that needs the step of the job.
unfoldable pub is_needed : ℕ → Heap → StepRef → Bool
is_needed fuel h r = elim (get_dependents fuel h r ([], [])) [
  | none ↦ false
  | some found ↦ elim found.0 [ [] ↦ false | _ ∷ _ ↦ true ]
]

cancel_item-infos :
    (sent : ℕ → Bool) (drv_path : StorePath) (item : ScheduledItem) (k : Killed) (a : ℕ)
    → (((cancel_item sent drv_path item k).queues.infos a).step ≡ (k.queues.infos a).step)
      × ((cancel_item sent drv_path item k).queues.scheduled ≡ k.queues.scheduled)
      × (((cancel_item sent drv_path item k).queues.infos a).cancelled
          ≡ (if item.step_info == a then true else (k.queues.infos a).cancelled))
unfolding cancel_item set_cancelled set_info
cancel_item-infos sent drv_path item k a = ground (arith, ==_iff item.step_info a)

-- An item is left alone, or its step is not needed and it is cancelled.
kill_item-cases :
    (fuel : ℕ) (h : Heap) (sent : ℕ → Bool) (drv_path : StorePath) (item : ScheduledItem)
    (k k' : Killed)
    → kill_item fuel h sent drv_path item k ≡ some k'
    → (k ≡ k')
      ⊎ ((is_needed fuel h (k.queues.infos item.step_info).step ≡ false)
          × (cancel_item sent drv_path item k ≡ k'))
unfolding kill_item is_needed
kill_item-cases fuel h sent drv_path item k k' e =
    elim (Bool-cases (k.queues.infos item.step_info).cancelled) [
      | inl c ↦ inl (some_inj k k' (ground (arith, c)))
      | inr c ↦
          elim (Option-cases
            (get_dependents fuel h (k.queues.infos item.step_info).step ([], []))) [
              | inl out ↦ absurd (ground (arith, c, out))
              | inr (([], steps), found) ↦ inr (
                ground (arith, found),
                some_inj (cancel_item sent drv_path item k) k' (ground (arith, c, found)),
              )
              | inr ((b ∷ bs, steps), found) ↦ inl (some_inj k k' (ground (arith, c, found)))
            ]
    ]

kill_item-keeps :
    (fuel : ℕ) (h : Heap) (sent : ℕ → Bool) (drv_path : StorePath) (item : ScheduledItem)
    (k k' : Killed) (a : ℕ)
    → kill_item fuel h sent drv_path item k ≡ some k'
    → is_needed fuel h (k.queues.infos a).step ≡ true
    → ((k'.queues.infos a).step ≡ (k.queues.infos a).step)
      × ((k'.queues.infos a).cancelled ≡ (k.queues.infos a).cancelled)
kill_item-keeps fuel h sent drv_path item k k' a e n =
    elim (kill_item-cases fuel h sent drv_path item k k' e) [
      | inl same ↦ (
        ap (λ (x : Killed). (x.queues.infos a).step) (sym same),
        ap (λ (x : Killed). (x.queues.infos a).cancelled) (sym same),
      )
      | inr (not_needed, new) ↦
          let (step, _, cancelled) = cancel_item-infos sent drv_path item k a in
          (
            ap (λ (x : Killed). (x.queues.infos a).step) (sym new) ∙ step,
            ap (λ (x : Killed). (x.queues.infos a).cancelled) (sym new)
                ∙ cancelled
                ∙ elim (Bool-cases (item.step_info == a)) [
                  | inl here ↦ absurd (
                      ground (
                        arith,
                        not_needed,
                        n,
                        ap (λ b. is_needed fuel h (k.queues.infos b).step)
                            ((==_iff item.step_info a).0 here),
                      ))
                  | inr other ↦ rw other refl
                ],
          )
    ]

kill_items-keeps :
    (fuel : ℕ) (h : Heap) (sent : ℕ → Bool) (active : Map StorePath ScheduledItem) (k to : Killed)
    (a : ℕ)
    → kill_items fuel h sent active k ≡ some to
    → is_needed fuel h (k.queues.infos a).step ≡ true
    → (to.queues.infos a).cancelled ≡ (k.queues.infos a).cancelled
unfolding kill_items
kill_items-keeps fuel h sent [] k to a e n =
    ap (λ (x : Killed). (x.queues.infos a).cancelled) (sym (some_inj k to e))
kill_items-keeps fuel h sent ((p, item) ∷ active) k to a e n =
    elim (Option-cases (kill_item fuel h sent p item k)) [
      | inl out ↦ absurd (ground (arith, out))
      | inr (k', one) ↦
          let (step, cancelled) = kill_item-keeps fuel h sent p item k k' a one n in
          kill_items-keeps fuel h sent active k' to a (ground (arith, one))
            (subst (λ x. is_needed fuel h x ≡ true) (sym step) n)
          ∙ cancelled
    ]

-- A job whose step still has a build that needs it is not cancelled: `kill_active_steps` leaves its
-- mark as it was, whatever is scheduled and whichever messages reach the builders.
pub kill_active_steps-keeps :
    (fuel : ℕ) (h : Heap) (sent : ℕ → Bool) (q : InnerQueues) (ms : Machines) (to : Killed) (a : ℕ)
    → kill_active_steps fuel h sent q ms ≡ some to
    → is_needed fuel h (q.infos a).step ≡ true
    → (to.queues.infos a).cancelled ≡ (q.infos a).cancelled
unfolding kill_active_steps
kill_active_steps-keeps fuel h sent q ms to a e n =
    kill_items-keeps fuel h sent q.scheduled
      (record { queues = q; machines = ms; cancelled_steps = [] }) to a e n

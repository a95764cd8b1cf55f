-- ===== src/State/Dispatch/Resolve.antt =====
-- The builder that a job gets.
use hydra_queue_runner.Base.{
  ℕ, ◌≡◌, refl, sym, ◌∙◌, inl, inr, Bool, true, ◌&&◌, some, List, [], ◌∷◌, ◌++◌, map, arith,
  Bool-cases, Option-cases, all, find-test,
}
use hydra_queue_runner.Base.Map
use hydra_queue_runner.Base.Map.{Map}
use hydra_queue_runner.Base.Text.{Text, text_eq, text_Eq}
use hydra_queue_runner.State.Heap.{Heap}
use hydra_queue_runner.State.Queue.{InnerQueues}
use hydra_queue_runner.State.Machine.{Machine, contains_text}
use hydra_queue_runner.State.Machine.Capacity.{
  Floats32, MachineFreeFn, has_capacity, supports_all_features,
}
use hydra_queue_runner.State.Machine.Registry.{
  Machines, suits, get_machine_for_system, find_machine, builtin,
}
use hydra_queue_runner.State.Machine.Registry.Find.{qualifies, find_machine-first}
use hydra_queue_runner.State.Dispatch.{JobConstraint, step_features, merged_features, resolve}

all-append : (p : Text → Bool) (l m : List Text) → all p (l ++ m) ≡ (all p l && all p m)
all-append p [] m = refl
all-append p (x ∷ l) m = ground (arith, all-append p l m)

all-merged :
    (p : Text → Bool) (l m : List Text) → all p (merged_features l m) ≡ (all p l && all p m)
unfolding merged_features
all-merged p l [] = ground arith
all-merged p l (x ∷ m) = all-append p l (x ∷ m)

found-qualifies :
    (fl : Floats32) (now : ℕ) (required : List Text) (free : MachineFreeFn) (l : List ℕ)
    (ms : Machines) (a : ℕ)
    → (find_machine fl now required (some free) l ms).1 ≡ some a
    → qualifies fl now free required (ms.machine a) ≡ true
found-qualifies fl now required free l ms a h =
    find-test (λ b. qualifies fl now free required (ms.machine b)) l a
      (sym (find_machine-first fl now free required l ms) ∙ h)

both_true : (a b : Bool) → (a && b) ≡ true → (a ≡ true) × (b ≡ true)
both_true a b h = ground arith

qualifies_parts :
    (fl : Floats32) (now : ℕ) (free : MachineFreeFn) (required : List Text) (m : Machine)
    → qualifies fl now free required m ≡ true
    → ((has_capacity fl now free m).1 ≡ true) × (supports_all_features required m ≡ true)
unfolding qualifies suits
qualifies_parts fl now free required m h =
    let both = both_true (has_capacity fl now free m).1 (suits required m) h in
    (
      both.0,
      (both_true (all (λ s. contains_text required s) m.join.mandatory_features)
          (supports_all_features required m) both.1).1,
    )

get_machine-qualifies :
    (fl : Floats32) (now : ℕ) (system : Text) (required : List Text) (free : MachineFreeFn)
    (ms : Machines) (a : ℕ)
    → (get_machine_for_system fl now system required (some free) ms).1 ≡ some a
    → qualifies fl now free required (ms.machine a) ≡ true
unfolding get_machine_for_system
get_machine-qualifies fl now system required free ms a h =
    elim (Bool-cases (text_eq system builtin)) [
      | inl e ↦
          found-qualifies fl now required free (map (λ (x : ℕ × ℕ). x.1) ms.by_uuid) ms a
            (ground (arith, e))
      | inr e ↦ elim (Option-cases (Map.get system ms.by_system)) [
        | inl gone ↦ absurd (ground (arith, e, gone))
        | inr (l, there) ↦ found-qualifies fl now required free l ms a (ground (arith, e, there))
      ]
    ]

-- The builder that a job is resolved to had capacity when the search began, supports every feature
-- that the step requires and every feature of the queue, and the job stays the one that was asked
-- for.
pub resolve-suits :
    (fl : Floats32) (now : ℕ) (h : Heap) (q : InnerQueues) (free : MachineFreeFn)
    (c : JobConstraint) (ms : Machines) (m job : ℕ)
    → (resolve fl now h q free c ms).1 ≡ some (m, job)
    → (job ≡ c.job)
      × ((has_capacity fl now free (ms.machine m)).1 ≡ true)
      × (supports_all_features (step_features h (q.infos c.job)) (ms.machine m) ≡ true)
      × (supports_all_features c.queue_features (ms.machine m) ≡ true)
unfolding resolve supports_all_features
resolve-suits fl now h q free c ms m job e =
    let features = step_features h (q.infos c.job) in
    let required = merged_features features c.queue_features in
    let p = contains_text (ms.machine m).join.supported_features in
    let found : (get_machine_for_system fl now c.system required (some free) ms).1 ≡ some m =
      ground arith in
    let (free_now, able) =
      qualifies_parts fl now free required (ms.machine m)
        (get_machine-qualifies fl now c.system required free ms m found) in
    (
      ground arith,
      free_now,
      ground (arith, able, all-merged p features c.queue_features),
      ground (arith, able, all-merged p features c.queue_features),
    )

-- ===== src/State/Machine/Registry/Find.antt =====
-- Which builder `get_machine_for_system` picks.
use hydra_queue_runner.Base.{
  ℕ, ◌≡◌, refl, ap, ◌∙◌, ◌⊎◌, inl, inr, Bool, false, ◌&&◌, some, List, [], ◌∷◌, arith, ◌==◌,
  if◌then◌else◌, ==_iff, Bool-cases, find,
}
use hydra_queue_runner.Base.Text.{Text, text_Eq}
use hydra_queue_runner.State.Machine.{Machine}
use hydra_queue_runner.State.Machine.Capacity.{
  Floats32, MachineFreeFn, has_capacity, reset_window, is_throttled, free_test,
  has_dynamic_capacity, has_static_capacity, window_over,
}
use hydra_queue_runner.State.Machine.Registry.{Machines, suits, find_machine, set_machine}

-- A builder that has capacity now and may take the step: its features are enough, and what it
-- insists on is asked for.
unfoldable pub qualifies : Floats32 → ℕ → MachineFreeFn → List Text → Machine → Bool
unfolding has_capacity suits
qualifies fl now free required m = (has_capacity fl now free m).1 && suits required m

is_throttled-reset : (now : ℕ) (m : Machine) → is_throttled now (reset_window m).stats ≡ false
unfolding is_throttled reset_window
is_throttled-reset now m = ground arith

free_test-reset :
    (free : MachineFreeFn) (m : Machine) → free_test free (reset_window m) ≡ free_test free m
unfolding free_test reset_window has_dynamic_capacity has_static_capacity
free_test-reset MachineFreeFn.dynamic m = refl
free_test-reset MachineFreeFn.dynamic_with_max_job_limit m = refl
free_test-reset MachineFreeFn.static m = refl

-- A reset window has no effect on the answer where the builder is not refused for its last jobs.
has_capacity-reset :
    (fl : Floats32) (now : ℕ) (free : MachineFreeFn) (m : Machine)
    → is_throttled now m.stats ≡ false
    → (has_capacity fl now free (reset_window m)).1 ≡ (has_capacity fl now free m).1
unfolding has_capacity
has_capacity-reset fl now free m e =
    ground (
      arith,
      is_throttled-reset now m,
      free_test-reset free (reset_window m),
      free_test-reset free m,
    )

asked-cases :
    (fl : Floats32) (now : ℕ) (free : MachineFreeFn) (m : Machine)
    → (is_throttled now m.stats ≡ false) × ((has_capacity fl now free m).0 ≡ reset_window m)
      ⊎ ((has_capacity fl now free m).0 ≡ m)
unfolding has_capacity
asked-cases fl now free m = elim (Bool-cases (is_throttled now m.stats)) [
  | inl e ↦ inr (rw (e, has_capacity) refl)
  | inr e ↦ elim (Bool-cases (window_over now m.stats)) [
    | inl over ↦ inl (e, rw (e, over, has_capacity) refl)
    | inr within ↦ inr (rw (e, within, has_capacity) refl)
  ]
]

-- Asking again gives the same answer.
has_capacity-again :
    (fl : Floats32) (now : ℕ) (free : MachineFreeFn) (m : Machine)
    → (has_capacity fl now free (has_capacity fl now free m).0).1 ≡ (has_capacity fl now free m).1
has_capacity-again fl now free m = elim (asked-cases fl now free m) [
  | inl (calm, e) ↦
      ap (λ n. (has_capacity fl now free n).1) e ∙ has_capacity-reset fl now free m calm
  | inr e ↦ ap (λ n. (has_capacity fl now free n).1) e
]

suits-asked :
    (fl : Floats32) (now : ℕ) (free : MachineFreeFn) (required : List Text) (m : Machine)
    → suits required (has_capacity fl now free m).0 ≡ suits required m
unfolding has_capacity suits reset_window
suits-asked fl now free required m = ground arith

qualifies-asked :
    (fl : Floats32) (now : ℕ) (free : MachineFreeFn) (required : List Text) (m : Machine)
    → qualifies fl now free required (has_capacity fl now free m).0
      ≡ qualifies fl now free required m
unfolding qualifies
qualifies-asked fl now free required m =
    rw (has_capacity-again fl now free m, suits-asked fl now free required m) refl

qualifies-set :
    (fl : Floats32) (now : ℕ) (free : MachineFreeFn) (required : List Text) (ms : Machines)
    (a b : ℕ)
    → qualifies fl now free required
        ((set_machine ms a (has_capacity fl now free (ms.machine a)).0).machine b)
      ≡ qualifies fl now free required (ms.machine b)
unfolding set_machine
qualifies-set fl now free required ms a b = elim (Bool-cases (a == b)) [
  | inl e ↦ rw e (
      qualifies-asked fl now free required (ms.machine a)
      ∙ ap (λ x. qualifies fl now free required (ms.machine x)) ((==_iff a b).0 e))
  | inr e ↦ rw e refl
]

find-ext : (p q : ℕ → Bool) → ((b : ℕ) → p b ≡ q b) → (l : List ℕ) → find p l ≡ find q l
find-ext p q e [] = refl
find-ext p q e (b ∷ l) = rw (e b, find-ext p q e l) refl

find_machine-cons :
    (fl : Floats32) (now : ℕ) (free : MachineFreeFn) (required : List Text) (a : ℕ) (l : List ℕ)
    (ms : Machines)
    → (find_machine fl now required (some free) (a ∷ l) ms).1 ≡ (
        if qualifies fl now free required (ms.machine a)
        then some a
        else (find_machine fl now required
            (some free)
            l
            (set_machine ms a (has_capacity fl now free (ms.machine a)).0)).1)
unfolding find_machine qualifies
find_machine-cons fl now free required a l ms = ground arith

-- Although the question for capacity may reset the windows of the builders that it passes, the loop
-- picks the first builder of the list that qualifies in the state before the call.
pub find_machine-first :
    (fl : Floats32) (now : ℕ) (free : MachineFreeFn) (required : List Text) (l : List ℕ)
    (ms : Machines)
    → (find_machine fl now required (some free) l ms).1
      ≡ find (λ a. qualifies fl now free required (ms.machine a)) l
unfolding find_machine
find_machine-first fl now free required [] ms = refl
find_machine-first fl now free required (a ∷ l) ms =
    let ms' = set_machine ms a (has_capacity fl now free (ms.machine a)).0 in
    find_machine-cons fl now free required a l ms
    ∙ ap (λ x. if qualifies fl now free required (ms.machine a) then some a else x)
        (find_machine-first fl now free required l ms'
          ∙ find-ext (λ b. qualifies fl now free required (ms'.machine b))
              (λ b. qualifies fl now free required (ms.machine b))
              (qualifies-set fl now free required ms a) l)

-- ===== src/State/Jobset/Tests.antt =====
-- Jobsets: tests, and the theorems at concrete windows.
use hydra_queue_runner.Base.{◌+◌, ◌%◌, ◌≡◌, refl, none, some, [], ◌∷◌, arith}
use hydra_queue_runner.Base.Text.{codes}
use hydra_queue_runner.Base.Words.{key64, two_64}
use hydra_queue_runner.State.Jobset.{
  Jobset, new_jobset, full_name, set_shares, add_step, prune_steps,
}
use hydra_queue_runner.State.Jobset.Window.{total, stored, IsExact, add_step-IsExact, add_step_leak}

abbrev busy : Jobset
unfolding new_jobset
busy = record (new_jobset 1 (codes "nixpkgs") (codes "trunk")) {
  steps = (100, 30) ∷ (200000, 7) ∷ [];
  seconds = 37;
}

full_name_test : full_name busy ≡ codes "nixpkgs:trunk"
unfolding full_name new_jobset
full_name_test = refl

-- `-1` is refused, 5 is taken.
set_shares_tests :
    (set_shares busy 4294967295 ≡ none) × (set_shares busy 5 ≡ some (record busy { shares = 5 }))
unfolding set_shares new_jobset
set_shares_tests = (refl, refl)

busy-IsExact : IsExact busy
unfolding new_jobset total key64
busy-IsExact = record { sorted = omega arith; exact = omega arith }

add_step-IsExact_example : IsExact (add_step busy 150 9)
unfolding new_jobset stored key64
add_step-IsExact_example = add_step-IsExact busy 150 9 (omega arith) busy-IsExact refl

add_step_leak_example :
    ((add_step busy 100 50).seconds ≡ (total (add_step busy 100 50).steps + 30) % two_64)
    × ((prune_steps 900000 (add_step busy 100 50)).seconds
        ≡ (total (prune_steps 900000 (add_step busy 100 50)).steps + 30) % two_64)
unfolding new_jobset stored key64
add_step_leak_example = add_step_leak busy 100 50 30 900000 busy-IsExact refl

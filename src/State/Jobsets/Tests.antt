-- ===== src/State/Jobsets/Tests.antt =====
-- Jobsets: the theorems at an empty registry and at one jobset.
use hydra_queue_runner.State.Jobsets.{
  name_Eq, JobsetRows, Jobsets, JobsetRef, Jobset, create_jobset, set_jobset, two_31,
}
use hydra_queue_runner.Base.{
  ◌<◌, ◌≡◌, refl, subst, inl, inr, none, some, [], ◌∷◌, arith, ◌==◌, Bool-cases, some_inj,
}
use hydra_queue_runner.State.Heap.{JobsetRef}
use hydra_queue_runner.State.Jobset.{Jobset}
use hydra_queue_runner.State.Jobsets.Shares.{HasShares, create_jobset_again}
use hydra_queue_runner.Base.Text.{codes}
use hydra_queue_runner.Base.Words.{two_31}

abbrev rows : JobsetRows
rows = record {
  scheduling_shares = λ id. some (some 100);
  build_steps = λ id. some ((some 10, some 30) ∷ (some 40, none) ∷ []);
}

abbrev no_jobsets : Jobsets
no_jobsets = record {
  inner = [];
  heap = record { step = λ a. none; build = λ a. none; jobset = λ a. none };
  next = 0;
}

abbrev made : JobsetRef
made = record { addr = 0; id = 1; project_name = codes "p"; name = codes "j" }

abbrev filled : Jobset
filled = record {
  id = 1;
  project_name = codes "p";
  name = codes "j";
  seconds = 20;
  shares = 100;
  steps = (10, 20) ∷ [];
}

abbrev one_jobset : Jobsets
one_jobset = record {
  inner = ((codes "p", codes "j"), made) ∷ [];
  heap = set_jobset no_jobsets.heap 0 filled;
  next = 1;
}

create_first : create_jobset rows 1 (codes "p") (codes "j") no_jobsets ≡ some (one_jobset, made)
unfolding create_jobset hydra_queue_runner.Base.Map.get hydra_queue_runner.Base.Map.insert
create_first = refl

create_jobset_again_example :
    create_jobset rows 2 (codes "p") (codes "j") one_jobset ≡ some (one_jobset, made)
create_jobset_again_example =
    create_jobset_again rows rows 1 2 (codes "p") (codes "j") no_jobsets one_jobset made
      create_first

one_jobset-HasShares : HasShares one_jobset.heap
unfolding set_jobset
one_jobset-HasShares a j e = elim (Bool-cases (0 == a)) [
  | inl here ↦
      subst (λ (x : Jobset). x.shares < two_31) (some_inj filled j (ground (arith, here)))
        (omega arith)
  | inr other ↦ absurd (ground (arith, other))
]

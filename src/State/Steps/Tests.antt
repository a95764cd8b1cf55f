-- ===== src/State/Steps/Tests.antt =====
-- The registry of steps: the theorems at a registry with one live step.
use hydra_queue_runner.Base.{ℕ, ◌≡◌, refl, ◌≢◌, none, some, [], ◌∷◌, arith}
use hydra_queue_runner.Base.Map
use hydra_queue_runner.NixUtils.StorePath.{StorePath}
use hydra_queue_runner.State.Heap.{BuildRef}
use hydra_queue_runner.State.Steps.{Steps, registered, create}
use hydra_queue_runner.State.Steps.Create.{IsRegistry, create-registered_ne, create-IsRegistry}

abbrev path : ℕ → StorePath
path n = record { base_name = n ∷ [] }

abbrev empty : Steps
empty = record {
  heap = record { step = λ a. none; build = λ a. none; jobset = λ a. none };
  inner = [];
  next = 0;
}

empty-IsRegistry : IsRegistry empty
empty-IsRegistry = record {
  keyed = λ p r h. unfold Map.get in ground arith;
  handed_out = λ p r h. unfold Map.get in ground arith;
  free = λ a h. refl;
  consistent = λ a s h. ground arith;
}

-- One step is registered by `create`.
abbrev one : Steps
one = (create (path 1) none none empty).0

one-IsRegistry : IsRegistry one
one-IsRegistry = create-IsRegistry (path 1) none none empty empty-IsRegistry

build : BuildRef
build = record { addr = 0; id = 5; drv_path = path 1 }

create-IsRegistry_example : IsRegistry (create (path 1) (some build) none one).0
create-IsRegistry_example = create-IsRegistry (path 1) (some build) none one one-IsRegistry

other_path : path 1 ≢ path 2
other_path e = ground (arith, e)

create-registered_ne_example :
    registered (create (path 2) none none one).0 (path 1) ≡ registered one (path 1)
create-registered_ne_example =
    create-registered_ne (path 2) none none one (path 1) one-IsRegistry other_path

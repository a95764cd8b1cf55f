-- ===== src/State/Dispatch/Tests.antt =====
-- Dispatch: the theorems at one job and one builder.
use hydra_queue_runner.Base.{
  ℕ, zero, suc, ◌≡◌, refl, true, false, Option, none, some, [], ◌∷◌, ◌==◌, if◌then◌else◌,
}
use hydra_queue_runner.Base.Text.{Text, codes, text_Eq}
use hydra_queue_runner.NixUtils.StorePath.{StorePath}
use hydra_queue_runner.State.Heap.{BuildRef, JobsetRef, Step, Heap}
use hydra_queue_runner.State.Step.{new_step}
use hydra_queue_runner.State.Queue.{InnerQueues, ScheduledItem}
use hydra_queue_runner.State.Machine.{JoinMessage, new_machine}
use hydra_queue_runner.State.Machine.Capacity.{
  Floats32, MachineFreeFn, has_capacity, supports_all_features,
}
use hydra_queue_runner.State.Machine.Registry.{Machines}
use hydra_queue_runner.State.Dispatch.{JobConstraint, Killed, step_features}
use hydra_queue_runner.State.Dispatch.Resolve.{resolve-suits}
use hydra_queue_runner.State.Dispatch.Kill.{kill_active_steps-keeps}

abbrev plain : Floats32
plain = record { mul = λ a b. a; of_u32 = λ a. a; widen = λ a. a }

abbrev linux : Text
linux = codes "x86_64-linux"

abbrev join : JoinMessage
join = record {
  machine_id = codes "1";
  systems = linux ∷ [];
  hostname = codes "a";
  cpu_count = 4;
  bogomips = 0;
  speed_factor = 1;
  max_jobs = 2;
  build_dir_avail_threshold = 0;
  store_avail_threshold = 0;
  load1_threshold = 0;
  cpu_psi_threshold = 0;
  mem_psi_threshold = 0;
  io_psi_threshold = none;
  total_mem = 0;
  supported_features = codes "kvm" ∷ [];
  mandatory_features = [];
  cgroups = true;
  substituters = [];
  use_substitutes = false;
  nix_version = codes "2.28";
}

abbrev one_machine : Machines
one_machine = record {
  by_uuid = (1, 0) ∷ [];
  by_system = (linux, 0 ∷ []) ∷ [];
  supported_features = codes "kvm" ∷ [];
  machine = λ a. new_machine 5 join 1;
  next = 1;
}

abbrev path : ℕ → StorePath
path n = record { base_name = n ∷ [] }

abbrev top : BuildRef
top = record { addr = 7; id = 1; drv_path = path 1 }

-- Step 1 has an unfinished build, step 2 has none.
abbrev two_steps : ℕ → Option Step
two_steps (suc zero) = some (record (new_step (path 1)) {
  state = record { deps = []; rdeps = []; builds = top ∷ []; jobsets = [] };
})
two_steps (suc (suc zero)) = some (new_step (path 2))
two_steps _ = none

abbrev trunk : JobsetRef
trunk = record { addr = 0; id = 1; project_name = codes "nixpkgs"; name = codes "trunk" }

abbrev heap : Heap
heap = record {
  step = two_steps;
  build = λ a. some (record {
    id = 1;
    drv_path = path 1;
    outputs = [];
    jobset_id = 1;
    name = codes "job";
    timestamp = 0;
    max_silent_time = 3600;
    timeout = 36000;
    local_priority = 100;
    global_priority = 0;
    toplevel = none;
    jobset = trunk;
    finished_in_db = false;
  });
  jobset = λ a. none;
}

abbrev item : ℕ → ScheduledItem
item n = record { step_info = n; build_queue = linux; machine = 0 }

abbrev queues : InnerQueues
queues = record {
  jobs = [];
  inner = [];
  scheduled = (path 1, item 1) ∷ (path 2, item 2) ∷ [];
  infos = λ a. record {
    step = record { addr = a; drv_path = path a };
    resolved_drv_path = none;
    already_scheduled = true;
    cancelled = false;
    runnable_since = 0;
    lowest_share_used = 0;
  };
  next = 3;
}

abbrev constraint : JobConstraint
constraint = record { job = 2; system = linux; queue_features = codes "kvm" ∷ [] }

resolve-suits_example :
    (constraint.job ≡ 2)
    × ((has_capacity plain 20 MachineFreeFn.static (one_machine.machine 0)).1 ≡ true)
    × (supports_all_features (step_features heap (queues.infos 2)) (one_machine.machine 0) ≡ true)
    × (supports_all_features (codes "kvm" ∷ []) (one_machine.machine 0) ≡ true)
unfolding hydra_queue_runner.State.Dispatch.resolve hydra_queue_runner.Base.Text.text_eq
    hydra_queue_runner.Base.Map.get new_machine new_step
resolve-suits_example =
    resolve-suits plain 20 heap queues MachineFreeFn.static constraint one_machine 0 2 refl

-- The job of step 2 is cancelled, although the builder has no job for it.
abbrev after : Killed
after = record {
  queues = record queues {
    infos = λ b. if 2 == b then record (queues.infos 2) { cancelled = true } else queues.infos b;
  };
  machines = one_machine;
  cancelled_steps = [];
}

kill_active_steps-keeps_example : (after.queues.infos 1).cancelled ≡ false
unfolding hydra_queue_runner.State.Dispatch.kill_active_steps new_step new_machine
    hydra_queue_runner.State.Dispatch.Kill.is_needed
kill_active_steps-keeps_example =
    kill_active_steps-keeps 5 heap (λ a. true) queues one_machine after 1 refl refl

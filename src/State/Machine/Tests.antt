-- ===== src/State/Machine/Tests.antt =====
-- Builders: tests, and the theorems on two builders.
use hydra_queue_runner.Base.{
  ℕ, ◌+◌, ◌-◌, ◌≤◌, ◌≡◌, refl, ◌↔◌, true, false, none, some, [], ◌∷◌, arith, length, ◌⊎◌,
}
use hydra_queue_runner.Base.Map
use hydra_queue_runner.Base.Map.{Map}
use hydra_queue_runner.Base.Text.{Text, codes, text_eq, text_Eq}
use hydra_queue_runner.Base.Words.{two_64}
use hydra_queue_runner.NixUtils.StorePath.{StorePath, path_eq}
use hydra_queue_runner.State.Machine.{
  Message, Machine, Job, JoinMessage, BuildOptions, Joined, JoinError, new_machine, machine_new,
  new_job, build_drv, remove_job, start_job, get_internal_build_id_for_drv,
}
use hydra_queue_runner.State.Machine.Capacity.{
  Floats32, MachineFreeFn, MachineSortFn, has_capacity, lt32, lt64,
}
use hydra_queue_runner.State.Machine.Capacity.Limits.{
  IsCounted, has_capacity-max_jobs, has_capacity-throttle,
}
use hydra_queue_runner.State.Machine.Jobs.{build-remove_job, remove_job-idle, remove_job_underflow}
use hydra_queue_runner.State.Machine.Registry.{Machines, insert_machine, get_machine_for_system}
use hydra_queue_runner.State.Machine.Registry.Index.{
  insert_machine-IsSorted, IsBest, get_machine_for_system-IsBest,
}

-- A stand-in for the arithmetic of `f32`; the comparisons are exact.
abbrev plain : Floats32
plain = record { mul = λ a b. a; of_u32 = λ a. a; widen = λ a. a }

abbrev path : ℕ → StorePath
path n = record { base_name = n ∷ [] }

abbrev linux : Text
linux = codes "x86_64-linux"

-- -1 < -0, -0 is not below 0, and no number is below the NaN.
lt32_tests :
    (lt32 0xbf800000 0x80000000 ≡ true) × (lt32 0x80000000 0 ≡ false) × (lt32 0 0x7fc00000 ≡ false)
unfolding lt32
lt32_tests = (refl, refl, refl)

-- A join message with a speed factor.
abbrev join : ℕ → JoinMessage
join speed = record {
  machine_id = codes "1";
  systems = linux ∷ [];
  hostname = codes "a";
  cpu_count = 4;
  bogomips = 0;
  speed_factor = speed;
  max_jobs = 2;
  build_dir_avail_threshold = 0;
  store_avail_threshold = 0;
  load1_threshold = 0;
  cpu_psi_threshold = 0;
  mem_psi_threshold = 0;
  io_psi_threshold = none;
  total_mem = 0;
  supported_features = codes "kvm" ∷ [];
  mandatory_features = [];
  cgroups = true;
  substituters = [];
  use_substitutes = false;
  nix_version = codes "2.28";
}

-- The forced substituter is missed only where uploads are presigned.
machine_new_tests :
    (machine_new (λ t. some 1) 5 (join 0) true (codes "s" ∷ [])
      ≡ Joined.err JoinError.no_substitutes)
    × (machine_new (λ t. some 1) 5 (join 0) false (codes "s" ∷ [])
        ≡ Joined.ok (new_machine 5 (join 0) 1))
unfolding machine_new
machine_new_tests = (refl, refl)

abbrev slow : Machine
slow = new_machine 5 (join 1) 11

abbrev fast : Machine
fast = new_machine 5 (join 2) 12

abbrev opts : BuildOptions
opts = record { max_log_size = 0; max_silent_time = 0; build_timeout = 0 }

abbrev job : ℕ → Job
job n = new_job (100 + n) n (path n) none

-- A builder after the message for a job was sent and the job was started.
abbrev given : Job → Machine → Machine
given j m = start_job 40 j (record m {
  messages = Message.build_message j.internal_build_id j.path j.resolved_drv opts none ∷ m.messages;
})

-- The slow builder after it was given jobs 1 and 2.
abbrev busy : Machine
busy = given (job 2) (given (job 1) slow)

-- The counter shows four jobs of the window that opened at 40.
abbrev full : Machine
full = record busy { stats = record busy.stats { jobs_in_last_30s_count = 4 } }

-- Of two jobs one was counted in the window.
abbrev counted_once : Machine
counted_once = record busy { stats = record busy.stats { jobs_in_last_30s_count = 1 } }

has_capacity-max_jobs_example : length (given (job 1) slow).jobs ≤ 2
unfolding new_machine hydra_queue_runner.State.Machine.Capacity.Limits.is_limited has_capacity
    build_drv
has_capacity-max_jobs_example =
    has_capacity-max_jobs plain 20 MachineFreeFn.static slow refl refl refl true 40 (job 1) opts
      none (given (job 1) slow) refl

build-remove_job_example :
    let after = given (job 2) (given (job 1) slow) in
    (get_internal_build_id_for_drv (path 2) after ≡ some 102)
    × ((remove_job 50 (path 2) after).1 ≡ some (job 2))
    × IsCounted (remove_job 50 (path 2) after).0
    × ((drv : StorePath)
        → get_internal_build_id_for_drv drv (remove_job 50 (path 2) after).0
          ≡ get_internal_build_id_for_drv drv (given (job 1) slow))
unfolding get_internal_build_id_for_drv start_job new_machine path_eq text_eq new_job build_drv
build-remove_job_example =
    build-remove_job true 40 50 (job 2) opts none (given (job 1) slow)
      (given (job 2) (given (job 1) slow)) refl refl

remove_job-idle_example :
    (((remove_job 50 (path 1) busy).0.stats.idle_since ≡ 50)
      ↔ (((remove_job 50 (path 1) busy).0.jobs ≡ []) × (busy.stats.idle_since ≡ 0)))
    × (((remove_job 50 (path 1) busy).0.stats.idle_since ≡ 50)
        ⊎ ((remove_job 50 (path 1) busy).0.stats.idle_since ≡ 0))
remove_job-idle_example = remove_job-idle 50 (path 1) busy (omega arith)

-- The builder works on four jobs more.
abbrev crowded : Machine
crowded = record counted_once { jobs = job 1 ∷ job 2 ∷ job 3 ∷ job 4 ∷ job 5 ∷ job 6 ∷ [] }

remove_job_underflow_example :
    ((remove_job 41 (path 2) (remove_job 41 (path 1) crowded).0).0.stats.jobs_in_last_30s_count
      ≡ two_64 - 1)
    × (has_capacity plain 60 MachineFreeFn.static
          (remove_job 41 (path 2) (remove_job 41 (path 1) crowded).0).0
        ≡ ((remove_job 41 (path 2) (remove_job 41 (path 1) crowded).0).0, false))
unfolding start_job new_machine remove_job path_eq text_eq new_job
remove_job_underflow_example =
    remove_job_underflow plain MachineFreeFn.static 41 60 (path 1) (path 2) crowded refl
      (omega arith) (omega arith) (omega arith)

abbrev no_machines : Machines
no_machines = record {
  by_uuid = [];
  by_system = [];
  supported_features = [];
  machine = λ a. slow;
  next = 0;
}

-- The slow builder is inserted first.
abbrev both : Machines
both =
    (insert_machine plain MachineSortFn.speed_factor_only fast
      (insert_machine plain MachineSortFn.speed_factor_only slow no_machines).0).0

get_machine_for_system-IsBest_example :
    IsBest plain MachineSortFn.speed_factor_only 20
      (codes "kvm" ∷ [])
      MachineFreeFn.static
      both
      (1 ∷ 0 ∷ [])
      (get_machine_for_system plain 20 linux (codes "kvm" ∷ []) (some MachineFreeFn.static) both).1
unfolding text_eq Map.get insert_machine new_machine Map.insert
get_machine_for_system-IsBest_example =
    get_machine_for_system-IsBest plain MachineSortFn.speed_factor_only 20 linux (codes "kvm" ∷ [])
      MachineFreeFn.static both (1 ∷ 0 ∷ []) refl refl
      (insert_machine-IsSorted plain MachineSortFn.speed_factor_only fast
        (insert_machine plain MachineSortFn.speed_factor_only slow no_machines).0 linux (1 ∷ 0 ∷ [])
        refl)

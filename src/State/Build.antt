-- ===== src/State/Build.antt =====
-- `Build` and `Builds` of queue-runner/src/state/build.rs: builds, and how their priorities reach the
-- steps that they need. The time that a database second stands for is an argument.
pub mod Raised
pub mod Propagate
mod Tests
use hydra_queue_runner.Base.{
  ℕ, zero, suc, ◌+◌, ◌-◌, ◌*◌, ◌/◌, ◌%◌, ◌^◌, ◌≤◌, ◌<◌, min, max, compare, Ordering, ◌≡◌, refl, sym,
  ap, subst, ◌∙◌, ◌≡⟨◌⟩◌, ◌∎, ◌≢◌, ◌↔◌, ◌⊎◌, inl, inr, Bool, true, false, not, ◌&&◌, ◌||◌, Option,
  none, some, List, [], ◌∷◌, ◌++◌, map, flat_map, arith, ltb, leb, ◌==◌, if◌then◌else◌, is_some,
  unwrap_or, ltb→lt, ==_iff, Bool-cases, Option-cases, length, length-append, take, drop,
  take-append-drop, length-take, retain, any, all, find, count_if, All, length-retain, All-append,
  In, any-append, some_inj, find-test, All-retain,
}
use hydra_queue_runner.Base.Map
use hydra_queue_runner.Base.Map.{Map}
use hydra_queue_runner.Base.Text.{Text}
use hydra_queue_runner.Base.Words.{key32}
use hydra_queue_runner.NixUtils.StorePath.{StorePath, new_store_path}
use hydra_queue_runner.State.Heap.{
  StepRef, BuildRef, JobsetRef, StepAtomicState, Step, Build, Heap, set_step, modify_build,
  insert_step,
}
use hydra_queue_runner.State.Step.{add_jobset, get_all_deps_not_queued}

-- The row of the database.
pub record BuildRow : Type 0 where
  pub id : ℕ
  pub drvpath : Text
  pub jobset_id : ℕ
  pub job : Text
  pub timestamp : ℕ
  pub maxsilent : Option ℕ
  pub timeout : Option ℕ
  pub priority : ℕ
  pub globalpriority : ℕ

-- `Build::new`; `none` is the error of a second that is no timestamp.
unfoldable pub new_build : Text → (ℕ → Option ℕ) → BuildRow → JobsetRef → Option Build
unfolding new_store_path
new_build store_dir from_second v jobset = elim (from_second v.timestamp) [
  | none ↦ none
  | some t ↦ some (record {
    id = v.id;
    drv_path = new_store_path store_dir v.drvpath;
    outputs = [];
    jobset_id = v.jobset_id;
    name = v.job;
    timestamp = t;
    max_silent_time = unwrap_or v.maxsilent 3600;
    timeout = unwrap_or v.timeout 36000;
    local_priority = v.priority;
    global_priority = v.globalpriority;
    toplevel = none;
    jobset = jobset;
    finished_in_db = false;
  })
]

unfoldable pub full_job_name : Build → Text
full_job_name b = b.jobset.project_name ++ (b':' ∷ (b.jobset.name ++ (b':' ∷ b.name)))

unfoldable pub set_finished_in_db : Bool → Build → Build
set_finished_in_db v b = record b { finished_in_db = v }

unfoldable pub set_toplevel_step : StepRef → Build → Build
set_toplevel_step r b = record b { toplevel = some r }

-- `std::cmp::max` and `std::cmp::min` on `i32` patterns.
unfoldable pub max_i32 : ℕ → ℕ → ℕ
max_i32 a b = if leb (key32 a) (key32 b) then b else a

unfoldable pub min_i32 : ℕ → ℕ → ℕ
min_i32 a b = if leb (key32 a) (key32 b) then a else b

-- What the loop of `propagate_priorities` does to a step.
unfoldable pub raise_step : Build → Step → Step
unfolding max_i32 min_i32 add_jobset
raise_step b s = add_jobset b.jobset (record s {
  atomic_state = record s.atomic_state {
    highest_global_priority = max_i32 s.atomic_state.highest_global_priority b.global_priority;
    highest_local_priority = max_i32 s.atomic_state.highest_local_priority b.local_priority;
    lowest_build_id = min_i32 s.atomic_state.lowest_build_id b.id;
  };
})

unfoldable pub insert_all : List StepRef → List StepRef → List StepRef
unfolding insert_step
insert_all [] queued = queued
insert_all (r ∷ rs) queued = insert_all rs (insert_step r queued)

-- The `while` loop with fuel: the queue `todo` and the set `queued`; `none` means that the fuel ran
-- out. A reference in `todo` is an `Arc`, so its cell has a value.
unfoldable pub propagate : ℕ → Build → List StepRef → List StepRef → Heap → Option Heap
unfolding raise_step insert_all get_all_deps_not_queued set_step
propagate fuel b queued [] h = some h
propagate zero b queued (r ∷ todo) h = none
propagate (suc fuel) b queued (r ∷ todo) h = elim (h.step r.addr) [
  | none ↦ propagate fuel b queued todo h
  | some s ↦
      let deps = get_all_deps_not_queued queued (raise_step b s) in
      propagate fuel b (insert_all deps queued) (todo ++ deps) (set_step h r.addr (raise_step b s))
]

unfoldable pub propagate_priorities : ℕ → Build → Heap → Option Heap
unfolding propagate
propagate_priorities fuel b h =
    propagate fuel b [] (elim b.toplevel [ none ↦ [] | some r ↦ r ∷ [] ]) h

-- `Builds`, keyed by the id of the build.
abbrev pub Builds : Type 0
Builds = Map ℕ BuildRef

instance abbrev pub id_Eq : Map.Eq ℕ
id_Eq = record { beq = λ a b. a == b; beq_iff = ==_iff }

-- The loop of `update_priorities` over the builds that are left.
unfoldable pub update_each : ℕ → Map ℕ ℕ → Builds → Heap → Option Heap
unfolding propagate_priorities modify_build
update_each fuel curr_ids [] h = some h
update_each fuel curr_ids ((id, r) ∷ rest) h = elim (Map.get id curr_ids) [
  | none ↦ update_each fuel curr_ids rest h
  | some new_priority ↦ elim (h.build r.addr) [
    | none ↦ update_each fuel curr_ids rest h
    | some b ↦
        if ltb (key32 b.global_priority) (key32 new_priority)
        then (let b' : Build = record b { global_priority = new_priority } in
            elim (propagate_priorities fuel b' (modify_build h r (λ _. b'))) [
              | none ↦ none
              | some h' ↦ update_each fuel curr_ids rest h'
            ])
        else update_each fuel curr_ids rest h
  ]
]

unfoldable pub update_priorities : ℕ → Map ℕ ℕ → Builds → Heap → Builds × Option Heap
unfolding update_each
update_priorities fuel curr_ids builds h =
    let kept = retain (λ (e : ℕ × BuildRef). is_some (Map.get e.0 curr_ids)) builds in
    (kept, update_each fuel curr_ids kept h)

unfoldable pub insert_new_build : BuildRef → Builds → Builds
insert_new_build b builds = Map.insert b.id b builds

unfoldable pub remove_by_id : ℕ → Builds → Builds
remove_by_id id builds = Map.remove id builds

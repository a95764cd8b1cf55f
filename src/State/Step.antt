-- ===== src/State/Step.antt =====
-- queue-runner/src/state/step.rs: a step and its methods, on the heap.
pub mod Release
pub mod Invariant
pub mod Dependents
mod Tests
use hydra_queue_runner.Base.{
  ℕ, zero, suc, true, false, not, Option, none, some, List, [], ◌∷◌, ◌++◌, leb, if◌then◌else◌,
  unwrap_or, length, retain,
}
use hydra_queue_runner.Base.Words.{i32_max, total_key, Floats}
use hydra_queue_runner.Base.Text.{Text}
use hydra_queue_runner.NixUtils.StorePath.{StorePath, path_eq}
use hydra_queue_runner.NixUtils.Derivation.{Output, get_required_system_features}
use hydra_queue_runner.State.Jobset.{share_used}
use hydra_queue_runner.State.Heap.{
  StepRef, BuildRef, JobsetRef, StepAtomicState, StepState, Step, Heap, modify_step, set_step,
  contains_step, insert_step, insert_jobset, insert_build,
}

unfoldable pub new_atomic_state : ℕ → ℕ → StepAtomicState
new_atomic_state after runnable_since = record {
  created = false;
  tries = 0;
  highest_global_priority = 0;
  highest_local_priority = 0;
  lowest_build_id = i32_max;
  after = after;
  runnable_since = runnable_since;
  last_supported = runnable_since;
  deps_len = 0;
  rdeps_len = 0;
}

unfoldable pub new_state : StepState
new_state = record { deps = []; rdeps = []; builds = []; jobsets = [] }

unfoldable pub new_step : StorePath → Step
unfolding new_atomic_state new_state
new_step drv_path = record {
  drv_path = drv_path;
  drv = none;
  runnable = false;
  finished = false;
  previous_failure = false;
  atomic_state = new_atomic_state 0 0;
  state = new_state;
}

unfoldable pub get_system : Step → Option Text
get_system s = elim s.drv [ none ↦ none | some d ↦ some d.system ]

unfoldable pub get_input_drvs : Step → Option (List Text)
get_input_drvs s = elim s.drv [ none ↦ none | some d ↦ some d.input_drvs ]

unfoldable pub get_outputs : Step → Option (List Output)
get_outputs s = elim s.drv [ none ↦ none | some d ↦ some d.outputs ]

unfoldable pub get_required_features : Step → List Text
get_required_features s = elim s.drv [ none ↦ [] | some d ↦ get_required_system_features d.env ]

-- The loop over `state.builds` in `get_dependents`.
unfoldable pub unfinished_builds : Heap → List BuildRef → List BuildRef → List BuildRef
unfolding insert_build
unfinished_builds h [] builds = builds
unfinished_builds h (b ∷ bs) builds = unfinished_builds h bs (elim (h.build b.addr) [
  | none ↦ builds
  | some x ↦ if x.finished_in_db then builds else insert_build b builds
])

-- The loop over the reverse dependencies, with the recursive call as an argument.
unfoldable pub visit_rdeps :
    (StepRef → List BuildRef × List StepRef → Option (List BuildRef × List StepRef))
    → Heap
    → List StepRef
    → List BuildRef × List StepRef
    → Option (List BuildRef × List StepRef)
visit_rdeps visit h [] acc = some acc
visit_rdeps visit h (r ∷ rs) acc = elim (h.step r.addr) [
  | none ↦ visit_rdeps visit h rs acc
  | some _ ↦ elim (visit r acc) [ none ↦ none | some acc' ↦ visit_rdeps visit h rs acc' ]
]

-- `get_dependents` with fuel, on the sets `builds` and `steps`; `none` means that the fuel ran out.
-- A reference to a step is an `Arc`, so its cell has a value.
unfoldable pub get_dependents :
    ℕ → Heap → StepRef → List BuildRef × List StepRef → Option (List BuildRef × List StepRef)
unfolding contains_step unfinished_builds visit_rdeps
get_dependents zero h r acc = none
get_dependents (suc fuel) h r (builds, steps) =
    if contains_step steps r then some (builds, steps) else elim (h.step r.addr) [
      | none ↦ some (builds, r ∷ steps)
      | some s ↦
          visit_rdeps (get_dependents fuel h) h s.state.rdeps
            (unfinished_builds h s.state.builds builds, r ∷ steps)
    ]

-- `make_runnable` at the time `now`: only the first call has an effect.
unfoldable pub make_runnable : ℕ → Step → Step
make_runnable now s = if s.runnable then s else record s {
  runnable = true;
  atomic_state = record s.atomic_state { runnable_since = now; last_supported = now };
}

-- What `make_rdeps_runnable` does to one reverse dependency of the step at `drv_path`.
unfoldable pub drop_dep : ℕ → StorePath → Step → Step
unfolding make_runnable
drop_dep now drv_path rdep =
    let deps = retain (λ d. not (path_eq d.drv_path drv_path)) rdep.state.deps in
    let rdep' : Step = record rdep {
      state = record rdep.state { deps = deps };
      atomic_state = record rdep.atomic_state { deps_len = length deps };
    } in
    elim deps [
      | [] ↦ if rdep.atomic_state.created then make_runnable now rdep' else rdep'
      | _ ∷ _ ↦ rdep'
    ]

-- The `retain` over `state.rdeps`.
unfoldable pub release_rdeps : ℕ → StorePath → Heap → List StepRef → Heap × List StepRef
unfolding drop_dep set_step
release_rdeps now drv_path h [] = (h, [])
release_rdeps now drv_path h (r ∷ rs) = elim (h.step r.addr) [
  | none ↦ release_rdeps now drv_path h rs
  | some rdep ↦
      let (h', kept) =
        release_rdeps now drv_path (set_step h r.addr (drop_dep now drv_path rdep)) rs in
      (h', r ∷ kept)
]

unfoldable pub make_rdeps_runnable : ℕ → Heap → StepRef → Heap
unfolding release_rdeps modify_step
make_rdeps_runnable now h r = elim (h.step r.addr) [
  | none ↦ h
  | some s ↦
      if s.finished
      then (let (h', kept) = release_rdeps now s.drv_path h s.state.rdeps in
          modify_step h' r λ t. record t {
            state = record t.state { rdeps = kept };
            atomic_state = record t.atomic_state { rdeps_len = length kept };
          })
      else h
]

-- `min_by(f64::total_cmp)`: the first of the least.
unfoldable pub least_share : List ℕ → Option ℕ
least_share [] = none
least_share (x ∷ xs) = elim (least_share xs) [
  | none ↦ some x
  | some y ↦ if leb (total_key x) (total_key y) then some x else some y
]

-- `1e9` as an `f64`.
abbrev pub f64_1e9 : ℕ
f64_1e9 = 0x41cdcd6500000000

unfoldable pub jobset_shares : Floats → Heap → List JobsetRef → List ℕ
unfolding share_used
jobset_shares fl h [] = []
jobset_shares fl h (j ∷ js) = elim (h.jobset j.addr) [
  | none ↦ jobset_shares fl h js
  | some x ↦ share_used fl x ∷ jobset_shares fl h js
]

unfoldable pub get_lowest_share_used : Floats → Heap → Step → ℕ
unfolding jobset_shares least_share
get_lowest_share_used fl h s = unwrap_or (least_share (jobset_shares fl h s.state.jobsets)) f64_1e9

unfoldable pub add_jobset : JobsetRef → Step → Step
unfolding insert_jobset
add_jobset j s = record s { state = record s.state { jobsets = insert_jobset j s.state.jobsets } }

unfoldable pub add_dep : StepRef → Step → Step
unfolding insert_step
add_dep dep s =
    let deps = insert_step dep s.state.deps in
    record s {
      state = record s.state { deps = deps };
      atomic_state = record s.atomic_state { deps_len = length deps };
    }

-- `Vec::push`
abbrev pub push {ℓ} : {A : Type ℓ} → List A → A → List A
push l a = l ++ a ∷ []

unfoldable pub add_referring_data : Option BuildRef → Option StepRef → Step → Step
add_referring_data none none s = s
add_referring_data (some b) none s = record s {
  state = record s.state { builds = push s.state.builds b };
}
add_referring_data none (some r) s = record s {
  state = record s.state { rdeps = push s.state.rdeps r };
  atomic_state = record s.atomic_state { rdeps_len = length (push s.state.rdeps r) };
}
add_referring_data (some b) (some r) s = record s {
  state = record s.state { builds = push s.state.builds b; rdeps = push s.state.rdeps r };
  atomic_state = record s.atomic_state { rdeps_len = length (push s.state.rdeps r) };
}

unfoldable pub direct_builds : Heap → List BuildRef → List BuildRef
direct_builds h [] = []
direct_builds h (b ∷ bs) = elim (h.build b.addr) [
  | none ↦ direct_builds h bs
  | some x ↦ if x.finished_in_db then direct_builds h bs else b ∷ direct_builds h bs
]

unfoldable pub get_direct_builds : Heap → Step → List BuildRef
unfolding direct_builds
get_direct_builds h s = direct_builds h s.state.builds

unfoldable pub get_all_deps_not_queued : List StepRef → Step → List StepRef
unfolding contains_step
get_all_deps_not_queued queued s = retain (λ dep. not (contains_step queued dep)) s.state.deps

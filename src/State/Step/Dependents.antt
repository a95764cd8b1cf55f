-- ===== src/State/Step/Dependents.antt =====
-- `get_dependents` of queue-runner/src/state/step.rs: the search along reverse dependencies.
pub mod Closure
pub mod Fuel
pub mod Reached
pub mod Registered
use hydra_queue_runner.Base.{
  ℕ, zero, suc, ◌+◌, ◌-◌, ◌*◌, ◌/◌, ◌%◌, ◌^◌, ◌≤◌, ◌<◌, min, max, compare, Ordering, ◌≡◌, refl, sym,
  ap, subst, ◌∙◌, ◌≡⟨◌⟩◌, ◌∎, ◌≢◌, ◌↔◌, ◌⊎◌, inl, inr, Bool, true, false, not, ◌&&◌, ◌||◌, Option,
  none, some, List, [], ◌∷◌, ◌++◌, map, flat_map, arith, ltb, leb, ◌==◌, if◌then◌else◌, is_some,
  unwrap_or, ltb→lt, ==_iff, Bool-cases, Option-cases, length, length-append, take, drop,
  take-append-drop, length-take, retain, any, all, find, count_if, All, length-retain, All-append,
  find-test, All-retain,
}
use hydra_queue_runner.State.Heap.{
  StepRef, BuildRef, Heap, Build, Step, contains_step, contains_build,
}

-- The two sets that the search builds.
abbrev pub Found : Type 0
Found = List BuildRef × List StepRef

-- What the search owes for a step that it has seen: the builds and the live reverse dependencies of
-- the step are in the sets; a build that is finished or gone may be missing.
abbrev pub BuildFound : Heap → List BuildRef → BuildRef → Type 0
BuildFound h builds b =
    (x : Build)
    → h.build b.addr ≡ some x
    → x.finished_in_db ≡ false
    → contains_build builds b ≡ true

abbrev pub StepFound : Heap → List StepRef → StepRef → Type 0
StepFound h steps d = (s : Step) → h.step d.addr ≡ some s → contains_step steps d ≡ true

abbrev pub Covered : Heap → Found → StepRef → Type 0
Covered h found r =
    (s : Step)
    → h.step r.addr ≡ some s
    → All (BuildFound h found.0) s.state.builds × All (StepFound h found.1) s.state.rdeps

-- ===== src/State/Steps.antt =====
-- `Steps` of queue-runner/src/state/step.rs: the registry of steps by derivation path. It holds weak
-- references, and a new step takes the next free address of the heap.
pub mod Create
mod Tests
use hydra_queue_runner.Base.{
  ℕ, zero, suc, ◌+◌, ◌-◌, ◌*◌, ◌/◌, ◌%◌, ◌^◌, ◌≤◌, ◌<◌, min, max, compare, Ordering, ◌≡◌, refl, sym,
  ap, subst, ◌∙◌, ◌≡⟨◌⟩◌, ◌∎, ◌≢◌, ◌↔◌, ◌⊎◌, inl, inr, Bool, true, false, not, ◌&&◌, ◌||◌, Option,
  none, some, List, [], ◌∷◌, ◌++◌, map, flat_map, arith, ltb, leb, ◌==◌, if◌then◌else◌, is_some,
  unwrap_or, ltb→lt, ==_iff, Bool-cases, Option-cases, length, length-append, take, drop,
  take-append-drop, length-take, retain, any, all, find, count_if, All, length-retain, All-append,
  In, any-append, some_inj, find-test, All-retain,
}
use hydra_queue_runner.Base.Map
use hydra_queue_runner.Base.Map.{Map}
use hydra_queue_runner.NixUtils.StorePath.{StorePath, path_Eq}
use hydra_queue_runner.State.Heap.{StepRef, BuildRef, Step, Heap, set_step, modify_step}
use hydra_queue_runner.State.Step.{new_step, add_referring_data, make_rdeps_runnable}

pub record Steps : Type 0 where
  pub inner : Map StorePath StepRef
  pub heap : Heap
  pub next : ℕ

-- `Weak::upgrade(..).is_some()`
unfoldable pub is_live : Heap → StepRef → Bool
is_live h r = is_some (h.step r.addr)

-- `steps.retain(|_, s| s.upgrade().is_some())`
unfoldable pub drop_dead : Steps → Steps
unfolding is_live
drop_dead st = record st {
  inner = retain (λ (e : StorePath × StepRef). is_live st.heap e.1) st.inner;
}

unfoldable pub len : Steps → Steps × ℕ
unfolding drop_dead
len st = let st' = drop_dead st in (st', length st'.inner)

unfoldable pub is_empty : Steps → Steps × Bool
unfolding drop_dead
is_empty st = let st' = drop_dead st in (st', length st'.inner == 0)

unfoldable pub is_runnable : Heap → StepRef → Bool
is_runnable h r = elim (h.step r.addr) [ none ↦ false | some s ↦ s.runnable ]

unfoldable pub len_runnable : Steps → Steps × ℕ
unfolding drop_dead is_runnable
len_runnable st =
    let st' = drop_dead st in
    (st', count_if (λ (e : StorePath × StepRef). is_runnable st.heap e.1) st'.inner)

unfoldable pub clone_runnable : Steps → Steps × List StepRef
unfolding drop_dead is_runnable
clone_runnable st =
    let st' = drop_dead st in
    (st', retain (is_runnable st.heap) (map (λ (e : StorePath × StepRef). e.1) st'.inner))

-- The loop of `Steps::make_rdeps_runnable` over the values of the map.
unfoldable pub release_all : ℕ → Heap → List StepRef → Heap
release_all now h [] = h
release_all now h (r ∷ rs) =
    release_all now
      (elim (h.step r.addr) [
        | none ↦ h
        | some s ↦ if s.finished && not s.previous_failure then make_rdeps_runnable now h r else h
      ])
      rs

unfoldable pub make_all_rdeps_runnable : ℕ → Steps → Steps
unfolding release_all
make_all_rdeps_runnable now st = record st {
  heap = release_all now st.heap (map (λ (e : StorePath × StepRef). e.1) st.inner);
}

-- The live step that is registered under a path.
unfoldable pub registered : Steps → StorePath → Option StepRef
unfolding is_live
registered st drv_path = elim (Map.get drv_path st.inner) [
  | none ↦ none
  | some r ↦ if is_live st.heap r then some r else none
]

-- `Steps::create`: the step, and whether it is new.
unfoldable pub create :
    StorePath → Option BuildRef → Option StepRef → Steps → Steps × StepRef × Bool
unfolding registered set_step modify_step
create drv_path referring_build referring_step st = elim (registered st drv_path) [
  | some r ↦ (
    record st {
      heap = modify_step st.heap r (add_referring_data referring_build referring_step);
      inner = Map.insert drv_path r st.inner;
    },
    r,
    false,
  )
  | none ↦
      let r : StepRef = record { addr = st.next; drv_path = drv_path } in
      (
        record {
          heap =
              set_step st.heap st.next
                (add_referring_data referring_build referring_step (new_step drv_path));
          inner = Map.insert drv_path r st.inner;
          next = suc st.next;
        },
        r,
        true,
      )
]

unfoldable pub remove : StorePath → Steps → Steps
remove drv_path st = record st { inner = Map.remove drv_path st.inner }

-- ===== src/State/StepInfo.antt =====
-- queue-runner/src/state/step_info.rs: a step in a queue, and the two orders by which queues are
-- sorted. Priorities and build ids are `i32` patterns, shares are `f64` patterns.
pub mod Total
mod Tests
use hydra_queue_runner.Base.{
  ℕ, zero, suc, ◌+◌, ◌-◌, ◌*◌, ◌/◌, ◌%◌, ◌^◌, ◌≤◌, ◌<◌, min, max, compare, Ordering, ◌≡◌, refl, sym,
  ap, subst, ◌∙◌, ◌≡⟨◌⟩◌, ◌∎, ◌≢◌, ◌↔◌, ◌⊎◌, inl, inr, Bool, true, false, not, ◌&&◌, ◌||◌, Option,
  none, some, List, [], ◌∷◌, ◌++◌, map, flat_map, arith, ltb, leb, ◌==◌, if◌then◌else◌, is_some,
  unwrap_or, ltb→lt, ==_iff, Bool-cases, Option-cases, length, length-append, take, drop,
  take-append-drop, length-take, retain, any, all, find, count_if, All, length-retain, All-append,
  In, any-append, some_inj, find-test, All-retain,
}
use hydra_queue_runner.Base.Compare.{reverse, or_else}
use hydra_queue_runner.Base.Words.{Floats, key32, total_key, i32_max}
use hydra_queue_runner.NixUtils.StorePath.{StorePath}
use hydra_queue_runner.State.Heap.{StepRef, Heap, Step}
use hydra_queue_runner.State.Step.{get_lowest_share_used}

pub record StepInfo : Type 0 where
  pub step : StepRef
  pub resolved_drv_path : Option StorePath
  pub already_scheduled : Bool
  pub cancelled : Bool
  pub runnable_since : ℕ
  pub lowest_share_used : ℕ

-- `StepInfo::new`; what the store resolves the derivation to is an argument.
unfoldable pub new_step_info : Floats → Heap → Option StorePath → StepRef → Option StepInfo
new_step_info fl h resolved r = elim (h.step r.addr) [
  | none ↦ none
  | some s ↦ some (record {
    step = r;
    resolved_drv_path = resolved;
    already_scheduled = false;
    cancelled = false;
    runnable_since = s.atomic_state.runnable_since;
    lowest_share_used = get_lowest_share_used fl h s;
  })
]

-- A `StepInfo` owns its step, so the cell has a value; the other branch is never taken.
unfoldable pub update_internal_stats : Floats → Heap → StepInfo → StepInfo
update_internal_stats fl h i = elim (h.step i.step.addr) [
  | none ↦ i
  | some s ↦ record i { lowest_share_used = get_lowest_share_used fl h s }
]

unfoldable pub get_highest_global_priority : Heap → StepInfo → ℕ
get_highest_global_priority h i = elim (h.step i.step.addr) [
  | none ↦ 0
  | some s ↦ s.atomic_state.highest_global_priority
]

unfoldable pub get_highest_local_priority : Heap → StepInfo → ℕ
get_highest_local_priority h i = elim (h.step i.step.addr) [
  | none ↦ 0
  | some s ↦ s.atomic_state.highest_local_priority
]

unfoldable pub get_lowest_build_id : Heap → StepInfo → ℕ
get_lowest_build_id h i = elim (h.step i.step.addr) [
  | none ↦ i32_max
  | some s ↦ s.atomic_state.lowest_build_id
]

unfoldable pub get_rdeps_len : Heap → StepInfo → ℕ
get_rdeps_len h i = elim (h.step i.step.addr) [ none ↦ 0 | some s ↦ s.atomic_state.rdeps_len ]

-- `i32::cmp` and `f64::total_cmp` on patterns.
abbrev pub cmp_i32 : ℕ → ℕ → Ordering
cmp_i32 a b = compare (key32 a) (key32 b)

abbrev pub total_cmp : ℕ → ℕ → Ordering
total_cmp a b = compare (total_key a) (total_key b)

unfoldable pub legacy_compare : Heap → StepInfo → StepInfo → Ordering
legacy_compare h a b = reverse (
    or_else (cmp_i32 (get_highest_global_priority h a) (get_highest_global_priority h b)) (
      or_else (total_cmp b.lowest_share_used a.lowest_share_used) (
        or_else (cmp_i32 (get_highest_local_priority h a) (get_highest_local_priority h b))
          (cmp_i32 (get_lowest_build_id h b) (get_lowest_build_id h a)))))

unfoldable pub compare_with_rdeps : Heap → StepInfo → StepInfo → Ordering
compare_with_rdeps h a b = reverse (
    or_else (cmp_i32 (get_highest_global_priority h a) (get_highest_global_priority h b)) (
      or_else (total_cmp b.lowest_share_used a.lowest_share_used) (
        or_else (compare (get_rdeps_len h a) (get_rdeps_len h b)) (
          or_else (cmp_i32 (get_highest_local_priority h a) (get_highest_local_priority h b))
            (cmp_i32 (get_lowest_build_id h b) (get_lowest_build_id h a))))))

-- queue-runner/src/config.rs
pub data StepSortFn : Type 0 where
  legacy with_rdeps : StepSortFn

-- `cmp_fn` of `sort_jobs`
unfoldable pub cmp_fn : StepSortFn → Heap → StepInfo → StepInfo → Ordering
cmp_fn legacy = legacy_compare
cmp_fn with_rdeps = compare_with_rdeps

-- The comparison of upgraded weak references: those that are gone come first.
unfoldable pub cmp_weak : StepSortFn → Heap → Option StepInfo → Option StepInfo → Ordering
unfolding cmp_fn
cmp_weak f h (some a) (some b) = cmp_fn f h a b
cmp_weak f h (some a) none = Ordering.gt
cmp_weak f h none (some b) = Ordering.lt
cmp_weak f h none none = Ordering.eq

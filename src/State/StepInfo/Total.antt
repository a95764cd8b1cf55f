-- ===== src/State/StepInfo/Total.antt =====
-- The comparison functions meet the contract of `sort_by`.
use hydra_queue_runner.Base.{compare, Ordering, ◌≡◌, refl, ◌≢◌, Option, none, some, arith}
use hydra_queue_runner.Base.Compare.{
  reverse, IsTotal, key-IsTotal, reverse-IsTotal, or_else-IsTotal, swap-IsTotal,
}
use hydra_queue_runner.Base.Words.{key32, total_key}
use hydra_queue_runner.State.Heap.{Heap}
use hydra_queue_runner.State.StepInfo.{
  StepInfo, StepSortFn, legacy, with_rdeps, get_highest_global_priority, get_highest_local_priority,
  get_lowest_build_id, get_rdeps_len, legacy_compare, compare_with_rdeps, cmp_fn, cmp_weak,
}

module _ (h : Heap) where
  by_global : IsTotal (λ a b.
      compare (key32 (get_highest_global_priority h a)) (key32 (get_highest_global_priority h b)))
  by_global = key-IsTotal (λ i. key32 (get_highest_global_priority h i))

  by_share :
      IsTotal (λ (a b : StepInfo).
        compare (total_key b.lowest_share_used) (total_key a.lowest_share_used))
  by_share = swap-IsTotal _ (key-IsTotal (λ (i : StepInfo). total_key i.lowest_share_used))

  by_rdeps : IsTotal (λ a b. compare (get_rdeps_len h a) (get_rdeps_len h b))
  by_rdeps = key-IsTotal (λ i. get_rdeps_len h i)

  by_local : IsTotal (λ a b.
      compare (key32 (get_highest_local_priority h a)) (key32 (get_highest_local_priority h b)))
  by_local = key-IsTotal (λ i. key32 (get_highest_local_priority h i))

  by_build :
      IsTotal (λ a b. compare (key32 (get_lowest_build_id h b)) (key32 (get_lowest_build_id h a)))
  by_build = swap-IsTotal _ (key-IsTotal (λ i. key32 (get_lowest_build_id h i)))

  legacy_compare-IsTotal : IsTotal (legacy_compare h)
  unfolding legacy_compare
  legacy_compare-IsTotal = reverse-IsTotal _ (
      or_else-IsTotal _ _ by_global
        (or_else-IsTotal _ _ by_share (or_else-IsTotal _ _ by_local by_build)))

  compare_with_rdeps-IsTotal : IsTotal (compare_with_rdeps h)
  unfolding compare_with_rdeps
  compare_with_rdeps-IsTotal = reverse-IsTotal _ (
      or_else-IsTotal _ _ by_global (
        or_else-IsTotal _ _ by_share
          (or_else-IsTotal _ _ by_rdeps (or_else-IsTotal _ _ by_local by_build))))

  pub cmp_fn-IsTotal : (f : StepSortFn) → IsTotal (cmp_fn f h)
  unfolding cmp_fn
  cmp_fn-IsTotal legacy = legacy_compare-IsTotal
  cmp_fn-IsTotal with_rdeps = compare_with_rdeps-IsTotal

  cmp_weak-flip :
      (f : StepSortFn) (a b : Option StepInfo) → cmp_weak f h b a ≡ reverse (cmp_weak f h a b)
  unfolding cmp_weak
  cmp_weak-flip f (some a) (some b) = (cmp_fn-IsTotal f).flip a b
  cmp_weak-flip f (some a) none = refl
  cmp_weak-flip f none (some b) = refl
  cmp_weak-flip f none none = refl

  cmp_weak_trans :
      (f : StepSortFn) (a b c : Option StepInfo)
      → cmp_weak f h a b ≢ Ordering.gt
      → cmp_weak f h b c ≢ Ordering.gt
      → cmp_weak f h a c ≢ Ordering.gt
  unfolding cmp_weak
  cmp_weak_trans f (some a) (some b) (some c) p q = (cmp_fn-IsTotal f).trans a b c p q
  cmp_weak_trans f none b none p q = ground arith
  cmp_weak_trans f none b (some c) p q = ground arith
  cmp_weak_trans f (some a) none c p q = absurd (p refl)
  cmp_weak_trans f (some a) (some b) none p q = absurd (q refl)

  -- The comparison that sorts a queue, for both sort functions and also where references are
  -- gone, gives opposite answers for the two orders of a pair and is transitive.
  pub cmp_weak-IsTotal : (f : StepSortFn) → IsTotal (cmp_weak f h)
  cmp_weak-IsTotal f = record { flip = cmp_weak-flip f; trans = cmp_weak_trans f }

-- ===== src/State/StepInfo/Tests.antt =====
-- The order of queued jobs: the theorem on an empty heap.
use hydra_queue_runner.Base.{none}
use hydra_queue_runner.Base.Compare.{IsTotal}
use hydra_queue_runner.State.Heap.{Heap}
use hydra_queue_runner.State.StepInfo.{StepSortFn, cmp_weak}
use hydra_queue_runner.State.StepInfo.Total.{cmp_weak-IsTotal}

abbrev no_steps : Heap
no_steps = record { step = λ a. none; build = λ a. none; jobset = λ a. none }

cmp_weak-IsTotal_example : IsTotal (cmp_weak StepSortFn.with_rdeps no_steps)
cmp_weak-IsTotal_example = cmp_weak-IsTotal no_steps StepSortFn.with_rdeps

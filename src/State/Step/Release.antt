-- ===== src/State/Step/Release.antt =====
-- What `make_rdeps_runnable` does to every step of the heap.
use hydra_queue_runner.Base.{ℕ, ◌≡◌, Bool, some, List, arith, ◌==◌, any, false}
use hydra_queue_runner.NixUtils.StorePath.{StorePath}
use hydra_queue_runner.State.Heap.{StepRef, Step, Heap}
use hydra_queue_runner.State.Step.{make_rdeps_runnable}

-- Some reference of the list points to the address.
unfoldable pub points_to : ℕ → List StepRef → Bool
points_to a rs = any (λ (r : StepRef). r.addr == a) rs

-- Until the step is finished nothing is released.
make_rdeps_runnable_unfinished :
    (now : ℕ) (h : Heap) (r : StepRef) (s : Step)
    → h.step r.addr ≡ some s
    → s.finished ≡ false
    → make_rdeps_runnable now h r ≡ h
unfolding make_rdeps_runnable
make_rdeps_runnable_unfinished now h r s live fin = ground arith

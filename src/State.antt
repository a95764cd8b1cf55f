-- ===== src/State.antt =====
-- queue-runner/src/state: the in-memory state of the queue runner.
pub mod Jobset
pub mod Heap
pub mod Step
pub mod Steps
pub mod StepInfo
pub mod Queue
pub mod Remote
pub mod Machine
pub mod Build
pub mod Dispatch
pub mod Channel
pub mod Output
pub mod Statement
pub mod Metrics
pub mod Runner
pub mod Jobsets

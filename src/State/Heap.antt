-- ===== src/State/Heap.antt =====
-- The shared objects of queue-runner/src/state: steps (step.rs), builds (build.rs) and jobsets
-- (jobset.rs) live at addresses of a heap, as `Arc` and `Weak` see them. A cell without a value is
-- an object whose last `Arc` is gone, so `Weak::upgrade` is a read of the cell. A reference carries
-- the fields by which the source compares and hashes the objects, since these never change. An
-- atomic or a lock is a field of the object: an operation on it is one step.
-- A timestamp is a number of nanoseconds since the epoch.
use hydra_queue_runner.Base.{ℕ, Bool, ◌&&◌, Option, none, some, List, ◌∷◌, ◌==◌, if◌then◌else◌, any}
use hydra_queue_runner.Base.Text.{Text, text_eq}
use hydra_queue_runner.Base.Map.{Map}
use hydra_queue_runner.NixUtils.StorePath.{StorePath, path_eq}
use hydra_queue_runner.NixUtils.Derivation.{Derivation}
use hydra_queue_runner.State.Jobset.{Jobset}

pub record StepRef : Type 0 where
  pub addr : ℕ
  pub drv_path : StorePath

pub record BuildRef : Type 0 where
  pub addr : ℕ
  pub id : ℕ
  pub drv_path : StorePath

pub record JobsetRef : Type 0 where
  pub addr : ℕ
  pub id : ℕ
  pub project_name : Text
  pub name : Text

-- `PartialEq for Step` and `PartialEq for Build`: by the derivation path alone.
unfoldable pub step_eq : StepRef → StepRef → Bool
step_eq a b = path_eq a.drv_path b.drv_path

unfoldable pub build_eq : BuildRef → BuildRef → Bool
build_eq a b = path_eq a.drv_path b.drv_path

unfoldable pub jobset_ref_eq : JobsetRef → JobsetRef → Bool
jobset_ref_eq a b = a.id == b.id && text_eq a.project_name b.project_name && text_eq a.name b.name

pub record StepAtomicState : Type 0 where
  pub created : Bool
  pub tries : ℕ
  pub highest_global_priority : ℕ
  pub highest_local_priority : ℕ
  pub lowest_build_id : ℕ
  pub after : ℕ
  pub runnable_since : ℕ
  pub last_supported : ℕ
  pub deps_len : ℕ
  pub rdeps_len : ℕ

pub record StepState : Type 0 where
  pub deps : List StepRef
  pub rdeps : List StepRef
  pub builds : List BuildRef
  pub jobsets : List JobsetRef

pub record Step : Type 0 where
  pub drv_path : StorePath
  pub drv : Option Derivation
  pub runnable : Bool
  pub finished : Bool
  pub previous_failure : Bool
  pub atomic_state : StepAtomicState
  pub state : StepState

pub record Build : Type 0 where
  pub id : ℕ
  pub drv_path : StorePath
  pub outputs : Map Text StorePath
  pub jobset_id : ℕ
  pub name : Text
  pub timestamp : ℕ
  pub max_silent_time : ℕ
  pub timeout : ℕ
  pub local_priority : ℕ
  pub global_priority : ℕ
  pub toplevel : Option StepRef
  pub jobset : JobsetRef
  pub finished_in_db : Bool

pub record Heap : Type 0 where
  pub step : ℕ → Option Step
  pub build : ℕ → Option Build
  pub jobset : ℕ → Option Jobset

unfoldable pub set_step : Heap → ℕ → Step → Heap
set_step h a s = record h { step = λ b. if a == b then some s else h.step b }

unfoldable pub set_build : Heap → ℕ → Build → Heap
set_build h a x = record h { build = λ b. if a == b then some x else h.build b }

-- A method that changes the object behind a reference.
unfoldable pub modify_step : Heap → StepRef → (Step → Step) → Heap
unfolding set_step
modify_step h r f = elim (h.step r.addr) [ none ↦ h | some s ↦ set_step h r.addr (f s) ]

unfoldable pub modify_build : Heap → BuildRef → (Build → Build) → Heap
unfolding set_build
modify_build h r f = elim (h.build r.addr) [ none ↦ h | some x ↦ set_build h r.addr (f x) ]

-- `HashSet::contains` and `HashSet::insert` on references: an equal one that is there stays.
unfoldable pub contains_step : List StepRef → StepRef → Bool
contains_step l r = any (λ s. step_eq s r) l

unfoldable pub insert_step : StepRef → List StepRef → List StepRef
unfolding contains_step
insert_step r l = if contains_step l r then l else r ∷ l

unfoldable pub contains_build : List BuildRef → BuildRef → Bool
contains_build l r = any (λ b. build_eq b r) l

unfoldable pub insert_build : BuildRef → List BuildRef → List BuildRef
unfolding contains_build
insert_build r l = if contains_build l r then l else r ∷ l

unfoldable pub insert_jobset : JobsetRef → List JobsetRef → List JobsetRef
insert_jobset r l = if any (λ j. jobset_ref_eq j r) l then l else r ∷ l

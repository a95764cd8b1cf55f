-- ===== src/State/Build/Propagate.antt =====
-- `propagate_priorities` reaches every step that the build needs.
pub mod Served
pub mod Reach
pub mod Below
pub mod Fuel
use hydra_queue_runner.Base.{
  ℕ, zero, suc, ◌+◌, ◌-◌, ◌*◌, ◌/◌, ◌%◌, ◌^◌, ◌≤◌, ◌<◌, min, max, compare, Ordering, ◌≡◌, refl, sym,
  ap, subst, ◌∙◌, ◌≡⟨◌⟩◌, ◌∎, ◌≢◌, ◌↔◌, ◌⊎◌, inl, inr, Bool, true, false, not, ◌&&◌, ◌||◌, Option,
  none, some, List, [], ◌∷◌, ◌++◌, map, flat_map, arith, ltb, leb, ◌==◌, if◌then◌else◌, is_some,
  unwrap_or, ltb→lt, ==_iff, Bool-cases, Option-cases, length, length-append, take, drop,
  take-append-drop, length-take, retain, any, all, find, count_if, All, length-retain, All-append,
  In, any-append, some_inj, find-test, All-retain,
}
use hydra_queue_runner.NixUtils.StorePath.{StorePath, path_eq, path_eq_iff}
use hydra_queue_runner.State.Heap.{
  StepRef, Step, Build, Heap, set_step, contains_step, insert_step, step_eq,
}
use hydra_queue_runner.State.Step.{get_all_deps_not_queued}
use hydra_queue_runner.State.Build.{raise_step, insert_all, propagate}
use hydra_queue_runner.State.Build.Raised.{Raised, IsServed, raise_step-Raised, raise_step-IsServed}

-- A reference points to the one address that its path has in the registry.
abbrev pub IsRegistered : (StorePath → ℕ) → StepRef → Type 0
IsRegistered f r = r.addr ≡ f r.drv_path

abbrev pub DepsRegistered : (StorePath → ℕ) → Heap → Type 0
DepsRegistered f h = (a : ℕ) (s : Step) → h.step a ≡ some s → All (IsRegistered f) s.state.deps

module _ (f : StorePath → ℕ) where
  ref_ext : (q d : StepRef) → IsRegistered f q → IsRegistered f d → step_eq q d ≡ true → d ≡ q
  unfolding step_eq
  ref_ext q d i j e = ground (arith, path_eq_iff q.drv_path d.drv_path)

  pub contains-In :
      (l : List StepRef) (d : StepRef)
      → All (IsRegistered f) l
      → IsRegistered f d
      → contains_step l d ≡ true
      → In d l
  unfolding contains_step
  contains-In [] d i j h = ground arith
  contains-In (q ∷ l) d i j h = elim (Bool-cases (step_eq q d)) [
    | inl e ↦ inl (ref_ext q d i.0 j e)
    | inr e ↦ inr (contains-In l d i.1 j (ground arith))
  ]

  insert_step-In :
      (r : StepRef) (l : List StepRef)
      → All (IsRegistered f) l
      → IsRegistered f r
      → In r (insert_step r l)
  unfolding insert_step
  insert_step-In r l i j = elim (Bool-cases (contains_step l r)) [
    | inl e ↦ rw e (contains-In l r i j e)
    | inr e ↦ rw e (inl refl)
  ]

  insert_step_kept : (r d : StepRef) (l : List StepRef) → In d l → In d (insert_step r l)
  unfolding insert_step
  insert_step_kept r d l m = elim (Bool-cases (contains_step l r)) [
    | inl e ↦ rw e m
    | inr e ↦ rw e (inr m)
  ]

  insert_step_from : (r d : StepRef) (l : List StepRef) → In d (insert_step r l) → (d ≡ r) ⊎ In d l
  unfolding insert_step
  insert_step_from r d l m = split (contains_step l r) m
    where
      split : (c : Bool) → In d (if c then l else r ∷ l) → (d ≡ r) ⊎ In d l
      split true k = inr k
      split false k = k

  All-insert_step :
      (r : StepRef) (l : List StepRef)
      → All (IsRegistered f) l
      → IsRegistered f r
      → All (IsRegistered f) (insert_step r l)
  unfolding insert_step
  All-insert_step r l i j = elim (Bool-cases (contains_step l r)) [
    | inl e ↦ rw e i
    | inr e ↦ rw e (j, i)
  ]

  pub All-insert_all :
      (rs l : List StepRef)
      → All (IsRegistered f) l
      → All (IsRegistered f) rs
      → All (IsRegistered f) (insert_all rs l)
  unfolding insert_all
  All-insert_all [] l i j = i
  All-insert_all (r ∷ rs) l i j =
      All-insert_all rs (insert_step r l) (All-insert_step r l i j.0) j.1

  pub insert_all_kept : (rs l : List StepRef) (d : StepRef) → In d l → In d (insert_all rs l)
  unfolding insert_all
  insert_all_kept [] l d m = m
  insert_all_kept (r ∷ rs) l d m = insert_all_kept rs (insert_step r l) d (insert_step_kept r d l m)

  pub insert_all-In :
      (rs l : List StepRef) (d : StepRef)
      → All (IsRegistered f) l
      → All (IsRegistered f) rs
      → In d rs
      → In d (insert_all rs l)
  unfolding insert_all
  insert_all-In [] l d i j m = absurd m
  insert_all-In (r ∷ rs) l d i j (inl e) =
      insert_all_kept rs (insert_step r l) d
        (subst (λ x. In x (insert_step r l)) (sym e) (insert_step-In r l i j.0))
  insert_all-In (r ∷ rs) l d i j (inr m) =
      insert_all-In rs (insert_step r l) d (All-insert_step r l i j.0) j.1 m

  pub insert_all_from :
      (rs l : List StepRef) (d : StepRef) → In d (insert_all rs l) → In d rs ⊎ In d l
  unfolding insert_all
  insert_all_from [] l d m = inr m
  insert_all_from (r ∷ rs) l d m = elim (insert_all_from rs (insert_step r l) d m) [
    | inl k ↦ inl (inr k)
    | inr k ↦ elim (insert_step_from r d l k) [ inl e ↦ inl (inl e) | inr n ↦ inr n ]
  ]

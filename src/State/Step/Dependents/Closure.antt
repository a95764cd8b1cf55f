-- ===== src/State/Step/Dependents/Closure.antt =====
-- The sets that `get_dependents` returns are closed.
use hydra_queue_runner.Base.{
  zero, suc, ℕ, Bool-cases, ◌∙◌, sym, inl, inr, ◌≡◌, refl, subst, true, Option, some, List, [], ◌∷◌,
  ◌++◌, arith, Option-cases, All, All-append, some_inj,
}
use mathlib.Core.List.{append_assoc, append-nil}
use hydra_queue_runner.NixUtils.StorePath.{path_eq_iff}
use hydra_queue_runner.State.Heap.{
  Step, step_eq, StepRef, BuildRef, Heap, contains_step, contains_build, insert_build, build_eq,
}
use hydra_queue_runner.State.Step.{get_dependents, unfinished_builds, visit_rdeps}
use hydra_queue_runner.State.Step.Dependents.{Found, BuildFound, StepFound, Covered}

contains_build-append :
    (xs ys : List BuildRef) (b : BuildRef)
    → contains_build ys b ≡ true
    → contains_build (xs ++ ys) b ≡ true
unfolding contains_build
contains_build-append [] ys b h = h
contains_build-append (x ∷ xs) ys b h = ground (arith, contains_build-append xs ys b h)

contains_step-append :
    (xs ys : List StepRef) (b : StepRef)
    → contains_step ys b ≡ true
    → contains_step (xs ++ ys) b ≡ true
unfolding contains_step
contains_step-append [] ys b h = h
contains_step-append (x ∷ xs) ys b h = ground (arith, contains_step-append xs ys b h)

-- The later sets extend the earlier ones, and owe nothing for the steps that are new.
pub record Extends (h : Heap) (from to : Found) : Type 0 where
  pub builds : (b : BuildRef) → contains_build from.0 b ≡ true → contains_build to.0 b ≡ true
  pub fresh : List StepRef
  pub grown : to.1 ≡ fresh ++ from.1
  pub covered : All (Covered h to) fresh

steps-Extends :
    (h : Heap) (from to : Found)
    → Extends h from to
    → (d : StepRef) → contains_step from.1 d ≡ true
    → contains_step to.1 d ≡ true
steps-Extends h from to e d c = rw e.grown (contains_step-append e.fresh from.1 d c)

Extends-refl : (h : Heap) (a : Found) → Extends h a a
Extends-refl h a = record { builds = λ b c. c; fresh = []; grown = refl; covered = tt }

BuildFound-mono :
    (h : Heap) (xs ys : List BuildRef)
    → ((b : BuildRef) → contains_build xs b ≡ true → contains_build ys b ≡ true)
    → (bs : List BuildRef) → All (BuildFound h xs) bs
    → All (BuildFound h ys) bs
BuildFound-mono h xs ys m [] a = tt
BuildFound-mono h xs ys m (b ∷ bs) a = (λ x e u. m b (a.0 x e u), BuildFound-mono h xs ys m bs a.1)

StepFound-mono :
    (h : Heap) (xs ys : List StepRef)
    → ((d : StepRef) → contains_step xs d ≡ true → contains_step ys d ≡ true)
    → (ds : List StepRef) → All (StepFound h xs) ds
    → All (StepFound h ys) ds
StepFound-mono h xs ys m [] a = tt
StepFound-mono h xs ys m (d ∷ ds) a = (λ s e. m d (a.0 s e), StepFound-mono h xs ys m ds a.1)

Covered-mono :
    (h : Heap) (from to : Found)
    → Extends h from to
    → (rs : List StepRef) → All (Covered h from) rs
    → All (Covered h to) rs
Covered-mono h from to e [] a = tt
Covered-mono h from to e (r ∷ rs) a = (
  λ s c. (
    BuildFound-mono h from.0 to.0 e.builds s.state.builds (a.0 s c).0,
    StepFound-mono h from.1 to.1 (steps-Extends h from to e) s.state.rdeps (a.0 s c).1,
  ),
  Covered-mono h from to e rs a.1,
)

Extends-trans : (h : Heap) (a b c : Found) → Extends h a b → Extends h b c → Extends h a c
Extends-trans h a b c e f = record {
  builds = λ x m. f.builds x (e.builds x m);
  fresh = f.fresh ++ e.fresh;
  grown = ground (arith, append_assoc f.fresh e.fresh a.1);
  covered =
      All-append (Covered h c) f.fresh e.fresh f.covered (Covered-mono h b c f e.fresh e.covered);
}

insert_build-found :
    (b : BuildRef) (bs : List BuildRef) → contains_build (insert_build b bs) b ≡ true
unfolding insert_build contains_build build_eq
insert_build-found b bs = ground (arith, path_eq_iff b.drv_path b.drv_path)

insert_build-keeps :
    (b c : BuildRef) (bs : List BuildRef)
    → contains_build bs c ≡ true
    → contains_build (insert_build b bs) c ≡ true
unfolding insert_build contains_build
insert_build-keeps b c bs h = ground arith

-- The builds of one step are all found.
unfinished_builds-keeps :
    (h : Heap) (bs builds : List BuildRef) (c : BuildRef)
    → contains_build builds c ≡ true
    → contains_build (unfinished_builds h bs builds) c ≡ true
unfolding unfinished_builds
unfinished_builds-keeps h [] builds c m = m
unfinished_builds-keeps h (b ∷ bs) builds c m =
    unfinished_builds-keeps h bs _ c (ground (arith, insert_build-keeps b c builds))

unfinished_builds-found :
    (h : Heap) (bs builds : List BuildRef) → All (BuildFound h (unfinished_builds h bs builds)) bs
unfolding unfinished_builds
unfinished_builds-found h [] builds = tt
unfinished_builds-found h (b ∷ bs) builds = (
  λ x e u. unfinished_builds-keeps h bs _ b (ground (arith, insert_build-found b builds)),
  unfinished_builds-found h bs _,
)

abbrev pub Visits : Heap → (StepRef → Found → Option Found) → Type 0
Visits h visit =
    (r : StepRef) (acc to : Found)
    → visit r acc ≡ some to
    → (contains_step to.1 r ≡ true) × Extends h acc to

-- The loop over the reverse dependencies finds each live one, if the call that it makes does.
visit_rdeps-found :
    (h : Heap) (visit : StepRef → Found → Option Found)
    → Visits h visit
    → (rs : List StepRef) (acc to : Found) → visit_rdeps visit h rs acc ≡ some to
    → All (StepFound h to.1) rs × Extends h acc to
unfolding visit_rdeps
visit_rdeps-found h visit v [] acc to e =
    (tt, subst (Extends h acc) (some_inj acc to e) (Extends-refl h acc))
visit_rdeps-found h visit v (r ∷ rs) acc to e = elim (Option-cases (h.step r.addr)) [
  | inl gone ↦
      let (found, ext) = visit_rdeps-found h visit v rs acc to (ground arith) in
      (((λ s c. cc), found), ext)
  | inr (s, live) ↦ elim (Option-cases (visit r acc)) [
    | inl out ↦ cc (rw (live, visit_rdeps, out) at e)
    | inr (mid, done) ↦
        let (seen, first) = v r acc mid done in
        let (found, ext) = visit_rdeps-found h visit v rs mid to (ground arith) in
        (((λ t c. steps-Extends h mid to ext r seen), found), Extends-trans h acc mid to first ext)
  ]
]

contains_step-head : (r : StepRef) (steps : List StepRef) → contains_step (r ∷ steps) r ≡ true
unfolding contains_step step_eq
contains_step-head r steps = ground (arith, path_eq_iff r.drv_path r.drv_path)

-- A step that is entered joins the set, with what it owes found later.
enter-Extends :
    (h : Heap) (r : StepRef) (builds later : List BuildRef) (steps : List StepRef) (to : Found)
    → ((b : BuildRef) → contains_build builds b ≡ true → contains_build later b ≡ true)
    → Extends h (later, r ∷ steps) to
    → Covered h to r
    → (contains_step to.1 r ≡ true) × Extends h (builds, steps) to
enter-Extends h r builds later steps to m ext cov = (
  steps-Extends h (later, r ∷ steps) to ext r (contains_step-head r steps),
  record {
    builds = λ b c. ext.builds b (m b c);
    fresh = ext.fresh ++ r ∷ [];
    grown = ground (arith, ext.grown, append_assoc ext.fresh (r ∷ []) steps);
    covered = All-append (Covered h to) ext.fresh (r ∷ []) ext.covered (cov, tt);
  },
)

pub searched-found : (h : Heap) (fuel : ℕ) → Visits h (get_dependents fuel h)
unfolding get_dependents
searched-found h zero r acc to e = cc
searched-found h (suc fuel) r (builds, steps) to e = elim (Bool-cases (contains_step steps r)) [
  | inl seen ↦
      let done = some_inj (builds, steps) to (ground arith) in
      (
        subst (λ (t : Found). contains_step t.1 r ≡ true) done seen,
        subst (Extends h (builds, steps)) done (Extends-refl h (builds, steps)),
      )
  | inr new ↦ elim (Option-cases (h.step r.addr)) [
    | inl gone ↦
        enter-Extends h r builds builds steps to (λ b c. c)
          (subst (Extends h (builds, r ∷ steps)) (some_inj (builds, r ∷ steps) to (ground arith))
            (Extends-refl h (builds, r ∷ steps)))
          (λ s c. cc)
    | inr (s, live) ↦
        let start : Found = (unfinished_builds h s.state.builds builds, r ∷ steps) in
        let (found, ext) =
          visit_rdeps-found h (get_dependents fuel h) (searched-found h fuel) s.state.rdeps start to
            (ground arith) in
        enter-Extends h r builds start.0 steps to (unfinished_builds-keeps h s.state.builds builds)
          ext
          (λ t c.
            subst
              (λ (u : Step).
                All (BuildFound h to.0) u.state.builds × All (StepFound h to.1) u.state.rdeps)
              (some_inj s t (cc (live, c)))
              (
                BuildFound-mono h start.0 to.0 ext.builds s.state.builds
                    (unfinished_builds-found h s.state.builds builds),
                found,
              ))
  ]
]

-- The search from a step, started with empty sets: whatever fuel it was given, the sets that it
-- returns hold the step itself, and for every step in them its unfinished live builds and its live
-- reverse dependencies. Membership is by derivation path, as the source compares.
pub get_dependents-closed :
    (fuel : ℕ) (h : Heap) (r : StepRef) (found : Found)
    → get_dependents fuel h r ([], []) ≡ some found
    → (contains_step found.1 r ≡ true) × All (Covered h found) found.1
get_dependents-closed fuel h r found e =
    let (seen, ext) = searched-found h fuel r ([], []) found e in
    (seen, subst (All (Covered h found)) (sym (ext.grown ∙ append-nil ext.fresh)) ext.covered)

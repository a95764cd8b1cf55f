-- ===== src/State/Runner/Recorded.antt =====
-- What the memory of the runner says about finished builds, and what the database has been told.
pub mod Marks
pub mod Steps
pub mod Failed
use hydra_queue_runner.State.Runner.{ok, err, out_of_fuel, Outcome, Statement, Runner, set_heap}
use hydra_queue_runner.Base.{
  ◌||◌, ◌++◌, ℕ, zero, suc, ◌+◌, ◌-◌, ◌*◌, ◌/◌, ◌%◌, ◌^◌, ◌≤◌, ◌<◌, min, max, compare, Ordering,
  ◌≡◌, refl, sym, ap, subst, ◌∙◌, ◌≡⟨◌⟩◌, ◌∎, ◌≢◌, ◌↔◌, ◌⊎◌, inl, inr, Bool, true, false, not, ◌&&◌,
  ◌||◌, Option, none, some, List, [], ◌∷◌, ◌++◌, map, flat_map, arith, ltb, leb, ◌==◌,
  if◌then◌else◌, is_some, unwrap_or, ltb→lt, ==_iff, Bool-cases, Option-cases, length,
  length-append, take, drop, take-append-drop, length-take, retain, any, all, find, count_if, All,
  length-retain, All-append, In, any-append, some_inj, find-test, All-retain,
}
use hydra_queue_runner.State.Statement.{
  Statement, mark_succeeded_build, update_build_after_failure, update_build_after_previous_failure,
  abort_build,
}
use hydra_queue_runner.State.Heap.{BuildRef, Build, modify_build, set_build}
use hydra_queue_runner.State.Build.{set_finished_in_db, remove_by_id}
use hydra_queue_runner.State.Runner.Finish.{close_build, close_builds}
use hydra_queue_runner.State.Runner.Hoare.{Framing}

-- The statement tells the database that the build is finished.
unfoldable pub finishes : ℕ → Statement → Bool
finishes id (mark_succeeded_build d _ _ _) = d.id == id
finishes id (update_build_after_failure i _ _ _ _) = i == id
finishes id (update_build_after_previous_failure i _) = i == id
finishes id (abort_build i) = i == id
finishes id _ = false

unfoldable pub is_recorded : List Statement → ℕ → Bool
unfolding finishes
is_recorded db id = any (finishes id) db

-- Whatever build is marked as finished in memory, the database has been told so.
abbrev pub IsRecorded : Runner → Type 0
IsRecorded r =
    (a : ℕ) (x : Build)
    → r.steps.heap.build a ≡ some x
    → x.finished_in_db ≡ true
    → is_recorded r.db x.id ≡ true

pub is_recorded-append :
    (xs ys : List Statement) (id : ℕ)
    → is_recorded (xs ++ ys) id ≡ (is_recorded xs id || is_recorded ys id)
unfolding is_recorded
is_recorded-append xs ys id = any-append (finishes id) xs ys

pub recorded_grows :
    (xs ys : List Statement) (id : ℕ) → is_recorded xs id ≡ true → is_recorded (xs ++ ys) id ≡ true
recorded_grows xs ys id h = ground (arith, is_recorded-append xs ys id)

-- The builds stay as they are, and nothing that has been recorded is lost.
pub record Frame (from to : Runner) : Type 0 where
  pub same : to.steps.heap.build ≡ from.steps.heap.build
  pub grows : (id : ℕ) → is_recorded from.db id ≡ true → is_recorded to.db id ≡ true

instance abbrev pub Frame_Framing : Framing Frame
Frame_Framing = record {
  same = λ r. record { same = refl; grows = λ id h. h };
  trans = λ r s t f g. record { same = g.same ∙ f.same; grows = λ id h. g.grows id (f.grows id h) };
  open_tx = λ r tx. record { same = refl; grows = λ id h. h };
  grow = λ r more tx. record { same = refl; grows = λ id h. recorded_grows r.db more id h };
}

pub Frame-IsRecorded : (r s : Runner) → Frame r s → IsRecorded r → IsRecorded s
Frame-IsRecorded r s f h a x e d = f.grows x.id (h a x (sym (ap (λ g. g a) f.same) ∙ e) d)

-- The build behind a reference, if it is live, has been recorded.
abbrev pub RecordedAt : Runner → BuildRef → Type 0
RecordedAt r b = (x : Build) → r.steps.heap.build b.addr ≡ some x → is_recorded r.db x.id ≡ true

-- Closing a build changes at most its mark.
close_build-same :
    (b : BuildRef) (r : Runner) (a : ℕ) (x' : Build)
    → (close_build b r).steps.heap.build a ≡ some x'
    → (x : Build) × (r.steps.heap.build a ≡ some x)
      × (x'.id ≡ x.id)
      × ((b.addr ≡ a) ⊎ (x'.finished_in_db ≡ x.finished_in_db))
unfolding close_build modify_build set_build set_heap set_finished_in_db
close_build-same b r a x' e = elim (Option-cases (r.steps.heap.build b.addr)) [
  | inl gone ↦ (x', ground (arith, gone), refl, inr refl)
  | inr (x, live) ↦ elim (Bool-cases (b.addr == a)) [
    | inl here ↦
        let at = (==_iff b.addr a).0 here in
        (
          x,
          subst (λ c. r.steps.heap.build c ≡ some x) at live,
          ap (λ (y : Build). y.id)
              (sym (some_inj (record x { finished_in_db = true }) x' (ground (arith, live, here)))),
          inl at,
        )
    | inr other ↦ (x', ground (arith, live, other), refl, inr refl)
  ]
]

close_build-db : (b : BuildRef) (r : Runner) → (close_build b r).db ≡ r.db
unfolding close_build set_heap
close_build-db b r = refl

pub close_builds-IsRecorded :
    (bs : List BuildRef) (r : Runner)
    → IsRecorded r
    → All (RecordedAt r) bs
    → IsRecorded (close_builds bs r)
unfolding close_builds
close_builds-IsRecorded [] r h a = h
close_builds-IsRecorded (b ∷ bs) r h (at, rest) =
    close_builds-IsRecorded bs (close_build b r) kept (moved bs rest)
  where
    known :
        (a : ℕ) (x' x : Build)
        → r.steps.heap.build a ≡ some x
        → x'.id ≡ x.id
        → is_recorded r.db x.id ≡ true
        → is_recorded (close_build b r).db x'.id ≡ true
    known a x' x e i k = rw (close_build-db b r) (subst (λ n. is_recorded r.db n ≡ true) (sym i) k)

    kept : IsRecorded (close_build b r)
    kept a x' e d =
        let (x, old, i, c) = close_build-same b r a x' e in
        elim c [
          | inl here ↦
              known a x' x old i (at x (subst (λ n. r.steps.heap.build n ≡ some x) (sym here) old))
          | inr same ↦ known a x' x old i (h a x old (sym same ∙ d))
        ]

    moved : (cs : List BuildRef) → All (RecordedAt r) cs → All (RecordedAt (close_build b r)) cs
    moved [] a = tt
    moved (c ∷ cs) a = (
      λ x' e.
          let (x, old, i, _) = close_build-same b r c.addr x' e in
          known c.addr x' x old i (a.0 x old),
      moved cs a.1,
    )

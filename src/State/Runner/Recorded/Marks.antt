-- ===== src/State/Runner/Recorded/Marks.antt =====
-- A transaction that tells the database of finished builds.
use hydra_queue_runner.State.Runner.{
  ◌>>=◌, ◌>>◌, Outcome, Runner, Statement, execute, build_done, modify, pure, update_metrics, Env,
  Action, commit,
}
use hydra_queue_runner.Base.{
  ℕ, ◌≡◌, refl, sym, ap, subst, ◌∙◌, inl, inr, true, ◌||◌, some, List, [], ◌∷◌, ◌++◌, arith,
  Bool-cases, Option-cases, All, some_inj,
}
use hydra_queue_runner.State.Statement.{Statement}
use hydra_queue_runner.State.Heap.{BuildRef, Build}
use hydra_queue_runner.State.Runner.Finish.{each_build, at_build, close_builds}
use hydra_queue_runner.State.Runner.Recorded.{
  is_recorded, Frame, Frame_Framing, is_recorded-append, finishes, IsRecorded, Frame-IsRecorded,
  close_builds-IsRecorded, RecordedAt,
}
use hydra_queue_runner.State.Runner.Hoare.{Ends, bind-Ends, weaken-Ends}

-- Recorded, once the open transaction is committed.
abbrev pub Known : Runner → ℕ → Type 0
Known r id = is_recorded (r.db ++ r.tx) id ≡ true

-- The states before and after a part of a transaction.
pub record Inside (from to : Runner) : Type 0 where
  pub frame : Frame from to
  pub keeps : (id : ℕ) → Known from id → Known to id

pub Inside-refl : (r : Runner) → Inside r r
Inside-refl r = record { frame = record { same = refl; grows = λ id h. h }; keeps = λ id h. h }

pub Inside-trans : (r s t : Runner) → Inside r s → Inside s t → Inside r t
Inside-trans r s t f g = record {
  frame = Frame_Framing.trans r s t f.frame g.frame;
  keeps = λ id h. g.keeps id (f.keeps id h);
}

-- A part of a transaction after which the build is known to be finished.
abbrev pub Tells : ℕ → Runner → Outcome (Unit {0}) → Type 0
Tells id r = Ends (λ _ s. Inside r s × Known s id) (Inside r)

append_assoc_db :
    (xs ys zs : List Statement) (id : ℕ)
    → is_recorded (xs ++ (ys ++ zs)) id ≡ (is_recorded (xs ++ ys) id || is_recorded zs id)
append_assoc_db xs ys zs id = ground (
  arith,
  is_recorded-append xs ys id,
  is_recorded-append ys zs id,
  is_recorded-append xs (ys ++ zs) id,
)

pub execute-Inside :
    (env : Env) (s : Statement) (r : Runner) → Ends (λ _ t. Inside r t) (Inside r) (execute env s r)
unfolding execute
execute-Inside env s r = elim (Bool-cases (env.accepts r.db r.tx s)) [
  | inl c ↦ rw c (record {
    frame = record { same = refl; grows = λ i h. h };
    keeps = λ i h. ground (arith, append_assoc_db r.db r.tx (s ∷ []) i);
  })
  | inr c ↦ rw c (Inside-refl r)
]

pub execute-Tells :
    (env : Env) (s : Statement) (id : ℕ) (r : Runner)
    → finishes id s ≡ true
    → Tells id r (execute env s r)
unfolding execute is_recorded
execute-Tells env s id r f = elim (Bool-cases (env.accepts r.db r.tx s)) [
  | inl c ↦ rw c (
    record {
      frame = record { same = refl; grows = λ i h. h };
      keeps = λ i h. ground (arith, append_assoc_db r.db r.tx (s ∷ []) i);
    },
    ground (arith, append_assoc_db r.db r.tx (s ∷ []) id),
  )
  | inr c ↦ rw c (Inside-refl r)
]

pub build_done-Inside : (r : Runner) → Inside r (build_done r)
unfolding build_done update_metrics
build_done-Inside r = record { frame = record { same = refl; grows = λ i h. h }; keeps = λ i h. h }

-- A statement and the count of one more build that is done.
pub tell_done-Tells :
    (env : Env) (s : Statement) (id : ℕ) (r : Runner)
    → finishes id s ≡ true
    → Tells id r ((execute env s >> modify build_done) r)
unfolding modify
tell_done-Tells env s id r f =
    bind-Ends (λ _ t. Inside r t × Known t id) (λ _ t. Inside r t × Known t id) (Inside r)
      (execute env s) (λ _. modify build_done) r (execute-Tells env s id r f)
      λ _ t h. (
        Inside-trans r t (build_done t) h.0 (build_done-Inside t),
        (build_done-Inside t).keeps id h.1,
      )

abbrev pub KnownAt : Runner → BuildRef → Type 0
KnownAt r b = (x : Build) → r.steps.heap.build b.addr ≡ some x → Known r x.id

pub KnownAt-moved :
    (r s : Runner) (bs : List BuildRef) → Inside r s → All (KnownAt r) bs → All (KnownAt s) bs
KnownAt-moved r s [] i a = tt
KnownAt-moved r s (b ∷ bs) i a = (
  λ x e. i.keeps x.id (a.0 x (sym (ap (λ g. g b.addr) i.frame.same) ∙ e)),
  KnownAt-moved r s bs i a.1,
)

abbrev pub TellsAll : List BuildRef → Runner → Outcome (Unit {0}) → Type 0
TellsAll bs r = Ends (λ _ s. Inside r s × All (KnownAt s) bs) (Inside r)

-- One round of a loop over references, at a build that is there or not.
at_build-TellsAll :
    (f : Build → Action (Unit {0})) (b : BuildRef) (r : Runner)
    → ((x : Build) → r.steps.heap.build b.addr ≡ some x → Tells x.id r (f x r))
    → TellsAll (b ∷ []) r (at_build f b r)
unfolding at_build
at_build-TellsAll f b r h = elim (Option-cases (r.steps.heap.build b.addr)) [
  | inl gone ↦ rw (gone, at_build) (Inside-refl r, ((λ x e. cc), tt))
  | inr (x, live) ↦
      rw (live, at_build)
        (weaken-Ends (λ _ s. Inside r s × Known s x.id)
          (λ _ s. Inside r s × All (KnownAt s) (b ∷ [])) (Inside r) (Inside r) (f x r)
          (λ _ s k. (
            k.0,
            (
              λ y e.
                  subst (λ (z : Build). Known s z.id)
                    (some_inj x y (sym live ∙ (sym (ap (λ g. g b.addr) k.0.frame.same) ∙ e))) k.1,
              tt,
            ),
          ))
          (λ s k. k) (h x live))
]

-- A loop whose body tells of every build that it meets.
pub each_build-TellsAll :
    (f : Build → Action (Unit {0}))
    → ((x : Build) (a : ℕ) (r : Runner)
        → IsRecorded r
        → r.steps.heap.build a ≡ some x
        → Tells x.id r (f x r))
    → (bs : List BuildRef) (r : Runner) → IsRecorded r
    → TellsAll bs r (each_build f bs r)
unfolding each_build pure
each_build-TellsAll f h [] r rec = (Inside-refl r, tt)
each_build-TellsAll f h (b ∷ bs) r rec =
    bind-Ends (λ _ s. Inside r s × All (KnownAt s) (b ∷ []))
      (λ _ s. Inside r s × All (KnownAt s) (b ∷ bs)) (Inside r) (at_build f b)
      (λ _. each_build f bs) r (at_build-TellsAll f b r (λ x e. h x b.addr r rec e))
      λ _ s k.
        weaken-Ends (λ _ t. Inside s t × All (KnownAt t) bs)
          (λ _ t. Inside r t × All (KnownAt t) (b ∷ bs)) (Inside s) (Inside r) (each_build f bs s)
          (λ _ t l. (Inside-trans r s t k.0 l.0, ((KnownAt-moved s t (b ∷ []) l.0 k.1).0, l.1)))
          (λ t l. Inside-trans r s t k.0 l)
          (each_build-TellsAll f h bs s (Frame-IsRecorded r s k.0.frame rec))

pub commit-Recorded :
    (env : Env) (r : Runner)
    → Ends
        (λ _ s. Frame r s × ((id : ℕ) → Known r id → is_recorded s.db id ≡ true))
        (Frame r)
        (commit env r)
unfolding commit
commit-Recorded env r = elim (Bool-cases (env.commits r.db r.tx)) [
  | inr refused ↦ rw refused (Frame_Framing.same r)
  | inl agreed ↦ rw agreed (Frame_Framing.grow r r.tx [], λ id k. k)
]

pub KnownAt-RecordedAt :
    (r s : Runner)
    → Frame r s
    → ((id : ℕ) → Known r id → is_recorded s.db id ≡ true)
    → (bs : List BuildRef) → All (KnownAt r) bs
    → All (RecordedAt s) bs
KnownAt-RecordedAt r s f h [] a = tt
KnownAt-RecordedAt r s f h (c ∷ cs) a =
    (λ x e. h x.id (a.0 x (sym (ap (λ g. g c.addr) f.same) ∙ e)), KnownAt-RecordedAt r s f h cs a.1)

-- The commit of a transaction, the marks in memory that follow it, and the rest of the operation.
pub commit_close-Recorded :
    {B : Type 0} (env : Env) (bs : List BuildRef) (k : Action B) (r : Runner)
    → IsRecorded r
    → All (KnownAt r) bs
    → ((s : Runner) → IsRecorded s → Ends (λ _. IsRecorded) IsRecorded (k s))
    → Ends
        (λ _. IsRecorded)
        IsRecorded
        ((commit env >>= λ _. modify (close_builds bs) >>= λ _. k) r)
unfolding modify
commit_close-Recorded env bs k r rec known rest =
    bind-Ends (λ _ s. Frame r s × ((id : ℕ) → Known r id → is_recorded s.db id ≡ true))
      (λ _. IsRecorded) IsRecorded (commit env) (λ _. modify (close_builds bs) >>= λ _. k) r
      (weaken-Ends _ _ (Frame r) IsRecorded (commit env r) (λ _ s h. h)
        (λ s f. Frame-IsRecorded r s f rec) (commit-Recorded env r))
      λ _ s h.
        bind-Ends (λ _. IsRecorded) (λ _. IsRecorded) IsRecorded (modify (close_builds bs)) (λ _. k)
          s
          (close_builds-IsRecorded bs s (Frame-IsRecorded r s h.0 rec)
            (KnownAt-RecordedAt r s h.0 h.1 bs known))
          λ _. rest

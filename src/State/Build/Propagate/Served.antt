-- ===== src/State/Build/Propagate/Served.antt =====
-- One round of `propagate_priorities`, and what it leaves alone.
use hydra_queue_runner.Base.{
  ℕ, zero, suc, ◌≡◌, refl, sym, ap, subst, ◌∙◌, ◌⊎◌, inl, inr, true, not, Option, none, some, List,
  [], ◌∷◌, ◌++◌, arith, ◌==◌, if◌then◌else◌, ==_iff, Bool-cases, Option-cases, retain, In, some_inj,
}
use hydra_queue_runner.State.Heap.{StepRef, Step, Build, Heap, set_step, contains_step}
use hydra_queue_runner.State.Step.{get_all_deps_not_queued}
use hydra_queue_runner.State.Build.{raise_step, insert_all, propagate}
use hydra_queue_runner.State.Build.Raised.{
  Raised, Raised-refl, Raised-trans, IsServed, raise_step-Raised,
}

pub get-set :
    (h : Heap) (a b : ℕ) (s : Step)
    → (set_step h a s).step b ≡ (if a == b then some s else h.step b)
unfolding set_step
get-set h a b s = refl

-- What happens to the cell of a step: it stays empty, or its step is raised.
abbrev pub Grown : Option Step → Option Step → Type 0
Grown none o = o ≡ none
Grown (some s) o = (t : Step) × (o ≡ some t) × Raised s t

Grown-refl : (o : Option Step) → Grown o o
Grown-refl none = refl
Grown-refl (some s) = (s, refl, Raised-refl s)

Grown-trans : (o p q : Option Step) → Grown o p → Grown p q → Grown o q
Grown-trans none p q g k = subst (λ x. Grown x q) g k
Grown-trans (some s) p q (t, e, raised) k =
    let (u, e', more) = subst (λ x. Grown x q) e k in (u, e', Raised-trans s t u raised more)

set-Grown :
    (h : Heap) (a : ℕ) (s t : Step)
    → h.step a ≡ some s
    → Raised s t
    → (c : ℕ) → Grown (h.step c) ((set_step h a t).step c)
unfolding set_step
set-Grown h a s t e raised c = elim (Bool-cases (a == c)) [
  | inl same ↦
      rw same
        (subst (λ o. Grown o (some t)) (sym e ∙ ap h.step ((==_iff a c).0 same)) (t, refl, raised))
  | inr other ↦ rw other (Grown-refl (h.step c))
]

-- The new dependencies of a step that the loop has raised.
abbrev pub new_deps : List StepRef → Build → Step → List StepRef
new_deps queued b s = get_all_deps_not_queued queued (raise_step b s)

pub propagate_live :
    (fuel : ℕ) (b : Build) (queued todo : List StepRef) (r : StepRef) (h : Heap) (s : Step)
    → h.step r.addr ≡ some s
    → propagate (suc fuel) b queued (r ∷ todo) h
      ≡ propagate fuel b
          (insert_all (new_deps queued b s) queued)
          (todo ++ new_deps queued b s)
          (set_step h r.addr (raise_step b s))
unfolding propagate
propagate_live fuel b queued todo r h s e = rw (e, propagate) refl

pub propagate_dead :
    (fuel : ℕ) (b : Build) (queued todo : List StepRef) (r : StepRef) (h : Heap)
    → h.step r.addr ≡ none
    → propagate (suc fuel) b queued (r ∷ todo) h ≡ propagate fuel b queued todo h
unfolding propagate
propagate_dead fuel b queued todo r h e = rw (e, propagate) refl

-- The loop raises steps and does nothing else to their cells.
pub propagate-Grown :
    (fuel : ℕ) (b : Build) (queued todo : List StepRef) (h to : Heap)
    → propagate fuel b queued todo h ≡ some to
    → (a : ℕ) → Grown (h.step a) (to.step a)
unfolding propagate
propagate-Grown fuel b queued [] h to e a =
    subst (λ (x : Heap). Grown (h.step a) (x.step a)) (some_inj h to e) (Grown-refl (h.step a))
propagate-Grown zero b queued (r ∷ todo) h to e a = absurd (ground arith)
propagate-Grown (suc fuel) b queued (r ∷ todo) h to e a = elim (Option-cases (h.step r.addr)) [
  | inl gone ↦
      propagate-Grown fuel b queued todo h to (sym (propagate_dead fuel b queued todo r h gone) ∙ e)
        a
  | inr (s, live) ↦
      let h' = set_step h r.addr (raise_step b s) in
      Grown-trans (h.step a) (h'.step a) (to.step a)
        (set-Grown h r.addr s (raise_step b s) live (raise_step-Raised b s) a)
        (propagate-Grown fuel b (insert_all (new_deps queued b s) queued)
          (todo ++ new_deps queued b s) h' to
          (sym (propagate_live fuel b queued todo r h s live) ∙ e) a)
]

-- What the loop owes for a step that it has taken from its queue: it carries the priorities of the
-- build, and its dependencies are in a list.
abbrev pub IsDone : Build → Heap → List StepRef → StepRef → Type 0
IsDone b h l r =
    (s : Step)
    → h.step r.addr ≡ some s
    → IsServed b s × ((d : StepRef) → In d s.state.deps → In d l)

pub retain-In :
    (queued l : List StepRef) (d : StepRef)
    → In d l
    → (contains_step queued d ≡ true) ⊎ In d (retain (λ dep. not (contains_step queued dep)) l)
retain-In queued [] d m = absurd m
retain-In queued (x ∷ l) d (inl e) = elim (Bool-cases (contains_step queued x)) [
  | inl seen ↦ inl (subst (λ y. contains_step queued y ≡ true) (sym e) seen)
  | inr new ↦ inr (rw new (inl e))
]
retain-In queued (x ∷ l) d (inr m) = elim (Bool-cases (contains_step queued x)) [
  | inl seen ↦ rw seen (retain-In queued l d m)
  | inr new ↦ elim (retain-In queued l d m) [ inl e ↦ inl e | inr k ↦ inr (rw new (inr k)) ]
]

pub In-append_left : (l m : List StepRef) (d : StepRef) → In d l → In d (l ++ m)
In-append_left [] m d k = absurd k
In-append_left (x ∷ l) m d (inl e) = inl e
In-append_left (x ∷ l) m d (inr k) = inr (In-append_left l m d k)

pub In-append_right : (l m : List StepRef) (d : StepRef) → In d m → In d (l ++ m)
In-append_right [] m d k = k
In-append_right (x ∷ l) m d k = inr (In-append_right l m d k)

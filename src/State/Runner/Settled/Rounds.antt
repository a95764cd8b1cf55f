-- ===== src/State/Runner/Settled/Rounds.antt =====
-- How many rounds the loop of `inner_fail_job` takes: each but the first and the last finishes a build.
use hydra_queue_runner.State.Runner.{
  Heap, StorePath, Runner, set_heap, Env, pure, modify, Text, Action, ◌>>=◌, trigger_dispatch, ◌>>◌,
}
use hydra_queue_runner.State.Runner.Settled.{
  SameHeap_Framing, close_builds, get_all_indirect_builds, fail_rounds, is_out, Looked,
  get_dependents, SameHeap, Job, fail_builds-SameHeap, get_all_indirect_builds-Looked,
  close_builds-step,
}
use hydra_queue_runner.State.Runner.Hoare.{modify-Moves}
use hydra_queue_runner.Base.{
  ℕ, ◌≤◌, ◌<◌, ◌≡◌, refl, sym, ap, ◌∙◌, inl, inr, Bool, true, false, not, none, some, List, [], ◌∷◌,
  arith, ◌==◌, if◌then◌else◌, ==_iff, Option-cases, length, any, count_if, In, ◌+◌, subst, Option,
  suc, ◌++◌, map, zero,
}
use hydra_queue_runner.State.Heap.{Heap, modify_build, BuildRef, StepRef, set_build, Build, Step}
use hydra_queue_runner.State.Runner.Finish.{close_build, close_builds, finish_build_step}
use hydra_queue_runner.State.Step.Dependents.Fuel.{missing, Within, path_in, get_dependents_total}
use hydra_queue_runner.NixUtils.StorePath.{StorePath}
use hydra_queue_runner.State.Build.{set_finished_in_db}
use hydra_queue_runner.State.Runner.Fail.{
  get_all_indirect_builds, fail_rounds, is_done, fail_builds, inner_fail_job, notify_failed,
  with_stop_time,
}
use hydra_queue_runner.State.Runner.Hoare.{
  is_out, bind-is_out, Ends, Moves, if-Moves, pure-Moves, finish_build_step-Moves, bind-Moves,
  begin_transaction-Moves, execute-Moves, commit-Moves,
}
use hydra_queue_runner.State.Step.{get_dependents}
use hydra_queue_runner.State.Step.Dependents.Reached.{get_dependents-IsDependent}
use hydra_queue_runner.Base.Text.{Text}
use hydra_queue_runner.State.Machine.{Job}
use Prim.Native.Nat.{zero}

unfoldable pub unfinished_at : Heap → ℕ → Bool
unfinished_at h a = elim (h.build a) [ none ↦ false | some x ↦ not x.finished_in_db ]

-- The unfinished builds at the addresses of a list.
unfoldable pub count_unfinished : Heap → List ℕ → ℕ
unfolding unfinished_at
count_unfinished h addrs = count_if (unfinished_at h) addrs

-- The list of paths holds those of all reverse dependencies and of the root, the list of addresses
-- those of the builds of all steps.
pub record IsBounded (h : Heap) (paths : List StorePath) (addrs : List ℕ) (root : StepRef)
    : Type 0 where
  pub within : Within h paths
  pub root_in : path_in paths root.drv_path ≡ true
  pub builds_in :
      (a : ℕ) (s : Step)
      → h.step a ≡ some s
      → (b : BuildRef) → In b s.state.builds
      → any (λ c. c == b.addr) addrs ≡ true

close_build-unfinished_at :
    (b : BuildRef) (r : Runner) (a : ℕ)
    → unfinished_at (close_build b r).steps.heap a
      ≡ (if b.addr == a then false else unfinished_at r.steps.heap a)
unfolding close_build modify_build set_build set_heap set_finished_in_db unfinished_at
close_build-unfinished_at b r a = elim (Option-cases (r.steps.heap.build b.addr)) [
  | inl gone ↦ ground (arith, gone, ==_iff b.addr a)
  | inr (x, live) ↦ ground (arith, live)
]

count-le :
    (p q : ℕ → Bool) (t : ℕ)
    → ((a : ℕ) → q a ≡ (if t == a then false else p a))
    → (addrs : List ℕ) → count_if q addrs ≤ count_if p addrs
count-le p q t h [] = omega arith
count-le p q t h (a ∷ addrs) = ground (arith, h a, count-le p q t h addrs)

count-lt :
    (p q : ℕ → Bool) (t : ℕ)
    → ((a : ℕ) → q a ≡ (if t == a then false else p a))
    → p t ≡ true
    → (addrs : List ℕ) → any (λ c. c == t) addrs ≡ true
    → count_if q addrs < count_if p addrs
count-lt p q t h yes_t [] m = cc
count-lt p q t h yes_t (a ∷ addrs) m =
    ground
      (arith, h a, ==_iff a t, ==_iff t a, count-le p q t h addrs, count-lt p q t h yes_t addrs)

close_builds-le :
    (bs : List BuildRef) (r : Runner) (addrs : List ℕ)
    → count_unfinished (close_builds bs r).steps.heap addrs ≤ count_unfinished r.steps.heap addrs
unfolding close_builds count_unfinished
close_builds-le [] r addrs = omega arith
close_builds-le (b ∷ bs) r addrs = omega (
  arith,
  close_builds-le bs (close_build b r) addrs,
  count-le (unfinished_at r.steps.heap) (unfinished_at (close_build b r).steps.heap) b.addr
      (close_build-unfinished_at b r) addrs,
)

close_builds-lt :
    (b : BuildRef) (bs : List BuildRef) (r : Runner) (addrs : List ℕ) (x : Build)
    → r.steps.heap.build b.addr ≡ some x
    → x.finished_in_db ≡ false
    → any (λ c. c == b.addr) addrs ≡ true
    → count_unfinished (close_builds (b ∷ bs) r).steps.heap addrs
      < count_unfinished r.steps.heap addrs
unfolding close_builds count_unfinished unfinished_at
close_builds-lt b bs r addrs x live unfinished m = omega (
  arith,
  close_builds-le bs (close_build b r) addrs,
  count-lt (unfinished_at r.steps.heap) (unfinished_at (close_build b r).steps.heap) b.addr
      (close_build-unfinished_at b r) (ground (arith, live)) addrs m,
)

missing-length : (paths : List StorePath) → missing paths [] ≤ length paths
unfolding missing
missing-length [] = omega arith
missing-length (p ∷ paths) = ground (arith, missing-length paths)

IsBounded-moved :
    (h h' : Heap) (paths : List StorePath) (addrs : List ℕ) (root : StepRef)
    → h'.step ≡ h.step
    → IsBounded h paths addrs root
    → IsBounded h' paths addrs root
IsBounded-moved h h' paths addrs root same b = record {
  within = λ a s e. b.within a s (sym (ap (λ g. g a) same) ∙ e);
  root_in = b.root_in;
  builds_in = λ a s e. b.builds_in a s (sym (ap (λ g. g a) same) ∙ e);
}

get_all_indirect_builds-is_out :
    (env : Env) (paths : List StorePath) (addrs : List ℕ) (step : StepRef) (r : Runner)
    → IsBounded r.steps.heap paths addrs step
    → length paths < env.search
    → is_out (get_all_indirect_builds env step r) ≡ false
unfolding get_all_indirect_builds is_out
get_all_indirect_builds-is_out env paths addrs step r b enough =
    let (found, e) =
      get_dependents_total r.steps.heap paths env.search step ([], []) b.within b.root_in
        (omega (arith, missing-length paths)) in
    by_found found.0 found.1 e
  where
    by_found :
        (bs : List BuildRef) (steps : List StepRef)
        → get_dependents env.search r.steps.heap step ([], []) ≡ some (bs, steps)
        → is_out (get_all_indirect_builds env step r) ≡ false
    by_found [] steps e = rw (e, get_all_indirect_builds) refl
    by_found (b ∷ bs) steps e = rw (e, get_all_indirect_builds) refl

-- A round that has found a build makes the number of unfinished builds smaller.
round-lt :
    (env : Env) (paths : List StorePath) (addrs : List ℕ) (step : StepRef) (r s : Runner)
    (b : BuildRef) (bs : List BuildRef)
    → IsBounded r.steps.heap paths addrs step
    → Looked env step r (b ∷ bs) s
    → (t : Runner) → SameHeap s t
    → count_unfinished (close_builds (b ∷ bs) t).steps.heap addrs
      < count_unfinished r.steps.heap addrs
round-lt env paths addrs step r s b bs bound (same, (steps, e)) t after =
    let d = (get_dependents-IsDependent env.search r.steps.heap step (b ∷ bs, steps) e).0 in
    let heap = after ∙ same in
    subst
      (λ h. count_unfinished (close_builds (b ∷ bs) t).steps.heap addrs < count_unfinished h addrs)
      heap
      (close_builds-lt b bs t addrs d.build (ap (λ (h : Heap). h.build b.addr) heap ∙ d.known)
        d.unfinished (bound.builds_in d.at.addr d.step d.live b d.owns))

-- The rounds that are still due, at most.
abbrev pub rounds_left : Heap → List ℕ → Bool → ℕ
rounds_left h addrs done = count_unfinished h addrs + (if done then 1 else 2)

fail_rounds_total :
    (n : ℕ) (env : Env) (machine : Option Text) (job : Job) (step : StepRef) (done : Bool)
    (ids : List ℕ) (paths : List StorePath) (addrs : List ℕ) (r : Runner)
    → IsBounded r.steps.heap paths addrs step
    → length paths < env.search
    → rounds_left r.steps.heap addrs done ≤ n
    → is_out (fail_rounds n env machine job step done ids r) ≡ false
unfolding fail_rounds is_done pure modify is_out close_builds ◌>>=◌
fail_rounds_total zero env machine job step done ids paths addrs r b enough h =
    absurd (ground arith)
fail_rounds_total (suc n) env machine job step done ids paths addrs r b enough h =
    bind-is_out (get_all_indirect_builds env step) _ r
      (get_all_indirect_builds-is_out env paths addrs step r b enough)
      λ bs s e.
        by_round bs done s h
          (subst (Ends (Looked env step r) (λ _. Unit {0})) e
            (get_all_indirect_builds-Looked env step r))
          (λ l t b' h'. fail_rounds_total n env machine job step true l paths addrs t b' enough h')
  where
    by_round :
        (bs : List BuildRef) (done : Bool) (s : Runner)
        → rounds_left r.steps.heap addrs done ≤ suc n
        → Looked env step r bs s
        → ((l : List ℕ) (t : Runner)
            → IsBounded t.steps.heap paths addrs step
            → rounds_left t.steps.heap addrs true ≤ n
            → is_out (fail_rounds n env machine job step true l t) ≡ false)
        → is_out (
            (elim (is_done bs done) as (λ _. Action (List ℕ)) [
              | true ↦ pure ids
              | false ↦ fail_builds env machine job step bs >>= λ _.
                  modify (close_builds bs) >>= λ _.
                  fail_rounds n env machine job step true (ids ++ map (λ (b : BuildRef). b.id) bs)
            ])
              s)
          ≡ false
    by_round [] true s h look rest = refl
    by_round [] false s h look rest =
        bind-is_out (fail_builds env machine job step []) _ s
          ((fail_builds-SameHeap env machine job step []).ends s)
          λ _ t e.
            let heap =
              subst (Ends (λ _ u. SameHeap s u) (SameHeap s)) e
                ((fail_builds-SameHeap env machine job step []).run s)
              ∙ look.0 in
            rest _ t (subst (λ g. IsBounded g paths addrs step) (sym heap) b)
              (subst (λ g. rounds_left g addrs true ≤ n) (sym heap) (ground (arith, h)))
    by_round (c ∷ bs) done s h look rest =
        bind-is_out (fail_builds env machine job step (c ∷ bs)) _ s
          ((fail_builds-SameHeap env machine job step (c ∷ bs)).ends s)
          λ _ t e.
            let after =
              subst (Ends (λ _ u. SameHeap s u) (SameHeap s)) e
                ((fail_builds-SameHeap env machine job step (c ∷ bs)).run s) in
            rest _ (close_builds (c ∷ bs) t)
              (IsBounded-moved r.steps.heap _ paths addrs step
                (close_builds-step (c ∷ bs) t ∙ ap (λ (h : Heap). h.step) (after ∙ look.0)) b)
              (ground (arith, h, round-lt env paths addrs step r s c bs b look t after))

-- `inner_fail_job` comes to an end: if the search may go one deeper than there are derivation paths
-- and the loop may take two rounds more than there are unfinished builds, then it returns or fails.
-- The paths are those of the step and of all reverse dependencies, the builds those of all steps.
pub inner_fail_job_total :
    (env : Env) (machine : Option Text) (job : Job) (step : StepRef) (paths : List StorePath)
    (addrs : List ℕ) (r : Runner)
    → IsBounded r.steps.heap paths addrs step
    → length paths < env.search
    → count_unfinished r.steps.heap addrs + 2 ≤ env.rounds
    → is_out (inner_fail_job env machine job step r) ≡ false
unfolding inner_fail_job notify_failed trigger_dispatch
inner_fail_job_total env machine job step paths addrs r b enough h =
    bind-is_out _ _ r (first.ends r) λ _ s e.
      let same : SameHeap r s = subst (Ends (λ _ u. SameHeap r u) (SameHeap r)) e (first.run r) in
      bind-is_out _ _ s
        (fail_rounds_total env.rounds env machine (with_stop_time env job) step false [] paths addrs
          s (subst (λ g. IsBounded g paths addrs step) (sym same) b) enough
          (subst (λ g. rounds_left g addrs false ≤ env.rounds) (sym same) h))
        λ ids t _. (last ids).ends t
  where
    first : Moves SameHeap (
        if (with_stop_time env job).step_nr == 0
        then pure tt
        else finish_build_step env
            (with_stop_time env job).build_id
            (with_stop_time env job).step_nr
            (with_stop_time env job).result
            machine)
    first = if-Moves _ (pure-Moves tt) (finish_build_step-Moves env _ _ _ machine)

    last :
        (ids : List ℕ)
        → Moves SameHeap (notify_failed env (with_stop_time env job) ids >> modify trigger_dispatch)
    last ids =
        bind-Moves
          (bind-Moves (begin_transaction-Moves env)
            λ _. bind-Moves (execute-Moves env _) λ _. commit-Moves env)
          λ _. modify-Moves trigger_dispatch λ r. refl

-- ===== src/State/Build/Propagate/Reach.antt =====
-- What the search of `propagate_priorities` has reached when it ends.
use hydra_queue_runner.Base.{
  some, ℕ, zero, suc, ◌≡◌, sym, ap, subst, ◌∙◌, ◌⊎◌, inl, inr, not, List, [], ◌∷◌, ◌++◌, arith,
  ◌==◌, Bool-cases, Option-cases, All, In, some_inj, All-retain, All-In,
}
use hydra_queue_runner.NixUtils.StorePath.{StorePath}
use hydra_queue_runner.State.Heap.{StepRef, Step, Build, Heap, set_step, contains_step}
use hydra_queue_runner.State.Step.{get_all_deps_not_queued}
use hydra_queue_runner.State.Build.{raise_step, insert_all, propagate}
use hydra_queue_runner.State.Build.Raised.{IsServed, raise_step-IsServed}
use hydra_queue_runner.State.Build.Propagate.{
  IsRegistered, DepsRegistered, contains-In, All-insert_all, insert_all_kept, insert_all-In,
  insert_all_from,
}
use hydra_queue_runner.State.Build.Propagate.Served.{
  IsDone, new_deps, retain-In, In-append_left, In-append_right, propagate_live, propagate_dead,
  get-set,
}

-- What the search has reached in the end.
abbrev pub Reached : Build → Heap → List StepRef → List StepRef → Type 0
Reached b to seen todo =
    (l : List StepRef) × ((r : StepRef) → In r seen → In r l)
    × ((r : StepRef) → In r todo → In r l)
    × ((r : StepRef) → In r l → IsDone b to l r)

module _ (f : StorePath → ℕ) (b : Build) where
  raised_deps :
      (h : Heap) (queued : List StepRef) (s : Step)
      → All (IsRegistered f) queued
      → All (IsRegistered f) s.state.deps
      → (d : StepRef) → In d s.state.deps
      → In d (insert_all (new_deps queued b s) queued)
  unfolding raise_step get_all_deps_not_queued
  raised_deps h queued s i j d m = elim (retain-In queued s.state.deps d m) [
    | inl seen ↦
        insert_all_kept f (new_deps queued b s) queued d
          (contains-In f queued d i (All-In (IsRegistered f) s.state.deps d j m) seen)
    | inr new ↦
        insert_all-In f (new_deps queued b s) queued d i
          (All-retain (IsRegistered f) (λ dep. not (contains_step queued dep)) s.state.deps j) new
  ]

  new_deps-IsRegistered :
      (queued : List StepRef) (s : Step)
      → All (IsRegistered f) s.state.deps
      → All (IsRegistered f) (new_deps queued b s)
  unfolding raise_step get_all_deps_not_queued
  new_deps-IsRegistered queued s j =
      All-retain (IsRegistered f) (λ dep. not (contains_step queued dep)) s.state.deps j

  set-DepsRegistered :
      (h : Heap) (a : ℕ) (s : Step)
      → DepsRegistered f h
      → All (IsRegistered f) s.state.deps
      → DepsRegistered f (set_step h a (raise_step b s))
  unfolding raise_step
  set-DepsRegistered h a s v j c t e = elim (Bool-cases (a == c)) [
    | inl same ↦
        subst (λ (x : Step). All (IsRegistered f) x.state.deps)
          (some_inj (raise_step b s) t (ground (arith, get-set h a c (raise_step b s)))) j
    | inr other ↦ v c t (ground (arith, get-set h a c (raise_step b s)))
  ]

  raised-IsDone :
      (h : Heap) (queued : List StepRef) (s t : Step)
      → All (IsRegistered f) queued
      → All (IsRegistered f) s.state.deps
      → raise_step b s ≡ t
      → IsServed b t
        × ((d : StepRef) → In d t.state.deps → In d (insert_all (new_deps queued b s) queued))
  unfolding raise_step
  raised-IsDone h queued s t i j e =
      subst
        (λ (x : Step).
          IsServed b x
          × ((d : StepRef) → In d x.state.deps → In d (insert_all (new_deps queued b s) queued)))
        e (raise_step-IsServed b s, raised_deps h queued s i j)

  -- A round keeps what is done, and does the step that it takes.
  round-IsDone :
      (h : Heap) (queued : List StepRef) (r : StepRef) (s : Step)
      → All (IsRegistered f) queued
      → All (IsRegistered f) s.state.deps
      → (x : StepRef) → (x ≡ r) ⊎ IsDone b h queued x
      → IsDone b (set_step h r.addr (raise_step b s)) (insert_all (new_deps queued b s) queued) x
  round-IsDone h queued r s i j x before t e =
      let cell = get-set h r.addr x.addr (raise_step b s) in
      elim (Bool-cases (r.addr == x.addr)) [
        | inl same ↦
            raised-IsDone h queued s t i j (some_inj (raise_step b s) t (ground (arith, cell)))
        | inr other ↦ elim before [
          | inl here ↦ absurd (ground (arith, ap (λ (y : StepRef). y.addr) here))
          | inr done ↦
              let (served, deps) = done t (ground (arith, cell)) in
              (served, λ d m. insert_all_kept f (new_deps queued b s) queued d (deps d m))
        ]
      ]

  -- The loop, from a state in which what was taken is done and what was queued is taken or waits.
  pub propagate-Reached :
      (fuel : ℕ) (queued todo seen : List StepRef) (h to : Heap)
      → DepsRegistered f h
      → All (IsRegistered f) queued
      → ((r : StepRef) → In r seen → IsDone b h queued r)
      → ((q : StepRef) → In q queued → In q seen ⊎ In q todo)
      → propagate fuel b queued todo h ≡ some to
      → Reached b to seen todo
  unfolding propagate
  propagate-Reached fuel queued [] seen h to v i done sub e =
      subst (λ (x : Heap). Reached b x seen []) (some_inj h to e)
        (
          seen,
          λ r m. m,
          λ r m. absurd m,
          λ r m s live.
              let (served, deps) = done r m s live in
              (served, λ d k. elim (sub d (deps d k)) [ inl n ↦ n | inr n ↦ absurd n ]),
        )
  propagate-Reached zero queued (r ∷ todo) seen h to v i done sub e = absurd (ground arith)
  propagate-Reached (suc fuel) queued (r ∷ todo) seen h to v i done sub e =
      elim (Option-cases (h.step r.addr)) [
        | inl gone ↦
            let (l, old, waiting, all_done) =
              propagate-Reached fuel queued todo (r ∷ seen) h to v i
                (λ x m. elim m [
                  | inl here ↦
                      λ s live. absurd (ground (arith, ap (λ (y : StepRef). h.step y.addr) here))
                  | inr k ↦ done x k
                ])
                (λ q m. elim (sub q m) [
                  | inl k ↦ inl (inr k)
                  | inr k ↦ elim k [ inl here ↦ inl (inl here) | inr n ↦ inr n ]
                ])
                (sym (propagate_dead fuel b queued todo r h gone) ∙ e) in
            (
              l,
              λ x m. old x (inr m),
              λ x m. elim m [ inl here ↦ old x (inl here) | inr k ↦ waiting x k ],
              all_done,
            )
        | inr (s, live) ↦
            let deps = new_deps queued b s in
            let j = v r.addr s live in
            let (l, old, waiting, all_done) =
              propagate-Reached fuel (insert_all deps queued) (todo ++ deps) (r ∷ seen)
                (set_step h r.addr (raise_step b s)) to (set-DepsRegistered h r.addr s v j)
                (All-insert_all f deps queued i (new_deps-IsRegistered queued s j))
                (λ x m. elim m [
                  | inl here ↦ round-IsDone h queued r s i j x (inl here)
                  | inr k ↦ round-IsDone h queued r s i j x (inr (done x k))
                ])
                (λ q m. elim (insert_all_from f deps queued q m) [
                  | inl k ↦ inr (In-append_right todo deps q k)
                  | inr k ↦ elim (sub q k) [
                    | inl n ↦ inl (inr n)
                    | inr n ↦ elim n [
                      | inl here ↦ inl (inl here)
                      | inr o ↦ inr (In-append_left todo deps q o)
                    ]
                  ]
                ])
                (sym (propagate_live fuel b queued todo r h s live) ∙ e) in
            (
              l,
              λ x m. old x (inr m),
              λ x m. elim m [
                | inl here ↦ old x (inl here)
                | inr k ↦ waiting x (In-append_left todo deps x k)
              ],
              all_done,
            )
      ]

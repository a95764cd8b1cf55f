-- ===== src/State/Steps/Create.antt =====
-- `Steps::create` hands out one step for each derivation path.
use hydra_queue_runner.Base.{
  ℕ, ◌≤◌, ◌<◌, ◌≡◌, subst, ◌≢◌, inl, inr, true, not, ◌||◌, Option, none, some, arith, ◌==◌, is_some,
  Bool-cases, Option-cases, some_inj,
}
use hydra_queue_runner.Base.Map
use hydra_queue_runner.Base.Map.{Map, get-insert, get-remove}
use hydra_queue_runner.NixUtils.StorePath.{StorePath, path_Eq, path_eq_iff}
use hydra_queue_runner.State.Heap.{StepRef, BuildRef, Step, Heap, set_step, modify_step}
use hydra_queue_runner.State.Step.{new_step, add_referring_data}
use hydra_queue_runner.State.Step.Invariant.{
  IsConsistent, new_step-IsConsistent, add_referring_data-IsConsistent,
}
use hydra_queue_runner.State.Steps.{Steps, is_live, registered, create}

-- The registry is well formed: an entry's reference carries the key, addresses from `next` on are
-- free, every entry was handed out, and every live step is consistent.
pub record IsRegistry (st : Steps) : Type 0 where
  pub keyed : (p : StorePath) (r : StepRef) → Map.get p st.inner ≡ some r → r.drv_path ≡ p
  pub handed_out : (p : StorePath) (r : StepRef) → Map.get p st.inner ≡ some r → r.addr < st.next
  pub free : (a : ℕ) → st.next ≤ a → st.heap.step a ≡ none
  pub consistent : (a : ℕ) (s : Step) → st.heap.step a ≡ some s → IsConsistent s

registered-found :
    (st : Steps) (p : StorePath) (r : StepRef)
    → registered st p ≡ some r
    → (Map.get p st.inner ≡ some r) × (is_live st.heap r ≡ true)
unfolding registered
registered-found st p r h = ground arith

live_after_set :
    (h : Heap) (a : ℕ) (s : Step) (r : StepRef)
    → is_live (set_step h a s) r ≡ (a == r.addr || is_live h r)
unfolding is_live set_step
live_after_set h a s r = ground arith

live_after_modify :
    (h : Heap) (q : StepRef) (f : Step → Step) (r : StepRef)
    → is_live (modify_step h q f) r ≡ is_live h r
unfolding is_live modify_step
live_after_modify h q f r = ground arith

set_step-IsConsistent :
    (h : Heap) (a : ℕ) (x : Step)
    → IsConsistent x
    → ((b : ℕ) (s : Step) → h.step b ≡ some s → IsConsistent s)
    → (b : ℕ) (s : Step) → (set_step h a x).step b ≡ some s
    → IsConsistent s
unfolding set_step
set_step-IsConsistent h a x new old b s e = elim (Bool-cases (a == b)) [
  | inl here ↦ subst IsConsistent (some_inj x s (ground arith)) new
  | inr there ↦ old b s (ground arith)
]

modify_step-IsConsistent :
    (h : Heap) (r : StepRef) (f : Step → Step)
    → ((s : Step) → IsConsistent s → IsConsistent (f s))
    → ((b : ℕ) (s : Step) → h.step b ≡ some s → IsConsistent s)
    → (b : ℕ) (s : Step) → (modify_step h r f).step b ≡ some s
    → IsConsistent s
unfolding modify_step
modify_step-IsConsistent h r f keep old b s e = elim (Option-cases (h.step r.addr)) [
  | inl gone ↦ old b s (ground arith)
  | inr (x, live) ↦
      set_step-IsConsistent h r.addr (f x) (keep x (old r.addr x live)) old b s (ground arith)
]

module _ (p : StorePath) (b : Option BuildRef) (r : Option StepRef) (st : Steps) where
  fresh_ref : StepRef
  fresh_ref = record { addr = st.next; drv_path = p }

  -- The step that `create` returns is the one that is registered afterwards, whatever there was,
  -- and it is reported as new exactly if no live step was registered.
  pub create-registered :
      (registered (create p b r st).0 p ≡ some (create p b r st).1)
      × ((create p b r st).2 ≡ not (is_some (registered st p)))
  unfolding create fresh_ref
  create-registered = elim (Option-cases (registered st p)) [
    | inl e ↦
        rw (e, create)
          (ground (
            arith,
            get-insert p p fresh_ref st.inner,
            path_eq_iff p p,
            live_after_set st.heap st.next (add_referring_data b r (new_step p)) fresh_ref,
          ))
    | inr (x, e) ↦
        rw (e, create)
          (ground (
            arith,
            get-insert p p x st.inner,
            path_eq_iff p p,
            registered-found st p x e,
            live_after_modify st.heap x (add_referring_data b r) x,
          ))
  ]

  -- On a well-formed registry `create` for one derivation path leaves what is registered under
  -- every other path as it was.
  pub create-registered_ne :
      (q : StorePath) → IsRegistry st → q ≢ p → registered (create p b r st).0 q ≡ registered st q
  unfolding create fresh_ref
  create-registered_ne q v ne = elim (Option-cases (registered st p)) [
    | inl e ↦
        rw (e, create)
          (elim (Option-cases (Map.get q st.inner)) [
            | inl no_entry ↦ ground (arith, get-insert p q fresh_ref st.inner, path_eq_iff p q)
            | inr (y, entry) ↦ ground (
              arith,
              get-insert p q fresh_ref st.inner,
              path_eq_iff p q,
              v.handed_out q y entry,
              live_after_set st.heap st.next (add_referring_data b r (new_step p)) y,
            )
          ])
    | inr (x, e) ↦
        rw (e, create)
          (elim (Option-cases (Map.get q st.inner)) [
            | inl no_entry ↦ ground (arith, get-insert p q x st.inner, path_eq_iff p q)
            | inr (y, entry) ↦ ground (
              arith,
              get-insert p q x st.inner,
              path_eq_iff p q,
              live_after_modify st.heap x (add_referring_data b r) y,
            )
          ])
  ]

  -- `create` keeps the registry well formed: every entry's reference carries its key and an
  -- address that was handed out, the addresses from the next one on are free, and every live step
  -- is consistent.
  pub create-IsRegistry : IsRegistry st → IsRegistry (create p b r st).0
  unfolding create fresh_ref
  create-IsRegistry v = elim (Option-cases (registered st p)) [
    | inl e ↦
        rw (e, create)
          (record {
            keyed = λ q y h.
                ground (arith, get-insert p q fresh_ref st.inner, path_eq_iff p q, v.keyed q y);
            handed_out =
                λ q y h. ground (arith, get-insert p q fresh_ref st.inner, v.handed_out q y);
            free = λ a h. unfold set_step in ground (arith, v.free a);
            consistent =
                set_step-IsConsistent st.heap st.next (add_referring_data b r (new_step p))
                  (add_referring_data-IsConsistent b r (new_step p) (new_step-IsConsistent p))
                  v.consistent;
          })
    | inr (x, e) ↦
        rw (e, create)
          (record {
            keyed = λ q y h. ground (
              arith,
              get-insert p q x st.inner,
              path_eq_iff p q,
              v.keyed q y,
              v.keyed p x (registered-found st p x e).0,
            );
            handed_out = λ q y h. ground (
              arith,
              get-insert p q x st.inner,
              v.handed_out q y,
              v.handed_out p x (registered-found st p x e).0,
            );
            free = λ a h.
                unfold modify_step in
                ground (arith, v.free a, v.handed_out p x (registered-found st p x e).0);
            consistent =
                modify_step-IsConsistent st.heap x (add_referring_data b r)
                  (add_referring_data-IsConsistent b r) v.consistent;
          })
  ]

-- ===== src/State/Queue/Insert.antt =====
-- New jobs in a build queue: each step stands in it once.
use hydra_queue_runner.Base.{
  ℕ, ◌+◌, ◌≤◌, ◌<◌, ◌≡◌, refl, subst, inl, inr, true, false, not, ◌&&◌, ◌||◌, List, [], ◌∷◌, ◌++◌,
  arith, if◌then◌else◌, Bool-cases, any, count_if,
}
use hydra_queue_runner.Base.Text.{text_Eq}
use hydra_queue_runner.Base.Words.{add64}
use hydra_queue_runner.NixUtils.StorePath.{StorePath, path_eq, path_eq_iff}
use hydra_queue_runner.State.Queue.{InnerQueues, owned, push_new, wait_ms}

-- The jobs of a list that are alive and belong to the step at a path.
unfoldable pub live_count : InnerQueues → List ℕ → StorePath → List ℕ → ℕ
live_count q held p l = count_if (λ a. owned q held a && path_eq (q.infos a).step.drv_path p) l

module _ (q : InnerQueues) (held : List ℕ) where
  live_count-push :
      (p : StorePath) (l : List ℕ) (a : ℕ)
      → live_count q held p (l ++ a ∷ [])
        ≡ live_count q held p l
          + (if owned q held a && path_eq (q.infos a).step.drv_path p then 1 else 0)
  unfolding live_count
  live_count-push p [] a = ground arith
  live_count-push p (b ∷ l) a = ground (arith, live_count-push p l a)

  -- If no live job of the list has the step of `a`, the step's count is zero.
  unknown-zero :
      (p : StorePath) (l : List ℕ)
      → any (λ b. owned q held b && path_eq (q.infos b).step.drv_path p) l ≡ false
      → live_count q held p l ≡ 0
  unfolding live_count
  unknown-zero p [] h = refl
  unknown-zero p (b ∷ l) h = ground (arith, unknown-zero p l)

  known-pos :
      (p : StorePath) (l : List ℕ)
      → any (λ b. owned q held b && path_eq (q.infos b).step.drv_path p) l ≡ true
      → 0 < live_count q held p l
  unfolding live_count
  known-pos p [] h = cc
  known-pos p (b ∷ l) h = ground (arith, known-pos p l)

  -- Adding a live job whose step no live job of the list has.
  push-once :
      (l : List ℕ) (a : ℕ)
      → any (λ b. owned q held b && path_eq (q.infos b).step.drv_path (q.infos a).step.drv_path) l
        ≡ false
      → ((p : StorePath) → live_count q held p l ≤ 1)
      → (p : StorePath) → live_count q held p (l ++ a ∷ []) ≤ 1
  push-once l a fresh once p = elim (Bool-cases (path_eq (q.infos a).step.drv_path p)) [
    | inl e ↦
        let same = (path_eq_iff (q.infos a).step.drv_path p).0 e in
        let none_yet = unknown-zero p l (
          subst (λ x. any (λ b. owned q held b && path_eq (q.infos b).step.drv_path x) l ≡ false)
            same fresh) in
        ground (arith, live_count-push p l a, none_yet)
    | inr e ↦ ground (arith, live_count-push p l a, once p)
  ]

  skip-once :
      (current : List ℕ) (a : ℕ)
      → ((p : StorePath) → live_count q held p current ≤ 1)
      → (p : StorePath)
      → (live_count q held p (
            if not (owned q held a)
              || any
                  (λ b.
                    owned q held b && path_eq (q.infos b).step.drv_path (q.infos a).step.drv_path)
                  current
            then current
            else current ++ a ∷ [])
          ≤ 1)
        × (live_count q held p current
            ≤ live_count q held p (
                if not (owned q held a)
                  || any
                      (λ b.
                        owned q held b
                        && path_eq (q.infos b).step.drv_path (q.infos a).step.drv_path)
                      current
                then current
                else current ++ a ∷ []))
  skip-once current a once p =
      elim (Bool-cases (
        any (λ b. owned q held b && path_eq (q.infos b).step.drv_path (q.infos a).step.drv_path)
          current)) [
            | inl e ↦ ground (arith, once p)
            | inr e ↦
                ground (arith, once p, push-once current a e once p, live_count-push p current a)
          ]

  -- If a list of current jobs holds at most one live job for each step, so does the list after
  -- the new jobs were pushed, and a step that had a live job in it still has one.
  pub push_new-count :
      (now : ℕ) (l current : List ℕ) (wait : ℕ)
      → ((p : StorePath) → live_count q held p current ≤ 1)
      → (p : StorePath)
      → (live_count q held p (push_new q held now l current wait).0 ≤ 1)
        × (live_count q held p current ≤ live_count q held p (push_new q held now l current wait).0)
  unfolding push_new
  push_new-count now [] current wait once p = (once p, omega arith)
  push_new-count now (a ∷ l) current wait once p =
      let skip =
        not (owned q held a)
        || any (λ b. owned q held b && path_eq (q.infos b).step.drv_path (q.infos a).step.drv_path)
            current in
      let current' = if skip then current else current ++ a ∷ [] in
      let wait' = if skip then wait else add64 wait (wait_ms now (q.infos a).runnable_since) in
      let (once', kept) =
        push_new-count now l current' wait' (λ p'. (skip-once current a once p').0) p in
      let grows = (skip-once current a once p).1 in (once', omega (arith, grows, kept))

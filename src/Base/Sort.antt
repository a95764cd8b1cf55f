-- ===== src/Base/Sort.antt =====
-- `slice::sort_by`: a stable sort by a comparison function, as insertion from the right.
use Prim.Native.Nat.{Ordering}
use mathlib.Core.Logic.{◌≢◌}
use mathlib.Core.Path.{◌≡◌, refl}
use mathlib.Core.Bool.{Bool}
use mathlib.Core.List.{List, [], ◌∷◌}
use native.Mathlib.Omega.{arith}
use hydra_queue_runner.Base.Lists.{All, count_if}
use mathlib.Core.List.{Perm}
use mathlib.Core.List.Perm
use hydra_queue_runner.Base.Compare.{IsTotal}

module _ {A : Type 0} (cmp : A → A → Ordering) where
  -- A value goes in front of the first one that is not smaller, so equal values keep their order.
  unfoldable pub insert_sorted : A → List A → List A
  insert_sorted a [] = a ∷ []
  insert_sorted a (b ∷ l) = elim (cmp a b) [ Ordering.gt ↦ b ∷ insert_sorted a l | _ ↦ a ∷ b ∷ l ]

  unfoldable pub sort_by : List A → List A
  unfolding insert_sorted
  sort_by [] = []
  sort_by (a ∷ l) = insert_sorted a (sort_by l)

  -- No later value is smaller than an earlier one.
  abbrev pub IsSorted : List A → Type 0
  IsSorted [] = Unit {0}
  IsSorted (a ∷ l) = All (λ b. cmp a b ≢ Ordering.gt) l × IsSorted l

  All-insert_sorted :
      (P : A → Type 0) (a : A) (l : List A) → P a → All P l → All P (insert_sorted a l)
  unfolding insert_sorted
  All-insert_sorted P a [] p q = (p, tt)
  All-insert_sorted P a (b ∷ l) p q = ground (arith, All-insert_sorted P a l p q.1)

  pub All-sort_by : (P : A → Type 0) (l : List A) → All P l → All P (sort_by l)
  unfolding sort_by
  All-sort_by P [] q = tt
  All-sort_by P (a ∷ l) q = All-insert_sorted P a (sort_by l) q.0 (All-sort_by P l q.1)

  module _ (t : IsTotal cmp) where
    below_mono :
        (a b : A) (l : List A)
        → cmp a b ≢ Ordering.gt
        → All (λ c. cmp b c ≢ Ordering.gt) l
        → All (λ c. cmp a c ≢ Ordering.gt) l
    below_mono a b [] h q = tt
    below_mono a b (c ∷ l) h q = (t.trans a b c h q.0, below_mono a b l h q.1)

    insert_sorted-IsSorted : (a : A) (l : List A) → IsSorted l → IsSorted (insert_sorted a l)
    unfolding insert_sorted
    insert_sorted-IsSorted a [] s = (tt, tt)
    insert_sorted-IsSorted a (b ∷ l) s = ground (
      arith,
      insert_sorted-IsSorted a l s.1,
      t.flip a b,
      λ (h : cmp a b ≢ Ordering.gt). below_mono a b l h s.0,
      λ (h : cmp b a ≢ Ordering.gt). All-insert_sorted (λ c. cmp b c ≢ Ordering.gt) a l h s.0,
    )

    pub sort_by-IsSorted : (l : List A) → IsSorted (sort_by l)
    unfolding sort_by
    sort_by-IsSorted [] = tt
    sort_by-IsSorted (a ∷ l) = insert_sorted-IsSorted a (sort_by l) (sort_by-IsSorted l)

  insert_sorted-perm : (a : A) (l : List A) → Perm (insert_sorted a l) (a ∷ l)
  unfolding insert_sorted
  insert_sorted-perm a [] = Perm.refl (a ∷ [])
  insert_sorted-perm a (b ∷ l) =
      split (Perm.trans (Perm.cons b (insert_sorted-perm a l)) (Perm.swap a b l)) (cmp a b)
    where
      split :
          Perm (b ∷ insert_sorted a l) (a ∷ b ∷ l)
          → (o : Ordering)
          → Perm (elim o [ Ordering.gt ↦ b ∷ insert_sorted a l | _ ↦ a ∷ b ∷ l ]) (a ∷ b ∷ l)
      split rest Ordering.lt = Perm.refl (a ∷ b ∷ l)
      split rest Ordering.eq = Perm.refl (a ∷ b ∷ l)
      split rest Ordering.gt = rest

  pub sort_by-perm : (l : List A) → Perm (sort_by l) l
  unfolding sort_by
  sort_by-perm [] = Perm.refl []
  sort_by-perm (a ∷ l) =
      Perm.trans (insert_sorted-perm a (sort_by l)) (Perm.cons a (sort_by-perm l))

  count-insert_sorted :
      (p : A → Bool) (a : A) (l : List A) → count_if p (insert_sorted a l) ≡ count_if p (a ∷ l)
  unfolding insert_sorted
  count-insert_sorted p a [] = refl
  count-insert_sorted p a (b ∷ l) = ground (arith, count-insert_sorted p a l)

  -- Sorting changes no count.
  pub count-sort_by : (p : A → Bool) (l : List A) → count_if p (sort_by l) ≡ count_if p l
  unfolding sort_by
  count-sort_by p [] = refl
  count-sort_by p (a ∷ l) = ground (arith, count-insert_sorted p a (sort_by l), count-sort_by p l)

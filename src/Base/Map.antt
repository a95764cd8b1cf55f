-- ===== src/Base/Map.antt =====
-- `HashMap` as an association list: its order stands for the order, unknown to the program, in
-- which a hash map is iterated. Keys are compared by an instance of `Eq`.
use mathlib.Core.Path.{◌≡◌, refl}
use mathlib.Core.Logic.{◌↔◌}
use mathlib.Core.Bool.{Bool, true}
use mathlib.Core.Option.{Option, none, some}
use mathlib.Core.List.{List, [], ◌∷◌}
use native.Mathlib.Omega.{arith}
use hydra_queue_runner.Base.Lists.{count_if}
use hydra_queue_runner.Base.Tests.{if◌then◌else◌}

pub record Eq {ℓ} (A : Type ℓ) : Type ℓ where
  pub beq : A → A → Bool
  pub beq_iff : (a b : A) → (beq a b ≡ true) ↔ (a ≡ b)

abbrev pub Map : Type 0 → Type 0 → Type 0
Map K V = List (K × V)

module _ {K V : Type 0} ⦃e : Eq K⦄ where
  unfoldable pub get : K → Map K V → Option V
  get k [] = none
  get k ((j, v) ∷ m) = if e.beq j k then some v else get k m

  -- A key that is there keeps its place.
  unfoldable pub insert : K → V → Map K V → Map K V
  insert k v [] = (k, v) ∷ []
  insert k v ((j, w) ∷ m) = if e.beq j k then (k, v) ∷ m else (j, w) ∷ insert k v m

  unfoldable pub remove : K → Map K V → Map K V
  remove k [] = []
  remove k ((j, w) ∷ m) = let rest = remove k m in if e.beq j k then rest else (j, w) ∷ rest

  pub get-insert :
      (k j : K) (v : V) (m : Map K V)
      → get j (insert k v m) ≡ (if e.beq k j then some v else get j m)
  unfolding get insert
  get-insert k j v [] = refl
  get-insert k j v ((i, w) ∷ m) =
      ground (arith, e.beq_iff k j, e.beq_iff i k, e.beq_iff i j, get-insert k j v m)

  pub get-remove :
      (k j : K) (m : Map K V) → get j (remove k m) ≡ (if e.beq k j then none else get j m)
  unfolding get remove
  get-remove k j [] = ground arith
  get-remove k j ((i, w) ∷ m) =
      ground (arith, get-remove k j m, e.beq_iff i k, e.beq_iff i j, e.beq_iff k j)

-- Each key has one entry.
abbrev pub IsUnique : {K V : Type 0} ⦃e : Eq K⦄ → Map K V → Type 0
IsUnique ⦃e⦄ [] = Unit {0}
IsUnique ⦃e⦄ ((k, v) ∷ m) = (get ⦃e = e⦄ k m ≡ none) × IsUnique ⦃e = e⦄ m

module _ {K V : Type 0} ⦃e : Eq K⦄ where
  pub insert-IsUnique : (k : K) (v : V) (m : Map K V) → IsUnique m → IsUnique (insert k v m)
  unfolding insert get
  insert-IsUnique k v [] u = (refl, tt)
  insert-IsUnique k v ((j, w) ∷ m) u =
      ground (arith, insert-IsUnique k v m u.1, get-insert k j v m, e.beq_iff j k, e.beq_iff k j)

  pub remove-IsUnique : (k : K) (m : Map K V) → IsUnique m → IsUnique (remove k m)
  unfolding remove get
  remove-IsUnique k [] u = tt
  remove-IsUnique k ((j, w) ∷ m) u = ground (arith, remove-IsUnique k m u.1, get-remove k j m)

  -- What insertion and removal do to the number of entries that pass a test.
  pub count-insert_new :
      (p : K × V → Bool) (k : K) (v : V) (m : Map K V)
      → get k m ≡ none
      → count_if p (insert k v m) ≡ count_if p ((k, v) ∷ m)
  unfolding insert get
  count-insert_new p k v [] h = refl
  count-insert_new p k v ((j, w) ∷ m) h = ground (arith, count-insert_new p k v m)

  remove_absent : (k : K) (m : Map K V) → get k m ≡ none → remove k m ≡ m
  unfolding remove get
  remove_absent k [] h = refl
  remove_absent k ((j, w) ∷ m) h = ground (arith, remove_absent k m)

  pub count-remove :
      (p : K × V → Bool) (k : K) (v : V) (m : Map K V)
      → IsUnique m
      → get k m ≡ some v
      → count_if p m ≡ count_if p ((k, v) ∷ remove k m)
  unfolding remove get
  count-remove p k v [] u h = cc
  count-remove p k v ((j, w) ∷ m) u h =
      ground (arith, count-remove p k v m u.1, e.beq_iff j k, remove_absent k m)

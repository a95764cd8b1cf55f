-- ===== src/Base/Compare.antt =====
-- Three-way comparisons as values of `Ordering`, and what makes one a total preorder.
use Prim.Native.Nat.{ℕ, compare, Ordering}
use mathlib.Core.Path.{◌≡◌}
use mathlib.Core.Logic.{◌≢◌}
use native.Mathlib.Omega.{arith}

-- `Ordering::reverse`.
abbrev pub reverse : Ordering → Ordering
reverse Ordering.lt = Ordering.gt
reverse Ordering.eq = Ordering.eq
reverse Ordering.gt = Ordering.lt

-- The next comparison decides where the first finds no difference.
abbrev pub or_else : Ordering → Ordering → Ordering
or_else Ordering.lt d = Ordering.lt
or_else Ordering.eq d = d
or_else Ordering.gt d = Ordering.gt

-- The contract of a comparison function that `sort_by` takes: each pair is ordered one way, and
-- the order is transitive.
pub record IsTotal {ℓ} {A : Type ℓ} (cmp : A → A → Ordering) : Type ℓ where
  pub flip : (a b : A) → cmp b a ≡ reverse (cmp a b)
  pub trans : (a b c : A) → cmp a b ≢ Ordering.gt → cmp b c ≢ Ordering.gt → cmp a c ≢ Ordering.gt

compare-flip : (m n : ℕ) → compare n m ≡ reverse (compare m n)
compare-flip m n = ground arith

compare_trans :
    (a b c : ℕ) → compare a b ≢ Ordering.gt → compare b c ≢ Ordering.gt → compare a c ≢ Ordering.gt
compare_trans a b c h k = ground arith

module _ {ℓ} {A : Type ℓ} where
  -- A comparison of numbers that are read off the values.
  pub key-IsTotal : (key : A → ℕ) → IsTotal (λ a b. compare (key a) (key b))
  key-IsTotal key = record {
    flip = λ a b. compare-flip (key a) (key b);
    trans = λ a b c. compare_trans (key a) (key b) (key c);
  }

  reverse_trans :
      (cmp : A → A → Ordering)
      → IsTotal cmp
      → (a b c : A) → reverse (cmp a b) ≢ Ordering.gt
      → reverse (cmp b c) ≢ Ordering.gt
      → reverse (cmp a c) ≢ Ordering.gt
  reverse_trans cmp t a b c = ground (arith, t.flip a b, t.flip b c, t.flip a c, t.trans c b a)

  pub reverse-IsTotal : (cmp : A → A → Ordering) → IsTotal cmp → IsTotal (λ a b. reverse (cmp a b))
  reverse-IsTotal cmp t = record {
    flip = λ a b. ground (arith, t.flip a b);
    trans = reverse_trans cmp t;
  }

  or_else_trans :
      (first next : A → A → Ordering)
      → IsTotal first
      → IsTotal next
      → (a b c : A) → or_else (first a b) (next a b) ≢ Ordering.gt
      → or_else (first b c) (next b c) ≢ Ordering.gt
      → or_else (first a c) (next a c) ≢ Ordering.gt
  or_else_trans first next s t a b c = ground (
    arith,
    s.flip a b,
    s.flip b c,
    s.flip a c,
    s.trans a b c,
    s.trans c a b,
    s.trans b c a,
    t.trans a b c,
  )

  pub or_else-IsTotal :
      (first next : A → A → Ordering)
      → IsTotal first
      → IsTotal next
      → IsTotal (λ a b. or_else (first a b) (next a b))
  or_else-IsTotal first next s t = record {
    flip = λ a b. ground (arith, s.flip a b, t.flip a b);
    trans = or_else_trans first next s t;
  }

  pub swap-IsTotal : (cmp : A → A → Ordering) → IsTotal cmp → IsTotal (λ a b. cmp b a)
  swap-IsTotal cmp t = record { flip = λ a b. t.flip b a; trans = λ a b c h k. t.trans c b a k h }

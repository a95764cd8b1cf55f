-- ===== src/State/Jobset/Window.antt =====
-- The seconds of a jobset against the entries of its window.
use hydra_queue_runner.Base.{
  ℕ, ◌+◌, ◌%◌, ◌≤◌, ◌<◌, ◌≡◌, refl, Option, none, some, List, [], ◌∷◌, arith, ltb, ◌==◌,
  if◌then◌else◌, retain, All,
}
use hydra_queue_runner.Base.Words.{two_64, add64, sub64, key64}
use hydra_queue_runner.State.Jobset.{
  Jobset, scheduling_window, btree_insert, add_step, prune_loop, prune_steps,
}

-- The durations of the entries, added up as `i64` patterns.
unfoldable pub total : List (ℕ × ℕ) → ℕ
total [] = 0
total ((s, d) ∷ rest) = (d + total rest) % two_64

-- The keys rise along the list, as in a `BTreeMap`, and the times are `i64` patterns.
abbrev pub IsSorted : List (ℕ × ℕ) → Type 0
IsSorted [] = Unit {0}
IsSorted ((s, d) ∷ rest) =
    (s < two_64) × All (λ (e : ℕ × ℕ). key64 s < key64 e.0) rest × IsSorted rest

-- The duration that is stored under a start time.
unfoldable pub stored : ℕ → List (ℕ × ℕ) → Option ℕ
stored t [] = none
stored t ((s, d) ∷ rest) = if key64 t == key64 s then some d else stored t rest

total-lt : (l : List (ℕ × ℕ)) → total l < two_64
unfolding total
total-lt [] = omega arith
total-lt ((s, d) ∷ rest) = omega arith

starts_above_mono :
    (k m : ℕ) (l : List (ℕ × ℕ))
    → k ≤ m
    → All (λ (e : ℕ × ℕ). m < key64 e.0) l
    → All (λ (e : ℕ × ℕ). k < key64 e.0) l
starts_above_mono k m [] h a = tt
starts_above_mono k m ((s, d) ∷ rest) h a = (omega arith, starts_above_mono k m rest h a.1)

stored_above :
    (t : ℕ) (l : List (ℕ × ℕ)) → All (λ (e : ℕ × ℕ). key64 t < key64 e.0) l → stored t l ≡ none
unfolding stored
stored_above t [] h = refl
stored_above t ((s, d) ∷ rest) h = ground (arith, stored_above t rest h.1)

retain_above :
    (c : ℕ) (l : List (ℕ × ℕ))
    → All (λ (e : ℕ × ℕ). c < key64 e.0) l
    → retain (λ (e : ℕ × ℕ). ltb c (key64 e.0)) l ≡ l
retain_above c [] h = refl
retain_above c ((s, d) ∷ rest) h = ground (arith, retain_above c rest h.1)

-- A new start time adds its duration to the sum.
total-insert_new :
    (t d : ℕ) (l : List (ℕ × ℕ))
    → stored t l ≡ none
    → total (btree_insert t d l) ≡ (d + total l) % two_64
unfolding total stored btree_insert
total-insert_new t d [] h = ground arith
total-insert_new t d ((s, e) ∷ rest) h = ground (arith, total-insert_new t d rest)

-- A start time that is there gives up the duration that it had.
total-insert_old :
    (t d old : ℕ) (l : List (ℕ × ℕ))
    → IsSorted l
    → stored t l ≡ some old
    → (total (btree_insert t d l) + old) % two_64 ≡ (d + total l) % two_64
unfolding total stored btree_insert
total-insert_old t d old [] v h = ground arith
total-insert_old t d old ((s, e) ∷ rest) v h = ground (
  arith,
  total-insert_old t d old rest v.2,
  λ (lt : key64 t ≤ key64 s). starts_above_mono (key64 t) (key64 s) rest lt v.1,
  stored_above t rest,
)

insert-above :
    (k t d : ℕ) (l : List (ℕ × ℕ))
    → k < key64 t
    → All (λ (e : ℕ × ℕ). k < key64 e.0) l
    → All (λ (e : ℕ × ℕ). k < key64 e.0) (btree_insert t d l)
unfolding btree_insert
insert-above k t d [] h a = (h, tt)
insert-above k t d ((s, e) ∷ rest) h a = ground (arith, insert-above k t d rest h a.1)

insert-IsSorted :
    (t d : ℕ) (l : List (ℕ × ℕ)) → t < two_64 → IsSorted l → IsSorted (btree_insert t d l)
unfolding btree_insert
insert-IsSorted t d [] h v = (h, tt, tt)
insert-IsSorted t d ((s, e) ∷ rest) h v = ground (
  arith,
  insert-IsSorted t d rest h v.2,
  λ (le : key64 t ≤ key64 s). starts_above_mono (key64 t) (key64 s) rest le v.1,
  λ (lt : key64 s < key64 t). insert-above (key64 s) t d rest lt v.1,
)

-- Pruning takes the seconds of the entries that it drops off the sum: the difference stays.
prune_loop_sum :
    (cutoff seconds off : ℕ) (l : List (ℕ × ℕ))
    → seconds ≡ (total l + off) % two_64
    → (prune_loop cutoff l seconds).1 ≡ (total (prune_loop cutoff l seconds).0 + off) % two_64
unfolding prune_loop total sub64
prune_loop_sum cutoff seconds off [] h = h
prune_loop_sum cutoff seconds off ((s, d) ∷ rest) h =
    ground (arith, total-lt rest, prune_loop_sum cutoff (sub64 seconds d) off rest)

-- It keeps the entries that start after the cutoff.
prune_loop_kept :
    (cutoff seconds : ℕ) (l : List (ℕ × ℕ))
    → IsSorted l
    → (prune_loop cutoff l seconds).0 ≡ retain (λ (e : ℕ × ℕ). ltb (key64 cutoff) (key64 e.0)) l
unfolding prune_loop
prune_loop_kept cutoff seconds [] v = refl
prune_loop_kept cutoff seconds ((s, d) ∷ rest) v = ground (
  arith,
  prune_loop_kept cutoff (sub64 seconds d) rest v.2,
  λ (lt : key64 cutoff ≤ key64 s).
      retain_above (key64 cutoff) rest (starts_above_mono (key64 cutoff) (key64 s) rest lt v.1),
)

-- The window is well formed: sorted, and `seconds` is the sum of the stored durations.
pub record IsExact (j : Jobset) : Type 0 where
  pub sorted : IsSorted j.steps
  pub exact : j.seconds ≡ total j.steps

-- If the stored steps are sorted by their start and `seconds` is the sum of their durations
-- (modulo 2^64), this still holds after a step is added that starts at a second at which no
-- stored step starts.
pub add_step-IsExact :
    (j : Jobset) (t d : ℕ)
    → t < two_64
    → IsExact j
    → stored t j.steps ≡ none
    → IsExact (add_step j t d)
unfolding add_step
add_step-IsExact j t d h v fresh = record {
  sorted = insert-IsSorted t d j.steps h v.sorted;
  exact = ground (arith, total-insert_new t d j.steps, v.exact);
}

-- Pruning a sorted window whose `seconds` is the sum of its durations leaves exactly the entries
-- that start after `now - SCHEDULING_WINDOW`, with `seconds` the sum of theirs, and does not
-- change the shares.
pub prune_steps_lem :
    (now : ℕ) (j : Jobset)
    → IsExact j
    → ((prune_steps now j).steps
        ≡ retain (λ (e : ℕ × ℕ). ltb (key64 (sub64 now scheduling_window)) (key64 e.0)) j.steps)
      × ((prune_steps now j).seconds ≡ total (prune_steps now j).steps)
      × ((prune_steps now j).shares ≡ j.shares)
unfolding prune_steps
prune_steps_lem now j v = (
  prune_loop_kept (sub64 now scheduling_window) j.seconds j.steps v.sorted,
  omega (
    arith,
    prune_loop_sum (sub64 now scheduling_window) j.seconds 0 j.steps,
    total-lt j.steps,
    total-lt (prune_loop (sub64 now scheduling_window) j.steps j.seconds).0,
    v.exact,
  ),
  refl,
)

-- The defect: where a stored step starts at the same second, its duration stays in `seconds` though
-- its entry is gone. After one such call `seconds` is above the sum of the stored durations by that
-- duration (modulo 2^64), and no pruning takes it off again.
pub add_step_leak :
    (j : Jobset) (t d old now : ℕ)
    → IsExact j
    → stored t j.steps ≡ some old
    → ((add_step j t d).seconds ≡ (total (add_step j t d).steps + old) % two_64)
      × ((prune_steps now (add_step j t d)).seconds
          ≡ (total (prune_steps now (add_step j t d)).steps + old) % two_64)
unfolding add_step prune_steps add64
add_step_leak j t d old now v dup = (leaked, prune_loop_sum _ _ old _ leaked)
  where
    leaked : add64 j.seconds d ≡ (total (btree_insert t d j.steps) + old) % two_64
    leaked = omega (arith, total-insert_old t d old j.steps v.sorted dup, v.exact)

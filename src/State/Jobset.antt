-- ===== src/State/Jobset.antt =====
-- queue-runner/src/state/jobset.rs: the scheduling window of a jobset. `i64` values (times,
-- durations, seconds) are bit patterns. The atomics are fields, and a method returns the new record.
-- The arithmetic of `f64` is an argument.
pub mod Window
mod Tests
use hydra_queue_runner.Base.{
  ℕ, zero, suc, ◌+◌, ◌-◌, ◌*◌, ◌/◌, ◌%◌, ◌^◌, ◌≤◌, ◌<◌, min, max, compare, Ordering, ◌≡◌, refl, sym,
  ap, subst, ◌∙◌, ◌≡⟨◌⟩◌, ◌∎, ◌≢◌, ◌↔◌, ◌⊎◌, inl, inr, Bool, true, false, not, ◌&&◌, ◌||◌, Option,
  none, some, List, [], ◌∷◌, ◌++◌, map, flat_map, arith, ltb, leb, ◌==◌, if◌then◌else◌, is_some,
  unwrap_or, ltb→lt, ==_iff, Bool-cases, Option-cases, length, length-append, take, drop,
  take-append-drop, length-take, retain, any, all, find, count_if, All, length-retain, All-append,
  find-test, All-retain,
}
use hydra_queue_runner.Base.Text.{Text, codes, text_eq}
use hydra_queue_runner.Base.Words.{Floats, two_31, two_32, add64, sub64, key64, total_key}

pub record Jobset : Type 0 where
  pub id : ℕ
  pub project_name : Text
  pub name : Text
  pub seconds : ℕ
  pub shares : ℕ
  -- The start time and duration of the most recent build steps, in the order of the `BTreeMap`.
  pub steps : List (ℕ × ℕ)

abbrev pub scheduling_window : ℕ
scheduling_window = 24 * 60 * 60

-- `PartialEq for Jobset`
unfoldable pub jobset_eq : Jobset → Jobset → Bool
jobset_eq a b = a.id == b.id && text_eq a.project_name b.project_name && text_eq a.name b.name

unfoldable pub new_jobset : ℕ → Text → Text → Jobset
new_jobset id project_name name = record {
  id = id;
  project_name = project_name;
  name = name;
  seconds = 0;
  shares = 0;
  steps = [];
}

unfoldable pub full_name : Jobset → Text
full_name j = j.project_name ++ (codes ":" ++ j.name)

unfoldable pub share_used : Floats → Jobset → ℕ
share_used fl j = fl.div (fl.of_i64 j.seconds) (fl.of_u32 j.shares)

-- `shares.try_into()?` from `i32` to `u32`: a negative value is an error.
unfoldable pub set_shares : Jobset → ℕ → Option Jobset
set_shares j shares = if ltb shares two_31 then some (record j { shares = shares }) else none

-- `BTreeMap::insert`: an entry with the same key is overwritten.
unfoldable pub btree_insert : ℕ → ℕ → List (ℕ × ℕ) → List (ℕ × ℕ)
btree_insert start_time duration [] = (start_time, duration) ∷ []
btree_insert start_time duration ((s, d) ∷ rest) =
    if ltb (key64 start_time) (key64 s)
    then (start_time, duration) ∷ (s, d) ∷ rest
    else if key64 start_time == key64 s
    then (start_time, duration) ∷ rest
    else (s, d) ∷ btree_insert start_time duration rest

unfoldable pub add_step : Jobset → ℕ → ℕ → Jobset
unfolding btree_insert add64
add_step j start_time duration = record j {
  steps = btree_insert start_time duration j.steps;
  seconds = add64 j.seconds duration;
}

-- The loop of `prune_steps`, over the entries from the first and the running `seconds`.
unfoldable pub prune_loop : ℕ → List (ℕ × ℕ) → ℕ → List (ℕ × ℕ) × ℕ
prune_loop cutoff [] seconds = ([], seconds)
prune_loop cutoff ((start_time, duration) ∷ rest) seconds =
    if ltb (key64 cutoff) (key64 start_time)
    then ((start_time, duration) ∷ rest, seconds)
    else prune_loop cutoff rest (sub64 seconds duration)

unfoldable pub prune_steps : ℕ → Jobset → Jobset
unfolding prune_loop
prune_steps now j =
    let (steps, seconds) = prune_loop (sub64 now scheduling_window) j.steps j.seconds in
    record j { steps = steps; seconds = seconds }

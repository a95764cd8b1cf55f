-- ===== src/State/Machine/Capacity.antt =====
-- The capacity and score of a builder, of queue-runner/src/state/machine.rs. Comparisons of floats
-- are those of IEEE 754 on bit patterns.
pub mod Limits
use hydra_queue_runner.Base.{
  ℕ, zero, suc, ◌+◌, ◌-◌, ◌*◌, ◌/◌, ◌%◌, ◌^◌, ◌≤◌, ◌<◌, min, max, compare, Ordering, ◌≡◌, refl, sym,
  ap, subst, ◌∙◌, ◌≡⟨◌⟩◌, ◌∎, ◌≢◌, ◌↔◌, ◌⊎◌, inl, inr, Bool, true, false, not, ◌&&◌, ◌||◌, Option,
  none, some, List, [], ◌∷◌, ◌++◌, map, flat_map, arith, ltb, leb, ◌==◌, if◌then◌else◌, is_some,
  unwrap_or, ltb→lt, ==_iff, Bool-cases, Option-cases, length, length-append, take, drop,
  take-append-drop, length-take, retain, any, all, find, count_if, All, length-retain, All-append,
  In, any-append, some_inj, find-test, All-retain,
}
use hydra_queue_runner.Base.Text.{Text}
use hydra_queue_runner.Base.Words.{total_key, two_31, two_32, two_63, two_64}
use hydra_queue_runner.State.Machine.{Machine, contains_text}
use hydra_queue_runner.State.Machine.Counters.{Stats, Pressure, PressureState}

-- The operations of `f32` that the program takes from the hardware: multiplication, the cast from
-- `u32`, and the widening to `f64`.
pub record Floats32 : Type 0 where
  pub mul : ℕ → ℕ → ℕ
  pub of_u32 : ℕ → ℕ
  pub widen : ℕ → ℕ

-- A float is a sign bit of weight `half` and a magnitude; above `inf` it is not a number.
unfoldable pub float_lt : ℕ → ℕ → ℕ → ℕ → Bool
float_lt half inf a b =
    let x = a % half in
    let y = b % half in
    let key : ℕ → ℕ = λ v. if ltb v half then v + half else half + half - 1 - v in
    leb x inf && leb y inf && not (x == 0 && y == 0) && ltb (key a) (key b)

unfoldable pub lt32 : ℕ → ℕ → Bool
unfolding float_lt
lt32 a b = float_lt two_31 0x7f800000 a b

unfoldable pub lt64 : ℕ → ℕ → Bool
unfolding float_lt
lt64 a b = float_lt two_63 0x7ff0000000000000 a b

-- `f32::total_cmp`
unfoldable pub total_key32 : ℕ → ℕ
total_key32 x = if ltb x two_31 then x + two_31 else two_32 - 1 - x

pub data MachineSortFn : Type 0 where
  speed_factor_only cpu_core_count_with_speed_factor bogomips_with_speed_factor : MachineSortFn

pub data MachineFreeFn : Type 0 where
  dynamic dynamic_with_max_job_limit static : MachineFreeFn

unfoldable pub exceeds : Option Pressure → ℕ → Bool
unfolding lt32
exceeds none threshold = false
exceeds (some p) threshold = lt32 threshold p.avg10

-- `pressure.as_ref().and_then(..)`
unfoldable pub pressure_of :
    (PressureState → Option Pressure) → Option PressureState → Option Pressure
pressure_of f none = none
pressure_of f (some p) = f p

unfoldable pub has_dynamic_capacity : Machine → Bool
unfolding exceeds lt32 pressure_of
has_dynamic_capacity m =
    let pressure = m.stats.pressure in
    elim (pressure_of (λ v. v.cpu_some) pressure) [
      | some cpu_some ↦
          if lt32 m.join.cpu_psi_threshold cpu_some.avg10
          then false
          else if exceeds (pressure_of (λ v. v.mem_full) pressure) m.join.mem_psi_threshold
          then false
          else not (elim m.join.io_psi_threshold [
            | none ↦ false
            | some threshold ↦ exceeds (pressure_of (λ v. v.io_full) pressure) threshold
          ])
      | none ↦ not (lt32 m.join.load1_threshold m.stats.load1)
    ]

unfoldable pub has_static_capacity : Machine → Bool
has_static_capacity m = ltb m.stats.current_jobs m.join.max_jobs

-- More than thirty seconds since the window opened.
unfoldable pub window_over : ℕ → Stats → Bool
window_over now s = ltb (s.jobs_in_last_30s_start + 30) now

-- The refusal of a fifth job in thirty seconds.
unfoldable pub is_throttled : ℕ → Stats → Bool
unfolding window_over
is_throttled now s =
    not (window_over now s) && leb 4 s.jobs_in_last_30s_count && leb 4 s.current_jobs

unfoldable pub reset_window : Machine → Machine
reset_window m = record m {
  stats = record m.stats { jobs_in_last_30s_start = 0; jobs_in_last_30s_count = 0 };
}

unfoldable pub free_test : MachineFreeFn → Machine → Bool
unfolding has_dynamic_capacity has_static_capacity
free_test dynamic m = has_dynamic_capacity m
free_test dynamic_with_max_job_limit m = has_dynamic_capacity m && has_static_capacity m
free_test static m = has_static_capacity m

-- `has_capacity` at the time `now`: it resets the window of thirty seconds when that is over.
unfoldable pub has_capacity : Floats32 → ℕ → MachineFreeFn → Machine → Machine × Bool
unfolding window_over is_throttled reset_window free_test lt64
has_capacity fl now free m =
    if is_throttled now m.stats
    then (m, false)
    else let m' = if window_over now m.stats then reset_window m else m in
      (
        m',
        not (lt64 m'.stats.build_dir_free_percent (fl.widen m'.join.build_dir_avail_threshold))
            && not (lt64 m'.stats.store_free_percent (fl.widen m'.join.store_avail_threshold))
            && free_test free m',
      )

unfoldable pub supports_all_features : List Text → Machine → Bool
unfolding contains_text
supports_all_features features m = all (λ f. contains_text m.join.supported_features f) features

-- `1.0` as an `f32`.
abbrev pub f32_one : ℕ
f32_one = 0x3f800000

unfoldable pub score : Floats32 → MachineSortFn → Machine → ℕ
unfolding lt32
score fl speed_factor_only m = m.join.speed_factor
score fl cpu_core_count_with_speed_factor m =
    fl.mul m.join.speed_factor (fl.of_u32 m.join.cpu_count)
score fl bogomips_with_speed_factor m =
    let bogomips = if lt32 f32_one m.join.bogomips then m.join.bogomips else f32_one in
    fl.mul (fl.mul m.join.speed_factor bogomips) (fl.of_u32 m.join.cpu_count)

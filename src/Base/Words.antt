-- ===== src/Base/Words.antt =====
-- Machine integers and floats as bit patterns: an `i32`, `i64`, `u64` or `f64` is the number that
-- its bits spell. Signed values and floats are compared through a key that is monotone in them.
use Prim.Native.Nat.{ℕ, ◌+◌, ◌-◌, ◌%◌, ◌<◌}
use mathlib.Core.Path.{◌≡◌}
use native.Mathlib.Omega.{arith}
use hydra_queue_runner.Base.Tests.{ltb, if◌then◌else◌}

abbrev pub two_31 : ℕ
two_31 = 2147483648

abbrev pub two_32 : ℕ
two_32 = 4294967296

abbrev pub two_63 : ℕ
two_63 = 9223372036854775808

abbrev pub two_64 : ℕ
two_64 = 18446744073709551616

-- `u64::fetch_add`, which wraps, and `i64::fetch_add` on patterns.
unfoldable pub add64 : ℕ → ℕ → ℕ
add64 a b = (a + b) % two_64

-- `u64::fetch_sub` and `i64::fetch_sub`.
unfoldable pub sub64 : ℕ → ℕ → ℕ
sub64 a b = (a + (two_64 - b % two_64)) % two_64

-- Order-preserving keys: the sign bit is flipped.
unfoldable pub key32 : ℕ → ℕ
key32 x = (x + two_31) % two_32

unfoldable pub key64 : ℕ → ℕ
key64 x = (x + two_63) % two_64

-- `f64::total_cmp` flips every other bit of a negative value and compares as signed integers.
unfoldable pub total_key : ℕ → ℕ
total_key x = if ltb x two_63 then x + two_63 else two_64 - 1 - x

-- `i32::MAX`.
abbrev pub i32_max : ℕ
i32_max = 2147483647

pub add64-lt : (a b : ℕ) → add64 a b < two_64
unfolding add64
add64-lt a b = omega arith

-- A pattern that is added is taken off again.
pub sub64-add64 : (a b : ℕ) → a < two_64 → b < two_64 → sub64 (add64 a b) b ≡ a
unfolding sub64 add64
sub64-add64 a b ha hb = omega arith

-- The operations of `f64` that the program takes from the hardware, on bit patterns: the casts from
-- `i64` and `u32`, and division.
pub record Floats : Type 0 where
  pub of_i64 : ℕ → ℕ
  pub of_u32 : ℕ → ℕ
  pub div : ℕ → ℕ → ℕ

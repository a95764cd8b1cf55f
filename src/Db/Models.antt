-- ===== src/Db/Models.antt =====
-- crates/db/src/models.rs: the status enumerations and their integer codes. An `i32` is given by
-- its bit pattern, so a negative code is a large number and maps to nothing.
mod Tests
use hydra_queue_runner.Base.{
  ℕ, ◌≡◌, refl, Bool, true, false, Option, none, some, arith, ◌==◌, if◌then◌else◌, ◌↔◌, subst,
}

pub data BuildStatus : Type 0 where
  success failed dep_failed aborted cancelled failed_with_output timed_out cached_failure :
      BuildStatus
  unsupported log_limit_exceeded nar_size_limit_exceeded not_deterministic busy : BuildStatus

-- `self as i32`
unfoldable pub to_i32 : BuildStatus → ℕ
to_i32 success = 0
to_i32 failed = 1
to_i32 dep_failed = 2
to_i32 aborted = 3
to_i32 cancelled = 4
to_i32 failed_with_output = 6
to_i32 timed_out = 7
to_i32 cached_failure = 8
to_i32 unsupported = 9
to_i32 log_limit_exceeded = 10
to_i32 nar_size_limit_exceeded = 11
to_i32 not_deterministic = 12
to_i32 busy = 100

unfoldable pub from_i32 : ℕ → Option BuildStatus
from_i32 v =
    if v == 0
    then some success
    else if v == 1
    then some failed
    else if v == 2
    then some dep_failed
    else if v == 3
    then some aborted
    else if v == 4
    then some cancelled
    else if v == 6
    then some failed_with_output
    else if v == 7
    then some timed_out
    else if v == 8
    then some cached_failure
    else if v == 9
    then some unsupported
    else if v == 10
    then some log_limit_exceeded
    else if v == 11
    then some nar_size_limit_exceeded
    else if v == 12
    then some not_deterministic
    else if v == 100
    then some busy
    else none

-- `==` on statuses, derived.
unfoldable pub status_eq : BuildStatus → BuildStatus → Bool
unfolding to_i32
status_eq a b = to_i32 a == to_i32 b

from-to_i32 : (s : BuildStatus) → from_i32 (to_i32 s) ≡ some s
unfolding from_i32 to_i32
from-to_i32 success = refl
from-to_i32 _ = refl

from_i32_sound : (v : ℕ) (s : BuildStatus) → from_i32 v ≡ some s → to_i32 s ≡ v
unfolding from_i32 to_i32
from_i32_sound v success h = ground arith
from_i32_sound v _ h = ground arith

-- The codes and the statuses correspond: a number is read as a status exactly when it is that
-- status's code, so no two statuses share a code and every status can be read back.
pub from_i32-to_i32 : (v : ℕ) (s : BuildStatus) → (from_i32 v ≡ some s) ↔ (to_i32 s ≡ v)
from_i32-to_i32 v s = (from_i32_sound v s, λ e. subst (λ n. from_i32 n ≡ some s) e (from-to_i32 s))

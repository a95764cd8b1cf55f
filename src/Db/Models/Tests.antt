-- ===== src/Db/Models/Tests.antt =====
-- The status codes: tests.
use hydra_queue_runner.Base.{◌≡◌, refl, none, some}
use hydra_queue_runner.Db.Models.{timed_out, from_i32}

-- There is no status with code 5.
from_i32_tests : (from_i32 5 ≡ none) × (from_i32 7 ≡ some timed_out)
unfolding from_i32
from_i32_tests = (refl, refl)

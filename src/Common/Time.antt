-- ===== src/Common/Time.antt =====
-- Times of src/shared.c: microseconds and `struct timespec`.
mod Tests
use Prim.Native.Nat.{ℕ, ◌+◌, ◌*◌, ◌/◌, ◌%◌, ◌<◌}
use mathlib.Core.Path.{◌≡◌}
use native.Mathlib.Omega.{arith}

pub record Timespec : Type 0 where
  pub sec : ℕ
  pub nsec : ℕ

-- `us_to_timespec`, for times that are not negative
unfoldable pub us_to_timespec : ℕ → Timespec
us_to_timespec us = record { sec = us / 1000000; nsec = us % 1000000 * 1000 }

-- A `timespec` of a time has a valid count of nanoseconds and stands for exactly that time.
pub us_to_timespec_lem :
    (us : ℕ)
    → ((us_to_timespec us).nsec < 1000000000)
      × ((us_to_timespec us).sec * 1000000000 + (us_to_timespec us).nsec ≡ us * 1000)
unfolding us_to_timespec
us_to_timespec_lem us = (omega arith, omega arith)

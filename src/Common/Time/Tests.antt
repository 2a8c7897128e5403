-- ===== src/Common/Time/Tests.antt =====
-- Times of src/shared.c at concrete values.
use Prim.Native.Nat.{◌+◌, ◌*◌, ◌<◌}
use mathlib.Core.Path.{◌≡◌, refl}
use openwfd.Common.Time.{us_to_timespec, us_to_timespec_lem}

us_to_timespec_runs :
    ((us_to_timespec 2500001).sec ≡ 2) × ((us_to_timespec 2500001).nsec ≡ 500001000)
unfolding us_to_timespec
us_to_timespec_runs = (refl, refl)

us_to_timespec_lem_example :
    ((us_to_timespec 2500001).nsec < 1000000000)
    × ((us_to_timespec 2500001).sec * 1000000000 + (us_to_timespec 2500001).nsec ≡ 2500001 * 1000)
us_to_timespec_lem_example = us_to_timespec_lem 2500001

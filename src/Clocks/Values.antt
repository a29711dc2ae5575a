-- ===== src/Clocks/Values.antt =====
-- `TimeValue` and its conversions in api/src/time.rs. The fields of C structures are words.
use vegar.Prelude.{ℕ, ◌+◌, ◌-◌, ◌*◌, ◌/◌, ◌%◌, ◌^◌, ◌<◌, Option, none, some, ltb, if◌then◌else◌}

abbrev pub nanos_per_sec : ℕ
nanos_per_sec = 1_000_000_000

-- `core::time::Duration`
pub record TimeValue : Type 0 where
  pub secs : ℕ
  pub subsec_nanos : ℕ

pub record IsDuration (tv : TimeValue) : Type 0 where
  pub secs_lt : tv.secs < 2 ^ 64
  pub nanos_lt : tv.subsec_nanos < nanos_per_sec

-- `Duration::new` carries whole seconds over, and panics where the seconds overflow.
unfoldable pub new_duration : ℕ → ℕ → Option TimeValue
new_duration secs nanos =
    let all = secs + nanos / nanos_per_sec in
    if ltb all (2 ^ 64)
    then some (record { secs = all; subsec_nanos = nanos % nanos_per_sec })
    else none

unfoldable pub total_nanos : TimeValue → ℕ
total_nanos tv = tv.secs * nanos_per_sec + tv.subsec_nanos

unfoldable pub from_nanos : ℕ → TimeValue
from_nanos n = record { secs = n / nanos_per_sec; subsec_nanos = n % nanos_per_sec }

-- `Duration::checked_sub`
unfoldable pub checked_sub : TimeValue → TimeValue → Option TimeValue
checked_sub a b =
    if ltb (total_nanos a) (total_nanos b)
    then none
    else some (from_nanos (total_nanos a - total_nanos b))

-- `timespec`, and the structures of the kernel with the same fields.
pub record Timespec : Type 0 where
  pub tv_sec : ℕ
  pub tv_nsec : ℕ

unfoldable pub timespec_from_time_value : TimeValue → Timespec
timespec_from_time_value tv = record { tv_sec = tv.secs; tv_nsec = tv.subsec_nanos }

unfoldable pub timespec_to_time_value : Timespec → Option TimeValue
timespec_to_time_value ts = new_duration ts.tv_sec (ts.tv_nsec % 2 ^ 32)

-- `timeval`, and the structures of the kernel with the same fields.
pub record Timeval : Type 0 where
  pub tv_sec : ℕ
  pub tv_usec : ℕ

unfoldable pub timeval_from_time_value : TimeValue → Timeval
timeval_from_time_value tv = record { tv_sec = tv.secs; tv_usec = tv.subsec_nanos / 1000 }

unfoldable pub timeval_to_time_value : Timeval → Option TimeValue
timeval_to_time_value tv = new_duration tv.tv_sec (tv.tv_usec % 2 ^ 32 * 1000 % 2 ^ 32)
